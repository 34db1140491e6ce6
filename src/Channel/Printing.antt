-- ===== src/Channel/Printing.antt =====
-- EventsToString and ReceivedEventToString of event_channel.cpp. A text is a list of characters.
use network_poller.Prelude.{ℕ, List, [], ◌∷◌, ◌++◌, if◌then◌else◌}
use network_poller.Channel.Flags.{
  poll_in, poll_pri, poll_out, poll_err, poll_hup, poll_nval, poll_rdhup, has,
}
use network_poller.Channel.Defs.{Channel}

-- "IN ", "PRI ", "OUT ", "HUP ", "RDHUP ", "ERR " and "NVAL ".
abbrev words : List (ℕ × List ℕ)
words =
    (poll_in, 73 ∷ 78 ∷ 32 ∷ [])
    ∷ (poll_pri, 80 ∷ 82 ∷ 73 ∷ 32 ∷ [])
    ∷ (poll_out, 79 ∷ 85 ∷ 84 ∷ 32 ∷ [])
    ∷ (poll_hup, 72 ∷ 85 ∷ 80 ∷ 32 ∷ [])
    ∷ (poll_rdhup, 82 ∷ 68 ∷ 72 ∷ 85 ∷ 80 ∷ 32 ∷ [])
    ∷ (poll_err, 69 ∷ 82 ∷ 82 ∷ 32 ∷ [])
    ∷ (poll_nval, 78 ∷ 86 ∷ 65 ∷ 76 ∷ 32 ∷ [])
    ∷ []

abbrev words_of : ℕ → List (ℕ × List ℕ) → List ℕ
words_of ev [] = []
words_of ev ((flag, word) ∷ more) = (if has ev flag then word else []) ++ words_of ev more

-- `decimal` is how the library's streams print an `int`.
unfoldable pub events_to_string : (decimal : ℕ → List ℕ) → ℕ → ℕ → List ℕ
events_to_string decimal fd ev = decimal fd ++ (58 ∷ 32 ∷ words_of ev words)

unfoldable pub received_event_to_string : (decimal : ℕ → List ℕ) → Channel → List ℕ
unfolding events_to_string
received_event_to_string decimal c = events_to_string decimal c.fd c.events
