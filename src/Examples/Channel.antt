-- ===== src/Examples/Channel.antt =====
-- HandleEvent with callbacks that write down that they were called.
use network_poller.Prelude.{ℕ, ◌≡◌, refl, sym, ap, true, false, some, none, List, [], ◌∷◌, ◌++◌}
use network_poller.Result.{Result, ok, fault}
use network_poller.Channel.Flags.{Interest}
use network_poller.Channel.{
  Callbacks, handle_event, Ready, report, Stable, dispatch, handle_event-dispatch,
}

-- The report, and the calls so far.
abbrev Log : Type 0
Log = ℕ × List ℕ

abbrev notes : ℕ → Log → Result Log
notes n (received, calls) = ok (received, calls ++ n ∷ [])

abbrev callbacks : Callbacks Log
callbacks = record {
  close_event_cb = some (notes 1);
  error_event_cb = some (notes 2);
  read_event_cb = some (notes 3);
  write_event_cb = none;
}

notes-keeps : (n : ℕ) (s t : Log) → notes n s ≡ ok t → t.0 ≡ s.0
notes-keeps n s t e = sym (ap first e)
  where
    first : Result Log → ℕ
    first (ok u) = u.0
    first (fault f) = 0

none-keeps : (s t : Log) → ok s ≡ ok t → t.0 ≡ s.0
none-keeps s t e = cc

stable : Stable callbacks (λ s. s.0)
stable = record {
  on_close = notes-keeps 1;
  on_error = notes-keeps 2;
  on_read = notes-keeps 3;
  on_write = none-keeps;
}

abbrev hang_up : Ready
hang_up = record {
  readable = false;
  urgent = false;
  writable = true;
  failed = true;
  hung_up = true;
  invalid = false;
  peer_closed = true;
}

handle_event-dispatch_example :
    handle_event callbacks (λ s. s.0) (report hang_up, [])
    ≡ dispatch callbacks (λ s. s.0) hang_up (report hang_up, [])
handle_event-dispatch_example =
    handle_event-dispatch callbacks (λ s. s.0) stable hang_up (report hang_up, []) refl

abbrev reading_only : Interest
reading_only = record { reading = true; writing = false }
