-- ===== src/Channel/Flags.antt =====
-- The event masks: the constants of core/net/event/event.cpp over those of poll.h and epoll.h,
-- and the tests and updates of core/net/event/event_channel.cpp. An `int` is its bit pattern.
use network_poller.Prelude.{ℕ, ◌+◌, ◌-◌, ◌^◌, Bool, not, ◌==◌, if◌then◌else◌, bit_and, bit_or}

-- EPOLLIN, EPOLLPRI, EPOLLOUT, EPOLLERR, EPOLLHUP, EPOLLET and their POLL namesakes, as Linux has
-- them.
abbrev pub poll_in : ℕ
poll_in = 1

abbrev pub poll_pri : ℕ
poll_pri = 2

abbrev pub poll_out : ℕ
poll_out = 4

abbrev pub poll_err : ℕ
poll_err = 8

abbrev pub poll_hup : ℕ
poll_hup = 16

abbrev pub poll_nval : ℕ
poll_nval = 32

abbrev pub poll_rdhup : ℕ
poll_rdhup = 0x2000

abbrev pub epoll_et : ℕ
epoll_et = 2 ^ 31

abbrev pub none_event_flag : ℕ
none_event_flag = 0

abbrev pub read_event_flag : ℕ
read_event_flag = bit_or (bit_or poll_in poll_pri) epoll_et

abbrev pub write_event_flag : ℕ
write_event_flag = poll_out

abbrev pub error_event_flag : ℕ
error_event_flag = poll_err

-- `a & b` where a Boolean is expected.
abbrev pub has : ℕ → ℕ → Bool
has a b = not (bit_and a b == 0)

-- `~a` on 32 bits.
abbrev pub complement : ℕ → ℕ
complement a = 2 ^ 32 - 1 - a

-- What a channel is interested in, as two Booleans, and the mask that stands for it.
pub record Interest : Type 0 where
  pub reading : Bool
  pub writing : Bool

abbrev pub encode : Interest → ℕ
encode i = (if i.reading then read_event_flag else 0) + (if i.writing then write_event_flag else 0)
