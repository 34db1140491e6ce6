-- ===== src/Channel/Defs.antt =====
-- class EventChannel of core/net/event/event_channel.h: its state, its masks and the dispatch of
-- the events received. The calls that reach the loop are in Loop/Defs.antt.
use network_poller.Prelude.{
  ℕ, Bool, not, ◌&&◌, Option, none, some, ◌==◌, if◌then◌else◌, bit_and, bit_or,
}
use network_poller.Result.{Result, ok, ◌>>=◌}
use network_poller.Channel.Flags.{
  poll_in, poll_pri, poll_out, poll_err, poll_hup, poll_nval, poll_rdhup, none_event_flag,
  read_event_flag, write_event_flag, has, complement,
}

-- enum ChannelStatus.
pub data Status : Type 0 where
  new_channel added_channel delete_channel : Status

-- `id` is the object's address, by which the poller and epoll refer to it, and `event_loop` the
-- address of the loop that owns it.
pub record Channel : Type 0 where
  pub id : ℕ
  pub fd : ℕ
  pub events : ℕ
  pub received_events : ℕ
  pub status : Status
  pub event_loop : ℕ

-- The constructor leaves `recieved_events` as it finds it.
unfoldable pub new_event_channel : ℕ → ℕ → ℕ → ℕ → Channel
new_event_channel id event_loop fd garbage = record {
  id = id;
  fd = fd;
  events = none_event_flag;
  received_events = garbage;
  status = new_channel;
  event_loop = event_loop;
}

abbrev pub is_none_event : Channel → Bool
is_none_event c = none_event_flag == c.events

abbrev pub is_reading : Channel → Bool
is_reading c = has read_event_flag c.events

abbrev pub is_writing : Channel → Bool
is_writing c = has write_event_flag c.events

-- The assignments to `events_` in EnableReading, DisableReading, EnableWriting, DisableWriting and
-- DisableAll.
abbrev pub with_reading : ℕ → ℕ
with_reading events = bit_or events read_event_flag

abbrev pub without_reading : ℕ → ℕ
without_reading events = bit_and events (complement read_event_flag)

abbrev pub with_writing : ℕ → ℕ
with_writing events = bit_or events write_event_flag

abbrev pub without_writing : ℕ → ℕ
without_writing events = bit_and events (complement write_event_flag)

abbrev pub without_all : ℕ → ℕ
without_all events = none_event_flag

unfoldable pub set_received_event : Channel → ℕ → Channel
set_received_event c event = record c { received_events = event }

unfoldable pub set_status_in_poller : Channel → Status → Channel
set_status_in_poller c status = record c { status = status }

-- The four callbacks, over whatever state they work on; `none` is an empty `std::function`.
pub record Callbacks {ℓ} (S : Type ℓ) : Type ℓ where
  pub read_event_cb : Option (S → Result S)
  pub write_event_cb : Option (S → Result S)
  pub close_event_cb : Option (S → Result S)
  pub error_event_cb : Option (S → Result S)

module _ {ℓ} {S : Type ℓ} where
  -- `if (cb) cb();`
  abbrev pub call : Option (S → Result S) → S → Result S
  call none s = ok s
  call (some cb) s = cb s

  abbrev pub call_if : Bool → Option (S → Result S) → S → Result S
  call_if test cb s = if test then call cb s else ok s

  -- HandleEvent. The member `recieved_events` is read afresh at each test.
  unfoldable pub handle_event : Callbacks S → (S → ℕ) → S → Result S
  handle_event cbs received s = do
    s1 ← call_if (has (received s) poll_hup && not (has poll_in (received s))) cbs.close_event_cb s
    s2 ← call_if (has (received s1) (bit_or poll_err poll_nval)) cbs.error_event_cb s1
    s3 ←
        call_if (has (received s2) (bit_or (bit_or poll_in poll_pri) poll_rdhup)) cbs.read_event_cb
          s2
    call_if (has (received s3) poll_out) cbs.write_event_cb s3
