-- ===== src/Examples/Connected.antt =====
-- States of a connection whose channel is at address 7, on the concrete interest list and queue.
use network_poller.Prelude.{
  ℕ, sym, ap, ◌≡◌, refl, true, false, some, none, List, [], ◌∷◌, ◌++◌, arith, length, append-nil,
}
use network_poller.Result.{Result, ok, fault}
use network_poller.Buffer.{Buffer, IsValid, contents, is_empty, readable_bytes, reset_index}
use network_poller.Channel.Flags.{Interest}
use network_poller.Loop.External.{TaskQueue}
use network_poller.Connection.{
  ConnState, connecting, connected, disconnecting, disconnected, Task, Conn, Net, Hooks,
  set_read_buffer, send_in_loop, write_handler, read_handler, close_handler, shutdown_in_loop,
  connect_established, connect_destroyed, force_close, shutdown, shuts_down, force_closes, epipe,
  high_water_mark, Base, Sound, Sent, stream, nothing, Moved, tell_closed, Reader, reads_of,
  arrived, input, send_in_loop-Sent, send_in_loop-broken, write_handler-partly, write_handler-shuts,
  shutdown_cases, force_close_counts, shutdown_in_loop_lem, close_handler-Moved,
  connect_established-Sound, connect_destroyed-once, read_handler-input,
}
use network_poller.Connection.{last_received}
use network_poller.Connection
use network_poller.Examples.Kernel.{table_epoll, list_queue}
use network_poller.Examples.Worlds.{watching_world, watching-Registry, seven-IsKnown}

abbrev pub tasks : TaskQueue Task
tasks = list_queue Task

abbrev pub Sample : Type 0
Sample = Net table_epoll tasks

-- Two free places behind the bytes that wait.
abbrev pub buffer_of : List ℕ → Buffer
buffer_of xs = record { read_index = 0; write_index = length xs; buffer = xs ++ 0 ∷ 0 ∷ [] }

abbrev pub connection : ConnState → List ℕ → Conn
connection state unsent = record {
  state = state;
  channel = 7;
  read_buffer = buffer_of [];
  write_buffer = buffer_of unsent;
  high_water_size = high_water_mark;
  sent = 60 ∷ [];
  write_shut = false;
}

abbrev pub reading : Interest
reading = Connection.reading_only

abbrev pub both : Interest
both = record { reading = true; writing = true }

-- A message callback that sends back all that waits, through a socket that takes everything.
abbrev pub echo : Sample → Result Sample
echo w = ok (record w {
  rest = record w.rest {
    sent = w.rest.sent ++ contents w.rest.read_buffer;
    read_buffer = reset_index w.rest.read_buffer;
  };
})

abbrev pub hooks : Hooks table_epoll tasks
hooks = record {
  msg_cb = some echo;
  close_cb = some ok;
  written_cb = some ok;
  high_water_cb = none;
  conn_status_cb = none;
}

-- A connection that is up and has sent all, and one with bytes that wait.
abbrev pub ready : Sample
ready = watching_world Task (connection connected []) reading

abbrev pub unsent : List ℕ
unsent = 61 ∷ 62 ∷ 63 ∷ []

abbrev pub behind : ConnState → Sample
behind state = watching_world Task (connection state unsent) both

pub ready-IsValid : IsValid (buffer_of [])
ready-IsValid = record { read_le = omega arith; write_le = omega arith; small = omega arith }

pub ready-Base : Base table_epoll tasks 1 ready reading
ready-Base = record {
  here = refl;
  registry = watching-Registry Task (connection connected []) reading;
  known = seven-IsKnown Task (connection connected []) reading;
  mask = refl;
  valid = ready-IsValid;
}

pub ready-Sound : Sound table_epoll tasks 1 ready
unfolding is_empty readable_bytes
ready-Sound = record { wants = reading; base = ready-Base; pending = refl }

pub behind-Sound : (state : ConnState) → Sound table_epoll tasks 1 (behind state)
unfolding is_empty readable_bytes
behind-Sound state = record {
  wants = both;
  base = record {
    here = refl;
    registry = watching-Registry Task (connection state unsent) both;
    known = seven-IsKnown Task (connection state unsent) both;
    mask = refl;
    valid = record { read_le = omega arith; write_le = omega arith; small = omega arith };
  };
  pending = refl;
}

pub reader : Reader table_epoll tasks hooks 1 (λ w. w.rest.sent)
unfolding reset_index
reader = record {
  cb = echo;
  installed = refl;
  blind = λ b w. refl;
  takes = λ w v. (
    record w {
      rest = record w.rest {
        sent = w.rest.sent ++ contents w.rest.read_buffer;
        read_buffer = reset_index w.rest.read_buffer;
      };
    },
    refl,
    append-nil (w.rest.sent ++ contents w.rest.read_buffer),
    record { read_le = omega arith; write_le = omega arith; small = v.small },
    omega arith,
  );
}

pub reader-keeps :
    (w w' : Sample)
    → reader.cb w ≡ ok w'
    → last_received table_epoll tasks hooks 1 w' ≡ last_received table_epoll tasks hooks 1 w
unfolding reader
reader-keeps w w' h = sym (ap received_of h)
  where
    received_of : Result Sample → ℕ
    received_of (ok v) = last_received table_epoll tasks hooks 1 v
    received_of (fault f) = 0
