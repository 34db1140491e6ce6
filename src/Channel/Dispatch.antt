-- ===== src/Channel/Dispatch.antt =====
-- `EventChannel::HandleEvent` against the set of conditions that epoll reported.
use network_poller.Prelude.{
  ℕ, ◌+◌, ◌≡◌, refl, sym, ap, ◌∙◌, Option, Bool, true, false, not, ◌&&◌, ◌||◌, if◌then◌else◌,
  bit_or,
}
use network_poller.Result.{Result, ok, ok-injective, fault, ◌>>=◌}
use network_poller.Channel.Flags.{
  poll_in, poll_pri, poll_out, poll_err, poll_hup, poll_nval, poll_rdhup, has,
}
use network_poller.Channel.Defs.{Callbacks, call, call_if, handle_event}

-- The conditions that a report of epoll can hold.
pub record Ready : Type 0 where
  pub readable : Bool
  pub urgent : Bool
  pub writable : Bool
  pub failed : Bool
  pub hung_up : Bool
  pub invalid : Bool
  pub peer_closed : Bool

abbrev flag : Bool → ℕ → ℕ
flag b n = if b then n else 0

-- The mask of a report.
abbrev pub report : Ready → ℕ
report r =
    flag r.readable poll_in
    + flag r.urgent poll_pri
    + flag r.writable poll_out
    + flag r.failed poll_err
    + flag r.hung_up poll_hup
    + flag r.invalid poll_nval
    + flag r.peer_closed poll_rdhup

-- Which of the four callbacks the report calls for.
abbrev pub closes : Ready → Bool
closes r = r.hung_up && not r.readable

abbrev pub fails : Ready → Bool
fails r = r.failed || r.invalid

abbrev pub reads : Ready → Bool
reads r = (r.readable || r.urgent) || r.peer_closed

abbrev pub writes : Ready → Bool
writes r = r.writable

-- A property of all Booleans, by its two cases.
all_bool : (Bool → Bool) → Bool
all_bool p = p true && p false

abbrev same : Bool → Bool → Bool
same true b = b
same false b = not b

same-eq : (a b : Bool) → same a b ≡ true → a ≡ b
same-eq true true h = refl
same-eq true false h = sym h
same-eq false true h = h
same-eq false false h = refl

all_bool_sound : (p : Bool → Bool) → all_bool p ≡ true → (b : Bool) → p b ≡ true
unfolding all_bool
all_bool_sound p h true = and_left (p true) (p false) h
  where
    and_left : (a b : Bool) → (a && b) ≡ true → a ≡ true
    and_left true b e = refl
    and_left false b e = e
all_bool_sound p h false = and_right (p true) (p false) h
  where
    and_right : (a b : Bool) → (a && b) ≡ true → b ≡ true
    and_right true b e = e
    and_right false true e = refl
    and_right false false e = e

abbrev ready : Bool → Bool → Bool → Bool → Bool → Bool → Bool → Ready
ready a b c d e f g = record {
  readable = a;
  urgent = b;
  writable = c;
  failed = d;
  hung_up = e;
  invalid = f;
  peer_closed = g;
}

all_ready : (Ready → Bool) → Bool
all_ready p = all_bool λ a. all_bool λ b.
    all_bool λ c. all_bool λ d. all_bool λ e. all_bool λ f. all_bool λ g. p (ready a b c d e f g)

all_ready_sound : (p : Ready → Bool) → all_ready p ≡ true → (r : Ready) → p r ≡ true
unfolding all_ready
all_ready_sound p h r =
    all_bool_sound _
      (all_bool_sound _
        (all_bool_sound _
          (all_bool_sound _
            (all_bool_sound _ (all_bool_sound _ (all_bool_sound _ h r.readable) r.urgent)
              r.writable)
            r.failed)
          r.hung_up)
        r.invalid)
      r.peer_closed

closes_table :
    all_ready (λ r. same (has (report r) poll_hup && not (has poll_in (report r))) (closes r))
    ≡ true
unfolding all_ready all_bool
closes_table = refl

fails_table : all_ready (λ r. same (has (report r) (bit_or poll_err poll_nval)) (fails r)) ≡ true
unfolding all_ready all_bool
fails_table = refl

reads_table :
    all_ready (λ r. same (has (report r) (bit_or (bit_or poll_in poll_pri) poll_rdhup)) (reads r))
    ≡ true
unfolding all_ready all_bool
reads_table = refl

writes_table : all_ready (λ r. same (has (report r) poll_out) (writes r)) ≡ true
unfolding all_ready all_bool
writes_table = refl

pub closes_lem : (r : Ready) → (has (report r) poll_hup && not (has poll_in (report r))) ≡ closes r
closes_lem r = same-eq _ _ (all_ready_sound _ closes_table r)

pub fails_lem : (r : Ready) → (has (report r) (bit_or poll_err poll_nval)) ≡ fails r
fails_lem r = same-eq _ _ (all_ready_sound _ fails_table r)

pub reads_lem :
    (r : Ready) → (has (report r) (bit_or (bit_or poll_in poll_pri) poll_rdhup)) ≡ reads r
reads_lem r = same-eq _ _ (all_ready_sound _ reads_table r)

pub writes_lem : (r : Ready) → (has (report r) poll_out) ≡ writes r
writes_lem r = same-eq _ _ (all_ready_sound _ writes_table r)

-- A callback leaves the report that is being handled alone.
abbrev pub Keeps {ℓ} : {S : Type ℓ} → (S → ℕ) → Option (S → Result S) → Type ℓ
Keeps {S = S} received cb = (s t : S) → call cb s ≡ ok t → received t ≡ received s

pub record Stable {ℓ} {S : Type ℓ} (cbs : Callbacks S) (received : S → ℕ) : Type ℓ where
  pub on_close : Keeps received cbs.close_event_cb
  pub on_error : Keeps received cbs.error_event_cb
  pub on_read : Keeps received cbs.read_event_cb
  pub on_write : Keeps received cbs.write_event_cb

module _ {ℓ} {S : Type ℓ} (cbs : Callbacks S) (received : S → ℕ) where
  -- The handler by the report's conditions.
  pub dispatch : Ready → S → Result S
  dispatch r s = do
    s1 ← call_if (closes r) cbs.close_event_cb s
    s2 ← call_if (fails r) cbs.error_event_cb s1
    s3 ← call_if (reads r) cbs.read_event_cb s2
    call_if (writes r) cbs.write_event_cb s3

  -- A step that keeps the report lets the rest be compared at that report.
  bind_same :
      (r : Ready) (m : Result S) (f g : S → Result S)
      → ((t : S) → m ≡ ok t → received t ≡ report r)
      → ((t : S) → received t ≡ report r → f t ≡ g t)
      → (m >>= f) ≡ (m >>= g)
  bind_same r (ok t) f g keeps same_at = same_at t (keeps t refl)
  bind_same r (fault e) f g keeps same_at = refl

  Keeps-if :
      (r : Ready) (test : Bool) (cb : Option (S → Result S))
      → Keeps received cb
      → (s : S) → received s ≡ report r
      → (t : S) → call_if test cb s ≡ ok t
      → received t ≡ report r
  Keeps-if r true cb keeps s at t ran = keeps s t ran ∙ at
  Keeps-if r false cb keeps s at t ran = ap received (sym (ok-injective ran)) ∙ at

  -- The tails of HandleEvent, and of `dispatch`, before each of the last three tests.
  abbrev write_part : S → Result S
  write_part s = call_if (has (received s) poll_out) cbs.write_event_cb s

  abbrev read_part : S → Result S
  read_part s =
      call_if (has (received s) (bit_or (bit_or poll_in poll_pri) poll_rdhup)) cbs.read_event_cb s
      >>= write_part

  abbrev error_part : S → Result S
  error_part s =
      call_if (has (received s) (bit_or poll_err poll_nval)) cbs.error_event_cb s >>= read_part

  abbrev write_step : Ready → S → Result S
  write_step r s = call_if (writes r) cbs.write_event_cb s

  abbrev read_step : Ready → S → Result S
  read_step r s = call_if (reads r) cbs.read_event_cb s >>= write_step r

  abbrev error_step : Ready → S → Result S
  error_step r s = call_if (fails r) cbs.error_event_cb s >>= read_step r

  module _ (stable : Stable cbs received) (r : Ready) where
    write_same : (s : S) → received s ≡ report r → write_part s ≡ write_step r s
    write_same s at = rw (at, writes_lem r) refl

    read_same : (s : S) → received s ≡ report r → read_part s ≡ read_step r s
    read_same s at =
        rw (at, reads_lem r)
          (bind_same r (call_if (reads r) cbs.read_event_cb s) write_part (write_step r)
            (Keeps-if r (reads r) cbs.read_event_cb stable.on_read s at) write_same)

    error_same : (s : S) → received s ≡ report r → error_part s ≡ error_step r s
    error_same s at =
        rw (at, fails_lem r)
          (bind_same r (call_if (fails r) cbs.error_event_cb s) read_part (read_step r)
            (Keeps-if r (fails r) cbs.error_event_cb stable.on_error s at) read_same)

  -- For every report and all callbacks that leave it alone, HandleEvent calls the close callback
  -- exactly for a hang-up with nothing to read, the error callback for an error or an invalid
  -- descriptor, the read callback for data, urgent data or a closed peer, and the write callback for
  -- room to write, in that order, and stops at the first fault.
  pub handle_event-dispatch :
      Stable cbs received
      → (r : Ready) (s : S) → received s ≡ report r
      → handle_event cbs received s ≡ dispatch r s
  unfolding handle_event dispatch
  handle_event-dispatch stable r s at =
      rw (at, closes_lem r)
        (bind_same r (call_if (closes r) cbs.close_event_cb s) error_part (error_step r)
          (Keeps-if r (closes r) cbs.close_event_cb stable.on_close s at) (error_same stable r))
