-- ===== src/Poller/Poll.antt =====
-- `EpollPoller::Poll`: what a wait hands to the loop.
use network_poller.Prelude.{
  ℕ, ◌*◌, ◌≡◌, refl, sym, ap, ◌∙◌, Bool, true, false, inl, inr, List, [], ◌∷◌, ◌++◌, length,
  append_assoc, append-nil, ◌==◌, ==_refl, ==_ne, if◌then◌else◌,
}
use network_poller.Result.{Result, ok}
use network_poller.Channel.{Channel, set_received_event}
use network_poller.Poller.Epoll.{Epoll, update, update_self, same_or_not}
use network_poller.Poller.Defs.{Poller, WaitResult, happened, wait_failed, collect, poll}

-- The mask that a channel's `recieved_events` has after the reports: that of its last report, and
-- the old one if there is none.
unfoldable pub last_report : List (ℕ × ℕ) → ℕ → ℕ → ℕ
last_report [] id old = old
last_report ((events, ptr) ∷ rest) id old = last_report rest id (if ptr == id then events else old)

-- The addresses that the reports carry.
abbrev pub reported : List (ℕ × ℕ) → List ℕ
reported [] = []
reported ((events, ptr) ∷ rest) = ptr ∷ reported rest

-- What `Poll` makes of the channels.
abbrev pub Marked : List (ℕ × ℕ) → (ℕ → Channel) → (ℕ → Channel) → Type 0
Marked events heap heap' =
    (id : ℕ)
    → heap' id
      ≡ record (heap id) { received_events = last_report events id (heap id).received_events }

mark_one :
    (heap : ℕ → Channel) (events ptr id : ℕ)
    → update heap ptr (set_received_event (heap ptr) events) id ≡ record (heap id) {
      received_events = if ptr == id then events else (heap id).received_events;
    }
unfolding set_received_event
mark_one heap events ptr id = elim (same_or_not ptr id) [
  | inl same ↦ rw same (update_self heap id _ ∙ rw (==_refl id) refl)
  | inr ne ↦ rw (==_ne ptr id ne) refl
]

module _ (e : Epoll) where
  collect_lem :
      (events : List (ℕ × ℕ)) (heap : ℕ → Channel) (active : List ℕ)
      → (heap' : ℕ → Channel) × (collect e events heap active ≡ (heap', active ++ reported events))
        × Marked events heap heap'
  unfolding collect last_report
  collect_lem [] heap active = (heap, ap (λ xs. (heap, xs)) (sym (append-nil active)), λ id. refl)
  collect_lem ((events, ptr) ∷ rest) heap active =
      let (heap', ran, marked) =
        collect_lem rest (update heap ptr (set_received_event (heap ptr) events))
          (active ++ ptr ∷ []) in
      (
        heap',
        ran ∙ ap (λ xs. (heap', xs)) (append_assoc active (ptr ∷ []) (reported rest)),
        λ id.
            marked id
            ∙ ap
                (λ (c : Channel). record c {
                  received_events = last_report rest id c.received_events;
                })
                (mark_one heap events ptr id),
      )

  -- How the array for events grows.
  abbrev pub grown : ℕ → ℕ → ℕ
  grown reports capacity = if reports == capacity then capacity * 2 else capacity

  -- On the loop's thread a wait that reports events appends the addresses to the active list in
  -- their order, stores in each channel its last report and changes nothing else of any channel,
  -- and doubles the array exactly when the reports fill it; map and kernel stay.
  pub poll-happened :
      (p : Poller e) (event : ℕ × ℕ) (rest : List (ℕ × ℕ)) (heap : ℕ → Channel) (active : List ℕ)
      → (heap' : ℕ → Channel) × (poll e p.thread_id (happened (event ∷ rest)) p heap active
          ≡ ok (
            record p { capacity = grown (length (event ∷ rest)) p.capacity },
            heap',
            active ++ reported (event ∷ rest),
          ))
        × Marked (event ∷ rest) heap heap'
  unfolding poll
  poll-happened p event rest heap active =
      let (heap', ran, marked) = collect_lem (event ∷ rest) heap active in
      (heap', rw (==_refl p.thread_id, ran) (resized (length (event ∷ rest) == p.capacity)), marked)
    where
      resized :
          (b : Bool)
          → {heap' : ℕ → Channel}
          → ◌≡◌ {A = Result (Poller e × (ℕ → Channel) × List ℕ)}
              (ok (
                (if b then record p { capacity = p.capacity * 2 } else p),
                heap',
                active ++ reported (event ∷ rest),
              ))
              (ok (
                record p { capacity = if b then p.capacity * 2 else p.capacity },
                heap',
                active ++ reported (event ∷ rest),
              ))
      resized true = refl
      resized false = refl

  -- Whatever the wait returns, `Poll` succeeds on the loop's thread and leaves the poller on it.
  pub poll_total :
      (waited : WaitResult) (p : Poller e) (heap : ℕ → Channel) (active : List ℕ)
      → (out : Poller e × (ℕ → Channel) × List ℕ) × (poll e p.thread_id waited p heap active
          ≡ ok out)
        × (out.0.thread_id ≡ p.thread_id)
  unfolding poll
  poll_total (happened []) p heap active = ((p, heap, active), rw (==_refl p.thread_id) refl, refl)
  poll_total (happened (event ∷ rest)) p heap active =
      let (heap', ran, _) = poll-happened p event rest heap active in (_, ran, refl)
  poll_total (wait_failed errno) p heap active =
      ((p, heap, active), rw (==_refl p.thread_id) refl, refl)
