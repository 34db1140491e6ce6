-- ===== src/Socket/Options.antt =====
-- The options that socket_utility.cpp sets.
use network_poller.Prelude.{
  ℕ, ◌≡◌, ◌≢◌, ◌⊎◌, refl, ap, ◌∙◌, Bool, true, false, inl, inr, if◌then◌else◌,
}
use network_poller.Socket.External.{Outcome, failed, returned, Name, Sockets}
use network_poller.Socket.Defs.{
  tcp_nodelay, so_keepalive, so_reuseaddr, so_reuseport, is_failed, set_tcp_no_delay,
  set_keep_alived, set_reuse_addr, set_reuse_port,
}

Outcome-cases : (o : Outcome) → ((e : ℕ) × (o ≡ failed e)) ⊎ ((r : ℕ) × (o ≡ returned r))
Outcome-cases (failed e) = inl (e, refl)
Outcome-cases (returned r) = inr (r, refl)

module _ (sockets : Sockets) where
  open sockets use {State, option_of, setsockopt, set_failed, set_self, set_other, accept4}

  -- What a setter does: it logs an error and changes nothing, or the option is 1 or 0 as asked and
  -- no other option of any socket has changed.
  pub record Sets (name : Name) (set : ℕ → Bool → State → Bool × State) (fd : ℕ) (on : Bool)
      (s : State) : Type 0 where
    pub outcome :
        (((set fd on s).0 ≡ true) × ((set fd on s).1 ≡ s))
        ⊎ (((set fd on s).0 ≡ false) × (option_of fd name (set fd on s).1 ≡ (if on then 1 else 0)))
    pub others :
        (fd' : ℕ) (n : Name)
        → (fd ≢ fd') ⊎ (name ≢ n)
        → option_of fd' n (set fd on s).1 ≡ option_of fd' n s

  option-Sets :
      (name : Name) (set : ℕ → Bool → State → Bool × State) (fd : ℕ) (on : Bool) (s : State)
      → set fd on s ≡ (
        is_failed (setsockopt fd name (if on then 1 else 0) s).0,
        (setsockopt fd name (if on then 1 else 0) s).1,
      )
      → Sets name set fd on s
  option-Sets name set fd on s same =
      let value : ℕ = if on then 1 else 0 in
      record {
        outcome = elim (Outcome-cases (setsockopt fd name value s).0) [
          | inl (e, is) ↦ inl (
            ap (λ r. r.0) same ∙ ap is_failed is,
            ap (λ r. r.1) same ∙ set_failed fd name value e s is,
          )
          | inr (r, is) ↦ inr (
            ap (λ r. r.0) same ∙ ap is_failed is,
            ap (λ r. option_of fd name r.1) same ∙ set_self fd name value r s is,
          )
        ];
        others =
            λ fd' n ne. ap (λ r. option_of fd' n r.1) same ∙ set_other fd name value s fd' n ne;
      }

  -- SetTcpNoDelay, SetKeepAlived, SetReuseAddr and SetReusePort each set TCP_NODELAY, SO_KEEPALIVE,
  -- SO_REUSEADDR and SO_REUSEPORT: the option is 1 or 0 as asked, or the call logs an error and
  -- changes nothing; no other option and no other socket changes in either case.
  pub setters-Sets :
      (fd : ℕ) (on : Bool) (s : State)
      → Sets tcp_nodelay (set_tcp_no_delay sockets) fd on s
        × Sets so_keepalive (set_keep_alived sockets) fd on s
        × Sets so_reuseaddr (set_reuse_addr sockets) fd on s
        × Sets so_reuseport (set_reuse_port sockets) fd on s
  unfolding set_tcp_no_delay set_keep_alived set_reuse_addr set_reuse_port
  setters-Sets fd on s = (
    option-Sets tcp_nodelay (set_tcp_no_delay sockets) fd on s refl,
    option-Sets so_keepalive (set_keep_alived sockets) fd on s refl,
    option-Sets so_reuseaddr (set_reuse_addr sockets) fd on s refl,
    option-Sets so_reuseport (set_reuse_port sockets) fd on s refl,
  )
