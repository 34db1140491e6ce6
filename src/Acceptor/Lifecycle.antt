-- ===== src/Acceptor/Lifecycle.antt =====
-- Listen and the destructor of tcp_acceptor.cpp.
use network_poller.Prelude.{ℕ, ◌≡◌, refl, sym, ap, ◌∙◌, subst, true, false, none, ==_refl}
use network_poller.Result.{ok}
use network_poller.Channel.Flags.{Interest, encode}
use network_poller.Channel.{new_channel}
use network_poller.Poller.Epoll.{Epoll, HasRoom}
use network_poller.Loop.External.{TaskQueue}
use network_poller.Loop.{
  World, may_remove, is_in_loop_thread, disable_all, remove_from_loop, Registry, beside-Registry,
  IsFree, enables_reading, apply, perform, Follows, perform-Follows, detach-Detached,
}
use network_poller.Acceptor.Files.{Files}
use network_poller.Acceptor.Defs.{Acceptor, listen, close_acceptor}
use network_poller.Acceptor.Reserve.{closed_self}

abbrev pub nothing : Interest
nothing = record { reading = false; writing = false }

abbrev pub reading_only : Interest
reading_only = record { reading = true; writing = false }

module _ (files : Files) (e : Epoll) (room : HasRoom e) {Task : Type 0} (tq : TaskQueue Task) where
  open files use {is_open, close, close_lem}
  open e use {interest}

  closing :
      (this_thread : ℕ) (w w1 w2 : World e tq (Acceptor files))
      → disable_all e tq this_thread w.rest.channel w ≡ ok w1
      → remove_from_loop e tq this_thread w.rest.channel w1 ≡ ok w2
      → close_acceptor files e tq this_thread w
        ≡ ok (record w2 { rest = record w2.rest { table = close w2.rest.idle_fd w2.rest.table } })
  unfolding close_acceptor
  closing this_thread w w1 w2 ran1 ran2 = rw (ran1, ran2) refl

  -- On the loop's thread, for an acceptor whose channel has an empty mask and a descriptor that no
  -- other known channel has, Listen has the kernel watch the listening socket for reading. The
  -- destructor, on that thread while the loop may remove the channel, takes it out of the poller and
  -- of epoll again, and the reserve is closed.
  pub listen-close_acceptor :
      (w : World e tq (Acceptor files))
      → Registry e tq w
      → IsFree e tq w w.rest.channel
      → (w.heap w.rest.channel).events ≡ encode nothing
      → may_remove w.active w.rest.channel w.active_list ≡ true
      → (w1 w2 : World e tq (Acceptor files)) × (listen files e tq w.thread_id w ≡ ok w1)
        × Follows e tq room w.rest.channel w1 reading_only
        × (w1.rest ≡ record w.rest { listening = true })
        × (close_acceptor files e tq w.thread_id w1 ≡ ok w2)
        × Registry e tq w2
        × ((w2.heap w.rest.channel).status ≡ new_channel)
        × (w2.poller.channels (w1.heap w.rest.channel).fd ≡ none)
        × (interest w2.poller.kernel (w1.heap w.rest.channel).fd ≡ none)
        × (is_open w2.rest.table w.rest.idle_fd ≡ false)
  unfolding listen perform apply is_in_loop_thread
  listen-close_acceptor w reg free idle may =
      let id = w.rest.channel in
      let up : World e tq (Acceptor files) = record w {
        rest = record w.rest { listening = true };
      } in
      let (w1, ran1, f, frame) =
        perform-Follows e tq room id enables_reading up nothing
          (beside-Registry e tq w w.queue up.rest reg) free idle in
      let may1 : may_remove w1.active id w1.active_list ≡ true =
        ap (λ v. may_remove v.active id v.active_list) frame ∙ may in
      let (w2, w3, ran2, ran3, d) = detach-Detached e room tq w1 id f.registry f.known may1 in
      let w4 : World e tq (Acceptor files) = record w3 {
        rest = record w3.rest { table = close w3.rest.idle_fd w3.rest.table };
      } in
      let rest : w1.rest ≡ up.rest = ap (λ v. v.rest) frame in
      let same_channel : w1.rest.channel ≡ id = ap (λ (a : Acceptor files). a.channel) rest in
      let thread : w.thread_id ≡ w1.thread_id = sym (ap (λ v. v.thread_id) frame) in
      let same_idle : w3.rest.idle_fd ≡ w.rest.idle_fd =
        ap (λ v. v.rest.idle_fd) d.frame ∙ ap (λ (a : Acceptor files). a.idle_fd) rest in
      (
        w1,
        w4,
        rw (==_refl w.thread_id) ran1,
        f,
        rest,
        closing w.thread_id w1 w2 w3
            (ap (λ k. disable_all e tq w.thread_id k w1) same_channel
              ∙ ap (λ t. disable_all e tq t id w1) thread
              ∙ ran2)
            (ap (λ k. remove_from_loop e tq w.thread_id k w2) same_channel
              ∙ ap (λ t. remove_from_loop e tq t id w2) thread
              ∙ ran3),
        beside-Registry e tq w3 w3.queue w4.rest d.registry,
        d.forgotten,
        d.unmapped,
        d.unwatched,
        subst (λ i. is_open (close w3.rest.idle_fd w3.rest.table) i ≡ false) same_idle
            (closed_self files w3.rest.idle_fd w3.rest.table),
      )
