-- ===== src/Safety/Receive.antt =====
-- `recvCallback` keeps the object discipline.
use online_chat_proj.Base.{
  ℕ, zero, suc, ◌≤◌, ◌≡◌, refl, sym, ap, subst, ◌∙◌, inl, inr, true, none, some, arith, leb,
  Bool-cases, Option-cases,
}
use online_chat_proj.Base.Int.{ℤ, pos, negsuc}
use online_chat_proj.Os.{
  Kernel, EpollEvent, Received, bytes, failed, epollout, has_flag, from_client,
}
use online_chat_proj.Os.Laws.{KernelLaws, SetsEvent}
use online_chat_proj.Connection.{
  Connection, send_handler, recv_buffer_length, r_buffer_clear, set_event, set_r_len,
}
use online_chat_proj.Machine.{Machine, command, modify, ◌>>=◌, ◌>>◌}
use online_chat_proj.Epoll.{action_update, update_connection}
use online_chat_proj.Machine.Object.{holding, load-holding, modify-holding, holding_self}
use online_chat_proj.Epoll.Update.{after_mod, update_watched}
use online_chat_proj.Server.{
  c_string, terminated, stops, store_received, recv_at, recv_loop, recv_callback,
}
use online_chat_proj.Safety.Safely.{Safely, returns, overruns, overreads, unfinished, bind, mono}
use online_chat_proj.Safety.View.{
  Core, core, bound, cores, core_at, Live, Live-same, Known, Known-same, SameObjects, QuietLaws,
  Inv, Quiet-trans, Post,
}

module _ {W : Type 0} {K : Kernel W} (L : KernelLaws K) where
  -- Only the object at `p` was touched, and not what counts of it.
  pub record Focus (m : Machine W) (p : ℕ) (c : Connection) (w : W) (m' : Machine W) : Type 0 where
    pub world : W
    pub conn : Connection
    pub form : m' ≡ holding m world p conn
    pub same : core conn ≡ core c
    pub quiet : QuietLaws L m.epoll.epfd w world

  store_received-core : (r : Received) (c : Connection) → core (store_received r c) ≡ core c
  unfolding store_received set_r_len
  store_received-core (bytes bs) c = refl
  store_received-core (failed e) c = refl

  module _ (m : Machine W) (p : ℕ) where
    recv_at-Safely :
        (c : Connection) (w : W) (n : ℤ)
        → Safely
            (λ (r : Received) m'.
              (w' : W) × (m' ≡ holding m w' p c) × QuietLaws L m.epoll.epfd w w')
            (recv_at K c.fd n (holding m w p c))
    unfolding recv_at
    recv_at-Safely c w (pos n) = elim (Bool-cases (leb n recv_buffer_length)) [
      | inl fits ↦ rw fits (returns (_, refl, L.recv_quiet m.epoll.epfd c.fd _ w))
      | inr over ↦ rw over overruns
    ]
    recv_at-Safely c w (negsuc n) = overruns

    Focus-widen :
        {c d : Connection} {w w' : W} {m' : Machine W}
        → core d ≡ core c
        → QuietLaws L m.epoll.epfd w w'
        → Focus m p d w' m'
        → Focus m p c w m'
    Focus-widen e q f = record {
      world = f.world;
      conn = f.conn;
      form = f.form;
      same = f.same ∙ e;
      quiet = Quiet-trans L q f.quiet;
    }

    recv_loop-Safely :
        (fuel : ℕ) (c : Connection) (w : W)
        → Safely (λ _. Focus m p c w) (recv_loop K fuel p (holding m w p c))
    unfolding recv_loop
    recv_loop-Safely zero c w = unfinished
    recv_loop-Safely (suc fuel) c w = rw (load-holding m w p c) (
        bind (recv_at-Safely c w c.rlen) λ r m' (w', form, quiet).
          rw form (elim (Bool-cases (stops r)) [
            | inl e ↦
                rw e (
                  returns
                    (record { world = w'; conn = c; form = refl; same = refl; quiet = quiet }))
            | inr e ↦
                rw (e, modify-holding m w' p c (store_received r))
                  (mono (recv_loop-Safely fuel (store_received r c) w')
                    (λ _ m''. Focus-widen (store_received-core r c) quiet))
          ]))

    -- The descriptor of `c` is watched anew, with the event that `c` carries.
    module _ (c : Connection) (here : m.heap p ≡ some c) (inv : Inv L m) where
      rewatch-Post :
          (d : Connection) (w : W)
          → core d ≡ core c
          → Live m p (core c)
          → d.event.fd ≡ c.fd
          → (has_flag d.event.events epollout ≡ true → c.send_callback ≡ bound send_handler p)
          → QuietLaws L m.epoll.epfd m.world w
          → Post L m p (holding m (after_mod K m.epoll d w) p d)
      rewatch-Post d w same live event_fd sends quiet = record {
        inv = record { unused = unused; known = known };
        others = λ q ne r. record {
          obj = r.obj;
          live = Live-same objects r.live;
          open_fd = set.kept r.obj.fd (quiet.kept r.obj.fd r.open_fd);
          sends = r.sends;
        };
      }
        where
          set :
              SetsEvent L.opened L.registered m.epoll.epfd d.fd d.event w (after_mod K m.epoll d w)
          set = L.mod_sets m.epoll.epfd d.fd d.event w

          objects : SameObjects m (holding m (after_mod K m.epoll d w) p d)
          objects = record { same = λ q. ground (arith, here, same); epoll = refl }

          fd_same : d.fd ≡ c.fd
          fd_same = ap (λ (k : Core). k.fd) same

          unused : (q : ℕ) → m.next ≤ q → cores (holding m (after_mod K m.epoll d w) p d) q ≡ none
          unused q le = objects.same q ∙ inv.unused q le

          known :
              (g : ℤ) (ev : EpollEvent)
              → L.registered m.epoll.epfd (after_mod K m.epoll d w) g ≡ some ev
              → Known (holding m (after_mod K m.epoll d w) p d) g ev
          known g ev h = elim (set.sets g ev h) [
            | inl old ↦ Known-same objects (inv.known g ev (quiet.sub g ev old))
            | inr (own, new) ↦ Known-same objects (record {
              addr = p;
              obj = core c;
              live = live;
              own = sym (own ∙ fd_same);
              carries = ap (λ (v : EpollEvent). v.fd) new ∙ event_fd ∙ sym (own ∙ fd_same);
              sends =
                  λ e. sends (subst (λ (v : EpollEvent). has_flag v.events epollout ≡ true) new e);
            })
          ]

    module _ (c : Connection) (here : m.heap p ≡ some c) (inv : Inv L m) where
      -- What follows the loop, on the connection `d` that it left.
      answer-Safely :
          (d : Connection) (w : W)
          → core d ≡ core c
          → Live m p (core c)
          → c.send_callback ≡ bound send_handler p
          → QuietLaws L m.epoll.epfd m.world w
          → Safely
              (λ _. Post L m p)
              ((terminated (c_string d.rbuffer) >>= λ text.
                  command (K.print (from_client text))
                  >> (modify p (set_event epollout) >> update_connection K p action_update))
                (holding m w p d))
      unfolding set_event
      answer-Safely d w same live sends quiet = elim (Option-cases (c_string d.rbuffer)) [
        | inl e ↦ rw e overreads
        | inr (text, e) ↦
            let w' = K.print (from_client text) w in
            rw
              (
                e,
                modify-holding m w' p d (set_event epollout),
                update_watched K m w' p (set_event epollout d)
                    (ap (λ (k : Core). k.in_epoll) same ∙ live.watched),
              )
              (returns (
                rewatch-Post c here inv (set_event epollout d) w' same live
                  (ap (λ (k : Core). k.fd) same) (λ _. sends)
                  (Quiet-trans L quiet (L.print_quiet m.epoll.epfd (from_client text) w))))
      ]

      recv_callback-holding :
          (fuel : ℕ)
          → Live m p (core c)
          → c.send_callback ≡ bound send_handler p
          → Safely (λ _. Post L m p) (recv_callback K fuel p (holding m m.world p c))
      unfolding recv_callback r_buffer_clear
      recv_callback-holding fuel live sends = rw (modify-holding m m.world p c r_buffer_clear) (
          bind (recv_loop-Safely fuel (r_buffer_clear c) m.world) λ _ m1 f.
            rw (f.form, load-holding m f.world p f.conn)
              (answer-Safely f.conn f.world f.same live sends f.quiet))

  -- On a connection whose callbacks are set, `recvCallback` keeps the invariant, and what every
  -- other connection needs.
  pub recv_callback-Safely :
      (fuel : ℕ) (m : Machine W) (p : ℕ) (k : Core)
      → Inv L m
      → Live m p k
      → k.send_callback ≡ bound send_handler p
      → Safely (λ _. Post L m p) (recv_callback K fuel p m)
  recv_callback-Safely fuel m p k inv live sends =
      let (c, here, is) = core_at m p live.here in
      subst (λ n. Safely (λ _. Post L m p) (recv_callback K fuel p n)) (sym (holding_self m p here))
        (recv_callback-holding m p c here inv fuel (subst (Live m p) (sym is) live)
          (ap (λ (k : Core). k.send_callback) is ∙ sends))
