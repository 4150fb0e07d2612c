-- ===== src/Reactor/Loop.antt =====
-- The loop of `EventLoop::start` on the reactor, over rounds with any number of events.
use online_chat_proj.Base.{
  ℕ, zero, suc, ◌<◌, ◌≡◌, ◌≢◌, refl, sym, ap, ◌∙◌, List, [], ◌∷◌, some, subst,
}
use online_chat_proj.Base.Int.{ℤ}
use online_chat_proj.Os.{Kernel, EpollEvent}
use online_chat_proj.Connection.{Connection, recv_buffer_length}
use online_chat_proj.Machine.{Machine, ok}
use online_chat_proj.Epoll.{wait}
use online_chat_proj.EventLoop.{dispatch_all, round as loop_round, start}
use online_chat_proj.Server.{call, serve}
use online_chat_proj.Reactor.{
  Clients, Elsewhere, Distinct, Turns, none_left, turn, Rounds, over, round,
}
use online_chat_proj.Reactor.View.{Supplies, supplied, Represents, Represents-world}
use online_chat_proj.Reactor.Collect.{Ready, nothing, waiting, collect_lem}
use online_chat_proj.Reactor.Dispatch.{dispatch-Turn}

-- The list goes on as it was where no object with one of its descriptors changes.
Ready-kept :
    {W : Type 0} {m m' : Machine W} {evs : List EpollEvent} {ps : List ℕ} (g : ℤ)
    → ((q : ℕ) (c : Connection) → g ≢ c.fd → m.heap q ≡ some c → m'.heap q ≡ some c)
    → Elsewhere g evs
    → Ready m evs ps
    → Ready m' evs ps
Ready-kept g keep h nothing = nothing
Ready-kept g keep h (waiting {p} c here own marked rest) =
    waiting c (keep p c (λ e. h.0 (e ∙ own)) here) own marked (Ready-kept g keep h.1 rest)

module _ {W : Type 0} (K : Kernel W) (spare : ℕ → List ℕ) (fuel : ℕ) (l : ℕ) (fd : ℤ)
    (enough : recv_buffer_length < fuel) where
  dispatch_all-Turns :
      (evs : List EpollEvent) (m : Machine W) {ps : List ℕ} {k k' : ℕ} {cl cl' : Clients} {w' : W}
      → Represents l fd m cl
      → Supplies spare k m
      → Distinct evs
      → Ready m evs ps
      → Turns K spare m.epoll.epfd fd m.world k cl evs w' k' cl'
      → (m' : Machine W) × (dispatch_all (call K fuel) ps m ≡ ok tt m')
        × (m'.world ≡ w')
        × (m'.epoll.epfd ≡ m.epoll.epfd)
        × Represents l fd m' cl'
        × Supplies spare k' m'
  unfolding dispatch_all
  dispatch_all-Turns [] m r s d nothing none_left = (m, refl, refl, refl, r, s)
  dispatch_all-Turns (ev ∷ evs) m {k' = k''} r s (apart, d)
        (waiting {p} {ps} c here own marked ready) (turn {w'} {w''} {k'} {cl'} {cl''} t ts) =
      let done = dispatch-Turn K spare fuel l fd m p c enough r s here own marked t in
      let m1 = done.after in
      let ts1 =
        subst (λ n. Turns K spare n fd m1.world k' cl' evs w'' k'' cl'') (sym done.epfd)
          (subst (λ w. Turns K spare m.epoll.epfd fd w k' cl' evs w'' k'' cl'') (sym done.world)
            ts) in
      let ready1 =
        Ready-kept ev.fd
          (λ q b ne e.
            done.others q b
              (λ i.
                let same : c ≡ b = cc (here, e, ap m.heap i) in
                ne (sym own ∙ ap (λ (x : Connection). x.fd) same))
              e)
          apart ready in
      let (m2, run, there, e, r2, s2) =
        dispatch_all-Turns evs m1 done.represents done.supplies d ready1 ts1 in
      (m2, rw (done.ran) run, there, e ∙ done.epfd, r2, s2)

  module _ (timeout : ℤ) where
    -- Whatever events the system reports in each round, and in whatever order, of however many
    -- clients: the loop returns, with the system and the clients as the events call for.
    pub serve-Rounds :
        (n : ℕ) (m : Machine W) {k k' : ℕ} {cl cl' : Clients} {w' : W}
        → Represents l fd m cl
        → Supplies spare k m
        → Rounds K spare m.epoll.epfd fd timeout n m.world k cl w' k' cl'
        → (m' : Machine W) × (serve K fuel n timeout m ≡ ok tt m')
          × (m'.world ≡ w')
          × Represents l fd m' cl'
          × Supplies spare k' m'
    unfolding serve start loop_round wait
    serve-Rounds zero m r s over = (m, refl, refl, r, s)
    serve-Rounds (suc n) m {k} {cl = cl} r s
          (round {w1} {w2} {w3} {k'} {k''} {cl'} {cl''} {evs} reported known d ts more) =
        let m0 = record m { world = w1 } in
        let (ps, m1, found, same, sameE, sameN, sameJ, r1, ready, _) =
          collect_lem K l fd evs m0 (Represents-world w1 r) known d in
        let s1 = supplied s sameN sameJ in
        let ts1 =
          subst (λ e. Turns K spare e fd m1.world k cl evs w2 k' cl') (sym sameE)
            (subst (λ w. Turns K spare m.epoll.epfd fd w k cl evs w2 k' cl') (sym same) ts) in
        let (m2, ran, there, e, r2, s2) = dispatch_all-Turns evs m1 r1 s1 d ready ts1 in
        let more2 =
          subst (λ x. Rounds K spare x fd timeout n m2.world k' cl' w3 k'' cl'') (sym (e ∙ sameE))
            (subst (λ w. Rounds K spare m.epoll.epfd fd timeout n w k' cl' w3 k'' cl'') (sym there)
              more) in
        let (m3, ran', there', r3, s3) = serve-Rounds n m2 r2 s2 more2 in
        (m3, rw (reported, found, ran) ran', there', r3, s3)
