-- ===== src/Server/Session.antt =====
-- The server while clients come one after the other: three rounds of `EventLoop::start` for each.
use online_chat_proj.Base.{
  ℕ, ◌≡◌, ◌<◌, refl, sym, ap, ◌∙◌, none, some, List, [], ◌∷◌, arith, update_self, suc, ◌*◌, ◌+◌,
  subst, update, update-update,
}
use online_chat_proj.Base.Int.{ℤ, update_ℤ, update_ℤ_self, update_ℤ_ne, update_ℤ-update_ℤ}
use online_chat_proj.Base.Lists.{length}
use online_chat_proj.Os.{Kernel, epollout}
use online_chat_proj.Connection.{
  connection, default_connection, set_in_epoll, set_recv_callback, set_send_callback, Connection,
  accept_handler, set_revent, set_event, set_non_blocking, recv_buffer_length,
}
use online_chat_proj.Machine.{Machine, ok}
use online_chat_proj.Machine.Object.{holding}
use online_chat_proj.EventLoop.{start}
use online_chat_proj.Server.{call, serve}
use online_chat_proj.Server.Accept.{joined, fresh, served}
use online_chat_proj.Server.Receive.{filled}
use online_chat_proj.Server.Text.{reply-NoZero}
use online_chat_proj.Server.Rounds.{accept_round, read_round, answer_round, start-add}
use online_chat_proj.Server.Visits.{
  accepted, client, after_accept, after_read, Visit, visit, Visit-apart, Visits, nobody, next_one,
  Idle, SameButAt,
}

module _ {W : Type 0} (K : Kernel W) (m : Machine W) (l : ℕ) (s : Connection) where
  session_rounds :
      (fuel : ℕ) (timeout : ℤ) {g : ℤ} {bs : List ℕ} {w' : W}
      → m.heap l ≡ some s
      → s.recv_callback ≡ some (record { handler = accept_handler; conn = l })
      → m.epoll.conn_map s.fd ≡ some l
      → recv_buffer_length < fuel
      → Visit K m.epoll.epfd s.fd timeout m.world g bs w'
      → (flags : ℕ) × (serve K fuel 3 timeout m
          ≡ ok tt (record m {
            world = w';
            heap = update (update m.heap l (some (set_revent flags s))) m.next none;
            next = suc m.next;
            epoll = record (m.epoll) { conn_map = update_ℤ m.epoll.conn_map g none };
          }))
  unfolding serve start set_revent set_event set_in_epoll set_recv_callback set_send_callback
      connection default_connection set_non_blocking
  session_rounds fuel timeout here bound mapped enough
        (visit {w1} {w3} {w4} {w6} {e1} {e2} {e3} {bs} apart r1 in1 r2 in2 d short plain r3 quiet
          out) =
      let g = client K m.epoll.epfd s.fd w1 in
      let p = m.next in
      let m1 = holding m w1 l (set_revent e1 s) in
      let c = served K m1 (fresh K m1 g (accepted K m.epoll.epfd s.fd w1).0.1) in
      let m2 = joined m1 c (after_accept K m.epoll.epfd s.fd w1) in
      let c' = set_event epollout (set_revent e2 c) in
      let m3 = holding m2 (after_read K m.epoll.epfd s.fd g bs w4) p (filled c' bs) in
      (
        e1,
        rw
            (
              accept_round K fuel timeout m l s e1 here mapped bound r1 in1,
              read_round K fuel timeout m2 p c e2 (update_self m1.heap p (some c))
                  (update_ℤ_self m1.epoll.conn_map g (some p)) refl refl refl r2 in2 d short enough,
              answer_round K fuel timeout m3 p c' e3 bs
                  (update_self m2.heap p (some (filled c' bs)))
                  (update_ℤ_self m1.epoll.conn_map g (some p)) refl refl r3 quiet out short,
              reply-NoZero c.wbuffer bs plain,
              update-update m2.heap p (some (filled c' bs)) none,
              update-update m1.heap p (some c) none,
              update_ℤ-update_ℤ m.epoll.conn_map g (some p) none,
            )
            refl,
      )

SameButAt-trans :
    {W : Type 0} (l : ℕ) (m m1 m2 : Machine W)
    → SameButAt l m m1
    → SameButAt l m1 m2
    → SameButAt l m m2
SameButAt-trans l m m1 m2 h k q = let a = h q in let b = k q in ground (arith, a, b)

module _ {W : Type 0} (K : Kernel W) (fuel : ℕ) (timeout : ℤ) (l : ℕ) (fd : ℤ) where
  -- A client comes, sends a message with no zero byte that is shorter than the buffer, and is
  -- answered, in three rounds of the loop on an idle server. The loop gets through them: the client
  -- is sent exactly its message, and its descriptor taken out and closed; the server is idle again,
  -- with the client out of the map and no object in memory that was not there before.
  serve_session :
      (m : Machine W) {g : ℤ} {bs : List ℕ} {w' : W}
      → Idle l fd m
      → recv_buffer_length < fuel
      → Visit K m.epoll.epfd fd timeout m.world g bs w'
      → (m' : Machine W) × (serve K fuel 3 timeout m ≡ ok tt m')
        × (m'.world ≡ w')
        × Idle l fd m'
        × SameButAt l m m'
        × (m'.epoll.conn_map g ≡ none)
        × (m'.epoll.epfd ≡ m.epoll.epfd)
  unfolding set_revent
  serve_session m {g} {bs} {w'} i enough v =
      let s = i.sock in
      let h = i.unused 0 in
      let (flags, run) =
        session_rounds K m l s fuel timeout i.here i.bound
          (ap m.epoll.conn_map i.same_fd ∙ i.mapped) enough
          (subst (λ f. Visit K m.epoll.epfd f timeout m.world g bs w') (sym i.same_fd) v) in
      (
        _,
        run,
        refl,
        record {
          sock = set_revent flags s;
          here = ground (arith, i.old);
          old = omega (arith, i.old);
          same_fd = i.same_fd;
          bound = i.bound;
          mapped =
              update_ℤ_ne m.epoll.conn_map g fd none
                (λ e. Visit-apart K m.epoll.epfd fd timeout v (sym e))
              ∙ i.mapped;
          unused = λ q. let later = i.unused (suc q) in ground (arith, i.old, later);
        },
        λ q. ground (arith, i.old, h),
        update_ℤ_self m.epoll.conn_map g none,
        refl,
      )

  -- As many clients as there are messages come to an idle server, one after the other, each with a
  -- message that has no zero byte and is shorter than the buffer. The loop gets through the visits of
  -- all of them, three rounds for each: each client is sent exactly its message, and the server is
  -- idle in the end, with no object in memory that was not there before.
  pub serve-Visits :
      (msgs : List (List ℕ)) (m : Machine W) {w' : W}
      → Idle l fd m
      → recv_buffer_length < fuel
      → Visits K m.epoll.epfd fd timeout m.world msgs w'
      → (m' : Machine W) × (serve K fuel (length msgs * 3) timeout m ≡ ok tt m')
        × (m'.world ≡ w')
        × Idle l fd m'
        × SameButAt l m m'
  unfolding serve start
  serve-Visits [] m i enough nobody = (m, refl, refl, i, λ q. ground arith)
  serve-Visits (bs ∷ msgs) m i enough (next_one {w'} {w''} {g} v vs) =
      let (m1, run, there, i1, same, gone, e) = serve_session m i enough v in
      let vs' =
        subst (λ n. Visits K n fd timeout m1.world msgs w'') (sym e)
          (subst (λ w. Visits K m.epoll.epfd fd timeout w msgs w'') (sym there) vs) in
      let (m2, run', there', i2, same') = serve-Visits msgs m1 i1 enough vs' in
      (
        m2,
        let rounds : length (bs ∷ msgs) * 3 ≡ 3 + length msgs * 3 = omega arith in
            rw rounds (start-add (call K fuel) K timeout 3 (length msgs * 3) m run ∙ run'),
        there',
        i2,
        SameButAt-trans l m m1 m2 same same',
      )
