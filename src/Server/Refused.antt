-- ===== src/Server/Refused.antt =====
-- The reactor of src/Server.cpp while `accept` fails, round after round.
use online_chat_proj.Base.{
  ℕ, zero, suc, ◌+◌, ◌≤◌, ◌<◌, ◌≡◌, ◌≢◌, refl, sym, ap, ◌∙◌, true, none, some, [], ◌∷◌, arith,
  update_self, subst, dec_lt,
}
use online_chat_proj.Base.Int.{ℤ, minus_one, update_ℤ, update_ℤ_self, update_ℤ_ne}
use online_chat_proj.Os.{Kernel, has_flag, epollin}
use online_chat_proj.Connection.{
  Connection, accept_handler, connection, default_connection, set_event, set_in_epoll, set_revent,
  set_recv_callback, set_send_callback, set_non_blocking,
}
use online_chat_proj.Machine.{Machine, ok}
use online_chat_proj.Machine.Object.{holding}
use online_chat_proj.Epoll.{max_epoll_conn}
use online_chat_proj.EventLoop.{round as loop_round, start}
use online_chat_proj.Server.{call, serve}
use online_chat_proj.Server.Accept.{fresh, served, joined}
use online_chat_proj.Server.Rounds.{accept_round}
use online_chat_proj.Server.Visits.{Idle, accepted, client, after_accept}

module _ {W : Type 0} (K : Kernel W) (epfd fd timeout : ℤ) where
  -- In each round the system reports the listening socket alone, and then `accept` returns -1.
  pub data Refusals : ℕ → W → W → Type 0 where
    over : {w : W} → Refusals zero w w
    refused :
        {n flags : ℕ} {w w1 w2 : W}
        → K.epoll_wait epfd max_epoll_conn timeout w ≡ (record { events = flags; fd = fd } ∷ [], w1)
        → has_flag flags epollin ≡ true
        → client K epfd fd w1 ≡ minus_one
        → Refusals n (after_accept K epfd fd w1) w2
        → Refusals (suc n) w w2

module _ {W : Type 0} where
  -- `n` connections with the descriptor -1 were made and stay in memory, at the addresses given out
  -- since `m`; the map leads from -1 to the last of them. The other objects, but for the listening
  -- socket at `l`, are as they were.
  pub record Leaked (l n : ℕ) (m m' : Machine W) : Type 0 where
    pub next : m'.next ≡ m.next + n
    pub lost :
        (q : ℕ)
        → m.next ≤ q
        → q < m.next + n
        → (d : Connection) × (m'.heap q ≡ some d) × (d.fd ≡ minus_one)
    pub last : (k : ℕ) → n ≡ suc k → m'.epoll.conn_map minus_one ≡ some (m.next + k)
    pub map_kept : n ≡ 0 → m'.epoll.conn_map minus_one ≡ m.epoll.conn_map minus_one
    pub others : (q : ℕ) → q ≢ l → q < m.next → m'.heap q ≡ m.heap q

module _ {W : Type 0} (K : Kernel W) (fuel : ℕ) (timeout : ℤ) (l : ℕ) where
  -- A round in which the system goes to `w1` and refuses the client.
  record AfterRefusal (m : Machine W) (fd : ℤ) (w1 : W) : Type 0 where
    after : Machine W
    ran : loop_round (call K fuel) K timeout m ≡ ok tt after
    world : after.world ≡ after_accept K m.epoll.epfd fd w1
    epfd : after.epoll.epfd ≡ m.epoll.epfd
    next : after.next ≡ suc m.next
    lost : Connection
    here : after.heap m.next ≡ some lost
    closed : lost.fd ≡ minus_one
    mapped : after.epoll.conn_map minus_one ≡ some m.next
    others : (q : ℕ) → q ≢ l → q ≢ m.next → after.heap q ≡ m.heap q
    idle : Idle l fd after

  at_socket :
      (m : Machine W) (s : Connection) {flags : ℕ} {w1 : W}
      → m.heap l ≡ some s
      → l < m.next
      → s.recv_callback ≡ some (record { handler = accept_handler; conn = l })
      → m.epoll.conn_map s.fd ≡ some l
      → ((q : ℕ) → m.heap (m.next + q) ≡ none)
      → K.epoll_wait m.epoll.epfd max_epoll_conn timeout m.world
        ≡ (record { events = flags; fd = s.fd } ∷ [], w1)
      → has_flag flags epollin ≡ true
      → client K m.epoll.epfd s.fd w1 ≡ minus_one
      → s.fd ≢ minus_one
      → AfterRefusal m s.fd w1
  unfolding connection default_connection set_event set_in_epoll set_recv_callback set_send_callback
      set_revent set_non_blocking
  at_socket m s {flags} {w1} here old bound mapped unused reported readable none_came apart =
      let m1 = holding m w1 l (set_revent flags s) in
      let g = client K m.epoll.epfd s.fd w1 in
      let d = served K m1 (fresh K m1 g (accepted K m.epoll.epfd s.fd w1).0.1) in
      let other : g ≢ s.fd = λ e. apart (sym e ∙ none_came) in
      record {
        after = joined m1 d (after_accept K m.epoll.epfd s.fd w1);
        ran = accept_round K fuel timeout m l s flags here mapped bound reported readable;
        world = refl;
        epfd = refl;
        next = refl;
        lost = d;
        here = update_self m1.heap m.next (some d);
        closed = none_came;
        mapped =
            ap (update_ℤ m.epoll.conn_map g (some m.next)) (sym none_came)
            ∙ update_ℤ_self m.epoll.conn_map g (some m.next);
        others = λ q ne ne'. ground (arith, ne, ne');
        idle = record {
          sock = set_revent flags s;
          here = ground (arith, old);
          old = omega (arith, old);
          same_fd = refl;
          bound = bound;
          mapped = update_ℤ_ne m.epoll.conn_map g s.fd (some m.next) other ∙ mapped;
          unused = λ q. let h = unused (suc q) in ground (arith, h, old);
        };
      }

  refused_round :
      (m : Machine W) {fd : ℤ} {flags : ℕ} {w1 : W}
      → Idle l fd m
      → K.epoll_wait m.epoll.epfd max_epoll_conn timeout m.world
        ≡ (record { events = flags; fd = fd } ∷ [], w1)
      → has_flag flags epollin ≡ true
      → client K m.epoll.epfd fd w1 ≡ minus_one
      → fd ≢ minus_one
      → AfterRefusal m fd w1
  refused_round m {fd} {flags} {w1} i reported readable none_came apart =
      subst
        (λ f.
          K.epoll_wait m.epoll.epfd max_epoll_conn timeout m.world
            ≡ (record { events = flags; fd = f } ∷ [], w1)
          → client K m.epoll.epfd f w1 ≡ minus_one
          → f ≢ minus_one
          → AfterRefusal m f w1)
        i.same_fd
        (λ r c a.
          at_socket m i.sock i.here i.old i.bound (ap m.epoll.conn_map i.same_fd ∙ i.mapped)
            i.unused r readable c a)
        reported none_came apart

  Leaked-step :
      {n : ℕ} {m m' : Machine W} {fd : ℤ} {w1 : W}
      → l < m.next
      → (a : AfterRefusal m fd w1) → Leaked l n a.after m'
      → Leaked l (suc n) m m'
  Leaked-step {n} {m} {m'} old a more = record {
    next = omega (arith, more.next, a.next);
    lost = λ q low high. elim (dec_lt m.next q) [
      | yes h ↦ more.lost q (omega (arith, a.next)) (omega (arith, a.next))
      | no h ↦
          let same : m.next ≡ q = omega arith in
          let there : a.after.heap q ≡ some a.lost = ap a.after.heap (sym same) ∙ a.here in
          (
            a.lost,
            more.others q (λ e. absurd (omega (arith, e))) (omega (arith, a.next)) ∙ there,
            a.closed,
          )
    ];
    last = last_one;
    map_kept = λ e. absurd (omega (arith, e));
    others = λ q ne low.
        more.others q ne (omega (arith, a.next)) ∙ a.others q ne (λ e. absurd (omega (arith, e)));
  }
    where
      last_one : (k : ℕ) → suc n ≡ suc k → m'.epoll.conn_map minus_one ≡ some (m.next + k)
      last_one zero e =
          more.map_kept (omega (arith, e)) ∙ a.mapped ∙ ap (λ (x : ℕ). some x) (omega arith)
      last_one (suc k) e =
          more.last k (omega (arith, e)) ∙ ap (λ (x : ℕ). some x) (omega (arith, a.next))

  module _ (fd : ℤ) (apart : fd ≢ minus_one) where
    -- After `n` rounds in which `accept` fails, `n` connections with the descriptor -1 are left in
    -- memory, of which the map leads only to the last. The server listens as before.
    pub serve-Leaked :
        (n : ℕ) (m : Machine W) {w' : W}
        → Idle l fd m
        → Refusals K m.epoll.epfd fd timeout n m.world w'
        → (m' : Machine W) × (serve K fuel n timeout m ≡ ok tt m')
          × (m'.world ≡ w')
          × Idle l fd m'
          × Leaked l n m m'
    unfolding serve start
    serve-Leaked zero m i over = (
      m,
      refl,
      refl,
      i,
      record {
        next = omega arith;
        lost = λ q low high. absurd (omega arith);
        last = λ k e. absurd (omega (arith, e));
        map_kept = λ e. refl;
        others = λ q ne low. refl;
      },
    )
    serve-Leaked (suc n) m i (refused {w1} {w2} reported readable none_came more) =
        let a = refused_round m i reported readable none_came apart in
        let more1 =
          subst (λ x. Refusals K x fd timeout n a.after.world w2) (sym a.epfd)
            (subst (λ w. Refusals K m.epoll.epfd fd timeout n w w2) (sym a.world) more) in
        let (m', run, there, i', leak) = serve-Leaked n a.after a.idle more1 in
        (m', rw (a.ran) run, there, i', Leaked-step i.old a leak)
