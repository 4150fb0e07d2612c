-- ===== src/Server/Rounds.antt =====
-- Single rounds of `EventLoop::start` with the callbacks of src/Server.cpp: the event of the listening
-- socket, and those of a client.
use online_chat_proj.Base.{
  ℕ, ◌≡◌, ◌<◌, refl, ap, true, false, some, List, [], ◌∷◌, arith, update_self, zero, suc, ◌+◌,
}
use online_chat_proj.Base.Int.{ℤ, pos}
use online_chat_proj.Base.Lists.{length}
use online_chat_proj.Os.{Kernel, EpollEvent, has_flag, epollin, epollout, new_client}
use online_chat_proj.InetAddress.{empty_address}
use online_chat_proj.Connection.{
  Connection, Callback, recv_handler, send_handler, accept_handler, set_revent, set_event,
  set_non_blocking, recv_buffer_length,
}
use online_chat_proj.Machine.{Machine, M, ok, ◌>>◌, Run, exited, fault, out_of_fuel, and_then}
use online_chat_proj.Machine.Object.{holding, load-holding, modify-ok}
use online_chat_proj.Epoll.{wait, collect, max_epoll_conn}
use online_chat_proj.EventLoop.{
  exe_recv_callback, exe_send_callback, dispatch, dispatch_all, round, start,
}
use online_chat_proj.Epoll.Update.{after_add}
use online_chat_proj.Server.{call}
use online_chat_proj.Server.Accept.{watch, joined, fresh, served, accept_callback_lem}
use online_chat_proj.Server.Receive.{filled, Delivers}
use online_chat_proj.Server.Text.{reply}
use online_chat_proj.Server.Echo.{
  answering, after_recv, recv_callback_lem, forgotten, send_callback_lem,
}

returned :
    {W A B : Type 0} (x : Run W A) (k : A → M W B) {b : B} {m' : Machine W}
    → and_then x k ≡ ok b m'
    → (a : A) × (m1 : Machine W) × (x ≡ ok a m1) × (k a m1 ≡ ok b m')
returned (ok a m1) k e = (a, m1, refl, e)
returned (exited w) k e = absurd (cc)
returned (fault f) k e = absurd (cc)
returned out_of_fuel k e = absurd (cc)

module _ {W : Type 0} (run : Callback → M W (Unit {0})) (K : Kernel W) (timeout : ℤ) where
  pub start-add :
      (n k : ℕ) (m : Machine W) {m' : Machine W}
      → start run K n timeout m ≡ ok tt m'
      → start run K (n + k) timeout m ≡ start run K k timeout m'
  unfolding start
  start-add zero k m {m'} e =
      let same : m ≡ m' = cc in
      let none_more : 0 + k ≡ k = omega arith in rw none_more (ap (start run K k timeout) same)
  start-add (suc n) k m {m'} e =
      let (_, m1, first, rest) = returned (round run K timeout m) (λ _. start run K n timeout) e in
      let one_more : suc n + k ≡ suc (n + k) = omega arith in
      rw (one_more, first) (start-add n k m1 rest)

module _ {W : Type 0} (K : Kernel W) (run : Callback → M W (Unit {0})) (timeout : ℤ) where
  -- The system reports one event, of a descriptor that the map leads from to a connection.
  round_single :
      (m : Machine W) {w : W} {ev : EpollEvent} {p : ℕ} {c : Connection}
      → K.epoll_wait m.epoll.epfd max_epoll_conn timeout m.world ≡ (ev ∷ [], w)
      → m.epoll.conn_map ev.fd ≡ some p
      → m.heap p ≡ some c
      → round run K timeout m
        ≡ (dispatch run p >> λ m'. ok tt m') (holding m w p (set_revent ev.events c))
  unfolding round wait collect dispatch_all
  round_single m {w} {ev} {p} {c} reported mapped here =
      rw (reported, mapped, modify-ok (record m { world = w }) p (set_revent ev.events) here) refl

  dispatch-in :
      (m : Machine W) (w : W) (p : ℕ) (c : Connection) {f : Callback}
      → has_flag c.revent.events epollin ≡ true
      → c.recv_callback ≡ some f
      → dispatch run p (holding m w p c) ≡ run f (holding m w p c)
  unfolding dispatch exe_recv_callback
  dispatch-in m w p c {f} readable bound =
      rw (load-holding m w p c) (simp readable (rw (load-holding m w p c) (simp bound)))

  dispatch-out :
      (m : Machine W) (w : W) (p : ℕ) (c : Connection) {f : Callback}
      → has_flag c.revent.events epollin ≡ false
      → has_flag c.revent.events epollout ≡ true
      → c.send_callback ≡ some f
      → dispatch run p (holding m w p c) ≡ run f (holding m w p c)
  unfolding dispatch exe_send_callback
  dispatch-out m w p c {f} quiet writable bound =
      rw (load-holding m w p c) (simp (quiet, writable) (rw (load-holding m w p c) (simp bound)))

module _ {W : Type 0} (K : Kernel W) (fuel : ℕ) (timeout : ℤ) where
  -- The event of the listening socket: a client is accepted.
  pub accept_round :
      (m : Machine W) (l : ℕ) (s : Connection) (flags : ℕ) {w : W}
      → m.heap l ≡ some s
      → m.epoll.conn_map s.fd ≡ some l
      → s.recv_callback ≡ some (record { handler = accept_handler; conn = l })
      → K.epoll_wait m.epoll.epfd max_epoll_conn timeout m.world
        ≡ (record { events = flags; fd = s.fd } ∷ [], w)
      → has_flag flags epollin ≡ true
      → let m1 = holding m w l (set_revent flags s) in
        let r = K.accept s.fd empty_address.addr w in
        let d = fresh K m1 r.0.0 r.0.1 in
        let v = set_non_blocking K d (K.print (new_client r.0.0) r.1) in
        round (call K fuel) K timeout m
        ≡ ok tt (joined m1 (served K m1 d) (after_add K m.epoll (set_event watch d) v))
  unfolding call set_revent
  accept_round m l s flags {w} here mapped bound reported readable =
      let s' = set_revent flags s in
      rw
        (
          round_single K (call K fuel) timeout m reported mapped here,
          dispatch-in K (call K fuel) timeout m w l s' readable bound,
          accept_callback_lem K (holding m w l s') l s' (update_self m.heap l (some s')),
        )
        refl

  -- The event of a client that has sent its message.
  pub read_round :
      (m : Machine W) (p : ℕ) (c : Connection) (flags : ℕ) {w w' : W} {bs : List ℕ}
      → m.heap p ≡ some c
      → m.epoll.conn_map c.fd ≡ some p
      → c.recv_callback ≡ some (record { handler = recv_handler; conn = p })
      → c.in_epoll ≡ true
      → c.rlen ≡ pos 0
      → K.epoll_wait m.epoll.epfd max_epoll_conn timeout m.world
        ≡ (record { events = flags; fd = c.fd } ∷ [], w)
      → has_flag flags epollin ≡ true
      → Delivers K c.fd recv_buffer_length w bs w'
      → length bs < recv_buffer_length
      → recv_buffer_length < fuel
      → let c' = set_revent flags c in
        round (call K fuel) K timeout m
        ≡ ok tt (holding m (after_recv K m p c' bs w') p (answering K m p c' bs))
  unfolding call set_revent
  read_round m p c flags {w} {w'} {bs} here mapped bound watched empty reported readable d short
        enough =
      let c' = set_revent flags c in
      rw
        (
          round_single K (call K fuel) timeout m reported mapped here,
          dispatch-in K (call K fuel) timeout m w p c' readable bound,
          recv_callback_lem K m p c' fuel empty watched d short enough,
        )
        refl

  -- The event of a client that can be written to, after its message `bs` was read.
  pub answer_round :
      (m : Machine W) (p : ℕ) (c : Connection) (flags : ℕ) (bs : List ℕ) {w : W}
      → m.heap p ≡ some (filled c bs)
      → m.epoll.conn_map c.fd ≡ some p
      → c.send_callback ≡ some (record { handler = send_handler; conn = p })
      → c.in_epoll ≡ true
      → K.epoll_wait m.epoll.epfd max_epoll_conn timeout m.world
        ≡ (record { events = flags; fd = c.fd } ∷ [], w)
      → has_flag flags epollin ≡ false
      → has_flag flags epollout ≡ true
      → length bs < recv_buffer_length
      → let c' = set_revent flags c in
        round (call K fuel) K timeout m
        ≡ ok tt (forgotten K m p c' bs (K.write c.fd (reply c.wbuffer bs) w).1)
  unfolding call set_revent
  answer_round m p c flags bs {w} here mapped bound watched reported quiet writable short =
      let c' = set_revent flags c in
      rw
        (
          round_single K (call K fuel) timeout m reported mapped here,
          dispatch-out K (call K fuel) timeout m w p (filled c' bs) quiet writable bound,
          send_callback_lem K m p c' bs w watched short,
        )
        refl
