-- ===== src/Reactor/Event.antt =====
-- What the reactor does at one event: the call for a client's connection or for the listening socket.
use online_chat_proj.Base.{
  ℕ, suc, ◌<◌, ◌-◌, ◌≡◌, ◌≢◌, refl, sym, ap, inl, inr, ◌∙◌, true, false, none, some, List, ◌++◌,
  arith, update_ne,
}
use online_chat_proj.Base.Int.{ℤ, pos, minus_one, update_ℤ}
use online_chat_proj.Base.Lists.{length, zeros}
use online_chat_proj.Os.{Kernel, has_flag, epollin, epollout}
use online_chat_proj.Connection.{
  accept_handler, Connection, recv_buffer_length, set_event, connection, default_connection,
  set_in_epoll, set_recv_callback, set_send_callback, set_non_blocking,
}
use online_chat_proj.Machine.{Machine, ok}
use online_chat_proj.Machine.Object.{holding, holding_self}
use online_chat_proj.EventLoop.{dispatch}
use online_chat_proj.EventLoop.Dispatch.{dispatch-recv, dispatch-send}
use online_chat_proj.Server.{call, recv_callback, send_callback}
use online_chat_proj.Server.Accept.{fresh, served, joined, accept_callback_lem}
use online_chat_proj.Server.Receive.{filled, Delivers}
use online_chat_proj.Server.Text.{reply}
use online_chat_proj.Server.Echo.{recv_callback_lem, send_callback_lem, after_recv, forgotten}
use online_chat_proj.Server.Visits.{accepted, client, after_accept, after_read, after_answer}
use online_chat_proj.Reactor.{reading, answering, Clients}
use online_chat_proj.Reactor.View.{bound_to, Supplies, supplied, Represents, old, is_client}
use online_chat_proj.Reactor.Put.{gone, kept, Owns, Represents-put}
use online_chat_proj.Reactor.Collect.{Owns-client, Represents-client}

filled_self :
    (c : Connection) (bs : List ℕ)
    → c.rbuffer ≡ bs ++ zeros (recv_buffer_length - length bs)
    → c.rlen ≡ pos (length bs)
    → c ≡ filled c bs
filled_self c bs e f = λ i. record c { rbuffer = e i; rlen = f i }

module _ {W : Type 0} (K : Kernel W) (spare : ℕ → List ℕ) (fuel : ℕ) (l : ℕ) (fd : ℤ) where
  -- The call for the connection at `p` returns, with the clients `cl`, `made` objects made and the
  -- system in `w`, and with every other connection as it was.
  pub record Turned (m : Machine W) (p : ℕ) (w : W) (made : ℕ) (cl : Clients) : Type 0 where
    pub after : Machine W
    pub ran : dispatch (call K fuel) p m ≡ ok tt after
    pub world : after.world ≡ w
    pub epfd : after.epoll.epfd ≡ m.epoll.epfd
    pub represents : Represents l fd after cl
    pub supplies : Supplies spare made after
    pub others : (q : ℕ) (c : Connection) → p ≢ q → m.heap q ≡ some c → after.heap q ≡ some c

  module _ (m : Machine W) {made : ℕ} {cl : Clients} (r : Represents l fd m cl)
      (supply : Supplies spare made m) (p : ℕ) {c : Connection} (here : m.heap p ≡ some c) where
    pub hear_turn :
        {left bs : List ℕ} {w' : W}
        → recv_buffer_length < fuel
        → cl c.fd ≡ some (reading left)
        → has_flag c.revent.events epollin ≡ true
        → Delivers K c.fd recv_buffer_length m.world bs w'
        → length bs < recv_buffer_length
        → Turned m p
            (after_read K m.epoll.epfd fd c.fd bs w')
            made
            (update_ℤ cl c.fd (some (answering left bs)))
    unfolding call set_event
    hear_turn {left} {bs} {w'} enough known readable d short =
        let (_, _, s) = is_client r p here known in
        let (empty, holds) = s.holds in
        let c' = set_event epollout (filled c bs) in
        record {
          after = holding m (after_recv K m p c bs w') p c';
          ran =
              dispatch-recv (call K fuel) m p here readable s.receives
              ∙ ap (recv_callback K fuel p) (holding_self m p here)
              ∙ recv_callback_lem K m p c fuel empty s.watched d short enough;
          world = refl;
          epfd = refl;
          represents =
              Represents-client r p here known _ c' (answering left bs) refl
                (record {
                  watched = s.watched;
                  receives = s.receives;
                  sends = s.sends;
                  holds = (refl, refl, short, holds);
                })
                λ h. refl;
          supplies = supplied supply refl refl;
          others = λ q b ne e. update_ne m.heap p q (some c') ne ∙ e;
        }

    pub answer_turn :
        {left bs : List ℕ}
        → cl c.fd ≡ some (answering left bs)
        → has_flag c.revent.events epollin ≡ false
        → has_flag c.revent.events epollout ≡ true
        → Turned m p
            (after_answer K m.epoll.epfd fd c.fd (reply left bs) m.world)
            made
            (update_ℤ cl c.fd none)
    unfolding call
    answer_turn {left} {bs} known quiet writable =
        let (_, _, s) = is_client r p here known in
        let (buffer, len, short, holds) = s.holds in
        let sent = K.write c.fd (reply left bs) m.world in
        record {
          after = forgotten K m p c bs sent.1;
          ran =
              dispatch-send (call K fuel) m p here quiet writable s.sends
              ∙ ap (send_callback K p) (holding_self m p here)
              ∙ ap (λ b. send_callback K p (holding m m.world p b)) (filled_self c bs buffer len)
              ∙ send_callback_lem K m p c bs m.world s.watched short
              ∙ ap (λ b. ok tt (forgotten K m p c bs (K.write c.fd (reply b bs) m.world).1)) holds;
          world = refl;
          epfd = refl;
          represents =
              Represents-put r (Owns-client r p here known)
                (record {
                  heap = λ q. refl;
                  map = λ h. refl;
                  phases = λ h. refl;
                  grows = omega arith;
                  given = old r p here;
                })
                gone;
          supplies = supplied supply refl refl;
          others = λ q b ne e. update_ne m.heap p q none ne ∙ e;
        }

  module _ (m : Machine W) {made : ℕ} {cl : Clients} (r : Represents l fd m cl)
      (supply : Supplies spare made m) {c : Connection} (here : m.heap l ≡ some c) where
    Owns-new : (g : ℤ) → g ≢ minus_one → g ≢ fd → cl g ≡ none → Owns l fd m m.next g
    Owns-new g real apart free = record {
      client = let h = old r l here in omega arith;
      real = real;
      apart = apart;
      at = λ b e. absurd (cc (e, r.unused m.next (omega arith)));
      only = λ q b ne other e h. elim (r.objects q b other e) [
        | inl left ↦ real (sym h ∙ left)
        | inr (ph, known, _) ↦ cc (known, free, ap cl h)
      ];
    }

    pub admit_turn :
        has_flag c.revent.events epollin ≡ true
        → c.recv_callback ≡ bound_to accept_handler l
        → client K m.epoll.epfd c.fd m.world ≢ minus_one
        → client K m.epoll.epfd c.fd m.world ≢ fd
        → cl (client K m.epoll.epfd c.fd m.world) ≡ none
        → Turned m l
            (after_accept K m.epoll.epfd c.fd m.world)
            (suc made)
            (update_ℤ cl (client K m.epoll.epfd c.fd m.world) (some (reading (spare made))))
    unfolding call set_event connection default_connection set_in_epoll set_recv_callback
        set_send_callback set_non_blocking
    admit_turn readable accepts real apart free =
        let g = client K m.epoll.epfd c.fd m.world in
        let d = fresh K m g (accepted K m.epoll.epfd c.fd m.world).0.1 in
        record {
          after = joined m (served K m d) (after_accept K m.epoll.epfd c.fd m.world);
          ran =
              dispatch-recv (call K fuel) m l here readable accepts
              ∙ accept_callback_lem K m l c here;
          world = refl;
          epfd = refl;
          represents =
              Represents-put r (Owns-new g real apart free)
                (record {
                  heap = λ q. refl;
                  map = λ h. refl;
                  phases = λ h. refl;
                  grows = omega arith;
                  given = omega arith;
                })
                (kept refl (record {
                  watched = refl;
                  receives = refl;
                  sends = refl;
                  holds = (refl, supply.junk m.next ∙ ap spare supply.next);
                }));
          supplies = record { next = ap suc supply.next; junk = supply.junk };
          others = λ q b ne e.
              let given = old r q e in
              let new : m.next ≢ q = omega arith in update_ne m.heap m.next q _ new ∙ e;
        }
