-- ===== src/Reactor/Dispatch.antt =====
-- What the reactor does at any event of a round.
use online_chat_proj.Base.{ℕ, suc, ◌<◌, ◌≡◌, ◌≢◌, refl, sym, ap, ◌∙◌, none, some, List, subst}
use online_chat_proj.Base.Int.{ℤ, minus_one, update_ℤ}
use online_chat_proj.Os.{Kernel, EpollEvent, has_flag, epollin, epollout}
use online_chat_proj.Connection.{accept_handler, Connection, recv_buffer_length}
use online_chat_proj.Machine.{Machine}
use online_chat_proj.EventLoop.Dispatch.{dispatch-neither}
use online_chat_proj.Server.{call}
use online_chat_proj.Server.Receive.{Delivers}
use online_chat_proj.Server.Text.{reply}
use online_chat_proj.Server.Visits.{client, after_accept, after_read, after_answer}
use online_chat_proj.Reactor.{reading, answering, Clients, Turn, admit, refuse, hear, answer, pass}
use online_chat_proj.Reactor.View.{Supplies, Represents, is_socket, bound_to}
use online_chat_proj.Reactor.Refuse.{refuse_turn}
use online_chat_proj.Reactor.Event.{Turned, hear_turn, answer_turn, admit_turn}

-- A live object with the descriptor of the listening socket is the listening socket.
at_socket :
    {W : Type 0} {l : ℕ} {fd : ℤ} {m : Machine W} {cl : Clients} {A : Type 0} (p : ℕ)
    {c : Connection}
    → Represents l fd m cl
    → m.heap p ≡ some c
    → c.fd ≡ fd
    → (m.heap l ≡ some c → c.recv_callback ≡ bound_to accept_handler l → A)
    → A
at_socket {l} {m} p {c} r here own f =
    let here' : m.heap l ≡ some c = ap m.heap (sym (is_socket r p here own)) ∙ here in
    let same : r.sock ≡ c = cc (r.here, here') in
    f here' (sym (ap (λ (b : Connection). b.recv_callback) same) ∙ r.accepts)

module _ {W : Type 0} (K : Kernel W) (spare : ℕ → List ℕ) (fuel : ℕ) (l : ℕ) (fd : ℤ) where
  -- The reactor does at each event what the clients call for.
  pub dispatch-Turn :
      (m : Machine W) {k k' : ℕ} {cl cl' : Clients} {ev : EpollEvent} {w' : W} (p : ℕ)
      (c : Connection)
      → recv_buffer_length < fuel
      → Represents l fd m cl
      → Supplies spare k m
      → m.heap p ≡ some c
      → c.fd ≡ ev.fd
      → c.revent.events ≡ ev.events
      → Turn K spare m.epoll.epfd fd m.world k cl ev w' k' cl'
      → Turned K spare fuel l fd m p w' k' cl'
  dispatch-Turn m {k} {cl} p c enough r supply here own marked (admit readable real apart free) =
      let client_at = λ (x : ℤ). client K m.epoll.epfd x m.world in
      let turned =
        subst
          (λ x.
            client_at x ≢ minus_one
            → client_at x ≢ fd
            → cl (client_at x) ≡ none
            → Turned K spare fuel l fd m l (after_accept K m.epoll.epfd x m.world) (suc k)
                (update_ℤ cl (client_at x) (some (reading (spare k)))))
          own
          (at_socket p r here own (λ here' accepts.
            admit_turn K spare fuel l fd m r supply here'
              (ap (λ n. has_flag n epollin) marked ∙ readable) accepts)) in
      subst
        (λ q.
          Turned K spare fuel l fd m q (after_accept K m.epoll.epfd fd m.world) (suc k)
            (update_ℤ cl (client K m.epoll.epfd fd m.world) (some (reading (spare k)))))
        (sym (is_socket r p here own)) (turned real apart free)
  dispatch-Turn m {k} {cl} p c enough r supply here own marked (refuse readable fails) =
      let turned =
        subst
          (λ x.
            client K m.epoll.epfd x m.world ≡ minus_one
            → Turned K spare fuel l fd m l (after_accept K m.epoll.epfd x m.world) (suc k) cl)
          own
          (at_socket p r here own (λ here' accepts.
            refuse_turn K spare fuel l fd m r supply here'
              (ap (λ n. has_flag n epollin) marked ∙ readable) accepts)) in
      subst (λ q. Turned K spare fuel l fd m q (after_accept K m.epoll.epfd fd m.world) (suc k) cl)
        (sym (is_socket r p here own)) (turned fails)
  dispatch-Turn m {k} {cl} p c enough r supply here own marked
        (hear {w'} {flags} {g} {left} {bs} known readable d short) =
      subst
        (λ x.
          cl x ≡ some (reading left)
          → Delivers K x recv_buffer_length m.world bs w'
          → Turned K spare fuel l fd m p (after_read K m.epoll.epfd fd x bs w') k
              (update_ℤ cl x (some (answering left bs))))
        own
        (λ known' d'.
          hear_turn K spare fuel l fd m r supply p here enough known'
            (ap (λ n. has_flag n epollin) marked ∙ readable) d' short)
        known d
  dispatch-Turn m {k} {cl} p c enough r supply here own marked
        (answer {flags} {g} {left} {bs} known quiet writable) =
      subst
        (λ x.
          cl x ≡ some (answering left bs)
          → Turned K spare fuel l fd m p (after_answer K m.epoll.epfd fd x (reply left bs) m.world)
              k (update_ℤ cl x none))
        own
        (λ known'.
          answer_turn K spare fuel l fd m r supply p here known'
            (ap (λ n. has_flag n epollin) marked ∙ quiet)
            (ap (λ n. has_flag n epollout) marked ∙ writable))
        known
  dispatch-Turn m p c enough r supply here own marked (pass quiet idle) = record {
    after = m;
    ran =
        dispatch-neither (call K fuel) m p here (ap (λ n. has_flag n epollin) marked ∙ quiet)
          (ap (λ n. has_flag n epollout) marked ∙ idle);
    world = refl;
    epfd = refl;
    represents = r;
    supplies = supply;
    others = λ q b ne e. e;
  }
