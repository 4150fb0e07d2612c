-- ===== src/Fuel/Total.antt =====
-- With enough fuel every run of apps/test-main.cpp, of any number of rounds, comes to an end.
use Prim.Native.String.{String}
use online_chat_proj.Base.{
  ℕ, zero, suc, ◌<◌, ◌≤◌, ◌≡◌, ◌≢◌, Bool, true, false, if◌then◌else◌, Option-cases, inl, inr,
  Option, none, some, List, [], ◌∷◌, arith, leb, update_self,
}
use online_chat_proj.Base.Int.{ℤ, pos, negsuc, minus_one}
use online_chat_proj.Os.{Kernel, EpollEvent, has_flag, epollin, epollout}
use online_chat_proj.InetAddress.{InetAddress}
use online_chat_proj.Connection.{
  Connection, Handler, Callback, accept_handler, recv_handler, send_handler, recv_buffer_length,
  r_buffer_clear,
}
use online_chat_proj.Machine.{
  Machine, M, fault, dangling, out_of_fuel, load, modify, alloc, non_null,
}
use online_chat_proj.Machine.Object.{modify-ok}
use online_chat_proj.Log.{errif}
use online_chat_proj.Socket
use online_chat_proj.Epoll.{
  EpollAction, action_update, action_delete, new_epoll, update_connection, modify_event, add_event,
  remove, delete, set_conn, collect, wait, bind_recv, bind_send,
}
use online_chat_proj.EventLoop.{
  invoke, exe_recv_callback, exe_send_callback, dispatch, dispatch_all, round, start,
}
use online_chat_proj.Server.{
  Server, terminated, write_from, recv_callback, send_callback, accept_callback, call, new_server,
  serve,
}
use online_chat_proj.Main.{main}
use online_chat_proj.Fuel.Enough.{
  Ends-ne-out_of_fuel, Ends, returns, exits, faults, bind, load-Ends, modify-Ends, recv_loop-Ends,
  Steady, rounds_left,
}

if-Ends :
    {W A : Type 0} (b : Bool) (x y : M W A) (m : Machine W)
    → Ends (x m)
    → Ends (y m)
    → Ends ((if b then x else y) m)
if-Ends true x y m h k = h
if-Ends false x y m h k = k

module _ {W : Type 0} (K : Kernel W) where
  errif-Ends : (b : Bool) (msg : String) (m : Machine W) → Ends (errif K b msg m)
  unfolding errif
  errif-Ends true msg m = exits
  errif-Ends false msg m = returns

  update_connection-Ends :
      (p : ℕ) (a : EpollAction) (m : Machine W) → Ends (update_connection K p a m)
  unfolding update_connection modify_event add_event remove delete set_conn
  update_connection-Ends p action_update m = bind (load-Ends p m) λ c m1.
      if-Ends c.in_epoll _ _ m1 (bind (load-Ends p m1) λ d m2. returns)
        (bind (load-Ends p m1) λ d m2. bind (modify-Ends p _ _) λ _ m3. returns)
  update_connection-Ends p action_delete m = bind (load-Ends p m) λ c m1.
      if-Ends c.in_epoll _ _ m1 (bind (load-Ends p m1) λ d m2. bind (load-Ends p _) λ e m3. returns)
        returns

  bind_recv-Ends : (p : ℕ) (h : Handler) (m : Machine W) → Ends (bind_recv p h m)
  unfolding bind_recv
  bind_recv-Ends p h m = modify-Ends p _ m

  bind_send-Ends : (p : ℕ) (h : Handler) (m : Machine W) → Ends (bind_send p h m)
  unfolding bind_send
  bind_send-Ends p h m = modify-Ends p _ m

  non_null-Ends : (o : Option ℕ) (m : Machine W) → Ends (non_null o m)
  non_null-Ends none m = faults
  non_null-Ends (some p) m = returns

  inet_addr_of-Ends : (o : Option InetAddress) (m : Machine W) → Ends (Socket.inet_addr_of K o m)
  inet_addr_of-Ends none m = faults
  inet_addr_of-Ends (some a) m = returns

  socket_bind-Ends : (p : ℕ) (m : Machine W) → Ends (Socket.bind K p m)
  unfolding Socket.bind
  socket_bind-Ends p m =
      bind (load-Ends p m) λ c m1. bind (inet_addr_of-Ends c.inet_addr m1) λ a m2. errif-Ends _ _ _

  listen-Ends : (p n : ℕ) (m : Machine W) → Ends (Socket.listen K p n m)
  unfolding Socket.listen
  listen-Ends p n m = bind (load-Ends p m) λ c m1. errif-Ends _ _ _

  new_socket-Ends : (ip : String) (port : ℤ) (m : Machine W) → Ends (Socket.new_socket K ip port m)
  unfolding Socket.new_socket alloc
  new_socket-Ends ip port m =
      bind (errif-Ends _ _ _)
        λ _ m1. bind (load-Ends _ m1) λ c m2. bind (socket_bind-Ends _ _) λ _ m3. returns

  new_server-Ends :
      (raw : Server) (loop : Option ℕ) (m : Machine W) → Ends (new_server K raw loop m)
  unfolding new_server
  new_server-Ends raw loop m = bind (errif-Ends _ _ m) λ _ m1. bind (new_socket-Ends _ _ m1) λ s m2.
      bind (listen-Ends s _ m2) λ _ m3. bind (modify-Ends s _ m3) λ _ m4.
        bind (load-Ends s m4) λ c m5. bind (non_null-Ends loop _) λ _ m6.
          bind (update_connection-Ends s _ m6) λ _ m7. bind (bind_recv-Ends s _ m7) λ _ m8. returns

  accept_callback-Ends : (p : ℕ) (m : Machine W) → Ends (accept_callback K p m)
  unfolding accept_callback Socket.accept alloc
  accept_callback-Ends p m = bind (bind (load-Ends p m) λ c m1. returns) λ q m2.
      bind (load-Ends q m2) λ c m3. bind (modify-Ends q _ _) λ _ m4.
        bind (update_connection-Ends q _ m4)
          λ _ m5. bind (bind_recv-Ends q _ m5) λ _ m6. bind_send-Ends q _ m6

  terminated-Ends : (o : Option (List ℕ)) (m : Machine W) → Ends (terminated o m)
  terminated-Ends none m = faults
  terminated-Ends (some l) m = returns

  write_from-Ends : (c : Connection) (z : ℤ) (m : Machine W) → Ends (write_from K c z m)
  unfolding write_from
  write_from-Ends c (pos n) m = if-Ends (leb n 2048) _ _ m returns faults
  write_from-Ends c (negsuc n) m = faults

  send_callback-Ends : (p : ℕ) (m : Machine W) → Ends (send_callback K p m)
  unfolding send_callback
  send_callback-Ends p m = bind (load-Ends p m) λ c m1. bind (terminated-Ends _ m1) λ t m2.
      bind (modify-Ends p _ m2) λ _ m3. bind (modify-Ends p _ m3) λ _ m4.
        bind (load-Ends p m4)
          λ d m5. bind (write_from-Ends d _ m5) λ n m6. update_connection-Ends p _ m6

  collect-Ends : (evs : List EpollEvent) (m : Machine W) → Ends (collect K evs m)
  unfolding collect
  collect-Ends [] m = returns
  collect-Ends (ev ∷ evs) m =
      bind (non_null-Ends _ _)
        λ p m1. bind (modify-Ends p _ m1) λ _ m2. bind (collect-Ends evs m2) λ ps m3. returns

pub modify-none :
    {W : Type 0} (m : Machine W) (p : ℕ) (f : Connection → Connection)
    → m.heap p ≡ none
    → modify p f m ≡ fault dangling
unfolding modify load
modify-none m p f e = rw e

rounds_left-le : (z : ℤ) → rounds_left z ≤ recv_buffer_length
rounds_left-le (pos n) = omega arith
rounds_left-le (negsuc n) = omega arith

module _ {W : Type 0} (K : Kernel W) (steady : Steady K) (fuel : ℕ)
    (enough : recv_buffer_length < fuel) where
  recv_callback-Ends : (p : ℕ) (m : Machine W) → Ends (recv_callback K fuel p m)
  unfolding recv_callback
  recv_callback-Ends p m = elim (Option-cases (m.heap p)) [
    | inl e ↦ rw (modify-none m p r_buffer_clear e) faults
    | inr (c, e) ↦
        let d = r_buffer_clear c in
        let full : rounds_left d.rlen < fuel = omega (arith, rounds_left-le d.rlen) in
        rw (modify-ok m p r_buffer_clear e) (
          bind (recv_loop-Ends K steady fuel p _ d (update_self m.heap p (some d)) full) λ _ m1.
            bind (load-Ends p m1) λ c' m2.
              bind (terminated-Ends K _ m2)
                λ t m3. bind (modify-Ends p _ _) λ _ m4. update_connection-Ends K p _ m4)
  ]

  call-Ends :
      (k : Handler) (p : ℕ) (m : Machine W)
      → Ends (call K fuel (record { handler = k; conn = p }) m)
  unfolding call
  call-Ends accept_handler p m = accept_callback-Ends K p m
  call-Ends recv_handler p m = recv_callback-Ends p m
  call-Ends send_handler p m = send_callback-Ends K p m

  invoke-Ends : (o : Option Callback) (m : Machine W) → Ends (invoke (call K fuel) o m)
  invoke-Ends none m = faults
  invoke-Ends (some f) m = call-Ends f.handler f.conn m

  dispatch_all-Ends : (ps : List ℕ) (m : Machine W) → Ends (dispatch_all (call K fuel) ps m)
  unfolding dispatch_all dispatch exe_recv_callback exe_send_callback
  dispatch_all-Ends [] m = returns
  dispatch_all-Ends (p ∷ ps) m =
      bind
        (bind (load-Ends p m) λ c m1.
          if-Ends (has_flag c.revent.events epollin) _ _ m1
            (bind (load-Ends p m1) λ d m2. invoke-Ends d.recv_callback m2)
            (if-Ends (has_flag c.revent.events epollout) _ _ m1
              (bind (load-Ends p m1) λ d m2. invoke-Ends d.send_callback m2) returns))
        λ _ m3. dispatch_all-Ends ps m3

  start-Ends : (n : ℕ) (timeout : ℤ) (m : Machine W) → Ends (start (call K fuel) K n timeout m)
  unfolding start round wait
  start-Ends zero timeout m = returns
  start-Ends (suc n) timeout m =
      bind (bind (collect-Ends K _ _) λ ps m1. dispatch_all-Ends ps m1)
        λ _ m2. start-Ends n timeout m2

  main-Ends : (raw : Server) (n : ℕ) (m : Machine W) → Ends (main K raw fuel n m)
  unfolding main serve new_epoll
  main-Ends raw n m =
      bind (errif-Ends K _ _ _)
        λ _ m1. bind (new_server-Ends K raw (some 0) m1) λ s m2. start-Ends n minus_one m2

  -- On a system on which each call of `recv` either ends the loop or hands over bytes, no more than
  -- were asked for, more fuel than the buffer has bytes is enough for every run of the program, of
  -- any number of rounds and from any state of memory: it comes to an end.
  pub main-ne-out_of_fuel :
      (raw : Server) (n : ℕ) (m : Machine W) → main K raw fuel n m ≢ out_of_fuel
  main-ne-out_of_fuel raw n m e = Ends-ne-out_of_fuel (main-Ends raw n m) e
