-- ===== src/Bounds/Loop.antt =====
-- The reactor and the whole program, for any policy under which the loop of `recvCallback` stays
-- in its bounds.
use online_chat_proj.Base.{ℕ, zero, suc, Option, none, some, List, [], ◌∷◌}
use online_chat_proj.Base.Int.{ℤ, minus_one}
use online_chat_proj.Os.{Kernel, has_flag, epollin, epollout}
use online_chat_proj.Connection.{Handler, Callback, accept_handler, recv_handler, send_handler}
use online_chat_proj.Machine.{Machine}
use online_chat_proj.Epoll.{new_epoll, wait}
use online_chat_proj.EventLoop.{
  invoke, exe_recv_callback, exe_send_callback, dispatch, dispatch_all, round, start,
}
use online_chat_proj.Server.{Server, call, serve}
use online_chat_proj.Main.{main}
use online_chat_proj.Bounds.{Policy, Sound}
use online_chat_proj.Bounds.Stays.{StaysFit, returns, faults, bind, if-Stays, load-Stays}
use online_chat_proj.Bounds.Calls.{
  errif-Stays, new_server-Stays, accept_callback-Stays, send_callback-Stays, collect-Stays,
}
use online_chat_proj.Bounds.Receive.{LoopStays, recv_callback-Stays}

module _ {V : Policy} {W : Type 0} (K : Kernel W) (fuel : ℕ) (loop : LoopStays V K fuel) where
  call-Stays :
      (k : Handler) (p : ℕ) (m : Machine W)
      → Sound V m
      → StaysFit V (call K fuel (record { handler = k; conn = p }) m)
  unfolding call
  call-Stays accept_handler p m all = accept_callback-Stays K p m all
  call-Stays recv_handler p m all = recv_callback-Stays K fuel p m loop all
  call-Stays send_handler p m all = send_callback-Stays K p m all

  invoke-Stays :
      (o : Option Callback) (m : Machine W) → Sound V m → StaysFit V (invoke (call K fuel) o m)
  invoke-Stays none m all = faults V.empty
  invoke-Stays (some f) m all = call-Stays f.handler f.conn m all

  dispatch-Stays : (p : ℕ) (m : Machine W) → Sound V m → StaysFit V (dispatch (call K fuel) p m)
  unfolding dispatch exe_recv_callback exe_send_callback
  dispatch-Stays p m all = bind (load-Stays p m all) λ c m1 (_, all1).
      if-Stays (has_flag c.revent.events epollin) _ _ m1
        (bind (load-Stays p m1 all1) λ d m2 (_, all2). invoke-Stays d.recv_callback m2 all2)
        (if-Stays (has_flag c.revent.events epollout) _ _ m1
          (bind (load-Stays p m1 all1) λ d m2 (_, all2). invoke-Stays d.send_callback m2 all2)
          (returns all1))

  dispatch_all-Stays :
      (ps : List ℕ) (m : Machine W) → Sound V m → StaysFit V (dispatch_all (call K fuel) ps m)
  unfolding dispatch_all
  dispatch_all-Stays [] m all = returns all
  dispatch_all-Stays (p ∷ ps) m all =
      bind (dispatch-Stays p m all) λ _ m1 all1. dispatch_all-Stays ps m1 all1

  start-Stays :
      (n : ℕ) (timeout : ℤ) (m : Machine W)
      → Sound V m
      → StaysFit V (start (call K fuel) K n timeout m)
  unfolding start round wait
  start-Stays zero timeout m all = returns all
  start-Stays (suc n) timeout m all =
      bind (bind (collect-Stays K _ _ all) λ ps m1 all1. dispatch_all-Stays ps m1 all1)
        λ _ m2 all2. start-Stays n timeout m2 all2

  pub main-StaysFit :
      (raw : Server) (n : ℕ) (m : Machine W) → Sound V m → StaysFit V (main K raw fuel n m)
  unfolding main serve new_epoll
  main-StaysFit raw n m all = bind (errif-Stays K _ _ _ all) λ _ m1 all1.
      bind (new_server-Stays K raw (some 0) m1 all1) λ s m2 all2. start-Stays n minus_one m2 all2
