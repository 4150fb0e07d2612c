-- ===== src/EventLoop/Dispatch.antt =====
-- The body of the loop of `EventLoop::start` on a live connection.
use online_chat_proj.Base.{ℕ, ◌≡◌, true, false, some}
use online_chat_proj.Os.{has_flag, epollin, epollout}
use online_chat_proj.Connection.{Connection, Callback}
use online_chat_proj.Machine.{Machine, M, ok}
use online_chat_proj.Machine.Object.{load-ok}
use online_chat_proj.EventLoop.{exe_recv_callback, exe_send_callback, dispatch}

module _ {W : Type 0} (run : Callback → M W (Unit {0})) (m : Machine W) (p : ℕ) {c : Connection}
    (here : m.heap p ≡ some c) where
  pub dispatch-recv :
      {f : Callback}
      → has_flag c.revent.events epollin ≡ true
      → c.recv_callback ≡ some f
      → dispatch run p m ≡ run f m
  unfolding dispatch exe_recv_callback
  dispatch-recv {f} readable bound =
      rw (load-ok m p here) (simp readable (rw (load-ok m p here) (simp bound)))

  pub dispatch-send :
      {f : Callback}
      → has_flag c.revent.events epollin ≡ false
      → has_flag c.revent.events epollout ≡ true
      → c.send_callback ≡ some f
      → dispatch run p m ≡ run f m
  unfolding dispatch exe_send_callback
  dispatch-send {f} quiet writable bound =
      rw (load-ok m p here) (simp (quiet, writable) (rw (load-ok m p here) (simp bound)))

  pub dispatch-neither :
      has_flag c.revent.events epollin ≡ false
      → has_flag c.revent.events epollout ≡ false
      → dispatch run p m ≡ ok tt m
  unfolding dispatch
  dispatch-neither quiet idle = rw (load-ok m p here) (simp (quiet, idle))
