-- ===== src/Epoll.antt =====
-- src/Epoll.cpp and inc/Epoll.hpp: the set of watched connections.
pub mod Update
use online_chat_proj.Base.{ℕ, Option, none, some, List, [], ◌∷◌, if◌then◌else◌}
use online_chat_proj.Base.Int.{ℤ, minus_one, ◌==ℤ◌, update_ℤ}
use online_chat_proj.Os.{Kernel, EpollEvent, ctl_add, ctl_mod, ctl_del}
use online_chat_proj.Connection.{
  get_fd, get_event, get_in_epoll, Handler, set_in_epoll, set_revent, set_recv_callback,
  set_send_callback, destroy,
}
use online_chat_proj.Machine.{
  Epoll, M, ok, pure, skip, syscall, command, non_null, load, put, modify, ◌>>=◌, ◌>>◌,
}
use online_chat_proj.Log.{errif}

abbrev pub max_epoll_conn : ℕ
max_epoll_conn = 16384

pub data EpollAction : Type 0 where
  action_update action_delete : EpollAction

module _ {W : Type 0} where
  abbrev pub set_epoll : Epoll → M W (Unit {0})
  set_epoll e m = ok tt (record m { epoll = e })

  -- `connMap[fd]`, and `connMap[fd] = p`
  abbrev pub get_epoll : M W Epoll
  get_epoll m = ok m.epoll m

  unfoldable pub set_conn : ℤ → Option ℕ → M W (Unit {0})
  set_conn fd p m =
      ok tt (record m { epoll = record (m.epoll) { conn_map = update_ℤ m.epoll.conn_map fd p } })

module _ {W : Type 0} (K : Kernel W) where
  -- `Epoll()`: the descriptor is stored before it is checked, and the map starts empty.
  unfoldable pub new_epoll : M W (Unit {0})
  new_epoll = do
    epfd ← syscall K.epoll_create
    set_epoll (record { epfd = epfd; conn_map = λ _. none })
    errif K (epfd ==ℤ minus_one) "epoll create failed!"

  -- `~Epoll`
  unfoldable pub close_epoll : M W (Unit {0})
  close_epoll = do e ← get_epoll; command (K.close e.epfd)

  -- `delete conn`
  unfoldable pub delete : ℕ → M W (Unit {0})
  delete p = do c ← load p; command (destroy K c); put p none

  -- The three branches of `updateConnection`; the results of `epoll_ctl` are not looked at.
  unfoldable pub modify_event : ℕ → M W (Unit {0})
  modify_event p = do
    c ← load p
    e ← get_epoll
    _ ← syscall (K.epoll_ctl e.epfd ctl_mod (get_fd c) (some (get_event c)))
    skip

  unfoldable pub add_event : ℕ → M W (Unit {0})
  add_event p = do
    c ← load p
    e ← get_epoll
    _ ← syscall (K.epoll_ctl e.epfd ctl_add (get_fd c) (some (get_event c)))
    modify p set_in_epoll
    set_conn (get_fd c) (some p)

  unfoldable pub remove : ℕ → M W (Unit {0})
  remove p = do
    c ← load p
    set_conn (get_fd c) none
    e ← get_epoll
    _ ← syscall (K.epoll_ctl e.epfd ctl_del (get_fd c) none)
    delete p

  unfoldable pub update_connection : ℕ → EpollAction → M W (Unit {0})
  update_connection p action_update = do
    c ← load p
    if get_in_epoll c then modify_event p else add_event p
  update_connection p action_delete = do c ← load p; if get_in_epoll c then remove p else skip

  -- The loop of `wait` over the events that the system reported.
  unfoldable pub collect : List EpollEvent → M W (List ℕ)
  collect [] = pure []
  collect (ev ∷ evs) = do
    e ← get_epoll
    p ← non_null (e.conn_map ev.fd)
    modify p (set_revent ev.events)
    ps ← collect evs
    pure (p ∷ ps)

  unfoldable pub wait : ℤ → M W (List ℕ)
  wait timeout = do
    e ← get_epoll
    evs ← syscall (K.epoll_wait e.epfd max_epoll_conn timeout)
    collect evs

module _ {W : Type 0} where
  -- `setRecvCallback` and `setSendCallback`: the function is bound to the connection.
  unfoldable pub bind_recv : ℕ → Handler → M W (Unit {0})
  bind_recv p f = modify p (set_recv_callback (record { handler = f; conn = p }))

  unfoldable pub bind_send : ℕ → Handler → M W (Unit {0})
  bind_send p f = modify p (set_send_callback (record { handler = f; conn = p }))
