-- ===== src/EventLoop.antt =====
-- src/EventLoop.cpp and inc/EventLoop.hpp: the reactor. It calls what the connections have stored,
-- so running a bound function is a parameter, which src/Server.cpp fills.
pub mod Dispatch
use online_chat_proj.Base.{ℕ, zero, suc, Option, none, some, List, [], ◌∷◌, if◌then◌else◌}
use online_chat_proj.Base.Int.{ℤ}
use online_chat_proj.Os.{Kernel, has_flag, epollin, epollout}
use online_chat_proj.Connection.{Callback, get_revent}
use online_chat_proj.Machine.{M, empty_function, fail, skip, load, ◌>>=◌, ◌>>◌}
use online_chat_proj.Epoll.{wait}

module _ {W : Type 0} (call : Callback → M W (Unit {0})) where
  -- Calling an empty `std::function` throws.
  abbrev pub invoke : Option Callback → M W (Unit {0})
  invoke none = fail empty_function
  invoke (some f) = call f

  -- `exeRecvCallback` and `exeSendCallback`
  unfoldable pub exe_recv_callback : ℕ → M W (Unit {0})
  exe_recv_callback p = do c ← load p; invoke c.recv_callback

  unfoldable pub exe_send_callback : ℕ → M W (Unit {0})
  exe_send_callback p = do c ← load p; invoke c.send_callback

  -- The body of the `for` loop: input first, output only without input.
  unfoldable pub dispatch : ℕ → M W (Unit {0})
  dispatch p = do
    c ← load p
    if has_flag (get_revent c).events epollin
        then exe_recv_callback p
        else if has_flag (get_revent c).events epollout
        then exe_send_callback p
        else skip

  unfoldable pub dispatch_all : List ℕ → M W (Unit {0})
  dispatch_all [] = skip
  dispatch_all (p ∷ ps) = do dispatch p; dispatch_all ps

  module _ (K : Kernel W) where
    -- The body of `while(true)`.
    unfoldable pub round : ℤ → M W (Unit {0})
    unfolding wait dispatch_all
    round timeout = do ps ← wait K timeout; dispatch_all ps

    -- The first `n` rounds of `start`, which never returns.
    unfoldable pub start : ℕ → ℤ → M W (Unit {0})
    start zero timeout = skip
    start (suc n) timeout = do round timeout; start n timeout
