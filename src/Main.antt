-- ===== src/Main.antt =====
-- apps/test-main.cpp: an event loop, a server on it, and the loop started.
pub mod Service
pub mod Crowd
pub mod Lawful
pub mod Start
use online_chat_proj.Base.{ℕ, none, some}
use online_chat_proj.Base.Int.{minus_one}
use online_chat_proj.Os.{Kernel}
use online_chat_proj.Connection.{Connection}
use online_chat_proj.Machine.{Machine, M, ◌>>=◌, ◌>>◌}
use online_chat_proj.Epoll.{new_epoll}
use online_chat_proj.Server.{Server, new_server, serve}

-- A process that has just started: no object is in memory.
abbrev pub boot : {W : Type 0} → W → (ℕ → Connection) → Machine W
boot w junk = record {
  world = w;
  heap = λ _. none;
  junk = junk;
  next = 0;
  epoll = record { epfd = minus_one; conn_map = λ _. none };
}

module _ {W : Type 0} (K : Kernel W) where
  -- The loop object is the only one of its kind; its address is written 0. `raw` is what the
  -- storage of the server held, `n` the rounds of the loop, `fuel` bounds each receive loop.
  unfoldable pub main : Server → ℕ → ℕ → M W (Unit {0})
  main raw fuel n = do new_epoll K; server ← new_server K raw (some 0); serve K fuel n minus_one
