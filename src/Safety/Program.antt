-- ===== src/Safety/Program.antt =====
-- The whole program of apps/test-main.cpp, from its start.
use online_chat_proj.Base.{ℕ, refl}
use online_chat_proj.Base.Int.{minus_one}
use online_chat_proj.Os.{Kernel}
use online_chat_proj.Os.Laws.{KernelLaws}
use online_chat_proj.Connection.{Connection}
use online_chat_proj.Server.{Server}
use online_chat_proj.Main.{boot, main}
use online_chat_proj.Safety.Safely.{Safely, bind}
use online_chat_proj.Safety.View.{Inv}
use online_chat_proj.Safety.Startup.{new_epoll-Safely, new_server-Safely}
use online_chat_proj.Safety.Loop.{serve-Safely}

-- On a system that obeys its manual, no run of the program, of any number of rounds, uses a null
-- or deleted connection or calls an empty callback; and where a run returns, every descriptor that
-- the system watches leads to a live connection with that descriptor and its callbacks.
pub main-Safely :
    {W : Type 0} {K : Kernel W} (L : KernelLaws K) (w : W) (junk : ℕ → Connection) (raw : Server)
    (fuel n : ℕ)
    → Safely (λ _. Inv L) (main K raw fuel n (boot w junk))
unfolding main
main-Safely {K} L w junk raw fuel n =
    bind (new_epoll-Safely L (boot w junk) (λ p. refl)) λ _ m blank.
      bind (new_server-Safely L raw m blank) λ _ m' inv. serve-Safely L fuel n m' minus_one inv
