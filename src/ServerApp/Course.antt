-- ===== src/ServerApp/Course.antt =====
-- apps/server.cpp from its start, whatever the system reports and whatever the database does.
use online_chat_proj.Base.{ℕ, ◌≡◌}
use online_chat_proj.Os.{Kernel}
use online_chat_proj.Machine.{Machine, ok}
use online_chat_proj.GaussConnector.{Libpq, GaussConnector, connected, open_connector}
use online_chat_proj.ServerApp.{server_main}
use online_chat_proj.ServerApp.Exchange.{at_world}
use online_chat_proj.ServerApp.Deeds.{Deeds, DeedRounds}
use online_chat_proj.ServerApp.Service.{created, polled, started}
use online_chat_proj.ServerApp.Start.{Granted}

module _ {W C R : Type 0} (K : Kernel W) (L : Libpq W C R) (m : Machine W) where
  -- The database is reached, no later call of the start fails, and from the state that these calls
  -- leave the program gets through its rounds, and does at each event what `Deed` says.
  abbrev pub GoesOn : ℕ → ℕ → Type 0
  GoesOn fuel n =
      (g : GaussConnector C R) × (w : W) × (w' : W) × (open_connector L m.world ≡ connected g w)
      × Granted K w
      × DeedRounds K (polled K w).0 (created K w).0 n (started K w) w'
      × (server_main K L fuel n m ≡ ok tt (at_world m w'))
