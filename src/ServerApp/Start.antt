-- ===== src/ServerApp/Start.antt =====
-- How apps/server.cpp starts, or ends before it serves anyone.
use online_chat_proj.Base.{ℕ, ◌≡◌, ◌⊎◌, true, false}
use online_chat_proj.Base.Int.{minus_one, ◌==ℤ◌}
use online_chat_proj.Os.{Kernel}
use online_chat_proj.Machine.{Machine, exited}
use online_chat_proj.GaussConnector.{Libpq, GaussConnector, connected, gave_up, open_connector}
use online_chat_proj.ServerApp.{rounds, server_main}
use online_chat_proj.ServerApp.Exchange.{at_world}
use online_chat_proj.ServerApp.Service.{created, polled, bound, listens, started}

module _ {W : Type 0} (K : Kernel W) where
  -- The calls that fail once the database is reached, in state `w`, and what they leave.
  pub data Refuses (w : W) : W → Type 0 where
    no_socket :
        ((created K w).0 ==ℤ minus_one) ≡ true
        → Refuses w (K.perror "socket create failed!" (created K w).1)
    no_epoll :
        ((created K w).0 ==ℤ minus_one) ≡ false
        → ((polled K w).0 ==ℤ minus_one) ≡ true
        → Refuses w (K.perror "epoll create failed!" (polled K w).1)
    unbound :
        ((created K w).0 ==ℤ minus_one) ≡ false
        → ((polled K w).0 ==ℤ minus_one) ≡ false
        → ((bound K w).0 ==ℤ minus_one) ≡ true
        → Refuses w (K.perror "bind error!" (bound K w).1)
    deaf :
        ((created K w).0 ==ℤ minus_one) ≡ false
        → ((polled K w).0 ==ℤ minus_one) ≡ false
        → ((bound K w).0 ==ℤ minus_one) ≡ false
        → ((listens K w).0 ==ℤ minus_one) ≡ true
        → Refuses w (K.perror "listen error!" (listens K w).1)

  -- No call fails.
  abbrev pub Granted : W → Type 0
  Granted w =
      ((created K w).0 ==ℤ minus_one ≡ false)
      × ((polled K w).0 ==ℤ minus_one ≡ false)
      × ((bound K w).0 ==ℤ minus_one ≡ false)
      × ((listens K w).0 ==ℤ minus_one ≡ false)

  module _ {C R : Type 0} (L : Libpq W C R) (m : Machine W) where
    -- The database is given up, or a later call fails.
    pub data Fails : W → Type 0 where
      no_database : {w : W} → open_connector L m.world ≡ gave_up w → Fails w
      refused :
          {g : GaussConnector C R} {w w' : W}
          → open_connector L m.world ≡ connected g w
          → Refuses w w'
          → Fails w'

    -- The program ends, or the database is reached, no call fails and it comes to its loop.
    abbrev pub Starts : ℕ → ℕ → Type 0
    Starts fuel n =
        ((w' : W) × Fails w' × (server_main K L fuel n m ≡ exited w'))
        ⊎ ((g : GaussConnector C R) × (w : W) × (open_connector L m.world ≡ connected g w)
            × Granted w
            × (server_main K L fuel n m
                ≡ rounds K fuel n (polled K w).0 (created K w).0 (at_world m (started K w))))
