-- ===== src/ServerApp/Service.antt =====
-- apps/server.cpp from its start over any number of clients.
use Prim.Native.Nat.{bit_or}
use online_chat_proj.Base.{ℕ, ◌*◌, ◌<◌, ◌≡◌, false, some, List}
use online_chat_proj.Base.Lists.{length}
use online_chat_proj.Base.Int.{ℤ, pos, minus_one, ◌==ℤ◌}
use online_chat_proj.Os.{Kernel, epollin, epollet, ctl_add}
use online_chat_proj.InetAddress.{address}
use online_chat_proj.Machine.{Machine, ok}
use online_chat_proj.Log.{errif}
use online_chat_proj.GaussConnector.{Libpq, GaussConnector, connected, open_connector}
use online_chat_proj.ServerApp.{buffer_length, max_listen, server_main}
use online_chat_proj.ServerApp.Exchange.{at_world}
use online_chat_proj.ServerApp.Rounds.{Guests, Guests-DeedRounds}
use online_chat_proj.ServerApp.Deeds.{DeedRounds, rounds-DeedRounds}

-- What the system answers to the calls of the start, which begins in state `w`.
module _ {W : Type 0} (K : Kernel W) (w : W) where
  abbrev pub created : ℤ × W
  created = K.socket w

  abbrev pub polled : ℤ × W
  polled = K.epoll_create created.1

  abbrev pub bound : ℤ × W
  bound = let a = address K "127.0.0.1" (pos 8080) in K.bind created.0 a.addr a.addr_sz polled.1

  abbrev pub listens : ℤ × W
  listens = K.listen created.0 max_listen bound.1

  abbrev pub started : W
  started =
      (K.epoll_ctl polled.0 ctl_add created.0
        (some (record { events = bit_or epollin epollet; fd = created.0 })) listens.1).1

  module _ {C R : Type 0} (L : Libpq W C R) (fuel : ℕ) (m : Machine W) {g : GaussConnector C R}
      (reached : open_connector L m.world ≡ connected g w) (c : (created.0 ==ℤ minus_one) ≡ false)
      (p : (polled.0 ==ℤ minus_one) ≡ false) (b : (bound.0 ==ℤ minus_one) ≡ false)
      (l : (listens.0 ==ℤ minus_one) ≡ false) (enough : buffer_length < fuel) where
    -- Where the database is reached and no call of the start fails, whatever events the system then
    -- reports in each round, and in whatever order, the program gets through the rounds and does at
    -- each event what `Deed` says, provided that no call of `recv` fails with another error than
    -- would-block and no message fills the buffer.
    pub server_main-DeedRounds :
        (n : ℕ) {w' : W}
        → DeedRounds K polled.0 created.0 n started w'
        → server_main K L fuel n m ≡ ok tt (at_world m w')
    unfolding server_main errif
    server_main-DeedRounds n rs =
        rw (reached, c, p, b, l) (rounds-DeedRounds K polled.0 created.0 fuel enough m n rs)

    -- Then the program gets through the visits of any number of clients that come one after the
    -- other, two rounds of its loop for each: each client is announced, its text printed, and its
    -- descriptor closed and then taken out.
    server_main-serves :
        (msgs : List (List ℕ)) {w' : W}
        → Guests K polled.0 created.0 started msgs w'
        → server_main K L fuel (length msgs * 2) m ≡ ok tt (at_world m w')
    server_main-serves msgs vs =
        server_main-DeedRounds (length msgs * 2) (Guests-DeedRounds K polled.0 created.0 msgs vs)
