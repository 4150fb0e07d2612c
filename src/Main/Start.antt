-- ===== src/Main/Start.antt =====
-- How the program of apps/test-main.cpp starts, or ends before it serves anyone.
use online_chat_proj.Base.{
  ℕ, ◌≡◌, ◌⊎◌, inl, inr, refl, true, false, none, some, Bool-cases, Option-cases,
}
use online_chat_proj.Base.Int.{minus_one, ◌==ℤ◌}
use online_chat_proj.Os.{Kernel}
use online_chat_proj.Connection.{Connection}
use online_chat_proj.Machine.{Machine, exited}
use online_chat_proj.Log.{errif}
use online_chat_proj.Epoll.{new_epoll}
use online_chat_proj.Server.{Server, serve}
use online_chat_proj.Server.Create.{created, bound, listens, watching}
use online_chat_proj.Server.Create.Fails.{new_server-no_socket, new_server-unbound, new_server-deaf}
use online_chat_proj.Reactor.{no_clients}
use online_chat_proj.Reactor.View.{Represents}
use online_chat_proj.Main.{boot, main}
use online_chat_proj.Main.Service.{polling, listening, main-garbage}

module _ {W : Type 0} (K : Kernel W) (raw : Server) (w : W) (junk : ℕ → Connection) where
  abbrev start : Machine W
  start = polling K raw w junk

  -- The ways in which the start fails, and the state of the system then, with the message that was
  -- printed: the first call that returns -1 decides, and the check of the server's storage stands
  -- between the epoll instance and the socket.
  pub data Fails : W → Type 0 where
    no_epoll :
        ((K.epoll_create w).0 ==ℤ minus_one) ≡ true
        → Fails (K.perror "epoll create failed!" (K.epoll_create w).1)
    garbage :
        {p : ℕ}
        → ((K.epoll_create w).0 ==ℤ minus_one) ≡ false
        → raw.loop ≡ some p
        → Fails (K.perror "EventLoop * is nullptr!" (K.epoll_create w).1)
    no_socket :
        ((K.epoll_create w).0 ==ℤ minus_one) ≡ false
        → raw.loop ≡ none
        → ((created K raw start).0 ==ℤ minus_one) ≡ true
        → Fails (K.perror "socket create failed!" (created K raw start).1)
    unbound :
        ((K.epoll_create w).0 ==ℤ minus_one) ≡ false
        → raw.loop ≡ none
        → ((created K raw start).0 ==ℤ minus_one) ≡ false
        → ((bound K raw start).0 ==ℤ minus_one) ≡ true
        → Fails (K.perror "bind error!" (bound K raw start).1)
    deaf :
        ((K.epoll_create w).0 ==ℤ minus_one) ≡ false
        → raw.loop ≡ none
        → ((created K raw start).0 ==ℤ minus_one) ≡ false
        → ((bound K raw start).0 ==ℤ minus_one) ≡ false
        → ((listens K raw start).0 ==ℤ minus_one) ≡ true
        → Fails (K.perror "listen error!" (listens K raw start).1)

  pub main-Fails : (fuel n : ℕ) {w' : W} → Fails w' → main K raw fuel n (boot w junk) ≡ exited w'
  unfolding main new_epoll errif
  main-Fails fuel n (no_epoll polls) = rw polls refl
  main-Fails fuel n (garbage polls used) = main-garbage K raw w junk fuel n used polls
  main-Fails fuel n (no_socket polls zeroed c) =
      rw (polls, new_server-no_socket K raw start (some 0) zeroed c) refl
  main-Fails fuel n (unbound polls zeroed c b) =
      rw (polls, new_server-unbound K raw start (some 0) zeroed c b) refl
  main-Fails fuel n (deaf polls zeroed c b l) =
      rw (polls, new_server-deaf K raw start (some 0) zeroed c b l) refl

  -- No check fails.
  abbrev pub Started : Type 0
  Started =
      ((K.epoll_create w).0 ==ℤ minus_one ≡ false)
      × (raw.loop ≡ none)
      × ((created K raw start).0 ==ℤ minus_one ≡ false)
      × ((bound K raw start).0 ==ℤ minus_one ≡ false)
      × ((listens K raw start).0 ==ℤ minus_one ≡ false)

  pub start-cases : ((w' : W) × Fails w') ⊎ Started
  start-cases = elim (Bool-cases ((K.epoll_create w).0 ==ℤ minus_one)) [
    | inl bad ↦ inl (_, no_epoll bad)
    | inr polls ↦ elim (Option-cases raw.loop) [
      | inr (p, used) ↦ inl (_, garbage polls used)
      | inl zeroed ↦ elim (Bool-cases ((created K raw start).0 ==ℤ minus_one)) [
        | inl bad ↦ inl (_, no_socket polls zeroed bad)
        | inr c ↦ elim (Bool-cases ((bound K raw start).0 ==ℤ minus_one)) [
          | inl bad ↦ inl (_, unbound polls zeroed c bad)
          | inr b ↦ elim (Bool-cases ((listens K raw start).0 ==ℤ minus_one)) [
            | inl bad ↦ inl (_, deaf polls zeroed c b bad)
            | inr l ↦ inr (polls, zeroed, c, b, l)
          ]
        ]
      ]
    ]
  ]

  -- The program ends with one of the messages, or no check fails and it comes to its loop with no
  -- clients.
  abbrev pub Starts : ℕ → ℕ → Type 0
  Starts fuel n =
      ((w' : W) × Fails w' × (main K raw fuel n (boot w junk) ≡ exited w'))
      ⊎ (Started
          × (m : Machine W) × (main K raw fuel n (boot w junk) ≡ serve K fuel n minus_one m)
          × Represents 0 (listening K raw w junk) m no_clients
          × (m.world ≡ watching K raw start)
          × (m.epoll.epfd ≡ (K.epoll_create w).0))
