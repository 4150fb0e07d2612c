-- ===== src/Main/Service.antt =====
-- The program of apps/test-main.cpp from its start over any number of clients, and where its storage
-- keeps it from starting.
use online_chat_proj.Base.{ℕ, suc, ◌<◌, ◌*◌, ◌≡◌, refl, sym, subst, false, none, some, List, arith}
use online_chat_proj.Base.Lists.{length}
use online_chat_proj.Base.Int.{ℤ, minus_one, ◌==ℤ◌}
use online_chat_proj.Os.{Kernel}
use online_chat_proj.Connection.{Connection, recv_buffer_length}
use online_chat_proj.Machine.{Machine, ok, exited}
use online_chat_proj.Log.{errif}
use online_chat_proj.Epoll.{new_epoll}
use online_chat_proj.Server.{Server}
use online_chat_proj.Server.Create.{
  created, bound, listens, watching, new_server-Idle, new_server-garbage,
}
use online_chat_proj.Server.Visits.{Visits, Idle}
use online_chat_proj.Server.Session.{serve-Visits}
use online_chat_proj.Main.{boot, main}

module _ {W : Type 0} (K : Kernel W) (raw : Server) (w : W) (junk : ℕ → Connection) where
  -- The machine with the epoll instance that the program creates first.
  abbrev pub polling : Machine W
  polling = record (boot (K.epoll_create w).1 junk) {
    epoll = record { epfd = (K.epoll_create w).0; conn_map = λ _. none };
  }

  abbrev pub listening : ℤ
  listening = (created K raw polling).0

  -- On storage that is zero, and with a system that grants the epoll instance and the listening
  -- socket, the program serves as many clients as come one after the other, each with a message that
  -- has no zero byte and is shorter than the buffer, in three rounds of its loop: each client is sent
  -- exactly its message. In the end the server is idle, and the only object in memory is its socket.
  main-serves :
      (fuel : ℕ) (msgs : List (List ℕ)) {w' : W}
      → raw.loop ≡ none
      → ((K.epoll_create w).0 ==ℤ minus_one) ≡ false
      → ((created K raw polling).0 ==ℤ minus_one) ≡ false
      → ((bound K raw polling).0 ==ℤ minus_one) ≡ false
      → ((listens K raw polling).0 ==ℤ minus_one) ≡ false
      → recv_buffer_length < fuel
      → Visits K (K.epoll_create w).0 listening minus_one (watching K raw polling) msgs w'
      → (m' : Machine W) × (main K raw fuel (length msgs * 3) (boot w junk) ≡ ok tt m')
        × (m'.world ≡ w')
        × Idle 0 listening m'
        × ((q : ℕ) → m'.heap (suc q) ≡ none)
  unfolding main new_epoll errif
  main-serves fuel msgs {w'} zeroed polls c b l enough vs =
      let (m1, made, idle, there, e, same, _, _) =
        new_server-Idle K raw polling 0 zeroed c b l (λ q. refl) in
      let vs' =
        subst (λ v. Visits K m1.epoll.epfd listening minus_one v msgs w') (sym there)
          (subst (λ n. Visits K n listening minus_one (watching K raw polling) msgs w') (sym e)
            vs) in
      let (m2, run, there', idle', same') =
        serve-Visits K fuel minus_one 0 listening msgs m1 idle enough vs' in
      (
        m2,
        rw (polls, made) run,
        there',
        idle',
        λ q. let a = same (suc q) in let b = same' (suc q) in ground (arith, a, b),
      )

  -- Where the storage of the server is not zero and the epoll instance is granted, the program ends
  -- before it opens a socket, with the message for a null loop, although the loop it gives is not
  -- null, and whatever the number of rounds.
  pub main-garbage :
      (fuel n : ℕ) {p : ℕ}
      → raw.loop ≡ some p
      → ((K.epoll_create w).0 ==ℤ minus_one) ≡ false
      → main K raw fuel n (boot w junk)
        ≡ exited (K.perror "EventLoop * is nullptr!" (K.epoll_create w).1)
  unfolding main new_epoll errif
  main-garbage fuel n used polls = rw (polls, new_server-garbage K raw polling (some 0) used) refl
