-- ===== src/Examples/Clients.antt =====
-- apps/server.cpp on the system of `Sim` while two clients come, and apps/client.cpp over two rounds.
use online_chat_proj.Base.{ℕ, ◌≡◌, refl, none, List, [], ◌∷◌, ◌++◌, arith}
use online_chat_proj.Base.Int.{pos, minus_one}
use online_chat_proj.Os.{
  Kernel, EpollEvent, bytes, epollin, ctl_del, from_client, from_server, failed, eagain, new_fd,
  Received,
}
use online_chat_proj.Machine.{ok, Machine}
use online_chat_proj.GaussConnector.{open_connector, Libpq, connection_ok, pgres_command_ok}
use online_chat_proj.Server.{c_string}
use online_chat_proj.Server.Receive.{Delivers, ends, chunk}
use online_chat_proj.Server.Text.{text}
use online_chat_proj.ServerApp.{
  buffer_length, max_epoll_connection, set_fd_non_blocking, server_main,
}
use online_chat_proj.ServerApp.Exchange.{at_world}
use online_chat_proj.ServerApp.Deeds.{
  after_accept, Deeds, done, deed, admit, refuse, drop_client, DeedRounds, over, round,
}
use online_chat_proj.ClientApp.{client_main}
use online_chat_proj.Examples.Sim.{Sim, sim}
use online_chat_proj.Examples.Reactor.{two_chunks}
use online_chat_proj.Examples.Reader.{machine, console}
use online_chat_proj.ServerApp.Service.{started, server_main-DeedRounds}
use online_chat_proj.ClientApp.Talks.{Talks, silent, answered, client_main-Talks, connected}

-- A database that carries out every command and keeps nothing.
abbrev pub database : Libpq Sim ℕ ℕ
database = record {
  connectdb = λ _ s. (1, s);
  status = λ _ _. connection_ok;
  error_message = λ _ _. [];
  finish = λ _ s. s;
  exec = λ _ _ s. (9, s);
  result_status = λ _ _. pgres_command_ok;
  clear = λ _ s. s;
  complain = λ _ s. s;
}

-- The flags of an event as the manual has them: EPOLLET is not reported. Each call of `epoll_wait`
-- reports two descriptors.
abbrev only_in : List EpollEvent → List EpollEvent
only_in [] = []
only_in (ev ∷ evs) = record { events = epollin; fd = ev.fd } ∷ only_in evs

abbrev reporting : Kernel Sim
reporting = record sim {
  epoll_wait = λ e n t s.
      let a = sim.epoll_wait e n t s in
      let b = sim.epoll_wait e n t a.1 in (only_in (a.0 ++ b.0), b.1);
}

-- The first client sends "hi" in two chunks, the second "yo" in one. Descriptor 9 is of nobody, so
-- that such a turn reports nothing.
abbrev crowd : Sim
crowd = record (two_chunks []) {
  arrivals = 5 ∷ 6 ∷ [];
  answers = bytes (104 ∷ []) ∷ bytes (105 ∷ []) ∷ failed eagain ∷ bytes (121 ∷ 111 ∷ []) ∷ [];
  turns = pos 3 ∷ pos 9 ∷ pos 3 ∷ pos 5 ∷ pos 3 ∷ pos 6 ∷ [];
}

abbrev woken : Sim → Sim
woken s = (reporting.epoll_wait (pos 4) max_epoll_connection minus_one s).1

abbrev hi_bytes : List ℕ
hi_bytes = 104 ∷ 105 ∷ []

abbrev yo_bytes : List ℕ
yo_bytes = 121 ∷ 111 ∷ []

abbrev more : List Received
more = bytes yo_bytes ∷ []

abbrev admitted : Sim → Sim
admitted s = after_accept reporting (pos 4) (pos 3) s

abbrev refused : Sim → Sim
refused s = reporting.print (new_fd minus_one) s

abbrev gone : ℕ → List ℕ → List Received → Sim → Sim
gone g bs rest s =
    (reporting.epoll_ctl (pos 4) ctl_del (pos g) none
      (reporting.close (pos g) (reporting.print (from_client bs) (record s { answers = rest })))).1

-- The states after the start and after the three rounds: one client, another while the first is
-- read and dropped, and none while the second is.
abbrev start : Sim
start = started reporting crowd

abbrev first : Sim
first = admitted (woken start)

abbrev second : Sim
second = gone 5 hi_bytes more (admitted (woken first))

abbrev third : Sim
third = gone 6 yo_bytes [] (refused (woken second))

hi_arrives :
    Delivers reporting
      (pos 5)
      buffer_length
      (admitted (woken first))
      hi_bytes
      (record (admitted (woken first)) { answers = more })
unfolding set_fd_non_blocking
hi_arrives = chunk refl (omega arith) (chunk refl (omega arith) (ends refl refl))

yo_arrives :
    Delivers reporting
      (pos 6)
      buffer_length
      (refused (woken second))
      yo_bytes
      (record (refused (woken second)) { answers = [] })
unfolding set_fd_non_blocking
yo_arrives = chunk refl (omega arith) (ends refl refl)

abbrev event : ℕ → EpollEvent
event g = record { events = epollin; fd = pos g }

first_events : Deeds reporting (pos 4) (pos 3) (woken start) (event 3 ∷ []) first
first_events = deed (admit λ e. cc) done

second_events : Deeds reporting (pos 4) (pos 3) (woken first) (event 3 ∷ event 5 ∷ []) second
unfolding text set_fd_non_blocking
second_events = deed (admit λ e. cc) (deed (drop_client (λ e. cc) hi_arrives (omega arith)) done)

third_events : Deeds reporting (pos 4) (pos 3) (woken second) (event 3 ∷ event 6 ∷ []) third
unfolding text set_fd_non_blocking
third_events = deed (refuse refl) (deed (drop_client (λ e. cc) yo_arrives (omega arith)) done)

three_rounds : DeedRounds reporting (pos 4) (pos 3) 3 start third
unfolding text set_fd_non_blocking
three_rounds = round refl first_events (round refl second_events (round refl third_events over))

-- What was printed, the last line first.
all_printed :
    third.printed
    ≡ from_client yo_bytes
      ∷ new_fd minus_one
      ∷ from_client hi_bytes
      ∷ new_fd (pos 6)
      ∷ new_fd (pos 5)
      ∷ []
unfolding set_fd_non_blocking
all_printed = refl

server_main-DeedRounds_example :
    server_main reporting database 2000 3 (at_world machine crowd) ≡ ok tt (at_world machine third)
unfolding open_connector
server_main-DeedRounds_example =
    server_main-DeedRounds reporting crowd database 2000 (at_world machine crowd) refl refl refl
      refl refl (omega arith) 3 three_rounds

-- A server that answers "hi" and then "yo" to the line "x", sent twice.
abbrev talkative : Machine Sim
talkative = at_world machine crowd

-- The system after the line was sent.
abbrev took : Sim → Sim
took s = record s { sent = (120 ∷ 10 ∷ []) ∷ s.sent }

abbrev heard_hi : Sim
heard_hi =
    sim.print (from_server hi_bytes)
      (record (took (connected sim console talkative).1) { answers = more })

abbrev heard_both : Sim
heard_both = sim.print (from_server yo_bytes) (record (took heard_hi) { answers = [] })

talk :
    Talks sim console
      (pos 3)
      (connected sim console talkative).1
      []
      (hi_bytes ∷ yo_bytes ∷ [])
      heard_both
unfolding c_string text
talk =
    answered refl refl refl (chunk refl (omega arith) (chunk refl (omega arith) (ends refl refl)))
      (omega arith)
      (answered refl refl refl (chunk refl (omega arith) (ends refl refl)) (omega arith) silent)

client_main-Talks_example :
    client_main sim console [] 2000 2 talkative ≡ ok tt (at_world machine heard_both)
client_main-Talks_example =
    client_main-Talks sim console talkative [] 2000 (hi_bytes ∷ yo_bytes ∷ []) refl refl
      (omega arith) talk
