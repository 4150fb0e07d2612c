-- ===== src/Examples/Crowd.antt =====
-- Two clients of the reactor at once, on the system of `Sim` where each call of `epoll_wait` reports
-- two descriptors: the first is heard while the second is admitted, and answered while the second is
-- heard.
use online_chat_proj.Base.{ℕ, ◌≡◌, refl, inl, inr, none, some, List, [], ◌∷◌, ◌++◌, arith}
use online_chat_proj.Base.Int.{ℤ, pos, minus_one, update_ℤ}
use online_chat_proj.Os.{Kernel, has_flag, EpollEvent, Received, bytes, failed, eagain, epollout}
use online_chat_proj.Connection.{recv_buffer_length, set_non_blocking}
use online_chat_proj.Machine.{Machine, ok}
use online_chat_proj.Epoll.{max_epoll_conn}
use online_chat_proj.Server.Accept.{watch}
use online_chat_proj.Server.Create.{watching}
use online_chat_proj.Server.Receive.{Delivers, chunk, ends}
use online_chat_proj.Server.Text.{text, reply}
use online_chat_proj.Server.Visits.{after_accept, after_read, after_answer}
use online_chat_proj.Main.{boot, main}
use online_chat_proj.Main.Service.{polling}
use online_chat_proj.Main.Crowd.{main-Rounds}
use online_chat_proj.Reactor.{
  reading, answering, Clients, no_clients, admit, hear, answer, Turns, none_left, turn, Rounds,
  over, round,
}
use online_chat_proj.Reactor.View.{Represents}
use online_chat_proj.Examples.Sim.{Sim, sim}
use online_chat_proj.Examples.Reactor.{two_chunks, raw, raw_server}

abbrev pairing : Kernel Sim
pairing = record sim {
  epoll_wait = λ e n t s.
      let a = sim.epoll_wait e n t s in let b = sim.epoll_wait e n t a.1 in (a.0 ++ b.0, b.1);
}

-- Descriptor 9 is of nobody, so that such a turn reports nothing.
abbrev crowd : Sim
crowd = record (two_chunks []) {
  arrivals = 5 ∷ 6 ∷ [];
  answers = bytes (104 ∷ 0 ∷ []) ∷ bytes (105 ∷ []) ∷ failed eagain ∷ bytes (121 ∷ 111 ∷ []) ∷ [];
  turns = pos 3 ∷ pos 9 ∷ pos 3 ∷ pos 5 ∷ pos 5 ∷ pos 6 ∷ pos 6 ∷ pos 9 ∷ [];
}

-- A message with a zero byte, and what comes back: behind the zero stands a byte 7 of the storage.
abbrev hi_bytes : List ℕ
hi_bytes = 104 ∷ 0 ∷ 105 ∷ []

abbrev hi_reply : List ℕ
hi_reply = 104 ∷ 0 ∷ 7 ∷ []

-- The send buffers of the storage.
abbrev sevens : List ℕ
sevens = 7 ∷ 7 ∷ 7 ∷ []

abbrev spare : ℕ → List ℕ
spare _ = sevens

abbrev yo_bytes : List ℕ
yo_bytes = 121 ∷ 111 ∷ []

abbrev woken : Sim → Sim
woken s = (pairing.epoll_wait (pos 4) max_epoll_conn minus_one s).1

abbrev admitted : Sim → Sim
admitted s = after_accept pairing (pos 4) (pos 3) s

abbrev drained : List Received → Sim → Sim
drained rest s = record s { answers = rest }

abbrev heard : ℕ → List ℕ → List Received → Sim → Sim
heard g bs rest s = after_read pairing (pos 4) (pos 3) (pos g) bs (drained rest s)

abbrev answered : ℕ → List ℕ → Sim → Sim
answered g bs s = after_answer pairing (pos 4) (pos 3) (pos g) bs s

abbrev more : List Received
more = bytes yo_bytes ∷ []

abbrev made : Sim
made = watching pairing raw_server (polling pairing raw_server crowd (λ _. raw))

-- The states after the four rounds.
abbrev first : Sim
first = admitted (woken made)

abbrev second : Sim
second = heard 5 hi_bytes more (admitted (woken first))

abbrev third : Sim
third = heard 6 yo_bytes [] (answered 5 hi_reply (woken second))

abbrev fourth : Sim
fourth = answered 6 yo_bytes (woken third)

hi_arrives :
    Delivers pairing
      (pos 5)
      recv_buffer_length
      (admitted (woken first))
      hi_bytes
      (drained more (admitted (woken first)))
unfolding set_non_blocking
hi_arrives = chunk refl (omega arith) (chunk refl (omega arith) (ends refl refl))

yo_arrives :
    Delivers pairing
      (pos 6)
      recv_buffer_length
      (answered 5 hi_reply (woken second))
      yo_bytes
      (drained [] (answered 5 hi_reply (woken second)))
unfolding text set_non_blocking
yo_arrives = chunk refl (omega arith) (ends refl refl)

abbrev event : ℕ → ℤ → EpollEvent
event flags g = record { events = flags; fd = g }

abbrev after_first : Clients
after_first = update_ℤ no_clients (pos 5) (some (reading sevens))

abbrev after_second : Clients
after_second =
    update_ℤ (update_ℤ after_first (pos 6) (some (reading sevens))) (pos 5)
      (some (answering sevens hi_bytes))

abbrev after_third : Clients
after_third =
    update_ℤ (update_ℤ after_second (pos 5) none) (pos 6) (some (answering sevens yo_bytes))

abbrev after_fourth : Clients
after_fourth = update_ℤ after_third (pos 6) none

abbrev Does : Sim → ℕ → Clients → List EpollEvent → Sim → ℕ → Clients → Type 0
Does = Turns pairing spare (pos 4) (pos 3)

abbrev socket_event : EpollEvent
socket_event = event watch (pos 3)

first_events : Does (woken made) 1 no_clients (socket_event ∷ []) first 2 after_first
unfolding has_flag
first_events = turn (admit refl (λ e. cc) (λ e. cc) refl) none_left

second_events :
    Does (woken first) 2 after_first (socket_event ∷ event watch (pos 5) ∷ []) second 3 after_second
unfolding has_flag
second_events =
    turn (admit refl (λ e. cc) (λ e. cc) refl)
      (turn (hear refl refl hi_arrives (omega arith)) none_left)

third_events :
    Does
      (woken second)
      3
      after_second
      (event epollout (pos 5) ∷ event watch (pos 6) ∷ [])
      third
      3
      after_third
unfolding has_flag reply text
third_events =
    turn (answer refl refl refl) (turn (hear refl refl yo_arrives (omega arith)) none_left)

fourth_events : Does (woken third) 3 after_third (event epollout (pos 6) ∷ []) fourth 3 after_fourth
unfolding has_flag reply text
fourth_events = turn (answer refl refl refl) none_left

both_come : Rounds pairing spare (pos 4) (pos 3) minus_one 4 made 1 no_clients fourth 3 after_fourth
unfolding text
both_come =
    round refl (inl refl, tt) (tt, tt) first_events
      (round refl (inl refl, (inr (reading sevens, refl), tt)) ((λ e. cc, tt), (tt, tt))
        second_events
        (round refl (inr (answering sevens hi_bytes, refl), (inr (reading sevens, refl), tt))
          ((λ e. cc, tt), (tt, tt)) third_events
          (round refl (inr (answering sevens yo_bytes, refl), tt) (tt, tt) fourth_events over)))

-- What the two are sent, the last one first.
both_answered : fourth.sent ≡ yo_bytes ∷ hi_reply ∷ []
both_answered = refl

main-Rounds_example :
    (m' : Machine Sim) × (main pairing raw_server 3000 4 (boot crowd (λ _. raw)) ≡ ok tt m')
    × (m'.world ≡ fourth)
    × Represents 0 (pos 3) m' after_fourth
main-Rounds_example =
    main-Rounds pairing raw_server crowd (λ _. raw) 3000 4 refl refl refl refl refl (omega arith)
      both_come
