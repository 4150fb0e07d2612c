-- ===== src/Examples/Lawful.antt =====
-- Two clients of the program on a system that obeys its manual: each sends three bytes, both are
-- admitted before the first is heard, and a third attempt to accept one fails.
use online_chat_proj.Base.{◌⊎◌, ◌≡◌, [], ◌∷◌, arith}
use online_chat_proj.Base.Int.{pos}
use online_chat_proj.Machine.{exited}
use online_chat_proj.Connection.{recv_buffer_length}
use online_chat_proj.Main.{boot, main}
use online_chat_proj.Main.Start.{Fails, Started}
use online_chat_proj.Main.Lawful.{GoesOn, main-GoesOn}
use online_chat_proj.Examples.Sim.{Sim, exact_answering}
use online_chat_proj.Examples.Reactor.{two_chunks, raw, raw_server}
use online_chat_proj.Examples.Outcomes.{three, threes, threes-Brief}

abbrev crowd : Sim
crowd = record (two_chunks []) {
  arrivals = 5 ∷ 6 ∷ [];
  turns = pos 3 ∷ pos 3 ∷ pos 5 ∷ pos 3 ∷ pos 6 ∷ pos 6 ∷ pos 5 ∷ [];
}

main-GoesOn_example :
    ((w' : Sim) × Fails (threes recv_buffer_length) raw_server crowd (λ _. raw) w'
      × (main (threes recv_buffer_length) raw_server 3000 7 (boot crowd (λ _. raw)) ≡ exited w'))
    ⊎ (Started (threes recv_buffer_length) raw_server crowd (λ _. raw)
        × GoesOn (threes recv_buffer_length) raw_server crowd (λ _. raw) 3000 7)
main-GoesOn_example =
    main-GoesOn (exact_answering (three recv_buffer_length)) raw_server crowd (λ _. raw) 3000 7
      (omega arith) threes-Brief
