-- ===== src/Examples/Overlong.antt =====
-- Messages that fill the buffers of the servers.
use online_chat_proj.Base.{ℕ, zero, suc, refl, List, [], ◌∷◌, arith, ◌≡◌, ◌↔◌}
use online_chat_proj.Base.Lists.{replicate, length-replicate}
use online_chat_proj.Base.Int.{pos}
use online_chat_proj.Os.{bytes}
use online_chat_proj.Connection.{recv_buffer_length}
use online_chat_proj.Machine.{fault, unterminated}
use online_chat_proj.Machine.Object.{holding}
use online_chat_proj.Server.{recv_callback}
use online_chat_proj.Server.Receive.{ends, chunk}
use online_chat_proj.Server.Faults.{recv_callback-overlong}
use online_chat_proj.Server.Text.{NoZero}
use online_chat_proj.Server.Overread.{Overlong, recv_callback-overread_iff}
use online_chat_proj.ServerApp.{buffer_length, read_client}
use online_chat_proj.ServerApp.Exchange.{at_world}
use online_chat_proj.ServerApp.Overread.{read_client-overread_iff}
use online_chat_proj.Examples.Sim.{sim}
use online_chat_proj.Examples.Reactor.{two_chunks, empty_machine, sender}
use online_chat_proj.Examples.Reader.{answering, machine}

-- Messages of bytes 1, in one piece.
abbrev ones : ℕ → List ℕ
ones n = replicate n 1

ones-NoZero : (n : ℕ) → NoZero (ones n)
ones-NoZero zero = tt
ones-NoZero (suc n) = (omega arith, ones-NoZero n)

recv_callback-overread_iff_example :
    (recv_callback sim 3000 0 (holding empty_machine (two_chunks (bytes (ones 2048) ∷ [])) 0 sender)
      ≡ fault unterminated)
    ↔ Overlong recv_buffer_length (ones 2048)
recv_callback-overread_iff_example =
    recv_callback-overread_iff sim empty_machine 0 sender 3000 refl refl
      (chunk refl (omega (arith, length-replicate {A = ℕ} 2048 1)) (ends refl refl)) (omega arith)

ones_overrun :
    recv_callback sim 3000 0 (holding empty_machine (two_chunks (bytes (ones 2048) ∷ [])) 0 sender)
    ≡ fault unterminated
ones_overrun =
    recv_callback-overlong sim empty_machine 0 sender 3000 refl
      (chunk refl (omega (arith, length-replicate {A = ℕ} 2048 1)) (ends refl refl))
      (length-replicate {A = ℕ} 2048 1) (ones-NoZero 2048) (omega arith)

read_client-overread_iff_example :
    (read_client sim 2000 (pos 4) (pos 5) (at_world machine (answering (bytes (ones 1024) ∷ [])))
      ≡ fault unterminated)
    ↔ Overlong buffer_length (ones 1024)
read_client-overread_iff_example =
    read_client-overread_iff sim machine (pos 5) 2000 (pos 4)
      (chunk refl (omega (arith, length-replicate {A = ℕ} 1024 1)) (ends refl refl)) (omega arith)
