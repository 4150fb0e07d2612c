-- ===== src/Examples/Outcomes.antt =====
-- What can become of the program, at two systems of which one floods its reader.
use online_chat_proj.Base.{
  ℕ, ◌≡◌, ◌⊎◌, ◌-◌, refl, inl, inr, [], ◌∷◌, arith, leb, if◌then◌else◌, Bool-cases,
}
use online_chat_proj.Os.{Kernel, Received, bytes, failed, eagain}
use online_chat_proj.Os.Laws.{KernelLaws}
use online_chat_proj.Connection.{Connection, recv_buffer_length}
use online_chat_proj.Server.{c_string}
use online_chat_proj.Server.Receive.{Brief, ends, chunk}
use online_chat_proj.Main.{boot, main}
use online_chat_proj.Fuel.Enough.{Steady}
use online_chat_proj.Safety.View.{Inv}
use online_chat_proj.Bounds.{Sound}
use online_chat_proj.Bounds.Settles.{Settles, Succeeds}
use online_chat_proj.Bounds.Policies.{lax, strict, Readable}
use online_chat_proj.Bounds.Program.{main-Settles, main-Succeeds}
use online_chat_proj.ServerApp.{buffer_length, server_main}
use online_chat_proj.ServerApp.Total.{server_main-Settles}
use online_chat_proj.ServerApp.Start.{Fails as ServerFails}
use online_chat_proj.ServerApp.Course.{GoesOn as ServerGoesOn}
use online_chat_proj.ServerApp.Exchange.{at_world}
use online_chat_proj.ClientApp.{client_main}
use online_chat_proj.ClientApp.Total.{LeavesText, client_main-Settles}
use online_chat_proj.ClientApp.Course.{
  client_main-GoesOn, Fails as ClientFails, GoesOn as ClientGoesOn,
}
use online_chat_proj.Machine.{exited}
use online_chat_proj.Examples.Clients.{database}
use online_chat_proj.Examples.Reader.{console, machine}
use online_chat_proj.Examples.Sim.{Sim, sim, laws_answering}
use online_chat_proj.Examples.Reactor.{raw, two_chunks, raw_server}
use online_chat_proj.Examples.Runs.{flood, flooded, flooded-Steady}

flooded_laws : KernelLaws flooded
flooded_laws = laws_answering flood

main-Settles_example :
    Settles
      (λ _ m. Inv flooded_laws m × Sound lax m)
      (main flooded raw_server 3000 4 (boot (two_chunks []) (λ _. raw)))
main-Settles_example =
    main-Settles flooded_laws flooded-Steady 3000 (omega arith) (two_chunks []) (λ _. raw)
      raw_server 4

-- Each peer sends three bytes and then waits: `recv` is asked for `size` bytes at first.
abbrev pub three : ℕ → ℕ → Received
three size n = if leb (size - 2) n then bytes (7 ∷ []) else failed eagain

abbrev pub threes : ℕ → Kernel Sim
threes size = record sim { recv = λ fd n s. (three size n, s) }

threes_laws : KernelLaws (threes recv_buffer_length)
threes_laws = laws_answering (three recv_buffer_length)

threes-Steady : Steady (threes recv_buffer_length)
threes-Steady fd n s = elim (Bool-cases (leb 2046 n)) [
  | inl e ↦ inr (7, [], rw e, ground (arith, e))
  | inr e ↦ inl (rw e)
]

pub threes-Brief : Brief (threes recv_buffer_length) recv_buffer_length
threes-Brief fd s = (
  7 ∷ 7 ∷ 7 ∷ [],
  s,
  chunk refl (omega arith) (chunk refl (omega arith) (chunk refl (omega arith) (ends refl refl))),
  omega arith,
)

-- Storage whose receive buffer starts with a zero.
abbrev zero_raw : Connection
zero_raw = record raw { rbuffer = 0 ∷ [] }

zero_raw-Readable : Readable zero_raw.rbuffer
unfolding c_string
zero_raw-Readable = ([], refl)

main-Succeeds_example :
    Succeeds
      (λ _ m. Inv threes_laws m × Sound strict m)
      (main (threes recv_buffer_length) raw_server 3000 4 (boot (two_chunks []) (λ _. zero_raw)))
main-Succeeds_example =
    main-Succeeds threes_laws threes-Steady 3000 (omega arith) (two_chunks []) (λ _. zero_raw)
      raw_server 4 threes-Brief (λ p. zero_raw-Readable)

few-Brief : Brief (threes buffer_length) buffer_length
few-Brief fd s = (
  7 ∷ 7 ∷ 7 ∷ [],
  s,
  chunk refl (omega arith) (chunk refl (omega arith) (chunk refl (omega arith) (ends refl refl))),
  omega arith,
)

server_main-Settles_example :
    Settles
      (λ _ _. Unit {0})
      (server_main flooded database 2000 4 (at_world machine (two_chunks [])))
server_main-Settles_example =
    server_main-Settles flooded database 2000 (omega arith) flooded-Steady 4
      (at_world machine (two_chunks []))

client_main-Settles_example :
    Settles (λ _ _. Unit {0}) (client_main flooded console [] 2000 4 machine)
client_main-Settles_example =
    client_main-Settles flooded console 2000 (omega arith) flooded-Steady [] 4 machine

console-LeavesText : LeavesText console
unfolding c_string
console-LeavesText buffer s h = (120 ∷ 10 ∷ [], refl)

client_main-GoesOn_example :
    ((w' : Sim) × ClientFails (threes buffer_length) console machine w'
      × (client_main (threes buffer_length) console (0 ∷ []) 2000 4 machine ≡ exited w'))
    ⊎ ClientGoesOn (threes buffer_length) console machine (0 ∷ []) 2000 4
unfolding c_string
client_main-GoesOn_example =
    client_main-GoesOn (threes buffer_length) console machine (0 ∷ []) 2000 4 (omega arith)
      few-Brief console-LeavesText ([], refl)
