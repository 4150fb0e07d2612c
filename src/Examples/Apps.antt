-- ===== src/Examples/Apps.antt =====
-- apps/server.cpp and apps/client.cpp on the system of `Sim`: a line that goes
-- through the reactor and comes back, and programs whose peer never stops sending.
use online_chat_proj.Base.{ℕ, ◌-◌, ◌++◌, ◌≡◌, refl, List, [], ◌∷◌, arith}
use online_chat_proj.Base.Int.{pos}
use online_chat_proj.Base.Lists.{zeros}
use online_chat_proj.Os.{bytes, from_server}
use online_chat_proj.Machine.{ok, ◌>>◌}
use online_chat_proj.Machine.Object.{holding}
use online_chat_proj.Server.{c_string, recv_callback, send_callback}
use online_chat_proj.Server.Receive.{ends, chunk}
use online_chat_proj.Server.Text.{text, reply}
use online_chat_proj.Server.Echo.{exchanged}
use online_chat_proj.ServerApp.{buffer_length}
use online_chat_proj.ServerApp.Exchange.{at_world}
use online_chat_proj.ClientApp.{exchange}
use online_chat_proj.Chat.{line_returns}
use online_chat_proj.Examples.Sim.{sim}
use online_chat_proj.Examples.Reactor.{two_chunks, empty_machine, sender}
use online_chat_proj.Examples.Reader.{answering, machine, console, with_line}

-- The line "x" with its line break, and what it leaves of the answers of the system.
abbrev x_line : List ℕ
x_line = 120 ∷ 10 ∷ []

line_returns_example :
    ((recv_callback sim 3000 0 >> send_callback sim 0)
        (holding empty_machine (two_chunks (bytes x_line ∷ [])) 0 sender)
      ≡ ok tt (exchanged sim empty_machine 0 sender x_line x_line (two_chunks [])))
    × (exchange sim console 3000 (pos 5) [] (at_world machine (answering (bytes x_line ∷ [])))
        ≡ ok
            (x_line ++ zeros (buffer_length - 2))
            (at_world machine (sim.print (from_server x_line) with_line)))
unfolding c_string reply text
line_returns_example =
    line_returns sim sim console 3000 0 sender empty_machine (pos 5)
      (at_world machine (answering (bytes x_line ∷ []))) refl refl (omega arith) refl refl
      (chunk refl (omega arith) (ends refl refl)) refl (chunk refl (omega arith) (ends refl refl))
      (omega arith)
