-- ===== src/Examples/Mishaps.antt =====
-- The reactor on the system of `Sim` where a call fails or an argument is missing.
use online_chat_proj.Base.{◌≡◌, refl, none, [], ◌∷◌, ◌++◌, arith}
use online_chat_proj.Base.Int.{pos, minus_one}
use online_chat_proj.Os.{has_flag, bytes, failed, other}
use online_chat_proj.Machine.{Machine, ok, fault, null_pointer}
use online_chat_proj.Machine.Object.{holding}
use online_chat_proj.Server.{recv_loop, serve, new_server}
use online_chat_proj.Server.Receive.{filled, ends}
use online_chat_proj.Server.Interrupt.{recv_loop-interrupted}
use online_chat_proj.Epoll.{max_epoll_conn}
use online_chat_proj.Server.Refused.{Refusals, over, refused, Leaked, serve-Leaked}
use online_chat_proj.Server.Visits.{Idle, after_accept}
use online_chat_proj.Server.Create.{new_server-null}
use online_chat_proj.Examples.Reactor.{two_chunks, raw_server, empty_machine, sender, delivered}
use online_chat_proj.Examples.Sim.{Sim, sim}
use online_chat_proj.Examples.Visit.{listener, waiting}

-- The byte 97 was received; then EINTR, and the byte 98.
abbrev interrupting : Sim
interrupting = two_chunks (failed (other 4) ∷ bytes (98 ∷ []) ∷ [])

recv_loop-interrupted_example :
    recv_loop sim 3000 0 (holding empty_machine interrupting 0 (filled sender ([] ++ 97 ∷ [])))
    ≡ ok tt (holding empty_machine delivered 0 (filled sender ([] ++ (98 ∷ []) ++ [])))
recv_loop-interrupted_example =
    recv_loop-interrupted sim empty_machine 0 sender 2998 {room = 2047} [] 97 98 [] (omega arith)
      refl refl refl (omega arith) (ends refl refl) (omega arith)

-- The listening socket is reported twice, and no client arrives, so that `accept` returns -1.
abbrev lonely : Machine Sim
lonely = record waiting {
  world = record (waiting.world) { arrivals = []; turns = pos 3 ∷ pos 3 ∷ [] };
}

abbrev woken : Sim → Sim
woken s = (sim.epoll_wait (pos 4) max_epoll_conn minus_one s).1

abbrev refused_once : Sim → Sim
refused_once s = after_accept sim (pos 4) (pos 3) (woken s)

two_refusals :
    Refusals sim (pos 4) (pos 3) minus_one 2 lonely.world (refused_once (refused_once lonely.world))
unfolding has_flag
two_refusals = refused refl refl refl (refused refl refl refl over)

lonely-Idle : Idle 0 (pos 3) lonely
lonely-Idle = record {
  sock = listener;
  here = refl;
  old = omega arith;
  same_fd = refl;
  bound = refl;
  mapped = refl;
  unused = λ q. ground arith;
}

serve-Leaked_example :
    (m' : Machine Sim) × (serve sim 3000 2 minus_one lonely ≡ ok tt m')
    × (m'.world ≡ refused_once (refused_once lonely.world))
    × Idle 0 (pos 3) m'
    × Leaked 0 2 lonely m'
serve-Leaked_example =
    serve-Leaked sim 3000 minus_one 0 (pos 3) (λ e. cc) 2 lonely lonely-Idle two_refusals

new_server-null_example : new_server sim raw_server none empty_machine ≡ fault null_pointer
new_server-null_example = new_server-null sim raw_server empty_machine refl refl refl refl
