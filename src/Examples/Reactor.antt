-- ===== src/Examples/Reactor.antt =====
-- The reactor on the system of `Sim`: runs, and its theorems at a connection that sends "hi".
use online_chat_proj.Base.{
  ℕ, zero, suc, ◌≡◌, refl, ap, inl, inr, Bool, true, false, Option, none, some, List, [], ◌∷◌, ◌++◌,
  arith, ◌≤◌,
}
use online_chat_proj.Base.Int.{pos}
use online_chat_proj.Os.{EpollEvent, Received, bytes, failed, eagain, Errno, other}
use online_chat_proj.Connection.{Connection, connection, recv_buffer_length, set_in_epoll}
use online_chat_proj.Machine.{
  Machine, Run, ok, exited, fault, out_of_fuel, out_of_bounds, unterminated, ◌>>◌,
}
use online_chat_proj.Server.{Server, recv_loop, recv_callback, send_callback}
use online_chat_proj.Main.{boot, main}
use online_chat_proj.Examples.Sim.{Sim, sim, sim_laws}
use online_chat_proj.Machine.Object.{holding}
use online_chat_proj.Base.Lists.{length, replicate, length-replicate}
use online_chat_proj.Epoll.{action_update, action_delete, update_connection}
use online_chat_proj.Epoll.Update.{after_mod, update_connection_lem}
use online_chat_proj.Socket.{new_socket_of}
use online_chat_proj.Socket.Create.{new_socket_of-exited}
use online_chat_proj.Server.Receive.{filled, Delivers, ends, chunk, recv_loop-filled}
use online_chat_proj.Server.Progress.{KeepsCalm, recv_loop-total}
use online_chat_proj.Server.Faults.{recv_callback-error}
use online_chat_proj.Server.Echo.{exchanged, forgotten, echo, echo_zero}
use online_chat_proj.Safety.Safely.{Safely}
use online_chat_proj.Safety.View.{Inv}
use online_chat_proj.Safety.Program.{main-Safely}

abbrev no_event : EpollEvent
no_event = record { events = 0; fd = pos 0 }

-- Storage that holds the bytes 7 7 7 and nothing else of note.
abbrev pub raw : Connection
raw = record {
  fd = pos 0;
  in_epoll = false;
  inet_addr = none;
  event = no_event;
  revent = no_event;
  rbuffer = [];
  rlen = pos 0;
  wbuffer = 7 ∷ 7 ∷ 7 ∷ [];
  wlen = pos 0;
  recv_callback = none;
  send_callback = none;
}

-- One client arrives, sends two chunks, and is then ready for the answer.
abbrev pub two_chunks : List Received → Sim
two_chunks answers = record {
  open_fds = λ _. false;
  watched = λ _. none;
  arrivals = 5 ∷ [];
  answers = answers;
  turns = pos 3 ∷ pos 5 ∷ pos 5 ∷ pos 5 ∷ [];
  sent = [];
  printed = [];
}

abbrev pub hi : List Received
hi = bytes (104 ∷ []) ∷ bytes (105 ∷ []) ∷ []

abbrev pub raw_server : Server
raw_server = record { serv_sock = 0; loop = none }

abbrev pub sent_by : Run Sim (Unit {0}) → Option (List (List ℕ))
sent_by (ok a m) = some m.world.sent
sent_by (exited w) = none
sent_by (fault e) = none
sent_by out_of_fuel = none

-- The whole program on that system, with every definition that it runs through.
unfoldable pub run_main : List Received → Option (List (List ℕ))
unfolding online_chat_proj.Main.main online_chat_proj.Epoll.new_epoll online_chat_proj.Log.errif
    online_chat_proj.Server.new_server online_chat_proj.Socket.new_socket
    online_chat_proj.Machine.alloc online_chat_proj.Machine.load online_chat_proj.Socket.bind
    online_chat_proj.Socket.listen online_chat_proj.Machine.modify
    online_chat_proj.Epoll.update_connection online_chat_proj.Connection.set_event
    online_chat_proj.Connection.default_connection online_chat_proj.Epoll.add_event
    online_chat_proj.Epoll.set_conn online_chat_proj.Epoll.bind_recv online_chat_proj.Server.serve
    online_chat_proj.EventLoop.start online_chat_proj.Base.Lists.zeros
    online_chat_proj.Connection.connection online_chat_proj.Connection.destroy
    online_chat_proj.Connection.r_buffer_clear online_chat_proj.Connection.set_in_epoll
    online_chat_proj.Connection.set_non_blocking online_chat_proj.Connection.set_r_len
    online_chat_proj.Connection.set_recv_callback online_chat_proj.Connection.set_revent
    online_chat_proj.Connection.set_send_callback online_chat_proj.Connection.set_w_len
    online_chat_proj.Epoll.bind_send online_chat_proj.Epoll.collect online_chat_proj.Epoll.delete
    online_chat_proj.Epoll.modify_event online_chat_proj.Epoll.remove online_chat_proj.Epoll.wait
    online_chat_proj.EventLoop.dispatch online_chat_proj.EventLoop.dispatch_all
    online_chat_proj.EventLoop.exe_recv_callback online_chat_proj.EventLoop.exe_send_callback
    online_chat_proj.EventLoop.round online_chat_proj.InetAddress.address
    online_chat_proj.InetAddress.empty_address online_chat_proj.Os.has_flag
    online_chat_proj.Server.accept_callback online_chat_proj.Server.c_string
    online_chat_proj.Server.call online_chat_proj.Server.copy_text online_chat_proj.Server.recv_at
    online_chat_proj.Server.recv_callback online_chat_proj.Server.recv_loop
    online_chat_proj.Server.send_callback online_chat_proj.Server.store_received
    online_chat_proj.Server.write_from online_chat_proj.Socket.accept
run_main answers = sent_by (main sim raw_server 10 4 (boot (two_chunks answers) (λ _. raw)))

-- The two chunks come back in one answer.
main_echoes : run_main hi ≡ some ((104 ∷ 105 ∷ []) ∷ [])
unfolding run_main
main_echoes = refl

-- Behind a zero byte the answer holds the bytes 7 of the storage, not the bytes 9 that were sent.
main_leaks : run_main (bytes (1 ∷ 0 ∷ 9 ∷ []) ∷ []) ≡ some ((1 ∷ 0 ∷ 7 ∷ []) ∷ [])
unfolding run_main
main_leaks = refl

main-Safely_example :
    Safely (λ _. Inv sim_laws) (main sim raw_server 10 4 (boot (two_chunks hi) (λ _. raw)))
main-Safely_example = main-Safely sim_laws (two_chunks hi) (λ _. raw) raw_server 10 4

-- One client, on descriptor 5, that is watched and has not been read from.
abbrev pub sender : Connection
sender = record raw { fd = pos 5; in_epoll = true }

abbrev pub empty_machine : Machine Sim
empty_machine = boot (two_chunks []) (λ _. raw)

-- The states before and after a system has handed over its answers.
abbrev pub delivered : Sim
delivered = two_chunks []

hi-Delivers : Delivers sim (pos 5) recv_buffer_length (two_chunks hi) (104 ∷ 105 ∷ []) delivered
hi-Delivers = chunk refl (omega arith) (chunk refl (omega arith) (ends refl refl))

zero-Delivers :
    Delivers sim
      (pos 5)
      recv_buffer_length
      (two_chunks (bytes (1 ∷ 0 ∷ 9 ∷ []) ∷ []))
      (1 ∷ 0 ∷ 9 ∷ [])
      delivered
zero-Delivers = chunk refl (omega arith) (ends refl refl)

echo_example :
    (recv_callback sim 3000 0 >> send_callback sim 0)
      (holding empty_machine (two_chunks hi) 0 sender)
    ≡ ok tt (exchanged sim empty_machine 0 sender (104 ∷ 105 ∷ []) (104 ∷ 105 ∷ []) delivered)
echo_example =
    echo sim empty_machine 0 sender 3000 refl refl hi-Delivers (omega arith) (omega arith)
      (omega arith)

echo_zero_example :
    (recv_callback sim 3000 0 >> send_callback sim 0)
      (holding empty_machine (two_chunks (bytes (1 ∷ 0 ∷ 9 ∷ []) ∷ [])) 0 sender)
    ≡ ok tt (exchanged sim empty_machine 0 sender (1 ∷ 0 ∷ 9 ∷ []) (1 ∷ 0 ∷ 7 ∷ []) delivered)
echo_zero_example =
    echo_zero sim empty_machine 0 sender 3000 (1 ∷ []) (9 ∷ []) refl refl zero-Delivers
      (omega arith) (omega arith) (omega arith)

recv_loop-filled_example :
    recv_loop sim 3000 0 (holding empty_machine (two_chunks hi) 0 (filled sender []))
    ≡ ok tt (holding empty_machine delivered 0 (filled sender (104 ∷ 105 ∷ [])))
recv_loop-filled_example =
    recv_loop-filled sim 3000 [] 0 empty_machine sender hi-Delivers (omega arith) (omega arith)

-- A system that has nothing to hand over stays calm.
quiet_sim : KeepsCalm sim (pos 5) (λ s. s.answers ≡ [])
quiet_sim n w calm = rw calm (inl refl, refl)

recv_loop-total_example :
    (bs : List ℕ) × (w' : Sim) × (recv_loop sim 3000 0
        (holding empty_machine (two_chunks []) 0 (filled sender (8 ∷ [])))
      ≡ ok tt (holding empty_machine w' 0 (filled sender (8 ∷ bs))))
    × (length (8 ∷ bs) ≤ recv_buffer_length)
recv_loop-total_example =
    recv_loop-total sim sender (λ s. s.answers ≡ []) (8 ∷ []) 3000 0 empty_machine (two_chunks [])
      quiet_sim refl (omega arith) (omega arith)

recv_callback-error_example :
    recv_callback sim 3000 0 (holding empty_machine (two_chunks (failed (other 104) ∷ [])) 0 sender)
    ≡ fault out_of_bounds
recv_callback-error_example = recv_callback-error sim empty_machine 0 sender 2998 refl refl refl

update_connection_lem_example :
    (update_connection sim 0 action_update (holding empty_machine delivered 0 sender)
      ≡ ok tt (holding empty_machine (after_mod sim empty_machine.epoll sender delivered) 0 sender))
    × (update_connection sim 0 action_delete (holding empty_machine delivered 0 sender)
        ≡ ok tt (forgotten sim empty_machine 0 sender [] delivered))
update_connection_lem_example = update_connection_lem sim empty_machine delivered 0 sender

new_socket_of-exited_example :
    new_socket_of sim (pos 5) none empty_machine
    ≡ exited (sim.perror "in Socket: fd==-1!" delivered)
new_socket_of-exited_example = new_socket_of-exited sim (pos 5) none empty_machine
