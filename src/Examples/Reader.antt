-- ===== src/Examples/Reader.antt =====
-- apps/server.cpp on the system of `Sim`, with a client that sends two chunks and one that fails;
-- and apps/client.cpp on it, with one line to send.
use online_chat_proj.Base.{◌≡◌, refl, true, none, List, [], ◌∷◌, arith}
use online_chat_proj.Base.Int.{pos}
use online_chat_proj.Os.{Received, bytes, failed, other, ctl_del, from_client}
use online_chat_proj.Machine.{Machine, ok, fault, out_of_bounds}
use online_chat_proj.ClientApp.{Console, sent}
use online_chat_proj.Server.Receive.{Delivers, ends, chunk}
use online_chat_proj.Server.Text.{text}
use online_chat_proj.ServerApp.{buffer_length, read_client}
use online_chat_proj.ServerApp.Exchange.{at_world, read_client_lem, read_client-error}
use online_chat_proj.Examples.Sim.{Sim, sim}
use online_chat_proj.Examples.Reactor.{raw}

abbrev pub answering : List Received → Sim
answering answers = record {
  open_fds = λ _. true;
  watched = λ _. none;
  arrivals = [];
  answers = answers;
  turns = [];
  sent = [];
  printed = [];
}

-- After "hi" is read: the text is printed, and descriptor 5 is closed and not watched.
abbrev served : Sim
served =
    (sim.epoll_ctl (pos 4) ctl_del (pos 5) none
      (sim.close (pos 5) (sim.print (from_client (104 ∷ 105 ∷ [])) (answering [])))).1

abbrev pub machine : Machine Sim
machine = record {
  world = answering [];
  heap = λ _. none;
  junk = λ _. raw;
  next = 0;
  epoll = record { epfd = pos 4; conn_map = λ _. none };
}

two_parts :
    Delivers sim
      (pos 5)
      buffer_length
      (answering (bytes (104 ∷ []) ∷ bytes (105 ∷ []) ∷ []))
      (104 ∷ 105 ∷ [])
      (answering [])
two_parts = chunk refl (omega arith) (chunk refl (omega arith) (ends refl refl))

read_client_lem_example :
    read_client sim 2000
      (pos 4)
      (pos 5)
      (at_world machine (answering (bytes (104 ∷ []) ∷ bytes (105 ∷ []) ∷ [])))
    ≡ ok tt (at_world machine served)
unfolding text
read_client_lem_example =
    read_client_lem sim machine (pos 5) 2000 (pos 4) two_parts (omega arith) (omega arith)

read_client-error_example :
    read_client sim 2000 (pos 4) (pos 5) (at_world machine (answering (failed (other 104) ∷ [])))
    ≡ fault out_of_bounds
read_client-error_example = read_client-error sim machine (pos 5) 1998 (pos 4) refl refl

-- A console with the one line "x", and a peer that takes it.
abbrev pub console : Console Sim
console = record {
  connect = λ fd a n s. (pos 0, s);
  fgets = λ before n s. (120 ∷ 10 ∷ 0 ∷ [], s);
  send = λ fd bs s. sent (pos 2) (record s { sent = bs ∷ s.sent });
}

abbrev pub with_line : Sim
with_line = record (answering []) { sent = (120 ∷ 10 ∷ []) ∷ [] }
