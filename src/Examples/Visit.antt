-- ===== src/Examples/Visit.antt =====
-- One client of the reactor on the system of `Sim`: it arrives, sends "hi" in two chunks, and is
-- ready for the answer. And a receive that is interrupted.
use online_chat_proj.Base.{ℕ, ◌≡◌, refl, true, false, none, some, List, [], ◌∷◌, arith, update}
use online_chat_proj.Base.Int.{pos, minus_one, update_ℤ}
use online_chat_proj.Os.{has_flag, Received, bytes, failed, eagain}
use online_chat_proj.Connection.{Connection, accept_handler, recv_buffer_length, set_non_blocking}
use online_chat_proj.Machine.{Machine}
use online_chat_proj.Epoll.{max_epoll_conn}
use online_chat_proj.Server.Accept.{watch}
use online_chat_proj.Server.Receive.{Delivers, chunk, ends}
use online_chat_proj.Server.Text.{text}
use online_chat_proj.Server.Visits.{
  after_accept, after_read, after_answer, Visit, visit, Visits, nobody, next_one,
}
use online_chat_proj.Examples.Reactor.{two_chunks, raw, hi, raw_server}
use online_chat_proj.Examples.Sim.{Sim, sim}
use online_chat_proj.Main.Service.{polling}
use online_chat_proj.Server.Create.{watching}

abbrev pub listener : Connection
listener = record raw {
  fd = pos 3;
  in_epoll = true;
  recv_callback = some (record { handler = accept_handler; conn = 0 });
}

abbrev pub arriving : Sim
arriving = record {
  open_fds = update (λ _. false) 3 true;
  watched = update_ℤ (λ _. none) (pos 3) (some (record { events = watch; fd = pos 3 }));
  arrivals = 5 ∷ [];
  answers = hi;
  turns = pos 3 ∷ pos 5 ∷ pos 5 ∷ [];
  sent = [];
  printed = [];
}

abbrev pub waiting : Machine Sim
waiting = record {
  world = arriving;
  heap = update (λ _. none) 0 (some listener);
  junk = λ _. raw;
  next = 1;
  epoll = record { epfd = pos 4; conn_map = update_ℤ (λ _. none) (pos 3) (some 0) };
}

-- Two clients come after the program has started, one after the other. The first sends "hi" in two
-- chunks, the second "yo" in one.
abbrev crowd : Sim
crowd = record (two_chunks ([])) {
  arrivals = 5 ∷ 6 ∷ [];
  answers = bytes (104 ∷ []) ∷ bytes (105 ∷ []) ∷ failed eagain ∷ bytes (121 ∷ 111 ∷ []) ∷ [];
  turns = pos 3 ∷ pos 5 ∷ pos 5 ∷ pos 3 ∷ pos 6 ∷ pos 6 ∷ [];
}

abbrev woken : Sim → Sim
woken s = (sim.epoll_wait (pos 4) max_epoll_conn minus_one s).1

abbrev hi_bytes : List ℕ
hi_bytes = 104 ∷ 105 ∷ []

abbrev yo_bytes : List ℕ
yo_bytes = 121 ∷ 111 ∷ []

-- The states of a visit that begins in `s` in which `recv` is called, in which it has handed over
-- everything and left `rest` to be answered, in which `write` is called, and at the end.
abbrev reached : Sim → Sim
reached s = woken (after_accept sim (pos 4) (pos 3) (woken s))

abbrev read : List Received → Sim → Sim
read rest s = record (reached s) { answers = rest }

abbrev writable : ℕ → List ℕ → List Received → Sim → Sim
writable g bs rest s = woken (after_read sim (pos 4) (pos 3) (pos g) bs (read rest s))

abbrev over : ℕ → List ℕ → List Received → Sim → Sim
over g bs rest s = after_answer sim (pos 4) (pos 3) (pos g) bs (writable g bs rest s)

abbrev HiVisit : Sim → Type 0
HiVisit s = Visit sim (pos 4) (pos 3) minus_one s (pos 5) hi_bytes (over 5 hi_bytes [] s)

both_chunks : Delivers sim (pos 5) recv_buffer_length (reached arriving) hi_bytes (read [] arriving)
both_chunks = chunk refl (omega arith) (chunk refl (omega arith) (ends refl refl))

hi_comes : HiVisit arriving
unfolding has_flag text
hi_comes =
    visit (λ e. cc) refl refl refl refl both_chunks (omega arith) (omega arith) refl refl refl

-- The machine once the server is made, and the two visits.
abbrev made : Sim
made = watching sim raw_server (polling sim raw_server crowd (λ _. raw))

abbrev more : List Received
more = bytes yo_bytes ∷ []

abbrev between : Sim
between = over 5 hi_bytes more made

abbrev alone : Sim
alone = over 6 yo_bytes [] between

in_two : Delivers sim (pos 5) recv_buffer_length (reached made) hi_bytes (read more made)
unfolding set_non_blocking
in_two = chunk refl (omega arith) (chunk refl (omega arith) (ends refl refl))

in_one : Delivers sim (pos 6) recv_buffer_length (reached between) yo_bytes (read [] between)
in_one = chunk refl (omega arith) (ends refl refl)

first_comes : Visit sim (pos 4) (pos 3) minus_one made (pos 5) hi_bytes between
unfolding has_flag text
first_comes = visit (λ e. cc) refl refl refl refl in_two (omega arith) (omega arith) refl refl refl

second_comes : Visit sim (pos 4) (pos 3) minus_one between (pos 6) yo_bytes alone
unfolding has_flag text
second_comes = visit (λ e. cc) refl refl refl refl in_one (omega arith) (omega arith) refl refl refl

both_come : Visits sim (pos 4) (pos 3) minus_one made (hi_bytes ∷ yo_bytes ∷ []) alone
both_come = next_one first_comes (next_one second_comes nobody)

-- What the two are sent, the last one first.
both_answered : alone.sent ≡ yo_bytes ∷ hi_bytes ∷ []
both_answered = refl
