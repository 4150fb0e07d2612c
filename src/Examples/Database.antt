-- ===== src/Examples/Database.antt =====
-- A database that refuses every command with the message "no".
use online_chat_proj.Base.{ℕ, suc, ◌-◌, ◌+◌, ◌≡◌, refl, some, none, List, [], ◌∷◌, ◌++◌, arith, ◌↔◌}
use online_chat_proj.Machine.{out_of_bounds}
use online_chat_proj.GaussConnector.{
  Libpq, GaussConnector, faulted, insert, update, omit, connection_ok, close_connector,
  pgres_command_ok, strcat, pgres_fatal_error,
}
use online_chat_proj.Base.Lists.{length}
use online_chat_proj.Server.{c_string}
use online_chat_proj.GaussConnector.Calls.{
  ResultLaws, inserts, updates, omits, Calls, nothing, succeeds, close-leaks,
}
use online_chat_proj.GaussConnector.Messages.{Failures, unchanged, fails, messages_collect}
use online_chat_proj.GaussConnector.Commands.{commands-overflow_iff, Overflows}

-- What libpq keeps here is the number of results not cleared; a connection and a result are numbers.
abbrev refusing : Libpq ℕ ℕ ℕ
refusing = record {
  connectdb = λ _ w. (1, w);
  status = λ _ _. connection_ok;
  error_message = λ _ _. 110 ∷ 111 ∷ [];
  finish = λ _ w. w;
  exec = λ _ _ w. (9, suc w);
  result_status = λ _ _. pgres_fatal_error;
  clear = λ _ w. w - 1;
  complain = λ _ w. w;
}

abbrev link : GaussConnector ℕ ℕ
link = record { conn = 1; res = none }

abbrev command_text : List ℕ
command_text = 68 ∷ []

abbrev old_text : List ℕ
old_text = 58 ∷ []

abbrev roomy : List ℕ
roomy = 7 ∷ 7 ∷ 7 ∷ []

abbrev narrow : List ℕ
narrow = 7 ∷ []

commands-overflow_iff_example :
    ((insert refusing command_text (some (old_text ++ 0 ∷ narrow)) link 0 ≡ faulted out_of_bounds)
      ↔ Overflows refusing command_text narrow link 0)
    × ((update refusing command_text (some (old_text ++ 0 ∷ narrow)) link 0 ≡ faulted out_of_bounds)
        ↔ Overflows refusing command_text narrow link 0)
    × ((omit refusing command_text (some (old_text ++ 0 ∷ narrow)) link 0 ≡ faulted out_of_bounds)
        ↔ Overflows refusing command_text narrow link 0)
commands-overflow_iff_example =
    commands-overflow_iff refusing command_text old_text narrow link 0 (omega arith, tt)

narrow-Overflows : Overflows refusing command_text narrow link 0
narrow-Overflows = (refl, omega arith)

-- A database that carries out every command.
abbrev obeying : Libpq ℕ ℕ ℕ
obeying = record refusing { result_status = λ _ _. pgres_command_ok }

obeying_laws : ResultLaws obeying
obeying_laws = record {
  count = λ w. w;
  exec_makes = λ c cmd w ok_. refl;
  clear_frees = λ c cmd w. omega arith;
  finish_keeps = λ c w. refl;
}

abbrev linked : GaussConnector ℕ ℕ
linked = record { conn = 1; res = some 9 }

two-Calls : Calls obeying link 0 2 linked 2
unfolding insert update
two-Calls =
    succeeds command_text none (succeeds command_text none nothing (inserts refl) refl)
      (updates refl) refl

close-leaks_example :
    obeying_laws.count (close_connector obeying linked 2) ≡ obeying_laws.count 0 + 2
close-leaks_example = close-leaks obeying obeying_laws two-Calls

abbrev both_told : List ℕ
both_told = 58 ∷ 110 ∷ 111 ∷ 110 ∷ 111 ∷ 0 ∷ []

two-Failures :
    Failures refusing link 0
      (58 ∷ 0 ∷ 7 ∷ 7 ∷ 7 ∷ 7 ∷ [])
      (110 ∷ 111 ∷ 110 ∷ 111 ∷ [])
      linked
      0
      both_told
unfolding insert omit strcat c_string
two-Failures =
    fails command_text (fails command_text unchanged (inserts refl) refl refl) (omits refl) refl
      refl

messages_collect_example :
    (c_string both_told ≡ some (58 ∷ 110 ∷ 111 ∷ 110 ∷ 111 ∷ [])) × (length both_told ≡ 6)
unfolding c_string
messages_collect_example = messages_collect refusing (λ c w. omega arith) refl two-Failures
