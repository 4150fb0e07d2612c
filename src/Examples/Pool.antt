-- ===== src/Examples/Pool.antt =====
-- A pool of one worker that is given a task, takes it, and is then destroyed.
use online_chat_proj.Base.{
  ℕ, zero, suc, ◌≡◌, ◌≢◌, refl, ◌≤◌, true, false, some, List, [], ◌∷◌, ◌++◌, arith,
}
use online_chat_proj.ThreadPool.Inevitable.{Inevitable, Stopped, shutdown-Inevitable}
use online_chat_proj.Base.Lists.{length, total, get_elem?}
use online_chat_proj.Base.Int.{pos}
use online_chat_proj.ThreadPool.{
  Worker, ready, asleep, running, ThreadPool, new_pool, thread_count, turn, push_task, shut_down,
  notify_all, nobody, Reach, start, later, take, enqueue, destroy, Step, finish,
}
use online_chat_proj.ThreadPool.Order.{Reach-order}
use online_chat_proj.ThreadPool.Moves.{Inv}
use online_chat_proj.ThreadPool.Wakeups.{Reach-Inv}
use online_chat_proj.ThreadPool.Drain.{work, Steps, here, next, quitting_ends}
use online_chat_proj.ThreadPool.Size.{is_running, Reach-concurrency, Reach-no_hardware}

abbrev fresh : ThreadPool ℕ
fresh = new_pool (pos 1) 2

abbrev given_one : ThreadPool ℕ
given_one = record { quit = false; workers = ready ∷ []; tasks = 7 ∷ [] }

abbrev busy : ThreadPool ℕ
busy = record { quit = false; workers = running 7 ∷ []; tasks = [] }

abbrev closing : ThreadPool ℕ
closing = record { quit = true; workers = running 7 ∷ []; tasks = [] }

no_sleeper : (i : ℕ) → get_elem? {A = Worker ℕ} (ready ∷ []) i ≢ some asleep
no_sleeper zero h = cc
no_sleeper (suc i) h = cc

gives : Step fresh given_one (7 ∷ []) []
unfolding new_pool thread_count push_task
gives = enqueue 7 refl (nobody no_sleeper)

starts : Step given_one busy [] (7 ∷ [])
unfolding turn
starts = take 0 refl refl

closes : Step busy closing [] []
unfolding shut_down notify_all
closes = destroy refl

reaches : Reach fresh closing (7 ∷ []) (7 ∷ [])
reaches = later (later (later start gives) starts) closes

abbrev one_task : List ℕ
one_task = 7 ∷ []

Reach-order_example : one_task ≡ one_task ++ []
Reach-order_example = Reach-order (pos 1) 2 reaches

Reach-Inv_example : Inv closing
Reach-Inv_example = Reach-Inv (pos 1) 2 reaches

finishing : Steps closing 1 (record { quit = true; workers = ready ∷ []; tasks = [] })
finishing = next here (finish 0 refl)

quitting_ends_example : 1 ≤ work closing
quitting_ends_example = quitting_ends (pos 1) 2 reaches refl finishing

abbrev no_task : List ℕ
no_task = []

abbrev stuck : ThreadPool ℕ
stuck = record { quit = false; workers = []; tasks = 7 ∷ [] }

nobody_there : (i : ℕ) → get_elem? {A = Worker ℕ} [] i ≢ some asleep
nobody_there i h = cc

gives_nobody : Step (new_pool (pos 3) 0) stuck (7 ∷ []) []
unfolding new_pool thread_count push_task
gives_nobody = enqueue 7 refl (nobody nobody_there)

Reach-no_hardware_example : (stuck.workers ≡ []) × (no_task ≡ [])
Reach-no_hardware_example = Reach-no_hardware (pos 3) (later start gives_nobody)

shutdown-Inevitable_example : Inevitable (Stopped (pos 1) 2) closing one_task one_task
shutdown-Inevitable_example = shutdown-Inevitable (pos 1) 2 (omega arith) reaches refl

Reach-concurrency_example :
    (length closing.workers ≡ thread_count (pos 1) 2) × (total is_running closing.workers ≤ 2)
Reach-concurrency_example = Reach-concurrency (pos 1) 2 reaches
