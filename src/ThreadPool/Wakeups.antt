-- ===== src/ThreadPool/Wakeups.antt =====
-- The wake-ups of src/threadpool/ThreadPool.cpp: which workers sleep, and which tasks wait.
use online_chat_proj.Base.{
  ℕ, ◌<◌, ◌≡◌, ◌≢◌, refl, sym, ap, ◌∙◌, false, some, List, [], ◌∷◌, ◌++◌, arith, dec_lt, subst,
}
use online_chat_proj.Base.Int.{ℤ}
use online_chat_proj.Base.Lists.{length-append, get_elem?, total, total-replicate_zero, total-pos}
use online_chat_proj.ThreadPool.{
  Worker, ready, asleep, finished, running, ThreadPool, notify_all, push_task, shut_down, new_pool,
  thread_count, NotifiesOne, nobody, wakes, Step, sleep, leave, take, finish, stir, enqueue,
  destroy, Reach, start, later,
}
use online_chat_proj.ThreadPool.Moves.{
  is_asleep, is_finished, Inv, counts, sleep-Inv, leave-Inv, take-Inv, finish-Inv, stir-Inv,
}

module _ {T : Type 0} where
  nobody-asleep :
      (ws : List (Worker T)) → ((i : ℕ) → get_elem? ws i ≢ some asleep) → total is_asleep ws ≡ 0
  nobody-asleep ws none_sleeps = elim (dec_lt 0 (total is_asleep ws)) [
    | no h ↦ omega arith
    | yes h ↦
        let (i, w, e, q) = total-pos is_asleep ws h in
        absurd (none_sleeps i (e ∙ ap some (sleeper w q)))
  ]
    where
      sleeper : (w : Worker T) → 0 < is_asleep w → w ≡ asleep
      sleeper ready q = absurd (omega arith)
      sleeper asleep q = refl
      sleeper finished q = absurd (omega arith)
      sleeper (running t) q = absurd (omega arith)

  abbrev queued : ThreadPool T → T → ThreadPool T
  queued p t = record p { tasks = p.tasks ++ t ∷ [] }

  pub push_task-some :
      (p : ThreadPool T) (t : T) {q : ThreadPool T}
      → push_task p t ≡ some q
      → (p.quit ≡ false) × (q ≡ queued p t)
  unfolding push_task
  push_task-some p t e = ground arith

  queued-Inv :
      {p : ThreadPool T} {ws : List (Worker T)} (t : T)
      → Inv p
      → p.quit ≡ false
      → NotifiesOne p.workers ws
      → Inv (record (queued p t) { workers = ws })
  queued-Inv {p} t inv open_ (nobody none_sleeps) = record {
    awake = λ q. absurd (omega (arith, nobody-asleep p.workers none_sleeps));
    closing = λ q. absurd (cc);
    left_open = inv.left_open;
    left_empty = λ q. absurd (omega (arith, inv.left_open open_));
  }
  queued-Inv {p} t inv open_ (wakes i e) =
      let c = counts p i asleep ready e in
      record {
        awake = λ q. omega (
          arith,
          c.readies,
          c.sleepers,
          inv.awake (omega (arith, c.sleepers)),
          length-append p.tasks (t ∷ []),
        );
        closing = λ q. absurd (cc);
        left_open = λ q. omega (arith, c.leavers, inv.left_open q);
        left_empty = λ q. absurd (omega (arith, c.leavers, inv.left_open open_));
      }

  enqueue-Inv :
      {p q : ThreadPool T} {ws : List (Worker T)} (t : T)
      → Inv p
      → push_task p t ≡ some q
      → NotifiesOne q.workers ws
      → Inv (record q { workers = ws })
  enqueue-Inv {p} {q} {ws} t inv e n =
      let (open_, is) = push_task-some p t e in
      subst (λ (r : ThreadPool T). Inv (record r { workers = ws })) (sym is)
        (queued-Inv t inv open_ (subst (λ (r : ThreadPool T). NotifiesOne r.workers ws) is n))

  notify_all-asleep : (ws : List (Worker T)) → total is_asleep (notify_all ws) ≡ 0
  unfolding notify_all total
  notify_all-asleep [] = refl
  notify_all-asleep (ready ∷ ws) = omega (arith, notify_all-asleep ws)
  notify_all-asleep (asleep ∷ ws) = omega (arith, notify_all-asleep ws)
  notify_all-asleep (finished ∷ ws) = omega (arith, notify_all-asleep ws)
  notify_all-asleep (running t ∷ ws) = omega (arith, notify_all-asleep ws)

  notify_all-finished :
      (ws : List (Worker T)) → total is_finished (notify_all ws) ≡ total is_finished ws
  unfolding notify_all total
  notify_all-finished [] = refl
  notify_all-finished (ready ∷ ws) = omega (arith, notify_all-finished ws)
  notify_all-finished (asleep ∷ ws) = omega (arith, notify_all-finished ws)
  notify_all-finished (finished ∷ ws) = omega (arith, notify_all-finished ws)
  notify_all-finished (running t ∷ ws) = omega (arith, notify_all-finished ws)

  destroy-Inv : {p : ThreadPool T} → Inv p → Inv (shut_down p)
  unfolding shut_down
  destroy-Inv {p} inv = record {
    awake = λ q. absurd (omega (arith, notify_all-asleep p.workers));
    closing = λ q. notify_all-asleep p.workers;
    left_open = λ q. absurd (cc);
    left_empty = λ q. inv.left_empty (omega (arith, notify_all-finished p.workers));
  }

  pub Step-Inv : {p q : ThreadPool T} {more next : List T} → Step p q more next → Inv p → Inv q
  Step-Inv (sleep i e h) inv = sleep-Inv i inv e h
  Step-Inv (leave i e h) inv = leave-Inv i inv e h
  Step-Inv (take i {t} {ts} e h) inv = take-Inv i t ts inv e h
  Step-Inv (finish i {t} e) inv = finish-Inv i t inv e
  Step-Inv (stir i e) inv = stir-Inv i inv e
  Step-Inv (enqueue t e n) inv = enqueue-Inv t inv e n
  Step-Inv (destroy e) inv = destroy-Inv inv

  new_pool-Inv : (requested : ℤ) (hardware : ℕ) → Inv (new_pool {T = T} requested hardware)
  unfolding new_pool
  new_pool-Inv requested hardware =
      let n = thread_count requested hardware in
      record {
        awake = λ q. omega arith;
        closing = λ q. absurd (cc);
        left_open = λ q. total-replicate_zero is_finished n ready refl;
        left_empty = λ q. refl;
      }

  -- In every state that a pool can come to: while a worker sleeps, there are at least as many
  -- workers on their way to the queue as tasks in it, so no wake-up is lost; once the pool is to
  -- quit, no worker sleeps; and a worker leaves only then, and only from an empty queue.
  pub Reach-Inv :
      (requested : ℤ) (hardware : ℕ) {p : ThreadPool T} {given begun : List T}
      → Reach (new_pool requested hardware) p given begun
      → Inv p
  Reach-Inv requested hardware start = new_pool-Inv requested hardware
  Reach-Inv requested hardware (later r s) = Step-Inv s (Reach-Inv requested hardware r)
