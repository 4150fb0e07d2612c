-- ===== src/ThreadPool/Order.antt =====
-- The order in which the tasks of src/threadpool/ThreadPool.cpp are submitted and started.
use mathlib.Core.List.{append-nil, append_assoc}
use online_chat_proj.Base.{
  ℕ, ◌≡◌, ◌≢◌, refl, sym, ap, ◌∙◌, Bool, true, false, List, [], ◌∷◌, ◌++◌, arith, ◌≡⟨◌⟩◌, ◌∎,
}
use online_chat_proj.Base.Int.{ℤ}
use online_chat_proj.ThreadPool.{
  ThreadPool, turn, empty_front, takes, push_task, shut_down, new_pool, Step, sleep, leave, take,
  finish, stir, enqueue, destroy, Reach, start, later,
}

module _ {T : Type 0} where
  -- The queue is never asked for its front while it is empty.
  turn-ne-empty_front : (quit : Bool) (tasks : List T) → turn quit tasks ≢ empty_front
  unfolding turn
  turn-ne-empty_front true [] h = cc
  turn-ne-empty_front false [] h = cc
  turn-ne-empty_front true (t ∷ ts) h = cc
  turn-ne-empty_front false (t ∷ ts) h = cc

  pub turn-takes :
      (quit : Bool) (tasks : List T) {t : T} {ts : List T}
      → turn quit tasks ≡ takes t ts
      → tasks ≡ t ∷ ts
  unfolding turn
  turn-takes true [] h = absurd (cc)
  turn-takes false [] h = absurd (cc)
  turn-takes true (t ∷ ts) h = cc
  turn-takes false (t ∷ ts) h = cc

  -- What a step starts and leaves in the queue is what was queued and what it submits.
  Step-order :
      {p q : ThreadPool T} {more next : List T}
      → Step p q more next
      → p.tasks ++ more ≡ next ++ q.tasks
  unfolding push_task shut_down
  Step-order {p} (sleep i e h) = append-nil p.tasks
  Step-order {p} (leave i e h) = append-nil p.tasks
  Step-order {p} (take i e h) = append-nil p.tasks ∙ turn-takes p.quit p.tasks h
  Step-order {p} (finish i e) = append-nil p.tasks
  Step-order {p} (stir i e) = append-nil p.tasks
  Step-order {p} (enqueue t e n) = ground arith
  Step-order {p} (destroy e) = append-nil p.tasks

  -- From an empty pool: the tasks submitted, in order, are the tasks started, in order, followed by
  -- those that still wait.
  pub Reach-order :
      (requested : ℤ) (hardware : ℕ) {p : ThreadPool T} {given begun : List T}
      → Reach (new_pool requested hardware) p given begun
      → given ≡ begun ++ p.tasks
  unfolding new_pool
  Reach-order requested hardware start = refl
  Reach-order requested hardware (later {q} {r} {given} {begun} {more} {next} h s) =
      given ++ more
      ≡⟨ ap (λ (l : List T). l ++ more) (Reach-order requested hardware h) ⟩
        (begun ++ q.tasks) ++ more
      ≡⟨ append_assoc begun q.tasks more ⟩ begun ++ (q.tasks ++ more)
      ≡⟨ ap (◌++◌ begun) (Step-order s) ⟩ begun ++ (next ++ r.tasks)
      ≡⟨ sym (append_assoc begun next r.tasks) ⟩ (begun ++ next) ++ r.tasks ∎
