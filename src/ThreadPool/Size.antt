-- ===== src/ThreadPool/Size.antt =====
-- How many workers a pool has.
use online_chat_proj.Base.{
  ℕ, zero, suc, dec_lt, ◌⊎◌, inl, inr, ◌≤◌, ◌<◌, ◌≡◌, refl, ap, ◌∙◌, some, List, [], ◌∷◌, arith,
}
use online_chat_proj.Base.Int.{ℤ, pos, negsuc}
use online_chat_proj.Base.Lists.{length, length-set, length-replicate, total, get_elem?}
use online_chat_proj.ThreadPool.{
  Worker, ready, asleep, finished, running, ThreadPool, thread_count, new_pool, notify_all,
  shut_down, NotifiesOne, nobody, wakes, Step, sleep, leave, take, finish, stir, enqueue, destroy,
  Reach, start, later,
}
use online_chat_proj.ThreadPool.Wakeups.{push_task-some}

-- A number of workers that the machine can serve.
abbrev pub InRange : ℤ → ℕ → Type 0
InRange requested hardware = (n : ℕ) × (requested ≡ pos (suc n)) × (suc n ≤ hardware)

below : (k hardware : ℕ) → thread_count (negsuc k) hardware ≡ hardware
unfolding thread_count
below k hardware = refl

default_count : (hardware : ℕ) → thread_count (pos zero) hardware ≡ hardware
unfolding thread_count
default_count hardware = refl

too_many : (k hardware : ℕ) → hardware < suc k → thread_count (pos (suc k)) hardware ≡ hardware
unfolding thread_count
too_many k hardware q = ground arith

enough : (k hardware : ℕ) → suc k ≤ hardware → thread_count (pos (suc k)) hardware ≡ suc k
unfolding thread_count
enough k hardware q = ground arith

-- On a machine that reports its number of threads the pool has at least one worker and at most that
-- many: it has the number that was asked for, or, if that is out of range, one for each thread.
pub thread_count_bounds :
    (requested : ℤ) (hardware : ℕ)
    → 0 < hardware
    → (0 < thread_count requested hardware)
      × (thread_count requested hardware ≤ hardware)
      × ((requested ≡ pos (thread_count requested hardware))
          ⊎ ((thread_count requested hardware ≡ hardware) × ¬ InRange requested hardware))
thread_count_bounds (negsuc k) hardware h =
    rw (below k hardware) (h, omega arith, inr (refl, λ (n, e, le). cc))
thread_count_bounds (pos zero) hardware h =
    rw (default_count hardware) (h, omega arith, inr (refl, λ (n, e, le). cc))
thread_count_bounds (pos (suc k)) hardware h = elim (dec_lt hardware (suc k)) [
  | yes q ↦
      let e = too_many k hardware q in
      rw e (h, omega arith, inr (refl, λ (n, eq, le). let f : suc k ≡ suc n = cc in omega arith))
  | no q ↦ let e = enough k hardware (omega arith) in rw e (omega arith, omega arith, inl refl)
]

thread_count-le : (requested : ℤ) (hardware : ℕ) → thread_count requested hardware ≤ hardware
unfolding thread_count
thread_count-le (negsuc k) hardware = omega arith
thread_count-le (pos zero) hardware = omega arith
thread_count-le (pos (suc k)) hardware = ground arith

module _ {T : Type 0} where
  no_worker : (ws : List (Worker T)) (i : ℕ) {w : Worker T} → ws ≡ [] → get_elem? ws i ≡ some w → ⊥
  no_worker [] i h e = cc
  no_worker (x ∷ ws) i h e = cc

  NotifiesOne-nil : {vs ws : List (Worker T)} → NotifiesOne vs ws → vs ≡ [] → ws ≡ []
  NotifiesOne-nil (nobody f) h = h
  NotifiesOne-nil {vs} (wakes i e) h = absurd (no_worker vs i h e)

  Step-nil :
      {p q : ThreadPool T} {more next : List T}
      → Step p q more next
      → p.workers ≡ []
      → (q.workers ≡ []) × (next ≡ [])
  unfolding shut_down notify_all
  Step-nil {p} (sleep i e h) z = absurd (no_worker p.workers i z e)
  Step-nil {p} (leave i e h) z = absurd (no_worker p.workers i z e)
  Step-nil {p} (take i e h) z = absurd (no_worker p.workers i z e)
  Step-nil {p} (finish i e) z = absurd (no_worker p.workers i z e)
  Step-nil {p} (stir i e) z = absurd (no_worker p.workers i z e)
  Step-nil {p} (enqueue t e n) z =
      (NotifiesOne-nil n (ap (λ (r : ThreadPool T). r.workers) (push_task-some p t e).1 ∙ z), refl)
  Step-nil {p} (destroy e) z = (ap notify_all z, refl)

  Reach-nil :
      {p q : ThreadPool T} {given begun : List T}
      → Reach p q given begun
      → p.workers ≡ []
      → (q.workers ≡ []) × (begun ≡ [])
  Reach-nil start z = (z, refl)
  Reach-nil (later r s) z =
      let (z', b) = Reach-nil r z in let (z'', n) = Step-nil s z' in (z'', rw (b, n))

  -- Where `hardware_concurrency()` is 0, which it may be, the pool has no worker, whatever number
  -- was asked for, and no task is ever started.
  pub Reach-no_hardware :
      (requested : ℤ) {p : ThreadPool T} {given begun : List T}
      → Reach (new_pool requested 0) p given begun
      → (p.workers ≡ []) × (begun ≡ [])
  unfolding new_pool thread_count
  Reach-no_hardware (negsuc n) r = Reach-nil r refl
  Reach-no_hardware (pos zero) r = Reach-nil r refl
  Reach-no_hardware (pos (suc n)) r = Reach-nil r (ground arith)

  length-notify_all : (ws : List (Worker T)) → length (notify_all ws) ≡ length ws
  unfolding notify_all
  length-notify_all [] = refl
  length-notify_all (w ∷ ws) = ap suc (length-notify_all ws)

  NotifiesOne-length : {vs ws : List (Worker T)} → NotifiesOne vs ws → length ws ≡ length vs
  NotifiesOne-length (nobody f) = refl
  NotifiesOne-length {vs} (wakes i e) = length-set vs i ready

  Step-length :
      {p q : ThreadPool T} {more next : List T}
      → Step p q more next
      → length q.workers ≡ length p.workers
  unfolding shut_down
  Step-length {p} (sleep i e h) = length-set p.workers i asleep
  Step-length {p} (leave i e h) = length-set p.workers i finished
  Step-length {p} (take i {t} e h) = length-set p.workers i (running t)
  Step-length {p} (finish i e) = length-set p.workers i ready
  Step-length {p} (stir i e) = length-set p.workers i ready
  Step-length {p} (enqueue t e n) =
      NotifiesOne-length n ∙ ap (λ (r : ThreadPool T). length r.workers) (push_task-some p t e).1
  Step-length {p} (destroy e) = length-notify_all p.workers

  pub Reach-length :
      (requested : ℤ) (hardware : ℕ) {p : ThreadPool T} {given begun : List T}
      → Reach (new_pool requested hardware) p given begun
      → length p.workers ≡ thread_count requested hardware
  unfolding new_pool
  Reach-length requested hardware start = length-replicate (thread_count requested hardware) ready
  Reach-length requested hardware (later r s) = Step-length s ∙ Reach-length requested hardware r

  abbrev pub is_running : Worker T → ℕ
  is_running ready = 0
  is_running asleep = 0
  is_running finished = 0
  is_running (running t) = 1

  total_running : (ws : List (Worker T)) → total is_running ws ≤ length ws
  unfolding total
  total_running [] = omega arith
  total_running (ready ∷ ws) = omega (arith, total_running ws)
  total_running (asleep ∷ ws) = omega (arith, total_running ws)
  total_running (finished ∷ ws) = omega (arith, total_running ws)
  total_running (running t ∷ ws) = omega (arith, total_running ws)

  -- No worker is added or lost on any schedule, and never do more tasks run at once than the
  -- machine has hardware threads.
  pub Reach-concurrency :
      (requested : ℤ) (hardware : ℕ) {p : ThreadPool T} {given begun : List T}
      → Reach (new_pool requested hardware) p given begun
      → (length p.workers ≡ thread_count requested hardware)
        × (total is_running p.workers ≤ hardware)
  Reach-concurrency requested hardware {p} r = (
    Reach-length requested hardware r,
    omega (
      arith,
      Reach-length requested hardware r,
      total_running p.workers,
      thread_count-le requested hardware,
    ),
  )
