-- ===== src/ThreadPool/Drain.antt =====
-- The destructor of src/threadpool/ThreadPool.cpp: what the workers do once `quit` is set.
use online_chat_proj.Base.{
  ℕ, suc, ◌+◌, ◌*◌, ◌≤◌, ◌<◌, ◌≡◌, refl, ap, ◌⊎◌, inl, inr, true, some, List, [], ◌∷◌, arith,
  dec_lt,
}
use online_chat_proj.Base.Int.{ℤ}
use online_chat_proj.Base.Lists.{length, get_elem?, total, total-set, total-member, total-pos}
use online_chat_proj.ThreadPool.{
  Worker, ready, asleep, finished, running, ThreadPool, turn, new_pool, move, Step, sleep, leave,
  take, finish, stir, enqueue, destroy, Reach,
}
use online_chat_proj.ThreadPool.Order.{turn-takes}
use online_chat_proj.ThreadPool.Moves.{Inv, is_asleep, is_finished, turn-sleeps}
use online_chat_proj.ThreadPool.Wakeups.{push_task-some, Step-Inv, Reach-Inv}

module _ {T : Type 0} where
  -- The steps that a worker has still to make, if it starts no other task.
  abbrev pub cost : Worker T → ℕ
  cost ready = 1
  cost asleep = 0
  cost finished = 0
  cost (running t) = 2

  abbrev pub work : ThreadPool T → ℕ
  work p = 2 * length p.tasks + total cost p.workers

  -- While the pool quits, each step of any thread takes some of the work away, submits nothing, and
  -- leaves the pool quitting.
  pub Step-work :
      {p q : ThreadPool T} {more next : List T}
      → Step p q more next
      → Inv p
      → p.quit ≡ true
      → (work q < work p) × (q.quit ≡ true)
  Step-work {p} (sleep i e h) inv quits = absurd (cc (turn-sleeps p.quit p.tasks h).0)
  Step-work {p} (leave i e h) inv quits =
      (omega (arith, total-set cost p.workers i ready finished e), quits)
  Step-work {p} (take i {t} {ts} e h) inv quits = (
    omega (
      arith,
      total-set cost p.workers i ready (running t) e,
      ap length (turn-takes p.quit p.tasks h),
    ),
    quits,
  )
  Step-work {p} (finish i {t} e) inv quits =
      (omega (arith, total-set cost p.workers i (running t) ready e), quits)
  Step-work {p} (stir i e) inv quits =
      absurd (omega (arith, inv.closing quits, total-member is_asleep p.workers i asleep e))
  Step-work {p} (enqueue t e n) inv quits = absurd (cc (push_task-some p t e).0)
  Step-work (destroy e) inv quits = absurd (cc)

  -- A schedule of `n` steps.
  pub data Steps (p : ThreadPool T) : ℕ → ThreadPool T → Type 0 where
    here : Steps p 0 p
    next :
        {n : ℕ} {q r : ThreadPool T} {given begun : List T}
        → Steps p n q
        → Step q r given begun
        → Steps p (suc n) r

  Steps-work :
      {p q : ThreadPool T} {n : ℕ}
      → Steps p n q
      → Inv p
      → p.quit ≡ true
      → (n + work q ≤ work p) × Inv q × (q.quit ≡ true)
  Steps-work here inv quits = (omega arith, inv, quits)
  Steps-work (next s st) inv quits =
      let (le, inv', quits') = Steps-work s inv quits in
      let (lt, quits'') = Step-work st inv' quits' in (omega arith, Step-Inv st inv', quits'')

  -- Once `quit` is set, no schedule is longer than the work that is left: two steps for each task
  -- that waits, and at most two for each worker.
  pub quitting_ends :
      (requested : ℤ) (hardware : ℕ) {p q : ThreadPool T} {given begun : List T} {n : ℕ}
      → Reach (new_pool requested hardware) p given begun
      → p.quit ≡ true
      → Steps p n q
      → n ≤ work p
  quitting_ends requested hardware r quits s =
      let (le, inv, quits') = Steps-work s (Reach-Inv requested hardware r) quits in omega arith

  busy_step :
      (p : ThreadPool T) (i : ℕ) (w : Worker T)
      → p.quit ≡ true
      → get_elem? p.workers i ≡ some w
      → 0 < cost w
      → (q : ThreadPool T) × (begun : List T) × Step p q [] begun
  unfolding turn
  busy_step p i ready quits e h = ready_step p.tasks refl
    where
      ready_step :
          (ts : List T) → p.tasks ≡ ts → (q : ThreadPool T) × (begun : List T) × Step p q [] begun
      ready_step [] eq = (move p i finished, [], leave i e (ground (arith, quits, eq)))
      ready_step (t ∷ ts) eq = (
        record (move p i (running t)) { tasks = ts },
        t ∷ [],
        take i e (ground (arith, quits, eq)),
      )
  busy_step p i asleep quits e h = absurd (omega arith)
  busy_step p i finished quits e h = absurd (omega arith)
  busy_step p i (running t) quits e h = (move p i ready, [], finish i e)

  -- Once `quit` is set, some thread can move, or every worker has returned and, if there is one, no
  -- task was left behind.
  pub quitting_drains :
      (requested : ℤ) (hardware : ℕ) {p : ThreadPool T} {given begun : List T}
      → Reach (new_pool requested hardware) p given begun
      → p.quit ≡ true
      → ((q : ThreadPool T) × (more : List T) × Step p q [] more)
        ⊎ ((i : ℕ) (w : Worker T)
            → get_elem? p.workers i ≡ some w
            → (w ≡ finished) × (p.tasks ≡ []))
  quitting_drains requested hardware {p} r quits = elim (dec_lt 0 (total cost p.workers)) [
    | yes h ↦ let (i, w, e, pos_) = total-pos cost p.workers h in inl (busy_step p i w quits e pos_)
    | no h ↦ inr (λ i w e.
        let f = idle i w e (omega (arith, total-member cost p.workers i w e)) in
        (
          f,
          inv.left_empty
              (omega (arith, total-member is_finished p.workers i w e, ap is_finished f)),
        ))
  ]
    where
      inv : Inv p
      inv = Reach-Inv requested hardware r

      idle : (i : ℕ) (w : Worker T) → get_elem? p.workers i ≡ some w → cost w ≡ 0 → w ≡ finished
      idle i ready e z = absurd (omega arith)
      idle i asleep e z =
          absurd (omega (arith, inv.closing quits, total-member is_asleep p.workers i asleep e))
      idle i finished e z = refl
      idle i (running t) e z = absurd (omega arith)
