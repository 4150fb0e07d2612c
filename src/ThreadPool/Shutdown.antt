-- ===== src/ThreadPool/Shutdown.antt =====
-- The whole of the destructor of src/threadpool/ThreadPool.cpp: the joins return.
use mathlib.Core.List.{append-nil}
use online_chat_proj.Base.{
  ℕ, zero, suc, ◌<◌, ◌≡◌, sym, ap, subst, ◌∙◌, inl, inr, true, some, List, [], ◌++◌, arith,
}
use online_chat_proj.Base.Int.{ℤ}
use online_chat_proj.Base.Lists.{get_elem?, get_elem?-zero}
use online_chat_proj.ThreadPool.{Worker, finished, ThreadPool, new_pool, Reach, later}
use online_chat_proj.ThreadPool.Wakeups.{Reach-Inv}
use online_chat_proj.ThreadPool.Order.{Reach-order}
use online_chat_proj.ThreadPool.Drain.{Steps, here, next, work, Step-work, quitting_drains}
use online_chat_proj.ThreadPool.Size.{thread_count_bounds, Reach-length}

module _ {T : Type 0} (requested : ℤ) (hardware : ℕ) where
  abbrev pub AllReturned : ThreadPool T → Type 0
  AllReturned p = (i : ℕ) (w : Worker T) → get_elem? p.workers i ≡ some w → w ≡ finished

  abbrev pub pool : ThreadPool T
  pool = new_pool requested hardware

  -- What `s` comes to in `n` steps when all that was `given` has been started.
  abbrev pub Completes : ThreadPool T → List T → Type 0
  Completes s given =
      (n : ℕ) × (q : ThreadPool T) × Steps s n q × Reach pool q given given × AllReturned q

  pub stopped :
      0 < hardware
      → {p : ThreadPool T} {given begun : List T} → Reach pool p given begun
      → ((i : ℕ) (w : Worker T) → get_elem? p.workers i ≡ some w → (w ≡ finished) × (p.tasks ≡ []))
      → begun ≡ given
  stopped some_thread {p} {given} {begun} r done =
      let size = Reach-length requested hardware r in
      let (w, e) =
        get_elem?-zero p.workers
          (omega (arith, size, (thread_count_bounds requested hardware some_thread).0)) in
      sym (Reach-order requested hardware r ∙ ap (◌++◌ begun) (done 0 w e).1 ∙ append-nil begun)

  complete :
      0 < hardware
      → (s : ThreadPool T) (fuel : ℕ) {p : ThreadPool T} {n : ℕ} {given begun : List T}
      → Steps s n p
      → Reach pool p given begun
      → p.quit ≡ true
      → work p < fuel
      → Completes s given
  complete thread s zero steps r quits h = absurd (omega arith)
  complete thread s (suc fuel) {p} {n} {given} {begun} steps r quits h =
      elim (quitting_drains requested hardware r quits) [
        | inl (q, more, step) ↦
            let (less, quits') = Step-work step (Reach-Inv requested hardware r) quits in
            complete thread s fuel (next steps step)
              (subst (λ (g : List T). Reach pool q g (begun ++ more)) (append-nil given)
                (later r step))
              quits' (omega arith)
        | inr done ↦ (
          n,
          p,
          steps,
          subst (λ (b : List T). Reach pool p given b) (stopped thread r done) r,
          λ i w e. (done i w e).0,
        )
      ]

  -- On a machine with a hardware thread: from every state in which the destructor has set `quit`,
  -- the workers can go on to a state in which all of them have returned, so that the joins return,
  -- with every task that was submitted started.
  shutdown-Completes :
      0 < hardware
      → {p : ThreadPool T} {given begun : List T} → Reach pool p given begun
      → p.quit ≡ true
      → Completes p given
  shutdown-Completes thread {p} r quits =
      complete thread p (suc (work p)) here r quits (omega arith)
