-- ===== src/ThreadPool/Inevitable.antt =====
-- The destructor of src/threadpool/ThreadPool.cpp on every schedule: the joins return.
use online_chat_proj.Base.{ℕ, zero, suc, ◌<◌, ◌≡◌, inl, inr, true, List, [], ◌++◌, arith}
use online_chat_proj.Base.Int.{ℤ}
use online_chat_proj.ThreadPool.{ThreadPool, Step, Reach, later}
use online_chat_proj.ThreadPool.Wakeups.{Reach-Inv}
use online_chat_proj.ThreadPool.Drain.{work, Step-work, quitting_drains}
use online_chat_proj.ThreadPool.Shutdown.{AllReturned, pool, stopped}

module _ {T : Type 0} where
  -- Whatever thread moves next, and however often: the pool comes to `P`. It never gets stuck before.
  -- The lists are the tasks submitted and started so far.
  pub data Inevitable (P : ThreadPool T → List T → List T → Type 0)
      : ThreadPool T → List T → List T → Type 0 where
    now : {p : ThreadPool T} {given begun : List T} → P p given begun → Inevitable P p given begun
    after :
        {p : ThreadPool T} {given begun : List T}
        → (q : ThreadPool T) × (next : List T) × Step p q [] next
        → ((q : ThreadPool T) (more next : List T)
            → Step p q more next
            → Inevitable P q (given ++ more) (begun ++ next))
        → Inevitable P p given begun

  module _ (requested : ℤ) (hardware : ℕ) where
    -- All workers have returned, and what was submitted was started, in that order.
    abbrev pub Stopped : ThreadPool T → List T → List T → Type 0
    Stopped p given begun = AllReturned requested hardware p × (begun ≡ given)

    inevitable :
        0 < hardware
        → (fuel : ℕ) {p : ThreadPool T} {given begun : List T}
        → Reach (pool requested hardware) p given begun
        → p.quit ≡ true
        → work p < fuel
        → Inevitable Stopped p given begun
    inevitable thread zero r quits h = absurd (omega arith)
    inevitable thread (suc fuel) {p} r quits h = elim (quitting_drains requested hardware r quits) [
      | inl step ↦ after step λ q more next st.
          let (less, quits') = Step-work st (Reach-Inv requested hardware r) quits in
          inevitable thread fuel (later r st) quits' (omega arith)
      | inr done ↦ now (λ i w e. (done i w e).0, stopped requested hardware thread r done)
    ]

    -- On a machine with a hardware thread: from every state in which the destructor has set `quit`,
    -- on every schedule, whichever threads move and in whatever order, the pool comes to a state in
    -- which all workers have returned, so that the joins return, with every task that was submitted
    -- started, in order; and it is never stuck before.
    pub shutdown-Inevitable :
        0 < hardware
        → {p : ThreadPool T} {given begun : List T} → Reach (pool requested hardware) p given begun
        → p.quit ≡ true
        → Inevitable Stopped p given begun
    shutdown-Inevitable thread {p} r quits = inevitable thread (suc (work p)) r quits (omega arith)
