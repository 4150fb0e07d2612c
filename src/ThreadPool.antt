-- ===== src/ThreadPool.antt =====
-- src/threadpool/ThreadPool.cpp and inc/threadpool/ThreadPool.hpp: workers that take tasks from one
-- queue. What a thread does while it holds the mutex `mtx` is one step; `cv` is the set of workers
-- that sleep. `T` is the type of tasks; what a task computes is not looked at.
pub mod Order
pub mod Moves
pub mod Wakeups
pub mod Drain
pub mod Shutdown
pub mod Inevitable
pub mod Size
use online_chat_proj.Base.{
  ℕ, zero, suc, ◌≡◌, ◌≢◌, Bool, true, false, not, ◌&&◌, ◌||◌, Option, none, some, List, [], ◌∷◌,
  ◌++◌, map, ltb, if◌then◌else◌,
}
use online_chat_proj.Base.Lists.{replicate, get_elem?, set}
use online_chat_proj.Base.Int.{ℤ, pos, negsuc}

-- Where a worker stands: before it takes the mutex, asleep in `cv.wait`, running a task outside
-- the mutex, or returned.
pub data Worker (T : Type 0) : Type 0 where
  ready asleep finished : Worker T
  running : T → Worker T

-- `class ThreadPool`; the front of the queue is the head of the list.
pub record ThreadPool (T : Type 0) : Type 0 where
  pub quit : Bool
  pub workers : List (Worker T)
  pub tasks : List T

-- The constructor's choice of `thread_num`, where `hardware` is `hardware_concurrency()`.
unfoldable pub thread_count : ℤ → ℕ → ℕ
thread_count (negsuc n) hardware = hardware
thread_count (pos zero) hardware = hardware
thread_count (pos (suc n)) hardware = if ltb hardware (suc n) then hardware else suc n

-- What a worker does under the mutex.
pub data Turn (T : Type 0) : Type 0 where
  sleeps leaves : Turn T
  takes : T → List T → Turn T
  empty_front : Turn T

module _ {T : Type 0} where
  abbrev pub is_empty : List T → Bool
  is_empty [] = true
  is_empty (t ∷ ts) = false

  -- `tasks.front()` and `tasks.pop()`; both are undefined on an empty queue.
  abbrev pub pop_front : List T → Turn T
  pop_front [] = empty_front
  pop_front (t ∷ ts) = takes t ts

  -- `cv.wait` with its predicate, the test for leaving, and the pop.
  unfoldable pub turn : Bool → List T → Turn T
  turn quit tasks =
      if quit || not (is_empty tasks)
      then if quit && is_empty tasks then leaves else pop_front tasks
      else sleeps

  -- `ThreadPool::ThreadPool`
  unfoldable pub new_pool : ℤ → ℕ → ThreadPool T
  new_pool requested hardware = record {
    quit = false;
    workers = replicate (thread_count requested hardware) ready;
    tasks = [];
  }

  abbrev pub wake : Worker T → Worker T
  wake ready = ready
  wake asleep = ready
  wake finished = finished
  wake (running t) = running t

  -- `cv.notify_all`
  unfoldable pub notify_all : List (Worker T) → List (Worker T)
  notify_all ws = map wake ws

  -- `enqueue` up to the notification; `none` is the exit of `errif`.
  unfoldable pub push_task : ThreadPool T → T → Option (ThreadPool T)
  push_task p t = if p.quit then none else some (record p { tasks = p.tasks ++ t ∷ [] })

  -- `~ThreadPool` up to the joins
  unfoldable pub shut_down : ThreadPool T → ThreadPool T
  shut_down p = record p { quit = true; workers = notify_all p.workers }

  -- `cv.notify_one` wakes some worker, if one sleeps.
  pub data NotifiesOne (ws : List (Worker T)) : List (Worker T) → Type 0 where
    nobody : ((i : ℕ) → get_elem? ws i ≢ some asleep) → NotifiesOne ws ws
    wakes : (i : ℕ) → get_elem? ws i ≡ some asleep → NotifiesOne ws (set ws i ready)

  abbrev pub move : ThreadPool T → ℕ → Worker T → ThreadPool T
  move p i w = record p { workers = set p.workers i w }

  -- One step of one thread. The two lists are the tasks that the step submits and starts.
  pub data Step (p : ThreadPool T) : ThreadPool T → List T → List T → Type 0 where
    sleep :
        (i : ℕ)
        → get_elem? p.workers i ≡ some ready
        → turn p.quit p.tasks ≡ sleeps
        → Step p (move p i asleep) [] []
    leave :
        (i : ℕ)
        → get_elem? p.workers i ≡ some ready
        → turn p.quit p.tasks ≡ leaves
        → Step p (move p i finished) [] []
    take :
        (i : ℕ) {t : T} {ts : List T}
        → get_elem? p.workers i ≡ some ready
        → turn p.quit p.tasks ≡ takes t ts
        → Step p (record (move p i (running t)) { tasks = ts }) [] (t ∷ [])
    -- the task returns, and its worker goes round its loop
    finish :
        (i : ℕ) {t : T} → get_elem? p.workers i ≡ some (running t) → Step p (move p i ready) [] []
    -- a spurious wake-up
    stir : (i : ℕ) → get_elem? p.workers i ≡ some asleep → Step p (move p i ready) [] []
    enqueue :
        (t : T) {q : ThreadPool T} {ws : List (Worker T)}
        → push_task p t ≡ some q
        → NotifiesOne q.workers ws
        → Step p (record q { workers = ws }) (t ∷ []) []
    destroy : p.quit ≡ false → Step p (shut_down p) [] []

  -- What a pool of `n` workers can come to, with the tasks submitted and started so far.
  pub data Reach (p : ThreadPool T) : ThreadPool T → List T → List T → Type 0 where
    start : Reach p p [] []
    later :
        {q r : ThreadPool T} {given begun more next : List T}
        → Reach p q given begun
        → Step q r more next
        → Reach p r (given ++ more) (begun ++ next)
