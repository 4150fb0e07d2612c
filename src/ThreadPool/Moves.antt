-- ===== src/ThreadPool/Moves.antt =====
-- What one step of a worker of src/threadpool/ThreadPool.cpp does to the counts of workers that are
-- on their way, asleep and gone.
use online_chat_proj.Base.{
  ℕ, suc, ◌+◌, ◌≤◌, ◌<◌, ◌≡◌, refl, ap, Bool, true, false, some, List, [], ◌∷◌, arith,
}
use online_chat_proj.Base.Lists.{length, get_elem?, set, total, total-set}
use online_chat_proj.ThreadPool.{
  Worker, ready, asleep, finished, running, ThreadPool, turn, takes, sleeps, leaves, move,
}
use online_chat_proj.ThreadPool.Order.{turn-takes}

module _ {T : Type 0} where
  abbrev pub is_ready : Worker T → ℕ
  is_ready ready = 1
  is_ready asleep = 0
  is_ready finished = 0
  is_ready (running t) = 0

  abbrev pub is_asleep : Worker T → ℕ
  is_asleep ready = 0
  is_asleep asleep = 1
  is_asleep finished = 0
  is_asleep (running t) = 0

  abbrev pub is_finished : Worker T → ℕ
  is_finished ready = 0
  is_finished asleep = 0
  is_finished finished = 1
  is_finished (running t) = 0

  -- While a worker sleeps there are as many workers on their way to the queue as tasks in it; none
  -- sleeps once the pool is to quit; and none has left before, or with tasks in the queue.
  pub record Inv (p : ThreadPool T) : Type 0 where
    pub awake : (0 < total is_asleep p.workers) → length p.tasks ≤ total is_ready p.workers
    pub closing : p.quit ≡ true → total is_asleep p.workers ≡ 0
    pub left_open : p.quit ≡ false → total is_finished p.workers ≡ 0
    pub left_empty : (0 < total is_finished p.workers) → p.tasks ≡ []

  pub turn-sleeps :
      (quit : Bool) (tasks : List T) → turn quit tasks ≡ sleeps → (quit ≡ false) × (tasks ≡ [])
  unfolding turn
  turn-sleeps true [] h = absurd (cc)
  turn-sleeps false [] h = (refl, refl)
  turn-sleeps true (t ∷ ts) h = absurd (cc)
  turn-sleeps false (t ∷ ts) h = absurd (cc)

  turn-leaves :
      (quit : Bool) (tasks : List T) → turn quit tasks ≡ leaves → (quit ≡ true) × (tasks ≡ [])
  unfolding turn
  turn-leaves true [] h = (refl, refl)
  turn-leaves false [] h = absurd (cc)
  turn-leaves true (t ∷ ts) h = absurd (cc)
  turn-leaves false (t ∷ ts) h = absurd (cc)

  -- The three counts after one worker has moved.
  pub record Counts (p : ThreadPool T) (i : ℕ) (a b : Worker T) : Type 0 where
    pub readies :
        total is_ready (set p.workers i b) + is_ready a ≡ total is_ready p.workers + is_ready b
    pub sleepers :
        total is_asleep (set p.workers i b) + is_asleep a ≡ total is_asleep p.workers + is_asleep b
    pub leavers :
        total is_finished (set p.workers i b) + is_finished a
        ≡ total is_finished p.workers + is_finished b

  pub counts :
      (p : ThreadPool T) (i : ℕ) (a b : Worker T) → get_elem? p.workers i ≡ some a → Counts p i a b
  counts p i a b e = record {
    readies = total-set is_ready p.workers i a b e;
    sleepers = total-set is_asleep p.workers i a b e;
    leavers = total-set is_finished p.workers i a b e;
  }

  pub sleep-Inv :
      {p : ThreadPool T} (i : ℕ)
      → Inv p
      → get_elem? p.workers i ≡ some ready
      → turn p.quit p.tasks ≡ sleeps
      → Inv (move p i asleep)
  sleep-Inv {p} i inv e h =
      let c = counts p i ready asleep e in
      let (open_, none_left) = turn-sleeps p.quit p.tasks h in
      record {
        awake = λ q. rw none_left (omega arith);
        closing = λ q. absurd (cc);
        left_open = λ q. omega (arith, c.leavers, inv.left_open q);
        left_empty = λ q. none_left;
      }

  pub leave-Inv :
      {p : ThreadPool T} (i : ℕ)
      → Inv p
      → get_elem? p.workers i ≡ some ready
      → turn p.quit p.tasks ≡ leaves
      → Inv (move p i finished)
  leave-Inv {p} i inv e h =
      let c = counts p i ready finished e in
      let (quits, none_left) = turn-leaves p.quit p.tasks h in
      record {
        awake = λ q. rw none_left (omega arith);
        closing = λ q. omega (arith, c.sleepers, inv.closing q);
        left_open = λ q. absurd (cc);
        left_empty = λ q. none_left;
      }

  pub take-Inv :
      {p : ThreadPool T} (i : ℕ) (t : T) (ts : List T)
      → Inv p
      → get_elem? p.workers i ≡ some ready
      → turn p.quit p.tasks ≡ takes t ts
      → Inv (record (move p i (running t)) { tasks = ts })
  take-Inv {p} i t ts inv e h =
      let c = counts p i ready (running t) e in
      let queue = turn-takes p.quit p.tasks h in
      let size : length p.tasks ≡ suc (length ts) = ap length queue in
      record {
        awake = λ q. omega (arith, c.readies, c.sleepers, inv.awake (omega (arith, c.sleepers)));
        closing = λ q. omega (arith, c.sleepers, inv.closing q);
        left_open = λ q. omega (arith, c.leavers, inv.left_open q);
        left_empty = λ q. absurd (cc (queue, inv.left_empty (omega (arith, c.leavers))));
      }

  pub finish-Inv :
      {p : ThreadPool T} (i : ℕ) (t : T)
      → Inv p
      → get_elem? p.workers i ≡ some (running t)
      → Inv (move p i ready)
  finish-Inv {p} i t inv e =
      let c = counts p i (running t) ready e in
      record {
        awake = λ q. omega (arith, c.readies, c.sleepers, inv.awake (omega (arith, c.sleepers)));
        closing = λ q. omega (arith, c.sleepers, inv.closing q);
        left_open = λ q. omega (arith, c.leavers, inv.left_open q);
        left_empty = λ q. inv.left_empty (omega (arith, c.leavers));
      }

  pub stir-Inv :
      {p : ThreadPool T} (i : ℕ)
      → Inv p
      → get_elem? p.workers i ≡ some asleep
      → Inv (move p i ready)
  stir-Inv {p} i inv e =
      let c = counts p i asleep ready e in
      record {
        awake = λ q. omega (arith, c.readies, c.sleepers, inv.awake (omega (arith, c.sleepers)));
        closing = λ q. absurd (omega (arith, c.sleepers, inv.closing q));
        left_open = λ q. omega (arith, c.leavers, inv.left_open q);
        left_empty = λ q. inv.left_empty (omega (arith, c.leavers));
      }
