-- ===== src/Machine.antt =====
-- Running code: the system's state, the `Connection` objects in memory, and the one `Epoll` object
-- (inc/Epoll.hpp). A computation returns, calls `exit`, or runs into undefined behaviour.
pub mod Object
use online_chat_proj.Base.{ℕ, suc, Option, none, some, update}
use online_chat_proj.Base.Int.{ℤ}
use online_chat_proj.Connection.{Connection}

-- class `Epoll`: `connMap` maps a descriptor to an address. A missing entry and a null pointer
-- read alike, since `operator[]` inserts a null pointer. The array `events` only carries the result
-- of one `epoll_wait`.
pub record Epoll : Type 0 where
  pub epfd : ℤ
  pub conn_map : ℤ → Option ℕ

-- Addresses from `next` on are unused, and `junk` is what their storage holds. An address is never given out twice, so that each use of a
-- deleted object shows.
pub record Machine (W : Type 0) : Type 0 where
  pub world : W
  pub heap : ℕ → Option Connection
  pub junk : ℕ → Connection
  pub next : ℕ
  pub epoll : Epoll

pub data Fault : Type 0 where
  null_pointer dangling empty_function : Fault
  out_of_bounds unterminated missing_return : Fault

pub data Run (W A : Type 0) : Type 0 where
  ok : A → Machine W → Run W A
  exited : W → Run W A
  fault : Fault → Run W A
  out_of_fuel : Run W A

abbrev pub M : Type 0 → Type 0 → Type 0
M W A = Machine W → Run W A

module _ {W A : Type 0} where
  abbrev pub pure : A → M W A
  pure a m = ok a m

  abbrev pub fail : Fault → M W A
  fail e m = fault e

module _ {W A B : Type 0} where
  abbrev pub and_then : Run W A → (A → M W B) → Run W B
  and_then (ok a m) k = k a m
  and_then (exited w) k = exited w
  and_then (fault e) k = fault e
  and_then out_of_fuel k = out_of_fuel

  infixl 5 ◌>>=◌ ◌>>◌
  abbrev pub ◌>>=◌ : M W A → (A → M W B) → M W B
  ◌>>=◌ m k s = and_then (m s) k

  abbrev pub ◌>>◌ : M W A → M W B → M W B
  ◌>>◌ m k s = and_then (m s) (λ _. k)

module _ {W : Type 0} where
  abbrev pub skip : M W (Unit {0})
  skip m = ok tt m

  -- A call of the system, with a result and without one.
  abbrev pub syscall : {A : Type 0} → (W → A × W) → M W A
  syscall f m = ok (f m.world).0 (record m { world = (f m.world).1 })

  abbrev pub command : (W → W) → M W (Unit {0})
  command f m = ok tt (record m { world = f m.world })

  -- `->` on a pointer that may be null.
  abbrev pub non_null : Option ℕ → M W ℕ
  non_null none m = fault null_pointer
  non_null (some p) m = ok p m

  abbrev pub found : Option Connection → M W Connection
  found none m = fault dangling
  found (some c) m = ok c m

  unfoldable pub load : ℕ → M W Connection
  load p m = found (m.heap p) m

  abbrev pub put : ℕ → Option Connection → M W (Unit {0})
  put p c m = ok tt (record m { heap = update m.heap p c })

  -- A method that changes its object.
  unfoldable pub modify : ℕ → (Connection → Connection) → M W (Unit {0})
  unfolding load
  modify p f = load p >>= λ c. put p (some (f c))

  -- `new Connection(...)`: the constructor runs on the storage at an unused address.
  unfoldable pub alloc : (Connection → Connection) → M W ℕ
  alloc init m =
      ok m.next
        (record m { heap = update m.heap m.next (some (init (m.junk m.next))); next = suc m.next })
