-- ===== src/Safety/Safely.antt =====
-- Runs that respect the object discipline. A run may end by `exit`; whether a buffer suffices for
-- what a peer sends is another question, which is asked of src/Server.cpp in Server/Faults.antt and
-- in Bounds.
use online_chat_proj.Machine.{
  Machine, Run, M, ok, exited, fault, out_of_fuel, out_of_bounds, unterminated, and_then,
}

pub data Safely {W A : Type 0} (P : A → Machine W → Type 0) : Run W A → Type 0 where
  returns : {a : A} {m : Machine W} → P a m → Safely P (ok a m)
  exits : {w : W} → Safely P (exited w)
  overruns : Safely P (fault out_of_bounds)
  overreads : Safely P (fault unterminated)
  unfinished : Safely P out_of_fuel

module _ {W A B : Type 0} {P : A → Machine W → Type 0} {Q : B → Machine W → Type 0} where
  pub bind :
      {r : Run W A} {k : A → M W B}
      → Safely P r
      → ((a : A) (m : Machine W) → P a m → Safely Q (k a m))
      → Safely Q (and_then r k)
  bind (returns h) next = next _ _ h
  bind exits next = exits
  bind overruns next = overruns
  bind overreads next = overreads
  bind unfinished next = unfinished

module _ {W A : Type 0} {P Q : A → Machine W → Type 0} where
  pub mono : {r : Run W A} → Safely P r → ((a : A) (m : Machine W) → P a m → Q a m) → Safely Q r
  mono (returns h) weaken = returns (weaken _ _ h)
  mono exits weaken = exits
  mono overruns weaken = overruns
  mono overreads weaken = overreads
  mono unfinished weaken = unfinished
