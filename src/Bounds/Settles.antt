-- ===== src/Bounds/Settles.antt =====
-- How a run can end that is safe, has fuel enough and stays within what a policy allows.
use Prim.Native.String.{String}
use online_chat_proj.Base.{
  ℕ, ◌≢◌, refl, Bool, true, false, if◌then◌else◌, List, Option-cases, none, inl, inr, ◌≡◌,
}
use online_chat_proj.Os.{Kernel}
use online_chat_proj.Machine.{
  Machine, M, Run, ok, exited, fault, out_of_fuel, out_of_bounds, unterminated, and_then,
}
use online_chat_proj.Log.{errif}
use online_chat_proj.Server.{c_string, terminated}
use online_chat_proj.Safety.Safely.{Safely}
use online_chat_proj.Bounds.{Policy}
use online_chat_proj.Bounds.Stays.{Stays}

-- A run that returns or ends the process, or, where `Overread` says so, uses a text that has no
-- end in its buffer.
pub data Outcome (Overread : Type 0) {W A : Type 0} (P : A → Machine W → Type 0)
    : Run W A → Type 0 where
  returned : {a : A} {m : Machine W} → P a m → Outcome Overread P (ok a m)
  ended : {w : W} → Outcome Overread P (exited w)
  overread : Overread → Outcome Overread P (fault unterminated)

-- The only fault is such a use.
abbrev pub Settles : {W A : Type 0} → (A → Machine W → Type 0) → Run W A → Type 0
Settles = Outcome (Unit {0})

-- There is no fault.
abbrev pub Succeeds : {W A : Type 0} → (A → Machine W → Type 0) → Run W A → Type 0
Succeeds = Outcome ⊥

pub settle :
    {W A : Type 0} {P Q : A → Machine W → Type 0} {V : Policy} {r : Run W A}
    → Safely P r
    → Stays V Q r
    → r ≢ out_of_fuel
    → ¬ V.Allowed out_of_bounds
    → Outcome (V.Allowed unterminated) (λ a m. P a m × Q a m) r
settle (Safely.returns p) (Stays.returns q) h never = returned (p, q)
settle Safely.exits Stays.exits h never = ended
settle Safely.overruns (Stays.faults a) h never = absurd (never a)
settle Safely.overreads (Stays.faults a) h never = overread a
settle Safely.unfinished Stays.unfinished h never = absurd (h refl)

-- An outcome of which no more is said.
abbrev pub Comes : Type 0 → {W A : Type 0} → Run W A → Type 0
Comes O = Outcome O (λ _ _. Unit {0})

module _ {O W : Type 0} where
  pub bind_with :
      {A B : Type 0} {P : A → Machine W → Type 0} {Q : B → Machine W → Type 0} {r : Run W A}
      {k : A → M W B}
      → Outcome O P r
      → ((a : A) (m : Machine W) → P a m → Outcome O Q (k a m))
      → Outcome O Q (and_then r k)
  bind_with (returned p) next = next _ _ p
  bind_with ended next = ended
  bind_with (overread o) next = overread o

  pub bind :
      {A B : Type 0} {Q : B → Machine W → Type 0} {r : Run W A} {k : A → M W B}
      → Comes O r
      → ((a : A) (m : Machine W) → Outcome O Q (k a m))
      → Outcome O Q (and_then r k)
  bind h next = bind_with h λ a m _. next a m

  pub if-Comes :
      {A : Type 0} (b : Bool) (x y : M W A) (m : Machine W)
      → Comes O (x m)
      → Comes O (y m)
      → Comes O ((if b then x else y) m)
  if-Comes true x y m h k = h
  if-Comes false x y m h k = k

  pub errif-Comes :
      (K : Kernel W) (b : Bool) (msg : String) (m : Machine W) → Comes O (errif K b msg m)
  unfolding errif
  errif-Comes K true msg m = ended
  errif-Comes K false msg m = returned tt

  pub c_string-Comes :
      (l : List ℕ) (m : Machine W) → (c_string l ≡ none → O) → Comes O (terminated (c_string l) m)
  c_string-Comes l m h = elim (Option-cases (c_string l)) [
    | inl e ↦ rw e (overread (h e))
    | inr (text, e) ↦ rw e (returned tt)
  ]

  pub Comes-ne-out_of_fuel : {A : Type 0} {r : Run W A} → Comes O r → r ≢ out_of_fuel
  Comes-ne-out_of_fuel (returned p) h = cc
  Comes-ne-out_of_fuel ended h = cc
  Comes-ne-out_of_fuel (overread o) h = cc
