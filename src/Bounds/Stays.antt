-- ===== src/Bounds/Stays.antt =====
-- Runs that meet no fault but those that a policy allows.
use online_chat_proj.Base.{
  ℕ, ◌≡◌, Bool, true, false, if◌then◌else◌, subst, sym, inl, inr, Option-cases,
}
use online_chat_proj.Connection.{Connection}
use online_chat_proj.Machine.{
  Machine, Run, M, ok, exited, fault, Fault, out_of_fuel, and_then, load, modify,
}
use online_chat_proj.Bounds.{Policy, InBuffer, Fits, Sound, AllFit-put}

pub data Stays (V : Policy) {W A : Type 0} (P : A → Machine W → Type 0) : Run W A → Type 0 where
  returns : {a : A} {m : Machine W} → P a m → Stays V P (ok a m)
  exits : {w : W} → Stays V P (exited w)
  faults : {e : Fault} → V.Allowed e → Stays V P (fault e)
  unfinished : Stays V P out_of_fuel

-- The objects fit after the run.
abbrev pub StaysFit : (V : Policy) → {W A : Type 0} → Run W A → Type 0
StaysFit V = Stays V (λ _ m. Sound V m)

module _ {V : Policy} {W A B : Type 0} {P : A → Machine W → Type 0}
    {Q : B → Machine W → Type 0} where
  pub bind :
      {r : Run W A} {k : A → M W B}
      → Stays V P r
      → ((a : A) (m : Machine W) → P a m → Stays V Q (k a m))
      → Stays V Q (and_then r k)
  bind (returns h) next = next _ _ h
  bind exits next = exits
  bind (faults h) next = faults h
  bind unfinished next = unfinished

pub if-Stays :
    {V : Policy} {W A : Type 0} {P : A → Machine W → Type 0} (b : Bool) (x y : M W A)
    (m : Machine W)
    → Stays V P (x m)
    → Stays V P (y m)
    → Stays V P ((if b then x else y) m)
if-Stays true x y m h k = h
if-Stays false x y m h k = k

module _ {V : Policy} {W : Type 0} (p : ℕ) (m : Machine W) (all : Sound V m) where
  pub load-Stays : Stays V (λ c m'. Fits V c × Sound V m') (load p m)
  unfolding load
  load-Stays = elim (Option-cases (m.heap p)) [
    | inl e ↦ rw e (faults V.dangles)
    | inr (c, e) ↦ rw e (returns (all.0 p c e, all))
  ]

  -- A method that leaves the lengths of its object in their bounds.
  pub modify-Stays :
      (f : Connection → Connection)
      → ((c : Connection) → Fits V c → Fits V (f c))
      → StaysFit V (modify p f m)
  unfolding modify
  modify-Stays f keeps =
      bind load-Stays
        λ c m1 (fits, all1). returns (AllFit-put m1.heap p all1.0 (keeps c fits), all1.1)

  -- A method that leaves the lengths and the receive buffer alone.
  pub set-Stays :
      (f : Connection → Connection)
      → ((c : Connection) → (f c).rlen ≡ c.rlen)
      → ((c : Connection) → (f c).wlen ≡ c.wlen)
      → ((c : Connection) → (f c).rbuffer ≡ c.rbuffer)
      → StaysFit V (modify p f m)
  set-Stays f r w b = modify-Stays f λ c fits. record {
    received = subst InBuffer (sym (r c)) fits.received;
    written = subst InBuffer (sym (w c)) fits.written;
    content = subst V.Good (sym (b c)) fits.content;
  }
