-- ===== src/Base/Int.antt =====
-- The values of an `int`: file descriptors, return codes and lengths, which the code lets go below
-- zero. The names are the library's, over the native numbers.
use Prim.Native.Nat.{ℕ, suc, ◌+◌, ◌-◌}
use mathlib.Core.Path.{◌≡◌, sym, ◌∙◌, ap, fun_ext}
use mathlib.Core.Logic.{◌≢◌, ◌⊎◌, inl, inr}
use mathlib.Core.Bool.{Bool, true, false}
use native.Mathlib.Omega.{arith}
use online_chat_proj.Base.Tests.{leb, ◌==◌, if◌then◌else◌, Bool-cases}

-- `negsuc n` is -(n + 1).
pub data ℤ : Type 0 where
  pos : ℕ → ℤ
  negsuc : ℕ → ℤ

abbrev pub minus_one : ℤ
minus_one = negsuc 0

abbrev pub pos_part : ℤ → ℕ
pos_part (pos n) = n
pos_part (negsuc n) = 0

abbrev pub neg_part : ℤ → ℕ
neg_part (pos n) = 0
neg_part (negsuc n) = suc n

-- a - b, as an integer.
abbrev pub sub_ℕ : ℕ → ℕ → ℤ
sub_ℕ a b = if leb b a then pos (a - b) else negsuc (b - a - 1)

infixl 65 ◌+ℤ◌
abbrev pub ◌+ℤ◌ : ℤ → ℤ → ℤ
a +ℤ b = sub_ℕ (pos_part a + pos_part b) (neg_part a + neg_part b)

infix 50 ◌==ℤ◌
abbrev pub ◌==ℤ◌ : ℤ → ℤ → Bool
pos a ==ℤ pos b = a == b
pos a ==ℤ negsuc b = false
negsuc a ==ℤ pos b = false
negsuc a ==ℤ negsuc b = a == b

pub ==ℤ_refl : (a : ℤ) → (a ==ℤ a) ≡ true
==ℤ_refl (pos a) = ground arith
==ℤ_refl (negsuc a) = ground arith

==ℤ→eq : (a b : ℤ) → (a ==ℤ b) ≡ true → a ≡ b
==ℤ→eq a b h = ground arith

pub ==ℤ_false : (a b : ℤ) → a ≢ b → (a ==ℤ b) ≡ false
==ℤ_false a b h = ground arith

-- A map keyed by `int`, with one entry replaced.
abbrev pub update_ℤ {ℓ} : {A : Type ℓ} → (ℤ → A) → ℤ → A → ℤ → A
update_ℤ f k v j = if k ==ℤ j then v else f j

pub update_ℤ_self {ℓ} : {A : Type ℓ} (f : ℤ → A) (k : ℤ) (v : A) → update_ℤ f k v k ≡ v
update_ℤ_self f (pos k) v = ground arith
update_ℤ_self f (negsuc k) v = ground arith

pub update_ℤ-update_ℤ {ℓ} :
    {A : Type ℓ} (f : ℤ → A) (k : ℤ) (v w : A) → update_ℤ (update_ℤ f k v) k w ≡ update_ℤ f k w
update_ℤ-update_ℤ f k v w = fun_ext λ j. ground arith

pub update_ℤ_ne {ℓ} : {A : Type ℓ} (f : ℤ → A) (k j : ℤ) (v : A) → k ≢ j → update_ℤ f k v j ≡ f j
update_ℤ_ne f k j v h = ground arith

pub ℤ-cases : (a b : ℤ) → (a ≡ b) ⊎ (a ≢ b)
ℤ-cases a b = elim (Bool-cases (a ==ℤ b)) [
  | inl e ↦ inl (==ℤ→eq a b e)
  | inr e ↦ inr (λ f. cc (e, ==ℤ_refl a, ap (λ x. a ==ℤ x) f))
]

pub update_ℤ_same {ℓ} :
    {A : Type ℓ} (f : ℤ → A) (k j : ℤ) {v : A} → f k ≡ v → f j ≡ update_ℤ f k v j
update_ℤ_same f k j {v} e = elim (ℤ-cases k j) [
  | inl h ↦ sym (ap f h) ∙ e ∙ sym (update_ℤ_self f k v) ∙ ap (update_ℤ f k v) h
  | inr h ↦ sym (update_ℤ_ne f k j v h)
]
