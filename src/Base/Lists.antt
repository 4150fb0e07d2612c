-- ===== src/Base/Lists.antt =====
-- Lists measured by native numbers, under the library's names; the buffers of the code are lists.
use Prim.Native.Nat.{ℕ, zero, suc, ◌+◌, ◌-◌, ◌≤◌, ◌<◌}
use mathlib.Core.Path.{◌≡◌, refl, ap}
use mathlib.Core.Option.{Option, none, some}
use native.Mathlib.Decide.{dec_lt}
use mathlib.Core.List.{List, [], ◌∷◌, ◌++◌, append_assoc}
use native.Mathlib.Nat.{zero-add, suc-add, sub-zero, zero-sub, suc-sub-suc}
use native.Mathlib.Omega.{arith}

module _ {ℓ} {A : Type ℓ} where
  abbrev pub length : List A → ℕ
  length [] = 0
  length (x ∷ xs) = suc (length xs)

  abbrev pub take : ℕ → List A → List A
  take zero xs = []
  take (suc n) [] = []
  take (suc n) (x ∷ xs) = x ∷ take n xs

  abbrev pub drop : ℕ → List A → List A
  drop zero xs = xs
  drop (suc n) [] = []
  drop (suc n) (x ∷ xs) = drop n xs

  abbrev pub replicate : ℕ → A → List A
  replicate zero a = []
  replicate (suc n) a = a ∷ replicate n a

  pub length-append : (xs ys : List A) → length (xs ++ ys) ≡ length xs + length ys
  length-append [] ys = omega arith
  length-append (x ∷ xs) ys = omega (arith, length-append xs ys)

  pub length-replicate : (n : ℕ) (a : A) → length (replicate n a) ≡ n
  length-replicate zero a = refl
  length-replicate (suc n) a = ap suc (length-replicate n a)

  pub length-drop : (n : ℕ) (xs : List A) → length (drop n xs) ≡ length xs - n
  length-drop zero xs = omega arith
  length-drop (suc n) [] = omega arith
  length-drop (suc n) (x ∷ xs) = omega (arith, length-drop n xs)

  drop-append : (xs ys : List A) → drop (length xs) (xs ++ ys) ≡ ys
  drop-append [] ys = refl
  drop-append (x ∷ xs) ys = drop-append xs ys

  pub take-append : (xs ys : List A) → take (length xs) (xs ++ ys) ≡ xs
  take-append [] ys = refl
  take-append (x ∷ xs) ys = ap (◌∷◌ x) (take-append xs ys)

  pub drop-add-append : (xs ys : List A) (k : ℕ) → drop (length xs + k) (xs ++ ys) ≡ drop k ys
  drop-add-append [] ys k = rw zero-add
  drop-add-append (x ∷ xs) ys k = rw (suc-add (length xs) k) (drop-add-append xs ys k)

  pub take-add-append : (xs ys : List A) (k : ℕ) → take (length xs + k) (xs ++ ys) ≡ xs ++ take k ys
  take-add-append [] ys k = rw zero-add
  take-add-append (x ∷ xs) ys k = rw (suc-add (length xs) k) (ap (◌∷◌ x) (take-add-append xs ys k))

  drop-replicate : (k n : ℕ) (a : A) → drop k (replicate n a) ≡ replicate (n - k) a
  drop-replicate zero n a = rw sub-zero
  drop-replicate (suc k) zero a = rw zero-sub
  drop-replicate (suc k) (suc n) a = rw suc-sub-suc (drop-replicate k n a)

  -- The bytes of `xs` stored over `buf` from position `at` on.
  abbrev pub overwrite : ℕ → List A → List A → List A
  overwrite n xs buf = take n buf ++ (xs ++ drop (n + length xs) buf)

  -- New bytes go behind the ones that are there.
  pub overwrite_end :
      (xs ys buf : List A)
      → overwrite (length xs) ys (xs ++ buf) ≡ (xs ++ ys) ++ drop (length ys) buf
  overwrite_end xs ys buf =
      rw (take-append xs buf, drop-add-append xs buf (length ys), append_assoc)

-- `memset(buf, 0, n)`. It stays shut, so that no proof writes out a whole buffer.
unfoldable pub zeros : ℕ → List ℕ
zeros n = replicate n 0

length-zeros : (n : ℕ) → length (zeros n) ≡ n
unfolding zeros
length-zeros n = length-replicate n 0

pub drop-zeros : (k n : ℕ) → drop k (zeros n) ≡ zeros (n - k)
unfolding zeros
drop-zeros k n = drop-replicate k n 0

module _ {ℓ} {A : Type ℓ} where
  abbrev pub get_elem? : List A → ℕ → Option A
  get_elem? [] i = none
  get_elem? (x ∷ xs) zero = some x
  get_elem? (x ∷ xs) (suc i) = get_elem? xs i

  -- A write out of bounds changes nothing.
  abbrev pub set : List A → ℕ → A → List A
  set [] i v = []
  set (x ∷ xs) zero v = v ∷ xs
  set (x ∷ xs) (suc i) v = x ∷ set xs i v

  pub length-set : (xs : List A) (i : ℕ) (v : A) → length (set xs i v) ≡ length xs
  length-set [] i v = refl
  length-set (x ∷ xs) zero v = refl
  length-set (x ∷ xs) (suc i) v = ap suc (length-set xs i v)

  pub get_elem?-zero : (xs : List A) → 0 < length xs → (x : A) × (get_elem? xs 0 ≡ some x)
  get_elem?-zero [] h = absurd (omega arith)
  get_elem?-zero (x ∷ xs) h = (x, refl)

-- The sum of the weights of a list.
module _ {ℓ} {A : Type ℓ} (weight : A → ℕ) where
  unfoldable pub total : List A → ℕ
  total [] = 0
  total (x ∷ xs) = weight x + total xs

  pub total-set :
      (xs : List A) (i : ℕ) (a b : A)
      → get_elem? xs i ≡ some a
      → total (set xs i b) + weight a ≡ total xs + weight b
  unfolding total
  total-set [] i a b h = absurd (cc)
  total-set (x ∷ xs) zero a b h = let e : weight x ≡ weight a = cc in omega arith
  total-set (x ∷ xs) (suc i) a b h = omega (arith, total-set xs i a b h)

  pub total-member : (xs : List A) (i : ℕ) (a : A) → get_elem? xs i ≡ some a → weight a ≤ total xs
  unfolding total
  total-member [] i a h = absurd (cc)
  total-member (x ∷ xs) zero a h = let e : weight x ≡ weight a = cc in omega arith
  total-member (x ∷ xs) (suc i) a h = omega (arith, total-member xs i a h)

  pub total-replicate_zero : (n : ℕ) (a : A) → weight a ≡ 0 → total (replicate n a) ≡ 0
  unfolding total
  total-replicate_zero zero a h = refl
  total-replicate_zero (suc n) a h = omega (arith, h, total-replicate_zero n a h)

  -- A positive sum has a member with a positive weight.
  pub total-pos :
      (xs : List A) → 0 < total xs → (i : ℕ) × (a : A) × (get_elem? xs i ≡ some a) × (0 < weight a)
  unfolding total
  total-pos [] h = absurd (omega arith)
  total-pos (x ∷ xs) h = elim (dec_lt 0 (weight x)) [
    | yes q ↦ (0, x, refl, q)
    | no q ↦ let (i, a, e, q') = total-pos xs (omega arith) in (suc i, a, e, q')
  ]
