-- ===== src/Server/Text.antt =====
-- `strcpy` and `printf("%s")` read a buffer up to its first zero byte. What `sendCallback` sends is
-- what such a copy left in the send buffer.
use mathlib.Core.Option
use mathlib.Core.List.{append_assoc}
use online_chat_proj.Base.{
  ℕ, zero, suc, ◌+◌, ◌<◌, ◌≡◌, refl, ap, ◌∙◌, some, subst, Option-cases, inl, inr, List, [], ◌∷◌,
  ◌++◌, arith,
}
use online_chat_proj.Base.Lists.{
  length, take, drop, overwrite, take-append, take-add-append, zeros, length-append,
}
use online_chat_proj.Server.{c_string}

-- The bytes before the first zero.
unfoldable pub text : List ℕ → List ℕ
text [] = []
text (zero ∷ bs) = []
text (suc b ∷ bs) = suc b ∷ text bs

abbrev pub NoZero : List ℕ → Type 0
NoZero [] = Unit {0}
NoZero (b ∷ bs) = (0 < b) × NoZero bs

-- What the first `length bs` bytes of the send buffer are, once the text of `bs` was copied there.
unfoldable pub reply : List ℕ → List ℕ → List ℕ
reply wbuffer bs = take (length bs) (overwrite 0 (text bs ++ 0 ∷ []) wbuffer)

-- Before a buffer's zeros stands a text that ends.
pub c_string-zeros : (bs : List ℕ) (n : ℕ) → 0 < n → c_string (bs ++ zeros n) ≡ some (text bs)
unfolding c_string text zeros
c_string-zeros [] zero h = absurd (omega arith)
c_string-zeros [] (suc n) h = refl
c_string-zeros (zero ∷ bs) n h = refl
c_string-zeros (suc b ∷ bs) n h = ap (Option.map (◌∷◌ (suc b))) (c_string-zeros bs n h)

-- The text before the first zero has no zero.
pub c_string-NoZero : (buf : List ℕ) {old : List ℕ} → c_string buf ≡ some old → NoZero old
unfolding c_string
c_string-NoZero [] e = absurd (cc)
c_string-NoZero (zero ∷ bs) {old} e = let f : [] ≡ old = cc in subst NoZero f tt
c_string-NoZero (suc b ∷ bs) {old} e = elim (Option-cases (c_string bs)) [
  | inl n ↦ absurd (cc (rw n at e))
  | inr (rest, q) ↦
      let f : suc b ∷ rest ≡ old = cc (rw q at e) in
      subst NoZero f (omega arith, c_string-NoZero bs q)
]

text-append : (xs ys : List ℕ) → NoZero xs → text (xs ++ 0 ∷ ys) ≡ xs
unfolding text
text-append [] ys h = refl
text-append (zero ∷ xs) ys h = absurd (omega arith)
text-append (suc x ∷ xs) ys h = ap (◌∷◌ (suc x)) (text-append xs ys h.1)

pub text-NoZero : (bs : List ℕ) → NoZero bs → text bs ≡ bs
unfolding text
text-NoZero [] h = refl
text-NoZero (zero ∷ bs) h = absurd (omega arith)
text-NoZero (suc b ∷ bs) h = ap (◌∷◌ (suc b)) (text-NoZero bs h.1)

-- A message with no zero byte is copied whole.
pub reply-NoZero : (wbuffer bs : List ℕ) → NoZero bs → reply wbuffer bs ≡ bs
unfolding reply
reply-NoZero wbuffer bs h = rw (text-NoZero bs h, append_assoc) (take-append bs _)

-- Of a message with a zero byte only the part before it is copied. Behind it the reply holds what
-- the send buffer held before.
pub reply-zero :
    (wbuffer xs ys : List ℕ)
    → NoZero xs
    → reply wbuffer (xs ++ 0 ∷ ys) ≡ xs ++ 0 ∷ take (length ys) (drop (length xs + 1) wbuffer)
unfolding reply
reply-zero wbuffer xs ys h =
    rw (text-append xs ys h, length-append xs (0 ∷ ys), append_assoc)
      (take-add-append xs _ (length (0 ∷ ys))
        ∙ ap (λ n. xs ++ 0 ∷ take (length ys) (drop n wbuffer))
            (omega (arith, length-append xs (0 ∷ []))))
