-- ===== src/GaussConnector/Commands.antt =====
-- What `insert` leaves in the caller's buffer; `update` and `omit` have the same text.
use online_chat_proj.Base.{
  ℕ, zero, suc, ◌+◌, ◌<◌, ◌≤◌, ◌≡◌, refl, ap, ◌∙◌, Bool, true, false, none, some, List, [], ◌∷◌,
  ◌++◌, arith, ltb, ◌↔◌, dec_lt, Bool-cases, inl, inr,
}
use online_chat_proj.Base.Lists.{length, drop, length-append, drop-add-append}
use online_chat_proj.Base.Int.{minus_one}
use online_chat_proj.Machine.{out_of_bounds}
use online_chat_proj.Server.{c_string}
use online_chat_proj.Server.Text.{NoZero}
use online_chat_proj.GaussConnector.{
  Libpq, GaussConnector, done, faulted, insert, update, omit, is_command_ok, strcat,
}

pub c_string-append : (xs ys : List ℕ) → NoZero xs → c_string (xs ++ 0 ∷ ys) ≡ some xs
unfolding c_string
c_string-append [] ys h = refl
c_string-append (zero ∷ xs) ys h = absurd (omega arith)
c_string-append (suc x ∷ xs) ys h = rw (c_string-append xs ys h.1) refl

fits :
    (old rest msg : List ℕ)
    → length msg ≤ length rest
    → ltb (length old + length msg) (length (old ++ 0 ∷ rest)) ≡ true
fits old rest msg le = rw (length-append old (0 ∷ rest)) (ground arith)

overflows :
    (old rest msg : List ℕ)
    → length rest < length msg
    → ltb (length old + length msg) (length (old ++ 0 ∷ rest)) ≡ false
overflows old rest msg lt = rw (length-append old (0 ∷ rest)) (ground arith)

behind :
    (old rest msg : List ℕ)
    → drop (length old + length msg + 1) (old ++ 0 ∷ rest) ≡ drop (length msg) rest
behind old rest msg =
    ap (λ (n : ℕ). drop n (old ++ 0 ∷ rest)) (omega arith)
    ∙ drop-add-append old (0 ∷ rest) (suc (length msg))

strcat-room :
    (old rest msg : List ℕ)
    → NoZero old
    → length msg ≤ length rest
    → strcat (old ++ 0 ∷ rest) msg ≡ some (old ++ (msg ++ 0 ∷ drop (length msg) rest))
unfolding strcat
strcat-room old rest msg h le =
    rw (c_string-append old rest h, fits old rest msg le)
      (ap (λ (l : List ℕ). some (old ++ (msg ++ 0 ∷ l))) (behind old rest msg))

strcat-no_room :
    (old rest msg : List ℕ)
    → NoZero old
    → length rest < length msg
    → strcat (old ++ 0 ∷ rest) msg ≡ none
unfolding strcat
strcat-no_room old rest msg h lt = rw (c_string-append old rest h, overflows old rest msg lt) refl

module _ {W C R : Type 0} (L : Libpq W C R) where
  -- What the server answers, as the commands look at it.
  abbrev pub answer : List ℕ → GaussConnector C R → W → R × W
  answer cmd g w = L.exec g.conn cmd w

  abbrev pub message : List ℕ → GaussConnector C R → W → List ℕ
  message cmd g w = L.error_message g.conn (answer cmd g w).1

  abbrev pub is_ok : List ℕ → GaussConnector C R → W → Bool
  is_ok cmd g w = is_command_ok (L.result_status (answer cmd g w).0 (answer cmd g w).1)

  -- A command that fails, with a buffer that holds the text `old` and has room for the server's
  -- message behind it: the code is -1, the message stands behind the text, and the result is cleared.
  insert-appends :
      (cmd old rest : List ℕ) (g : GaussConnector C R) (w : W)
      → is_ok cmd g w ≡ false
      → NoZero old
      → length (message cmd g w) ≤ length rest
      → insert L cmd (some (old ++ 0 ∷ rest)) g w
        ≡ done (record {
          code = minus_one;
          connector = record g { res = some (answer cmd g w).0 };
          buffer = some (old ++ (message cmd g w ++ 0 ∷ drop (length (message cmd g w)) rest));
          world = L.clear (answer cmd g w).0 (answer cmd g w).1;
        })
  unfolding insert
  insert-appends cmd old rest g w h z le = rw (h, strcat-room old rest (message cmd g w) z le) refl

  -- The same with no room for the message: all three commands write past the end of the buffer.
  commands-overflow :
      (cmd old rest : List ℕ) (g : GaussConnector C R) (w : W)
      → is_ok cmd g w ≡ false
      → NoZero old
      → length rest < length (message cmd g w)
      → (insert L cmd (some (old ++ 0 ∷ rest)) g w ≡ faulted out_of_bounds)
        × (update L cmd (some (old ++ 0 ∷ rest)) g w ≡ faulted out_of_bounds)
        × (omit L cmd (some (old ++ 0 ∷ rest)) g w ≡ faulted out_of_bounds)
  unfolding insert update omit
  commands-overflow cmd old rest g w h z lt =
      let e = strcat-no_room old rest (message cmd g w) z lt in
      (rw (h, e) refl, rw (h, e) refl, rw (h, e) refl)

  -- The command fails, and its message is longer than the room `rest` behind the text.
  abbrev pub Overflows : List ℕ → List ℕ → GaussConnector C R → W → Type 0
  Overflows cmd rest g w = (is_ok cmd g w ≡ false) × (length rest < length (message cmd g w))

  -- With a buffer that holds the text `old`, a command writes past the end of the buffer exactly
  -- where it fails and the server's message is longer than the room behind the text; and this holds
  -- of all three commands.
  pub commands-overflow_iff :
      (cmd old rest : List ℕ) (g : GaussConnector C R) (w : W)
      → NoZero old
      → ((insert L cmd (some (old ++ 0 ∷ rest)) g w ≡ faulted out_of_bounds)
          ↔ Overflows cmd rest g w)
        × ((update L cmd (some (old ++ 0 ∷ rest)) g w ≡ faulted out_of_bounds)
            ↔ Overflows cmd rest g w)
        × ((omit L cmd (some (old ++ 0 ∷ rest)) g w ≡ faulted out_of_bounds)
            ↔ Overflows cmd rest g w)
  unfolding insert update omit
  commands-overflow_iff cmd old rest g w z = (iff, iff, iff)
    where
      iff :
          (insert L cmd (some (old ++ 0 ∷ rest)) g w ≡ faulted out_of_bounds)
          ↔ Overflows cmd rest g w
      iff = elim (Bool-cases (is_ok cmd g w)) [
        | inl e ↦ rw e ((λ h. cc), (λ (f, lt). cc f))
        | inr e ↦ elim (dec_lt (length rest) (length (message cmd g w))) [
          | yes lt ↦ ((λ h. (e, lt)), (λ f. (commands-overflow cmd old rest g w e z lt).0))
          | no le ↦
              let room = insert-appends cmd old rest g w e z (omega arith) in
              ((λ h. cc (h, room)), (λ (f, lt). absurd (le lt)))
        ]
      ]
