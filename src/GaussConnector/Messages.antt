-- ===== src/GaussConnector/Messages.antt =====
-- The caller's buffer over several commands of src/opengauss/GaussConnector.cpp that fail.
use mathlib.Core.List.{append-nil, append_assoc}
use online_chat_proj.Base.{
  ℕ, ◌+◌, ◌≡◌, refl, sym, ap, ◌∙◌, some, List, [], ◌∷◌, ◌++◌, Bool-cases, inl, inr, arith, ltb,
}
use online_chat_proj.Base.Lists.{length, drop, length-append, length-drop}
use online_chat_proj.Base.Int.{minus_one}
use online_chat_proj.Server.{c_string}
use online_chat_proj.Server.Text.{NoZero, c_string-NoZero}
use online_chat_proj.GaussConnector.{Libpq, GaussConnector, Reply, done, insert, strcat}
use online_chat_proj.GaussConnector.Commands.{c_string-append}
use online_chat_proj.GaussConnector.Calls.{Call, Call-insert}

NoZero-append : (xs ys : List ℕ) → NoZero xs → NoZero ys → NoZero (xs ++ ys)
NoZero-append [] ys h k = k
NoZero-append (x ∷ xs) ys h k = (h.0, NoZero-append xs ys h.1 k)

-- What a `strcat` that stays in the buffer leaves there.
strcat-text :
    (buf msg : List ℕ) {old buf' : List ℕ}
    → c_string buf ≡ some old
    → NoZero msg
    → strcat buf msg ≡ some buf'
    → (c_string buf' ≡ some (old ++ msg)) × (length buf' ≡ length buf)
unfolding strcat
strcat-text buf msg {old} {buf'} e z s =
    elim (Bool-cases (ltb (length old + length msg) (length buf))) [
      | inr full ↦ absurd (cc (rw (e, full) at s))
      | inl room ↦
          let rest = drop (length old + length msg + 1) buf in
          let f : old ++ (msg ++ 0 ∷ rest) ≡ buf' = cc (rw (e, room) at s) in
          (
            ap c_string (sym f ∙ sym (append_assoc old msg (0 ∷ rest)))
                ∙ c_string-append (old ++ msg) rest
                    (NoZero-append old msg (c_string-NoZero buf e) z),
            ground (
              arith,
              ap length f,
              room,
              length-append old (msg ++ 0 ∷ rest),
              length-append msg (0 ∷ rest),
              length-drop (length old + length msg + 1) buf,
            ),
          )
    ]

module _ {W C R : Type 0} (L : Libpq W C R) where
  -- Commands that all fail, one after the other on the same buffer, and the messages that the server
  -- has for them.
  pub data Failures (g : GaussConnector C R) (w : W) (buf : List ℕ)
      : List ℕ → GaussConnector C R → W → List ℕ → Type 0 where
    unchanged : Failures g w buf [] g w buf
    fails :
        {msgs : List ℕ} {h : GaussConnector C R} {v : W} {now now' : List ℕ} (cmd : List ℕ)
        {r : Reply W C R}
        → Failures g w buf msgs h v now
        → Call L cmd (some now) h v r
        → r.code ≡ minus_one
        → r.buffer ≡ some now'
        → Failures g w buf
            (msgs ++ L.error_message h.conn (L.exec h.conn cmd v).1)
            r.connector
            r.world
            now'

  insert-failed :
      (cmd buf : List ℕ) (g : GaussConnector C R) (w : W) {r : Reply W C R} {buf' : List ℕ}
      → insert L cmd (some buf) g w ≡ done r
      → r.code ≡ minus_one
      → r.buffer ≡ some buf'
      → strcat buf (L.error_message g.conn (L.exec g.conn cmd w).1) ≡ some buf'
  unfolding insert
  insert-failed cmd buf g w {r} {buf'} e c b = ground arith

  -- The messages of commands that fail one after the other, and have room in the buffer, stand one
  -- after the other behind the text that was there: no command starts the buffer anew.
  pub messages_collect :
      ((c : C) (w : W) → NoZero (L.error_message c w))
      → {g : GaussConnector C R} {w : W} {buf msgs : List ℕ} {h : GaussConnector C R} {v : W}
        {buf' old : List ℕ}
      → c_string buf ≡ some old
      → Failures g w buf msgs h v buf'
      → (c_string buf' ≡ some (old ++ msgs)) × (length buf' ≡ length buf)
  messages_collect texts {old} e unchanged = (rw (append-nil old) e, refl)
  messages_collect texts {old} e (fails {msgs} {h} {v} {now} {now'} cmd {r} f call c b) =
      let (text, size) = messages_collect texts e f in
      let msg = L.error_message h.conn (L.exec h.conn cmd v).1 in
      let (text', size') =
        strcat-text now msg text (texts h.conn (L.exec h.conn cmd v).1)
          (insert-failed cmd now h v (Call-insert L call) c b) in
      (text' ∙ ap (λ (l : List ℕ). some l) (append_assoc old msgs msg), size' ∙ size)
