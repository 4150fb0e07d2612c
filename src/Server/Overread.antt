-- ===== src/Server/Overread.antt =====
-- Which messages make `printf("%s")` in src/Server.cpp read past the receive buffer.
use mathlib.Core.Option
use mathlib.Core.List.{append-nil}
use online_chat_proj.Base.{
  ℕ, zero, suc, ◌-◌, ◌<◌, ◌≤◌, ◌≡◌, ◌↔◌, refl, ap, true, inl, inr, Option-cases, none, List, [],
  ◌∷◌, ◌++◌, arith, dec_lt,
}
use online_chat_proj.Base.Lists.{length, zeros, length-append}
use online_chat_proj.Base.Int.{ℤ, pos}
use online_chat_proj.Os.{Kernel, from_client, epollout}
use online_chat_proj.Connection.{Connection, recv_buffer_length, r_buffer_clear, set_event}
use online_chat_proj.Machine.{Machine, fault, unterminated}
use online_chat_proj.Machine.Object.{holding, load-holding, modify-holding}
use online_chat_proj.Epoll.Update.{update_watched}
use online_chat_proj.Server.{c_string, recv_callback}
use online_chat_proj.Server.Receive.{filled, Delivers, ends, chunk, recv_loop-filled}
use online_chat_proj.Server.Text.{NoZero, c_string-zeros}
use online_chat_proj.Server.Echo.{cleared}

pub c_string-none : (l : List ℕ) → NoZero l → c_string l ≡ none
unfolding c_string
c_string-none [] h = refl
c_string-none (zero ∷ bs) h = absurd (omega arith)
c_string-none (suc b ∷ bs) h = ap (Option.map (◌∷◌ (suc b))) (c_string-none bs h.1)

none-NoZero : (l : List ℕ) → c_string l ≡ none → NoZero l
unfolding c_string
none-NoZero [] e = tt
none-NoZero (zero ∷ bs) e = absurd (cc)
none-NoZero (suc b ∷ bs) e = elim (Option-cases (c_string bs)) [
  | inl q ↦ (omega arith, none-NoZero bs q)
  | inr (t, q) ↦ absurd (cc (rw q at e))
]

-- A message fills its buffer and has no zero byte.
abbrev pub Overlong : ℕ → List ℕ → Type 0
Overlong size bs = (length bs ≡ size) × NoZero bs

-- The rest of the buffer is zero: only such a message leaves no end of the text.
pub c_string-Overlong_iff :
    (size : ℕ) (bs : List ℕ)
    → length bs ≤ size
    → (c_string (bs ++ zeros (size - length bs)) ≡ none) ↔ Overlong size bs
unfolding zeros
c_string-Overlong_iff size bs le = (to, from)
  where
    to : c_string (bs ++ zeros (size - length bs)) ≡ none → Overlong size bs
    to e = elim (dec_lt (length bs) size) [
      | yes h ↦ absurd (cc (c_string-zeros bs (size - length bs) (omega arith), e))
      | no h ↦
          let full : size - length bs ≡ 0 = omega arith in
          (omega arith, none-NoZero bs (rw (full, append-nil bs) at e))
    ]

    from : Overlong size bs → c_string (bs ++ zeros (size - length bs)) ≡ none
    from (len, none_zero) =
        let full : size - length bs ≡ 0 = omega arith in
        rw (full, append-nil bs) (c_string-none bs none_zero)

module _ {W : Type 0} {K : Kernel W} {fd : ℤ} where
  -- No more is delivered than there is room for.
  pub length-Delivers :
      {room : ℕ} {w w' : W} {bs : List ℕ} → Delivers K fd room w bs w' → length bs ≤ room
  length-Delivers (ends q s) = omega arith
  length-Delivers (chunk {room} {w} {w'} {w''} {b} {new} {bs} q le d) =
      omega (arith, length-Delivers d, length-append (b ∷ new) bs)

module _ {W : Type 0} (K : Kernel W) (m : Machine W) (p : ℕ) (c : Connection) where
  -- At the start of a message, on a watched connection, whatever is delivered: recvCallback reads
  -- past its buffer exactly where the message fills the buffer and has no zero byte.
  pub recv_callback-overread_iff :
      (fuel : ℕ) {w w' : W} {bs : List ℕ}
      → c.rlen ≡ pos 0
      → c.in_epoll ≡ true
      → Delivers K c.fd recv_buffer_length w bs w'
      → recv_buffer_length < fuel
      → (recv_callback K fuel p (holding m w p c) ≡ fault unterminated)
        ↔ Overlong recv_buffer_length bs
  unfolding recv_callback set_event
  recv_callback-overread_iff fuel {w} {w'} {bs} e watched d enough =
      let buffer = bs ++ zeros (recv_buffer_length - length bs) in
      let (to, from) = c_string-Overlong_iff recv_buffer_length bs (length-Delivers d) in
      rw
        (
          modify-holding m w p c r_buffer_clear,
          cleared K m p c e,
          recv_loop-filled K fuel [] p m c d (omega arith) enough,
          load-holding m w' p (filled c bs),
        )
        (elim (Option-cases (c_string buffer)) [
          | inl q ↦ rw q ((λ h. to q), (λ h. refl))
          | inr (t, q) ↦
              rw
                (
                  q,
                  modify-holding m (K.print (from_client t) w') p (filled c bs)
                      (set_event epollout),
                  update_watched K m (K.print (from_client t) w') p
                      (set_event epollout (filled c bs)) watched,
                )
                ((λ h. cc), (λ h. cc (from h, q)))
        ])
