-- ===== src/ClientApp/Exchange.antt =====
-- One round of the client of apps/client.cpp.
use online_chat_proj.Base.{
  ℕ, zero, suc, ◌-◌, ◌<◌, ◌≡◌, ◌⊎◌, inl, inr, refl, ap, fun_ext, some, List, [], ◌++◌, arith,
  if◌then◌else◌,
}
use online_chat_proj.Base.Lists.{length, zeros}
use online_chat_proj.Base.Int.{ℤ}
use online_chat_proj.Os.{Kernel, from_server}
use online_chat_proj.Machine.{Machine, M, ok, exited, pure, ◌>>=◌}
use online_chat_proj.Server.{c_string, stops}
use online_chat_proj.Server.Receive.{Delivers}
use online_chat_proj.Server.Text.{text, c_string-zeros}
use online_chat_proj.ServerApp.{buffer_length, Buffer, store_answer, receive_at, read_loop}
use online_chat_proj.ServerApp.Exchange.{at_world, holds, read_loop-holds}
use online_chat_proj.ClientApp.{Console, Sent, sent, broken, sending, answer_loop, exchange}

pub Sent-cases :
    {W : Type 0} (s : Sent W) → ((r : ℤ) × (w : W) × (s ≡ sent r w)) ⊎ ((w : W) × (s ≡ broken w))
Sent-cases (sent r w) = inl (r, w, refl)
Sent-cases (broken w) = inr (w, refl)

module _ {W : Type 0} (K : Kernel W) (T : Console W) where
  -- The client reads an answer as the server reads a message.
  pub answer_loop-read_loop :
      (fuel : ℕ) (fd : ℤ) (b : Buffer) → answer_loop K T fuel fd b ≡ read_loop K fuel fd b
  unfolding answer_loop read_loop
  answer_loop-read_loop zero fd b = refl
  answer_loop-read_loop (suc fuel) fd b =
      ap
        (λ (rest : Buffer → M W Buffer).
          receive_at K fd b.len >>= λ r. if stops r then pure b else rest (store_answer r b))
        (fun_ext λ c. answer_loop-read_loop fuel fd c)

  -- Where `fgets` leaves the text `line` in the buffer, `send` returns, and the server then answers `bs`, in any
  -- chunks, shorter than the buffer: a round returns, with `line` sent and the text of `bs` up to
  -- its first zero byte printed. The buffer holds `bs` after it.
  pub exchange_lem :
      (fuel : ℕ) (fd : ℤ) (m : Machine W) {w v w' : W} {r : ℤ} {before after line bs : List ℕ}
      → T.fgets before buffer_length m.world ≡ (after, w)
      → c_string after ≡ some line
      → T.send fd line w ≡ sent r v
      → Delivers K fd buffer_length v bs w'
      → length bs < buffer_length
      → buffer_length < fuel
      → exchange K T fuel fd before m
        ≡ ok
            (bs ++ zeros (buffer_length - length bs))
            (at_world m (K.print (from_server (text bs)) w'))
  unfolding exchange sending
  exchange_lem fuel fd m {w} {v} {w'} {r} {before} {after} {line} {bs} got ends takes d short
        enough =
      rw (
        got,
        ends,
        takes,
        answer_loop-read_loop fuel fd (holds []),
        read_loop-holds K m fd fuel [] d refl enough,
        c_string-zeros bs (buffer_length - length bs) (omega arith),
      )

  -- Where `send` does not return, the process ends in that round.
  pub exchange-broken :
      (fuel : ℕ) (fd : ℤ) (m : Machine W) {w w' : W} {before after line : List ℕ}
      → T.fgets before buffer_length m.world ≡ (after, w)
      → c_string after ≡ some line
      → T.send fd line w ≡ broken w'
      → exchange K T fuel fd before m ≡ exited w'
  unfolding exchange sending
  exchange-broken fuel fd m got ends breaks = rw (got, ends, breaks) refl
