-- ===== src/Server/Receive.antt =====
-- The receive loop of `recvCallback`: what it puts into the buffer.
use mathlib.Core.List.{append-nil, append_assoc}
use online_chat_proj.Base.{
  ℕ, zero, suc, ◌+◌, ◌-◌, ◌≤◌, ◌<◌, ◌≡◌, ap, ◌∙◌, true, List, [], ◌∷◌, ◌++◌, arith, leb,
}
use online_chat_proj.Base.Lists.{
  length, zeros, overwrite, overwrite_end, length-append, drop, drop-zeros,
}
use online_chat_proj.Base.Int.{ℤ, pos, ◌+ℤ◌}
use online_chat_proj.Os.{Kernel, Received, bytes}
use online_chat_proj.Connection.{Connection, recv_buffer_length}
use online_chat_proj.Machine.{Machine, ok}
use online_chat_proj.Machine.Object.{holding, load-holding, modify-holding}
use online_chat_proj.Server.{stops, store_received, recv_at, recv_loop}

-- The connection with `bs` at the start of a receive buffer that is zero behind it.
abbrev pub filled : Connection → List ℕ → Connection
filled c bs = record c {
  rbuffer = bs ++ zeros (recv_buffer_length - length bs);
  rlen = pos (length bs);
}

store_received-filled :
    (c : Connection) (bs : List ℕ) (b : ℕ) (new : List ℕ)
    → store_received (bytes (b ∷ new)) (filled c bs) ≡ filled c (bs ++ b ∷ new)
unfolding store_received
store_received-filled c bs b new = rw (buffer, total)
  where
    room : ℕ
    room = recv_buffer_length - length bs

    total : (pos (length bs) +ℤ pos (length (b ∷ new))) ≡ pos (length (bs ++ b ∷ new))
    total = ground (arith, length-append bs (b ∷ new))

    behind :
        drop (length (b ∷ new)) (zeros room) ≡ zeros (recv_buffer_length - length (bs ++ b ∷ new))
    behind =
        drop-zeros (length (b ∷ new)) room ∙ ap zeros (omega (arith, length-append bs (b ∷ new)))

    buffer :
        overwrite (length bs) (b ∷ new) (bs ++ zeros room)
        ≡ (bs ++ b ∷ new) ++ zeros (recv_buffer_length - length (bs ++ b ∷ new))
    buffer = overwrite_end bs (b ∷ new) (zeros room) ∙ ap (◌++◌ (bs ++ b ∷ new)) behind

module _ {W : Type 0} (K : Kernel W) (fd : ℤ) where
  -- From state `w`, with `room` bytes of the buffer left, the calls of `recv` hand over `bs` and
  -- then end the loop, in state `w'`: at the end of the stream, or where there is nothing to read.
  pub data Delivers : ℕ → W → List ℕ → W → Type 0 where
    ends :
        {room : ℕ} {w w' : W} {r : Received}
        → K.recv fd room w ≡ (r, w')
        → stops r ≡ true
        → Delivers room w [] w'
    chunk :
        {room : ℕ} {w w' w'' : W} {b : ℕ} {new bs : List ℕ}
        → K.recv fd room w ≡ (bytes (b ∷ new), w')
        → length (b ∷ new) ≤ room
        → Delivers (room - length (b ∷ new)) w' bs w''
        → Delivers room w ((b ∷ new) ++ bs) w''

-- On every descriptor and in every state, what `recv` hands over before the loop ends is shorter
-- than the buffer, of `size` bytes.
abbrev pub Brief : {W : Type 0} → Kernel W → ℕ → Type 0
Brief {W} K size =
    (fd : ℤ) (w : W) → (bs : List ℕ) × (w' : W) × Delivers K fd size w bs w' × (length bs < size)

module _ {W : Type 0} (K : Kernel W) where
  pub recv_at-filled :
      (fd : ℤ) (room n : ℕ) (m : Machine W)
      → room + n ≡ recv_buffer_length
      → recv_at K fd (pos n) m
        ≡ ok (K.recv fd room m.world).0 (record m { world = (K.recv fd room m.world).1 })
  unfolding recv_at
  recv_at-filled fd room n m e =
      let fits : leb n recv_buffer_length ≡ true = ground arith in
      let left : recv_buffer_length - n ≡ room = omega arith in rw (fits, left)

  -- With more fuel than room the loop ends, and what was delivered stands behind what was there.
  pub recv_loop-filled :
      (fuel : ℕ) {room : ℕ} {w w' : W} {bs : List ℕ} (got : List ℕ) (p : ℕ) (m : Machine W)
      (c : Connection)
      → Delivers K c.fd room w bs w'
      → room + length got ≡ recv_buffer_length
      → room < fuel
      → recv_loop K fuel p (holding m w p (filled c got))
        ≡ ok tt (holding m w' p (filled c (got ++ bs)))
  unfolding recv_loop
  recv_loop-filled zero got p m c d n h = absurd (omega arith)
  recv_loop-filled (suc fuel) {room} {w} got p m c (ends q s) n h = rw (
    load-holding m w p (filled c got),
    recv_at-filled c.fd room (length got) (holding m w p (filled c got)) n,
    q,
    s,
    append-nil got,
  )
  recv_loop-filled (suc fuel) {room} {w} got p m c (chunk {w'} {b} {new} {bs} q le d) n h =
      rw
        (
          load-holding m w p (filled c got),
          recv_at-filled c.fd room (length got) (holding m w p (filled c got)) n,
          q,
          modify-holding m w' p (filled c got) (store_received (bytes (b ∷ new))),
          store_received-filled c got b new,
          ← append_assoc got (b ∷ new) bs,
        )
        (recv_loop-filled fuel (got ++ b ∷ new) p m c d (omega (arith, length-append got (b ∷ new)))
          (omega arith))
