-- ===== src/Server/Interrupt.antt =====
-- `recvCallback` of src/Server.cpp where `recv` fails in the middle of a message, and the next call
-- succeeds again: by EINTR, for one.
use mathlib.Core.List.{append_assoc}
use online_chat_proj.Base.{
  ℕ, suc, ◌+◌, ◌-◌, ◌≤◌, ◌<◌, ◌≡◌, refl, ap, ◌∙◌, false, List, [], ◌∷◌, ◌++◌, arith,
}
use online_chat_proj.Base.Lists.{
  length, zeros, overwrite, overwrite_end, length-append, drop, drop-zeros,
}
use online_chat_proj.Base.Int.{ℤ, pos, ◌+ℤ◌, minus_one}
use online_chat_proj.Os.{Kernel, bytes, failed, Errno, would_block}
use online_chat_proj.Connection.{Connection, recv_buffer_length}
use online_chat_proj.Machine.{Machine, ok}
use online_chat_proj.Machine.Object.{holding, load-holding, modify-holding}
use online_chat_proj.Server.{store_received, recv_loop}
use online_chat_proj.Server.Receive.{filled, Delivers, recv_at-filled, recv_loop-filled}

-- The connection after the failed call: the bytes are in the buffer, but the last is not counted.
abbrev pub uncounted : Connection → List ℕ → ℕ → Connection
uncounted c got x = record c {
  rbuffer = (got ++ x ∷ []) ++ zeros (recv_buffer_length - length (got ++ x ∷ []));
  rlen = pos (length got);
}

store_received-failed :
    (c : Connection) (got : List ℕ) (x : ℕ) (e : Errno)
    → store_received (failed e) (filled c (got ++ x ∷ [])) ≡ uncounted c got x
unfolding store_received
store_received-failed c got x e =
    let len : (pos (length (got ++ x ∷ [])) +ℤ minus_one) ≡ pos (length got) =
      ground (arith, length-append got (x ∷ [])) in
    ap (λ (n : ℤ). record (uncounted c got x) { rlen = n }) len

-- The next bytes go over the one that is not counted.
store_received-uncounted :
    (c : Connection) (got : List ℕ) (x b : ℕ) (new : List ℕ)
    → store_received (bytes (b ∷ new)) (uncounted c got x) ≡ filled c (got ++ b ∷ new)
unfolding store_received
store_received-uncounted c got x b new = rw (buffer, total) refl
  where
    room : ℕ
    room = recv_buffer_length - length (got ++ x ∷ [])

    total : (pos (length got) +ℤ pos (length (b ∷ new))) ≡ pos (length (got ++ b ∷ new))
    total = ground (arith, length-append got (b ∷ new))

    behind :
        drop (length (b ∷ new)) (x ∷ zeros room)
        ≡ zeros (recv_buffer_length - length (got ++ b ∷ new))
    behind =
        drop-zeros (length new) room
        ∙ ap zeros (omega (arith, length-append got (b ∷ new), length-append got (x ∷ [])))

    buffer :
        overwrite (length got) (b ∷ new) ((got ++ x ∷ []) ++ zeros room)
        ≡ (got ++ b ∷ new) ++ zeros (recv_buffer_length - length (got ++ b ∷ new))
    buffer =
        ap (overwrite (length got) (b ∷ new)) (append_assoc got (x ∷ []) (zeros room))
        ∙ overwrite_end got (b ∷ new) (x ∷ zeros room)
        ∙ ap (◌++◌ (got ++ b ∷ new)) behind

module _ {W : Type 0} (K : Kernel W) (m : Machine W) (p : ℕ) (c : Connection) where
  -- Where `recv` has handed over `got` and `x`, then fails with an error other than "would block",
  -- and then hands over `b ∷ new` and the rest `bs`: the byte `x` is lost, and what stands in the
  -- buffer is `got`, `b ∷ new` and `bs`.
  pub recv_loop-interrupted :
      (fuel : ℕ) {room : ℕ} {w w1 w2 w3 : W} {e : Errno} (got : List ℕ) (x b : ℕ) (new : List ℕ)
      {bs : List ℕ}
      → room + length (got ++ x ∷ []) ≡ recv_buffer_length
      → K.recv c.fd room w ≡ (failed e, w1)
      → would_block e ≡ false
      → K.recv c.fd (suc room) w1 ≡ (bytes (b ∷ new), w2)
      → length new ≤ room
      → Delivers K c.fd (suc room - length (b ∷ new)) w2 bs w3
      → room < fuel
      → recv_loop K (suc (suc fuel)) p (holding m w p (filled c (got ++ x ∷ [])))
        ≡ ok tt (holding m w3 p (filled c (got ++ (b ∷ new) ++ bs)))
  unfolding recv_loop
  recv_loop-interrupted fuel {room} {w} {w1} {w2} {e} got x b new {bs} n q hard q' le d h =
      let full = got ++ x ∷ [] in
      let short = uncounted c got x in
      let n' : suc room + length got ≡ recv_buffer_length =
        omega (arith, length-append got (x ∷ [])) in
      rw
        (
          load-holding m w p (filled c full),
          recv_at-filled K c.fd room (length full) (holding m w p (filled c full)) n,
          q,
          hard,
          modify-holding m w1 p (filled c full) (store_received (failed e)),
          store_received-failed c got x e,
          load-holding m w1 p short,
          recv_at-filled K c.fd (suc room) (length got) (holding m w1 p short) n',
          q',
          modify-holding m w2 p short (store_received (bytes (b ∷ new))),
          store_received-uncounted c got x b new,
        )
        (recv_loop-filled K fuel (got ++ b ∷ new) p m c d
          (omega (arith, length-append got (b ∷ new))) (omega arith))
