-- ===== src/ServerApp/Exchange.antt =====
-- What apps/server.cpp does with a message.
use mathlib.Core.List.{append-nil, append_assoc}
use online_chat_proj.Base.{
  ℕ, zero, suc, ◌+◌, ◌-◌, ◌<◌, ◌≡◌, refl, ap, ◌∙◌, true, false, none, List, [], ◌∷◌, ◌++◌, arith,
  leb,
}
use online_chat_proj.Base.Lists.{
  length, zeros, overwrite, overwrite_end, length-append, drop, drop-zeros,
}
use online_chat_proj.Base.Int.{ℤ, pos, ◌+ℤ◌}
use online_chat_proj.Os.{Kernel, bytes, failed, Errno, would_block, ctl_del, from_client}
use online_chat_proj.Machine.{Machine, ok, fault, out_of_bounds}
use online_chat_proj.Server.Receive.{Delivers, ends, chunk}
use online_chat_proj.Server.Text.{text, c_string-zeros}
use online_chat_proj.ServerApp.{
  Buffer, buffer_length, store_answer, receive_at, read_loop, read_client,
}

-- The buffer with `bs` at its start and zeros behind.
abbrev pub holds : List ℕ → Buffer
holds bs = record { chars = bs ++ zeros (buffer_length - length bs); len = pos (length bs) }

abbrev pub at_world : {W : Type 0} → Machine W → W → Machine W
at_world m w = record m { world = w }

store_answer-holds :
    (bs : List ℕ) (b : ℕ) (new : List ℕ)
    → store_answer (bytes (b ∷ new)) (holds bs) ≡ holds (bs ++ b ∷ new)
unfolding store_answer
store_answer-holds bs b new = rw (buffer, total)
  where
    room : ℕ
    room = buffer_length - length bs

    total : (pos (length bs) +ℤ pos (length (b ∷ new))) ≡ pos (length (bs ++ b ∷ new))
    total = ground (arith, length-append bs (b ∷ new))

    behind : drop (length (b ∷ new)) (zeros room) ≡ zeros (buffer_length - length (bs ++ b ∷ new))
    behind =
        drop-zeros (length (b ∷ new)) room ∙ ap zeros (omega (arith, length-append bs (b ∷ new)))

    buffer :
        overwrite (length bs) (b ∷ new) (bs ++ zeros room)
        ≡ (bs ++ b ∷ new) ++ zeros (buffer_length - length (bs ++ b ∷ new))
    buffer = overwrite_end bs (b ∷ new) (zeros room) ∙ ap (◌++◌ (bs ++ b ∷ new)) behind

module _ {W : Type 0} (K : Kernel W) (m : Machine W) (fd : ℤ) where
  receive_at-holds :
      (room n : ℕ) (w : W)
      → room + n ≡ buffer_length
      → receive_at K fd (pos n) (at_world m w)
        ≡ ok (K.recv fd room w).0 (at_world m (K.recv fd room w).1)
  unfolding receive_at
  receive_at-holds room n w e =
      let fits : leb n buffer_length ≡ true = ground arith in
      let left : buffer_length - n ≡ room = omega arith in rw (fits, left)

  pub read_loop-holds :
      (fuel : ℕ) {room : ℕ} {w w' : W} {bs : List ℕ} (got : List ℕ)
      → Delivers K fd room w bs w'
      → room + length got ≡ buffer_length
      → room < fuel
      → read_loop K fuel fd (holds got) (at_world m w) ≡ ok (holds (got ++ bs)) (at_world m w')
  unfolding read_loop
  read_loop-holds zero got d n h = absurd (omega arith)
  read_loop-holds (suc fuel) {room} {w} got (ends q s) n h =
      rw (receive_at-holds room (length got) w n, q, s, append-nil got)
  read_loop-holds (suc fuel) {room} {w} got (chunk {w'} {b} {new} {bs} q le d) n h =
      rw
        (
          receive_at-holds room (length got) w n,
          q,
          store_answer-holds got b new,
          ← append_assoc got (b ∷ new) bs,
        )
        (read_loop-holds fuel (got ++ b ∷ new) d (omega (arith, length-append got (b ∷ new)))
          (omega arith))

  -- A client sends `bs`, in any chunks, shorter than the buffer: the branch for EPOLLIN returns,
  -- with the text of `bs` up to its first zero byte printed, then the descriptor closed, and only
  -- then taken out of the epoll set.
  pub read_client_lem :
      (fuel : ℕ) (epfd : ℤ) {w w' : W} {bs : List ℕ}
      → Delivers K fd buffer_length w bs w'
      → length bs < buffer_length
      → buffer_length < fuel
      → read_client K fuel epfd fd (at_world m w)
        ≡ ok tt (
            at_world m
              (K.epoll_ctl epfd ctl_del fd none
                (K.close fd (K.print (from_client (text bs)) w'))).1)
  unfolding read_client
  read_client_lem fuel epfd {w} {w'} {bs} d short enough = rw (
    read_loop-holds fuel [] d refl enough,
    c_string-zeros bs (buffer_length - length bs) (omega arith),
  )

  -- An error of `recv` other than "would block" at the start of a message, as on a connection that
  -- the peer has reset, makes the next call of `recv` use an address before the buffer.
  pub read_client-error :
      (fuel : ℕ) (epfd : ℤ) {w w' : W} {e : Errno}
      → K.recv fd buffer_length w ≡ (failed e, w')
      → would_block e ≡ false
      → read_client K (suc (suc fuel)) epfd fd (at_world m w) ≡ fault out_of_bounds
  unfolding read_client read_loop store_answer receive_at
  read_client-error fuel epfd {w} {w'} q hard = rw (q, hard)
