-- ===== src/Server/Progress.antt =====
-- The end of the receive loop of `recvCallback` (src/Server.cpp).
use online_chat_proj.Base.{
  ℕ, zero, suc, ◌+◌, ◌-◌, ◌≤◌, ◌<◌, ◌≡◌, refl, ◌⊎◌, inl, inr, true, List, [], ◌∷◌, ◌++◌, arith,
}
use online_chat_proj.Base.Lists.{length, length-append}
use online_chat_proj.Base.Int.{ℤ}
use online_chat_proj.Os.{Kernel, Received, bytes}
use online_chat_proj.Connection.{Connection, recv_buffer_length}
use online_chat_proj.Machine.{Machine, ok}
use online_chat_proj.Machine.Object.{holding}
use online_chat_proj.Server.{stops, recv_loop}
use online_chat_proj.Server.Receive.{filled, Delivers, ends, chunk, recv_loop-filled}

-- An answer that ends the loop, or bytes, and no more of them than were asked for.
abbrev pub IsCalm : ℕ → Received → Type 0
IsCalm n r =
    (stops r ≡ true) ⊎ ((b : ℕ) × (new : List ℕ) × (r ≡ bytes (b ∷ new)) × (length (b ∷ new) ≤ n))

-- `Calm` holds of the states in which `recv` answers so, and is kept by the call.
abbrev pub KeepsCalm : {W : Type 0} → Kernel W → ℤ → (W → Type 0) → Type 0
KeepsCalm {W} K fd Calm =
    (n : ℕ) (w : W) → Calm w → IsCalm n (K.recv fd n w).0 × Calm (K.recv fd n w).1

module _ {W : Type 0} (K : Kernel W) (fd : ℤ) (Calm : W → Type 0)
    (keeps : KeepsCalm K fd Calm) where
  pub delivery :
      (k room : ℕ) (w : W)
      → room < k
      → Calm w
      → (bs : List ℕ) × (w' : W) × Delivers K fd room w bs w' × (length bs ≤ room)
  delivery zero room w h calm = absurd (omega arith)
  delivery (suc k) room w h calm = elim (keeps room w calm).0 [
    | inl e ↦ ([], (K.recv fd room w).1, ends refl e, omega arith)
    | inr (b, new, e, le) ↦
        let (bs, w', d, le') =
          delivery k (room - length (b ∷ new)) (K.recv fd room w).1 (omega arith)
            (keeps room w calm).1 in
        (
          (b ∷ new) ++ bs,
          w',
          chunk (ground (arith, e)) le d,
          omega (arith, length-append (b ∷ new) bs),
        )
  ]

module _ {W : Type 0} (K : Kernel W) (c : Connection) (Calm : W → Type 0) where
  -- With more fuel than the buffer has room the loop returns, and the bytes that it has read fit
  -- into the buffer behind those that were there.
  pub recv_loop-total :
      (got : List ℕ) (fuel p : ℕ) (m : Machine W) (w : W)
      → KeepsCalm K c.fd Calm
      → Calm w
      → length got ≤ recv_buffer_length
      → recv_buffer_length < fuel + length got
      → (bs : List ℕ) × (w' : W) × (recv_loop K fuel p (holding m w p (filled c got))
          ≡ ok tt (holding m w' p (filled c (got ++ bs))))
        × (length (got ++ bs) ≤ recv_buffer_length)
  recv_loop-total got fuel p m w keeps calm fits enough =
      let (bs, w', d, le) =
        delivery K c.fd Calm keeps fuel (recv_buffer_length - length got) w (omega arith) calm in
      (
        bs,
        w',
        recv_loop-filled K fuel got p m c d (omega arith) (omega arith),
        omega (arith, length-append got bs),
      )
