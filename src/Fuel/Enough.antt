-- ===== src/Fuel/Enough.antt =====
-- How much fuel the receive loops of src/Server.cpp need in a run of the program.
use online_chat_proj.Base.{
  ℕ, zero, suc, ◌+◌, ◌-◌, ◌≤◌, ◌<◌, ◌≡◌, ◌≢◌, ◌⊎◌, refl, true, Bool-cases, Option-cases, inl, inr,
  some, List, ◌∷◌, arith, leb, update_self,
}
use online_chat_proj.Base.Lists.{length}
use online_chat_proj.Base.Int.{ℤ, pos, negsuc}
use online_chat_proj.Os.{Kernel, bytes}
use online_chat_proj.Connection.{Connection, recv_buffer_length, set_r_len}
use online_chat_proj.Machine.{
  Machine, Run, out_of_fuel, M, ok, exited, fault, Fault, out_of_bounds, and_then, load, modify,
}
use online_chat_proj.Machine.Object.{holding, load-ok, modify-ok}
use online_chat_proj.Server.{stops, store_received, recv_at, recv_loop}

-- A run that comes to an end.
pub data Ends {W A : Type 0} : Run W A → Type 0 where
  returns : {a : A} {m : Machine W} → Ends (ok a m)
  exits : {w : W} → Ends (exited w)
  faults : {e : Fault} → Ends (fault e)

pub bind :
    {W A B : Type 0} {r : Run W A} {k : A → M W B}
    → Ends r
    → ((a : A) (m : Machine W) → Ends (k a m))
    → Ends (and_then r k)
bind returns h = h _ _
bind exits h = exits
bind faults h = faults

pub Ends-ne-out_of_fuel : {W A : Type 0} {r : Run W A} → Ends r → r ≢ out_of_fuel
Ends-ne-out_of_fuel returns h = cc
Ends-ne-out_of_fuel exits h = cc
Ends-ne-out_of_fuel faults h = cc

-- Each call of `recv` ends the loop, or hands over bytes, no more of them than were asked for.
abbrev pub Steady : {W : Type 0} → Kernel W → Type 0
Steady {W} K =
    (fd : ℤ) (n : ℕ) (w : W)
    → (stops (K.recv fd n w).0 ≡ true)
      ⊎ ((b : ℕ) × (new : List ℕ) × ((K.recv fd n w).0 ≡ bytes (b ∷ new)) × (length (b ∷ new) ≤ n))

-- The rounds that a loop can make with this length received.
abbrev pub rounds_left : ℤ → ℕ
rounds_left (pos n) = recv_buffer_length - n
rounds_left (negsuc n) = 0

module _ {W : Type 0} where
  pub load-Ends : (p : ℕ) (m : Machine W) → Ends (load p m)
  unfolding load
  load-Ends p m = elim (Option-cases (m.heap p)) [ inl e ↦ rw e faults | inr (c, e) ↦ rw e returns ]

  pub modify-Ends : (p : ℕ) (f : Connection → Connection) (m : Machine W) → Ends (modify p f m)
  unfolding modify
  modify-Ends p f m = bind (load-Ends p m) λ c m'. returns

module _ {W : Type 0} (K : Kernel W) where
  -- The call is made where the length lies in the buffer.
  recv_at-cases :
      (fd z : ℤ) (m : Machine W)
      → (recv_at K fd z m ≡ fault out_of_bounds)
        ⊎ ((n : ℕ) × (z ≡ pos n)
            × (n ≤ recv_buffer_length)
            × (recv_at K fd z m
                ≡ ok
                    (K.recv fd (recv_buffer_length - n) m.world).0
                    (record m { world = (K.recv fd (recv_buffer_length - n) m.world).1 })))
  unfolding recv_at
  recv_at-cases fd (pos n) m = elim (Bool-cases (leb n recv_buffer_length)) [
    | inl e ↦ inr (n, refl, ground (arith, e), rw e)
    | inr e ↦ inl (rw e)
  ]
  recv_at-cases fd (negsuc n) m = inl refl

  pub rlen-stored :
      (c : Connection) (n b : ℕ) (new : List ℕ)
      → c.rlen ≡ pos n
      → (store_received (bytes (b ∷ new)) c).rlen ≡ pos (n + length (b ∷ new))
  unfolding store_received set_r_len
  rlen-stored c n b new e = rw e (ground arith)

  module _ (steady : Steady K) where
    pub recv_loop-Ends :
        (fuel p : ℕ) (m : Machine W) (c : Connection)
        → m.heap p ≡ some c
        → rounds_left c.rlen < fuel
        → Ends (recv_loop K fuel p m)
    unfolding recv_loop
    recv_loop-Ends zero p m c here h = absurd (omega arith)
    recv_loop-Ends (suc fuel) p m c here h =
        rw (load-ok m p here) (elim (recv_at-cases c.fd c.rlen m) [
          | inl out ↦ rw out faults
          | inr (n, len, fits, called) ↦ elim (steady c.fd (recv_buffer_length - n) m.world) [
            | inl done ↦ simp (called, done) returns
            | inr (b, new, got, short) ↦
                let w = (K.recv c.fd (recv_buffer_length - n) m.world).1 in
                let c' = store_received (bytes (b ∷ new)) c in
                let left : rounds_left c'.rlen < fuel =
                  let h' : recv_buffer_length - n < suc fuel = rw len at h in
                  rw (rlen-stored c n b new len) (omega arith) in
                simp
                  (
                    called,
                    got,
                    modify-ok (record m { world = w }) p (store_received (bytes (b ∷ new))) here,
                  )
                  (recv_loop-Ends fuel p (holding m w p c') c' (update_self m.heap p (some c'))
                    left)
          ]
        ])
