-- ===== src/Machine/Object.antt =====
-- One object in view: the machine that differs from `m` in the system's state and in the object
-- at one address. The operations on that object stay in this form.
use online_chat_proj.Base.{ℕ, ◌≡◌, some, ap, fun_ext, arith, update, update_self, update-update}
use online_chat_proj.Connection.{Connection}
use online_chat_proj.Machine.{Machine, ok, load, modify}

module _ {W : Type 0} where
  abbrev pub holding : Machine W → W → ℕ → Connection → Machine W
  holding m w p c = record m { world = w; heap = update m.heap p (some c) }

  pub load-holding :
      (m : Machine W) (w : W) (p : ℕ) (c : Connection)
      → load p (holding m w p c) ≡ ok c (holding m w p c)
  unfolding load
  load-holding m w p c = rw (update_self m.heap p (some c))

  pub modify-holding :
      (m : Machine W) (w : W) (p : ℕ) (c : Connection) (f : Connection → Connection)
      → modify p f (holding m w p c) ≡ ok tt (holding m w p (f c))
  unfolding modify
  modify-holding m w p c f =
      rw (update_self m.heap p (some c), update-update m.heap p (some c) (some (f c)))

  -- A machine is in this form for each object that it has.
  pub holding_self :
      (m : Machine W) (p : ℕ) {c : Connection} → m.heap p ≡ some c → m ≡ holding m m.world p c
  holding_self m p {c} e = ap (λ h. record m { heap = h }) (fun_ext λ q. ground arith)

  pub load-ok : (m : Machine W) (p : ℕ) {c : Connection} → m.heap p ≡ some c → load p m ≡ ok c m
  unfolding load
  load-ok m p e = rw e

  pub modify-ok :
      (m : Machine W) (p : ℕ) {c : Connection} (f : Connection → Connection)
      → m.heap p ≡ some c
      → modify p f m ≡ ok tt (holding m m.world p (f c))
  unfolding modify load
  modify-ok m p f e = rw e
