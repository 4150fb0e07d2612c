-- ===== src/Bounds/Receive.antt =====
-- `recvCallback` within the bounds of its buffer, where `recv` keeps to its answer.
use online_chat_proj.Base.{
  ℕ, zero, suc, ◌+◌, ◌-◌, ◌≤◌, ◌≡◌, true, inl, inr, some, List, ◌∷◌, arith, leb, Option-cases,
  update_self,
}
use online_chat_proj.Base.Lists.{length}
use online_chat_proj.Base.Int.{ℤ, pos}
use online_chat_proj.Os.{Kernel, bytes}
use online_chat_proj.Connection.{Connection, recv_buffer_length, r_buffer_clear}
use online_chat_proj.Machine.{Machine, ok, load}
use online_chat_proj.Machine.Object.{holding, modify-ok}
use online_chat_proj.Epoll.{action_update}
use online_chat_proj.Server.{store_received, recv_at, recv_loop, recv_callback}
use online_chat_proj.Fuel.Enough.{Steady}
use online_chat_proj.Fuel.Total.{modify-none}
use online_chat_proj.Bounds.{Policy, Fits, Sound, AllFit-put}
use online_chat_proj.Bounds.Stays.{StaysFit, returns, faults, unfinished, bind, load-Stays}
use online_chat_proj.Bounds.Calls.{c_string-Stays, set_event-Stays, update_connection-Stays}

-- `J` holds of the connection while the loop fills its buffer.
pub record Filling (V : Policy) (J : Connection → Type 0) : Type 0 where
  pub fits : (c : Connection) → J c → Fits V c
  pub stored :
      (c : Connection) (n b : ℕ) (new : List ℕ)
      → J c
      → c.rlen ≡ pos n
      → n + length (b ∷ new) ≤ recv_buffer_length
      → J (store_received (bytes (b ∷ new)) c)

module _ {W : Type 0} (K : Kernel W) where
  recv_at-InBuffer :
      (fd : ℤ) (n : ℕ) (m : Machine W)
      → n ≤ recv_buffer_length
      → recv_at K fd (pos n) m
        ≡ ok
            (K.recv fd (recv_buffer_length - n) m.world).0
            (record m { world = (K.recv fd (recv_buffer_length - n) m.world).1 })
  unfolding recv_at
  recv_at-InBuffer fd n m le = let fits : leb n recv_buffer_length ≡ true = ground arith in rw fits

-- What has to be known of the loop of `recvCallback`, which starts on a cleared buffer.
abbrev pub LoopStays : (V : Policy) {W : Type 0} → Kernel W → ℕ → Type 0
LoopStays V {W} K fuel =
    (p : ℕ) (m : Machine W) (c : Connection)
    → Sound V m
    → m.heap p ≡ some c
    → StaysFit V (recv_loop K fuel p (holding m m.world p (r_buffer_clear c)))

module _ {V : Policy} {W : Type 0} (K : Kernel W) where
  module _ (steady : Steady K) where
    pub recv_loop-Stays :
        {J : Connection → Type 0} (fill : Filling V J) (fuel p : ℕ) (m : Machine W) (c : Connection)
        → Sound V m
        → m.heap p ≡ some c
        → J c
        → StaysFit V (recv_loop K fuel p m)
    unfolding recv_loop load
    recv_loop-Stays fill zero p m c all here j = unfinished
    recv_loop-Stays fill (suc fuel) p m c all here j =
        let (n, len, le) = (fill.fits c j).received in
        rw (here, len, recv_at-InBuffer K c.fd n m le)
          (elim (steady c.fd (recv_buffer_length - n) m.world) [
            | inl done ↦ rw done (returns all)
            | inr (b, new, got, short) ↦
                let w = (K.recv c.fd (recv_buffer_length - n) m.world).1 in
                let c' = store_received (bytes (b ∷ new)) c in
                let j' = fill.stored c n b new j len (omega arith) in
                rw
                  (
                    got,
                    modify-ok (record m { world = w }) p (store_received (bytes (b ∷ new))) here,
                  )
                  (recv_loop-Stays fill fuel p (holding m w p c') c'
                    (AllFit-put m.heap p all.0 (fill.fits c' j'), all.1)
                    (update_self m.heap p (some c')) j')
          ])

  pub recv_callback-Stays :
      (fuel p : ℕ) (m : Machine W)
      → LoopStays V K fuel
      → Sound V m
      → StaysFit V (recv_callback K fuel p m)
  unfolding recv_callback load
  recv_callback-Stays fuel p m loop all = elim (Option-cases (m.heap p)) [
    | inl e ↦ rw (modify-none m p r_buffer_clear e) (faults V.dangles)
    | inr (c, here) ↦ rw (modify-ok m p r_buffer_clear here) (
        bind (loop p m c all here) λ _ m2 all2. bind (load-Stays p m2 all2) λ d m3 (fits, all3).
          bind (c_string-Stays K d.rbuffer m3 fits.content all3) λ text m4 all4.
            bind (set_event-Stays K p _ _ all4)
              λ _ m5 all5. update_connection-Stays K p action_update m5 all5)
  ]
