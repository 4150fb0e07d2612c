-- ===== src/InetAddress/Port.antt =====
-- The port that src/InetAddress.cpp stores, as `ntohs` reads it.
use Prim.Native.String.{String}
use online_chat_proj.Base.{ℕ, ◌%◌, ◌^◌, ◌<◌, ◌≡◌, ◌↔◌, refl, ap, ◌∙◌, arith}
use online_chat_proj.Base.Int.{pos}
use online_chat_proj.Os.{Kernel}
use online_chat_proj.InetAddress.{InetAddress, address}

module _ {W : Type 0} (K : Kernel W) where
  -- What `htons` and `ntohs` promise of each other, on the range of `uint16_t`.
  abbrev pub Inverse : (ℕ → ℕ) → Type 0
  Inverse ntohs = (n : ℕ) → n < 2 ^ 16 → ntohs (K.htons n) ≡ n

  -- A port in the range of `uint16_t` is read back from the address by `ntohs`.
  ntohs-address :
      (ntohs : ℕ → ℕ) (ip : String) (n : ℕ)
      → Inverse ntohs
      → n < 2 ^ 16
      → ntohs (address K ip (pos n)).addr.sin_port ≡ n
  unfolding address
  ntohs-address ntohs ip n inverse h =
      let small : n % 2 ^ 16 ≡ n = omega arith in
      ap (λ (m : ℕ). ntohs (K.htons m)) small ∙ inverse n h

  -- A port beyond that range is not refused: two ports give the same address, of the same `ip`,
  -- exactly when they agree modulo 2 ^ 16.
  pub address-port_iff :
      (ntohs : ℕ → ℕ) (ip : String) (n k : ℕ)
      → Inverse ntohs
      → (address K ip (pos n) ≡ address K ip (pos k)) ↔ (n % 2 ^ 16 ≡ k % 2 ^ 16)
  unfolding address
  address-port_iff ntohs ip n k inverse = (
    λ e.
        let port : ℕ → ℕ = λ m. ntohs (K.htons (m % 2 ^ 16)) in
        let same : port n ≡ port k = ap (λ (a : InetAddress). ntohs a.addr.sin_port) e in
        let left : port n ≡ n % 2 ^ 16 = inverse (n % 2 ^ 16) (omega arith) in
        let right : port k ≡ k % 2 ^ 16 = inverse (k % 2 ^ 16) (omega arith) in omega arith,
    λ e. rw e refl,
  )
