-- ===== src/Examples/Runs.antt =====
-- Whole runs of the reactor on the system of `Sim`, and the address of a port.
use online_chat_proj.Base.{
  ℕ, zero, suc, refl, inl, inr, [], ◌∷◌, ◌+◌, ◌*◌, ◌/◌, ◌%◌, ◌^◌, ◌≡◌, ◌↔◌, arith,
}
use online_chat_proj.Base.Int.{pos}
use online_chat_proj.Os.{Kernel, Received, bytes}
use online_chat_proj.InetAddress.{address}
use online_chat_proj.InetAddress.Port.{Inverse, address-port_iff}
use online_chat_proj.Fuel.Enough.{Steady}
use online_chat_proj.Examples.Sim.{Sim, sim}

-- A little-endian machine.
abbrev swap_bytes : ℕ → ℕ
swap_bytes n = n % 256 * 256 + n / 256 % 256

abbrev little_endian : Kernel Sim
little_endian = record sim { htons = swap_bytes }

swap_Inverse : Inverse little_endian swap_bytes
swap_Inverse n h = omega arith

address-port_iff_example :
    (address little_endian "127.0.0.1" (pos 73616) ≡ address little_endian "127.0.0.1" (pos 8080))
    ↔ (73616 % 2 ^ 16 ≡ 8080 % 2 ^ 16)
address-port_iff_example =
    address-port_iff little_endian swap_bytes "127.0.0.1" 73616 8080 swap_Inverse

-- A peer that never stops sending.
abbrev pub flood : ℕ → Received
flood zero = bytes []
flood (suc n) = bytes (7 ∷ [])

abbrev pub flooded : Kernel Sim
flooded = record sim { recv = λ fd n s. (flood n, s) }

pub flooded-Steady : Steady flooded
flooded-Steady fd zero s = inl refl
flooded-Steady fd (suc n) s = inr (7, [], refl, omega arith)
