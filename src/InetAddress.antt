-- ===== src/InetAddress.antt =====
-- src/InetAddress.cpp and inc/InetAddress.hpp: an IPv4 socket address and its size.
pub mod Port
use Prim.Native.String.{String}
use online_chat_proj.Base.{ℕ, ◌-◌, ◌%◌, ◌^◌}
use online_chat_proj.Base.Int.{ℤ, pos, negsuc}
use online_chat_proj.Os.{SockAddr, Kernel}

pub record InetAddress : Type 0 where
  pub addr : SockAddr
  pub addr_sz : ℕ

-- `sizeof(struct sockaddr_in)`
abbrev pub sizeof_addr : ℕ
sizeof_addr = 16

abbrev pub af_inet : ℕ
af_inet = 2

-- `memset(&addr, 0, sizeof(addr))`
abbrev pub zero_addr : SockAddr
zero_addr = record { sin_family = 0; sin_port = 0; s_addr = 0 }

-- The conversion of an `int` to the `uint16_t` that `htons` takes.
abbrev pub to_u16 : ℤ → ℕ
to_u16 (pos n) = n % 2 ^ 16
to_u16 (negsuc n) = 2 ^ 16 - 1 - n % 2 ^ 16

-- `InetAddress::InetAddress()`
unfoldable pub empty_address : InetAddress
empty_address = record { addr = zero_addr; addr_sz = sizeof_addr }

-- `InetAddress::InetAddress(const char *ip, const int port)`
unfoldable pub address : {W : Type 0} → Kernel W → String → ℤ → InetAddress
address K ip port = record {
  addr = record { sin_family = af_inet; sin_port = K.htons (to_u16 port); s_addr = K.inet_addr ip };
  addr_sz = sizeof_addr;
}
