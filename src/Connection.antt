-- ===== src/Connection.antt =====
-- src/Connection.cpp and inc/Connection.hpp: a socket with its epoll events, its two buffers and
-- its callbacks. A method is a function on the record; the ones that call the system also take
-- its state. Objects in memory are in Machine.antt.
use Prim.Native.Nat.{bit_or}
use Prim.Native.String.{String}
use online_chat_proj.Base.{ℕ, Bool, true, false, Option, none, some, List}
use online_chat_proj.Base.Lists.{zeros}
use online_chat_proj.Base.Int.{ℤ, pos, minus_one}
use online_chat_proj.Os.{Kernel, EpollEvent, o_nonblock}
use online_chat_proj.InetAddress.{InetAddress}

abbrev pub recv_buffer_length : ℕ
recv_buffer_length = 2048

abbrev pub send_buffer_length : ℕ
send_buffer_length = 2048

-- The functions of src/Server.cpp that are bound into a connection.
pub data Handler : Type 0 where
  accept_handler recv_handler send_handler : Handler

-- A `std::function<void()>` made by `std::bind(f, conn, epoll)`. There is one `Epoll`, so it needs
-- no name; `conn` is the address of a connection.
pub record Callback : Type 0 where
  pub handler : Handler
  pub conn : ℕ

-- `inet_addr` is `none` for a null pointer; a callback is `none` until it is set.
pub record Connection : Type 0 where
  pub fd : ℤ
  pub in_epoll : Bool
  pub inet_addr : Option InetAddress
  pub event : EpollEvent
  pub revent : EpollEvent
  pub rbuffer : List ℕ
  pub rlen : ℤ
  pub wbuffer : List ℕ
  pub wlen : ℤ
  pub recv_callback : Option Callback
  pub send_callback : Option Callback

-- `Connection()`: the default member initialisers. The events and the
-- buffers have none, so they hold what the storage `raw` held.
unfoldable pub default_connection : Connection → Connection
default_connection raw = record raw {
  fd = minus_one;
  in_epoll = false;
  inet_addr = none;
  rlen = pos 0;
  wlen = pos 0;
  recv_callback = none;
  send_callback = none;
}

-- `Connection(ip, port)` looks at neither argument.
unfoldable pub ip_connection : Connection → String → ℤ → Connection
unfolding default_connection
ip_connection raw ip port = default_connection raw

-- `Connection(int _fd, InetAddress *_inetAddr)`
unfoldable pub connection : Connection → ℤ → Option InetAddress → Connection
unfolding default_connection
connection raw fd inet_addr = record (default_connection raw) { fd = fd; inet_addr = inet_addr }

-- The getters. A pointer to a member that the code only reads through is the member's value.
abbrev pub get_fd : Connection → ℤ
get_fd c = c.fd

abbrev pub get_in_epoll : Connection → Bool
get_in_epoll c = c.in_epoll

abbrev pub get_inet_address : Connection → Option InetAddress
get_inet_address c = c.inet_addr

abbrev pub get_event : Connection → EpollEvent
get_event c = c.event

abbrev pub get_revent : Connection → EpollEvent
get_revent c = c.revent

abbrev pub get_w_buffer : Connection → List ℕ
get_w_buffer c = c.wbuffer

abbrev pub get_r_buffer : Connection → List ℕ
get_r_buffer c = c.rbuffer

abbrev pub get_cur_rlen : Connection → ℤ
get_cur_rlen c = c.rlen

abbrev pub get_cur_wlen : Connection → ℤ
get_cur_wlen c = c.wlen

unfoldable pub set_in_epoll : Connection → Connection
set_in_epoll c = record c { in_epoll = true }

unfoldable pub set_event : ℕ → Connection → Connection
set_event flags c = record c { event = record { events = flags; fd = c.fd } }

unfoldable pub set_revent : ℕ → Connection → Connection
set_revent flags c = record c { revent = record { events = flags; fd = c.fd } }

unfoldable pub set_recv_callback : Callback → Connection → Connection
set_recv_callback f c = record c { recv_callback = some f }

unfoldable pub set_send_callback : Callback → Connection → Connection
set_send_callback f c = record c { send_callback = some f }

unfoldable pub w_buffer_clear : Connection → Connection
w_buffer_clear c = record c { wbuffer = zeros send_buffer_length }

unfoldable pub r_buffer_clear : Connection → Connection
r_buffer_clear c = record c { rbuffer = zeros recv_buffer_length }

unfoldable pub set_r_len : ℤ → Connection → Connection
set_r_len n c = record c { rlen = n }

unfoldable pub set_w_len : ℤ → Connection → Connection
set_w_len n c = record c { wlen = n }

module _ {W : Type 0} (K : Kernel W) where
  -- `setNonBlocking`: the flags are read, and written back with O_NONBLOCK.
  unfoldable pub set_non_blocking : Connection → W → W
  set_non_blocking c w = let r = K.get_flags c.fd w in K.set_flags c.fd (bit_or r.0 o_nonblock) r.1

  -- `~Connection`: the address object goes away with the record that holds it.
  unfoldable pub destroy : Connection → W → W
  destroy c w = K.close c.fd w
