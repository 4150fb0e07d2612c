-- ===== src/Os.antt =====
-- The operating system and the C library as the code sees them (<sys/socket.h>, <sys/epoll.h>,
-- <fcntl.h>, <arpa/inet.h>, <stdio.h>): a state `W` that the program cannot look into, and the
-- calls the code makes. None of this is in the repository, so a `Kernel` is a parameter of the model.
pub mod Laws
use Prim.Native.String.{String}
use Prim.Native.Nat.{bit_and}
use online_chat_proj.Base.{ℕ, ◌==◌, Bool, true, false, not, List, Option}
use online_chat_proj.Base.Int.{ℤ}

-- `struct sockaddr_in`
pub record SockAddr : Type 0 where
  pub sin_family : ℕ
  pub sin_port : ℕ
  pub s_addr : ℕ

-- `struct epoll_event`, with the member `fd` of its union `data`
pub record EpollEvent : Type 0 where
  pub events : ℕ
  pub fd : ℤ

abbrev pub epollin : ℕ
epollin = 0x001

abbrev pub epollout : ℕ
epollout = 0x004

abbrev pub epollet : ℕ
epollet = 0x8000_0000

abbrev pub o_nonblock : ℕ
o_nonblock = 0o4000

-- `flags & bit`, as a condition
unfoldable pub has_flag : ℕ → ℕ → Bool
has_flag flags bit = not (bit_and flags bit == 0)

pub data CtlOp : Type 0 where
  ctl_add ctl_mod ctl_del : CtlOp

pub data Errno : Type 0 where
  eagain ewouldblock : Errno
  other : ℕ → Errno

abbrev pub would_block : Errno → Bool
would_block eagain = true
would_block ewouldblock = true
would_block (other _) = false

-- `recv`: the bytes that it stored (none at the end of the stream), or -1 with `errno`.
pub data Received : Type 0 where
  bytes : List ℕ → Received
  failed : Errno → Received

-- What `printf` writes, one constructor for each format string of the code.
pub data Output : Type 0 where
  new_client new_fd : ℤ → Output
  from_client : List ℕ → Output
  from_server : List ℕ → Output

pub record Kernel (W : Type 0) : Type 0 where
  pub socket : W → ℤ × W
  pub bind : ℤ → SockAddr → ℕ → W → ℤ × W
  pub listen : ℤ → ℕ → W → ℤ × W
  -- the buffer for the peer's address is passed in, and returned as it was filled
  pub accept : ℤ → SockAddr → W → (ℤ × SockAddr) × W
  -- `fcntl` with F_GETFL and F_SETFL, on the bit pattern of an `int`
  pub get_flags : ℤ → W → ℕ × W
  pub set_flags : ℤ → ℕ → W → W
  pub epoll_create : W → ℤ × W
  pub epoll_ctl : ℤ → CtlOp → ℤ → Option EpollEvent → W → ℤ × W
  -- the events that are ready; none at all if it returns -1 or 0
  pub epoll_wait : ℤ → ℕ → ℤ → W → List EpollEvent × W
  pub recv : ℤ → ℕ → W → Received × W
  pub write : ℤ → List ℕ → W → ℤ × W
  pub close : ℤ → W → W
  pub print : Output → W → W
  pub perror : String → W → W
  pub inet_addr : String → ℕ
  pub htons : ℕ → ℕ
