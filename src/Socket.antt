-- ===== src/Socket.antt =====
-- src/Socket.cpp and inc/Socket.hpp: a connection that listens. `Socket` adds no member to
-- `Connection`, so its objects are connections.
pub mod Create
use Prim.Native.String.{String}
use online_chat_proj.Base.{ℕ, Option, none, some}
use online_chat_proj.Base.Int.{ℤ, minus_one, ◌==ℤ◌}
use online_chat_proj.Os.{Kernel}
use online_chat_proj.InetAddress.{InetAddress, address, empty_address}
use online_chat_proj.Connection.{default_connection, connection}
use online_chat_proj.Machine.{M, null_pointer, pure, fail, syscall, load, put, alloc, ◌>>=◌, ◌>>◌}
use online_chat_proj.Log.{errif}

abbrev pub max_listen_num : ℕ
max_listen_num = 15

module _ {W : Type 0} (K : Kernel W) where
  -- `&inetAddr->addr` through a pointer that may be null
  abbrev pub inet_addr_of : Option InetAddress → M W InetAddress
  inet_addr_of none = fail null_pointer
  inet_addr_of (some a) = pure a

  -- `bind` and `listen`, on the object at address `p`
  unfoldable pub bind : ℕ → M W (Unit {0})
  bind p = do
    c ← load p
    a ← inet_addr_of c.inet_addr
    res ← syscall (K.bind c.fd a.addr a.addr_sz)
    errif K (res ==ℤ minus_one) "bind error!"

  unfoldable pub listen : ℕ → ℕ → M W (Unit {0})
  listen p n = do
    c ← load p
    res ← syscall (K.listen c.fd n)
    errif K (res ==ℤ minus_one) "listen error!"

  -- `Socket(const char *ip, const int port)`, behind `new`
  unfoldable pub new_socket : String → ℤ → M W ℕ
  new_socket ip port = do
    p ← alloc default_connection
    fd ← syscall K.socket
    errif K (fd ==ℤ minus_one) "socket create failed!"
    c ← load p
    put p (some (record c { fd = fd; inet_addr = some (address K ip port) }))
    bind p
    pure p

  -- `Socket()`
  unfoldable pub new_default_socket : M W ℕ
  new_default_socket = do
    p ← alloc default_connection
    fd ← syscall K.socket
    errif K (fd ==ℤ minus_one) "socket create failed!"
    c ← load p
    put p (some (record c { fd = fd; inet_addr = some (address K "127.0.0.1" (ℤ.pos 8080)) }))
    bind p
    pure p

  -- `Socket(int _fd, InetAddress *_inetAddr)`: the check reads the member `fd`, not `_fd`.
  unfoldable pub new_socket_of : ℤ → Option InetAddress → M W ℕ
  new_socket_of fd inet_addr = do
    p ← alloc default_connection
    c ← load p
    errif K (c.fd ==ℤ minus_one) "in Socket: fd==-1!"
    put p (some (record c { fd = fd; inet_addr = inet_addr }))
    bind p
    pure p

  -- `accept`, on the object at address `p`: a new connection, whatever the system returned
  unfoldable pub accept : ℕ → M W ℕ
  accept p = do
    c ← load p
    let blank = empty_address
    r ← syscall (K.accept c.fd blank.addr)
    alloc (λ raw. connection raw r.0 (some (record blank { addr = r.1 })))
