-- ===== src/Socket/Create.antt =====
-- The constructors of `Socket`.
use online_chat_proj.Base.{suc, ◌≡◌, Option}
use online_chat_proj.Base.Int.{ℤ}
use online_chat_proj.Os.{Kernel}
use online_chat_proj.InetAddress.{InetAddress}
use online_chat_proj.Connection.{default_connection}
use online_chat_proj.Machine.{Machine, exited, alloc}
use online_chat_proj.Machine.Object.{load-holding}
use online_chat_proj.Log.{errif}
use online_chat_proj.Socket.{new_socket_of}

-- `Socket(int _fd, InetAddress *_inetAddr)` ends the process for every argument: its check reads
-- the member `fd`, which is still -1.
pub new_socket_of-exited :
    {W : Type 0} (K : Kernel W) (fd : ℤ) (inet_addr : Option InetAddress) (m : Machine W)
    → new_socket_of K fd inet_addr m ≡ exited (K.perror "in Socket: fd==-1!" m.world)
unfolding new_socket_of alloc errif default_connection
new_socket_of-exited K fd inet_addr m = rw (
    load-holding (record m { next = suc m.next }) m.world m.next
      (default_connection (m.junk m.next)))
