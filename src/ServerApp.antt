-- ===== src/ServerApp.antt =====
-- apps/server.cpp: a server of its own, on one epoll loop, that prints what a client sends and then
-- drops it. It opens a database connection first. No `Connection` object occurs, so the heap of the
-- machine is not used; `L` is the library of the database, on the same state as the system.
pub mod Exchange
pub mod Overread
pub mod Deeds
pub mod Rounds
pub mod Service
pub mod Start
pub mod Course
pub mod Total
use Prim.Native.Nat.{bit_or}
use online_chat_proj.Base.{
  ℕ, zero, suc, ◌-◌, Option, none, some, List, [], ◌∷◌, leb, ◌==◌, if◌then◌else◌,
}
use online_chat_proj.Base.Lists.{length, zeros, overwrite}
use online_chat_proj.Base.Int.{ℤ, pos, negsuc, minus_one, ◌+ℤ◌, pos_part, ◌==ℤ◌}
use online_chat_proj.Os.{
  Kernel, EpollEvent, epollin, epollet, o_nonblock, ctl_add, ctl_del, Received, bytes, failed,
  new_fd, from_client,
}
use online_chat_proj.InetAddress.{address, zero_addr}
use online_chat_proj.Machine.{
  M, ok, exited, out_of_fuel, out_of_bounds, pure, fail, skip, syscall, command, ◌>>=◌, ◌>>◌,
}
use online_chat_proj.Log.{errif}
use online_chat_proj.Server.{c_string, stops, terminated}
use online_chat_proj.GaussConnector.{
  Libpq, GaussConnector, Opened, connected, gave_up, open_connector,
}

abbrev pub buffer_length : ℕ
buffer_length = 1024

abbrev pub max_epoll_connection : ℕ
max_epoll_connection = 16192

-- The server's own limit, which happens to be that of src/Socket.cpp.
abbrev pub max_listen : ℕ
max_listen = 15

-- `buffer` and `bufferLen`
pub record Buffer : Type 0 where
  pub chars : List ℕ
  pub len : ℤ

abbrev pub cleared_buffer : Buffer
cleared_buffer = record { chars = zeros buffer_length; len = pos 0 }

-- An answer that does not end the loop: what is stored, and `bufferLen += recv_bytes`.
unfoldable pub store_answer : Received → Buffer → Buffer
store_answer (bytes bs) b = record {
  chars = overwrite (pos_part b.len) bs b.chars;
  len = b.len +ℤ pos (length bs);
}
store_answer (failed e) b = record b { len = b.len +ℤ minus_one }

module _ {W : Type 0} (K : Kernel W) where
  -- `setNonBlocking(int fd)`
  unfoldable pub set_fd_non_blocking : ℤ → W → W
  set_fd_non_blocking fd w = let r = K.get_flags fd w in K.set_flags fd (bit_or r.0 o_nonblock) r.1

  -- `recv(fd, buffer + bufferLen, BUFFER_LENGTH - bufferLen, 0)`
  unfoldable pub receive_at : ℤ → ℤ → M W Received
  receive_at fd (pos n) =
      if leb n buffer_length then syscall (K.recv fd (buffer_length - n)) else fail out_of_bounds
  receive_at fd (negsuc n) = fail out_of_bounds

  -- The loop that reads a message, on fuel.
  unfoldable pub read_loop : ℕ → ℤ → Buffer → M W Buffer
  read_loop zero fd b = λ _. out_of_fuel
  read_loop (suc fuel) fd b = do
    r ← receive_at fd b.len
    if stops r then pure b else read_loop fuel fd (store_answer r b)

  -- The branch for the listening socket. The peer's address is not asked for, so that what the
  -- system would store there is dropped.
  unfoldable pub accept_client : ℤ → ℤ → M W (Unit {0})
  accept_client epfd serverfd = do
    r ← syscall (K.accept serverfd zero_addr)
    command (K.print (new_fd r.0))
    if r.0 ==ℤ minus_one then skip else do
      command (set_fd_non_blocking r.0)
      _ ← syscall (
          K.epoll_ctl epfd ctl_add r.0
            (some (record { events = bit_or epollin epollet; fd = r.0 })))
      skip

  -- The branch for EPOLLIN: the descriptor is closed before it is taken out of the epoll set.
  unfoldable pub read_client : ℕ → ℤ → ℤ → M W (Unit {0})
  read_client fuel epfd fd = do
    b ← read_loop fuel fd cleared_buffer
    text ← terminated (c_string b.chars)
    command (K.print (from_client text))
    command (K.close fd)
    _ ← syscall (K.epoll_ctl epfd ctl_del fd none)
    skip

  -- The body of the `for` loop; the branch for EPOLLOUT is empty.
  unfoldable pub handle_event : ℕ → ℤ → ℤ → EpollEvent → M W (Unit {0})
  handle_event fuel epfd serverfd ev =
      if ev.fd ==ℤ serverfd
      then accept_client epfd serverfd
      else if ev.events == epollin
      then read_client fuel epfd ev.fd
      else skip

  unfoldable pub handle_all : ℕ → ℤ → ℤ → List EpollEvent → M W (Unit {0})
  handle_all fuel epfd serverfd [] = skip
  handle_all fuel epfd serverfd (ev ∷ evs) = do
    handle_event fuel epfd serverfd ev
    handle_all fuel epfd serverfd evs

  -- The first `n` rounds of `while(true)`.
  unfoldable pub rounds : ℕ → ℕ → ℤ → ℤ → M W (Unit {0})
  rounds fuel zero epfd serverfd = skip
  rounds fuel (suc n) epfd serverfd = do
    evs ← syscall (K.epoll_wait epfd max_epoll_connection minus_one)
    handle_all fuel epfd serverfd evs
    rounds fuel n epfd serverfd

  module _ {C R : Type 0} (L : Libpq W C R) where
    abbrev pub opened : Opened W C R → M W (GaussConnector C R)
    opened (connected g w) m = ok g (record m { world = w })
    opened (gave_up w) m = exited w

    -- `GaussConnector connector;`
    abbrev pub connect : M W (GaussConnector C R)
    connect m = opened (open_connector L m.world) m

    -- `main`: the part behind the endless loop is never reached.
    unfoldable pub server_main : ℕ → ℕ → M W (Unit {0})
    server_main fuel n = do
      connector ← connect
      serverfd ← syscall K.socket
      errif K (serverfd ==ℤ minus_one) "socket create failed!"
      let a = address K "127.0.0.1" (pos 8080)
      epfd ← syscall K.epoll_create
      errif K (epfd ==ℤ minus_one) "epoll create failed!"
      bound ← syscall (K.bind serverfd a.addr a.addr_sz)
      errif K (bound ==ℤ minus_one) "bind error!"
      listens ← syscall (K.listen serverfd max_listen)
      errif K (listens ==ℤ minus_one) "listen error!"
      _ ← syscall (
          K.epoll_ctl epfd ctl_add serverfd
            (some (record { events = bit_or epollin epollet; fd = serverfd })))
      rounds fuel n epfd serverfd
