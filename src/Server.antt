-- ===== src/Server.antt =====
-- src/Server.cpp and inc/Server.hpp: the listening socket and the three callbacks.
pub mod Receive
pub mod Accept
pub mod Refused
pub mod Create
pub mod Interrupt
pub mod Rounds
pub mod Visits
pub mod Session
pub mod Text
pub mod Echo
pub mod Faults
pub mod Overread
pub mod Progress
use Prim.Native.Nat.{bit_or}
use mathlib.Core.Option
use online_chat_proj.Base.{
  ℕ, zero, suc, ◌-◌, Bool, true, false, Option, none, some, List, [], ◌∷◌, ◌++◌, leb, if◌then◌else◌,
}
use online_chat_proj.Base.Lists.{length, take, overwrite}
use online_chat_proj.Base.Int.{ℤ, pos, negsuc, minus_one, pos_part, ◌+ℤ◌}
use online_chat_proj.Os.{
  Kernel, Received, bytes, failed, would_block, new_client, from_client, epollin, epollout, epollet,
}
use online_chat_proj.Connection.{
  get_fd, get_w_buffer, get_r_buffer, get_cur_rlen, get_cur_wlen, Connection, Callback,
  accept_handler, recv_handler, send_handler, recv_buffer_length, send_buffer_length, set_event,
  set_non_blocking, r_buffer_clear, set_r_len, set_w_len,
}
use online_chat_proj.Machine.{
  M, out_of_fuel, out_of_bounds, unterminated, pure, fail, skip, syscall, command, non_null, load,
  modify, ◌>>=◌, ◌>>◌,
}
use online_chat_proj.Log.{errif}
use online_chat_proj.Socket
use online_chat_proj.Socket.{max_listen_num}
use online_chat_proj.Epoll.{action_update, action_delete, update_connection, bind_recv, bind_send}
use online_chat_proj.EventLoop

-- The text in a buffer, up to its first zero byte; `none` if there is none.
unfoldable pub c_string : List ℕ → Option (List ℕ)
c_string [] = none
c_string (zero ∷ bs) = some []
c_string (suc b ∷ bs) = Option.map (◌∷◌ (suc b)) (c_string bs)

-- `strcpy(wbuffer, rbuffer)`: the text and its zero byte over the start of the buffer.
unfoldable pub copy_text : List ℕ → Connection → Connection
copy_text text c = record c { wbuffer = overwrite 0 (text ++ 0 ∷ []) c.wbuffer }

-- The loop of `recvCallback` ends at the end of the stream, or where `recv` would block.
abbrev pub stops : Received → Bool
stops (bytes []) = true
stops (bytes (b ∷ bs)) = false
stops (failed e) = would_block e

-- What an answer that does not end the loop changes: the buffer, and `rlen + recv_bytes`.
unfoldable pub store_received : Received → Connection → Connection
unfolding set_r_len
store_received (bytes bs) c =
    set_r_len (c.rlen +ℤ pos (length bs))
      (record c { rbuffer = overwrite (pos_part c.rlen) bs c.rbuffer })
store_received (failed e) c = set_r_len (c.rlen +ℤ minus_one) c

abbrev is_some : Option ℕ → Bool
is_some none = false
is_some (some _) = true

-- `class Server`: addresses of the socket and of the loop
pub record Server : Type 0 where
  pub serv_sock : ℕ
  pub loop : Option ℕ

module _ {W : Type 0} where
  -- A use of a text that must end within its buffer.
  abbrev pub terminated : Option (List ℕ) → M W (List ℕ)
  terminated none = fail unterminated
  terminated (some text) = pure text

module _ {W : Type 0} (K : Kernel W) where
  -- `recv(fd, rbuffer + rlen, RECV_BUFFER_LENGTH - rlen, 0)`: the pointer must stay in the buffer.
  unfoldable pub recv_at : ℤ → ℤ → M W Received
  recv_at fd (pos n) =
      if leb n recv_buffer_length
      then syscall (K.recv fd (recv_buffer_length - n))
      else fail out_of_bounds
  recv_at fd (negsuc n) = fail out_of_bounds

  -- `write(fd, wbuffer, wlen)`: the length must not pass the end of the buffer.
  unfoldable pub write_from : Connection → ℤ → M W ℤ
  write_from c (pos n) =
      if leb n send_buffer_length
      then syscall (K.write (get_fd c) (take n (get_w_buffer c)))
      else fail out_of_bounds
  write_from c (negsuc n) = fail out_of_bounds

  -- `while(true)` of `recvCallback`, on fuel
  unfoldable pub recv_loop : ℕ → ℕ → M W (Unit {0})
  recv_loop zero p = λ _. out_of_fuel
  recv_loop (suc fuel) p = do
    c ← load p
    r ← recv_at (get_fd c) (get_cur_rlen c)
    if stops r then skip else do modify p (store_received r); recv_loop fuel p

  unfoldable pub recv_callback : ℕ → ℕ → M W (Unit {0})
  recv_callback fuel p = do
    modify p r_buffer_clear
    recv_loop fuel p
    c ← load p
    text ← terminated (c_string (get_r_buffer c))
    command (K.print (from_client text))
    modify p (set_event epollout)
    update_connection K p action_update

  unfoldable pub send_callback : ℕ → M W (Unit {0})
  send_callback p = do
    c ← load p
    text ← terminated (c_string (get_r_buffer c))
    modify p (copy_text text)
    modify p (set_w_len (get_cur_rlen c))
    c' ← load p
    _ ← write_from c' (get_cur_wlen c')
    update_connection K p action_delete

  -- `accept` never returns a null pointer, so the early return is never taken.
  unfoldable pub accept_callback : ℕ → M W (Unit {0})
  accept_callback p = do
    client ← Socket.accept K p
    c ← load client
    command (K.print (new_client (get_fd c)))
    command (set_non_blocking K c)
    modify client (set_event (bit_or epollet epollin))
    update_connection K client action_update
    bind_recv client recv_handler
    bind_send client send_handler

  -- Running what `std::bind` made.
  unfoldable pub call : ℕ → Callback → M W (Unit {0})
  call fuel f = elim f.handler [
    | accept_handler ↦ accept_callback f.conn
    | recv_handler ↦ recv_callback fuel f.conn
    | send_handler ↦ send_callback f.conn
  ]

  -- `Server::Server`. The check reads the member `loop` before it is set: `raw` is what the storage
  -- of the new server held.
  unfoldable pub new_server : Server → Option ℕ → M W Server
  new_server raw loop = do
    errif K (is_some raw.loop) "EventLoop * is nullptr!"
    sock ← Socket.new_socket K "127.0.0.1" (pos 8080)
    Socket.listen K sock max_listen_num
    modify sock (set_event (bit_or epollin epollet))
    c ← load sock
    command (set_non_blocking K c)
    _ ← non_null loop
    update_connection K sock action_update
    bind_recv sock accept_handler
    pure (record { serv_sock = sock; loop = loop })

  -- `loop->start(timeout)` with the callbacks above: the first `n` rounds, and `fuel` for each loop.
  unfoldable pub serve : ℕ → ℕ → ℤ → M W (Unit {0})
  serve fuel = EventLoop.start (call fuel) K
