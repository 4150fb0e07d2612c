-- ===== src/Server/Echo.antt =====
-- `recvCallback` and `sendCallback` of src/Server.cpp on one connection: what reaches the peer.
use online_chat_proj.Base.{
  ℕ, ◌+◌, ◌-◌, ◌<◌, ◌≡◌, ◌∙◌, ap, true, none, List, [], ◌∷◌, ◌++◌, arith, leb, update,
}
use online_chat_proj.Base.Lists.{length, take, drop, zeros}
use online_chat_proj.Base.Int.{pos}
use online_chat_proj.Os.{Kernel, from_client, epollout}
use online_chat_proj.Connection.{
  Connection, recv_buffer_length, set_event, r_buffer_clear, set_w_len,
}
use online_chat_proj.Machine.{Machine, ok, ◌>>◌}
use online_chat_proj.Machine.Object.{holding, load-holding, modify-holding}
use online_chat_proj.Epoll.Update.{
  with_conn, after_mod, after_remove, update_watched, delete_watched,
}
use online_chat_proj.Server.{copy_text, write_from, recv_callback, send_callback}
use online_chat_proj.Server.Receive.{filled, Delivers, recv_loop-filled}
use online_chat_proj.Server.Text.{text, NoZero, reply, c_string-zeros, reply-NoZero, reply-zero}

module _ {W : Type 0} (K : Kernel W) (m : Machine W) (p : ℕ) (c : Connection) where
  -- The connection after `recvCallback`: watched for output, with `bs` in its buffer.
  abbrev pub answering : List ℕ → Connection
  answering bs = set_event epollout (filled c bs)

  abbrev pub after_recv : List ℕ → W → W
  after_recv bs w = after_mod K m.epoll (answering bs) (K.print (from_client (text bs)) w)

  pub cleared : c.rlen ≡ pos 0 → r_buffer_clear c ≡ filled c []
  unfolding r_buffer_clear
  cleared e = ap (λ r. record c { rbuffer = zeros recv_buffer_length; rlen = r }) e

  pub recv_callback_lem :
      (fuel : ℕ) {w w' : W} {bs : List ℕ}
      → c.rlen ≡ pos 0
      → c.in_epoll ≡ true
      → Delivers K c.fd recv_buffer_length w bs w'
      → length bs < recv_buffer_length
      → recv_buffer_length < fuel
      → recv_callback K fuel p (holding m w p c)
        ≡ ok tt (holding m (after_recv bs w') p (answering bs))
  unfolding recv_callback set_event
  recv_callback_lem fuel {w} {w'} {bs} e watched d short enough =
      rw
        (
          modify-holding m w p c r_buffer_clear,
          cleared e,
          recv_loop-filled K fuel [] p m c d (omega arith) enough,
          load-holding m w' p (filled c bs),
          c_string-zeros bs (recv_buffer_length - length bs) (omega arith),
          modify-holding m (K.print (from_client (text bs)) w') p (filled c bs)
              (set_event epollout),
        )
        (update_watched K m (K.print (from_client (text bs)) w') p (answering bs) watched)

module _ {W : Type 0} (K : Kernel W) (m : Machine W) (p : ℕ) (c : Connection) (bs : List ℕ) where
  -- The connection is gone: closed, taken out of both sets, and deleted.
  abbrev pub forgotten : W → Machine W
  forgotten w = record m {
    world = after_remove K m.epoll c w;
    heap = update m.heap p none;
    epoll = with_conn m.epoll c.fd none;
  }

  abbrev pub sending : Connection
  sending = set_w_len (pos (length bs)) (copy_text (text bs) (filled c bs))

  write_from_short :
      (w : W)
      → length bs < recv_buffer_length
      → write_from K sending sending.wlen (holding m w p sending)
        ≡ ok
            (K.write c.fd (reply c.wbuffer bs) w).0
            (holding m (K.write c.fd (reply c.wbuffer bs) w).1 p sending)
  unfolding write_from set_w_len copy_text reply
  write_from_short w h = let fits : leb (length bs) 2048 ≡ true = ground arith in rw fits

  pub send_callback_lem :
      (w : W)
      → c.in_epoll ≡ true
      → length bs < recv_buffer_length
      → send_callback K p (holding m w p (filled c bs))
        ≡ ok tt (forgotten (K.write c.fd (reply c.wbuffer bs) w).1)
  unfolding send_callback set_w_len copy_text
  send_callback_lem w watched short =
      rw
        (
          load-holding m w p (filled c bs),
          c_string-zeros bs (recv_buffer_length - length bs) (omega arith),
          modify-holding m w p (filled c bs) (copy_text (text bs)),
          modify-holding m w p (copy_text (text bs) (filled c bs)) (set_w_len (pos (length bs))),
          load-holding m w p sending,
          write_from_short w short,
        )
        (delete_watched K m _ p sending watched)

module _ {W : Type 0} (K : Kernel W) (m : Machine W) (p : ℕ) (c : Connection) where
  -- What the system sees while a connection that has just been accepted sends `bs`: the message is
  -- printed, the descriptor is watched for output, `sent` is written, and the descriptor is taken
  -- out and closed.
  abbrev pub exchange : List ℕ → List ℕ → W → W
  exchange bs sent w = after_remove K m.epoll c (K.write c.fd sent (after_recv K m p c bs w)).1

  abbrev pub exchanged : List ℕ → List ℕ → W → Machine W
  exchanged bs sent w = record m {
    world = exchange bs sent w;
    heap = update m.heap p none;
    epoll = with_conn m.epoll c.fd none;
  }

  -- A receive and the send that follows it.
  recv_send_lem :
      (fuel : ℕ) {w w' : W} {bs : List ℕ}
      → c.rlen ≡ pos 0
      → c.in_epoll ≡ true
      → Delivers K c.fd recv_buffer_length w bs w'
      → length bs < recv_buffer_length
      → recv_buffer_length < fuel
      → (recv_callback K fuel p >> send_callback K p) (holding m w p c)
        ≡ ok tt (exchanged bs (reply c.wbuffer bs) w')
  unfolding set_event
  recv_send_lem fuel {w} {w'} {bs} e watched d short enough =
      rw (recv_callback_lem K m p c fuel e watched d short enough)
        (send_callback_lem K m p (set_event epollout c) bs (after_recv K m p c bs w') watched short)

  -- A peer that sends a message `bs` with no zero byte, shorter than the buffer, is sent exactly
  -- `bs`: the receive and the send that follows it return, with the message printed, the answer
  -- written, and the connection taken out of both sets, closed and deleted.
  pub echo :
      (fuel : ℕ) {w w' : W} {bs : List ℕ}
      → c.rlen ≡ pos 0
      → c.in_epoll ≡ true
      → Delivers K c.fd recv_buffer_length w bs w'
      → length bs < recv_buffer_length
      → recv_buffer_length < fuel
      → NoZero bs
      → (recv_callback K fuel p >> send_callback K p) (holding m w p c) ≡ ok tt (exchanged bs bs w')
  echo fuel {w} {w'} {bs} e watched d short enough none_zero =
      recv_send_lem fuel e watched d short enough
      ∙ ap (λ sent. ok tt (exchanged bs sent w')) (reply-NoZero c.wbuffer bs none_zero)

  -- Of a message `xs ++ 0 ∷ ys`, with no zero byte in `xs`, only `xs` and the zero come back. The
  -- rest of the answer, as many bytes as `ys` has, is what the send buffer held before.
  pub echo_zero :
      (fuel : ℕ) {w w' : W} (xs ys : List ℕ)
      → c.rlen ≡ pos 0
      → c.in_epoll ≡ true
      → Delivers K c.fd recv_buffer_length w (xs ++ 0 ∷ ys) w'
      → length (xs ++ 0 ∷ ys) < recv_buffer_length
      → recv_buffer_length < fuel
      → NoZero xs
      → (recv_callback K fuel p >> send_callback K p) (holding m w p c)
        ≡ ok tt (
            exchanged
              (xs ++ 0 ∷ ys)
              (xs ++ 0 ∷ take (length ys) (drop (length xs + 1) c.wbuffer))
              w')
  echo_zero fuel {w} {w'} xs ys e watched d short enough none_zero =
      recv_send_lem fuel e watched d short enough
      ∙ ap (λ sent. ok tt (exchanged (xs ++ 0 ∷ ys) sent w')) (reply-zero c.wbuffer xs ys none_zero)
