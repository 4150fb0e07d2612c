-- ===== src/Chat.antt =====
-- A line from the input of apps/client.cpp through the reactor of src/Server.cpp and back. The
-- client and the reactor run on systems of their own.
use online_chat_proj.Base.{ℕ, ◌-◌, ◌<◌, ◌≡◌, ap, ◌∙◌, true, some, List, ◌++◌, arith}
use online_chat_proj.Base.Lists.{length, zeros}
use online_chat_proj.Base.Int.{ℤ, pos}
use online_chat_proj.Os.{Kernel, from_server}
use online_chat_proj.Connection.{Connection, recv_buffer_length}
use online_chat_proj.Machine.{Machine, ok, ◌>>◌}
use online_chat_proj.Machine.Object.{holding}
use online_chat_proj.Server.{c_string, recv_callback, send_callback}
use online_chat_proj.Server.Receive.{Delivers}
use online_chat_proj.Server.Text.{reply, text-NoZero, reply-NoZero, c_string-NoZero}
use online_chat_proj.Server.Echo.{exchanged, echo}
use online_chat_proj.ServerApp.{buffer_length}
use online_chat_proj.ServerApp.Exchange.{at_world}
use online_chat_proj.ClientApp.{Console, sent, exchange}
use online_chat_proj.ClientApp.Exchange.{exchange_lem}

module _ {S W : Type 0} (server : Kernel S) (K : Kernel W) (T : Console W) where
  -- A line that `fgets` leaves in the client's buffer, shorter than it, reaches the reactor on a
  -- connection that is watched and has nothing in its buffer, and what the reactor answers reaches the
  -- client, each in any chunks, where `send` returns: the client sends the line, the reactor answers with the same line and
  -- drops the connection, and the client prints that line and keeps it in its buffer.
  pub line_returns :
      (fuel : ℕ) (p : ℕ) (c : Connection) (m : Machine S) {s s' : S} (fd : ℤ) (n : Machine W)
      {w v w' : W} {r : ℤ} {before after line : List ℕ}
      → T.fgets before buffer_length n.world ≡ (after, w)
      → c_string after ≡ some line
      → length line < buffer_length
      → c.rlen ≡ pos 0
      → c.in_epoll ≡ true
      → Delivers server c.fd recv_buffer_length s line s'
      → T.send fd line w ≡ sent r v
      → Delivers K fd buffer_length v (reply c.wbuffer line) w'
      → recv_buffer_length < fuel
      → ((recv_callback server fuel p >> send_callback server p) (holding m s p c)
          ≡ ok tt (exchanged server m p c line line s'))
        × (exchange K T fuel fd before n
            ≡ ok
                (line ++ zeros (buffer_length - length line))
                (at_world n (K.print (from_server line) w')))
  line_returns fuel p c m {s} {s'} fd n {w} {v} {w'} {r} {before} {after} {line} got ends short
        empty watched there takes back enough =
      let whole = c_string-NoZero after ends in
      let same = reply-NoZero c.wbuffer line whole in
      (
        echo server m p c fuel empty watched there (omega arith) enough whole,
        exchange_lem K T fuel fd n got ends takes (rw same at back) short (omega arith)
            ∙ ap
                (λ shown.
                  ok (line ++ zeros (buffer_length - length line))
                    (at_world n (K.print (from_server shown) w')))
                (text-NoZero line whole),
      )
