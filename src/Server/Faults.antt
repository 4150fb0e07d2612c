-- ===== src/Server/Faults.antt =====
-- The inputs on which `recvCallback` leaves its buffer.
use online_chat_proj.Base.{ℕ, suc, ◌-◌, ◌<◌, ◌≡◌, false, List, [], arith}
use mathlib.Core.List.{append-nil}
use online_chat_proj.Base.Lists.{length, zeros}
use online_chat_proj.Base.Int.{pos}
use online_chat_proj.Os.{Kernel, Errno, failed, would_block}
use online_chat_proj.Connection.{Connection, recv_buffer_length, r_buffer_clear, set_r_len}
use online_chat_proj.Machine.{Machine, fault, out_of_bounds, unterminated}
use online_chat_proj.Machine.Object.{holding, load-holding, modify-holding}
use online_chat_proj.Server.{store_received, recv_at, recv_loop, recv_callback}
use online_chat_proj.Server.Receive.{filled, Delivers, recv_loop-filled}
use online_chat_proj.Server.Text.{NoZero}
use online_chat_proj.Server.Overread.{c_string-none}
use online_chat_proj.Server.Echo.{cleared}

module _ {W : Type 0} (K : Kernel W) (m : Machine W) (p : ℕ) (c : Connection) where
  -- A message that fills the buffer and has no zero byte: `printf` reads past the end.
  pub recv_callback-overlong :
      (fuel : ℕ) {w w' : W} {bs : List ℕ}
      → c.rlen ≡ pos 0
      → Delivers K c.fd recv_buffer_length w bs w'
      → length bs ≡ recv_buffer_length
      → NoZero bs
      → recv_buffer_length < fuel
      → recv_callback K fuel p (holding m w p c) ≡ fault unterminated
  unfolding recv_callback zeros
  recv_callback-overlong fuel {w} {w'} {bs} e d full none_zero enough =
      let no_room : (recv_buffer_length - length bs) ≡ 0 = omega arith in
      rw (
        modify-holding m w p c r_buffer_clear,
        cleared K m p c e,
        recv_loop-filled K fuel [] p m c d (omega arith) enough,
        load-holding m w' p (filled c bs),
        no_room,
        append-nil bs,
        c_string-none bs none_zero,
      )

  -- An error of `recv` other than "would block" is added to the length as if it were a count, and
  -- the next call of `recv` is given an address before the buffer.
  pub recv_callback-error :
      (fuel : ℕ) {w w' : W} {e : Errno}
      → c.rlen ≡ pos 0
      → K.recv c.fd recv_buffer_length w ≡ (failed e, w')
      → would_block e ≡ false
      → recv_callback K (suc (suc fuel)) p (holding m w p c) ≡ fault out_of_bounds
  unfolding recv_callback recv_loop store_received set_r_len recv_at
  recv_callback-error fuel {w} {w'} {e} z q hard = rw (
    modify-holding m w p c r_buffer_clear,
    cleared K m p c z,
    load-holding m w p (filled c []),
    q,
    hard,
    modify-holding m w' p (filled c []) (store_received (failed e)),
    load-holding m w' p (store_received (failed e) (filled c [])),
  )
