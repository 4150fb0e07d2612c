-- ===== src/ServerApp/Overread.antt =====
-- Which messages make `printf("%s")` in apps/server.cpp read past the buffer.
use online_chat_proj.Base.{ℕ, ◌-◌, ◌<◌, ◌≡◌, ◌↔◌, refl, inl, inr, Option-cases, List, [], ◌++◌}
use online_chat_proj.Base.Lists.{length, zeros}
use online_chat_proj.Base.Int.{ℤ}
use online_chat_proj.Os.{Kernel}
use online_chat_proj.Machine.{Machine, fault, unterminated}
use online_chat_proj.Server.{c_string}
use online_chat_proj.Server.Receive.{Delivers}
use online_chat_proj.Server.Overread.{Overlong, c_string-Overlong_iff, length-Delivers}
use online_chat_proj.ServerApp.{buffer_length, read_client}
use online_chat_proj.ServerApp.Exchange.{at_world, read_loop-holds}

module _ {W : Type 0} (K : Kernel W) (m : Machine W) (fd : ℤ) where
  -- Whatever a client's descriptor delivers: the branch for EPOLLIN reads past the buffer exactly
  -- where the message fills it and has no zero byte.
  pub read_client-overread_iff :
      (fuel : ℕ) (epfd : ℤ) {w w' : W} {bs : List ℕ}
      → Delivers K fd buffer_length w bs w'
      → buffer_length < fuel
      → (read_client K fuel epfd fd (at_world m w) ≡ fault unterminated) ↔ Overlong buffer_length bs
  unfolding read_client
  read_client-overread_iff fuel epfd {w} {w'} {bs} d enough =
      let (to, from) = c_string-Overlong_iff buffer_length bs (length-Delivers d) in
      rw (read_loop-holds K m fd fuel [] d refl enough)
        (elim (Option-cases (c_string (bs ++ zeros (buffer_length - length bs)))) [
          | inl q ↦ rw q ((λ h. to q), (λ h. refl))
          | inr (t, q) ↦ rw q ((λ h. cc), (λ h. cc (from h, q)))
        ])
