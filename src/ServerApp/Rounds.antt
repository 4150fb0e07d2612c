-- ===== src/ServerApp/Rounds.antt =====
-- Rounds of the loop of apps/server.cpp with clients that come one after the other.
use online_chat_proj.Base.{subst, sym, suc, ◌*◌, arith, ℕ, ◌≡◌, ◌≢◌, ◌<◌, none, List, [], ◌∷◌}
use online_chat_proj.Base.Lists.{length}
use online_chat_proj.Base.Int.{ℤ, minus_one}
use online_chat_proj.Os.{Kernel, epollin, ctl_del, from_client}
use online_chat_proj.Server.Receive.{Delivers}
use online_chat_proj.Server.Text.{text}
use online_chat_proj.ServerApp.{buffer_length, max_epoll_connection}
use online_chat_proj.ServerApp.Deeds.{
  accepted, after_accept, admit, drop_client, done, deed, DeedRounds, over, round,
}

module _ {W : Type 0} (K : Kernel W) (epfd serverfd : ℤ) where
  -- What the system does in two rounds from state `w`: it reports first the listening socket,
  -- whatever the mask, and then the client that is accepted, with EPOLLIN and a message shorter than
  -- the buffer. In the last state the client was announced, the text of its message printed up to
  -- the first zero byte, and its descriptor closed and then taken out.
  pub data Guest : W → List ℕ → W → Type 0 where
    guest :
        {w w1 w2 w3 : W} {flags : ℕ} {bs : List ℕ}
        → K.epoll_wait epfd max_epoll_connection minus_one w
          ≡ (record { events = flags; fd = serverfd } ∷ [], w1)
        → (accepted K epfd serverfd w1).0.0 ≢ minus_one
        → (accepted K epfd serverfd w1).0.0 ≢ serverfd
        → K.epoll_wait epfd max_epoll_connection minus_one (after_accept K epfd serverfd w1)
          ≡ (record { events = epollin; fd = (accepted K epfd serverfd w1).0.0 } ∷ [], w2)
        → Delivers K (accepted K epfd serverfd w1).0.0 buffer_length w2 bs w3
        → length bs < buffer_length
        → Guest w bs
            (K.epoll_ctl epfd ctl_del
              (accepted K epfd serverfd w1).0.0
              none
              (K.close (accepted K epfd serverfd w1).0.0 (K.print (from_client (text bs)) w3))).1

  -- Any number of clients, one after the other.
  pub data Guests : W → List (List ℕ) → W → Type 0 where
    nobody : {w : W} → Guests w [] w
    next_one :
        {w w' w'' : W} {bs : List ℕ} {msgs : List (List ℕ)}
        → Guest w bs w'
        → Guests w' msgs w''
        → Guests w (bs ∷ msgs) w''

  -- A visit is two rounds of one event each.
  pub Guests-DeedRounds :
      (msgs : List (List ℕ)) {w w' : W}
      → Guests w msgs w'
      → DeedRounds K epfd serverfd (length msgs * 2) w w'
  Guests-DeedRounds [] nobody = over
  Guests-DeedRounds (bs ∷ msgs) {w} {w'} (next_one (guest r1 valid other r2 d short) vs) =
      let two : length (bs ∷ msgs) * 2 ≡ suc (suc (length msgs * 2)) = omega arith in
      subst (λ n. DeedRounds K epfd serverfd n w w') (sym two)
        (round r1 (deed (admit valid) done)
          (round r2 (deed (drop_client other d short) done) (Guests-DeedRounds msgs vs)))
