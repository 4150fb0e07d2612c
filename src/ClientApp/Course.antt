-- ===== src/ClientApp/Course.antt =====
-- apps/client.cpp from its start, whatever is read from its input and whatever comes back.
use online_chat_proj.Base.{
  ℕ, zero, suc, ◌-◌, arith, ◌<◌, ◌≡◌, ◌⊎◌, inl, inr, refl, ap, true, false, some, List, [], ◌∷◌,
  Bool-cases,
}
use online_chat_proj.Base.Lists.{length}
use online_chat_proj.Base.Int.{ℤ, minus_one, ◌==ℤ◌}
use online_chat_proj.Os.{Kernel, from_server}
use online_chat_proj.Machine.{Machine, Run, ok, exited}
use online_chat_proj.Server.Receive.{Brief, Delivers}
use online_chat_proj.Server.Text.{text, c_string-zeros}
use online_chat_proj.Server.{c_string}
use online_chat_proj.ClientApp.Exchange.{Sent-cases, exchange_lem, exchange-broken}
use online_chat_proj.Bounds.Policies.{Readable}
use online_chat_proj.ServerApp.{buffer_length}
use online_chat_proj.ServerApp.Exchange.{at_world}
use online_chat_proj.ClientApp.{Console, sent, broken, errif, exchanges, client_main}
use online_chat_proj.ClientApp.Talks.{held, Talks, silent, answered, created, connected}
use online_chat_proj.ClientApp.Total.{LeavesText}

-- What the client's buffer holds is a text that ends.
held-Readable : (bs : List ℕ) → length bs < buffer_length → Readable (held bs)
held-Readable bs short = (text bs, c_string-zeros bs (buffer_length - length bs) (omega arith))

module _ {W : Type 0} (K : Kernel W) (T : Console W) (fd : ℤ) where
  -- The rounds that answers make, and then a round whose `send` ends the process.
  pub data Cut : W → List ℕ → List (List ℕ) → W → Type 0 where
    cut :
        {w w1 w' : W} {buffer after line : List ℕ}
        → T.fgets buffer buffer_length w ≡ (after, w1)
        → c_string after ≡ some line
        → T.send fd line w1 ≡ broken w'
        → Cut w buffer [] w'
    answered_first :
        {w w1 v w2 w' : W} {r : ℤ} {buffer after line bs : List ℕ} {answers : List (List ℕ)}
        → T.fgets buffer buffer_length w ≡ (after, w1)
        → c_string after ≡ some line
        → T.send fd line w1 ≡ sent r v
        → Delivers K fd buffer_length v bs w2
        → length bs < buffer_length
        → Cut (K.print (from_server (text bs)) w2) (held bs) answers w'
        → Cut w buffer (bs ∷ answers) w'

  -- What `n` rounds come to: as many answers, or fewer and then the end of the process.
  abbrev pub Through : ℕ → W → List ℕ → Machine W → Run W (Unit {0}) → Type 0
  Through n w buffer m run =
      (answers : List (List ℕ)) × (w' : W) × (length answers ≡ n)
      × Talks K T fd w buffer answers w'
      × (run ≡ ok tt (at_world m w'))

  abbrev pub Stopped : ℕ → W → List ℕ → Run W (Unit {0}) → Type 0
  Stopped n w buffer run =
      (answers : List (List ℕ)) × (w' : W) × (length answers < n)
      × Cut w buffer answers w'
      × (run ≡ exited w')

  module _ (fuel : ℕ) (enough : buffer_length < fuel) (brief : Brief K buffer_length)
      (leaves : LeavesText T) (m : Machine W) where
    abbrev runs : ℕ → W → List ℕ → Run W (Unit {0})
    runs n w buffer = exchanges K T fuel n fd buffer (at_world m w)

    abbrev Passes : ℕ → W → List ℕ → Type 0
    Passes n w buffer =
        Through n w buffer m (runs n w buffer) ⊎ Stopped n w buffer (runs n w buffer)

    pub rounds_through : (n : ℕ) (w : W) (buffer : List ℕ) → Readable buffer → Passes n w buffer
    unfolding exchanges
    rounds_through zero w buffer readable = inl ([], w, refl, silent, refl)
    rounds_through (suc n) w buffer readable =
        let (line, ends) = leaves buffer w readable in
        elim (Sent-cases (T.send fd line (T.fgets buffer buffer_length w).1)) [
          | inr (w', breaks) ↦
              let round = exchange-broken K T fuel fd (at_world m w) refl ends breaks in
              inr ([], w', omega arith, cut refl ends breaks, rw round refl)
          | inl (r, v, takes) ↦
              let (bs, w2, d, short) = brief fd v in
              let next = K.print (from_server (text bs)) w2 in
              let round = exchange_lem K T fuel fd (at_world m w) refl ends takes d short enough in
              elim (rounds_through n next (held bs) (held-Readable bs short)) [
                | inl (answers, w', e, talks, run) ↦ inl (
                  bs ∷ answers,
                  w',
                  ap suc e,
                  answered refl ends takes d short talks,
                  rw round run,
                )
                | inr (answers, w', le, cuts, run) ↦ inr (
                  bs ∷ answers,
                  w',
                  omega (arith, le),
                  answered_first refl ends takes d short cuts,
                  rw round run,
                )
              ]
        ]

module _ {W : Type 0} (K : Kernel W) (T : Console W) where
  module _ (m : Machine W) where
    -- The call that fails, and what it leaves.
    pub data Fails : W → Type 0 where
      no_socket :
          ((created K T m).0 ==ℤ minus_one) ≡ true
          → Fails (K.perror "socket create failed !" (created K T m).1)
      unconnected :
          ((created K T m).0 ==ℤ minus_one) ≡ false
          → ((connected K T m).0 ==ℤ minus_one) ≡ true
          → Fails (K.perror "connect error!" (connected K T m).1)

    client_main-Fails :
        (raw : List ℕ) (fuel n : ℕ) {w' : W} → Fails w' → client_main K T raw fuel n m ≡ exited w'
    unfolding client_main errif
    client_main-Fails raw fuel n (no_socket c) = rw c refl
    client_main-Fails raw fuel n (unconnected c d) = rw (c, d) refl

    -- No call of the start fails.
    abbrev pub Granted : Type 0
    Granted =
        ((created K T m).0 ==ℤ minus_one ≡ false) × ((connected K T m).0 ==ℤ minus_one ≡ false)

    -- The client connects, and gets through its rounds or is ended by `send`.
    abbrev pub GoesOn : List ℕ → ℕ → ℕ → Type 0
    GoesOn raw fuel n =
        Granted
        × (Through K T (created K T m).0 n (connected K T m).1 raw m (client_main K T raw fuel n m)
            ⊎ Stopped K T (created K T m).0 n (connected K T m).1 raw
                (client_main K T raw fuel n m))

    -- If a receive loop always ends, at the end of the stream or where nothing is left to read, with
    -- less handed over than the buffer holds, `fgets` leaves a text that ends where it was given one,
    -- the buffer holds such a text at first, and there is more fuel than the buffer has bytes: the
    -- client ends with the message of the call that fails, for a socket or to connect; or neither
    -- fails, and of any number of rounds it gets through all, or through fewer and is then ended by
    -- the signal that its next `send` raises. In each round before that it sends the text that `fgets`
    -- left in its buffer and prints the text of the answer.
    pub client_main-GoesOn :
        (raw : List ℕ) (fuel n : ℕ)
        → buffer_length < fuel
        → Brief K buffer_length
        → LeavesText T
        → Readable raw
        → ((w' : W) × Fails w' × (client_main K T raw fuel n m ≡ exited w')) ⊎ GoesOn raw fuel n
    unfolding client_main errif
    client_main-GoesOn raw fuel n enough brief leaves readable =
        elim (Bool-cases ((created K T m).0 ==ℤ minus_one)) [
          | inl bad ↦ let f = no_socket bad in inl (_, f, client_main-Fails raw fuel n f)
          | inr c ↦ elim (Bool-cases ((connected K T m).0 ==ℤ minus_one)) [
            | inl bad ↦ let f = unconnected c bad in inl (_, f, client_main-Fails raw fuel n f)
            | inr d ↦ inr (
              (c, d),
              rw (c, d)
                  (rounds_through K T (created K T m).0 fuel enough brief leaves m n
                    (connected K T m).1 raw readable),
            )
          ]
        ]
