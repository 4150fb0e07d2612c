-- ===== src/ClientApp/Talks.antt =====
-- apps/client.cpp from its start over any number of rounds.
use online_chat_proj.Base.{ℕ, ◌-◌, ◌<◌, ◌≡◌, refl, false, some, List, [], ◌∷◌, ◌++◌}
use online_chat_proj.Base.Lists.{length, zeros}
use online_chat_proj.Base.Int.{ℤ, pos, minus_one, ◌==ℤ◌}
use online_chat_proj.Os.{Kernel, from_server}
use online_chat_proj.InetAddress.{address}
use online_chat_proj.Machine.{Machine, ok}
use online_chat_proj.Server.{c_string}
use online_chat_proj.Server.Receive.{Delivers}
use online_chat_proj.Server.Text.{text}
use online_chat_proj.ServerApp.{buffer_length}
use online_chat_proj.ServerApp.Exchange.{at_world}
use online_chat_proj.ClientApp.{Console, sent, errif, exchanges, client_main}
use online_chat_proj.ClientApp.Exchange.{exchange_lem}

-- What the client's buffer holds after an answer.
abbrev pub held : List ℕ → List ℕ
held bs = bs ++ zeros (buffer_length - length bs)

module _ {W : Type 0} (K : Kernel W) (T : Console W) (fd : ℤ) where
  -- The rounds that answers make, from a state and what the buffer holds: in each `fgets` leaves a
  -- text in the buffer, that text is sent, `send` returns, and an answer shorter than the buffer comes, in any chunks,
  -- of which the text is printed.
  pub data Talks : W → List ℕ → List (List ℕ) → W → Type 0 where
    silent : {w : W} {buffer : List ℕ} → Talks w buffer [] w
    answered :
        {w w1 v w2 w' : W} {r : ℤ} {buffer after line bs : List ℕ} {answers : List (List ℕ)}
        → T.fgets buffer buffer_length w ≡ (after, w1)
        → c_string after ≡ some line
        → T.send fd line w1 ≡ sent r v
        → Delivers K fd buffer_length v bs w2
        → length bs < buffer_length
        → Talks (K.print (from_server (text bs)) w2) (held bs) answers w'
        → Talks w buffer (bs ∷ answers) w'

  exchanges-Talks :
      (fuel : ℕ) (answers : List (List ℕ)) (m : Machine W) {w w' : W} {buffer : List ℕ}
      → buffer_length < fuel
      → Talks w buffer answers w'
      → exchanges K T fuel (length answers) fd buffer (at_world m w) ≡ ok tt (at_world m w')
  unfolding exchanges
  exchanges-Talks fuel [] m enough silent = refl
  exchanges-Talks fuel (bs ∷ answers) m {w} enough (answered got text_ends takes d short rest) =
      rw (exchange_lem K T fuel fd (at_world m w) got text_ends takes d short enough)
        (exchanges-Talks fuel answers m enough rest)

module _ {W : Type 0} (K : Kernel W) (T : Console W) (m : Machine W) where
  abbrev pub created : ℤ × W
  created = K.socket m.world

  abbrev pub connected : ℤ × W
  connected =
      let a = address K "127.0.0.1" (pos 8080) in T.connect created.0 a.addr a.addr_sz created.1

  -- Where the client gets a socket and connects, it gets through as many rounds as there are answers
  -- to its lines, each on a `send` that returns: in each it sends the text that `fgets` left in its buffer, and prints the text of
  -- the answer. The buffer that `fgets` is given holds the answer before, and in the first round
  -- what it held at the start.
  pub client_main-Talks :
      (raw : List ℕ) (fuel : ℕ) (answers : List (List ℕ)) {w' : W}
      → (created.0 ==ℤ minus_one) ≡ false
      → (connected.0 ==ℤ minus_one) ≡ false
      → buffer_length < fuel
      → Talks K T created.0 connected.1 raw answers w'
      → client_main K T raw fuel (length answers) m ≡ ok tt (at_world m w')
  unfolding client_main errif
  client_main-Talks raw fuel answers c d enough talks =
      rw (c, d) (exchanges-Talks K T created.0 fuel answers m enough talks)
