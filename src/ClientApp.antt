-- ===== src/ClientApp.antt =====
-- apps/client.cpp: a client that sends each line of its input and prints the answer. The buffer is
-- of the same size as that of apps/server.cpp, and the answer is read by the same steps.
pub mod Exchange
pub mod Talks
pub mod Total
pub mod Course
use Prim.Native.String.{String}
use Prim.Native.Nat.{bit_or}
use online_chat_proj.Base.{ℕ, zero, suc, Bool, true, false, List, if◌then◌else◌}
use online_chat_proj.Base.Int.{ℤ, pos, minus_one, ◌==ℤ◌}
use online_chat_proj.Os.{Kernel, SockAddr, from_server, o_nonblock}
use online_chat_proj.InetAddress.{address}
use online_chat_proj.Machine.{M, ok, exited, out_of_fuel, pure, skip, syscall, command, ◌>>=◌, ◌>>◌}
use online_chat_proj.Server.{c_string, stops, terminated}
use online_chat_proj.ServerApp.{buffer_length, Buffer, cleared_buffer, receive_at, store_answer}

-- What `send` comes to: it returns, or the peer takes nothing more and the signal SIGPIPE, which the
-- program leaves at its default, ends the process.
pub data Sent (W : Type 0) : Type 0 where
  sent : ℤ → W → Sent W
  broken : W → Sent W

abbrev pub after_send : {W : Type 0} → Sent W → M W ℤ
after_send (sent n w) m = ok n (record m { world = w })
after_send (broken w) m = exited w

-- The calls that only the client makes. `fgets` is given the buffer and its size, and returns the
-- buffer as it left it; its result, null at the end of the input, is not looked at.
pub record Console (W : Type 0) : Type 0 where
  pub connect : ℤ → SockAddr → ℕ → W → ℤ × W
  pub fgets : List ℕ → ℕ → W → List ℕ × W
  pub send : ℤ → List ℕ → W → Sent W

-- The client has an `errif` of its own.
unfoldable pub errif : {W : Type 0} → Kernel W → Bool → String → M W (Unit {0})
errif K false msg m = ok tt m
errif K true msg m = exited (K.perror msg m.world)

-- `setNonBlocking`, which nothing calls
unfoldable pub set_non_blocking : {W : Type 0} → Kernel W → ℤ → W → W
set_non_blocking K fd w = let r = K.get_flags fd w in K.set_flags fd (bit_or r.0 o_nonblock) r.1

module _ {W : Type 0} (K : Kernel W) (T : Console W) where
  -- The inner loop, on fuel.
  unfoldable pub answer_loop : ℕ → ℤ → Buffer → M W Buffer
  answer_loop zero fd b = λ _. out_of_fuel
  answer_loop (suc fuel) fd b = do
    r ← receive_at K fd b.len
    if stops r then pure b else answer_loop fuel fd (store_answer r b)

  -- `send`, whose result is not looked at
  unfoldable pub sending : ℤ → List ℕ → M W ℤ
  sending fd text m = after_send (T.send fd text m.world) m

  -- The body of `while(true)`, from one content of the buffer to the next.
  unfoldable pub exchange : ℕ → ℤ → List ℕ → M W (List ℕ)
  exchange fuel fd buffer = do
    line ← syscall (T.fgets buffer buffer_length)
    text ← terminated (c_string line)
    _ ← sending fd text
    b ← answer_loop fuel fd cleared_buffer
    shown ← terminated (c_string b.chars)
    command (K.print (from_server shown))
    pure b.chars

  -- The first `n` rounds of it.
  unfoldable pub exchanges : ℕ → ℕ → ℤ → List ℕ → M W (Unit {0})
  exchanges fuel zero fd buffer = skip
  exchanges fuel (suc n) fd buffer = do next ← exchange fuel fd buffer; exchanges fuel n fd next

  -- `main`; `raw` is what the buffer held before it was set.
  unfoldable pub client_main : List ℕ → ℕ → ℕ → M W (Unit {0})
  client_main raw fuel n = do
    clientfd ← syscall K.socket
    errif K (clientfd ==ℤ minus_one) "socket create failed !"
    let a = address K "127.0.0.1" (pos 8080)
    res ← syscall (T.connect clientfd a.addr a.addr_sz)
    errif K (res ==ℤ minus_one) "connect error!"
    exchanges fuel n clientfd raw
