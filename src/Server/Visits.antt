-- ===== src/Server/Visits.antt =====
-- Clients that come to the reactor of src/Server.cpp one after the other, as the system shows them.
use Prim.Native.Nat.{bit_or}
use online_chat_proj.Base.{ℕ, ◌≡◌, ◌≢◌, ◌<◌, true, false, none, some, List, [], ◌∷◌, ◌+◌, update}
use online_chat_proj.Base.Int.{ℤ}
use online_chat_proj.Base.Lists.{length}
use online_chat_proj.Os.{
  Kernel, SockAddr, EpollEvent, has_flag, epollin, epollout, ctl_add, ctl_mod, ctl_del, new_client,
  from_client, o_nonblock,
}
use online_chat_proj.InetAddress.{empty_address}
use online_chat_proj.Connection.{Connection, accept_handler, recv_buffer_length}
use online_chat_proj.Machine.{Machine}
use online_chat_proj.Epoll.{max_epoll_conn}
use online_chat_proj.Server.Accept.{watch}
use online_chat_proj.Server.Receive.{Delivers}
use online_chat_proj.Server.Text.{text, NoZero}

module _ {W : Type 0} (K : Kernel W) (epfd fd : ℤ) where
  -- What the system answers to the `accept` of the listening socket `fd` in the first round, which begins in state `w`.
  abbrev pub accepted : W → (ℤ × SockAddr) × W
  accepted w = K.accept fd empty_address.addr w

  abbrev pub client : W → ℤ
  client w = (accepted w).0.0

  -- The state after the first round: the descriptor `g` of the client is printed, made non-blocking,
  -- and watched for input.
  abbrev pub after_accept : W → W
  after_accept w =
      let g = (accepted w).0.0 in
      let v = K.print (new_client g) (accepted w).1 in
      let f = K.get_flags g v in
      (K.epoll_ctl epfd ctl_add g (some (record { events = watch; fd = g }))
        (K.set_flags g (bit_or f.0 o_nonblock) f.1)).1

  -- After the second: the message is printed, and the descriptor watched for output.
  abbrev pub after_read : ℤ → List ℕ → W → W
  after_read g bs w =
      (K.epoll_ctl epfd ctl_mod g (some (record { events = epollout; fd = g }))
        (K.print (from_client (text bs)) w)).1

  -- After the third: the answer is written, and the descriptor taken out and closed.
  abbrev pub after_answer : ℤ → List ℕ → W → W
  after_answer g bs w = K.close g (K.epoll_ctl epfd ctl_del g none (K.write g bs w).1).1

  module _ (timeout : ℤ) where
    abbrev waits : W → List EpollEvent × W
    waits w = K.epoll_wait epfd max_epoll_conn timeout w

    -- What the system does in three rounds from state `w`: it reports first the listening socket,
    -- then twice the client `g` that is accepted, ready to be read, with a message that has no zero
    -- byte and is shorter than the buffer, and then ready to be written to. In `w'` the client was
    -- sent exactly its message, and its descriptor is taken out and closed.
    pub data Visit : W → ℤ → List ℕ → W → Type 0 where
      visit :
          {w w1 w3 w4 w6 : W} {e1 e2 e3 : ℕ} {bs : List ℕ}
          → fd ≢ client w1
          → waits w ≡ (record { events = e1; fd = fd } ∷ [], w1)
          → has_flag e1 epollin ≡ true
          → waits (after_accept w1) ≡ (record { events = e2; fd = client w1 } ∷ [], w3)
          → has_flag e2 epollin ≡ true
          → Delivers K (client w1) recv_buffer_length w3 bs w4
          → length bs < recv_buffer_length
          → NoZero bs
          → waits (after_read (client w1) bs w4) ≡ (record { events = e3; fd = client w1 } ∷ [], w6)
          → has_flag e3 epollin ≡ false
          → has_flag e3 epollout ≡ true
          → Visit w (client w1) bs (after_answer (client w1) bs w6)

    pub Visit-apart : {w : W} {g : ℤ} {bs : List ℕ} {w' : W} → Visit w g bs w' → fd ≢ g
    Visit-apart (visit apart r1 in1 r2 in2 d short plain r3 quiet out) = apart

    -- Any number of clients, one after the other, with their messages.
    pub data Visits : W → List (List ℕ) → W → Type 0 where
      nobody : {w : W} → Visits w [] w
      next_one :
          {w w' w'' : W} {g : ℤ} {bs : List ℕ} {msgs : List (List ℕ)}
          → Visit w g bs w'
          → Visits w' msgs w''
          → Visits w (bs ∷ msgs) w''

-- A listening socket with descriptor `fd` at `l`, and no object at an address not yet given out.
pub record Idle {W : Type 0} (l : ℕ) (fd : ℤ) (m : Machine W) : Type 0 where
  pub sock : Connection
  pub here : m.heap l ≡ some sock
  pub old : l < m.next
  pub same_fd : sock.fd ≡ fd
  pub bound : sock.recv_callback ≡ some (record { handler = accept_handler; conn = l })
  pub mapped : m.epoll.conn_map fd ≡ some l
  pub unused : (q : ℕ) → m.heap (m.next + q) ≡ none

-- The heap is as it was, but for the object at `l`.
abbrev pub SameButAt : {W : Type 0} → ℕ → Machine W → Machine W → Type 0
SameButAt l m m' = (q : ℕ) → m'.heap q ≡ update m.heap l (m'.heap l) q
