-- ===== src/Reactor.antt =====
-- What the reactor of src/Server.cpp is to its clients, whatever the order of the events: each client
-- is first heard and then answered, and any number of them may be at either point at once.
pub mod View
pub mod Put
pub mod Collect
pub mod Event
pub mod Refuse
pub mod Dispatch
pub mod Loop
pub mod Lawful
use online_chat_proj.Base.{
  ℕ, zero, suc, ◌≡◌, ◌≢◌, ◌<◌, ◌⊎◌, true, false, Option, none, some, List, [], ◌∷◌,
}
use online_chat_proj.Base.Int.{ℤ, minus_one, update_ℤ}
use online_chat_proj.Base.Lists.{length}
use online_chat_proj.Os.{Kernel, EpollEvent, has_flag, epollin, epollout}
use online_chat_proj.Connection.{recv_buffer_length}
use online_chat_proj.Epoll.{max_epoll_conn}
use online_chat_proj.Server.Receive.{Delivers}
use online_chat_proj.Server.Text.{reply}
use online_chat_proj.Server.Visits.{client, after_accept, after_read, after_answer}

-- A client that is to be heard, or that has sent a message and is to be answered. In both, the first
-- list is what the send buffer of its connection holds.
pub data Phase : Type 0 where
  reading : List ℕ → Phase
  answering : List ℕ → List ℕ → Phase

-- The clients, by their descriptors.
abbrev pub Clients : Type 0
Clients = ℤ → Option Phase

abbrev pub no_clients : Clients
no_clients _ = none

abbrev pub Elsewhere : ℤ → List EpollEvent → Type 0
Elsewhere g [] = Unit {0}
Elsewhere g (ev ∷ evs) = (g ≢ ev.fd) × Elsewhere g evs

-- No descriptor is reported twice.
abbrev pub Distinct : List EpollEvent → Type 0
Distinct [] = Unit {0}
Distinct (ev ∷ evs) = Elsewhere ev.fd evs × Distinct evs

-- Every event is of the listening socket `fd` or of a client.
abbrev pub Expected : ℤ → Clients → List EpollEvent → Type 0
Expected fd cl [] = Unit {0}
Expected fd cl (ev ∷ evs) =
    ((ev.fd ≡ fd) ⊎ ((ph : Phase) × (cl ev.fd ≡ some ph))) × Expected fd cl evs

module _ {W : Type 0} (K : Kernel W) (spare : ℕ → List ℕ) (epfd fd : ℤ) where
  -- What one event does to the system, to the number of objects made, and to the clients. The
  -- listening socket is readable: the client that `accept` returns is admitted, under a descriptor
  -- not in use, on the storage that comes next, whose send buffer holds `spare`; or `accept` fails,
  -- and what it returns is used all the same, without a client. A client is readable, with a message
  -- that is shorter than the buffer: the text of the message is printed, and the message kept. A client
  -- that was heard is writable: it is sent the reply, and let go. Any event that is neither for input
  -- nor for output is passed over.
  pub data Turn : W → ℕ → Clients → EpollEvent → W → ℕ → Clients → Type 0 where
    admit :
        {w : W} {made : ℕ} {cl : Clients} {flags : ℕ}
        → has_flag flags epollin ≡ true
        → client K epfd fd w ≢ minus_one
        → client K epfd fd w ≢ fd
        → cl (client K epfd fd w) ≡ none
        → Turn w made cl
            (record { events = flags; fd = fd })
            (after_accept K epfd fd w)
            (suc made)
            (update_ℤ cl (client K epfd fd w) (some (reading (spare made))))
    refuse :
        {w : W} {made : ℕ} {cl : Clients} {flags : ℕ}
        → has_flag flags epollin ≡ true
        → client K epfd fd w ≡ minus_one
        → Turn w made cl
            (record { events = flags; fd = fd })
            (after_accept K epfd fd w)
            (suc made)
            cl
    hear :
        {w w' : W} {made : ℕ} {cl : Clients} {flags : ℕ} {g : ℤ} {left bs : List ℕ}
        → cl g ≡ some (reading left)
        → has_flag flags epollin ≡ true
        → Delivers K g recv_buffer_length w bs w'
        → length bs < recv_buffer_length
        → Turn w made cl
            (record { events = flags; fd = g })
            (after_read K epfd fd g bs w')
            made
            (update_ℤ cl g (some (answering left bs)))
    answer :
        {w : W} {made : ℕ} {cl : Clients} {flags : ℕ} {g : ℤ} {left bs : List ℕ}
        → cl g ≡ some (answering left bs)
        → has_flag flags epollin ≡ false
        → has_flag flags epollout ≡ true
        → Turn w made cl
            (record { events = flags; fd = g })
            (after_answer K epfd fd g (reply left bs) w)
            made
            (update_ℤ cl g none)
    pass :
        {w : W} {made : ℕ} {cl : Clients} {ev : EpollEvent}
        → has_flag ev.events epollin ≡ false
        → has_flag ev.events epollout ≡ false
        → Turn w made cl ev w made cl

  -- The events of one round, in their order.
  pub data Turns : W → ℕ → Clients → List EpollEvent → W → ℕ → Clients → Type 0 where
    none_left : {w : W} {k : ℕ} {cl : Clients} → Turns w k cl [] w k cl
    turn :
        {w w' w'' : W} {k k' k'' : ℕ} {cl cl' cl'' : Clients} {ev : EpollEvent}
        {evs : List EpollEvent}
        → Turn w k cl ev w' k' cl'
        → Turns w' k' cl' evs w'' k'' cl''
        → Turns w k cl (ev ∷ evs) w'' k'' cl''

  module _ (timeout : ℤ) where
    -- Rounds of the loop, each with any events of the listening socket and of clients, no
    -- descriptor twice.
    pub data Rounds : ℕ → W → ℕ → Clients → W → ℕ → Clients → Type 0 where
      over : {w : W} {k : ℕ} {cl : Clients} → Rounds zero w k cl w k cl
      round :
          {n : ℕ} {w w1 w2 w3 : W} {k k' k'' : ℕ} {cl cl' cl'' : Clients} {evs : List EpollEvent}
          → K.epoll_wait epfd max_epoll_conn timeout w ≡ (evs, w1)
          → Expected fd cl evs
          → Distinct evs
          → Turns w1 k cl evs w2 k' cl'
          → Rounds n w2 k' cl' w3 k'' cl''
          → Rounds (suc n) w k cl w3 k'' cl''
