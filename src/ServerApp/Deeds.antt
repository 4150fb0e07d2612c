-- ===== src/ServerApp/Deeds.antt =====
-- What apps/server.cpp does at each event, whatever their number and order.
use Prim.Native.Nat.{bit_or}
use online_chat_proj.Base.{suc, ℕ, ◌≡◌, ◌≢◌, ◌<◌, refl, none, some, List, [], ◌∷◌, ==_false, zero}
use online_chat_proj.Base.Lists.{length}
use online_chat_proj.Base.Int.{ℤ, minus_one, ==ℤ_false, ==ℤ_refl}
use online_chat_proj.Os.{
  Kernel, SockAddr, EpollEvent, epollin, epollet, ctl_add, ctl_del, new_fd, from_client,
}
use online_chat_proj.InetAddress.{zero_addr}
use online_chat_proj.Machine.{Machine, ok}
use online_chat_proj.Server.Receive.{Delivers}
use online_chat_proj.Server.Text.{text}
use online_chat_proj.ServerApp.{
  buffer_length, max_epoll_connection, set_fd_non_blocking, accept_client, handle_event, handle_all,
  rounds,
}
use online_chat_proj.ServerApp.Exchange.{at_world, read_client_lem}

module _ {W : Type 0} (K : Kernel W) (epfd serverfd : ℤ) where
  -- What the system answers to `accept`, and its state when the client is watched.
  abbrev pub accepted : W → (ℤ × SockAddr) × W
  accepted w = K.accept serverfd zero_addr w

  abbrev pub after_accept : W → W
  after_accept w =
      let g = (accepted w).0.0 in
      (K.epoll_ctl epfd ctl_add g (some (record { events = bit_or epollin epollet; fd = g }))
        (set_fd_non_blocking K g (K.print (new_fd g) (accepted w).1))).1

  accept_client_lem :
      (m : Machine W) (w : W)
      → (accepted w).0.0 ≢ minus_one
      → accept_client K epfd serverfd (at_world m w) ≡ ok tt (at_world m (after_accept w))
  unfolding accept_client
  accept_client_lem m w h = rw (==ℤ_false (accepted w).0.0 minus_one h) refl

  refused_lem :
      (m : Machine W) (w : W)
      → (accepted w).0.0 ≡ minus_one
      → accept_client K epfd serverfd (at_world m w)
        ≡ ok tt (at_world m (K.print (new_fd minus_one) (accepted w).1))
  unfolding accept_client
  refused_lem m w h = rw h refl

  -- What one event does to the system. The listening socket has an event, of whatever mask: the
  -- client that `accept` returns is announced and watched, or, if there is none, -1 is announced. A
  -- client has the mask EPOLLIN and a message shorter than the buffer: its text is printed up to the
  -- first zero byte, and the descriptor closed and then taken out. Any other event of a client is
  -- ignored.
  pub data Deed : W → EpollEvent → W → Type 0 where
    admit :
        {w : W} {flags : ℕ}
        → (accepted w).0.0 ≢ minus_one
        → Deed w (record { events = flags; fd = serverfd }) (after_accept w)
    refuse :
        {w : W} {flags : ℕ}
        → (accepted w).0.0 ≡ minus_one
        → Deed w
            (record { events = flags; fd = serverfd })
            (K.print (new_fd minus_one) (accepted w).1)
    drop_client :
        {w w' : W} {g : ℤ} {bs : List ℕ}
        → g ≢ serverfd
        → Delivers K g buffer_length w bs w'
        → length bs < buffer_length
        → Deed w
            (record { events = epollin; fd = g })
            (K.epoll_ctl epfd ctl_del g none (K.close g (K.print (from_client (text bs)) w'))).1
    ignore : {w : W} {ev : EpollEvent} → ev.fd ≢ serverfd → ev.events ≢ epollin → Deed w ev w

  -- The events of one round, in their order.
  pub data Deeds : W → List EpollEvent → W → Type 0 where
    done : {w : W} → Deeds w [] w
    deed :
        {w w' w'' : W} {ev : EpollEvent} {evs : List EpollEvent}
        → Deed w ev w'
        → Deeds w' evs w''
        → Deeds w (ev ∷ evs) w''

  -- Rounds of the loop, each with any events.
  pub data DeedRounds : ℕ → W → W → Type 0 where
    over : {w : W} → DeedRounds zero w w
    round :
        {n : ℕ} {w w1 w2 w3 : W} {evs : List EpollEvent}
        → K.epoll_wait epfd max_epoll_connection minus_one w ≡ (evs, w1)
        → Deeds w1 evs w2
        → DeedRounds n w2 w3
        → DeedRounds (suc n) w w3

  module _ (fuel : ℕ) (enough : buffer_length < fuel) (m : Machine W) where
    handle_event-Deed :
        {w : W} {ev : EpollEvent} {w' : W}
        → Deed w ev w'
        → handle_event K fuel epfd serverfd ev (at_world m w) ≡ ok tt (at_world m w')
    unfolding handle_event
    handle_event-Deed {w} (admit valid) = rw (==ℤ_refl serverfd, accept_client_lem m w valid) refl
    handle_event-Deed {w} (refuse failed) = rw (==ℤ_refl serverfd, refused_lem m w failed) refl
    handle_event-Deed (drop_client {g} other d short) =
        rw (==ℤ_false g serverfd other, read_client_lem K m g fuel epfd d short enough) refl
    handle_event-Deed {ev} (ignore other mask) =
        rw (==ℤ_false ev.fd serverfd other, ==_false ev.events epollin mask) refl

    handle_all-Deeds :
        {w w' : W} {evs : List EpollEvent}
        → Deeds w evs w'
        → handle_all K fuel epfd serverfd evs (at_world m w) ≡ ok tt (at_world m w')
    unfolding handle_all
    handle_all-Deeds done = refl
    handle_all-Deeds (deed d ds) = rw (handle_event-Deed d) (handle_all-Deeds ds)

    pub rounds-DeedRounds :
        (n : ℕ) {w w' : W}
        → DeedRounds n w w'
        → rounds K fuel n epfd serverfd (at_world m w) ≡ ok tt (at_world m w')
    unfolding rounds
    rounds-DeedRounds zero over = refl
    rounds-DeedRounds (suc n) (round reported ds more) =
        rw (reported, handle_all-Deeds ds) (rounds-DeedRounds n more)
