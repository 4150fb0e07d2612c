-- ===== src/ServerApp/Total.antt =====
-- What can become of a run of apps/server.cpp, of any number of rounds.
use online_chat_proj.Base.{
  ℕ, zero, suc, ◌-◌, ◌<◌, ◌≡◌, ◌≢◌, refl, inl, inr, Bool-cases, none, List, [], ◌∷◌, arith, ◌==◌,
}
use online_chat_proj.Base.Lists.{length}
use online_chat_proj.Base.Int.{ℤ, minus_one, ◌==ℤ◌}
use online_chat_proj.Os.{Kernel, EpollEvent, epollin}
use online_chat_proj.InetAddress.{zero_addr}
use online_chat_proj.Machine.{Machine, ok, out_of_fuel}
use online_chat_proj.Server.{c_string}
use online_chat_proj.Server.Receive.{Brief}
use online_chat_proj.Server.Progress.{delivery}
use online_chat_proj.Server.Text.{c_string-zeros}
use online_chat_proj.GaussConnector.{Libpq, Opened, connected, gave_up, open_connector}
use online_chat_proj.Fuel.Enough.{Steady}
use online_chat_proj.Bounds.Settles.{
  Settles, Succeeds, Comes, returned, ended, bind, if-Comes, errif-Comes, c_string-Comes,
  Comes-ne-out_of_fuel,
}
use online_chat_proj.ServerApp.{
  buffer_length, Buffer, cleared_buffer, read_loop, accept_client, read_client, handle_event,
  handle_all, rounds, opened, server_main,
}
use online_chat_proj.ServerApp.Exchange.{at_world, holds, read_loop-holds}

-- On every descriptor and in every state the loop returns; if its buffer then has no end, so `O`.
abbrev pub Reads : Type 0 → {W : Type 0} → Kernel W → ℕ → Type 0
Reads O {W} K fuel =
    (fd : ℤ) (m : Machine W)
    → (b : Buffer) × (m' : Machine W) × (read_loop K fuel fd cleared_buffer m ≡ ok b m')
      × (c_string b.chars ≡ none → O)

module _ {W : Type 0} (K : Kernel W) (fuel : ℕ) (enough : buffer_length < fuel) where
  pub Steady-Reads : Steady K → Reads (Unit {0}) K fuel
  Steady-Reads steady fd m =
      let (bs, w', d, le) =
        delivery K fd (λ _. Unit {0}) (λ n w _. (steady fd n w, tt)) fuel buffer_length m.world
          enough tt in
      (holds bs, at_world m w', read_loop-holds K m fd fuel [] d refl enough, λ e. tt)

  pub Brief-Reads : Brief K buffer_length → Reads ⊥ K fuel
  Brief-Reads brief fd m =
      let (bs, w', d, short) = brief fd m.world in
      let ends = c_string-zeros bs (buffer_length - length bs) (omega arith) in
      (holds bs, at_world m w', read_loop-holds K m fd fuel [] d refl enough, λ e. cc (ends, e))

module _ {O W : Type 0} (K : Kernel W) (fuel : ℕ) (reads : Reads O K fuel) where
  accept_client-Comes :
      (epfd serverfd : ℤ) (m : Machine W) → Comes O (accept_client K epfd serverfd m)
  unfolding accept_client
  accept_client-Comes epfd serverfd m =
      elim (Bool-cases ((K.accept serverfd zero_addr m.world).0.0 ==ℤ minus_one)) [
        | inl e ↦ rw e (returned tt)
        | inr e ↦ rw e (returned tt)
      ]

  read_client-Comes : (epfd fd : ℤ) (m : Machine W) → Comes O (read_client K fuel epfd fd m)
  unfolding read_client
  read_client-Comes epfd fd m =
      let (b, m1, e, ends) = reads fd m in
      rw e (bind (c_string-Comes b.chars m1 ends) λ t m2. returned tt)

  handle_all-Comes :
      (epfd serverfd : ℤ) (evs : List EpollEvent) (m : Machine W)
      → Comes O (handle_all K fuel epfd serverfd evs m)
  unfolding handle_all handle_event
  handle_all-Comes epfd serverfd [] m = returned tt
  handle_all-Comes epfd serverfd (ev ∷ evs) m =
      bind
        (if-Comes (ev.fd ==ℤ serverfd) _ _ m (accept_client-Comes epfd serverfd m)
          (if-Comes (ev.events == epollin) _ _ m (read_client-Comes epfd ev.fd m) (returned tt)))
        λ _ m1. handle_all-Comes epfd serverfd evs m1

  rounds-Comes :
      (n : ℕ) (epfd serverfd : ℤ) (m : Machine W) → Comes O (rounds K fuel n epfd serverfd m)
  unfolding rounds
  rounds-Comes zero epfd serverfd m = returned tt
  rounds-Comes (suc n) epfd serverfd m =
      bind (handle_all-Comes epfd serverfd _ _) λ _ m1. rounds-Comes n epfd serverfd m1

  module _ {C R : Type 0} (L : Libpq W C R) where
    opened-Comes : (o : Opened W C R) (m : Machine W) → Comes O (opened K L o m)
    opened-Comes (connected g w) m = returned tt
    opened-Comes (gave_up w) m = ended

    server_main-Comes : (n : ℕ) (m : Machine W) → Comes O (server_main K L fuel n m)
    unfolding server_main
    server_main-Comes n m = bind (opened-Comes (open_connector L m.world) m) λ g m1.
        bind (errif-Comes K _ _ _) λ _ m2. bind (errif-Comes K _ _ _) λ _ m3.
          bind (errif-Comes K _ _ _) λ _ m4. bind (errif-Comes K _ _ _) λ _ m5. rounds-Comes n _ _ _

module _ {W C R : Type 0} (K : Kernel W) (L : Libpq W C R) (fuel : ℕ)
    (enough : buffer_length < fuel) where
  -- On a system on which each call of `recv` either ends the loop or hands over bytes, no more
  -- than were asked for, and with more fuel than the buffer has bytes, every run of the program, of
  -- any number of rounds, comes to an end, whatever the database and the clients do: it returns,
  -- or ends the process, or uses a text that has no end in the buffer. No other fault occurs.
  pub server_main-Settles :
      Steady K → (n : ℕ) (m : Machine W) → Settles (λ _ _. Unit {0}) (server_main K L fuel n m)
  server_main-Settles steady n m =
      server_main-Comes K fuel (Steady-Reads K fuel enough steady) L n m

  -- If what `recv` hands over before the loop ends is always shorter than the buffer, and with more
  -- fuel than the buffer has bytes, every run of the program returns or ends the process, and no
  -- fault occurs.
  server_main-Succeeds :
      Brief K buffer_length
      → (n : ℕ) (m : Machine W) → Succeeds (λ _ _. Unit {0}) (server_main K L fuel n m)
  server_main-Succeeds brief n m = server_main-Comes K fuel (Brief-Reads K fuel enough brief) L n m

  server_main-ne-out_of_fuel :
      Steady K → (n : ℕ) (m : Machine W) → server_main K L fuel n m ≢ out_of_fuel
  server_main-ne-out_of_fuel steady n m = Comes-ne-out_of_fuel (server_main-Settles steady n m)
