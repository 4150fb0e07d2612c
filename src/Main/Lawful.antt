-- ===== src/Main/Lawful.antt =====
-- The program of apps/test-main.cpp from its start on a system that obeys its manual, whatever that
-- system reports.
use Prim.Native.Nat.{bit_or}
use online_chat_proj.Base.{ℕ, ◌≡◌, ◌<◌, refl, sym, ap, ◌∙◌, ◌⊎◌, inl, inr, false, subst}
use online_chat_proj.Base.Int.{pos, minus_one, ◌==ℤ◌}
use online_chat_proj.Os.{Kernel, EpollEvent, has_flag, epollin, epollout, epollet, o_nonblock}
use online_chat_proj.Os.Laws.{KernelLaws, ExactLaws}
use online_chat_proj.InetAddress.{address}
use online_chat_proj.Connection.{Connection, recv_buffer_length}
use online_chat_proj.Machine.{Machine, ok, exited}
use online_chat_proj.Socket.{max_listen_num}
use online_chat_proj.Server.{Server}
use online_chat_proj.Server.Create.{created, watching}
use online_chat_proj.Server.Receive.{Brief}
use online_chat_proj.Safety.View.{Quiet-trans}
use online_chat_proj.Reactor.{Clients, no_clients, Rounds}
use online_chat_proj.Reactor.View.{Represents}
use online_chat_proj.Reactor.Lawful.{Watches}
use online_chat_proj.Reactor.Lawful.Reports.{rounds_through}
use online_chat_proj.Main.{boot, main}
use online_chat_proj.Main.Service.{polling, listening}
use online_chat_proj.Main.Start.{Fails, Started, start-cases, main-Fails}
use online_chat_proj.Main.Crowd.{main-Rounds}

module _ {W : Type 0} (K : Kernel W) (raw : Server) (w : W) (junk : ℕ → Connection) where
  -- The rounds of the program: what each event calls for, and what the clients are in the end.
  abbrev Course : ℕ → W → ℕ → Clients → Type 0
  Course n w' k cl =
      Rounds K (λ q. (junk q).wbuffer) (K.epoll_create w).0 (listening K raw w junk) minus_one n
        (watching K raw (polling K raw w junk)) 1 no_clients w' k cl

  -- The program gets through its rounds.
  abbrev pub GoesOn : ℕ → ℕ → Type 0
  GoesOn fuel n =
      (m : Machine W) × (k : ℕ) × (cl : Clients) × (main K raw fuel n (boot w junk) ≡ ok tt m)
      × Course n m.world k cl
      × Represents 0 (listening K raw w junk) m cl

module _ {W : Type 0} {K : Kernel W} {L : KernelLaws K} (X : ExactLaws L) (raw : Server) (w : W)
    (junk : ℕ → Connection) where
  -- Where the program starts its loop, the system watches the listening socket and nothing else.
  watching-Watches :
      ((created K raw (polling K raw w junk)).0 ==ℤ minus_one) ≡ false
      → Watches L
          (K.epoll_create w).0
          (listening K raw w junk)
          (watching K raw (polling K raw w junk))
          no_clients
  unfolding has_flag
  watching-Watches opens =
      let epfd = (K.epoll_create w).0 in
      let start = (K.epoll_create w).1 in
      let fd = listening K raw w junk in
      let a = address K "127.0.0.1" (pos 8080) in
      let v = (K.socket start).1 in
      let b = (K.bind fd a.addr a.addr_sz v).1 in
      let l = (K.listen fd max_listen_num b).1 in
      let f = K.get_flags fd l in
      let flags = bit_or f.0 o_nonblock in
      let ev : EpollEvent = record { events = bit_or epollin epollet; fd = fd } in
      let later = Quiet-trans L (L.bind_quiet epfd fd a.addr a.addr_sz v) (
        Quiet-trans L (L.listen_quiet epfd fd max_listen_num b)
          (Quiet-trans L (L.get_flags_quiet epfd fd l) (L.set_flags_quiet epfd fd flags f.1))) in
      let quiet = Quiet-trans L (L.socket_quiet epfd start) later in
      let added = L.add_sets epfd fd ev (K.set_flags fd flags f.1) in
      record {
        known = λ g r h. elim (added.sets g r h) [
          | inl old ↦ absurd (cc (quiet.sub g r old, L.create_empty w g))
          | inr (here, new) ↦ (
            ap (λ (e : EpollEvent). e.fd) new ∙ sym here,
            inl (here, ap (λ (e : EpollEvent). has_flag e.events epollout) new),
          )
        ];
        socket = added.kept fd (later.kept fd (X.socket start (λ e. cc (opens, e))));
        apart = refl;
        clients = λ g ph e. absurd (cc);
      }

  rounds-GoesOn :
      (fuel n : ℕ)
      → Started K raw w junk
      → recv_buffer_length < fuel
      → Brief K recv_buffer_length
      → GoesOn K raw w junk fuel n
  rounds-GoesOn fuel n (polls, zeroed, c, b, l) enough brief =
      let (w', k, cl, rs, _) =
        rounds_through L (K.epoll_create w).0 (listening K raw w junk) X brief
          (λ q. (junk q).wbuffer) minus_one n 1 (watching-Watches c) in
      let (m, ran, there, r) = main-Rounds K raw w junk fuel n zeroed polls c b l enough rs in
      (m, k, cl, ran, subst (λ v. Course K raw w junk n v k cl) (sym there) rs, r)

  -- On a system that obeys its manual, and on which a receive loop always ends, at the end of the
  -- stream or where nothing is left to read, with less handed over than the buffer holds, with more fuel than the buffer has bytes, and on every content of the
  -- storage: the program ends with the message of the first check that fails, without a round of its
  -- loop, or no check fails and it gets through any number of rounds, whatever the system reports in them and whether or
  -- not `accept` succeeds. Then every event is answered as `Turn` says: a client is first heard and
  -- then sent the reply to its message, and nothing else; and in the end the memory holds the listening
  -- socket, the connections of the clients that are left, those that a failed `accept` has left, and
  -- nothing else.
  pub main-GoesOn :
      (fuel n : ℕ)
      → recv_buffer_length < fuel
      → Brief K recv_buffer_length
      → ((w' : W) × Fails K raw w junk w' × (main K raw fuel n (boot w junk) ≡ exited w'))
        ⊎ (Started K raw w junk × GoesOn K raw w junk fuel n)
  main-GoesOn fuel n enough brief = elim (start-cases K raw w junk) [
    | inl (w', f) ↦ inl (w', f, main-Fails K raw w junk fuel n f)
    | inr started ↦ inr (started, rounds-GoesOn fuel n started enough brief)
  ]
