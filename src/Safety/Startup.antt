-- ===== src/Safety/Startup.antt =====
-- From the start of the process to the first round: `Epoll()`, `Socket(ip, port)`, `Server(loop)`.
use Prim.Native.Nat.{bit_or}
use Prim.Native.String.{String}
use online_chat_proj.Base.{
  ℕ, suc, ◌≤◌, ◌≡◌, refl, sym, ap, ◌∙◌, inl, inr, Bool, true, false, none, some, arith, update_self,
  update-update,
}
use online_chat_proj.Base.Int.{ℤ, pos, minus_one, update_ℤ_self, ◌==ℤ◌}
use online_chat_proj.Os.{Kernel, EpollEvent, has_flag, epollin, epollout, epollet}
use online_chat_proj.Os.Laws.{KernelLaws, SetsEvent}
use online_chat_proj.InetAddress.{InetAddress, address}
use online_chat_proj.Connection.{
  Connection, accept_handler, default_connection, set_event, set_in_epoll, set_non_blocking,
  set_recv_callback,
}
use online_chat_proj.Machine.{Machine, pure, command, non_null, load, modify, alloc, ◌>>=◌, ◌>>◌}
use online_chat_proj.Machine.Object.{holding, load-holding, modify-holding}
use online_chat_proj.Log.{errif}
use online_chat_proj.Socket
use online_chat_proj.Socket.{max_listen_num}
use online_chat_proj.Epoll.{action_update, update_connection, new_epoll, bind_recv}
use online_chat_proj.Epoll.Update.{with_conn, after_add, update_new}
use online_chat_proj.Server.{Server, new_server}
use online_chat_proj.Safety.Safely.{Safely, returns, exits, bind, mono}
use online_chat_proj.Server.Accept.{joined}
use online_chat_proj.Safety.View.{
  core, cores, bound, listener, QuietLaws, Inv, Quiet-trans, set_non_blocking-Quiet,
}

abbrev listening : ℕ
listening = bit_or epollin epollet

-- A listening socket is not watched for output.
no_output : has_flag listening epollout ≡ false
unfolding has_flag
no_output = refl

module _ {W : Type 0} (K : Kernel W) where
  -- A failed check ends the process; one that passes changes nothing.
  errif-Safely :
      (b : Bool) (msg : String) (m : Machine W) → Safely (λ _ m'. m' ≡ m) (errif K b msg m)
  unfolding errif
  errif-Safely true msg m = exits
  errif-Safely false msg m = returns refl

module _ {W : Type 0} {K : Kernel W} (L : KernelLaws K) where
  -- Before the first registration.
  pub record Blank (m : Machine W) : Type 0 where
    pub unused : (p : ℕ) → m.next ≤ p → cores m p ≡ none
    pub empty : (g : ℤ) → L.registered m.epoll.epfd m.world g ≡ none

  -- A new socket stands at the next address, and is not yet watched.
  pub record Created (m : Machine W) (p : ℕ) (m' : Machine W) : Type 0 where
    pub world : W
    pub conn : Connection
    at_next : p ≡ m.next
    pub form : m' ≡ holding (record m { next = suc m.next }) world m.next conn
    pub idle : conn.in_epoll ≡ false
    pub quiet : QuietLaws L m.epoll.epfd m.world world

  bind-Safely :
      (m : Machine W) (w : W) (p : ℕ) (c : Connection) (a : InetAddress)
      → c.inet_addr ≡ some a
      → Safely
          (λ _ m'. (w' : W) × (m' ≡ holding m w' p c) × QuietLaws L m.epoll.epfd w w')
          (Socket.bind K p (holding m w p c))
  unfolding Socket.bind
  bind-Safely m w p c a e =
      let r = K.bind c.fd a.addr a.addr_sz w in
      rw (load-holding m w p c) (
        simp e (
          mono (errif-Safely K (r.0 ==ℤ minus_one) "bind error!" (holding m r.1 p c))
            (λ _ m' f. (r.1, f, L.bind_quiet m.epoll.epfd c.fd a.addr a.addr_sz w))))

  new_socket-Safely :
      (ip : String) (port : ℤ) (m : Machine W) → Safely (Created m) (Socket.new_socket K ip port m)
  unfolding Socket.new_socket alloc default_connection
  new_socket-Safely ip port m =
      let r = K.socket m.world in
      let c = default_connection (m.junk m.next) in
      let more = record m { next = suc m.next } in
      let d = record c { fd = r.0; inet_addr = some (address K ip port) } in
      bind (errif-Safely K (r.0 ==ℤ minus_one) "socket create failed!" (holding more r.1 m.next c))
        λ _ m1 e.
          rw (e, load-holding more r.1 m.next c, update-update m.heap m.next (some c) (some d))
            (bind (bind-Safely more r.1 m.next d (address K ip port) refl) λ _ m2 (w', form, quiet).
              returns (record {
                world = w';
                conn = d;
                at_next = refl;
                form = form;
                idle = refl;
                quiet = Quiet-trans L (L.socket_quiet m.epoll.epfd m.world) quiet;
              }))

  -- A listening socket that has been added to an empty epoll instance.
  listening-Inv :
      (m : Machine W) (c : Connection) (w w' : W) (ev : EpollEvent)
      → Blank m
      → QuietLaws L m.epoll.epfd m.world w
      → SetsEvent L.opened L.registered m.epoll.epfd c.fd ev w w'
      → ev.fd ≡ c.fd
      → has_flag ev.events epollout ≡ false
      → c.in_epoll ≡ true
      → c.recv_callback ≡ bound accept_handler m.next
      → Inv L (joined m c w')
  listening-Inv m c w w' ev blank q s own no_out watched callback = record {
    unused = λ p le. ground (arith, blank.unused p);
    known = λ g r h. elim (s.sets g r h) [
      | inl old ↦ absurd (cc (q.sub g r old, blank.empty g))
      | inr (e, f) ↦ record {
        addr = m.next;
        obj = core c;
        live = record {
          here = rw (update_self m.heap m.next (some c));
          mapped = update_ℤ_self m.epoll.conn_map c.fd (some m.next);
          watched = watched;
          wired = listener callback;
        };
        own = sym e;
        carries = ap (λ (v : EpollEvent). v.fd) f ∙ own ∙ sym e;
        sends =
            λ out. absurd (cc (out, no_out, ap (λ (v : EpollEvent). has_flag v.events epollout) f));
      }
    ];
  }

  listen-Safely :
      (m : Machine W) (w : W) (p n : ℕ) (c : Connection)
      → Safely
          (λ _ m'. (w' : W) × (m' ≡ holding m w' p c) × QuietLaws L m.epoll.epfd w w')
          (Socket.listen K p n (holding m w p c))
  unfolding Socket.listen
  listen-Safely m w p n c =
      let r = K.listen c.fd n w in
      rw (load-holding m w p c) (
        mono (errif-Safely K (r.0 ==ℤ minus_one) "listen error!" (holding m r.1 p c))
          (λ _ m' f. (r.1, f, L.listen_quiet m.epoll.epfd c.fd n w)))

  -- The second half of the constructor: the socket `c` is given its event, and is added.
  open-Safely :
      (m : Machine W) (w : W) (c : Connection) (s : Server)
      → Blank m
      → QuietLaws L m.epoll.epfd m.world w
      → c.in_epoll ≡ false
      → Safely
          (λ _. Inv L)
          ((modify m.next (set_event listening) >>= λ _. load m.next >>= λ d.
              command (set_non_blocking K d)
              >> (non_null (some 0) >>= λ _.
                  update_connection K m.next action_update
                  >> (bind_recv m.next accept_handler >> pure s)))
            (holding (record m { next = suc m.next }) w m.next c))
  unfolding set_event bind_recv set_recv_callback set_in_epoll
  open-Safely m w c s blank quiet idle =
      let more = record m { next = suc m.next } in
      let d = set_event listening c in
      let w1 = set_non_blocking K d w in
      let w2 = after_add K m.epoll d w1 in
      let added = record more { epoll = with_conn m.epoll c.fd (some m.next) } in
      rw
        (
          modify-holding more w m.next c (set_event listening),
          load-holding more w m.next d,
          update_new K more w1 m.next d idle,
          modify-holding added w2 m.next (set_in_epoll d)
              (set_recv_callback (record { handler = accept_handler; conn = m.next })),
        )
        (returns (
          listening-Inv m _ w1 w2 d.event blank
            (Quiet-trans L quiet (set_non_blocking-Quiet L m.epoll.epfd d w))
            (L.add_sets m.epoll.epfd c.fd d.event w1) refl no_output refl refl))

  pub new_server-Safely :
      (raw : Server) (m : Machine W) → Blank m → Safely (λ _. Inv L) (new_server K raw (some 0) m)
  unfolding new_server
  new_server-Safely raw m blank = bind (errif-Safely K _ _ m) λ _ m0 e. rw e (
      bind (new_socket-Safely "127.0.0.1" (pos 8080) m) λ p m1 made.
        rw (made.at_next, made.form)
          (bind
            (listen-Safely (record m { next = suc m.next }) made.world m.next max_listen_num
              made.conn)
            λ _ m2 (w, form, quiet).
              rw form
                (open-Safely m w made.conn _ blank (Quiet-trans L made.quiet quiet) made.idle)))

  pub new_epoll-Safely :
      (m : Machine W) → ((p : ℕ) → cores m p ≡ none) → Safely (λ _. Blank) (new_epoll K m)
  unfolding new_epoll
  new_epoll-Safely m bare =
      mono (errif-Safely K _ _ _)
        λ _ m' e. rw e (record { unused = λ p le. bare p; empty = L.create_empty m.world })
