-- ===== src/Server/Create.antt =====
-- The constructor `Server::Server` of src/Server.cpp for each
-- argument and each content of the storage it runs on.
pub mod Fails
use Prim.Native.Nat.{bit_or}
use online_chat_proj.Base.{
  arith, ℕ, suc, ◌≡◌, refl, false, Option, none, some, update-update, ◌+◌, update_self,
}
use online_chat_proj.Base.Int.{ℤ, pos, minus_one, ◌==ℤ◌, update_ℤ_self}
use online_chat_proj.Os.{Kernel, epollin, epollet, ctl_add, o_nonblock}
use online_chat_proj.InetAddress.{address}
use online_chat_proj.Connection.{
  default_connection, set_event, set_in_epoll, set_recv_callback, set_non_blocking, accept_handler,
}
use online_chat_proj.Machine.{ok, Machine, exited, fault, null_pointer, alloc}
use online_chat_proj.Machine.Object.{holding, load-holding, modify-holding}
use online_chat_proj.Log.{errif}
use online_chat_proj.Socket
use online_chat_proj.Socket.{max_listen_num}
use online_chat_proj.Server.{Server, new_server}
use online_chat_proj.Epoll.{bind_recv}
use online_chat_proj.Epoll.Update.{with_conn, update_new}
use online_chat_proj.Server.Visits.{Idle, SameButAt}

module _ {W : Type 0} (K : Kernel W) (raw : Server) (m : Machine W) where
  -- The check reads storage that was never set: where that is not zero, the process ends with the
  -- message for a null loop, whatever loop was given.
  pub new_server-garbage :
      (loop : Option ℕ) {p : ℕ}
      → raw.loop ≡ some p
      → new_server K raw loop m ≡ exited (K.perror "EventLoop * is nullptr!" m.world)
  unfolding new_server errif
  new_server-garbage loop e = rw e refl

  -- The calls of the system that the constructor makes before it uses the loop.
  abbrev pub created : ℤ × W
  created = K.socket m.world

  abbrev pub bound : ℤ × W
  bound = let a = address K "127.0.0.1" (pos 8080) in K.bind created.0 a.addr a.addr_sz created.1

  abbrev pub listens : ℤ × W
  listens = K.listen created.0 max_listen_num bound.1

  -- Where it is zero, and the socket can be opened, a null loop is not reported: it is used.
  pub new_server-null :
      raw.loop ≡ none
      → (created.0 ==ℤ minus_one) ≡ false
      → (bound.0 ==ℤ minus_one) ≡ false
      → (listens.0 ==ℤ minus_one) ≡ false
      → new_server K raw none m ≡ fault null_pointer
  unfolding new_server errif Socket.new_socket alloc default_connection Socket.bind Socket.listen
  new_server-null e c b l =
      let more = record m { next = suc m.next } in
      let d = default_connection (m.junk m.next) in
      let s = record d { fd = created.0; inet_addr = some (address K "127.0.0.1" (pos 8080)) } in
      rw
        (
          e,
          c,
          load-holding more created.1 m.next d,
          update-update m.heap m.next (some d) (some s),
          load-holding more created.1 m.next s,
          b,
          load-holding more bound.1 m.next s,
          l,
          modify-holding more listens.1 m.next s (set_event (bit_or epollin epollet)),
          load-holding more listens.1 m.next (set_event (bit_or epollin epollet) s),
        )
        refl

  -- What the system sees of a constructor that succeeds: the socket is made non-blocking and watched
  -- for input.
  abbrev pub watching : W
  watching =
      let f = K.get_flags created.0 listens.1 in
      (K.epoll_ctl m.epoll.epfd ctl_add created.0
        (some (record { events = bit_or epollin epollet; fd = created.0 }))
        (K.set_flags created.0 (bit_or f.0 o_nonblock) f.1)).1

  -- Where it is zero, the socket can be opened, and no object stands at an address not yet given
  -- out, the constructor returns a server that is idle on its loop: its socket is a new object, in
  -- the map, with acceptCallback, the system was asked to watch it, and nothing else is in memory
  -- that was not there before.
  pub new_server-Idle :
      (loop : ℕ)
      → raw.loop ≡ none
      → (created.0 ==ℤ minus_one) ≡ false
      → (bound.0 ==ℤ minus_one) ≡ false
      → (listens.0 ==ℤ minus_one) ≡ false
      → ((q : ℕ) → m.heap (m.next + q) ≡ none)
      → (m' : Machine W) × (new_server K raw (some loop) m
          ≡ ok (record { serv_sock = m.next; loop = some loop }) m')
        × Idle m.next created.0 m'
        × (m'.world ≡ watching)
        × (m'.epoll.epfd ≡ m.epoll.epfd)
        × SameButAt m.next m m'
        × (m'.next ≡ suc m.next)
        × (m'.junk ≡ m.junk)
  unfolding new_server errif Socket.new_socket alloc default_connection Socket.bind Socket.listen
      bind_recv set_event set_in_epoll set_recv_callback set_non_blocking
  new_server-Idle loop e c b l unused =
      let more = record m { next = suc m.next } in
      let d = default_connection (m.junk m.next) in
      let s = record d { fd = created.0; inet_addr = some (address K "127.0.0.1" (pos 8080)) } in
      let s' = set_event (bit_or epollin epollet) s in
      let w = set_non_blocking K s' listens.1 in
      let mapped = record more { epoll = with_conn m.epoll created.0 (some m.next) } in
      let bind_accept = set_recv_callback (record { handler = accept_handler; conn = m.next }) in
      let sock = bind_accept (set_in_epoll s') in
      (
        holding mapped watching m.next sock,
        rw
            (
              e,
              c,
              load-holding more created.1 m.next d,
              update-update m.heap m.next (some d) (some s),
              load-holding more created.1 m.next s,
              b,
              load-holding more bound.1 m.next s,
              l,
              modify-holding more listens.1 m.next s (set_event (bit_or epollin epollet)),
              load-holding more listens.1 m.next s',
              update_new K more w m.next s' refl,
              modify-holding mapped watching m.next (set_in_epoll s') bind_accept,
            )
            refl,
        record {
          sock = sock;
          here = update_self m.heap m.next (some sock);
          old = omega arith;
          same_fd = refl;
          bound = refl;
          mapped = update_ℤ_self m.epoll.conn_map created.0 (some m.next);
          unused = λ q. let later = unused (suc q) in ground (arith, later);
        },
        refl,
        refl,
        λ q. ground arith,
        refl,
        refl,
      )
