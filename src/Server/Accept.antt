-- ===== src/Server/Accept.antt =====
-- `acceptCallback` of src/Server.cpp, and `Socket::accept` (src/Socket.cpp): what becomes of the
-- connection that `accept` returns.
use Prim.Native.Nat.{bit_or}
use online_chat_proj.Base.{ℕ, suc, ◌≡◌, refl, ap, ◌∙◌, true, false, some, update, update_self}
use online_chat_proj.Base.Int.{minus_one, update_ℤ, ℤ, update_ℤ_self}
use online_chat_proj.Os.{Kernel, SockAddr, epollin, epollet, new_client}
use online_chat_proj.InetAddress.{empty_address}
use online_chat_proj.Connection.{
  Connection, recv_handler, send_handler, default_connection, connection, set_event, set_in_epoll,
  set_non_blocking, set_recv_callback, set_send_callback,
}
use online_chat_proj.Machine.{Machine, ok, alloc, modify, ◌>>◌}
use online_chat_proj.Machine.Object.{holding, load-ok, load-holding, modify-holding}
use online_chat_proj.Socket
use online_chat_proj.Epoll.{action_update, update_connection, bind_recv, bind_send}
use online_chat_proj.Epoll.Update.{with_conn, after_add, update_new}
use online_chat_proj.Server.{accept_callback}

abbrev pub watch : ℕ
watch = bit_or epollet epollin

module _ {W : Type 0} (m : Machine W) (c : Connection) (w : W) where
  -- The machine with the new object `c` at the next address, entered into the map.
  abbrev pub joined : Machine W
  joined = record m {
    world = w;
    heap = update m.heap m.next (some c);
    next = suc m.next;
    epoll = with_conn m.epoll c.fd (some m.next);
  }

module _ {W : Type 0} (K : Kernel W) (m : Machine W) where
  -- A new connection, and what `acceptCallback` makes of it.
  abbrev pub fresh : ℤ → SockAddr → Connection
  fresh fd addr = connection (m.junk m.next) fd (some (record empty_address { addr = addr }))

  abbrev pub served : Connection → Connection
  served d =
      set_send_callback (record { handler = send_handler; conn = m.next })
        (set_recv_callback (record { handler = recv_handler; conn = m.next })
          (set_in_epoll (set_event watch d)))

  abbrev pub more : Machine W
  more = record m { next = suc m.next }

  serve-ok :
      (d : Connection) (w : W)
      → d.in_epoll ≡ false
      → (modify m.next (set_event watch)
            >> (update_connection K m.next action_update
                >> (bind_recv m.next recv_handler >> bind_send m.next send_handler)))
          (holding more w m.next d)
        ≡ ok tt (joined m (served d) (after_add K m.epoll (set_event watch d) w))
  unfolding bind_recv bind_send set_event set_in_epoll set_recv_callback set_send_callback
  serve-ok d w e =
      let w' = after_add K m.epoll (set_event watch d) w in
      let mapped = record more { epoll = with_conn m.epoll d.fd (some m.next) } in
      rw (
        modify-holding more w m.next d (set_event watch),
        update_new K more w m.next (set_event watch d) e,
        modify-holding mapped w' m.next (set_in_epoll (set_event watch d))
            (set_recv_callback (record { handler = recv_handler; conn = m.next })),
        modify-holding mapped w' m.next _
            (set_send_callback (record { handler = send_handler; conn = m.next })),
      )

module _ {W : Type 0} (K : Kernel W) (m : Machine W) (p : ℕ) where
  -- What `acceptCallback` does, whatever descriptor `accept` returns: a new connection is marked,
  -- entered into the map under that descriptor, offered to the system, and given its callbacks.
  pub accept_callback_lem :
      (c : Connection)
      → m.heap p ≡ some c
      → let r = K.accept c.fd empty_address.addr m.world in
        let d = fresh K m r.0.0 r.0.1 in
        let w = set_non_blocking K d (K.print (new_client r.0.0) r.1) in
        accept_callback K p m
        ≡ ok tt (joined m (served K m d) (after_add K m.epoll (set_event watch d) w))
  unfolding accept_callback Socket.accept alloc connection default_connection set_event set_in_epoll
      set_recv_callback set_send_callback set_non_blocking
  accept_callback_lem c here =
      let r = K.accept c.fd empty_address.addr m.world in
      let d = fresh K m r.0.0 r.0.1 in
      rw (
        load-ok m p here,
        load-holding (more K m) r.1 m.next d,
        serve-ok K m d (set_non_blocking K d (K.print (new_client r.0.0) r.1)) refl,
      )

  -- Where `accept` fails, `acceptCallback` goes on as with a client: it makes a connection whose
  -- descriptor is -1, which stays in memory, marked as watched and with its callbacks set, and
  -- enters it into the map under -1.
  accept_callback-failed :
      (c : Connection)
      → m.heap p ≡ some c
      → (K.accept c.fd empty_address.addr m.world).0.0 ≡ minus_one
      → (m' : Machine W) × (d : Connection) × (accept_callback K p m ≡ ok tt m')
        × (m'.heap m.next ≡ some d)
        × (m'.next ≡ suc m.next)
        × (m'.epoll.conn_map minus_one ≡ some m.next)
        × (d.fd ≡ minus_one)
        × (d.in_epoll ≡ true)
        × (d.recv_callback ≡ some (record { handler = recv_handler; conn = m.next }))
  unfolding connection default_connection set_event set_in_epoll set_recv_callback set_send_callback
  accept_callback-failed c here failed =
      let r = K.accept c.fd empty_address.addr m.world in
      let d = fresh K m r.0.0 r.0.1 in
      let w = set_non_blocking K d (K.print (new_client r.0.0) r.1) in
      let s = served K m d in
      (
        joined m s (after_add K m.epoll (set_event watch d) w),
        s,
        accept_callback_lem c here,
        update_self m.heap m.next (some s),
        refl,
        ap (λ (g : ℤ). update_ℤ m.epoll.conn_map g (some m.next) minus_one) failed
            ∙ update_ℤ_self m.epoll.conn_map minus_one (some m.next),
        failed,
        refl,
        refl,
      )
