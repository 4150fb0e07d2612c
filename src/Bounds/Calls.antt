-- ===== src/Bounds/Calls.antt =====
-- The calls of the reactor that receive nothing.
use Prim.Native.String.{String}
use online_chat_proj.Base.{
  ℕ, ◌≡◌, refl, arith, Bool, true, false, Option, none, some, List, [], ◌∷◌, leb, Option-cases, inl,
  inr,
}
use online_chat_proj.Base.Int.{ℤ}
use online_chat_proj.Os.{Kernel, EpollEvent}
use online_chat_proj.InetAddress.{InetAddress}
use online_chat_proj.Connection.{
  Connection, Handler, send_buffer_length, set_event, set_revent, set_in_epoll, set_recv_callback,
  set_send_callback, set_w_len,
}
use online_chat_proj.Machine.{Machine, modify, alloc, non_null}
use online_chat_proj.Log.{errif}
use online_chat_proj.Socket
use online_chat_proj.Epoll.{
  EpollAction, action_update, action_delete, update_connection, modify_event, add_event, remove,
  delete, set_conn, collect, bind_recv, bind_send,
}
use online_chat_proj.Server.{
  Server, c_string, copy_text, terminated, write_from, send_callback, accept_callback, new_server,
}
use online_chat_proj.Bounds.{
  Policy, InBuffer, Fits, Sound, AllFit-update, AllFit-put, default_connection-Fits,
  connection-Fits,
}
use online_chat_proj.Bounds.Stays.{
  StaysFit, returns, exits, faults, bind, if-Stays, load-Stays, modify-Stays, set-Stays,
}

module _ {V : Policy} {W : Type 0} (K : Kernel W) where
  pub errif-Stays :
      (b : Bool) (msg : String) (m : Machine W) → Sound V m → StaysFit V (errif K b msg m)
  unfolding errif
  errif-Stays true msg m all = exits
  errif-Stays false msg m all = returns all

  pub update_connection-Stays :
      (p : ℕ) (a : EpollAction) (m : Machine W) → Sound V m → StaysFit V (update_connection K p a m)
  unfolding update_connection modify_event add_event remove delete set_conn set_in_epoll
  update_connection-Stays p action_update m all = bind (load-Stays p m all) λ c m1 (fits, all1).
      if-Stays c.in_epoll _ _ m1 (bind (load-Stays p m1 all1) λ d m2 (fits2, all2). returns all2) (
        bind (load-Stays p m1 all1) λ d m2 (fits2, all2).
          bind (set-Stays p _ all2 set_in_epoll (λ e. refl) (λ e. refl) (λ e. refl))
            λ _ m3 all3. returns all3)
  update_connection-Stays p action_delete m all = bind (load-Stays p m all) λ c m1 (fits, all1).
      if-Stays c.in_epoll _ _ m1
        (bind (load-Stays p m1 all1) λ d m2 (fits2, all2).
          bind (load-Stays p _ all2)
            λ e m3 (fits3, all3). returns (AllFit-update m3.heap p none all3.0 (λ f h. cc), all3.1))
        (returns all1)

  bind_recv-Stays : (p : ℕ) (h : Handler) (m : Machine W) → Sound V m → StaysFit V (bind_recv p h m)
  unfolding bind_recv set_recv_callback
  bind_recv-Stays p h m all = set-Stays p m all _ (λ c. refl) (λ c. refl) (λ c. refl)

  bind_send-Stays : (p : ℕ) (h : Handler) (m : Machine W) → Sound V m → StaysFit V (bind_send p h m)
  unfolding bind_send set_send_callback
  bind_send-Stays p h m all = set-Stays p m all _ (λ c. refl) (λ c. refl) (λ c. refl)

  pub set_event-Stays :
      (p n : ℕ) (m : Machine W) → Sound V m → StaysFit V (modify p (set_event n) m)
  unfolding set_event
  set_event-Stays p n m all = set-Stays p m all _ (λ c. refl) (λ c. refl) (λ c. refl)

  non_null-Stays : (o : Option ℕ) (m : Machine W) → Sound V m → StaysFit V (non_null o m)
  non_null-Stays none m all = faults V.null
  non_null-Stays (some p) m all = returns all

  inet_addr_of-Stays :
      (o : Option InetAddress) (m : Machine W) → Sound V m → StaysFit V (Socket.inet_addr_of K o m)
  inet_addr_of-Stays none m all = faults V.null
  inet_addr_of-Stays (some a) m all = returns all

  -- A new object starts with both lengths 0.
  alloc-Stays :
      {init : Connection → Connection} (m : Machine W)
      → ((raw : Connection) → V.Good raw.rbuffer → Fits V (init raw))
      → Sound V m
      → StaysFit V (alloc init m)
  unfolding alloc
  alloc-Stays m new all =
      returns (AllFit-put m.heap m.next all.0 (new (m.junk m.next) (all.1 m.next)), all.1)

  socket_bind-Stays : (p : ℕ) (m : Machine W) → Sound V m → StaysFit V (Socket.bind K p m)
  unfolding Socket.bind
  socket_bind-Stays p m all = bind (load-Stays p m all) λ c m1 (fits, all1).
      bind (inet_addr_of-Stays c.inet_addr m1 all1) λ a m2 all2. errif-Stays _ _ _ all2

  listen-Stays : (p n : ℕ) (m : Machine W) → Sound V m → StaysFit V (Socket.listen K p n m)
  unfolding Socket.listen
  listen-Stays p n m all = bind (load-Stays p m all) λ c m1 (fits, all1). errif-Stays _ _ _ all1

  new_socket-Stays :
      (ip : String) (port : ℤ) (m : Machine W)
      → Sound V m
      → StaysFit V (Socket.new_socket K ip port m)
  unfolding Socket.new_socket
  new_socket-Stays ip port m all = bind (alloc-Stays m default_connection-Fits all) λ p m0 all0.
      bind (errif-Stays _ _ _ all0) λ _ m1 all1. bind (load-Stays p m1 all1) λ c m2 (fits, all2).
        bind
          (socket_bind-Stays p _ (
            AllFit-put m2.heap p all2.0 (record {
              received = fits.received;
              written = fits.written;
              content = fits.content;
            }),
            all2.1,
          ))
          λ _ m3 all3. returns all3

  pub new_server-Stays :
      (raw : Server) (loop : Option ℕ) (m : Machine W)
      → Sound V m
      → StaysFit V (new_server K raw loop m)
  unfolding new_server
  new_server-Stays raw loop m all = bind (errif-Stays _ _ m all) λ _ m1 all1.
      bind (new_socket-Stays _ _ m1 all1) λ s m2 all2. bind (listen-Stays s _ m2 all2) λ _ m3 all3.
        bind (set_event-Stays s _ m3 all3) λ _ m4 all4.
          bind (load-Stays s m4 all4) λ c m5 (_, all5).
            bind (non_null-Stays loop _ all5) λ _ m6 all6.
              bind (update_connection-Stays s _ m6 all6)
                λ _ m7 all7. bind (bind_recv-Stays s _ m7 all7) λ _ m8 all8. returns all8

  pub accept_callback-Stays :
      (p : ℕ) (m : Machine W) → Sound V m → StaysFit V (accept_callback K p m)
  unfolding accept_callback Socket.accept
  accept_callback-Stays p m all =
      bind
        (bind (load-Stays p m all)
          λ c m1 (_, all1). alloc-Stays _ (λ raw good. connection-Fits raw _ _ good) all1)
        λ q m2 all2. bind (load-Stays q m2 all2) λ c m3 (_, all3).
          bind (set_event-Stays q _ _ all3) λ _ m4 all4.
            bind (update_connection-Stays q _ m4 all4) λ _ m5 all5.
              bind (bind_recv-Stays q _ m5 all5) λ _ m6 all6. bind_send-Stays q _ m6 all6

  -- The use of a text in a buffer that is good.
  pub c_string-Stays :
      (l : List ℕ) (m : Machine W) → V.Good l → Sound V m → StaysFit V (terminated (c_string l) m)
  c_string-Stays l m good all = elim (Option-cases (c_string l)) [
    | inl e ↦ rw e (faults (V.overread l good e))
    | inr (text, e) ↦ rw e (returns all)
  ]

  write_from-Stays :
      (c : Connection) (z : ℤ) (m : Machine W)
      → InBuffer z
      → Sound V m
      → StaysFit V (write_from K c z m)
  unfolding write_from
  write_from-Stays c z m (n, e, le) all =
      let short : leb n send_buffer_length ≡ true = ground arith in rw (e, short) (returns all)

  -- The reply has the length of the message, which lies in the buffer.
  pub send_callback-Stays : (p : ℕ) (m : Machine W) → Sound V m → StaysFit V (send_callback K p m)
  unfolding send_callback copy_text set_w_len
  send_callback-Stays p m all = bind (load-Stays p m all) λ c m1 (fits, all1).
      bind (c_string-Stays c.rbuffer m1 fits.content all1) λ t m2 all2.
        bind (set-Stays p m2 all2 (copy_text t) (λ d. refl) (λ d. refl) (λ d. refl)) λ _ m3 all3.
          bind
            (modify-Stays p m3 all3 (set_w_len c.rlen)
              λ d f. record { received = f.received; written = fits.received; content = f.content })
            λ _ m4 all4. bind (load-Stays p m4 all4) λ d m5 (f, all5).
              bind (write_from-Stays d d.wlen m5 f.written all5)
                λ n m6 all6. update_connection-Stays p action_delete m6 all6

  pub collect-Stays :
      (evs : List EpollEvent) (m : Machine W) → Sound V m → StaysFit V (collect K evs m)
  unfolding collect set_revent
  collect-Stays [] m all = returns all
  collect-Stays (ev ∷ evs) m all = bind (non_null-Stays (m.epoll.conn_map ev.fd) m all) λ p m1 all1.
      bind (set-Stays p m1 all1 (set_revent ev.events) (λ c. refl) (λ c. refl) (λ c. refl))
        λ _ m2 all2. bind (collect-Stays evs m2 all2) λ ps m3 all3. returns all3
