-- ===== src/Reactor/Refuse.antt =====
-- What the reactor does where `accept` fails: the connection that it makes belongs to nobody.
use online_chat_proj.Base.{
  ℕ, suc, ◌≡◌, ◌≢◌, refl, sym, ap, ◌∙◌, ◌⊎◌, inl, inr, true, some, List, arith, update_ne,
  update_self, ◌==◌, Bool-cases,
}
use online_chat_proj.Base.Int.{ℤ, minus_one, update_ℤ_ne}
use online_chat_proj.Os.{Kernel, has_flag, epollin}
use online_chat_proj.Connection.{
  accept_handler, Connection, set_event, connection, default_connection, set_in_epoll,
  set_recv_callback, set_send_callback, set_non_blocking,
}
use online_chat_proj.Machine.{Machine}
use online_chat_proj.EventLoop.Dispatch.{dispatch-recv}
use online_chat_proj.Server.{call}
use online_chat_proj.Server.Accept.{fresh, served, joined, accept_callback_lem}
use online_chat_proj.Server.Visits.{accepted, client, after_accept}
use online_chat_proj.Reactor.{Phase, Clients}
use online_chat_proj.Reactor.View.{bound_to, Supplies, Represents, old}
use online_chat_proj.Reactor.Event.{Turned}

-- A new connection with the descriptor -1.
module _ {W : Type 0} {l : ℕ} {fd : ℤ} {m : Machine W} {cl : Clients} (r : Represents l fd m cl)
    (c : Connection) (w : W) (left : c.fd ≡ minus_one) where
  kept : (q : ℕ) {b : Connection} → m.heap q ≡ some b → (joined m c w).heap q ≡ some b
  kept q e =
      let given = old r q e in
      let apart : m.next ≢ q = omega arith in update_ne m.heap m.next q (some c) apart ∙ e

  same_entry : (g : ℤ) → g ≢ minus_one → (joined m c w).epoll.conn_map g ≡ m.epoll.conn_map g
  same_entry g real = update_ℤ_ne m.epoll.conn_map c.fd g (some m.next) (λ h. real (sym h ∙ left))

  real_client : {g : ℤ} {ph : Phase} → cl g ≡ some ph → g ≢ minus_one
  real_client e h = cc (r.nobody, e, ap cl h)

  -- Each object was there before, or is the new one.
  old_or_left :
      (q : ℕ) (b : Connection)
      → q ≢ l
      → (joined m c w).heap q ≡ some b
      → (b.fd ≡ minus_one)
        ⊎ ((ph : Phase) × (cl b.fd ≡ some ph) × ((joined m c w).epoll.conn_map b.fd ≡ some q))
  old_or_left q b free e = elim (Bool-cases (m.next == q)) [
    | inl at ↦
        let here : m.next ≡ q = ground (arith, at) in
        let same : c ≡ b =
          cc (ap (joined m c w).heap here, e, update_self m.heap m.next (some c)) in
        inl (sym (ap (λ (d : Connection). d.fd) same) ∙ left)
    | inr other ↦
        let apart : m.next ≢ q = ground (arith, other) in
        elim (r.objects q b free (sym (update_ne m.heap m.next q (some c) apart) ∙ e)) [
          | inl h ↦ inl h
          | inr (ph, known, mapped) ↦ inr (ph, known, same_entry b.fd (real_client known) ∙ mapped)
        ]
  ]

  -- It changes nothing for the others.
  Represents-left : Represents l fd (joined m c w) cl
  Represents-left = record {
    sock = r.sock;
    here = kept l r.here;
    own = r.own;
    accepts = r.accepts;
    mapped = same_entry fd r.real ∙ r.mapped;
    real = r.real;
    apart = r.apart;
    nobody = r.nobody;
    clients = λ g ph e.
        let s = r.clients g ph e in
        record {
          addr = s.addr;
          obj = s.obj;
          here = kept s.addr s.here;
          own = s.own;
          mapped = same_entry g (real_client e) ∙ s.mapped;
          serves = s.serves;
        };
    objects = old_or_left;
    unused = λ q h.
        let apart : m.next ≢ q = omega arith in
        update_ne m.heap m.next q (some c) apart ∙ r.unused q (omega arith);
  }

module _ {W : Type 0} (K : Kernel W) (spare : ℕ → List ℕ) (fuel : ℕ) (l : ℕ) (fd : ℤ)
    (m : Machine W) {made : ℕ} {cl : Clients} (r : Represents l fd m cl)
    (supply : Supplies spare made m) {c : Connection} (here : m.heap l ≡ some c) where
  pub refuse_turn :
      has_flag c.revent.events epollin ≡ true
      → c.recv_callback ≡ bound_to accept_handler l
      → client K m.epoll.epfd c.fd m.world ≡ minus_one
      → Turned K spare fuel l fd m l (after_accept K m.epoll.epfd c.fd m.world) (suc made) cl
  unfolding call set_event connection default_connection set_in_epoll set_recv_callback
      set_send_callback set_non_blocking
  refuse_turn readable accepts fails =
      let g = client K m.epoll.epfd c.fd m.world in
      let d = fresh K m g (accepted K m.epoll.epfd c.fd m.world).0.1 in
      record {
        after = joined m (served K m d) (after_accept K m.epoll.epfd c.fd m.world);
        ran =
            dispatch-recv (call K fuel) m l here readable accepts
            ∙ accept_callback_lem K m l c here;
        world = refl;
        epfd = refl;
        represents = Represents-left r (served K m d) _ fails;
        supplies = record { next = ap suc supply.next; junk = supply.junk };
        others = λ q b ne e.
            let given = old r q e in
            let new : m.next ≢ q = omega arith in update_ne m.heap m.next q _ new ∙ e;
      }
