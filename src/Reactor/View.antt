-- ===== src/Reactor/View.antt =====
-- How the objects in memory stand for the clients of the reactor.
use online_chat_proj.Base.{
  ℕ, ◌-◌, ◌<◌, ◌≤◌, ◌≡◌, ◌≢◌, sym, ap, ◌∙◌, ◌⊎◌, inl, inr, Bool-cases, true, Option, none, some,
  List, ◌++◌, arith, dec_lt, ◌==◌, subst,
}
use online_chat_proj.Base.Int.{ℤ, pos, minus_one}
use online_chat_proj.Base.Lists.{length, zeros}
use online_chat_proj.Connection.{
  Connection, Handler, Callback, accept_handler, recv_handler, send_handler, recv_buffer_length,
}
use online_chat_proj.Machine.{Machine}
use online_chat_proj.Reactor.{Phase, reading, answering, Clients}

abbrev pub bound_to : Handler → ℕ → Option Callback
bound_to h p = some (record { handler = h; conn = p })

-- What the buffers of a client's connection hold.
abbrev pub Holds : Phase → Connection → Type 0
Holds (reading left) c = (c.rlen ≡ pos 0) × (c.wbuffer ≡ left)
Holds (answering left bs) c =
    (c.rbuffer ≡ bs ++ zeros (recv_buffer_length - length bs))
    × (c.rlen ≡ pos (length bs))
    × (length bs < recv_buffer_length)
    × (c.wbuffer ≡ left)

-- The connection of a client, at address `p`.
pub record Serves (p : ℕ) (ph : Phase) (c : Connection) : Type 0 where
  pub watched : c.in_epoll ≡ true
  pub receives : c.recv_callback ≡ bound_to recv_handler p
  pub sends : c.send_callback ≡ bound_to send_handler p
  pub holds : Holds ph c

module _ {W : Type 0} where
  pub record Served (m : Machine W) (g : ℤ) (ph : Phase) : Type 0 where
    pub addr : ℕ
    pub obj : Connection
    pub here : m.heap addr ≡ some obj
    pub own : obj.fd ≡ g
    pub mapped : m.epoll.conn_map g ≡ some addr
    pub serves : Serves addr ph obj

  -- `k` objects were made so far, and the send buffer of the storage of each holds `spare`.
  pub record Supplies (spare : ℕ → List ℕ) (k : ℕ) (m : Machine W) : Type 0 where
    pub next : m.next ≡ k
    pub junk : (q : ℕ) → (m.junk q).wbuffer ≡ spare q

  -- A step that makes no object.
  pub supplied :
      {spare : ℕ → List ℕ} {k : ℕ} {m m' : Machine W}
      → Supplies spare k m
      → m'.next ≡ m.next
      → m'.junk ≡ m.junk
      → Supplies spare k m'
  supplied s next junk = record {
    next = next ∙ s.next;
    junk = λ q. ap (λ (f : ℕ → Connection). (f q).wbuffer) junk ∙ s.junk q;
  }

  -- The memory holds the listening socket `fd`, at `l`, the connections of the clients, those that a
  -- failed `accept` has left, with the descriptor -1, and nothing else.
  pub record Represents (l : ℕ) (fd : ℤ) (m : Machine W) (cl : Clients) : Type 0 where
    pub sock : Connection
    pub here : m.heap l ≡ some sock
    pub own : sock.fd ≡ fd
    pub accepts : sock.recv_callback ≡ bound_to accept_handler l
    pub mapped : m.epoll.conn_map fd ≡ some l
    pub real : fd ≢ minus_one
    pub apart : cl fd ≡ none
    pub nobody : cl minus_one ≡ none
    pub clients : (g : ℤ) (ph : Phase) → cl g ≡ some ph → Served m g ph
    pub objects :
        (q : ℕ) (c : Connection)
        → q ≢ l
        → m.heap q ≡ some c
        → (c.fd ≡ minus_one)
          ⊎ ((ph : Phase) × (cl c.fd ≡ some ph) × (m.epoll.conn_map c.fd ≡ some q))
    pub unused : (q : ℕ) → m.next ≤ q → m.heap q ≡ none

  -- None of this looks at the system.
  pub Represents-world :
      {l : ℕ} {fd : ℤ} {m : Machine W} {cl : Clients} (w : W)
      → Represents l fd m cl
      → Represents l fd (record m { world = w }) cl
  Represents-world w r = record {
    sock = r.sock;
    here = r.here;
    own = r.own;
    accepts = r.accepts;
    mapped = r.mapped;
    real = r.real;
    apart = r.apart;
    nobody = r.nobody;
    clients = λ g ph e.
        let s = r.clients g ph e in
        record {
          addr = s.addr;
          obj = s.obj;
          here = s.here;
          own = s.own;
          mapped = s.mapped;
          serves = s.serves;
        };
    objects = r.objects;
    unused = r.unused;
  }

module _ {W : Type 0} {l : ℕ} {fd : ℤ} {m : Machine W} {cl : Clients}
    (r : Represents l fd m cl) where
  pub old : (q : ℕ) {c : Connection} → m.heap q ≡ some c → q < m.next
  old q e = elim (dec_lt q m.next) [ yes h ↦ h | no h ↦ absurd (cc (r.unused q (omega arith))) ]

  -- Who a live object with a given descriptor is.
  pub is_socket : (p : ℕ) {c : Connection} → m.heap p ≡ some c → c.fd ≡ fd → p ≡ l
  is_socket p {c} e f = elim (Bool-cases (p == l)) [
    | inl h ↦ ground (arith, h)
    | inr h ↦ elim (r.objects p c (ground (arith, h)) e) [
      | inl left ↦ absurd (r.real (sym f ∙ left))
      | inr (ph, known, mapped) ↦ absurd (cc (known, r.apart, ap cl f))
    ]
  ]

  -- An object under the descriptor of a client is that client's.
  pub of_client :
      (p : ℕ) {c : Connection} {ph : Phase}
      → p ≢ l
      → m.heap p ≡ some c
      → cl c.fd ≡ some ph
      → m.epoll.conn_map c.fd ≡ some p
  of_client p {c} other e known = elim (r.objects p c other e) [
    | inl left ↦ absurd (cc (r.nobody, known, ap cl left))
    | inr (_, _, mapped) ↦ mapped
  ]

  pub is_client :
      (p : ℕ) {c : Connection} {ph : Phase}
      → m.heap p ≡ some c
      → cl c.fd ≡ some ph
      → (p ≢ l) × (m.epoll.conn_map c.fd ≡ some p) × Serves p ph c
  is_client p {c} {ph} e known =
      let other : p ≢ l = λ f.
        let same : r.sock ≡ c = cc (r.here, e, ap m.heap f) in
        absurd (cc (r.apart, known, ap cl r.own, ap (λ (o : Connection). cl o.fd) same)) in
      let mapped = of_client p other e known in
      let s = r.clients c.fd ph known in
      let at : s.addr ≡ p = cc (s.mapped, mapped) in
      let same : s.obj ≡ c = cc (s.here, e, ap m.heap at) in
      (other, mapped, subst (λ q. Serves q ph c) at (subst (Serves s.addr ph) same s.serves))
