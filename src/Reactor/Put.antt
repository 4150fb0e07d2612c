-- ===== src/Reactor/Put.antt =====
-- One object of the reactor is put in, changed or taken out.
use online_chat_proj.Base.{
  ℕ, ◌<◌, ◌≤◌, ◌≡◌, ◌≢◌, refl, sym, ap, ◌∙◌, ◌⊎◌, inl, inr, Option, none, some, arith, update,
  update_self, update_ne, ◌==◌, subst, Bool-cases,
}
use online_chat_proj.Base.Int.{ℤ, minus_one, update_ℤ, update_ℤ_self, update_ℤ_ne, ℤ-cases}
use online_chat_proj.Connection.{Connection}
use online_chat_proj.Machine.{Machine}
use online_chat_proj.Reactor.{Phase, Clients}
use online_chat_proj.Reactor.View.{Serves, Served, Represents}

-- What stands at an address, in the map under a descriptor, and in the clients: together or not at all.
pub data Entry (p : ℕ) (g : ℤ) : Option Connection → Option ℕ → Option Phase → Type 0 where
  gone : Entry p g none none none
  kept :
      {c : Connection} {ph : Phase}
      → c.fd ≡ g
      → Serves p ph c
      → Entry p g (some c) (some p) (some ph)

Entry-client :
    {p : ℕ} {g : ℤ} {o : Option Connection} {a : Option ℕ} {ph : Option Phase} (k : Phase)
    → Entry p g o a ph
    → ph ≡ some k
    → (c : Connection) × (o ≡ some c) × (a ≡ some p) × (c.fd ≡ g) × Serves p k c
Entry-client k gone e = absurd (cc)
Entry-client {p} k (kept {c} {ph = j} own s) e =
    let same : j ≡ k = cc in (c, refl, refl, own, subst (λ i. Serves p i c) same s)

Entry-object :
    {p : ℕ} {g : ℤ} {o : Option Connection} {a : Option ℕ} {ph : Option Phase} (c : Connection)
    → Entry p g o a ph
    → o ≡ some c
    → (k : Phase) × (ph ≡ some k) × (a ≡ some p) × (g ≡ c.fd)
Entry-object c gone e = absurd (cc)
Entry-object c (kept {c = d} {ph = j} own s) e =
    let same : d ≡ c = cc in (j, refl, refl, sym own ∙ ap (λ (b : Connection). b.fd) same)

module _ {W : Type 0} where
  -- Two machines that differ in the object at one address and in the entry of one descriptor, and
  -- the clients before and after.
  pub record Puts (m m' : Machine W) (cl cl' : Clients) (p : ℕ) (g : ℤ) (o : Option Connection)
      (a : Option ℕ) (ph : Option Phase) : Type 0 where
    pub heap : (q : ℕ) → m'.heap q ≡ update m.heap p o q
    pub map : (h : ℤ) → m'.epoll.conn_map h ≡ update_ℤ m.epoll.conn_map g a h
    pub phases : (h : ℤ) → cl' h ≡ update_ℤ cl g ph h
    pub grows : m.next ≤ m'.next
    pub given : p < m'.next

  -- No other object has the descriptor `g`, and the object at `p` has no other.
  pub record Owns (l : ℕ) (fd : ℤ) (m : Machine W) (p : ℕ) (g : ℤ) : Type 0 where
    pub client : p ≢ l
    pub real : g ≢ minus_one
    pub apart : g ≢ fd
    pub at : (c : Connection) → m.heap p ≡ some c → c.fd ≡ g
    pub only : (q : ℕ) (c : Connection) → q ≢ p → q ≢ l → m.heap q ≡ some c → c.fd ≢ g

  module _ {l : ℕ} {fd : ℤ} {m m' : Machine W} {cl cl' : Clients} {p : ℕ} {g : ℤ}
      {o : Option Connection} {a : Option ℕ} {ph : Option Phase} (r : Represents l fd m cl)
      (x : Owns l fd m p g) (f : Puts m m' cl cl' p g o a ph) where
    other_heap : (q : ℕ) → p ≢ q → m'.heap q ≡ m.heap q
    other_heap q ne = f.heap q ∙ update_ne m.heap p q o ne

    other_map : (h : ℤ) → g ≢ h → m'.epoll.conn_map h ≡ m.epoll.conn_map h
    other_map h ne = f.map h ∙ update_ℤ_ne m.epoll.conn_map g h a ne

    other_client : (h : ℤ) → g ≢ h → cl' h ≡ cl h
    other_client h ne = f.phases h ∙ update_ℤ_ne cl g h ph ne

    put_client : Entry p g o a ph → (k : Phase) → cl' g ≡ some k → Served m' g k
    put_client y k e =
        let (c, here, mapped, own, serves) =
          Entry-client k y (sym (f.phases g ∙ update_ℤ_self cl g ph) ∙ e) in
        record {
          addr = p;
          obj = c;
          here = f.heap p ∙ update_self m.heap p o ∙ here;
          own = own;
          mapped = f.map g ∙ update_ℤ_self m.epoll.conn_map g a ∙ mapped;
          serves = serves;
        }

    old_client : (h : ℤ) (k : Phase) → g ≢ h → cl h ≡ some k → Served m' h k
    old_client h k ne e =
        let s = r.clients h k e in
        let apart : p ≢ s.addr =
          λ same. absurd (ne (sym (x.at s.obj (ap m.heap same ∙ s.here)) ∙ s.own)) in
        record {
          addr = s.addr;
          obj = s.obj;
          here = other_heap s.addr apart ∙ s.here;
          own = s.own;
          mapped = other_map h ne ∙ s.mapped;
          serves = s.serves;
        }

    put_object :
        Entry p g o a ph
        → (c : Connection) → m'.heap p ≡ some c
        → (k : Phase) × (cl' c.fd ≡ some k) × (m'.epoll.conn_map c.fd ≡ some p)
    put_object y c e =
        let (k, known, mapped, at) =
          Entry-object c y (sym (f.heap p ∙ update_self m.heap p o) ∙ e) in
        (
          k,
          ap cl' (sym at) ∙ f.phases g ∙ update_ℤ_self cl g ph ∙ known,
          ap m'.epoll.conn_map (sym at) ∙ f.map g ∙ update_ℤ_self m.epoll.conn_map g a ∙ mapped,
        )

    old_object :
        (q : ℕ) (c : Connection)
        → p ≢ q
        → q ≢ l
        → m.heap q ≡ some c
        → (c.fd ≡ minus_one)
          ⊎ ((k : Phase) × (cl' c.fd ≡ some k) × (m'.epoll.conn_map c.fd ≡ some q))
    old_object q c ne free e = elim (r.objects q c free e) [
      | inl left ↦ inl left
      | inr (k, known, mapped) ↦
          let apart : g ≢ c.fd = λ h. x.only q c (λ same. ne (sym same)) free e (sym h) in
          inr (k, other_client c.fd apart ∙ known, other_map c.fd apart ∙ mapped)
    ]

    pub Represents-put : Entry p g o a ph → Represents l fd m' cl'
    Represents-put y = record {
      sock = r.sock;
      here = other_heap l x.client ∙ r.here;
      own = r.own;
      accepts = r.accepts;
      mapped = other_map fd x.apart ∙ r.mapped;
      real = r.real;
      apart = other_client fd x.apart ∙ r.apart;
      nobody = other_client minus_one x.real ∙ r.nobody;
      clients = λ h k e. elim (ℤ-cases g h) [
        | inl same ↦ subst (λ i. Served m' i k) same (put_client y k (ap cl' same ∙ e))
        | inr ne ↦ old_client h k ne (sym (other_client h ne) ∙ e)
      ];
      objects = λ q c free e. elim (Bool-cases (p == q)) [
        | inl same ↦
            let at : p ≡ q = ground (arith, same) in
            inr (
              subst (λ i. (k : Phase) × (cl' c.fd ≡ some k) × (m'.epoll.conn_map c.fd ≡ some i)) at
                (put_object y c (ap m'.heap at ∙ e)))
        | inr ne ↦
            let apart : p ≢ q = ground (arith, ne) in
            old_object q c apart free (sym (other_heap q apart) ∙ e)
      ];
      unused = λ q h.
          let g1 = f.grows in
          let g2 = f.given in
          let apart : p ≢ q = ground (arith, h) in other_heap q apart ∙ r.unused q (omega arith);
    }
