-- ===== src/Reactor/Collect.antt =====
-- `Epoll::wait` on the reactor: the connections whose turn it is, each marked with its events.
use online_chat_proj.Base.{
  ℕ, ◌≡◌, ◌≢◌, refl, sym, ap, ◌∙◌, ◌⊎◌, inl, inr, some, List, [], ◌∷◌, arith, update_self,
  update_ne, subst,
}
use online_chat_proj.Base.Int.{ℤ, update_ℤ, update_ℤ_same}
use online_chat_proj.Os.{Kernel, EpollEvent}
use online_chat_proj.Connection.{Connection, accept_handler, set_revent}
use online_chat_proj.Machine.{Machine, ok}
use online_chat_proj.Machine.Object.{holding, modify-ok}
use online_chat_proj.Epoll.{collect}
use online_chat_proj.Reactor.{Phase, reading, answering, Clients, Elsewhere, Distinct, Expected}
use online_chat_proj.Reactor.View.{Serves, Represents, bound_to, old, of_client, is_client}
use online_chat_proj.Reactor.Put.{kept, Owns, Represents-put}

module _ {W : Type 0} {l : ℕ} {fd : ℤ} {m : Machine W} {cl : Clients}
    (r : Represents l fd m cl) where
  Represents-socket :
      (w : W) (c : Connection)
      → c.fd ≡ fd
      → c.recv_callback ≡ bound_to accept_handler l
      → Represents l fd (holding m w l c) cl
  Represents-socket w c own accepts = record {
    sock = c;
    here = update_self m.heap l (some c);
    own = own;
    accepts = accepts;
    mapped = r.mapped;
    real = r.real;
    apart = r.apart;
    nobody = r.nobody;
    clients = λ g ph e.
        let s = r.clients g ph e in
        let apart : l ≢ s.addr = λ h.
          let same : r.sock ≡ s.obj = cc (r.here, s.here, ap m.heap h) in
          let at : fd ≡ g = sym r.own ∙ ap (λ (b : Connection). b.fd) same ∙ s.own in
          absurd (cc (r.apart, e, ap cl at)) in
        record {
          addr = s.addr;
          obj = s.obj;
          here = update_ne m.heap l s.addr (some c) apart ∙ s.here;
          own = s.own;
          mapped = s.mapped;
          serves = s.serves;
        };
    objects = λ q d free e.
        r.objects q d free (sym (update_ne m.heap l q (some c) (λ h. free (sym h))) ∙ e);
    unused = λ q h.
        let given = old r l r.here in
        let apart : l ≢ q = omega arith in update_ne m.heap l q (some c) apart ∙ r.unused q h;
  }

  module _ (p : ℕ) {c : Connection} {ph : Phase} (e : m.heap p ≡ some c)
      (known : cl c.fd ≡ some ph) where
    pub Owns-client : Owns l fd m p c.fd
    Owns-client =
        let (free, mapped, _) = is_client r p e known in
        record {
          client = free;
          real = λ h. absurd (cc (r.nobody, known, ap cl h));
          apart = λ h. absurd (cc (r.apart, known, ap cl h));
          at = λ d e'. let same : d ≡ c = cc in ap (λ (b : Connection). b.fd) same;
          only = λ q d ne free' e' h.
              let mapped' = of_client r q free' e' (ap cl h ∙ known) in
              ne (cc (mapped, mapped', ap m.epoll.conn_map h));
        }

    -- The connection of a client is changed, and perhaps what the client waits for.
    pub Represents-client :
        (w : W) (c' : Connection) (ph' : Phase) {cl' : Clients}
        → c'.fd ≡ c.fd
        → Serves p ph' c'
        → ((h : ℤ) → cl' h ≡ update_ℤ cl c.fd (some ph') h)
        → Represents l fd (holding m w p c') cl'
    Represents-client w c' ph' own serves phases =
        let (_, mapped, _) = is_client r p e known in
        Represents-put r Owns-client
          (record {
            heap = λ q. refl;
            map = λ h. update_ℤ_same m.epoll.conn_map c.fd h mapped;
            phases = phases;
            grows = omega arith;
            given = old r p e;
          })
          (kept own serves)

-- The connections `ps` stand for the events `evs`.
pub data Ready {W : Type 0} (m : Machine W) : List EpollEvent → List ℕ → Type 0 where
  nothing : Ready m [] []
  waiting :
      {ev : EpollEvent} {evs : List EpollEvent} {p : ℕ} {ps : List ℕ} (c : Connection)
      → m.heap p ≡ some c
      → c.fd ≡ ev.fd
      → c.revent.events ≡ ev.events
      → Ready m evs ps
      → Ready m (ev ∷ evs) (p ∷ ps)

module _ {W : Type 0} (K : Kernel W) (l : ℕ) (fd : ℤ) where
  set_revent-Serves :
      (p flags : ℕ) (ph : Phase) (c : Connection) → Serves p ph c → Serves p ph (set_revent flags c)
  unfolding set_revent
  set_revent-Serves p flags (reading left) c s = record {
    watched = s.watched;
    receives = s.receives;
    sends = s.sends;
    holds = s.holds;
  }
  set_revent-Serves p flags (answering left bs) c s = record {
    watched = s.watched;
    receives = s.receives;
    sends = s.sends;
    holds = s.holds;
  }

  marked :
      {m : Machine W} {cl : Clients} (ev : EpollEvent)
      → Represents l fd m cl
      → (ev.fd ≡ fd) ⊎ ((ph : Phase) × (cl ev.fd ≡ some ph))
      → (p : ℕ) × (c : Connection) × (m.epoll.conn_map ev.fd ≡ some p)
        × (m.heap p ≡ some c)
        × (c.fd ≡ ev.fd)
        × Represents l fd (holding m m.world p (set_revent ev.events c)) cl
  unfolding set_revent
  marked {m} {cl} ev r (inl at) = (
    l,
    r.sock,
    ap m.epoll.conn_map at ∙ r.mapped,
    r.here,
    r.own ∙ sym at,
    Represents-socket r m.world _ r.own r.accepts,
  )
  marked {m} {cl} ev r (inr (ph, known)) =
      let s = r.clients ev.fd ph known in
      let known' = ap cl s.own ∙ known in
      (
        s.addr,
        s.obj,
        s.mapped,
        s.here,
        s.own,
        Represents-client r s.addr s.here known' m.world _ ph refl
            (set_revent-Serves s.addr ev.events ph s.obj s.serves)
            (λ h. update_ℤ_same cl s.obj.fd h known'),
      )

  pub collect_lem :
      (evs : List EpollEvent) (m : Machine W) {cl : Clients}
      → Represents l fd m cl
      → Expected fd cl evs
      → Distinct evs
      → (ps : List ℕ) × (m' : Machine W) × (collect K evs m ≡ ok ps m')
        × (m'.world ≡ m.world)
        × (m'.epoll.epfd ≡ m.epoll.epfd)
        × (m'.next ≡ m.next)
        × (m'.junk ≡ m.junk)
        × Represents l fd m' cl
        × Ready m' evs ps
        × ((q : ℕ) (c : Connection) → m.heap q ≡ some c → Elsewhere c.fd evs → m'.heap q ≡ some c)
  unfolding collect set_revent
  collect_lem [] m r x d = ([], m, refl, refl, refl, refl, refl, r, nothing, λ q c e h. e)
  collect_lem (ev ∷ evs) m r (known, x) (apart, d) =
      let (p, c, mapped, here, own, r1) = marked ev r known in
      let c1 = set_revent ev.events c in
      let m1 = holding m m.world p c1 in
      let (ps, m', run, same, sameE, sameN, sameJ, r', ready, keep) = collect_lem evs m1 r1 x d in
      (
        p ∷ ps,
        m',
        rw (mapped, modify-ok m p (set_revent ev.events) here, run) refl,
        same,
        sameE,
        sameN,
        sameJ,
        r',
        waiting c1
            (keep p c1 (update_self m.heap p (some c1))
              (subst (λ g. Elsewhere g evs) (sym own) apart))
            own refl ready,
        λ q b e h.
            let ne : p ≢ q = λ i.
              let f : c ≡ b = cc (here, e, ap m.heap i) in
              h.0 (sym (ap (λ (b : Connection). b.fd) f) ∙ own) in
            keep q b (update_ne m.heap p q (some c1) ne ∙ e) h.1,
      )
