-- ===== src/Safety/Wait.antt =====
-- `Epoll::wait` returns connections that exist, each once.
use online_chat_proj.Base.{
  ℕ, ◌≡◌, ◌≢◌, refl, sym, ap, subst, ◌∙◌, true, none, some, List, [], ◌∷◌, arith, ℕ_discrete,
  Option,
}
use online_chat_proj.Base.Int.{ℤ}
use online_chat_proj.Os.{Kernel, EpollEvent, has_flag, epollout}
use online_chat_proj.Os.Laws.{KernelLaws, Reported, report, none_left, Absent}
use online_chat_proj.Connection.{Connection, send_handler, set_revent}
use online_chat_proj.Machine.{Machine}
use online_chat_proj.Machine.Object.{holding, modify-ok}
use online_chat_proj.Epoll.{collect, wait, max_epoll_conn}
use online_chat_proj.Safety.Safely.{Safely, returns, bind, mono}
use online_chat_proj.Safety.View.{
  Core, cores, core_at, addr-ne, bound, Wired, listener, client, Live, Known, Known-same,
  SameObjects, Inv, Ready, Frame-Inv,
}

abbrev pub NotIn : ℕ → List ℕ → Type 0
NotIn p [] = Unit {0}
NotIn p (q ∷ qs) = (q ≢ p) × NotIn p qs

module _ {W : Type 0} (m : Machine W) (p : ℕ) (c : Connection) (here : m.heap p ≡ some c)
    (flags : ℕ) where
  -- The machine with new reported events in the object at `p`.
  abbrev tagged : Machine W
  tagged = holding m m.world p (set_revent flags c)

  abbrev mark : Core → Core
  mark k = record k { revent = record { events = flags; fd = k.fd } }

  Live-other : {q : ℕ} {k : Core} → q ≢ p → Live m q k → Live tagged q k
  Live-other ne l = record {
    here = ground (arith, l.here);
    mapped = l.mapped;
    watched = l.watched;
    wired = l.wired;
  }

  Wired-mark : {q : ℕ} {k : Core} → Wired q k → Wired q (mark k)
  Wired-mark (listener e) = listener e
  Wired-mark (client e f) = client e f

  Live-tagged : {k : Core} → Live m p k → Live tagged p (mark k)
  unfolding set_revent
  Live-tagged {k} l = record {
    here = ground (arith, l.here, here);
    mapped = l.mapped;
    watched = l.watched;
    wired = Wired-mark l.wired;
  }

  Known-tagged : {g : ℤ} {r : EpollEvent} → Known m g r → Known tagged g r
  Known-tagged {g} {r} k = elim (ℕ_discrete k.addr p) [
    | yes e ↦ record {
      addr = p;
      obj = mark k.obj;
      live = Live-tagged (subst (λ q. Live m q k.obj) e k.live);
      own = k.own;
      carries = k.carries;
      sends = λ h. k.sends h ∙ ap (bound send_handler) e;
    }
    | no ne ↦ record {
      addr = k.addr;
      obj = k.obj;
      live = Live-other ne k.live;
      own = k.own;
      carries = k.carries;
      sends = k.sends;
    }
  ]

  cores-tagged : (q : ℕ) → cores m q ≡ none → cores tagged q ≡ none
  cores-tagged q h = ground (arith, h, here)

module _ {W : Type 0} {K : Kernel W} (L : KernelLaws K) where
  abbrev pub AllReady : Machine W → List ℕ → Type 0
  AllReady m [] = Unit {0}
  AllReady m (p ∷ ps) = Ready L m p × NotIn p ps × AllReady m ps

  -- What the loop of `wait` over the events of descriptors `gs` gives.
  pub record Collected (m : Machine W) (gs : List ℤ) (ps : List ℕ) (m' : Machine W) : Type 0 where
    pub inv : Inv L m'
    pub ready : AllReady m' ps
    pub others :
        (q : ℕ) (k : Core)
        → Live m q k
        → L.opened m.world k.fd ≡ true
        → (has_flag k.revent.events epollout ≡ true → k.send_callback ≡ bound send_handler q)
        → Absent k.fd gs
        → Ready L m' q × NotIn q ps

  module _ (reg : ℤ → Option EpollEvent) where
    abbrev AllKnown : Machine W → Type 0
    AllKnown m =
        (g : ℤ) (r : EpollEvent) → reg g ≡ some r → Known m g r × (L.opened m.world g ≡ true)

    collect-Safely :
        {gs : List ℤ} {evs : List EpollEvent}
        → Reported reg gs evs
        → (m : Machine W) → AllKnown m
        → Inv L m
        → Safely (Collected m gs) (collect K evs m)
    unfolding collect
    collect-Safely none_left m known inv = returns (record {
      inv = inv;
      ready = tt;
      others = λ q k l o s a. (record { obj = k; live = l; open_fd = o; sends = s }, tt);
    })
    collect-Safely (report {g} {gs} {r} {ev} {evs} e same _ out absent rest) m known inv =
        let k = (known g r e).0 in
        let (c, here, is) = core_at m k.addr k.live.here in
        let mapped : m.epoll.conn_map ev.fd ≡ some k.addr =
          ap m.epoll.conn_map (same ∙ k.carries ∙ sym k.own) ∙ k.live.mapped in
        let live = Live-tagged m k.addr c here ev.events k.live in
        let open_fd = subst (λ f. L.opened m.world f ≡ true) (sym k.own) (known g r e).1 in
        rw (mapped, modify-ok m k.addr (set_revent ev.events) here)
          (bind
            (collect-Safely rest (tagged m k.addr c here ev.events)
              (λ g' r' h.
                let o = known g' r' h in (Known-tagged m k.addr c here ev.events o.0, o.1))
              (record {
                unused = λ q le. cores-tagged m k.addr c here ev.events q (inv.unused q le);
                known = λ g' r' h. Known-tagged m k.addr c here ev.events (inv.known g' r' h);
              }))
            λ ps m' col.
              let (ready, out_of_rest) =
                col.others k.addr (mark m k.addr c here ev.events k.obj) live open_fd
                  (λ h. k.sends (out h)) (subst (λ f. Absent f gs) (sym k.own) absent) in
              returns {a = k.addr ∷ ps} (record {
                inv = col.inv;
                ready = (ready, out_of_rest, col.ready);
                others = λ q j l o s a.
                    let ne = addr-ne k.live l (λ eq. a.0 (eq ∙ k.own)) in
                    let rest' =
                      col.others q j (Live-other m k.addr c here ev.events (λ eq. ne (sym eq)) l) o
                        s a.1 in
                    (rest'.0, (ne, rest'.1));
              }))

  pub wait-Safely :
      (m : Machine W) (timeout : ℤ)
      → Inv L m
      → Safely (λ ps m'. Inv L m' × AllReady m' ps) (wait K timeout m)
  unfolding wait
  wait-Safely m timeout inv =
      let (gs, reports) = L.wait_reports m.epoll.epfd max_epoll_conn timeout m.world in
      let quiet = L.wait_quiet m.epoll.epfd max_epoll_conn timeout m.world in
      let objects : SameObjects m _ = record { same = λ q. refl; epoll = refl } in
      mono
        (collect-Safely (L.registered m.epoll.epfd m.world) reports
          (record m { world = (K.epoll_wait m.epoll.epfd max_epoll_conn timeout m.world).1 })
          (λ g r h. (
            Known-same objects (inv.known g r h),
            quiet.kept g (L.registered_opened m.epoll.epfd m.world g r h),
          ))
          (Frame-Inv L (record { objects = objects; next = refl; quiet = quiet }) inv))
        (λ ps m' col. (col.inv, col.ready))
