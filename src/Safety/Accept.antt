-- ===== src/Safety/Accept.antt =====
-- `acceptCallback` keeps the object discipline: the new connection is known under a descriptor that
-- was not in use, and has its callbacks when the function returns.
use online_chat_proj.Base.{
  ℕ, ◌≡◌, ◌≢◌, refl, sym, ap, ◌∙◌, inl, inr, true, false, none, some, arith, update_self,
}
use online_chat_proj.Base.Int.{ℤ, update_ℤ_ne, update_ℤ_self}
use online_chat_proj.Os.{Kernel, EpollEvent, has_flag, epollout, new_client}
use online_chat_proj.Os.Laws.{KernelLaws, SetsEvent}
use online_chat_proj.InetAddress.{empty_address}
use online_chat_proj.Connection.{
  Connection, default_connection, connection, set_event, set_in_epoll, set_non_blocking,
  set_recv_callback, set_send_callback,
}
use online_chat_proj.Machine.{Machine}
use online_chat_proj.Server.{accept_callback}
use online_chat_proj.Server.Accept.{watch, joined, fresh, served, accept_callback_lem}
use online_chat_proj.Safety.Safely.{Safely, returns}
use online_chat_proj.Safety.View.{
  Core, core, cores, core_at, Wired, client, Live, Known, QuietLaws, Inv, Post, Quiet-refl,
  Quiet-trans, set_non_blocking-Quiet,
}

-- An accepted connection is not watched for output.
no_output : has_flag watch epollout ≡ false
unfolding has_flag
no_output = refl

module _ {W : Type 0} (m : Machine W) (c : Connection) (w : W) where
  Live-joined :
      {q : ℕ} {k : Core}
      → cores m m.next ≡ none
      → c.fd ≢ k.fd
      → Live m q k
      → Live (joined m c w) q k
  Live-joined {q} {k} free apart l = record {
    here = ground (arith, l.here, ap (cores m) {x = q} {y = m.next});
    mapped = update_ℤ_ne m.epoll.conn_map c.fd k.fd (some m.next) apart ∙ l.mapped;
    watched = l.watched;
    wired = l.wired;
  }

module _ {W : Type 0} {K : Kernel W} (L : KernelLaws K) (m : Machine W) where
  abbrev Sets : ℤ → EpollEvent → W → W → Type 0
  Sets fd ev = SetsEvent L.opened L.registered m.epoll.epfd fd ev

  Sets-between :
      {fd : ℤ} {ev : EpollEvent} {u v w x : W}
      → QuietLaws L m.epoll.epfd u v
      → Sets fd ev v w
      → QuietLaws L m.epoll.epfd w x
      → Sets fd ev u x
  Sets-between q s r = record {
    sets = λ g ev h. elim (s.sets g ev (r.sub g ev h)) [
      | inl old ↦ inl (q.sub g ev old)
      | inr new ↦ inr new
    ];
    kept = λ g h. r.kept g (s.kept g (q.kept g h));
  }

  -- A joined connection under a descriptor that was not open.
  joined-Post :
      (p : ℕ) (c : Connection) (ev : EpollEvent) (w : W)
      → Inv L m
      → L.opened m.world c.fd ≡ false
      → c.in_epoll ≡ true
      → Wired m.next (core c)
      → ev.fd ≡ c.fd
      → has_flag ev.events epollout ≡ false
      → Sets c.fd ev m.world w
      → Post L m p (joined m c w)
  joined-Post p c ev w inv closed watched wired own quiet s = record {
    inv = record { unused = λ q le. ground (arith, inv.unused q); known = known };
    others = λ q ne r. record {
      obj = r.obj;
      live = Live-joined m c w free (apart r.obj.fd r.open_fd) r.live;
      open_fd = s.kept r.obj.fd r.open_fd;
      sends = r.sends;
    };
  }
    where
      free : cores m m.next ≡ none
      free = inv.unused m.next (omega arith)

      apart : (g : ℤ) → L.opened m.world g ≡ true → c.fd ≢ g
      apart g h e = cc (closed, h, ap (L.opened m.world) e)

      old :
          (g : ℤ) (r : EpollEvent)
          → L.opened m.world g ≡ true
          → Known m g r
          → Known (joined m c w) g r
      old g r h k = record {
        addr = k.addr;
        obj = k.obj;
        live = Live-joined m c w free (λ e. apart g h (e ∙ k.own)) k.live;
        own = k.own;
        carries = k.carries;
        sends = k.sends;
      }

      new : (g : ℤ) (r : EpollEvent) → g ≡ c.fd → r ≡ ev → Known (joined m c w) g r
      new g r e f = record {
        addr = m.next;
        obj = core c;
        live = record {
          here = rw (update_self m.heap m.next (some c));
          mapped = update_ℤ_self m.epoll.conn_map c.fd (some m.next);
          watched = watched;
          wired = wired;
        };
        own = sym e;
        carries = ap (λ (v : EpollEvent). v.fd) f ∙ own ∙ sym e;
        sends =
            λ out. absurd (cc (out, quiet, ap (λ (v : EpollEvent). has_flag v.events epollout) f));
      }

      known :
          (g : ℤ) (r : EpollEvent)
          → L.registered m.epoll.epfd w g ≡ some r
          → Known (joined m c w) g r
      known g r h = elim (s.sets g r h) [
        | inl was ↦ old g r (L.registered_opened m.epoll.epfd m.world g r was) (inv.known g r was)
        | inr (e, f) ↦ new g r e f
      ]

module _ {W : Type 0} {K : Kernel W} (L : KernelLaws K) (m : Machine W) (p : ℕ) where
  -- `acceptCallback` keeps the invariant, and what every other connection needs.
  accept_callback-Post :
      (c : Connection)
      → Inv L m
      → m.heap p ≡ some c
      → Safely (λ _. Post L m p) (accept_callback K p m)
  unfolding connection default_connection set_event set_in_epoll set_recv_callback set_send_callback
  accept_callback-Post c inv here =
      let r = K.accept c.fd empty_address.addr m.world in
      let d = fresh K m r.0.0 r.0.1 in
      let printed = K.print (new_client r.0.0) r.1 in
      let w = set_non_blocking K d printed in
      rw (accept_callback_lem K m p c here) (
        returns (
          joined-Post L m p (served K m d) (record { events = watch; fd = r.0.0 }) _ inv
            (L.accept_new c.fd empty_address.addr m.world) refl (client refl refl) refl no_output
            (Sets-between L m
              (Quiet-trans L
                (Quiet-trans L (L.accept_quiet m.epoll.epfd c.fd empty_address.addr m.world)
                  (L.print_quiet m.epoll.epfd _ r.1))
                (set_non_blocking-Quiet L m.epoll.epfd d printed))
              (L.add_sets m.epoll.epfd r.0.0 _ w) (Quiet-refl L _ _))))

  pub accept_callback-Safely :
      (k : Core) → Inv L m → Live m p k → Safely (λ _. Post L m p) (accept_callback K p m)
  accept_callback-Safely k inv live =
      let (c, here, is) = core_at m p live.here in accept_callback-Post c inv here
