-- ===== src/Safety/View.antt =====
-- What the safety of the reactor depends on: of a connection its descriptor, its flag, the events
-- it was last reported with and its callbacks; and how they agree with the system's view.
use Prim.Native.Nat.{bit_or}
use mathlib.Core.Option
use online_chat_proj.Base.{
  ℕ, ◌≤◌, ◌≡◌, ◌≢◌, refl, ap, subst, ◌∙◌, inl, inr, Bool, true, Option, none, some, arith,
  Option-cases,
}
use online_chat_proj.Base.Int.{ℤ}
use online_chat_proj.Os.{Kernel, EpollEvent, has_flag, epollout, o_nonblock}
use online_chat_proj.Os.Laws.{KernelLaws, Quiet}
use online_chat_proj.Connection.{
  Handler, Callback, Connection, accept_handler, recv_handler, send_handler, set_non_blocking,
}
use online_chat_proj.Machine.{Machine, Epoll}
use online_chat_proj.Machine.Object.{holding}

pub record Core : Type 0 where
  pub fd : ℤ
  pub in_epoll : Bool
  pub revent : EpollEvent
  pub recv_callback : Option Callback
  pub send_callback : Option Callback

abbrev pub core : Connection → Core
core c = record {
  fd = c.fd;
  in_epoll = c.in_epoll;
  revent = c.revent;
  recv_callback = c.recv_callback;
  send_callback = c.send_callback;
}

abbrev pub bound : Handler → ℕ → Option Callback
bound h p = some (record { handler = h; conn = p })

-- The callbacks of the listening socket, and of an accepted connection.
pub data Wired (p : ℕ) (k : Core) : Type 0 where
  listener : k.recv_callback ≡ bound accept_handler p → Wired p k
  client :
      k.recv_callback ≡ bound recv_handler p → k.send_callback ≡ bound send_handler p → Wired p k

module _ {W : Type 0} where
  abbrev pub cores : Machine W → ℕ → Option Core
  cores m p = Option.map core (m.heap p)

  -- The object at `p` exists, and the map leads from its descriptor to it.
  pub record Live (m : Machine W) (p : ℕ) (k : Core) : Type 0 where
    pub here : cores m p ≡ some k
    pub mapped : m.epoll.conn_map k.fd ≡ some p
    pub watched : k.in_epoll ≡ true
    pub wired : Wired p k

  pub core_at :
      (m : Machine W) (p : ℕ) {k : Core}
      → cores m p ≡ some k
      → (c : Connection) × (m.heap p ≡ some c) × (core c ≡ k)
  core_at m p h = elim (Option-cases (m.heap p)) [
    | inl e ↦ absurd (cc)
    | inr (c, e) ↦ (c, e, ground arith)
  ]

  -- Two machines with the same objects under the same map.
  pub record SameObjects (m m' : Machine W) : Type 0 where
    pub same : (q : ℕ) → cores m' q ≡ cores m q
    pub epoll : m'.epoll ≡ m.epoll

  pub Live-same :
      {m m' : Machine W} {p : ℕ} {k : Core} → SameObjects m m' → Live m p k → Live m' p k
  Live-same {p} {k} f l = record {
    here = f.same p ∙ l.here;
    mapped = ap (λ (e : Epoll). e.conn_map k.fd) f.epoll ∙ l.mapped;
    watched = l.watched;
    wired = l.wired;
  }

  -- What the system watches under descriptor `g`.
  pub record Known (m : Machine W) (g : ℤ) (ev : EpollEvent) : Type 0 where
    pub addr : ℕ
    pub obj : Core
    pub live : Live m addr obj
    pub own : obj.fd ≡ g
    pub carries : ev.fd ≡ g
    pub sends : has_flag ev.events epollout ≡ true → obj.send_callback ≡ bound send_handler addr

  pub Known-same :
      {m m' : Machine W} {g : ℤ} {ev : EpollEvent} → SameObjects m m' → Known m g ev → Known m' g ev
  Known-same f k = record {
    addr = k.addr;
    obj = k.obj;
    live = Live-same f k.live;
    own = k.own;
    carries = k.carries;
    sends = k.sends;
  }

module _ {W : Type 0} {m : Machine W} {p q : ℕ} {k j : Core} (l : Live m p k)
    (l' : Live m q j) where
  -- The map keeps two objects apart by their descriptors, and the other way round.
  pub fd-ne : q ≢ p → k.fd ≢ j.fd
  fd-ne ne e = ne (ground (arith, l.mapped, l'.mapped, ap m.epoll.conn_map e))

  pub addr-ne : j.fd ≢ k.fd → p ≢ q
  addr-ne ne e = ne (ground (arith, l.here, l'.here, ap (cores m) e))

module _ {W : Type 0} {K : Kernel W} (L : KernelLaws K) where
  abbrev pub QuietLaws : ℤ → W → W → Type 0
  QuietLaws = Quiet L.opened L.registered

  pub record Inv (m : Machine W) : Type 0 where
    pub unused : (p : ℕ) → m.next ≤ p → cores m p ≡ none
    pub known :
        (g : ℤ) (ev : EpollEvent) → L.registered m.epoll.epfd m.world g ≡ some ev → Known m g ev

  -- A connection that waits for its turn in the list that `wait` returned.
  pub record Ready (m : Machine W) (p : ℕ) : Type 0 where
    pub obj : Core
    pub live : Live m p obj
    pub open_fd : L.opened m.world obj.fd ≡ true
    pub sends :
        has_flag obj.revent.events epollout ≡ true → obj.send_callback ≡ bound send_handler p

  -- What a callback on the object at `p` keeps: the invariant, and the readiness of the others.
  pub record Post (m : Machine W) (p : ℕ) (m' : Machine W) : Type 0 where
    pub inv : Inv m'
    pub others : (q : ℕ) → q ≢ p → Ready m q → Ready m' q

  -- A step that changes nothing of this.
  pub record Frame (m m' : Machine W) : Type 0 where
    pub objects : SameObjects m m'
    pub open objects use *
    pub next : m'.next ≡ m.next
    pub quiet : QuietLaws m.epoll.epfd m.world m'.world

  pub Quiet-refl : (e : ℤ) (w : W) → QuietLaws e w w
  Quiet-refl e w = record { sub = λ g ev h. h; kept = λ g h. h }

  pub Quiet-trans : {e : ℤ} {u v w : W} → QuietLaws e u v → QuietLaws e v w → QuietLaws e u w
  Quiet-trans p q = record {
    sub = λ g ev h. p.sub g ev (q.sub g ev h);
    kept = λ g h. q.kept g (p.kept g h);
  }

  pub set_non_blocking-Quiet :
      (e : ℤ) (c : Connection) (w : W) → QuietLaws e w (set_non_blocking K c w)
  unfolding set_non_blocking
  set_non_blocking-Quiet e c w =
      Quiet-trans (L.get_flags_quiet e c.fd w)
        (L.set_flags_quiet e c.fd (bit_or (K.get_flags c.fd w).0 o_nonblock) (K.get_flags c.fd w).1)

  module _ {m m' : Machine W} (f : Frame m m') where
    Frame-Ready : {p : ℕ} → Ready m p → Ready m' p
    Frame-Ready r = record {
      obj = r.obj;
      live = Live-same f.objects r.live;
      open_fd = f.quiet.kept r.obj.fd r.open_fd;
      sends = r.sends;
    }

    pub Frame-Inv : Inv m → Inv m'
    Frame-Inv inv = record {
      unused = λ p h. f.same p ∙ inv.unused p (ground arith);
      known = λ g ev h. Known-same f.objects (inv.known g ev (f.quiet.sub g ev (kept g ev h)));
    }
      where
        kept :
            (g : ℤ) (ev : EpollEvent)
            → L.registered m'.epoll.epfd m'.world g ≡ some ev
            → L.registered m.epoll.epfd m'.world g ≡ some ev
        kept g ev h = subst (λ (e : Epoll). L.registered e.epfd m'.world g ≡ some ev) f.epoll h

  -- A step that touches one object, and leaves what counts of it as it was.
  Frame-holding :
      (m : Machine W) (p : ℕ) (c c' : Connection) (w : W)
      → m.heap p ≡ some c
      → core c' ≡ core c
      → QuietLaws m.epoll.epfd m.world w
      → Frame m (holding m w p c')
  Frame-holding m p c c' w here same quiet = record {
    objects = record { same = λ q. ground (arith, here, same); epoll = refl };
    next = refl;
    quiet = quiet;
  }
