-- ===== src/Os/Laws.antt =====
-- What the code relies on of descriptors and of epoll, as the manual pages state it. `opened` and
-- `registered` are what the system knows: the open descriptors, and the events that an epoll
-- instance watches on each of them.
use online_chat_proj.Base.{ℕ, ◌≡◌, ◌≢◌, ◌⊎◌, Bool, true, false, Option, none, some, List, [], ◌∷◌}
use online_chat_proj.Base.Int.{ℤ, minus_one}
use online_chat_proj.Os.{
  Kernel, SockAddr, EpollEvent, Output, ctl_add, ctl_mod, ctl_del, has_flag, epollin, epollout,
}

abbrev pub Absent : ℤ → List ℤ → Type 0
Absent g [] = Unit {0}
Absent g (h ∷ hs) = (g ≢ h) × Absent g hs

-- An event of `epoll_wait` carries the data that was registered, each descriptor is reported once,
-- and input and output are reported only where they were asked for.
pub data Reported (reg : ℤ → Option EpollEvent) : List ℤ → List EpollEvent → Type 0 where
  none_left : Reported reg [] []
  report :
      {g : ℤ} {gs : List ℤ} {r ev : EpollEvent} {evs : List EpollEvent}
      → reg g ≡ some r
      → ev.fd ≡ r.fd
      → (has_flag ev.events epollin ≡ true → has_flag r.events epollin ≡ true)
      → (has_flag ev.events epollout ≡ true → has_flag r.events epollout ≡ true)
      → Absent g gs
      → Reported reg gs evs
      → Reported reg (g ∷ gs) (ev ∷ evs)

module _ {W : Type 0} (opened : W → ℤ → Bool) (registered : ℤ → W → ℤ → Option EpollEvent) where
  -- A call that opens or registers nothing and closes nothing.
  pub record Quiet (e : ℤ) (w w' : W) : Type 0 where
    pub sub : (g : ℤ) (ev : EpollEvent) → registered e w' g ≡ some ev → registered e w g ≡ some ev
    pub kept : (g : ℤ) → opened w g ≡ true → opened w' g ≡ true

  -- `epoll_ctl` with EPOLL_CTL_ADD or EPOLL_CTL_MOD sets one entry, if it succeeds.
  pub record SetsEvent (e fd : ℤ) (ev : EpollEvent) (w w' : W) : Type 0 where
    pub sets :
        (g : ℤ) (r : EpollEvent)
        → registered e w' g ≡ some r
        → (registered e w g ≡ some r) ⊎ ((g ≡ fd) × (r ≡ ev))
    pub kept : (g : ℤ) → opened w g ≡ true → opened w' g ≡ true

-- `registered e w` is what the instance with descriptor `e` watches in state `w`.
pub record KernelLaws {W : Type 0} (K : Kernel W) : Type 0 where
  pub opened : W → ℤ → Bool
  pub registered : ℤ → W → ℤ → Option EpollEvent
  pub socket_quiet : (e : ℤ) (w : W) → Quiet opened registered e w (K.socket w).1
  pub bind_quiet :
      (e fd : ℤ) (a : SockAddr) (n : ℕ) (w : W) → Quiet opened registered e w (K.bind fd a n w).1
  pub listen_quiet : (e fd : ℤ) (n : ℕ) (w : W) → Quiet opened registered e w (K.listen fd n w).1
  pub accept_quiet :
      (e fd : ℤ) (a : SockAddr) (w : W) → Quiet opened registered e w (K.accept fd a w).1
  -- a new descriptor is one that was not open; -1 is never open
  pub accept_new : (fd : ℤ) (a : SockAddr) (w : W) → opened w (K.accept fd a w).0.0 ≡ false
  pub get_flags_quiet : (e fd : ℤ) (w : W) → Quiet opened registered e w (K.get_flags fd w).1
  pub set_flags_quiet :
      (e fd : ℤ) (n : ℕ) (w : W) → Quiet opened registered e w (K.set_flags fd n w)
  pub recv_quiet : (e fd : ℤ) (n : ℕ) (w : W) → Quiet opened registered e w (K.recv fd n w).1
  pub write_quiet :
      (e fd : ℤ) (bs : List ℕ) (w : W) → Quiet opened registered e w (K.write fd bs w).1
  pub print_quiet : (e : ℤ) (o : Output) (w : W) → Quiet opened registered e w (K.print o w)
  pub create_empty : (w : W) (g : ℤ) → registered (K.epoll_create w).0 (K.epoll_create w).1 g ≡ none
  pub add_sets :
      (e fd : ℤ) (ev : EpollEvent) (w : W)
      → SetsEvent opened registered e fd ev w (K.epoll_ctl e ctl_add fd (some ev) w).1
  pub mod_sets :
      (e fd : ℤ) (ev : EpollEvent) (w : W)
      → SetsEvent opened registered e fd ev w (K.epoll_ctl e ctl_mod fd (some ev) w).1
  pub del_quiet :
      (e fd : ℤ) (w : W) → Quiet opened registered e w (K.epoll_ctl e ctl_del fd none w).1
  pub del_removes : (e fd : ℤ) (w : W) → registered e (K.epoll_ctl e ctl_del fd none w).1 fd ≡ none
  pub wait_quiet :
      (e : ℤ) (n : ℕ) (t : ℤ) (w : W) → Quiet opened registered e w (K.epoll_wait e n t w).1
  pub wait_reports :
      (e : ℤ) (n : ℕ) (t : ℤ) (w : W)
      → (gs : List ℤ) × Reported (registered e w) gs (K.epoll_wait e n t w).0
  pub close_sub :
      (e fd : ℤ) (w : W) (g : ℤ) (ev : EpollEvent)
      → registered e (K.close fd w) g ≡ some ev
      → registered e w g ≡ some ev
  pub close_kept :
      (fd : ℤ) (w : W) (g : ℤ) → g ≢ fd → opened w g ≡ true → opened (K.close fd w) g ≡ true
  pub registered_opened :
      (e : ℤ) (w : W) (g : ℤ) (ev : EpollEvent) → registered e w g ≡ some ev → opened w g ≡ true

-- Beyond that: what a call returns where it succeeds is open, -1 never is, and a descriptor that was
-- modified is watched for the new events or not at all.
pub record ExactLaws {W : Type 0} {K : Kernel W} (L : KernelLaws K) : Type 0 where
  pub socket : (w : W) → (K.socket w).0 ≢ minus_one → L.opened (K.socket w).1 (K.socket w).0 ≡ true
  pub accept :
      (fd : ℤ) (a : SockAddr) (w : W)
      → (K.accept fd a w).0.0 ≢ minus_one
      → L.opened (K.accept fd a w).1 (K.accept fd a w).0.0 ≡ true
  pub never : (w : W) → L.opened w minus_one ≡ false
  pub modifies :
      (e fd : ℤ) (ev r : EpollEvent) (w : W)
      → L.registered e (K.epoll_ctl e ctl_mod fd (some ev) w).1 fd ≡ some r
      → r ≡ ev
