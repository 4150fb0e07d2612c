-- ===== src/Examples/Sim.antt =====
-- A system for one epoll instance, with scripted peers: which connections arrive, what `recv`
-- answers, and whose turn it is at each `epoll_wait`.
use online_chat_proj.Base.{
  ℕ, ◌≡◌, ◌≢◌, refl, ap, ◌∙◌, inl, inr, Bool, true, false, Option, none, some, List, [], ◌∷◌, arith,
  if◌then◌else◌, update, update_self, Bool-cases, Option-cases,
}
use online_chat_proj.Base.Int.{ℤ, pos, negsuc, minus_one, update_ℤ, update_ℤ_self, ==ℤ_refl}
use online_chat_proj.Os.{
  Kernel, SockAddr, EpollEvent, CtlOp, ctl_add, ctl_mod, ctl_del, Received, failed, eagain, Output,
}
use online_chat_proj.Os.Laws.{KernelLaws, ExactLaws, Quiet, SetsEvent, Reported, report, none_left}

pub record Sim : Type 0 where
  pub open_fds : ℕ → Bool
  pub watched : ℤ → Option EpollEvent
  pub arrivals : List ℕ
  pub answers : List Received
  pub turns : List ℤ
  pub sent : List (List ℕ)
  pub printed : List Output

abbrev pub is_open : Sim → ℤ → Bool
is_open s (pos n) = s.open_fds n
is_open s (negsuc n) = false

abbrev pub registered : ℤ → Sim → ℤ → Option EpollEvent
registered e s g = if is_open s g then s.watched g else none

-- A new descriptor is not watched.
abbrev open_fd : ℕ → List ℕ → Sim → Sim
open_fd n ns s = record s {
  arrivals = ns;
  open_fds = update s.open_fds n true;
  watched = update_ℤ s.watched (pos n) none;
}

abbrev accept_next : SockAddr → Sim → List ℕ → (ℤ × SockAddr) × Sim
accept_next a s [] = ((minus_one, a), s)
accept_next a s (n ∷ ns) =
    if s.open_fds n then ((minus_one, a), s) else ((pos n, a), open_fd n ns s)

abbrev ctl : CtlOp → ℤ → Option EpollEvent → Sim → ℤ × Sim
ctl ctl_add fd ev s = (pos 0, record s { watched = update_ℤ s.watched fd ev })
ctl ctl_mod fd ev s = (pos 0, record s { watched = update_ℤ s.watched fd ev })
ctl ctl_del fd ev s = (pos 0, record s { watched = update_ℤ s.watched fd none })

abbrev reports : Option EpollEvent → List EpollEvent
reports none = []
reports (some r) = r ∷ []

abbrev wait_turn : Sim → List ℤ → List EpollEvent × Sim
wait_turn s [] = ([], s)
wait_turn s (g ∷ gs) = (reports (registered minus_one s g), record s { turns = gs })

abbrev next_answer : Sim → List Received → Received × Sim
next_answer s [] = (failed eagain, s)
next_answer s (r ∷ rs) = (r, record s { answers = rs })

abbrev shut_fd : ℤ → Sim → Sim
shut_fd (pos n) s = record s { open_fds = update s.open_fds n false }
shut_fd (negsuc n) s = s

abbrev pub sim : Kernel Sim
sim = record {
  socket = λ s. (pos 3, open_fd 3 s.arrivals s);
  bind = λ fd a n s. (pos 0, s);
  listen = λ fd n s. (pos 0, s);
  accept = λ fd a s. accept_next a s s.arrivals;
  get_flags = λ fd s. (0, s);
  set_flags = λ fd n s. s;
  epoll_create = λ s. (pos 4, record s { watched = λ _. none });
  epoll_ctl = λ e op fd ev s. ctl op fd ev s;
  epoll_wait = λ e n t s. wait_turn s s.turns;
  recv = λ fd n s. next_answer s s.answers;
  write = λ fd bs s. (pos 0, record s { sent = bs ∷ s.sent });
  close = λ fd s. shut_fd fd s;
  print = λ o s. record s { printed = o ∷ s.printed };
  perror = λ msg s. s;
  inet_addr = λ ip. 0x0100_007f;
  htons = λ n. n;
}

abbrev SimQuiet : ℤ → Sim → Sim → Type 0
SimQuiet = Quiet is_open registered

-- A step that leaves the descriptors and the watched events alone.
same-Quiet : (e : ℤ) (s t : Sim) → t.open_fds ≡ s.open_fds → t.watched ≡ s.watched → SimQuiet e s t
same-Quiet e s t o w = record {
  sub = λ g ev h. ground (arith, h, ap (λ (f : ℤ → Option EpollEvent). f g) w, same g);
  kept = λ g h. same g ∙ h;
}
  where
    same : (g : ℤ) → is_open t g ≡ is_open s g
    same (pos n) = ap (λ (f : ℕ → Bool). f n) o
    same (negsuc n) = refl

open_fd-Quiet : (e : ℤ) (n : ℕ) (ns : List ℕ) (s : Sim) → SimQuiet e s (open_fd n ns s)
open_fd-Quiet e n ns s = record { sub = λ g ev h. open_sub g ev h; kept = λ g h. open_kept g h }
  where
    open_sub :
        (g : ℤ) (ev : EpollEvent)
        → registered e (open_fd n ns s) g ≡ some ev
        → registered e s g ≡ some ev
    open_sub (pos k) ev h = ground arith
    open_sub (negsuc k) ev h = ground arith

    open_kept : (g : ℤ) → is_open s g ≡ true → is_open (open_fd n ns s) g ≡ true
    open_kept (pos k) h = ground arith
    open_kept (negsuc k) h = ground arith

accept-Quiet : (e : ℤ) (a : SockAddr) (s : Sim) (ns : List ℕ) → SimQuiet e s (accept_next a s ns).1
accept-Quiet e a s [] = same-Quiet e s s refl refl
accept-Quiet e a s (n ∷ ns) = elim (Bool-cases (s.open_fds n)) [
  | inl h ↦ rw h (same-Quiet e s s refl refl)
  | inr h ↦ rw h (open_fd-Quiet e n ns s)
]

accept-new : (a : SockAddr) (s : Sim) (ns : List ℕ) → is_open s (accept_next a s ns).0.0 ≡ false
accept-new a s [] = refl
accept-new a s (n ∷ ns) = ground arith

answer-Quiet : (e : ℤ) (s : Sim) (rs : List Received) → SimQuiet e s (next_answer s rs).1
answer-Quiet e s [] = same-Quiet e s s refl refl
answer-Quiet e s (r ∷ rs) = same-Quiet e s _ refl refl

sets :
    (e fd : ℤ) (ev : EpollEvent) (s : Sim)
    → SetsEvent is_open registered e fd ev s
        (record s { watched = update_ℤ s.watched fd (some ev) })
sets e fd ev s = record { sets = λ g r h. ground (arith, h); kept = λ g h. ground arith }

del-Quiet : (e fd : ℤ) (s : Sim) → SimQuiet e s (record s { watched = update_ℤ s.watched fd none })
del-Quiet e fd s = record { sub = λ g ev h. ground (arith, h); kept = λ g h. ground arith }

close-sub :
    (e fd : ℤ) (s : Sim) (g : ℤ) (ev : EpollEvent)
    → registered e (shut_fd fd s) g ≡ some ev
    → registered e s g ≡ some ev
close-sub e (pos n) s (pos k) ev h = ground arith
close-sub e (pos n) s (negsuc k) ev h = ground arith
close-sub e (negsuc n) s g ev h = h

close-kept :
    (fd : ℤ) (s : Sim) (g : ℤ) → g ≢ fd → is_open s g ≡ true → is_open (shut_fd fd s) g ≡ true
close-kept (pos n) s (pos k) ne h = ground arith
close-kept (pos n) s (negsuc k) ne h = ground arith
close-kept (negsuc n) s g ne h = h

wait-Quiet : (e : ℤ) (s : Sim) (gs : List ℤ) → SimQuiet e s (wait_turn s gs).1
wait-Quiet e s [] = same-Quiet e s s refl refl
wait-Quiet e s (g ∷ gs) = same-Quiet e s _ refl refl

wait-Reported :
    (e : ℤ) (s : Sim) (gs : List ℤ)
    → (hs : List ℤ) × Reported (registered e s) hs (wait_turn s gs).0
wait-Reported e s [] = ([], none_left)
wait-Reported e s (g ∷ gs) = elim (Option-cases (registered e s g)) [
  | inl h ↦ rw h ([], none_left)
  | inr (r, h) ↦ (g ∷ [], rw (ap reports h) (report h refl (λ i. i) (λ o. o) tt none_left))
]

-- The system keeps to what the manual says, whatever its `recv` hands over.
laws_with :
    (answer : ℤ → ℕ → Sim → Received × Sim)
    → ((e fd : ℤ) (n : ℕ) (s : Sim) → SimQuiet e s (answer fd n s).1)
    → KernelLaws (record sim { recv = answer })
laws_with answer quiet = record {
  opened = is_open;
  registered = registered;
  socket_quiet = λ e s. open_fd-Quiet e 3 s.arrivals s;
  bind_quiet = λ e fd a n s. same-Quiet e s s refl refl;
  listen_quiet = λ e fd n s. same-Quiet e s s refl refl;
  accept_quiet = λ e fd a s. accept-Quiet e a s s.arrivals;
  accept_new = λ fd a s. accept-new a s s.arrivals;
  get_flags_quiet = λ e fd s. same-Quiet e s s refl refl;
  set_flags_quiet = λ e fd n s. same-Quiet e s s refl refl;
  recv_quiet = quiet;
  write_quiet = λ e fd bs s. same-Quiet e s _ refl refl;
  print_quiet = λ e o s. same-Quiet e s _ refl refl;
  create_empty = λ s g. ground arith;
  add_sets = λ e fd ev s. sets e fd ev s;
  mod_sets = λ e fd ev s. sets e fd ev s;
  del_quiet = λ e fd s. del-Quiet e fd s;
  del_removes = λ e fd s. ground (arith, ==ℤ_refl fd);
  wait_quiet = λ e n t s. wait-Quiet e s s.turns;
  wait_reports = λ e n t s. wait-Reported e s s.turns;
  close_sub = λ e fd s g ev h. close-sub e fd s g ev h;
  close_kept = λ fd s g ne h. close-kept fd s g ne h;
  registered_opened = λ e s g ev h. ground (arith, h);
}

pub sim_laws : KernelLaws sim
sim_laws = laws_with (λ fd n s. next_answer s s.answers) (λ e fd n s. answer-Quiet e s s.answers)

-- Whatever the answer, if the system stays as it was.
pub laws_answering :
    (answer : ℕ → Received) → KernelLaws (record sim { recv = λ fd n s. (answer n, s) })
laws_answering answer = laws_with (λ fd n s. (answer n, s)) (λ e fd n s. same-Quiet e s s refl refl)

-- A call that succeeds opens its descriptor.
accept-opens :
    (a : SockAddr) (s : Sim) (ns : List ℕ)
    → (accept_next a s ns).0.0 ≢ minus_one
    → is_open (accept_next a s ns).1 (accept_next a s ns).0.0 ≡ true
accept-opens a s [] ne = absurd (ne refl)
accept-opens a s (n ∷ ns) ne = elim (Bool-cases (s.open_fds n)) [
  | inl h ↦ absurd (ne (rw h refl))
  | inr h ↦ rw h (update_self s.open_fds n true)
]

-- What is watched after a change are the new events.
modifies :
    (fd : ℤ) (ev r : EpollEvent) (e : ℤ) (s : Sim)
    → registered e (record s { watched = update_ℤ s.watched fd (some ev) }) fd ≡ some r
    → r ≡ ev
modifies fd ev r e s h = ground (arith, h, update_ℤ_self s.watched fd (some ev))

pub exact_answering : (answer : ℕ → Received) → ExactLaws (laws_answering answer)
unfolding laws_answering laws_with
exact_answering answer = record {
  socket = λ s ne. refl;
  accept = λ fd a s ne. accept-opens a s s.arrivals ne;
  never = λ s. refl;
  modifies = λ e fd ev r s h. modifies fd ev r e s h;
}
