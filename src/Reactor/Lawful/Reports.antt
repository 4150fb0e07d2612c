-- ===== src/Reactor/Lawful/Reports.antt =====
-- What a system that obeys its manual reports to the reactor, and the rounds that it leads to.
use online_chat_proj.Base.{
  ℕ, zero, suc, ◌≡◌, refl, sym, ap, ◌∙◌, inl, inr, Bool, true, false, List, [], ◌∷◌, subst,
  Bool-cases,
}
use online_chat_proj.Base.Int.{ℤ}
use online_chat_proj.Os.{Kernel, EpollEvent, has_flag, epollin, epollout}
use online_chat_proj.Os.Laws.{
  KernelLaws, ExactLaws, Reported, report, none_left as nothing_reported, Absent,
}
use online_chat_proj.Connection.{recv_buffer_length}
use online_chat_proj.Epoll.{max_epoll_conn}
use online_chat_proj.Server.Receive.{Brief}
use online_chat_proj.Reactor.{Phase, Clients, Elsewhere, Distinct, Expected, Rounds, over, round}
use online_chat_proj.Reactor.Lawful.{Asks, for_input, for_output, Watches, Watches-quiet}
use online_chat_proj.Reactor.Lawful.Next.{Due, turns_through}

-- What is not asked for is not reported.
unasked : {a b : Bool} → (a ≡ true → b ≡ true) → b ≡ false → a ≡ false
unasked {a} f e = elim (Bool-cases a) [ inl h ↦ absurd (cc (f h, e)) | inr h ↦ h ]

Asks-reported :
    {ph : Phase} {r ev : EpollEvent}
    → (has_flag ev.events epollin ≡ true → has_flag r.events epollin ≡ true)
    → (has_flag ev.events epollout ≡ true → has_flag r.events epollout ≡ true)
    → Asks ph r
    → Asks ph ev
Asks-reported i o (for_input e) = for_input (unasked o e)
Asks-reported i o (for_output e) = for_output (unasked i e)

-- The events are of the socket and of clients.
Due-Expected : (fd : ℤ) (cl : Clients) (evs : List EpollEvent) → Due fd cl evs → Expected fd cl evs
Due-Expected fd cl [] d = tt
Due-Expected fd cl (ev ∷ evs) (inl (listens, _), d) = (inl listens, Due-Expected fd cl evs d)
Due-Expected fd cl (ev ∷ evs) (inr (ph, known, _), d) = (inr (ph, known), Due-Expected fd cl evs d)

module _ {W : Type 0} {K : Kernel W} (L : KernelLaws K) (epfd fd : ℤ) where
  -- What is reported of other descriptors is of other descriptors.
  Reported-Elsewhere :
      {w : W} {cl : Clients} (h : ℤ) {gs : List ℤ} {evs : List EpollEvent}
      → Watches L epfd fd w cl
      → Absent h gs
      → Reported (L.registered epfd w) gs evs
      → Elsewhere h evs
  Reported-Elsewhere h s a nothing_reported = tt
  Reported-Elsewhere h s a (report {g} {r} at own input output absent rest) =
      (λ e. a.0 (e ∙ own ∙ (s.known g r at).0), Reported-Elsewhere h s a.1 rest)

  Reported-Due :
      {w : W} {cl : Clients} {gs : List ℤ} {evs : List EpollEvent}
      → Watches L epfd fd w cl
      → Reported (L.registered epfd w) gs evs
      → Due fd cl evs × Distinct evs
  Reported-Due s nothing_reported = (tt, tt)
  Reported-Due {cl} s (report {g} {r} {ev} {evs} at own input output absent rest) =
      let same : ev.fd ≡ g = own ∙ (s.known g r at).0 in
      let (due, distinct) = Reported-Due s rest in
      (
        (
          elim (s.known g r at).1 [
            | inl (listens, idle) ↦ inl (same ∙ listens, unasked output idle)
            | inr (ph, known, asks) ↦ inr (ph, ap cl same ∙ known, Asks-reported input output asks)
          ],
          due,
        ),
        (subst (λ x. Elsewhere x evs) (sym same) (Reported-Elsewhere g s absent rest), distinct),
      )

  module _ (X : ExactLaws L) (brief : Brief K recv_buffer_length) (spare : ℕ → List ℕ)
      (timeout : ℤ) where
    -- Whatever the system reports, the reactor has its rounds.
    pub rounds_through :
        (n : ℕ) {w : W} (k : ℕ) {cl : Clients}
        → Watches L epfd fd w cl
        → (w' : W) × (k' : ℕ) × (cl' : Clients) × Rounds K spare epfd fd timeout n w k cl w' k' cl'
          × Watches L epfd fd w' cl'
    rounds_through zero {w} k {cl} s = (w, k, cl, over, s)
    rounds_through (suc n) {w} k {cl} s =
        let waits = K.epoll_wait epfd max_epoll_conn timeout w in
        let (gs, reported) = L.wait_reports epfd max_epoll_conn timeout w in
        let (due, distinct) = Reported-Due s reported in
        let s1 = Watches-quiet L epfd fd (L.wait_quiet epfd max_epoll_conn timeout w) s in
        let (w2, k2, cl2, ts, s2) = turns_through X brief spare epfd fd waits.0 k s1 due distinct in
        let (w3, k3, cl3, rs, s3) = rounds_through n k2 s2 in
        (w3, k3, cl3, round refl (Due-Expected fd cl waits.0 due) distinct ts rs, s3)
