-- ===== src/Reactor/Lawful/Next.antt =====
-- A turn of the reactor for every event that a system that obeys its manual reports.
use online_chat_proj.Base.{
  ℕ, ◌≡◌, ◌≢◌, sym, ap, ◌∙◌, inl, inr, true, false, some, List, [], ◌∷◌, subst, Bool-cases,
  Option-cases,
}
use online_chat_proj.Base.Int.{ℤ, minus_one, ℤ-cases}
use online_chat_proj.Os.{Kernel, EpollEvent, has_flag, epollin, epollout}
use online_chat_proj.Os.Laws.{KernelLaws, ExactLaws}
use online_chat_proj.Connection.{recv_buffer_length}
use online_chat_proj.Server.Receive.{Brief}
use online_chat_proj.Server.Text.{reply}
use online_chat_proj.Server.Visits.{client}
use online_chat_proj.Reactor.{
  Phase, reading, answering, Clients, Elsewhere, Distinct, Turn, admit, refuse, hear, answer, pass,
  Turns, none_left, turn,
}
use online_chat_proj.Reactor.Lawful.{Asks, for_input, for_output, Party, Watches}
use online_chat_proj.Reactor.Lawful.Steps.{
  Party-update, new_apart, new_free, Watches-admit, Watches-refuse, Watches-hear, Watches-answer,
}

-- Every event is of the listening socket or of a client, and is one that this is watched for.
abbrev pub Due : ℤ → Clients → List EpollEvent → Type 0
Due fd cl [] = Unit {0}
Due fd cl (ev ∷ evs) = Party fd cl ev.fd ev × Due fd cl evs

module _ {W : Type 0} {K : Kernel W} {L : KernelLaws K} (X : ExactLaws L)
    (brief : Brief K recv_buffer_length) (spare : ℕ → List ℕ) (epfd fd : ℤ) where
  -- The turn that an event leads to; what other events are due stays so.
  record Next (w : W) (k : ℕ) (cl : Clients) (ev : EpollEvent) : Type 0 where
    world : W
    made : ℕ
    clients : Clients
    turns : Turn K spare epfd fd w k cl ev world made clients
    watches : Watches L epfd fd world clients
    stays : (h : ℤ) (r : EpollEvent) → h ≢ ev.fd → Party fd cl h r → Party fd clients h r

  module _ {w : W} (k : ℕ) {cl : Clients} (s : Watches L epfd fd w cl) where
    passes :
        (ev : EpollEvent)
        → has_flag ev.events epollin ≡ false
        → has_flag ev.events epollout ≡ false
        → Next w k cl ev
    passes ev quiet idle = record {
      world = w;
      made = k;
      clients = cl;
      turns = pass quiet idle;
      watches = s;
      stays = λ h r ne p. p;
    }

    accepts :
        (flags : ℕ)
        → has_flag flags epollin ≡ true
        → Next w k cl (record { events = flags; fd = fd })
    accepts flags readable =
        let g = client K epfd fd w in
        elim (ℤ-cases g minus_one) [
          | inl fails ↦ record {
            world = _;
            made = _;
            clients = _;
            turns = refuse readable fails;
            watches = Watches-refuse L epfd fd X s fails;
            stays = λ h r ne p. p;
          }
          | inr real ↦ record {
            world = _;
            made = _;
            clients = _;
            turns = admit readable real (new_apart L epfd fd X s) (elim (Option-cases (cl g)) [
              | inl e ↦ e
              | inr (ph, e) ↦ absurd (new_free L epfd fd X s ph e)
            ]);
            watches = Watches-admit L epfd fd X s (spare k) real;
            stays = λ h r ne p. elim (ℤ-cases g h) [
              | inr other ↦ Party-update fd cl g h _ r other p
              | inl same ↦ elim p [
                | inl (listens, _) ↦ absurd (new_apart L epfd fd X s (same ∙ listens))
                | inr (ph, known, _) ↦ absurd (new_free L epfd fd X s ph (ap cl same ∙ known))
              ]
            ];
          }
        ]

    of_client : (ev : EpollEvent) (ph : Phase) → cl ev.fd ≡ some ph → Asks ph ev → Next w k cl ev
    of_client ev (reading left) known (for_input idle) =
        elim (Bool-cases (has_flag ev.events epollin)) [
          | inr quiet ↦ passes ev quiet idle
          | inl readable ↦
              let (bs, w', d, short) = brief ev.fd w in
              record {
                world = _;
                made = _;
                clients = _;
                turns = hear known readable d short;
                watches = Watches-hear L epfd fd X s bs known d;
                stays = λ h r ne p. Party-update fd cl ev.fd h _ r (λ e. ne (sym e)) p;
              }
        ]
    of_client ev (answering left bs) known (for_output quiet) =
        elim (Bool-cases (has_flag ev.events epollout)) [
          | inr idle ↦ passes ev quiet idle
          | inl writable ↦ record {
            world = _;
            made = _;
            clients = _;
            turns = answer known quiet writable;
            watches = Watches-answer L epfd fd X s (reply left bs) known;
            stays = λ h r ne p. Party-update fd cl ev.fd h _ r (λ e. ne (sym e)) p;
          }
        ]

    turn_for : (ev : EpollEvent) → Party fd cl ev.fd ev → Next w k cl ev
    turn_for ev (inr (ph, known, asks)) = of_client ev ph known asks
    turn_for ev (inl (listens, idle)) = elim (Bool-cases (has_flag ev.events epollin)) [
      | inr quiet ↦ passes ev quiet idle
      | inl readable ↦
          subst (λ x. Next w k cl (record { events = ev.events; fd = x })) (sym listens)
            (accepts ev.events readable)
    ]

  Due-stays :
      {cl cl' : Clients} (g : ℤ) (evs : List EpollEvent)
      → ((h : ℤ) (r : EpollEvent) → h ≢ g → Party fd cl h r → Party fd cl' h r)
      → Elsewhere g evs
      → Due fd cl evs
      → Due fd cl' evs
  Due-stays g [] f a d = tt
  Due-stays g (ev ∷ evs) f a d = (f ev.fd ev (λ e. a.0 (sym e)) d.0, Due-stays g evs f a.1 d.1)

  -- The turns that any events lead to that are due, each descriptor once.
  pub turns_through :
      (evs : List EpollEvent) {w : W} (k : ℕ) {cl : Clients}
      → Watches L epfd fd w cl
      → Due fd cl evs
      → Distinct evs
      → (w' : W) × (k' : ℕ) × (cl' : Clients) × Turns K spare epfd fd w k cl evs w' k' cl'
        × Watches L epfd fd w' cl'
  turns_through [] {w} k {cl} s due d = (w, k, cl, none_left, s)
  turns_through (ev ∷ evs) k s due d =
      let x = turn_for k s ev due.0 in
      let (w', k', cl', ts, s') =
        turns_through evs x.made x.watches (Due-stays ev.fd evs x.stays d.0 due.1) d.1 in
      (w', k', cl', turn x.turns ts, s')
