-- ===== src/Reactor/Lawful/Steps.antt =====
-- What the system watches after each turn of the reactor.
use Prim.Native.Nat.{bit_or}
use online_chat_proj.Base.{
  Option, ℕ, ◌≡◌, ◌≢◌, refl, sym, ap, ◌∙◌, inl, inr, true, none, some, List, subst,
}
use online_chat_proj.Base.Int.{ℤ, minus_one, update_ℤ, update_ℤ_self, update_ℤ_ne, ℤ-cases}
use online_chat_proj.Os.{
  Kernel, EpollEvent, has_flag, epollout, new_client, from_client, o_nonblock,
}
use online_chat_proj.Os.Laws.{KernelLaws, ExactLaws, SetsEvent}
use online_chat_proj.InetAddress.{empty_address}
use online_chat_proj.Safety.View.{QuietLaws, Quiet-trans}
use online_chat_proj.Server.Accept.{watch}
use online_chat_proj.Server.Receive.{Delivers, ends, chunk}
use online_chat_proj.Server.Text.{text}
use online_chat_proj.Server.Visits.{client, after_accept, after_read, after_answer}
use online_chat_proj.Reactor.{Phase, reading, answering, Clients}
use online_chat_proj.Reactor.Lawful.{Asks, for_input, for_output, Party, Watches, Watches-quiet}

-- What happens to one client changes nothing for another descriptor.
pub Party-update :
    (fd : ℤ) (cl : Clients) (g h : ℤ) (x : Option Phase) (r : EpollEvent)
    → g ≢ h
    → Party fd cl h r
    → Party fd (update_ℤ cl g x) h r
Party-update fd cl g h x r ne (inl socket) = inl socket
Party-update fd cl g h x r ne (inr (ph, known, asks)) =
    inr (ph, update_ℤ_ne cl g h x ne ∙ known, asks)

module _ {W : Type 0} {K : Kernel W} (L : KernelLaws K) (epfd fd : ℤ) where
  Delivers-Quiet :
      {g : ℤ} {room : ℕ} {w w' : W} {bs : List ℕ}
      → Delivers K g room w bs w'
      → QuietLaws L epfd w w'
  Delivers-Quiet {g} {room} {w} (ends q s) =
      subst (λ (v : W). QuietLaws L epfd w v) (ap (λ r. r.1) q) (L.recv_quiet epfd g room w)
  Delivers-Quiet {g} {room} {w} (chunk q le d) =
      Quiet-trans L
        (subst (λ (v : W). QuietLaws L epfd w v) (ap (λ r. r.1) q) (L.recv_quiet epfd g room w))
        (Delivers-Quiet d)

  -- A client under an open descriptor is watched for new events, and for nothing else.
  Watches-sets :
      {w w' : W} (cl : Clients) (g : ℤ) (ph : Phase) (ev : EpollEvent)
      → g ≢ fd
      → L.opened w g ≡ true
      → SetsEvent L.opened L.registered epfd g ev w w'
      → ((r : EpollEvent) → L.registered epfd w' g ≡ some r → r ≡ ev)
      → ev.fd ≡ g
      → Asks ph ev
      → Watches L epfd fd w cl
      → Watches L epfd fd w' (update_ℤ cl g (some ph))
  Watches-sets {w} {w'} cl g ph ev ne is_open sets only own asks s = record {
    known = λ h r e. elim (ℤ-cases g h) [
      | inl same ↦
          let new = only r (ap (L.registered epfd w') same ∙ e) in
          (
            ap (λ (v : EpollEvent). v.fd) new ∙ own ∙ same,
            inr (
              ph,
              ap (update_ℤ cl g (some ph)) (sym same) ∙ update_ℤ_self cl g (some ph),
              subst (Asks ph) (sym new) asks,
            ),
          )
      | inr other ↦ elim (sets.sets h r e) [
        | inl old ↦
            ((s.known h r old).0, Party-update fd cl g h (some ph) r other (s.known h r old).1)
        | inr (here, _) ↦ absurd (other (sym here))
      ]
    ];
    socket = sets.kept fd s.socket;
    apart = update_ℤ_ne cl g fd (some ph) ne ∙ s.apart;
    clients = λ h ph' at. elim (ℤ-cases g h) [
      | inl same ↦ sets.kept h (ap (L.opened w) (sym same) ∙ is_open)
      | inr other ↦ sets.kept h (s.clients h ph' (sym (update_ℤ_ne cl g h (some ph) other) ∙ at))
    ];
  }

  -- A client that is not watched any more may be closed.
  Watches-close :
      {w : W} (cl : Clients) (g : ℤ)
      → g ≢ fd
      → L.registered epfd w g ≡ none
      → Watches L epfd fd w cl
      → Watches L epfd fd (K.close g w) (update_ℤ cl g none)
  Watches-close {w} cl g ne removed s = record {
    known = λ h r e.
        let old = L.close_sub epfd g w h r e in
        elim (ℤ-cases g h) [
          | inl same ↦ absurd (cc (old, removed, ap (L.registered epfd w) same))
          | inr other ↦
              ((s.known h r old).0, Party-update fd cl g h none r other (s.known h r old).1)
        ];
    socket = L.close_kept g w fd (λ e. ne (sym e)) s.socket;
    apart = update_ℤ_ne cl g fd none ne ∙ s.apart;
    clients = λ h ph at. elim (ℤ-cases g h) [
      | inl same ↦ absurd (cc (at, update_ℤ_self cl g none, ap (update_ℤ cl g none) same))
      | inr other ↦
          L.close_kept g w h (λ e. other (sym e))
            (s.clients h ph (sym (update_ℤ_ne cl g h none other) ∙ at))
    ];
  }

  module _ (X : ExactLaws L) {w : W} {cl : Clients} (s : Watches L epfd fd w cl) where
    -- What the system does before it watches what `accept` returned.
    after_flags : W
    after_flags =
        let g = client K epfd fd w in
        let v = K.print (new_client g) (K.accept fd empty_address.addr w).1 in
        let f = K.get_flags g v in K.set_flags g (bit_or f.0 o_nonblock) f.1

    later : QuietLaws L epfd (K.accept fd empty_address.addr w).1 after_flags
    unfolding after_flags
    later =
        let r = K.accept fd empty_address.addr w in
        let g = client K epfd fd w in
        let v = K.print (new_client g) r.1 in
        let f = K.get_flags g v in
        Quiet-trans L (L.print_quiet epfd (new_client g) r.1) (
          Quiet-trans L (L.get_flags_quiet epfd g v)
            (L.set_flags_quiet epfd g (bit_or f.0 o_nonblock) f.1))

    before : QuietLaws L epfd w after_flags
    before = Quiet-trans L (L.accept_quiet epfd fd empty_address.addr w) later

    -- A new descriptor is neither the listening socket's nor another client's.
    pub new_apart : client K epfd fd w ≢ fd
    new_apart e = let closed = L.accept_new fd empty_address.addr w in cc (closed, s.socket, e)

    pub new_free : (ph : Phase) → cl (client K epfd fd w) ≡ some ph → ⊥
    new_free ph e =
        let closed = L.accept_new fd empty_address.addr w in
        cc (closed, s.clients (client K epfd fd w) ph e)

    pub Watches-admit :
        (left : List ℕ)
        → client K epfd fd w ≢ minus_one
        → Watches L epfd fd
            (after_accept K epfd fd w)
            (update_ℤ cl (client K epfd fd w) (some (reading left)))
    unfolding after_flags has_flag
    Watches-admit left real =
        let g = client K epfd fd w in
        let ev : EpollEvent = record { events = watch; fd = g } in
        let sets = L.add_sets epfd g ev after_flags in
        let closed = L.accept_new fd empty_address.addr w in
        Watches-sets cl g (reading left) ev new_apart
          (later.kept g (X.accept fd empty_address.addr w real)) sets
          (λ r e. elim (sets.sets g r e) [
            | inl old ↦ absurd (cc (closed, L.registered_opened epfd w g r (before.sub g r old)))
            | inr (_, new) ↦ new
          ])
          refl (for_input refl) (Watches-quiet L epfd fd before s)

    pub Watches-refuse :
        client K epfd fd w ≡ minus_one → Watches L epfd fd (after_accept K epfd fd w) cl
    unfolding after_flags
    Watches-refuse fails =
        let g = client K epfd fd w in
        let sets = L.add_sets epfd g (record { events = watch; fd = g }) after_flags in
        let s1 = Watches-quiet L epfd fd before s in
        record {
          known = λ h r e. elim (sets.sets h r e) [
            | inl old ↦ s1.known h r old
            | inr (here, _) ↦
                let is_open = L.registered_opened epfd (after_accept K epfd fd w) h r e in
                let closed = X.never (after_accept K epfd fd w) in
                absurd
                  (cc (is_open, closed, ap (L.opened (after_accept K epfd fd w)) (here ∙ fails)))
          ];
          socket = sets.kept fd s1.socket;
          apart = s1.apart;
          clients = λ h ph e. sets.kept h (s1.clients h ph e);
        }

    pub Watches-hear :
        {g : ℤ} {left : List ℕ} (bs : List ℕ) {w' : W} {room : ℕ}
        → cl g ≡ some (reading left)
        → Delivers K g room w bs w'
        → Watches L epfd fd
            (after_read K epfd fd g bs w')
            (update_ℤ cl g (some (answering left bs)))
    unfolding has_flag
    Watches-hear {g} {left} bs {w'} known d =
        let printed = K.print (from_client (text bs)) w' in
        let quiet =
          Quiet-trans L (Delivers-Quiet d) (L.print_quiet epfd (from_client (text bs)) w') in
        let ev : EpollEvent = record { events = epollout; fd = g } in
        Watches-sets cl g (answering left bs) ev (λ e. cc (known, s.apart, ap cl e))
          (quiet.kept g (s.clients g (reading left) known)) (L.mod_sets epfd g ev printed)
          (λ r e. X.modifies epfd g ev r printed e) refl (for_output refl)
          (Watches-quiet L epfd fd quiet s)

    pub Watches-answer :
        {g : ℤ} {ph : Phase} (bs : List ℕ)
        → cl g ≡ some ph
        → Watches L epfd fd (after_answer K epfd fd g bs w) (update_ℤ cl g none)
    Watches-answer {g} bs known =
        let v = (K.write g bs w).1 in
        let quiet = Quiet-trans L (L.write_quiet epfd g bs w) (L.del_quiet epfd g v) in
        Watches-close cl g (λ e. cc (known, s.apart, ap cl e)) (L.del_removes epfd g v)
          (Watches-quiet L epfd fd quiet s)
