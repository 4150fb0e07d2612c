-- ===== src/Reactor/Lawful.antt =====
-- What a system that obeys its manual watches for the reactor: the listening socket and the clients,
-- under their own descriptors, each for what it waits for.
pub mod Steps
pub mod Next
pub mod Reports
use online_chat_proj.Base.{ℕ, ◌≡◌, ◌⊎◌, true, false, Option, none, some, List}
use online_chat_proj.Base.Int.{ℤ}
use online_chat_proj.Os.{Kernel, EpollEvent, has_flag, epollin, epollout}
use online_chat_proj.Os.Laws.{KernelLaws}
use online_chat_proj.Safety.View.{QuietLaws}
use online_chat_proj.Reactor.{Phase, reading, answering, Clients}

-- A client is watched for input before it is heard, and for output after that, never for both.
pub data Asks : Phase → EpollEvent → Type 0 where
  for_input :
      {left : List ℕ} {r : EpollEvent} → has_flag r.events epollout ≡ false → Asks (reading left) r
  for_output :
      {left bs : List ℕ} {r : EpollEvent}
      → has_flag r.events epollin ≡ false
      → Asks (answering left bs) r

-- The descriptor `g`, watched for `r` or reported with it, is the listening socket's or a client's.
abbrev pub Party : ℤ → Clients → ℤ → EpollEvent → Type 0
Party fd cl g r =
    ((g ≡ fd) × (has_flag r.events epollout ≡ false))
    ⊎ ((ph : Phase) × (cl g ≡ some ph) × Asks ph r)

module _ {W : Type 0} {K : Kernel W} (L : KernelLaws K) (epfd fd : ℤ) where
  -- The system watches nothing else, and these descriptors are open.
  pub record Watches (w : W) (cl : Clients) : Type 0 where
    pub known :
        (g : ℤ) (r : EpollEvent) → L.registered epfd w g ≡ some r → (r.fd ≡ g) × Party fd cl g r
    pub socket : L.opened w fd ≡ true
    pub apart : cl fd ≡ none
    pub clients : (g : ℤ) (ph : Phase) → cl g ≡ some ph → L.opened w g ≡ true

  pub Watches-quiet :
      {w w' : W} {cl : Clients} → QuietLaws L epfd w w' → Watches w cl → Watches w' cl
  Watches-quiet q s = record {
    known = λ g ev h. s.known g ev (q.sub g ev h);
    socket = q.kept fd s.socket;
    apart = s.apart;
    clients = λ g ph h. q.kept g (s.clients g ph h);
  }
