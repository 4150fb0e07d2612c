-- ===== src/ClientApp/Total.antt =====
-- What can become of a run of apps/client.cpp, of any number of rounds.
use Prim.Native.String.{String}
use online_chat_proj.Base.{
  ℕ, zero, suc, ◌<◌, ◌≡◌, ◌≢◌, Bool, true, false, none, List, Option-cases, inl, inr,
}
use online_chat_proj.Base.Int.{ℤ}
use online_chat_proj.Os.{Kernel}
use online_chat_proj.Machine.{Machine, out_of_fuel}
use online_chat_proj.Server.{c_string}
use online_chat_proj.Server.Receive.{Brief}
use online_chat_proj.Fuel.Enough.{Steady}
use online_chat_proj.Bounds.Policies.{Readable, Readable-ends}
use online_chat_proj.Bounds.Settles.{
  Outcome, Settles, Succeeds, Comes, returned, ended, bind, bind_with, c_string-Comes,
  Comes-ne-out_of_fuel,
}
use online_chat_proj.ServerApp.{buffer_length, cleared_buffer}
use online_chat_proj.ServerApp.Total.{Reads, Steady-Reads, Brief-Reads}
use online_chat_proj.ClientApp.{
  Console, Sent, sent, broken, after_send, sending, errif, exchange, exchanges, client_main,
}
use online_chat_proj.ClientApp.Exchange.{answer_loop-read_loop}

-- `fgets` is given the buffer, and leaves a text that ends in it: what it read, or what was there.
abbrev pub LeavesText : {W : Type 0} → Console W → Type 0
LeavesText {W} T =
    (buffer : List ℕ) (w : W) → Readable buffer → Readable (T.fgets buffer buffer_length w).0

errif-Comes :
    {O W : Type 0} (K : Kernel W) (b : Bool) (msg : String) (m : Machine W)
    → Comes O (errif K b msg m)
unfolding errif
errif-Comes K true msg m = ended
errif-Comes K false msg m = returned tt

after_send-Comes : {O W : Type 0} (s : Sent W) (m : Machine W) → Comes O (after_send s m)
after_send-Comes (sent n w) m = returned tt
after_send-Comes (broken w) m = ended

-- What is kept of the buffer from one round to the next: it holds a text that ends, or `O`.
abbrev Kept : Type 0 → List ℕ → Type 0
Kept O l = c_string l ≡ none → O

module _ {O W : Type 0} (K : Kernel W) (T : Console W) (fuel : ℕ) (reads : Reads O K fuel)
    (line : (buffer : List ℕ) (w : W)
      → Kept O buffer
      → Kept O (T.fgets buffer buffer_length w).0) where
  exchange-Outcome :
      (fd : ℤ) (buffer : List ℕ) (m : Machine W)
      → Kept O buffer
      → Outcome O (λ next _. Kept O next) (exchange K T fuel fd buffer m)
  unfolding exchange sending
  exchange-Outcome fd buffer m kept = bind (c_string-Comes _ _ (line buffer m.world kept)) λ t m1.
      bind (after_send-Comes (T.send fd t m1.world) m1) λ n m2.
        let (b, m3, e, ends) = reads fd m2 in
        rw (answer_loop-read_loop K T fuel fd cleared_buffer, e)
          (bind (c_string-Comes b.chars m3 ends) λ s m4. returned ends)

  exchanges-Comes :
      (n : ℕ) (fd : ℤ) (buffer : List ℕ) (m : Machine W)
      → Kept O buffer
      → Comes O (exchanges K T fuel n fd buffer m)
  unfolding exchanges
  exchanges-Comes zero fd buffer m kept = returned tt
  exchanges-Comes (suc n) fd buffer m kept =
      bind_with (exchange-Outcome fd buffer m kept)
        λ next m1 kept1. exchanges-Comes n fd next m1 kept1

  client_main-Comes :
      (raw : List ℕ) (n : ℕ) (m : Machine W) → Kept O raw → Comes O (client_main K T raw fuel n m)
  unfolding client_main
  client_main-Comes raw n m kept =
      bind (errif-Comes K _ _ _)
        λ _ m1. bind (errif-Comes K _ _ _) λ _ m2. exchanges-Comes n _ raw m2 kept

module _ {W : Type 0} (K : Kernel W) (T : Console W) (fuel : ℕ)
    (enough : buffer_length < fuel) where
  -- On a system on which each call of `recv` either ends the loop or hands over bytes, no more
  -- than were asked for, and with more fuel than the buffer has bytes, every run of the client, of
  -- any number of rounds, comes to an end, whatever is read from the input and whatever the buffer
  -- held before: it returns, or ends the process, or uses a text that has no end in the buffer. No
  -- other fault occurs.
  pub client_main-Settles :
      Steady K
      → (raw : List ℕ) (n : ℕ) (m : Machine W)
      → Settles (λ _ _. Unit {0}) (client_main K T raw fuel n m)
  client_main-Settles steady raw n m =
      client_main-Comes K T fuel (Steady-Reads K fuel enough steady) (λ l w k e. tt) raw n m
        (λ e. tt)

  -- If what `recv` hands over before the loop ends is always shorter than the buffer, `fgets` never
  -- leaves the buffer without a text that ends where it was given one that ends, the buffer holds
  -- such a text at first, and there is more fuel than the buffer has bytes, then every run of the
  -- client returns or ends the process, and no fault occurs.
  client_main-Succeeds :
      Brief K buffer_length
      → LeavesText T
      → (raw : List ℕ) (n : ℕ) (m : Machine W) → Readable raw
      → Succeeds (λ _ _. Unit {0}) (client_main K T raw fuel n m)
  client_main-Succeeds brief leaves raw n m readable =
      client_main-Comes K T fuel (Brief-Reads K fuel enough brief) kept raw n m
        (Readable-ends raw readable)
    where
      kept : (l : List ℕ) (w : W) → Kept ⊥ l → Kept ⊥ (T.fgets l buffer_length w).0
      kept l w k = elim (Option-cases (c_string l)) [
        | inl e ↦ absurd (k e)
        | inr (bs, e) ↦ Readable-ends _ (leaves l w (bs, e))
      ]

  client_main-ne-out_of_fuel :
      Steady K → (raw : List ℕ) (n : ℕ) (m : Machine W) → client_main K T raw fuel n m ≢ out_of_fuel
  client_main-ne-out_of_fuel steady raw n m =
      Comes-ne-out_of_fuel (client_main-Settles steady raw n m)
