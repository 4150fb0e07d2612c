-- ===== src/Bounds.antt =====
-- The buffers in a run of the program: what each object in memory keeps for them. A policy says
-- what is asked of the content of a receive buffer, and which faults a run may meet.
pub mod Stays
pub mod Calls
pub mod Receive
pub mod Loop
pub mod Settles
pub mod Policies
pub mod Reads
pub mod Program
use online_chat_proj.Base.{
  ℕ, ◌≤◌, ◌≡◌, inl, inr, refl, Option, none, some, List, arith, update, Bool-cases, ◌==◌,
}
use online_chat_proj.Base.Int.{ℤ, pos}
use online_chat_proj.InetAddress.{InetAddress}
use online_chat_proj.Connection.{Connection, connection, default_connection, recv_buffer_length}
use online_chat_proj.Machine.{Machine, Fault, null_pointer, dangling, empty_function, unterminated}
use online_chat_proj.Server.{c_string}

-- A place in a buffer, or its end. Both buffers have the same length.
abbrev pub InBuffer : ℤ → Type 0
InBuffer z = (n : ℕ) × (z ≡ pos n) × (n ≤ recv_buffer_length)

-- `overread`: a text without an end may be used only if such a buffer is good.
pub record Policy : Type 1 where
  pub Good : List ℕ → Type 0
  pub Allowed : Fault → Type 0
  pub null : Allowed null_pointer
  pub dangles : Allowed dangling
  pub empty : Allowed empty_function
  pub overread : (l : List ℕ) → Good l → c_string l ≡ none → Allowed unterminated

module _ (V : Policy) where
  pub record Fits (c : Connection) : Type 0 where
    pub received : InBuffer c.rlen
    pub written : InBuffer c.wlen
    pub content : V.Good c.rbuffer

  abbrev pub AllFit : (ℕ → Option Connection) → Type 0
  AllFit heap = (q : ℕ) (c : Connection) → heap q ≡ some c → Fits c

  -- The objects, and the storage that new objects are made in.
  abbrev pub Sound : {W : Type 0} → Machine W → Type 0
  Sound m = AllFit m.heap × ((p : ℕ) → V.Good (m.junk p).rbuffer)

module _ {V : Policy} where
  pub AllFit-update :
      (heap : ℕ → Option Connection) (p : ℕ) (o : Option Connection)
      → AllFit V heap
      → ((c : Connection) → o ≡ some c → Fits V c)
      → AllFit V (update heap p o)
  AllFit-update heap p o all new q c h = elim (Bool-cases (p == q)) [
    | inl e ↦ new c (rw e at h)
    | inr e ↦ all q c (rw e at h)
  ]

  pub AllFit-put :
      (heap : ℕ → Option Connection) (p : ℕ) {c : Connection}
      → AllFit V heap
      → Fits V c
      → AllFit V (update heap p (some c))
  AllFit-put heap p {c} all fits = AllFit-update heap p (some c) all λ d e. ground (arith, fits, e)

  pub default_connection-Fits :
      (raw : Connection) → V.Good raw.rbuffer → Fits V (default_connection raw)
  unfolding default_connection
  default_connection-Fits raw good = record {
    received = (0, refl, omega arith);
    written = (0, refl, omega arith);
    content = good;
  }

  pub connection-Fits :
      (raw : Connection) (fd : ℤ) (a : Option InetAddress)
      → V.Good raw.rbuffer
      → Fits V (connection raw fd a)
  unfolding connection
  connection-Fits raw fd a good =
      let fits = default_connection-Fits raw good in
      record { received = fits.received; written = fits.written; content = fits.content }
