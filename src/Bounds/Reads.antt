-- ===== src/Bounds/Reads.antt =====
-- The loop of `recvCallback` under the two policies.
use online_chat_proj.Base.{
  ℕ, zero, suc, ◌+◌, ◌≤◌, ◌<◌, ◌≡◌, refl, ap, subst, ◌∙◌, sym, some, List, [], ◌∷◌, ◌++◌, arith,
  update_self,
}
use online_chat_proj.Base.Lists.{length, zeros, overwrite}
use online_chat_proj.Base.Int.{pos}
use online_chat_proj.Os.{Kernel, bytes}
use online_chat_proj.Connection.{Connection, recv_buffer_length, r_buffer_clear, set_r_len}
use online_chat_proj.Machine.{Machine}
use online_chat_proj.Machine.Object.{holding}
use online_chat_proj.Server.{c_string, store_received, recv_loop}
use online_chat_proj.Server.Receive.{Brief, recv_loop-filled}
use online_chat_proj.Server.Text.{text, c_string-zeros}
use online_chat_proj.Server.Echo.{cleared}
use online_chat_proj.Fuel.Enough.{Steady, rlen-stored}
use online_chat_proj.Bounds.{InBuffer, Fits, Sound, AllFit-put}
use online_chat_proj.Bounds.Policies.{lax, strict, Readable}
use online_chat_proj.Bounds.Stays.{StaysFit, returns}
use online_chat_proj.Bounds.Receive.{Filling, LoopStays, recv_loop-Stays}

-- The lengths after a chunk, and after the buffer was cleared.
stored-received :
    {W : Type 0} (K : Kernel W) (c : Connection) (n b : ℕ) (new : List ℕ)
    → c.rlen ≡ pos n
    → n + length (b ∷ new) ≤ recv_buffer_length
    → InBuffer (store_received (bytes (b ∷ new)) c).rlen
stored-received K c n b new e le = (n + length (b ∷ new), rlen-stored K c n b new e, le)

stored-wlen :
    (c : Connection) (b : ℕ) (new : List ℕ) → (store_received (bytes (b ∷ new)) c).wlen ≡ c.wlen
unfolding store_received set_r_len
stored-wlen c b new = refl

module _ {W : Type 0} (K : Kernel W) where
  lax-Filling : Filling lax (Fits lax)
  lax-Filling = record {
    fits = λ c j. j;
    stored = λ c n b new j e le. record {
      received = stored-received K c n b new e le;
      written = subst InBuffer (sym (stored-wlen c b new)) j.written;
      content = tt;
    };
  }

  cleared-Fits : (c : Connection) → Fits lax c → Fits lax (r_buffer_clear c)
  unfolding r_buffer_clear
  cleared-Fits c fits = record { received = fits.received; written = fits.written; content = tt }

  pub lax-LoopStays : (fuel : ℕ) → Steady K → LoopStays lax K fuel
  lax-LoopStays fuel steady p m c all here =
      let fits = cleared-Fits c (all.0 p c here) in
      recv_loop-Stays K steady lax-Filling fuel p (holding m m.world p (r_buffer_clear c))
        (r_buffer_clear c) (AllFit-put m.heap p all.0 fits, all.1)
        (update_self m.heap p (some (r_buffer_clear c))) fits

-- A connection with a message in its buffer whose first byte is zero: such is a buffer that was
-- cleared while its length was not.
record Shifted (c : Connection) : Type 0 where
  fits : Fits strict c
  before : ℕ
  len : c.rlen ≡ pos (suc before)
  rest : List ℕ
  chars : c.rbuffer ≡ 0 ∷ rest

overwrite-head :
    (k : ℕ) (bs rest : List ℕ) → (tail : List ℕ) × (overwrite (suc k) bs (0 ∷ rest) ≡ 0 ∷ tail)
overwrite-head k bs rest = (_, refl)

Readable-zero : (l : List ℕ) → Readable (0 ∷ l)
unfolding c_string
Readable-zero l = ([], refl)

Readable-zeros : (bs : List ℕ) (n : ℕ) → 0 < n → Readable (bs ++ zeros n)
Readable-zeros bs n h = (text bs, c_string-zeros bs n h)

zeros-head : (n : ℕ) → 0 < n → (rest : List ℕ) × (zeros n ≡ 0 ∷ rest)
unfolding zeros
zeros-head zero h = absurd (omega arith)
zeros-head (suc n) h = (zeros n, refl)

module _ {W : Type 0} (K : Kernel W) where
  stored-chars :
      (c : Connection) (n b : ℕ) (new : List ℕ)
      → (s : Shifted c) → c.rlen ≡ pos n
      → (tail : List ℕ) × ((store_received (bytes (b ∷ new)) c).rbuffer ≡ 0 ∷ tail)
  unfolding store_received set_r_len
  stored-chars c n b new s e = rw (s.len, s.chars) (overwrite-head s.before (b ∷ new) s.rest)

  cleared-Shifted :
      (c : Connection) (n : ℕ) → c.rlen ≡ pos (suc n) → Fits strict c → Shifted (r_buffer_clear c)
  unfolding r_buffer_clear
  cleared-Shifted c n e fits =
      let (rest, chars) = zeros-head recv_buffer_length (omega arith) in
      record {
        fits = record {
          received = fits.received;
          written = fits.written;
          content = Readable-zeros [] recv_buffer_length (omega arith);
        };
        before = n;
        len = e;
        rest = rest;
        chars = chars;
      }

  Shifted-Filling : Filling strict Shifted
  Shifted-Filling = record {
    fits = λ c s. s.fits;
    stored = λ c n b new s e le.
        let (tail, chars) = stored-chars c n b new s e in
        record {
          fits = record {
            received = stored-received K c n b new e le;
            written = subst InBuffer (sym (stored-wlen c b new)) s.fits.written;
            content = subst Readable (sym chars) (Readable-zero tail);
          };
          before = n + length new;
          len = rlen-stored K c n b new e ∙ ap pos (omega arith);
          rest = tail;
          chars = chars;
        };
  }

  module _ (steady : Steady K) (brief : Brief K recv_buffer_length) (fuel : ℕ)
      (enough : recv_buffer_length < fuel) (p : ℕ) (m : Machine W) (c : Connection)
      (all : Sound strict m) (here : m.heap p ≡ some c) where
    -- At the start of a message the buffer is filled from its start.
    from_start :
        c.rlen ≡ pos 0
        → StaysFit strict (recv_loop K fuel p (holding m m.world p (r_buffer_clear c)))
    from_start e =
        let (bs, w', d, short) = brief c.fd m.world in
        rw (cleared K m p c e, recv_loop-filled K fuel [] p m c d (omega arith) enough)
          (returns (
            AllFit-put m.heap p all.0 (record {
              received = (length bs, refl, omega arith);
              written = (all.0 p c here).written;
              content = Readable-zeros bs _ (omega arith);
            }),
            all.1,
          ))

    -- Else its first byte stays zero.
    from_middle :
        (n : ℕ)
        → c.rlen ≡ pos (suc n)
        → StaysFit strict (recv_loop K fuel p (holding m m.world p (r_buffer_clear c)))
    from_middle n e =
        let s = cleared-Shifted c n e (all.0 p c here) in
        recv_loop-Stays K steady Shifted-Filling fuel p (holding m m.world p (r_buffer_clear c))
          (r_buffer_clear c) (AllFit-put m.heap p all.0 s.fits, all.1)
          (update_self m.heap p (some (r_buffer_clear c))) s

  pub strict-LoopStays :
      (fuel : ℕ)
      → Steady K
      → Brief K recv_buffer_length
      → recv_buffer_length < fuel
      → LoopStays strict K fuel
  strict-LoopStays fuel steady brief enough p m c all here = go (all.0 p c here).received
    where
      go :
          InBuffer c.rlen
          → StaysFit strict (recv_loop K fuel p (holding m m.world p (r_buffer_clear c)))
      go (zero, e, le) = from_start steady brief fuel enough p m c all here e
      go (suc n, e, le) = from_middle steady brief fuel enough p m c all here n e
