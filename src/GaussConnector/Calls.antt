-- ===== src/GaussConnector/Calls.antt =====
-- Any sequence of the commands of src/opengauss/GaussConnector.cpp on one connector: what is left in
-- the memory of libpq.
use online_chat_proj.Base.{
  ℕ, suc, ◌+◌, ◌≡◌, ◌≢◌, inl, inr, ap, ◌∙◌, true, Option, none, some, List, Bool-cases, arith,
}
use online_chat_proj.Base.Int.{pos, minus_one}
use online_chat_proj.GaussConnector.{
  Libpq, GaussConnector, Reply, done, insert, update, omit, close_connector, is_command_ok, reject,
}

module _ {W C R : Type 0} (L : Libpq W C R) where
  -- What the manual of libpq says of the results in memory, of which `count` gives the number: one
  -- is made by a command that was carried out, PQclear frees what PQexec has just made (which may
  -- be a null pointer), and PQfinish and PQerrorMessage leave results alone.
  pub record ResultLaws : Type 0 where
    pub count : W → ℕ
    pub exec_makes :
        (c : C) (cmd : List ℕ) (w : W)
        → is_command_ok (L.result_status (L.exec c cmd w).0 (L.exec c cmd w).1) ≡ true
        → count (L.exec c cmd w).1 ≡ suc (count w)
    pub clear_frees :
        (c : C) (cmd : List ℕ) (w : W)
        → count (L.clear (L.exec c cmd w).0 (L.exec c cmd w).1) ≡ count w
    pub finish_keeps : (c : C) (w : W) → count (L.finish c w) ≡ count w

  -- One of the three commands returns.
  pub data Call (cmd : List ℕ) (buf : Option (List ℕ)) (g : GaussConnector C R) (w : W)
      : Reply W C R → Type 0 where
    inserts : {r : Reply W C R} → insert L cmd buf g w ≡ done r → Call cmd buf g w r
    updates : {r : Reply W C R} → update L cmd buf g w ≡ done r → Call cmd buf g w r
    omits : {r : Reply W C R} → omit L cmd buf g w ≡ done r → Call cmd buf g w r

  -- A sequence of them, of which `n` return 0.
  pub data Calls (g : GaussConnector C R) (w : W) : ℕ → GaussConnector C R → W → Type 0 where
    nothing : Calls g w 0 g w
    succeeds :
        {n : ℕ} {h : GaussConnector C R} {v : W} (cmd : List ℕ) (buf : Option (List ℕ))
        {r : Reply W C R}
        → Calls g w n h v
        → Call cmd buf h v r
        → r.code ≡ pos 0
        → Calls g w (suc n) r.connector r.world
    fails :
        {n : ℕ} {h : GaussConnector C R} {v : W} (cmd : List ℕ) (buf : Option (List ℕ))
        {r : Reply W C R}
        → Calls g w n h v
        → Call cmd buf h v r
        → r.code ≢ pos 0
        → Calls g w n r.connector r.world

  pub Call-insert :
      {cmd : List ℕ} {buf : Option (List ℕ)} {g : GaussConnector C R} {w : W} {r : Reply W C R}
      → Call cmd buf g w r
      → insert L cmd buf g w ≡ done r
  unfolding insert update omit
  Call-insert (inserts e) = e
  Call-insert (updates e) = e
  Call-insert (omits e) = e

  -- Whether a result was kept, and the state that a command leaves.
  pub data Ends (cmd : List ℕ) (g : GaussConnector C R) (w : W) (r : Reply W C R) : Type 0 where
    kept :
        is_command_ok (L.result_status (L.exec g.conn cmd w).0 (L.exec g.conn cmd w).1) ≡ true
        → r.code ≡ pos 0
        → r.world ≡ (L.exec g.conn cmd w).1
        → Ends cmd g w r
    freed :
        r.code ≡ minus_one
        → r.world ≡ L.clear (L.exec g.conn cmd w).0 (L.exec g.conn cmd w).1
        → Ends cmd g w r

  reject-freed :
      (g : GaussConnector C R) (x : R) (w : W) (buf : Option (List ℕ)) {r : Reply W C R}
      → reject L g x w buf ≡ done r
      → (r.code ≡ minus_one) × (r.world ≡ L.clear x w)
  reject-freed g x w none {r} e = ground arith
  reject-freed g x w (some buf) {r} e = ground arith

  insert-Ends :
      (cmd : List ℕ) (buf : Option (List ℕ)) (g : GaussConnector C R) (w : W) {r : Reply W C R}
      → insert L cmd buf g w ≡ done r
      → Ends cmd g w r
  unfolding insert
  insert-Ends cmd buf g w {r} e =
      let x = (L.exec g.conn cmd w).0 in
      let v = (L.exec g.conn cmd w).1 in
      elim (Bool-cases (is_command_ok (L.result_status x v))) [
        | inl good ↦ kept good (ground (arith, good)) (ground (arith, good))
        | inr bad ↦
            let (c, d) = reject-freed (record g { res = some x }) x v buf (rw bad at e) in freed c d
      ]

  -- On any sequence of commands, the results left in memory are those of the commands that returned
  -- 0, none of which is ever cleared; the destructor does not free them either.
  pub close-leaks :
      (laws : ResultLaws) {g h : GaussConnector C R} {w v : W} {n : ℕ}
      → Calls g w n h v
      → laws.count (close_connector L h v) ≡ laws.count w + n
  unfolding close_connector
  close-leaks laws {h} {v} calls = laws.finish_keeps h.conn v ∙ left calls
    where
      left :
          {g : GaussConnector C R} {w : W} {n : ℕ} {h : GaussConnector C R} {v : W}
          → Calls g w n h v
          → laws.count v ≡ laws.count w + n
      left nothing = omega arith
      left (succeeds {n} {h} {v} cmd buf {r} calls call zero_code) =
          elim (insert-Ends cmd buf h v (Call-insert call)) [
            | kept good c e ↦
                omega (arith, ap laws.count e, laws.exec_makes h.conn cmd v good, left calls)
            | freed c e ↦ absurd (cc)
          ]
      left (fails {n} {h} {v} cmd buf {r} calls call other) =
          elim (insert-Ends cmd buf h v (Call-insert call)) [
            | kept good c e ↦ absurd (other c)
            | freed c e ↦ omega (arith, ap laws.count e, laws.clear_frees h.conn cmd v, left calls)
          ]
