-- ===== src/Bounds/Policies.antt =====
-- Two policies: one that asks nothing of the content of a buffer, and one by which every receive
-- buffer holds a text that ends.
use online_chat_proj.Base.{ℕ, ◌≡◌, none, some, List}
use online_chat_proj.Machine.{
  Fault, null_pointer, dangling, empty_function, out_of_bounds, unterminated, missing_return,
}
use online_chat_proj.Server.{c_string}
use online_chat_proj.Bounds.{Policy}

-- Every fault but an address or a length outside a buffer.
abbrev Lax : Fault → Type 0
Lax null_pointer = Unit {0}
Lax dangling = Unit {0}
Lax empty_function = Unit {0}
Lax out_of_bounds = ⊥
Lax unterminated = Unit {0}
Lax missing_return = Unit {0}

abbrev pub lax : Policy
lax = record {
  Good = λ l. Unit {0};
  Allowed = Lax;
  null = tt;
  dangles = tt;
  empty = tt;
  overread = λ l good none. tt;
}

-- Neither that nor the use of a text without an end.
abbrev Strict : Fault → Type 0
Strict null_pointer = Unit {0}
Strict dangling = Unit {0}
Strict empty_function = Unit {0}
Strict out_of_bounds = ⊥
Strict unterminated = ⊥
Strict missing_return = Unit {0}

abbrev pub Readable : List ℕ → Type 0
Readable l = (bs : List ℕ) × (c_string l ≡ some bs)

pub Readable-ends : (l : List ℕ) → Readable l → c_string l ≡ none → ⊥
Readable-ends l (bs, e) ends = cc

abbrev pub strict : Policy
strict = record {
  Good = Readable;
  Allowed = Strict;
  null = tt;
  dangles = tt;
  empty = tt;
  overread = Readable-ends;
}
