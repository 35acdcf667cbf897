-- ===== src/Proto/Leaves.antt =====
-- What the cases of the switch leave of the input is never longer than it
-- (ad/AdPlayPolicy.pb.cc).
use ad_manager.Base.{
  ℕ, ◌≤◌, ◌≡◌, refl, Bool, true, false, Option, none, some, List, arith, if◌then◌else◌, length, ℤ,
}
use ad_manager.Wire.{Bytes}
use ad_manager.Message.Runtime.{Runtime, IsRuntime}
use ad_manager.Proto.Loop.{Case, taken, untaken}
use ad_manager.Proto.Fields.{
  Lens, store, add, add_all, checked, parse_block, int32_case, bool_case, bytes_case, text_case,
  texts_case, packed_case, single_case, message_case,
}

-- A case that is taken has left at most `n` bytes.
abbrev pub Leaves : {M : Type 0} → ℕ → Case M → Type 0
Leaves n (taken none) = Unit {0}
Leaves n (taken (some (m, rest))) = length rest ≤ n
Leaves n untaken = Unit {0}

-- A value that is read has left at most `n` bytes.
abbrev Within : {A : Type 0} → ℕ → Option (A × Bytes) → Type 0
Within n none = Unit {0}
Within n (some (v, rest)) = length rest ≤ n

Within-by :
    {A : Type 0} (n : ℕ) (o : Option (A × Bytes))
    → ((v : A) (rest : Bytes) → o ≡ some (v, rest) → length rest ≤ n)
    → Within n o
Within-by n none h = tt
Within-by n (some (v, rest)) h = h v rest refl

pub record Leaving {M : Type 0} (n : ℕ) (c : Case M) : Type 0 where
  pub leaves : Leaves n c

-- A case under its test.
pub record Guarded {M : Type 0} (n : ℕ) (c : Bool) (x : Case M) : Type 0 where
  pub leaving : Leaving n x

pub on : {M : Type 0} {n : ℕ} {x : Case M} → (c : Bool) → Leaving n x → Guarded n c x
on c p = record { leaving = p }

infixr 20 ◌orelse◌
pub ◌orelse◌ :
    {M : Type 0} {n : ℕ} {c : Bool} {x y : Case M}
    → Guarded n c x
    → Leaving n y
    → Leaving n (if c then x else y)
◌orelse◌ {c = true} p q = p.leaving
◌orelse◌ {c = false} p q = q

pub otherwise : {M : Type 0} {n : ℕ} → Leaving {M = M} n untaken
otherwise = record { leaves = tt }

Leaves-store :
    {M A : Type 0} (l : Lens M A) (n : ℕ) (m : M) (o : Option (A × Bytes))
    → Within n o
    → Leaves n (store l m o)
Leaves-store l n m none h = tt
Leaves-store l n m (some (v, rest)) h = h

Leaves-add :
    {M A : Type 0} (l : Lens M (List A)) (n : ℕ) (m : M) (o : Option (A × Bytes))
    → Within n o
    → Leaves n (add l m o)
Leaves-add l n m none h = tt
Leaves-add l n m (some (v, rest)) h = h

Leaves-add_all :
    {M A : Type 0} (l : Lens M (List A)) (n : ℕ) (m : M) (o : Option (List A × Bytes))
    → Within n o
    → Leaves n (add_all l m o)
Leaves-add_all l n m none h = tt
Leaves-add_all l n m (some (v, rest)) h = h

checked-Within :
    (n : ℕ) (ok : Bytes → Bool) (o : Option (Bytes × Bytes)) → Within n o → Within n (checked ok o)
checked-Within n ok none h = tt
checked-Within n ok (some (w, left)) h = either (ok w)
  where
    either : (b : Bool) → Within n (if b then some (w, left) else none)
    either true = h
    either false = tt

parse_block-Within :
    {A : Type 0} (n : ℕ) (parse : Bytes → Option A) (o : Option (Bytes × Bytes))
    → Within n o
    → Within n (parse_block parse o)
parse_block-Within n parse none h = tt
parse_block-Within {A} n parse (some (block, left)) h = go (parse block) refl
  where
    go : (v : Option A) → parse block ≡ v → Within n (parse_block parse (some (block, left)))
    go none e = rw (e, parse_block, Within) (tt {0})
    go (some v) e = rw (e, parse_block, Within) h

module _ (r : Runtime) (laws : IsRuntime r) where
  open laws use {
    read_tag_shrinks, read_int32_shrinks, read_string_shrinks, read_bool_shrinks,
    read_block_shrinks, read_nested_shrinks, read_repeated_shrinks, skip_shrinks,
  }

  int32-Within : (b : Bytes) → Within (length b) (r.read_int32 b)
  int32-Within b =
      Within-by (length b) (r.read_int32 b)
        (λ v rest e. omega (arith, read_int32_shrinks b rest v e))

  string-Within : (b : Bytes) → Within (length b) (r.read_string b)
  string-Within b =
      Within-by (length b) (r.read_string b) (λ v rest e. read_string_shrinks b rest v e)

  bool-Within : (b : Bytes) → Within (length b) (r.read_bool b)
  bool-Within b = Within-by (length b) (r.read_bool b) (λ v rest e. read_bool_shrinks b rest v e)

  block-Within : (b : Bytes) → Within (length b) (r.read_block b)
  block-Within b = Within-by (length b) (r.read_block b) (λ v rest e. read_block_shrinks b rest v e)

  module _ {M : Type 0} (m : M) (b : Bytes) where
    pub int32_leaves : (l : Lens M ℤ) → Leaving (length b) (int32_case r l m b)
    int32_leaves l = record {
      leaves = Leaves-store l (length b) m (r.read_int32 b) (int32-Within b);
    }

    pub bool_leaves : (l : Lens M Bool) → Leaving (length b) (bool_case r l m b)
    bool_leaves l = record { leaves = Leaves-store l (length b) m (r.read_bool b) (bool-Within b) }

    pub bytes_leaves : (l : Lens M Bytes) → Leaving (length b) (bytes_case r l m b)
    bytes_leaves l = record {
      leaves = Leaves-store l (length b) m (r.read_string b) (string-Within b);
    }

    pub text_leaves : (l : Lens M Bytes) → Leaving (length b) (text_case r l m b)
    text_leaves l = record {
      leaves =
          Leaves-store l (length b) m _
            (checked-Within (length b) r.verify_utf8 (r.read_string b) (string-Within b));
    }

    pub texts_leaves : (l : Lens M (List Bytes)) → Leaving (length b) (texts_case r l m b)
    texts_leaves l = record {
      leaves =
          Leaves-add l (length b) m _
            (checked-Within (length b) r.verify_utf8 (r.read_string b) (string-Within b));
    }

    pub packed_leaves : (l : Lens M (List ℤ)) → Leaving (length b) (packed_case r l m b)
    packed_leaves l = record {
      leaves =
          Leaves-add_all l (length b) m _
            (parse_block-Within (length b) _ (r.read_block b) (block-Within b));
    }

    pub single_leaves : (t : ℕ) (l : Lens M (List ℤ)) → Leaving (length b) (single_case r t l m b)
    single_leaves t l = record {
      leaves = Leaves-add_all l (length b) m _ (
          Within-by (length b) (r.read_repeated t (l.get m) b)
            (λ v rest e. read_repeated_shrinks t (l.get m) v b rest e));
    }

    pub message_leaves :
        {A : Type 0} (parse : Bytes → Option A) (l : Lens M (List A))
        → Leaving (length b) (message_case r parse l m b)
    message_leaves parse l = record {
      leaves =
          Leaves-add l (length b) m _
            (parse_block-Within (length b) parse (some (r.read_nested b)) (read_nested_shrinks b));
    }
