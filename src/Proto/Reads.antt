-- ===== src/Proto/Reads.antt =====
-- How the loop of a generated class reads what its serialiser writes, field by field
-- (ad/AdPlayPolicy.pb.cc).
use ad_manager.Base.{
  ℕ, suc, ◌+◌, ◌-◌, ◌^◌, ◌≤◌, ◌<◌, ◌≡◌, refl, sym, ap, ◌∙◌, true, false, ◌||◌, some, [], ◌++◌,
  append-nil, append_assoc, arith, ◌==◌, length, length-append, is_empty,
}
use ad_manager.Wire.{Bytes}
use ad_manager.Message.Runtime.{Runtime, IsRuntime}
use ad_manager.Message.Generated.{is_end_group}
use ad_manager.Base.{
  ℕ, suc, ◌+◌, ◌-◌, ◌^◌, ◌≤◌, ◌<◌, ◌≡◌, refl, sym, ap, ◌∙◌, true, false, ◌||◌, some, [], ◌++◌,
  append-nil, append_assoc, arith, ◌==◌, length, length-append, is_empty,
}
use ad_manager.Proto.Loop.{
  Case, taken, untaken, done, ends, turn, merge_loop, parse_into, on_case, goes_on,
}

module _ (r : Runtime) {M : Type 0} (switch : ℕ → M → Bytes → Case M) where
  -- Some rounds of the loop read the bytes, whatever follows them, and leave the second message for
  -- the first.
  pub record Reads (m : M) (b : Bytes) (n : M) : Type 0 where
    pub rounds : ℕ
    pub bound : rounds ≤ length b
    pub runs :
        (f : ℕ) (rest : Bytes)
        → merge_loop r switch (rounds + f) m (b ++ rest) ≡ merge_loop r switch f n rest

  fuel_same :
      {f g : ℕ} (m : M) (b : Bytes) → f ≡ g → merge_loop r switch f m b ≡ merge_loop r switch g m b
  fuel_same m b e = ap (λ (h : ℕ). merge_loop r switch h m b) e

infixr 20 ◌then◌
-- The one stretch is read, and then the other.
pub ◌then◌ :
    {r : Runtime} {M : Type 0} {switch : ℕ → M → Bytes → Case M} {m n k : M} {b c : Bytes}
    → Reads r switch m b n
    → Reads r switch n c k
    → Reads r switch m (b ++ c) k
◌then◌ {r} {M} {switch} {m} {n} {k} {b} {c} first second = record {
  rounds = first.rounds + second.rounds;
  bound = omega (arith, length-append b c, first.bound, second.bound);
  runs = λ f rest. rw (append_assoc b c rest) (
      fuel_same r switch m (b ++ (c ++ rest)) (omega arith)
      ∙ first.runs (second.rounds + f) (c ++ rest)
      ∙ second.runs f rest);
}

module _ (r : Runtime) (laws : IsRuntime r) {M : Type 0} (switch : ℕ → M → Bytes → Case M) where
  open laws use {read_tag-write, read_tag-end, read_tag_shrinks}

  pub Reads-none : (m : M) → Reads r switch m [] m
  Reads-none m = record {
    rounds = 0;
    bound = omega arith;
    runs = λ f rest. fuel_same r switch m rest (omega arith);
  }

  tag_takes : (t : ℕ) → 0 < t → t < 2 ^ 14 → 0 < length (r.write_tag t)
  tag_takes t p q =
      let e : r.read_tag (r.write_tag t) ≡ (t, []) =
        ap r.read_tag (sym (append-nil (r.write_tag t))) ∙ read_tag-write t [] p q in
      omega (arith, read_tag_shrinks (r.write_tag t) (λ z. absurd (ground arith)))

  switch_takes :
      (t : ℕ) (value : Bytes) (m n : M) (f : ℕ) (rest : Bytes)
      → 0 < t
      → t < 2 ^ 14
      → switch t m (value ++ rest) ≡ taken (some (n, rest))
      → merge_loop r switch (suc f) m ((r.write_tag t ++ value) ++ rest)
        ≡ merge_loop r switch f n rest
  unfolding merge_loop turn
  switch_takes t value m n f rest p q e =
      rw
        (
          append_assoc (r.write_tag t) value rest,
          merge_loop,
          read_tag-write t (value ++ rest) p q,
          e,
        )
        refl

  -- The tag is read, and the switch takes its case.
  pub Reads-field :
      (t : ℕ) (value : Bytes) (m n : M)
      → 0 < t
      → t < 2 ^ 14
      → ((rest : Bytes) → switch t m (value ++ rest) ≡ taken (some (n, rest)))
      → Reads r switch m (r.write_tag t ++ value) n
  Reads-field t value m n p q takes = record {
    rounds = 1;
    bound = omega (arith, length-append (r.write_tag t) value, tag_takes t p q);
    runs = λ f rest.
        fuel_same r switch m ((r.write_tag t ++ value) ++ rest) (omega arith)
        ∙ switch_takes t value m n f rest p q (takes rest);
  }

  turn-skip :
      (t : ℕ) (value : Bytes) (m : M) (rest : Bytes)
      → 0 < t
      → t < 2 ^ 14
      → is_end_group t ≡ false
      → switch t m (value ++ rest) ≡ untaken
      → r.skip_field t (value ++ rest) ≡ some rest
      → turn r switch m (r.write_tag t ++ (value ++ rest)) ≡ goes_on m rest
  unfolding turn
  turn-skip t value m rest p q group e skips =
      let at_end = is_empty (r.write_tag t ++ (value ++ rest)) in
      let stays : (t == 0 || is_end_group t) ≡ false = ground arith in
      ap (λ (p : ℕ × Bytes). on_case r switch p.0 m at_end p.1 (switch p.0 m p.1))
        (read_tag-write t (value ++ rest) p q)
      ∙ ap (on_case r switch t m at_end (value ++ rest)) e
      ∙ rw (stays, skips) refl

  skip_takes :
      (t : ℕ) (value : Bytes) (m : M) (f : ℕ) (rest : Bytes)
      → turn r switch m (r.write_tag t ++ (value ++ rest)) ≡ goes_on m rest
      → merge_loop r switch (suc f) m ((r.write_tag t ++ value) ++ rest)
        ≡ merge_loop r switch f m rest
  unfolding merge_loop
  skip_takes t value m f rest e = rw (append_assoc (r.write_tag t) value rest, merge_loop, e) refl

  -- A field that the switch leaves and that can be skipped.
  pub Reads-skip :
      (t : ℕ) (value : Bytes) (m : M)
      → 0 < t
      → t < 2 ^ 14
      → is_end_group t ≡ false
      → ((b : Bytes) → switch t m b ≡ untaken)
      → ((rest : Bytes) → r.skip_field t (value ++ rest) ≡ some rest)
      → Reads r switch m (r.write_tag t ++ value) m
  Reads-skip t value m p q group unknown skips = record {
    rounds = 1;
    bound = omega (arith, length-append (r.write_tag t) value, tag_takes t p q);
    runs = λ f rest.
        fuel_same r switch m ((r.write_tag t ++ value) ++ rest) (omega arith)
        ∙ skip_takes t value m f rest
            (turn-skip t value m rest p q group (unknown (value ++ rest)) (skips rest));
  }

  turn-end : (n : M) → switch 0 n [] ≡ untaken → turn r switch n [] ≡ ends n true
  unfolding turn
  turn-end n e =
      ap (λ (p : ℕ × Bytes). on_case r switch p.0 n true p.1 (switch p.0 n p.1)) read_tag-end
      ∙ ap (on_case r switch 0 n true []) e

  stops_at_end :
      (n : M) (f : ℕ) → switch 0 n [] ≡ untaken → merge_loop r switch (suc f) n [] ≡ done n true
  unfolding merge_loop
  stops_at_end n f e = rw (merge_loop, turn-end n e) refl

  pub Reads-parse :
      {m n : M} {b : Bytes}
      → ((k : M) (c : Bytes) → switch 0 k c ≡ untaken)
      → Reads r switch m b n
      → parse_into r switch m b ≡ some n
  unfolding merge_loop turn
  Reads-parse {m} {n} {b} no_case reads =
      let spare = length b - reads.rounds in
      let enough : suc (length b) ≡ reads.rounds + suc spare = omega (arith, reads.bound) in
      let ran : merge_loop r switch (suc (length b)) m b ≡ done n true =
        fuel_same r switch m b enough
        ∙ ap (merge_loop r switch (reads.rounds + suc spare) m) (sym (append-nil b))
        ∙ reads.runs (suc spare) []
        ∙ stops_at_end n spare (no_case n []) in
      rw ran refl
