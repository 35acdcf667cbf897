-- ===== src/Player/References.antt =====
-- The references that the player's functions hold when they are done (player.cpp).
use ad_manager.Base.{
  ℕ, zero, suc, ◌+◌, ◌≡◌, refl, inl, inr, Bool, true, false, Option, none, some, List, [], ◌∷◌,
  arith, ◌==◌, if◌then◌else◌, Bool-cases,
}
use ad_manager.Player.Com.{
  World, Effect, Platform, Out, untouched, written, failed, apply_out, acquired, released, called,
  used, null_call, signalled, posted, slept, received, add_effect, made, get_stream_descriptor,
  create_topology, get_stream_count, Steps, sub, ◌>>◌,
}
use ad_manager.Player.Media.{
  Branching, connect, add_both, add_nodes, with_stream, add_source_node, add_output_node,
  create_media_sink_activate, create_media_source, get_event_object, add_branch_to_partial_topology,
  add_branches, create_playback_topology, end_branch,
}

unfoldable pub one : ℕ → ℕ → ℕ
one p n = if n == p then 1 else 0

-- How often a reference to the object was acquired or came with a message, and how often one was
-- released or given to a message.
abbrev pub gains : ℕ → List Effect → ℕ
gains p [] = 0
gains p (acquired n ∷ es) = one p n + gains p es
gains p (released n ∷ es) = gains p es
gains p (called a ∷ es) = gains p es
gains p (used a n ∷ es) = gains p es
gains p (null_call a ∷ es) = gains p es
gains p (signalled ∷ es) = gains p es
gains p (posted n ∷ es) = gains p es
gains p (received n ∷ es) = one p n + gains p es
gains p (slept ∷ es) = gains p es

abbrev pub losses : ℕ → List Effect → ℕ
losses p [] = 0
losses p (released n ∷ es) = one p n + losses p es
losses p (acquired n ∷ es) = losses p es
losses p (called a ∷ es) = losses p es
losses p (used a n ∷ es) = losses p es
losses p (null_call a ∷ es) = losses p es
losses p (signalled ∷ es) = losses p es
losses p (posted n ∷ es) = one p n + losses p es
losses p (received n ∷ es) = losses p es
losses p (slept ∷ es) = losses p es

abbrev pub holds : ℕ → Option ℕ → ℕ
holds p none = 0
holds p (some n) = one p n

abbrev pub given : ℕ → Out → ℕ
given p untouched = 0
given p (written o) = holds p o

-- From the one world to the other, the references to the object that are held have grown by the number.
abbrev pub Grows : ℕ → World → World → ℕ → Type 0
Grows p w v x = gains p v.log + losses p w.log ≡ gains p w.log + losses p v.log + x

module _ (m : Platform) (p : ℕ) where
  abbrev locals : Branching → ℕ
  locals f =
      holds p f.stream + holds p f.sink_activate + holds p f.source_node + holds p f.output_node

  add_source_node-Grows :
      (w : World) → let ((v, out), hr) = add_source_node m w in Grows p w v (given p out)
  unfolding add_source_node
  add_source_node-Grows w = ground arith

  add_output_node-Grows :
      (w : World) → let ((v, out), hr) = add_output_node m w in Grows p w v (given p out)
  unfolding add_output_node
  add_output_node-Grows w = ground arith

  create_media_sink_activate-Grows :
      (w : World) → let ((v, out), hr) = create_media_sink_activate m w in Grows p w v (given p out)
  unfolding create_media_sink_activate
  create_media_sink_activate-Grows w = ground arith

  pub create_media_source-Grows :
      (w : World) → let ((v, out), hr) = create_media_source m w in Grows p w v (given p out)
  unfolding create_media_source
  create_media_source-Grows w = ground arith

  pub get_event_object-Grows :
      (w : World) → let ((v, out), hr) = get_event_object m w in Grows p w v (given p out)
  unfolding get_event_object
  get_event_object-Grows w = ground arith

  abbrev Grown : World → Branching → (World × Branching) × ℕ → Type 0
  Grown w f ((v, g), hr) =
      gains p v.log + losses p w.log + locals f ≡ gains p w.log + losses p v.log + locals g

  Grown-then :
      (a b : Steps Branching) (w : World) (f : Branching)
      → Grown w f (a w f)
      → Grown (a w f).0.0 (a w f).0.1 (b (a w f).0.0 (a w f).0.1)
      → Grown w f ((a >> b) w f)
  Grown-then a b w f first second = ground arith

  connect-Grown : (w : World) (f : Branching) → f.output_node ≡ none → Grown w f (connect m w f)
  unfolding connect
  connect-Grown w f e = ground (arith, add_output_node-Grows w)

  add_both-Grown :
      (w : World) (f : Branching)
      → f.source_node ≡ none
      → f.output_node ≡ none
      → Grown w f (add_both m w f)
  unfolding add_both
  add_both-Grown w f e e' =
      Grown-then
        (sub m (add_source_node m) (λ o f. record f { source_node = apply_out o f.source_node }))
        (connect m) w f (ground (arith, add_source_node-Grows w)) (connect-Grown _ _ e')

  -- The locals of a branch whose stream is known.
  abbrev fresh : Option ℕ → Branching
  fresh s = record { stream = s; sink_activate = none; source_node = none; output_node = none }

  add_nodes-Grown :
      (b : Bool) (w : World) (s : Option ℕ) → Grown w (fresh s) (add_nodes m b w (fresh s))
  unfolding add_nodes
  add_nodes-Grown false w s = omega arith
  add_nodes-Grown true w s =
      Grown-then
        (sub m (create_media_sink_activate m)
          (λ o f. record f { sink_activate = apply_out o f.sink_activate }))
        (add_both m) w (fresh s) (ground (arith, create_media_sink_activate-Grows w))
        (add_both-Grown _ _ refl refl)

  end_branch-Grows :
      (w : World) (r : (World × Branching) × ℕ)
      → Grown w (fresh none) r
      → Grows p w (end_branch m r).0 0
  end_branch-Grows w ((v, g), hr) e = ground arith

  with_stream-Grown :
      (w : World) → Grown w (fresh none) (with_stream m (add_nodes m) w (fresh none))
  with_stream-Grown w = elim (Bool-cases (failed (m.answer w.calls))) [
    | inl e ↦ rw e (omega arith)
    | inr e ↦
        let v = add_effect (acquired w.calls) (made (called get_stream_descriptor) w) in
        rw e (omega (arith, add_nodes-Grown (m.is_selected w.calls) v (some w.calls)))
  ]

  add_branch_to_partial_topology-Grows :
      (w : World) → Grows p w (add_branch_to_partial_topology m w).0 0
  unfolding add_branch_to_partial_topology
  add_branch_to_partial_topology-Grows w =
      end_branch-Grows w (with_stream m (add_nodes m) w (fresh none)) (with_stream-Grown w)

  add_branches-Grows : (n : ℕ) (w : World) → Grows p w (add_branches m n w).0 0
  unfolding add_branches
  add_branches-Grows zero w = omega arith
  add_branches-Grows (suc n) w =
      let (v, hr) = add_branch_to_partial_topology m w in
      ground (arith, add_branch_to_partial_topology-Grows w, add_branches-Grows n v)

  -- On every path, failures included, CreatePlaybackTopology has released as many references to an
  -- object as it has acquired, but for the topology that it gives to the caller.
  pub create_playback_topology-Grows :
      (w : World) → let ((v, out), hr) = create_playback_topology m w in Grows p w v (given p out)
  unfolding create_playback_topology
  create_playback_topology-Grows w =
      let v = add_effect (acquired w.calls) (made (called create_topology) w) in
      ground (arith, add_branches-Grows (m.stream_count v.calls) (made (called get_stream_count) v))
