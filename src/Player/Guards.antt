-- ===== src/Player/Guards.antt =====
-- Through which pointers the player calls (player.cpp): those that its fields may leave null.
use ad_manager.Base.{
  ℕ, zero, suc, ◌≡◌, refl, inl, inr, Bool, true, false, none, some, List, [], ◌∷◌, arith,
  Bool-cases,
}
use ad_manager.Player.Com.{
  World, Platform, Effect, failed, acquired, released, called, used, null_call, signalled, posted,
  received, slept, add_effect, made, apply_out, get_stream_descriptor, create_topology,
  get_stream_count,
}
use ad_manager.Player.Media.{
  Branching, connect, add_both, add_nodes, with_stream, add_source_node, add_output_node,
  create_media_sink_activate, create_media_source, get_event_object, add_branch_to_partial_topology,
  add_branches, create_playback_topology, end_branch,
}

-- The calls through a null pointer.
abbrev pub faults : List Effect → ℕ
faults [] = 0
faults (null_call a ∷ es) = suc (faults es)
faults (acquired n ∷ es) = faults es
faults (released n ∷ es) = faults es
faults (called a ∷ es) = faults es
faults (used a n ∷ es) = faults es
faults (posted n ∷ es) = faults es
faults (received n ∷ es) = faults es
faults (signalled ∷ es) = faults es
faults (slept ∷ es) = faults es

abbrev pub IsQuiet : World → World → Type 0
IsQuiet w v = faults v.log ≡ faults w.log

module _ (m : Platform) where
  add_source_node-IsQuiet : (w : World) → IsQuiet w (add_source_node m w).0.0
  unfolding add_source_node
  add_source_node-IsQuiet w = ground arith

  add_output_node-IsQuiet : (w : World) → IsQuiet w (add_output_node m w).0.0
  unfolding add_output_node
  add_output_node-IsQuiet w = ground arith

  create_media_sink_activate-IsQuiet : (w : World) → IsQuiet w (create_media_sink_activate m w).0.0
  unfolding create_media_sink_activate
  create_media_sink_activate-IsQuiet w = ground arith

  pub create_media_source-IsQuiet : (w : World) → IsQuiet w (create_media_source m w).0.0
  unfolding create_media_source
  create_media_source-IsQuiet w = ground arith

  pub get_event_object-IsQuiet : (w : World) → IsQuiet w (get_event_object m w).0.0
  unfolding get_event_object
  get_event_object-IsQuiet w = ground arith

  connect-IsQuiet : (w : World) (f : Branching) → IsQuiet w (connect m w f).0.0
  unfolding connect
  connect-IsQuiet w f = ground (arith, add_output_node-IsQuiet w)

  add_both-IsQuiet : (w : World) (f : Branching) → IsQuiet w (add_both m w f).0.0
  unfolding add_both
  add_both-IsQuiet w f =
      let ((v, out), hr) = add_source_node m w in
      ground (
        arith,
        add_source_node-IsQuiet w,
        connect-IsQuiet v (record f { source_node = apply_out out f.source_node }),
      )

  add_nodes-IsQuiet : (b : Bool) (w : World) (f : Branching) → IsQuiet w (add_nodes m b w f).0.0
  unfolding add_nodes
  add_nodes-IsQuiet false w f = refl
  add_nodes-IsQuiet true w f =
      let ((v, out), hr) = create_media_sink_activate m w in
      ground (
        arith,
        create_media_sink_activate-IsQuiet w,
        add_both-IsQuiet v (record f { sink_activate = apply_out out f.sink_activate }),
      )

  end_branch-IsQuiet :
      (w : World) (r : (World × Branching) × ℕ) → IsQuiet w r.0.0 → IsQuiet w (end_branch m r).0
  end_branch-IsQuiet w ((v, f), hr) e = ground arith

  with_stream-IsQuiet :
      (w : World) (f : Branching) → IsQuiet w (with_stream m (add_nodes m) w f).0.0
  with_stream-IsQuiet w f = elim (Bool-cases (failed (m.answer w.calls))) [
    | inl e ↦ rw e refl
    | inr e ↦
        let v = add_effect (acquired w.calls) (made (called get_stream_descriptor) w) in
        rw e (add_nodes-IsQuiet (m.is_selected w.calls) v (record f { stream = some w.calls }))
  ]

  add_branches-IsQuiet : (n : ℕ) (w : World) → IsQuiet w (add_branches m n w).0
  unfolding add_branches add_branch_to_partial_topology
  add_branches-IsQuiet zero w = refl
  add_branches-IsQuiet (suc n) w =
      let f : Branching = record {
        stream = none;
        sink_activate = none;
        source_node = none;
        output_node = none;
      } in
      let branch = with_stream m (add_nodes m) w f in
      let (v, hr) = end_branch m branch in
      ground
        (arith, end_branch-IsQuiet w branch (with_stream-IsQuiet w f), add_branches-IsQuiet n v)

  pub create_playback_topology-IsQuiet : (w : World) → IsQuiet w (create_playback_topology m w).0.0
  unfolding create_playback_topology
  create_playback_topology-IsQuiet w =
      let v = add_effect (acquired w.calls) (made (called create_topology) w) in
      ground
        (arith, add_branches-IsQuiet (m.stream_count v.calls) (made (called get_stream_count) v))
