-- ===== src/Player/Media.antt =====
-- player.cpp: the functions that build the objects to play a file. Each has its local pointers as a
-- record, and releases them at its end in the order of the code.
use ad_manager.Base.{ℕ, zero, suc, Bool, true, false, Option, none, some, if◌then◌else◌}
use ad_manager.Player.Com.{
  World, Platform, Out, untouched, written, Steps, ask, make, sub, change, ◌>>◌, safe_release,
  add_ref, s_ok, create_topology_node, set_unknown, set_object, MajorType, get_media_type_handler,
  made, create_source_resolver, apply_out, get_stream_descriptor, create_topology, add_node,
  set_uint32, create_audio_renderer, get_major_type, called, create_object, create_object_from_url,
  Api, connect_output, failed, create_video_renderer, query_interface, get_stream_count, get_value,
  e_fail, add_effect, acquired, released, mf_e_invalidtype, audio, video, other_type,
}

pub record Noding : Type 0 where
  pub node : Option ℕ
  pub out : Out

pub record Sinking : Type 0 where
  pub handler : Option ℕ
  pub activate : Option ℕ
  pub out : Out

pub record Resolving : Type 0 where
  pub resolver : Option ℕ
  pub unknown : Option ℕ
  pub out : Out

pub record Branching : Type 0 where
  pub stream : Option ℕ
  pub sink_activate : Option ℕ
  pub source_node : Option ℕ
  pub output_node : Option ℕ

pub record Building : Type 0 where
  pub topology : Option ℕ
  pub out : Out

module _ (p : Platform) where
  -- `*ppNode = pNode; (*ppNode)->AddRef()`.
  abbrev pub give_node : Steps Noding
  give_node w f = ((add_ref f.node w, record f { out = written f.node }), s_ok)

  abbrev pub end_node : (World × Noding) × ℕ → (World × Out) × ℕ
  end_node ((w, f), hr) = ((safe_release f.node w, f.out), hr)

  abbrev pub new_node : Steps Noding
  new_node = make p create_topology_node (λ n f. record f { node = some n })

  unfoldable pub add_source_node : World → (World × Out) × ℕ
  add_source_node w = end_node (
      (new_node
          >> ask p set_unknown
          >> ask p set_unknown
          >> ask p set_unknown
          >> ask p add_node
          >> give_node)
        w (record { node = none; out = untouched }))

  unfoldable pub add_output_node : World → (World × Out) × ℕ
  add_output_node w = end_node (
      (new_node
          >> ask p set_object
          >> ask p set_uint32
          >> ask p set_uint32
          >> ask p add_node
          >> give_node)
        w (record { node = none; out = untouched }))

  -- The renderer for the type of the stream; no other type has one.
  abbrev pub new_renderer : MajorType → Steps Sinking
  new_renderer audio = make p create_audio_renderer (λ n f. record f { activate = some n })
  new_renderer video = make p create_video_renderer (λ n f. record f { activate = some n })
  new_renderer other_type = λ w f. ((w, f), e_fail)

  abbrev pub with_type : (MajorType → Steps Sinking) → Steps Sinking
  with_type next w f = (ask p get_major_type >> next (p.major_type w.calls)) w f

  abbrev pub give_activate : Steps Sinking
  give_activate w f = ((add_ref f.activate w, record f { out = written f.activate }), s_ok)

  abbrev pub end_sink : (World × Sinking) × ℕ → (World × Out) × ℕ
  end_sink ((w, f), hr) = ((safe_release f.activate (safe_release f.handler w), f.out), hr)

  unfoldable pub create_media_sink_activate : World → (World × Out) × ℕ
  create_media_sink_activate w = end_sink (
      (make p get_media_type_handler (λ n f. record f { handler = some n })
          >> with_type new_renderer
          >> give_activate)
        w (record { handler = none; activate = none; out = untouched }))

  -- QueryInterface gives the pointer to the caller, or sets it to NULL.
  abbrev pub query_source : Steps Resolving
  query_source w f =
      let n = w.calls in
      let v = made (called query_interface) w in
      if failed (p.answer n)
      then ((v, record f { out = written none }), p.answer n)
      else ((add_effect (acquired n) v, record f { out = written (some n) }), p.answer n)

  abbrev pub end_source : (World × Resolving) × ℕ → (World × Out) × ℕ
  end_source ((w, f), hr) = ((safe_release f.unknown (safe_release f.resolver w), f.out), hr)

  -- The two functions of the name CreateMediaSource differ in the call that makes the object.
  abbrev pub create_source_by : Api → World → (World × Out) × ℕ
  create_source_by api w = end_source (
      (make p create_source_resolver (λ n f. record f { resolver = some n })
          >> make p api (λ n f. record f { unknown = some n })
          >> query_source)
        w (record { resolver = none; unknown = none; out = untouched }))

  unfoldable pub create_media_source : World → (World × Out) × ℕ
  create_media_source w = create_source_by create_object w

  unfoldable pub create_url_source : World → (World × Out) × ℕ
  create_url_source w = create_source_by create_object_from_url w

  abbrev pub end_branch : (World × Branching) × ℕ → World × ℕ
  end_branch ((w, f), hr) = (
    safe_release f.output_node
        (safe_release f.source_node (safe_release f.sink_activate (safe_release f.stream w))),
    hr,
  )

  -- The output node, and the connection of the source node to it.
  unfoldable pub connect : Steps Branching
  unfolding add_output_node
  connect =
      sub p add_output_node (λ o f. record f { output_node = apply_out o f.output_node })
      >> ask p connect_output

  unfoldable pub add_both : Steps Branching
  unfolding add_source_node connect
  add_both =
      sub p add_source_node (λ o f. record f { source_node = apply_out o f.source_node }) >> connect

  unfoldable pub add_nodes : Bool → Steps Branching
  unfolding create_media_sink_activate add_both
  add_nodes false = change p (λ f. f)
  add_nodes true =
      sub p create_media_sink_activate
        (λ o f. record f { sink_activate = apply_out o f.sink_activate })
      >> add_both

  abbrev pub with_stream : (Bool → Steps Branching) → Steps Branching
  with_stream next w f =
      (make p get_stream_descriptor (λ n f. record f { stream = some n })
          >> next (p.is_selected w.calls))
        w f

  unfoldable pub add_branch_to_partial_topology : World → World × ℕ
  unfolding add_nodes
  add_branch_to_partial_topology w = end_branch (
      with_stream add_nodes w
        (record { stream = none; sink_activate = none; source_node = none; output_node = none }))

  -- The loop over the streams, with CHECK_HR in it.
  unfoldable pub add_branches : ℕ → World → World × ℕ
  unfolding add_branch_to_partial_topology
  add_branches zero w = (w, s_ok)
  add_branches (suc n) w =
      let (v, hr) = add_branch_to_partial_topology w in
      let rest = add_branches n v in if failed hr then (v, hr) else rest

  abbrev pub all_streams : Steps Building
  all_streams w f =
      let v = made (called get_stream_count) w in
      if failed (p.answer w.calls)
      then ((v, f), p.answer w.calls)
      else let (u, hr) = add_branches (p.stream_count w.calls) v in ((u, f), hr)

  abbrev pub give_topology : Steps Building
  give_topology w f = ((add_ref f.topology w, record f { out = written f.topology }), s_ok)

  abbrev pub end_topology : (World × Building) × ℕ → (World × Out) × ℕ
  end_topology ((w, f), hr) = ((safe_release f.topology w, f.out), hr)

  unfoldable pub create_playback_topology : World → (World × Out) × ℕ
  unfolding add_branches
  create_playback_topology w = end_topology (
      (make p create_topology (λ n f. record f { topology = some n })
          >> all_streams
          >> give_topology)
        w (record { topology = none; out = untouched }))

  -- The value of an event, which the program clears, holds a reference if it is of the type VT_UNKNOWN.
  unfoldable pub get_event_object : World → (World × Out) × ℕ
  get_event_object w =
      let n = w.calls in
      let v = made (called get_value) w in
      let q = made (called query_interface) (add_effect (acquired n) v) in
      if failed (p.answer n)
      then ((v, written none), p.answer n)
      else if p.is_unknown n
      then (if failed (p.answer (suc n))
          then ((add_effect (released n) q, written none), p.answer (suc n))
          else (
            (add_effect (released n) (add_effect (acquired (suc n)) q), written (some (suc n))),
            p.answer (suc n),
          ))
      else ((v, written none), mf_e_invalidtype)
