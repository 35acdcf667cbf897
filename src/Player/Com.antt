-- ===== src/Player/Com.antt =====
-- What the player calls of Media Foundation and of Windows, and the references that it holds on their
-- objects (player.cpp, player.h: CHECK_HR and SafeRelease).
use ad_manager.Base.{ℕ, suc, ◌^◌, Bool, Option, none, some, List, ◌∷◌, leb, if◌then◌else◌}

-- The calls, by name. The code has each once or twice.
pub data Api : Type 0 where
  get_value query_interface create_source_resolver create_object create_object_from_url : Api
  get_media_type_handler get_major_type create_audio_renderer create_video_renderer : Api
  create_topology_node set_unknown set_object set_uint32 add_node connect_output : Api
  get_stream_descriptor create_topology get_stream_count : Api
  create_mem_stream create_byte_stream create_descriptor set_topology clear_topology : Api
  shutdown_source shutdown_session close_session_call start_session_call : Api
  pause_session stop_session_call repaint_video set_video_position : Api
  end_get_event begin_get_event get_type get_status get_topology_status : Api
  get_topology_id get_full_topology get_service create_media_session : Api
  startup shutdown_platform create_event : Api

-- What the player does, for each call in turn. An object is known by the number of the call that gave
-- it; a reference to it is acquired and released. A message to the window, posted and later received,
-- takes a reference to an event along. A call through a null pointer is a fault of the
-- program: nothing that follows it has a meaning.
pub data Effect : Type 0 where
  called : Api → Effect
  used : Api → ℕ → Effect
  null_call : Api → Effect
  acquired : ℕ → Effect
  released : ℕ → Effect
  posted : ℕ → Effect
  received : ℕ → Effect
  signalled slept : Effect

-- The calls made so far, and what was done, newest first.
pub record World : Type 0 where
  pub calls : ℕ
  pub log : List Effect

-- An HRESULT, as a word: it tells of a failure if its sign bit is set.
unfoldable pub failed : ℕ → Bool
failed hr = leb (2 ^ 31) hr

abbrev pub s_ok : ℕ
s_ok = 0

abbrev pub e_fail : ℕ
e_fail = 0x80004005

abbrev pub e_pointer : ℕ
e_pointer = 0x80004003

abbrev pub e_outofmemory : ℕ
e_outofmemory = 0x8007000E

abbrev pub e_unexpected : ℕ
e_unexpected = 0x8000FFFF

abbrev pub mf_e_invalidrequest : ℕ
mf_e_invalidrequest = 0xC00D36B2

abbrev pub mf_e_invalidtype : ℕ
mf_e_invalidtype = 0xC00D36BD

pub data MajorType : Type 0 where
  audio video other_type : MajorType

pub data TopologyStatus : Type 0 where
  topology_ready topology_started_source topology_ended topology_other : TopologyStatus

pub data EventType : Type 0 where
  session_topology_status end_of_presentation new_presentation session_ended : EventType
  session_closed other_event : EventType

-- What the platform answers to the n-th call: its HRESULT, and what it gives besides. For the call
-- that closes a session, `callbacks_in_wait` is how often it calls back before the player goes on.
pub record Platform : Type 0 where
  pub answer : ℕ → ℕ
  pub is_unknown : ℕ → Bool
  pub is_selected : ℕ → Bool
  pub stream_count : ℕ → ℕ
  pub major_type : ℕ → MajorType
  pub topology_status : ℕ → TopologyStatus
  pub event_type : ℕ → EventType
  pub event_status : ℕ → ℕ
  pub callbacks_in_wait : ℕ → ℕ

-- What a function does with a pointer parameter: it may write it.
pub data Out : Type 0 where
  untouched : Out
  written : Option ℕ → Out

abbrev pub apply_out : Out → Option ℕ → Option ℕ
apply_out untouched old = old
apply_out (written new) old = new

abbrev pub add_effect : Effect → World → World
add_effect e w = record w { log = e ∷ w.log }

abbrev pub made : Effect → World → World
made e w = record w { calls = suc w.calls; log = e ∷ w.log }

abbrev pub add_ref : Option ℕ → World → World
add_ref none w = w
add_ref (some n) w = add_effect (acquired n) w

-- The caller sets the pointer to NULL, or has done with it.
abbrev pub safe_release : Option ℕ → World → World
safe_release none w = w
safe_release (some n) w = add_effect (released n) w

-- A method of an object that the player keeps.
abbrev pub use_effect : Api → Option ℕ → Effect
use_effect api none = null_call api
use_effect api (some n) = used api n

-- What the steps of a function have come to: the world, its locals, and the last result.
abbrev pub Steps : Type 0 → Type 0
Steps F = World → F → (World × F) × ℕ

-- CHECK_HR: the next step is taken unless the last one failed.
infixr 5 ◌>>◌
abbrev pub ◌>>◌ : {F : Type 0} → Steps F → Steps F → Steps F
◌>>◌ a b w f = let ((v, g), hr) = a w f in if failed hr then ((v, g), hr) else b v g

module _ (p : Platform) {F : Type 0} where
  open p use {answer}

  abbrev pub ask : Api → Steps F
  ask api w f = ((made (called api) w, f), answer w.calls)

  -- A call that gives a new object, unless it fails.
  abbrev pub make : Api → (ℕ → F → F) → Steps F
  make api set w f =
      let v = made (called api) w in
      (
        (if failed (answer w.calls)
            then (v, f)
            else (add_effect (acquired w.calls) v, set w.calls f)),
        answer w.calls,
      )

  -- The same for a method of an object that the player keeps.
  abbrev pub ask_on : Api → (F → Option ℕ) → Steps F
  ask_on api object w f = ((made (use_effect api (object f)) w, f), answer w.calls)

  abbrev pub make_on : Api → (F → Option ℕ) → (ℕ → F → F) → Steps F
  make_on api object set w f =
      let v = made (use_effect api (object f)) w in
      (
        (if failed (answer w.calls)
            then (v, f)
            else (add_effect (acquired w.calls) v, set w.calls f)),
        answer w.calls,
      )

  -- A call of a function of the player's own.
  abbrev pub sub : (World → (World × Out) × ℕ) → (Out → F → F) → Steps F
  sub g set w f = let ((v, out), hr) = g w in ((v, set out f), hr)

  -- What cannot fail.
  abbrev pub change : (F → F) → Steps F
  change set w f = ((w, set f), s_ok)
