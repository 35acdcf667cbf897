-- ===== src/Player/Faults.antt =====
-- No call goes through a null pointer while the player has a session (player.cpp), and none of the
-- commands makes one at all.
use ad_manager.Base.{ℕ, ◌≡◌, refl, false, Option, none, some, arith}
use ad_manager.Manager.Types.{PlayItem}
use ad_manager.Player.Com.{World, Platform, Steps, ◌>>◌, failed, apply_out, safe_release}
use ad_manager.Player.Media.{create_media_source}
use ad_manager.Player.State.{Player, is_null}
use ad_manager.Player.{notify_play}
use ad_manager.Player.Playback.{
  Opening, describe, present, new_source, new_byte_stream, new_mem_stream, resolve, build,
  open_steps, open_mem, opening, end_open, play, pause, stop, start_playback,
}
use ad_manager.Player.Events.{
  begin_session, close_session, create_session, shutdown, play_next, open_item,
}
use ad_manager.Player.Posted.{close_call-IsQuiet}
use ad_manager.Player.Guards.{
  IsQuiet, create_media_source-IsQuiet, create_playback_topology-IsQuiet,
}

module _ (m : Platform) where
  pub play-IsQuiet : (w : World) (x : Player) → IsQuiet w (play m w x).0.0
  unfolding play start_playback
  play-IsQuiet w x = ground arith

  pub pause-IsQuiet : (w : World) (x : Player) → IsQuiet w (pause m w x).0.0
  unfolding pause
  pause-IsQuiet w x = ground arith

  pub stop-IsQuiet : (w : World) (x : Player) → IsQuiet w (stop m w x).0.0
  unfolding stop
  stop-IsQuiet w x = ground arith

  close_session-IsQuiet : (w : World) (x : Player) → IsQuiet w (close_session m w x).0.0
  unfolding close_session
  close_session-IsQuiet w x =
      let y : Player = record x { display = none } in
      ground (arith, close_call-IsQuiet m x.session (safe_release x.display w) y)

  pub shutdown-IsQuiet : (w : World) (x : Player) → IsQuiet w (shutdown m w x).0.0
  unfolding shutdown
  shutdown-IsQuiet w x = ground (arith, close_session-IsQuiet w x)

  pub create_session-IsQuiet : (w : World) (x : Player) → IsQuiet w (create_session m w x).0.0
  unfolding create_session begin_session
  create_session-IsQuiet w x = ground (arith, close_session-IsQuiet w x)

  -- While the session is the one that is given.
  module _ (s : ℕ) where
    -- The session stays, and no call has gone through a null pointer.
    abbrev pub Stays : {F : Type 0} → (F → Player) → World → (World × F) × ℕ → Type 0
    Stays player w ((v, f), hr) = ((player f).session ≡ some s) × IsQuiet w v

    pub Stays-then :
        {F : Type 0} (player : F → Player) (a b : Steps F) (w : World) (f : F)
        → Stays player w (a w f)
        → (failed (a w f).1 ≡ false → Stays player (a w f).0.0 (b (a w f).0.0 (a w f).0.1))
        → Stays player w ((a >> b) w f)
    Stays-then player a b w f first second = ground arith

    abbrev of_opening : Opening → Player
    of_opening f = f.player

    present-Stays :
        (w : World) (f : Opening) → f.player.session ≡ some s → Stays of_opening w (present m w f)
    unfolding present
    present-Stays w f e = ground (arith, create_playback_topology-IsQuiet m w)

    build-Stays :
        (w : World) (f : Opening)
        → f.player.session ≡ some s
        → is_null f.player.source ≡ false
        → Stays of_opening w (build m w f)
    unfolding build
    build-Stays w f e e' =
        let ((v, g), hr) = describe m w f in
        Stays-then of_opening (describe m) (present m) w f (ground arith)
          (λ ok. present-Stays v g (ground arith))

    -- A source resolver that succeeds gives a source.
    create_media_source-is_null :
        (w : World) (old : Option ℕ)
        → failed (create_media_source m w).1 ≡ false
        → is_null (apply_out (create_media_source m w).0.1 old) ≡ false
    unfolding create_media_source
    create_media_source-is_null w old ok = ground arith

    resolve-Stays :
        (w : World) (f : Opening) → f.player.session ≡ some s → Stays of_opening w (resolve m w f)
    unfolding resolve
    resolve-Stays w f e =
        let ((v, g), hr) = new_source m w f in
        Stays-then of_opening (new_source m) (build m) w f
          (ground (arith, create_media_source-IsQuiet m w))
          (λ ok. build-Stays v g e (create_media_source-is_null w f.player.source ok))

    open_steps-Stays :
        (w : World) (f : Opening)
        → f.player.session ≡ some s
        → Stays of_opening w (open_steps m w f)
    unfolding open_steps
    open_steps-Stays w f e =
        let ((v, g), hr) = new_mem_stream m w f in
        let ((u, h), hr') = new_byte_stream m v g in
        Stays-then of_opening (new_mem_stream m) (new_byte_stream m >> resolve m) w f (ground arith)
          (λ ok.
            Stays-then of_opening (new_byte_stream m) (resolve m) v g (ground arith)
              (λ ok'. resolve-Stays u h (ground arith)))

    abbrev pub itself : Player → Player
    itself x = x

    end_open-Stays :
        (w : World) (r : (World × Opening) × ℕ)
        → Stays of_opening w r
        → Stays itself w (end_open m r)
    end_open-Stays w ((v, f), hr) k = ground arith

    open_mem-Stays : (w : World) (x : Player) → x.session ≡ some s → Stays itself w (open_mem m w x)
    unfolding open_mem
    open_mem-Stays w x e =
        end_open-Stays w (open_steps m w (opening m x)) (open_steps-Stays w (opening m x) e)

    abbrev pub StaysIn : World → World × Player → Type 0
    StaysIn w (v, y) = (y.session ≡ some s) × IsQuiet w v

    open_item-Stays :
        (it : Option PlayItem) (w : World) (x : Player)
        → x.session ≡ some s
        → StaysIn w (open_item m it w x)
    open_item-Stays none w x e = (e, refl)
    open_item-Stays (some it) w x e = open_mem-Stays w x e

    pub play_next-Stays :
        (w : World) (x : Player) → x.session ≡ some s → StaysIn w (play_next m w x)
    unfolding play_next
    play_next-Stays w x e =
        let (items, it) = notify_play x.play_list in
        open_item-Stays it w (record x { play_list = items }) e
