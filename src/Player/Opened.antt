-- ===== src/Player/Opened.antt =====
-- What opening a file does to the references that the player holds (player.cpp, OpenMem).
use ad_manager.Base.{ℕ, ◌+◌, ◌≡◌, Bool, true, false, not, ◌&&◌, none, arith}
use ad_manager.Player.Com.{World, Platform, Steps, ◌>>◌, failed, Out, written, untouched}
use ad_manager.Player.References.{
  gains, losses, holds, create_media_source-Grows, create_playback_topology-Grows,
}
use ad_manager.Player.State.{Player}
use ad_manager.Player.Playback.{
  end_open, describe, present, new_source, new_byte_stream, new_mem_stream, resolve, Opening, build,
  open_steps, open_mem, opening,
}
use ad_manager.Player.Media.{create_media_source}
use ad_manager.Player.Owned.{fields, Kept, Kept-then}

abbrev pub is_written : Out → Bool
is_written untouched = false
is_written (written x) = true

module _ (m : Platform) where
  -- The steps get as far as the interface of the new source, and so the player's field is written.
  abbrev pub replaces_source : World → Opening → Bool
  replaces_source w f =
      let ((v, g), hr) = new_mem_stream m w f in
      let ((u, h), hr') = new_byte_stream m v g in
      not (failed hr) && not (failed hr') && is_written (create_media_source m u).0.1

module _ (m : Platform) (p : ℕ) where
  -- Without the source that was played before, which is still the player's.
  abbrev pub early : Opening → ℕ
  early f =
      fields m p f.player
      + holds p f.mem_stream
      + holds p f.byte_stream
      + holds p f.topology
      + holds p f.source_pd

  abbrev opened : Opening → ℕ
  opened f = early f + holds p f.source_tmp

  present-Kept : (w : World) (f : Opening) → f.topology ≡ none → Kept m p opened w f (present m w f)
  unfolding present
  present-Kept w f e = ground (arith, create_playback_topology-Grows m p w)

  build-Kept :
      (w : World) (f : Opening)
      → f.topology ≡ none
      → f.source_pd ≡ none
      → Kept m p opened w f (build m w f)
  unfolding build
  build-Kept w f e e' =
      let ((v, g), hr) = describe m w f in
      Kept-then m p opened (describe m) (present m) w f (ground arith)
        (λ ok. present-Kept v g (ground arith))

  -- The steps up to the new source, from a player that has none.
  resolve-Kept :
      (w : World) (f : Opening)
      → f.player.source ≡ none
      → f.topology ≡ none
      → f.source_pd ≡ none
      → Kept m p opened w f (resolve m w f)
  unfolding resolve
  resolve-Kept w f s e e' =
      let ((v, g), hr) = new_source m w f in
      Kept-then m p opened (new_source m) (build m) w f
        (ground (arith, create_media_source-Grows m p w)) (λ ok. build-Kept v g e e')

  -- What has become of the first measure of the locals is the second.
  abbrev Moved : {F : Type 0} → (F → ℕ) → (F → ℕ) → World → F → (World × F) × ℕ → Type 0
  Moved old new w f ((v, g), hr) =
      gains p v.log + losses p w.log + old f ≡ gains p w.log + losses p v.log + new g

  then-Moved :
      {F : Type 0} (old new : F → ℕ) (a b : Steps F) (w : World) (f : F)
      → Moved old new w f (a w f)
      → (failed (a w f).1 ≡ false
          → Kept m p new (a w f).0.0 (a w f).0.1 (b (a w f).0.0 (a w f).0.1))
      → Moved old new w f ((a >> b) w f)
  then-Moved old new a b w f first second = ground arith

  Moved-then :
      {F : Type 0} (old new : F → ℕ) (a b : Steps F) (w : World) (f : F)
      → failed (a w f).1 ≡ false
      → Kept m p old w f (a w f)
      → Moved old new (a w f).0.0 (a w f).0.1 (b (a w f).0.0 (a w f).0.1)
      → Moved old new w f ((a >> b) w f)
  Moved-then old new a b w f ok first second = ground arith

  -- The old source passes from the player to the local pointer that names it.
  new_source-Moved :
      (w : World) (f : Opening)
      → f.source_tmp ≡ f.player.source
      → is_written (create_media_source m w).0.1 ≡ true
      → Moved early opened w f (new_source m w f)
  new_source-Moved w f s e = ground (arith, create_media_source-Grows m p w)

  resolve-Moved :
      (w : World) (f : Opening)
      → f.source_tmp ≡ f.player.source
      → f.topology ≡ none
      → f.source_pd ≡ none
      → is_written (create_media_source m w).0.1 ≡ true
      → Moved early opened w f (resolve m w f)
  unfolding resolve
  resolve-Moved w f s e e' is_new =
      let ((v, g), hr) = new_source m w f in
      then-Moved early opened (new_source m) (build m) w f (new_source-Moved w f s is_new)
        (λ ok. build-Kept v g e e')

  open_steps-Moved :
      (w : World) (x : Player)
      → replaces_source m w (opening m x) ≡ true
      → Moved early opened w (opening m x) (open_steps m w (opening m x))
  unfolding open_steps
  open_steps-Moved w x is_new =
      let f = opening m x in
      let ((v, g), hr) = new_mem_stream m w f in
      let ((u, h), hr') = new_byte_stream m v g in
      Moved-then early opened (new_mem_stream m) (new_byte_stream m >> resolve m) w f (ground arith)
        (ground arith)
        (Moved-then early opened (new_byte_stream m) (resolve m) v g (ground arith) (ground arith)
          (resolve-Moved u h (ground arith) (ground arith) (ground arith) (ground arith)))

  open_steps-Kept :
      (w : World) (x : Player)
      → x.source ≡ none
      → Kept m p opened w (opening m x) (open_steps m w (opening m x))
  unfolding open_steps
  open_steps-Kept w x e =
      let f = opening m x in
      let ((v, g), hr) = new_mem_stream m w f in
      let ((u, h), hr') = new_byte_stream m v g in
      Kept-then m p opened (new_mem_stream m) (new_byte_stream m >> resolve m) w f (ground arith)
        (λ ok.
          Kept-then m p opened (new_byte_stream m) (resolve m) v g (ground arith)
            (λ ok'. resolve-Kept u h (ground arith) (ground arith) (ground arith)))

  -- The locals are released at the end, the old source among them.
  end_open-Kept :
      (w : World) (r : (World × Opening) × ℕ) (n : ℕ)
      → (let ((v, g), hr) = r in
          gains p v.log + losses p w.log + n ≡ gains p w.log + losses p v.log + opened g)
      → let ((v, y), hr) = end_open m r in
        gains p v.log + losses p w.log + n ≡ gains p w.log + losses p v.log + fields m p y
  end_open-Kept w ((v, g), hr) n e = ground arith

  pub open_mem-Kept :
      (w : World) (x : Player)
      → replaces_source m w (opening m x) ≡ true
      → Kept m p (fields m p) w x (open_mem m w x)
  unfolding open_mem
  open_mem-Kept w x ok =
      end_open-Kept w (open_steps m w (opening m x)) (fields m p x)
        (omega (arith, open_steps-Moved w x ok))

  pub open_mem-Kept_fresh :
      (w : World) (x : Player) → x.source ≡ none → Kept m p (fields m p) w x (open_mem m w x)
  unfolding open_mem
  open_mem-Kept_fresh w x e =
      end_open-Kept w (open_steps m w (opening m x)) (fields m p x)
        (ground (arith, open_steps-Kept w x e))
