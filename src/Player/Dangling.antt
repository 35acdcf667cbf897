-- ===== src/Player/Dangling.antt =====
-- A file that cannot be opened, and the source that the player had before (player.cpp, OpenMem).
use ad_manager.Base.{ℕ, ◌+◌, ◌≡◌, refl, ◌∙◌, inl, inr, true, false, arith, Bool-cases}
use ad_manager.Player.Com.{World, Platform, Steps, ◌>>◌, failed, Out, written, untouched, apply_out}
use ad_manager.Player.References.{gains, losses, holds, create_media_source-Grows, given, Grows}
use ad_manager.Player.State.{Player}
use ad_manager.Player.Playback.{
  end_open, new_source, set_source, new_byte_stream, new_mem_stream, resolve, Opening, build,
  open_steps, open_mem, opening,
}
use ad_manager.Player.Media.{create_media_source}
use ad_manager.Player.Owned.{Kept}
use ad_manager.Player.Opened.{early, is_written, replaces_source}

module _ (m : Platform) (p : ℕ) where
  -- Without a new source, the player's field is as before, and the local pointers to what was made
  -- hold all that was acquired.
  abbrev Stuck : World → Opening → (World × Opening) × ℕ → Type 0
  Stuck w f ((v, g), hr) =
      (failed hr ≡ true)
      × (g.player ≡ f.player)
      × (g.source_tmp ≡ f.source_tmp)
      × Kept m p (early m p) w f ((v, g), hr)

  Stuck-then :
      (a b : Steps Opening) (w : World) (f : Opening) → Stuck w f (a w f) → Stuck w f ((a >> b) w f)
  Stuck-then a b w f stuck = rw (stuck.0) stuck

  then-Stuck :
      (a b : Steps Opening) (w : World) (f : Opening)
      → failed (a w f).1 ≡ false
      → (a w f).0.1.player ≡ f.player
      → (a w f).0.1.source_tmp ≡ f.source_tmp
      → Kept m p (early m p) w f (a w f)
      → Stuck (a w f).0.0 (a w f).0.1 (b (a w f).0.0 (a w f).0.1)
      → Stuck w f ((a >> b) w f)
  then-Stuck a b w f ok same same_tmp kept (bad, same', same_tmp', kept') =
      rw ok (bad, same' ∙ same, same_tmp' ∙ same_tmp, ground arith)

  create_media_source-fails :
      (w : World)
      → is_written (create_media_source m w).0.1 ≡ false
      → failed (create_media_source m w).1 ≡ true
  unfolding create_media_source
  create_media_source-fails w e = ground arith

  unwritten-Stuck :
      (w : World) (f : Opening) (r : (World × Out) × ℕ)
      → is_written r.0.1 ≡ false
      → failed r.1 ≡ true
      → Grows p w r.0.0 (given p r.0.1)
      → Stuck w f ((r.0.0, set_source (apply_out r.0.1 f.player.source) f), r.1)
  unwritten-Stuck w f ((v, untouched), hr) e bad grows = (bad, refl, refl, omega arith)
  unwritten-Stuck w f ((v, written s), hr) e bad grows = absurd (ground arith)

  new_source-Stuck :
      (w : World) (f : Opening)
      → is_written (create_media_source m w).0.1 ≡ false
      → Stuck w f (new_source m w f)
  new_source-Stuck w f e =
      unwritten-Stuck w f (create_media_source m w) e (create_media_source-fails w e)
        (create_media_source-Grows m p w)

  open_steps-Stuck :
      (w : World) (x : Player)
      → replaces_source m w (opening m x) ≡ false
      → Stuck w (opening m x) (open_steps m w (opening m x))
  unfolding open_steps resolve
  open_steps-Stuck w x e =
      let f = opening m x in
      let ((v, g), hr) = new_mem_stream m w f in
      let ((u, h), hr') = new_byte_stream m v g in
      elim (Bool-cases (failed hr)) [
        | inl bad ↦
            Stuck-then (new_mem_stream m) (new_byte_stream m >> resolve m) w f (ground arith)
        | inr ok ↦
            then-Stuck (new_mem_stream m) (new_byte_stream m >> resolve m) w f ok (ground arith)
              (ground arith) (ground arith)
              (elim (Bool-cases (failed hr')) [
                | inl bad ↦ Stuck-then (new_byte_stream m) (resolve m) v g (ground arith)
                | inr ok' ↦
                    then-Stuck (new_byte_stream m) (resolve m) v g ok' (ground arith) (ground arith)
                      (ground arith)
                      (Stuck-then (new_source m) (build m) u h
                        (new_source-Stuck u h (ground arith)))
              ])
      ]

  end_open-Stuck :
      (w : World) (x : Player) (r : (World × Opening) × ℕ)
      → Stuck w (opening m x) r
      → let ((v, y), hr) = end_open m r in
        (y.source ≡ x.source)
        × (gains p v.log + losses p w.log + holds p x.source ≡ gains p w.log + losses p v.log)
  end_open-Stuck w x ((v, g), hr) (bad, same, same_tmp, kept) =
      rw bad (rw same (refl, rw same_tmp (ground arith)))

  -- When the streams or the source for a file cannot be made, OpenMem still leaves the old source in
  -- its field, but has released the reference to it, and so has given away one more than the fields
  -- tell.
  pub open_mem-dangling :
      (w : World) (x : Player)
      → replaces_source m w (opening m x) ≡ false
      → let ((v, y), hr) = open_mem m w x in
        (y.source ≡ x.source)
        × (gains p v.log + losses p w.log + holds p x.source ≡ gains p w.log + losses p v.log)
  unfolding open_mem
  open_mem-dangling w x e =
      end_open-Stuck w x (open_steps m w (opening m x)) (open_steps-Stuck w x e)
