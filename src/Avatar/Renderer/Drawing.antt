-- ===== src/Avatar/Renderer/Drawing.antt =====
-- AI_Avatar/frontend/renderers/PngSequenceRenderer.ts: the drawing of a frame.
use agent_speak.Base.{
  String, Bool, true, false, not, ◌&&◌, some, lookup, is_some, ◌≡◌, arith, if◌then◌else◌,
}
use agent_speak.Avatar.Renderer.{Renderer, Canvas, draws, paint, draw}

abbrev pub works : Canvas → Bool
works draws = true
works _ = false

-- Whatever the canvas does, a drawing restores what it saved and changes neither the loop nor the
-- images; the frame counts as drawn exactly when it was, which needs that the renderer is not
-- disposed of, that the image was preloaded and that the canvas does not fail.
draw-saved :
    (canvas : Canvas) (k : String) (r : Renderer)
    → let d = draw canvas k r in
      (d.renderer.saved ≡ r.saved)
      × (d.renderer.requested ≡ r.requested)
      × (d.renderer.animation_frame ≡ r.animation_frame)
      × (d.renderer.images ≡ r.images)
      × (d.renderer.last_drawn_frame ≡ (if is_some d.image then some k else r.last_drawn_frame))
      × (is_some d.image ≡ (not r.disposed && is_some (lookup k r.images) && works canvas))
unfolding draw paint
draw-saved canvas k r = ground arith
