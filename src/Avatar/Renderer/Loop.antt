-- ===== src/Avatar/Renderer/Loop.antt =====
-- AI_Avatar/frontend/renderers/PngSequenceRenderer.ts: the loop of animation frames.
use agent_speak.Base.{
  ℕ, String, Bool, true, false, not, ◌&&◌, List, [], ◌∷◌, Option, none, some, is_some, ◌≡◌, refl,
  ◌∙◌, arith, Option-cases, Bool-cases, inl, inr, ◌==◌, keep, lookup, str_eq, eq_iff,
}
use agent_speak.Avatar.Renderer.{
  Renderer, Canvas, draws, Provided, provided, provider_failed, Drawn, new_renderer, preload, draw,
  paint, start, pause, resume, dispose, tick, schedule, stop_animation_frame, schedule_after, shown,
  is_new,
}

abbrev pub held : Option ℕ → List ℕ
held none = []
held (some k) = k ∷ []

-- Whether a callback may be requested.
abbrev pub runs : Renderer → Bool
runs r = is_some r.provider && not r.paused && not r.disposed

-- The browser is to call back for the frame that the renderer holds and for no other, and for none
-- unless the loop runs.
pub record IsSingle (r : Renderer) : Type 0 where
  pub requests : r.requested ≡ held r.animation_frame
  pub idle : runs r ≡ false → r.animation_frame ≡ none

pub data Operation : Type 0 where
  starts : ℕ → ℕ → Operation
  pauses disposes : Operation
  resumes : ℕ → Operation
  draws_frame : Canvas → String → Operation
  preloads : List (String × ℕ) → Operation
  -- The browser calls back, if it is to.
  ticks : Canvas → Provided → ℕ → Operation

abbrev pub called_back : Canvas → Provided → ℕ → List ℕ → Renderer → Renderer
called_back canvas answer next [] r = r
called_back canvas answer next (handle ∷ _) r = tick canvas answer handle next r

unfoldable pub apply : Renderer → Operation → Renderer
unfolding start pause resume dispose preload draw tick
apply r (starts provider handle) = (start provider handle r).0
apply r pauses = pause r
apply r disposes = dispose r
apply r (resumes handle) = (resume handle r).0
apply r (draws_frame canvas k) = (draw canvas k r).renderer
apply r (preloads images) = (preload images r).0
apply r (ticks canvas answer next) = called_back canvas answer next r.requested r

abbrev pub run : Renderer → List Operation → Renderer
run r [] = r
run r (o ∷ os) = run (apply r o) os

stop-none :
    (r : Renderer)
    → IsSingle r
    → ((stop_animation_frame r).requested ≡ []) × ((stop_animation_frame r).animation_frame ≡ none)
unfolding stop_animation_frame
stop-none r s = ground arith

schedule-IsSingle :
    (handle : ℕ) (r : Renderer)
    → r.requested ≡ []
    → r.animation_frame ≡ none
    → IsSingle (schedule handle r)
unfolding schedule
schedule-IsSingle handle r q a = ground arith

-- A drawing does not touch the loop.
pub draw-loop :
    (canvas : Canvas) (k : String) (r : Renderer)
    → let s = (draw canvas k r).renderer in
      (s.requested ≡ r.requested)
      × (s.animation_frame ≡ r.animation_frame)
      × (s.provider ≡ r.provider)
      × (s.paused ≡ r.paused)
      × (s.disposed ≡ r.disposed)
unfolding draw paint
draw-loop canvas k r = ground arith

shown-loop :
    (canvas : Canvas) (answer : Provided) (r : Renderer)
    → let s = (shown canvas answer r).renderer in
      (s.requested ≡ r.requested) × (s.animation_frame ≡ r.animation_frame)
shown-loop canvas provider_failed r = (refl, refl)
shown-loop canvas (provided none) r = (refl, refl)
shown-loop canvas (provided (some k)) r = ground (arith, draw-loop canvas k r)

schedule_after-IsSingle :
    (next : ℕ) (d : Drawn)
    → d.renderer.requested ≡ []
    → d.renderer.animation_frame ≡ none
    → IsSingle (schedule_after next d)
schedule_after-IsSingle next d q a = ground (arith, schedule-IsSingle next d.renderer q a)

pub tick-IsSingle :
    (canvas : Canvas) (answer : Provided) (handle next : ℕ) (r : Renderer)
    → r.requested ≡ handle ∷ []
    → IsSingle (tick canvas answer handle next r)
unfolding tick
tick-IsSingle canvas answer handle next r q =
    let fired : Renderer = record r {
      animation_frame = none;
      requested = keep (λ h. not (h == handle)) r.requested;
    } in
    let empty : fired.requested ≡ [] = ground arith in
    let l = shown-loop canvas answer fired in
    elim (Bool-cases (not r.paused && is_some r.provider)) [
      | inl e ↦ rw e (schedule_after-IsSingle next (shown canvas answer fired) (l.0 ∙ empty) l.1)
      | inr e ↦ rw e (schedule-IsSingle next fired empty refl)
    ]

pub start-IsSingle :
    (provider handle : ℕ) (r : Renderer) → IsSingle r → IsSingle (start provider handle r).0
unfolding start schedule
start-IsSingle provider handle r s = ground (arith, stop-none r s)

pub resume-IsSingle : (handle : ℕ) (r : Renderer) → IsSingle r → IsSingle (resume handle r).0
unfolding resume schedule
resume-IsSingle handle r s = ground arith

pub pause-IsSingle : (r : Renderer) → IsSingle r → IsSingle (pause r)
unfolding pause stop_animation_frame
pause-IsSingle r s = ground arith

dispose-IsSingle : (r : Renderer) → IsSingle r → IsSingle (dispose r)
unfolding dispose stop_animation_frame
dispose-IsSingle r s = ground arith

pub preload-IsSingle :
    (images : List (String × ℕ)) (r : Renderer) → IsSingle r → IsSingle (preload images r).0
unfolding preload
preload-IsSingle images r s = ground arith

pub draw-IsSingle :
    (canvas : Canvas) (k : String) (r : Renderer) → IsSingle r → IsSingle (draw canvas k r).renderer
draw-IsSingle canvas k r s = ground (arith, draw-loop canvas k r)

called_back-IsSingle :
    (canvas : Canvas) (answer : Provided) (next : ℕ) (hs : List ℕ) (r : Renderer)
    → r.requested ≡ hs
    → IsSingle r
    → IsSingle (called_back canvas answer next hs r)
called_back-IsSingle canvas answer next [] r e s = s
called_back-IsSingle canvas answer next (h ∷ hs) r e s = elim (Option-cases r.animation_frame) [
  | inl a ↦ absurd (ground arith)
  | inr (k, a) ↦ tick-IsSingle canvas answer h next r (ground arith)
]

apply-IsSingle : (r : Renderer) (o : Operation) → IsSingle r → IsSingle (apply r o)
unfolding apply
apply-IsSingle r (starts provider handle) s = start-IsSingle provider handle r s
apply-IsSingle r pauses s = pause-IsSingle r s
apply-IsSingle r disposes s = dispose-IsSingle r s
apply-IsSingle r (resumes handle) s = resume-IsSingle handle r s
apply-IsSingle r (draws_frame canvas k) s = draw-IsSingle canvas k r s
apply-IsSingle r (preloads images) s = preload-IsSingle images r s
apply-IsSingle r (ticks canvas answer next) s =
    called_back-IsSingle canvas answer next r.requested r refl s

run-IsSingle : (r : Renderer) (os : List Operation) → IsSingle r → IsSingle (run r os)
run-IsSingle r [] s = s
run-IsSingle r (o ∷ os) s = run-IsSingle (apply r o) os (apply-IsSingle r o s)

-- Whatever is called on a new renderer, and whatever the provider and the canvas do, at most one
-- callback is outstanding, which is that of the frame that the renderer holds, and none is while it
-- is paused, has no provider or is disposed of.
pub run-new_renderer : (os : List Operation) → IsSingle (run new_renderer os)
run-new_renderer os = run-IsSingle new_renderer os (record { requests = refl; idle = λ h. refl })

is_new-false :
    (k : String) (last : Option String)
    → str_eq k "" ≡ false
    → is_new (some k) last ≡ false
    → last ≡ some k
is_new-false k none e h = ground arith
is_new-false k (some j) e h = ground (arith, eq_iff k j)

-- A callback of a running loop shows the provider's frame, if it was preloaded and the canvas does not
-- fail, and requests the next callback.
tick-goes_on :
    (k : String) (image handle next : ℕ) (r : Renderer)
    → runs r ≡ true
    → lookup k r.images ≡ some image
    → str_eq k "" ≡ false
    → r.requested ≡ handle ∷ []
    → let after = tick draws (provided (some k)) handle next r in
      (after.last_drawn_frame ≡ some k)
      × (after.requested ≡ next ∷ [])
      × (after.animation_frame ≡ some next)
unfolding tick draw paint schedule
tick-goes_on k image handle next r go i l q = ground (arith, is_new-false k r.last_drawn_frame l)

-- An error of the provider or of a drawing ends the loop: no callback is outstanding, though the
-- renderer is neither paused nor disposed of, so a pause and a resume are needed to go on.
tick-stops :
    (canvas : Canvas) (handle next : ℕ) (r : Renderer)
    → runs r ≡ true
    → r.requested ≡ handle ∷ []
    → let after = tick canvas provider_failed handle next r in
      (after.requested ≡ [])
      × ((resume next after).0.requested ≡ [])
      × ((resume next (pause after)).0.requested ≡ next ∷ [])
unfolding tick resume pause schedule stop_animation_frame
tick-stops canvas handle next r go q = ground arith
