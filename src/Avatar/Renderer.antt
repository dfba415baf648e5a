-- ===== src/Avatar/Renderer.antt =====
-- AI_Avatar/frontend/renderers/PngSequenceRenderer.ts. Images, frame providers and the handles of
-- animation frames are numbers. A provider does not call the renderer while it is asked for a frame.
pub mod Drawing
pub mod Loop
mod Tests
use agent_speak.Base.{
  ℕ, suc, ◌+◌, ◌-◌, String, Bool, true, false, not, ◌&&◌, ◌||◌, List, [], ◌∷◌, ◌++◌, Option, none,
  some, str_eq, ◌==◌, if◌then◌else◌, keep, lookup, insert, is_some,
}
use agent_speak.Avatar.Events.{EventBus, empty_bus, AvatarEvent, renderer_failed, emit, clear}

pub record Renderer : Type 0 where
  pub bus : EventBus
  pub images : List (String × ℕ)
  pub animation_frame : Option ℕ
  pub provider : Option ℕ
  pub paused : Bool
  pub disposed : Bool
  pub last_drawn_frame : Option String
  -- The saves of the canvas that were not restored, and the callbacks that the browser is to call.
  pub saved : ℕ
  pub requested : List ℕ

pub data RendererError : Type 0 where
  bad_viewport no_canvas is_disposed : RendererError
  not_preloaded : String → RendererError
  canvas_failed : String → RendererError

pub data Done : Type 0 where
  done : Done
  failed : RendererError → Done

abbrev pub new_renderer : Renderer
new_renderer = record {
  bus = empty_bus;
  images = [];
  animation_frame = none;
  provider = none;
  paused = false;
  disposed = false;
  last_drawn_frame = none;
  saved = 0;
  requested = [];
}

-- The constructor; a size is positive or not, and the canvas has a 2D context or not.
unfoldable pub construct : Bool → Bool → Bool → Option Renderer × Done
construct width_positive height_positive has_context =
    if not width_positive || not height_positive
    then (none, failed bad_viewport)
    else if has_context
    then (some new_renderer, done)
    else (none, failed no_canvas)

abbrev pub add_all : List (String × ℕ) → List (String × ℕ) → List (String × ℕ)
add_all [] images = images
add_all ((k, i) ∷ more) images = add_all more (insert k i images)

unfoldable pub preload : List (String × ℕ) → Renderer → Renderer × Done
preload images r =
    if r.disposed
    then (r, failed is_disposed)
    else (record r { images = add_all images r.images }, done)

-- What the canvas does with a drawing: `save` fails, `drawImage` fails, or neither.
pub data Canvas : Type 0 where
  save_fails draw_fails : String → Canvas
  draws : Canvas

pub record Drawn : Type 0 where
  pub renderer : Renderer
  pub outcome : Done
  -- The listeners that were called, and the image that was drawn.
  pub calls : List (ℕ × AvatarEvent)
  pub image : Option ℕ

abbrev pub refuses : RendererError → Renderer → Drawn
refuses e r = record { renderer = r; outcome = failed e; calls = []; image = none }

abbrev pub save : Renderer → Renderer
save r = record r { saved = suc r.saved }

abbrev pub restore : Renderer → Renderer
restore r = record r { saved = r.saved - 1 }

unfoldable pub paint : Canvas → String → ℕ → Renderer → Drawn
paint (save_fails detail) frame_id image r = record {
  renderer = r;
  outcome = failed (canvas_failed detail);
  calls = emit r.bus (renderer_failed detail);
  image = none;
}
paint (draw_fails detail) frame_id image r = record {
  renderer = restore (save r);
  outcome = failed (canvas_failed detail);
  calls = emit r.bus (renderer_failed detail);
  image = none;
}
paint draws frame_id image r = record {
  renderer = restore (record (save r) { last_drawn_frame = some frame_id });
  outcome = done;
  calls = [];
  image = some image;
}

unfoldable pub draw : Canvas → String → Renderer → Drawn
unfolding paint
draw canvas frame_id r =
    if r.disposed then refuses is_disposed r else elim (lookup frame_id r.images) [
      | none ↦ refuses (not_preloaded frame_id) r
      | some image ↦ paint canvas frame_id image r
    ]

unfoldable pub stop_animation_frame : Renderer → Renderer
stop_animation_frame r = elim r.animation_frame [
  | none ↦ r
  | some handle ↦ record r {
    animation_frame = none;
    requested = keep (λ h. not (h == handle)) r.requested;
  }
]

-- `handle` is what the browser answers to the request.
unfoldable pub schedule : ℕ → Renderer → Renderer
schedule handle r =
    if r.paused || r.disposed || not (is_some r.provider)
    then r
    else record r { animation_frame = some handle; requested = handle ∷ r.requested }

unfoldable pub start : ℕ → ℕ → Renderer → Renderer × Done
unfolding stop_animation_frame schedule
start provider handle r =
    let ready = record (stop_animation_frame r) { provider = some provider; paused = false } in
    if r.disposed then (r, failed is_disposed) else (schedule handle ready, done)

unfoldable pub pause : Renderer → Renderer
unfolding stop_animation_frame
pause r = stop_animation_frame (record r { paused = true })

unfoldable pub resume : ℕ → Renderer → Renderer × Done
unfolding schedule
resume handle r =
    if r.disposed
    then (r, failed is_disposed)
    else if not (is_some r.provider) || not r.paused
    then (r, done)
    else (schedule handle (record r { paused = false }), done)

unfoldable pub restart : Canvas → String → Renderer → Drawn
unfolding draw
restart canvas frame_id r = draw canvas frame_id r

unfoldable pub dispose : Renderer → Renderer
unfolding stop_animation_frame clear
dispose r =
    if r.disposed
    then r
    else record (stop_animation_frame r) { disposed = true; images = []; bus = clear r.bus }

-- `frameId && frameId !== this.lastDrawnFrame`
abbrev pub is_new : Option String → Option String → Bool
is_new none last = false
is_new (some k) none = not (str_eq k "")
is_new (some k) (some j) = not (str_eq k "") && not (str_eq k j)

-- What the provider answers: nothing, a frame or an error.
pub data Provided : Type 0 where
  provided : Option String → Provided
  provider_failed : Provided

abbrev pub show : Canvas → Option String → Renderer → Drawn
show canvas none r = record { renderer = r; outcome = done; calls = []; image = none }
show canvas (some k) r =
    if is_new (some k) r.last_drawn_frame
    then draw canvas k r
    else record { renderer = r; outcome = done; calls = []; image = none }

-- After an error the next frame is not requested.
abbrev pub schedule_after : ℕ → Drawn → Renderer
schedule_after next d = elim d.outcome [ done ↦ schedule next d.renderer | failed e ↦ d.renderer ]

abbrev pub shown : Canvas → Provided → Renderer → Drawn
shown canvas (provided frame) r = show canvas frame r
shown canvas provider_failed r = refuses (canvas_failed "provider") r

-- The callback of the animation frame `handle`, once the browser calls it; `next` is the handle of
-- the next request.
unfoldable pub tick : Canvas → Provided → ℕ → ℕ → Renderer → Renderer
unfolding draw schedule
tick canvas answer handle next r =
    let fired = record r {
      animation_frame = none;
      requested = keep (λ h. not (h == handle)) r.requested;
    } in
    if not r.paused && is_some r.provider
    then schedule_after next (shown canvas answer fired)
    else schedule next fired
