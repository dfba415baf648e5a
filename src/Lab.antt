-- ===== src/Lab.antt =====
-- frontend/realtime/src/avatarLab/App.tsx: the motion lab once its assets are loaded. It has a scheduler and
-- a renderer; an animation frame asks the scheduler for the frame that the renderer draws. The
-- listeners of the scheduler's events show a snapshot that the one after the call replaces. A provider, a
-- listener and the handles of animation frames are numbers.
pub mod Session
pub mod Handlers
pub mod Pauses
mod Tests
use agent_speak.Base.{
  ℕ, ◌+◌, String, Bool, true, false, not, ◌&&◌, List, [], ◌∷◌, Option, none, some, is_some, str_eq,
  ◌==◌, if◌then◌else◌, keep,
}
use agent_speak.Base.Json.{gt_nat}
use agent_speak.Avatar.Types.{AvatarState, idle, same_state, AvatarManifest}
use agent_speak.Avatar.Events.{AvatarEvent, renderer_failed, on, EventName}
use agent_speak.Avatar.Scheduler.{
  ClipScheduler, Snapshot, new_scheduler, snapshot, select_state, advance,
}
use agent_speak.Avatar.Scheduler as Scheduler
use agent_speak.Avatar.Renderer.{
  Renderer, Canvas, Done, done, failed, not_preloaded, Drawn, construct, preload, draw, refuses,
  start, provided, shown, tick, dispose,
}
use agent_speak.Avatar.Renderer as Renderer

pub record Assets : Type 0 where
  pub manifest : AvatarManifest
  pub images : List (String × ℕ)
  pub is_ready : Bool

pub record Lab : Type 0 where
  pub assets_ready : Bool
  pub scheduler : ClipScheduler
  pub renderer : Renderer
  pub shown_snapshot : Option Snapshot
  pub shown_error : Option String

abbrev pub same_pending : Option AvatarState → Option AvatarState → Bool
same_pending none none = true
same_pending (some a) (some b) = same_state a b
same_pending _ _ = false

abbrev pub same_frame : Option String → Option String → Bool
same_frame none none = true
same_frame (some a) (some b) = str_eq a b
same_frame _ _ = false

abbrev pub same_flag : Bool → Bool → Bool
same_flag true b = b
same_flag false b = not b

unfoldable pub same_snapshot : Option Snapshot → Snapshot → Bool
same_snapshot none next = false
same_snapshot (some previous) next =
    same_state previous.playing_state next.playing_state
    && same_pending previous.pending_state next.pending_state
    && same_frame previous.frame_id next.frame_id
    && previous.frame_index == next.frame_index
    && same_flag previous.paused next.paused

unfoldable pub update : Lab → Lab
unfolding same_snapshot snapshot
update l =
    let next = snapshot l.scheduler in
    if same_snapshot l.shown_snapshot next then l else record l { shown_snapshot = some next }

-- No image is kept for the frame that is missing.
abbrev pub draw_frame : Canvas → Option String → Renderer → Drawn
draw_frame canvas none r = refuses (not_preloaded "undefined") r
draw_frame canvas (some frame_id) r = draw canvas frame_id r

abbrev pub started_lab : Assets → ℕ → ClipScheduler → Drawn → Option Lab
started_lab assets handle scheduler d = elim d.outcome [
  | failed cause ↦ none
  | done ↦
      let heard = record d.renderer { bus = on d.renderer.bus EventName.failed 0 } in
      some (record {
        assets_ready = assets.is_ready;
        scheduler = scheduler;
        renderer = (start 0 handle heard).0;
        shown_snapshot = some (snapshot scheduler);
        shown_error = none;
      })
]

abbrev pub mount_renderer : Assets → Canvas → ℕ → ClipScheduler → Option Renderer → Option Lab
mount_renderer assets canvas handle scheduler none = none
mount_renderer assets canvas handle scheduler (some r) =
    started_lab assets handle scheduler
      (draw_frame canvas (snapshot scheduler).frame_id (preload assets.images r).0)

-- The effect on the assets, or none if it throws.
unfoldable pub mount : Assets → Bool → Canvas → ℕ → Option Lab
unfolding construct
mount assets has_context canvas handle =
    let viewport = assets.manifest.viewport in
    mount_renderer assets canvas handle (new_scheduler assets.manifest idle)
      (construct (gt_nat viewport.width 0) (gt_nat viewport.height 0) has_context).0

abbrev pub hear_failures : List (ℕ × AvatarEvent) → Lab → Lab
hear_failures [] l = l
hear_failures ((listener, renderer_failed detail) ∷ calls) l =
    hear_failures calls (record l { shown_error = some detail })
hear_failures ((listener, _) ∷ calls) l = hear_failures calls l

abbrev pub fired : ℕ → Renderer → Renderer
fired handle r = record r {
  animation_frame = none;
  requested = keep (λ h. not (h == handle)) r.requested;
}

-- The callback of the animation frame `handle`, at the time `now`.
unfoldable pub animate : ℕ → ℕ → Canvas → ℕ → ℕ → Lab → Lab
unfolding update
animate units now canvas handle next l =
    let r = l.renderer in
    let (moved, frame, calls) = advance units l.scheduler now in
    let asked = hear_failures (shown canvas (provided frame) (fired handle r)).calls (
      update
        (record l { scheduler = moved; renderer = tick canvas (provided frame) handle next r })) in
    if not r.paused && is_some r.provider
    then asked
    else record l { renderer = tick canvas (provided none) handle next r }

-- The browser calls back if it is to.
abbrev pub animation_frame : ℕ → ℕ → Canvas → ℕ → List ℕ → Lab → Lab
animation_frame units now canvas next [] l = l
animation_frame units now canvas next (handle ∷ _) l = animate units now canvas handle next l

abbrev pub no_error : Option String → Bool
no_error none = true
no_error (some message) = str_eq message ""

abbrev pub is_ready : Lab → Bool
is_ready l = l.assets_ready && is_some l.shown_snapshot && no_error l.shown_error

unfoldable pub click_state : AvatarState → Lab → Lab
click_state state l =
    let (scheduler, selected, calls) = select_state l.scheduler state in
    let chosen = record l { scheduler = scheduler } in
    if selected then record chosen { shown_snapshot = some (snapshot scheduler) } else chosen

abbrev pub pause_lab : Lab → Lab
pause_lab l =
    let scheduler = Scheduler.pause l.scheduler in
    record l {
      scheduler = scheduler;
      renderer = Renderer.pause l.renderer;
      shown_snapshot = some (snapshot scheduler);
    }

abbrev pub resume_lab : ℕ → Lab → Lab
resume_lab handle l =
    let scheduler = Scheduler.resume l.scheduler in
    record l {
      scheduler = scheduler;
      renderer = (Renderer.resume handle l.renderer).0;
      shown_snapshot = some (snapshot scheduler);
    }

abbrev pub toggle_by : ℕ → Option Snapshot → Lab → Lab
toggle_by handle none l = l
toggle_by handle (some previous) l = if previous.paused then resume_lab handle l else pause_lab l

unfoldable pub toggle_pause : ℕ → Lab → Lab
toggle_pause handle l = toggle_by handle l.shown_snapshot l

-- A drawing that fails throws before the snapshot is shown.
abbrev pub restarted : ClipScheduler → Drawn → Lab → Lab
restarted scheduler d l =
    let drawn = record l { scheduler = scheduler; renderer = d.renderer } in
    elim d.outcome [
      | done ↦ record drawn { shown_snapshot = some (snapshot scheduler) }
      | failed cause ↦ hear_failures d.calls drawn
    ]

unfoldable pub restart : Canvas → Lab → Lab
restart canvas l =
    let scheduler = Scheduler.restart l.scheduler in
    restarted scheduler (draw_frame canvas (snapshot scheduler).frame_id l.renderer) l

-- The cleanup of the effect.
unfoldable pub unmount : Lab → Renderer
unmount l = dispose l.renderer
