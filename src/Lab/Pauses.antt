-- ===== src/Lab/Pauses.antt =====
-- frontend/realtime/src/avatarLab/App.tsx: the button, the scheduler and the renderer agree on the pause.
use mathlib.Core.Path.{subst}
use agent_speak.Base.{
  ℕ, String, Bool, true, false, not, List, Option, none, some, if◌then◌else◌, ◌≡◌, refl, sym, ◌∙◌,
  arith,
}
use agent_speak.Base.Json.{gt_nat}
use agent_speak.Avatar.Types.{idle}
use agent_speak.Avatar.Events.{EventName, on}
use agent_speak.Avatar.Scheduler.{
  ClipScheduler, Snapshot, new_scheduler, snapshot, select_state, advance,
}
use agent_speak.Avatar.Scheduler as Scheduler
use agent_speak.Avatar.Renderer.{
  Renderer, Canvas, Done, done, failed, Drawn, construct, new_renderer, preload, start,
  stop_animation_frame, schedule,
}
use agent_speak.Avatar.Renderer.Loop.{IsSingle, start-IsSingle, preload-IsSingle}
use agent_speak.Lab.{
  Assets, Lab, draw_frame, started_lab, mount_renderer, mount, pause_lab, resume_lab, toggle_by,
  toggle_pause,
}
use agent_speak.Lab.Session.{Event, run, Says, IsInStep}
use agent_speak.Lab.Handlers.{
  pause_lab-IsInStep, resume_lab-IsInStep, draw_frame-SameUse, draw_frame-IsSingle, run-IsInStep,
}

abbrev Mounted : Option Lab → Type 0
Mounted none = Unit
Mounted (some l) = IsInStep l

started_lab-Mounted :
    (assets : Assets) (handle : ℕ) (s : ClipScheduler) (d : Drawn)
    → s.paused ≡ false
    → (d.renderer.paused ≡ false) × (d.renderer.disposed ≡ false)
    → IsSingle d.renderer
    → Mounted (started_lab assets handle s d)
unfolding snapshot start schedule stop_animation_frame
started_lab-Mounted assets handle s d e u i = by_outcome d.outcome
  where
    by_outcome :
        (o : Done)
        → Mounted (elim o [
          | failed cause ↦ none
          | done ↦ some (record {
            assets_ready = assets.is_ready;
            scheduler = s;
            renderer =
                (start 0 handle
                  (record d.renderer { bus = on d.renderer.bus EventName.failed 0 })).0;
            shown_snapshot = some (snapshot s);
            shown_error = none;
          })
        ])
    by_outcome (failed cause) = tt
    by_outcome done = record {
      shown_paused = refl;
      drawn_paused = ground (arith, u, e);
      in_use = (ground (arith, u), ground (arith, u));
      single =
          start-IsSingle 0 handle (record d.renderer { bus = on d.renderer.bus EventName.failed 0 })
            (record { requests = i.requests; idle = i.idle });
    }

preloaded :
    (images : List (String × ℕ))
    → let r = (preload images new_renderer).0 in (r.paused ≡ false) × (r.disposed ≡ false)
unfolding preload
preloaded images = (refl, refl)

drawn-Mounted :
    (assets : Assets) (canvas : Canvas) (handle : ℕ) (s : ClipScheduler) (r : Renderer)
    → s.paused ≡ false
    → (r.paused ≡ false) × (r.disposed ≡ false)
    → IsSingle r
    → Mounted (started_lab assets handle s (draw_frame canvas (snapshot s).frame_id r))
drawn-Mounted assets canvas handle s r e u i =
    let frame = (snapshot s).frame_id in
    let k = draw_frame-SameUse canvas frame r in
    started_lab-Mounted assets handle s (draw_frame canvas frame r) e
      (k.same_paused ∙ u.0, k.same_disposed ∙ u.1) (draw_frame-IsSingle canvas frame r i)

new_renderer-IsSingle : IsSingle new_renderer
new_renderer-IsSingle = record { requests = refl; idle = λ h. refl }

mount-Mounted :
    (assets : Assets) (has_context : Bool) (canvas : Canvas) (handle : ℕ)
    → Mounted (mount assets has_context canvas handle)
unfolding mount construct
mount-Mounted assets has_context canvas handle =
    constructed (gt_nat assets.manifest.viewport.width 0) (gt_nat assets.manifest.viewport.height 0)
      has_context
  where
    constructed :
        (w h c : Bool)
        → Mounted (
            mount_renderer assets canvas handle
              (new_scheduler assets.manifest idle)
              (construct w h c).0)
    constructed true true true =
        drawn-Mounted assets canvas handle (new_scheduler assets.manifest idle)
          (preload assets.images new_renderer).0 refl (preloaded assets.images)
          (preload-IsSingle assets.images new_renderer new_renderer-IsSingle)
    constructed true true false = tt
    constructed true false c = tt
    constructed false h c = tt

-- In a lab that was mounted, whatever is clicked and whatever the canvas does: the button shows the pause
-- of the scheduler, the renderer is paused with it, and at most one callback of an animation frame is to
-- come, and none during a pause.
pub run-mount :
    (assets : Assets) (has_context : Bool) (canvas : Canvas) (handle : ℕ) (l : Lab)
    (es : List Event)
    → mount assets has_context canvas handle ≡ some l
    → IsInStep (run l es)
run-mount assets has_context canvas handle l es e =
    run-IsInStep l es (subst Mounted e (mount-Mounted assets has_context canvas handle))

-- The three agree on a pause.
abbrev pub Agree : Bool → Lab → Type 0
Agree paused l =
    (l.scheduler.paused ≡ paused) × (l.renderer.paused ≡ paused) × Says paused l.shown_snapshot

toggle_by-Agree :
    (handle : ℕ) (p : Option Snapshot) (l : Lab)
    → Says l.scheduler.paused p
    → IsInStep l
    → Agree (not l.scheduler.paused) (toggle_by handle p l)
unfolding snapshot agent_speak.Avatar.Scheduler.pause agent_speak.Avatar.Scheduler.resume
toggle_by-Agree handle none l h k = absurd h
toggle_by-Agree handle (some p) l h k = by_pause p.paused h
  where
    by_pause :
        (b : Bool)
        → b ≡ l.scheduler.paused
        → Agree (not l.scheduler.paused) (if b then resume_lab handle l else pause_lab l)
    by_pause true e =
        let turned : not l.scheduler.paused ≡ false = ground arith in
        let after = resume_lab-IsInStep handle l k in
        (sym turned, after.drawn_paused ∙ sym turned, sym turned)
    by_pause false e =
        let turned : not l.scheduler.paused ≡ true = ground arith in
        let after = pause_lab-IsInStep l k in
        (sym turned, after.drawn_paused ∙ sym turned, sym turned)

-- In such a lab the click on the button turns the pause over, for the scheduler, the renderer and the
-- button alike.
pub run-toggle_pause :
    (assets : Assets) (has_context : Bool) (canvas : Canvas) (handle next : ℕ) (l : Lab)
    (es : List Event)
    → mount assets has_context canvas handle ≡ some l
    → Agree (not (run l es).scheduler.paused) (toggle_pause next (run l es))
unfolding toggle_pause
run-toggle_pause assets has_context canvas handle next l es e =
    let h = run-mount assets has_context canvas handle l es e in
    toggle_by-Agree next (run l es).shown_snapshot (run l es) h.shown_paused h
