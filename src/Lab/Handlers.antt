-- ===== src/Lab/Handlers.antt =====
-- frontend/realtime/src/avatarLab/App.tsx: each handler of the lab keeps the pause in step.
use mathlib.Core.Path.{subst}
use agent_speak.Base.{
  ℕ, String, Bool, true, false, not, ◌&&◌, List, [], ◌∷◌, Option, none, some, is_some,
  if◌then◌else◌, ◌≡◌, refl, sym, ◌∙◌, arith,
}
use agent_speak.Avatar.Types.{AvatarState}
use agent_speak.Avatar.Scheduler.{
  ClipScheduler, Snapshot, new_scheduler, snapshot, select_state, advance,
}
use agent_speak.Avatar.Scheduler as Scheduler
use agent_speak.Avatar.Renderer.{
  Renderer, Canvas, Done, done, failed, Drawn, pause, resume, provided, shown, tick,
  stop_animation_frame, schedule,
}
use agent_speak.Avatar.Renderer.Loop.{
  IsSingle, draw-loop, draw-IsSingle, pause-IsSingle, resume-IsSingle, tick-IsSingle,
}
use agent_speak.Lab.{
  Lab, update, draw_frame, hear_failures, animate, animation_frame, is_ready, click_state,
  pause_lab, resume_lab, toggle_by, toggle_pause, restarted, restart, fired,
}
use agent_speak.Lab.Session.{
  Event, animates, clicks_state, clicks_pause, clicks_restart, apply, run, enabled, Says, IsInStep,
  SameUse, advance-paused, tick-SameUse, update-IsInStep, hear_failures-IsInStep,
}

-- A lab whose scheduler and renderer have moved, with the same pause.
moved-IsInStep :
    (l : Lab) (s : ClipScheduler) (r : Renderer)
    → s.paused ≡ l.scheduler.paused
    → SameUse l.renderer r
    → IsSingle r
    → IsInStep l
    → IsInStep (record l { scheduler = s; renderer = r })
moved-IsInStep l s r e u i h = record {
  shown_paused = subst (λ b. Says b l.shown_snapshot) (sym e) h.shown_paused;
  drawn_paused = u.same_paused ∙ h.drawn_paused ∙ sym e;
  in_use = (u.same_provider ∙ h.in_use.0, u.same_disposed ∙ h.in_use.1);
  single = i;
}

animate-IsInStep :
    (units now : ℕ) (canvas : Canvas) (handle next : ℕ) (l : Lab)
    → l.renderer.requested ≡ handle ∷ []
    → IsInStep l
    → IsInStep (animate units now canvas handle next l)
unfolding animate
animate-IsInStep units now canvas handle next l q h =
    by_run (not l.renderer.paused && is_some l.renderer.provider)
  where
    moved : ClipScheduler
    moved = (advance units l.scheduler now).0

    frame : Option String
    frame = (advance units l.scheduler now).1

    by_run :
        (b : Bool)
        → IsInStep (
            if b
            then hear_failures
                (shown canvas
                  (provided (advance units l.scheduler now).1)
                  (fired handle l.renderer)).calls
                (update (record l {
                  scheduler = (advance units l.scheduler now).0;
                  renderer =
                      tick canvas
                        (provided (advance units l.scheduler now).1)
                        handle
                        next
                        l.renderer;
                }))
            else record l { renderer = tick canvas (provided none) handle next l.renderer })
    by_run true =
        hear_failures-IsInStep
          (shown canvas (provided (advance units l.scheduler now).1)
            (fired handle l.renderer)).calls
          _
          (update-IsInStep _ (
            moved-IsInStep l (advance units l.scheduler now).0
              (tick canvas (provided (advance units l.scheduler now).1) handle next l.renderer)
              (advance-paused units now l.scheduler)
              (tick-SameUse canvas (advance units l.scheduler now).1 handle next l.renderer)
              (tick-IsSingle canvas (provided (advance units l.scheduler now).1) handle next
                l.renderer q)
              h))
    by_run false =
        moved-IsInStep l l.scheduler (tick canvas (provided none) handle next l.renderer) refl
          (tick-SameUse canvas none handle next l.renderer)
          (tick-IsSingle canvas (provided none) handle next l.renderer q) h

frame-IsInStep :
    (units now : ℕ) (canvas : Canvas) (next : ℕ) (requested : List ℕ) (l : Lab)
    → l.renderer.requested ≡ requested
    → IsInStep l
    → IsInStep (animation_frame units now canvas next requested l)
frame-IsInStep units now canvas next [] l q h = h
frame-IsInStep units now canvas next (handle ∷ others) l q h =
    animate-IsInStep units now canvas handle next l (single_request others q h.single) h
  where
    single_request :
        (more : List ℕ)
        → l.renderer.requested ≡ handle ∷ more
        → IsSingle l.renderer
        → l.renderer.requested ≡ handle ∷ []
    single_request more e i = ground (arith, i.requests)

click_state-IsInStep : (state : AvatarState) (l : Lab) → IsInStep l → IsInStep (click_state state l)
unfolding click_state snapshot
click_state-IsInStep state l h = by_choice (select_state l.scheduler state).1
  where
    by_choice :
        (b : Bool)
        → let s = (select_state l.scheduler state).0 in
          IsInStep (
            if b
            then record l { scheduler = s; shown_snapshot = some (snapshot s) }
            else record l { scheduler = s })
    by_choice true = record {
      shown_paused = refl;
      drawn_paused = h.drawn_paused;
      in_use = h.in_use;
      single = h.single;
    }
    by_choice false = record {
      shown_paused = h.shown_paused;
      drawn_paused = h.drawn_paused;
      in_use = h.in_use;
      single = h.single;
    }

pub pause_lab-IsInStep : (l : Lab) → IsInStep l → IsInStep (pause_lab l)
unfolding snapshot agent_speak.Avatar.Scheduler.pause pause stop_animation_frame
pause_lab-IsInStep l h = record {
  shown_paused = refl;
  drawn_paused = ground arith;
  in_use = (ground (arith, h.in_use), ground (arith, h.in_use));
  single = pause-IsSingle l.renderer h.single;
}

pub resume_lab-IsInStep : (handle : ℕ) (l : Lab) → IsInStep l → IsInStep (resume_lab handle l)
unfolding snapshot agent_speak.Avatar.Scheduler.resume resume schedule
resume_lab-IsInStep handle l h = record {
  shown_paused = refl;
  drawn_paused = ground (arith, h.in_use);
  in_use = (ground (arith, h.in_use), ground (arith, h.in_use));
  single = resume-IsSingle handle l.renderer h.single;
}

toggle_by-IsInStep :
    (handle : ℕ) (p : Option Snapshot) (l : Lab) → IsInStep l → IsInStep (toggle_by handle p l)
toggle_by-IsInStep handle none l h = h
toggle_by-IsInStep handle (some p) l h = by_pause p.paused
  where
    by_pause : (b : Bool) → IsInStep (if b then resume_lab handle l else pause_lab l)
    by_pause true = resume_lab-IsInStep handle l h
    by_pause false = pause_lab-IsInStep l h

pub draw_frame-SameUse :
    (canvas : Canvas) (frame : Option String) (r : Renderer)
    → SameUse r (draw_frame canvas frame r).renderer
draw_frame-SameUse canvas none r = record {
  same_paused = refl;
  same_provider = refl;
  same_disposed = refl;
}
draw_frame-SameUse canvas (some k) r = record {
  same_paused = ground (arith, draw-loop canvas k r);
  same_provider = ground (arith, draw-loop canvas k r);
  same_disposed = ground (arith, draw-loop canvas k r);
}

pub draw_frame-IsSingle :
    (canvas : Canvas) (frame : Option String) (r : Renderer)
    → IsSingle r
    → IsSingle (draw_frame canvas frame r).renderer
draw_frame-IsSingle canvas none r h = h
draw_frame-IsSingle canvas (some k) r h = draw-IsSingle canvas k r h

restarted-IsInStep :
    (s : ClipScheduler) (d : Drawn) (l : Lab)
    → IsInStep (record l { scheduler = s; renderer = d.renderer })
    → IsInStep (restarted s d l)
unfolding snapshot
restarted-IsInStep s d l k = ended d.outcome
  where
    ended :
        (o : Done)
        → IsInStep (elim o [
          | done ↦ record l {
            scheduler = s;
            renderer = d.renderer;
            shown_snapshot = some (snapshot s);
          }
          | failed cause ↦ hear_failures d.calls (record l { scheduler = s; renderer = d.renderer })
        ])
    ended done = record {
      shown_paused = refl;
      drawn_paused = k.drawn_paused;
      in_use = k.in_use;
      single = k.single;
    }
    ended (failed cause) =
        hear_failures-IsInStep d.calls (record l { scheduler = s; renderer = d.renderer }) k

restart-IsInStep : (canvas : Canvas) (l : Lab) → IsInStep l → IsInStep (restart canvas l)
unfolding restart agent_speak.Avatar.Scheduler.restart
restart-IsInStep canvas l h =
    let s = Scheduler.restart l.scheduler in
    let frame = (snapshot s).frame_id in
    restarted-IsInStep s (draw_frame canvas frame l.renderer) l (
      moved-IsInStep l s (draw_frame canvas frame l.renderer).renderer refl
        (draw_frame-SameUse canvas frame l.renderer)
        (draw_frame-IsSingle canvas frame l.renderer h.single) h)

enabled-IsInStep : (on : Bool) (l t : Lab) → IsInStep l → IsInStep t → IsInStep (enabled on l t)
enabled-IsInStep true l t h k = k
enabled-IsInStep false l t h k = h

apply-IsInStep : (l : Lab) (e : Event) → IsInStep l → IsInStep (apply l e)
unfolding apply toggle_pause
apply-IsInStep l (animates units now canvas next) h =
    frame-IsInStep units now canvas next l.renderer.requested l refl h
apply-IsInStep l (clicks_state state) h =
    enabled-IsInStep (is_ready l) l (click_state state l) h (click_state-IsInStep state l h)
apply-IsInStep l (clicks_pause handle) h =
    enabled-IsInStep (is_ready l) l (toggle_pause handle l) h
      (toggle_by-IsInStep handle l.shown_snapshot l h)
apply-IsInStep l (clicks_restart canvas) h =
    enabled-IsInStep (is_ready l) l (restart canvas l) h (restart-IsInStep canvas l h)

pub run-IsInStep : (l : Lab) (es : List Event) → IsInStep l → IsInStep (run l es)
run-IsInStep l [] h = h
run-IsInStep l (e ∷ es) h = run-IsInStep (apply l e) es (apply-IsInStep l e h)
