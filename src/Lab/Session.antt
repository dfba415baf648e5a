-- ===== src/Lab/Session.antt =====
-- frontend/realtime/src/avatarLab/App.tsx: the lab over a session of clicks and animation frames. The
-- buttons count only while the lab is ready.
use agent_speak.Base.{
  ℕ, String, Bool, true, false, not, ◌&&◌, List, [], ◌∷◌, Option, none, some, is_some,
  if◌then◌else◌, ◌≡◌, refl, arith,
}
use agent_speak.Avatar.Types.{AvatarState}
use agent_speak.Avatar.Events.{AvatarEvent, renderer_failed, state_selected, loop_completed}
use agent_speak.Avatar.Scheduler.{ClipScheduler, Snapshot, snapshot, select_state, advance, step}
use agent_speak.Avatar.Renderer.{
  Renderer, Canvas, Done, done, failed, Drawn, provided, shown, tick, schedule, schedule_after,
}
use agent_speak.Avatar.Renderer.Loop.{IsSingle, draw-loop}
use agent_speak.Lab.{
  Lab, same_snapshot, update, hear_failures, animate, animation_frame, is_ready, click_state,
  toggle_pause, restart, fired,
}

pub data Event : Type 0 where
  animates : ℕ → ℕ → Canvas → ℕ → Event
  clicks_state : AvatarState → Event
  clicks_pause : ℕ → Event
  clicks_restart : Canvas → Event

abbrev pub enabled : Bool → Lab → Lab → Lab
enabled true l after = after
enabled false l after = l

unfoldable pub apply : Lab → Event → Lab
unfolding animate click_state toggle_pause restart
apply l (animates units now canvas next) =
    animation_frame units now canvas next l.renderer.requested l
apply l (clicks_state state) = enabled (is_ready l) l (click_state state l)
apply l (clicks_pause handle) = enabled (is_ready l) l (toggle_pause handle l)
apply l (clicks_restart canvas) = enabled (is_ready l) l (restart canvas l)

abbrev pub run : Lab → List Event → Lab
run l [] = l
run l (e ∷ es) = run (apply l e) es

-- What a snapshot says of the pause is so.
abbrev pub Says : Bool → Option Snapshot → Type 0
Says paused none = ⊥
Says paused (some p) = p.paused ≡ paused

-- The renderer is in use, and its loop, the scheduler and the button agree on the pause.
pub record IsInStep (l : Lab) : Type 0 where
  pub shown_paused : Says l.scheduler.paused l.shown_snapshot
  pub drawn_paused : l.renderer.paused ≡ l.scheduler.paused
  pub in_use : (l.renderer.provider ≡ some 0) × (l.renderer.disposed ≡ false)
  pub single : IsSingle l.renderer

pub advance-paused : (units now : ℕ) (s : ClipScheduler) → (advance units s now).0.paused ≡ s.paused
unfolding advance step
advance-paused units now s = ground arith

select_state-paused :
    (state : AvatarState) (s : ClipScheduler) → (select_state s state).0.paused ≡ s.paused
select_state-paused state s = refl

-- A callback leaves the pause, the provider and the disposal of a renderer as they are.
pub record SameUse (r q : Renderer) : Type 0 where
  pub same_paused : q.paused ≡ r.paused
  pub same_provider : q.provider ≡ r.provider
  pub same_disposed : q.disposed ≡ r.disposed

schedule-SameUse : (next : ℕ) (r q : Renderer) → SameUse r q → SameUse r (schedule next q)
unfolding schedule
schedule-SameUse next r q h = record {
  same_paused = ground (arith, h.same_paused);
  same_provider = ground (arith, h.same_provider);
  same_disposed = ground (arith, h.same_disposed);
}

shown-SameUse :
    (canvas : Canvas) (frame : Option String) (r : Renderer)
    → SameUse r (shown canvas (provided frame) r).renderer
shown-SameUse canvas none r = record {
  same_paused = refl;
  same_provider = refl;
  same_disposed = refl;
}
shown-SameUse canvas (some k) r = record {
  same_paused = ground (arith, draw-loop canvas k r);
  same_provider = ground (arith, draw-loop canvas k r);
  same_disposed = ground (arith, draw-loop canvas k r);
}

schedule_after-SameUse :
    (next : ℕ) (r : Renderer) (d : Drawn) → SameUse r d.renderer → SameUse r (schedule_after next d)
schedule_after-SameUse next r d h = by_outcome d.outcome
  where
    by_outcome :
        (o : Done) → SameUse r (elim o [ done ↦ schedule next d.renderer | failed e ↦ d.renderer ])
    by_outcome done = schedule-SameUse next r d.renderer h
    by_outcome (failed e) = h

pub tick-SameUse :
    (canvas : Canvas) (frame : Option String) (handle next : ℕ) (r : Renderer)
    → SameUse r (tick canvas (provided frame) handle next r)
unfolding tick
tick-SameUse canvas frame handle next r = by_run (not r.paused && is_some r.provider)
  where
    by_run :
        (b : Bool)
        → SameUse r (
            if b
            then schedule_after next (shown canvas (provided frame) (fired handle r))
            else schedule next (fired handle r))
    by_run true =
        let k = shown-SameUse canvas frame (fired handle r) in
        schedule_after-SameUse next r (shown canvas (provided frame) (fired handle r)) (record {
          same_paused = k.same_paused;
          same_provider = k.same_provider;
          same_disposed = k.same_disposed;
        })
    by_run false =
        schedule-SameUse next r (fired handle r)
          (record { same_paused = refl; same_provider = refl; same_disposed = refl })

pub update-IsInStep : (l : Lab) → IsInStep l → IsInStep (update l)
unfolding update snapshot
update-IsInStep l h = kept (same_snapshot l.shown_snapshot (snapshot l.scheduler))
  where
    kept :
        (t : Bool)
        → IsInStep (if t then l else record l { shown_snapshot = some (snapshot l.scheduler) })
    kept true = h
    kept false = record {
      shown_paused = refl;
      drawn_paused = h.drawn_paused;
      in_use = h.in_use;
      single = h.single;
    }

-- A failure that is heard changes nothing but the error.
pub hear_failures-IsInStep :
    (calls : List (ℕ × AvatarEvent)) (l : Lab) → IsInStep l → IsInStep (hear_failures calls l)
hear_failures-IsInStep [] l h = h
hear_failures-IsInStep ((listener, renderer_failed detail) ∷ calls) l h =
    hear_failures-IsInStep calls _ (record {
      shown_paused = h.shown_paused;
      drawn_paused = h.drawn_paused;
      in_use = h.in_use;
      single = h.single;
    })
hear_failures-IsInStep ((listener, state_selected state) ∷ calls) l h =
    hear_failures-IsInStep calls l h
hear_failures-IsInStep ((listener, loop_completed state) ∷ calls) l h =
    hear_failures-IsInStep calls l h
