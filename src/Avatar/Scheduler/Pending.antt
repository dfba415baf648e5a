-- ===== src/Avatar/Scheduler/Pending.antt =====
-- AI_Avatar/frontend/controllers/ClipScheduler.ts: a selected state is played after the clip's end.
use agent_speak.Base.{
  ◌∙◌, ℕ, zero, suc, ◌+◌, ◌-◌, ◌≤◌, ◌≡◌, refl, false, Option, some, arith, length,
}
use agent_speak.Avatar.Types.{AvatarState, same_state}
use agent_speak.Avatar.Machine.{select, is_in, on_loop_boundary, select-playing}
use agent_speak.Avatar.Scheduler.{ClipScheduler, playing, active_frames, select_state, step}
use agent_speak.Avatar.Scheduler.Frames.{step_crosses, step_moves}

abbrev pub steps : ℕ → ClipScheduler → ClipScheduler
steps zero s = s
steps (suc n) s = steps n (step s).0

abbrev pub pending : ClipScheduler → Option AvatarState
pending s = s.transitions.machine.pending_state

record Waits (n : ℕ) (t : AvatarState) (s : ClipScheduler) : Type 0 where
  running : s.paused ≡ false
  chosen : pending s ≡ some t
  left : s.frame_index + suc n ≡ length (active_frames s) - 1

step-Waits :
    (n : ℕ) (t : AvatarState) (s : ClipScheduler)
    → Waits (suc n) t s
    → Waits n t (step s).0 × (playing (step s).0 ≡ playing s)
step-Waits n t s w =
    rw (step_moves s w.running (ground (arith, w.left)))
      (record { running = w.running; chosen = w.chosen; left = omega (arith, w.left) }, refl)

step-reaches : (t : AvatarState) (s : ClipScheduler) → Waits zero t s → playing (step s).0 ≡ t
unfolding on_loop_boundary
step-reaches t s w =
    rw (step_crosses s w.running (ground (arith, w.left))) (ground (arith, w.chosen))

steps-reaches :
    (n : ℕ) (t : AvatarState) (s : ClipScheduler) → Waits n t s → playing (steps (suc n) s) ≡ t
steps-reaches zero t s w = step-reaches t s w
steps-reaches (suc n) t s w = steps-reaches n t (step s).0 (step-Waits n t s w).0

steps-keeps :
    (n k : ℕ) (t : AvatarState) (s : ClipScheduler)
    → Waits n t s
    → k ≤ n
    → playing (steps k s) ≡ playing s
steps-keeps n zero t s w h = refl
steps-keeps zero (suc k) t s w h = absurd (omega arith)
steps-keeps (suc n) (suc k) t s w h =
    let (w', same) = step-Waits n t s w in steps-keeps n k t (step s).0 w' (omega arith) ∙ same

select-Waits :
    (s : ClipScheduler) (t : AvatarState) (n : ℕ)
    → s.paused ≡ false
    → is_in s.transitions.unavailable t ≡ false
    → same_state t (playing s) ≡ false
    → s.frame_index + suc n ≡ length (active_frames s) - 1
    → Waits n t (select_state s t).0
unfolding select
select-Waits s t n p a d e = record { running = p; chosen = ground arith; left = ground arith }

-- Selecting an available state that is not being played changes nothing of what is played until the
-- clip has come to its end, and exactly then the selected state is played: with `n` frames left
-- before the closing one, after each of `n` steps the old state is played and after one more the
-- new one.
pub steps-select :
    (s : ClipScheduler) (t : AvatarState) (n k : ℕ)
    → s.paused ≡ false
    → is_in s.transitions.unavailable t ≡ false
    → same_state t (playing s) ≡ false
    → s.frame_index + suc n ≡ length (active_frames s) - 1
    → k ≤ n
    → (playing (steps k (select_state s t).0) ≡ playing s)
      × (playing (steps (suc n) (select_state s t).0) ≡ t)
steps-select s t n k p a d e h =
    let w = select-Waits s t n p a d e in
    (
      steps-keeps n k t (select_state s t).0 w h ∙ select-playing s.transitions t,
      steps-reaches n t (select_state s t).0 w,
    )
