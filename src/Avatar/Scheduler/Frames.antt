-- ===== src/Avatar/Scheduler/Frames.antt =====
-- AI_Avatar/frontend/controllers/ClipScheduler.ts: the frames of a clip that is a loop.
use agent_speak.Base.{
  ℕ, zero, suc, ◌+◌, ◌-◌, ◌≤◌, ◌<◌, ◌≡◌, true, false, leb, String, List, [], ◌∷◌, some, arith,
  eq_iff, get_elem?, length,
}
use agent_speak.Avatar.Types.{AvatarState, AvatarManifest}
use agent_speak.Avatar.Scheduler.{ClipScheduler, active_frames, cross_boundary, step, index_of}

-- What the manifest's parser grants: a clip begins and ends on the shared frame, and has three
-- frames at least.
pub record IsLoop (m : AvatarManifest) (frames : List String) : Type 0 where
  pub long : 3 ≤ length frames
  pub first_shared : get_elem? frames 0 ≡ some m.transition_frame_id
  pub last_shared : get_elem? frames (length frames - 1) ≡ some m.transition_frame_id

abbrev pub IsLooping : AvatarManifest → Type 0
IsLooping m = (state : AvatarState) → IsLoop m (m.clips state).frames

-- `indexOf` finds the first place of a frame.
index_of_first :
    (frames : List String) (k : String) (i : ℕ)
    → index_of frames k ≡ some i
    → (get_elem? frames i ≡ some k) × (get_elem? frames 0 ≡ some k → i ≡ 0)
index_of_first [] k i h = cc
index_of_first (x ∷ frames) k zero h = ground (arith, eq_iff x k)
index_of_first (x ∷ frames) k (suc i) h = ground (arith, eq_iff x k, index_of_first frames k i)

index_of-lt :
    (frames : List String) (k : String) (i : ℕ) → index_of frames k ≡ some i → i < length frames
index_of-lt [] k i h = cc
index_of-lt (x ∷ frames) k zero h = omega arith
index_of-lt (x ∷ frames) k (suc i) h = ground (arith, index_of-lt frames k i)

-- The frame that `indexOf` finds in a loop is not the closing one.
pub index_of-before_end :
    (m : AvatarManifest) (frames : List String) (k : String) (i : ℕ)
    → IsLoop m frames
    → index_of frames k ≡ some i
    → i + 1 < length frames
index_of-before_end m frames k i loop h = ground (
  arith,
  index_of_first frames k i h,
  index_of-lt frames k i h,
  loop.long,
  loop.first_shared,
  loop.last_shared,
  at_end,
)
  where
    at_end : ¬ (i + 1 < length frames) → i < length frames → i ≡ length frames - 1
    at_end a b = omega arith

-- The three ways that `step` goes.
pub step_paused : (s : ClipScheduler) → s.paused ≡ true → (step s).0 ≡ s
unfolding step
step_paused s p = ground arith

pub step_crosses :
    (s : ClipScheduler)
    → s.paused ≡ false
    → leb (length (active_frames s) - 1) (s.frame_index + 1) ≡ true
    → (step s).0 ≡ (cross_boundary s).0
unfolding step
step_crosses s p e = rw (p, e) (ground arith)

pub step_moves :
    (s : ClipScheduler)
    → s.paused ≡ false
    → leb (length (active_frames s) - 1) (s.frame_index + 1) ≡ false
    → (step s).0 ≡ record s { frame_index = s.frame_index + 1 }
unfolding step
step_moves s p e = ground arith
