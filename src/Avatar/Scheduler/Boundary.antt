-- ===== src/Avatar/Scheduler/Boundary.antt =====
-- AI_Avatar/frontend/controllers/ClipScheduler.ts: the frame index stays in the clip, and clips
-- change on the shared frame only.
use agent_speak.Base.{
  ℕ, ◌+◌, ◌-◌, ◌<◌, ◌≡◌, refl, inl, inr, String, Bool, true, false, List, [], ◌∷◌, some, arith,
  str_eq, leb, length, get_elem?-in_range, Bool-cases, Option-cases, ◌⊎◌,
}
use agent_speak.Avatar.Scheduler.Frames.{
  IsLooping, index_of-before_end, step_paused, step_crosses, step_moves,
}
use agent_speak.Avatar.Types.{AvatarState, AvatarManifest}
use agent_speak.Avatar.Machine.{on_loop_boundary, select-playing, set_available-playing}
use agent_speak.Avatar.Scheduler.{
  ClipScheduler, Advanced, moved, failed, new_scheduler, playing, active_frames, snapshot,
  select_state, set_state_available, pause, resume, restart, step, advance, cross_boundary,
  advance_to_frame, index_of, last_index, is_frame_at,
}

-- The frame shown is one of the clip, before its closing frame.
abbrev pub InClip : ClipScheduler → Type 0
InClip s = s.frame_index + 1 < length (active_frames s)

pub data Operation : Type 0 where
  selects : AvatarState → Operation
  sets_available : AvatarState → Bool → Operation
  pauses resumes restarts steps : Operation
  advances : ℕ → Operation
  jumps : String → Bool → Operation

-- A refused jump throws before anything is written.
abbrev pub jumped : ClipScheduler → Advanced → ClipScheduler
jumped s (moved s' calls) = s'
jumped s (failed e) = s

unfoldable pub apply : ℕ → ClipScheduler → Operation → ClipScheduler
unfolding advance
apply units s (selects state) = (select_state s state).0
apply units s (sets_available state available) = set_state_available s state available
apply units s pauses = pause s
apply units s resumes = resume s
apply units s restarts = restart s
apply units s steps = (step s).0
apply units s (advances now) = (advance units s now).0
apply units s (jumps frame_id loop_complete) = jumped s (advance_to_frame s frame_id loop_complete)

unfoldable pub run : ℕ → ClipScheduler → List Operation → ClipScheduler
run units s [] = s
run units s (o ∷ os) = run units (apply units s o) os

advance-cases {ℓ} :
    (P : ClipScheduler → Type ℓ) (units : ℕ) (s : ClipScheduler) (now : ℕ)
    → P s
    → P (record s { last_advance_at = some now })
    → P (step (record s { last_advance_at = some now })).0
    → P (advance units s now).0
unfolding advance
advance-cases P units s now unchanged stamped stepped = ground arith

-- The manifest, the invariant and, where the state that is played changes, the shared frame.
pub record Keeps (s t : ClipScheduler) : Type 0 where
  pub same_manifest : t.manifest ≡ s.manifest
  pub in_clip : InClip t
  pub shared :
      (playing t ≡ playing s) ⊎ ((snapshot t).frame_id ≡ some s.manifest.transition_frame_id)

cross_boundary-Keeps : (s : ClipScheduler) → IsLooping s.manifest → Keeps s (cross_boundary s).0
unfolding on_loop_boundary snapshot
cross_boundary-Keeps s loops = record {
  same_manifest = refl;
  in_clip = omega (arith, (loops _).long);
  shared = inr (loops _).first_shared;
}

still-Keeps :
    (s t : ClipScheduler) → t.manifest ≡ s.manifest → playing t ≡ playing s → InClip t → Keeps s t
still-Keeps s t m p h = record { same_manifest = m; in_clip = h; shared = inl p }

step-Keeps : (s : ClipScheduler) → IsLooping s.manifest → InClip s → Keeps s (step s).0
step-Keeps s loops h = elim (Bool-cases s.paused) [
  | inl p ↦ rw (step_paused s p) (still-Keeps s s refl refl h)
  | inr p ↦ elim (Bool-cases (leb (length (active_frames s) - 1) (s.frame_index + 1))) [
    | inl e ↦ rw (step_crosses s p e) (cross_boundary-Keeps s loops)
    | inr e ↦
        rw (step_moves s p e)
          (still-Keeps s (record s { frame_index = s.frame_index + 1 }) refl refl (ground arith))
  ]
]

advance_to_frame-Keeps :
    (s : ClipScheduler) (frame_id : String) (loop_complete : Bool)
    → IsLooping s.manifest
    → InClip s
    → Keeps s (jumped s (advance_to_frame s frame_id loop_complete))
unfolding advance_to_frame
advance_to_frame-Keeps s frame_id true loops h =
    elim (Bool-cases (is_frame_at (active_frames s) (last_index (active_frames s)) frame_id)) [
      | inr e ↦ rw e (still-Keeps s s refl refl h)
      | inl e ↦ elim (Bool-cases (str_eq frame_id s.manifest.transition_frame_id)) [
        | inr o ↦ rw (e, o) (still-Keeps s s refl refl h)
        | inl o ↦ rw (e, o) (cross_boundary-Keeps s loops)
      ]
    ]
advance_to_frame-Keeps s frame_id false loops h =
    elim (Option-cases (index_of (active_frames s) frame_id)) [
      | inl missing ↦ rw missing (still-Keeps s s refl refl h)
      | inr (i, found) ↦
          rw (found, is_frame_at)
            (elim (Bool-cases (is_frame_at (active_frames s) (some i) frame_id)) [
              | inr e ↦ rw e (still-Keeps s s refl refl h)
              | inl e ↦ rw e (
                  still-Keeps s (record s { frame_index = i }) refl refl
                    (index_of-before_end s.manifest _ frame_id i (loops _) found))
            ])
    ]

apply-Keeps :
    (units : ℕ) (s : ClipScheduler) (o : Operation)
    → IsLooping s.manifest
    → InClip s
    → Keeps s (apply units s o)
unfolding apply pause resume restart
apply-Keeps units s (selects state) loops h =
    still-Keeps s _ refl (select-playing s.transitions state)
      (rw (select-playing s.transitions state) h)
apply-Keeps units s (sets_available state available) loops h =
    still-Keeps s _ refl (set_available-playing s.transitions state available)
      (rw (set_available-playing s.transitions state available) h)
apply-Keeps units s pauses loops h = still-Keeps s _ refl refl h
apply-Keeps units s resumes loops h = still-Keeps s _ refl refl h
apply-Keeps units s restarts loops h =
    still-Keeps s _ refl refl (omega (arith, (loops (playing s)).long))
apply-Keeps units s steps loops h = step-Keeps s loops h
apply-Keeps units s (advances now) loops h =
    advance-cases (Keeps s) units s now (still-Keeps s s refl refl h) (still-Keeps s _ refl refl h)
      (let v = step-Keeps (record s { last_advance_at = some now }) loops h in
        record { same_manifest = v.same_manifest; in_clip = v.in_clip; shared = v.shared })
apply-Keeps units s (jumps frame_id loop_complete) loops h =
    advance_to_frame-Keeps s frame_id loop_complete loops h

-- An operation of the scheduler changes the state that is played only by moving to the shared
-- frame, with which the new clip begins as the old one ends; whatever it does, the frame index
-- stays before the end of the clip.
pub apply-shared_frame :
    (units : ℕ) (s : ClipScheduler) (o : Operation)
    → IsLooping s.manifest
    → InClip s
    → InClip (apply units s o)
      × ((playing (apply units s o) ≡ playing s)
          ⊎ ((snapshot (apply units s o)).frame_id ≡ some s.manifest.transition_frame_id))
apply-shared_frame units s o loops h =
    let k = apply-Keeps units s o loops h in (k.in_clip, k.shared)

run-InClip :
    (units : ℕ) (s : ClipScheduler) (os : List Operation)
    → IsLooping s.manifest
    → InClip s
    → InClip (run units s os)
unfolding run
run-InClip units s [] loops h = h
run-InClip units s (o ∷ os) loops h =
    let k = apply-Keeps units s o loops h in
    run-InClip units (apply units s o) os (rw k.same_manifest loops) k.in_clip

-- With a manifest whose clips are loops, the scheduler always has a frame to show, whatever was
-- called on it since it was made.
snapshot-run :
    (units : ℕ) (m : AvatarManifest) (initial : AvatarState) (os : List Operation)
    → IsLooping m
    → (f : String) × ((snapshot (run units (new_scheduler m initial) os)).frame_id ≡ some f)
unfolding snapshot
snapshot-run units m initial os loops =
    let s = run units (new_scheduler m initial) os in
    let h : InClip s =
      run-InClip units (new_scheduler m initial) os loops (omega (arith, (loops initial).long)) in
    get_elem?-in_range (active_frames s) s.frame_index (omega arith)
