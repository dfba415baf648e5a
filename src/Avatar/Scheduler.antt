-- ===== src/Avatar/Scheduler.antt =====
-- AI_Avatar/frontend/controllers/ClipScheduler.ts. Times are whole numbers of one unit of which
-- there are `units_per_second`; a frame id that is out of range is `none` (undefined).
pub mod Frames
pub mod Boundary
pub mod Pending
use agent_speak.Base.{
  ℕ, zero, suc, ◌+◌, ◌-◌, ◌*◌, String, Bool, true, false, not, ◌&&◌, List, [], ◌∷◌, Option, none,
  some, str_eq, ltb, leb, ◌==◌, if◌then◌else◌, get_elem?, length,
}
use agent_speak.Base.Json.{Number, fraction, minus, infinity, minus_infinity, nan}
use agent_speak.Avatar.Types.{AvatarState, clip_id, ClipDefinition, AvatarManifest}
use agent_speak.Avatar.Events.{EventBus, empty_bus}
use agent_speak.Avatar.Machine.{
  AvatarStateMachine, new_machine, clear_pending, Transitions, Calls, select, on_loop_boundary,
  set_available,
}

pub record ClipScheduler : Type 0 where
  pub manifest : AvatarManifest
  pub transitions : Transitions
  pub frame_index : ℕ
  pub paused : Bool
  pub last_advance_at : Option ℕ

pub record Snapshot : Type 0 where
  pub clip : String
  pub playing_state : AvatarState
  pub pending_state : Option AvatarState
  pub frame_id : Option String
  pub frame_index : ℕ
  pub paused : Bool

abbrev pub new_scheduler : AvatarManifest → AvatarState → ClipScheduler
new_scheduler manifest initial = record {
  manifest = manifest;
  transitions = record { machine = new_machine initial; unavailable = []; bus = empty_bus };
  frame_index = 0;
  paused = false;
  last_advance_at = none;
}

abbrev pub playing : ClipScheduler → AvatarState
playing s = s.transitions.machine.playing_state

abbrev pub active_clip : ClipScheduler → ClipDefinition
active_clip s = s.manifest.clips (playing s)

abbrev pub active_frames : ClipScheduler → List String
active_frames s = (active_clip s).frames

unfoldable pub snapshot : ClipScheduler → Snapshot
snapshot s = record {
  clip = clip_id (playing s);
  playing_state = playing s;
  pending_state = s.transitions.machine.pending_state;
  frame_id = get_elem? (active_frames s) s.frame_index;
  frame_index = s.frame_index;
  paused = s.paused;
}

abbrev pub select_state : ClipScheduler → AvatarState → ClipScheduler × Bool × Calls
select_state s state =
    let (c, selected, calls) = select s.transitions state in
    (record s { transitions = c }, selected, calls)

abbrev pub set_state_available : ClipScheduler → AvatarState → Bool → ClipScheduler
set_state_available s state available = record s {
  transitions = set_available s.transitions state available;
}

unfoldable pub pause : ClipScheduler → ClipScheduler
pause s = record s { paused = true }

unfoldable pub resume : ClipScheduler → ClipScheduler
resume s = record s { paused = false; last_advance_at = none }

unfoldable pub restart : ClipScheduler → ClipScheduler
restart s = record s {
  frame_index = 0;
  last_advance_at = none;
  transitions = record s.transitions { machine = clear_pending s.transitions.machine };
}

-- `this.transitions.onLoopBoundary(); this.frameIndex = 0;`
abbrev pub cross_boundary : ClipScheduler → ClipScheduler × Calls
cross_boundary s =
    let (c, changed, calls) = on_loop_boundary s.transitions in
    (record s { transitions = c; frame_index = 0 }, calls)

-- The new scheduler, the frame to draw, and the calls of listeners.
unfoldable pub step : ClipScheduler → ClipScheduler × Option String × Calls
step s =
    let frames = active_frames s in
    let next = s.frame_index + 1 in
    let (crossed, calls) = cross_boundary s in
    if s.paused
    then (s, (snapshot s).frame_id, [])
    else if leb (length frames - 1) next
    then (crossed, get_elem? frames (length frames - 1), calls)
    else (record s { frame_index = next }, get_elem? frames next, [])

-- `elapsed < 1000 / fps`, with the second cut into `units` and `elapsed = now - last`. A rate of 0
-- gives an infinite interval, a negative one a negative interval, and NaN fails the comparison.
abbrev pub too_soon : ℕ → ℕ → ℕ → Number → Bool
too_soon units now last (fraction n d) =
    if n == 0 then true else ltb ((now - last) * n) (units * suc d)
too_soon units now last (minus n d) =
    if n == 0 then false else ltb (units * suc d) ((last - now) * n)
too_soon units now last infinity = ltb now last
too_soon units now last minus_infinity = ltb now last
too_soon units now last nan = false

unfoldable pub advance : ℕ → ClipScheduler → ℕ → ClipScheduler × Option String × Calls
unfolding step snapshot
advance units s now =
    let idle : ClipScheduler × Option String × Calls = (s, (snapshot s).frame_id, []) in
    let moved = step (record s { last_advance_at = some now }) in
    if s.paused then idle else elim s.last_advance_at [
      | none ↦ (record s { last_advance_at = some now }, (snapshot s).frame_id, [])
      | some last ↦ if too_soon units now last (active_clip s).fps then idle else moved
    ]

-- `list.indexOf(frameId)`; -1 is `none`.
abbrev pub index_of : List String → String → Option ℕ
index_of [] k = none
index_of (x ∷ xs) k =
    if str_eq x k then some 0 else elim (index_of xs k) [ none ↦ none | some i ↦ some (suc i) ]

abbrev pub last_index : List String → Option ℕ
last_index [] = none
last_index (x ∷ xs) = some (length xs)

pub data AdvanceError : Type 0 where
  not_in_clip not_on_shared_frame : AdvanceError

pub data Advanced : Type 0 where
  moved : ClipScheduler → Calls → Advanced
  failed : AdvanceError → Advanced

-- `index < 0 || clip.frames[index] !== frameId`
abbrev pub is_frame_at : List String → Option ℕ → String → Bool
is_frame_at frames none frame_id = false
is_frame_at frames (some i) frame_id = elim (get_elem? frames i) [
  | none ↦ false
  | some f ↦ str_eq f frame_id
]

abbrev pub index_or_zero : Option ℕ → ℕ
index_or_zero none = 0
index_or_zero (some i) = i

unfoldable pub advance_to_frame : ClipScheduler → String → Bool → Advanced
advance_to_frame s frame_id loop_complete =
    let frames = active_frames s in
    let index = if loop_complete then last_index frames else index_of frames frame_id in
    let (crossed, calls) = cross_boundary s in
    if not (is_frame_at frames index frame_id)
    then failed not_in_clip
    else if loop_complete && not (str_eq frame_id s.manifest.transition_frame_id)
    then failed not_on_shared_frame
    else if loop_complete
    then moved crossed calls
    else moved (record s { frame_index = index_or_zero index }) []
