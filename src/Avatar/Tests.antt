-- ===== src/Avatar/Tests.antt =====
-- The scheduler on a small manifest, and the theorems at it.
use agent_speak.Base.{◌≡◌, refl, String, List, [], ◌∷◌, none, some, arith, ◌⊎◌}
use agent_speak.Base.Json.{integer}
use agent_speak.Avatar.Types.{AvatarState, idle, happy, ClipDefinition, AvatarManifest}
use agent_speak.Avatar.Events.{empty_bus}
use agent_speak.Avatar.Machine.{Transitions, on_loop_boundary, on_loop_boundary}
use agent_speak.Avatar.Scheduler.{
  ClipScheduler, new_scheduler, playing, snapshot, select_state, step,
}
use agent_speak.Avatar.Scheduler.Frames.{IsLooping}
use agent_speak.Avatar.Scheduler.Boundary.{InClip, steps, advances, apply, run, apply-shared_frame}
use agent_speak.Avatar.Scheduler.Pending.{steps as step_times, steps-select}

abbrev four_frames : List String
four_frames = "s0" ∷ "a1" ∷ "a2" ∷ "s0" ∷ []

abbrev small_clip : AvatarState → ClipDefinition
small_clip state = record { state = state; fps = integer 10; frames = four_frames }

abbrev small_manifest : AvatarManifest
small_manifest = record {
  character = "Henry";
  viewport = record {
    width = integer 512;
    height = integer 512;
    anchor_x = integer 0;
    anchor_y = integer 1;
  };
  transition_frame_id = "s0";
  frames = [];
  inherited = none;
  clips = small_clip;
}

small_manifest-IsLooping : IsLooping small_manifest
small_manifest-IsLooping state = record {
  long = omega arith;
  first_shared = refl;
  last_shared = refl;
}

abbrev started : ClipScheduler
started = new_scheduler small_manifest idle

-- At ten frames a second a frame lasts 100 ms.
two_frames :
    (snapshot
      (run 1000 started (advances 0 ∷ advances 99 ∷ advances 100 ∷ advances 200 ∷ []))).frame_id
    ≡ some "a2"
unfolding run apply step snapshot
two_frames = refl

abbrev closing : ClipScheduler
closing = record started {
  frame_index = 2;
  transitions = record {
    machine = record { playing_state = idle; pending_state = some happy };
    unavailable = [];
    bus = record empty_bus { on_completed = 4 ∷ [] };
  };
}

apply-shared_frame_example :
    InClip (apply 1000 closing steps)
    × ((playing (apply 1000 closing steps) ≡ playing closing)
        ⊎ ((snapshot (apply 1000 closing steps)).frame_id ≡ some "s0"))
apply-shared_frame_example =
    apply-shared_frame 1000 closing steps small_manifest-IsLooping (omega arith)

closing_changes : playing (apply 1000 closing steps) ≡ happy
unfolding apply step on_loop_boundary
closing_changes = refl

steps-select_example :
    (playing (step_times 1 (select_state started happy).0) ≡ idle)
    × (playing (step_times 3 (select_state started happy).0) ≡ happy)
steps-select_example = steps-select started happy 2 1 refl refl refl (omega arith) (omega arith)

abbrev controller : Transitions
controller = started.transitions
