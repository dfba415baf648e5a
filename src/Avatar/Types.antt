-- ===== src/Avatar/Types.antt =====
-- AI_Avatar/frontend/types/avatar.ts: states, clips and the manifest.
use agent_speak.Base.{String, Bool, true, false, List, [], ◌∷◌, Option, ◌↔◌, ◌≡◌, arith}
use agent_speak.Base.Json.{Number}

pub data AvatarState : Type 0 where
  idle listening thinking speaking happy error : AvatarState

abbrev pub avatar_states : List AvatarState
avatar_states = idle ∷ listening ∷ thinking ∷ speaking ∷ happy ∷ error ∷ []

abbrev pub state_name : AvatarState → String
state_name idle = "idle"
state_name listening = "listening"
state_name thinking = "thinking"
state_name speaking = "speaking"
state_name happy = "happy"
state_name error = "error"

-- The clip id of a state, `${state}_loop`.
abbrev pub clip_id : AvatarState → String
clip_id idle = "idle_loop"
clip_id listening = "listening_loop"
clip_id thinking = "thinking_loop"
clip_id speaking = "speaking_loop"
clip_id happy = "happy_loop"
clip_id error = "error_loop"

-- `===` on states
abbrev pub same_state : AvatarState → AvatarState → Bool
same_state idle idle = true
same_state listening listening = true
same_state thinking thinking = true
same_state speaking speaking = true
same_state happy happy = true
same_state error error = true
same_state _ _ = false

pub same_state_iff : (s t : AvatarState) → (same_state s t ≡ true) ↔ (s ≡ t)
same_state_iff s t = ground arith

pub record AvatarViewport : Type 0 where
  pub width : Number
  pub height : Number
  pub anchor_x : Number
  pub anchor_y : Number

pub record FrameDefinition : Type 0 where
  pub src : String
  pub sha256 : String

-- `loop` and `quality_status` have one value each and are left out.
pub record ClipDefinition : Type 0 where
  pub state : AvatarState
  pub fps : Number
  pub frames : List String

-- `frames` holds the own properties of the table of frames; `inherited` is what an entry named
-- `__proto__` put in its prototype's place. The record of clips has one clip for each state.
pub record AvatarManifest : Type 0 where
  pub character : String
  pub viewport : AvatarViewport
  pub transition_frame_id : String
  pub frames : List (String × FrameDefinition)
  pub inherited : Option FrameDefinition
  pub clips : AvatarState → ClipDefinition
