-- ===== src/Avatar/Manifest/Parse.antt =====
-- frontend/realtime/src/avatarLab/manifest.ts: `parseManifest`.
use agent_speak.Base.{
  String, Bool, not, ◌&&◌, ◌||◌, List, ◌==◌, if◌then◌else◌, includes, all, length, is_blank,
}
use agent_speak.Base.Json.{Value, Fields, string, get, keys, is_text, le_nat, gt_nat, is_negative}
use agent_speak.Avatar.Types.{
  AvatarState, idle, listening, thinking, speaking, happy, error, avatar_states, clip_id,
  AvatarViewport, ClipDefinition, AvatarManifest,
}
use agent_speak.Avatar.Manifest.Fields.{
  bad_version, no_character, bad_viewport, bad_transition_id, missing_transition, wrong_clip_set,
  Checked, ok, err, ◌>>=◌, ◌>>◌, refuse_if, as_record, as_number, is_frame_id,
}
use agent_speak.Avatar.Manifest.Frames.{FrameTable, is_known, parse_frames}
use agent_speak.Avatar.Manifest.Clips.{parse_clip}

abbrev pub checked_character : Value → Checked String
checked_character (string s) = if is_blank s then err no_character else ok s
checked_character _ = err no_character

unfoldable pub parse_viewport : Value → Checked AvatarViewport
parse_viewport value = do
  payload ← as_record value "viewport"
  width ← as_number (get "width" payload) "viewport width"
  height ← as_number (get "height" payload) "viewport height"
  anchor_x ← as_number (get "anchor_x" payload) "viewport anchor_x"
  anchor_y ← as_number (get "anchor_y" payload) "viewport anchor_y"
  refuse_if
      (le_nat width 0
        || le_nat height 0
        || is_negative anchor_x
        || gt_nat anchor_x 1
        || is_negative anchor_y
        || gt_nat anchor_y 1)
      bad_viewport
  ok (record { width = width; height = height; anchor_x = anchor_x; anchor_y = anchor_y })

abbrev pub checked_transition : Value → Checked String
checked_transition (string s) = if is_frame_id s then ok s else err bad_transition_id
checked_transition _ = err bad_transition_id

-- The six clips and no other key.
abbrev pub has_clip_set : List String → Bool
has_clip_set actual =
    length actual == 6 && all (λ state. includes actual (clip_id state)) avatar_states

abbrev pub clip_of : Fields → String → FrameTable → AvatarState → Checked ClipDefinition
clip_of payload transition table state =
    parse_clip (get (clip_id state) payload) state transition table

abbrev pub choose : (i l t s h e : ClipDefinition) → AvatarState → ClipDefinition
choose i l t s h e idle = i
choose i l t s h e listening = l
choose i l t s h e thinking = t
choose i l t s h e speaking = s
choose i l t s h e happy = h
choose i l t s h e error = e

-- The loop over the six states.
unfoldable pub parse_clips : Fields → String → FrameTable → Checked (AvatarState → ClipDefinition)
parse_clips payload transition table = do
  i ← clip_of payload transition table idle
  l ← clip_of payload transition table listening
  t ← clip_of payload transition table thinking
  s ← clip_of payload transition table speaking
  h ← clip_of payload transition table happy
  e ← clip_of payload transition table error
  ok (choose i l t s h e)

unfoldable pub parse_manifest : Value → Checked AvatarManifest
parse_manifest value = do
  payload ← as_record value "avatar manifest"
  refuse_if (not (is_text (get "version" payload) "4.0")) bad_version
  character ← checked_character (get "character" payload)
  viewport ← parse_viewport (get "viewport" payload)
  transition ← checked_transition (get "transition_frame_id" payload)
  table ← parse_frames (get "frames" payload)
  refuse_if (not (is_known table transition)) missing_transition
  clips_payload ← as_record (get "clips" payload) "clips"
  refuse_if (not (has_clip_set (keys clips_payload))) wrong_clip_set
  clips ← parse_clips clips_payload transition table
  ok (record {
    character = character;
    viewport = viewport;
    transition_frame_id = transition;
    frames = table.own;
    inherited = table.inherited;
    clips = clips;
  })
