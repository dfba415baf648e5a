-- ===== src/Avatar/Manifest/Clips.antt =====
-- frontend/realtime/src/avatarLab/manifest.ts: `parseClip`.
use agent_speak.Base.{
  ℕ, suc, ◌-◌, String, Bool, false, not, ◌||◌, List, [], ◌∷◌, none, some, str_eq, ltb,
  if◌then◌else◌, get_elem?, length,
}
use agent_speak.Base.Json.{
  Value, Items, nil, cons, boolean, string, array, get, is_text, le_nat, gt_nat,
}
use agent_speak.Avatar.Types.{AvatarState, ClipDefinition, state_name}
use agent_speak.Avatar.Manifest.Fields.{
  wrong_state, bad_fps, not_approved, too_few_frames, unknown_frame, not_shared, Checked, ok, err,
  ◌>>=◌, ◌>>◌, refuse_if, as_record, as_number,
}
use agent_speak.Avatar.Manifest.Frames.{FrameTable, is_known}

abbrev pub is_true : Value → Bool
is_true (boolean b) = b
is_true _ = false

abbrev pub length_items : Items → ℕ
length_items nil = 0
length_items (cons v vs) = suc (length_items vs)

-- `Array.isArray(clip.frames) && clip.frames.length >= 3`
abbrev pub long_array : Value → AvatarState → Checked Items
long_array (array items) state =
    if ltb (length_items items) 3 then err (too_few_frames state) else ok items
long_array _ state = err (too_few_frames state)

abbrev pub known_id : FrameTable → AvatarState → Value → Checked String
known_id table state (string k) = if is_known table k then ok k else err (unknown_frame state)
known_id table state _ = err (unknown_frame state)

-- The `map` that throws at the first id that is not known.
unfoldable pub read_ids : FrameTable → AvatarState → Items → Checked (List String)
read_ids table state nil = ok []
read_ids table state (cons v vs) = do
  k ← known_id table state v
  ks ← read_ids table state vs
  ok (k ∷ ks)

-- `list[i] === id`
abbrev pub id_at : List String → ℕ → String → Bool
id_at ids i k = elim (get_elem? ids i) [ none ↦ false | some j ↦ str_eq j k ]

-- The list of frame ids, from the test of the array on.
unfoldable pub read_frames : Value → AvatarState → String → FrameTable → Checked (List String)
unfolding read_ids
read_frames value state transition table = do
  items ← long_array value state
  ids ← read_ids table state items
  refuse_if (not (id_at ids 0 transition) || not (id_at ids (length ids - 1) transition))
      (not_shared state)
  ok ids

unfoldable pub parse_clip : Value → AvatarState → String → FrameTable → Checked ClipDefinition
parse_clip value state transition table = do
  clip ← as_record value (state_name state)
  refuse_if (not (is_text (get "state" clip) (state_name state))) (wrong_state state)
  fps ← as_number (get "fps" clip) (state_name state)
  refuse_if (le_nat fps 0 || gt_nat fps 60) (bad_fps state)
  refuse_if
      (not (is_true (get "loop" clip)) || not (is_text (get "quality_status" clip) "approved"))
      (not_approved state)
  ids ← read_frames (get "frames" clip) state transition table
  ok (record { state = state; fps = fps; frames = ids })
