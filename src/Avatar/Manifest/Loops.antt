-- ===== src/Avatar/Manifest/Loops.antt =====
-- frontend/realtime/src/avatarLab/manifest.ts: the clips of an accepted manifest are loops.
use mathlib.Core.Path.{subst}
use agent_speak.Base.{
  ℕ, zero, suc, ◌-◌, ◌≤◌, String, true, false, not, ◌||◌, List, [], ◌∷◌, some, eq_iff, get_elem?,
  length, All, ◌≡◌, arith,
}
use agent_speak.Base.Json.{
  Value, Items, nil, cons, Fields, object, get, le_nat, gt_nat, is_text, keys,
}
use agent_speak.Avatar.Types.{
  AvatarState, idle, listening, thinking, speaking, happy, error, ClipDefinition, AvatarManifest,
}
use agent_speak.Avatar.Scheduler.Frames.{IsLooping}
use agent_speak.Avatar.Manifest.Fields.{
  ok, ◌>>◌, refuse_if, not_shared, >>=-eq-ok, ok-injective, bad_version, as_record,
  missing_transition, wrong_clip_set,
}
use agent_speak.Avatar.Manifest.Frames.{FrameTable, is_known, parse_frames}
use agent_speak.Avatar.Manifest.Clips.{
  length_items, long_array, known_id, read_ids, id_at, read_frames, parse_clip,
}
use agent_speak.Avatar.Manifest.Parse.{
  choose, clip_of, parse_clips, parse_manifest, checked_character, parse_viewport,
  checked_transition, has_clip_set,
}

read_ids-known :
    (table : FrameTable) (state : AvatarState) (items : Items) (ids : List String)
    → read_ids table state items ≡ ok ids
    → (length ids ≡ length_items items) × All (λ k. is_known table k ≡ true) ids
unfolding read_ids
read_ids-known table state nil ids h = ground arith
read_ids-known table state (cons v vs) ids h =
    let (k, first, rest) = >>=-eq-ok (known_id table state v) _ h in
    let (ks, others, done) = >>=-eq-ok (read_ids table state vs) _ rest in
    ground (arith, read_ids-known table state vs ks others)

shared_ends :
    (state : AvatarState) (transition : String) (ids got : List String)
    → (refuse_if
          (not (id_at ids 0 transition) || not (id_at ids (length ids - 1) transition))
          (not_shared state)
        >> ok ids)
      ≡ ok got
    → (got ≡ ids) × (id_at ids 0 transition ≡ true) × (id_at ids (length ids - 1) transition ≡ true)
shared_ends state transition ids got h = ground arith

long_array-long :
    (value : Value) (state : AvatarState) (items : Items)
    → long_array value state ≡ ok items
    → 3 ≤ length_items items
long_array-long value state items h = ground arith

pub record IsShared (transition : String) (table : FrameTable) (ids : List String) : Type 0 where
  pub long : 3 ≤ length ids
  pub opens : id_at ids 0 transition ≡ true
  pub closes : id_at ids (length ids - 1) transition ≡ true
  pub known : All (λ k. is_known table k ≡ true) ids

-- What the check of a clip grants.
pub record IsClip (transition : String) (table : FrameTable) (state : AvatarState)
    (c : ClipDefinition) : Type 0 where
  pub own_state : c.state ≡ state
  pub shared : IsShared transition table c.frames
  pub positive : le_nat c.fps 0 ≡ false
  pub bounded : gt_nat c.fps 60 ≡ false

read_frames-IsShared :
    (value : Value) (state : AvatarState) (transition : String) (table : FrameTable)
    (got : List String)
    → read_frames value state transition table ≡ ok got
    → IsShared transition table got
unfolding read_frames
read_frames-IsShared value state transition table got h =
    let (items, long, h1) = >>=-eq-ok (long_array value state) _ h in
    let (ids, read, h2) = >>=-eq-ok (read_ids table state items) _ h1 in
    let (same, opens, closes) = shared_ends state transition ids got h2 in
    let (size, known) = read_ids-known table state items ids read in
    rw same (record {
      long = omega (arith, size, long_array-long value state items long);
      opens = opens;
      closes = closes;
      known = known;
    })

parse_clip-IsClip :
    (value : Value) (state : AvatarState) (transition : String) (table : FrameTable)
    (c : ClipDefinition)
    → parse_clip value state transition table ≡ ok c
    → IsClip transition table state c
unfolding parse_clip
parse_clip-IsClip (object clip) state transition table c h =
    ground (arith, read_frames-IsShared (get "frames" clip) state transition table c.frames)
parse_clip-IsClip _ state transition table c h = ground arith

abbrev pub AreClips : String → FrameTable → (AvatarState → ClipDefinition) → Type 0
AreClips transition table clips =
    (state : AvatarState) → IsClip transition table state (clips state)

choose-AreClips :
    (payload : Fields) (transition : String) (table : FrameTable) (i l t s h e : ClipDefinition)
    → clip_of payload transition table idle ≡ ok i
    → clip_of payload transition table listening ≡ ok l
    → clip_of payload transition table thinking ≡ ok t
    → clip_of payload transition table speaking ≡ ok s
    → clip_of payload transition table happy ≡ ok h
    → clip_of payload transition table error ≡ ok e
    → AreClips transition table (choose i l t s h e)
choose-AreClips payload transition table i l t s h e pi pl pt ps ph pe idle =
    parse_clip-IsClip _ idle transition table i pi
choose-AreClips payload transition table i l t s h e pi pl pt ps ph pe listening =
    parse_clip-IsClip _ listening transition table l pl
choose-AreClips payload transition table i l t s h e pi pl pt ps ph pe thinking =
    parse_clip-IsClip _ thinking transition table t pt
choose-AreClips payload transition table i l t s h e pi pl pt ps ph pe speaking =
    parse_clip-IsClip _ speaking transition table s ps
choose-AreClips payload transition table i l t s h e pi pl pt ps ph pe happy =
    parse_clip-IsClip _ happy transition table h ph
choose-AreClips payload transition table i l t s h e pi pl pt ps ph pe error =
    parse_clip-IsClip _ error transition table e pe

parse_clips-AreClips :
    (payload : Fields) (transition : String) (table : FrameTable)
    (clips : AvatarState → ClipDefinition)
    → parse_clips payload transition table ≡ ok clips
    → AreClips transition table clips
unfolding parse_clips
parse_clips-AreClips payload transition table clips h0 =
    let of = clip_of payload transition table in
    let (i, pi, h1) = >>=-eq-ok (of idle) _ h0 in
    let (l, pl, h2) = >>=-eq-ok (of listening) _ h1 in
    let (t, pt, h3) = >>=-eq-ok (of thinking) _ h2 in
    let (s, ps, h4) = >>=-eq-ok (of speaking) _ h3 in
    let (h, ph, h5) = >>=-eq-ok (of happy) _ h4 in
    let (e, pe, h6) = >>=-eq-ok (of error) _ h5 in
    subst (AreClips transition table) (ok-injective h6)
      (choose-AreClips payload transition table i l t s h e pi pl pt ps ph pe)

id_at-get_elem? :
    (ids : List String) (i : ℕ) (k : String) → id_at ids i k ≡ true → get_elem? ids i ≡ some k
id_at-get_elem? [] i k h = cc
id_at-get_elem? (x ∷ ids) zero k h = ground (arith, eq_iff x k)
id_at-get_elem? (x ∷ ids) (suc i) k h = id_at-get_elem? ids i k h

-- The table that the frames were read into.
abbrev pub frame_table : AvatarManifest → FrameTable
frame_table m = record { own = m.frames; inherited = m.inherited }

-- Every clip of an accepted manifest is that of its state, has a frame rate above 0 and at most 60,
-- three frames or more, the shared frame at both ends, and only frames that the table answers for.
pub parse_manifest-AreClips :
    (value : Value) (m : AvatarManifest)
    → parse_manifest value ≡ ok m
    → AreClips m.transition_frame_id (frame_table m) m.clips
unfolding parse_manifest
parse_manifest-AreClips (object payload) m h =
    let (_, _, h1) =
      >>=-eq-ok (refuse_if (not (is_text (get "version" payload) "4.0")) bad_version) _ h in
    let (character, _, h2) = >>=-eq-ok (checked_character (get "character" payload)) _ h1 in
    let (viewport, _, h3) = >>=-eq-ok (parse_viewport (get "viewport" payload)) _ h2 in
    let (transition, _, h4) =
      >>=-eq-ok (checked_transition (get "transition_frame_id" payload)) _ h3 in
    let (table, _, h5) = >>=-eq-ok (parse_frames (get "frames" payload)) _ h4 in
    let (_, _, h6) =
      >>=-eq-ok (refuse_if (not (is_known table transition)) missing_transition) _ h5 in
    let (clips_payload, _, h7) = >>=-eq-ok (as_record (get "clips" payload) "clips") _ h6 in
    let (_, _, h8) =
      >>=-eq-ok (refuse_if (not (has_clip_set (keys clips_payload))) wrong_clip_set) _ h7 in
    let (clips, read, h9) = >>=-eq-ok (parse_clips clips_payload transition table) _ h8 in
    subst (λ (n : AvatarManifest). AreClips n.transition_frame_id (frame_table n) n.clips)
      (ok-injective h9) (parse_clips-AreClips clips_payload transition table clips read)
parse_manifest-AreClips _ m h = cc

-- So the scheduler may play an accepted manifest.
parse_manifest-IsLooping :
    (value : Value) (m : AvatarManifest) → parse_manifest value ≡ ok m → IsLooping m
parse_manifest-IsLooping value m h state =
    let c = (parse_manifest-AreClips value m h state).shared in
    record {
      long = c.long;
      first_shared = id_at-get_elem? (m.clips state).frames 0 m.transition_frame_id c.opens;
      last_shared =
          id_at-get_elem? (m.clips state).frames (length (m.clips state).frames - 1)
            m.transition_frame_id c.closes;
    }
