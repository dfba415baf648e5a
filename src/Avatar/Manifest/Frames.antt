-- ===== src/Avatar/Manifest/Frames.antt =====
-- frontend/realtime/src/avatarLab/manifest.ts: `parseFrames`. The table of frames is an object with
-- the ordinary prototype, so an entry named `__proto__` becomes its prototype.
use agent_speak.Base.{
  String, Bool, true, false, not, ◌&&◌, ◌||◌, List, [], ◌∷◌, Option, none, some, str_eq,
  if◌then◌else◌, includes, insert, is_some, All, codes, ◌≡◌, arith, Bool-cases, inl, inr,
}
use agent_speak.Base.Json.{Value, Fields, end, field, get, string}
use agent_speak.Avatar.Types.{FrameDefinition}
use agent_speak.Avatar.Manifest.Fields.{
  bad_frame_id, bad_sha256, no_frames, Checked, ok, err, ◌>>=◌, ◌>>◌, refuse_if, >>=-eq-ok,
  as_record, is_frame_id, is_sha256, is_asset_path, project_asset_path,
}

pub record FrameTable : Type 0 where
  pub own : List (String × FrameDefinition)
  pub inherited : Option FrameDefinition

abbrev pub empty_table : FrameTable
empty_table = record { own = []; inherited = none }

-- `frames[frameId] = …`
abbrev pub assign : FrameTable → String → FrameDefinition → FrameTable
assign table k d =
    if str_eq k "__proto__"
    then record table { inherited = some d }
    else record table { own = insert k d table.own }

abbrev pub own_keys : List (String × FrameDefinition) → List String
own_keys [] = []
own_keys ((k, d) ∷ own) = k ∷ own_keys own

-- The names that every object inherits.
abbrev pub prototype_names : List String
prototype_names =
    "constructor" ∷ "__defineGetter__" ∷ "__defineSetter__" ∷ "hasOwnProperty" ∷ "__lookupGetter__"
    ∷ "__lookupSetter__" ∷ "isPrototypeOf" ∷ "propertyIsEnumerable" ∷ "toString" ∷ "valueOf"
    ∷ "__proto__" ∷ "toLocaleString" ∷ []

-- `frameId in frames`
unfoldable pub is_known : FrameTable → String → Bool
is_known table k =
    includes (own_keys table.own) k
    || (is_some table.inherited && (str_eq k "src" || str_eq k "sha256"))
    || includes prototype_names k

abbrev pub checked_sha256 : Value → String → Checked String
checked_sha256 (string s) k = if is_sha256 s then ok s else err (bad_sha256 k)
checked_sha256 _ k = err (bad_sha256 k)

unfoldable pub parse_frame : String → Value → Checked FrameDefinition
parse_frame k raw = do
  refuse_if (not (is_frame_id k)) (bad_frame_id k)
  frame ← as_record raw k
  sha256 ← checked_sha256 (get "sha256" frame) k
  src ← project_asset_path (get "src" frame) k
  ok (record { src = src; sha256 = sha256 })

-- The loop over the entries.
unfoldable pub parse_entries : FrameTable → Fields → Checked FrameTable
unfolding parse_frame
parse_entries table end = ok table
parse_entries table (field k raw rest) = do
  d ← parse_frame k raw
  parse_entries (assign table k d) rest

abbrev pub is_empty : List (String × FrameDefinition) → Bool
is_empty [] = true
is_empty _ = false

unfoldable pub parse_frames : Value → Checked FrameTable
unfolding parse_entries
parse_frames value = do
  payload ← as_record value "frames"
  table ← parse_entries empty_table payload
  refuse_if (is_empty table.own) no_frames
  ok table

-- A frame as the manifest promises it.
pub record IsFrame (entry : String × FrameDefinition) : Type 0 where
  pub named : is_frame_id entry.0 ≡ true
  pub hashed : is_sha256 entry.1.sha256 ≡ true
  pub located : is_asset_path (codes entry.1.src) ≡ true

parse_frame-IsFrame :
    (k : String) (raw : Value) (d : FrameDefinition) → parse_frame k raw ≡ ok d → IsFrame (k, d)
unfolding parse_frame
parse_frame-IsFrame k raw d h = ground arith

insert-All :
    (P : String × FrameDefinition → Type 0) (k : String) (d : FrameDefinition)
    (own : List (String × FrameDefinition))
    → All P own
    → P (k, d)
    → All P (insert k d own)
insert-All P k d [] h p = (p, tt)
insert-All P k d ((j, e) ∷ own) h p = ground (arith, insert-All P k d own h.1 p)

pub parse_entries-IsFrame :
    (fs : Fields) (table final : FrameTable)
    → All IsFrame table.own
    → parse_entries table fs ≡ ok final
    → All IsFrame final.own
unfolding parse_entries
parse_entries-IsFrame end table final h e = ground arith
parse_entries-IsFrame (field k raw rest) table final h e =
    let (d, parsed, more) = >>=-eq-ok (parse_frame k raw) _ e in
    parse_entries-IsFrame rest (assign table k d) final
      (elim (Bool-cases (str_eq k "__proto__")) [
        | inl proto ↦ rw proto h
        | inr plain ↦
            rw plain (insert-All IsFrame k d table.own h (parse_frame-IsFrame k raw d parsed))
      ])
      more
