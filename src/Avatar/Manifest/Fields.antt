-- ===== src/Avatar/Manifest/Fields.antt =====
-- frontend/realtime/src/avatarLab/manifest.ts: results, and the readers of single fields.
use agent_speak.Base.{
  ℕ, String, Bool, true, false, not, ◌&&◌, List, [], ◌∷◌, ◌==◌, if◌then◌else◌, codes, is_word,
  is_hex, all, any, length, starts_with, ends_with, same_codes, split, ◌≡◌, refl, ap,
}
use agent_speak.Base.Json.{Value, Number, is_finite, number, object, string, Fields}
use agent_speak.Avatar.Types.{AvatarState}

pub data ManifestError : Type 0 where
  not_an_object not_a_number : String → ManifestError
  bad_asset_path bad_frame_id bad_sha256 : String → ManifestError
  no_frames bad_version no_character bad_viewport bad_transition_id : ManifestError
  missing_transition wrong_clip_set : ManifestError
  wrong_state bad_fps not_approved too_few_frames unknown_frame not_shared :
      AvatarState → ManifestError

pub data Checked {ℓ} (A : Type ℓ) : Type ℓ where
  ok : A → Checked A
  err : ManifestError → Checked A

infixl 5 ◌>>=◌ ◌>>◌
abbrev pub ◌>>=◌ {ℓ κ} : {A : Type ℓ} {B : Type κ} → Checked A → (A → Checked B) → Checked B
ok a >>= f = f a
err e >>= f = err e

abbrev pub ◌>>◌ {ℓ} : {B : Type ℓ} → Checked (Unit {0}) → Checked B → Checked B
m >> k = m >>= λ _. k

-- `if (bad) throw …`
abbrev pub refuse_if : Bool → ManifestError → Checked (Unit {0})
refuse_if true e = err e
refuse_if false e = ok tt

abbrev value_or {ℓ} : {A : Type ℓ} → A → Checked A → A
value_or d (ok a) = a
value_or d (err e) = d

pub ok-injective {ℓ} : {A : Type ℓ} {a b : A} → ok a ≡ ok b → a ≡ b
ok-injective {a = a} h = ap (value_or a) h

-- A check in two parts succeeds only if both do.
pub >>=-eq-ok {ℓ κ} :
    {Part : Type ℓ} {Whole : Type κ} (first : Checked Part) (next : Part → Checked Whole)
    {whole : Whole}
    → (first >>= next) ≡ ok whole
    → (part : Part) × (first ≡ ok part) × (next part ≡ ok whole)
>>=-eq-ok (err reason) next passed = cc
>>=-eq-ok (ok part) next passed = (part, refl, passed)

-- `record` and `number`
abbrev pub as_record : Value → String → Checked Fields
as_record (object fs) label = ok fs
as_record _ label = err (not_an_object label)

abbrev pub as_number : Value → String → Checked Number
as_number (number x) label = if is_finite x then ok x else err (not_a_number label)
as_number _ label = err (not_a_number label)

-- `/^[a-z0-9_]+$/`
unfoldable pub is_frame_id : String → Bool
is_frame_id s = elim (codes s) [ [] ↦ false | c ∷ cs ↦ is_word c && all is_word cs ]

-- `/^[0-9a-f]{64}$/`
unfoldable pub is_sha256 : String → Bool
is_sha256 s = all is_hex (codes s) && length (codes s) == 64

abbrev pub has_part : List (List ℕ) → List ℕ → Bool
has_part parts part = any (same_codes part) parts

unfoldable pub is_asset_path : List ℕ → Bool
is_asset_path src =
    starts_with (codes "assets/clips/") src
    && not (starts_with (codes "/") src)
    && not (any (◌==◌ 92) src)
    && not (has_part (split b'/' src) (codes ".."))
    && ends_with (codes ".png") src

abbrev pub project_asset_path : Value → String → Checked String
project_asset_path (string src) frame_id =
    if is_asset_path (codes src) then ok src else err (bad_asset_path frame_id)
project_asset_path _ frame_id = err (bad_asset_path frame_id)
