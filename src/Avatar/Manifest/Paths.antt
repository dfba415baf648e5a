-- ===== src/Avatar/Manifest/Paths.antt =====
-- frontend/realtime/src/avatarLab/manifest.ts: the sources of the frames stay below the assets.
use mathlib.Core.Path.{subst}
use agent_speak.Base.{
  ℕ, true, false, not, List, [], ◌∷◌, ◌++◌, some, Option-cases, inl, inr, sym, ◌==◌, codes, any,
  All, strip_prefix, starts_with, same_codes, split, ◌≡◌, ◌≢◌, refl, arith,
}
use agent_speak.Base.Json.{Value, object, get, keys, is_text}
use agent_speak.Avatar.Types.{AvatarManifest}
use agent_speak.Avatar.Manifest.Fields.{
  ok, >>=-eq-ok, ok-injective, refuse_if, as_record, no_frames, bad_version, missing_transition,
  wrong_clip_set, is_asset_path,
}
use agent_speak.Avatar.Manifest.Frames.{
  FrameTable, IsFrame, empty_table, is_known, is_empty, parse_entries, parse_entries-IsFrame,
  parse_frames,
}
use agent_speak.Avatar.Manifest.Parse.{
  checked_character, parse_viewport, checked_transition, has_clip_set, parse_clips, parse_manifest,
}

strip_prefix-some : (p s r : List ℕ) → strip_prefix p s ≡ some r → s ≡ p ++ r
strip_prefix-some [] s r h = ground arith
strip_prefix-some (x ∷ p) [] r h = cc
strip_prefix-some (x ∷ p) (y ∷ s) r h = ground (arith, strip_prefix-some p s r)

same_codes_refl : (xs : List ℕ) → same_codes xs xs ≡ true
same_codes_refl [] = refl
same_codes_refl (x ∷ xs) = ground (arith, same_codes_refl xs)

any-same_codes :
    (part : List ℕ) (parts : List (List ℕ))
    → any (same_codes part) parts ≡ false
    → All (λ p. p ≢ part) parts
any-same_codes part [] h = tt
any-same_codes part (p ∷ parts) h = (
  λ e.
      let seen : same_codes part p ≡ true =
        subst (λ q. same_codes part q ≡ true) (sym e) (same_codes_refl part) in
      ground arith,
  any-same_codes part parts (ground arith),
)

any-code : (c : ℕ) (s : List ℕ) → any (λ d. c == d) s ≡ false → All (λ d. d ≢ c) s
any-code c [] h = tt
any-code c (d ∷ s) h = (λ e. ground arith, any-code c s (ground arith))

-- A path below `assets/clips/` that no part leads out of, with no other separator.
pub record IsInside (src : List ℕ) : Type 0 where
  pub below : (rest : List ℕ) × (src ≡ codes "assets/clips/" ++ rest)
  pub no_parent : All (λ part. part ≢ codes "..") (split b'/' src)
  pub no_backslash : All (λ c. c ≢ 92) src

prefix-below : (p s : List ℕ) → starts_with p s ≡ true → (rest : List ℕ) × (s ≡ p ++ rest)
prefix-below p s h = elim (Option-cases (strip_prefix p s)) [
  | inl none_left ↦ absurd (ground arith)
  | inr (r, e) ↦ (r, strip_prefix-some p s r e)
]

is_asset_path-IsInside : (src : List ℕ) → is_asset_path src ≡ true → IsInside src
unfolding is_asset_path
is_asset_path-IsInside src h = record {
  below = prefix-below (codes "assets/clips/") src (ground arith);
  no_parent = any-same_codes (codes "..") (split b'/' src) (ground arith);
  no_backslash = any-code 92 src (ground arith);
}

All-map {ℓ} :
    {A : Type ℓ} (P Q : A → Type 0) (xs : List A) → ((a : A) → P a → Q a) → All P xs → All Q xs
All-map P Q [] f h = tt
All-map P Q (x ∷ xs) f h = (f x h.0, All-map P Q xs f h.1)

parse_frames-IsFrame :
    (value : Value) (table : FrameTable) → parse_frames value ≡ ok table → All IsFrame table.own
unfolding parse_frames
parse_frames-IsFrame value table h =
    let (payload, _, h1) = >>=-eq-ok (as_record value "frames") _ h in
    let (read, parsed, h2) = >>=-eq-ok (parse_entries empty_table payload) _ h1 in
    let (_, _, h3) = >>=-eq-ok (refuse_if (is_empty read.own) no_frames) _ h2 in
    subst (λ (t : FrameTable). All IsFrame t.own) (ok-injective h3)
      (parse_entries-IsFrame payload empty_table read tt parsed)

parse_manifest-IsFrame :
    (value : Value) (m : AvatarManifest) → parse_manifest value ≡ ok m → All IsFrame m.frames
unfolding parse_manifest
parse_manifest-IsFrame (object payload) m h =
    let (_, _, h1) =
      >>=-eq-ok (refuse_if (not (is_text (get "version" payload) "4.0")) bad_version) _ h in
    let (character, _, h2) = >>=-eq-ok (checked_character (get "character" payload)) _ h1 in
    let (viewport, _, h3) = >>=-eq-ok (parse_viewport (get "viewport" payload)) _ h2 in
    let (transition, _, h4) =
      >>=-eq-ok (checked_transition (get "transition_frame_id" payload)) _ h3 in
    let (table, read, h5) = >>=-eq-ok (parse_frames (get "frames" payload)) _ h4 in
    let (_, _, h6) =
      >>=-eq-ok (refuse_if (not (is_known table transition)) missing_transition) _ h5 in
    let (clips_payload, _, h7) = >>=-eq-ok (as_record (get "clips" payload) "clips") _ h6 in
    let (_, _, h8) =
      >>=-eq-ok (refuse_if (not (has_clip_set (keys clips_payload))) wrong_clip_set) _ h7 in
    let (clips, _, h9) = >>=-eq-ok (parse_clips clips_payload transition table) _ h8 in
    subst (λ (n : AvatarManifest). All IsFrame n.frames) (ok-injective h9)
      (parse_frames-IsFrame (get "frames" payload) table read)
parse_manifest-IsFrame _ m h = cc

-- The source of every frame of an accepted manifest lies below `assets/clips/`, no part of it is
-- `..`, and it holds no backslash.
pub parse_manifest-IsInside :
    (value : Value) (m : AvatarManifest)
    → parse_manifest value ≡ ok m
    → All (λ entry. IsInside (codes entry.1.src)) m.frames
parse_manifest-IsInside value m h =
    All-map IsFrame (λ entry. IsInside (codes entry.1.src)) m.frames
      (λ entry f. is_asset_path-IsInside (codes entry.1.src) f.located)
      (parse_manifest-IsFrame value m h)
