-- ===== src/Avatar/Manifest/Preload.antt =====
-- frontend/realtime/src/avatarLab/manifest.ts: `preloadManifest`. A load gives an image (known by a
-- number), nothing, or an error; the loads settle in the order in which they start.
use mathlib.Core.Path.{subst}
use agent_speak.Base.{
  sym, Bool, true, false, ◌⊎◌, inl, ◌∙◌, ℕ, String, List, [], ◌∷◌, Option, none, some, str_eq,
  eq_iff, if◌then◌else◌, codes, ends_with, lookup, insert, is_some, length, ◌≡◌, arith,
  lookup-insert,
}
use Prim.Native.String
use agent_speak.Avatar.Types.{FrameDefinition, AvatarManifest}

pub data Loaded : Type 0 where
  image : ℕ → Loaded
  nothing : Loaded
  load_failed : String → Loaded

pub data Preloaded : Type 0 where
  preloaded : ℕ → List (String × ℕ) → Preloaded
  -- The frame whose load failed, and the detail.
  preload_failed : String → String → Preloaded

abbrev pub resolve_source : String → String → String
resolve_source source base =
    if ends_with (codes "/") (codes base)
    then String.◌++◌ base source
    else String.◌++◌ (String.◌++◌ base "/") source

-- The map from a source to the first frame that has it.
unfoldable pub collect :
    List (String × String) → List (String × FrameDefinition) → List (String × String)
collect sources [] = sources
collect sources ((k, d) ∷ frames) =
    collect (if is_some (lookup d.src sources) then sources else insert d.src k sources) frames

-- What a settled load makes of the images, and what comes after it.
abbrev pub settle :
    String → List (String × ℕ) → Loaded → (List (String × ℕ) → Preloaded) → Preloaded
settle k images (image i) next = next (insert k i images)
settle k images nothing next = next images
settle k images (load_failed detail) next = preload_failed k detail

unfoldable pub load_all :
    (String → String → Loaded)
    → String
    → List (String × String)
    → List (String × ℕ)
    → (List (String × ℕ) → Preloaded)
    → Preloaded
load_all load base [] images done = done images
load_all load base ((source, k) ∷ sources) images done =
    settle k images (load (resolve_source source base) k)
      (λ loaded. load_all load base sources loaded done)

unfoldable pub preload_manifest : (String → String → Loaded) → String → AvatarManifest → Preloaded
unfolding collect load_all
preload_manifest load base m =
    let sources = collect [] m.frames in
    load_all load base sources [] (λ images. preloaded (length sources) images)

-- The first frame with a source.
abbrev pub first_with : String → List (String × FrameDefinition) → Option String
first_with src [] = none
first_with src ((k, d) ∷ frames) = if str_eq d.src src then some k else first_with src frames

abbrev or_first : Option String → Option String → Option String
or_first (some k) later = some k
or_first none later = later

-- The source of a frame leads to the first frame that has it, whichever frame asks.
lookup-collect_from :
    (src : String) (sources : List (String × String)) (frames : List (String × FrameDefinition))
    → lookup src (collect sources frames) ≡ or_first (lookup src sources) (first_with src frames)
unfolding collect
lookup-collect_from src sources [] = ground arith
lookup-collect_from src sources ((k, d) ∷ frames) = ground (
  arith,
  lookup-collect_from src sources frames,
  lookup-collect_from src (insert d.src k sources) frames,
  lookup-insert d.src src k sources,
  eq_iff d.src src,
)

abbrev pub has_image : String → Preloaded → Bool
has_image k (preloaded n images) = is_some (lookup k images)
has_image k (preload_failed frame detail) = false

still_there :
    (src k source j : String) (i : ℕ) (sources : List (String × String))
    (images : List (String × ℕ))
    → (lookup src ((source, j) ∷ sources) ≡ some k) ⊎ (is_some (lookup k images) ≡ true)
    → (lookup src sources ≡ some k) ⊎ (is_some (lookup k (insert j i images)) ≡ true)
still_there src k source j i sources images h =
    ground (arith, lookup-insert j k i images, eq_iff source src, eq_iff j k)

-- Once an image is there it stays, and each source that is still to come adds the image of its frame.
load_all-has_image :
    (load : String → String → Loaded) (base src k : String) (n : ℕ)
    (sources : List (String × String)) (images : List (String × ℕ))
    → ((s j : String) → (i : ℕ) × (load s j ≡ image i))
    → (lookup src sources ≡ some k) ⊎ (is_some (lookup k images) ≡ true)
    → has_image k (load_all load base sources images (preloaded n)) ≡ true
unfolding load_all
load_all-has_image load base src k n [] images loads h = ground arith
load_all-has_image load base src k n ((source, j) ∷ sources) images loads h =
    let (i, e) = loads (resolve_source source base) j in
    let next : List (String × ℕ) → Preloaded =
      λ loaded. load_all load base sources loaded (preloaded n) in
    subst (λ l. has_image k (settle j images l next) ≡ true) (sym e)
      (load_all-has_image load base src k n sources (insert j i images) loads
        (still_there src k source j i sources images h))

-- If every load gives an image, the preloading gives one to the first frame of every source.
preload_manifest-has_image :
    (load : String → String → Loaded) (base : String) (m : AvatarManifest) (src k : String)
    → ((s j : String) → (i : ℕ) × (load s j ≡ image i))
    → first_with src m.frames ≡ some k
    → has_image k (preload_manifest load base m) ≡ true
unfolding preload_manifest
preload_manifest-has_image load base m src k loads first =
    load_all-has_image load base src k _ (collect [] m.frames) [] loads
      (inl (lookup-collect_from src [] m.frames ∙ first))
