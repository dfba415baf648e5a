-- ===== src/Capture/Bounds.antt =====
-- frontend/realtime/public/pcm-capture.worklet.js: the bounds of what is posted.
use mathlib.Core.Path.{subst}
use native.Mathlib.Nat.{div-le_of_le-mul}
use agent_speak.Base.{
  ℕ, zero, suc, ◌+◌, ◌-◌, ◌*◌, ◌%◌, ◌≤◌, ◌<◌, Bool, true, false, List, [], ◌∷◌, if◌then◌else◌, ltb,
  length, get_elem?, set, or_else, ◌≡◌, refl, sym, ap, ◌∙◌, arith, All, repeated, All-repeated,
  All-set, length-repeated, length-set, some, inl, inr, Bool-cases, ◌&&◌, get_elem?-set_same,
  get_elem?-set_later, get_elem?-in_range,
}
use agent_speak.Capture.{
  Sample, silence, clamp, magnitude, larger, scale, amount, pcm_of, source_index, bucket_of,
  sample_at, raise, convert, Message, envelope_of, pcm_buffer, messages_of,
}

-- A sample of magnitude 1 at most.
abbrev pub IsUnit : Sample → Type 0
IsUnit s = s.num ≤ suc s.below

clamp-IsUnit : (s : Sample) → IsUnit (clamp s)
clamp-IsUnit s = omega arith

larger-IsUnit : (a b : Sample) → IsUnit a → IsUnit b → IsUnit (larger a b)
larger-IsUnit a b h k = by (ltb (a.num * suc b.below) (b.num * suc a.below))
  where
    by : (t : Bool) → IsUnit (if t then b else a)
    by true = k
    by false = h

-- The product fits into 16 bits with its sign.
amount-le : (s : Sample) → IsUnit s → amount s ≤ scale s
unfolding amount
amount-le s h = div-le_of_le-mul (suc s.below) (ground (arith, h))

-- The signed number of a 16-bit pattern.
abbrev pub read_int16 : ℕ → Bool × ℕ
read_int16 p = if ltb p 32768 then (false, p) else (true, 65536 - p)

-- The sample is rounded towards zero into the range of its sign, with no wrap.
pcm_of-reads :
    (s : Sample)
    → IsUnit s
    → (pcm_of s < 65536)
      × ((read_int16 (pcm_of s)).0 ≡ (s.is_negative && ltb 0 (amount s)))
      × ((read_int16 (pcm_of s)).1 ≡ amount s)
unfolding pcm_of
pcm_of-reads s h = by_sign s.is_negative (amount s) (amount-le s h)
  where
    by_sign :
        (n : Bool) (m : ℕ)
        → m ≤ (if n then 32768 else 32767)
        → let p = if n then (65536 - m) % 65536 else m % 65536 in
          (p < 65536) × ((read_int16 p).0 ≡ (n && ltb 0 m)) × ((read_int16 p).1 ≡ m)
    by_sign true m b = ground arith
    by_sign false m b = ground arith

source_index-lt : (size index : ℕ) → 0 < size → source_index size index < size
source_index-lt size index h = omega arith

get_elem?-IsUnit :
    (xs : List Sample) (i : ℕ) → All IsUnit xs → IsUnit (or_else (get_elem? xs i) silence)
get_elem?-IsUnit [] i h = omega arith
get_elem?-IsUnit (x ∷ xs) zero h = h.0
get_elem?-IsUnit (x ∷ xs) (suc i) h = get_elem?-IsUnit xs i h.1

-- What the loop keeps.
pub record IsConverted (r : List ℕ × List Sample) : Type 0 where
  pub pcm_length : length r.0 ≡ 320
  pub envelope_length : length r.1 ≡ 32
  pub pcm_bounded : All (λ p. p < 65536) r.0
  pub envelope_bounded : All IsUnit r.1

convert-IsConverted :
    (left index : ℕ) (chunk : List Sample) (r : List ℕ × List Sample)
    → IsConverted r
    → IsConverted (convert left index chunk r)
unfolding convert
convert-IsConverted zero index chunk r h = h
convert-IsConverted (suc left) index chunk (pcm, envelope) h =
    let raw = or_else (get_elem? chunk (source_index (length chunk) index)) silence in
    let s = clamp raw in
    let bucket = bucket_of index in
    let old = or_else (get_elem? envelope bucket) silence in
    convert-IsConverted left (suc index) chunk (set pcm index (pcm_of s), raise bucket s envelope)
      (record {
        pcm_length = length-set pcm index (pcm_of s) ∙ h.pcm_length;
        envelope_length = length-set envelope bucket _ ∙ h.envelope_length;
        pcm_bounded =
            All-set (λ p. p < 65536) pcm index (pcm_of s) h.pcm_bounded
              (pcm_of-reads s (clamp-IsUnit raw)).0;
        envelope_bounded =
            All-set IsUnit envelope bucket (larger old (magnitude s)) h.envelope_bounded (
              larger-IsUnit old (magnitude s) (get_elem?-IsUnit envelope bucket h.envelope_bounded)
                (clamp-IsUnit raw));
      })

-- The loop writes the entries from its index on, and no earlier ones.
convert-earlier :
    (left index j : ℕ) (chunk : List Sample) (r : List ℕ × List Sample)
    → j < index
    → get_elem? (convert left index chunk r).0 j ≡ get_elem? r.0 j
unfolding convert
convert-earlier zero index j chunk r h = refl
convert-earlier (suc left) index j chunk (pcm, envelope) h =
    convert-earlier left (suc index) j chunk _ (omega arith)
    ∙ get_elem?-set_later pcm index j (pcm_of (sample_at chunk index)) h

get_elem?-convert :
    (left index j : ℕ) (chunk : List Sample) (r : List ℕ × List Sample)
    → length r.0 ≡ index + left
    → index ≤ j
    → j < index + left
    → get_elem? (convert left index chunk r).0 j ≡ some (pcm_of (sample_at chunk j))
unfolding convert
get_elem?-convert zero index j chunk r n a b = absurd (omega arith)
get_elem?-convert (suc left) index j chunk (pcm, envelope) n a b = elim (Bool-cases (ltb index j)) [
  | inl e ↦
      get_elem?-convert left (suc index) j chunk _
        (length-set pcm index (pcm_of (sample_at chunk index)) ∙ omega arith) (ground arith)
        (omega arith)
  | inr e ↦
      let same : j ≡ index = ground arith in
      subst
        (λ i.
          get_elem?
            (convert left (suc index) chunk (
              set pcm index (pcm_of (sample_at chunk index)),
              raise (bucket_of index) (sample_at chunk index) envelope,
            )).0
            i
          ≡ some (pcm_of (sample_at chunk i)))
        (sym same)
        (convert-earlier left (suc index) index chunk _ (omega arith)
          ∙ get_elem?-set_same pcm index (pcm_of (sample_at chunk index)) (omega arith))
]

-- One entry of the samples that are posted: it reads a sample of the chunk and keeps its sign and its
-- amount, which fits.
pub record IsSampled (chunk : List Sample) (pcm : List ℕ) (j : ℕ) : Type 0 where
  pub source : Sample
  pub in_range : get_elem? chunk (source_index (length chunk) j) ≡ some source
  pub pattern : ℕ
  pub written : get_elem? pcm j ≡ some pattern
  pub bounded : pattern < 65536
  pub sign_kept :
      (read_int16 pattern).0 ≡ ((clamp source).is_negative && ltb 0 (amount (clamp source)))
  pub amount_kept : (read_int16 pattern).1 ≡ amount (clamp source)

pub record IsPosted (chunk : List Sample) (messages : List Message) : Type 0 where
  pub pcm : List ℕ
  pub envelope : List Sample
  pub posted : messages ≡ envelope_of envelope ∷ pcm_buffer pcm ∷ []
  pub sizes : (length pcm ≡ 320) × (length envelope ≡ 32)
  pub peaks : All IsUnit envelope
  pub sampled : (j : ℕ) → j < 320 → IsSampled chunk pcm j

-- For a chunk that is not empty, 320 samples of 16 bits and 32 peaks of magnitude 1 at most are posted;
-- every index that is read lies in the chunk, and every sample fits into 16 bits, with no wrap.
pub messages_of-IsPosted :
    (chunk : List Sample) → 0 < length chunk → IsPosted chunk (messages_of chunk)
unfolding messages_of
messages_of-IsPosted chunk h =
    let start : List ℕ × List Sample = (repeated 320 0, repeated 32 silence) in
    let r = convert 320 0 chunk start in
    let c = convert-IsConverted 320 0 chunk start (record {
      pcm_length = length-repeated {A = ℕ} 320 0;
      envelope_length = length-repeated 32 silence;
      pcm_bounded = All-repeated (λ p. p < 65536) 320 0 (omega arith);
      envelope_bounded = All-repeated IsUnit 32 silence (omega arith);
    }) in
    record {
      pcm = r.0;
      envelope = r.1;
      posted = refl;
      sizes = (c.pcm_length, c.envelope_length);
      peaks = c.envelope_bounded;
      sampled =
          λ j b. sampled_at j b (get_elem?-in_range chunk _ (source_index-lt (length chunk) j h));
    }
  where
    sampled_at :
        (j : ℕ)
        → j < 320
        → ((s : Sample) × (get_elem? chunk (source_index (length chunk) j) ≡ some s))
        → IsSampled chunk (convert 320 0 chunk (repeated 320 0, repeated 32 silence)).0 j
    sampled_at j b (s, e) =
        let (fits, signed, kept) = pcm_of-reads (clamp s) (clamp-IsUnit s) in
        record {
          source = s;
          in_range = e;
          pattern = pcm_of (clamp s);
          written =
              get_elem?-convert 320 0 j chunk (repeated 320 0, repeated 32 silence)
                (length-repeated {A = ℕ} 320 0) (omega arith) b
              ∙ ap (λ o. some (pcm_of (clamp (or_else o silence)))) e;
          bounded = fits;
          sign_kept = signed;
          amount_kept = kept;
        }
