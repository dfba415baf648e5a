-- ===== src/Capture.antt =====
-- frontend/realtime/public/pcm-capture.worklet.js: the worklet that cuts the microphone's samples into
-- messages of 20 milliseconds. A sample is a fraction with its sign, which is what a finite number of the
-- browser is; the products with 32768 and 32767 are exact. The 16-bit samples are their bit patterns.
pub mod Chunks
pub mod Bounds
pub mod Posts
mod Tests
use agent_speak.Base.{
  ℕ, zero, suc, ◌+◌, ◌-◌, ◌*◌, ◌/◌, ◌%◌, min, Bool, true, false, List, [], ◌∷◌, ◌++◌, map, Option,
  none, some, if◌then◌else◌, ltb, leb, length, get_elem?, set, take, drop, or_else, repeated,
}

-- num / (below + 1), or its opposite.
pub record Sample : Type 0 where
  pub is_negative : Bool
  pub num : ℕ
  pub below : ℕ

abbrev pub silence : Sample
silence = record { is_negative = false; num = 0; below = 0 }

-- `Math.max(-1, Math.min(1, sample))`
abbrev pub clamp : Sample → Sample
clamp s = record s { num = min s.num (suc s.below) }

-- `Math.abs(sample)`
abbrev pub magnitude : Sample → Sample
magnitude s = record s { is_negative = false }

-- `Math.max` of two that are not negative.
abbrev pub larger : Sample → Sample → Sample
larger a b = if ltb (a.num * suc b.below) (b.num * suc a.below) then b else a

abbrev pub scale : Sample → ℕ
scale s = if s.is_negative then 32768 else 32767

-- The product, with its fraction cut off.
unfoldable pub amount : Sample → ℕ
amount s = s.num * scale s / suc s.below

-- What the 16-bit array keeps of a product: its two's complement.
unfoldable pub pcm_of : Sample → ℕ
unfolding amount
pcm_of s = if s.is_negative then (65536 - amount s) % 65536 else amount s % 65536

abbrev pub source_index : ℕ → ℕ → ℕ
source_index size index = min (size - 1) (index * size / 320)

abbrev pub bucket_of : ℕ → ℕ
bucket_of index = min 31 (index / 10)

-- An index out of range, which does not occur, would be read as silence.
abbrev pub sample_at : List Sample → ℕ → Sample
sample_at chunk index =
    clamp (or_else (get_elem? chunk (source_index (length chunk) index)) silence)

abbrev pub raise : ℕ → Sample → List Sample → List Sample
raise bucket s envelope =
    set envelope bucket (larger (or_else (get_elem? envelope bucket) silence) (magnitude s))

-- The rest of the loop, with the rounds that are left.
unfoldable pub convert : ℕ → ℕ → List Sample → List ℕ × List Sample → List ℕ × List Sample
unfolding pcm_of
convert zero index chunk (pcm, envelope) = (pcm, envelope)
convert (suc left) index chunk (pcm, envelope) =
    let s = sample_at chunk index in
    convert left (suc index) chunk (set pcm index (pcm_of s), raise (bucket_of index) s envelope)

pub data Message : Type 0 where
  envelope_of : List Sample → Message
  pcm_buffer : List ℕ → Message

unfoldable pub messages_of : List Sample → List Message
unfolding convert
messages_of chunk =
    let (pcm, envelope) = convert 320 0 chunk (repeated 320 0, repeated 32 silence) in
    envelope_of envelope ∷ pcm_buffer pcm ∷ []

-- `Math.round(sampleRate * 0.02)`
abbrev pub source_samples : ℕ → ℕ
source_samples sample_rate = (sample_rate + 25) / 50

-- The `while` loop: the chunks that are taken, and what is left. As many rounds as there are samples are
-- enough.
unfoldable pub cut : ℕ → ℕ → List Sample → List (List Sample) × List Sample
cut zero size buffer = ([], buffer)
cut (suc fuel) size buffer =
    let (chunks, rest) = cut fuel size (drop size buffer) in
    if leb size (length buffer) then (take size buffer ∷ chunks, rest) else ([], buffer)

abbrev pub messages_of_all : List (List Sample) → List Message
messages_of_all [] = []
messages_of_all (chunk ∷ chunks) = messages_of chunk ++ messages_of_all chunks

unfoldable pub cut_combined : ℕ → List Sample → List Sample → List (List Sample) × List Sample
unfolding cut
cut_combined sample_rate buffer input =
    let combined = buffer ++ input in cut (length combined) (source_samples sample_rate) combined

-- `process`, with the samples of the first channel, [] if there is none, and the messages it posts.
unfoldable pub process : ℕ → List Sample → List Sample → List Sample × List Message
unfolding messages_of cut_combined
process sample_rate buffer [] = (buffer, [])
process sample_rate buffer (s ∷ input) =
    let (chunks, rest) = cut_combined sample_rate buffer (s ∷ input) in
    (rest, messages_of_all chunks)
