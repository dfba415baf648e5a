-- ===== src/Audio/Wav.antt =====
-- frontend/realtime/src/ttsClone/audio.ts: `encodePcm16Wav`. A sample of the Int16Array is its bit
-- pattern, a number below 65536; a byte is a number below 256. The buffer begins as zero bytes.
use agent_speak.Base.{ℕ, zero, suc, ◌+◌, ◌*◌, ◌/◌, ◌%◌, List, [], ◌∷◌, ◌++◌, codes, length, set}

abbrev pub replicate : ℕ → ℕ → List ℕ
replicate zero b = []
replicate (suc n) b = b ∷ replicate n b

-- The bytes from an offset on are written over.
unfoldable pub write_bytes : ℕ → List ℕ → List ℕ → List ℕ
write_bytes offset [] view = view
write_bytes offset (b ∷ bs) view = write_bytes (suc offset) bs (set view offset b)

-- Little-endian bytes of `value` taken modulo the width.
abbrev pub le16 : ℕ → List ℕ
le16 value = value % 256 ∷ value / 256 % 256 ∷ []

abbrev pub le32 : ℕ → List ℕ
le32 value = value % 256 ∷ value / 256 % 256 ∷ value / 65536 % 256 ∷ value / 16777216 % 256 ∷ []

abbrev pub sample_bytes : List ℕ → List ℕ
sample_bytes [] = []
sample_bytes (s ∷ ss) = le16 s ++ sample_bytes ss

abbrev pub byte_length : List ℕ → ℕ
byte_length samples = 2 * length samples

-- The writes of the header, in the source's order.
abbrev pub header_writes : ℕ → ℕ → List (ℕ × List ℕ)
header_writes size rate =
    (0, codes "RIFF")
    ∷ (4, le32 (36 + size))
    ∷ (8, codes "WAVE")
    ∷ (12, codes "fmt ")
    ∷ (16, le32 16)
    ∷ (20, le16 1)
    ∷ (22, le16 1)
    ∷ (24, le32 rate)
    ∷ (28, le32 (rate * 2))
    ∷ (32, le16 2)
    ∷ (34, le16 16)
    ∷ (36, codes "data")
    ∷ (40, le32 size)
    ∷ []

unfoldable pub write_all : List (ℕ × List ℕ) → List ℕ → List ℕ
unfolding write_bytes
write_all [] view = view
write_all ((offset, bytes) ∷ writes) view = write_all writes (write_bytes offset bytes view)

unfoldable pub encode_pcm16_wav : List ℕ → ℕ → List ℕ
unfolding write_all
encode_pcm16_wav samples rate =
    write_bytes 44 (sample_bytes samples) (
      write_all (header_writes (byte_length samples) rate) (replicate (44 + byte_length samples) 0))
