-- ===== src/Audio/Header.antt =====
-- frontend/realtime/src/ttsClone/audio.ts: the bytes that `encodePcm16Wav` writes, and their reading.
use agent_speak.Base.{
  ℕ, zero, suc, ◌+◌, ◌*◌, ◌/◌, ◌%◌, ◌<◌, List, [], ◌∷◌, ◌++◌, codes, length, set, drop, All, ◌≡◌,
  refl, ap, ◌∙◌, arith, sym,
}
use agent_speak.Audio.Wav.{
  replicate, write_bytes, le16, le32, sample_bytes, byte_length, header_writes, write_all,
  encode_pcm16_wav,
}

zero_add : (n : ℕ) → zero + n ≡ n
zero_add n = omega arith

suc_add : (m n : ℕ) → suc m + n ≡ suc (m + n)
suc_add m n = omega arith

add_suc : (m n : ℕ) → suc (m + n) ≡ m + suc n
add_suc m n = omega arith

pub replicate-add : (m n b : ℕ) → replicate (m + n) b ≡ replicate m b ++ replicate n b
replicate-add zero n b = ap (λ k. replicate k b) (zero_add n)
replicate-add (suc m) n b = ap (λ k. replicate k b) (suc_add m n) ∙ ap (◌∷◌ b) (replicate-add m n b)

set-append : (h t : List ℕ) (i v : ℕ) → set (h ++ t) (length h + i) v ≡ h ++ set t i v
set-append [] t i v = ap (λ k. set t k v) (zero_add i)
set-append (x ∷ h) t i v =
    ap (λ k. set (x ∷ h ++ t) k v) (suc_add (length h) i) ∙ ap (◌∷◌ x) (set-append h t i v)

pub write_bytes-append :
    (bs h t : List ℕ) (i : ℕ) → write_bytes (length h + i) bs (h ++ t) ≡ h ++ write_bytes i bs t
unfolding write_bytes
write_bytes-append [] h t i = refl
write_bytes-append (b ∷ bs) h t i =
    ap (write_bytes (suc (length h + i)) bs) (set-append h t i b)
    ∙ ap (λ k. write_bytes k bs (h ++ set t i b)) (add_suc (length h) i)
    ∙ write_bytes-append bs h (set t i b) (suc i)

-- Writing as many bytes as the buffer is long leaves those bytes.
pub write_bytes-replicate : (bs : List ℕ) → write_bytes 0 bs (replicate (length bs) 0) ≡ bs
unfolding write_bytes
write_bytes-replicate [] = refl
write_bytes-replicate (b ∷ bs) =
    write_bytes-append bs (b ∷ []) (replicate (length bs) 0) 0
    ∙ ap (◌∷◌ b) (write_bytes-replicate bs)

length-sample_bytes : (ss : List ℕ) → length (sample_bytes ss) ≡ byte_length ss
length-sample_bytes [] = omega arith
length-sample_bytes (s ∷ ss) = omega (arith, length-sample_bytes ss)

-- The 44 bytes of the header.
abbrev pub header : ℕ → ℕ → List ℕ
header size rate =
    codes "RIFF"
    ++ le32 (36 + size)
    ++ codes "WAVE"
    ++ codes "fmt "
    ++ le32 16
    ++ le16 1
    ++ le16 1
    ++ le32 rate
    ++ le32 (rate * 2)
    ++ le16 2
    ++ le16 16
    ++ codes "data"
    ++ le32 size

header-written :
    (size rate : ℕ) (t : List ℕ)
    → write_all (header_writes size rate) (replicate 44 0 ++ t) ≡ header size rate ++ t
unfolding write_all
header-written size rate t = refl

-- The file is the header of 44 bytes, with the sizes and the rate in their places, and the samples.
pub encode_pcm16_wav-layout :
    (samples : List ℕ) (rate : ℕ)
    → encode_pcm16_wav samples rate ≡ header (byte_length samples) rate ++ sample_bytes samples
unfolding encode_pcm16_wav
encode_pcm16_wav-layout samples rate =
    let size = byte_length samples in
    let data_bytes = sample_bytes samples in
    let zeros = replicate size 0 in
    ap (λ v. write_bytes 44 data_bytes (write_all (header_writes size rate) v))
      (replicate-add 44 size 0)
    ∙ ap (write_bytes 44 data_bytes) (header-written size rate zeros)
    ∙ write_bytes-append data_bytes (header size rate) zeros 0
    ∙ ap (λ n. header size rate ++ write_bytes 0 data_bytes (replicate n 0))
        (sym (length-sample_bytes samples))
    ∙ ap (◌++◌ (header size rate)) (write_bytes-replicate data_bytes)

-- Reading the file back, at the places that the WAV format gives its fields.
abbrev pub read16 : List ℕ → ℕ
read16 (a ∷ b ∷ _) = a + 256 * b
read16 _ = 0

abbrev pub read32 : List ℕ → ℕ
read32 (a ∷ b ∷ c ∷ d ∷ _) = a + 256 * b + 65536 * c + 16777216 * d
read32 _ = 0

abbrev pub read_samples : List ℕ → List ℕ
read_samples [] = []
read_samples (a ∷ []) = []
read_samples (a ∷ b ∷ bs) = (a + 256 * b) ∷ read_samples bs

read_samples-sample_bytes :
    (ss : List ℕ) → All (λ s. s < 65536) ss → read_samples (sample_bytes ss) ≡ ss
read_samples-sample_bytes [] h = refl
read_samples-sample_bytes (s ∷ ss) h =
    let same : s % 256 + 256 * (s / 256 % 256) ≡ s = omega arith in
    ap (λ v. v ∷ read_samples (sample_bytes ss)) same
    ∙ ap (◌∷◌ s) (read_samples-sample_bytes ss h.1)

abbrev pub rate_at : List ℕ → ℕ
rate_at bytes = read32 (drop 24 bytes)

abbrev pub size_at : List ℕ → ℕ
size_at bytes = read32 (drop 40 bytes)

abbrev pub samples_at : List ℕ → List ℕ
samples_at bytes = read_samples (drop 44 bytes)

read_layout :
    (samples : List ℕ) (rate : ℕ)
    → All (λ s. s < 65536) samples
    → rate < 4294967296
    → byte_length samples < 4294967296
    → let file = header (byte_length samples) rate ++ sample_bytes samples in
      (samples_at file ≡ samples)
      × (rate_at file ≡ rate)
      × (size_at file ≡ byte_length samples)
      × (length file ≡ 44 + byte_length samples)
read_layout samples rate h r s = (
  read_samples-sample_bytes samples h,
  omega arith,
  omega arith,
  omega (arith, length-sample_bytes samples),
)

-- A reader of WAV files gets back from the encoded file the samples, the rate and the number of bytes
-- of samples, if each fits its field; and the file is 44 bytes longer than the samples.
pub read-encode_pcm16_wav :
    (samples : List ℕ) (rate : ℕ)
    → All (λ s. s < 65536) samples
    → rate < 4294967296
    → byte_length samples < 4294967296
    → let file = encode_pcm16_wav samples rate in
      (samples_at file ≡ samples)
      × (rate_at file ≡ rate)
      × (size_at file ≡ byte_length samples)
      × (length file ≡ 44 + byte_length samples)
read-encode_pcm16_wav samples rate h r s =
    rw (encode_pcm16_wav-layout samples rate) (read_layout samples rate h r s)
