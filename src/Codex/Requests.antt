-- ===== src/Codex/Requests.antt =====
-- web/codex.js: what `processRecording` sends, and what of the page it leaves as it was.
use agent_speak.Base.{
  ℕ, Bool, true, false, List, [], ◌∷◌, Option, none, some, if◌then◌else◌, is_space, ◌≡◌, ◌≢◌, refl,
  arith, ◌≤◌, ◌<◌, All, ◌⊎◌, inl, inr, Option-cases, Bool-cases, ◌∙◌, ap,
}
use agent_speak.Codex.Page.{Failure, no_transcript, no_correction, Page, clear_error}
use agent_speak.Codex.Process.{
  max_audio_bytes, validate_audio_size, trim_start, trim_end, trim, require_text, Reply, failed,
  answered, Request, asr_request, correct_request, copies, Services, Heard, heard, refused,
  read_reply, upload, decode_source, wav_size, copy_corrected_text, copy_text, correct_transcript,
  recognise, convert, process_recording, total,
}

-- A text with something in it and no space at its ends.
abbrev pub IsTrimmed : List ℕ → Type 0
IsTrimmed s = (trim s ≡ s) × (s ≢ [])

abbrev pub IsAllowed : Request → Type 0
IsAllowed (asr_request size) = (0 < size) × (size ≤ max_audio_bytes)
IsAllowed (correct_request text) = IsTrimmed text
IsAllowed (copies text) = IsTrimmed text

trim_end_idem : (s : List ℕ) → trim_end (trim_end s) ≡ trim_end s
trim_end_idem [] = refl
trim_end_idem (c ∷ s) = ground (arith, trim_end_idem s)

trim_end_head :
    (c : ℕ) (s : List ℕ) → is_space c ≡ false → (rest : List ℕ) × (trim_end (c ∷ s) ≡ c ∷ rest)
trim_end_head c s h =
    elim (trim_end s)
      as (λ t.
        (rest : List ℕ) × ((elim t [
          | [] ↦ if is_space c then [] else c ∷ []
          | d ∷ more ↦ c ∷ d ∷ more
        ])
          ≡ c ∷ rest)) [ [] ↦ ([], rw h refl) | d ∷ more ↦ (d ∷ more, refl) ]

trim_start_skips : (c : ℕ) (s : List ℕ) → is_space c ≡ true → trim_start (c ∷ s) ≡ trim_start s
trim_start_skips c s h = rw h refl

trim_start_stays : (c : ℕ) (s : List ℕ) → is_space c ≡ false → trim_start (c ∷ s) ≡ c ∷ s
trim_start_stays c s h = rw h refl

trim_start_end : (s : List ℕ) → trim_start (trim_end (trim_start s)) ≡ trim_end (trim_start s)
trim_start_end [] = refl
trim_start_end (c ∷ s) = elim (Bool-cases (is_space c)) [
  | inl h ↦ rw (trim_start_skips c s h) (trim_start_end s)
  | inr h ↦
      let (rest, e) = trim_end_head c s h in
      rw (trim_start_stays c s h, e) (trim_start_stays c rest h)
]

trim_idem : (s : List ℕ) → trim (trim s) ≡ trim s
trim_idem s = ap trim_end (trim_start_end s) ∙ trim_end_idem (trim_start s)

require_text-IsTrimmed :
    (text : Option (List ℕ)) (got : List ℕ) → require_text text ≡ some got → IsTrimmed got
unfolding require_text
require_text-IsTrimmed none got h = ground arith
require_text-IsTrimmed (some s) got h = ground (arith, trim_idem s)

validate_audio_size-none :
    (size : ℕ) → validate_audio_size size ≡ none → (0 < size) × (size ≤ max_audio_bytes)
unfolding validate_audio_size
validate_audio_size-none size h = ground arith

read_reply-IsTrimmed :
    (blank : Failure) (r : Reply) (got : List ℕ) → read_reply blank r ≡ heard got → IsTrimmed got
unfolding read_reply
read_reply-IsTrimmed blank (failed failure) got h = ground arith
read_reply-IsTrimmed blank (answered text) got h = require_text-IsTrimmed text got (ground arith)

Heard-cases : (h : Heard) → ((f : Failure) × (h ≡ refused f)) ⊎ ((t : List ℕ) × (h ≡ heard t))
Heard-cases (refused f) = inl (f, refl)
Heard-cases (heard t) = inr (t, refl)

copy_text-IsAllowed :
    (env : Services) (automatic : Bool) (p : Page) (text : Option (List ℕ))
    → ((t : List ℕ) → text ≡ some t → IsTrimmed t)
    → All IsAllowed (copy_text env automatic p text).1
copy_text-IsAllowed env true p none h = tt
copy_text-IsAllowed env false p none h = tt
copy_text-IsAllowed env true p (some t) h = (h t refl, tt)
copy_text-IsAllowed env false p (some t) h = (h t refl, tt)

copy_corrected_text-IsAllowed :
    (env : Services) (automatic : Bool) (p : Page)
    → All IsAllowed (copy_corrected_text env automatic p).1
unfolding copy_corrected_text
copy_corrected_text-IsAllowed env automatic p =
    copy_text-IsAllowed env automatic p (require_text (some p.corrected_text))
      (require_text-IsTrimmed (some p.corrected_text))

correct_transcript-IsAllowed :
    (env : Services) (t : List ℕ) (p : Page)
    → IsTrimmed t
    → All IsAllowed (correct_transcript env t p).1
unfolding correct_transcript
correct_transcript-IsAllowed env t p h =
    elim (Heard-cases (read_reply no_correction (env.correct t))) [
      | inl (f, e) ↦ rw e (h, tt)
      | inr (u, e) ↦
          rw e (h, copy_corrected_text-IsAllowed env true (record p { corrected_text = u }))
    ]

recognise-IsAllowed :
    (env : Services) (size : ℕ) (p : Page)
    → (0 < size) × (size ≤ max_audio_bytes)
    → All IsAllowed (recognise env size p).1
unfolding recognise
recognise-IsAllowed env size p h = elim (Heard-cases (read_reply no_transcript (env.asr size))) [
  | inl (f, e) ↦ rw e (h, tt)
  | inr (t, e) ↦ rw e (
    h,
    correct_transcript-IsAllowed env t (record p { raw_transcript = t })
        (read_reply-IsTrimmed no_transcript (env.asr size) t e),
  )
]

upload-IsAllowed :
    (env : Services) (size : ℕ) (p : Page)
    → All IsAllowed (upload env size p (validate_audio_size size)).1
upload-IsAllowed env size p = elim (Option-cases (validate_audio_size size)) [
  | inl e ↦ rw e (recognise-IsAllowed env size p (validate_audio_size-none size e))
  | inr (f, e) ↦ rw e tt
]

decode_source-IsAllowed :
    (env : Services) (size : ℕ) (p : Page) (checked : Option Failure)
    → All IsAllowed (decode_source env size p checked).1
decode_source-IsAllowed env size p (some f) = tt
decode_source-IsAllowed env size p none = elim (Option-cases (env.decode size)) [
  | inl e ↦ rw e tt
  | inr (n, e) ↦ rw e (upload-IsAllowed env (wav_size n) p)
]

discarded_or_sent :
    (discard : Bool) (p q : Page) (rs : List Request)
    → All IsAllowed rs
    → let out : Page × List Request = if discard then (p, []) else (q, rs) in All IsAllowed out.1
discarded_or_sent true p q rs h = tt
discarded_or_sent false p q rs h = h

-- Whatever was recorded and whatever the decoder, the services and the clipboard answer, audio is
-- sent only if it is not empty and not above the limit of 8 MiB, and a text is sent or copied only if
-- something is left of it when it is trimmed, which it is.
pub process_recording-IsAllowed :
    (env : Services) (p : Page) → All IsAllowed (process_recording env p).1
unfolding process_recording convert
process_recording-IsAllowed env p = discarded_or_sent p.discard_recording _ _ _ (
    decode_source-IsAllowed env (total p.chunks) (record (clear_error p) { copy_hidden = true })
      (validate_audio_size (total p.chunks)))
