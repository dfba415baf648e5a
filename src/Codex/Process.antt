-- ===== src/Codex/Process.antt =====
-- web/codex.js: `processRecording`. The decoder, the two services and the clipboard are arguments:
-- what they answer to a request. Texts are lists of codes.
use agent_speak.Base.{
  ℕ, suc, ◌-◌, ◌+◌, ◌*◌, Bool, true, false, ◌||◌, List, [], ◌∷◌, Option, none, some, ◌==◌, ltb,
  if◌then◌else◌, is_space,
}
use agent_speak.Codex.Core.{has_required_devices, unchecked, ready}
use agent_speak.Codex.Page.{
  cannot_copy, Failure, empty_audio, too_large, cannot_decode, no_transcript, no_correction, Page,
  World, set_phase, clear_error, show_error, render_controls, remove,
}

abbrev pub max_audio_bytes : ℕ
max_audio_bytes = 8 * 1024 * 1024

unfoldable pub validate_audio_size : ℕ → Option Failure
validate_audio_size size =
    if size == 0
    then some empty_audio
    else if ltb max_audio_bytes size
    then some too_large
    else none

-- `String.trim`
abbrev pub trim_start : List ℕ → List ℕ
trim_start [] = []
trim_start (c ∷ s) = if is_space c then trim_start s else c ∷ s

abbrev pub trim_end : List ℕ → List ℕ
trim_end [] = []
trim_end (c ∷ s) = elim (trim_end s) [
  | [] ↦ if is_space c then [] else c ∷ []
  | d ∷ rest ↦ c ∷ d ∷ rest
]

abbrev pub trim : List ℕ → List ℕ
trim s = trim_end (trim_start s)

-- The trimmed text, or none if nothing is left; a missing text is empty.
unfoldable pub require_text : Option (List ℕ) → Option (List ℕ)
require_text none = none
require_text (some s) = elim (trim s) [ [] ↦ none | c ∷ rest ↦ some (c ∷ rest) ]

-- A reply: refused, or the text of its body.
pub data Reply : Type 0 where
  failed : Failure → Reply
  answered : Option (List ℕ) → Reply

pub data Request : Type 0 where
  asr_request : ℕ → Request
  correct_request : List ℕ → Request
  copies : List ℕ → Request

pub record Services : Type 0 where
  -- The number of samples that a recording of a size decodes to.
  pub decode : ℕ → Option ℕ
  pub asr : ℕ → Reply
  pub correct : List ℕ → Reply
  pub clipboard : List ℕ → Bool

-- The size of the WAV file of `encodeWav`.
abbrev pub wav_size : ℕ → ℕ
wav_size samples = 44 + samples * 2

abbrev pub total : List ℕ → ℕ
total [] = 0
total (n ∷ ns) = n + total ns

abbrev pub fails : Failure → Page → Page × List Request
fails failure p = (show_error failure p, [])

abbrev pub after : Request → Page × List Request → Page × List Request
after r (p, rest) = (p, r ∷ rest)

-- `copyCorrectedText`, of the text that the page shows. Without `automatic`, which is the click on the
-- copy button, an error of the clipboard is shown and nothing handles a blank text.
abbrev pub copy_text : Services → Bool → Page → Option (List ℕ) → Page × List Request
copy_text env true p none = fails no_correction p
copy_text env false p none = (p, [])
copy_text env automatic p (some text) =
    let copied = record p { copy_hidden = env.clipboard text } in
    (
      if env.clipboard text || automatic then copied else show_error cannot_copy copied,
      copies text ∷ [],
    )

unfoldable pub copy_corrected_text : Services → Bool → Page → Page × List Request
copy_corrected_text env automatic p =
    copy_text env automatic p (require_text (some p.corrected_text))

-- `requireText` of the body of a reply.
pub data Heard : Type 0 where
  heard : List ℕ → Heard
  refused : Failure → Heard

unfoldable pub read_reply : Failure → Reply → Heard
read_reply blank (failed failure) = refused failure
read_reply blank (answered text) = elim (require_text text) [
  | none ↦ refused blank
  | some s ↦ heard s
]

abbrev pub show_corrected : Services → Page → Heard → Page × List Request
show_corrected env p (refused failure) = fails failure p
show_corrected env p (heard text) =
    copy_corrected_text env true (record p { corrected_text = text })

unfoldable pub correct_transcript : Services → List ℕ → Page → Page × List Request
correct_transcript env transcript p =
    after (correct_request transcript)
      (show_corrected env p (read_reply no_correction (env.correct transcript)))

abbrev pub show_transcript : Services → Page → Heard → Page × List Request
show_transcript env p (refused failure) = fails failure p
show_transcript env p (heard text) =
    correct_transcript env text (record p { raw_transcript = text })

unfoldable pub recognise : Services → ℕ → Page → Page × List Request
recognise env size p =
    after (asr_request size) (show_transcript env p (read_reply no_transcript (env.asr size)))

abbrev pub upload : Services → ℕ → Page → Option Failure → Page × List Request
upload env size p (some failure) = fails failure p
upload env size p none = recognise env size p

abbrev pub encode : Services → Page → Option ℕ → Page × List Request
encode env p none = fails cannot_decode p
encode env p (some samples) =
    upload env (wav_size samples) p (validate_audio_size (wav_size samples))

abbrev pub decode_source : Services → ℕ → Page → Option Failure → Page × List Request
decode_source env size p (some failure) = fails failure p
decode_source env size p none = encode env p (env.decode size)

unfoldable pub convert : Services → ℕ → Page → Page × List Request
convert env size p = decode_source env size p (validate_audio_size size)

-- The `finally` of `processRecording`.
unfoldable pub process_end : Page → Page
unfolding render_controls
process_end p =
    set_phase (if has_required_devices p.devices then ready else unchecked)
      (record p { chunks = []; recorder = none })

unfoldable pub process_recording : Services → Page → Page × List Request
unfolding process_end convert
process_recording env p =
    let (q, requests) =
      convert env (total p.chunks) (record (clear_error p) { copy_hidden = true }) in
    if p.discard_recording
    then (record p { discard_recording = false; chunks = []; recorder = none }, [])
    else (process_end q, requests)

-- The recorder's `stop` event, up to the first await of the processing. The tests of the recording that
-- come before it count as answers of the services.
unfoldable pub stop_fired : ℕ → World → World
stop_fired r w =
    let v = record w { stopping = remove r w.stopping } in
    if w.page.discard_recording
    then record v {
      page = record w.page { discard_recording = false; chunks = []; recorder = none };
    }
    else record v {
      page = record (clear_error w.page) { copy_hidden = true };
      processing = suc w.processing;
    }

-- The rest of a processing that waits, on the page that there is by then.
unfoldable pub services_answer : Services → World → World
unfolding process_end convert
services_answer env w = if w.processing == 0 then w else record w {
  page = process_end (convert env (total w.page.chunks) w.page).0;
  processing = w.processing - 1;
}
