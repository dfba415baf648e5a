-- ===== src/Studio/Stale.antt =====
-- frontend/realtime/src/ttsClone/App.tsx: the tokens of the synthesis requests.
use agent_speak.Audio.Playback.{Playback, Played, begin_play, finish_play}
use agent_speak.Audio.Recorder.{
  Recorder, Started, started, already_active, start_failed, begin_start, load_module, stop,
}
use mathlib.Core.Path.{subst}
use agent_speak.Base.{
  ℕ, suc, String, Bool, true, false, not, ◌&&◌, ◌||◌, List, [], ◌∷◌, if◌then◌else◌, keep, leb, ◌==◌,
  ◌≡◌, arith, sym, inl, inr, Bool-cases, ◌≤◌, ◌<◌, is_blank, Option, none, some, if-true,
}
use agent_speak.Audio.Playback as Playback
use agent_speak.Base.Json.{is_text}
use agent_speak.Resources.Poll.{phase_seen, reconnect}
use agent_speak.Clone.Api.{Result, ok, failed, SynthesisRequest, ReferenceAssessment}
use agent_speak.Studio.{
  Studio, new_studio, refresh, devices_changed, check_devices, devices_checked, start_recording,
  stop_recording, reference_validated, time_passed, discard_reference, recording_started,
  recording_begun, loaded_one, microphone_granted, microphone_denied, module_loaded,
  recording_stopped, controls_ready, reference_accepted, reference_rejected,
}
use agent_speak.Studio.Generate.{
  toggle_cue, generate, request_speech, answered, show_speech, speech_synthesized, play_generated,
  playback_started, playback_begun, played_one, playback_answered, stop_playback, playback_ended,
}
use agent_speak.Studio.Reset.{
  Reset, reset_resources, begin_reset, start_reset, News, accepts, hears, sees, warns, comes_up,
  breaks, tell,
}
use agent_speak.Studio.Resets.{reset_resources-Concluded}
use agent_speak.Studio.Session.{
  Event, answers_status, clicks_check, clicks_stop_recording, clicks_discard, clicks_generate,
  clicks_stop_playback, answers_check, clicks_record, grants_microphone, denies_microphone,
  loads_module, answers_play, clicks_reset, tells_reset, answers_validation, types, toggles_cue,
  toggles_clone, answers_synthesis, clicks_play, resets, changes_devices, ends_audio, times_out,
  passes_time, receives, apply, run, enabled,
}

-- Every request has one of the tokens up to the last.
abbrev pub AreOld : ℕ → List (ℕ × SynthesisRequest) → Type 0
AreOld token [] = Unit
AreOld token ((t, request) ∷ later) = (t ≤ token) × AreOld token later

abbrev Older : Studio → Type 0
Older s = AreOld s.generation_token s.awaited

abbrev SameTokens : Studio → Studio → Type 0
SameTokens s t = (t.generation_token ≡ s.generation_token) × (t.awaited ≡ s.awaited)

AreOld-suc :
    (token : ℕ) (rs : List (ℕ × SynthesisRequest)) → AreOld token rs → AreOld (suc token) rs
AreOld-suc token [] h = tt
AreOld-suc token ((t, request) ∷ later) h = (omega arith, AreOld-suc token later h.1)

AreOld-keep :
    (token answer : ℕ) (rs : List (ℕ × SynthesisRequest))
    → AreOld token rs
    → AreOld token (keep (λ a. not (a.0 == answer)) rs)
AreOld-keep token answer [] h = tt
AreOld-keep token answer ((t, request) ∷ later) h =
    kept (t == answer) (AreOld-keep token answer later h.1)
  where
    kept :
        (b : Bool)
        → AreOld token (keep (λ a. not (a.0 == answer)) later)
        → AreOld token (
            if not b
            then (t, request) ∷ keep (λ a. not (a.0 == answer)) later
            else keep (λ a. not (a.0 == answer)) later)
    kept true k = k
    kept false k = (h.0, k)

enabled-Older : (on : Bool) (s t : Studio) → Older s → Older t → Older (enabled on s t)
enabled-Older true s t h k = k
enabled-Older false s t h k = h

if-Older : (on : Bool) (s t : Studio) → Older s → Older t → Older (if on then s else t)
if-Older true s t h k = h
if-Older false s t h k = k

recording_started-Older :
    (x : Recorder × Started) (s : Studio) → Older s → Older (recording_started x s)
recording_started-Older (r, started) s h = h
recording_started-Older (r, already_active) s h = h
recording_started-Older (r, start_failed) s h = h

recording_begun-Older : (x : Recorder × Bool) (s : Studio) → Older s → Older (recording_begun x s)
recording_begun-Older (r, true) s h = h
recording_begun-Older (r, false) s h = h

recording_stopped-Older :
    (x : Recorder × Option (List ℕ)) (s : Studio) → Older s → Older (recording_stopped x s).0
recording_stopped-Older (r, none) s h = h
recording_stopped-Older (r, some blob) s h = h

stop_recording-Older : (s : Studio) → Older s → Older (stop_recording s).0
unfolding stop_recording
stop_recording-Older s h = recording_stopped-Older (stop s.media.recorder) _ h

playback_started-Older :
    (x : Playback × Played) (s : Studio) → Older s → Older (playback_started x s)
playback_started-Older (p, Playback.started) s h = h
playback_started-Older (p, Playback.broken) s h = h
playback_started-Older (p, Playback.not_ready) s h = h

playback_begun-Older : (x : Playback × Bool) (s : Studio) → Older s → Older (playback_begun x s)
playback_begun-Older (p, true) s h = h
playback_begun-Older (p, false) s h = h

validated-Older :
    (blob : ℕ) (url : String) (answer : Result ReferenceAssessment) (s : Studio)
    → Older s
    → Older (reference_validated blob url answer s)
unfolding reference_validated
validated-Older blob url (failed cause) s h = h
validated-Older blob url (ok result) s h =
    if-Older (is_text result.quality "good") (reference_accepted blob url result s)
      (reference_rejected result s) h h

time_passed-Older : (elapsed : ℕ) (s : Studio) → Older s → Older (time_passed elapsed s).0
unfolding time_passed
time_passed-Older elapsed s h = due s.media.is_recording (leb 30000 elapsed)
  where
    due :
        (on over : Bool)
        → Older
            (if on
              then (if over
                  then stop_recording (record s { elapsed = elapsed })
                  else (record s { elapsed = elapsed }, none))
              else (s, none)).0
    due false over = h
    due true false = h
    due true true = stop_recording-Older (record s { elapsed = elapsed }) h

request_speech-Older : (s : Studio) → Older s → Older (request_speech s)
request_speech-Older s h = (omega arith, AreOld-suc s.generation_token s.awaited h)

generate-Older : (s : Studio) → Older s → Older (generate s)
unfolding generate
generate-Older s h =
    if-Older (not (controls_ready s) || is_blank s.text) s (request_speech s) h
      (request_speech-Older s h)

answered-Older : (token : ℕ) (s : Studio) → Older s → Older (answered token s)
answered-Older token s h = AreOld-keep s.generation_token token s.awaited h

synthesized-Older :
    (token : ℕ) (url : String) (answer : Result ℕ) (s : Studio)
    → Older s
    → Older (speech_synthesized token url answer s)
unfolding speech_synthesized
synthesized-Older token url (failed cause) s h = answered-Older token s h
synthesized-Older token url (ok audio) s h =
    if-Older (not (token == s.generation_token)) (answered token s) (show_speech token audio url s)
      (answered-Older token s h) (answered-Older token s h)

reset_resources-tokens :
    (env : Reset) (s : Studio)
    → s.resource_busy ≡ false
    → ((reset_resources env s).generation_token ≡ suc s.generation_token)
      × ((reset_resources env s).awaited ≡ s.awaited)
reset_resources-tokens env s h =
    let (idle, (same, token, awaited), ended) = reset_resources-Concluded env s h in
    (token, awaited)

reset_resources-Older : (env : Reset) (s : Studio) → Older s → Older (reset_resources env s)
unfolding reset_resources
reset_resources-Older env s h = elim (Bool-cases s.resource_busy) [
  | inl e ↦ rw e h
  | inr e ↦
      let (token, awaited) = reset_resources-tokens env s e in
      subst (λ t. AreOld t (reset_resources env s).awaited) (sym token)
        (subst (AreOld (suc s.generation_token)) (sym awaited)
          (AreOld-suc s.generation_token s.awaited h))
]

start_reset-Older : (s : Studio) → Older s → Older (start_reset s)
unfolding start_reset
start_reset-Older s h =
    if-Older s.resource_busy s (begin_reset s) h (AreOld-suc s.generation_token s.awaited h)

tell-Older : (news : News) (s : Studio) → Older s → Older (tell news s)
tell-Older (accepts phase) s h = h
tell-Older (hears (phase_seen phase)) s h = h
tell-Older (hears reconnect) s h = h
tell-Older (sees next) s h = h
tell-Older (warns hint) s h = h
tell-Older comes_up s h = h
tell-Older (breaks hint) s h = h

apply-Older : (s : Studio) (e : Event) → Older s → Older (apply s e)
unfolding apply refresh devices_changed check_devices devices_checked toggle_cue stop_playback
    playback_ended start_recording discard_reference play_generated microphone_granted
    microphone_denied module_loaded playback_answered
apply-Older s (answers_status (ok next)) h = h
apply-Older s (answers_status (failed cause)) h = h
apply-Older s clicks_check h = enabled-Older _ s (check_devices s) h h
apply-Older s (answers_check gate) h = h
apply-Older s clicks_record h =
    enabled-Older (not s.media.is_recording && controls_ready s) s (start_recording s) h (
      if-Older (controls_ready s) _ s
        (recording_begun-Older (begin_start s.media.recorder)
          (record s { shown_error = none; elapsed = 0 }) h)
        h)
apply-Older s (grants_microphone stream context) h = if-Older (s.media.starting.asked == 0) s _ h h
apply-Older s denies_microphone h = if-Older (s.media.starting.asked == 0) s _ h h
apply-Older s (loads_module works) h =
    if-Older (s.media.starting.loading == 0) s _ h
      (recording_started-Older (load_module works s.media.recorder) (loaded_one s) h)
apply-Older s clicks_stop_recording h =
    enabled-Older s.media.is_recording s (stop_recording s).0 h (stop_recording-Older s h)
apply-Older s (answers_validation blob url answer) h = validated-Older blob url answer s h
apply-Older s clicks_discard h = enabled-Older s.media.has_reference s (discard_reference s) h h
apply-Older s (types text) h = h
apply-Older s (toggles_cue cue) h = h
apply-Older s (toggles_clone on) h =
    enabled-Older s.media.has_reference s (record s { use_clone = on }) h h
apply-Older s clicks_generate h = enabled-Older _ s (generate s) h (generate-Older s h)
apply-Older s (answers_synthesis token url answer) h = synthesized-Older token url answer s h
apply-Older s clicks_play h =
    enabled-Older (not s.media.is_playing && s.media.is_generated) s (play_generated s) h (
      if-Older s.media.is_generated (playback_begun (begin_play s.media.playback) s) s
        (playback_begun-Older (begin_play s.media.playback) s h) h)
apply-Older s (answers_play handle fate) h =
    if-Older (s.media.to_play == 0) s _ h
      (playback_started-Older (finish_play handle fate s.media.playback) (played_one s) h)
apply-Older s clicks_stop_playback h = enabled-Older s.media.is_playing s (stop_playback s) h h
apply-Older s clicks_reset h = start_reset-Older s h
apply-Older s (tells_reset news) h = tell-Older news s h
apply-Older s (resets env) h = reset_resources-Older env s h
apply-Older s changes_devices h = h
apply-Older s ends_audio h = h
apply-Older s times_out h = h
apply-Older s (passes_time elapsed) h = time_passed-Older elapsed s h
apply-Older s (receives frame) h = h

run-Older : (s : Studio) (es : List Event) → Older s → Older (run s es)
run-Older s [] h = h
run-Older s (e ∷ es) h = run-Older (apply s e) es (apply-Older s e h)

abbrev pub awaits : ℕ → List (ℕ × SynthesisRequest) → Bool
awaits token [] = false
awaits token (r ∷ rs) = r.0 == token || awaits token rs

awaits-le :
    (token top : ℕ) (rs : List (ℕ × SynthesisRequest))
    → AreOld top rs
    → awaits token rs ≡ true
    → token ≤ top
awaits-le token top [] h e = absurd (ground arith)
awaits-le token top (r ∷ rs) h e = ground (arith, h.0, awaits-le token top rs h.1)

old-speech :
    (token : ℕ) (url : String) (audio : ℕ) (s : Studio)
    → token < s.generation_token
    → speech_synthesized token url (ok audio) s ≡ answered token s
unfolding speech_synthesized
old-speech token url audio s h =
    if-true (not (token == s.generation_token)) (answered token s) (show_speech token audio url s)
      (ground arith)

-- In a studio that any session has led to: audio that answers a synthesis begun before a reset, or before
-- a later synthesis, is neither stored nor shown; the page only stops waiting for it.
pub late_speech :
    (es : List Event) (env : Reset) (token : ℕ) (url : String) (audio : ℕ)
    → let s = run new_studio es in
      awaits token s.awaited ≡ true
      → s.resource_busy ≡ false
      → let after = reset_resources env s in
        let again = request_speech s in
        (speech_synthesized token url (ok audio) after ≡ answered token after)
        × (speech_synthesized token url (ok audio) again ≡ answered token again)
late_speech es env token url audio a b =
    let s = run new_studio es in
    let old = awaits-le token s.generation_token s.awaited (run-Older new_studio es tt) a in
    let (next, awaited) = reset_resources-tokens env s b in
    (
      old-speech token url audio (reset_resources env s)
          (subst (λ t. token < t) (sym next) (omega arith)),
      old-speech token url audio (request_speech s) (omega arith),
    )
