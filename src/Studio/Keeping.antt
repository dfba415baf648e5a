-- ===== src/Studio/Keeping.antt =====
-- frontend/realtime/src/ttsClone/App.tsx: what the studio shows is what the recorder, the store and the
-- playback do, handler by handler.
use agent_speak.Base.Json.{is_text}
use agent_speak.Base.{
  ℕ, String, Bool, true, false, not, ◌||◌, List, Option, none, some, if◌then◌else◌, leb, ◌≡◌, refl,
  arith, ap, sym, ◌∙◌, ◌==◌, is_blank,
}
use agent_speak.Clone.Api.{Result, ok, failed, ReferenceAssessment}
use agent_speak.Audio.Store.{set_reference, clear_reference, set_generated, clear_generated}
use agent_speak.Audio.Recorder.{Recorder, stop, discard}
use agent_speak.Audio.Playback.{Playback, PlayFate, set_source, begin_play, finish_play, Played}
use agent_speak.Audio.Playback as Playback
use agent_speak.Studio.{
  Studio, Media, recording_stopped, stop_recording, reference_validated, discard_reference,
  controls_ready, time_passed, reference_accepted, reference_rejected,
}
use agent_speak.Studio.Generate.{
  generate, speech_synthesized, request_speech, show_speech, answered,
}
use agent_speak.Studio.Reset.{begin_reset, discard_recording, stop_playing}
use agent_speak.Studio.Parts.{
  IsTold, IsShown, IsHonest, discard-IsTold, stop-IsTold, set_source-IsShown, stop-IsShown,
}

pub recorded-IsHonest :
    (m : Media) (on : Bool) (r : Recorder)
    → IsTold on m.starting r
    → IsHonest m
    → IsHonest (record m { is_recording = on; recorder = r })
recorded-IsHonest m on r t h = record {
  recorded = t;
  played = h.played;
  stored = h.stored;
  offered = h.offered;
}

pub played-IsHonest :
    (m : Media) (on : Bool) (p : Playback)
    → p.source ≡ m.playback.source
    → IsShown on m.to_play p
    → IsHonest m
    → IsHonest (record m { is_playing = on; playback = p })
played-IsHonest m on p e t h = record {
  recorded = h.recorded;
  played = t;
  stored = h.stored;
  offered = λ g. h.offered g ∙ ap some (sym e);
}

pub stopped-IsHonest :
    (m : Media)
    → IsHonest m
    → IsHonest (record m { playback = (Playback.stop m.playback).0; is_playing = false })
unfolding agent_speak.Audio.Playback.stop
stopped-IsHonest m h =
    played-IsHonest m false (Playback.stop m.playback).0 refl
      (stop-IsShown m.is_playing false m.to_play m.playback h.played) h

-- From a page that says already that it does not record.
recording_stopped-IsHonest :
    (x : Recorder × Option (List ℕ)) (s : Studio) (on : Bool)
    → IsTold s.media.is_recording s.media.starting x.0
    → IsHonest (record s.media { is_recording = on })
    → IsHonest (recording_stopped x s).0.media
recording_stopped-IsHonest (r, none) s on t h =
    recorded-IsHonest (record s.media { is_recording = on }) s.media.is_recording r t h
recording_stopped-IsHonest (r, some blob) s on t h =
    recorded-IsHonest (record s.media { is_recording = on }) s.media.is_recording r t h

-- The same of the page.
pub record IsFaithful (s : Studio) : Type 0 where
  pub honest : IsHonest s.media

pub if-IsFaithful :
    (b : Bool) (s t : Studio)
    → IsHonest s.media
    → IsHonest t.media
    → IsFaithful (if b then s else t)
if-IsFaithful true s t g h = record { honest = g }
if-IsFaithful false s t g h = record { honest = h }

pub stop_recording-IsHonest : (s : Studio) → IsHonest s.media → IsHonest (stop_recording s).0.media
unfolding stop_recording
stop_recording-IsHonest s h =
    recording_stopped-IsHonest (stop s.media.recorder) _ s.media.is_recording
      (stop-IsTold s.media.is_recording false s.media.starting s.media.recorder h.recorded) h

pub discarded-IsHonest :
    (m : Media)
    → IsHonest m
    → IsHonest (record m { is_recording = false; recorder = discard m.recorder })
discarded-IsHonest m h =
    recorded-IsHonest m false (discard m.recorder)
      (discard-IsTold m.is_recording false m.starting m.recorder h.recorded) h

pub validated-IsHonest :
    (blob : ℕ) (url : String) (answer : Result ReferenceAssessment) (s : Studio)
    → IsHonest s.media
    → IsFaithful (reference_validated blob url answer s)
unfolding reference_validated set_reference
validated-IsHonest blob url (failed cause) s h = record { honest = h }
validated-IsHonest blob url (ok result) s h =
    if-IsFaithful (is_text result.quality "good") (reference_accepted blob url result s)
      (reference_rejected result s)
      (record { recorded = h.recorded; played = h.played; stored = refl; offered = h.offered }) h

pub discard_reference-IsHonest :
    (s : Studio) → IsHonest s.media → IsHonest (discard_reference s).media
unfolding discard_reference clear_reference
discard_reference-IsHonest s h = record {
  recorded = h.recorded;
  played = h.played;
  stored = refl;
  offered = h.offered;
}

pub generate-IsHonest : (s : Studio) → IsHonest s.media → IsFaithful (generate s)
unfolding generate clear_generated
generate-IsHonest s h =
    if-IsFaithful (not (controls_ready s) || is_blank s.text) s (request_speech s) h (record {
      recorded = h.recorded;
      played = h.played;
      stored = h.stored;
      offered = λ e. absurd (ground arith);
    })

pub synthesized-IsHonest :
    (token : ℕ) (url : String) (answer : Result ℕ) (s : Studio)
    → IsHonest s.media
    → IsFaithful (speech_synthesized token url answer s)
unfolding speech_synthesized set_generated set_source
synthesized-IsHonest token url (failed cause) s h = record { honest = h }
synthesized-IsHonest token url (ok audio) s h =
    if-IsFaithful (not (token == s.generation_token)) (answered token s)
      (show_speech token audio url s) h
      (record {
        recorded = h.recorded;
        played =
            set_source-IsShown s.media.is_playing s.media.to_play url s.media.playback h.played;
        stored = h.stored;
        offered = λ e. refl;
      })

pub time_passed-IsHonest :
    (elapsed : ℕ) (s : Studio) → IsHonest s.media → IsHonest (time_passed elapsed s).0.media
unfolding time_passed
time_passed-IsHonest elapsed s h = due s.media.is_recording (leb 30000 elapsed)
  where
    due :
        (on over : Bool)
        → IsHonest
            (if on
              then (if over
                  then stop_recording (record s { elapsed = elapsed })
                  else (record s { elapsed = elapsed }, none))
              else (s, none)).0.media
    due false over = h
    due true false = h
    due true true = stop_recording-IsHonest (record s { elapsed = elapsed }) h

pub begin_reset-IsHonest : (s : Studio) → IsHonest s.media → IsHonest (begin_reset s).media
begin_reset-IsHonest s h = stopped (discard_recording s.media) (discarded s.media.is_recording)
  where
    discarded :
        (on : Bool)
        → IsHonest (
            if on
            then record s.media { recorder = discard s.media.recorder; is_recording = false }
            else s.media)
    discarded true = discarded-IsHonest s.media h
    discarded false = h

    stopped : (m : Media) → IsHonest m → IsHonest (stop_playing m)
    stopped m k = playing m.is_playing
      where
        playing :
            (on : Bool)
            → IsHonest (
                if on
                then record m { playback = (Playback.stop m.playback).0; is_playing = false }
                else m)
        playing true = stopped-IsHonest m k
        playing false = k
