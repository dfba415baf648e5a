-- ===== src/Studio/Waits.antt =====
-- frontend/realtime/src/ttsClone/App.tsx: what the studio shows is what the recorder and the playback do,
-- in the parts of the handlers that wait for the browser.
use agent_speak.Base.{
  ℕ, suc, ◌-◌, Bool, true, false, none, some, ◌≡◌, arith, ap, sym, ◌∙◌, ◌==◌, inl, inr, Bool-cases,
}
use agent_speak.Audio.Recorder.{Recorder, begin_start, load_module, stop, discard, Started}
use agent_speak.Audio.Playback.{Playback, PlayFate, set_source, begin_play, finish_play, Played}
use agent_speak.Audio.Playback as Playback
use agent_speak.Audio.Recorder as Recorder
use agent_speak.Studio.{
  Studio, Media, Starting, recording_begun, recording_started, controls_ready, start_recording,
  microphone_granted, microphone_denied, module_loaded, loaded_one,
}
use agent_speak.Studio.Generate.{
  playback_begun, playback_started, play_generated, playback_answered, played_one,
}
use agent_speak.Studio.Parts.{
  IsTold, IsShown, IsHonest, started_or, begun_or, begin_start-IsTold, open_capture-IsTold,
  abort_start-IsTold, load_module-IsTold, played_or, begun_play_or, begin_play-IsShown,
  finish_play-IsShown,
}
use agent_speak.Studio.Keeping.{recorded-IsHonest, played-IsHonest, IsFaithful, if-IsFaithful}

-- With other starts that wait.
pub started-IsHonest :
    (m : Media) (on : Bool) (w : Starting) (r : Recorder)
    → IsTold on w r
    → IsHonest m
    → IsHonest (record m { is_recording = on; starting = w; recorder = r })
started-IsHonest m on w r t h = record {
  recorded = t;
  played = h.played;
  stored = h.stored;
  offered = h.offered;
}

recording_begun-IsHonest :
    (x : Recorder × Bool) (s : Studio)
    → IsTold s.media.is_recording (begun_or s.media.starting x.1) x.0
    → IsHonest s.media
    → IsHonest (recording_begun x s).media
recording_begun-IsHonest (r, true) s t h =
    started-IsHonest s.media s.media.is_recording (begun_or s.media.starting true) r t h
recording_begun-IsHonest (r, false) s t h = recorded-IsHonest s.media s.media.is_recording r t h

-- From a page with one start less that waits.
recording_started-IsHonest :
    (x : Recorder × Started) (s : Studio)
    → IsTold
        (started_or s.media.is_recording x.1)
        (record s.media.starting { loading = s.media.starting.loading - 1 })
        x.0
    → IsHonest s.media
    → IsHonest (recording_started x (loaded_one s)).media
recording_started-IsHonest (r, Recorder.started) s t h = started-IsHonest s.media true _ r t h
recording_started-IsHonest (r, Recorder.already_active) s t h =
    started-IsHonest s.media s.media.is_recording _ r t h
recording_started-IsHonest (r, Recorder.start_failed) s t h =
    started-IsHonest s.media s.media.is_recording _ r t h

-- With other promises of a playback that wait.
replayed-IsHonest :
    (m : Media) (on : Bool) (n : ℕ) (p : Playback)
    → p.source ≡ m.playback.source
    → IsShown on n p
    → IsHonest m
    → IsHonest (record m { is_playing = on; to_play = n; playback = p })
replayed-IsHonest m on n p e t h = record {
  recorded = h.recorded;
  played = t;
  stored = h.stored;
  offered = λ g. h.offered g ∙ ap some (sym e);
}

playback_begun-IsHonest :
    (x : Playback × Bool) (s : Studio)
    → IsShown s.media.is_playing (begun_play_or s.media.to_play x.1) x.0
      × (x.0.source ≡ s.media.playback.source)
    → IsHonest s.media
    → IsHonest (playback_begun x s).media
playback_begun-IsHonest (p, true) s (t, e) h =
    replayed-IsHonest s.media s.media.is_playing (suc s.media.to_play) p e t h
playback_begun-IsHonest (p, false) s (t, e) h = played-IsHonest s.media s.media.is_playing p e t h

playback_started-IsHonest :
    (x : Playback × Played) (s : Studio)
    → IsShown (played_or s.media.is_playing x.1) (s.media.to_play - 1) x.0
      × (x.0.source ≡ s.media.playback.source)
    → IsHonest s.media
    → IsHonest (playback_started x (played_one s)).media
playback_started-IsHonest (p, Playback.started) s (t, e) h =
    replayed-IsHonest s.media true (s.media.to_play - 1) p e t h
playback_started-IsHonest (p, Playback.broken) s (t, e) h =
    replayed-IsHonest s.media s.media.is_playing (s.media.to_play - 1) p e t h
playback_started-IsHonest (p, Playback.not_ready) s (t, e) h =
    replayed-IsHonest s.media s.media.is_playing (s.media.to_play - 1) p e t h

pub play-IsHonest : (s : Studio) → IsHonest s.media → IsFaithful (play_generated s)
unfolding play_generated
play-IsHonest s h =
    if-IsFaithful s.media.is_generated (playback_begun (begin_play s.media.playback) s) s
      (playback_begun-IsHonest (begin_play s.media.playback) s
        (begin_play-IsShown s.media.is_playing s.media.to_play s.media.playback h.played) h)
      h

pub playback_answered-IsHonest :
    (handle : ℕ) (fate : PlayFate) (s : Studio)
    → IsHonest s.media
    → IsHonest (playback_answered handle fate s).media
unfolding playback_answered
playback_answered-IsHonest handle fate s h = elim (Bool-cases (s.media.to_play == 0)) [
  | inl e ↦ rw e h
  | inr e ↦ rw e (
      playback_started-IsHonest (finish_play handle fate s.media.playback) s
        (finish_play-IsShown s.media.is_playing handle fate s.media.to_play s.media.playback
          (ground arith) h.played)
        h)
]

pub start_recording-IsHonest :
    (s : Studio)
    → s.media.starting.asked ≡ 0
    → s.media.starting.loading ≡ 0
    → IsHonest s.media
    → IsFaithful (start_recording s)
unfolding start_recording
start_recording-IsHonest s a l h =
    if-IsFaithful (controls_ready s)
      (recording_begun (begin_start s.media.recorder)
        (record s { shown_error = none; elapsed = 0 }))
      s
      (recording_begun-IsHonest (begin_start s.media.recorder)
        (record s { shown_error = none; elapsed = 0 })
        (begin_start-IsTold s.media.is_recording s.media.starting s.media.recorder a l h.recorded)
        h)
      h

pub microphone_granted-IsHonest :
    (stream context : ℕ) (s : Studio)
    → IsHonest s.media
    → IsHonest (microphone_granted stream context s).media
unfolding microphone_granted
microphone_granted-IsHonest stream context s h = elim (Bool-cases (s.media.starting.asked == 0)) [
  | inl e ↦ rw e h
  | inr e ↦ rw e (
      started-IsHonest s.media s.media.is_recording _ _
        (open_capture-IsTold s.media.is_recording stream context s.media.starting s.media.recorder
          (ground arith) h.recorded)
        h)
]

pub microphone_denied-IsHonest :
    (s : Studio) → IsHonest s.media → IsHonest (microphone_denied s).media
unfolding microphone_denied
microphone_denied-IsHonest s h = elim (Bool-cases (s.media.starting.asked == 0)) [
  | inl e ↦ rw e h
  | inr e ↦ rw e (
      started-IsHonest s.media s.media.is_recording _ _
        (abort_start-IsTold s.media.is_recording s.media.starting s.media.recorder (ground arith)
          h.recorded)
        h)
]

pub module_loaded-IsHonest :
    (works : Bool) (s : Studio) → IsHonest s.media → IsHonest (module_loaded works s).media
unfolding module_loaded
module_loaded-IsHonest works s h = elim (Bool-cases (s.media.starting.loading == 0)) [
  | inl e ↦ rw e h
  | inr e ↦ rw e (
      recording_started-IsHonest (load_module works s.media.recorder) s
        (load_module-IsTold s.media.is_recording works s.media.starting s.media.recorder
          (ground arith) h.recorded)
        h)
]
