-- ===== src/Studio/Generate.antt =====
-- frontend/realtime/src/ttsClone/App.tsx: the synthesis of speech and its playback.
use agent_speak.Base.{
  ℕ, suc, String, Bool, true, false, not, ◌||◌, [], ◌∷◌, ◌++◌, none, some, if◌then◌else◌, or_else,
  is_blank, trim, ◌==◌, keep, any, ◌-◌,
}
use agent_speak.Clone.Api.{
  StyleCue, light_laugh, snicker, sigh, cough, warm, cheerful, soft, faster, SynthesisRequest,
  Result, ok, failed,
}
use agent_speak.Audio.Store.{set_generated, clear_generated}
use agent_speak.Audio.Playback.{
  Playback, PlayFate, Played, started, stop, ended, set_source, not_ready, begin_play, finish_play,
}
use agent_speak.Studio.{
  Studio, Media, generating, audio_ready, playing, complete, error, activity_generating,
  activity_audio_ready, activity_playing, playback_error, controls_ready, generation_failed,
}

abbrev pub same_cue : StyleCue → StyleCue → Bool
same_cue light_laugh light_laugh = true
same_cue snicker snicker = true
same_cue sigh sigh = true
same_cue cough cough = true
same_cue warm warm = true
same_cue cheerful cheerful = true
same_cue soft soft = true
same_cue faster faster = true
same_cue _ _ = false

unfoldable pub toggle_cue : StyleCue → Studio → Studio
toggle_cue cue s = record s {
  style_cues =
      if any (same_cue cue) s.style_cues
      then keep (λ value. not (same_cue cue value)) s.style_cues
      else s.style_cues ++ cue ∷ [];
}

abbrev pub request_of : Studio → SynthesisRequest
request_of s = record {
  text = trim s.text;
  style_cues = s.style_cues;
  use_clone = s.use_clone;
  reference = if s.use_clone then s.media.audio_store.reference else none;
}

abbrev pub request_speech : Studio → Studio
request_speech s =
    let token = suc s.generation_token in
    record s {
      shown_error = none;
      studio_state = generating;
      activity = activity_generating;
      generation_token = token;
      awaited = (token, request_of s) ∷ s.awaited;
      media = record s.media {
        is_generated = false;
        audio_store = (clear_generated s.media.audio_store).0;
      };
    }

-- Up to the request for the synthesis. The state `queued` lasts until the microtask that makes it.
unfoldable pub generate : Studio → Studio
generate s = if not (controls_ready s) || is_blank s.text then s else request_speech s

abbrev pub answered : ℕ → Studio → Studio
answered token s = record s { awaited = keep (λ a. not (a.0 == token)) s.awaited }

abbrev pub show_generated : ℕ → String → Media → Media
show_generated audio url m =
    let stored = (set_generated audio url m.audio_store).0 in
    record m {
      audio_store = stored;
      playback = (set_source (or_else stored.generated_url "") m.playback).0;
      is_generated = true;
    }

abbrev pub show_speech : ℕ → ℕ → String → Studio → Studio
show_speech token audio url s = record (answered token s) {
  studio_state = audio_ready;
  activity = activity_audio_ready;
  media = show_generated audio url s.media;
}

-- From the answer to the synthesis with the token on.
unfoldable pub speech_synthesized : ℕ → String → Result ℕ → Studio → Studio
speech_synthesized token url (failed cause) s = generation_failed (answered token s)
speech_synthesized token url (ok audio) s =
    if not (token == s.generation_token) then answered token s else show_speech token audio url s

abbrev pub playback_started : Playback × Played → Studio → Studio
playback_started (p, started) s = record s {
  studio_state = playing;
  activity = activity_playing;
  media = record s.media { playback = p; is_playing = true };
}
playback_started (p, _) s = record s {
  shown_error = some playback_error;
  studio_state = error;
  media = record s.media { playback = p };
}

abbrev pub playback_begun : Playback × Bool → Studio → Studio
playback_begun (p, true) s = record s {
  media = record s.media { playback = p; to_play = suc s.media.to_play };
}
playback_begun (p, false) s = playback_started (p, not_ready) s

-- Up to the promises of the playback.
unfoldable pub play_generated : Studio → Studio
unfolding begin_play
play_generated s =
    if s.media.is_generated then playback_begun (begin_play s.media.playback) s else s

abbrev pub played_one : Studio → Studio
played_one s = record s { media = record s.media { to_play = s.media.to_play - 1 } }

unfoldable pub playback_answered : ℕ → PlayFate → Studio → Studio
unfolding finish_play
playback_answered handle fate s =
    if s.media.to_play == 0
    then s
    else playback_started (finish_play handle fate s.media.playback) (played_one s)

unfoldable pub stop_playback : Studio → Studio
stop_playback s = record s {
  studio_state = complete;
  activity = activity_audio_ready;
  media = record s.media { playback = (stop s.media.playback).0; is_playing = false };
}

-- The element's event `ended`, with the callback of `subscribeEnded`.
unfoldable pub playback_ended : Studio → Studio
playback_ended s = record s {
  studio_state = complete;
  activity = activity_audio_ready;
  media = record s.media { playback = (ended s.media.playback).0; is_playing = false };
}
