-- ===== src/Studio/Parts.antt =====
-- frontend/realtime/src/ttsClone/App.tsx: the recorder and the playback against what the page says of them.
use agent_speak.Base.{
  ℕ, ◌+◌, ◌-◌, ◌≤◌, ◌<◌, suc, String, Bool, true, false, List, some, is_some, ◌≡◌, arith,
}
use agent_speak.Audio.Recorder.{
  Recorder, is_recording, begin_start, open_capture, abort_start, load_module, stop, discard,
  cleanup, receive, time_out, Started,
}
use agent_speak.Audio.Recordings.{held}
use agent_speak.Audio.Playback.{
  Playback, PlayFate, IsSound, apply-IsSound, sets_source, set_source, begin_play, finish_play,
  suspended, refused, plays, Played,
}
use agent_speak.Audio.Playback as Playback
use agent_speak.Audio.Recorder as Recorder
use agent_speak.Studio.{Media, Starting}

-- What is open is what the recorder holds. While the recorder records, the page says so; what it holds at
-- other times is of a start that waits for the module. At most one start waits, and while one waits for
-- the microphone, the recorder holds nothing.
pub record IsTold (is_on : Bool) (w : Starting) (r : Recorder) : Type 0 where
  pub open_streams : r.streams ≡ held r.stream
  pub open_contexts : r.contexts ≡ held r.context
  pub told : is_recording r.state ≡ true → is_on ≡ true
  pub loose :
      is_recording r.state ≡ false
      → w.loading ≡ 0
      → (is_some r.stream ≡ false) × (is_some r.context ≡ false)
  pub one : w.asked + w.loading ≤ 1
  pub waits : 0 < w.asked + w.loading → is_recording r.state ≡ false
  pub timed : r.timer ≡ true → is_recording r.state ≡ true

-- While the playback plays, the page says so.
pub record IsShown (is_on : Bool) (waiting : ℕ) (p : Playback) : Type 0 where
  pub sound : IsSound p
  pub told : p.playing ≡ true → is_on ≡ true
  pub begun : 0 < waiting → p.has_context ≡ true

-- The page offers a reference exactly when the store has one; if it offers generated audio, the playback
-- has the URL of what is stored.
pub record IsHonest (m : Media) : Type 0 where
  pub recorded : IsTold m.is_recording m.starting m.recorder
  pub played : IsShown m.is_playing m.to_play m.playback
  pub stored : m.has_reference ≡ is_some m.audio_store.reference
  pub offered : m.is_generated ≡ true → m.audio_store.generated_url ≡ some m.playback.source

pub discard-IsTold :
    (on is_on : Bool) (w : Starting) (r : Recorder) → IsTold on w r → IsTold is_on w (discard r)
unfolding discard cleanup
discard-IsTold on is_on w r h = ground arith

pub stop-IsTold :
    (on is_on : Bool) (w : Starting) (r : Recorder) → IsTold on w r → IsTold is_on w (stop r).0
unfolding stop cleanup
stop-IsTold on is_on w r h = ground arith

pub time_out-IsTold :
    (on : Bool) (w : Starting) (r : Recorder) → IsTold on w r → IsTold on w (time_out r)
unfolding time_out stop cleanup
time_out-IsTold on w r h = ground arith

pub receive-IsTold :
    (on : Bool) (frame : List ℕ) (w : Starting) (r : Recorder)
    → IsTold on w r
    → IsTold on w (receive frame r)
unfolding receive
receive-IsTold on frame w r h = ground arith

abbrev pub begun_or : Starting → Bool → Starting
begun_or w true = record w { asked = suc w.asked }
begun_or w false = w

pub begin_start-IsTold :
    (on : Bool) (w : Starting) (r : Recorder)
    → w.asked ≡ 0
    → w.loading ≡ 0
    → IsTold on w r
    → let (q, goes_on) = begin_start r in IsTold on (begun_or w goes_on) q
unfolding begin_start cleanup
begin_start-IsTold on w r a l h = ground arith

pub open_capture-IsTold :
    (on : Bool) (stream context : ℕ) (w : Starting) (r : Recorder)
    → 0 < w.asked
    → IsTold on w r
    → IsTold on
        (record { asked = w.asked - 1; loading = suc w.loading })
        (open_capture stream context r)
open_capture-IsTold on stream context w r a h = ground arith

pub abort_start-IsTold :
    (on : Bool) (w : Starting) (r : Recorder)
    → 0 < w.asked
    → IsTold on w r
    → IsTold on (record w { asked = w.asked - 1 }) (abort_start r)
unfolding abort_start cleanup
abort_start-IsTold on w r a h = ground arith

abbrev pub started_or : Bool → Started → Bool
started_or on Recorder.started = true
started_or on _ = on

pub load_module-IsTold :
    (on works : Bool) (w : Starting) (r : Recorder)
    → 0 < w.loading
    → IsTold on w r
    → let (q, answer) = load_module works r in
      IsTold (started_or on answer) (record w { loading = w.loading - 1 }) q
unfolding load_module abort_start cleanup
load_module-IsTold on works w r a h = ground arith

pub set_source-IsShown :
    (on : Bool) (n : ℕ) (url : String) (p : Playback)
    → IsShown on n p
    → IsShown on n (set_source url p).0
unfolding set_source agent_speak.Audio.Playback.stop
set_source-IsShown on n url p h = ground arith

pub stop-IsShown :
    (on is_on : Bool) (n : ℕ) (p : Playback) → IsShown on n p → IsShown is_on n (Playback.stop p).0
unfolding agent_speak.Audio.Playback.stop
stop-IsShown on is_on n p h = ground arith

abbrev pub begun_play_or : ℕ → Bool → ℕ
begun_play_or n true = suc n
begun_play_or n false = n

pub begin_play-IsShown :
    (on : Bool) (n : ℕ) (p : Playback)
    → IsShown on n p
    → let (q, goes_on) = begin_play p in
      IsShown on (begun_play_or n goes_on) q × (q.source ≡ p.source)
unfolding begin_play
begin_play-IsShown on n p h = ground arith

abbrev pub played_or : Bool → Played → Bool
played_or on Playback.started = true
played_or on _ = on

pub finish_play-IsShown :
    (on : Bool) (handle : ℕ) (fate : PlayFate) (n : ℕ) (p : Playback)
    → 0 < n
    → IsShown on n p
    → let (q, answer) = finish_play handle fate p in
      IsShown (played_or on answer) (n - 1) q × (q.source ≡ p.source)
unfolding finish_play
finish_play-IsShown on handle suspended n p a h = ground arith
finish_play-IsShown on handle refused n p a h = ground arith
finish_play-IsShown on handle plays n p a h = ground arith
