-- ===== src/Audio/Recorder.antt =====
-- frontend/realtime/src/ttsClone/audio.ts: `createReferenceRecorder`. Each method is run to its end
-- before the next call, but a start is also given in its parts between the requests of the browser, which
-- other calls may come between. The promise `stopping` is set only meanwhile. Streams and contexts of the
-- browser are numbers; the amplitudes that go to listeners are left out.
use agent_speak.Base.{
  ℕ, ◌+◌, Bool, true, false, not, List, [], ◌∷◌, ◌++◌, Option, none, some, ◌==◌, if◌then◌else◌,
  keep, length, is_some, ◌&&◌,
}
use agent_speak.Audio.Wav.{replicate, write_bytes, encode_pcm16_wav}

pub data RecorderState : Type 0 where
  idle recording stopped : RecorderState

abbrev pub is_recording : RecorderState → Bool
is_recording recording = true
is_recording _ = false

pub record Recorder : Type 0 where
  pub state : RecorderState
  pub stream : Option ℕ
  pub context : Option ℕ
  pub source : Bool
  pub worklet : Bool
  pub timer : Bool
  pub frames : List (List ℕ)
  pub last_blob : Option (List ℕ)
  -- The streams whose tracks run and the contexts that are open in the browser.
  pub streams : List ℕ
  pub contexts : List ℕ

abbrev pub new_recorder : Recorder
new_recorder = record {
  state = idle;
  stream = none;
  context = none;
  source = false;
  worklet = false;
  timer = false;
  frames = [];
  last_blob = none;
  streams = [];
  contexts = [];
}

abbrev pub close_all : Option ℕ → List ℕ → List ℕ
close_all none xs = xs
close_all (some k) xs = keep (λ x. not (x == k)) xs

unfoldable pub cleanup : Recorder → Recorder
cleanup r = record r {
  timer = false;
  worklet = false;
  source = false;
  stream = none;
  context = none;
  streams = close_all r.stream r.streams;
  contexts = close_all r.context r.contexts;
}

-- What becomes of the requests of a start: the stream is refused, something fails once the context
-- is made, or the start succeeds.
pub data StartFate : Type 0 where
  denied broken granted : StartFate

pub data Started : Type 0 where
  already_active start_failed started : Started

abbrev pub open_capture : ℕ → ℕ → Recorder → Recorder
open_capture stream context r = record r {
  stream = some stream;
  context = some context;
  streams = stream ∷ r.streams;
  contexts = context ∷ r.contexts;
}

unfoldable pub start : ℕ → ℕ → StartFate → Recorder → Recorder × Started
unfolding cleanup
start stream context fate r =
    let fresh = record (cleanup r) { frames = []; last_blob = none } in
    let opened = open_capture stream context fresh in
    if is_recording r.state then (r, already_active) else elim fate [
      | denied ↦ (record (cleanup fresh) { state = idle }, start_failed)
      | broken ↦ (record (cleanup opened) { state = idle }, start_failed)
      | granted ↦ (
        record opened { source = true; worklet = true; state = recording; timer = true },
        started,
      )
    ]

-- The parts of a start between its awaits. Until the request for the microphone, with whether it is made:
unfoldable pub begin_start : Recorder → Recorder × Bool
unfolding cleanup
begin_start r =
    if is_recording r.state
    then (r, false)
    else (record (cleanup r) { frames = []; last_blob = none }, true)

-- The `catch` block, which throws on.
unfoldable pub abort_start : Recorder → Recorder
unfolding cleanup
abort_start r = record (cleanup r) { state = idle }

-- From the answer of `addModule` on. If a discard came before it, the stream and the context are gone, and
-- the source cannot be made.
unfoldable pub load_module : Bool → Recorder → Recorder × Started
unfolding abort_start
load_module works r =
    if works && (is_some r.stream && is_some r.context)
    then (record r { source = true; worklet = true; state = recording; timer = true }, started)
    else (abort_start r, start_failed)

-- A `pcm` message of the worklet.
unfoldable pub receive : List ℕ → Recorder → Recorder
receive frame r = record r { frames = r.frames ++ frame ∷ [] }

abbrev pub sample_count : List (List ℕ) → ℕ
sample_count [] = 0
sample_count (f ∷ fs) = length f + sample_count fs

-- `samples.set(frame, offset); offset += frame.length`
unfoldable pub copy_frames : ℕ → List (List ℕ) → List ℕ → List ℕ
unfolding write_bytes
copy_frames offset [] samples = samples
copy_frames offset (f ∷ fs) samples =
    copy_frames (offset + length f) fs (write_bytes offset f samples)

unfoldable pub blob_of : List (List ℕ) → List ℕ
unfolding copy_frames encode_pcm16_wav
blob_of frames = encode_pcm16_wav (copy_frames 0 frames (replicate (sample_count frames) 0)) 16000

-- The blob, or none for the error that the recorder is not active.
unfoldable pub stop : Recorder → Recorder × Option (List ℕ)
unfolding cleanup blob_of
stop r =
    let blob = blob_of r.frames in
    elim r.state [
      | idle ↦ (r, none)
      | stopped ↦ (r, r.last_blob)
      | recording ↦
          (record (cleanup r) { state = stopped; frames = []; last_blob = some blob }, some blob)
    ]

unfoldable pub discard : Recorder → Recorder
unfolding cleanup
discard r = record (cleanup r) { frames = []; last_blob = none; state = idle }

-- The timer of the longest duration.
unfoldable pub time_out : Recorder → Recorder
unfolding stop
time_out r = if r.timer then (stop r).0 else r
