-- ===== src/Audio/Recordings.antt =====
-- frontend/realtime/src/ttsClone/audio.ts: what a recording holds, and what stays open.
use agent_speak.Base.{
  ℕ, ◌+◌, true, false, List, [], ◌∷◌, ◌++◌, Option, none, some, length, ◌≡◌, refl, ap, sym, ◌∙◌,
  arith, is_some, append_nil,
}
use mathlib.Core.Path.{subst}
use agent_speak.Audio.Wav.{replicate, write_bytes, encode_pcm16_wav}
use agent_speak.Audio.Header.{write_bytes-append, replicate-add}
use agent_speak.Audio.Recorder.{
  Recorder, new_recorder, StartFate, denied, broken, granted, start, receive, stop, discard,
  time_out, is_recording, cleanup, copy_frames, sample_count, blob_of, open_capture, recording,
}

abbrev pub concat : List (List ℕ) → List ℕ
concat [] = []
concat (f ∷ fs) = f ++ concat fs

add_assoc : (a b c : ℕ) → a + b + c ≡ a + (b + c)
add_assoc a b c = omega arith

at_end : (n : ℕ) → 0 + n ≡ n + 0
at_end n = omega arith

-- The part of the buffer before the offset is done.
copy_frames-append :
    (fs : List (List ℕ)) (h t : List ℕ) (i : ℕ)
    → copy_frames (length h + i) fs (h ++ t) ≡ h ++ copy_frames i fs t
unfolding copy_frames
copy_frames-append [] h t i = refl
copy_frames-append (f ∷ fs) h t i =
    ap (copy_frames (length h + i + length f) fs) (write_bytes-append f h t i)
    ∙ ap (λ k. copy_frames k fs (h ++ write_bytes i f t)) (add_assoc (length h) i (length f))
    ∙ copy_frames-append fs h (write_bytes i f t) (i + length f)

write_first : (f t : List ℕ) → write_bytes 0 f (replicate (length f) 0 ++ t) ≡ f ++ t
unfolding write_bytes
write_first [] t = refl
write_first (b ∷ bs) t =
    write_bytes-append bs (b ∷ []) (replicate (length bs) 0 ++ t) 0 ∙ ap (◌∷◌ b) (write_first bs t)

copy_frames-concat :
    (fs : List (List ℕ)) → copy_frames 0 fs (replicate (sample_count fs) 0) ≡ concat fs
unfolding copy_frames
copy_frames-concat [] = refl
copy_frames-concat (f ∷ fs) =
    let zeros = replicate (sample_count fs) 0 in
    ap (copy_frames (0 + length f) fs)
      (ap (write_bytes 0 f) (replicate-add (length f) (sample_count fs) 0) ∙ write_first f zeros)
    ∙ ap (λ k. copy_frames k fs (f ++ zeros)) (at_end (length f))
    ∙ copy_frames-append fs f zeros 0
    ∙ ap (◌++◌ f) (copy_frames-concat fs)

-- The blob is the WAV file of the frames, one after another.
blob_of-concat : (fs : List (List ℕ)) → blob_of fs ≡ encode_pcm16_wav (concat fs) 16000
unfolding blob_of
blob_of-concat fs = ap (λ s. encode_pcm16_wav s 16000) (copy_frames-concat fs)

-- The messages of the worklet, in their order.
unfoldable pub receive_all : List (List ℕ) → Recorder → Recorder
unfolding receive
receive_all [] r = r
receive_all (f ∷ fs) r = receive_all fs (receive f r)

append_one : (xs fs : List (List ℕ)) (f : List ℕ) → (xs ++ f ∷ []) ++ fs ≡ xs ++ f ∷ fs
append_one [] fs f = refl
append_one (x ∷ xs) fs f = ap (◌∷◌ x) (append_one xs fs f)

receive_all-frames :
    (fs : List (List ℕ)) (r : Recorder) → receive_all fs r ≡ record r { frames = r.frames ++ fs }
unfolding receive_all receive
receive_all-frames [] r = ap (λ xs. record r { frames = xs }) (sym (append_nil r.frames))
receive_all-frames (f ∷ fs) r =
    receive_all-frames fs (record r { frames = r.frames ++ f ∷ [] })
    ∙ ap (λ xs. record r { frames = xs }) (append_one r.frames fs f)

-- The recorder after a start that succeeds and the frames.
captured_as : ℕ → ℕ → List (List ℕ) → Recorder → Recorder
unfolding cleanup
captured_as stream context fs r = record (open_capture stream context (cleanup r)) {
  frames = fs;
  last_blob = none;
  source = true;
  worklet = true;
  state = recording;
  timer = true;
}

start-captured :
    (r : Recorder) (stream context : ℕ) (fs : List (List ℕ))
    → is_recording r.state ≡ false
    → receive_all fs (start stream context granted r).0 ≡ captured_as stream context fs r
unfolding start cleanup captured_as
start-captured r stream context fs h =
    ap (receive_all fs) (begun h) ∙ receive_all-frames fs (captured_as stream context [] r)
  where
    begun :
        is_recording r.state ≡ false
        → (start stream context granted r).0 ≡ captured_as stream context [] r
    begun h = rw h refl

-- A start that succeeds, frames, and a stop: the blob is the WAV file at 16 kHz of the frames in the
-- order of their arrival; a second stop gives the same blob and changes nothing; after a discard
-- there is nothing to stop.
pub start-receive_all-stop :
    (r : Recorder) (stream context : ℕ) (fs : List (List ℕ))
    → is_recording r.state ≡ false
    → let captured = receive_all fs (start stream context granted r).0 in
      let ended = (stop captured).0 in
      let blob = encode_pcm16_wav (concat fs) 16000 in
      ((stop captured).1 ≡ some blob)
      × (stop ended ≡ (ended, some blob))
      × ((stop (discard ended)).1 ≡ none)
unfolding stop discard cleanup captured_as
start-receive_all-stop r stream context fs h =
    subst
      (λ c.
        ((stop c).1 ≡ some (encode_pcm16_wav (concat fs) 16000))
        × (stop (stop c).0 ≡ ((stop c).0, some (encode_pcm16_wav (concat fs) 16000)))
        × ((stop (discard (stop c).0)).1 ≡ none))
      (sym (start-captured r stream context fs h))
      (
        ap some (blob_of-concat fs),
        ap (λ b. ((stop (captured_as stream context fs r)).0, some b)) (blob_of-concat fs),
        refl,
      )

abbrev pub held : Option ℕ → List ℕ
held none = []
held (some k) = k ∷ []

-- The streams and contexts that are open are those that the recorder holds, which are a stream and a
-- context while it records, and none at other times.
pub record IsTight (r : Recorder) : Type 0 where
  pub open_streams : r.streams ≡ held r.stream
  pub open_contexts : r.contexts ≡ held r.context
  pub both : (is_some r.stream ≡ is_recording r.state) × (is_some r.context ≡ is_recording r.state)
  pub timed : r.timer ≡ is_recording r.state

pub data Operation : Type 0 where
  starts : ℕ → ℕ → StartFate → Operation
  receives : List ℕ → Operation
  stops discards times_out : Operation

unfoldable pub apply : Recorder → Operation → Recorder
unfolding start receive stop discard time_out
apply r (starts stream context fate) = (start stream context fate r).0
apply r (receives frame) = receive frame r
apply r stops = (stop r).0
apply r discards = discard r
apply r times_out = time_out r

abbrev pub run : Recorder → List Operation → Recorder
run r [] = r
run r (o ∷ os) = run (apply r o) os

pub apply-IsTight : (r : Recorder) (o : Operation) → IsTight r → IsTight (apply r o)
unfolding apply cleanup start receive stop discard time_out
apply-IsTight r (starts stream context denied) t = ground arith
apply-IsTight r (starts stream context broken) t = ground arith
apply-IsTight r (starts stream context granted) t = ground arith
apply-IsTight r (receives frame) t = ground arith
apply-IsTight r stops t = ground arith
apply-IsTight r discards t = ground arith
apply-IsTight r times_out t = ground arith

run-IsTight : (r : Recorder) (os : List Operation) → IsTight r → IsTight (run r os)
run-IsTight r [] t = t
run-IsTight r (o ∷ os) t = run-IsTight (apply r o) os (apply-IsTight r o t)

-- Over any starts, whatever becomes of them, frames, stops, discards and runs of the timer, one stream
-- and one context are open exactly while the recorder records, and they are those that it holds.
run-new_recorder : (os : List Operation) → IsTight (run new_recorder os)
run-new_recorder os =
    run-IsTight new_recorder os
      (record { open_streams = refl; open_contexts = refl; both = (refl, refl); timed = refl })
