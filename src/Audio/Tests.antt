-- ===== src/Audio/Tests.antt =====
-- The audio of the studio at concrete values, and the theorems at them.
use agent_speak.Base.{◌≡◌, refl, none, some, List, [], ◌∷◌, ◌++◌, length, arith, true, false}
use agent_speak.Audio.Playback.{Playback, new_playback, sample_all, stop-sample_all}
use agent_speak.Audio.Playback as Playback
use agent_speak.Audio.Urls.{
  new_session, Operation, sets_reference, sets_generated, run, IsTidy, run-new_session, apply,
}
use agent_speak.Audio.Wav.{encode_pcm16_wav, sample_bytes}
use agent_speak.Audio.Header.{
  header, samples_at, rate_at, size_at, encode_pcm16_wav-layout, read-encode_pcm16_wav,
}
use agent_speak.Audio.Recorder.{new_recorder, granted, start, stop, discard}
use agent_speak.Audio.Recordings.{concat, receive_all, start-receive_all-stop}

abbrev studio : List Operation
studio = sets_reference 1 "blob:a" ∷ sets_generated 2 "blob:b" ∷ sets_reference 3 "blob:c" ∷ []

studio_alive : (run new_session studio).alive ≡ "blob:c" ∷ "blob:b" ∷ []
unfolding apply
studio_alive = refl

run-new_session_example : IsTidy (run new_session studio)
unfolding apply
run-new_session_example = run-new_session studio ((refl, refl), ((refl, refl), ((refl, refl), tt)))

encode_pcm16_wav-layout_example :
    encode_pcm16_wav (1 ∷ 65535 ∷ []) 16000 ≡ header 4 16000 ++ sample_bytes (1 ∷ 65535 ∷ [])
encode_pcm16_wav-layout_example = encode_pcm16_wav-layout (1 ∷ 65535 ∷ []) 16000

read-encode_pcm16_wav_example :
    let file = encode_pcm16_wav (1 ∷ 65535 ∷ []) 16000 in
    (samples_at file ≡ 1 ∷ 65535 ∷ [])
    × (rate_at file ≡ 16000)
    × (size_at file ≡ 4)
    × (length file ≡ 48)
read-encode_pcm16_wav_example =
    read-encode_pcm16_wav (1 ∷ 65535 ∷ []) 16000 (omega arith) (omega arith) (omega arith)

start-receive_all-stop_example :
    let captured = receive_all ((1 ∷ 2 ∷ []) ∷ (3 ∷ []) ∷ []) (start 5 6 granted new_recorder).0 in
    let ended = (stop captured).0 in
    let blob = encode_pcm16_wav (concat ((1 ∷ 2 ∷ []) ∷ (3 ∷ []) ∷ [])) 16000 in
    ((stop captured).1 ≡ some blob)
    × (stop ended ≡ (ended, some blob))
    × ((stop (discard ended)).1 ≡ none)
start-receive_all-stop_example =
    start-receive_all-stop new_recorder 5 6 ((1 ∷ 2 ∷ []) ∷ (3 ∷ []) ∷ []) refl

abbrev sounding : Playback
sounding = record new_playback {
  source = "blob:4";
  has_context = true;
  frame = some 2;
  playing = true;
  sounds = true;
  requested = 2 ∷ 1 ∷ [];
}

stop-sample_all_example :
    let (q, heard) = Playback.stop sounding in
    (heard ≡ 0 ∷ [])
    × (q.sounds ≡ false)
    × (q.requested ≡ 1 ∷ [])
    × ((sample_all ((1, 40, 3) ∷ []) q).1 ≡ [])
stop-sample_all_example = stop-sample_all sounding ((1, 40, 3) ∷ [])
