-- ===== src/Capture/Tests.antt =====
-- The worklet at concrete samples, and the theorems at them.
use agent_speak.Base.{true, false, List, [], ◌∷◌, arith, ◌≡◌, refl}
use agent_speak.Capture.{Sample, pcm_of, clamp, amount, messages_of, source_samples}
use agent_speak.Capture.Chunks.{process_all, joined}
use agent_speak.Capture.Posts.{AreSent, process_all-AreSent}
use agent_speak.Capture.Bounds.{IsPosted, messages_of-IsPosted}

abbrev loud : Sample
loud = record { is_negative = true; num = 3; below = 1 }

abbrev soft : Sample
soft = record { is_negative = false; num = 1; below = 1 }

-- 3/2 below zero is cut to the smallest 16-bit number, 1/2 above zero is half of the largest.
extremes : (pcm_of (clamp loud) ≡ 32768) × (pcm_of (clamp soft) ≡ 16383)
unfolding pcm_of amount
extremes = (refl, refl)

messages_of-IsPosted_example : IsPosted (loud ∷ soft ∷ []) (messages_of (loud ∷ soft ∷ []))
messages_of-IsPosted_example = messages_of-IsPosted (loud ∷ soft ∷ []) (omega arith)

abbrev inputs : List (List Sample)
inputs = (loud ∷ soft ∷ soft ∷ []) ∷ [] ∷ (soft ∷ loud ∷ []) ∷ []

-- At 100 samples a second a message has two.
process_all-AreSent_example :
    let (rest, messages) = process_all 100 [] inputs in
    AreSent (source_samples 100) (joined inputs) rest messages
process_all-AreSent_example = process_all-AreSent 100 [] inputs (omega arith)
