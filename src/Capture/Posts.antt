-- ===== src/Capture/Posts.antt =====
-- frontend/realtime/public/pcm-capture.worklet.js: what is posted over a session.
use mathlib.Core.Path.{subst}
use agent_speak.Base.{ℕ, ◌<◌, List, [], ◌∷◌, ◌++◌, length, ◌≡◌, refl, sym, arith, All}
use agent_speak.Capture.{Sample, Message, source_samples, messages_of, messages_of_all}
use agent_speak.Capture.Bounds.{IsPosted, messages_of-IsPosted}
use agent_speak.Capture.Chunks.{joined, process_all, process_all-IsCaptured}

-- The messages are those of the chunks, one chunk after another.
abbrev pub ArePosted : List (List Sample) → List Message → Type 0
ArePosted [] messages = messages ≡ []
ArePosted (chunk ∷ chunks) messages =
    (first : List Message) × (later : List Message) × (messages ≡ first ++ later)
    × IsPosted chunk first
    × ArePosted chunks later

messages_of_all-ArePosted :
    (size : ℕ) (chunks : List (List Sample))
    → 0 < size
    → All (λ c. length c ≡ size) chunks
    → ArePosted chunks (messages_of_all chunks)
messages_of_all-ArePosted size [] p h = refl
messages_of_all-ArePosted size (chunk ∷ chunks) p h = (
  messages_of chunk,
  messages_of_all chunks,
  refl,
  messages_of-IsPosted chunk (omega (arith, h.0)),
  messages_of_all-ArePosted size chunks p h.1,
)

-- What lies in the buffer at first and comes in after it, cut into chunks of `size` samples and a rest.
pub record AreSent (size : ℕ) (samples rest : List Sample) (messages : List Message) : Type 0 where
  pub chunks : List (List Sample)
  pub in_order : joined chunks ++ rest ≡ samples
  pub sized : All (λ c. length c ≡ size) chunks
  pub short : length rest < size
  pub posted : ArePosted chunks messages

-- Over any inputs, empty ones too, what lies in the buffer and comes in is cut, in order and without loss,
-- into chunks of 20 milliseconds and a shorter rest that stays in the buffer. For each chunk, in order,
-- exactly two messages are posted: 32 peaks of magnitude 1 at most, and 320 samples of 16 bits, of which
-- the one at `j` is read at the index `j * length / 320` of the chunk, cut to magnitude 1, and keeps its
-- sign and its amount.
pub process_all-AreSent :
    (sample_rate : ℕ) (buffer : List Sample) (inputs : List (List Sample))
    → length buffer < source_samples sample_rate
    → let (rest, messages) = process_all sample_rate buffer inputs in
      AreSent (source_samples sample_rate) (buffer ++ joined inputs) rest messages
process_all-AreSent sample_rate buffer inputs h =
    let c = process_all-IsCaptured sample_rate buffer inputs h in
    record {
      chunks = c.chunks;
      in_order = c.in_order;
      sized = c.sized;
      short = c.short;
      posted =
          subst (ArePosted c.chunks) (sym c.posted)
            (messages_of_all-ArePosted (source_samples sample_rate) c.chunks (omega arith) c.sized);
    }
