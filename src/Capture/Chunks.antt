-- ===== src/Capture/Chunks.antt =====
-- frontend/realtime/public/pcm-capture.worklet.js: no sample is lost.
use agent_speak.Base.{
  ℕ, zero, suc, ◌≤◌, ◌<◌, Bool, true, false, List, [], ◌∷◌, ◌++◌, if◌then◌else◌, leb, leb→le,
  length, take, drop, ◌≡◌, refl, sym, ap, ◌∙◌, arith, All, length-take, length-drop,
  take-append-drop, append_nil, append_assoc, All-append,
}
use agent_speak.Capture.{
  Sample, Message, source_samples, cut, cut_combined, messages_of, messages_of_all, process,
}

abbrev pub joined : List (List Sample) → List Sample
joined [] = []
joined (c ∷ cs) = c ++ joined cs

-- How the chunks and the rest lie in the buffer.
pub record IsCut (size : ℕ) (buffer : List Sample) (r : List (List Sample) × List Sample)
    : Type 0 where
  pub in_order : joined r.0 ++ r.1 ≡ buffer
  pub sized : All (λ c. length c ≡ size) r.0
  pub short : length r.1 < size

cut-IsCut :
    (fuel size : ℕ) (buffer : List Sample)
    → 0 < size
    → length buffer ≤ fuel
    → IsCut size buffer (cut fuel size buffer)
unfolding cut
cut-IsCut zero size buffer p h = record { in_order = refl; sized = tt; short = omega arith }
cut-IsCut (suc fuel) size buffer p h =
    taken (leb size (length buffer)) refl
      (λ e. cut-IsCut fuel size (drop size buffer) p (ground (arith, length-drop size buffer)))
  where
    taken :
        (b : Bool)
        → leb size (length buffer) ≡ b
        → (leb size (length buffer) ≡ true
            → IsCut size (drop size buffer) (cut fuel size (drop size buffer)))
        → IsCut size buffer (
            if b
            then (
              take size buffer ∷ (cut fuel size (drop size buffer)).0,
              (cut fuel size (drop size buffer)).1,
            )
            else ([], buffer))
    taken true e k =
        let r = cut fuel size (drop size buffer) in
        record {
          in_order =
              append_assoc (take size buffer) (joined r.0) r.1
              ∙ ap (λ t. take size buffer ++ t) (k e).in_order
              ∙ take-append-drop size buffer;
          sized =
              (ground (arith, length-take size buffer, leb→le size (length buffer) e), (k e).sized);
          short = (k e).short;
        }
    taken false e k = record { in_order = refl; sized = tt; short = ground arith }

unfoldable pub process_all : ℕ → List Sample → List (List Sample) → List Sample × List Message
unfolding process
process_all sample_rate buffer [] = (buffer, [])
process_all sample_rate buffer (input ∷ inputs) =
    let (rest, messages) = process sample_rate buffer input in
    let (end, later) = process_all sample_rate rest inputs in (end, messages ++ later)

-- The buffer and the inputs, one after another, cut into chunks whose messages are posted, and a rest.
pub record IsCaptured (size : ℕ) (samples : List Sample) (r : List Sample × List Message)
    : Type 0 where
  pub chunks : List (List Sample)
  pub posted : r.1 ≡ messages_of_all chunks
  pub in_order : joined chunks ++ r.0 ≡ samples
  pub sized : All (λ c. length c ≡ size) chunks
  pub short : length r.0 < size

process-IsCaptured :
    (sample_rate : ℕ) (buffer input : List Sample)
    → length buffer < source_samples sample_rate
    → IsCaptured (source_samples sample_rate) (buffer ++ input) (process sample_rate buffer input)
unfolding process cut_combined
process-IsCaptured sample_rate buffer [] h = record {
  chunks = [];
  posted = refl;
  in_order = sym (append_nil buffer);
  sized = tt;
  short = h;
}
process-IsCaptured sample_rate buffer (s ∷ input) h =
    let combined = buffer ++ s ∷ input in
    let r = cut (length combined) (source_samples sample_rate) combined in
    let c =
      cut-IsCut (length combined) (source_samples sample_rate) combined (omega arith)
        (omega arith) in
    record { chunks = r.0; posted = refl; in_order = c.in_order; sized = c.sized; short = c.short }

joined-append : (xs ys : List (List Sample)) → joined (xs ++ ys) ≡ joined xs ++ joined ys
joined-append [] ys = refl
joined-append (x ∷ xs) ys =
    ap (λ t. x ++ t) (joined-append xs ys) ∙ sym (append_assoc x (joined xs) (joined ys))

messages_of_all-append :
    (xs ys : List (List Sample))
    → messages_of_all (xs ++ ys) ≡ messages_of_all xs ++ messages_of_all ys
messages_of_all-append [] ys = refl
messages_of_all-append (x ∷ xs) ys =
    ap (λ t. messages_of x ++ t) (messages_of_all-append xs ys)
    ∙ sym (append_assoc (messages_of x) (messages_of_all xs) (messages_of_all ys))

-- How any inputs, empty ones too, are cut.
pub process_all-IsCaptured :
    (sample_rate : ℕ) (buffer : List Sample) (inputs : List (List Sample))
    → length buffer < source_samples sample_rate
    → IsCaptured
        (source_samples sample_rate)
        (buffer ++ joined inputs)
        (process_all sample_rate buffer inputs)
unfolding process_all
process_all-IsCaptured sample_rate buffer [] h = record {
  chunks = [];
  posted = refl;
  in_order = sym (append_nil buffer);
  sized = tt;
  short = h;
}
process_all-IsCaptured sample_rate buffer (input ∷ inputs) h =
    let p = process sample_rate buffer input in
    let c = process-IsCaptured sample_rate buffer input h in
    let d = process_all-IsCaptured sample_rate p.0 inputs c.short in
    let r = process_all sample_rate p.0 inputs in
    record {
      chunks = c.chunks ++ d.chunks;
      posted =
          ap (λ t. t ++ r.1) c.posted
          ∙ ap (λ t. messages_of_all c.chunks ++ t) d.posted
          ∙ sym (messages_of_all-append c.chunks d.chunks);
      in_order =
          ap (λ t. t ++ r.0) (joined-append c.chunks d.chunks)
          ∙ append_assoc (joined c.chunks) (joined d.chunks) r.0
          ∙ ap (λ t. joined c.chunks ++ t) d.in_order
          ∙ sym (append_assoc (joined c.chunks) p.0 (joined inputs))
          ∙ ap (λ t. t ++ joined inputs) c.in_order
          ∙ append_assoc buffer input (joined inputs);
      sized =
          All-append (λ c. length c ≡ source_samples sample_rate) c.chunks d.chunks c.sized d.sized;
      short = d.short;
    }
