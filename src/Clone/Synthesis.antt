-- ===== src/Clone/Synthesis.antt =====
-- frontend/realtime/src/ttsClone/api.ts: what a synthesis sends and what it takes.
use mathlib.Core.Path.{subst}
use agent_speak.Base.{
  ℕ, Bool, true, false, List, [], ◌∷◌, ◌++◌, map, Option, none, some, ◌≡◌, refl, ap, ◌∙◌, arith,
  ◌↔◌, if◌then◌else◌, ◌⊎◌, inl, inr, All, Bool-cases, ◌==◌, codes, same_codes, sym,
}
use agent_speak.Clone.Api.{
  Response, ok, StyleCue, SynthesisRequest, Part, text_part, cue_part, use_clone_part,
  reference_part, reference_parts, form_of, is_wav, ensure_success, synthesize_speech,
  before_semicolon,
}

-- The service's reading of a form.
abbrev pub cues_in : List Part → List StyleCue
cues_in [] = []
cues_in (cue_part c ∷ ps) = c ∷ cues_in ps
cues_in (text_part _ ∷ ps) = cues_in ps
cues_in (use_clone_part _ ∷ ps) = cues_in ps
cues_in (reference_part _ ∷ ps) = cues_in ps

abbrev pub reference_in : List Part → Option ℕ
reference_in [] = none
reference_in (reference_part b ∷ ps) = some b
reference_in (text_part _ ∷ ps) = reference_in ps
reference_in (cue_part _ ∷ ps) = reference_in ps
reference_in (use_clone_part _ ∷ ps) = reference_in ps

cues_in-cues :
    (cs : List StyleCue) (ps : List Part) → cues_in (map cue_part cs ++ ps) ≡ cs ++ cues_in ps
cues_in-cues [] ps = refl
cues_in-cues (c ∷ cs) ps = ap (◌∷◌ c) (cues_in-cues cs ps)

reference_in-cues :
    (cs : List StyleCue) (ps : List Part) → reference_in (map cue_part cs ++ ps) ≡ reference_in ps
reference_in-cues [] ps = refl
reference_in-cues (c ∷ cs) ps = reference_in-cues cs ps

append_nil : (cs : List StyleCue) → cs ++ [] ≡ cs
append_nil [] = refl
append_nil (c ∷ cs) = ap (◌∷◌ c) (append_nil cs)

cues_in-reference_parts : (wanted : Bool) (r : Option ℕ) → cues_in (reference_parts wanted r) ≡ []
cues_in-reference_parts true (some b) = refl
cues_in-reference_parts true none = refl
cues_in-reference_parts false r = refl

reference_in-reference_parts :
    (wanted : Bool) (r : Option ℕ)
    → reference_in (reference_parts wanted r) ≡ (if wanted then r else none)
reference_in-reference_parts true (some b) = refl
reference_in-reference_parts true none = refl
reference_in-reference_parts false r = refl

-- The form carries the style cues in their order, and the reference voice exactly when the request
-- has one and asks for its use.
form_of-reading :
    (request : SynthesisRequest)
    → (cues_in (form_of request) ≡ request.style_cues)
      × (reference_in (form_of request) ≡ (if request.use_clone then request.reference else none))
unfolding form_of
form_of-reading request =
    let last =
      use_clone_part request.use_clone ∷ reference_parts request.use_clone request.reference in
    (
      cues_in-cues request.style_cues last
          ∙ ap (◌++◌ request.style_cues)
              (cues_in-reference_parts request.use_clone request.reference)
          ∙ append_nil request.style_cues,
      reference_in-cues request.style_cues last
          ∙ reference_in-reference_parts request.use_clone request.reference,
    )

synthesize_speech-test :
    (service : List Part → Response) (request : SynthesisRequest) (blob : ℕ)
    → let reply = service (form_of request) in
      (synthesize_speech service request ≡ ok blob)
      ↔ ((reply.is_ok ≡ true) × (is_wav reply.content_type ≡ true) × (reply.blob ≡ blob))
unfolding synthesize_speech ensure_success
synthesize_speech-test service request blob = ground arith

-- Nothing, or a semicolon with anything after it.
abbrev pub IsEnd : List ℕ → Type 0
IsEnd rest = (rest ≡ []) ⊎ ((more : List ℕ) × (rest ≡ 59 ∷ more))

abbrev HasNoSemicolon : List ℕ → Type 0
HasNoSemicolon known = All (λ c. (c == 59) ≡ false) known

before_semicolon-known :
    (known type : List ℕ)
    → HasNoSemicolon known
    → same_codes (before_semicolon type) known ≡ true
    → (rest : List ℕ) × (type ≡ known ++ rest) × IsEnd rest
before_semicolon-known [] [] h e = ([], refl, inl refl)
before_semicolon-known [] (c ∷ type) h e = elim (Bool-cases (c == 59)) [
  | inl s ↦ (c ∷ type, refl, inr (type, ground arith))
  | inr n ↦ absurd (ground arith)
]
before_semicolon-known (k ∷ known) [] h e = absurd (ground arith)
before_semicolon-known (k ∷ known) (c ∷ type) h e = elim (Bool-cases (c == 59)) [
  | inl s ↦ absurd (ground arith)
  | inr n ↦
      let same : (c ≡ k) × (same_codes (before_semicolon type) known ≡ true) = ground arith in
      let (rest, r, end) = before_semicolon-known known type h.1 same.1 in (rest, cc, end)
]

before_semicolon-append :
    (known rest : List ℕ)
    → HasNoSemicolon known
    → IsEnd rest
    → same_codes (before_semicolon (known ++ rest)) known ≡ true
before_semicolon-append [] [] h end = refl
before_semicolon-append [] (c ∷ rest) h (inl e) = absurd (ground arith)
before_semicolon-append [] (c ∷ rest) h (inr (more, e)) = ground arith
before_semicolon-append (k ∷ known) rest h end =
    let r = before_semicolon-append known rest h.1 end in ground (arith, h.0, r)

-- The type is `audio/wav`, or that and a semicolon with anything after it.
abbrev pub IsWav : Option (List ℕ) → Type 0
IsWav type = (rest : List ℕ) × (type ≡ some (codes "audio/wav" ++ rest)) × IsEnd rest

wav-HasNoSemicolon : HasNoSemicolon (codes "audio/wav")
wav-HasNoSemicolon = (refl, (refl, (refl, (refl, (refl, (refl, (refl, (refl, (refl, tt)))))))))

is_wav-IsWav : (type : Option (List ℕ)) → is_wav type ≡ true → IsWav type
is_wav-IsWav none e = absurd (ground arith)
is_wav-IsWav (some type) e =
    let (rest, r, end) = before_semicolon-known (codes "audio/wav") type wav-HasNoSemicolon e in
    (rest, ap some r, end)

IsWav-is_wav : (type : Option (List ℕ)) → IsWav type → is_wav type ≡ true
IsWav-is_wav type (rest, r, end) =
    subst (λ t. is_wav t ≡ true) (sym r)
      (before_semicolon-append (codes "audio/wav") rest wav-HasNoSemicolon end)

-- A synthesis gives audio exactly when the service answers with success and the type `audio/wav`, or
-- that and a semicolon with anything after it, and then it is the body of the answer.
pub synthesize_speech_iff :
    (service : List Part → Response) (request : SynthesisRequest) (blob : ℕ)
    → let reply = service (form_of request) in
      (synthesize_speech service request ≡ ok blob)
      ↔ ((reply.is_ok ≡ true) × IsWav reply.content_type × (reply.blob ≡ blob))
synthesize_speech_iff service request blob =
    let reply = service (form_of request) in
    let test = synthesize_speech-test service request blob in
    let type = reply.content_type in
    (
      λ e. let (o, w, b) = test.0 e in (o, is_wav-IsWav type w, b),
      λ (o, w, b). test.1 (o, IsWav-is_wav type w, b),
    )
