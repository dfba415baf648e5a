-- ===== src/Audio/Playback.antt =====
-- frontend/realtime/src/ttsClone/audio.ts: `createPlaybackAnalyser`. An audio element whose `src` was
-- never set has the empty source. Handles of animation frames are positive, and the mean energy of the
-- samples is a number that is given; a call gives the amplitudes that go to the listeners besides.
use agent_speak.Base.{
  ℕ, String, Bool, true, false, not, ◌||◌, List, [], ◌∷◌, Option, none, some, str_eq, ◌==◌, keep,
  if◌then◌else◌, ◌≡◌, refl, arith, ◌++◌, ap, ◌∙◌, if-true,
}

pub record Playback : Type 0 where
  pub source : String
  -- The context with its analyser.
  pub has_context : Bool
  pub frame : Option ℕ
  pub playing : Bool
  -- Whether the element plays, and the animation frames that are requested.
  pub sounds : Bool
  pub requested : List ℕ

abbrev pub new_playback : Playback
new_playback = record {
  source = "";
  has_context = false;
  frame = none;
  playing = false;
  sounds = false;
  requested = [];
}

abbrev pub cancel_frame : Option ℕ → List ℕ → List ℕ
cancel_frame none requested = requested
cancel_frame (some handle) requested = keep (λ h. not (h == handle)) requested

-- The listeners hear the amplitude 0.
unfoldable pub stop : Playback → Playback × List ℕ
stop p = (
  record p {
    playing = false;
    requested = cancel_frame p.frame p.requested;
    frame = none;
    sounds = false;
  },
  0 ∷ [],
)

abbrev pub request_frame : ℕ → Playback → Playback
request_frame handle p = record p { frame = some handle; requested = handle ∷ p.requested }

-- The callback of the requested frame `called`, which has the amplitude at hand.
unfoldable pub sample : ℕ → ℕ → ℕ → Playback → Playback × List ℕ
sample called amplitude handle p =
    let q = record p { requested = keep (λ h. not (h == called)) p.requested } in
    if not p.playing || not p.has_context then (q, []) else (request_frame handle q, amplitude ∷ [])

unfoldable pub set_source : String → Playback → Playback × List ℕ
unfolding stop
set_source url p = let (q, heard) = stop p in (record q { source = url }, heard)

-- How the promises of `resume` and `audio.play` end: the context does not resume, the element does not
-- play, or it plays.
pub data PlayFate : Type 0 where
  suspended refused plays : PlayFate

pub data Played : Type 0 where
  not_ready broken started : Played

-- The promises are settled before the next call.
unfoldable pub play : ℕ → PlayFate → Playback → Playback × Played
play handle fate p =
    let q = record p { has_context = true } in
    if str_eq p.source "" then (p, not_ready) else elim fate [
      | suspended ↦ (q, broken)
      | refused ↦ (q, broken)
      | plays ↦ (request_frame handle (record q { playing = true; sounds = true }), started)
    ]

-- The parts of `play` before and after its promises, the first with whether it goes on.
unfoldable pub begin_play : Playback → Playback × Bool
begin_play p = if str_eq p.source "" then (p, false) else (record p { has_context = true }, true)

unfoldable pub finish_play : ℕ → PlayFate → Playback → Playback × Played
finish_play handle fate p = elim fate [
  | suspended ↦ (p, broken)
  | refused ↦ (p, broken)
  | plays ↦ (request_frame handle (record p { playing = true; sounds = true }), started)
]

-- The element has come to its end. The listeners of the end are called, too.
unfoldable pub ended : Playback → Playback × List ℕ
unfolding stop
ended p = stop p

unfoldable pub dispose : Playback → Playback × List ℕ
unfolding stop
dispose p = let (q, heard) = stop p in (record q { source = ""; has_context = false }, heard)

pub data Call : Type 0 where
  sets_source : String → Call
  plays_from : ℕ → PlayFate → Call
  stops ends disposes : Call
  samples : ℕ → ℕ → ℕ → Call

unfoldable pub apply : Playback → Call → Playback × List ℕ
unfolding set_source play stop ended dispose sample
apply p (sets_source url) = set_source url p
apply p (plays_from handle fate) = ((play handle fate p).0, [])
apply p stops = stop p
apply p ends = ended p
apply p disposes = dispose p
apply p (samples called amplitude handle) = sample called amplitude handle p

-- The element plays exactly while the analyser counts as playing, and then there is a context.
pub record IsSound (p : Playback) : Type 0 where
  pub sounding : p.sounds ≡ p.playing
  pub has_analyser : p.playing ≡ true → p.has_context ≡ true

pub apply-IsSound : (p : Playback) (c : Call) → IsSound p → IsSound (apply p c).0
unfolding apply set_source play stop ended dispose sample
apply-IsSound p (sets_source url) s = record {
  sounding = refl;
  has_analyser = λ h. absurd (ground arith);
}
apply-IsSound p (plays_from handle suspended) s = ground arith
apply-IsSound p (plays_from handle refused) s = ground arith
apply-IsSound p (plays_from handle plays) s = ground arith
apply-IsSound p stops s = record { sounding = refl; has_analyser = λ h. absurd (ground arith) }
apply-IsSound p ends s = record { sounding = refl; has_analyser = λ h. absurd (ground arith) }
apply-IsSound p disposes s = record { sounding = refl; has_analyser = λ h. absurd (ground arith) }
apply-IsSound p (samples called amplitude handle) s = ground arith

-- The callbacks of animation frames, one after another, with what the listeners hear.
unfoldable pub sample_all : List (ℕ × ℕ × ℕ) → Playback → Playback × List ℕ
unfolding sample
sample_all [] p = (p, [])
sample_all ((called, amplitude, handle) ∷ cs) p =
    let (q, heard) = sample called amplitude handle p in
    let (r, later) = sample_all cs q in (r, heard ++ later)

-- A callback that comes while nothing is played.
sample-silent :
    (called amplitude handle : ℕ) (p : Playback)
    → p.playing ≡ false
    → sample called amplitude handle p
      ≡ (record p { requested = keep (λ h. not (h == called)) p.requested }, [])
unfolding sample
sample-silent called amplitude handle p h =
    if-true (not p.playing || not p.has_context) _ _ (ground arith)

sample_all-silent :
    (cs : List (ℕ × ℕ × ℕ)) (p : Playback) → p.playing ≡ false → (sample_all cs p).1 ≡ []
unfolding sample_all
sample_all-silent [] p h = refl
sample_all-silent ((called, amplitude, handle) ∷ cs) p h =
    let q = record p { requested = keep (λ k. not (k == called)) p.requested } in
    ap (λ r. r.1 ++ (sample_all cs r.0).1) (sample-silent called amplitude handle p h)
    ∙ sample_all-silent cs q h

-- After a stop, the listeners have heard the amplitude 0, the element is silent, the frame that was held
-- is not requested any more, and whatever callbacks of older frames still come, they hear nothing more.
pub stop-sample_all :
    (p : Playback) (cs : List (ℕ × ℕ × ℕ))
    → let (q, heard) = stop p in
      (heard ≡ 0 ∷ [])
      × (q.sounds ≡ false)
      × (q.requested ≡ cancel_frame p.frame p.requested)
      × ((sample_all cs q).1 ≡ [])
unfolding stop
stop-sample_all p cs = (refl, refl, refl, sample_all-silent cs (stop p).0 refl)
