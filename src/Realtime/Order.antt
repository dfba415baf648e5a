-- ===== src/Realtime/Order.antt =====
-- frontend/realtime/src/state/reducer.ts: events that are late or repeated.
use agent_speak.Base.{
  true, false, ℕ, ◌≡◌, refl, ap, ◌∙◌, ◌≤◌, max, inl, inr, List, [], ◌∷◌, ◌++◌, Option, arith, leb,
  le→leb, if◌then◌else◌, map, Bool-cases, All,
}
use agent_speak.Realtime.Types.{EventType, RealtimeEvent, RealtimeAction, server_event}
use agent_speak.Realtime.Reducer.{
  RealtimeState, truthy, revise_found, revise, handle, realtime_reducer, run,
}

revise-last_sequence :
    (k : Option _) (payload : _) (s : RealtimeState)
    → (revise k payload s).last_sequence ≡ s.last_sequence
unfolding revise revise_found
revise-last_sequence k payload s = ground arith

handle-last_sequence :
    (t : EventType) (e : RealtimeEvent) (s : RealtimeState)
    → (handle t e s).last_sequence ≡ s.last_sequence
unfolding handle
handle-last_sequence t e s =
    ground (arith, revise-last_sequence (truthy e.utterance_id) e.payload s)

-- The sequence number of the state is the greatest seen.
pub last_sequence-reducer :
    (s : RealtimeState) (e : RealtimeEvent)
    → (realtime_reducer s (server_event e)).last_sequence ≡ max s.last_sequence e.sequence
unfolding realtime_reducer
last_sequence-reducer s e =
    ground (arith, handle-last_sequence e.event_type e (record s { last_sequence = e.sequence }))

realtime_reducer_old :
    (s : RealtimeState) (e : RealtimeEvent)
    → leb e.sequence s.last_sequence ≡ true
    → realtime_reducer s (server_event e) ≡ s
unfolding realtime_reducer
realtime_reducer_old s e h = rw h

realtime_reducer_new :
    (s : RealtimeState) (e : RealtimeEvent)
    → leb e.sequence s.last_sequence ≡ false
    → realtime_reducer s (server_event e)
      ≡ handle e.event_type e (record s { last_sequence = e.sequence })
unfolding realtime_reducer
realtime_reducer_new s e h = rw h

abbrev pub events : List RealtimeEvent → List RealtimeAction
events = map server_event

-- The events with a greater sequence number than all before them.
abbrev pub fresh : ℕ → List RealtimeEvent → List RealtimeEvent
fresh last [] = []
fresh last (e ∷ es) =
    let skipped = fresh last es in
    let taken = e ∷ fresh e.sequence es in if leb e.sequence last then skipped else taken

abbrev pub handle_event : RealtimeState → RealtimeEvent → RealtimeState
handle_event s e = handle e.event_type e (record s { last_sequence = e.sequence })

-- The reducer's `switch` alone, with no look at the sequence number.
abbrev pub handle_all : RealtimeState → List RealtimeEvent → RealtimeState
handle_all s [] = s
handle_all s (e ∷ es) = handle_all (handle_event s e) es

-- Over any sequence of server events the reducer applies each event that is newer than all before
-- it, in order, and no other.
pub run-fresh :
    (s : RealtimeState) (es : List RealtimeEvent)
    → run s (events es) ≡ handle_all s (fresh s.last_sequence es)
unfolding run
run-fresh s [] = refl
run-fresh s (e ∷ es) = elim (Bool-cases (leb e.sequence s.last_sequence)) [
  | inl old ↦ rw old (ap (λ x. run x (events es)) (realtime_reducer_old s e old) ∙ run-fresh s es)
  | inr new ↦ rw new (
      ap (λ x. run x (events es)) (realtime_reducer_new s e new)
      ∙ run-fresh (handle_event s e) es
      ∙ ap (λ last. handle_all (handle_event s e) (fresh last es))
          (handle-last_sequence e.event_type e (record s { last_sequence = e.sequence })))
]

last_sequence-run :
    (s : RealtimeState) (es : List RealtimeEvent)
    → s.last_sequence ≤ (run s (events es)).last_sequence
unfolding run
last_sequence-run s [] = omega arith
last_sequence-run s (e ∷ es) =
    omega
      (arith, last_sequence-reducer s e, last_sequence-run (realtime_reducer s (server_event e)) es)

seen-run :
    (s : RealtimeState) (es : List RealtimeEvent)
    → All (λ e. e.sequence ≤ (run s (events es)).last_sequence) es
unfolding run
seen-run s [] = tt
seen-run s (e ∷ es) =
    let s' = realtime_reducer s (server_event e) in
    (omega (arith, last_sequence-reducer s e, last_sequence-run s' es), seen-run s' es)

run_old :
    (s : RealtimeState) (es : List RealtimeEvent)
    → All (λ e. e.sequence ≤ s.last_sequence) es
    → run s (events es) ≡ s
unfolding run
run_old s [] h = refl
run_old s (e ∷ es) h =
    ap (λ x. run x (events es)) (realtime_reducer_old s e (le→leb _ _ h.0)) ∙ run_old s es h.1

run-append :
    (s : RealtimeState) (es fs : List RealtimeEvent)
    → run s (events (es ++ fs)) ≡ run (run s (events es)) (events fs)
unfolding run
run-append s [] fs = refl
run-append s (e ∷ es) fs = run-append (realtime_reducer s (server_event e)) es fs

-- Delivering a history a second time changes nothing.
run_replay :
    (s : RealtimeState) (es : List RealtimeEvent) → run s (events (es ++ es)) ≡ run s (events es)
run_replay s es = run-append s es es ∙ run_old _ es (seen-run s es)
