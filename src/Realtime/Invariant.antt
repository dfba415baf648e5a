-- ===== src/Realtime/Invariant.antt =====
-- frontend/realtime/src/state/reducer.ts: what holds of the state between two actions.
use agent_speak.Base.{
  ◌≡◌, String, List, [], ◌∷◌, Option, none, some, arith, Distinct, Distinct-append_one, inl, inr,
  Bool-cases, leb,
}
use agent_speak.Realtime.Types.{
  EventType, RealtimeEvent, RealtimeAction, server_event, session_reset, model_switched,
  asr_partial, asr_final, transcript_revised, utterance_completed,
}
use agent_speak.Realtime.Reducer.{
  RowStatus, RealtimeState, initial_state, truthy, revise, revise_found, complete, handle,
  realtime_reducer, run,
}
use agent_speak.Realtime.Rows.{ids, ids-upsert-Distinct, ids-revise, ids-completed_rows-Distinct}

-- No utterance has two rows, and none is completed twice.
pub record Inv (s : RealtimeState) : Type 0 where
  pub rows_distinct : Distinct (ids s.rows)
  pub completed_distinct : Distinct s.completed_utterance_ids

complete-Distinct : (k : Option String) (xs : List String) → Distinct xs → Distinct (complete k xs)
unfolding complete
complete-Distinct none xs d = d
complete-Distinct (some k) xs d = ground (arith, Distinct-append_one xs k d)

revise-completed :
    (k : Option String) (payload : _) (s : RealtimeState)
    → (revise k payload s).completed_utterance_ids ≡ s.completed_utterance_ids
unfolding revise revise_found
revise-completed k payload s = ground arith

handle-Inv : (t : EventType) (e : RealtimeEvent) (s : RealtimeState) → Inv s → Inv (handle t e s)
unfolding handle
handle-Inv asr_partial e s v = record {
  rows_distinct = ids-upsert-Distinct s.rows e RowStatus.partial v.rows_distinct;
  completed_distinct = v.completed_distinct;
}
handle-Inv asr_final e s v = record {
  rows_distinct = ids-upsert-Distinct s.rows e RowStatus.revisable v.rows_distinct;
  completed_distinct = v.completed_distinct;
}
handle-Inv transcript_revised e s v = record {
  rows_distinct = rw (ids-revise (truthy e.utterance_id) e.payload s) v.rows_distinct;
  completed_distinct =
      rw (revise-completed (truthy e.utterance_id) e.payload s) v.completed_distinct;
}
handle-Inv utterance_completed e s v = record {
  rows_distinct = v.rows_distinct;
  completed_distinct =
      complete-Distinct (truthy e.utterance_id) s.completed_utterance_ids v.completed_distinct;
}
handle-Inv _ e s v = record {
  rows_distinct = v.rows_distinct;
  completed_distinct = v.completed_distinct;
}

-- Every action, of the server or of the page, keeps the invariant.
pub realtime_reducer-Inv :
    (s : RealtimeState) (a : RealtimeAction) → Inv s → Inv (realtime_reducer s a)
unfolding realtime_reducer
realtime_reducer-Inv s session_reset v = record { rows_distinct = tt; completed_distinct = tt }
realtime_reducer-Inv s model_switched v = record {
  rows_distinct = ids-completed_rows-Distinct s.completed_utterance_ids s.rows v.rows_distinct;
  completed_distinct = v.completed_distinct;
}
realtime_reducer-Inv s (server_event e) v = elim (Bool-cases (leb e.sequence s.last_sequence)) [
  | inl old ↦ rw old v
  | inr new ↦ rw new (
      handle-Inv e.event_type e (record s { last_sequence = e.sequence })
        (record { rows_distinct = v.rows_distinct; completed_distinct = v.completed_distinct }))
]

run-Inv : (s : RealtimeState) (actions : List RealtimeAction) → Inv s → Inv (run s actions)
unfolding run
run-Inv s [] v = v
run-Inv s (a ∷ actions) v = run-Inv (realtime_reducer s a) actions (realtime_reducer-Inv s a v)

-- Whatever actions the page receives from its start, in any order, no utterance ever has two rows
-- and none stands twice among the completed ones.
pub run-initial-Inv : (actions : List RealtimeAction) → Inv (run initial_state actions)
run-initial-Inv actions =
    run-Inv initial_state actions (record { rows_distinct = tt; completed_distinct = tt })
