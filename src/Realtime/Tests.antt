-- ===== src/Realtime/Tests.antt =====
-- The reducer on a short conversation, and the theorems at it.
use agent_speak.Base.{ℕ, ◌≡◌, refl, String, List, [], ◌∷◌, none, some, get_elem?}
use agent_speak.Realtime.Types.{
  EventType, EventData, RealtimeEvent, asr_queued, asr_final, transcript_revised,
  utterance_completed, stream_started,
}
use agent_speak.Realtime.Reducer.{
  TranscriptRow, RowStatus, RealtimeState, initial_state, revise, find_index, realtime_reducer, run,
}
use agent_speak.Realtime.Rows.{get_elem?-revise}
use agent_speak.Realtime.Order.{events, handle_all, run-fresh}
use agent_speak.Realtime.Invariant.{Inv, run-initial-Inv}

abbrev no_data : EventData
no_data = record {
  silence_ms = none;
  mode = none;
  text = none;
  current_text = none;
  previous_text = none;
  code = none;
}

abbrev server : ℕ → EventType → String → EventData → RealtimeEvent
server n t k d = record {
  sequence = n;
  session_id = "s1";
  utterance_id = some k;
  event_type = t;
  at = "now";
  payload = d;
}

abbrev first_final : RealtimeEvent
first_final = server 2 asr_final "u1" (record no_data { text = some "hello" })

abbrev second_final : RealtimeEvent
second_final = server 3 asr_final "u2" (record no_data { text = some "wold" })

abbrev correction_data : EventData
correction_data = record no_data { current_text = some "world"; previous_text = some "Hello," }

abbrev conversation : List RealtimeEvent
conversation =
    server 1 stream_started "" no_data
    ∷ first_final
    ∷ second_final
    ∷ server 4 transcript_revised "u2" correction_data
    ∷ server 5 utterance_completed "u1" no_data
    ∷ []

abbrev row : String → String → RowStatus → TranscriptRow
row k text status = record { utterance_id = k; text = text; status = status }

conversation_rows :
    (run initial_state (events conversation)).rows
    ≡ row "u1" "Hello," RowStatus.locked ∷ row "u2" "world" RowStatus.revisable ∷ []
unfolding run realtime_reducer
conversation_rows = refl

conversation_queue :
    (run initial_state (events (server 1 asr_queued "u1" no_data ∷ first_final ∷ []))).asr_queue ≡ 0
unfolding run realtime_reducer
conversation_queue = refl

abbrev two_rows : List TranscriptRow
two_rows = row "u1" "hello" RowStatus.revisable ∷ row "u2" "wold" RowStatus.revisable ∷ []

abbrev talking : RealtimeState
talking = record initial_state { rows = two_rows; completed_utterance_ids = "u1" ∷ [] }

get_elem?-revise_example :
    get_elem? (revise (some "u2") correction_data talking).rows 0
    ≡ some (row "u1" "Hello," RowStatus.locked)
get_elem?-revise_example =
    get_elem?-revise "u2" correction_data talking 1 0 (unfold find_index in refl)

run-fresh_example :
    run initial_state (events (first_final ∷ server 1 stream_started "" no_data ∷ []))
    ≡ handle_all initial_state (first_final ∷ [])
run-fresh_example = run-fresh initial_state (first_final ∷ server 1 stream_started "" no_data ∷ [])

run-initial-Inv_example : Inv (run initial_state (events conversation))
run-initial-Inv_example = run-initial-Inv (events conversation)
