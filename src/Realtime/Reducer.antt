-- ===== src/Realtime/Reducer.antt =====
-- frontend/realtime/src/state/reducer.ts: the reducer of the realtime page.
use agent_speak.Base.{
  ℕ, zero, suc, ◌+◌, ◌-◌, String, Bool, false, List, [], ◌∷◌, ◌++◌, Option, none, some, str_eq, leb,
  if◌then◌else◌, or_else, keep, includes,
}
use agent_speak.Realtime.Types.{
  EventType, EventData, RealtimeEvent, PipelineStage, RealtimeAction, stream_started,
  stream_stopped, speech_started, endpoint_candidate, endpoint_extended, endpoint_cancelled,
  asr_queued, asr_processing, asr_partial, asr_final, correction_processing, transcript_revised,
  utterance_completed, pipeline_warning, pipeline_error, other, server_event, session_reset,
  model_switched,
}

pub data RowStatus : Type 0 where
  partial revisable locked : RowStatus

pub record TranscriptRow : Type 0 where
  pub utterance_id : String
  pub text : String
  pub status : RowStatus

pub data StreamState : Type 0 where
  ready listening speech endpoint finalizing correcting stopped : StreamState

pub record RealtimeState : Type 0 where
  pub last_sequence : ℕ
  pub stage : PipelineStage
  pub stream : StreamState
  pub rows : List TranscriptRow
  pub completed_utterance_ids : List String
  pub asr_queue : ℕ
  pub endpoint_ms : ℕ
  pub warning : Option String

abbrev pub initial_state : RealtimeState
initial_state = record {
  last_sequence = 0;
  stage = PipelineStage.idle;
  stream = StreamState.ready;
  rows = [];
  completed_utterance_ids = [];
  asr_queue = 0;
  endpoint_ms = 0;
  warning = none;
}

-- The empty text is falsy, as a missing one is.
abbrev pub truthy : Option String → Option String
truthy none = none
truthy (some s) = if str_eq s "" then none else some s

-- `rows.findIndex(row => row.utteranceId === id)`; -1 is `none`.
unfoldable pub find_index : String → List TranscriptRow → Option ℕ
find_index k [] = none
find_index k (row ∷ rows) =
    if str_eq row.utterance_id k
    then some 0
    else elim (find_index k rows) [ none ↦ none | some i ↦ some (suc i) ]

abbrev pub set_row : String → RowStatus → TranscriptRow → TranscriptRow
set_row new_text new_status row = record row { text = new_text; status = new_status }

-- `rows.map((row, position) => position === index ? { ...row, text, status } : row)`
unfoldable pub update_at :
    ℕ → (TranscriptRow → TranscriptRow) → List TranscriptRow → List TranscriptRow
update_at i f [] = []
update_at zero f (row ∷ rows) = f row ∷ rows
update_at (suc i) f (row ∷ rows) = row ∷ update_at i f rows

unfoldable pub upsert_at :
    Option ℕ → List TranscriptRow → String → String → RowStatus → List TranscriptRow
unfolding update_at
upsert_at (some index) rows k text status = update_at index (set_row text status) rows
upsert_at none rows k text status =
    rows ++ record { utterance_id = k; text = text; status = status } ∷ []

unfoldable pub upsert_id :
    Option String → List TranscriptRow → EventData → RowStatus → List TranscriptRow
unfolding upsert_at find_index
upsert_id none rows payload status = rows
upsert_id (some k) rows payload status =
    upsert_at (find_index k rows) rows k (or_else payload.text "") status

unfoldable pub upsert : List TranscriptRow → RealtimeEvent → RowStatus → List TranscriptRow
unfolding upsert_id
upsert rows event status = upsert_id (truthy event.utterance_id) rows event.payload status

-- The row before the revised one gets the previous text and is locked.
unfoldable pub lock_previous : ℕ → Option String → List TranscriptRow → List TranscriptRow
unfolding update_at
lock_previous zero text rows = rows
lock_previous (suc index) text rows =
    update_at index (λ row. set_row (or_else text row.text) RowStatus.locked row) rows

-- The two writes of `transcript.revised`, at the index of the utterance.
unfoldable pub revise_at : ℕ → EventData → List TranscriptRow → List TranscriptRow
unfolding update_at lock_previous
revise_at index payload rows = lock_previous index payload.previous_text (
    update_at index (λ row. set_row (or_else payload.current_text row.text) RowStatus.revisable row)
      rows)

unfoldable pub revise_found : Option ℕ → EventData → RealtimeState → RealtimeState
unfolding revise_at
revise_found none payload next = next
revise_found (some index) payload next = record next {
  stage = PipelineStage.correction;
  rows = revise_at index payload next.rows;
}

unfoldable pub revise : Option String → EventData → RealtimeState → RealtimeState
unfolding revise_found find_index
revise none payload next = next
revise (some k) payload next = revise_found (find_index k next.rows) payload next

unfoldable pub complete : Option String → List String → List String
complete none ids = ids
complete (some k) ids = if includes ids k then ids else ids ++ k ∷ []

-- `event.data.mode === 'final'`
abbrev pub is_final : EventData → Bool
is_final payload = elim payload.mode [ none ↦ false | some m ↦ str_eq m "final" ]

-- The `switch` on the event's type; `next` has the event's sequence number already.
unfoldable pub handle : EventType → RealtimeEvent → RealtimeState → RealtimeState
unfolding upsert revise complete
handle stream_started event next = record next {
  stage = PipelineStage.listening;
  stream = StreamState.listening;
}
handle stream_stopped event next = record next {
  stage = PipelineStage.idle;
  stream = StreamState.stopped;
  asr_queue = 0;
}
handle speech_started event next = record next {
  stage = PipelineStage.voice;
  stream = StreamState.speech;
  endpoint_ms = 0;
}
handle endpoint_candidate event next = record next {
  stage = PipelineStage.endpoint;
  stream = StreamState.endpoint;
  endpoint_ms = or_else event.payload.silence_ms 900;
}
handle endpoint_extended event next = record next {
  stage = PipelineStage.endpoint;
  stream = StreamState.endpoint;
  endpoint_ms = 1800;
}
handle endpoint_cancelled event next = record next {
  stage = PipelineStage.voice;
  stream = StreamState.speech;
  endpoint_ms = 0;
}
handle asr_queued event next = record next {
  stage = if is_final event.payload then PipelineStage.correction else PipelineStage.asr;
  stream = if is_final event.payload then StreamState.finalizing else next.stream;
  asr_queue = next.asr_queue + 1;
}
handle asr_processing event next = record next {
  stage = if is_final event.payload then PipelineStage.correction else PipelineStage.asr;
  stream = if is_final event.payload then StreamState.finalizing else next.stream;
}
handle asr_partial event next = record next {
  stage = PipelineStage.asr;
  asr_queue = next.asr_queue - 1;
  rows = upsert next.rows event RowStatus.partial;
}
handle asr_final event next = record next {
  stage = PipelineStage.correction;
  stream = StreamState.correcting;
  asr_queue = next.asr_queue - 1;
  rows = upsert next.rows event RowStatus.revisable;
}
handle correction_processing event next = record next {
  stage = PipelineStage.correction;
  stream = StreamState.correcting;
}
handle transcript_revised event next = revise (truthy event.utterance_id) event.payload next
handle utterance_completed event next = record next {
  stage = PipelineStage.listening;
  stream = StreamState.listening;
  completed_utterance_ids = complete (truthy event.utterance_id) next.completed_utterance_ids;
}
handle pipeline_warning event next = record next {
  warning = some (or_else event.payload.code "Pipeline warning");
}
handle pipeline_error event next = record next { stage = PipelineStage.error }
handle (other _) event next = next

-- Only the rows of completed utterances outlive a switch of models.
abbrev pub completed_rows : List String → List TranscriptRow → List TranscriptRow
completed_rows ids rows = keep (λ row. includes ids row.utterance_id) rows

unfoldable pub realtime_reducer : RealtimeState → RealtimeAction → RealtimeState
unfolding handle
realtime_reducer state session_reset = initial_state
realtime_reducer state model_switched = record initial_state {
  rows = completed_rows state.completed_utterance_ids state.rows;
  completed_utterance_ids = state.completed_utterance_ids;
}
realtime_reducer state (server_event e) =
    if leb e.sequence state.last_sequence
    then state
    else handle e.event_type e (record state { last_sequence = e.sequence })

-- The reducer over a history, as `useReducer` applies it.
unfoldable pub run : RealtimeState → List RealtimeAction → RealtimeState
run state [] = state
run state (a ∷ actions) = run (realtime_reducer state a) actions
