-- ===== src/Realtime/Types.antt =====
-- frontend/realtime/src/types.ts: the events of the realtime protocol. A payload field that is
-- absent or null is `none`; the fields have the types that the gateway sends.
use agent_speak.Base.{ℕ, String, Option}

pub data EventType : Type 0 where
  stream_started stream_stopped speech_started : EventType
  endpoint_candidate endpoint_extended endpoint_cancelled : EventType
  asr_queued asr_processing asr_partial asr_final : EventType
  correction_processing transcript_revised utterance_completed : EventType
  pipeline_warning pipeline_error : EventType
  other : String → EventType

-- `data: Record<string, unknown>`, by the fields that are read.
pub record EventData : Type 0 where
  pub silence_ms : Option ℕ
  pub mode : Option String
  pub text : Option String
  pub current_text : Option String
  pub previous_text : Option String
  pub code : Option String

pub record RealtimeEvent : Type 0 where
  pub sequence : ℕ
  pub session_id : String
  pub utterance_id : Option String
  pub event_type : EventType
  pub at : String
  pub payload : EventData

pub data PipelineStage : Type 0 where
  idle listening voice asr endpoint correction error : PipelineStage

-- An action without a `sequence` is one of the two that the page itself sends.
pub data RealtimeAction : Type 0 where
  server_event : RealtimeEvent → RealtimeAction
  session_reset model_switched : RealtimeAction
