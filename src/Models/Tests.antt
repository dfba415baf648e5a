-- ===== src/Models/Tests.antt =====
-- Presentations and languages at concrete values.
use agent_speak.Base.{true, none, some}
use agent_speak.Models.Presentation.{ActiveModels, qwen3_asr, disabled}
use agent_speak.Models.Speech.{Storage}

abbrev active : ActiveModels
active = record {
  asr_model = some qwen3_asr;
  correction_model = disabled;
  requested_asr_model = none;
  state = "ready";
  leased_by = none;
  device = "cuda";
  error_code = none;
}

abbrev storage : Storage
storage = record { usable = true; items = λ k. none }
