-- ===== src/Resources/Poll.antt =====
-- frontend/realtime/src/resources.ts: `waitForResourceOperation`. The service and the clock are an
-- environment: `reply n` answers the request of round n, and `cost n` is the time in milliseconds
-- that the round takes besides its pause.
use agent_speak.Base.{
  ℕ, zero, suc, ◌+◌, ◌*◌, min, max, Bool, true, false, List, [], ◌∷◌, none, ltb, if◌then◌else◌,
}
use agent_speak.Resources.Operation.{
  ResourceOperation, ResourceApiError, ResourcePhase, is_terminal,
}
use agent_speak.Resources.Request.{
  Reply, Cause, api, foreign, Requested, received, thrown, request_operation,
}

pub record Service : Type 0 where
  pub reply : ℕ → Reply
  pub cost : ℕ → ℕ

pub data Notice : Type 0 where
  phase_seen : ResourcePhase → Notice
  reconnect : Notice

pub data Outcome : Type 0 where
  returned : ResourceOperation → Outcome
  failed : Cause → Outcome
  out_of_fuel : Outcome

abbrev pub timeout_error : ResourceApiError
timeout_error = record {
  code = "resource_operation_timeout";
  status = 504;
  message = "Resource operation timed out";
  retryable = true;
  operator_hint = none;
}

-- What a round makes of the answer: end the wait, or pause and go on.
pub data Round : Type 0 where
  finish : Outcome → List Notice → Round
  again : ℕ → List Notice → Round

abbrev pub backoff : ℕ → ℕ → ℕ
backoff interval delay = min 2000 (max interval (delay * 2))

abbrev pub is_refusal : Cause → Bool
is_refusal (api e) = ltb e.status 500
is_refusal foreign = false

abbrev pub settle : ℕ → ℕ → Requested → Round
settle interval delay (received op) =
    if is_terminal op.phase
    then finish (returned op) (phase_seen op.phase ∷ [])
    else again interval (phase_seen op.phase ∷ [])
settle interval delay (thrown cause) =
    if is_refusal cause
    then finish (failed cause) []
    else again (backoff interval delay) (reconnect ∷ [])

-- The body of the loop.
unfoldable pub round : ℕ → ℕ → Reply → Round
unfolding request_operation
round interval delay r = settle interval delay (request_operation r)

-- The notices go before those of the later rounds.
abbrev pub notify : List Notice → Outcome × List Notice → Outcome × List Notice
notify [] (o, later) = (o, later)
notify (n ∷ ns) (o, later) = let (o', rest) = notify ns (o, later) in (o', n ∷ rest)

unfoldable pub wait_loop : Service → ℕ → ℕ → ℕ → ℕ → ℕ → ℕ → Outcome × List Notice
wait_loop env interval deadline zero n now delay = (out_of_fuel, [])
wait_loop env interval deadline (suc fuel) n now delay = elim (ltb now deadline) [
  | false ↦ (failed (api timeout_error), [])
  | true ↦ elim (round interval delay (env.reply n)) [
    | finish outcome notices ↦ (outcome, notices)
    | again delay' notices ↦
        notify notices
          (wait_loop env interval deadline fuel (suc n) (now + env.cost n + delay') delay')
  ]
]

-- With the time `start` at the call.
unfoldable pub wait_for_resource_operation : Service → ℕ → ℕ → ℕ → ℕ → Outcome × List Notice
unfolding wait_loop
wait_for_resource_operation env interval timeout fuel start =
    wait_loop env interval (start + timeout) fuel 0 start interval
