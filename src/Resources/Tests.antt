-- ===== src/Resources/Tests.antt =====
-- Operations and polls at concrete replies, and the theorems at them.
use agent_speak.Base.{ℕ, zero, suc, ◌<◌, ◌≡◌, refl, true, none, some, arith}
use agent_speak.Resources.Operation.{
  ResourceOperation, ResourcePhase, reset, to_json, parse_operation, operation, is_operation_id,
  parse_operation-to_json,
}
use agent_speak.Resources.Request.{Reply, response, unreachable, request_operation}
use agent_speak.Resources.Poll.{Service, returned, wait_for_resource_operation}
use agent_speak.Resources.Waiting.{is_transient, Settled, wait-Settled, wait-returns}

abbrev sample : ResourcePhase → ResourceOperation
sample p = record {
  id = "op_0123456789abcdef";
  action = reset;
  target = "asr";
  phase = p;
  created_at = "t0";
  updated_at = "t1";
  error_code = none;
  operator_hint = some "retry";
}

abbrev answer : ResourcePhase → Reply
answer p = response (record { ok = true; status = 200; body = some (to_json (sample p)) })

-- The gateway is away, then warms, then is ready.
abbrev replies : ℕ → Reply
replies zero = unreachable
replies (suc zero) = answer ResourcePhase.warming
replies _ = answer ResourcePhase.ready

abbrev service : Service
service = record { reply = replies; cost = λ n. 20 }

parse_operation-to_json_example :
    parse_operation (to_json (sample ResourcePhase.warming))
    ≡ operation (sample ResourcePhase.warming)
unfolding is_operation_id
parse_operation-to_json_example = parse_operation-to_json (sample ResourcePhase.warming)

replies_transient : (j : ℕ) → j < 2 → is_transient (request_operation (replies j)) ≡ true
unfolding request_operation
replies_transient zero h = refl
replies_transient (suc zero) h = refl
replies_transient (suc (suc j)) h = absurd (omega arith)

wait-returns_example :
    (wait_for_resource_operation service 500 420000 3 0).0 ≡ returned (sample ResourcePhase.ready)
wait-returns_example =
    wait-returns service 500 420000 3 0 2 20 (sample ResourcePhase.ready) replies_transient
      (unfold request_operation in refl) refl (λ j. omega arith) (omega arith) (omega arith)

wait-Settled_example : Settled (wait_for_resource_operation service 500 1000 1002 0).0
wait-Settled_example = wait-Settled service 500 1000 1002 0 (omega arith) (omega arith)
