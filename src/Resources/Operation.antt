-- ===== src/Resources/Operation.antt =====
-- frontend/realtime/src/resources.ts: the operation and the check of its JSON form.
use agent_speak.Base.{
  ℕ, String, Bool, true, false, ◌&&◌, List, [], ◌∷◌, Option, none, some, str_eq, leb, if◌then◌else◌,
  all, length, codes, strip_prefix, is_hex, ◌≡◌, refl, arith,
}
use agent_speak.Base.Json.{Value, null, string, object, Fields, end, field, get, is_text}

pub data ResourceProfile : Type 0 where
  asr_only tts_only full_pipeline : ResourceProfile

pub data ResourcePhase : Type 0 where
  queued draining releasing starting warming ready failed rolled_back cancelled : ResourcePhase

abbrev pub phase_name : ResourcePhase → String
phase_name queued = "queued"
phase_name draining = "draining"
phase_name releasing = "releasing"
phase_name starting = "starting"
phase_name warming = "warming"
phase_name ready = "ready"
phase_name failed = "failed"
phase_name rolled_back = "rolled_back"
phase_name cancelled = "cancelled"

-- The members of the set `PHASES`.
abbrev pub phases : List ResourcePhase
phases =
    queued ∷ draining ∷ releasing ∷ starting ∷ warming ∷ ready ∷ failed ∷ rolled_back ∷ cancelled
    ∷ []

abbrev pub is_terminal : ResourcePhase → Bool
is_terminal ready = true
is_terminal failed = true
is_terminal rolled_back = true
is_terminal cancelled = true
is_terminal _ = false

pub data Action : Type 0 where
  reconcile reset : Action

abbrev pub action_name : Action → String
action_name reconcile = "reconcile"
action_name reset = "reset"

pub record ResourceOperation : Type 0 where
  pub id : String
  pub action : Action
  pub target : String
  pub phase : ResourcePhase
  pub created_at : String
  pub updated_at : String
  pub error_code : Option String
  pub operator_hint : Option String

pub record ResourceApiError : Type 0 where
  pub code : String
  pub status : ℕ
  pub message : String
  pub retryable : Bool
  pub operator_hint : Option String

abbrev pub invalid_response : ResourceApiError
invalid_response = record {
  code = "invalid_resource_response";
  status = 502;
  message = "The resource service returned an invalid response";
  retryable = true;
  operator_hint = none;
}

-- `/^op_[0-9a-f]{16,32}$/`
unfoldable pub is_operation_id : String → Bool
is_operation_id id = elim (strip_prefix (codes "op_") (codes id)) [
  | none ↦ false
  | some rest ↦ all is_hex rest && leb 16 (length rest) && leb (length rest) 32
]

-- The member of the set with the given name.
abbrev pub find_phase : List ResourcePhase → String → Option ResourcePhase
find_phase [] name = none
find_phase (p ∷ ps) name = if str_eq (phase_name p) name then some p else find_phase ps name

abbrev pub read_phase : Value → Option ResourcePhase
read_phase (string name) = find_phase phases name
read_phase _ = none

abbrev pub read_action : Value → Option Action
read_action v =
    if is_text v "reconcile" then some reconcile else if is_text v "reset" then some reset else none

abbrev pub read_string : Value → Option String
read_string (string s) = some s
read_string _ = none

-- `value !== null && typeof value !== 'string'` is the refusal `none`.
abbrev pub read_nullable : Value → Option (Option String)
read_nullable null = some none
read_nullable (string s) = some (some s)
read_nullable _ = none

infixl 5 ◌>>=◌
abbrev ◌>>=◌ {ℓ κ} : {A : Type ℓ} {B : Type κ} → Option A → (A → Option B) → Option B
none >>= k = none
some a >>= k = k a

abbrev checked_id : Value → Option String
checked_id (string s) = if is_operation_id s then some s else none
checked_id _ = none

-- The conjunction of the field tests, in the source's order; `none` is the refusal.
unfoldable pub parse_fields : Fields → Option ResourceOperation
unfolding is_operation_id
parse_fields item = do
  id ← checked_id (get "id" item)
  action ← read_action (get "action" item)
  target ← read_string (get "target" item)
  phase ← read_phase (get "phase" item)
  created ← read_string (get "created_at" item)
  updated ← read_string (get "updated_at" item)
  code ← read_nullable (get "error_code" item)
  hint ← read_nullable (get "operator_hint" item)
  some (record {
    id = id;
    action = action;
    target = target;
    phase = phase;
    created_at = created;
    updated_at = updated;
    error_code = code;
    operator_hint = hint;
  })

pub data Parsed : Type 0 where
  operation : ResourceOperation → Parsed
  refused : ResourceApiError → Parsed

abbrev or_refuse : Option ResourceOperation → Parsed
or_refuse none = refused invalid_response
or_refuse (some op) = operation op

-- `typeof value` is 'object' for arrays too, whose named fields are undefined.
unfoldable pub parse_operation : Value → Parsed
unfolding parse_fields
parse_operation (object item) = or_refuse (parse_fields item)
parse_operation _ = refused invalid_response

abbrev nullable : Option String → Value
nullable none = null
nullable (some s) = string s

-- The JSON form of an operation.
abbrev pub to_json : ResourceOperation → Value
to_json op = object (
    field "id" (string op.id) (
      field "action" (string (action_name op.action)) (
        field "target" (string op.target) (
          field "phase" (string (phase_name op.phase)) (
            field "created_at" (string op.created_at) (
              field "updated_at" (string op.updated_at) (
                field "error_code" (nullable op.error_code)
                  (field "operator_hint" (nullable op.operator_hint) end))))))))

read_phase-phase_name : (p : ResourcePhase) → read_phase (string (phase_name p)) ≡ some p
read_phase-phase_name queued = refl
read_phase-phase_name draining = refl
read_phase-phase_name releasing = refl
read_phase-phase_name starting = refl
read_phase-phase_name warming = refl
read_phase-phase_name ready = refl
read_phase-phase_name failed = refl
read_phase-phase_name rolled_back = refl
read_phase-phase_name cancelled = refl

read_action-action_name : (a : Action) → read_action (string (action_name a)) ≡ some a
read_action-action_name reconcile = refl
read_action-action_name reset = refl

read_nullable-nullable : (o : Option String) → read_nullable (nullable o) ≡ some o
read_nullable-nullable none = refl
read_nullable-nullable (some s) = refl

-- The JSON form of an operation is read back as that operation if its id is `op_` and 16 to 32
-- hexadecimal digits, and refused otherwise.
pub parse_operation-to_json :
    (op : ResourceOperation)
    → parse_operation (to_json op)
      ≡ (if is_operation_id op.id then operation op else refused invalid_response)
unfolding parse_operation
parse_operation-to_json op = ground (
  arith,
  read_phase-phase_name op.phase,
  read_action-action_name op.action,
  read_nullable-nullable op.error_code,
  read_nullable-nullable op.operator_hint,
)
