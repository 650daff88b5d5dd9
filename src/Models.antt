-- ===== src/Models.antt =====
-- reference/bass/models.py: the domain types. `W` is the state of everything outside the platform
-- (the systems behind the tools, the model, the people who approve), which callables may change.
-- Money is in millionths of a dollar. A callable that reads the context may raise.
use bass_platform.Base.{ℕ, String, Bool, true, false, Option, List, Dict}
use bass_platform.Errors.{Result, Raised}
use bass_platform.Value.{Value, Fields}

pub data RunStatus : Type 0 where
  pending running waiting_approval succeeded failed canceled : RunStatus

abbrev pub status_value : RunStatus → String
status_value RunStatus.pending = "pending"
status_value RunStatus.running = "running"
status_value RunStatus.waiting_approval = "waiting_approval"
status_value RunStatus.succeeded = "succeeded"
status_value RunStatus.failed = "failed"
status_value RunStatus.canceled = "canceled"

-- `status in (SUCCEEDED, FAILED, CANCELED)`
abbrev pub is_terminal : RunStatus → Bool
is_terminal RunStatus.succeeded = true
is_terminal RunStatus.failed = true
is_terminal RunStatus.canceled = true
is_terminal _ = false

pub data PolicyEffect : Type 0 where
  allow deny require_approval : PolicyEffect

abbrev pub effect_value : PolicyEffect → String
effect_value PolicyEffect.allow = "allow"
effect_value PolicyEffect.deny = "deny"
effect_value PolicyEffect.require_approval = "require_approval"

pub data ApprovalStatus : Type 0 where
  pending approved rejected expired : ApprovalStatus

-- How a tool's operation ends, as the connector's thread pool reports it.
pub data Outcome : Type 0 where
  returned : Value → Outcome
  timed_out : Outcome
  raised_error : Raised → Outcome

pub record Tool (W : Type 0) : Type 0 where
  pub name : String
  pub description : String
  pub connector : String
  pub fn : Fields → W → Outcome × W
  pub side_effect : Bool
  pub cost_usd : ℕ
  pub input_schema : Fields

pub record Agent : Type 0 where
  pub name : String
  pub role : String
  pub instructions : String
  pub model : String
  pub tools : List String
  pub max_steps : ℕ
  pub max_tokens : ℕ
  pub output_schema : Option Fields

-- The value of an entry of `Step.args`: a constant, or a callable on the context.
pub data Arg : Type 0 where
  constant : Value → Arg
  computed : (Fields → Result Value) → Arg

pub record Step : Type 0 where
  pub id : String
  pub node_type : String
  pub agent : Option String
  pub tool : Option String
  pub args : List (String × Arg)
  pub branches : List (Option (Fields → Result Bool) × String)
  pub approvers : List String
  pub max_attempts : ℕ
  pub compensate_with : Option String
  pub next : Option String

pub record Workflow : Type 0 where
  pub id : String
  pub name : String
  pub steps : Dict Step
  pub start : String
  pub version : ℕ
  pub budget_usd : ℕ
  pub max_steps : ℕ

-- The sequence number is the store's (`EventRow`).
pub record Event : Type 0 where
  pub run_id : String
  pub tenant_id : String
  pub type : String
  pub payload : Fields
  pub step_id : Option String
  pub actor : String
  pub cost_usd : ℕ

pub record Run : Type 0 where
  pub id : String
  pub tenant_id : String
  pub workflow_id : String
  pub workflow_version : ℕ
  pub trigger_event : Fields
  pub idempotency_key : String
  pub status : RunStatus
  pub cursor_step : Option String
  pub context : Fields
  pub cost_usd : ℕ
  pub steps_used : ℕ
  pub result : Option Value
