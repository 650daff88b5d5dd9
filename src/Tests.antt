-- ===== src/Tests.antt =====
-- The theorems at concrete inputs: two tenants, one run of a two-step workflow, a mutating tool that
-- counts its calls, and the stores that they leave.
mod Core
mod Service
mod Driving
mod Resuming
mod Outside
use bass_platform.Base.{
  ℕ, ◌+◌, String, ◌≡◌, ◌≢◌, true, false, none, some, List, [], ◌∷◌, concat, ◌==◌, eq_iff,
}
use bass_platform.Errors.{Kind, ok, raised}
use bass_platform.Value.{Value, Fields, pos, num}
use bass_platform.Models.{Run, RunStatus, Tool, Agent, Step, Workflow, Outcome, Arg}
use bass_platform.Redaction.{Patterns}
use bass_platform.Host.{Host, Float}
use bass_platform.Store.{empty_db}
use bass_platform.Api.{ApiService}
use bass_platform.Store.History.{Op}
use bass_platform.Store.Keys.{HasKeys}
use bass_platform.Connector.{Connector, ReliabilityConfig}
use bass_platform.Engine.{Config, Sys, final}

-- The outside counts the calls of the tool.
abbrev pub host : Host ℕ
host = record {
  clock = λ w i. w + i;
  tick = λ w. w;
  monotonic = λ w. (0, w);
  new_id = λ prefix w. (concat (prefix ∷ "_0" ∷ []), w);
  sleep = λ t w. w;
  fmt4 = λ n. "n";
  decimal = λ n. "n";
  seconds = λ n. "n";
  to_float = λ v. elim v [ num z ↦ ok (Float.finite z) | _ ↦ raised Kind.value_error "float" ];
  text_of = λ v. "v";
  digest = λ d. "d";
}

abbrev pub patterns : Patterns
patterns = record { is_secret = λ k. k == "token"; subs = (λ s. s) ∷ [] }

abbrev pub post_fn : Fields → ℕ → Outcome × ℕ
post_fn args w = (Outcome.returned (Value.str "posted"), w + 1)

abbrev pub post_tool : Tool ℕ
post_tool = record {
  name = "create_ap_entry";
  description = "";
  connector = "accounting";
  fn = post_fn;
  side_effect = true;
  cost_usd = 0;
  input_schema = Fields.end;
}

abbrev reliable : ReliabilityConfig
reliable = record {
  timeout_s = 10;
  max_retries = 3;
  backoff_base_s = 1;
  backoff_cap_s = 2;
  breaker_threshold = 5;
  breaker_reset_s = 30;
}

abbrev pub accounting : Connector
accounting = record {
  name = "accounting";
  config = reliable;
  breaker = record { threshold = 5; reset_s = 30; failures = 0; opened_at = none };
}

abbrev pub post_step : Step
post_step = record {
  id = "post";
  node_type = "tool";
  agent = none;
  tool = some "create_ap_entry";
  args = ("amount", Arg.constant (num (pos 7))) ∷ [];
  branches = [];
  approvers = [];
  max_attempts = 3;
  compensate_with = none;
  next = none;
}

abbrev pub workflow : Workflow
workflow = record {
  id = "wf";
  name = "invoice-triage";
  steps = ("post", post_step) ∷ [];
  start = "post";
  version = 1;
  budget_usd = 500000;
  max_steps = 25;
}

abbrev pub run_a : Run
run_a = record {
  id = "run_a";
  tenant_id = "acme";
  workflow_id = "wf";
  workflow_version = 1;
  trigger_event = Fields.end;
  idempotency_key = "k1";
  status = RunStatus.pending;
  cursor_step = none;
  context = Fields.end;
  cost_usd = 0;
  steps_used = 0;
  result = none;
}

-- A second trigger for the same event.
abbrev pub run_b : Run
run_b = record run_a { id = "run_b" }

abbrev pub config : Config ℕ
config = record {
  host = host;
  patterns = patterns;
  agents = [];
  tools = ("create_ap_entry", post_tool) ∷ [];
  policies = [];
  respond = λ agent task scratch w. (ok (final Value.null 0), scratch, w);
  approval_fn = none;
}

abbrev pub start : Sys ℕ
start = record {
  db = empty_db;
  run = run_a;
  buffer = [];
  metrics = [];
  connectors = ("accounting", accounting) ∷ [];
  world = 0;
}

-- A call for the other tenant, and one that fails.
abbrev pub between : List Op
between = Op.cancel "globex" "run_a" 5 ∷ Op.effect "globex" "k2" "run_g" none "t" Value.null 6 ∷ []

pub text_ne : (s t : String) → (s == t) ≡ false → s ≢ t
text_ne s t h e = cc (h, (eq_iff s t).1 e)

pub empty-HasKeys : HasKeys empty_db
empty-HasKeys = record { runs = tt; approvals = tt; effects = tt }

abbrev pub clerk : Agent
clerk = record {
  name = "clerk";
  role = "";
  instructions = "";
  model = "";
  tools = "create_ap_entry" ∷ [];
  max_steps = 8;
  max_tokens = 4096;
  output_schema = none;
}

abbrev pub api : ApiService ℕ
api = record {
  allow = λ tenant w. (true, w);
  workflows_by_id = ("wf", workflow) ∷ [];
  workflows_by_name = ("invoice-triage", workflow) ∷ [];
}

abbrev pub message : Fields
message = Fields.field "id" (Value.str "k1") Fields.end
