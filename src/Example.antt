-- ===== src/Example.antt =====
-- reference/bass/example_run.py: the workflow, the agent and the approver of the invoice example, and
-- what `main` puts together, here and in reference/bass/example_run_live.py.
use bass_platform.Base.{false, String, Bool, true, none, some, [], ◌∷◌, Dict}
use bass_platform.Errors.{Kind, Result, ok, err, raised}
use bass_platform.Value.{Value, Fields, above, get}
use bass_platform.Host.{Host}
use bass_platform.Redaction.{Patterns}
use bass_platform.Policy.{default_policies, sort_policies}
use bass_platform.Connector.{Connector, ReliabilityConfig}
use bass_platform.Store.{empty_db}
use bass_platform.Store.Runs.{ensure_tenant}
use bass_platform.Accounting.{Books, type_of, schema, new_books, default_registry, mock_respond}
use bass_platform.Orchestrator.{fire, triggered_run}
use bass_platform.Models.{Tool, Agent, Arg, Step, Workflow}
use bass_platform.Engine.{Config, Sys, ApprovalFn, Respond}
use bass_platform.Provider.{respond}
use bass_platform.Provider.Parts.{Client}

abbrev pub invoice_schema : Fields
invoice_schema =
    schema
      (("vendor", type_of "string")
        ∷ ("invoice_number", type_of "string")
        ∷ ("amount", type_of "number")
        ∷ ("currency", type_of "string")
        ∷ [])
      ("vendor" ∷ "invoice_number" ∷ "amount" ∷ "currency" ∷ [])

-- `d[k]`
abbrev index : String → Fields → Result Value
index k d = elim (get k d) [ none ↦ raised Kind.key_error k | some v ↦ ok v ]

-- `v[k]`; the text of the error for what is no dict is left out.
abbrev index_value : String → Value → Result Value
index_value k (Value.obj d) = index k d
index_value k _ = raised Kind.other "TypeError"

abbrev then_index : String → Result Value → Result Value
then_index k (ok v) = index_value k v
then_index k (err e) = err e

-- `lambda ctx: ctx["extract"][k]`
abbrev pub extracted_field : String → Fields → Result Value
extracted_field k context = then_index k (index "extract" context)

-- `v > 5000`; a Boolean is the number 0 or 1, and a text or a list is not compared with a number.
abbrev exceeds : Result Value → Result Bool
exceeds (ok (Value.num z)) = ok (above 5_000_000_000 z)
exceeds (ok (Value.bool b)) = ok false
exceeds (ok _) = raised Kind.other "TypeError"
exceeds (err e) = err e

abbrev plain_step : String → String → Step
plain_step id node_type = record {
  id = id;
  node_type = node_type;
  agent = none;
  tool = none;
  args = [];
  branches = [];
  approvers = [];
  max_attempts = 3;
  compensate_with = none;
  next = none;
}

abbrev extract : Step
extract = record (plain_step "extract" "agent") {
  agent = some "invoice_extractor";
  next = some "validate";
}

abbrev validate : Step
validate = record (plain_step "validate" "tool") {
  tool = some "lookup_vendor";
  args = ("vendor", Arg.computed (extracted_field "vendor")) ∷ [];
  next = some "decide";
}

abbrev decide : Step
decide = record (plain_step "decide" "branch") {
  branches =
      (some (λ context. exceeds (extracted_field "amount" context)), "post") ∷ (none, "post") ∷ [];
}

abbrev post : Step
post = record (plain_step "post" "tool") {
  tool = some "create_ap_entry";
  args =
      ("vendor", Arg.computed (extracted_field "vendor"))
      ∷ ("invoice_number", Arg.computed (extracted_field "invoice_number"))
      ∷ ("amount", Arg.computed (extracted_field "amount"))
      ∷ [];
}

-- `build_workflow`
abbrev pub build_workflow : Workflow
build_workflow = record {
  id = "wf_invoice_triage";
  name = "invoice-triage";
  steps = ("extract", extract) ∷ ("validate", validate) ∷ ("decide", decide) ∷ ("post", post) ∷ [];
  start = "extract";
  version = 1;
  budget_usd = 500_000;
  max_steps = 25;
}

-- `build_agents`
abbrev pub build_agents : Dict Agent
build_agents =
    (
      "invoice_extractor",
      record {
        name = "invoice_extractor";
        role = "Extract structured data from vendor invoices.";
        instructions = "Return vendor, invoice_number, amount, currency. Never guess.";
        model = "claude-sonnet-5";
        tools = "lookup_vendor" ∷ [];
        max_steps = 8;
        max_tokens = 4096;
        output_schema = some invoice_schema;
      },
    )
    ∷ []

abbrev pub demo_approver : {W : Type 0} → ApprovalFn W
demo_approver run step tool_name args w = (ok true, w)

-- What is built before the trigger is fired: a new store with the tenant, and a new engine.
module _ {W : Type 0} (h : Host W) (p : Patterns) (books : Books W) where
  abbrev pub example_config : Respond W → Dict (Tool W) → Config W
  example_config respond tools = record {
    host = h;
    patterns = p;
    agents = build_agents;
    tools = tools;
    policies = sort_policies (default_policies h);
    respond = respond;
    approval_fn = some demo_approver;
  }

  abbrev pub example_start : String → Dict Connector → W → Sys W
  example_start tenant connectors w = record {
    db = ensure_tenant tenant "Acme Inc" Fields.end (h.clock w 0) empty_db;
    run = triggered_run tenant build_workflow Fields.end "" "";
    buffer = [];
    metrics = [];
    connectors = connectors;
    world = h.tick w;
  }

  -- `Orchestrator(…)` and `fire`, with the model that is built over the registry.
  abbrev fire_example :
      (Dict (Tool W) → Respond W)
      → Fields
      → String
      → W
      → Dict Connector × Dict (Tool W)
      → Result (Unit {0}) × Sys W
  fire_example model trigger tenant w (connectors, tools) =
      fire (example_config (model tools) tools) (record { tenant_id = tenant; workflows = [] })
        build_workflow trigger (example_start tenant connectors w)

  abbrev run_with :
      (Dict (Tool W) → Respond W)
      → ReliabilityConfig
      → Fields
      → W
      → Result (Result (Unit {0}) × Sys W)
  run_with model config trigger w = elim (default_registry books config) [
    | err e ↦ err e
    | ok registry ↦
        let (tenant, w') = h.new_id "tenant" w in
        ok (fire_example model trigger tenant (new_books books w') registry)
  ]

  -- `main` of the example on a trigger, up to the run that it prints; `config` is the default
  -- reliability.
  unfoldable pub run_example : ReliabilityConfig → Fields → W → Result (Result (Unit {0}) × Sys W)
  unfolding fire ensure_tenant default_registry default_policies sort_policies mock_respond
  run_example = run_with (λ tools. mock_respond)

  -- `main` of the live example, once its client is there; the model's tokens are the default.
  unfoldable pub run_live :
      Client W → ReliabilityConfig → Fields → W → Result (Result (Unit {0}) × Sys W)
  unfolding fire ensure_tenant default_registry default_policies sort_policies respond
  run_live client = run_with (λ tools. respond client (example_config mock_respond tools) 4096)
