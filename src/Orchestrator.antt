-- ===== src/Orchestrator.antt =====
-- reference/bass/orchestrator.py: from a trigger to a run. An orchestrator keeps one engine, so the
-- engine's state, its event buffer included, lives from call to call.
use bass_platform.Base.{
  String, Bool, Option, none, some, List, [], ◌∷◌, Dict, insert, if◌then◌else◌, concat,
}
use bass_platform.Errors.{Kind}
use bass_platform.Exec.{◌>>=◌, ◌>>◌, pure, raise, modify}
use bass_platform.Value.{Value, truthy, Fields, dict, get}
use bass_platform.Models.{Run, RunStatus, Workflow, is_terminal}
use bass_platform.Host.{Host}
use bass_platform.Store.{EventRow}
use bass_platform.Store.Runs.{create_or_get_run, load_run}
use bass_platform.Store.Trace.{list_events}
use bass_platform.Engine.{Config, M, emit, in_store, outside, count, set_run}
use bass_platform.Engine.Drive.{resume}

-- `str(v)` of a text is the text.
abbrev pub str_of : {W : Type 0} → Host W → Value → String
str_of h (Value.str s) = s
str_of h v = h.text_of v

abbrev pub key_fields : List String
key_fields = "idempotency_key" ∷ "message_id" ∷ "delivery_id" ∷ "id" ∷ []

-- A field that is there and true: `trigger_event.get(k)` under `if`.
abbrev pub given : String → Fields → Option Value
given k event = elim (get k event) [ none ↦ none | some v ↦ if truthy v then some v else none ]

module _ {W : Type 0} (h : Host W) where
  abbrev pub first_given : List String → Fields → String
  first_given [] event = concat ("sha256:" ∷ h.digest event ∷ [])
  first_given (k ∷ rest) event = elim (given k event) [
    | some v ↦ str_of h v
    | none ↦ first_given rest event
  ]

  unfoldable pub derive_idempotency_key : Fields → String
  derive_idempotency_key event = first_given key_fields event

-- The run that a trigger asks for, with its fresh id.
abbrev pub triggered_run : String → Workflow → Fields → String → String → Run
triggered_run tenant wf event key id = record {
  id = id;
  tenant_id = tenant;
  workflow_id = wf.id;
  workflow_version = wf.version;
  trigger_event = event;
  idempotency_key = key;
  status = RunStatus.pending;
  cursor_step = some wf.start;
  context = Fields.end;
  cost_usd = 0;
  steps_used = 0;
  result = none;
}

-- What an `Orchestrator` keeps beside its engine: its tenant, and the registered workflows.
pub record Orchestrator : Type 0 where
  pub tenant_id : String
  pub workflows : Dict Workflow

unfoldable pub register_workflow : Workflow → Orchestrator → Orchestrator
register_workflow wf o = record o { workflows = insert wf.id wf o.workflows }

module _ {W : Type 0} (c : Config W) (o : Orchestrator) where
  -- `create_or_get_run`, after which the engine's run is the one returned.
  unfoldable pub open_run : Workflow → Fields → M W Bool
  unfolding in_store outside
  open_run wf event = do
    id ← outside (c.host.new_id "run")
    made ← in_store c.host (λ clock.
        create_or_get_run
          (triggered_run o.tenant_id wf event (derive_idempotency_key c.host event) id) (clock 0))
    modify (set_run (λ _. made.0))
    pure made.1

  -- `fire`, after `register_workflow`; the run that it returns is the state's.
  unfoldable pub fire : Workflow → Fields → M W (Unit {0})
  unfolding open_run emit resume
  fire wf event = do
    created ← open_run wf event
    (if created
        then (emit "trigger_fired"
              (dict (("workflow", Value.str wf.name) ∷ ("event", Value.obj event) ∷ [])) none 0
              "system"
            >> modify (count "triggers.accepted" none)
            >> resume c wf)
        else modify (count "triggers.deduplicated" none))

  abbrev found_run : String → Option Run → M W Run
  found_run id none = raise Kind.key_error id
  found_run id (some run) = pure run

  -- `resume_run`
  unfoldable pub resume_run : String → Workflow → M W (Unit {0})
  unfolding resume
  resume_run id wf = do
    loaded ← λ s. (load_run o.tenant_id id s.db, s)
    run ← found_run id loaded
    modify (set_run (λ _. run))
    (if is_terminal run.status then pure tt else resume c wf)

  unfoldable pub trace : String → M W (List EventRow)
  trace id s = (list_events o.tenant_id id s.db, s)
