-- ===== src/Engine/Steps.antt =====
-- reference/bass/workflow.py: the node handlers and `_run_step`.
use bass_platform.Base.{
  String, Bool, true, Option, none, some, List, [], ◌∷◌, lookup, ◌==◌, if◌then◌else◌, concat,
}
use bass_platform.Errors.{Kind, Result, ok, err}
use bass_platform.Exec.{◌>>=◌, ◌>>◌, raise, pure, lift, gets, modify}
use bass_platform.Value.{Value, Fields, dict, put, is_empty}
use bass_platform.Models.{Agent, Tool, Arg, Step, PolicyEffect, effect_value}
use bass_platform.Store.Ledger.{get_effect, record_effect}
use bass_platform.Policy
use bass_platform.Engine.{Config, Sys, M, emit, in_store, count, add_cost, set_run}
use bass_platform.Engine.Tools.{get_tool, execute}
use bass_platform.Engine.AgentLoop
use bass_platform.Engine.Approval.{await_approval}

abbrev resolve_arg : Arg → Fields → Result Value
resolve_arg (Arg.constant v) context = ok v
resolve_arg (Arg.computed f) context = f context

-- `_resolve`
unfoldable pub resolve : List (String × Arg) → Fields → Result Fields
resolve [] context = ok Fields.end
resolve ((k, a) ∷ rest) context = elim (resolve_arg a context) [
  | err e ↦ err e
  | ok v ↦ elim (resolve rest context) [ err e ↦ err e | ok d ↦ ok (Fields.field k v d) ]
]

-- `f"{run.id}:{step.id}:{step.tool}"`
abbrev pub effect_key : String → String → String → String
effect_key run_id step_id tool = concat (run_id ∷ ":" ∷ step_id ∷ ":" ∷ tool ∷ [])

abbrev pub system_agent : String → Agent
system_agent tool = record {
  name = "system";
  role = "workflow";
  instructions = "";
  model = "claude-sonnet-5";
  tools = tool ∷ [];
  max_steps = 8;
  max_tokens = 4096;
  output_schema = none;
}

abbrev pub arm_taken : Option (Fields → Result Bool) → Fields → Result Bool
arm_taken none context = ok true
arm_taken (some predicate) context = predicate context

module _ {W : Type 0} where
  -- `run.context[step.id] = v`
  abbrev pub set_context : String → Value → Sys W → Sys W
  set_context id v = set_run (λ r. record r { context = put id v r.context })

module _ {W : Type 0} (c : Config W) (step : Step) where
  abbrev pub known_agent : Option Agent → M W Agent
  known_agent none =
      raise Kind.workflow_error
        (concat ("unknown agent '" ∷ elim step.agent [ none ↦ "None" | some a ↦ a ] ∷ "'" ∷ []))
  known_agent (some a) = pure a

  abbrev pub find_agent : Option String → Option Agent
  find_agent none = none
  find_agent (some name) = lookup name c.agents

  -- `_resolve(…) or {"email": run.trigger_event}`
  abbrev pub task_of : Fields → Fields → Fields
  task_of args trigger = if is_empty args then dict (("email", Value.obj trigger) ∷ []) else args

  -- `_run_agent`
  unfoldable pub run_agent : M W (Option String)
  unfolding resolve
  run_agent = do
    agent ← known_agent (find_agent step.agent)
    run ← gets (λ s. s.run)
    args ← lift (resolve step.args run.context)
    output ← AgentLoop.run c agent (task_of args run.trigger_event)
    modify (set_context step.id output)
    pure step.next

  -- `self.store.get_effect(…)`, for a tool with side effects.
  unfoldable pub cached_effect : Tool W → String → M W (Option Value)
  cached_effect tool key s =
      if tool.side_effect then (get_effect s.run.tenant_id key s.db, s) else (ok none, s)

  unfoldable pub replay : String → Value → M W (Option String)
  unfolding emit
  replay name cached = do
    emit "tool_result_replayed" (dict (("tool", Value.str name) ∷ ("result", cached) ∷ []))
        (some step.id) 0 "system"
    modify (set_context step.id cached)
    pure step.next

  unfoldable pub keep_effect : Tool W → String → String → Value → M W (Unit {0})
  unfolding in_store
  keep_effect tool name key result s =
      if tool.side_effect
      then in_store c.host
          (λ clock db. (
            ok tt,
            record_effect s.run.tenant_id key s.run.id (some step.id) name result (clock 0) db,
          ))
          s
      else (ok tt, s)

  -- The call itself, once the policy and the approval have let it through.
  unfoldable pub perform : Tool W → String → String → Fields → M W (Option String)
  unfolding keep_effect emit
  perform tool name key args = do
    result ←
        execute c name
          (if tool.side_effect then put "_idempotency_key" (Value.str key) args else args)
    keep_effect tool name key result
    modify (add_cost tool.cost_usd)
    emit "tool_result" (dict (("tool", Value.str name) ∷ ("result", result) ∷ [])) (some step.id)
        tool.cost_usd "system"
    modify (count "tool.calls" (some ("tool", name)))
    modify (set_context step.id result)
    pure step.next

  -- What follows an approval that was asked for.
  unfoldable pub if_granted : Tool W → String → String → Fields → Bool → M W (Option String)
  unfolding perform
  if_granted tool name key args granted =
      if granted
      then perform tool name key args
      else raise Kind.policy_denied (concat (name ∷ ": approval not granted" ∷ []))

  -- What follows the policy's decision: its effect, reason and approvers.
  unfoldable pub decided :
      Tool W → String → String → Fields → PolicyEffect → String → List String → M W (Option String)
  unfolding perform if_granted
  decided tool name key args PolicyEffect.deny reason approvers =
      raise Kind.policy_denied (concat (name ∷ ": " ∷ reason ∷ []))
  decided tool name key args PolicyEffect.require_approval reason approvers = do
    granted ← await_approval c step approvers name args
    if_granted tool name key args granted
  decided tool name key args PolicyEffect.allow reason approvers = perform tool name key args

  -- The policy gate, with its event and its counter.
  unfoldable pub gate : Tool W → String → String → Fields → M W (Option String)
  unfolding emit decided
  gate tool name key args = do
    context ← gets (λ s. s.run.context)
    let d = Policy.check c.host (system_agent name) tool args context c.policies
    emit "policy_decision"
        (dict (
          ("tool", Value.str name)
          ∷ ("effect", Value.str (effect_value d.effect))
          ∷ ("reason", Value.str d.reason)
          ∷ []))
        (some step.id) 0 "system"
    modify (count "policy.decisions" (some ("effect", effect_value d.effect)))
    decided tool name key args d.effect d.reason d.approvers

  abbrev pub replay_or_gate : Tool W → String → String → Fields → Option Value → M W (Option String)
  replay_or_gate tool name key args (some cached) = replay name cached
  replay_or_gate tool name key args none = gate tool name key args

  -- `_run_tool` from the tool's name on.
  unfoldable pub run_named_tool : String → M W (Option String)
  unfolding get_tool resolve cached_effect replay gate
  run_named_tool name = do
    tool ← lift (get_tool c name)
    run ← gets (λ s. s.run)
    args ← lift (resolve step.args run.context)
    cached ← cached_effect tool (effect_key run.id step.id name)
    replay_or_gate tool name (effect_key run.id step.id name) args cached

  unfoldable pub run_tool_of : Option String → M W (Option String)
  unfolding run_named_tool
  run_tool_of none = raise Kind.assertion_error "tool node requires a tool name"
  run_tool_of (some name) = run_named_tool name

  -- `_run_tool`
  unfoldable pub run_tool : M W (Option String)
  unfolding run_tool_of
  run_tool = run_tool_of step.tool

  -- The loop of `_run_branch` over the arms.
  unfoldable pub branches : List (Option (Fields → Result Bool) × String) → M W (Option String)
  unfolding emit
  branches [] = pure step.next
  branches ((predicate, goto) ∷ rest) = do
    context ← gets (λ s. s.run.context)
    taken ← lift (arm_taken predicate context)
    (if taken
        then (emit "branch_taken" (dict (("goto", Value.str goto) ∷ [])) (some step.id) 0 "system"
            >> pure (some goto))
        else branches rest)

  unfoldable pub run_branch : M W (Option String)
  unfolding branches
  run_branch = branches step.branches

  unfoldable pub run_approval : M W (Option String)
  run_approval = do
    granted ← await_approval c step step.approvers "" Fields.end
    (if granted
        then pure step.next
        else raise Kind.policy_denied (concat ("approval step '" ∷ step.id ∷ "' rejected" ∷ [])))

  -- `_run_step`
  unfoldable pub run_step : M W (Option String)
  unfolding run_agent run_tool run_branch run_approval
  run_step =
      if step.node_type == "agent"
      then run_agent
      else if step.node_type == "tool"
      then run_tool
      else if step.node_type == "branch"
      then run_branch
      else if step.node_type == "approval"
      then run_approval
      else if step.node_type == "terminate"
      then pure none
      else raise Kind.workflow_error (concat ("unknown node type: " ∷ step.node_type ∷ []))
