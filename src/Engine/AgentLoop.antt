-- ===== src/Engine/AgentLoop.antt =====
-- reference/bass/agent.py: the agent control loop. A model's answer is one of the two forms of its
-- interface. The engine's `emit` is the runtime's.
use bass_platform.Base.{ℕ, zero, suc, String, Option, none, some, List, [], ◌∷◌}
use bass_platform.Errors.{Kind, Result}
use bass_platform.Exec.{◌>>=◌, ◌>>◌, raise, pure, lift, gets, modify}
use bass_platform.Value.{Value, Items, Fields, dict, put}
use bass_platform.Models.{Agent, Tool, PolicyEffect, effect_value}
use bass_platform.Policy
use bass_platform.Engine.{
  Config, M, Call, Response, tool_calls, final, emit, outside, count, add_cost,
}
use bass_platform.Engine.Tools.{get_tool, execute}

abbrev or_text : Option String → String → String
or_text none d = d
or_text (some t) d = t

abbrev or_fields : Option Fields → Fields
or_fields none = Fields.end
or_fields (some d) = d

abbrev list_of : List Fields → Items
list_of [] = Items.nil
list_of (d ∷ rest) = Items.item (Value.obj d) (list_of rest)

module _ {W : Type 0} (c : Config W) (agent : Agent) where
  -- A call that the policy allows.
  unfoldable pub allowed_call : Tool W → String → Fields → String → M W Fields
  unfolding emit execute
  allowed_call tool name args call_id = do
    result ← execute c name args
    modify (add_cost tool.cost_usd)
    modify (count "tool.calls" (some ("tool", name)))
    emit "tool_result" (dict (("tool", Value.str name) ∷ ("result", result) ∷ [])) none
        tool.cost_usd agent.name
    pure (dict (("id", Value.str call_id) ∷ ("tool", Value.str name) ∷ ("result", result) ∷ []))

  -- A call that is denied, or that would need an approval: the model is told why.
  unfoldable pub refused_call : String → String → String → M W Fields
  unfolding emit
  refused_call name call_id reason = do
    emit "tool_denied" (dict (("tool", Value.str name) ∷ ("reason", Value.str reason) ∷ [])) none 0
        agent.name
    pure (
        dict
          (("id", Value.str call_id) ∷ ("tool", Value.str name) ∷ ("error", Value.str reason) ∷ []))

  -- What follows the policy's decision on a call.
  unfoldable pub decided_call :
      Tool W → String → Fields → String → PolicyEffect → String → M W Fields
  unfolding allowed_call refused_call
  decided_call tool name args call_id PolicyEffect.allow reason =
      allowed_call tool name args call_id
  decided_call tool name args call_id PolicyEffect.deny reason = refused_call name call_id reason
  decided_call tool name args call_id PolicyEffect.require_approval reason =
      refused_call name call_id "requires approval — escalate via a workflow approval step"

  -- `_exec_call`
  unfoldable pub exec_call : Call → M W Fields
  unfolding emit decided_call get_tool
  exec_call call = do
    let name = call.tool
    let args = or_fields call.args
    tool ← lift (get_tool c name)
    context ← gets (λ s. s.run.context)
    let d = Policy.check c.host agent tool args context c.policies
    emit "policy_decision"
        (dict (
          ("tool", Value.str name)
          ∷ ("effect", Value.str (effect_value d.effect))
          ∷ ("reason", Value.str d.reason)
          ∷ []))
        none 0 agent.name
    modify (count "policy.decisions" (some ("effect", effect_value d.effect)))
    decided_call tool name args (or_text call.id name) d.effect d.reason

  -- The list comprehension over the calls of one answer.
  unfoldable pub exec_calls : List Call → M W (List Fields)
  unfolding exec_call
  exec_calls [] = pure []
  exec_calls (call ∷ rest) = do
    first ← exec_call call
    others ← exec_calls rest
    pure (first ∷ others)

  abbrev response_cost : Response → ℕ
  response_cost (tool_calls _ cost) = cost
  response_cost (final _ cost) = cost

  abbrev response_kind : Response → String
  response_kind (tool_calls _ _) = "tool_calls"
  response_kind (final _ _) = "final"

  abbrev call_model : Fields → Fields → W → (Result Response × Fields) × W
  call_model task scratch w =
      let (r, scratch', w') = c.respond agent task scratch w in ((r, scratch'), w')

  -- One call of the model, booked and traced; the scratch comes back beside the answer.
  unfoldable pub ask_model : Fields → Fields → M W (Response × Fields)
  unfolding emit outside
  ask_model task scratch = do
    answer ← outside (call_model task scratch)
    response ← lift answer.0
    modify (add_cost (response_cost response))
    modify (count "agent.model_calls" (some ("agent", agent.name)))
    emit "agent_message"
        (dict (("agent", Value.str agent.name) ∷ ("kind", Value.str (response_kind response)) ∷ []))
        none (response_cost response) agent.name
    pure (response, answer.1)

  -- What follows an answer: the calls and another turn, or the final output.
  unfoldable pub on_response : Response → (Fields → M W Value) → Fields → M W Value
  unfolding exec_calls emit
  on_response (tool_calls calls _) again scratch = do
    results ← exec_calls calls
    again (put "tool_results" (Value.arr (list_of results)) scratch)
  on_response (final output _) again scratch = do
    emit "agent_final" (dict (("agent", Value.str agent.name) ∷ ("output", output) ∷ [])) none 0
        agent.name
    pure output

  -- `for _ in range(agent.max_steps)`
  unfoldable pub turns : ℕ → Fields → Fields → M W Value
  unfolding ask_model on_response
  turns zero task scratch = raise Kind.max_steps_exceeded agent.name
  turns (suc left) task scratch = do
    answer ← ask_model task scratch
    on_response answer.0 (turns left task) answer.1

  -- `AgentRuntime.run`
  unfoldable pub run : Fields → M W Value
  unfolding turns
  run task = turns agent.max_steps task Fields.end
