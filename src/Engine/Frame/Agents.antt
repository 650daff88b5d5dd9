-- ===== src/Engine/Frame/Agents.antt =====
-- The agent loop keeps the run's identity and leaves its step count alone.
use bass_platform.Base.{ℕ, zero, suc, String, List, [], ◌∷◌}
use bass_platform.Value.{Value, Fields}
use bass_platform.Models.{Tool, Agent, PolicyEffect}
use bass_platform.Engine.{Config, M, Call, Response, tool_calls, final}
use bass_platform.Engine.AgentLoop
use bass_platform.Engine.Frame.{bind-Keeps, pure-Keeps, Keeps, keeps_rules}
use bass_platform.Engine.Frame.Actions.{execute-Keeps}

module _ {W : Type 0} (c : Config W) (agent : Agent) where
  allowed_call-Keeps :
      (tool : Tool W) (name : String) (args : Fields) (id : String)
      → Keeps c.patterns (AgentLoop.allowed_call c agent tool name args id)
  unfolding AgentLoop.allowed_call
  allowed_call-Keeps tool name args id = search (keeps_rules, execute-Keeps c) depth 20

  refused_call-Keeps :
      (name id reason : String) → Keeps c.patterns (AgentLoop.refused_call c agent name id reason)
  unfolding AgentLoop.refused_call
  refused_call-Keeps name id reason = search keeps_rules depth 20

  decided_call-Keeps :
      (tool : Tool W) (name : String) (args : Fields) (id : String) (e : PolicyEffect)
      (reason : String)
      → Keeps c.patterns (AgentLoop.decided_call c agent tool name args id e reason)
  unfolding AgentLoop.decided_call
  decided_call-Keeps tool name args id PolicyEffect.allow reason =
      allowed_call-Keeps tool name args id
  decided_call-Keeps tool name args id PolicyEffect.deny reason = refused_call-Keeps name id reason
  decided_call-Keeps tool name args id PolicyEffect.require_approval reason =
      refused_call-Keeps name id _

  exec_call-Keeps : (call : Call) → Keeps c.patterns (AgentLoop.exec_call c agent call)
  unfolding AgentLoop.exec_call
  exec_call-Keeps call = search (keeps_rules, decided_call-Keeps) depth 20

  exec_calls-Keeps : (calls : List Call) → Keeps c.patterns (AgentLoop.exec_calls c agent calls)
  unfolding AgentLoop.exec_calls
  exec_calls-Keeps [] = search keeps_rules
  exec_calls-Keeps (call ∷ rest) =
      bind-Keeps (AgentLoop.exec_call c agent call) _ (exec_call-Keeps call) λ first.
        bind-Keeps (AgentLoop.exec_calls c agent rest) _ (exec_calls-Keeps rest)
          λ others. pure-Keeps (first ∷ others)

  ask_model-Keeps :
      (task scratch : Fields) → Keeps c.patterns (AgentLoop.ask_model c agent task scratch)
  unfolding AgentLoop.ask_model
  ask_model-Keeps task scratch = search keeps_rules depth 20

  on_response-Keeps :
      (r : Response) (again : Fields → M W Value) (scratch : Fields)
      → ((d : Fields) → Keeps c.patterns (again d))
      → Keeps c.patterns (AgentLoop.on_response c agent r again scratch)
  unfolding AgentLoop.on_response
  on_response-Keeps (tool_calls calls cost) again scratch h =
      search (keeps_rules, exec_calls-Keeps) depth 20
  on_response-Keeps (final output cost) again scratch h = search keeps_rules depth 20

  turns-Keeps :
      (left : ℕ) (task scratch : Fields)
      → Keeps c.patterns (AgentLoop.turns c agent left task scratch)
  unfolding AgentLoop.turns
  turns-Keeps zero task scratch = search keeps_rules
  turns-Keeps (suc left) task scratch =
      let ih = turns-Keeps left task in
      search (keeps_rules, ask_model-Keeps, on_response-Keeps, ih) depth 20

  pub agent_run-Keeps : (task : Fields) → Keeps c.patterns (AgentLoop.run c agent task)
  unfolding AgentLoop.run
  agent_run-Keeps task = turns-Keeps agent.max_steps task Fields.end
