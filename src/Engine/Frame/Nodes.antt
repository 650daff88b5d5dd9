-- ===== src/Engine/Frame/Nodes.antt =====
-- The node handlers keep the run's identity and leave its step count alone.
use bass_platform.Base.{String, Bool, Option, none, some, List, [], ◌∷◌, refl, inl, inr, Bool-cases}
use bass_platform.Errors.{Result, ok}
use bass_platform.Store.Ledger.{record_effect}
use bass_platform.Store.History.{Op}
use bass_platform.Value.{Value, Fields}
use bass_platform.Models.{Step, Tool, Agent, PolicyEffect}
use bass_platform.Exec.{gets, lift}
use bass_platform.Engine.{Config, emit}
use bass_platform.Engine.Steps
use bass_platform.Engine.Frame.{
  bind-Keeps, pure-Keeps, gets-Keeps, lift-Keeps, if-Keeps, emit-Keeps, Keeps, keeps_rules,
  same_frame, in_store_at,
}
use bass_platform.Engine.Frame.Actions.{execute-Keeps}
use bass_platform.Engine.Frame.Agents.{agent_run-Keeps}
use bass_platform.Engine.Frame.Approvals.{await-Keeps}

module _ {W : Type 0} (c : Config W) (step : Step) where
  known_agent-Keeps : (o : Option Agent) → Keeps c.patterns (Steps.known_agent c step o)
  known_agent-Keeps none = search keeps_rules
  known_agent-Keeps (some a) = search keeps_rules

  run_agent-Keeps : Keeps c.patterns (Steps.run_agent c step)
  unfolding Steps.run_agent
  run_agent-Keeps = search (keeps_rules, known_agent-Keeps, agent_run-Keeps c) depth 20

  keep_effect-Keeps :
      (tool : Tool W) (name key : String) (v : Value)
      → Keeps c.patterns (Steps.keep_effect c step tool name key v)
  unfolding Steps.keep_effect
  keep_effect-Keeps tool name key v = elim (Bool-cases tool.side_effect) [
    | inl mutating ↦ record {
      at = λ s. rw mutating (
          in_store_at c.host
            (λ clock db. (
              ok tt,
              record_effect s.run.tenant_id key s.run.id (some step.id) name v (clock 0) db,
            ))
            (Op.effect s.run.tenant_id key s.run.id (some step.id) name v (c.host.clock s.world 0))
            s refl refl);
    }
    | inr pure_tool ↦ record { at = λ s. rw pure_tool (same_frame s) }
  ]

  cached_effect-Keeps :
      (tool : Tool W) (key : String) → Keeps c.patterns (Steps.cached_effect c step tool key)
  unfolding Steps.cached_effect
  cached_effect-Keeps tool key = elim (Bool-cases tool.side_effect) [
    | inl mutating ↦ record { at = λ s. rw mutating (same_frame s) }
    | inr pure_tool ↦ record { at = λ s. rw pure_tool (same_frame s) }
  ]

  perform-Keeps :
      (tool : Tool W) (name key : String) (args : Fields)
      → Keeps c.patterns (Steps.perform c step tool name key args)
  unfolding Steps.perform
  perform-Keeps tool name key args =
      search (keeps_rules, execute-Keeps c, keep_effect-Keeps) depth 24

  if_granted-Keeps :
      (tool : Tool W) (name key : String) (args : Fields) (b : Bool)
      → Keeps c.patterns (Steps.if_granted c step tool name key args b)
  unfolding Steps.if_granted
  if_granted-Keeps tool name key args b = search (keeps_rules, perform-Keeps) depth 12

  decided-Keeps :
      (tool : Tool W) (name key : String) (args : Fields) (e : PolicyEffect) (reason : String)
      (approvers : List String)
      → Keeps c.patterns (Steps.decided c step tool name key args e reason approvers)
  unfolding Steps.decided
  decided-Keeps tool name key args PolicyEffect.deny reason approvers = search keeps_rules
  decided-Keeps tool name key args PolicyEffect.require_approval reason approvers =
      search (keeps_rules, await-Keeps c step, if_granted-Keeps) depth 12
  decided-Keeps tool name key args PolicyEffect.allow reason approvers =
      perform-Keeps tool name key args

  gate-Keeps :
      (tool : Tool W) (name key : String) (args : Fields)
      → Keeps c.patterns (Steps.gate c step tool name key args)
  unfolding Steps.gate
  gate-Keeps tool name key args = search (keeps_rules, decided-Keeps) depth 20

  replay-Keeps : (name : String) (v : Value) → Keeps c.patterns (Steps.replay c step name v)
  unfolding Steps.replay
  replay-Keeps name v = search keeps_rules depth 12

  replay_or_gate-Keeps :
      (tool : Tool W) (name key : String) (args : Fields) (o : Option Value)
      → Keeps c.patterns (Steps.replay_or_gate c step tool name key args o)
  replay_or_gate-Keeps tool name key args none = gate-Keeps tool name key args
  replay_or_gate-Keeps tool name key args (some v) = replay-Keeps name v

  run_named_tool-Keeps : (name : String) → Keeps c.patterns (Steps.run_named_tool c step name)
  unfolding Steps.run_named_tool
  run_named_tool-Keeps name =
      search (keeps_rules, cached_effect-Keeps, replay_or_gate-Keeps) depth 20

  run_tool_of-Keeps : (o : Option String) → Keeps c.patterns (Steps.run_tool_of c step o)
  unfolding Steps.run_tool_of
  run_tool_of-Keeps none = search keeps_rules
  run_tool_of-Keeps (some name) = run_named_tool-Keeps name

  branches-Keeps :
      (arms : List (Option (Fields → Result Bool) × String))
      → Keeps c.patterns (Steps.branches c step arms)
  unfolding Steps.branches
  branches-Keeps [] = search keeps_rules
  branches-Keeps ((predicate, goto) ∷ rest) =
      bind-Keeps (gets (λ s. s.run.context)) _ (gets-Keeps (λ s. s.run.context)) λ context.
        bind-Keeps (lift (Steps.arm_taken predicate context)) _
          (lift-Keeps (Steps.arm_taken predicate context))
          λ taken.
            if-Keeps taken _ _
              (bind-Keeps (emit "branch_taken" _ (some step.id) 0 "system") _
                (emit-Keeps "branch_taken" _ (some step.id) 0 "system")
                (λ _. pure-Keeps (some goto)))
              (branches-Keeps rest)

  run_approval-Keeps : Keeps c.patterns (Steps.run_approval c step)
  unfolding Steps.run_approval
  run_approval-Keeps = search (keeps_rules, await-Keeps c step) depth 12

  pub run_step-Keeps : Keeps c.patterns (Steps.run_step c step)
  unfolding Steps.run_step Steps.run_tool Steps.run_branch
  run_step-Keeps =
      search (keeps_rules, run_agent-Keeps, run_tool_of-Keeps, branches-Keeps, run_approval-Keeps)
        depth 12
