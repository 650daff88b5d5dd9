-- ===== src/Engine/Proceed.antt =====
-- A run that waits for an approval (reference/bass/workflow.py, `_await_approval`) goes on once the
-- request has been resolved (reference/bass/store.py, `resolve_approval`).
use bass_platform.Base.{ℕ, String, ◌≡◌, refl, true, Option, none, some, List}
use bass_platform.Errors.{ok}
use bass_platform.Exec.{◌>>=◌}
use bass_platform.Value.{Fields}
use bass_platform.Models.{Step, Tool, PolicyEffect, ApprovalStatus}
use bass_platform.Policy
use bass_platform.Store.{Db}
use bass_platform.Store.Approvals.{latest_approval, resolve_approval}
use bass_platform.Store.Resolution.{latest_approval-resolve_approval}
use bass_platform.Engine.{Config, Sys, emit, ApprovalFn}
use bass_platform.Engine.Approval.{announce_decision, by_request, await_by, await_approval}
use bass_platform.Engine.Steps.{decided, gate, if_granted, perform, system_agent}

-- Two states that differ in the buffered events and the counters alone.
pub record SameButEvents {W : Type 0} (s t : Sys W) : Type 0 where
  pub db : t.db ≡ s.db
  pub run : t.run ≡ s.run
  pub connectors : t.connectors ≡ s.connectors
  pub world : t.world ≡ s.world

module _ {W : Type 0} (c : Config W) (step : Step) where
  approved_performs :
      (f : Option (ApprovalFn W)) (tool : Tool W) (name key id : String) (args : Fields)
      (approvers : List String) (s : Sys W)
      → f ≡ none
      → latest_approval s.run.tenant_id s.run.id step.id s.db ≡ some (id, ApprovalStatus.approved)
      → (t : Sys W) × SameButEvents s t
        × ((await_by c step f approvers name args >>= if_granted c step tool name key args) s
            ≡ perform c step tool name key args t)
  unfolding await_by by_request announce_decision emit if_granted
  approved_performs none tool name key id args approvers s e h = (
    (announce_decision c step id true s).1,
    record { db = refl; run = refl; connectors = refl; world = refl },
    rw h refl,
  )
  approved_performs (some f) tool name key id args approvers s e h = absurd (cc e)

  decided_performs :
      (effect : PolicyEffect) (tool : Tool W) (name key id reason : String) (args : Fields)
      (approvers : List String) (s : Sys W)
      → effect ≡ PolicyEffect.require_approval
      → c.approval_fn ≡ none
      → latest_approval s.run.tenant_id s.run.id step.id s.db ≡ some (id, ApprovalStatus.approved)
      → (t : Sys W) × SameButEvents s t
        × (decided c step tool name key args effect reason approvers s
            ≡ perform c step tool name key args t)
  unfolding decided await_approval
  decided_performs PolicyEffect.require_approval tool name key id reason args approvers s h e
        granted =
      approved_performs c.approval_fn tool name key id args approvers s e granted
  decided_performs PolicyEffect.allow tool name key id reason args approvers s h e granted =
      absurd (cc h)
  decided_performs PolicyEffect.deny tool name key id reason args approvers s h e granted =
      absurd (cc h)

  -- For a call that the policies leave to an approver, in an engine without an `approval_fn`, and a
  -- step whose latest request `id` waits in the database: once `resolve_approval` has granted the
  -- request, the gate performs the call, at a state that differs from the one it started in by
  -- buffered events and counters alone.
  pub granted_proceeds :
      (tool : Tool W) (name key id by note : String) (args : Fields) (now : ℕ) (waiting : Db)
      (s : Sys W)
      → (Policy.check c.host (system_agent name) tool args s.run.context c.policies).effect
        ≡ PolicyEffect.require_approval
      → c.approval_fn ≡ none
      → latest_approval s.run.tenant_id s.run.id step.id waiting ≡ some (id, ApprovalStatus.pending)
      → (resolve_approval s.run.tenant_id id true by note now waiting).0 ≡ ok tt
      → s.db ≡ (resolve_approval s.run.tenant_id id true by note now waiting).1
      → (t : Sys W) × SameButEvents s t
        × (gate c step tool name key args s ≡ perform c step tool name key args t)
  unfolding gate emit
  granted_proceeds tool name key id by note args now waiting s h e pending resolved after =
      let d = Policy.check c.host (system_agent name) tool args s.run.context c.policies in
      let granted =
        latest_approval-resolve_approval s.run.tenant_id s.run.id step.id id ApprovalStatus.pending
          true by note now waiting pending resolved in
      let (t, same, performs) =
        decided_performs d.effect tool name key id d.reason args d.approvers _ h e
          (rw after granted) in
      (
        t,
        record { db = same.db; run = same.run; connectors = same.connectors; world = same.world },
        performs,
      )
