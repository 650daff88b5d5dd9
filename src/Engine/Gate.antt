-- ===== src/Engine/Gate.antt =====
-- The gate before a tool call (reference/bass/workflow.py, `_run_tool` and `_await_approval`): without
-- an allowing policy or a granted approval the tool's operation is not called.
use bass_platform.Base.{String, ◌≡◌, ◌≢◌, refl, Bool, Option, none, some, List, Dict}
use bass_platform.Errors.{Kind, Raised, Result, ok, err}
use bass_platform.Exec.{continue, ◌>>=◌, ◌>>◌, modify, raise}
use bass_platform.Value.{Fields}
use bass_platform.Models.{RunStatus, Step, Tool, PolicyEffect, ApprovalStatus}
use bass_platform.Policy
use bass_platform.Store.Approvals.{latest_approval}
use bass_platform.Engine.{Config, Sys, M, emit, flush, in_store, outside, set_status, ApprovalFn}
use bass_platform.Engine.Approval.{
  request_approval, announce, announce_decision, by_request, await_by, await_approval,
}
use bass_platform.Engine.Steps.{decided, gate, if_granted, system_agent}

-- The latest request of a step, if there is one, is not stored as approved.
abbrev pub NotApproved : Option (String × ApprovalStatus) → Type 0
NotApproved o = (id : String) → o ≢ some (id, ApprovalStatus.approved)

module _ {W : Type 0} where
  -- An action that raises at every state.
  abbrev Stops : {A : Type 0} → M W A → Type 0
  Stops m = (s : Sys W) → (e : Raised) × ((m s).0 ≡ err e)

  continue-Stops :
      {A B : Type 0} (r : Result A) (f : A → M W B) (t : Sys W)
      → ((a : A) → Stops (f a))
      → (e : Raised) × ((continue r f t).0 ≡ err e)
  continue-Stops (ok a) f t h = h a t
  continue-Stops (err e) f t h = (e, refl)

  then-Stops :
      {A B : Type 0} (m : M W A) (f : A → M W B) → ((a : A) → Stops (f a)) → Stops (m >>= f)
  then-Stops m f h s = continue-Stops (m s).0 f (m s).1 h

  -- What follows an action that has raised is not run.
  abbrev SameStop : {A : Type 0} → Result A × Sys W → Result A × Sys W → Type 0
  SameStop p q = ((e : Raised) × (p.0 ≡ err e)) × (p ≡ q)

  stopped :
      {A B : Type 0} (r : Result A) (t : Sys W) (f g : A → M W B)
      → ((e : Raised) × (r ≡ err e))
      → SameStop (continue r f t) (continue r g t)
  stopped (ok a) t f g (e, h) = absurd (cc h)
  stopped (err e) t f g h = ((e, refl), refl)

module _ {W : Type 0} (c : Config W) (tools : Dict (Tool W)) (step : Step) where
  -- The same engine with other tools.
  abbrev other : Config W
  other = record c { tools = tools }

  flush_pause-Stops : (id : String) → Stops (flush c >> raise {A = Bool} Kind.paused id)
  flush_pause-Stops id =
      then-Stops (flush c) (λ _. raise Kind.paused id)
        (λ _ t. (record { kind = Kind.paused; message = id }, refl))

  by_request_waits :
      (o : Option (String × ApprovalStatus)) (tool : Tool W) (name key : String) (args : Fields)
      (approvers : List String) (s : Sys W)
      → NotApproved o
      → SameStop
          ((by_request c step o approvers name args >>= if_granted c step tool name key args) s)
          ((by_request other step o approvers name args
              >>= if_granted other step tool name key args)
            s)
  unfolding by_request request_approval announce announce_decision flush emit in_store outside
      if_granted
  by_request_waits none tool name key args approvers s h =
      let m = by_request c step none approvers name args in
      stopped (m s).0 (m s).1 (if_granted c step tool name key args)
        (if_granted other step tool name key args)
        (then-Stops (request_approval c step approvers)
          (λ id. announce c step id approvers name args >> (flush c >> raise Kind.paused id))
          (λ id.
            then-Stops (announce c step id approvers name args)
              (λ _. flush c >> raise Kind.paused id) (λ _. flush_pause-Stops id))
          s)
  by_request_waits (some (id, ApprovalStatus.pending)) tool name key args approvers s h =
      let m = by_request c step (some (id, ApprovalStatus.pending)) approvers name args in
      stopped (m s).0 (m s).1 (if_granted c step tool name key args)
        (if_granted other step tool name key args)
        (then-Stops (modify (set_status RunStatus.waiting_approval))
          (λ _. flush c >> raise Kind.paused id) (λ _. flush_pause-Stops id) s)
  by_request_waits (some (id, ApprovalStatus.approved)) tool name key args approvers s h =
      absurd (h id refl)
  by_request_waits (some (id, ApprovalStatus.rejected)) tool name key args approvers s h =
      ((_, refl), refl)
  by_request_waits (some (id, ApprovalStatus.expired)) tool name key args approvers s h =
      ((_, refl), refl)

  await_waits :
      (f : Option (ApprovalFn W)) (tool : Tool W) (name key : String) (args : Fields)
      (approvers : List String) (s : Sys W)
      → f ≡ none
      → NotApproved (latest_approval s.run.tenant_id s.run.id step.id s.db)
      → SameStop
          ((await_by c step f approvers name args >>= if_granted c step tool name key args) s)
          ((await_by other step f approvers name args >>= if_granted other step tool name key args)
            s)
  unfolding await_by
  await_waits none tool name key args approvers s e h =
      by_request_waits (latest_approval s.run.tenant_id s.run.id step.id s.db) tool name key args
        approvers s h
  await_waits (some f) tool name key args approvers s e h = absurd (cc e)

  decided_waits :
      (effect : PolicyEffect) (tool : Tool W) (name key reason : String) (args : Fields)
      (approvers : List String) (s : Sys W)
      → effect ≢ PolicyEffect.allow
      → c.approval_fn ≡ none
      → NotApproved (latest_approval s.run.tenant_id s.run.id step.id s.db)
      → SameStop
          (decided c step tool name key args effect reason approvers s)
          (decided other step tool name key args effect reason approvers s)
  unfolding decided await_approval
  decided_waits PolicyEffect.allow tool name key reason args approvers s ne e h = absurd (ne refl)
  decided_waits PolicyEffect.deny tool name key reason args approvers s ne e h = ((_, refl), refl)
  decided_waits PolicyEffect.require_approval tool name key reason args approvers s ne e h =
      await_waits c.approval_fn tool name key args approvers s e h

  -- In an engine without an `approval_fn`, where the policies do not allow a call and the step's
  -- latest request, if there is one, is not stored with the status `approved`, the gate raises, and what it returns and does is the same
  -- whatever the tools' operations are: none is called.
  pub gate_waits :
      (tool : Tool W) (name key : String) (args : Fields) (s : Sys W)
      → (Policy.check c.host (system_agent name) tool args s.run.context c.policies).effect
        ≢ PolicyEffect.allow
      → c.approval_fn ≡ none
      → NotApproved (latest_approval s.run.tenant_id s.run.id step.id s.db)
      → ((e : Raised) × ((gate c step tool name key args s).0 ≡ err e))
        × (gate c step tool name key args s ≡ gate other step tool name key args s)
  unfolding gate emit
  gate_waits tool name key args s ne e h =
      let d = Policy.check c.host (system_agent name) tool args s.run.context c.policies in
      decided_waits d.effect tool name key d.reason args d.approvers _ ne e h
