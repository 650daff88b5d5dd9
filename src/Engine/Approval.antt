-- ===== src/Engine/Approval.antt =====
-- reference/bass/workflow.py: `_await_approval`. With an `approval_fn` the decision is made inline;
-- without one the run pauses until another caller has resolved the request.
use bass_platform.Base.{String, Bool, true, false, Option, none, some, List, [], ◌∷◌}
use bass_platform.Errors.{Kind}
use bass_platform.Exec.{◌>>=◌, ◌>>◌, raise, pure, lift, gets, modify}
use bass_platform.Value.{Value, Fields, dict, texts, get, or_null}
use bass_platform.Models.{Step, RunStatus, ApprovalStatus}
use bass_platform.Store.Approvals.{create_approval, resolve_approval, latest_approval}
use bass_platform.Engine.{Config, M, ApprovalFn, emit, in_store, outside, flush, set_status}

abbrev pub is_approved : ApprovalStatus → Bool
is_approved ApprovalStatus.approved = true
is_approved _ = false

module _ {W : Type 0} (c : Config W) (step : Step) where
  -- `self.store.create_approval(…)`, with the id that it makes.
  unfoldable pub request_approval : List String → M W String
  unfolding outside in_store
  request_approval approvers = do
    run ← gets (λ s. s.run)
    id ← outside (c.host.new_id "appr")
    in_store c.host (λ clock. create_approval id run.tenant_id run.id step.id approvers (clock 0))
    pure id

  -- The status and the event of a new request.
  unfoldable pub announce : String → List String → String → Fields → M W (Unit {0})
  unfolding emit
  announce id approvers tool_name args = do
    modify (set_status RunStatus.waiting_approval)
    emit "approval_requested"
        (dict (
          ("approval_id", Value.str id)
          ∷ ("approvers", Value.arr (texts approvers))
          ∷ ("tool", Value.str tool_name)
          ∷ ("amount", or_null (get "amount" args))
          ∷ []))
        (some step.id) 0 "system"

  unfoldable pub announce_decision : String → Bool → M W (Unit {0})
  unfolding emit
  announce_decision id granted =
      emit "approval_resolved"
        (dict (("approval_id", Value.str id) ∷ ("granted", Value.bool granted) ∷ [])) (some step.id)
        0 "system"

  -- `self.approval_fn(run, step, tool_name, args)`, which may raise, and what follows it.
  unfoldable pub asked : ApprovalFn W → String → String → Fields → M W Bool
  unfolding announce_decision outside in_store
  asked approve id tool_name args = do
    run ← gets (λ s. s.run)
    answer ← outside (approve run step tool_name args)
    granted ← lift answer
    in_store c.host (λ clock. resolve_approval run.tenant_id id granted "approval_fn" "" (clock 0))
    announce_decision id granted
    modify (set_status RunStatus.running)
    pure granted

  unfoldable pub ask_inline : ApprovalFn W → List String → String → Fields → M W Bool
  unfolding request_approval announce asked
  ask_inline approve approvers tool_name args = do
    id ← request_approval approvers
    announce id approvers tool_name args
    asked approve id tool_name args

  -- The asynchronous case, by the latest request of this step.
  unfoldable pub by_request :
      Option (String × ApprovalStatus) → List String → String → Fields → M W Bool
  unfolding request_approval announce announce_decision
  by_request none approvers tool_name args = do
    id ← request_approval approvers
    announce id approvers tool_name args
    flush c
    raise Kind.paused id
  by_request (some (id, ApprovalStatus.pending)) approvers tool_name args = do
    modify (set_status RunStatus.waiting_approval)
    flush c
    raise Kind.paused id
  by_request (some (id, status)) approvers tool_name args = do
    announce_decision id (is_approved status)
    pure (is_approved status)

  -- `await_approval`, by the engine's `approval_fn`.
  unfoldable pub await_by : Option (ApprovalFn W) → List String → String → Fields → M W Bool
  unfolding ask_inline by_request
  await_by (some approve) approvers tool_name args = ask_inline approve approvers tool_name args
  await_by none approvers tool_name args = do
    run ← gets (λ s. s.run)
    existing ← gets (λ s. latest_approval run.tenant_id run.id step.id s.db)
    by_request existing approvers tool_name args

  unfoldable pub await_approval : List String → String → Fields → M W Bool
  unfolding await_by
  await_approval = await_by c.approval_fn
