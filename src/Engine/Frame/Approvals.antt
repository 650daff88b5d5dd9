-- ===== src/Engine/Frame/Approvals.antt =====
-- Waiting for an approval keeps the run's identity and leaves its step count alone.
use bass_platform.Base.{String, Option, none, some, List, [], refl}
use bass_platform.Errors.{Kind}
use bass_platform.Exec.Relates.{continue_at, continue_here}
use bass_platform.Store.Approvals.{create_approval, resolve_approval}
use bass_platform.Store.History.{Op}
use bass_platform.Value.{Fields}
use bass_platform.Models.{RunStatus, Step, ApprovalStatus}
use bass_platform.Exec.{modify, raise, pure, ◌>>◌}
use bass_platform.Engine.{set_status, flush, Config, ApprovalFn, in_store, outside, Sys}
use bass_platform.Engine.Approval.{
  request_approval, announce, announce_decision, ask_inline, asked, by_request, await_by,
  await_approval,
}
use bass_platform.Engine.Frame.{
  then-Keeps, status-Keeps, bind-Keeps, pure-Keeps, raise-Keeps, Keeps, keeps_rules, Frame,
  frame_order, in_store_at,
}
use bass_platform.Engine.Frame.Actions.{flush-Keeps}

module _ {W : Type 0} (c : Config W) (step : Step) where
  request_approval-Keeps :
      (approvers : List String) → Keeps c.patterns (request_approval c step approvers)
  unfolding request_approval outside in_store
  request_approval-Keeps approvers = record {
    at = λ s.
        let (id, w) = c.host.new_id "appr" s.world in
        let t = record s { world = w } in
        let made =
          create_approval id s.run.tenant_id s.run.id step.id approvers (c.host.clock w 0) s.db in
        continue_at frame_order made.0 (λ _. pure id) s
          (record s { db = made.1; world = c.host.tick w })
          (frame_order.trans s t _
            record {
              steps_used = refl;
              id = refl;
              history = record {
                tenant_id = refl;
                identity = refl;
                calls = [];
                by_tenant = tt;
                db = refl;
              };
            }
            (in_store_at c.host
              (λ clock. create_approval id s.run.tenant_id s.run.id step.id approvers (clock 0))
              (Op.request id s.run.tenant_id s.run.id step.id approvers (c.host.clock w 0)) t refl
              refl))
          (λ _. pure-Keeps id);
  }

  announce-Keeps :
      (id : String) (approvers : List String) (name : String) (args : Fields)
      → Keeps c.patterns (announce c step id approvers name args)
  unfolding announce
  announce-Keeps id approvers name args = search keeps_rules depth 12

  -- What follows the announcement, for the run that it is about.
  answered :
      (f : ApprovalFn W) (id name : String) (args : Fields) (s : Sys W)
      → Frame W c.patterns s (asked c step f id name args s).1
  unfolding asked outside in_store
  answered f id name args s =
      let (answer, w) = f s.run step name args s.world in
      let t = record s { world = w } in
      continue_here frame_order answer _ s t
        record {
          steps_used = refl;
          id = refl;
          history = record {
            tenant_id = refl;
            identity = refl;
            calls = [];
            by_tenant = tt;
            db = refl;
          };
        }
        λ granted.
          let done =
            resolve_approval s.run.tenant_id id granted "approval_fn" "" (c.host.clock w 0) s.db in
          continue_at frame_order done.0
            (λ _.
              announce_decision c step id granted
              >> (modify (set_status RunStatus.running) >> pure granted))
            t (record s { db = done.1; world = c.host.tick w })
            (in_store_at c.host
              (λ clock. resolve_approval s.run.tenant_id id granted "approval_fn" "" (clock 0))
              (Op.resolve s.run.tenant_id id granted "approval_fn" "" (c.host.clock w 0)) t refl
              refl)
            (λ _. search keeps_rules depth 12)

  ask_inline-Keeps :
      (f : ApprovalFn W) (approvers : List String) (name : String) (args : Fields)
      → Keeps c.patterns (ask_inline c step f approvers name args)
  unfolding ask_inline
  ask_inline-Keeps f approvers name args =
      bind-Keeps (request_approval c step approvers) _ (request_approval-Keeps approvers) λ id.
        then-Keeps (announce c step id approvers name args) (asked c step f id name args)
          (announce-Keeps id approvers name args) (record { at = λ s. answered f id name args s })

  by_request-Keeps :
      (o : Option (String × ApprovalStatus)) (approvers : List String) (name : String)
      (args : Fields)
      → Keeps c.patterns (by_request c step o approvers name args)
  unfolding by_request
  by_request-Keeps none approvers name args =
      bind-Keeps (request_approval c step approvers) _ (request_approval-Keeps approvers) λ id.
        bind-Keeps (announce c step id approvers name args) _
          (announce-Keeps id approvers name args)
          λ _. bind-Keeps (flush c) _ (flush-Keeps c) (λ _. raise-Keeps Kind.paused id)
  by_request-Keeps (some (id, ApprovalStatus.pending)) approvers name args =
      then-Keeps (modify (set_status RunStatus.waiting_approval)) (flush c >> raise Kind.paused id)
        (status-Keeps RunStatus.waiting_approval)
        (then-Keeps (flush c) (raise Kind.paused id) (flush-Keeps c) (raise-Keeps Kind.paused id))
  by_request-Keeps (some (id, ApprovalStatus.approved)) approvers name args =
      search keeps_rules depth 20
  by_request-Keeps (some (id, ApprovalStatus.rejected)) approvers name args =
      search keeps_rules depth 20
  by_request-Keeps (some (id, ApprovalStatus.expired)) approvers name args =
      search keeps_rules depth 20

  await_by-Keeps :
      (o : Option (ApprovalFn W)) (approvers : List String) (name : String) (args : Fields)
      → Keeps c.patterns (await_by c step o approvers name args)
  unfolding await_by
  await_by-Keeps (some f) approvers name args = ask_inline-Keeps f approvers name args
  await_by-Keeps none approvers name args = search (keeps_rules, by_request-Keeps) depth 12

  pub await-Keeps :
      (approvers : List String) (name : String) (args : Fields)
      → Keeps c.patterns (await_approval c step approvers name args)
  unfolding await_approval
  await-Keeps approvers name args = await_by-Keeps c.approval_fn approvers name args
