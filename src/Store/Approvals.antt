-- ===== src/Store/Approvals.antt =====
-- reference/bass/store.py: approval requests and their decisions.
use bass_platform.Base.{
  ℕ, String, Bool, ◌&&◌, Option, none, some, List, [], ◌∷◌, ◌++◌, leb, find_by, update_by, ◌==◌,
  if◌then◌else◌,
}
use bass_platform.Errors.{Kind, Result, ok, err, raised}
use bass_platform.Models.{ApprovalStatus}
use bass_platform.Store.{ApprovalRow, Db, assert_owns}

abbrev pub is_approval : String → ApprovalRow → Bool
is_approval id r = r.id == id

abbrev pub decision_status : Bool → ApprovalStatus
decision_status approved = if approved then ApprovalStatus.approved else ApprovalStatus.rejected

abbrev pub new_approval : String → String → String → String → List String → ℕ → ApprovalRow
new_approval id tenant run_id step_id approvers now = record {
  id = id;
  run_id = run_id;
  tenant_id = tenant;
  step_id = step_id;
  status = ApprovalStatus.pending;
  approvers = approvers;
  decided_by = none;
  note = none;
  requested_at = now;
  decided_at = none;
}

-- `id` is the fresh id that `new_id` returned; the primary key refuses one that is in use.
unfoldable pub create_approval :
    String → String → String → String → List String → ℕ → Db → Result (Unit {0}) × Db
unfolding assert_owns
create_approval id tenant run_id step_id approvers now db = elim (assert_owns tenant run_id db) [
  | err e ↦ (err e, db)
  | ok _ ↦ elim (find_by (is_approval id) db.approvals) [
    | some _ ↦ (raised Kind.integrity_error "UNIQUE constraint failed: approvals.id", db)
    | none ↦ (
      ok tt,
      record db {
        approvals = db.approvals ++ new_approval id tenant run_id step_id approvers now ∷ [];
      },
    )
  ]
]

abbrev pub decide : ApprovalStatus → String → String → ℕ → ApprovalRow → ApprovalRow
decide status decided_by note now r = record r {
  status = status;
  decided_by = some decided_by;
  note = some note;
  decided_at = some now;
}

unfoldable pub resolve_approval :
    String → String → Bool → String → String → ℕ → Db → Result (Unit {0}) × Db
resolve_approval tenant id approved decided_by note now db =
    elim (find_by (is_approval id) db.approvals) [
      | none ↦ (raised Kind.key_error id, db)
      | some r ↦
          if r.tenant_id == tenant
          then (
            ok tt,
            record db {
              approvals =
                  update_by (is_approval id) (decide (decision_status approved) decided_by note now)
                    db.approvals;
            },
          )
          else (raised Kind.tenant_isolation "approval belongs to a different tenant", db)
    ]

abbrev pub is_request : String → String → String → ApprovalRow → Bool
is_request tenant run_id step_id r =
    r.run_id == run_id && (r.tenant_id == tenant && r.step_id == step_id)

-- `ORDER BY requested_at DESC, rowid DESC LIMIT 1`: of the latest, the one inserted last.
abbrev pub later : ApprovalRow → Option ApprovalRow → Option ApprovalRow
later r none = some r
later r (some q) = if leb r.requested_at q.requested_at then some q else some r

abbrev pub latest : (ApprovalRow → Bool) → List ApprovalRow → Option ApprovalRow
latest p [] = none
latest p (r ∷ rest) = let q = latest p rest in if p r then later r q else q

unfoldable pub latest_approval : String → String → String → Db → Option (String × ApprovalStatus)
latest_approval tenant run_id step_id db =
    elim (latest (is_request tenant run_id step_id) db.approvals) [
      | none ↦ none
      | some r ↦ some (r.id, r.status)
    ]
