-- ===== src/Store/Resolution.antt =====
-- What `resolve_approval` of reference/bass/store.py makes of a step's latest request.
use mathlib.Core.Option
use bass_platform.Base.{
  ℕ, String, ◌≡◌, refl, ap, Bool, true, Option, none, some, List, [], ◌∷◌, when_row, update_by,
  find_by, arith, eq_iff, inl, inr, Bool-cases, Option-cases, ◌==◌,
}
use bass_platform.Errors.{ok}
use bass_platform.Models.{ApprovalStatus}
use bass_platform.Store.{Db, ApprovalRow}
use bass_platform.Store.Approvals.{
  is_approval, decide, decision_status, resolve_approval, is_request, later, latest,
  latest_approval,
}

later-update :
    (q : ApprovalRow → Bool) (f : ApprovalRow → ApprovalRow) (r : ApprovalRow)
    (o : Option ApprovalRow)
    → ((x : ApprovalRow) → (f x).requested_at ≡ x.requested_at)
    → later (when_row q f r) (Option.map (when_row q f) o) ≡ Option.map (when_row q f) (later r o)
later-update q f r none h = refl
later-update q f r (some x) h = ground (arith, h r, h x)

latest-update_by :
    (p q : ApprovalRow → Bool) (f : ApprovalRow → ApprovalRow) (rows : List ApprovalRow)
    → ((x : ApprovalRow) → p (f x) ≡ p x)
    → ((x : ApprovalRow) → (f x).requested_at ≡ x.requested_at)
    → latest p (update_by q f rows) ≡ Option.map (when_row q f) (latest p rows)
latest-update_by p q f [] same times = refl
latest-update_by p q f (r ∷ rows) same times =
    let rest = latest-update_by p q f rows same times in
    let kept : p (when_row q f r) ≡ p r = ground (arith, same r) in
    elim (Bool-cases (p r)) [
      | inl asked ↦ rw kept (rw asked (rw rest (later-update q f r (latest p rows) times)))
      | inr other ↦ rw kept (rw other rest)
    ]

-- A resolution that returned has updated the request's row.
resolve_approval-rows :
    (t id : String) (approved : Bool) (by note : String) (now : ℕ) (db : Db)
    → (resolve_approval t id approved by note now db).0 ≡ ok tt
    → (resolve_approval t id approved by note now db).1.approvals
      ≡ update_by (is_approval id) (decide (decision_status approved) by note now) db.approvals
unfolding resolve_approval
resolve_approval-rows t id approved by note now db h =
    elim (Option-cases (find_by (is_approval id) db.approvals)) [
      | inl missing ↦ absurd (ground (arith, missing))
      | inr (r, found) ↦ elim (Bool-cases (r.tenant_id == t)) [
        | inl own ↦ rw (found, own, resolve_approval) refl
        | inr foreign ↦ absurd (ground (arith, found, foreign))
      ]
    ]

-- Once the latest request of a step has been resolved, it is the step's latest with its decision.
pub latest_approval-resolve_approval :
    (t run step id : String) (status : ApprovalStatus) (approved : Bool) (by note : String)
    (now : ℕ) (db : Db)
    → latest_approval t run step db ≡ some (id, status)
    → (resolve_approval t id approved by note now db).0 ≡ ok tt
    → latest_approval t run step (resolve_approval t id approved by note now db).1
      ≡ some (id, decision_status approved)
unfolding latest_approval
latest_approval-resolve_approval t run step id status approved by note now db pending h =
    let f = decide (decision_status approved) by note now in
    let rows = resolve_approval-rows t id approved by note now db h in
    let moved =
      latest-update_by (is_request t run step) (is_approval id) f db.approvals (λ x. refl)
        (λ x. refl) in
    elim (Option-cases (latest (is_request t run step) db.approvals)) [
      | inl missing ↦ absurd (ground (arith, missing))
      | inr (r, found) ↦
          let named : r.id ≡ id = ground (arith, found, pending) in
          let is_it : (r.id == id) ≡ true = (eq_iff r.id id).1 named in
          rw (rows, latest_approval)
            (rw (moved, found) (rw is_it (ap (λ i. some (i, decision_status approved)) named)))
    ]
