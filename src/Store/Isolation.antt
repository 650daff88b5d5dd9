-- ===== src/Store/Isolation.antt =====
-- Tenant isolation of the store's calls.
use bass_platform.Store.Keys.{HasKeys, same_approval}
use bass_platform.Base.{
  Distinct, update_by-none, ℕ, suc, ◌∙◌, update_by, String, ◌≡◌, refl, ◌≢◌, Bool, false, Option,
  some, List, [], ◌∷◌, keep, find_by, keep-append_other, ==_ne, keep-update_by, arith, ◌==◌, eq_iff,
  Option-cases, Bool-cases, inl, inr,
}
use bass_platform.Errors.{Result, ok, err, Result-cases}
use bass_platform.Models.{Run, Event}
use bass_platform.Value.{Value, Fields}
use bass_platform.Redaction.{Patterns, redact_fields}
use bass_platform.Store.{
  transaction, RunRow, EventRow, ApprovalRow, EffectRow, Db, assert_owns, is_run_of, append_event,
}
use bass_platform.Store.Runs.{
  ensure_tenant, create_or_get_run, cancel_run, new_row, conflicts, set_canceled, canceled_event,
}
use bass_platform.Store.Trace.{
  insert_events, checkpoint, purge_event_payloads, is_purged, purge_row, update_run, saved,
}
use bass_platform.Store.Ledger.{record_effect, new_effect}
use bass_platform.Store.Approvals.{
  decide, decision_status, new_approval, create_approval, resolve_approval, is_approval,
}
use bass_platform.Store.History.{Op, op_tenant, apply}

-- What a tenant owns: its rows of each table, in order.
pub record View : Type 0 where
  pub runs : List RunRow
  pub events : List EventRow
  pub approvals : List ApprovalRow
  pub effects : List EffectRow

abbrev pub view : String → Db → View
view u db = record {
  runs = keep (λ r. r.run.tenant_id == u) db.runs;
  events = keep (λ r. r.event.tenant_id == u) db.events;
  approvals = keep (λ r. r.tenant_id == u) db.approvals;
  effects = keep (λ r. r.tenant_id == u) db.effects;
}

abbrev owns_run : String → RunRow → Bool
owns_run u r = r.run.tenant_id == u

abbrev owns_event : String → EventRow → Bool
owns_event u r = r.event.tenant_id == u

abbrev owns_approval : String → ApprovalRow → Bool
owns_approval u r = r.tenant_id == u

abbrev owns_effect : String → EffectRow → Bool
owns_effect u r = r.tenant_id == u

module _ (u t : String) (foreign : t ≢ u) where
  append_event-view :
      (ev : Event) (now : ℕ) (db : Db)
      → ev.tenant_id ≡ t
      → view u (append_event ev now db) ≡ view u db
  append_event-view ev now db e = ground (
    arith,
    ==_ne t u foreign,
    keep-append_other (owns_event u) db.events
        (record { seq = db.next_seq; event = ev; created_at = now }),
  )

  insert_events-view :
      (p : Patterns) (clock : ℕ → ℕ) (i : ℕ) (events : List Event) (db : Db)
      → view u (insert_events p t clock i events db).1 ≡ view u db
  unfolding insert_events
  insert_events-view p clock i [] db = refl
  insert_events-view p clock i (ev ∷ rest) db = elim (Bool-cases (ev.tenant_id == t)) [
    | inl mine ↦ rw mine (
        insert_events-view p clock (suc i) rest _
        ∙ append_event-view (record ev { payload = redact_fields p ev.payload }) (clock i) db
            ((eq_iff ev.tenant_id t).0 mine))
    | inr other ↦ rw other
  ]

  update_runs-view :
      (id : String) (f : RunRow → RunRow) (db : Db)
      → ((r : RunRow) → (f r).run.tenant_id ≡ r.run.tenant_id)
      → keep (owns_run u) (update_by (is_run_of t id) f db.runs) ≡ keep (owns_run u) db.runs
  update_runs-view id f db same =
      keep-update_by (owns_run u) (is_run_of t id) f db.runs
        λ r h. ground (arith, same r, ==_ne t u foreign, eq_iff r.run.tenant_id t)

  cancel-view : (id : String) (now : ℕ) (db : Db) → view u (cancel_run t id now db).1 ≡ view u db
  unfolding cancel_run
  cancel-view id now db = ground (
    arith,
    update_runs-view id (set_canceled now) db (λ r. refl),
    append_event-view (canceled_event t id) now
        (record db { runs = update_by (is_run_of t id) (set_canceled now) db.runs }) refl,
  )

  purge-view : (before : ℕ) (db : Db) → view u (purge_event_payloads t before db).1 ≡ view u db
  unfolding purge_event_payloads
  purge-view before db = ground (
    arith,
    keep-update_by (owns_event u) (is_purged t before) purge_row db.events
        (λ r h. ground (arith, ==_ne t u foreign, eq_iff r.event.tenant_id t)),
  )

  effect-view :
      (key id : String) (step : Option String) (tool : String) (v : Value) (now : ℕ) (db : Db)
      → view u (record_effect t key id step tool v now db) ≡ view u db
  unfolding record_effect
  effect-view key id step tool v now db = ground (
    arith,
    ==_ne t u foreign,
    keep-append_other (owns_effect u) db.effects (new_effect t key id step tool v now),
  )

  request-view :
      (aid id step : String) (approvers : List String) (now : ℕ) (db : Db)
      → view u (create_approval aid t id step approvers now db).1 ≡ view u db
  unfolding create_approval
  request-view aid id step approvers now db = ground (
    arith,
    ==_ne t u foreign,
    keep-append_other (owns_approval u) db.approvals (new_approval aid t id step approvers now),
  )

transaction-view :
    {A : Type 0} (u : String) (r : Result A × Db) (db : Db)
    → view u r.1 ≡ view u db
    → view u (transaction r db).1 ≡ view u db
transaction-view u (ok a, after) db h = h
transaction-view u (err e, after) db h = refl

module _ (u : String) (run : Run) (foreign : run.tenant_id ≢ u) where
  update_run-view : (now : ℕ) (db : Db) → view u (update_run now run db) ≡ view u db
  update_run-view now db =
      ground (arith, update_runs-view u run.tenant_id foreign run.id (saved run now) db (λ r. refl))

  checkpoint-view :
      (p : Patterns) (clock : ℕ → ℕ) (events : List Event) (db : Db)
      → view u (checkpoint p clock run events db).1 ≡ view u db
  unfolding checkpoint
  checkpoint-view p clock events db = elim (Result-cases (assert_owns run.tenant_id run.id db)) [
    | inr (e, refused) ↦ rw (refused, checkpoint)
    | inl (_, owned) ↦
        rw (owned, checkpoint)
          (transaction-view u _ db (
            insert_events-view u run.tenant_id foreign p clock 1 events _
            ∙ update_run-view (clock 0) db))
  ]

  create-view : (now : ℕ) (db : Db) → view u (create_or_get_run run now db).1 ≡ view u db
  unfolding create_or_get_run
  create-view now db = elim (Option-cases (find_by (conflicts run) db.runs)) [
    | inr (r, e) ↦ rw (e, create_or_get_run)
    | inl e ↦
        rw (e, create_or_get_run)
          (ground (
            arith,
            ==_ne run.tenant_id u foreign,
            keep-append_other (owns_run u) db.runs (new_row run now),
          ))
  ]

-- Among rows with distinct ids, an update of the row with an id touches one row.
resolve_one :
    (u aid : String) (f : ApprovalRow → ApprovalRow) (rows : List ApprovalRow) (r : ApprovalRow)
    → ((x : ApprovalRow) → (f x).tenant_id ≡ x.tenant_id)
    → Distinct same_approval rows
    → find_by (is_approval aid) rows ≡ some r
    → (r.tenant_id == u) ≡ false
    → keep (owns_approval u) (update_by (is_approval aid) f rows) ≡ keep (owns_approval u) rows
resolve_one u aid f [] r same d e other = refl
resolve_one u aid f (x ∷ rows) r same d e other = elim (Bool-cases (x.id == aid)) [
  | inl here ↦ ground (arith, same x, eq_iff x.id aid, update_by-none (is_approval aid) f rows)
  | inr there ↦ ground (arith, resolve_one u aid f rows r same d.1)
]

resolve-view :
    (u t aid : String) (approved : Bool) (by note : String) (now : ℕ) (db : Db)
    → t ≢ u
    → HasKeys db
    → view u (resolve_approval t aid approved by note now db).1 ≡ view u db
unfolding resolve_approval
resolve-view u t aid approved by note now db foreign h =
    elim (Option-cases (find_by (is_approval aid) db.approvals)) [
      | inl e ↦ rw (e, resolve_approval)
      | inr (r, e) ↦
          rw (e, resolve_approval)
            (ground (
              arith,
              ==_ne t u foreign,
              eq_iff r.tenant_id t,
              resolve_one u aid (decide (decision_status approved) by note now) db.approvals r
                  (λ x. refl) h.approvals e,
            ))
    ]

ensure-view :
    (u t name : String) (settings : Fields) (now : ℕ) (db : Db)
    → view u (ensure_tenant t name settings now db) ≡ view u db
unfolding ensure_tenant
ensure-view u t name settings now db = ground arith

-- A call for one tenant, whether it returns or raises, changes no row that another tenant owns in
-- any of the four tables of runs, events, approvals and effects, nor their order.
pub apply-view :
    (p : Patterns) (op : Op) (u : String) (db : Db)
    → op_tenant op ≢ u
    → HasKeys db
    → view u (apply p op db) ≡ view u db
apply-view p (Op.ensure t name settings now) u db f h = ensure-view u t name settings now db
apply-view p (Op.create run now) u db f h = create-view u run f now db
apply-view p (Op.save clock run events) u db f h = checkpoint-view u run f p clock events db
apply-view p (Op.cancel t id now) u db f h = cancel-view u t f id now db
apply-view p (Op.effect t key id step tool v now) u db f h =
    effect-view u t f key id step tool v now db
apply-view p (Op.request aid t id step approvers now) u db f h =
    request-view u t f aid id step approvers now db
apply-view p (Op.resolve t aid approved by note now) u db f h =
    resolve-view u t aid approved by note now db f h
apply-view p (Op.purge t before) u db f h = purge-view u t f before db
