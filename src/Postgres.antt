-- ===== src/Postgres.antt =====
-- reference/bass/store_postgres.py: `PostgresStore`, the same tables on a PostgreSQL server. What the
-- server does otherwise than SQLite: `ON CONFLICT` names one constraint, so that a second use of a
-- run's id is refused; a sequence is not set back when a transaction is rolled back; and rows that
-- an `ORDER BY` holds equal come in an order of the server's choice, which is a parameter. One
-- process is modelled, whose lock makes each method atomic.
pub mod Calls
pub mod Methods
pub mod Parity
pub mod Reads
use bass_platform.Base.{
  sort_by, ℕ, suc, String, Bool, true, false, not, ◌&&◌, ◌||◌, Option, none, some, List, [], ◌∷◌,
  ◌++◌, ltb, take, length, keep, find_by, update_by, ◌==◌, if◌then◌else◌, concat,
}
use bass_platform.Errors.{Kind, Result, ok, err, raised}
use bass_platform.Value.{Value, Fields, is_empty, not_null}
use bass_platform.Models.{Run, Event, ApprovalStatus, is_terminal}
use bass_platform.Redaction.{Patterns, redact_fields}
use bass_platform.Store.{
  TenantRow, RunRow, EventRow, ApprovalRow, EffectRow, Db, is_run, is_run_of, append_event,
}
use bass_platform.Store.Runs.{is_key_of, new_row, has_status, canceled_event, set_canceled}
use bass_platform.Store.Trace.{update_run, is_purged, purge_row}
use bass_platform.Store.Ledger.{is_effect, new_effect}
use bass_platform.Store.Approvals.{is_approval, decision_status, new_approval, decide, is_request}

-- `with self._conn.transaction()`: a rollback keeps the sequence where it is.
abbrev pub transaction {ℓ} : {A : Type ℓ} → Result A × Db → Db → Result A × Db
transaction (ok a, after) before = (ok a, after)
transaction (err e, after) before = (err e, record before { next_seq = after.next_seq })

abbrev pub unique_violation {ℓ} : {A : Type ℓ} → String → Result A
unique_violation constraint =
    raised Kind.integrity_error
      (concat ("duplicate key value violates unique constraint " ∷ constraint ∷ []))

-- `_assert_owns`
unfoldable pub assert_owns : String → String → Db → Result (Unit {0})
assert_owns tenant run_id db = elim (find_by (is_run run_id) db.runs) [
  | none ↦ ok tt
  | some r ↦
      if not (r.run.tenant_id == tenant)
      then raised Kind.tenant_isolation
          (concat ("run " ∷ run_id ∷ " belongs to a different tenant" ∷ []))
      else ok tt
]

-- `_row_to_run`
unfoldable pub row_to_run : RunRow → String → Result Run
row_to_run r tenant =
    if not (r.run.tenant_id == tenant)
    then raised Kind.tenant_isolation "run belongs to a different tenant"
    else ok r.run

unfoldable pub ensure_tenant : String → String → Fields → ℕ → Db → Db
ensure_tenant id name settings now db = elim (find_by (λ (t : TenantRow). t.id == id) db.tenants) [
  | none ↦ record db {
    tenants =
        db.tenants ++ record { id = id; name = name; settings = settings; created_at = now } ∷ [];
  }
  | some _ ↦ record db {
    tenants = update_by (λ t. t.id == id) (λ t. record t { name = name }) db.tenants;
  }
]

-- `self._row_to_run(row, tenant_id) if row else None`
abbrev pub if_row : Option RunRow → String → Result (Option Run)
if_row none tenant = ok none
if_row (some r) tenant = elim (row_to_run r tenant) [ ok run ↦ ok (some run) | err e ↦ err e ]

unfoldable pub load_run : String → String → Db → Result (Option Run)
unfolding row_to_run
load_run tenant id db = if_row (find_by (is_run id) db.runs) tenant

-- `_load_by_key`
unfoldable pub load_by_key : String → String → Db → Result (Option Run)
unfolding row_to_run
load_by_key tenant key db = if_row (find_by (is_key_of tenant key) db.runs) tenant

-- `assert existing is not None; return existing, False`
abbrev pub existing_run : Result (Option Run) → Result (Run × Bool)
existing_run (ok (some run)) = ok (run, false)
existing_run (ok none) = raised Kind.assertion_error ""
existing_run (err e) = err e

unfoldable pub create_or_get_run : Run → ℕ → Db → Result (Run × Bool) × Db
unfolding load_by_key
create_or_get_run run now db =
    elim (find_by (is_key_of run.tenant_id run.idempotency_key) db.runs) [
      | some _ ↦ (existing_run (load_by_key run.tenant_id run.idempotency_key db), db)
      | none ↦ elim (find_by (is_run run.id) db.runs) [
        | some _ ↦ (unique_violation "runs_pkey", db)
        | none ↦ (ok (run, true), record db { runs = db.runs ++ new_row run now ∷ [] })
      ]
    ]

-- `[self._row_to_run(r, tenant_id) for r in rows]`
abbrev pub rows_to_runs : String → List RunRow → Result (List Run)
rows_to_runs tenant [] = ok []
rows_to_runs tenant (r ∷ rest) = elim (row_to_run r tenant) [
  | ok run ↦ elim (rows_to_runs tenant rest) [ ok runs ↦ ok (run ∷ runs) | err e ↦ err e ]
  | err e ↦ err e
]

-- `ORDER BY started_at DESC LIMIT`, with the server's choice between rows that started together
module _ (before : RunRow → RunRow → Bool) where
  abbrev pub newer : RunRow → RunRow → Bool
  newer r q =
      not (ltb r.started_at q.started_at) && (ltb q.started_at r.started_at || not (before q r))

  unfoldable pub list_runs : String → ℕ → Option String → Db → Result (List Run)
  unfolding row_to_run
  list_runs tenant limit status db = rows_to_runs tenant (
      take limit (
        sort_by newer
          (keep (λ (r : RunRow). r.run.tenant_id == tenant && has_status status r) db.runs)))

-- The loop of `checkpoint`; the i-th insert reads `clock i`.
unfoldable pub insert_events :
    Patterns → String → (ℕ → ℕ) → ℕ → List Event → Db → Result (Unit {0}) × Db
insert_events p tenant clock i [] db = (ok tt, db)
insert_events p tenant clock i (ev ∷ rest) db =
    let inserted =
      insert_events p tenant clock (suc i) rest
        (append_event (record ev { payload = redact_fields p ev.payload }) (clock i) db) in
    if not (ev.tenant_id == tenant)
    then (raised Kind.tenant_isolation "event tenant does not match run tenant", db)
    else inserted

-- The block of `checkpoint`, after `_assert_owns`
abbrev pub save_run :
    Patterns → (ℕ → ℕ) → Run → List Event → Result (Unit {0}) → Db → Result (Unit {0}) × Db
save_run p clock run events (ok _) db =
    insert_events p run.tenant_id clock 1 events (update_run (clock 0) run db)
save_run p clock run events (err e) db = (err e, db)

unfoldable pub checkpoint : Patterns → (ℕ → ℕ) → Run → List Event → Db → Result (Unit {0}) × Db
unfolding assert_owns insert_events
checkpoint p clock run events db =
    transaction (save_run p clock run events (assert_owns run.tenant_id run.id db) db) db

unfoldable pub list_events : String → String → Db → Result (List EventRow)
unfolding assert_owns
list_events tenant run_id db = elim (assert_owns tenant run_id db) [
  | err e ↦ err e
  | ok _ ↦
      ok
        (keep (λ (r : EventRow). r.event.run_id == run_id && r.event.tenant_id == tenant) db.events)
]

unfoldable pub cancel_run : String → String → ℕ → Db → Result Bool × Db
unfolding assert_owns
cancel_run tenant run_id now db = elim (find_by (is_run_of tenant run_id) db.runs) [
  | none ↦
      transaction (elim (assert_owns tenant run_id db) [ ok _ ↦ ok false | err e ↦ err e ], db) db
  | some r ↦ if is_terminal r.run.status then (ok false, db) else (
    ok true,
    append_event (canceled_event tenant run_id) now
        (record db { runs = update_by (is_run_of tenant run_id) (set_canceled now) db.runs }),
  )
]

unfoldable pub get_effect : String → String → Db → Result (Option Value)
get_effect tenant key db = elim (find_by (is_effect key) db.effects) [
  | none ↦ ok none
  | some r ↦
      if not (r.tenant_id == tenant)
      then raised Kind.tenant_isolation "effect belongs to a different tenant"
      else ok (not_null r.result)
]

-- `ON CONFLICT (idempotency_key) DO NOTHING`
unfoldable pub record_effect :
    String → String → String → Option String → String → Value → ℕ → Db → Db
record_effect tenant key run_id step_id tool result now db =
    elim (find_by (is_effect key) db.effects) [
      | none ↦ record db {
        effects = db.effects ++ new_effect tenant key run_id step_id tool result now ∷ [];
      }
      | some _ ↦ db
    ]

-- `id` is the fresh id that `new_id` returned.
unfoldable pub create_approval :
    String → String → String → String → List String → ℕ → Db → Result (Unit {0}) × Db
unfolding assert_owns
create_approval id tenant run_id step_id approvers now db = elim (assert_owns tenant run_id db) [
  | err e ↦ transaction (err e, db) db
  | ok _ ↦ elim (find_by (is_approval id) db.approvals) [
    | some _ ↦ transaction (unique_violation "approvals_pkey", db) db
    | none ↦ (
      ok tt,
      record db {
        approvals = db.approvals ++ new_approval id tenant run_id step_id approvers now ∷ [];
      },
    )
  ]
]

unfoldable pub resolve_approval :
    String → String → Bool → String → String → ℕ → Db → Result (Unit {0}) × Db
resolve_approval tenant id approved decided_by note now db =
    elim (find_by (is_approval id) db.approvals) [
      | none ↦ transaction (raised Kind.key_error id, db) db
      | some r ↦
          if not (r.tenant_id == tenant)
          then transaction
              (raised Kind.tenant_isolation "approval belongs to a different tenant", db) db
          else (
            ok tt,
            record db {
              approvals =
                  update_by (is_approval id) (decide (decision_status approved) decided_by note now)
                    db.approvals;
            },
          )
    ]

unfoldable pub purge_event_payloads : String → ℕ → Db → ℕ × Db
purge_event_payloads tenant before_ts db = (
  length (keep (is_purged tenant before_ts) db.events),
  record db { events = update_by (is_purged tenant before_ts) purge_row db.events },
)

-- `ORDER BY requested_at DESC LIMIT 1`, with the server's choice between equal times
module _ (before : ApprovalRow → ApprovalRow → Bool) where
  abbrev pub first_of : ApprovalRow → Option ApprovalRow → Option ApprovalRow
  first_of r none = some r
  first_of r (some q) =
      if ltb r.requested_at q.requested_at
        || (not (ltb q.requested_at r.requested_at) && before q r)
      then some q
      else some r

  abbrev pub latest : (ApprovalRow → Bool) → List ApprovalRow → Option ApprovalRow
  latest p [] = none
  latest p (r ∷ rest) = let q = latest p rest in if p r then first_of r q else q

  unfoldable pub latest_approval : String → String → String → Db → Option (String × ApprovalStatus)
  latest_approval tenant run_id step_id db =
      elim (latest (is_request tenant run_id step_id) db.approvals) [
        | none ↦ none
        | some r ↦ some (r.id, r.status)
      ]
