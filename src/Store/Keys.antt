-- ===== src/Store/Keys.antt =====
-- The primary keys and the UNIQUE constraint of the schema in reference/bass/store.py, as an
-- invariant of the store's calls: no two runs share an id, or a tenant and an idempotency key; no
-- two approvals share an id; no two effects share a key.
use bass_platform.Base.{
  ==_comm, ℕ, suc, String, ◌≡◌, refl, Bool, Option, List, [], ◌∷◌, find_by, update_by, Distinct,
  append-Distinct, update_by-Distinct, arith, ◌==◌, ◌||◌, ◌&&◌, Option-cases, Bool-cases, inl, inr,
}
use bass_platform.Errors.{Result, ok, err, Result-cases}
use bass_platform.Models.{Run, Event, is_terminal}
use bass_platform.Value.{Value, Fields}
use bass_platform.Redaction.{Patterns, redact_fields}
use bass_platform.Store.{
  transaction, RunRow, ApprovalRow, EffectRow, Db, append_event, assert_owns, is_run_of,
}
use bass_platform.Store.Runs.{
  ensure_tenant, create_or_get_run, cancel_run, new_row, conflicts, set_canceled,
}
use bass_platform.Store.Trace.{insert_events, checkpoint, purge_event_payloads, update_run, saved}
use bass_platform.Store.Ledger.{record_effect, is_effect, new_effect}
use bass_platform.Store.Approvals.{
  create_approval, resolve_approval, is_approval, new_approval, decide, decision_status,
}
use bass_platform.Store.History.{Op, apply, apply_all}

-- The primary key of `runs`, or UNIQUE(tenant_id, idempotency_key)
abbrev pub same_run : RunRow → RunRow → Bool
same_run r q =
    q.run.id == r.run.id
    || (q.run.tenant_id == r.run.tenant_id && q.run.idempotency_key == r.run.idempotency_key)

-- The primary key of `approvals`
abbrev pub same_approval : ApprovalRow → ApprovalRow → Bool
same_approval r q = q.id == r.id

-- The primary key of `effects`
abbrev pub same_effect : EffectRow → EffectRow → Bool
same_effect r q = q.idempotency_key == r.idempotency_key

pub record HasKeys (db : Db) : Type 0 where
  pub runs : Distinct same_run db.runs
  pub approvals : Distinct same_approval db.approvals
  pub effects : Distinct same_effect db.effects

same_run_comm : (r q : RunRow) → same_run r q ≡ same_run q r
same_run_comm r q = ground (
  arith,
  ==_comm r.run.id q.run.id,
  ==_comm r.run.tenant_id q.run.tenant_id,
  ==_comm r.run.idempotency_key q.run.idempotency_key,
)

create-HasKeys :
    (run : Run) (now : ℕ) (db : Db) → HasKeys db → HasKeys (create_or_get_run run now db).1
unfolding create_or_get_run
create-HasKeys run now db h = elim (Option-cases (find_by (conflicts run) db.runs)) [
  | inr (r, e) ↦ rw (e, create_or_get_run) h
  | inl e ↦
      rw (e, create_or_get_run)
        (record {
          runs =
              append-Distinct same_run db.runs (new_row run now)
                (λ x. same_run_comm x (new_row run now)) h.runs e;
          approvals = h.approvals;
          effects = h.effects;
        })
]

request-HasKeys :
    (aid t id step : String) (approvers : List String) (now : ℕ) (db : Db)
    → HasKeys db
    → HasKeys (create_approval aid t id step approvers now db).1
unfolding create_approval
request-HasKeys aid t id step approvers now db h = elim (Result-cases (assert_owns t id db)) [
  | inr (e, refused) ↦ rw (refused, create_approval) h
  | inl (_, owned) ↦ elim (Option-cases (find_by (is_approval aid) db.approvals)) [
    | inr (r, e) ↦ rw (owned, e, create_approval) h
    | inl e ↦
        rw (owned, e, create_approval)
          (record {
            runs = h.runs;
            approvals =
                append-Distinct same_approval db.approvals
                  (new_approval aid t id step approvers now) (λ x. ==_comm aid x.id) h.approvals e;
            effects = h.effects;
          })
  ]
]

effect-HasKeys :
    (t key id : String) (step : Option String) (tool : String) (v : Value) (now : ℕ) (db : Db)
    → HasKeys db
    → HasKeys (record_effect t key id step tool v now db)
unfolding record_effect
effect-HasKeys t key id step tool v now db h =
    elim (Option-cases (find_by (is_effect key) db.effects)) [
      | inr (r, e) ↦ rw (e, record_effect) h
      | inl e ↦
          rw (e, record_effect)
            (record {
              runs = h.runs;
              approvals = h.approvals;
              effects =
                  append-Distinct same_effect db.effects (new_effect t key id step tool v now)
                    (λ x. ==_comm key x.idempotency_key) h.effects e;
            })
    ]

-- An update of the rows of runs that leaves their keys alone.
update_runs-HasKeys :
    (p : RunRow → Bool) (f : RunRow → RunRow) (db : Db)
    → ((x y : RunRow) → same_run (f x) y ≡ same_run x y)
    → ((x y : RunRow) → same_run x (f y) ≡ same_run x y)
    → HasKeys db
    → HasKeys (record db { runs = update_by p f db.runs })
update_runs-HasKeys p f db left right h = record {
  runs = update_by-Distinct same_run p f db.runs left right h.runs;
  approvals = h.approvals;
  effects = h.effects;
}

cancel-HasKeys :
    (t id : String) (now : ℕ) (db : Db) → HasKeys db → HasKeys (cancel_run t id now db).1
unfolding cancel_run
cancel-HasKeys t id now db h = elim (Option-cases (find_by (is_run_of t id) db.runs)) [
  | inl e ↦ rw (e, cancel_run) h
  | inr (r, e) ↦ elim (Bool-cases (is_terminal r.run.status)) [
    | inl done ↦ rw (e, done, cancel_run) h
    | inr live ↦
        let k =
          update_runs-HasKeys (is_run_of t id) (set_canceled now) db (λ x y. refl) (λ x y. refl)
            h in
        rw (e, live, cancel_run)
          (record { runs = k.runs; approvals = k.approvals; effects = k.effects })
  ]
]

insert_events-HasKeys :
    (p : Patterns) (t : String) (clock : ℕ → ℕ) (i : ℕ) (events : List Event) (db : Db)
    → HasKeys db
    → HasKeys (insert_events p t clock i events db).1
unfolding insert_events
insert_events-HasKeys p t clock i [] db h = h
insert_events-HasKeys p t clock i (ev ∷ rest) db h = elim (Bool-cases (ev.tenant_id == t)) [
  | inr other ↦ rw other h
  | inl mine ↦ rw mine (
      insert_events-HasKeys p t clock (suc i) rest
        (append_event (record ev { payload = redact_fields p ev.payload }) (clock i) db)
        (record { runs = h.runs; approvals = h.approvals; effects = h.effects }))
]

transaction-HasKeys :
    {A : Type 0} (r : Result A × Db) (db : Db)
    → HasKeys r.1
    → HasKeys db
    → HasKeys (transaction r db).1
transaction-HasKeys (ok a, after) db h k = h
transaction-HasKeys (err e, after) db h k = k

save-HasKeys :
    (p : Patterns) (clock : ℕ → ℕ) (run : Run) (events : List Event) (db : Db)
    → HasKeys db
    → HasKeys (checkpoint p clock run events db).1
unfolding checkpoint
save-HasKeys p clock run events db h = elim (Result-cases (assert_owns run.tenant_id run.id db)) [
  | inr (e, refused) ↦ rw (refused, checkpoint) h
  | inl (_, owned) ↦
      rw (owned, checkpoint)
        (transaction-HasKeys _ db
          (insert_events-HasKeys p run.tenant_id clock 1 events (update_run (clock 0) run db) (
            update_runs-HasKeys (is_run_of run.tenant_id run.id) (saved run (clock 0)) db
              (λ x y. refl) (λ x y. refl) h))
          h)
]

resolve-HasKeys :
    (t aid : String) (approved : Bool) (by note : String) (now : ℕ) (db : Db)
    → HasKeys db
    → HasKeys (resolve_approval t aid approved by note now db).1
unfolding resolve_approval
resolve-HasKeys t aid approved by note now db h = ground (
  arith,
  h.runs,
  h.effects,
  h.approvals,
  update_by-Distinct same_approval (is_approval aid) (decide (decision_status approved) by note now)
      db.approvals (λ x y. refl) (λ x y. refl) h.approvals,
)

ensure-HasKeys :
    (t name : String) (settings : Fields) (now : ℕ) (db : Db)
    → HasKeys db
    → HasKeys (ensure_tenant t name settings now db)
unfolding ensure_tenant
ensure-HasKeys t name settings now db h = ground (arith, h.runs, h.effects, h.approvals)

pub apply-HasKeys : (p : Patterns) (op : Op) (db : Db) → HasKeys db → HasKeys (apply p op db)
unfolding purge_event_payloads
apply-HasKeys p (Op.ensure t name settings now) db h = ensure-HasKeys t name settings now db h
apply-HasKeys p (Op.create run now) db h = create-HasKeys run now db h
apply-HasKeys p (Op.save clock run events) db h = save-HasKeys p clock run events db h
apply-HasKeys p (Op.cancel t id now) db h = cancel-HasKeys t id now db h
apply-HasKeys p (Op.effect t key id step tool v now) db h =
    effect-HasKeys t key id step tool v now db h
apply-HasKeys p (Op.request aid t id step approvers now) db h =
    request-HasKeys aid t id step approvers now db h
apply-HasKeys p (Op.resolve t aid approved by note now) db h =
    resolve-HasKeys t aid approved by note now db h
apply-HasKeys p (Op.purge t before) db h = record {
  runs = h.runs;
  approvals = h.approvals;
  effects = h.effects;
}

-- Whatever calls of the store are made, in whatever order, on a database in which no two runs share an
-- id, or a tenant and an idempotency key, no two approvals share an id and no two effects share a
-- key: the same holds after them.
pub apply_all-HasKeys :
    (p : Patterns) (ops : List Op) (db : Db) → HasKeys db → HasKeys (apply_all p ops db)
apply_all-HasKeys p [] db h = h
apply_all-HasKeys p (op ∷ rest) db h =
    apply_all-HasKeys p rest (apply p op db) (apply-HasKeys p op db h)
