-- ===== src/Store/Runs.antt =====
-- reference/bass/store.py: the tenants, and the life of a run's row: created once, read back,
-- listed, canceled.
use bass_platform.Base.{
  sort_by, ℕ, String, Bool, true, false, ◌&&◌, ◌||◌, Option, none, some, List, [], ◌∷◌, ◌++◌, ltb,
  not, take, keep, find_by, update_by, ◌==◌, if◌then◌else◌,
}
use bass_platform.Errors.{Kind, Result, ok, err, raised}
use bass_platform.Value.{Fields}
use bass_platform.Models.{Run, RunStatus, Event, status_value, is_terminal}
use bass_platform.Store.{TenantRow, RunRow, Db, is_run, is_run_of, assert_owns, append_event}

abbrev pub is_key_of : String → String → RunRow → Bool
is_key_of tenant key r = r.run.tenant_id == tenant && r.run.idempotency_key == key

unfoldable pub ensure_tenant : String → String → Fields → ℕ → Db → Db
ensure_tenant id name settings now db = elim (find_by (λ (t : TenantRow). t.id == id) db.tenants) [
  | none ↦ record db {
    tenants =
        db.tenants ++ record { id = id; name = name; settings = settings; created_at = now } ∷ [];
  }
  | some _ ↦ record db {
    tenants = update_by (λ t. t.id == id) (λ t. record t { name = name }) db.tenants;
  }
]

-- `_row_to_run`
unfoldable pub row_to_run : String → RunRow → Result Run
row_to_run tenant r =
    if r.run.tenant_id == tenant
    then ok r.run
    else raised Kind.tenant_isolation "run belongs to a different tenant"

abbrev pub option_run : String → Option RunRow → Result (Option Run)
option_run tenant none = ok none
option_run tenant (some r) = elim (row_to_run tenant r) [ ok run ↦ ok (some run) | err e ↦ err e ]

unfoldable pub load_run : String → String → Db → Result (Option Run)
unfolding row_to_run
load_run tenant id db = option_run tenant (find_by (is_run id) db.runs)

-- `_load_run_by_key`
unfoldable pub load_run_by_key : String → String → Db → Result (Option Run)
unfolding row_to_run
load_run_by_key tenant key db = option_run tenant (find_by (is_key_of tenant key) db.runs)

-- The row that `create_or_get_run` inserts: `result_json` is NULL whatever the run holds.
abbrev pub new_row : Run → ℕ → RunRow
new_row run now = record { run = record run { result = none }; started_at = now; updated_at = now }

-- The primary key and the UNIQUE constraint, which `INSERT OR IGNORE` tests alike.
abbrev pub conflicts : Run → RunRow → Bool
conflicts run r = is_run run.id r || is_key_of run.tenant_id run.idempotency_key r

abbrev pub existing_run : Result (Option Run) → Result (Run × Bool)
existing_run (ok (some run)) = ok (run, false)
existing_run (ok none) = raised Kind.assertion_error ""
existing_run (err e) = err e

unfoldable pub create_or_get_run : Run → ℕ → Db → Result (Run × Bool) × Db
unfolding load_run_by_key
create_or_get_run run now db = elim (find_by (conflicts run) db.runs) [
  | none ↦ (ok (run, true), record db { runs = db.runs ++ new_row run now ∷ [] })
  | some _ ↦ (existing_run (load_run_by_key run.tenant_id run.idempotency_key db), db)
]

-- `if status:` adds the condition on the status, so an empty text adds none.
abbrev pub has_status : Option String → RunRow → Bool
has_status none r = true
has_status (some s) r = s == "" || status_value r.run.status == s

abbrev pub rows_to_runs : String → List RunRow → Result (List Run)
rows_to_runs tenant [] = ok []
rows_to_runs tenant (r ∷ rest) = elim (row_to_run tenant r) [
  | ok run ↦ elim (rows_to_runs tenant rest) [ ok runs ↦ ok (run ∷ runs) | err e ↦ err e ]
  | err e ↦ err e
]

-- `ORDER BY started_at DESC LIMIT`, with the engine's choice between rows that started together
module _ (before : RunRow → RunRow → Bool) where
  abbrev pub newer : RunRow → RunRow → Bool
  newer r q =
      ltb q.started_at r.started_at || (not (ltb r.started_at q.started_at) && not (before q r))

  unfoldable pub list_runs : String → ℕ → Option String → Db → Result (List Run)
  unfolding row_to_run
  list_runs tenant limit status db = rows_to_runs tenant (
      take limit (
        sort_by newer
          (keep (λ (r : RunRow). r.run.tenant_id == tenant && has_status status r) db.runs)))

abbrev pub canceled_event : String → String → Event
canceled_event tenant run_id = record {
  run_id = run_id;
  tenant_id = tenant;
  type = "run_canceled";
  payload = Fields.end;
  step_id = none;
  actor = "user";
  cost_usd = 0;
}

abbrev pub set_canceled : ℕ → RunRow → RunRow
set_canceled now r = record r {
  run = record (r.run) { status = RunStatus.canceled };
  updated_at = now;
}

unfoldable pub cancel_run : String → String → ℕ → Db → Result Bool × Db
unfolding assert_owns
cancel_run tenant run_id now db = elim (find_by (is_run_of tenant run_id) db.runs) [
  | none ↦ (elim (assert_owns tenant run_id db) [ ok _ ↦ ok false | err e ↦ err e ], db)
  | some r ↦ if is_terminal r.run.status then (ok false, db) else (
    ok true,
    append_event (canceled_event tenant run_id) now
        (record db { runs = update_by (is_run_of tenant run_id) (set_canceled now) db.runs }),
  )
]
