-- ===== src/Store.antt =====
-- reference/bass/store.py: the tables of `SQLiteStore`. A table is the list of its rows in rowid
-- order, and a database is the five tables with the next event number. A method is a function of
-- the database: each of its transactions holds the store's lock, and one that raises gives the
-- database back as it was. `json.dumps` and `json.loads` are the identity on `Value`; `time.time()`
-- and `new_id` are arguments.
pub mod Runs
pub mod Trace
pub mod Ledger
pub mod Approvals
pub mod History
pub mod Keys
pub mod Isolation
pub mod Audit
pub mod Durable
pub mod Rows
pub mod Opening
pub mod Resolution
pub mod Interface
pub mod Listing
pub mod Saving
pub mod Dedup
use bass_platform.Base.{
  ℕ, suc, String, Bool, ◌&&◌, Option, none, some, List, [], ◌∷◌, ◌++◌, find_by, ◌==◌, if◌then◌else◌,
  concat,
}
use bass_platform.Errors.{Kind, Result, ok, err, raised}
use bass_platform.Value.{Value, Fields}
use bass_platform.Models.{Run, Event, ApprovalStatus}

pub record TenantRow : Type 0 where
  pub id : String
  pub name : String
  pub settings : Fields
  pub created_at : ℕ

pub record RunRow : Type 0 where
  pub run : Run
  pub started_at : ℕ
  pub updated_at : ℕ

pub record EventRow : Type 0 where
  pub seq : ℕ
  pub event : Event
  pub created_at : ℕ

pub record ApprovalRow : Type 0 where
  pub id : String
  pub run_id : String
  pub tenant_id : String
  pub step_id : String
  pub status : ApprovalStatus
  pub approvers : List String
  pub decided_by : Option String
  pub note : Option String
  pub requested_at : ℕ
  pub decided_at : Option ℕ

pub record EffectRow : Type 0 where
  pub idempotency_key : String
  pub run_id : String
  pub tenant_id : String
  pub step_id : Option String
  pub tool : String
  pub result : Value
  pub created_at : ℕ

pub record Db : Type 0 where
  pub tenants : List TenantRow
  pub runs : List RunRow
  pub events : List EventRow
  pub next_seq : ℕ
  pub approvals : List ApprovalRow
  pub effects : List EffectRow

abbrev pub empty_db : Db
empty_db = record {
  tenants = [];
  runs = [];
  events = [];
  next_seq = 1;
  approvals = [];
  effects = [];
}

-- `with conn:` commits what the block leaves, or rolls back if it raises.
abbrev pub transaction {ℓ} : {A : Type ℓ} → Result A × Db → Db → Result A × Db
transaction (ok a, after) before = (ok a, after)
transaction (err e, after) before = (err e, before)

-- `WHERE id=?` and `WHERE id=? AND tenant_id=?` on `runs`
abbrev pub is_run : String → RunRow → Bool
is_run id r = r.run.id == id

abbrev pub is_run_of : String → String → RunRow → Bool
is_run_of tenant id r = r.run.id == id && r.run.tenant_id == tenant

-- `_assert_owns`
unfoldable pub assert_owns : String → String → Db → Result (Unit {0})
assert_owns tenant run_id db = elim (find_by (is_run run_id) db.runs) [
  | none ↦ ok tt
  | some r ↦
      if r.run.tenant_id == tenant
      then ok tt
      else raised Kind.tenant_isolation
          (concat ("run " ∷ run_id ∷ " belongs to a different tenant" ∷ []))
]

abbrev pub append_event : Event → ℕ → Db → Db
append_event ev now db = record db {
  events = db.events ++ record { seq = db.next_seq; event = ev; created_at = now } ∷ [];
  next_seq = suc db.next_seq;
}
