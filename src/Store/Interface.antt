-- ===== src/Store/Interface.antt =====
-- reference/bass/store.py: the protocol `Store`, as a record of its methods, and the two stores that
-- `open_store` opens. `ping` reaches the server alone, and is left out.
use bass_platform.Base.{ℕ, String, Bool, Option, List}
use bass_platform.Errors.{Result}
use bass_platform.Value.{Value, Fields}
use bass_platform.Models.{Run, Event, ApprovalStatus}
use bass_platform.Redaction.{Patterns}
use bass_platform.Store.{Db, RunRow, EventRow, ApprovalRow}
use bass_platform.Store.Opening.{Backend}
use bass_platform.Store.Runs
use bass_platform.Store.Trace
use bass_platform.Store.Ledger
use bass_platform.Store.Approvals
use bass_platform.Postgres

-- Times that a method reads are arguments, and so is a new id.
pub record Methods : Type 0 where
  pub ensure_tenant : String → String → Fields → ℕ → Db → Db
  pub create_or_get_run : Run → ℕ → Db → Result (Run × Bool) × Db
  pub load_run : String → String → Db → Result (Option Run)
  pub list_runs : String → ℕ → Option String → Db → Result (List Run)
  pub checkpoint : (ℕ → ℕ) → Run → List Event → Db → Result (Unit {0}) × Db
  pub list_events : String → String → Db → Result (List EventRow)
  pub get_effect : String → String → Db → Result (Option Value)
  pub record_effect : String → String → String → Option String → String → Value → ℕ → Db → Db
  pub create_approval :
      String → String → String → String → List String → ℕ → Db → Result (Unit {0}) × Db
  pub resolve_approval : String → String → Bool → String → String → ℕ → Db → Result (Unit {0}) × Db
  pub latest_approval : String → String → String → Db → Option (String × ApprovalStatus)
  pub cancel_run : String → String → ℕ → Db → Result Bool × Db
  pub purge_event_payloads : String → ℕ → Db → ℕ × Db

-- A database engine's choices between rows that its queries hold equal.
pub record Choices : Type 0 where
  pub run_before : RunRow → RunRow → Bool
  pub approval_before : ApprovalRow → ApprovalRow → Bool

abbrev pub sqlite_store : Choices → Patterns → Methods
sqlite_store choices p = record {
  ensure_tenant = Runs.ensure_tenant;
  create_or_get_run = Runs.create_or_get_run;
  load_run = Runs.load_run;
  list_runs = Runs.list_runs choices.run_before;
  checkpoint = Trace.checkpoint p;
  list_events = Trace.list_events;
  get_effect = Ledger.get_effect;
  record_effect = Ledger.record_effect;
  create_approval = Approvals.create_approval;
  resolve_approval = Approvals.resolve_approval;
  latest_approval = Approvals.latest_approval;
  cancel_run = Runs.cancel_run;
  purge_event_payloads = Trace.purge_event_payloads;
}

abbrev pub postgres_store : Choices → Patterns → Methods
postgres_store choices p = record {
  ensure_tenant = Postgres.ensure_tenant;
  create_or_get_run = Postgres.create_or_get_run;
  load_run = Postgres.load_run;
  list_runs = Postgres.list_runs choices.run_before;
  checkpoint = Postgres.checkpoint p;
  list_events = Postgres.list_events;
  get_effect = Postgres.get_effect;
  record_effect = Postgres.record_effect;
  create_approval = Postgres.create_approval;
  resolve_approval = Postgres.resolve_approval;
  latest_approval = Postgres.latest_approval choices.approval_before;
  cancel_run = Postgres.cancel_run;
  purge_event_payloads = Postgres.purge_event_payloads;
}

-- The methods of the store that was opened.
abbrev pub opened : Choices → Patterns → Backend → Methods
opened choices p (Backend.postgres url) = postgres_store choices p
opened choices p (Backend.sqlite path) = sqlite_store choices p
