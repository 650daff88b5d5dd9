-- ===== src/Store/Trace.antt =====
-- reference/bass/store.py: the checkpoint, which advances a run and appends its events in one
-- transaction, and the trace that it leaves.
use bass_platform.Base.{
  ℕ, suc, String, Bool, ◌&&◌, List, [], ◌∷◌, keep, update_by, ltb, not, length, ◌==◌, if◌then◌else◌,
}
use bass_platform.Errors.{Kind, Result, ok, err, raised}
use bass_platform.Value.{Fields, is_empty}
use bass_platform.Models.{Run, Event}
use bass_platform.Redaction.{Patterns, redact_fields}
use bass_platform.Store.{transaction, EventRow, RunRow, Db, is_run_of, assert_owns, append_event}

-- The columns that `checkpoint` writes.
abbrev pub saved : Run → ℕ → RunRow → RunRow
saved run now r = record r {
  run = record (r.run) {
    status = run.status;
    cursor_step = run.cursor_step;
    context = run.context;
    cost_usd = run.cost_usd;
    steps_used = run.steps_used;
    result = run.result;
  };
  updated_at = now;
}

-- The loop over the events of a checkpoint; `clock i` is the time that the i-th insert reads.
unfoldable pub insert_events :
    Patterns → String → (ℕ → ℕ) → ℕ → List Event → Db → Result (Unit {0}) × Db
insert_events p tenant clock i [] db = (ok tt, db)
insert_events p tenant clock i (ev ∷ rest) db =
    let inserted =
      insert_events p tenant clock (suc i) rest
        (append_event (record ev { payload = redact_fields p ev.payload }) (clock i) db) in
    if ev.tenant_id == tenant
    then inserted
    else (raised Kind.tenant_isolation "event tenant does not match run tenant", db)

-- The UPDATE of a checkpoint.
abbrev pub update_run : ℕ → Run → Db → Db
update_run now run db = record db {
  runs = update_by (is_run_of run.tenant_id run.id) (saved run now) db.runs;
}

unfoldable pub checkpoint : Patterns → (ℕ → ℕ) → Run → List Event → Db → Result (Unit {0}) × Db
unfolding assert_owns insert_events
checkpoint p clock run events db = elim (assert_owns run.tenant_id run.id db) [
  | err e ↦ (err e, db)
  | ok _ ↦
      transaction (insert_events p run.tenant_id clock 1 events (update_run (clock 0) run db)) db
]

unfoldable pub list_events : String → String → Db → Result (List EventRow)
unfolding assert_owns
list_events tenant run_id db = elim (assert_owns tenant run_id db) [
  | err e ↦ err e
  | ok _ ↦
      ok
        (keep (λ (r : EventRow). r.event.run_id == run_id && r.event.tenant_id == tenant) db.events)
]

abbrev pub is_purged : String → ℕ → EventRow → Bool
is_purged tenant before r =
    r.event.tenant_id == tenant && (ltb r.created_at before && not (is_empty r.event.payload))

abbrev pub purge_row : EventRow → EventRow
purge_row r = record r { event = record (r.event) { payload = Fields.end } }

-- The number returned is that of the rows that the UPDATE matched.
unfoldable pub purge_event_payloads : String → ℕ → Db → ℕ × Db
purge_event_payloads tenant before db = (
  length (keep (is_purged tenant before) db.events),
  record db { events = update_by (is_purged tenant before) purge_row db.events },
)
