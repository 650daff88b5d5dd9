-- ===== src/Store/Rows.antt =====
-- What the calls of reference/bass/store.py do to the table of runs: each leaves it, adds a row, or
-- updates rows outside the columns that identify a run.
use bass_platform.Base.{
  ◌∙◌, when_row, ℕ, suc, String, ◌≡◌, refl, Bool, none, some, List, [], ◌∷◌, ◌++◌, find_by,
  find_by-append, find_by-update_by, update_by, arith, Option-cases, Bool-cases, inl, inr,
}
use bass_platform.Errors.{Result, ok, err, Result-cases}
use bass_platform.Models.{Run, RunStatus, Event, is_terminal}
use bass_platform.Value.{Fields}
use bass_platform.Redaction.{Patterns, redact_fields}
use bass_platform.Store.{transaction, RunRow, Db, append_event, assert_owns, is_run, is_run_of}
use bass_platform.Store.Runs.{
  ensure_tenant, create_or_get_run, cancel_run, new_row, conflicts, set_canceled,
}
use bass_platform.Store.Trace.{insert_events, checkpoint, purge_event_payloads, update_run, saved}
use bass_platform.Store.Ledger.{record_effect}
use bass_platform.Store.Approvals.{create_approval, resolve_approval}
use bass_platform.Store.History.{Op, apply, apply_all}

-- A run without the columns that a checkpoint writes.
abbrev pub identity_of : Run → Run
identity_of run = record run {
  status = RunStatus.pending;
  cursor_step = none;
  context = Fields.end;
  cost_usd = 0;
  steps_used = 0;
  result = none;
}

-- What a call does to the table of runs.
pub data RunsChange (xs ys : List RunRow) : Type 0 where
  same : ys ≡ xs → RunsChange xs ys
  added : (r : RunRow) → ys ≡ xs ++ r ∷ [] → RunsChange xs ys
  updated :
      (p : RunRow → Bool) (f : RunRow → RunRow)
      → ((r : RunRow) → (f r).run.id ≡ r.run.id)
      → ((r : RunRow) → (f r).run.tenant_id ≡ r.run.tenant_id)
      → ((r : RunRow) → (f r).run.idempotency_key ≡ r.run.idempotency_key)
      → ((r : RunRow) → identity_of (f r).run ≡ identity_of r.run)
      → ys ≡ update_by p f xs
      → RunsChange xs ys

pub runs-insert_events :
    (p : Patterns) (t : String) (clock : ℕ → ℕ) (i : ℕ) (events : List Event) (db : Db)
    → (insert_events p t clock i events db).1.runs ≡ db.runs
unfolding insert_events
runs-insert_events p t clock i [] db = refl
runs-insert_events p t clock i (ev ∷ rest) db = ground (
  arith,
  runs-insert_events p t clock (suc i) rest
      (append_event (record ev { payload = redact_fields p ev.payload }) (clock i) db),
)

saved_change :
    (now : ℕ) (run : Run) (db : Db) (r : Result (Unit {0}) × Db)
    → r.1.runs ≡ (update_run now run db).runs
    → RunsChange db.runs (transaction r db).1.runs
saved_change now run db (ok _, after) e =
    RunsChange.updated (is_run_of run.tenant_id run.id) (saved run now) (λ r. refl) (λ r. refl)
      (λ r. refl) (λ r. refl) e
saved_change now run db (err _, after) e = RunsChange.same refl

save_change :
    (p : Patterns) (clock : ℕ → ℕ) (run : Run) (events : List Event) (db : Db)
    → RunsChange db.runs (checkpoint p clock run events db).1.runs
unfolding checkpoint
save_change p clock run events db = elim (Result-cases (assert_owns run.tenant_id run.id db)) [
  | inr (e, refused) ↦ rw (refused, checkpoint) (RunsChange.same refl)
  | inl (_, owned) ↦
      rw (owned, checkpoint)
        (saved_change (clock 0) run db _
          (runs-insert_events p run.tenant_id clock 1 events (update_run (clock 0) run db)))
]

create_change :
    (run : Run) (now : ℕ) (db : Db) → RunsChange db.runs (create_or_get_run run now db).1.runs
unfolding create_or_get_run
create_change run now db = elim (Option-cases (find_by (conflicts run) db.runs)) [
  | inr (r, e) ↦ rw (e, create_or_get_run) (RunsChange.same refl)
  | inl e ↦ rw (e, create_or_get_run) (RunsChange.added (new_row run now) refl)
]

cancel_change :
    (t id : String) (now : ℕ) (db : Db) → RunsChange db.runs (cancel_run t id now db).1.runs
unfolding cancel_run
cancel_change t id now db = elim (Option-cases (find_by (is_run_of t id) db.runs)) [
  | inl e ↦ rw (e, cancel_run) (RunsChange.same refl)
  | inr (r, e) ↦ elim (Bool-cases (is_terminal r.run.status)) [
    | inl done ↦ rw (e, done, cancel_run) (RunsChange.same refl)
    | inr live ↦
        rw (e, live, cancel_run)
          (RunsChange.updated (is_run_of t id) (set_canceled now) (λ r. refl) (λ r. refl)
            (λ r. refl) (λ r. refl) refl)
  ]
]

pub apply_change : (p : Patterns) (op : Op) (db : Db) → RunsChange db.runs (apply p op db).runs
unfolding purge_event_payloads ensure_tenant record_effect create_approval resolve_approval
apply_change p (Op.create run now) db = create_change run now db
apply_change p (Op.save clock run events) db = save_change p clock run events db
apply_change p (Op.cancel t id now) db = cancel_change t id now db
apply_change p (Op.ensure t name settings now) db = RunsChange.same (ground arith)
apply_change p (Op.effect t key id step tool v now) db = RunsChange.same (ground arith)
apply_change p (Op.request aid t id step approvers now) db = RunsChange.same (ground arith)
apply_change p (Op.resolve t aid approved by note now) db = RunsChange.same (ground arith)
apply_change p (Op.purge t before) db = RunsChange.same refl

-- The row of a run is there, under its id.
abbrev pub IsStored : Run → Db → Type 0
IsStored run db =
    (r : RunRow) × (find_by (is_run run.id) db.runs ≡ some r)
    × (identity_of r.run ≡ identity_of run)

change-IsStored :
    (run : Run) (xs ys : List RunRow)
    → RunsChange xs ys
    → (r : RunRow) × (find_by (is_run run.id) xs ≡ some r) × (identity_of r.run ≡ identity_of run)
    → (r : RunRow) × (find_by (is_run run.id) ys ≡ some r) × (identity_of r.run ≡ identity_of run)
change-IsStored run xs ys (RunsChange.same e) h = rw e h
change-IsStored run xs ys (RunsChange.added r e) h =
    (h.0, rw e (rw (find_by-append (is_run run.id) xs (r ∷ [])) (rw h.1)), h.2)
change-IsStored run xs ys (RunsChange.updated p f fid ft fk fi e) h = (
  when_row p f h.0,
  rw e (rw (find_by-update_by (is_run run.id) p f xs (λ r. ground (arith, fid r))) (rw h.1)),
  elim (Bool-cases (p h.0)) [ inl changed ↦ rw changed (fi h.0 ∙ h.2) | inr kept ↦ rw kept h.2 ],
)

pub apply_all-IsStored :
    (p : Patterns) (ops : List Op) (run : Run) (db : Db)
    → IsStored run db
    → IsStored run (apply_all p ops db)
apply_all-IsStored p [] run db h = h
apply_all-IsStored p (op ∷ rest) run db h =
    apply_all-IsStored p rest run (apply p op db)
      (change-IsStored run db.runs (apply p op db).runs (apply_change p op db) h)
