-- ===== src/Store/Saving.antt =====
-- What a checkpoint of reference/bass/store.py that returns leaves: the run as it was given, to be read
-- back by its id.
use bass_platform.Base.{
  ℕ, String, ◌≡◌, refl, ap, ◌∙◌, true, Option, some, List, find_by-update_by, find_by_passes, inl,
  inr, ◌==◌, ==_refl, find_by, sym, eq_iff, Option-cases, Bool-cases, arith,
}
use bass_platform.Errors.{Result, ok, err, Result-cases}
use bass_platform.Models.{Run, Event}
use bass_platform.Redaction.{Patterns}
use bass_platform.Store.{Db, RunRow, is_run, is_run_of, assert_owns, transaction}
use bass_platform.Store.Rows.{identity_of, IsStored, runs-insert_events}
use bass_platform.Store.Runs.{load_run, option_run, row_to_run}
use bass_platform.Store.Trace.{checkpoint, insert_events, update_run, saved}

-- Two runs of one identity differ in what a checkpoint writes alone.
saved_run :
    (a b : Run)
    → identity_of a ≡ identity_of b
    → (saved b 0 (record { run = a; started_at = 0; updated_at = 0 })).run ≡ b
saved_run a b h =
    ap
      (λ (i : Run). record i {
        status = b.status;
        cursor_step = b.cursor_step;
        context = b.context;
        cost_usd = b.cost_usd;
        steps_used = b.steps_used;
        result = b.result;
      })
      h

row_to_run_own :
    (t : String) (run : Run) (r : RunRow)
    → r.run ≡ run
    → run.tenant_id ≡ t
    → row_to_run t r ≡ ok run
unfolding row_to_run
row_to_run_own t run r same own =
    let test : (r.run.tenant_id == t) ≡ true =
      ap (λ u. u == t) (ap (λ (i : Run). i.tenant_id) same ∙ own) ∙ ==_refl t in
    rw test (ap (λ (i : Run). ok i) same)

option_run_own :
    (t : String) (run : Run) (r : RunRow)
    → r.run ≡ run
    → run.tenant_id ≡ t
    → option_run t (some r) ≡ ok (some run)
option_run_own t run r same own = rw (row_to_run_own t run r same own, option_run) refl

-- The row that the UPDATE of a checkpoint leaves is read back as the run that was written.
load_run-updated :
    (now : ℕ) (run : Run) (db : Db)
    → IsStored run db
    → load_run run.tenant_id run.id (update_run now run db) ≡ ok (some run)
unfolding load_run
load_run-updated now run db (r, found, same) =
    let own : (r.run.tenant_id == run.tenant_id) ≡ true =
      rw (ap (λ (i : Run). i.tenant_id) same) (==_refl run.tenant_id) in
    let hit : is_run_of run.tenant_id run.id r ≡ true =
      rw (find_by_passes (is_run run.id) db.runs r found, own) refl in
    rw
      (find_by-update_by (is_run run.id) (is_run_of run.tenant_id run.id) (saved run now) db.runs
        (λ x. refl))
      (rw found (
        rw hit
          (option_run_own run.tenant_id run (saved run now r) (saved_run r.run run same) refl)))

runs_load : (t id : String) (d e : Db) → d.runs ≡ e.runs → load_run t id d ≡ load_run t id e
unfolding load_run
runs_load t id d e h = rw h refl

transaction_saves :
    (r : Result (Unit {0}) × Db) (db updated : Db) (t id : String) (v : Result (Option Run))
    → (transaction r db).0 ≡ ok tt
    → r.1.runs ≡ updated.runs
    → load_run t id updated ≡ v
    → load_run t id (transaction r db).1 ≡ v
transaction_saves (ok u, after) db updated t id v h same e = runs_load t id after updated same ∙ e
transaction_saves (err x, after) db updated t id v h same e = absurd (cc h)

-- A checkpoint that returns.
pub load_run-checkpoint :
    (p : Patterns) (clock : ℕ → ℕ) (run : Run) (events : List Event) (db : Db)
    → IsStored run db
    → (checkpoint p clock run events db).0 ≡ ok tt
    → load_run run.tenant_id run.id (checkpoint p clock run events db).1 ≡ ok (some run)
unfolding checkpoint
load_run-checkpoint p clock run events db stored h =
    elim (Result-cases (assert_owns run.tenant_id run.id db)) [
      | inr (e, refused) ↦
          let failed : (checkpoint p clock run events db).0 ≡ err e =
            rw (refused, checkpoint) refl in
          absurd (cc (h, failed))
      | inl (_, owned) ↦
          let updated = update_run (clock 0) run db in
          let inserted = insert_events p run.tenant_id clock 1 events updated in
          let returned : (transaction inserted db).0 ≡ ok tt = rw (owned, checkpoint) at h in
          rw (owned, checkpoint)
            (transaction_saves inserted db updated run.tenant_id run.id (ok (some run)) returned
              (runs-insert_events p run.tenant_id clock 1 events updated)
              (load_run-updated (clock 0) run db stored))
    ]

-- The row that `row_to_run` accepts is the tenant's.
row_to_run-own :
    (t : String) (r : RunRow) (run : Run)
    → option_run t (some r) ≡ ok (some run)
    → (r.run ≡ run) × (r.run.tenant_id ≡ t)
unfolding row_to_run
row_to_run-own t r run h = elim (Bool-cases (r.run.tenant_id == t)) [
  | inl own ↦
      let loaded = rw (own, option_run) at h in (cc loaded, (eq_iff r.run.tenant_id t).0 own)
  | inr foreign ↦ absurd (ground (arith, foreign))
]

-- A run that `load_run` returns is in the store, under its id and for its tenant.
pub load_run-IsStored :
    (t id : String) (db : Db) (run : Run)
    → load_run t id db ≡ ok (some run)
    → IsStored run db × (run.id ≡ id) × (run.tenant_id ≡ t)
unfolding load_run
load_run-IsStored t id db run h = elim (Option-cases (find_by (is_run id) db.runs)) [
  | inl missing ↦ let e = rw missing at h in absurd (cc e)
  | inr (r, found) ↦
      let (same, own) = row_to_run-own t r run (rw found at h) in
      let named : r.run.id ≡ id =
        (eq_iff r.run.id id).0 (find_by_passes (is_run id) db.runs r found) in
      let run_named = sym (ap (λ (i : Run). i.id) same) ∙ named in
      (
        (r, rw run_named found, ap identity_of same),
        run_named,
        sym (ap (λ (i : Run). i.tenant_id) same) ∙ own,
      )
]
