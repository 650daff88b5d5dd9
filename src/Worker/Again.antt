-- ===== src/Worker/Again.antt =====
-- A run that is resumed again by another process (reference/bass/runner.py), as Temporal does when it
-- executes its activity a second time.
use bass_platform.Base.{String, ◌≡◌, refl, ◌∙◌, sym, ap, ◌⊎◌, inl, inr, true, some, [], lookup}
use bass_platform.Errors.{Result, ok, err}
use bass_platform.Exec.{continue, gets}
use bass_platform.Models.{Run, Workflow, is_terminal}
use bass_platform.Store.{Db}
use bass_platform.Store.Runs.{load_run}
use bass_platform.Store.Saving.{load_run-IsStored}
use bass_platform.Engine.{Sys}
use bass_platform.Engine.Drive.{resume}
use bass_platform.Engine.Frame.Saved.{terminal_of_ended, Settled, Paused, resume_settles}
use bass_platform.Engine.Frame.History.{resume-Calls}
use bass_platform.Api.{async, resume_by_id}
use bass_platform.Worker.{SystemRunner, resume_with}

module _ {W : Type 0} (runner : SystemRunner W) where
  -- The process, with the run that it has loaded.
  abbrev pub begun : Run → Sys W → Sys W
  begun r s = record s { buffer = []; run = r; connectors = runner.connectors }

  resume_with_lem :
      (tenant id : String) (s : Sys W) (r : Run) (wf : Workflow)
      → load_run tenant id s.db ≡ ok (some r)
      → lookup r.workflow_id runner.workflows ≡ some wf
      → (let p = resume (async runner.config) wf (begun r s) in
          resume_with runner tenant id s ≡ continue p.0 (λ _. gets (λ s. s.run)) p.1)
  unfolding resume_with resume_by_id
  resume_with_lem tenant id s r wf loaded known = rw loaded (rw known refl)

  -- A run that has ended is returned as it is.
  ended_again :
      (tenant id : String) (s : Sys W) (r : Run) (wf : Workflow)
      → load_run tenant id s.db ≡ ok (some r)
      → lookup r.workflow_id runner.workflows ≡ some wf
      → is_terminal r.status ≡ true
      → resume_with runner tenant id s ≡ (ok r, begun r s)
  unfolding resume
  ended_again tenant id s r wf loaded known ended =
      resume_with_lem tenant id s r wf loaded known ∙ rw (ended, resume) refl

  -- What a call that returned leaves: the run that it returned is the one in memory.
  returned_run :
      (p : Result (Unit {0}) × Sys W) (r : Run)
      → (continue p.0 (λ _. gets (λ (s : Sys W). s.run)) p.1).0 ≡ ok r
      → (p.0 ≡ ok tt) × (p.1.run ≡ r)
  returned_run (ok _, s) r h = (refl, cc h)
  returned_run (err e, s) r h = absurd (cc h)

  continued_db :
      (p : Result (Unit {0}) × Sys W)
      → (continue p.0 (λ _. gets (λ (s : Sys W). s.run)) p.1).1.db ≡ p.1.db
  continued_db (ok _, s) = refl
  continued_db (err e, s) = refl

  -- The run is in the store as it was returned, ended, and of the same workflow.
  record IsEnded (tenant id : String) (before r : Run) (db : Db) : Type 0 where
    loaded : load_run tenant id db ≡ ok (some r)
    ended : is_terminal r.status ≡ true
    workflow_id : r.workflow_id ≡ before.workflow_id

  Settled-IsEnded :
      (tenant id : String) (s : Sys W) (r : Run) (wf : Workflow)
      → load_run tenant id s.db ≡ ok (some r)
      → Settled (async runner.config) wf (begun r s)
      → (let t = (resume (async runner.config) wf (begun r s)).1 in
          Paused (async runner.config) wf (begun r s) ⊎ IsEnded tenant id r t.run t.db)
  Settled-IsEnded tenant id s r wf loaded (inl (ended, same)) =
      inr (
        rw same (record { loaded = loaded; ended = terminal_of_ended _ ended; workflow_id = refl }))
  Settled-IsEnded tenant id s r wf loaded (inr (inl done)) =
      let (_, named, owned) = load_run-IsStored tenant id s.db r loaded in
      let calls = (resume-Calls (async runner.config) wf).at (begun r s) in
      let id_same = ap (λ (i : Run). i.id) calls.identity ∙ named in
      let tenant_same = calls.tenant_id ∙ owned in
      inr (record {
        loaded = rw (tenant_same, id_same) at done.saved.run;
        ended = rw done.status refl;
        workflow_id = ap (λ (i : Run). i.workflow_id) calls.identity;
      })
  Settled-IsEnded tenant id s r wf loaded (inr (inr paused)) = inl paused

  -- For a run that the store holds for the tenant and a workflow that the runner knows: where `resume`
  -- of the runner returns, either the drive was paused, or the run has ended, and whenever a process
  -- resumes it again on the database that is left, it returns the same run and leaves the database as
  -- it is.
  pub resume_with_again :
      (tenant id : String) (s : Sys W) (r : Run) (wf : Workflow) (out : Run)
      → load_run tenant id s.db ≡ ok (some r)
      → lookup r.workflow_id runner.workflows ≡ some wf
      → (resume_with runner tenant id s).0 ≡ ok out
      → Paused (async runner.config) wf (begun r s)
        ⊎ ((is_terminal out.status ≡ true)
            × ((later : Sys W)
                → later.db ≡ (resume_with runner tenant id s).1.db
                → ((resume_with runner tenant id later).0 ≡ ok out)
                  × ((resume_with runner tenant id later).1.db ≡ later.db)))
  resume_with_again tenant id s r wf out loaded known h =
      let p = resume (async runner.config) wf (begun r s) in
      let first = resume_with_lem tenant id s r wf loaded known in
      let (p_ok, same) = returned_run p out (rw first at h) in
      let stored = (load_run-IsStored tenant id s.db r loaded).0 in
      elim (Settled-IsEnded tenant id s r wf loaded
        (resume_settles (async runner.config) wf (begun r s) stored p_ok)) [
          | inl paused ↦ inl paused
          | inr e ↦ inr (
            rw⁻¹ same e.ended,
            λ later db_same.
                let db_kept =
                  db_same ∙ ap (λ (x : Result Run × Sys W). x.1.db) first ∙ continued_db p in
                let again =
                  ended_again tenant id later out wf (rw db_kept (rw⁻¹ same e.loaded))
                    (ap (λ (x : Run). lookup x.workflow_id runner.workflows) (sym same)
                      ∙ ap (λ k. lookup k runner.workflows) e.workflow_id
                      ∙ known)
                    (rw⁻¹ same e.ended) in
                (
                  ap (λ (x : Result Run × Sys W). x.0) again,
                  ap (λ (x : Result Run × Sys W). x.1.db) again,
                ),
          )
        ]
