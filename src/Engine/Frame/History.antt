-- ===== src/Engine/Frame/History.antt =====
-- What driving a run (reference/bass/workflow.py, `resume`) does to the store: calls of its methods,
-- each for the run's tenant.
use mathlib.Core.Path.{subst}
use bass_platform.Base.{
  ap, find_by, ℕ, zero, suc, ◌+◌, String, ◌≡◌, ◌≢◌, refl, ◌∙◌, sym, Option, none, some, List, [],
  ◌∷◌, All, lookup,
}
use bass_platform.Errors.{Kind, Raised}
use bass_platform.Exec.{modify, reraise, pure, gets, catch, ◌>>◌}
use bass_platform.Exec.Relates.{
  Relates, Relates-pure, Relates-raise, Relates-reraise, Relates-gets, Relates-if, Relates-modify,
  Relates-bind, Relates-catch,
}
use bass_platform.Models.{RunStatus, Step, Workflow, is_terminal}
use bass_platform.Redaction.{Patterns}
use bass_platform.Budget.{Budget, Violation, violation_text}
use bass_platform.Budget
use bass_platform.Store.{Db, EffectRow}
use bass_platform.Store.Durable.{find_effect-apply_all}
use bass_platform.Store.Ledger.{is_effect, get_effect}
use bass_platform.Store.Keys.{HasKeys, apply-HasKeys, apply_all-HasKeys}
use bass_platform.Store.Audit.{Extends, apply_all-Extends}
use bass_platform.Store.Isolation.{view, apply-view}
use bass_platform.Store.Rows.{identity_of}
use bass_platform.Store.History.{Op, op_tenant, apply, apply_all}
use bass_platform.Engine.{Config, Sys, M, set_status, set_run, count}
use bass_platform.Engine.Drive.{
  known_step, on_violation, take_step, round, drive, on_pause, resume, is_paused, budget_of,
  first_step,
}
use bass_platform.Engine.Frame.{Calls, Keeps, calls_order}
use bass_platform.Engine.Frame.Attempts.{counted, counted-Keeps, fail_run-Keeps}

module _ {W : Type 0} (c : Config W) where
  abbrev pub Calling : {A : Type 0} → M W A → Type 0
  Calling m = Relates (Calls W c.patterns) m

  kept : {A : Type 0} (m : M W A) → Keeps c.patterns m → Calling m
  kept m h = record { at = λ s. (h.at s).history }

  known_step-Calls : (id : String) (o : Option Step) → Calling (known_step c id o)
  known_step-Calls id none = Relates-raise calls_order Kind.workflow_error _
  known_step-Calls id (some step) = Relates-pure calls_order step

  on_violation-Calls : (v : Option Violation) → Calling (on_violation c v)
  on_violation-Calls none = Relates-pure calls_order tt
  on_violation-Calls (some v) =
      Relates-bind calls_order _ _
        (kept _ (fail_run-Keeps c "budget exceeded" (violation_text c.host v) "budget"))
        (λ _. Relates-raise calls_order Kind.budget_exceeded _)

  -- A change of the run that keeps the columns that identify it.
  no_call :
      (f : Sys W → Sys W)
      → ((s : Sys W) → (f s).run.tenant_id ≡ s.run.tenant_id)
      → ((s : Sys W) → identity_of (f s).run ≡ identity_of s.run)
      → ((s : Sys W) → (f s).db ≡ s.db)
      → Calling (modify f)
  no_call f tenant same db = Relates-modify calls_order f (λ s. record {
    tenant_id = tenant s;
    identity = same s;
    calls = [];
    by_tenant = tt;
    db = db s;
  })

  take_step-Calls : (wf : Workflow) (step : Step) → Calling (take_step c wf step)
  unfolding take_step
  take_step-Calls wf step =
      Relates-bind calls_order (modify (set_run (λ r. record r { steps_used = r.steps_used + 1 })))
        (λ _. counted c wf step)
        (no_call (set_run (λ r. record r { steps_used = r.steps_used + 1 })) (λ s. refl) (λ s. refl)
          (λ s. refl))
        (λ _. kept (counted c wf step) (counted-Keeps c wf step))

  pub round-Calls : (wf : Workflow) (b : Budget) (id : String) → Calling (round c wf b id)
  unfolding round
  round-Calls wf b id =
      Relates-bind calls_order (known_step c id (lookup id wf.steps)) _
        (known_step-Calls id (lookup id wf.steps))
        (λ step.
          Relates-bind calls_order (gets (λ s. s.run)) _ (Relates-gets calls_order (λ s. s.run))
            (λ run.
              Relates-bind calls_order (on_violation c (Budget.check b run))
                (λ _. take_step c wf step) (on_violation-Calls (Budget.check b run))
                (λ _. take_step-Calls wf step)))

  drive-Calls :
      (fuel : ℕ) (wf : Workflow) (b : Budget) (next : Option String)
      → Calling (drive c fuel wf b next)
  unfolding drive
  drive-Calls zero wf b none = Relates-pure calls_order tt
  drive-Calls (suc fuel) wf b none = Relates-pure calls_order tt
  drive-Calls zero wf b (some id) = Relates-raise calls_order Kind.out_of_fuel ""
  drive-Calls (suc fuel) wf b (some id) =
      Relates-bind calls_order (round c wf b id) (λ next. drive c fuel wf b next)
        (round-Calls wf b id) (λ next. drive-Calls fuel wf b next)

  on_pause-Calls : (e : Raised) → Calling (on_pause c e)
  on_pause-Calls e =
      Relates-if calls_order (is_paused e.kind) (modify (count "runs.paused" none)) (reraise e)
        (no_call (count "runs.paused" none) (λ s. refl) (λ s. refl) (λ s. refl))
        (Relates-reraise calls_order e)

  driven-Calls :
      (fuel : ℕ) (wf : Workflow) (b : Budget) (next : Option String)
      → Calling
          (catch (drive c fuel wf b next >> modify (count "runs.succeeded" none)) (on_pause c))
  driven-Calls fuel wf b next =
      Relates-catch calls_order (drive c fuel wf b next >> modify (count "runs.succeeded" none))
        (on_pause c)
        (Relates-bind calls_order (drive c fuel wf b next)
          (λ _. modify (count "runs.succeeded" none)) (drive-Calls fuel wf b next)
          (λ _. no_call (count "runs.succeeded" none) (λ s. refl) (λ s. refl) (λ s. refl)))
        on_pause-Calls

  pub resume-Calls : (wf : Workflow) → Calling (resume c wf)
  unfolding resume
  resume-Calls wf =
      Relates-bind calls_order (gets (λ s. s.run)) _ (Relates-gets calls_order (λ s. s.run)) (λ run.
        Relates-if calls_order (is_terminal run.status) (pure tt) _ (Relates-pure calls_order tt) (
          Relates-bind calls_order (modify (set_status RunStatus.running)) _
            (no_call (set_status RunStatus.running) (λ s. refl) (λ s. refl) (λ s. refl))
            (λ _.
              driven-Calls (wf.max_steps + 2) wf (budget_of wf)
                (some (first_step wf run.cursor_step)))))

module _ (p : Patterns) (t u : String) (foreign : t ≢ u) where
  history_isolates :
      (ops : List Op) (db : Db)
      → All (λ op. op_tenant op ≡ t) ops
      → HasKeys db
      → view u (apply_all p ops db) ≡ view u db
  history_isolates [] db own keys = refl
  history_isolates (op ∷ rest) db own keys =
      history_isolates rest (apply p op db) own.1 (apply-HasKeys p op db keys)
      ∙ apply-view p op u db (λ same. foreign (sym own.0 ∙ same)) keys

module _ {W : Type 0} (c : Config W) where
  -- However `resume` ends, what it has done to the database is a sequence of calls of the store's
  -- methods, each for the tenant of the run, and the run still belongs to that tenant.
  pub resume_is_history :
      (wf : Workflow) (s : Sys W)
      → let done = (resume c wf s).1 in
        (done.run.tenant_id ≡ s.run.tenant_id)
        × (ops : List Op) × All (λ op. op_tenant op ≡ s.run.tenant_id) ops
        × (done.db ≡ apply_all c.patterns ops s.db)
  resume_is_history wf s =
      let h = (resume-Calls c wf).at s in (h.tenant_id, h.calls, h.by_tenant, h.db)

  -- However `resume` ends, the rows of every tenant but the run's are what they were: its runs, its
  -- events, its approvals and its effects. The keys of the tables that were distinct stay distinct.
  pub resume_isolates :
      (wf : Workflow) (s : Sys W) (u : String)
      → s.run.tenant_id ≢ u
      → HasKeys s.db
      → let done = (resume c wf s).1 in HasKeys done.db × (view u done.db ≡ view u s.db)
  resume_isolates wf s u foreign keys =
      let h = (resume-Calls c wf).at s in
      (
        subst HasKeys (sym h.db) (apply_all-HasKeys c.patterns h.calls s.db keys),
        ap (view u) h.db
            ∙ history_isolates c.patterns s.run.tenant_id u foreign h.calls s.db h.by_tenant keys,
      )

  -- For a key that the ledger held before `resume`, `get_effect` answers every tenant after `resume`,
  -- however it ends, as it did before.
  pub resume_keeps_effects :
      (wf : Workflow) (s : Sys W) (u key : String) (r : EffectRow)
      → find_by (is_effect key) s.db.effects ≡ some r
      → get_effect u key (resume c wf s).1.db ≡ get_effect u key s.db
  unfolding get_effect
  resume_keeps_effects wf s u key r held =
      let h = (resume-Calls c wf).at s in
      let after =
        ap (λ db. find_by (is_effect key) db.effects) h.db
        ∙ find_effect-apply_all c.patterns h.calls key r s.db held in
      rw (after, held, get_effect) refl

  -- However `resume` ends, the trail of events has only grown: no event is removed, reordered or
  -- rewritten but for its payload, and the new events are numbered one by one from the next number.
  pub resume-Extends : (wf : Workflow) (s : Sys W) → Extends s.db (resume c wf s).1.db
  resume-Extends wf s =
      let h = (resume-Calls c wf).at s in
      subst (Extends s.db) (sym h.db) (apply_all-Extends c.patterns h.calls s.db)
