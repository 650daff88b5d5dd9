-- ===== src/Engine/Frame/Rounds.antt =====
-- The step budget of reference/bass/workflow.py, `_drive`: every round adds one to the steps used, so
-- the number of rounds is bounded, and the fuel that the model gives is enough.
use bass_platform.Base.{
  ℕ, zero, suc, ◌+◌, ◌≤◌, ◌<◌, String, ◌≡◌, refl, Option, none, some, lookup, arith, inl, inr, ◌⊎◌,
  Option-cases, Bool-cases,
}
use bass_platform.Errors.{Kind, Raised, Result, ok, err}
use bass_platform.Exec.{continue, handled, ◌>>=◌, modify, raise}
use bass_platform.Models.{Run, RunStatus, Step, Workflow, is_terminal}
use bass_platform.Budget.{Budget, Violation}
use bass_platform.Budget
use bass_platform.Engine.{Config, Sys, M, set_run, count, set_status}
use bass_platform.Engine.Drive.{
  fail_run, take_step, budget_of, first_step, on_pause, on_violation, round, drive, resume,
}
use bass_platform.Engine.Frame.Attempts.{counted-Keeps, fail_run-Keeps}

module _ {W : Type 0} (c : Config W) where
  take_step_counts :
      (wf : Workflow) (step : Step) (s : Sys W)
      → (take_step c wf step s).1.run.steps_used ≡ s.run.steps_used + 1
  unfolding take_step
  take_step_counts wf step s =
      ((counted-Keeps c wf step).at
        (set_run (λ r. record r { steps_used = r.steps_used + 1 }) s)).steps_used

  -- A call that ends in a raise.
  abbrev pub Raises : ℕ → Result (Option String) × Sys W → Type 0
  Raises used p = (e : Raised) × (p.0 ≡ err e) × (p.1.run.steps_used ≡ used)

  Raises-after :
      (r : Result (Unit {0})) (t : Sys W) (used : ℕ) (kind : Kind) (m : String)
      (k : Unit {0} → M W (Option String))
      → t.run.steps_used ≡ used
      → Raises used (let p = continue r (λ _. raise {A = Unit {0}} kind m) t in continue p.0 k p.1)
  Raises-after (ok _) t used kind m k h = (_, refl, h)
  Raises-after (err e) t used kind m k h = (e, refl, h)

  -- A run that is over its budget raises, and counts no step.
  pub over_budget :
      (v : Violation) (k : Unit {0} → M W (Option String)) (s : Sys W)
      → Raises s.run.steps_used ((on_violation c (some v) >>= k) s)
  over_budget v k s =
      let fail = fail_run c "budget exceeded" (Budget.violation_text c.host v) "budget" in
      Raises-after (fail s).0 (fail s).1 s.run.steps_used Kind.budget_exceeded
        (Budget.violation_text c.host v) k
        ((fail_run-Keeps c "budget exceeded" (Budget.violation_text c.host v) "budget").at
          s).steps_used

  within_steps : (b : Budget) (run : Run) → Budget.check b run ≡ none → run.steps_used ≤ b.max_steps
  unfolding Budget.check
  within_steps b run h = ground arith

  -- A round raises and leaves the count, or it is within the step budget and counts one.
  round_counts :
      (wf : Workflow) (b : Budget) (id : String) (s : Sys W)
      → Raises s.run.steps_used (round c wf b id s)
        ⊎ ((s.run.steps_used ≤ b.max_steps)
            × ((round c wf b id s).1.run.steps_used ≡ s.run.steps_used + 1))
  unfolding round
  round_counts wf b id s = elim (Option-cases (lookup id wf.steps)) [
    | inl missing ↦ rw (missing, round) (inl (_, refl, refl))
    | inr (step, found) ↦
        rw (found, round)
          (elim (Option-cases (Budget.check b s.run)) [
            | inr (v, over) ↦ rw over (inl (over_budget v (λ _. take_step c wf step) s))
            | inl inside ↦ rw inside (inr (within_steps b s.run inside, take_step_counts wf step s))
          ])
  ]

  -- A fuel that covers the steps that the budget leaves.
  abbrev pub Covers : ℕ → Budget → Sys W → Type 0
  Covers fuel b s = (0 < fuel) × (b.max_steps + 1 < fuel + s.run.steps_used)

  continue_same :
      (r : Result (Option String)) (t : Sys W) (m n : Option String → M W (Unit {0}))
      → ((next : Option String) → m next t ≡ n next t)
      → continue r m t ≡ continue r n t
  continue_same (ok next) t m n h = h next
  continue_same (err e) t m n h = refl

  -- The loop does not depend on its fuel: any two amounts that cover the steps that the budget
  -- leaves give the same result and the same state.
  pub drive_any_fuel :
      (f g : ℕ) (wf : Workflow) (b : Budget) (next : Option String) (s : Sys W)
      → Covers f b s
      → Covers g b s
      → drive c f wf b next s ≡ drive c g wf b next s
  unfolding drive
  drive_any_fuel zero g wf b next s h k = absurd (omega arith)
  drive_any_fuel (suc f) zero wf b next s h k = absurd (omega arith)
  drive_any_fuel (suc f) (suc g) wf b none s h k = refl
  drive_any_fuel (suc f) (suc g) wf b (some id) s h k = elim (round_counts wf b id s) [
    | inl (e, ended, _) ↦ rw ended
    | inr (left, counts) ↦
        continue_same (round c wf b id s).0 (round c wf b id s).1 (drive c f wf b) (drive c g wf b)
          λ next.
            drive_any_fuel f g wf b next (round c wf b id s).1 (omega arith, omega arith)
              (omega arith, omega arith)
  ]

  continue_bound :
      (r : Result (Option String)) (t : Sys W) (m : Option String → M W (Unit {0})) (most : ℕ)
      → t.run.steps_used ≤ most
      → ((next : Option String) → (m next t).1.run.steps_used ≤ most)
      → (continue r m t).1.run.steps_used ≤ most
  continue_bound (ok next) t m most le h = h next
  continue_bound (err e) t m most le h = le

  drive_bound :
      (f : ℕ) (wf : Workflow) (b : Budget) (next : Option String) (s : Sys W)
      → s.run.steps_used ≤ b.max_steps + 1
      → (drive c f wf b next s).1.run.steps_used ≤ b.max_steps + 1
  unfolding drive
  drive_bound zero wf b none s h = h
  drive_bound zero wf b (some id) s h = h
  drive_bound (suc f) wf b none s h = h
  drive_bound (suc f) wf b (some id) s h = elim (round_counts wf b id s) [
    | inl (e, ended, same) ↦ rw ended (rw same h)
    | inr (left, counts) ↦
        continue_bound (round c wf b id s).0 (round c wf b id s).1 (drive c f wf b)
          (b.max_steps + 1) (omega arith)
          (λ next. drive_bound f wf b next (round c wf b id s).1 (omega arith))
  ]

  paused_bound :
      (r : Result (Unit {0})) (t : Sys W) (most : ℕ)
      → t.run.steps_used ≤ most
      → (handled
          (continue r (λ _. modify (count "runs.succeeded" none)) t).0
          (on_pause c)
          (continue r (λ _. modify (count "runs.succeeded" none)) t).1).1.run.steps_used
        ≤ most
  paused_bound (ok _) t most h = h
  paused_bound (err e) t most h = ground arith

  -- However `resume` ends, the run has used at most one step more than the workflow's ceiling, if it
  -- had not used more before.
  pub resume_steps_bound :
      (wf : Workflow) (s : Sys W)
      → s.run.steps_used ≤ wf.max_steps + 1
      → (resume c wf s).1.run.steps_used ≤ wf.max_steps + 1
  unfolding resume
  resume_steps_bound wf s h = elim (Bool-cases (is_terminal s.run.status)) [
    | inl done ↦ rw (done, resume) h
    | inr live ↦
        let d =
          drive c (wf.max_steps + 2) wf (budget_of wf) (some (first_step wf s.run.cursor_step))
            (set_status RunStatus.running s) in
        rw (live, resume)
          (paused_bound d.0 d.1 (wf.max_steps + 1) (
            drive_bound (wf.max_steps + 2) wf (budget_of wf)
              (some (first_step wf s.run.cursor_step)) (set_status RunStatus.running s) h))
  ]
