-- ===== src/Engine/Drive.antt =====
-- reference/bass/workflow.py: the retries of a step, its compensation, the loop over the steps, and
-- `resume`. The loop takes fuel, of which `resume` gives it more than the budget has steps.
use bass_platform.Base.{
  ℕ, zero, suc, ◌+◌, String, Bool, true, false, Option, none, some, [], ◌∷◌, lookup, ◌==◌,
  if◌then◌else◌, concat,
}
use bass_platform.Errors.{Kind, Raised, is_connector_error}
use bass_platform.Exec.{◌>>=◌, ◌>>◌, raise, reraise, pure, gets, modify, catch}
use bass_platform.Value.{Value, Fields, dict, get, int_value}
use bass_platform.Models.{Run, RunStatus, Step, Workflow, is_terminal}
use bass_platform.Budget.{Budget, Violation, violation_text}
use bass_platform.Budget
use bass_platform.Engine.{Config, M, emit, flush, count, set_run, set_status}
use bass_platform.Engine.Steps.{run_step}

abbrev pub is_policy_denied : Kind → Bool
is_policy_denied Kind.policy_denied = true
is_policy_denied _ = false

abbrev pub is_paused : Kind → Bool
is_paused Kind.paused = true
is_paused _ = false

abbrev pub never_raised : Raised
never_raised = record { kind = Kind.assertion_error; message = "" }

-- `run.context.get("result", run.context)`
abbrev pub result_of : Fields → Value
result_of context = elim (get "result" context) [ none ↦ Value.obj context | some v ↦ v ]

abbrev pub succeed : Run → Run
succeed run = record run { status = RunStatus.succeeded; result = some (result_of run.context) }

abbrev pub or_none : Option Value → Value
or_none none = Value.null
or_none (some v) = v

abbrev pub budget_of : Workflow → Budget
budget_of wf = record { max_usd = wf.budget_usd; max_steps = wf.max_steps }

abbrev pub first_step : Workflow → Option String → String
first_step wf none = wf.start
first_step wf (some id) = id

-- `if not step.compensate_with`, then `wf.steps.get(…)`
abbrev pub compensation : Workflow → Option String → Option Step
compensation wf none = none
compensation wf (some id) = if id == "" then none else lookup id wf.steps

module _ {W : Type 0} (c : Config W) where
  -- The handler of `_run_step_with_retry`: a connector's error is traced, and then `again`.
  abbrev pub on_attempt : Step → ℕ → (Raised → M W (Option String)) → Raised → M W (Option String)
  on_attempt step attempt again e =
      if is_connector_error e.kind
      then (emit "step_retry"
            (dict (
              ("step", Value.str step.id)
              ∷ ("attempt", int_value attempt)
              ∷ ("error", Value.str e.message)
              ∷ []))
            (some step.id) 0 "system"
          >> modify (count "steps.retries" (some ("step", step.id)))
          >> again e)
      else reraise e

  -- The loop of `_run_step_with_retry`, with the attempts left and the latest error.
  unfoldable pub retries : Step → ℕ → ℕ → Raised → M W (Option String)
  unfolding emit
  retries step zero attempt last = reraise last
  retries step (suc left) attempt last =
      catch (run_step c step) (on_attempt step attempt (retries step left (suc attempt)))

  unfoldable pub run_step_with_retry : Step → M W (Option String)
  unfolding retries
  run_step_with_retry step = retries step step.max_attempts 1 never_raised

  abbrev pub compensate_by : Step → Option Step → M W (Unit {0})
  compensate_by step none = pure tt
  compensate_by step (some comp) = do
    emit "compensation"
        (dict (("for_step", Value.str step.id) ∷ ("run_step", Value.str comp.id) ∷ []))
        (some comp.id) 0 "system"
    catch (run_step c comp >> pure tt) (λ e.
        emit "compensation_failed"
          (dict (("step", Value.str comp.id) ∷ ("error", Value.str e.message) ∷ [])) (some comp.id)
          0 "system")

  -- `_compensate`
  unfoldable pub compensate : Workflow → Step → M W (Unit {0})
  unfolding emit
  compensate wf step = compensate_by step (compensation wf step.compensate_with)

  -- The tail that the three failures share: the run fails, is saved, and is counted.
  unfoldable pub fail_run : String → String → String → M W (Unit {0})
  unfolding emit
  fail_run reason detail label = do
    modify (set_status RunStatus.failed)
    emit "error" (dict (("reason", Value.str reason) ∷ ("detail", Value.str detail) ∷ [])) none 0
        "system"
    flush c
    modify (count "runs.failed" (some ("reason", label)))

  -- The `except` clauses of `_drive`.
  unfoldable pub on_failure : Workflow → Step → Raised → M W (Option String)
  unfolding compensate
  on_failure wf step e =
      if is_policy_denied e.kind
      then fail_run "policy denied" e.message "policy" >> reraise e
      else if is_connector_error e.kind
      then compensate wf step >> fail_run "step failed" e.message "connector" >> reraise e
      else reraise e

  -- The success of the run, where no step follows.
  abbrev pub conclude : Option String → M W (Unit {0})
  conclude (some next) = pure tt
  conclude none = do
    modify (set_run succeed)
    run ← gets (λ s. s.run)
    emit "run_succeeded" (dict (("result", or_none run.result) ∷ [])) none 0 "system"

  -- What follows a step that returned.
  unfoldable pub advance : Option String → M W (Unit {0})
  unfolding emit
  advance next = do modify (set_run (λ r. record r { cursor_step = next })); conclude next; flush c

  abbrev pub known_step : String → Option Step → M W Step
  known_step id none = raise Kind.workflow_error (concat ("unknown step '" ∷ id ∷ "'" ∷ []))
  known_step id (some step) = pure step

  abbrev pub on_violation : Option Violation → M W (Unit {0})
  on_violation none = pure tt
  on_violation (some v) = do
    fail_run "budget exceeded" (violation_text c.host v) "budget"
    raise Kind.budget_exceeded (violation_text c.host v)

  -- The part of a round that counts: the step is entered, run, and its outcome is saved.
  unfoldable pub take_step : Workflow → Step → M W (Option String)
  unfolding emit
  take_step wf step = do
    modify (set_run (λ r. record r { steps_used = r.steps_used + 1 }))
    emit "state_transition"
        (dict (("entering_step", Value.str step.id) ∷ ("type", Value.str step.node_type) ∷ []))
        (some step.id) 0 "system"
    next ← catch (run_step_with_retry step) (on_failure wf step)
    advance next
    pure next

  -- One round of `_drive`: what it returns is the next step.
  unfoldable pub round : Workflow → Budget → String → M W (Option String)
  round wf budget id = do
    step ← known_step id (lookup id wf.steps)
    run ← gets (λ s. s.run)
    on_violation (Budget.check budget run)
    take_step wf step

  -- `_drive`
  unfoldable pub drive : ℕ → Workflow → Budget → Option String → M W (Unit {0})
  drive fuel wf budget none = pure tt
  drive zero wf budget (some id) = raise Kind.out_of_fuel ""
  drive (suc fuel) wf budget (some id) = do next ← round wf budget id; drive fuel wf budget next

  -- A pause ends the call without an error.
  abbrev pub on_pause : Raised → M W (Unit {0})
  on_pause e = if is_paused e.kind then modify (count "runs.paused" none) else reraise e

  -- `resume`; the run that it returns is the state's.
  unfoldable pub resume : Workflow → M W (Unit {0})
  unfolding drive
  resume wf = do
    run ← gets (λ s. s.run)
    (if is_terminal run.status
        then pure tt
        else (modify (set_status RunStatus.running)
            >> catch
                (drive (wf.max_steps + 2) wf (budget_of wf) (some (first_step wf run.cursor_step))
                  >> modify (count "runs.succeeded" none))
                on_pause))
