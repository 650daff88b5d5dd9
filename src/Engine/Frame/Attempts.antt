-- ===== src/Engine/Frame/Attempts.antt =====
-- One step of the loop of `_drive`, its retries, its failure and its last checkpoint included, keeps
-- the run's identity; only the loop counts its steps.
use bass_platform.Base.{ℕ, zero, suc, String, refl, Option, none, some, [], ◌∷◌}
use bass_platform.Errors.{Raised}
use bass_platform.Exec.{◌>>=◌, ◌>>◌, catch, gets, modify, pure}
use bass_platform.Models.{RunStatus, Step, Workflow}
use bass_platform.Value.{Value, Fields, dict}
use bass_platform.Engine.{Config, M, emit, flush, set_run}
use bass_platform.Engine.Steps.{run_step}
use bass_platform.Engine.Drive.{
  retries, run_step_with_retry, compensate, compensate_by, fail_run, on_failure, advance, or_none,
  never_raised, succeed, conclude,
}
use bass_platform.Engine.Frame.{
  then-Keeps, status-Keeps, emit-Keeps, count-Keeps, gets-Keeps, Keeps, keeps_rules, bind-Keeps,
  pure-Keeps, catch-Keeps,
}
use bass_platform.Engine.Frame.Actions.{flush-Keeps}
use bass_platform.Engine.Frame.Nodes.{run_step-Keeps}

module _ {W : Type 0} (c : Config W) where
  retries-Keeps :
      (step : Step) (left attempt : ℕ) (last : Raised)
      → Keeps c.patterns (retries c step left attempt last)
  unfolding retries
  retries-Keeps step zero attempt last = search keeps_rules
  retries-Keeps step (suc left) attempt last =
      let ih = retries-Keeps step left (suc attempt) in
      catch-Keeps (run_step c step) _ (run_step-Keeps c step)
        (λ e. search (keeps_rules, ih) depth 20)

  compensate_by-Keeps : (step : Step) (o : Option Step) → Keeps c.patterns (compensate_by c step o)
  compensate_by-Keeps step none = search keeps_rules
  compensate_by-Keeps step (some comp) = search (keeps_rules, run_step-Keeps c) depth 20

  pub fail_run-Keeps :
      (reason detail label : String) → Keeps c.patterns (fail_run c reason detail label)
  unfolding fail_run
  fail_run-Keeps reason detail label = then-Keeps _ _ (status-Keeps RunStatus.failed) (
      then-Keeps _ _ (emit-Keeps "error" _ none 0 "system") (
        then-Keeps (flush c) _ (flush-Keeps c)
          (count-Keeps "runs.failed" (some ("reason", label)))))

  on_failure-Keeps :
      (wf : Workflow) (step : Step) (e : Raised) → Keeps c.patterns (on_failure c wf step e)
  unfolding on_failure compensate
  on_failure-Keeps wf step e = search (keeps_rules, compensate_by-Keeps, fail_run-Keeps) depth 20

  conclude-Keeps : (next : Option String) → Keeps c.patterns (conclude c next)
  conclude-Keeps none =
      bind-Keeps (modify (set_run succeed)) _
        (record {
          at = λ s. record {
            steps_used = refl;
            id = refl;
            history = record {
              tenant_id = refl;
              identity = refl;
              calls = [];
              by_tenant = tt;
              db = refl;
            };
          };
        })
        (λ _. bind-Keeps (gets (λ s. s.run)) _ (gets-Keeps (λ s. s.run)) (λ run.
          emit-Keeps "run_succeeded" (dict (("result", or_none run.result) ∷ [])) none 0 "system"))
  conclude-Keeps (some id) = search keeps_rules

  advance-Keeps : (next : Option String) → Keeps c.patterns (advance c next)
  unfolding advance
  advance-Keeps next =
      then-Keeps (modify (set_run (λ r. record r { cursor_step = next })))
        (conclude c next >> flush c)
        (record {
          at = λ s. record {
            steps_used = refl;
            id = refl;
            history = record {
              tenant_id = refl;
              identity = refl;
              calls = [];
              by_tenant = tt;
              db = refl;
            };
          };
        })
        (then-Keeps (conclude c next) (flush c) (conclude-Keeps next) (flush-Keeps c))

  abbrev pub entered : Step → Fields
  entered step =
      dict (("entering_step", Value.str step.id) ∷ ("type", Value.str step.node_type) ∷ [])

  -- What `take_step` does once it has counted.
  abbrev pub counted : Workflow → Step → M W (Option String)
  counted wf step = do
    emit "state_transition" (entered step) (some step.id) 0 "system"
    next ← catch (run_step_with_retry c step) (on_failure c wf step)
    advance c next
    pure next

  -- The step with its retries, and what follows its failure.
  abbrev pub attempted : Workflow → Step → M W (Option String)
  attempted wf step = catch (run_step_with_retry c step) (on_failure c wf step)

  pub attempted-Keeps : (wf : Workflow) (step : Step) → Keeps c.patterns (attempted wf step)
  unfolding run_step_with_retry
  attempted-Keeps wf step =
      catch-Keeps (run_step_with_retry c step) (on_failure c wf step)
        (retries-Keeps step step.max_attempts 1 never_raised) (on_failure-Keeps wf step)

  pub counted-Keeps : (wf : Workflow) (step : Step) → Keeps c.patterns (counted wf step)
  counted-Keeps wf step =
      then-Keeps (emit "state_transition" (entered step) (some step.id) 0 "system") _
        (emit-Keeps "state_transition" (entered step) (some step.id) 0 "system")
        (bind-Keeps (attempted wf step) _ (attempted-Keeps wf step)
          (λ next. then-Keeps (advance c next) (pure next) (advance-Keeps next) (pure-Keeps next)))
  -- A step that is taken counts one, however it ends.
