-- ===== src/Tests/Resuming.antt =====
-- The theorems on what `resume` leaves, on a service that recovers and on the list of runs, at concrete inputs.
use bass_platform.Base.{
  List, map, take, keep, Bool, false, ◌∷◌, [], ℕ, ◌≡◌, refl, some, inr, zero, suc, ◌+◌, ◌≤◌, arith,
}
use bass_platform.Value.{Value, Fields}
use bass_platform.Store.{empty_db}
use bass_platform.Store.Ledger.{record_effect, get_effect}
use bass_platform.Policy.{default_policies, sort_policies}
use bass_platform.Connector.{run}
use bass_platform.Engine.{Config, Sys}
use bass_platform.Engine.Drive.{resume}
use bass_platform.Errors.{ok}
use bass_platform.Host.{Host}
use bass_platform.Connector.{Connector}
use bass_platform.Connector.Recovery.{Passes, Recovered, run_recovers}
use bass_platform.Store.{RunRow}
use bass_platform.Store.Runs.{list_runs, create_or_get_run, new_row}
use bass_platform.Store.Rows.{IsStored}
use bass_platform.Engine.Frame.Saved.{Settled, resume_settles}
use bass_platform.Models.{Outcome}
use bass_platform.Policy
use bass_platform.Budget
use bass_platform.Engine
use bass_platform.Engine.Drive
use bass_platform.Engine.Tools.{execute}
use bass_platform.Engine.Steps
use bass_platform.Store.Trace
use bass_platform.Connector
use bass_platform.Engine.Steps.{gate, system_agent}
use bass_platform.Tests.{run_a, host, workflow, start, accounting}
use bass_platform.Tests.Driving.{careful, amount_9000}
use bass_platform.Base.{◌⊎◌, true}
use bass_platform.Models.{Run, is_terminal}
use bass_platform.Store.Runs.{load_run}
use bass_platform.Api.{resume_by_id}
use bass_platform.Store.Opening.{open_store}
use bass_platform.Store.{Db}
use bass_platform.Store.Approvals.{create_approval, resolve_approval, latest_approval}
use bass_platform.Engine.Steps.{gate, perform, system_agent}
use bass_platform.Engine.Proceed.{SameButEvents, granted_proceeds}
use bass_platform.Models.{ApprovalStatus, PolicyEffect}
use bass_platform.Tests.{host, post_tool, post_step}
use bass_platform.Store.Listing.{IsNewestFirst, is_wanted, list_runs_lem}
use mathlib.Core.List.{Perm}
use bass_platform.Worker.{SystemRunner, resume_with}
use bass_platform.Worker.Again.{resume_with_again}
use bass_platform.Engine.Frame.Saved.{Paused}
use bass_platform.Policy.{default_policies}

-- The run's row is in the store.
abbrev queued : Sys ℕ
queued = record start { db = (create_or_get_run run_a 1 empty_db).1 }

queued-IsStored : IsStored queued.run queued.db
unfolding create_or_get_run
queued-IsStored = (new_row run_a 1, refl, refl)

queued_returns : (resume careful workflow queued).0 ≡ ok tt
unfolding resume create_or_get_run Drive.round Budget.check Drive.take_step
    Drive.run_step_with_retry Steps.run_step Policy.check default_policies Drive.advance
    Engine.flush Trace.checkpoint Connector.run get_effect record_effect execute
queued_returns = refl

resume_settles_example : Settled careful workflow queued
resume_settles_example = resume_settles careful workflow queued queued-IsStored queued_returns

-- A service whose state is the number of its failures that are left.
abbrev flaky : Fields → ℕ → Outcome × ℕ
flaky args zero = (Outcome.returned (Value.str "posted"), zero)
flaky args (suc n) = (Outcome.timed_out, n)

-- A clock that has reached 60.
abbrev late : Host ℕ
late = record host { monotonic = λ w. (60, w); sleep = λ t w. w }

flaky_answers : (w : ℕ) → w ≡ 0 → (v : Value) × ((flaky Fields.end w).0 ≡ Outcome.returned v)
flaky_answers zero e = (Value.str "posted", refl)
flaky_answers (suc n) e = absurd (omega arith)

flaky_fails : (w : ℕ) → 1 ≤ w → Passes (flaky Fields.end w).0 × ((flaky Fields.end w).1 + 1 ≡ w)
flaky_fails zero h = absurd (omega arith)
flaky_fails (suc n) h = (Passes.timed_out, omega arith)

-- The breaker was opened at the time 25, with a cooldown of 30.
abbrev opened : Connector
opened = record accounting {
  breaker = record { threshold = 5; reset_s = 30; failures = 6; opened_at = some 25 };
}

run_recovers_example : Recovered (run late flaky Fields.end opened 3)
run_recovers_example =
    run_recovers late flaky Fields.end (λ w. w) flaky_answers flaky_fails (λ w. refl) (λ t w. refl)
      opened 3 (inr (25, refl, omega arith)) (omega arith)

-- A worker's runner with this workflow.
abbrev runner : SystemRunner ℕ
runner = record {
  store = open_store "postgres://db";
  connectors = queued.connectors;
  config = careful;
  workflows = ("wf", workflow) ∷ [];
}

abbrev finished : Run
finished = (resume careful workflow queued).1.run

loads_queued : load_run "acme" "run_a" queued.db ≡ ok (some run_a)
unfolding load_run create_or_get_run
loads_queued = refl

runner_returns : (resume_with runner "acme" "run_a" queued).0 ≡ ok finished
unfolding resume_with resume_by_id
runner_returns = rw loads_queued (rw queued_returns refl)

resume_with_again_example :
    Paused careful workflow queued
    ⊎ ((is_terminal finished.status ≡ true)
        × ((later : Sys ℕ)
            → later.db ≡ (resume_with runner "acme" "run_a" queued).1.db
            → ((resume_with runner "acme" "run_a" later).0 ≡ ok finished)
              × ((resume_with runner "acme" "run_a" later).1.db ≡ later.db)))
resume_with_again_example =
    resume_with_again runner "acme" "run_a" queued run_a workflow finished loads_queued refl
      runner_returns

abbrev last_first : RunRow → RunRow → Bool
last_first r q = false

list_runs_lem_example :
    (rows : List RunRow) × (list_runs last_first "acme" 50 (some "pending") queued.db
      ≡ ok (map (λ (r : RunRow). r.run) (take 50 rows)))
    × IsNewestFirst rows
    × Perm rows (keep (is_wanted "acme" (some "pending")) queued.db.runs)
list_runs_lem_example = list_runs_lem last_first "acme" 50 (some "pending") queued.db

-- The step has asked for an approval.
abbrev waiting : Db
waiting = (create_approval "apr_1" "acme" "run_a" "post" [] 5 queued.db).1

abbrev resolved : Sys ℕ
resolved = record start { db = (resolve_approval "acme" "apr_1" true "clerk" "" 9 waiting).1 }

is_waiting : latest_approval "acme" "run_a" "post" waiting ≡ some ("apr_1", ApprovalStatus.pending)
unfolding latest_approval create_approval create_or_get_run
is_waiting = refl

is_resolved : (resolve_approval "acme" "apr_1" true "clerk" "" 9 waiting).0 ≡ ok tt
unfolding resolve_approval create_approval create_or_get_run
is_resolved = refl

needs_approval :
    (Policy.check host
      (system_agent "create_ap_entry")
      post_tool
      amount_9000
      Fields.end
      (default_policies host)).effect
    ≡ PolicyEffect.require_approval
unfolding Policy.check default_policies
needs_approval = refl

granted_proceeds_example :
    (t : Sys ℕ) × SameButEvents resolved t
    × (gate careful post_step post_tool "create_ap_entry" "run_a:post" amount_9000 resolved
        ≡ perform careful post_step post_tool "create_ap_entry" "run_a:post" amount_9000 t)
granted_proceeds_example =
    granted_proceeds careful post_step post_tool "create_ap_entry" "run_a:post" "apr_1" "clerk" ""
      amount_9000 9 waiting resolved needs_approval refl is_waiting is_resolved refl
