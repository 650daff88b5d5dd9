-- ===== src/Worker.antt =====
-- reference/bass/runner.py, `build_from_env`, and the activity and the workflow of
-- reference/bass/temporal_adapter.py. Temporal is outside the repository: how it executes an activity
-- is a parameter.
pub mod Again
use bass_platform.Base.{ℕ, String, true, none, some, ◌∷◌, [], Dict, ◌||◌, if◌then◌else◌}
use bass_platform.Errors.{Kind, Result, ok, err, raised}
use bass_platform.Exec.{◌>>=◌, pure, lift, modify}
use bass_platform.Value.{Value, Fields, get}
use bass_platform.Host.{Host}
use bass_platform.Store.Opening.{Backend, open_store}
use bass_platform.Redaction.{Patterns}
use bass_platform.Policy.{default_policies, sort_policies}
use bass_platform.Connector.{Connector, ReliabilityConfig}
use bass_platform.Models.{Tool, Run, Workflow, status_value}
use bass_platform.Accounting.{new_books, Books, default_registry, mock_respond}
use bass_platform.Settings.{Environ, text_of}
use bass_platform.Engine.{Config, Sys, M}
use bass_platform.Example.{build_workflow, build_agents}
use bass_platform.Api.{resume_by_id}

-- A `SystemRunner`: its store, its connectors, what its engines are built from, and its workflows.
pub record SystemRunner (W : Type 0) : Type 0 where
  pub store : Backend
  pub connectors : Dict Connector
  pub config : Config W
  pub workflows : Dict Workflow

module _ {W : Type 0} where
  -- `runner.resume` in a process of its own: the connectors are new.
  unfoldable pub resume_with : SystemRunner W → String → String → M W Run
  unfolding resume_by_id
  resume_with runner tenant id s =
      resume_by_id runner.config
        (record {
          allow = λ t w. (true, w);
          workflows_by_id = runner.workflows;
          workflows_by_name = [];
        })
        tenant id (record s { connectors = runner.connectors })

module _ {W : Type 0} (h : Host W) (p : Patterns) where
  -- What the engines of a worker and of the API are built from.
  abbrev pub runner_config : Dict (Tool W) → Config W
  runner_config tools = record {
    host = h;
    patterns = p;
    agents = build_agents;
    tools = tools;
    policies = sort_policies (default_policies h);
    respond = mock_respond;
    approval_fn = none;
  }

module _ {W : Type 0} (h : Host W) (p : Patterns) (books : Books W)
    (defaults : ReliabilityConfig) where
  -- `defaults` is `ReliabilityConfig()`, in the units of the times.
  unfoldable pub build_from_env : Environ → Result (SystemRunner W × Workflow)
  unfolding default_registry default_policies sort_policies mock_respond open_store
  build_from_env env = elim (default_registry books defaults) [
    | err e ↦ err e
    | ok (connectors, tools) ↦ ok (
      record {
        store = open_store (text_of env "BASS_DB_PATH" "bass.db");
        connectors = connectors;
        config = runner_config h p tools;
        workflows = (build_workflow.id, build_workflow) ∷ [];
      },
      build_workflow,
    )
  ]

  -- `inp[k]`, whose values are texts
  abbrev input_text : String → Fields → Result String
  input_text k inp = elim (get k inp) [
    | none ↦ raised Kind.key_error k
    | some (Value.str s) ↦ ok s
    | some _ ↦ raised Kind.other "TypeError"
  ]

  -- `resume_run_activity`, on the database that the environment names
  unfoldable pub resume_run_activity : Environ → Fields → M W String
  unfolding build_from_env resume_with
  resume_run_activity env inp = lift (build_from_env env) >>= λ built.
      modify (λ (s : Sys W). record s { world = new_books books s.world }) >>= λ _.
      lift (input_text "tenant_id" inp) >>= λ tenant. lift (input_text "run_id" inp) >>= λ id.
      resume_with built.0 tenant id >>= λ run. pure (status_value run.status)

  -- `BassRunWorkflow.run`
  unfoldable pub run_workflow :
      ((Fields → M W String) → Fields → ℕ → ℕ → M W String) → Environ → Fields → M W String
  unfolding resume_run_activity
  run_workflow execute_activity env inp = execute_activity (resume_run_activity env) inp 60 3
