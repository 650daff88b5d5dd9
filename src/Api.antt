-- ===== src/Api.antt =====
-- reference/bass/api.py: `ApiService`, what the HTTP layer calls; and reference/bass/runner.py,
-- `SystemRunner.resume`. The rate limiter is an interface, so its `allow` is a parameter.
pub mod Known
pub mod Routes
pub mod Access
use bass_platform.Base.{
  String, Bool, true, false, Option, none, some, List, [], ◌∷◌, Dict, lookup, insert, if◌then◌else◌,
}
use bass_platform.Errors.{Kind, Raised, Result, ok, is_bass_error}
use bass_platform.Exec.{◌>>=◌, ◌>>◌, pure, raise, reraise, gets, modify, catch}
use bass_platform.Value.{Value, Fields, dict}
use bass_platform.Models.{Run, Workflow}
use bass_platform.Store.{EventRow}
use bass_platform.Store.Runs.{ensure_tenant, load_run, cancel_run}
use bass_platform.Store.Trace.{list_events}
use bass_platform.Store.Approvals
use bass_platform.Engine.{Config, Sys, M, emit, in_store, outside, set_run}
use bass_platform.Engine.Drive.{resume}
use bass_platform.Orchestrator.{open_run}

-- What an `ApiService` keeps of its own.
pub record ApiService (W : Type 0) : Type 0 where
  pub allow : String → W → Bool × W
  pub workflows_by_id : Dict Workflow
  pub workflows_by_name : Dict Workflow

abbrev pub or_run : Run → Option Run → Run
or_run run none = run
or_run run (some reloaded) = reloaded

module _ {W : Type 0} where
  unfoldable pub register_workflow : Workflow → ApiService W → ApiService W
  register_workflow wf api = record api {
    workflows_by_id = insert wf.id wf api.workflows_by_id;
    workflows_by_name = insert wf.name wf api.workflows_by_name;
  }

  -- `if run is None: raise KeyError(run_id)`, and the same for a workflow
  abbrev pub or_key_error : {A : Type 0} → String → Option A → M W A
  or_key_error id none = raise Kind.key_error id
  or_key_error id (some a) = pure a

  abbrev pub loaded : String → String → M W (Option Run)
  loaded tenant id s = (load_run tenant id s.db, s)

  -- A fresh engine: no event is buffered.
  abbrev pub new_engine : M W (Unit {0})
  new_engine = modify (λ s. record s { buffer = [] })

module _ {W : Type 0} (c : Config W) where
  -- The engine of a service asks for approvals asynchronously.
  abbrev pub async : Config W
  async = record c { approval_fn = none }

  -- The handler of `_safe_resume`
  abbrev pub reload : Raised → M W Run
  reload e =
      if is_bass_error e.kind
      then (gets (λ s. s.run) >>= λ run.
          loaded run.tenant_id run.id >>= λ found. pure (or_run run found))
      else reraise e

  -- `_safe_resume`
  unfoldable pub safe_resume : Workflow → M W Run
  unfolding resume
  safe_resume wf = catch (resume async wf >> gets (λ s. s.run)) reload

  module _ (api : ApiService W) where
    abbrev pub admit : String → Bool → M W (Unit {0})
    admit tenant true = pure tt
    admit tenant false = raise Kind.rate_limited tenant

    -- What `fire` does with the run that the store gave it.
    abbrev pub start_run : Workflow → Fields → Bool → M W Run
    start_run wf trigger true = do
      emit "trigger_fired"
          (dict (("workflow", Value.str wf.name) ∷ ("event", Value.obj trigger) ∷ [])) none 0
          "system"
      safe_resume wf
    start_run wf trigger false = gets (λ s. s.run)

    -- `fire`
    unfoldable pub fire : String → String → Fields → M W Run
    unfolding open_run emit safe_resume in_store outside
    fire tenant wf_name trigger = do
      wf ← or_key_error wf_name (lookup wf_name api.workflows_by_name)
      allowed ← outside (api.allow tenant)
      admit tenant allowed
      in_store c.host (λ clock db. (ok tt, ensure_tenant tenant tenant Fields.end (clock 0) db))
      new_engine
      created ←
          open_run c (record { tenant_id = tenant; workflows = api.workflows_by_id }) wf trigger
      start_run wf trigger created

    -- `get_run`
    unfoldable pub get_run : String → String → M W (Option Run)
    get_run tenant id = loaded tenant id

    -- `trace`
    unfoldable pub trace : String → String → Sys W → Result (List EventRow)
    trace tenant id s = list_events tenant id s.db

    -- `cancel`
    unfoldable pub cancel : String → String → M W Run
    unfolding in_store
    cancel tenant id = do
      in_store c.host (λ clock. cancel_run tenant id (clock 0))
      found ← loaded tenant id
      or_key_error id found

    -- `resolve_approval`
    unfoldable pub resolve_approval : String → String → String → Bool → String → String → M W Run
    unfolding in_store safe_resume
    resolve_approval tenant id approval_id approved decided_by note = do
      found ← loaded tenant id
      run ← or_key_error id found
      in_store c.host (λ clock.
          Approvals.resolve_approval tenant approval_id approved decided_by note (clock 0))
      wf ← or_key_error run.workflow_id (lookup run.workflow_id api.workflows_by_id)
      new_engine
      modify (set_run (λ _. run))
      safe_resume wf

    -- `SystemRunner.resume`, of a runner with these workflows
    unfoldable pub resume_by_id : String → String → M W Run
    unfolding resume
    resume_by_id tenant id = do
      found ← loaded tenant id
      run ← or_key_error id found
      wf ← or_key_error run.workflow_id (lookup run.workflow_id api.workflows_by_id)
      new_engine
      modify (set_run (λ _. run))
      resume async wf
      gets (λ s. s.run)
