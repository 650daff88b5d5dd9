-- ===== src/Engine.antt =====
-- The state that the engine's methods share, and its ways to reach the store, the metrics and the
-- event buffer (reference/bass/workflow.py, `WorkflowEngine.__init__`, `emit` and `_checkpoint`; the
-- registry of reference/bass/tools.py).
pub mod Tools
pub mod AgentLoop
pub mod Approval
pub mod Steps
pub mod Drive
pub mod Gate
pub mod Proceed
pub mod Replay
pub mod Frame
use bass_platform.Base.{ℕ, ◌+◌, String, Bool, Option, none, some, List, [], ◌∷◌, ◌++◌, Dict}
use bass_platform.Errors.{Result, ok, err}
use bass_platform.Exec.{Exec, continue, ◌>>=◌, ◌>>◌}
use bass_platform.Value.{Value, Fields}
use bass_platform.Models.{Agent, Tool, Event, Run, RunStatus, Step}
use bass_platform.Redaction.{Patterns}
use bass_platform.Host.{Host}
use bass_platform.Store.{Db}
use bass_platform.Store.Trace.{checkpoint}
use bass_platform.Policy.{Policy}
use bass_platform.Metrics.{Metrics, Label}
use bass_platform.Metrics
use bass_platform.Connector.{Connector}

-- One tool call that the model asks for.
pub record Call : Type 0 where
  pub tool : String
  pub args : Option Fields
  pub id : Option String

-- `respond(agent, task, scratch)`: what a model returns, and the scratch that it leaves.
pub data Response : Type 0 where
  tool_calls : List Call → ℕ → Response
  final : Value → ℕ → Response

abbrev pub Respond : Type 0 → Type 0
Respond W = Agent → Fields → Fields → W → Result Response × Fields × W

abbrev pub ApprovalFn : Type 0 → Type 0
ApprovalFn W = Run → Step → String → Fields → W → Result Bool × W

-- What a `WorkflowEngine` is built from and never changes; `policies` are sorted.
pub record Config (W : Type 0) : Type 0 where
  pub host : Host W
  pub patterns : Patterns
  pub agents : Dict Agent
  pub tools : Dict (Tool W)
  pub policies : List (Policy W)
  pub respond : Respond W
  pub approval_fn : Option (ApprovalFn W)

-- What the methods change: the database, the run that is driven, the buffered events, the counters,
-- the connectors' breakers, and everything outside.
pub record Sys (W : Type 0) : Type 0 where
  pub db : Db
  pub run : Run
  pub buffer : List Event
  pub metrics : Metrics
  pub connectors : Dict Connector
  pub world : W

abbrev pub M : Type 0 → Type 0 → Type 0
M W A = Exec (Sys W) A

abbrev pub event_of : Run → String → Fields → Option String → ℕ → String → Event
event_of run type payload step_id cost_usd actor = record {
  run_id = run.id;
  tenant_id = run.tenant_id;
  type = type;
  payload = payload;
  step_id = step_id;
  actor = actor;
  cost_usd = cost_usd;
}

module _ {W : Type 0} where
  abbrev pub set_run : (Run → Run) → Sys W → Sys W
  set_run f s = record s { run = f s.run }

  abbrev pub set_status : RunStatus → Sys W → Sys W
  set_status status = set_run (λ r. record r { status = status })

  abbrev pub add_cost : ℕ → Sys W → Sys W
  add_cost c = set_run (λ r. record r { cost_usd = r.cost_usd + c })

  abbrev pub count : String → Label → Sys W → Sys W
  count name label s = record s { metrics = Metrics.incr name label s.metrics }

  unfoldable pub emit : String → Fields → Option String → ℕ → String → M W (Unit {0})
  emit type payload step_id cost_usd actor s = (
    ok tt,
    record s { buffer = s.buffer ++ event_of s.run type payload step_id cost_usd actor ∷ [] },
  )

  -- A method of the store that reads the clock: it has the readings from this state on.
  unfoldable pub in_store : {A : Type 0} → Host W → ((ℕ → ℕ) → Db → Result A × Db) → M W A
  in_store h method s =
      let (r, db) = method (h.clock s.world) s.db in
      (r, record s { db = db; world = h.tick s.world })

  -- A call of something outside.
  unfoldable pub outside : {A : Type 0} → (W → A × W) → M W A
  outside f s = let (a, w) = f s.world in (ok a, record s { world = w })

module _ {W : Type 0} (c : Config W) where
  -- `_checkpoint`
  unfoldable pub flush : M W (Unit {0})
  unfolding in_store
  flush s =
      (in_store c.host (λ clock. checkpoint c.patterns clock s.run s.buffer) >> λ t.
      (ok tt, record t { buffer = [] }))
        s
