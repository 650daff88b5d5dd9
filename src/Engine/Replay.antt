-- ===== src/Engine/Replay.antt =====
-- Exactly-once side effects of reference/bass/workflow.py, `_run_tool`: the ledger is consulted before
-- a mutating tool acts and written after.
use bass_platform.Base.{
  String, ◌≡◌, refl, ◌∙◌, ◌≢◌, true, Option, none, some, List, [], ◌∷◌, ◌++◌, lookup, find_by,
  ==_refl,
}
use bass_platform.Errors.{Result, ok}
use bass_platform.Value.{Value, Fields, put, dict, not_null}
use bass_platform.Models.{Tool, Step}
use bass_platform.Connector.{Connector}
use bass_platform.Store.Ledger.{get_effect, record_effect, is_effect}
use bass_platform.Store.History.{Op, apply_all}
use bass_platform.Store.Durable.{get_effect-record_effect}
use bass_platform.Engine.{Config, Sys, emit, event_of}
use bass_platform.Engine.Tools.{get_tool, execute, call_connector}
use bass_platform.Engine.Steps.{
  run_named_tool, perform, replay, cached_effect, resolve, effect_key, set_context,
}

module _ {W : Type 0} (c : Config W) (step : Step) (name : String) (tool : Tool W) where
  -- The state after a replay: one event, and the recorded result in the context.
  abbrev pub replayed : Value → Sys W → Sys W
  replayed v s = set_context step.id v (record s {
    buffer =
        s.buffer
        ++ event_of s.run "tool_result_replayed"
            (dict (("tool", Value.str name) ∷ ("result", v) ∷ [])) (some step.id) 0 "system"
          ∷ [];
  })

  module _ (known : get_tool c name ≡ ok tool) (mutating : tool.side_effect ≡ true) where
    -- If the ledger has a result for this run, step and tool, then a mutating tool node is replayed:
    -- it returns the next step with the recorded result in the context, and neither the outside, nor
    -- the database, the counters or the breakers change, for no policy, approval or tool is called.
    run_named_tool_replays :
        (s : Sys W) (args : Fields) (v : Value)
        → resolve step.args s.run.context ≡ ok args
        → get_effect s.run.tenant_id (effect_key s.run.id step.id name) s.db ≡ ok (some v)
        → run_named_tool c step name s ≡ (ok step.next, replayed v s)
    unfolding run_named_tool cached_effect replay emit
    run_named_tool_replays s args v resolved recorded =
        rw (known, run_named_tool) (rw resolved (rw mutating (rw recorded refl)))

  -- What the connector's call leaves alone.
  db-call_connector :
      (args : Fields) (con : Option Connector) (s : Sys W)
      → (call_connector c tool args con s).1.db ≡ s.db
  unfolding call_connector
  db-call_connector args none s = refl
  db-call_connector args (some con) s = refl

  run-call_connector :
      (args : Fields) (con : Option Connector) (s : Sys W)
      → (call_connector c tool args con s).1.run ≡ s.run
  unfolding call_connector
  run-call_connector args none s = refl
  run-call_connector args (some con) s = refl

  module _ (known : get_tool c name ≡ ok tool) (mutating : tool.side_effect ≡ true) where
    -- The call that `perform` makes.
    abbrev called : String → Fields → Sys W → Result Value × Sys W
    called key args s = execute c name (put "_idempotency_key" (Value.str key) args) s

    db-called : (key : String) (args : Fields) (s : Sys W) → (called key args s).1.db ≡ s.db
    unfolding execute
    db-called key args s =
        rw (known, execute) (db-call_connector _ (lookup tool.connector s.connectors) s)

    run-called : (key : String) (args : Fields) (s : Sys W) → (called key args s).1.run ≡ s.run
    unfolding execute
    run-called key args s =
        rw (known, execute) (run-call_connector _ (lookup tool.connector s.connectors) s)

    -- The database after a mutating tool has returned `v`.
    db-perform :
        (key : String) (args : Fields) (v : Value) (s : Sys W)
        → (called key args s).0 ≡ ok v
        → (perform c step tool name key args s).1.db
          ≡ record_effect s.run.tenant_id key s.run.id
              (some step.id)
              name
              v
              (c.host.clock (called key args s).1.world 0)
              s.db
    unfolding perform
    db-perform key args v s returned =
        rw (mutating, perform) (rw returned (rw (db-called key args s, run-called key args s) refl))

    -- A mutating tool that has acted once for a run and step, under a key that was free, does not act
    -- again: from any later database, whatever calls were made on it since, a node of the same run,
    -- step and tool replays the result, provided that the result was not `None`. This covers a crash
    -- right after the action, when nothing else of the run was saved.
    pub exactly_once :
        (ops : List Op) (args args' : Fields) (v : Value) (s s' : Sys W)
        → let key = effect_key s.run.id step.id name in
          (called key args s).0 ≡ ok v
          → v ≢ Value.null
          → find_by (is_effect key) s.db.effects ≡ none
          → s'.db ≡ apply_all c.patterns ops (perform c step tool name key args s).1.db
          → s'.run.id ≡ s.run.id
          → s'.run.tenant_id ≡ s.run.tenant_id
          → resolve step.args s'.run.context ≡ ok args'
          → run_named_tool c step name s' ≡ (ok step.next, replayed v s')
    exactly_once ops args args' v s s' returned real free later same_run same_tenant resolved =
        let key = effect_key s.run.id step.id name in
        run_named_tool_replays known mutating s' args' v resolved (
          rw (same_run, same_tenant, later, db-perform key args v s returned)
            (get_effect-record_effect c.patterns ops s.run.tenant_id s.run.tenant_id key s.run.id
                (some step.id) name v (c.host.clock (called key args s).1.world 0) s.db free
              ∙ rw (==_refl s.run.tenant_id) (recorded v real)))
      where
        recorded : (x : Value) → x ≢ Value.null → ok (not_null x) ≡ ok (some x)
        recorded Value.null r = absurd (r refl)
        recorded (Value.bool b) r = refl
        recorded (Value.num n) r = refl
        recorded (Value.str t) r = refl
        recorded (Value.arr xs) r = refl
        recorded (Value.obj d) r = refl
