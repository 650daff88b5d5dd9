-- ===== src/Tests/Core.antt =====
-- The theorems on the store, the policies, redaction, replay, the limiter and migrations, at concrete
-- inputs.
use bass_platform.Base.{
  inl, ℕ, ◌+◌, ◌≤◌, String, ◌≡◌, refl, ◌≢◌, true, false, none, some, List, [], ◌∷◌, if◌then◌else◌,
  arith, contains, ◌==◌,
}
use bass_platform.Errors.{Kind, Result, ok, raised}
use bass_platform.Value.{Value, Fields, pos, not_null, num}
use bass_platform.Models.{Run, PolicyEffect}
use bass_platform.Redaction.{redact}
use bass_platform.Redaction.Clean.{Clean, redact-Clean}
use bass_platform.Store.{empty_db}
use bass_platform.Store.Runs.{create_or_get_run, ensure_tenant, new_row}
use bass_platform.Orchestrator.{derive_idempotency_key}
use bass_platform.RateLimit.{RateLimiter}
use bass_platform.RateLimit.Window.{admitted, admitted_bound}
use bass_platform.Api.{fire}
use bass_platform.Api.Known.{fire_known}
use bass_platform.Migrate.{Migration, Database, run_migrations}
use bass_platform.Migrate.Again.{run_migrations_twice}
use bass_platform.Store.Ledger.{get_effect, record_effect}
use bass_platform.Store.History.{Op, apply, apply_all}
use bass_platform.Store.Keys.{HasKeys, apply_all-HasKeys}
use bass_platform.Store.Isolation.{view, apply-view}
use bass_platform.Store.Dedup.{dedup}
use bass_platform.Store.Durable.{get_effect-record_effect}
use bass_platform.Policy.{Policy, default_policies, sort_policies}
use bass_platform.Policy
use bass_platform.Policy.FailClosed.{
  Permitted, check_fails_closed, default_policies_lem, LimitRule, LimitRule,
}
use bass_platform.Connector.{Connector, ReliabilityConfig, new_connector, allow}
use bass_platform.Connector
use bass_platform.Connector.Bounds.{run_calls}
use bass_platform.Budget.{Budget}
use bass_platform.Engine.{Sys}
use bass_platform.Engine.Tools.{get_tool, execute, call_connector}
use bass_platform.Engine.Steps.{run_named_tool, perform, resolve, effect_key}
use bass_platform.Engine.Replay.{replayed, exactly_once}
use bass_platform.Engine.Drive.{drive, resume}
use bass_platform.Engine.Frame.Rounds.{drive_any_fuel, resume_steps_bound}
use bass_platform.Tests.{
  accounting, api, between, clerk, config, empty-HasKeys, host, message, patterns, post_fn,
  post_step, post_tool, run_a, run_b, start, text_ne, workflow,
}

apply_all-HasKeys_example : HasKeys (apply_all patterns (Op.create run_a 1 ∷ between) empty_db)
apply_all-HasKeys_example =
    apply_all-HasKeys patterns (Op.create run_a 1 ∷ between) empty_db empty-HasKeys

apply-view_example :
    view "globex" (apply patterns (Op.create run_a 1) empty_db) ≡ view "globex" empty_db
apply-view_example =
    apply-view patterns (Op.create run_a 1) "globex" empty_db (text_ne "acme" "globex" refl)
      empty-HasKeys

dedup_example :
    let later = apply_all patterns between (create_or_get_run run_a 1 empty_db).1 in
    (r : Run) × (create_or_get_run run_b 9 later ≡ (ok (r, false), later)) × (r.id ≡ "run_a")
unfolding create_or_get_run
dedup_example = dedup patterns run_a run_b 1 9 between empty_db refl refl refl

get_effect-record_effect_example :
    get_effect "acme" "k" (
      apply_all patterns between
        (record_effect "acme" "k" "run_a" none "t" (Value.str "v") 1 empty_db))
    ≡ (if "acme" == "acme"
        then ok (not_null (Value.str "v"))
        else raised Kind.tenant_isolation "effect belongs to a different tenant")
get_effect-record_effect_example =
    get_effect-record_effect patterns between "acme" "acme" "k" "run_a" none "t" (Value.str "v") 1
      empty_db refl

redact-Clean_example :
    Clean patterns
      (Value.obj (Fields.field "token" (Value.str "s") Fields.end))
      (redact patterns (Value.obj (Fields.field "token" (Value.str "s") Fields.end)))
redact-Clean_example =
    redact-Clean patterns (Value.obj (Fields.field "token" (Value.str "s") Fields.end))

run_calls_example :
    (Connector.run host post_fn Fields.end accounting 0).2
    ≤ 0 + (if (allow host accounting.breaker 0).0 then 3 + 1 else 0)
run_calls_example =
    run_calls host post_fn Fields.end (λ w. w) (λ w. omega arith) (λ t w. refl) (λ w. refl)
      accounting 0

resume_steps_bound_example : (resume config workflow start).1.run.steps_used ≤ 26
resume_steps_bound_example = resume_steps_bound config workflow start (omega arith)

abbrev budget : Budget
budget = record { max_usd = 500000; max_steps = 25 }

drive_any_fuel_example :
    drive config 27 workflow budget (some "post") start
    ≡ drive config 30 workflow budget (some "post") start
drive_any_fuel_example =
    drive_any_fuel config 27 30 workflow budget (some "post") start (omega arith, omega arith)
      (omega arith, omega arith)

abbrev amount_7 : Fields
amount_7 = Fields.field "amount" (num (pos 7)) Fields.end

allowed_7 :
    (Policy.check host clerk post_tool amount_7 Fields.end (default_policies host)).effect
    ≢ PolicyEffect.deny
unfolding Policy.check default_policies
allowed_7 e = cc

check_fails_closed_example :
    (contains "create_ap_entry" clerk.tools ≡ true)
    × Permitted clerk post_tool amount_7 Fields.end
        (default_policies host)
        (Policy.check host clerk post_tool amount_7 Fields.end (default_policies host)).effect
check_fails_closed_example =
    check_fails_closed host clerk post_tool amount_7 Fields.end (default_policies host) allowed_7

default_policies_lem_example :
    LimitRule
      (host.to_float (num (pos 7)))
      (Policy.check host clerk post_tool amount_7 Fields.end (default_policies host)).effect
default_policies_lem_example =
    default_policies_lem host clerk post_tool amount_7 Fields.end (num (pos 7)) refl refl refl
      (inl refl)

abbrev crashed : Sys ℕ
crashed = record start {
  db =
      apply_all patterns between
        (perform config post_step post_tool "create_ap_entry"
          (effect_key "run_a" "post" "create_ap_entry") amount_7 start).1.db;
  world = 1;
}

exactly_once_example :
    run_named_tool config post_step "create_ap_entry" crashed
    ≡ (ok none, replayed config post_step "create_ap_entry" post_tool (Value.str "posted") crashed)
unfolding get_tool execute call_connector Connector.run resolve
exactly_once_example =
    exactly_once config post_step "create_ap_entry" post_tool refl refl between amount_7 amount_7
      (Value.str "posted") start crashed refl (λ e. cc) refl refl refl refl refl

abbrev limiter : RateLimiter
limiter = record { limit = 1; window_s = 60 }

admitted_bound_example :
    admitted limiter "acme" 2 (("acme", 125) ∷ ("globex", 130) ∷ ("acme", 131) ∷ []) [] ≤ 1
admitted_bound_example =
    admitted_bound limiter "acme" 2 (("acme", 125) ∷ ("globex", 130) ∷ ("acme", 131) ∷ []) []
      (omega arith, (omega arith, (omega arith, tt)))

-- The first trigger's run is in the store.
abbrev known : Sys ℕ
known = record start { db = (create_or_get_run run_a 1 empty_db).1 }

fire_known_example :
    (r : Run) × ((fire config api "acme" "invoice-triage" message known).0 ≡ ok r)
    × (r.id ≡ "run_a")
    × ((fire config api "acme" "invoice-triage" message known).1.db
        ≡ ensure_tenant "acme" "acme" Fields.end 0 known.db)
unfolding derive_idempotency_key create_or_get_run
fire_known_example =
    fire_known config api "acme" "invoice-triage" workflow message "run_a" known refl refl
      (new_row run_a 1, refl, refl)

-- A schema is the list of the scripts that were run.
abbrev baseline : List Migration
baseline = record { id = "0001_baseline_schema"; description = ""; sql = "create" } ∷ []

abbrev empty_schema : Database (List String)
empty_schema = record { schema = []; ledger = [] }

abbrev run_script : String → List String → Result (List String)
run_script sql schema = ok (sql ∷ schema)

run_migrations_twice_example :
    let after = (run_migrations run_script (λ i. 5) baseline empty_schema).1 in
    run_migrations run_script (λ i. 9) baseline after ≡ (ok [], after)
unfolding run_migrations
run_migrations_twice_example =
    run_migrations_twice run_script baseline empty_schema ("0001_baseline_schema" ∷ []) (λ i. 5)
      (λ i. 9) refl
