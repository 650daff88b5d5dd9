-- ===== src/Tests/Driving.antt =====
-- The theorems on driving a run, on the order of the policies and on the breaker, at concrete inputs.
use bass_platform.Base.{
  contains, true, ◌⊎◌, ◌∷◌, ◌≢◌, false, [], ℕ, ◌≡◌, refl, some, List, All, find_by, inl,
}
use bass_platform.Value.{Value, Fields, num, pos}
use bass_platform.Store.{Db, empty_db}
use bass_platform.Store.Keys.{HasKeys}
use bass_platform.Store.Isolation.{view}
use bass_platform.Store.History.{Op, op_tenant, apply_all}
use bass_platform.Store.Ledger.{record_effect, get_effect, new_effect, is_effect}
use bass_platform.Policy.{Policy, default_policies, sort_policies}
use bass_platform.Policy.Precedence.{Misses, Decides, check_takes_least}
use bass_platform.Connector.{run}
use bass_platform.Connector.Breaker.{IsSound, ClosedIfOk, run-IsSound}
use bass_platform.Engine.{Config}
use bass_platform.Engine.Drive.{resume}
use bass_platform.Engine.Frame.History.{
  resume_is_history, resume_isolates, resume_keeps_effects, resume-Extends,
}
use bass_platform.Errors.{Raised, err}
use bass_platform.Models.{PolicyEffect}
use bass_platform.Policy
use bass_platform.Store.Audit.{Extends, apply_all-Extends}
use bass_platform.Store.Approvals.{latest_approval}
use bass_platform.Engine.Steps.{gate, system_agent}
use bass_platform.Engine.Gate.{NotApproved, gate_waits}
use bass_platform.Tests.{
  run_a, between, post_tool, post_step, host, patterns, workflow, config, start, empty-HasKeys,
  text_ne, post_fn, accounting,
}

resume_is_history_example :
    let done = (resume config workflow start).1 in
    (done.run.tenant_id ≡ "acme")
    × (ops : List Op) × All (λ op. op_tenant op ≡ "acme") ops
    × (done.db ≡ apply_all patterns ops empty_db)
resume_is_history_example = resume_is_history config workflow start

resume_isolates_example :
    let done = (resume config workflow start).1 in
    HasKeys done.db × (view "globex" done.db ≡ view "globex" empty_db)
resume_isolates_example =
    resume_isolates config workflow start "globex" (text_ne "acme" "globex" refl) empty-HasKeys

-- A result that an earlier process recorded.
abbrev recorded : Db
recorded =
    record_effect "acme" "run_a:post" "run_a" (some "post") "create_ap_entry" (Value.str "posted") 1
      empty_db

recorded_found :
    find_by (is_effect "run_a:post") recorded.effects
    ≡ some (
        new_effect "acme" "run_a:post" "run_a"
          (some "post")
          "create_ap_entry"
          (Value.str "posted")
          1)
unfolding record_effect
recorded_found = refl

resume_keeps_effects_example :
    get_effect "acme" "run_a:post" (resume config workflow (record start { db = recorded })).1.db
    ≡ get_effect "acme" "run_a:post" recorded
resume_keeps_effects_example =
    resume_keeps_effects config workflow (record start { db = recorded }) "acme" "run_a:post"
      (new_effect "acme" "run_a:post" "run_a" (some "post") "create_ap_entry" (Value.str "posted")
        1)
      recorded_found

run-IsSound_example :
    let out = run host post_fn Fields.end accounting 0 in
    IsSound out.1.breaker × ClosedIfOk out.0 out.1.breaker
run-IsSound_example = run-IsSound host post_fn Fields.end accounting 0 (inl refl)

resume-Extends_example : Extends empty_db (resume config workflow start).1.db
resume-Extends_example = resume-Extends config workflow start

apply_all-Extends_example :
    Extends empty_db (apply_all patterns (Op.create run_a 1 ∷ between) empty_db)
apply_all-Extends_example = apply_all-Extends patterns (Op.create run_a 1 ∷ between) empty_db

-- A large entry, which the default policies send to an approver.
abbrev pub careful : Config ℕ
careful = record config { policies = default_policies host }

abbrev pub amount_9000 : Fields
amount_9000 = Fields.field "amount" (num (pos 9_000_000_000)) Fields.end

not_allowed :
    (Policy.check host
      (system_agent "create_ap_entry")
      post_tool
      amount_9000
      Fields.end
      (default_policies host)).effect
    ≢ PolicyEffect.allow
unfolding Policy.check default_policies
not_allowed e = cc

nothing_granted : NotApproved (latest_approval "acme" "run_a" "post" empty_db)
unfolding latest_approval
nothing_granted id e = cc

gate_waits_example :
    ((e : Raised) × ((gate careful post_step post_tool "create_ap_entry" "run_a:post" amount_9000
          start).0
        ≡ err e))
    × (gate careful post_step post_tool "create_ap_entry" "run_a:post" amount_9000 start
        ≡ gate
            (record careful { tools = [] })
            post_step
            post_tool
            "create_ap_entry"
            "run_a:post"
            amount_9000
            start)
gate_waits_example =
    gate_waits careful [] post_step post_tool "create_ap_entry" "run_a:post" amount_9000 start
      not_allowed refl nothing_granted

not_denied :
    (Policy.check host
      (system_agent "create_ap_entry")
      post_tool
      amount_9000
      Fields.end
      (sort_policies (default_policies host))).effect
    ≢ PolicyEffect.deny
unfolding Policy.check default_policies sort_policies
not_denied e = cc

check_takes_least_example :
    let agent = system_agent "create_ap_entry" in
    (contains "create_ap_entry" agent.tools ≡ true)
    × (((post_tool.side_effect ≡ false)
          × All (Misses agent post_tool amount_9000 Fields.end) (default_policies host))
        ⊎ ((q : Policy ℕ) × Decides agent post_tool amount_9000 Fields.end (default_policies host) q
            × (q.effect
                ≡ (Policy.check host agent post_tool amount_9000 Fields.end
                    (sort_policies (default_policies host))).effect)))
check_takes_least_example =
    check_takes_least host (system_agent "create_ap_entry") post_tool amount_9000 Fields.end
      (default_policies host) not_denied
