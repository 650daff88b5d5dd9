-- ===== src/Tests/Service.antt =====
-- The theorems on the PostgreSQL store, the scheduler, the tokens and the routes, at concrete inputs.
use bass_platform.Base.{
  none, ℕ, String, ◌≡◌, refl, Bool, true, false, some, List, [], ◌∷◌, nat_eq, ◌⊎◌, arith,
}
use bass_platform.Errors.{ok}
use bass_platform.Value.{Value, pos}
use bass_platform.Models.{Run}
use bass_platform.Store.{Db, empty_db}
use bass_platform.Store.Runs
use bass_platform.Store.Runs.{create_or_get_run, new_row}
use bass_platform.Store.Trace
use bass_platform.Store.Ledger
use bass_platform.Store.Approvals
use bass_platform.Store.Approvals.{is_request}
use bass_platform.Store.History.{Op}
use bass_platform.Postgres
use bass_platform.Store.Approvals.{new_approval}
use bass_platform.Store.Ledger.{new_effect}
use bass_platform.Store.Interface.{Choices, sqlite_store, postgres_store}
use bass_platform.Postgres.Calls.{calls, AllFresh}
use bass_platform.Postgres.Methods.{Same, Agree}
use bass_platform.Postgres.Parity.{postgres_refines_sqlite}
use bass_platform.Postgres.Reads.{reads_agree, unnumbered_result}
use bass_platform.Text.{Codes, codes, split_by}
use bass_platform.Schedule.{Schedule, Datetime, due, tick, in_field}
use bass_platform.Schedule.Values.{in_parts, in_field_lem}
use bass_platform.Schedule.Once.{tick_again, fire_schedule, Stored, SameWork}
use bass_platform.RateLimit.{allow_call, calls_in}
use bass_platform.Api.{ApiService}
use bass_platform.Host.{Float}
use bass_platform.Auth.{Principal, Crypto, decode_token, mint_token, claims_of}
use bass_platform.Auth.Tokens.{decode_token-mint_token}
use bass_platform.Engine.{Sys}
use bass_platform.Api.Routes.{Request, Answer, handle, route}
use bass_platform.Api.Access.{handle_is_guarded, foreign_not_found, Granted, TurnedAway}
use bass_platform.Tests.{patterns, run_a, config, start, between, api, text_ne}

-- Two creations under one key, and calls of another tenant.
abbrev history : List Op
history = Op.create run_a 1 ∷ Op.create (record run_a { id = "run_b" }) 2 ∷ between

same_empty : Same empty_db empty_db
same_empty = record { tenants = refl; runs = refl; events = refl; approvals = refl; effects = refl }

-- A server that returns rows of one time in their order.
abbrev in_order : Choices
in_order = record { run_before = λ q r. false; approval_before = λ q r. false }

history_fresh : AllFresh (postgres_store in_order patterns) history empty_db
unfolding Postgres.create_or_get_run
history_fresh = (refl, (refl, (tt, (tt, tt))))

postgres_refines_sqlite_example :
    Agree
      (calls (postgres_store in_order patterns) history empty_db)
      (calls (sqlite_store in_order patterns) history empty_db)
postgres_refines_sqlite_example =
    postgres_refines_sqlite in_order in_order patterns history empty_db empty_db same_empty
      history_fresh

-- Two runs of a tenant, two requests of a step, and a recorded effect.
abbrev read_db : Db
read_db = record empty_db {
  runs = new_row run_a 1 ∷ new_row (record run_a { id = "run_2"; idempotency_key = "k2" }) 2 ∷ [];
  approvals =
      new_approval "apr_1" "acme" "run_a" "post" [] 3
      ∷ new_approval "apr_2" "acme" "run_a" "post" [] 4
      ∷ [];
  effects = new_effect "acme" "k1" "run_a" (some "post") "notify" Value.null 5 ∷ [];
}

same_rows : Same read_db read_db
same_rows = record { tenants = refl; runs = refl; events = refl; approvals = refl; effects = refl }

reads_agree_example :
    (Postgres.load_run "acme" "run_a" read_db ≡ Runs.load_run "acme" "run_a" read_db)
    × (Postgres.load_by_key "acme" "k1" read_db ≡ Runs.load_run_by_key "acme" "k1" read_db)
    × (Postgres.get_effect "acme" "k1" read_db ≡ Ledger.get_effect "acme" "k1" read_db)
    × (unnumbered_result (Postgres.list_events "acme" "run_a" read_db)
        ≡ unnumbered_result (Trace.list_events "acme" "run_a" read_db))
    × (Postgres.latest_approval in_order.approval_before "acme" "run_a" "post" read_db
        ≡ Approvals.latest_approval "acme" "run_a" "post" read_db)
    × (Postgres.list_runs in_order.run_before "acme" 50 none read_db
        ≡ Runs.list_runs in_order.run_before "acme" 50 none read_db)
reads_agree_example =
    reads_agree read_db read_db "acme" "run_a" "k1" "post" 50 none in_order in_order same_rows
      ((λ p q e. omega arith, tt), (tt, tt)) ((λ p q e. omega arith, tt), (tt, tt))

-- Every quarter of an hour, and at ten past.
in_field_lem_example :
    in_field 10 (codes "*/15,10") 0 59
    ≡ in_parts 10 (split_by (λ c. nat_eq c b',') (codes "*/15,10")) 0 59
in_field_lem_example = in_field_lem 10 (codes "*/15,10") 0 59

abbrev nightly : Schedule
nightly = record {
  tenant_id = "acme";
  workflow_name = "invoice-triage";
  cron = "0 2 * * *";
  enabled = true;
  id = "sched_0";
}

abbrev at_two : Datetime
at_two = record { minute = 0; hour = 2; day = 3; month = 4; weekday = 5; slot = "2026-04-03T02:00" }

-- The run of this minute is in the store.
abbrev scheduled : Run
scheduled = record run_a { idempotency_key = "sched:sched_0:2026-04-03T02:00" }

abbrev fired_once : Sys ℕ
fired_once = record start { db = (create_or_get_run scheduled 1 empty_db).1 }

-- A service whose limiter allows two calls in a window; the outside is the number of calls so far.
abbrev limited : ApiService ℕ
limited = record api {
  allow = λ tenant w.
      let counts = record { key = tenant; bucket = 0; calls = w } ∷ [] in
      let r = allow_call (record { limit = 2; window_s = 60 }) tenant 0 counts in
      (r.0, calls_in tenant 0 r.1);
}

tick_again_example :
    let slot : String = "2026-04-03T02:00" in
    let again = tick (fire_schedule config limited slot) (nightly ∷ []) at_two fired_once in
    (runs : List Run) × (again.0 ≡ ok runs)
    × Stored config limited slot fired_once.db.runs (nightly ∷ []) runs
    × SameWork again.1.db fired_once.db
unfolding due create_or_get_run allow_call
tick_again_example =
    tick_again config limited "2026-04-03T02:00" (nightly ∷ []) (nightly ∷ []) at_two fired_once
      refl refl (refl, tt) (((_, refl), ("run_a", (new_row scheduled 1, refl, refl))), tt)

-- A hash and an encoding for tests: one text for everything, which reads as the claims of one token.
abbrev crypto : Crypto
crypto = record {
  mac = λ secret s. b'm' ∷ [];
  encode = λ d. b'e' ∷ [];
  decode = λ s. some (Value.obj (claims_of "acme" "ann" ("owner" ∷ []) 60 1_000_000));
  to_float = λ v. elim v [ Value.num z ↦ ok (Float.finite z) | _ ↦ ok (Float.finite (pos 0)) ];
}

abbrev ann : Principal
ann = record { tenant_id = "acme"; subject = "ann"; roles = "owner" ∷ [] }

decode_token-mint_token_example :
    decode_token crypto "s"
      (mint_token crypto "s" "acme" "ann" ("owner" ∷ []) 60 1_000_000)
      5_000_000
    ≡ ok ann
decode_token-mint_token_example =
    decode_token-mint_token crypto (λ z. refl) (λ d. (refl, tt)) (λ secret s. (refl, tt))
      (λ secret s. refl) "s" "acme" "ann" ("owner" ∷ []) 60 1_000_000 5_000_000
      (text_ne "acme" "" refl) (text_ne "ann" "" refl) (omega arith) refl

abbrev token : Codes
token = codes "e.e.m"

abbrev ping : ℕ → Bool × ℕ
ping w = (true, w)

abbrev may_cancel : List String
may_cancel = "owner" ∷ "admin" ∷ "builder" ∷ []

handle_is_guarded_example :
    Granted config api crypto "s" ping in_order.run_before may_cancel (codes "Bearer e.e.m") start
    ⊎ ((w : ℕ) × TurnedAway
          (handle config api crypto "s" ping in_order.run_before
            (Request.cancel "run_a")
            (codes "Bearer e.e.m")
            start).0
        × ((handle config api crypto "s" ping in_order.run_before
              (Request.cancel "run_a")
              (codes "Bearer e.e.m")
              start).1
            ≡ record start { world = w }))
handle_is_guarded_example =
    handle_is_guarded config api crypto "s" ping in_order.run_before (Request.cancel "run_a")
      may_cancel (codes "Bearer e.e.m") start refl

-- The store has a run of the tenant of `ann`, which another tenant asks for.
abbrev mallory : Principal
mallory = record { tenant_id = "globex"; subject = "mallory"; roles = "owner" ∷ [] }

abbrev with_run : Sys ℕ
with_run = record start { db = (create_or_get_run run_a 1 empty_db).1 }

foreign_not_found_example :
    (route config api crypto "s" ping in_order.run_before (Request.get_run "run_a") mallory with_run
      ≡ (ok (Answer.refused 404 "not found"), with_run))
    × ((route config api crypto "s" ping in_order.run_before
          (Request.cancel "run_a")
          mallory
          with_run).0
        ≡ ok (Answer.refused 404 "not found"))
    × ((route config api crypto "s" ping in_order.run_before
          (Request.cancel "run_a")
          mallory
          with_run).1.db
        ≡ with_run.db)
unfolding create_or_get_run
foreign_not_found_example =
    foreign_not_found config api crypto "s" ping in_order.run_before "run_a" mallory with_run
      (λ e. text_ne "acme" "globex" refl, tt)
