-- ===== src/Api/Known.antt =====
-- `ApiService.fire` of reference/bass/api.py on a trigger that the store knows.
use bass_platform.Base.{ℕ, String, ◌≡◌, refl, true, some, lookup, arith}
use bass_platform.Errors.{ok}
use bass_platform.Value.{Fields}
use bass_platform.Models.{Run, Workflow}
use bass_platform.Store.{Db}
use bass_platform.Store.Runs.{ensure_tenant}
use bass_platform.Store.Dedup.{Holds, again}
use bass_platform.Engine.{Config, Sys, in_store, outside}
use bass_platform.Orchestrator.{derive_idempotency_key, triggered_run, open_run}
use bass_platform.Api.{ApiService, fire}

runs-ensure_tenant :
    (id name : String) (settings : Fields) (now : ℕ) (db : Db)
    → (ensure_tenant id name settings now db).runs ≡ db.runs
unfolding ensure_tenant
runs-ensure_tenant id name settings now db = ground arith

module _ {W : Type 0} (c : Config W) (api : ApiService W) (tenant wf_name : String) (wf : Workflow)
    (trigger : Fields) where
  -- If a run of the tenant holds the trigger's key, the workflow is registered and the limiter lets
  -- the call through, then `fire` returns that run without driving it: in the store only the
  -- tenant's row is written.
  pub fire_known :
      (id : String) (s : Sys W)
      → lookup wf_name api.workflows_by_name ≡ some wf
      → (api.allow tenant s.world).0 ≡ true
      → Holds tenant (derive_idempotency_key c.host trigger) id s.db.runs
      → let now = c.host.clock (api.allow tenant s.world).1 0 in
        (r : Run) × ((fire c api tenant wf_name trigger s).0 ≡ ok r)
        × (r.id ≡ id)
        × ((fire c api tenant wf_name trigger s).1.db
            ≡ ensure_tenant tenant tenant Fields.end now s.db)
  unfolding fire in_store outside open_run
  fire_known id s named allowed holds =
      let w = (api.allow tenant s.world).1 in
      let db = ensure_tenant tenant tenant Fields.end (c.host.clock w 0) s.db in
      let key = derive_idempotency_key c.host trigger in
      let fresh = c.host.new_id "run" (c.host.tick w) in
      let made =
        again (triggered_run tenant wf trigger key fresh.0) (c.host.clock fresh.1 0) id db
          (rw (runs-ensure_tenant tenant tenant Fields.end (c.host.clock w 0) s.db) holds) in
      (
        made.0,
        rw (named, fire) (rw allowed (rw (made.1, open_run) refl)),
        made.2,
        rw (named, fire) (rw allowed (rw (made.1, open_run) refl)),
      )
