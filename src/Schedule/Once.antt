-- ===== src/Schedule/Once.antt =====
-- A tick of reference/bass/schedule.py that comes again in the same minute, with the firing of
-- reference/bass/api.py.
use Prim.Native.String
use Prim.Native.String.append
use bass_platform.Base.{
  ℕ, String, ◌≡◌, ◌≢◌, refl, ap, ◌∙◌, Bool, true, false, some, List, [], ◌∷◌, lookup, All, arith,
  eq_iff, concat,
}
use bass_platform.Errors.{ok}
use bass_platform.Value.{Fields}
use bass_platform.Host.{Host}
use bass_platform.Models.{Run, Workflow}
use bass_platform.Store.{Db, RunRow}
use bass_platform.Store.Runs.{ensure_tenant}
use bass_platform.Store.Dedup.{Holds}
use bass_platform.Engine.{Config, Sys, M}
use bass_platform.Orchestrator.{derive_idempotency_key}
use bass_platform.Schedule.{Schedule, Datetime, due, tick, fire_each, message_id, trigger_of}
use bass_platform.Api.{ApiService, fire}
use bass_platform.Api.Known.{fire_known}

starts : String → Bool
starts String.[] = false
starts (String.◌∷◌ c s) = true

starts-append : (s t : String) → starts s ≡ true → starts (String.◌++◌ s t) ≡ true
unfolding starts
starts-append String.[] t h = cc
starts-append (String.◌∷◌ c s) t h = ap starts (append.cons c s t)

concat_ne : (rest : List String) → concat ("sched:" ∷ rest) ≢ ""
unfolding starts
concat_ne rest e =
    let yes_starts : starts (concat ("sched:" ∷ rest)) ≡ true =
      starts-append "sched:" (concat rest) refl in
    let no_starts : starts (concat ("sched:" ∷ rest)) ≡ false = rw e refl in cc

key_lem :
    {W : Type 0} (h : Host W) (s : Schedule) (slot : String)
    → derive_idempotency_key h (trigger_of s slot) ≡ message_id s slot
unfolding derive_idempotency_key
key_lem h s slot = ground (arith, eq_iff (message_id s slot) "", concat_ne (s.id ∷ ":" ∷ slot ∷ []))

-- Two databases that differ in the rows of tenants alone.
pub record SameWork (a b : Db) : Type 0 where
  pub runs : a.runs ≡ b.runs
  pub events : a.events ≡ b.events
  pub approvals : a.approvals ≡ b.approvals
  pub effects : a.effects ≡ b.effects

trans : {a b d : Db} → SameWork a b → SameWork b d → SameWork a d
trans x y = record {
  runs = x.runs ∙ y.runs;
  events = x.events ∙ y.events;
  approvals = x.approvals ∙ y.approvals;
  effects = x.effects ∙ y.effects;
}

work-ensure_tenant :
    (id name : String) (settings : Fields) (now : ℕ) (db : Db)
    → SameWork (ensure_tenant id name settings now db) db
unfolding ensure_tenant
work-ensure_tenant id name settings now db = ground arith

module _ {W : Type 0} (c : Config W) (api : ApiService W) (slot : String) where
  abbrev pub fire_schedule : Schedule → Fields → M W Run
  fire_schedule s trigger = fire c api s.tenant_id s.workflow_name trigger

  -- The schedule's workflow is registered, and its run of this minute is in the store.
  abbrev pub Fired : List RunRow → Schedule → Type 0
  Fired rows s =
      ((wf : Workflow) × (lookup s.workflow_name api.workflows_by_name ≡ some wf))
      × ((id : String) × Holds s.tenant_id (message_id s slot) id rows)

  -- The limiter lets each of the calls of `fire` that a tick makes through, at the state in which it is
  -- made.
  abbrev pub Admitted : List Schedule → Sys W → Type 0
  Admitted [] s = Unit
  Admitted (x ∷ rest) s =
      ((api.allow x.tenant_id s.world).0 ≡ true)
      × Admitted rest (fire c api x.tenant_id x.workflow_name (trigger_of x slot) s).1

  -- The runs are, one by one, those that the rows have for the schedules in this minute.
  abbrev pub Stored : List RunRow → List Schedule → List Run → Type 0
  Stored rows [] [] = Unit
  Stored rows [] (_ ∷ _) = ⊥
  Stored rows (_ ∷ _) [] = ⊥
  Stored rows (x ∷ found) (r ∷ runs) =
      Holds x.tenant_id (message_id x slot) r.id rows × Stored rows found runs

  fire_each_again :
      (found : List Schedule) (rows : List RunRow) (s : Sys W)
      → s.db.runs ≡ rows
      → Admitted found s
      → All (Fired rows) found
      → (runs : List Run) × ((fire_each fire_schedule slot found s).0 ≡ ok runs)
        × Stored rows found runs
        × SameWork (fire_each fire_schedule slot found s).1.db s.db
  unfolding fire_each
  fire_each_again [] rows s same admitted h =
      ([], refl, tt, record { runs = refl; events = refl; approvals = refl; effects = refl })
  fire_each_again (x ∷ rest) rows s same_rows (allowed, admitted)
        (((wf, registered), (id, held)), h) =
      let trigger = trigger_of x slot in
      let fired =
        fire_known c api x.tenant_id x.workflow_name wf trigger id s registered allowed
          (rw (key_lem c.host x slot, same_rows) held) in
      let after = (fire c api x.tenant_id x.workflow_name trigger s).1 in
      let same : SameWork after.db s.db =
        rw fired.3 (work-ensure_tenant x.tenant_id x.tenant_id _ _ s.db) in
      let ih = fire_each_again rest rows after (same.runs ∙ same_rows) admitted h in
      (
        fired.0 ∷ ih.0,
        rw (fired.1, fire_schedule) (rw ih.1 refl),
        (rw fired.2 held, ih.2),
        rw (fired.1, fire_schedule) (rw ih.1 (trans ih.3 same)),
      )

  -- If each due schedule has a registered workflow and a run in the store for this minute, and the
  -- limiter lets the calls that the tick makes through, then the tick returns for each schedule the run
  -- that the store has for it, by id, and drives none: no row of runs, events, approvals or effects
  -- changes.
  pub tick_again :
      (schedules found : List Schedule) (now : Datetime) (s : Sys W)
      → now.slot ≡ slot
      → due schedules now ≡ ok found
      → Admitted found s
      → All (Fired s.db.runs) found
      → (runs : List Run) × ((tick fire_schedule schedules now s).0 ≡ ok runs)
        × Stored s.db.runs found runs
        × SameWork (tick fire_schedule schedules now s).1.db s.db
  unfolding tick
  tick_again schedules found now s same_slot matched admitted fired =
      let again = fire_each_again found s.db.runs s refl admitted fired in
      (
        again.0,
        rw (matched, tick) (rw (same_slot, again.1) refl),
        again.2,
        rw (matched, tick) (rw same_slot again.3),
      )
