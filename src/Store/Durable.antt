-- ===== src/Store/Durable.antt =====
-- What the ledger of reference/bass/store.py promises the engine: the first result that is recorded
-- under a key stays, and is given to its tenant alone.
use bass_platform.Base.{
  suc, String, ◌≡◌, refl, Option, none, some, List, [], ◌∷◌, find_by, find_by-append, if◌then◌else◌,
  ℕ, arith, ◌==◌, ==_refl, inl, inr,
}
use bass_platform.Errors.{Kind, Result, ok, err, raised, Result-cases}
use bass_platform.Value.{Value, not_null}
use bass_platform.Models.{Run, Event}
use bass_platform.Redaction.{Patterns, redact_fields}
use bass_platform.Store.{transaction, EffectRow, Db, append_event, assert_owns}
use bass_platform.Store.Runs.{ensure_tenant, create_or_get_run, cancel_run}
use bass_platform.Store.Trace.{insert_events, checkpoint, purge_event_payloads, update_run}
use bass_platform.Store.Ledger.{get_effect, record_effect, is_effect, new_effect}
use bass_platform.Store.Approvals.{create_approval, resolve_approval}
use bass_platform.Store.History.{Op, apply, apply_all}

effects-insert_events :
    (p : Patterns) (t : String) (clock : ℕ → ℕ) (i : ℕ) (events : List Event) (db : Db)
    → (insert_events p t clock i events db).1.effects ≡ db.effects
unfolding insert_events
effects-insert_events p t clock i [] db = refl
effects-insert_events p t clock i (ev ∷ rest) db = ground (
  arith,
  effects-insert_events p t clock (suc i) rest
      (append_event (record ev { payload = redact_fields p ev.payload }) (clock i) db),
)

effects-transaction :
    (r : Result (Unit {0}) × Db) (db : Db)
    → r.1.effects ≡ db.effects
    → (transaction r db).1.effects ≡ db.effects
effects-transaction (ok _, after) db h = h
effects-transaction (err _, after) db h = refl

effects-checkpoint :
    (p : Patterns) (clock : ℕ → ℕ) (run : Run) (events : List Event) (db : Db)
    → (checkpoint p clock run events db).1.effects ≡ db.effects
unfolding checkpoint
effects-checkpoint p clock run events db =
    elim (Result-cases (assert_owns run.tenant_id run.id db)) [
      | inr (e, refused) ↦ rw (refused, checkpoint)
      | inl (_, owned) ↦
          rw (owned, checkpoint)
            (effects-transaction _ db
              (effects-insert_events p run.tenant_id clock 1 events (update_run (clock 0) run db)))
    ]

-- A row of the ledger is never changed or removed.
find_effect-apply :
    (p : Patterns) (op : Op) (key : String) (r : EffectRow) (db : Db)
    → find_by (is_effect key) db.effects ≡ some r
    → find_by (is_effect key) (apply p op db).effects ≡ some r
unfolding purge_event_payloads ensure_tenant record_effect create_approval resolve_approval
    cancel_run create_or_get_run
find_effect-apply p (Op.save clock run events) key r db h =
    rw (effects-checkpoint p clock run events db) h
find_effect-apply p (Op.effect t k id step tool v now) key r db h =
    ground
      (arith, find_by-append (is_effect key) db.effects (new_effect t k id step tool v now ∷ []))
find_effect-apply p (Op.create run now) key r db h = ground arith
find_effect-apply p (Op.cancel t id now) key r db h = ground arith
find_effect-apply p (Op.ensure t name settings now) key r db h = ground arith
find_effect-apply p (Op.request aid t id step approvers now) key r db h = ground arith
find_effect-apply p (Op.resolve t aid approved by note now) key r db h = ground arith
find_effect-apply p (Op.purge t before) key r db h = h

pub find_effect-apply_all :
    (p : Patterns) (ops : List Op) (key : String) (r : EffectRow) (db : Db)
    → find_by (is_effect key) db.effects ≡ some r
    → find_by (is_effect key) (apply_all p ops db).effects ≡ some r
find_effect-apply_all p [] key r db h = h
find_effect-apply_all p (op ∷ rest) key r db h =
    find_effect-apply_all p rest key r (apply p op db) (find_effect-apply p op key r db h)

find_new_effect :
    (t key id : String) (step : Option String) (tool : String) (v : Value) (now : ℕ) (db : Db)
    → find_by (is_effect key) db.effects ≡ none
    → find_by (is_effect key) (record_effect t key id step tool v now db).effects
      ≡ some (new_effect t key id step tool v now)
unfolding record_effect
find_new_effect t key id step tool v now db h =
    rw (h, record_effect)
      (rw (find_by-append (is_effect key) db.effects (new_effect t key id step tool v now ∷ []))
        (rw (h, ==_refl key)))

-- A result recorded under a free key is what `get_effect` returns from then on to the tenant that
-- recorded it, whatever calls follow; every other tenant's read raises `TenantIsolationError`. A
-- result that is `None` reads as if nothing had been recorded.
pub get_effect-record_effect :
    (p : Patterns) (ops : List Op) (t u key id : String) (step : Option String) (tool : String)
    (v : Value) (now : ℕ) (db : Db)
    → find_by (is_effect key) db.effects ≡ none
    → get_effect u key (apply_all p ops (record_effect t key id step tool v now db)) ≡ (
        if t == u
        then ok (not_null v)
        else raised Kind.tenant_isolation "effect belongs to a different tenant")
unfolding get_effect
get_effect-record_effect p ops t u key id step tool v now db free = rw (
  find_effect-apply_all p ops key (new_effect t key id step tool v now)
      (record_effect t key id step tool v now db)
      (find_new_effect t key id step tool v now db free),
  get_effect,
)
