-- ===== src/Store/History.antt =====
-- The calls that change the store (reference/bass/store.py, `SQLiteStore`), as data: any
-- interleaving of calls by any number of tenants and threads is a list of them, since each holds
-- the store's lock.
use bass_platform.Base.{ℕ, String, Bool, Option, List, [], ◌∷◌}
use bass_platform.Value.{Value, Fields}
use bass_platform.Models.{Run, Event}
use bass_platform.Redaction.{Patterns}
use bass_platform.Store.{Db}
use bass_platform.Store.Runs.{ensure_tenant, create_or_get_run, cancel_run}
use bass_platform.Store.Trace.{checkpoint, purge_event_payloads}
use bass_platform.Store.Ledger.{record_effect}
use bass_platform.Store.Approvals.{create_approval, resolve_approval}

pub data Op : Type 0 where
  ensure : String → String → Fields → ℕ → Op
  create : Run → ℕ → Op
  save : (ℕ → ℕ) → Run → List Event → Op
  cancel : String → String → ℕ → Op
  effect : String → String → String → Option String → String → Value → ℕ → Op
  request : String → String → String → String → List String → ℕ → Op
  resolve : String → String → Bool → String → String → ℕ → Op
  purge : String → ℕ → Op

-- The tenant that a call acts for.
abbrev pub op_tenant : Op → String
op_tenant (Op.ensure t _ _ _) = t
op_tenant (Op.create run _) = run.tenant_id
op_tenant (Op.save _ run _) = run.tenant_id
op_tenant (Op.cancel t _ _) = t
op_tenant (Op.effect t _ _ _ _ _ _) = t
op_tenant (Op.request _ t _ _ _ _) = t
op_tenant (Op.resolve t _ _ _ _ _) = t
op_tenant (Op.purge t _) = t

-- The database that a call leaves, whether it returns or raises.
abbrev pub apply : Patterns → Op → Db → Db
apply p (Op.ensure t name settings now) db = ensure_tenant t name settings now db
apply p (Op.create run now) db = (create_or_get_run run now db).1
apply p (Op.save clock run events) db = (checkpoint p clock run events db).1
apply p (Op.cancel t id now) db = (cancel_run t id now db).1
apply p (Op.effect t key id step tool v now) db = record_effect t key id step tool v now db
apply p (Op.request aid t id step approvers now) db =
    (create_approval aid t id step approvers now db).1
apply p (Op.resolve t aid approved by note now) db =
    (resolve_approval t aid approved by note now db).1
apply p (Op.purge t before) db = (purge_event_payloads t before db).1

abbrev pub apply_all : Patterns → List Op → Db → Db
apply_all p [] db = db
apply_all p (op ∷ rest) db = apply_all p rest (apply p op db)
