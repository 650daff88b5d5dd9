-- ===== src/Store/Ledger.antt =====
-- reference/bass/store.py: the ledger of side effects, keyed by an idempotency key alone; the tenant
-- is compared after the row is found.
use bass_platform.Base.{
  ℕ, String, Bool, Option, none, some, [], ◌∷◌, ◌++◌, find_by, ◌==◌, if◌then◌else◌,
}
use bass_platform.Errors.{Kind, Result, ok, raised}
use bass_platform.Value.{Value, not_null}
use bass_platform.Store.{EffectRow, Db}

abbrev pub is_effect : String → EffectRow → Bool
is_effect key r = r.idempotency_key == key

-- `none` is Python's `None`: no row, or a recorded result that is itself `None`.
unfoldable pub get_effect : String → String → Db → Result (Option Value)
get_effect tenant key db = elim (find_by (is_effect key) db.effects) [
  | none ↦ ok none
  | some r ↦
      if r.tenant_id == tenant
      then ok (not_null r.result)
      else raised Kind.tenant_isolation "effect belongs to a different tenant"
]

abbrev pub new_effect : String → String → String → Option String → String → Value → ℕ → EffectRow
new_effect tenant key run_id step_id tool result now = record {
  idempotency_key = key;
  run_id = run_id;
  tenant_id = tenant;
  step_id = step_id;
  tool = tool;
  result = result;
  created_at = now;
}

-- `INSERT OR IGNORE`
unfoldable pub record_effect :
    String → String → String → Option String → String → Value → ℕ → Db → Db
record_effect tenant key run_id step_id tool result now db =
    elim (find_by (is_effect key) db.effects) [
      | some _ ↦ db
      | none ↦ record db {
        effects = db.effects ++ new_effect tenant key run_id step_id tool result now ∷ [];
      }
    ]
