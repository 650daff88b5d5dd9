-- ===== src/Migrate.antt =====
-- reference/bass/migrate.py: `Migrator.run` on PostgreSQL, where the schema change and the row of the
-- ledger are one transaction. The server is outside the repository: what a migration's SQL makes of a
-- schema is a parameter that raises when the server refuses it.
pub mod Again
pub mod Main
use bass_platform.Base.{ℕ, suc, String, Bool, List, [], ◌∷◌, ◌++◌, map, contains, if◌then◌else◌}
use bass_platform.Errors.{Kind, Result, ok, err, raised}

pub record Migration : Type 0 where
  pub id : String
  pub description : String
  pub sql : String

-- The schema, and the rows of `schema_migrations`.
pub record Database (D : Type 0) : Type 0 where
  pub schema : D
  pub ledger : List (String × ℕ)

-- What follows the ids that were newly applied, in front of what the rest applies.
abbrev pub prefix : List String → Result (List String) → Result (List String)
prefix ids (ok rest) = ok (ids ++ rest)
prefix ids (err e) = err e

module _ {D : Type 0} where
  -- `applied`
  unfoldable pub applied : Database D → List String
  applied db = map (λ (r : String × ℕ). r.0) db.ledger

  abbrev pub then_newly :
      Result (List String)
      → (Database D → Result (List String) × Database D)
      → Database D
      → Result (List String) × Database D
  then_newly (ok ids) rest db = let (r, db') = rest db in (prefix ids r, db')
  then_newly (err e) rest db = (err e, db)

  module _ (ddl : String → D → Result D) (clock : ℕ → ℕ) where
    -- The row of the ledger, with the commit; a second row for an id is refused and rolled back.
    abbrev pub record_migration :
        Migration → ℕ → Database D → Result D → Result (List String) × Database D
    record_migration m now db (ok schema) =
        if contains m.id (applied db)
        then (raised Kind.integrity_error m.id, db)
        else (ok (m.id ∷ []), record { schema = schema; ledger = db.ledger ++ (m.id, now) ∷ [] })
    record_migration m now db (err e) = (err e, db)

    -- One turn of the loop; `done` was read before it.
    unfoldable pub migrate_one :
        List String → Migration → ℕ → Database D → Result (List String) × Database D
    unfolding applied
    migrate_one done m now db =
        if contains m.id done then (ok [], db) else record_migration m now db (ddl m.sql db.schema)

    unfoldable pub migrate_all :
        List String → ℕ → List Migration → Database D → Result (List String) × Database D
    unfolding migrate_one
    migrate_all done i [] db = (ok [], db)
    migrate_all done i (m ∷ rest) db =
        let (r, db') = migrate_one done m (clock i) db in
        then_newly r (migrate_all done (suc i) rest) db'

    -- `run`
    unfoldable pub run_migrations : List Migration → Database D → Result (List String) × Database D
    unfolding applied migrate_all
    run_migrations migrations db = migrate_all (applied db) 0 migrations db
