-- ===== src/Migrate/Main.antt =====
-- reference/bass/migrate.py: the dialects of a `Migrator`, its run on SQLite, and `main`. The texts of
-- the PostgreSQL scripts, which reference/bass/store_postgres.py holds, are parameters, and so is
-- `repr`; what is printed is the list of messages of a result.
use bass_platform.Base.{
  ℕ, suc, String, Bool, true, false, Option, none, some, List, [], ◌∷◌, ◌++◌, contains, ◌||◌, ◌==◌,
  if◌then◌else◌, concat, length,
}
use bass_platform.Errors.{Kind, Raised, Result, ok, err, raised}
use bass_platform.Text.{starts_with}
use bass_platform.Settings.{Environ, text_of}
use bass_platform.Migrate.{Migration, Database, applied, then_newly, run_migrations}

pub data Dialect : Type 0 where
  postgres sqlite : Dialect

pub record Migrator : Type 0 where
  pub dialect : Dialect
  pub url : String
  pub override : Option (List Migration)

abbrev pub is_given : {A : Type 0} → Option A → Bool
is_given none = false
is_given (some _) = true

-- `Migrator(url, migrations)`
unfoldable pub new_migrator : (String → String) → String → Option (List Migration) → Result Migrator
new_migrator repr url migrations =
    if starts_with "postgres://" url || starts_with "postgresql://" url
    then ok (record { dialect = Dialect.postgres; url = url; override = migrations })
    else if starts_with "sqlite://" url || is_given migrations
    then ok (record { dialect = Dialect.sqlite; url = url; override = migrations })
    else raised Kind.config_error (
        concat (
          "migrations target PostgreSQL; the SQLite store manages its own schema. Got url: "
          ∷ repr url
          ∷ []))

-- `POSTGRES_MIGRATIONS`
abbrev pub postgres_migrations : String → String → List Migration
postgres_migrations schema_sql rls_sql =
    record {
      id = "0001_baseline_schema";
      description = "core tables, indexes and constraints";
      sql = schema_sql;
    }
    ∷ record {
      id = "0002_row_level_security";
      description = "per-tenant row-level security policies";
      sql = rls_sql;
    }
    ∷ []

-- `migrations`
abbrev pub migrations_of : List Migration → Migrator → List Migration
migrations_of defaults m = elim m.override [ none ↦ defaults | some given ↦ given ]

-- `', '.join(id :: rest)`
abbrev join : String → List String → String
join id [] = id
join id (next ∷ rest) = concat (id ∷ ", " ∷ join next rest ∷ [])

-- `args[0] if args else default`
abbrev first_or : String → List String → String
first_or default [] = default
first_or default (a ∷ _) = a

-- What a script does on a server, in a transaction, and on SQLite, statement by statement.
pub record Drivers (D : Type 0) : Type 0 where
  pub ddl : String → D → Result D
  pub script : String → D → D × Option Raised

-- The exit code, and the line that is printed.
abbrev pub summary : (ℕ → String) → List String → ℕ × String
summary decimal [] = (0, "database is up to date; nothing to apply")
summary decimal (id ∷ rest) =
    (0, concat ("applied " ∷ decimal (length (id ∷ rest)) ∷ " migration(s): " ∷ join id rest ∷ []))

module _ {D : Type 0} where
  -- The INSERT of the ledger on SQLite: the script before it has been committed, so a refusal rolls
  -- back nothing else.
  abbrev pub record_on_sqlite :
      Migration → ℕ → Database D → Option Raised → Result (List String) × Database D
  record_on_sqlite m now db (some e) = (err e, db)
  record_on_sqlite m now db none =
      if contains m.id (applied db)
      then (raised Kind.integrity_error m.id, db)
      else (ok (m.id ∷ []), record db { ledger = db.ledger ++ (m.id, now) ∷ [] })

  module _ (script : String → D → D × Option Raised) (clock : ℕ → ℕ) where
    -- `executescript` commits each statement; `script` gives the schema after those that ran, and
    -- what the next one raised.
    unfoldable pub migrate_one_on_sqlite :
        List String → Migration → ℕ → Database D → Result (List String) × Database D
    unfolding applied
    migrate_one_on_sqlite done m now db =
        if contains m.id done
        then (ok [], db)
        else let (schema, failure) = script m.sql db.schema in
          record_on_sqlite m now (record db { schema = schema }) failure

    unfoldable pub migrate_all_on_sqlite :
        List String → ℕ → List Migration → Database D → Result (List String) × Database D
    unfolding migrate_one_on_sqlite
    migrate_all_on_sqlite done i [] db = (ok [], db)
    migrate_all_on_sqlite done i (m ∷ rest) db =
        let (r, db') = migrate_one_on_sqlite done m (clock i) db in
        then_newly r (migrate_all_on_sqlite done (suc i) rest) db'

  -- `Migrator.run`
  unfoldable pub run_migrator :
      Drivers D
      → (ℕ → ℕ)
      → List Migration
      → Migrator
      → Database D
      → Result (List String) × Database D
  unfolding applied run_migrations migrate_all_on_sqlite
  run_migrator drivers clock defaults m db = elim m.dialect [
    | postgres ↦ run_migrations drivers.ddl clock (migrations_of defaults m) db
    | sqlite ↦
        migrate_all_on_sqlite drivers.script clock (applied db) 0 (migrations_of defaults m) db
  ]

  abbrev exit_with :
      (ℕ → String) → Result (List String) × Database D → Result (ℕ × String) × Database D
  exit_with decimal (ok ids, db) = (ok (summary decimal ids), db)
  exit_with decimal (err e, db) = (err e, db)

  abbrev run_at :
      Drivers D
      → (ℕ → ℕ)
      → List Migration
      → (ℕ → String)
      → Result Migrator
      → Database D
      → Result (ℕ × String) × Database D
  run_at drivers clock defaults decimal (err e) db = (err e, db)
  run_at drivers clock defaults decimal (ok m) db =
      exit_with decimal (run_migrator drivers clock defaults m db)

  -- `main`, with `repr` and the printing of a number
  unfoldable pub main :
      Drivers D
      → (ℕ → ℕ)
      → List Migration
      → (String → String)
      → (ℕ → String)
      → Environ
      → List String
      → Database D
      → Result (ℕ × String) × Database D
  unfolding new_migrator run_migrator
  main drivers clock defaults repr decimal env args db =
      let url = first_or (text_of env "BASS_DB_URL" "") args in
      if url == ""
      then (ok (2, "usage: bass-migrate <postgres-url>   (or set BASS_DB_URL)"), db)
      else run_at drivers clock defaults decimal (new_migrator repr url none) db
