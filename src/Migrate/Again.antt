-- ===== src/Migrate/Again.antt =====
-- A second run of reference/bass/migrate.py.
use bass_platform.Base.{
  ℕ, suc, String, ◌≡◌, refl, ap, ◌≢◌, true, ◌||◌, inl, inr, List, [], ◌∷◌, ◌++◌, map, contains, All,
  ==_refl, ◌==◌, arith,
}
use bass_platform.Errors.{Raised, Result, ok, err, Result-cases}
use bass_platform.Migrate.{
  Migration, Database, applied, prefix, migrate_one, migrate_all, run_migrations,
}

contains-append :
    (k : String) (rows : List (String × ℕ)) (id : String) (now : ℕ)
    → contains k (map (λ (r : String × ℕ). r.0) (rows ++ (id, now) ∷ []))
      ≡ (contains k (map (λ (r : String × ℕ). r.0) rows) || (id == k))
contains-append k [] id now = ground arith
contains-append k (r ∷ rows) id now = ground (arith, contains-append k rows id now)

prefix_ok :
    (js : List String) (r : Result (List String)) (ids : List String)
    → prefix js r ≡ ok ids
    → (ks : List String) × (r ≡ ok ks)
prefix_ok js (ok ks) ids e = (ks, refl)
prefix_ok js (err x) ids e = cc

err_not_ok : (x : Raised) (ids : List String) → err x ≢ ok ids
err_not_ok x ids e = cc

module _ {D : Type 0} (ddl : String → D → Result D) (clock : ℕ → ℕ) where
  -- What was applied stays applied.
  migrate_one-keeps :
      (done : List String) (m : Migration) (now : ℕ) (db : Database D) (k : String)
      → contains k (applied db) ≡ true
      → contains k (applied (migrate_one ddl clock done m now db).1) ≡ true
  unfolding migrate_one applied
  migrate_one-keeps done m now db k h = elim (Result-cases (ddl m.sql db.schema)) [
    | inl (d, r) ↦ ground (arith, r, contains-append k db.ledger m.id now)
    | inr (x, r) ↦ ground (arith, r)
  ]

  -- A turn that does not raise leaves its migration applied.
  migrate_one-applies :
      (done : List String) (m : Migration) (now : ℕ) (db : Database D) (ids : List String)
      → (contains m.id done ≡ true → contains m.id (applied db) ≡ true)
      → (migrate_one ddl clock done m now db).0 ≡ ok ids
      → contains m.id (applied (migrate_one ddl clock done m now db).1) ≡ true
  unfolding migrate_one applied
  migrate_one-applies done m now db ids h e = elim (Result-cases (ddl m.sql db.schema)) [
    | inl (d, r) ↦ ground (arith, r, ==_refl m.id, contains-append m.id db.ledger m.id now)
    | inr (x, r) ↦ ground (arith, r)
  ]

  -- With everything done, nothing is applied.
  migrate_all-done :
      (done : List String) (i : ℕ) (ms : List Migration) (db : Database D)
      → All (λ (m : Migration). contains m.id done ≡ true) ms
      → migrate_all ddl clock done i ms db ≡ (ok [], db)
  unfolding migrate_all migrate_one
  migrate_all-done done i [] db h = refl
  migrate_all-done done i (m ∷ ms) db (here, h) =
      rw (here, migrate_one) (rw (migrate_all-done done (suc i) ms db h) refl)

  -- After all turns, when none raises, every migration is applied.
  migrate_all-applies :
      (done : List String) (i : ℕ) (ms : List Migration) (db after : Database D) (ids : List String)
      → ((k : String) → contains k done ≡ true → contains k (applied db) ≡ true)
      → migrate_all ddl clock done i ms db ≡ (ok ids, after)
      → ((k : String) → contains k (applied db) ≡ true → contains k (applied after) ≡ true)
        × All (λ (m : Migration). contains m.id (applied after) ≡ true) ms
  unfolding migrate_all
  migrate_all-applies done i [] db after ids known e = (λ k h. rw (ap (λ p. p.1) e) at h, tt)
  migrate_all-applies done i (m ∷ ms) db after ids known e =
      let one = migrate_one ddl clock done m (clock i) db in
      let keeps = migrate_one-keeps done m (clock i) db in
      elim (Result-cases one.0) [
        | inr (x, r) ↦ absurd (err_not_ok x ids (ap (λ p. p.0) (rw r at e)))
        | inl (js, r) ↦
            let rest = migrate_all ddl clock done (suc i) ms one.1 in
            let e' : (prefix js rest.0, rest.1) ≡ (ok ids, after) = rw r at e in
            let (ks, r2) = prefix_ok js rest.0 ids (ap (λ p. p.0) e') in
            let ih =
              migrate_all-applies done (suc i) ms one.1 after ks (λ k h. keeps k (known k h))
                (λ j. (r2 j, (e' j).1)) in
            (
              λ k h. ih.0 k (keeps k h),
              (ih.0 m.id (migrate_one-applies done m (clock i) db js (known m.id) r), ih.1),
            )
      ]

module _ {D : Type 0} (ddl : String → D → Result D) where
  -- If a run of the migrations returns, a second run of them, at any later time, applies none and
  -- leaves the schema and the ledger as they are.
  pub run_migrations_twice :
      (ms : List Migration) (db : Database D) (ids : List String) (clock clock' : ℕ → ℕ)
      → (run_migrations ddl clock ms db).0 ≡ ok ids
      → let after = (run_migrations ddl clock ms db).1 in
        run_migrations ddl clock' ms after ≡ (ok [], after)
  unfolding run_migrations
  run_migrations_twice ms db ids clock clock' e =
      let after = (run_migrations ddl clock ms db).1 in
      migrate_all-done ddl clock' (applied after) 0 ms after
        (migrate_all-applies ddl clock (applied db) 0 ms db after ids (λ k h. h)
          (λ j. (e j, after))).1
