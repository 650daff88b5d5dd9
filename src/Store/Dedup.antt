-- ===== src/Store/Dedup.antt =====
-- Trigger idempotency of reference/bass/store.py: a tenant's idempotency key names one run, whatever
-- is done to the store in between.
use bass_platform.Base.{
  ==_refl, ◌≢◌, when_row, ℕ, String, ◌≡◌, refl, Bool, true, false, Option, none, some, List, [],
  ◌∷◌, find_by, find_by-append, find_by-update_by, find_by_passes, arith, Option-cases, inl, inr,
}
use bass_platform.Errors.{Result, ok, err}
use bass_platform.Models.{Run}
use bass_platform.Redaction.{Patterns}
use bass_platform.Store.{RunRow, Db}
use bass_platform.Store.Runs.{
  existing_run, create_or_get_run, load_run_by_key, new_row, conflicts, is_key_of,
}
use bass_platform.Store.Rows.{RunsChange, apply_change}
use bass_platform.Store.History.{Op, apply, apply_all}

-- The first run under a tenant's key has a given id.
abbrev pub Holds : String → String → String → List RunRow → Type 0
Holds t key id rows = (r : RunRow) × (find_by (is_key_of t key) rows ≡ some r) × (r.run.id ≡ id)

change-Holds :
    (t key id : String) (xs ys : List RunRow)
    → RunsChange xs ys
    → Holds t key id xs
    → Holds t key id ys
change-Holds t key id xs ys (RunsChange.same e) h = rw e h
change-Holds t key id xs ys (RunsChange.added r e) h =
    (h.0, rw e (rw (find_by-append (is_key_of t key) xs (r ∷ [])) (rw h.1)), h.2)
change-Holds t key id xs ys (RunsChange.updated p f fid ft fk fi e) h = (
  when_row p f h.0,
  rw e (rw (find_by-update_by (is_key_of t key) p f xs (λ r. ground (arith, ft r, fk r))) (rw h.1)),
  ground (arith, fid h.0, h.2),
)

apply_all-Holds :
    (p : Patterns) (t key id : String) (ops : List Op) (db : Db)
    → Holds t key id db.runs
    → Holds t key id (apply_all p ops db).runs
apply_all-Holds p t key id [] db h = h
apply_all-Holds p t key id (op ∷ rest) db h =
    apply_all-Holds p t key id rest (apply p op db)
      (change-Holds t key id db.runs (apply p op db).runs (apply_change p op db) h)

find_by_weaker :
    {A : Type 0} (p q : A → Bool) (xs : List A)
    → ((x : A) → q x ≡ true → p x ≡ true)
    → find_by p xs ≡ none
    → find_by q xs ≡ none
find_by_weaker p q [] h e = refl
find_by_weaker p q (x ∷ xs) h e = ground (arith, h x, find_by_weaker p q xs h)

find_by_stronger :
    {A : Type 0} (p q : A → Bool) (xs : List A) (r : A)
    → ((x : A) → q x ≡ true → p x ≡ true)
    → find_by q xs ≡ some r
    → (r' : A) × (find_by p xs ≡ some r')
find_by_stronger p q xs r h e = elim (Option-cases (find_by p xs)) [
  | inr found ↦ found
  | inl missing ↦ absurd (cc (find_by_weaker p q xs h missing))
]

key_conflicts :
    (run : Run) (x : RunRow)
    → is_key_of run.tenant_id run.idempotency_key x ≡ true
    → conflicts run x ≡ true
key_conflicts run x h = ground arith

not_created : (r : Result (Option Run)) (run : Run) → existing_run r ≢ ok (run, true)
not_created (ok (some x)) run h = cc
not_created (ok none) run h = cc
not_created (err e) run h = cc

create-Holds :
    (run : Run) (now : ℕ) (db : Db)
    → (create_or_get_run run now db).0 ≡ ok (run, true)
    → Holds run.tenant_id run.idempotency_key run.id (create_or_get_run run now db).1.runs
unfolding create_or_get_run
create-Holds run now db h = elim (Option-cases (find_by (conflicts run) db.runs)) [
  | inr (r, e) ↦ absurd (
      not_created (load_run_by_key run.tenant_id run.idempotency_key db) run
        (rw (e, create_or_get_run) at h))
  | inl e ↦
      rw (e, create_or_get_run)
        (
          new_row run now,
          rw
              (find_by-append (is_key_of run.tenant_id run.idempotency_key) db.runs
                (new_row run now ∷ []))
              (rw
                (find_by_weaker (conflicts run) (is_key_of run.tenant_id run.idempotency_key)
                  db.runs (key_conflicts run) e)
                (ground (arith, ==_refl run.tenant_id, ==_refl run.idempotency_key))),
          refl,
        )
]

-- A trigger whose key is taken gets the run that holds it, and the store is left as it is.
pub again :
    (run : Run) (now : ℕ) (id : String) (db : Db)
    → Holds run.tenant_id run.idempotency_key id db.runs
    → (r : Run) × (create_or_get_run run now db ≡ (ok (r, false), db)) × (r.id ≡ id)
unfolding create_or_get_run load_run_by_key
again run now id db h =
    let own = is_key_of run.tenant_id run.idempotency_key in
    let taken = find_by_stronger (conflicts run) own db.runs h.0 (key_conflicts run) h.1 in
    (
      h.0.run,
      rw (taken.1, create_or_get_run)
          (rw (h.1, load_run_by_key) (ground (arith, find_by_passes own db.runs h.0 h.1))),
      h.2,
    )

-- Once a run has been created for a key, every later trigger of the tenant with that key gets that
-- run back, not a new one, and changes nothing in the store; this holds after any calls in between,
-- of any tenants, in any order.
pub dedup :
    (p : Patterns) (run run' : Run) (now now' : ℕ) (ops : List Op) (db : Db)
    → (create_or_get_run run now db).0 ≡ ok (run, true)
    → run'.tenant_id ≡ run.tenant_id
    → run'.idempotency_key ≡ run.idempotency_key
    → let later = apply_all p ops (create_or_get_run run now db).1 in
      (r : Run) × (create_or_get_run run' now' later ≡ (ok (r, false), later)) × (r.id ≡ run.id)
dedup p run run' now now' ops db made same_tenant same_key =
    again run' now' run.id (apply_all p ops (create_or_get_run run now db).1) (
      rw (same_tenant, same_key)
        (apply_all-Holds p run.tenant_id run.idempotency_key run.id ops
          (create_or_get_run run now db).1 (create-Holds run now db made)))
