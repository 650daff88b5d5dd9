-- ===== src/Accounting/Ledger.antt =====
-- The accounting system of reference/bass/tools.py posts once for one key.
use text.Mathlib.TextLemmas.{append-eq-nil_iff}
use bass_platform.Base.{
  ◌≢◌, String, eq_iff, ℕ, ◌≡◌, refl, true, none, some, List, [], ◌∷◌, ◌++◌, nat_eq, arith, ==_refl,
  Bool-cases, Option-cases, inl, inr,
}
use bass_platform.Errors.{ok, Result-cases}
use bass_platform.Value.{put, get-put, Value, Fields, pos, negsuc}
use bass_platform.Engine.Steps.{effect_key}
use bass_platform.Models.{Outcome}
use bass_platform.Accounting.{
  Key, Entries, same_key, key_of, find_entry, new_entry, create_ap_entry,
}

nat_eq_refl : (n : ℕ) → nat_eq n n ≡ true
nat_eq_refl n = ground arith

same_key_refl : (k : Key) → same_key k k ≡ true
same_key_refl Key.absent = refl
same_key_refl (Key.text s) = ==_refl s
same_key_refl (Key.number (pos n)) = nat_eq_refl n
same_key_refl (Key.number (negsuc n)) = nat_eq_refl n

find_entry-append :
    (k : Key) (xs ys : Entries)
    → find_entry k (xs ++ ys) ≡ elim (find_entry k xs) [ none ↦ find_entry k ys | some e ↦ some e ]
find_entry-append k [] ys = refl
find_entry-append k ((j, e) ∷ xs) ys = elim (Bool-cases (same_key j k)) [
  | inl same ↦ rw same refl
  | inr other ↦ rw other (find_entry-append k xs ys)
]

-- The calls of a sequence, in order.
abbrev pub create_all : List Fields → Entries → Entries
create_all [] entries = entries
create_all (args ∷ rest) entries = create_all rest (create_ap_entry args entries).1

-- An entry that is there stays, whatever is posted.
create-keeps :
    (args : Fields) (k : Key) (e : Fields) (entries : Entries)
    → find_entry k entries ≡ some e
    → find_entry k (create_ap_entry args entries).1 ≡ some e
unfolding create_ap_entry
create-keeps args k e entries h = elim (Result-cases (key_of args)) [
  | inr (x, bad) ↦ rw (bad, create_ap_entry) h
  | inl (j, good) ↦ elim (Option-cases (find_entry j entries)) [
    | inr (f, found) ↦ rw (good, found, create_ap_entry) h
    | inl free ↦
        rw (good, free, create_ap_entry)
          (rw (find_entry-append k entries ((j, new_entry args) ∷ [])) (rw h refl))
  ]
]

create_all-keeps :
    (calls : List Fields) (k : Key) (e : Fields) (entries : Entries)
    → find_entry k entries ≡ some e
    → find_entry k (create_all calls entries) ≡ some e
create_all-keeps [] k e entries h = h
create_all-keeps (args ∷ rest) k e entries h =
    create_all-keeps rest k e (create_ap_entry args entries).1 (create-keeps args k e entries h)

-- What a call leaves under its key is what it returned.
create-finds :
    (args : Fields) (k : Key) (entries : Entries)
    → key_of args ≡ ok k
    → (e : Fields) × ((create_ap_entry args entries).0 ≡ Outcome.returned (Value.obj e))
      × (find_entry k (create_ap_entry args entries).1 ≡ some e)
unfolding create_ap_entry
create-finds args k entries good = elim (Option-cases (find_entry k entries)) [
  | inr (f, found) ↦
      (f, rw (good, found, create_ap_entry) refl, rw (good, found, create_ap_entry) found)
  | inl free ↦ (
    new_entry args,
    rw (good, free, create_ap_entry) refl,
    rw (good, free, create_ap_entry)
        (rw (find_entry-append k entries ((k, new_entry args) ∷ []))
          (rw free (rw (same_key_refl k) refl))),
  )
]

create-found :
    (args : Fields) (k : Key) (e : Fields) (entries : Entries)
    → key_of args ≡ ok k
    → find_entry k entries ≡ some e
    → create_ap_entry args entries ≡ (Outcome.returned (Value.obj e), entries)
unfolding create_ap_entry
create-found args k e entries good found = rw (good, found, create_ap_entry) refl

-- A call that has the key of an earlier one returns what the earlier one returned and posts nothing,
-- whatever other calls came between and whatever its other arguments are.
create_ap_entry-again :
    (args again : Fields) (k : Key) (calls : List Fields) (entries : Entries)
    → key_of args ≡ ok k
    → key_of again ≡ ok k
    → let first = create_ap_entry args entries in
      create_ap_entry again (create_all calls first.1) ≡ (first.0, create_all calls first.1)
create_ap_entry-again args again k calls entries h1 h2 =
    let first = create_ap_entry args entries in
    let (e, returned, held) = create-finds args k entries h1 in
    rw
      (create-found again k e (create_all calls first.1) h2
        (create_all-keeps calls k e first.1 held))
      (rw returned refl)

-- The key that the engine passes is the key of the call.
key_of-put :
    (key : String) (args : Fields)
    → key ≢ ""
    → key_of (put "_idempotency_key" (Value.str key) args) ≡ ok (Key.text key)
unfolding key_of
key_of-put key args given =
    rw (get-put "_idempotency_key" "_idempotency_key" (Value.str key) args)
      (ground (arith, eq_iff key ""))

-- The engine's key is never empty: it has the colons.
effect_key_given : (run_id step_id tool : String) → effect_key run_id step_id tool ≢ ""
effect_key_given run_id step_id tool h =
    let colon = (append-eq-nil_iff.0 (append-eq-nil_iff.0 h).1).0 in absurd (cc colon)

-- A call that the engine makes again for the same run and step, with whatever arguments, returns what
-- the first returned and posts nothing, whatever other calls came between.
pub repeated_call_posts_nothing :
    (run_id step_id tool : String) (args again : Fields) (calls : List Fields) (entries : Entries)
    → let key = Value.str (effect_key run_id step_id tool) in
      let first = create_ap_entry (put "_idempotency_key" key args) entries in
      create_ap_entry (put "_idempotency_key" key again) (create_all calls first.1)
      ≡ (first.0, create_all calls first.1)
repeated_call_posts_nothing run_id step_id tool args again calls entries =
    let key = effect_key run_id step_id tool in
    let given = effect_key_given run_id step_id tool in
    create_ap_entry-again (put "_idempotency_key" (Value.str key) args)
      (put "_idempotency_key" (Value.str key) again) (Key.text key) calls entries
      (key_of-put key args given) (key_of-put key again given)
