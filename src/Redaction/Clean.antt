-- ===== src/Redaction/Clean.antt =====
-- What redaction makes of a value: under a secret key stands the mask, every other text has been
-- through all patterns, at any depth; keys and shape stay.
use bass_platform.Base.{
  String, ◌≡◌, refl, Bool, true, false, Option, none, some, if◌then◌else◌, Bool-cases, inl, inr,
  ◌==◌, eq_iff, List, [], ◌∷◌,
}
use bass_platform.Value.{Value, Items, Fields, get}
use bass_platform.Redaction.{
  Patterns, redacted, scrub_str, apply_subs, redact, redact_items, redact_fields,
}

-- The second text is what all the substitutions make of the first, one after the other.
abbrev pub Scrubbed : List (String → String) → String → String → Type 0
Scrubbed [] t s = s ≡ t
Scrubbed (sub ∷ rest) t s = (u : String) × (u ≡ sub t) × Scrubbed rest u s

-- An entry of a clean dict: the key is secret and the value is the mask, or the value is clean.
abbrev CleanEntry : Bool → Value → Type 0 → Type 0
CleanEntry true w clean = w ≡ Value.str "***REDACTED***"
CleanEntry false w clean = clean

-- `Clean p v w`: the value w is a clean copy of v.
abbrev mutual
  pub Clean : Patterns → Value → Value → Type 0
  Clean p Value.null w = w ≡ Value.null
  Clean p (Value.bool b) w = w ≡ Value.bool b
  Clean p (Value.num n) w = w ≡ Value.num n
  Clean p (Value.str t) w = (s : String) × (w ≡ Value.str s) × Scrubbed p.subs t s
  Clean p (Value.arr xs) w = (ys : Items) × (w ≡ Value.arr ys) × CleanItems p xs ys
  Clean p (Value.obj d) w = (e : Fields) × (w ≡ Value.obj e) × CleanFields p d e

  pub CleanItems : Patterns → Items → Items → Type 0
  CleanItems p Items.nil ys = ys ≡ Items.nil
  CleanItems p (Items.item v xs) ys =
      (w : Value) × (zs : Items) × (ys ≡ Items.item w zs) × Clean p v w × CleanItems p xs zs

  pub CleanFields : Patterns → Fields → Fields → Type 0
  CleanFields p Fields.end e = e ≡ Fields.end
  CleanFields p (Fields.field k v d) e =
      (w : Value) × (f : Fields) × (e ≡ Fields.field k w f)
      × CleanEntry (p.is_secret k) w (Clean p v w)
      × CleanFields p d f

apply_subs-Scrubbed :
    (subs : List (String → String)) (t : String) → Scrubbed subs t (apply_subs subs t)
apply_subs-Scrubbed [] t = refl
apply_subs-Scrubbed (sub ∷ rest) t = (sub t, refl, apply_subs-Scrubbed rest (sub t))

entry-Clean :
    (p : Patterns) (b : Bool) (v w : Value)
    → Clean p v w
    → (let out = if b then Value.str redacted else w in CleanEntry b out (Clean p v out))
entry-Clean p true v w h = refl
entry-Clean p false v w h = h

mutual
  unfolding redact scrub_str

  clean : (p : Patterns) (v : Value) → Clean p v (redact p v)
  clean p Value.null = refl
  clean p (Value.bool b) = refl
  clean p (Value.num n) = refl
  clean p (Value.str s) = (scrub_str p s, refl, apply_subs-Scrubbed p.subs s)
  clean p (Value.arr xs) = (redact_items p xs, refl, clean_items p xs)
  clean p (Value.obj d) = (redact_fields p d, refl, clean_fields p d)

  clean_items : (p : Patterns) (xs : Items) → CleanItems p xs (redact_items p xs)
  clean_items p Items.nil = refl
  clean_items p (Items.item v xs) =
      (redact p v, redact_items p xs, refl, clean p v, clean_items p xs)

  clean_fields : (p : Patterns) (d : Fields) → CleanFields p d (redact_fields p d)
  clean_fields p Fields.end = refl
  clean_fields p (Fields.field k v d) = (
    if p.is_secret k then Value.str redacted else redact p v,
    redact_fields p d,
    refl,
    entry-Clean p (p.is_secret k) v (redact p v) (clean p v),
    clean_fields p d,
  )

-- The redacted value is a clean copy of the original, at any depth: a secret key holds the text
-- "***REDACTED***" alone, every other text is what the patterns' substitutions make of the original
-- text, all of them and in their order, and shape, keys and all other values are as they were.
pub redact-Clean : (p : Patterns) (v : Value) → Clean p v (redact p v)
redact-Clean p v = clean p v

abbrev masked : Patterns → String → Option Value → Option Value
masked p k none = none
masked p k (some v) = some (if p.is_secret k then Value.str redacted else redact p v)

-- A redacted dict has the keys of the original; under each stands the mask if the key is secret,
-- and otherwise the redacted value.
get-redact_fields :
    (p : Patterns) (k : String) (d : Fields) → get k (redact_fields p d) ≡ masked p k (get k d)
unfolding redact
get-redact_fields p k Fields.end = refl
get-redact_fields p k (Fields.field j v d) = elim (Bool-cases (j == k)) [
  | inl same ↦ rw same (rw ((eq_iff j k).0 same) refl)
  | inr differs ↦ rw differs (get-redact_fields p k d)
]
