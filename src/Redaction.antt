-- ===== src/Redaction.antt =====
-- reference/bass/redaction.py: secrets and personal data masked at write time. The regular
-- expressions are compiled by the standard library's `re`; what the code uses of them is a record:
-- `_SECRET_KEYS.search` as a test on key names, and each value pattern's `sub` as a function.
pub mod Clean
use bass_platform.Base.{String, Bool, List, [], ◌∷◌, if◌then◌else◌}
use bass_platform.Value.{Value, Items, Fields}

pub record Patterns : Type 0 where
  pub is_secret : String → Bool
  pub subs : List (String → String)

abbrev pub redacted : String
redacted = "***REDACTED***"

abbrev pub apply_subs : List (String → String) → String → String
apply_subs [] out = out
apply_subs (sub ∷ rest) out = apply_subs rest (sub out)

unfoldable pub scrub_str : Patterns → String → String
scrub_str p value = apply_subs p.subs value

unfoldable mutual
  pub redact : Patterns → Value → Value
  redact p Value.null = Value.null
  redact p (Value.bool b) = Value.bool b
  redact p (Value.num n) = Value.num n
  redact p (Value.str s) = Value.str (scrub_str p s)
  redact p (Value.arr xs) = Value.arr (redact_items p xs)
  redact p (Value.obj d) = Value.obj (redact_fields p d)

  pub redact_items : Patterns → Items → Items
  redact_items p Items.nil = Items.nil
  redact_items p (Items.item v xs) = Items.item (redact p v) (redact_items p xs)

  pub redact_fields : Patterns → Fields → Fields
  redact_fields p Fields.end = Fields.end
  redact_fields p (Fields.field k v d) =
      Fields.field k (if p.is_secret k then Value.str redacted else redact p v) (redact_fields p d)
