-- ===== src/Errors.antt =====
-- reference/bass/errors.py: the error hierarchy, as one enumeration with a test for each base class,
-- and a value that is either returned or raised. The kinds from `paused` on are not of that
-- hierarchy: the engine's internal signal, Python's built-in errors that the code raises or lets
-- through, the database driver's refusal, and `out_of_fuel`, which belongs to the model alone.
use bass_platform.Base.{String, ◌≡◌, refl, ◌⊎◌, inl, inr, Bool, true, false}

pub data Kind : Type 0 where
  config_error policy_denied budget_exceeded rate_limited approval_required : Kind
  connector_error circuit_open transient : Kind
  bass_error tool_error tenant_isolation max_steps_exceeded workflow_error auth_error : Kind
  paused key_error assertion_error value_error integrity_error other out_of_fuel : Kind

pub record Raised : Type 0 where
  pub kind : Kind
  pub message : String

pub data Result {ℓ} (A : Type ℓ) : Type ℓ where
  ok : A → Result A
  err : Raised → Result A

-- `except ConnectorError`
abbrev pub is_connector_error : Kind → Bool
is_connector_error Kind.connector_error = true
is_connector_error Kind.circuit_open = true
is_connector_error Kind.transient = true
is_connector_error _ = false

-- `except BassError`
abbrev pub is_bass_error : Kind → Bool
is_bass_error Kind.paused = false
is_bass_error Kind.key_error = false
is_bass_error Kind.assertion_error = false
is_bass_error Kind.value_error = false
is_bass_error Kind.integrity_error = false
is_bass_error Kind.other = false
is_bass_error Kind.out_of_fuel = false
is_bass_error _ = true

-- `raise kind(message)`
abbrev pub raised {ℓ} : {A : Type ℓ} → Kind → String → Result A
raised k m = err (record { kind = k; message = m })

pub Result-cases {ℓ} :
    {A : Type ℓ} (r : Result A) → ((a : A) × (r ≡ ok a)) ⊎ ((e : Raised) × (r ≡ err e))
Result-cases (ok a) = inl (a, refl)
Result-cases (err e) = inr (e, refl)
