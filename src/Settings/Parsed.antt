-- ===== src/Settings/Parsed.antt =====
-- When reference/bass/config.py accepts an environment.
use bass_platform.Base.{
  String, ◌≡◌, refl, Bool, true, false, ◌&&◌, Option, none, some, Option-cases, inl, inr,
  if◌then◌else◌,
}
use bass_platform.Errors.{Kind, Result, ok, err}
use bass_platform.Value.{ℤ}
use bass_platform.Settings.{Environ, Python, int_of, float_of, from_env, and_then, parsed}

-- A variable that is unset, or whose text the parser accepts.
abbrev pub fits : (String → Option ℤ) → Option String → Bool
fits parse none = true
fits parse (some raw) = elim (parse raw) [ none ↦ false | some _ ↦ true ]

-- The kind of the exception, if one is raised.
abbrev pub refusal : {A : Type 0} → Result A → Option Kind
refusal (ok _) = none
refusal (err e) = some e.kind

abbrev pub unless : Bool → Option Kind
unless fine = if fine then none else some Kind.config_error

refusal-parsed :
    (py : Python) (name wanted raw : String) (o : Option ℤ)
    → refusal (parsed py name wanted raw o) ≡ unless (elim o [ none ↦ false | some _ ↦ true ])
refusal-parsed py name wanted raw none = refl
refusal-parsed py name wanted raw (some z) = refl

module _ (py : Python) (env : Environ) (name : String) (default : ℤ) where
  refusal-int_of : refusal (int_of py env name default) ≡ unless (fits py.int (env name))
  unfolding int_of
  refusal-int_of = elim (Option-cases (env name)) [
    | inl unset ↦ rw (unset, int_of) refl
    | inr (raw, set) ↦ rw (set, int_of) (refusal-parsed py name "an integer" raw (py.int raw))
  ]

  refusal-float_of : refusal (float_of py env name default) ≡ unless (fits py.float (env name))
  unfolding float_of
  refusal-float_of = elim (Option-cases (env name)) [
    | inl unset ↦ rw (unset, float_of) refl
    | inr (raw, set) ↦ rw (set, float_of) (refusal-parsed py name "a number" raw (py.float raw))
  ]

refusal-and_then :
    {A B : Type 0} (r : Result A) (f : A → Result B) (x y : Bool)
    → refusal r ≡ unless x
    → ((a : A) → refusal (f a) ≡ unless y)
    → refusal (and_then r f) ≡ unless (x && y)
refusal-and_then (ok a) f true y h k = k a
refusal-and_then (err e) f false y h k = h
refusal-and_then (ok a) f false y h k = absurd (cc h)
refusal-and_then (err e) f true y h k = absurd (cc h)

-- `from_env` returns a configuration exactly when each of its six numbers is unset or has a text that
-- its parser accepts; otherwise it raises a `ConfigError`, and no other exception.
pub from_env_lem :
    (py : Python) (env : Environ)
    → refusal (from_env py env)
      ≡ unless (
          fits py.float (env "BASS_DEFAULT_BUDGET_USD")
          && (fits py.int (env "BASS_DEFAULT_MAX_STEPS")
              && (fits py.float (env "BASS_CONNECTOR_TIMEOUT_S")
                  && (fits py.int (env "BASS_CONNECTOR_MAX_RETRIES")
                      && (fits py.int (env "BASS_CONNECTOR_BREAKER_THRESHOLD")
                          && (fits py.float (env "BASS_CONNECTOR_BREAKER_RESET_S") && true))))))
unfolding from_env
from_env_lem py env =
    refusal-and_then _ _ _ _ (refusal-float_of py env "BASS_DEFAULT_BUDGET_USD" _) λ budget.
      refusal-and_then _ _ _ _ (refusal-int_of py env "BASS_DEFAULT_MAX_STEPS" _) λ steps.
        refusal-and_then _ _ _ _ (refusal-float_of py env "BASS_CONNECTOR_TIMEOUT_S" _) λ timeout.
          refusal-and_then _ _ _ _ (refusal-int_of py env "BASS_CONNECTOR_MAX_RETRIES" _) λ retries.
            refusal-and_then _ _ _ _ (refusal-int_of py env "BASS_CONNECTOR_BREAKER_THRESHOLD" _)
              λ threshold.
                refusal-and_then _ _ _ true
                  (refusal-float_of py env "BASS_CONNECTOR_BREAKER_RESET_S" _) λ reset. refl
