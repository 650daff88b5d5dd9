-- ===== src/Settings.antt =====
-- reference/bass/config.py and reference/bass/secrets.py. The environment is a function from the name
-- of a variable to its text; what `int`, `float`, `str.upper` and `repr` make of a text are parameters.
-- Amounts and seconds are in millionths, as `float` gives them here.
pub mod Parsed
use bass_platform.Base.{
  ℕ, String, Bool, true, not, Option, none, some, [], ◌∷◌, Dict, lookup, ◌==◌, if◌then◌else◌,
  concat,
}
use bass_platform.Errors.{Kind, Raised, Result, ok, err, raised}
use bass_platform.Value.{ℤ, pos}

abbrev pub Environ : Type 0
Environ = String → Option String

-- `int`, `float`, `repr` and `str.upper`; the first two give `none` for a `ValueError`.
pub record Python : Type 0 where
  pub int : String → Option ℤ
  pub float : String → Option ℤ
  pub repr : String → String
  pub upper : String → String

pub record Config : Type 0 where
  pub db_path : String
  pub default_budget_usd : ℤ
  pub default_max_steps : ℤ
  pub connector_timeout_s : ℤ
  pub connector_max_retries : ℤ
  pub connector_breaker_threshold : ℤ
  pub connector_breaker_reset_s : ℤ
  pub log_level : String
  pub log_json : Bool

module _ (py : Python) where
  -- A variable that is set: its value, or the `ConfigError`.
  abbrev pub parsed : String → String → String → Option ℤ → Result ℤ
  parsed name wanted raw (some z) = ok z
  parsed name wanted raw none =
      raised Kind.config_error (concat (name ∷ " must be " ∷ wanted ∷ ", got " ∷ py.repr raw ∷ []))

  -- `_int`
  unfoldable pub int_of : Environ → String → ℤ → Result ℤ
  int_of env name default = elim (env name) [
    | none ↦ ok default
    | some raw ↦ parsed name "an integer" raw (py.int raw)
  ]

  -- `_float`
  unfoldable pub float_of : Environ → String → ℤ → Result ℤ
  float_of env name default = elim (env name) [
    | none ↦ ok default
    | some raw ↦ parsed name "a number" raw (py.float raw)
  ]

-- `os.environ.get(name, default)`
abbrev pub text_of : Environ → String → String → String
text_of env name default = elim (env name) [ none ↦ default | some raw ↦ raw ]

abbrev pub and_then : {A B : Type 0} → Result A → (A → Result B) → Result B
and_then (ok a) f = f a
and_then (err e) f = err e

-- `Config.from_env`, which reads the variables in this order.
unfoldable pub from_env : Python → Environ → Result Config
unfolding int_of float_of
from_env py env = and_then (float_of py env "BASS_DEFAULT_BUDGET_USD" (pos 1_000_000)) λ budget.
    and_then (int_of py env "BASS_DEFAULT_MAX_STEPS" (pos 50)) λ steps.
      and_then (float_of py env "BASS_CONNECTOR_TIMEOUT_S" (pos 10_000_000)) λ timeout.
        and_then (int_of py env "BASS_CONNECTOR_MAX_RETRIES" (pos 3)) λ retries.
          and_then (int_of py env "BASS_CONNECTOR_BREAKER_THRESHOLD" (pos 5)) λ threshold.
            and_then (float_of py env "BASS_CONNECTOR_BREAKER_RESET_S" (pos 30_000_000)) λ reset.
              ok (record {
                db_path = text_of env "BASS_DB_PATH" "bass.db";
                default_budget_usd = budget;
                default_max_steps = steps;
                connector_timeout_s = timeout;
                connector_max_retries = retries;
                connector_breaker_threshold = threshold;
                connector_breaker_reset_s = reset;
                log_level = text_of env "BASS_LOG_LEVEL" "INFO";
                log_json = not (text_of env "BASS_LOG_JSON" "1" == "0");
              })

-- `EnvSecrets.get`
unfoldable pub env_secret : Python → Environ → String → Result String
env_secret py env ref =
    let key = concat ("BASS_SECRET_" ∷ py.upper ref ∷ []) in
    elim (env key) [
      | none ↦
          raised Kind.config_error
            (concat ("secret " ∷ py.repr ref ∷ " not configured (" ∷ key ∷ " unset)" ∷ []))
      | some v ↦ ok v
    ]

-- `StaticSecrets.get`
unfoldable pub static_secret : Python → Dict String → String → Result String
static_secret py values ref = elim (lookup ref values) [
  | none ↦ raised Kind.config_error (concat ("secret " ∷ py.repr ref ∷ " not configured" ∷ []))
  | some v ↦ ok v
]
