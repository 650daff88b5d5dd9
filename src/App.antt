-- ===== src/App.antt =====
-- reference/bass/api.py, `build_default_app`: the service that the environment describes, up to the
-- framework's app; and `main` of reference/scripts/export_openapi.py. What FastAPI makes of the routes
-- is a parameter, as text, and the file is its text, if it exists.
use bass_platform.Base.{
  ℕ, String, Bool, Option, none, some, List, [], ◌==◌, contains, Dict, if◌then◌else◌,
}
use bass_platform.Errors.{Kind, Result, ok, err, raised}
use bass_platform.Value.{ℤ, pos, negsuc}
use bass_platform.Host.{Host}
use bass_platform.Redaction.{Patterns}
use bass_platform.Store.Opening.{Backend, open_store}
use bass_platform.Connector.{Connector, ReliabilityConfig}
use bass_platform.Accounting.{Books, new_books, default_registry}
use bass_platform.Settings.{Environ, Python, and_then, text_of}
use bass_platform.Engine.{Config}
use bass_platform.RateLimit.{RateLimiter}
use bass_platform.Api.{ApiService, register_workflow}
use bass_platform.Example.{build_workflow}
use bass_platform.Worker.{runner_config}

-- `env.get(k) or default`
abbrev or_else : Option String → String → String
or_else none default = default
or_else (some raw) default = if raw == "" then default else raw

-- The store of the API: `BASS_DB_URL` goes before `BASS_DB_PATH`.
abbrev pub api_store : Environ → Backend
api_store env = open_store (or_else (env "BASS_DB_URL") (text_of env "BASS_DB_PATH" "bass.db"))

-- A limit below zero admits what the limit zero admits.
abbrev pub limit_of : ℤ → ℕ
limit_of (pos n) = n
limit_of (negsuc n) = 0

pub record DefaultApp (W : Type 0) : Type 0 where
  pub store : Backend
  pub jwt_secret : String
  pub limiter : RateLimiter
  pub connectors : Dict Connector
  pub config : Config W
  pub service : ApiService W

module _ {W : Type 0} (h : Host W) (p : Patterns) (books : Books W) (defaults : ReliabilityConfig)
    (py : Python) where
  -- `int(raw)`
  abbrev rate_limit : String → Result ℤ
  rate_limit raw = elim (py.int raw) [ none ↦ raised Kind.value_error raw | some z ↦ ok z ]

  -- The service with its secret and its limit; `allow` is the limiter's method.
  abbrev app_with : (String → W → Bool × W) → Environ → String → W → ℤ → Result (DefaultApp W × W)
  app_with allow env secret w limit = elim (default_registry books defaults) [
    | err e ↦ err e
    | ok (connectors, tools) ↦ ok (
      record {
        store = api_store env;
        jwt_secret = secret;
        limiter = record { limit = limit_of limit; window_s = 60 };
        connectors = connectors;
        config = runner_config h p tools;
        service =
            register_workflow build_workflow
              (record { allow = allow; workflows_by_id = []; workflows_by_name = [] });
      },
      new_books books w,
    )
  ]

  -- `build_default_app`
  unfoldable pub build_default_app :
      (String → W → Bool × W) → Environ → W → Result (DefaultApp W × W)
  unfolding default_registry register_workflow open_store
  build_default_app allow env w =
      let secret = text_of env "BASS_JWT_SECRET" "" in
      if secret == ""
      then raised Kind.bass_error "BASS_JWT_SECRET must be set to run the API"
      else and_then (rate_limit (text_of env "BASS_RATE_LIMIT_PER_MIN" "1000"))
          (app_with allow env secret w)

-- What `main` of export_openapi.py prints, apart from the path.
pub data Message : Type 0 where
  out_of_date up_to_date wrote : Message

-- `_OUT.read_text() if _OUT.exists() else ""`
abbrev pub current_text : Option String → String
current_text none = ""
current_text (some t) = t

-- `main`, with the text that `_dump(_schema())` renders: the exit code, the message and the file.
unfoldable pub export_openapi : String → List String → Option String → ℕ × Message × Option String
export_openapi rendered args out =
    if contains "--check" args
    then (if current_text out == rendered
        then (0, Message.up_to_date, out)
        else (1, Message.out_of_date, out))
    else (0, Message.wrote, some rendered)
