-- ===== src/Logging.antt =====
-- reference/bass/observability.py: the JSON formatter, the set-up of the logger and `BoundLogger`. The
-- package `logging` and `json.dumps` are outside the repository: the time of a line, the number of a
-- level's name, and the printing of a dict are parameters.
use bass_platform.Base.{ℕ, String, Bool, Option, none, some, [], ◌∷◌, leb, if◌then◌else◌, concat}
use bass_platform.Errors.{Kind, Result, ok, raised}
use bass_platform.Value.{Value, Fields, put, dict}

-- What a handler is given.
pub record LogRecord : Type 0 where
  pub level : ℕ
  pub level_name : String
  pub logger : String
  pub message : String
  pub fields : Option Fields
  pub exc : Option String

-- The logger "bass": its level, its formatter, and the trace id that is bound.
pub record Logging : Type 0 where
  pub level : ℕ
  pub as_json : Bool
  pub trace_id : String

-- `set_trace_id`
unfoldable pub set_trace_id : String → Logging → Logging
set_trace_id id l = record l { trace_id = id }

-- `d.update(extra)`
abbrev pub update : Fields → Fields → Fields
update d Fields.end = d
update d (Fields.field k v rest) = update (put k v d) rest

abbrev with_extra : Option Fields → Fields → Fields
with_extra none payload = payload
with_extra (some extra) payload = update payload extra

abbrev with_exc : Option String → Fields → Fields
with_exc none payload = payload
with_exc (some exc) payload = put "exc" (Value.str exc) payload

-- `configure_logging`; `level_of` is the number of a level's name, and none for an unknown name.
unfoldable pub configure_logging : (String → Option ℕ) → String → Bool → Logging → Result Logging
configure_logging level_of level as_json l = elim (level_of level) [
  | none ↦ raised Kind.value_error (concat ("Unknown level: " ∷ level ∷ []))
  | some n ↦ ok (record l { level = n; as_json = as_json })
]

module _ (now : String) (dumps : Fields → String) where
  -- `_JsonFormatter.format`
  unfoldable pub format : Logging → LogRecord → String
  format l r =
      let payload = dict (
        ("ts", Value.str now)
        ∷ ("level", Value.str r.level_name)
        ∷ ("logger", Value.str r.logger)
        ∷ ("trace_id", Value.str l.trace_id)
        ∷ ("msg", Value.str r.message)
        ∷ []) in
      dumps (with_exc r.exc (with_extra r.fields payload))

  -- The handler's line: "%(levelname)s %(name)s %(message)s" where the lines are not JSON.
  abbrev pub line : Logging → LogRecord → String
  line l r =
      if l.as_json
      then format l r
      else concat (r.level_name ∷ " " ∷ r.logger ∷ " " ∷ r.message ∷ [])

  -- `get_logger(name)._log(level, msg, **fields)`: the line that is written, if any.
  unfoldable pub log : Logging → String → ℕ → String → String → Fields → Option String
  unfolding format
  log l name level level_name message fields =
      if leb l.level level
      then some (
          line l (record {
            level = level;
            level_name = level_name;
            logger = concat ("bass." ∷ name ∷ []);
            message = message;
            fields = some fields;
            exc = none;
          }))
      else none

  abbrev pub debug : Logging → String → String → Fields → Option String
  debug l name = log l name 10 "DEBUG"

  abbrev pub info : Logging → String → String → Fields → Option String
  info l name = log l name 20 "INFO"

  abbrev pub warning : Logging → String → String → Fields → Option String
  warning l name = log l name 30 "WARNING"

  abbrev pub error : Logging → String → String → Fields → Option String
  error l name = log l name 40 "ERROR"
