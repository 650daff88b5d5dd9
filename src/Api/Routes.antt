-- ===== src/Api/Routes.antt =====
-- reference/bass/api.py: the routes of `create_app`. A request is what the web framework has parsed: a
-- body has the types that its route documents. An exception that a route lets through is answered by
-- the framework, and is an error here.
use bass_platform.Base.{
  ℕ, String, Bool, true, false, ◌||◌, Option, none, some, List, [], ◌∷◌, nat_eq, min, ◌==◌,
  if◌then◌else◌, concat,
}
use bass_platform.Errors.{Kind, Raised, Result, ok, err}
use bass_platform.Exec.{◌>>=◌, pure, reraise, gets, catch}
use bass_platform.Value.{truthy, ℤ, pos, negsuc, Value, Items, Fields, dict, int_value, or_null}
use bass_platform.Models.{Run, status_value}
use bass_platform.Metrics.{Metrics}
use bass_platform.Store.{RunRow, EventRow}
use bass_platform.Store.Runs
use bass_platform.Engine.{Config, M, outside}
use bass_platform.Text.{Codes, codes, after_prefix}
use bass_platform.Auth.{Principal, Crypto, has_any, decode_token}
use bass_platform.Api.{ApiService}
use bass_platform.Api

pub data Request : Type 0 where
  console health ready metrics : Request
  fire : String → Option Fields → Request
  list_runs : String → ℤ → Request
  get_run get_trace cancel : String → Request
  resolve : String → String → Option Value → Option String → Request

-- A page, or an `HTTPException` with its status
pub data Answer : Type 0 where
  console_html : Answer
  counters : Metrics → Answer
  page : Value → Answer
  refused : ℕ → String → Answer

-- `_run_view`
abbrev pub run_view : Run → Value
run_view run = Value.obj (
    dict (
      ("run_id", Value.str run.id)
      ∷ ("status", Value.str (status_value run.status))
      ∷ ("cost_usd", Value.num (pos run.cost_usd))
      ∷ ("result", or_null run.result)
      ∷ []))

abbrev pub or_none_text : Option String → Value
or_none_text none = Value.null
or_none_text (some s) = Value.str s

-- `_event_view`
abbrev pub event_view : EventRow → Value
event_view ev = Value.obj (
    dict (
      ("seq", int_value ev.seq)
      ∷ ("type", Value.str ev.event.type)
      ∷ ("step_id", or_none_text ev.event.step_id)
      ∷ ("payload", Value.obj ev.event.payload)
      ∷ []))

abbrev pub run_views : List Run → Items
run_views [] = Items.nil
run_views (r ∷ rest) = Items.item (run_view r) (run_views rest)

abbrev pub event_views : List EventRow → Items
event_views [] = Items.nil
event_views (e ∷ rest) = Items.item (event_view e) (event_views rest)

-- `min(max(limit, 1), 200)`
abbrev pub page_size : ℤ → ℕ
page_size (negsuc _) = 1
page_size (pos n) = if nat_eq n 0 then 1 else min n 200

-- `authorization.startswith("Bearer ")`, and what follows
abbrev pub bearer : Codes → Option Codes
bearer header = after_prefix (codes "Bearer ") header

abbrev pub is_key_error : Kind → Bool
is_key_error Kind.key_error = true
is_key_error _ = false

abbrev pub is_rate_limited : Kind → Bool
is_rate_limited Kind.rate_limited = true
is_rate_limited _ = false

abbrev pub is_isolation : Kind → Bool
is_isolation Kind.tenant_isolation = true
is_isolation _ = false

abbrev pub is_auth_error : Kind → Bool
is_auth_error Kind.auth_error = true
is_auth_error _ = false

abbrev pub quoted : List String → String
quoted [] = ""
quoted (r ∷ []) = concat ("'" ∷ r ∷ "'" ∷ [])
quoted (r ∷ rest) = concat ("'" ∷ r ∷ "', " ∷ quoted rest ∷ [])

-- `require(*roles)` asks for one of the roles, or for any principal if there are none.
abbrev pub is_allowed : List String → Principal → Bool
is_allowed [] p = true
is_allowed (r ∷ rest) p = has_any (r ∷ rest) p

-- The roles that a route requires; `none` if it takes no token.
abbrev pub required : Request → Option (List String)
required Request.console = none
required Request.health = none
required Request.ready = none
required Request.metrics = some []
required (Request.fire _ _) = some ("owner" ∷ "admin" ∷ "builder" ∷ [])
required (Request.list_runs _ _) = some []
required (Request.get_run _) = some []
required (Request.get_trace _) = some []
required (Request.cancel _) = some ("owner" ∷ "admin" ∷ "builder" ∷ [])
required (Request.resolve _ _ _ _) = some ("owner" ∷ "admin" ∷ "approver" ∷ [])

abbrev pub no_text : String → Option String
no_text s = if s == "" then none else some s

abbrev pub or_empty : Option Fields → Fields
or_empty none = Fields.end
or_empty (some d) = d

abbrev pub or_no_note : Option String → String
or_no_note none = ""
or_no_note (some note) = note

abbrev pub or_false : Option Value → Bool
or_false none = false
or_false (some v) = truthy v

module _ {W : Type 0} where
  abbrev pub refuse : ℕ → String → M W Answer
  refuse status detail = pure (Answer.refused status detail)

  -- `except (KeyError, TenantIsolationError)`
  abbrev pub not_found : Raised → M W Answer
  not_found e =
      if is_key_error e.kind || is_isolation e.kind then refuse 404 "not found" else reraise e

  -- `except TenantIsolationError`
  abbrev pub hidden : Raised → M W Answer
  hidden e = if is_isolation e.kind then refuse 404 "not found" else reraise e

  abbrev pub not_fired : Raised → M W Answer
  not_fired e =
      if is_key_error e.kind
      then refuse 404 "unknown workflow"
      else if is_rate_limited e.kind
      then refuse 429 "rate limit exceeded"
      else reraise e

  abbrev pub show_run : Run → M W Answer
  show_run run = pure (Answer.page (run_view run))

  abbrev pub show_found : Option Run → M W Answer
  show_found none = refuse 404 "not found"
  show_found (some run) = show_run run

  abbrev pub show_runs : List Run → M W Answer
  show_runs runs = pure (Answer.page (Value.obj (dict (("runs", Value.arr (run_views runs)) ∷ []))))

  abbrev pub show_trace : List EventRow → M W Answer
  show_trace events =
      pure (Answer.page (Value.obj (dict (("events", Value.arr (event_views events)) ∷ []))))

module _ {W : Type 0} (c : Config W) (api : ApiService W) (crypto : Crypto) (secret : String)
    (ping : W → Bool × W) (before : RunRow → RunRow → Bool) where
  abbrev pub show_ready : Bool → M W Answer
  show_ready true = pure (Answer.page (Value.obj (dict (("status", Value.str "ready") ∷ []))))
  show_ready false = refuse 503 "store unavailable"

  -- A route's body, for the principal that was let in; the first three routes have none.
  unfoldable pub route : Request → Principal → M W Answer
  unfolding Api.fire Api.get_run Api.trace Api.cancel Api.resolve_approval Runs.list_runs outside
  route Request.console p = pure Answer.console_html
  route Request.health p = pure (Answer.page (Value.obj (dict (("status", Value.str "ok") ∷ []))))
  route Request.ready p = do alive ← outside ping; show_ready alive
  route Request.metrics p = gets (λ s. Answer.counters s.metrics)
  route (Request.fire name trigger) p =
      catch (Api.fire c api p.tenant_id name (or_empty trigger) >>= show_run) not_fired
  route (Request.list_runs status limit) p = do
    runs ← λ s. (Runs.list_runs before p.tenant_id (page_size limit) (no_text status) s.db, s)
    show_runs runs
  route (Request.get_run id) p = catch (Api.get_run c api p.tenant_id id >>= show_found) hidden
  route (Request.get_trace id) p =
      catch ((λ s. (Api.trace c api p.tenant_id id s, s)) >>= show_trace) hidden
  route (Request.cancel id) p = catch (Api.cancel c api p.tenant_id id >>= show_run) not_found
  route (Request.resolve id approval_id approved note) p =
      catch
        (Api.resolve_approval c api p.tenant_id id approval_id (or_false approved) p.subject
            (or_no_note note)
          >>= show_run)
        not_found

  -- `principal` and `require`, on what the token decodes to
  abbrev pub let_in : List String → Result Principal → (Principal → M W Answer) → M W Answer
  let_in roles (err e) body = if is_auth_error e.kind then refuse 401 e.message else reraise e
  let_in roles (ok p) body =
      if is_allowed roles p
      then body p
      else refuse 403 (concat ("requires one of roles: [" ∷ quoted roles ∷ "]" ∷ []))

  -- The time is read while the token is decoded.
  abbrev pub authorized : List String → Option Codes → (Principal → M W Answer) → M W Answer
  authorized roles none body s = refuse 401 "missing bearer token" s
  authorized roles (some token) body s =
      let_in roles (decode_token crypto secret token (c.host.clock s.world 0)) body
        (record s { world = c.host.tick s.world })

  abbrev pub nobody : Principal
  nobody = record { tenant_id = ""; subject = ""; roles = [] }

  abbrev pub guarded : Option (List String) → Codes → (Principal → M W Answer) → M W Answer
  guarded none header body = body nobody
  guarded (some roles) header body = authorized roles (bearer header) body

  unfoldable pub handle : Request → Codes → M W Answer
  unfolding route decode_token
  handle req header = guarded (required req) header (route req)
