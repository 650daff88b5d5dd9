-- ===== src/Webhook.antt =====
-- reference/bass/webhook.py, and `http_call` of reference/bass/connectors.py. What `urlopen` and
-- `json.dumps` do is outside the repository, so both are parameters. URLs are ASCII.
pub mod Keyed
use bass_platform.Base.{
  ℕ, ◌+◌, ◌-◌, ◌/◌, ◌*◌, String, Bool, true, false, ◌&&◌, ◌||◌, Option, none, some, [], ◌∷◌, nat_eq,
  leb, ltb, ◌==◌, if◌then◌else◌, concat, map,
}
use bass_platform.Errors.{Kind, Raised, Result, ok, err, raised}
use bass_platform.Value.{
  truthy, Value, Fields, ℤ, pos, negsuc, end, field, get, put, or_null, dict, texts, int_value,
  one_unit,
}
use bass_platform.Host.{Host}
use bass_platform.Text.{Codes, codes}
use bass_platform.Models.{Outcome, Tool}
use bass_platform.Connector.{Connector, ReliabilityConfig, new_connector}
use bass_platform.Connector

-- How `urlopen` and the reading of its body end: a response, an `HTTPError`, a `URLError`, a
-- `TimeoutError`, which is the `FutureTimeout` of `Connector.run`, or another exception.
pub data Reply : Type 0 where
  answered : ℕ → String → Reply
  http_error : ℕ → String → Reply
  url_error : String → Reply
  timed_out : Reply
  failed : Raised → Reply

-- `str.upper`, `json.dumps`, and `urlopen` of a request with its URL, data, method and headers.
pub record Http (W : Type 0) : Type 0 where
  pub upper : String → String
  pub dumps : Value → String
  pub urlopen : String → Option String → String → Fields → W → Reply × W

-- `d.setdefault(k, v)`
abbrev pub set_default_after : Option Value → String → Value → Fields → Fields
set_default_after none k v d = put k v d
set_default_after (some _) k v d = d

abbrev pub set_default : String → Value → Fields → Fields
set_default k v d = set_default_after (get k d) k v d

-- Arguments of a type that the call does not take end in an error, whose text is left out.
abbrev bad_type : {A : Type 0} → Result A
bad_type = raised Kind.other "TypeError"

abbrev pub text_or : String → Option Value → Result String
text_or default none = ok default
text_or default (some (Value.str s)) = ok s
text_or default (some _) = bad_type

abbrev pub fields_or : Fields → Option Value → Result Fields
fields_or default none = ok default
fields_or default (some (Value.obj d)) = ok d
fields_or default (some _) = bad_type

abbrev pub url_of : Option Value → Result String
url_of none = raised Kind.key_error "url"
url_of (some (Value.str url)) = ok url
url_of (some _) = bad_type

abbrev pub response : ℕ → String → Outcome
response status body =
    Outcome.returned
      (Value.obj (dict (("status", int_value status) ∷ ("body", Value.str body) ∷ [])))

module _ {W : Type 0} (h : Host W) (http : Http W) where
  abbrev pub outcome_of : Reply → Outcome
  outcome_of (Reply.answered status body) = response status body
  outcome_of (Reply.http_error code body) =
      if leb 500 code
      then Outcome.raised_error
          (record { kind = Kind.transient; message = concat ("http " ∷ h.decimal code ∷ []) })
      else response code body
  outcome_of (Reply.url_error reason) =
      Outcome.raised_error
        (record { kind = Kind.transient; message = concat ("connection error: " ∷ reason ∷ []) })
  outcome_of Reply.timed_out = Outcome.timed_out
  outcome_of (Reply.failed e) = Outcome.raised_error e

  -- `headers.setdefault("Content-Type", …)` where there is a body
  abbrev pub typed : Option String → Fields → Fields
  typed none headers = headers
  typed (some body) headers = set_default "Content-Type" (Value.str "application/json") headers

  abbrev pub data_of : Option Value → Option String
  data_of none = none
  data_of (some v) = some (http.dumps v)

  abbrev pub send : String → Option String → Fields → Result String → W → Outcome × W
  send method body headers (ok url) w =
      let (reply, w') = http.urlopen url body method (typed body headers) w in
      (outcome_of reply, w')
  send method body headers (err e) w = (Outcome.raised_error e, w)

  unfoldable pub http_call : Fields → W → Outcome × W
  http_call args w = elim (text_or "GET" (get "method" args)) [
    | err e ↦ (Outcome.raised_error e, w)
    | ok method ↦ elim (fields_or end (get "headers" args)) [
      | err e ↦ (Outcome.raised_error e, w)
      | ok headers ↦
          send (http.upper method) (data_of (get "json" args)) headers (url_of (get "url" args)) w
    ]
  ]

pub record WebhookConnector : Type 0 where
  pub url : String
  pub name : String
  pub headers : Fields
  pub connector : Connector

-- `url.lower()`
abbrev lower_code : ℕ → ℕ
lower_code c = if leb b'A' c && leb c b'Z' then c + 32 else c

abbrev starts_with : Codes → Codes → Bool
starts_with [] url = true
starts_with (_ ∷ _) [] = false
starts_with (p ∷ ps) (c ∷ url) = nat_eq p (lower_code c) && starts_with ps url

-- `WebhookConnector(url, name=…, headers=…, config=…)`; `repr` is Python's.
unfoldable pub new_webhook :
    (String → String) → String → String → Fields → ReliabilityConfig → Result WebhookConnector
unfolding new_connector
new_webhook repr url name headers config =
    if starts_with (codes "http://") (codes url) || starts_with (codes "https://") (codes url)
    then ok (record {
      url = url;
      name = name;
      headers = headers;
      connector = new_connector name config;
    })
    else raised Kind.connector_error (concat ("webhook url must be http(s): " ∷ repr url ∷ []))

-- `{k: v for k, v in args.items() if k != "_idempotency_key"}`
abbrev pub payload_of : Fields → Fields
payload_of end = end
payload_of (field k v rest) =
    let others = payload_of rest in if k == "_idempotency_key" then others else field k v others

-- `int(v)` of a JSON number, and whether it is a status of success.
abbrev status_of : Option Value → Result ℕ
status_of none = ok 0
status_of (some (Value.num (pos n))) = ok (n / one_unit)
status_of (some _) = bad_type

abbrev pub summary : Fields → Result Value
summary resp = elim (status_of (get "status" resp)) [
  | err e ↦ err e
  | ok status ↦ ok (
      Value.obj (
        dict (
          ("status", int_value status)
          ∷ ("ok", Value.bool (leb 200 status && ltb status 300))
          ∷ ("body", elim (get "body" resp) [ none ↦ Value.str "" | some body ↦ body ])
          ∷ [])))
]

abbrev pub summarised : Result Value → Result Value
summarised (ok (Value.obj resp)) = summary resp
summarised (ok _) = bad_type
summarised (err e) = err e

module _ {W : Type 0} (h : Host W) where
  abbrev pub headers_of : WebhookConnector → Fields → Fields
  headers_of hook args =
      let key = or_null (get "_idempotency_key" args) in
      if truthy key
      then set_default "Idempotency-Key" (Value.str (h.text_of key)) hook.headers
      else hook.headers

  abbrev pub request_of : WebhookConnector → Fields → Fields
  request_of hook args = dict (
      ("method", Value.str "POST")
      ∷ ("url", Value.str hook.url)
      ∷ ("headers", Value.obj (headers_of hook args))
      ∷ ("json", Value.obj (payload_of args))
      ∷ [])

module _ {W : Type 0} (h : Host W) (http : Http W) where
  -- `post`, with the connector that it leaves.
  unfoldable pub post : Fields → WebhookConnector → W → Result Value × WebhookConnector × W
  unfolding http_call
  post args hook w =
      let (r, connector, w') =
        Connector.run h (http_call h http) (request_of h hook args) hook.connector w in
      (summarised r, record hook { connector = connector }, w')

-- Where the webhook's connector stands in what is outside the engine: the engine's own connector wraps
-- the tool, and the tool's operation runs through this one.
pub record Hooked (W : Type 0) : Type 0 where
  pub hook : W → WebhookConnector
  pub put_hook : WebhookConnector → W → W

abbrev ended : Result Value → Outcome
ended (ok v) = Outcome.returned v
ended (err e) = Outcome.raised_error e

module _ {W : Type 0} (h : Host W) (http : Http W) (hooked : Hooked W) where
  abbrev post_outside : Fields → W → Outcome × W
  post_outside args w =
      let (r, hook, w') = post h http args (hooked.hook w) w in (ended r, hooked.put_hook hook w')

  abbrev notify_tool : String → String → String → Tool W
  notify_tool name description connector_name = record {
    name = name;
    description = description;
    connector = connector_name;
    fn = post_outside;
    side_effect = true;
    cost_usd = 0;
    input_schema = dict (
        ("type", Value.str "object")
        ∷ (
          "properties",
          Value.obj (dict (("text", Value.obj (dict (("type", Value.str "string") ∷ []))) ∷ [])),
        )
        ∷ ("required", Value.arr (texts ("text" ∷ [])))
        ∷ []);
  }

  -- `webhook_tool`
  unfoldable pub webhook_tool :
      (String → String)
      → String
      → String
      → String
      → String
      → ReliabilityConfig
      → Result (WebhookConnector × Tool W)
  unfolding new_webhook post
  webhook_tool repr url name description connector_name config =
      elim (new_webhook repr url connector_name end config) [
        | err e ↦ err e
        | ok hook ↦ ok (hook, notify_tool name description connector_name)
      ]
