-- ===== src/Provider/Parts.antt =====
-- reference/bass/providers.py: what `AnthropicModel` sends and reads, but for `respond`. The client's
-- `messages.create`, `json.dumps`, `json.loads` and `str` are parameters. Prices are whole dollars for
-- a million tokens, so a cost is a whole number of millionths.
use bass_platform.Base.{
  ℕ, ◌+◌, ◌*◌, String, true, Option, none, some, List, [], ◌∷◌, nat_eq, ◌==◌, if◌then◌else◌, concat,
}
use bass_platform.Errors.{Kind, Raised, Result, ok, err, raised}
use bass_platform.Value.{truthy, Value, Items, nil, item, Fields, end, field, get, put, dict}
use bass_platform.Text.{Codes, codes}
use bass_platform.Models.{Agent, Tool}
use bass_platform.Engine.{Config}
use bass_platform.Engine.Tools.{get_tool}

pub data Block : Type 0 where
  tool_use : String → String → Fields → Block
  text : String → Block
  other : Block

-- A response: its content as it goes back to the client, and the blocks of the content.
pub record Reply : Type 0 where
  pub content : Value
  pub blocks : List Block
  pub stop_reason : String
  pub input_tokens : ℕ
  pub output_tokens : ℕ

-- `messages.create`, with the model, `max_tokens`, the system prompt, the tools and the messages.
pub record Client (W : Type 0) : Type 0 where
  pub create : String → ℕ → String → Items → Items → W → Result Reply × W
  pub dumps : Value → String
  pub dumps_indented : Value → String
  pub loads : Codes → Result Value
  pub text_of : Value → String

abbrev pub default_model : String
default_model = "claude-opus-4-8"

-- `_PRICES`
abbrev pub prices : String → ℕ × ℕ
prices model =
    if model == "claude-sonnet-5"
    then (3, 15)
    else if model == "claude-haiku-4-5"
    then (1, 5)
    else (5, 25)

abbrev pub model_of : Agent → String
model_of agent = if agent.model == "" then default_model else agent.model

-- `_cost`
unfoldable pub cost_of : Reply → String → ℕ
cost_of reply model =
    let (price_in, price_out) = prices model in
    reply.input_tokens * price_in + reply.output_tokens * price_out

-- `d.pop(k)`, for what it leaves
abbrev pub without : String → Fields → Fields
without k end = end
without k (field j v d) = let rest = without k d in if j == k then rest else field j v rest

abbrev pub append : Items → Items → Items
append nil ys = ys
append (item x xs) ys = item x (append xs ys)

abbrev pub message : String → Value → Value
message role content = Value.obj (dict (("role", Value.str role) ∷ ("content", content) ∷ []))

-- Values of a type that the code does not take end in an error, whose text is left out.
abbrev pub bad_type : {A : Type 0} → Result A
bad_type = raised Kind.other "TypeError"

-- `scratch.get("messages")`
abbrev pub messages_of : Option Value → Result (Option Items)
messages_of none = ok none
messages_of (some Value.null) = ok none
messages_of (some (Value.arr xs)) = ok (some xs)
messages_of (some _) = bad_type

-- `"\n\n".join(p for p in parts if p)`
abbrev pub joined : List String → String
joined [] = ""
joined (p ∷ parts) =
    let rest = joined parts in
    if p == "" then rest else if rest == "" then p else concat (p ∷ "\n\n" ∷ rest ∷ [])

-- From the first opening brace to the last closing one, where that one comes later.
abbrev pub from_brace : Codes → Codes
from_brace [] = []
from_brace (c ∷ cs) = if nat_eq c b'{' then c ∷ cs else from_brace cs

abbrev pub to_brace : Codes → Option Codes
to_brace [] = none
to_brace (c ∷ cs) = elim (to_brace cs) [
  | some span ↦ some (c ∷ span)
  | none ↦ if nat_eq c b'}' then some (c ∷ []) else none
]

abbrev pub keep_messages : Items → Fields → Fields
keep_messages messages scratch = put "messages" (Value.arr messages) scratch

module _ {W : Type 0} (client : Client W) (c : Config W) (max_tokens : ℕ) where
  -- `_task_block`
  abbrev pub task_block : Fields → Value
  task_block task = Value.arr (
      item
        (Value.obj (
          dict (
            ("type", Value.str "text")
            ∷ (
              "text",
              Value.str (
                  concat (
                    "<task_input>\n"
                    ∷ client.dumps_indented (Value.obj task)
                    ∷ "\n</task_input>"
                    ∷ [])),
            )
            ∷ [])))
        nil)

  abbrev schema_part : Option Fields → List String
  schema_part none = []
  schema_part (some schema) =
      concat (
        "Return ONLY a single JSON object matching this schema, with no prose or code fences:\n"
        ∷ client.dumps (Value.obj schema)
        ∷ [])
      ∷ []

  -- `_system_prompt`
  unfoldable pub system_prompt : Agent → String
  system_prompt agent = joined (agent.role ∷ agent.instructions ∷ schema_part agent.output_schema)

  abbrev schema_of : Tool W → Value
  schema_of tool = Value.obj (
      dict (
        ("name", Value.str tool.name)
        ∷ ("description", Value.str tool.description)
        ∷ ("input_schema", Value.obj tool.input_schema)
        ∷ []))

  -- `_tool_schemas`, of the allow-list only
  unfoldable pub tool_schemas : List String → Result Items
  unfolding get_tool
  tool_schemas [] = ok nil
  tool_schemas (name ∷ rest) = elim (get_tool c name) [
    | err e ↦ err e
    | ok tool ↦ elim (tool_schemas rest) [
      | err e ↦ err e
      | ok schemas ↦ ok (item (schema_of tool) schemas)
    ]
  ]

  abbrev required : String → Option Value → Result Value
  required k none = raised Kind.key_error k
  required k (some v) = ok v

  -- The content of one result: its error, or what the tool returned.
  abbrev block_content : Value → Option Value → Option Value → Result Value
  block_content id (some e) result = ok (
      Value.obj (
        dict (
          ("type", Value.str "tool_result")
          ∷ ("tool_use_id", id)
          ∷ ("content", Value.str (client.text_of e))
          ∷ ("is_error", Value.bool true)
          ∷ [])))
  block_content id none result = elim (required "result" result) [
    | err e ↦ err e
    | ok v ↦ ok (
        Value.obj (
          dict (
            ("type", Value.str "tool_result")
            ∷ ("tool_use_id", id)
            ∷ ("content", Value.str (client.dumps v))
            ∷ [])))
  ]

  abbrev result_block : Value → Result Value
  result_block (Value.obj r) = elim (required "id" (get "id" r)) [
    | err e ↦ err e
    | ok id ↦ block_content id (get "error" r) (get "result" r)
  ]
  result_block _ = bad_type

  -- `_result_blocks`
  unfoldable pub result_blocks : Items → Result Items
  result_blocks nil = ok nil
  result_blocks (item r rest) = elim (result_block r) [
    | err e ↦ err e
    | ok block ↦ elim (result_blocks rest) [ err e ↦ err e | ok blocks ↦ ok (item block blocks) ]
  ]

  abbrev pub as_message : Result Items → Result Items
  as_message (ok blocks) = ok (item (message "user" (Value.arr blocks)) nil)
  as_message (err e) = err e

  -- What the results of the previous turn add to the messages.
  abbrev pub fed_back : Option Value → Result Items
  fed_back (some (Value.arr (item r rest))) = as_message (result_blocks (item r rest))
  fed_back none = ok nil
  fed_back (some v) = if truthy v then bad_type else ok nil

  abbrev span_value : Raised → Option Codes → Result Value
  span_value e none = err e
  span_value e (some span) = client.loads span

  -- `_parse_output`
  unfoldable pub parse_output : Option Fields → String → Result Value
  parse_output none answer = ok (Value.str answer)
  parse_output (some schema) answer = elim (client.loads (codes answer)) [
    | ok v ↦ ok v
    | err e ↦ span_value e (to_brace (from_brace (codes answer)))
  ]
