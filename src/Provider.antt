-- ===== src/Provider.antt =====
-- reference/bass/providers.py: one turn of `AnthropicModel`, with the conversation that it keeps in the
-- scratch.
pub mod Parts
pub mod Turns
pub use Parts.*
use bass_platform.Base.{ℕ, String, Option, none, some, List, [], ◌∷◌, ◌==◌, if◌then◌else◌, concat}
use bass_platform.Errors.{Result, ok, err}
use bass_platform.Value.{Items, nil, item, Fields, get}
use bass_platform.Models.{Agent}
use bass_platform.Engine.{Call, Response, Config, tool_calls, final}

module _ {W : Type 0} (client : Client W) (c : Config W) (max_tokens : ℕ) where
  abbrev calls_of : List Block → List Call
  calls_of [] = []
  calls_of (Block.tool_use id name input ∷ rest) =
      record { tool = name; args = some input; id = some id } ∷ calls_of rest
  calls_of (_ ∷ rest) = calls_of rest

  abbrev texts_of : List Block → String
  texts_of [] = ""
  texts_of (Block.text t ∷ rest) = concat (t ∷ texts_of rest ∷ [])
  texts_of (_ ∷ rest) = texts_of rest

  abbrev outcome_of : Agent → Reply → Result Response
  outcome_of agent reply =
      let cost = cost_of reply (model_of agent) in
      if reply.stop_reason == "tool_use"
      then ok (tool_calls (calls_of reply.blocks) cost)
      else elim (parse_output client c max_tokens agent.output_schema (texts_of reply.blocks)) [
        | err e ↦ err e
        | ok v ↦ ok (final v cost)
      ]

  -- What follows the client's answer.
  abbrev pub received : Agent → Items → Fields → Result Reply × W → Result Response × Fields × W
  received agent messages scratch (err e, w) = (err e, keep_messages messages scratch, w)
  received agent messages scratch (ok reply, w) = (
    outcome_of agent reply,
    keep_messages (append messages (item (message "assistant" reply.content) nil)) scratch,
    w,
  )

  abbrev pub ask : Agent → Items → Fields → Result Items → W → Result Response × Fields × W
  ask agent messages scratch (err e) w = (err e, keep_messages messages scratch, w)
  ask agent messages scratch (ok tools) w = received agent messages scratch (
      client.create (model_of agent) max_tokens (system_prompt client c max_tokens agent) tools
        messages w)

  abbrev pub feed : Agent → Items → Fields → Result Items → W → Result Response × Fields × W
  feed agent messages scratch (err e) w = (err e, keep_messages messages scratch, w)
  feed agent messages scratch (ok added) w =
      ask agent (append messages added) scratch (tool_schemas client c max_tokens agent.tools) w

  abbrev pub started : Fields → Option Items → Items
  started task none = item (message "user" (task_block client c max_tokens task)) nil
  started task (some messages) = messages

  -- `respond`
  unfoldable pub respond : Agent → Fields → Fields → W → Result Response × Fields × W
  unfolding system_prompt tool_schemas result_blocks parse_output cost_of
  respond agent task scratch w = elim (messages_of (get "messages" scratch)) [
    | err e ↦ (err e, scratch, w)
    | ok earlier ↦
        feed agent (started task earlier) (without "tool_results" scratch)
          (fed_back client c max_tokens (get "tool_results" scratch)) w
  ]
