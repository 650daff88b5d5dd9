-- ===== src/Engine/Tools.antt =====
-- reference/bass/tools.py: `ToolRegistry`. Its tools are fixed once registered; its connectors are
-- in the engine's state, for the sake of their breakers.
use bass_platform.Base.{String, Option, none, some, [], ◌∷◌, Dict, lookup, insert, concat}
use bass_platform.Errors.{Kind, Result, ok, raised}
use bass_platform.Exec.{◌>>=◌, lift}
use bass_platform.Value.{Value, Fields}
use bass_platform.Models.{Tool}
use bass_platform.Connector.{Connector}
use bass_platform.Connector
use bass_platform.Engine.{Config, M}

unfoldable pub register_connector : Connector → Dict Connector → Dict Connector
register_connector c connectors = insert c.name c connectors

module _ {W : Type 0} where
  unfoldable pub register : Dict Connector → Tool W → Dict (Tool W) → Result (Dict (Tool W))
  register connectors tool tools = elim (lookup tool.connector connectors) [
    | none ↦
        raised Kind.tool_error (
          concat ("tool '" ∷ tool.name ∷ "' names unknown connector '" ∷ tool.connector ∷ "'" ∷ []))
    | some _ ↦ ok (insert tool.name tool tools)
  ]

  abbrev known_tool : String → Option (Tool W) → Result (Tool W)
  known_tool name none = raised Kind.tool_error (concat ("unknown tool: " ∷ name ∷ []))
  known_tool name (some t) = ok t

module _ {W : Type 0} (c : Config W) where
  -- `ToolRegistry.get`
  unfoldable pub get_tool : String → Result (Tool W)
  get_tool name = known_tool name (lookup name c.tools)

  -- `connector.run(tool.fn, args)`; the breaker that it leaves is kept.
  unfoldable pub call_connector : Tool W → Fields → Option Connector → M W Value
  call_connector tool args none s = (raised Kind.key_error tool.connector, s)
  call_connector tool args (some con) s =
      let (r, con', w) = Connector.run c.host tool.fn args con s.world in
      (r, record s { connectors = insert tool.connector con' s.connectors; world = w })

  -- `ToolRegistry.execute`
  unfoldable pub execute : String → Fields → M W Value
  unfolding get_tool call_connector
  execute name args = do
    tool ← lift (get_tool name)
    λ s. call_connector tool args (lookup tool.connector s.connectors) s
