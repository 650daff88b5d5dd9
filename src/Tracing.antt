-- ===== src/Tracing.antt =====
-- reference/bass/tracing.py: the span that the package `opentelemetry` is given, if it is there.
use bass_platform.Base.{String, Bool, Option, none, some, List, [], ◌∷◌, if◌then◌else◌, concat}
use bass_platform.Value.{Value}

pub record Span : Type 0 where
  pub name : String
  pub attributes : List (String × Value)

-- The attributes that are set, in the order of the arguments; a later one of the same name wins.
abbrev pub attributes_of : List (String × Option Value) → List (String × Value)
attributes_of [] = []
attributes_of ((key, none) ∷ rest) = attributes_of rest
attributes_of ((key, some value) ∷ rest) = (concat ("bass." ∷ key ∷ []), value) ∷ attributes_of rest

-- `span`; `have` is `tracing_enabled()`.
unfoldable pub span : Bool → String → List (String × Option Value) → Option Span
span have name attrs =
    if have then some (record { name = name; attributes = attributes_of attrs }) else none
