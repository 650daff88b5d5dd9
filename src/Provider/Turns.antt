-- ===== src/Provider/Turns.antt =====
-- The conversation that `AnthropicModel.respond` of reference/bass/providers.py keeps in the scratch:
-- turns of the user and the assistant that alternate.
use bass_platform.Base.{ℕ, String, ◌≡◌, Bool, true, false, not, ◌&&◌, Option, none, some, ◌==◌, ◌⊎◌}
use bass_platform.Errors.{Result, ok, err}
use bass_platform.Value.{Value, Items, nil, item, Fields, get}
use bass_platform.Engine.{Response, Config}
use bass_platform.Provider.{Client, append, message}

abbrev is_text : String → Option Value → Bool
is_text s (some (Value.str t)) = t == s
is_text s _ = false

abbrev has_role : String → Value → Bool
has_role role (Value.obj d) = is_text role (get "role" d)
has_role role _ = false

abbrev role_of : Bool → String
role_of true = "user"
role_of false = "assistant"

-- Turns that alternate, the user's first if the test is true, up to one of the assistant's.
abbrev pub alternates : Bool → Items → Bool
alternates user (item m rest) = has_role (role_of user) m && alternates (not user) rest
alternates user nil = user

-- The scratch of a first turn, or of one that follows tool calls whose results are there.
abbrev pub IsReady : Fields → Type 0
IsReady scratch =
    ((get "messages" scratch ≡ none) × (get "tool_results" scratch ≡ none))
    ⊎ ((messages : Items) × (result : Value) × (results : Items) × (get "messages" scratch
          ≡ some (Value.arr messages))
        × (get "tool_results" scratch ≡ some (Value.arr (item result results)))
        × (alternates true messages ≡ true))

-- What a turn leaves: turns that alternate up to one of the assistant's, and no results.
pub record Ended (scratch : Fields) : Type 0 where
  pub messages : Items
  pub kept : get "messages" scratch ≡ some (Value.arr messages)
  pub alternate : alternates true messages ≡ true
  pub taken : get "tool_results" scratch ≡ none

module _ {W : Type 0} (client : Client W) (c : Config W) (max_tokens : ℕ) where
  -- The messages, with the assistant's turn after them, alternate whatever it says.
  abbrev Awaits : Items → Type 0
  Awaits ms =
      (answer : Value) → alternates true (append ms (item (message "assistant" answer) nil)) ≡ true

  abbrev pub EndedIfOk : Result Response × Fields × W → Type 0
  EndedIfOk (ok r, scratch, w) = Ended scratch
  EndedIfOk (err e, scratch, w) = Unit

  -- What is fed back leaves the assistant to answer.
  abbrev FedAwaits : Items → Result Items → Type 0
  FedAwaits ms (ok xs) = Awaits (append ms xs)
  FedAwaits ms (err e) = Unit
