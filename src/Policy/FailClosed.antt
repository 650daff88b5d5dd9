-- ===== src/Policy/FailClosed.antt =====
-- The policy engine of reference/bass/policy.py fails closed.
use bass_platform.Base.{
  ◌<◌, ◌≤◌, none, some, ◌≡◌, refl, ◌≢◌, ◌⊎◌, inl, inr, Bool, true, false, List, [], ◌∷◌, contains,
  ltb, arith, eq_iff, Bool-cases,
}
use bass_platform.Errors.{Result, ok, err}
use bass_platform.Value.{Value, pos, negsuc, Fields, get}
use bass_platform.Models.{Agent, Tool, PolicyEffect}
use bass_platform.Host.{Host, Float}
use bass_platform.Policy.{
  Policy, Decision, check, first_match, decide_by, default_policies, amount_arg,
}

module _ {W : Type 0} (agent : Agent) (tool : Tool W) (args context : Fields) where
  -- Every policy was evaluated, and none matched.
  abbrev pub NoneMatch : List (Policy W) → Type 0
  NoneMatch [] = Unit
  NoneMatch (p ∷ rest) = (p.applies agent tool args context ≡ ok false) × NoneMatch rest

  -- `q` matched, and every policy before it was evaluated and did not.
  abbrev pub FirstMatch : List (Policy W) → Policy W → Type 0
  FirstMatch [] q = ⊥
  FirstMatch (p ∷ rest) q =
      ((p.applies agent tool args context ≡ ok true) × (p ≡ q))
      ⊎ ((p.applies agent tool args context ≡ ok false) × FirstMatch rest q)

-- How a decision other than a denial came about.
abbrev pub Permitted :
    {W : Type 0} → Agent → Tool W → Fields → Fields → List (Policy W) → PolicyEffect → Type 0
Permitted {W} agent tool args context policies effect =
    ((tool.side_effect ≡ false) × NoneMatch agent tool args context policies)
    ⊎ ((q : Policy W) × FirstMatch agent tool args context policies q × (q.effect ≡ effect))

-- `args.get("amount", 0)` is the value.
abbrev pub HasAmount : Fields → Value → Type 0
HasAmount args v =
    (get "amount" args ≡ some v) ⊎ ((get "amount" args ≡ none) × (v ≡ Value.num (pos 0)))

-- The effect that the default rules have, by what `float` makes of the amount, in millionths.
abbrev pub LimitRule : Result Float → PolicyEffect → Type 0
LimitRule (ok (Float.finite (pos m))) effect =
    ((5_000_000_000 < m) × (effect ≡ PolicyEffect.require_approval))
    ⊎ ((m ≤ 5_000_000_000) × (effect ≡ PolicyEffect.allow))
LimitRule (ok (Float.finite (negsuc m))) effect = effect ≡ PolicyEffect.allow
LimitRule (ok Float.infinity) effect = effect ≡ PolicyEffect.require_approval
LimitRule (ok Float.minus_infinity) effect = effect ≡ PolicyEffect.allow
LimitRule (ok Float.nan) effect = effect ≡ PolicyEffect.allow
LimitRule (err e) effect = effect ≡ PolicyEffect.deny

module _ {W : Type 0} (h : Host W) (agent : Agent) (tool : Tool W) (args context : Fields) where
  decided-Permitted :
      (p : Policy W) (rest : List (Policy W)) (r : Result Bool) (next : Decision)
      → p.applies agent tool args context ≡ r
      → (next.effect ≢ PolicyEffect.deny → Permitted agent tool args context rest next.effect)
      → (decide_by h agent tool args context p r next).effect ≢ PolicyEffect.deny
      → Permitted agent tool args context
          (p ∷ rest)
          (decide_by h agent tool args context p r next).effect
  decided-Permitted p rest (ok true) next e ih d = inr (p, inl (e, refl), refl)
  decided-Permitted p rest (ok false) next e ih d = pass (ih d)
    where
      pass :
          Permitted agent tool args context rest next.effect
          → Permitted agent tool args context (p ∷ rest) next.effect
      pass (inl (read_only, none_match)) = inl (read_only, (e, none_match))
      pass (inr (q, m, same)) = inr (q, inr (e, m), same)
  decided-Permitted p rest (err x) next e ih d = absurd (d refl)

  first_match-Permitted :
      (policies : List (Policy W))
      → (first_match h agent tool args context policies).effect ≢ PolicyEffect.deny
      → Permitted agent tool args context policies
          (first_match h agent tool args context policies).effect
  unfolding first_match
  first_match-Permitted [] d = elim (Bool-cases tool.side_effect) [
    | inl mutating ↦ absurd (d (rw mutating))
    | inr read_only ↦ inl (read_only, tt)
  ]
  first_match-Permitted (p ∷ rest) d =
      decided-Permitted p rest (p.applies agent tool args context)
        (first_match h agent tool args context rest) refl (first_match-Permitted rest) d

  -- A tool call that is not denied is on the agent's allow-list, and either the tool has no side
  -- effect and no policy matched, or the first policy to match, with every one before it evaluated
  -- without an error, has the effect that was decided.
  pub check_fails_closed :
      (policies : List (Policy W))
      → (check h agent tool args context policies).effect ≢ PolicyEffect.deny
      → (contains tool.name agent.tools ≡ true)
        × Permitted agent tool args context policies
            (check h agent tool args context policies).effect
  unfolding check
  check_fails_closed policies d = elim (Bool-cases (contains tool.name agent.tools)) [
    | inl listed ↦
        (listed, rw (listed, check) (first_match-Permitted policies (rw (listed, check) at d)))
    | inr missing ↦ absurd (d (rw (missing, check)))
  ]

  amount_arg-HasAmount : (v : Value) → HasAmount args v → amount_arg h args ≡ v
  amount_arg-HasAmount v (inl present) = rw (present, amount_arg) refl
  amount_arg-HasAmount v (inr (missing, zero_amount)) = rw (missing, zero_amount, amount_arg) refl

  amount_effect :
      (v : Value) (r : Result Float)
      → tool.name ≡ "create_ap_entry"
      → tool.side_effect ≡ true
      → contains tool.name agent.tools ≡ true
      → amount_arg h args ≡ v
      → h.to_float v ≡ r
      → LimitRule r (check h agent tool args context (default_policies h)).effect
  unfolding check default_policies
  amount_effect v (err e) named mutating listed arg read =
      ground (arith, eq_iff tool.name "create_ap_entry")
  amount_effect v (ok (Float.finite (pos m))) named mutating listed arg read =
      elim (Bool-cases (ltb 5_000_000_000 m)) [
        | inl more ↦ inl (ground arith, ground (arith, eq_iff tool.name "create_ap_entry"))
        | inr less ↦ inr (ground arith, ground (arith, eq_iff tool.name "create_ap_entry"))
      ]
  amount_effect v (ok (Float.finite (negsuc m))) named mutating listed arg read =
      ground (arith, eq_iff tool.name "create_ap_entry")
  amount_effect v (ok Float.infinity) named mutating listed arg read =
      ground (arith, eq_iff tool.name "create_ap_entry")
  amount_effect v (ok Float.minus_infinity) named mutating listed arg read =
      ground (arith, eq_iff tool.name "create_ap_entry")
  amount_effect v (ok Float.nan) named mutating listed arg read =
      ground (arith, eq_iff tool.name "create_ap_entry")

  -- The default rules on a mutating `create_ap_entry` of an agent that may call it, by what `float`
  -- makes of the argument `amount`, which is 0 if it is missing: more than $5,000 and infinity need
  -- an approval; $5,000 or less, minus infinity and NaN are allowed; where `float` raises, the call is
  -- denied.
  pub default_policies_lem :
      (v : Value)
      → tool.name ≡ "create_ap_entry"
      → tool.side_effect ≡ true
      → contains tool.name agent.tools ≡ true
      → HasAmount args v
      → LimitRule (h.to_float v) (check h agent tool args context (default_policies h)).effect
  default_policies_lem v named mutating listed amount =
      amount_effect v (h.to_float v) named mutating listed (amount_arg-HasAmount v amount) refl
