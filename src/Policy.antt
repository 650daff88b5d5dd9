-- ===== src/Policy.antt =====
-- reference/bass/policy.py: the policy engine. `applies` may raise.
pub mod FailClosed
pub mod Order
pub mod Precedence
use bass_platform.Base.{
  sort_by, leb, ℕ, String, Bool, true, false, not, none, some, List, [], ◌∷◌, ltb, contains, ◌==◌,
  if◌then◌else◌, concat,
}
use bass_platform.Errors.{Result, ok, err}
use bass_platform.Value.{Value, Fields, pos, num, get, above}
use bass_platform.Models.{Agent, Tool, PolicyEffect}
use bass_platform.Host.{Host, Float}

pub record Decision : Type 0 where
  pub effect : PolicyEffect
  pub reason : String
  pub approvers : List String

abbrev pub denied : List String → Decision
denied reason = record { effect = PolicyEffect.deny; reason = concat reason; approvers = [] }

pub record Policy (W : Type 0) : Type 0 where
  pub name : String
  pub version : ℕ
  pub applies : Agent → Tool W → Fields → Fields → Result Bool
  pub effect : PolicyEffect
  pub reason : String
  pub approvers : List String
  pub priority : ℕ

module _ {W : Type 0} where
  abbrev pub tried_first : Policy W → Policy W → Bool
  tried_first p q = leb p.priority q.priority

  -- `sorted(policies, key=lambda p: p.priority)`, which is stable
  unfoldable pub sort_policies : List (Policy W) → List (Policy W)
  sort_policies policies = sort_by tried_first policies

module _ {W : Type 0} (h : Host W) (agent : Agent) (tool : Tool W) (args context : Fields) where
  -- What one policy decides: `next` if it does not match.
  abbrev pub decide_by : Policy W → Result Bool → Decision → Decision
  decide_by p (err e) next = denied ("policy '" ∷ p.name ∷ "' errored during evaluation" ∷ [])
  decide_by p (ok true) next = record {
    effect = p.effect;
    reason = concat ("policy '" ∷ p.name ∷ "' v" ∷ h.decimal p.version ∷ ": " ∷ p.reason ∷ []);
    approvers = p.approvers;
  }
  decide_by p (ok false) next = next

  abbrev pub default_decision : Decision
  default_decision =
      if tool.side_effect
      then denied ("no policy permits mutating tool '" ∷ tool.name ∷ "' (deny-by-default)" ∷ [])
      else record {
        effect = PolicyEffect.allow;
        reason = "read-only tool, default allow";
        approvers = [];
      }

  -- The loop over the policies.
  unfoldable pub first_match : List (Policy W) → Decision
  first_match [] = default_decision
  first_match (p ∷ rest) = decide_by p (p.applies agent tool args context) (first_match rest)

  -- `PolicyEngine.check`, on the engine's sorted policies.
  unfoldable pub check : List (Policy W) → Decision
  unfolding first_match
  check policies =
      if contains tool.name agent.tools
      then first_match policies
      else denied ("'" ∷ tool.name ∷ "' not in " ∷ agent.name ∷ "'s allow-list" ∷ [])

module _ {W : Type 0} (h : Host W) where
  abbrev amount_limit : ℕ
  amount_limit = 5_000_000_000

  abbrev pub amount_arg : Fields → Value
  amount_arg args = elim (get "amount" args) [ none ↦ num (pos 0) | some v ↦ v ]

  -- `x > 5000`; a comparison with NaN is false
  abbrev pub exceeds_limit : Float → Bool
  exceeds_limit (Float.finite z) = above amount_limit z
  exceeds_limit Float.infinity = true
  exceeds_limit Float.minus_infinity = false
  exceeds_limit Float.nan = false

  abbrev pub is_large_entry : Agent → Tool W → Fields → Fields → Result Bool
  is_large_entry a t args ctx =
      if t.name == "create_ap_entry"
      then elim (h.to_float (amount_arg args)) [ ok x ↦ ok (exceeds_limit x) | err e ↦ err e ]
      else ok false

  unfoldable pub default_policies : List (Policy W)
  default_policies =
      record {
        name = "read-only-ok";
        version = 1;
        applies = λ a t args ctx. ok (not t.side_effect);
        effect = PolicyEffect.allow;
        reason = "read-only tools are always permitted";
        approvers = [];
        priority = 10;
      }
      ∷ record {
        name = "large-ap-entry-needs-approval";
        version = 1;
        applies = is_large_entry;
        effect = PolicyEffect.require_approval;
        reason = "AP entries over $5,000 require finance approval";
        approvers = "finance-team" ∷ [];
        priority = 20;
      }
      ∷ record {
        name = "small-ap-entry-ok";
        version = 1;
        applies = λ a t args ctx. ok (t.name == "create_ap_entry");
        effect = PolicyEffect.allow;
        reason = "AP entries at or under $5,000 are auto-approved";
        approvers = [];
        priority = 30;
      }
      ∷ []
