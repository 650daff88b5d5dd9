-- ===== src/Policy/Order.antt =====
-- The order in which reference/bass/policy.py tries the policies: `sorted(…, key=priority)`.
use bass_platform.Base.{
  ℕ, ◌≤◌, ◌≡◌, List, keep, nat_eq, arith, sort_by-IsSortedBy, keep-sort_by, IsSortedBy,
}
use bass_platform.Policy.{Policy, tried_first, sort_policies}

module _ {W : Type 0} where
  abbrev pub IsOrdered : List (Policy W) → Type 0
  IsOrdered = IsSortedBy (λ (p q : Policy W). p.priority ≤ q.priority)

  -- The policies of one priority, in their order.
  abbrev of_priority : ℕ → List (Policy W) → List (Policy W)
  of_priority k = keep (λ (p : Policy W). nat_eq p.priority k)

  -- The policies are tried by rising priority, and those of one priority in the order in which they
  -- were given, none left out and none added.
  pub sort_policies_lem :
      (ps : List (Policy W))
      → IsOrdered (sort_policies ps)
        × ((k : ℕ) → of_priority k (sort_policies ps) ≡ of_priority k ps)
  unfolding sort_policies
  sort_policies_lem ps = (
    sort_by-IsSortedBy tried_first _ (λ p q h. ground arith) (λ p q h. ground arith)
        (λ p q r h k. omega arith) ps,
    λ k. keep-sort_by tried_first _ (λ p q h i. ground arith) ps,
  )
