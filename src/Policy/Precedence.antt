-- ===== src/Policy/Precedence.antt =====
-- Which policy decides in reference/bass/policy.py: the engine sorts its policies and takes the first
-- that matches.
use bass_platform.Base.{
  ◌≤◌, ◌≡◌, refl, ◌≢◌, ◌⊎◌, inl, inr, true, false, List, [], ◌∷◌, All, mem_of_sort_by,
  All-of_sorted, contains, arith,
}
use mathlib.Core.Path.{subst}
use mathlib.Core.List.{Memᴰ}
use bass_platform.Errors.{ok}
use bass_platform.Value.{Fields}
use bass_platform.Models.{Agent, Tool, PolicyEffect}
use bass_platform.Host.{Host}
use bass_platform.Policy.{Policy, check, sort_policies, tried_first}
use bass_platform.Policy.FailClosed.{NoneMatch, FirstMatch, check_fails_closed}
use bass_platform.Policy.Order.{IsOrdered, sort_policies_lem}

module _ {W : Type 0} (agent : Agent) (tool : Tool W) (args context : Fields) where
  -- The policy was evaluated and does not match.
  abbrev pub Misses : Policy W → Type 0
  Misses p = p.applies agent tool args context ≡ ok false

  -- `q` is one of the policies and matches, and every policy of a smaller priority does not.
  abbrev pub Decides : List (Policy W) → Policy W → Type 0
  Decides policies q =
      Memᴰ q policies
      × (q.applies agent tool args context ≡ ok true)
      × All (λ (p : Policy W). Misses p ⊎ (q.priority ≤ p.priority)) policies

  NoneMatch-Misses :
      (policies : List (Policy W))
      → NoneMatch agent tool args context policies
      → All Misses policies
  NoneMatch-Misses [] h = tt
  NoneMatch-Misses (p ∷ rest) (here, h) = (here, NoneMatch-Misses rest h)

  later :
      (q : Policy W) (policies : List (Policy W))
      → All (λ (p : Policy W). q.priority ≤ p.priority) policies
      → All (λ (p : Policy W). Misses p ⊎ (q.priority ≤ p.priority)) policies
  later q [] h = tt
  later q (p ∷ rest) (here, h) = (inr here, later q rest h)

  FirstMatch-Decides :
      (policies : List (Policy W)) (q : Policy W)
      → IsOrdered policies
      → FirstMatch agent tool args context policies q
      → Decides policies q
  FirstMatch-Decides [] q h m = elim m [ ]
  FirstMatch-Decides (p ∷ rest) q (above, h) (inl (matches, same)) =
      subst (λ (x : Policy W). Decides (p ∷ rest) x) same
        (Memᴰ.head refl, matches, (inr (omega arith), later p rest above))
  FirstMatch-Decides (p ∷ rest) q (above, h) (inr (misses, m)) =
      let (among, matches, all) = FirstMatch-Decides rest q h m in
      (Memᴰ.tail among, matches, (inl misses, all))

  sort_policies-Decides :
      (policies : List (Policy W)) (q : Policy W)
      → Decides (sort_policies policies) q
      → Decides policies q
  unfolding sort_policies
  sort_policies-Decides policies q (among, matches, all) = (
    mem_of_sort_by tried_first q policies among,
    matches,
    All-of_sorted tried_first _ policies all,
  )

module _ {W : Type 0} (h : Host W) (agent : Agent) (tool : Tool W) (args context : Fields) where
  -- A tool call that the engine does not deny, whatever the order in which its policies were given, is
  -- on the agent's allow-list. Either the tool has no side effect and every policy was evaluated and
  -- does not match, or one of the policies matches and has the effect that was decided, and every
  -- policy of a smaller priority was evaluated and does not match.
  pub check_takes_least :
      (policies : List (Policy W))
      → (check h agent tool args context (sort_policies policies)).effect ≢ PolicyEffect.deny
      → (contains tool.name agent.tools ≡ true)
        × (((tool.side_effect ≡ false) × All (Misses agent tool args context) policies)
            ⊎ ((q : Policy W) × Decides agent tool args context policies q
                × (q.effect ≡ (check h agent tool args context (sort_policies policies)).effect)))
  unfolding sort_policies
  check_takes_least policies d =
      let (listed, permitted) =
        check_fails_closed h agent tool args context (sort_policies policies) d in
      (
        listed,
        elim permitted [
          | inl (read_only, none) ↦ inl (
            read_only,
            All-of_sorted tried_first _ policies (NoneMatch-Misses agent tool args context _ none),
          )
          | inr (q, m, same) ↦ inr (
            q,
            sort_policies-Decides agent tool args context policies q (
                FirstMatch-Decides agent tool args context (sort_policies policies) q
                  (sort_policies_lem policies).0 m),
            same,
          )
        ],
      )
