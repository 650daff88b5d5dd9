-- ===== src/Metrics.antt =====
-- reference/bass/observability.py: the counters and observations of `Metrics`. A key is the metric's
-- name with its labels, of which each call in the program gives at most one.
use bass_platform.Base.{
  ℕ, ◌+◌, String, Bool, true, false, ◌&&◌, Option, none, some, List, [], ◌∷◌, ◌==◌, if◌then◌else◌,
  ◌++◌, map, Dict, insert, concat,
}

abbrev pub Label : Type 0
Label = Option (String × String)

pub record Metric : Type 0 where
  pub name : String
  pub label : Label
  pub count : ℕ

abbrev pub Metrics : Type 0
Metrics = List Metric

abbrev same_label : Label → Label → Bool
same_label none none = true
same_label (some (k, v)) (some (j, w)) = k == j && v == w
same_label _ _ = false

unfoldable pub incr : String → Label → Metrics → Metrics
incr name label [] = record { name = name; label = label; count = 1 } ∷ []
incr name label (m ∷ rest) =
    if m.name == name && same_label m.label label
    then record m { count = m.count + 1 } ∷ rest
    else m ∷ incr name label rest

-- The values that were observed under a key.
pub record Observation : Type 0 where
  pub name : String
  pub label : Label
  pub values : List ℕ

unfoldable pub observe : String → ℕ → Label → List Observation → List Observation
observe name value label [] = record { name = name; label = label; values = value ∷ [] } ∷ []
observe name value label (o ∷ rest) =
    if o.name == name && same_label o.label label
    then record o { values = o.values ++ value ∷ [] } ∷ rest
    else o ∷ observe name value label rest

-- A dict display: of two entries with one key, the later value is kept.
abbrev pub from_pairs : {A : Type 0} → List (String × A) → Dict A → Dict A
from_pairs [] d = d
from_pairs ((k, v) ∷ rest) d = from_pairs rest (insert k v d)

module _ (str_of : Label → String) where
  -- The two dicts of `snapshot`; `str_of` prints the dict of a key's labels.
  unfoldable pub counters : Metrics → Dict ℕ
  counters metrics =
      from_pairs (map (λ (m : Metric). (concat (m.name ∷ str_of m.label ∷ []), m.count)) metrics) []

  unfoldable pub observations : List Observation → Dict (List ℕ)
  observations seen =
      from_pairs (map (λ (o : Observation). (concat (o.name ∷ str_of o.label ∷ []), o.values)) seen)
        []

  unfoldable pub snapshot : Metrics → List Observation → Dict ℕ × Dict (List ℕ)
  unfolding counters observations
  snapshot metrics seen = (counters metrics, observations seen)
