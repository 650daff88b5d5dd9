-- ===== src/Budget.antt =====
-- reference/bass/budgets.py: the ceilings on a run's cost and steps. A violation is kept as data;
-- its text is what `check` returns.
use bass_platform.Base.{ℕ, String, Option, none, some, ltb, [], ◌∷◌, concat, if◌then◌else◌}
use bass_platform.Models.{Run}
use bass_platform.Host.{Host}

pub record Budget : Type 0 where
  pub max_usd : ℕ
  pub max_steps : ℕ

pub data Violation : Type 0 where
  cost : ℕ → ℕ → Violation
  steps : ℕ → ℕ → Violation

unfoldable pub check : Budget → Run → Option Violation
check b run =
    if ltb b.max_usd run.cost_usd
    then some (Violation.cost run.cost_usd b.max_usd)
    else if ltb b.max_steps run.steps_used
    then some (Violation.steps run.steps_used b.max_steps)
    else none

abbrev pub violation_text : {W : Type 0} → Host W → Violation → String
violation_text h (Violation.cost spent most) =
    concat ("cost $" ∷ h.fmt4 spent ∷ " exceeds budget $" ∷ h.fmt4 most ∷ [])
violation_text h (Violation.steps used most) =
    concat ("steps " ∷ h.decimal used ∷ " exceed budget " ∷ h.decimal most ∷ [])
