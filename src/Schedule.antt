-- ===== src/Schedule.antt =====
-- reference/bass/schedule.py: cron expressions, and the scheduler that fires what is due. A reading of
-- the calendar is a record of what the code asks of a `datetime`, with its text as `strftime` gives
-- it. The values of a field are the list of its numbers, of which the code only asks whether one is
-- there.
pub mod Values
pub mod Once
use bass_platform.Base.{
  ℕ, zero, suc, ◌+◌, ◌-◌, ◌%◌, String, Bool, true, false, not, ◌&&◌, ◌||◌, Option, none, some, List,
  [], ◌∷◌, ◌++◌, nat_eq, leb, ltb, keep, concat, if◌then◌else◌,
}
use bass_platform.Exec.{Exec, ◌>>=◌, pure, lift}
use bass_platform.Errors.{Kind, Result, ok, err, raised}
use bass_platform.Value.{ℤ, pos, negsuc, Value, Fields, dict}
use bass_platform.Text.{Codes, codes, split_by, words, cut, unsigned, int}

-- What `range(start, end + 1, step)` is called with.
pub record Range : Type 0 where
  pub start : ℕ
  pub end : ℤ
  pub step : ℤ

abbrev pub is_star : Codes → Bool
is_star (c ∷ []) = nat_eq c b'*'
is_star _ = false

-- The bounds of a part without its step: `*`, `a-b` or one number. A text before the minus sign, or
-- one without it, is no negative number.
abbrev pub bounds : Codes → Option (Codes × Codes) → ℕ → ℕ → Result (ℕ × ℤ)
bounds rng (some (a, b)) lo hi = elim (unsigned a) [
  | err e ↦ err e
  | ok start ↦ elim (int b) [ err e ↦ err e | ok end ↦ ok (start, end) ]
]
bounds rng none lo hi = elim (unsigned rng) [ err e ↦ err e | ok n ↦ ok (n, pos n) ]

abbrev pub part_bounds : Codes → ℕ → ℕ → Result (ℕ × ℤ)
part_bounds rng lo hi = if is_star rng then ok (lo, pos hi) else bounds rng (cut b'-' rng) lo hi

abbrev pub with_step : Result ℤ → Result (ℕ × ℤ) → Result Range
with_step (err e) b = err e
with_step (ok step) (err e) = err e
with_step (ok step) (ok (start, end)) = ok (record { start = start; end = end; step = step })

-- One part of a field, up to its `range`
unfoldable pub parse_part : Codes → ℕ → ℕ → Result Range
parse_part part lo hi = elim (cut b'/' part) [
  | some (rng, step_s) ↦ with_step (int step_s) (part_bounds rng lo hi)
  | none ↦ with_step (ok (pos 1)) (part_bounds part lo hi)
]

-- The numbers from `v` on, below `stop`, by `step`; they are at most `stop - v` many.
abbrev pub up : ℕ → ℕ → ℕ → ℕ → List ℕ
up zero v stop step = []
up (suc left) v stop step =
    let rest = up left (v + step) stop step in if ltb v stop then v ∷ rest else []

-- `v > end + 1`
abbrev pub beyond : ℕ → ℤ → Bool
beyond v (pos e) = ltb (e + 1) v
beyond v (negsuc zero) = ltb 0 v
beyond v (negsuc (suc e)) = true

-- The numbers from `v` down, above `end + 1`, by `suc k`, as far as they are not negative; they are at
-- most `v + 1` many.
abbrev pub down : ℕ → ℕ → ℤ → ℕ → List ℕ
down zero v end k = []
down (suc left) v end k =
    let rest = down left (v - suc k) end k in
    if beyond v end then v ∷ (if leb (suc k) v then rest else []) else []

-- `range(start, end + 1, step)`, less what is negative
unfoldable pub range_values : Range → Result (List ℕ)
range_values r = elim r.step [
  | pos zero ↦ raised Kind.value_error "range() arg 3 must not be zero"
  | pos (suc k) ↦
      ok (elim r.end [ pos e ↦ up (e + 1 - r.start) r.start (e + 1) (suc k) | negsuc _ ↦ [] ])
  | negsuc k ↦ ok (down (r.start + 1) r.start r.end k)
]

-- `if lo <= v <= hi: values.add(v)`
abbrev pub within : ℕ → ℕ → List ℕ → List ℕ
within lo hi vs = keep (λ v. leb lo v && leb v hi) vs

abbrev pub both : Result (List ℕ) → Result (List ℕ) → Result (List ℕ)
both (err e) rest = err e
both (ok vs) (err e) = err e
both (ok vs) (ok ws) = ok (vs ++ ws)

abbrev pub values_of : Result Range → ℕ → ℕ → Result (List ℕ)
values_of (err e) lo hi = err e
values_of (ok r) lo hi = elim (range_values r) [ err e ↦ err e | ok vs ↦ ok (within lo hi vs) ]

abbrev pub parse_parts : List Codes → ℕ → ℕ → Result (List ℕ)
parse_parts [] lo hi = ok []
parse_parts (part ∷ rest) lo hi =
    both (values_of (parse_part part lo hi) lo hi) (parse_parts rest lo hi)

-- `_parse_field`
unfoldable pub parse_field : Codes → ℕ → ℕ → Result (List ℕ)
unfolding parse_part range_values
parse_field field_expr lo hi = parse_parts (split_by (λ c. nat_eq c b',') field_expr) lo hi

pub record Datetime : Type 0 where
  pub minute : ℕ
  pub hour : ℕ
  pub day : ℕ
  pub month : ℕ
  pub weekday : ℕ
  -- `strftime("%Y-%m-%dT%H:%M")`
  pub slot : String

abbrev pub member : ℕ → List ℕ → Bool
member n [] = false
member n (v ∷ vs) = nat_eq v n || member n vs

abbrev pub found : ℕ → Result (List ℕ) → Result Bool
found n (ok vs) = ok (member n vs)
found n (err e) = err e

-- `n in _parse_field(...)`
abbrev pub in_field : ℕ → Codes → ℕ → ℕ → Result Bool
in_field n field lo hi = found n (parse_field field lo hi)

-- `if not test: return False`, and then the rest
abbrev pub unless_false : Result Bool → Result Bool → Result Bool
unless_false (err e) rest = err e
unless_false (ok false) rest = ok false
unless_false (ok true) rest = rest

-- The day of the month and that of the week, both evaluated
abbrev pub either_day : Codes → Codes → Result Bool → Result Bool → Result Bool
either_day dom dow (err e) dow_ok = err e
either_day dom dow (ok dom_ok) (err e) = err e
either_day dom dow (ok dom_ok) (ok dow_ok) = ok (
    if not (is_star dom) && not (is_star dow)
    then dom_ok || dow_ok
    else if not (is_star dom)
    then dom_ok
    else if not (is_star dow)
    then dow_ok
    else true)

abbrev pub five_fields : List Codes → Datetime → Result Bool
five_fields (minute ∷ hour ∷ dom ∷ month ∷ dow ∷ []) dt =
    unless_false (in_field dt.minute minute 0 59) (
      unless_false (in_field dt.hour hour 0 23) (
        unless_false (in_field dt.month month 1 12) (
          either_day dom dow (in_field dt.day dom 1 31) (in_field ((dt.weekday + 1) % 7) dow 0 6))))
five_fields _ dt = raised Kind.value_error "cron expression must have 5 fields"

unfoldable pub cron_matches : String → Datetime → Result Bool
unfolding parse_field
cron_matches expr dt = five_fields (words (codes expr)) dt

pub record Schedule : Type 0 where
  pub tenant_id : String
  pub workflow_name : String
  pub cron : String
  pub enabled : Bool
  pub id : String

abbrev pub due_then : Schedule → Result Bool → Result (List Schedule) → Result (List Schedule)
due_then s (err e) rest = err e
due_then s (ok b) (err e) = err e
due_then s (ok b) (ok rest) = ok (if b then s ∷ rest else rest)

-- `Scheduler.due`
unfoldable pub due : List Schedule → Datetime → Result (List Schedule)
unfolding cron_matches
due [] now = ok []
due (s ∷ rest) now =
    due_then s (if s.enabled then cron_matches s.cron now else ok false) (due rest now)

abbrev pub message_id : Schedule → String → String
message_id s slot = concat ("sched:" ∷ s.id ∷ ":" ∷ slot ∷ [])

abbrev pub trigger_of : Schedule → String → Fields
trigger_of s slot = dict (
    ("source", Value.str "schedule")
    ∷ ("schedule_id", Value.str s.id)
    ∷ ("fired_for", Value.str slot)
    ∷ ("message_id", Value.str (message_id s slot))
    ∷ [])

-- The loop of `tick` over what is due; `fire` is the caller's.
module _ {S A : Type 0} (fire : Schedule → Fields → Exec S A) where
  unfoldable pub fire_each : String → List Schedule → Exec S (List A)
  fire_each slot [] = pure []
  fire_each slot (s ∷ rest) = do
    run ← fire s (trigger_of s slot)
    runs ← fire_each slot rest
    pure (run ∷ runs)

  -- `Scheduler.tick`
  unfoldable pub tick : List Schedule → Datetime → Exec S (List A)
  unfolding due fire_each
  tick schedules now = do found ← lift (due schedules now); fire_each now.slot found
