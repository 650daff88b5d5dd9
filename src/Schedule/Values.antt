-- ===== src/Schedule/Values.antt =====
-- Which numbers a cron field of reference/bass/schedule.py has, without listing them.
use bass_platform.Base.{
  ℕ, zero, suc, ◌+◌, ◌-◌, ◌%◌, ◌≤◌, ◌≡◌, refl, Bool, true, false, ◌&&◌, ◌||◌, List, [], ◌∷◌, ◌++◌,
  nat_eq, leb, ltb, arith,
}
use bass_platform.Errors.{Kind, Result, ok, err, raised}
use bass_platform.Value.{ℤ, pos, negsuc}
use native.Mathlib.Nat.{mod-eq_of_lt, mod-eq-sub-mod}
use bass_platform.Text.{Codes, split_by}
use bass_platform.Schedule.{
  Range, parse_part, up, down, beyond, range_values, within, both, values_of, parse_parts,
  parse_field, member, found, in_field,
}

-- A number of a range by arithmetic: between the bounds, at a multiple of the step from the start.
abbrev pub in_range : ℕ → Range → Result Bool
in_range n r = elim r.step [
  | pos zero ↦ raised Kind.value_error "range() arg 3 must not be zero"
  | pos (suc k) ↦ ok (elim r.end [
    | pos e ↦ leb r.start n && leb n e && nat_eq ((n - r.start) % suc k) 0
    | negsuc _ ↦ false
  ])
  | negsuc k ↦ ok (leb n r.start && beyond n r.end && nat_eq ((r.start - n) % suc k) 0)
]

-- The same of a part, within the field's bounds
abbrev pub in_part : ℕ → Result Range → ℕ → ℕ → Result Bool
in_part n (err e) lo hi = err e
in_part n (ok r) lo hi = elim (in_range n r) [
  | err e ↦ err e
  | ok b ↦ ok (b && (leb lo n && leb n hi))
]

abbrev pub either : Result Bool → Result Bool → Result Bool
either (err e) rest = err e
either (ok a) (err e) = err e
either (ok a) (ok b) = ok (a || b)

-- Some part has the number, and every part is well formed.
abbrev pub in_parts : ℕ → List Codes → ℕ → ℕ → Result Bool
in_parts n [] lo hi = ok false
in_parts n (part ∷ rest) lo hi =
    either (in_part n (parse_part part lo hi) lo hi) (in_parts n rest lo hi)

-- A multiple of the step is 0, or a multiple with one step added.
multiple_step :
    (d k : ℕ)
    → nat_eq (d % suc k) 0 ≡ (nat_eq d 0 || (leb (suc k) d && nat_eq ((d - suc k) % suc k) 0))
multiple_step d k =
    grind (arith, mod-eq_of_lt {n = d} {m = suc k}, mod-eq-sub-mod {n = d} {m = suc k})

sub_sub_step : (n v k : ℕ) → n - v - suc k ≡ n - (v + suc k)
sub_sub_step n v k = omega arith

swap_step : (n v k : ℕ) → v - n - suc k ≡ v - suc k - n
swap_step n v k = omega arith

beyond_le : (n v : ℕ) (end : ℤ) → n ≤ v → beyond n end ≡ true → beyond v end ≡ true
beyond_le n v (pos e) h b = ground arith
beyond_le n v (negsuc zero) h b = ground arith
beyond_le n v (negsuc (suc e)) h b = refl

member-up :
    (n left v stop k : ℕ)
    → stop ≤ v + left
    → member n (up left v stop (suc k)) ≡ (leb v n && ltb n stop && nat_eq ((n - v) % suc k) 0)
member-up n zero v stop k h = ground arith
member-up n (suc left) v stop k h = ground (
  arith,
  multiple_step (n - v) k,
  sub_sub_step n v k,
  member-up n left (v + suc k) stop k (omega arith),
)

member-down :
    (n left v k : ℕ) (end : ℤ)
    → suc v ≤ left
    → member n (down left v end k) ≡ (leb n v && beyond n end && nat_eq ((v - n) % suc k) 0)
member-down n zero v k end h = absurd (omega arith)
member-down n (suc left) v k end h = ground (
  arith,
  multiple_step (v - n) k,
  swap_step n v k,
  beyond_le n v end,
  member-down n left (v - suc k) k end,
)

member-within :
    (n lo hi : ℕ) (vs : List ℕ)
    → member n (within lo hi vs) ≡ (member n vs && (leb lo n && leb n hi))
member-within n lo hi [] = refl
member-within n lo hi (v ∷ vs) = ground (arith, member-within n lo hi vs)

member-append : (n : ℕ) (vs ws : List ℕ) → member n (vs ++ ws) ≡ (member n vs || member n ws)
member-append n [] ws = refl
member-append n (v ∷ vs) ws = ground (arith, member-append n vs ws)

forward :
    (n start k : ℕ) (end : ℤ)
    → found n (range_values (record { start = start; end = end; step = pos (suc k) }))
      ≡ in_range n (record { start = start; end = end; step = pos (suc k) })
unfolding range_values
forward n start k (pos e) =
    ground (arith, member-up n (e + 1 - start) start (e + 1) k (omega arith))
forward n start k (negsuc e) = refl

found-range_values : (n : ℕ) (r : Range) → found n (range_values r) ≡ in_range n r
unfolding range_values
found-range_values n r =
    elim r.step
      as (λ step.
        found n (range_values (record r { step = step })) ≡ in_range n (record r { step = step })) [
          | pos zero ↦ refl
          | pos (suc k) ↦ forward n r.start k r.end
          | negsuc k ↦ cc (member-down n (r.start + 1) r.start k r.end (omega arith))
        ]

found-within :
    (n lo hi : ℕ) (vs : Result (List ℕ)) (b : Result Bool)
    → found n vs ≡ b
    → found n (elim vs [ err e ↦ err e | ok vs ↦ ok (within lo hi vs) ])
      ≡ elim b [ err e ↦ err e | ok b ↦ ok (b && (leb lo n && leb n hi)) ]
found-within n lo hi (err e) b h = rw (← h) refl
found-within n lo hi (ok vs) b h = rw (← h) (cc (member-within n lo hi vs))

found-values_of : (n lo hi : ℕ) (r : Result Range) → found n (values_of r lo hi) ≡ in_part n r lo hi
found-values_of n lo hi (err e) = refl
found-values_of n lo hi (ok r) =
    found-within n lo hi (range_values r) (in_range n r) (found-range_values n r)

found-both : (n : ℕ) (x y : Result (List ℕ)) → found n (both x y) ≡ either (found n x) (found n y)
found-both n (err e) y = refl
found-both n (ok vs) (err e) = refl
found-both n (ok vs) (ok ws) = cc (member-append n vs ws)

found-parse_parts :
    (n : ℕ) (parts : List Codes) (lo hi : ℕ)
    → found n (parse_parts parts lo hi) ≡ in_parts n parts lo hi
found-parse_parts n [] lo hi = refl
found-parse_parts n (part ∷ rest) lo hi =
    rw (found-both n (values_of (parse_part part lo hi) lo hi) (parse_parts rest lo hi))
      (cc (found-values_of n lo hi (parse_part part lo hi), found-parse_parts n rest lo hi))

-- A number is in a cron field exactly when one of the parts between the commas has it: it lies
-- between the field's bounds and the part's, at a multiple of the part's step from where the part
-- starts. The field raises exactly when a part is malformed or has the step 0.
pub in_field_lem :
    (n : ℕ) (field : Codes) (lo hi : ℕ)
    → in_field n field lo hi ≡ in_parts n (split_by (λ c. nat_eq c b',') field) lo hi
unfolding parse_field
in_field_lem n field lo hi = found-parse_parts n (split_by (λ c. nat_eq c b',') field) lo hi
