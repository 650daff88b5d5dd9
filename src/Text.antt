-- ===== src/Text.antt =====
-- What reference/bass/schedule.py uses of Python's `str` and `int`, on the code points of a text.
-- Texts are ASCII.
use Prim.Native.Char.{code}
use Prim.Native.String.{String}
use bass_platform.Base.{
  ℕ, zero, suc, ◌+◌, ◌-◌, ◌*◌, Bool, true, false, not, ◌&&◌, ◌||◌, Option, none, some, List, [],
  ◌∷◌, nat_eq, leb, keep, if◌then◌else◌,
}
use bass_platform.Errors.{Kind, Result, ok, err, raised}
use bass_platform.Value.{ℤ, pos, negsuc}

abbrev pub Codes : Type 0
Codes = List ℕ

abbrev pub codes : String → Codes
codes String.[] = []
codes (String.◌∷◌ c s) = code c ∷ codes s

abbrev pub is_space : ℕ → Bool
is_space c = nat_eq c 32 || (leb 9 c && leb c 13) || (leb 28 c && leb c 31)

abbrev pub is_digit : ℕ → Bool
is_digit c = leb b'0' c && leb c b'9'

abbrev pub is_empty : Codes → Bool
is_empty [] = true
is_empty (_ ∷ _) = false

abbrev pub in_front : ℕ → List Codes → List Codes
in_front c [] = (c ∷ []) ∷ []
in_front c (w ∷ ws) = (c ∷ w) ∷ ws

-- `s.split(sep)`, for separators that are one code point
abbrev pub split_by : (ℕ → Bool) → Codes → List Codes
split_by sep [] = [] ∷ []
split_by sep (c ∷ s) = let rest = split_by sep s in if sep c then [] ∷ rest else in_front c rest

-- `s.split()`
abbrev pub words : Codes → List Codes
words s = keep (λ (w : Codes). not (is_empty w)) (split_by is_space s)

abbrev pub onto_first : ℕ → Option (Codes × Codes) → Option (Codes × Codes)
onto_first c none = none
onto_first c (some (a, b)) = some (c ∷ a, b)

-- `s.split(sep, 1)`, if `sep in s`
abbrev pub cut : ℕ → Codes → Option (Codes × Codes)
cut sep [] = none
cut sep (c ∷ s) = let rest = onto_first c (cut sep s) in if nat_eq c sep then some ([], s) else rest

-- The digits of a number, one underscore allowed between two; `last` says that a digit came before.
abbrev pub digits : Codes → Bool → ℕ → Option ℕ
digits [] last acc = if last then some acc else none
digits (c ∷ s) last acc =
    let rest = digits s (is_digit c) (if is_digit c then 10 * acc + (c - b'0') else acc) in
    if is_digit c || (nat_eq c b'_' && last) then rest else none

abbrev pub or_value_error : Option ℕ → Result ℕ
or_value_error none = raised Kind.value_error "invalid literal for int() with base 10"
or_value_error (some n) = ok n

-- `int(s)` of a text with no minus sign and no space
abbrev pub unsigned : Codes → Result ℕ
unsigned [] = or_value_error none
unsigned (c ∷ s) =
    or_value_error (if nat_eq c b'+' then digits s false 0 else digits (c ∷ s) false 0)

abbrev pub negative : Result ℕ → Result ℤ
negative (ok zero) = ok (pos 0)
negative (ok (suc n)) = ok (negsuc n)
negative (err e) = err e

abbrev pub positive : Result ℕ → Result ℤ
positive (ok n) = ok (pos n)
positive (err e) = err e

-- `int(s)` of a text with no space
abbrev pub int : Codes → Result ℤ
int [] = positive (unsigned [])
int (c ∷ s) =
    if nat_eq c b'-'
    then negative (or_value_error (digits s false 0))
    else positive (unsigned (c ∷ s))

-- `s.startswith(prefix)`, and what follows
abbrev pub after_prefix : Codes → Codes → Option Codes
after_prefix [] s = some s
after_prefix (_ ∷ _) [] = none
after_prefix (k ∷ prefix) (c ∷ s) =
    let rest = after_prefix prefix s in if nat_eq k c then rest else none

abbrev pub starts_with : String → String → Bool
starts_with prefix s = elim (after_prefix (codes prefix) (codes s)) [ none ↦ false | some _ ↦ true ]
