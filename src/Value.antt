-- ===== src/Value.antt =====
-- The values that the platform passes around and stores: what `json.dumps` writes and `json.loads`
-- reads back. A number is in millionths, so the costs and amounts of the program are whole, and a
-- JSON round trip changes nothing. A dict is `Fields`, in insertion order.
use bass_platform.Base.{
  not, nat_eq, ℕ, ◌*◌, String, ◌≡◌, refl, Bool, true, false, Option, none, some, List, [], ◌∷◌,
  arith, ltb, ◌==◌, eq_iff, if◌then◌else◌,
}

-- `negsuc n` is -(n + 1).
pub data ℤ : Type 0 where
  pos : ℕ → ℤ
  negsuc : ℕ → ℤ

-- `n < z`
abbrev pub above : ℕ → ℤ → Bool
above n (pos m) = ltb n m
above n (negsuc m) = false

mutual
  pub data Value : Type 0 where
    null : Value
    bool : Bool → Value
    num : ℤ → Value
    str : String → Value
    arr : Items → Value
    obj : Fields → Value

  pub data Items : Type 0 where
    nil : Items
    item : Value → Items → Items

  pub data Fields : Type 0 where
    end : Fields
    field : String → Value → Fields → Fields

-- `d.get(k)`; the result for an absent key is `none`.
abbrev pub get : String → Fields → Option Value
get k end = none
get k (field j v d) = if j == k then some v else get k d

-- `d[k] = v`
abbrev pub put : String → Value → Fields → Fields
put k v end = field k v end
put k v (field j w d) = if j == k then field j v d else field j w (put k v d)

pub get-put :
    (k j : String) (v : Value) (d : Fields)
    → get j (put k v d) ≡ (if k == j then some v else get j d)
get-put k j v end = refl
get-put k j v (field i w d) = ground (arith, eq_iff k j, eq_iff i k, eq_iff i j, get-put k j v d)

abbrev pub is_empty : Fields → Bool
is_empty end = true
is_empty (field _ _ _) = false

-- A dict display, `{"a": v, …}`.
abbrev pub dict : List (String × Value) → Fields
dict [] = end
dict ((k, v) ∷ rest) = field k v (dict rest)

abbrev pub texts : List String → Items
texts [] = nil
texts (s ∷ rest) = item (str s) (texts rest)

abbrev pub one_unit : ℕ
one_unit = 1_000_000

-- An `int` as a JSON number.
abbrev pub int_value : ℕ → Value
int_value n = num (pos (n * one_unit))

-- An absent value reads as Python's `None`.
abbrev pub or_null : Option Value → Value
or_null none = null
or_null (some v) = v

-- `x is not None`
abbrev pub not_null : Value → Option Value
not_null null = none
not_null v = some v

-- Python's truth of a value.
abbrev pub truthy : Value → Bool
truthy null = false
truthy (bool b) = b
truthy (num (pos n)) = not (nat_eq n 0)
truthy (num (negsuc n)) = true
truthy (str s) = not (s == "")
truthy (arr nil) = false
truthy (arr (item _ _)) = true
truthy (obj d) = not (is_empty d)
