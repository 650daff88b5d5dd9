-- ===== src/Base/Lists.antt =====
-- Lists over the native numbers, and association lists with text keys.
use Prim.Native.Nat.{ℕ, zero, suc}
use Prim.Native.String.{String}
use mathlib.Core.Path.{◌≡◌, refl, fun_ext}
use mathlib.Core.Bool.{Bool, true, false, ◌||◌}
use mathlib.Core.Option
use mathlib.Core.Option.{Option, none, some}
use mathlib.Core.List.{List, [], ◌∷◌, ◌++◌}
use native.Mathlib.Omega.{arith}
use bass_platform.Base.Tests.{if◌then◌else◌, ◌==◌, eq_iff}

module _ {ℓ} {A : Type ℓ} where
  abbrev pub length : List A → ℕ
  length [] = 0
  length (x ∷ xs) = suc (length xs)

  abbrev pub take : ℕ → List A → List A
  take zero xs = []
  take (suc n) [] = []
  take (suc n) (x ∷ xs) = x ∷ take n xs

  -- `[x for x in xs if p(x)]`
  abbrev pub keep : (A → Bool) → List A → List A
  keep p [] = []
  keep p (x ∷ xs) = let rest = keep p xs in if p x then x ∷ rest else rest

  -- The first element that passes a test.
  abbrev pub find_by : (A → Bool) → List A → Option A
  find_by p [] = none
  find_by p (x ∷ xs) = let rest = find_by p xs in if p x then some x else rest

  -- Every element that passes a test is replaced.
  abbrev pub update_by : (A → Bool) → (A → A) → List A → List A
  update_by p f [] = []
  update_by p f (x ∷ xs) = (if p x then f x else x) ∷ update_by p f xs

  abbrev pub count_by : (A → Bool) → List A → ℕ
  count_by p [] = 0
  count_by p (x ∷ xs) = let rest = count_by p xs in if p x then suc rest else rest

  abbrev pub All {κ} : (A → Type κ) → List A → Type κ
  All P [] = Unit
  All P (x ∷ xs) = P x × All P xs

-- `s in xs`
abbrev pub contains : String → List String → Bool
contains s [] = false
contains s (x ∷ xs) = x == s || contains s xs

-- A Python dict with text keys, in insertion order.
abbrev pub Dict {ℓ} : Type ℓ → Type ℓ
Dict V = List (String × V)

module _ {ℓ} {V : Type ℓ} where
  -- `d.get(k)`
  abbrev pub lookup : String → Dict V → Option V
  lookup k [] = none
  lookup k ((j, v) ∷ d) = if j == k then some v else lookup k d

  -- `d[k] = v`
  abbrev pub insert : String → V → Dict V → Dict V
  insert k v [] = (k, v) ∷ []
  insert k v ((j, w) ∷ d) = if j == k then (j, v) ∷ d else (j, w) ∷ insert k v d

  pub lookup-insert :
      (k j : String) (v : V) (d : Dict V)
      → lookup j (insert k v d) ≡ (if k == j then some v else lookup j d)
  lookup-insert k j v [] = refl
  lookup-insert k j v ((i, w) ∷ d) =
      ground (arith, eq_iff k j, eq_iff i k, eq_iff i j, lookup-insert k j v d)

abbrev pub or_else {ℓ} : {A : Type ℓ} → Option A → Option A → Option A
or_else none b = b
or_else (some a) b = some a

abbrev pub when_row {ℓ} : {A : Type ℓ} → (A → Bool) → (A → A) → A → A
when_row p f x = if p x then f x else x

module _ {ℓ} {A : Type ℓ} where
  pub find_by-append :
      (p : A → Bool) (xs ys : List A) → find_by p (xs ++ ys) ≡ or_else (find_by p xs) (find_by p ys)
  find_by-append p [] ys = refl
  find_by-append p (x ∷ xs) ys = ground (arith, find_by-append p xs ys)

  -- An update that leaves a test alone leaves its first match in place.
  pub find_by-update_by :
      (p q : A → Bool) (f : A → A) (xs : List A)
      → ((x : A) → p (f x) ≡ p x)
      → find_by p (update_by q f xs) ≡ Option.map (when_row q f) (find_by p xs)
  find_by-update_by p q f [] h = refl
  find_by-update_by p q f (x ∷ xs) h = ground (arith, find_by-update_by p q f xs h, h x)

  pub keep-append : (p : A → Bool) (xs ys : List A) → keep p (xs ++ ys) ≡ keep p xs ++ keep p ys
  keep-append p [] ys = refl
  keep-append p (x ∷ xs) ys = ground (arith, keep-append p xs ys)

  -- A row that does not pass the test, added at the end, does not show.
  pub keep-append_other :
      (p : A → Bool) (xs : List A) (x : A) → p x ≡ false → keep p (xs ++ x ∷ []) ≡ keep p xs
  keep-append_other p [] x h = ground arith
  keep-append_other p (y ∷ xs) x h = ground (arith, keep-append_other p xs x h)

  -- An update of rows outside a selection does not show in it.
  pub keep-update_by :
      (p q : A → Bool) (f : A → A) (xs : List A)
      → ((x : A) → q x ≡ true → (p x ≡ false) × (p (f x) ≡ false))
      → keep p (update_by q f xs) ≡ keep p xs
  keep-update_by p q f [] h = refl
  keep-update_by p q f (x ∷ xs) h = ground (arith, keep-update_by p q f xs h, h x)

  -- What a search finds passes the test.
  pub find_by_passes : (p : A → Bool) (xs : List A) (x : A) → find_by p xs ≡ some x → p x ≡ true
  find_by_passes p [] x h = cc
  find_by_passes p (y ∷ xs) x h = ground (arith, find_by_passes p xs x)

  pub update_by-none :
      (p : A → Bool) (f : A → A) (xs : List A) → find_by p xs ≡ none → update_by p f xs ≡ xs
  update_by-none p f [] h = refl
  update_by-none p f (x ∷ xs) h = ground (arith, update_by-none p f xs)

  pub find_by-append_other :
      (p : A → Bool) (xs : List A) (y : A)
      → find_by p xs ≡ none
      → p y ≡ false
      → find_by p (xs ++ y ∷ []) ≡ none
  find_by-append_other p xs y h k = ground (arith, find_by-append p xs (y ∷ []))

  pub find_by-update_by-none :
      (p q : A → Bool) (f : A → A) (xs : List A)
      → ((x : A) → p (f x) ≡ p x)
      → find_by p xs ≡ none
      → find_by p (update_by q f xs) ≡ none
  find_by-update_by-none p q f xs h k = ground (arith, find_by-update_by p q f xs h)

module _ {A : Type 0} where
  -- No element agrees with a later one.
  abbrev pub Distinct : (A → A → Bool) → List A → Type 0
  Distinct same [] = Unit
  Distinct same (x ∷ xs) = (find_by (same x) xs ≡ none) × Distinct same xs

  pub append-Distinct :
      (same : A → A → Bool) (xs : List A) (y : A)
      → ((x : A) → same x y ≡ same y x)
      → Distinct same xs
      → find_by (same y) xs ≡ none
      → Distinct same (xs ++ y ∷ [])
  append-Distinct same [] y sym h k = (refl, tt)
  append-Distinct same (x ∷ xs) y sym h k =
      ground
        (arith, sym x, append-Distinct same xs y sym h.1, find_by-append_other (same x) xs y h.0)

  -- An update that leaves what is compared alone.
  pub update_by-Distinct :
      (same : A → A → Bool) (p : A → Bool) (f : A → A) (xs : List A)
      → ((x y : A) → same (f x) y ≡ same x y)
      → ((x y : A) → same x (f y) ≡ same x y)
      → Distinct same xs
      → Distinct same (update_by p f xs)
  update_by-Distinct same p f [] left right h = tt
  update_by-Distinct same p f (x ∷ xs) left right h = (
    rw (same_as x (p x)) (find_by-update_by-none (same x) p f xs (right x) h.0),
    update_by-Distinct same p f xs left right h.1,
  )
    where
      same_as : (z : A) (b : Bool) → same (if b then f z else z) ≡ same z
      same_as z true = fun_ext (left z)
      same_as z false = refl
