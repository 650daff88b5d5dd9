-- ===== src/Base/Sorting.antt =====
-- A stable sort by a test on two elements, which stands for Python's `sorted` and for ORDER BY.
use mathlib.Core.Path.{◌≡◌, refl}
use mathlib.Core.Bool.{Bool, true, false}
use mathlib.Core.Logic.{inl, inr}
use mathlib.Core.List.{List, [], ◌∷◌, Memᴰ, Perm}
use mathlib.Core.List.Memᴰ
use mathlib.Core.List.Perm
use native.Mathlib.Omega.{arith}
use bass_platform.Base.Tests.{if◌then◌else◌, Bool-cases}
use bass_platform.Base.Lists.{keep, All}

module _ {A : Type 0} where
  -- `first x y` holds where x goes before y, and where they keep their order.
  abbrev pub insert_by : (A → A → Bool) → A → List A → List A
  insert_by first x [] = x ∷ []
  insert_by first x (y ∷ rest) = if first x y then x ∷ y ∷ rest else y ∷ insert_by first x rest

  abbrev pub sort_by : (A → A → Bool) → List A → List A
  sort_by first [] = []
  sort_by first (x ∷ rest) = insert_by first x (sort_by first rest)

  abbrev pub IsSortedBy : (A → A → Type 0) → List A → Type 0
  IsSortedBy R [] = Unit
  IsSortedBy R (x ∷ rest) = All (R x) rest × IsSortedBy R rest

module _ {A : Type 0} (first : A → A → Bool) (P : A → Type 0) where
  All-insert_by : (x : A) (xs : List A) → P x → All P xs → All P (insert_by first x xs)
  All-insert_by x [] h all = (h, tt)
  All-insert_by x (z ∷ xs) h (here, all) = elim (Bool-cases (first x z)) [
    | inl before ↦ rw before (h, (here, all))
    | inr after ↦ rw after (here, All-insert_by x xs h all)
  ]

  pub All-sort_by : (xs : List A) → All P xs → All P (sort_by first xs)
  All-sort_by [] all = tt
  All-sort_by (x ∷ xs) (here, all) = All-insert_by x (sort_by first xs) here (All-sort_by xs all)

module _ {A : Type 0} (first : A → A → Bool) (R : A → A → Type 0)
    (goes_first : (x y : A) → first x y ≡ true → R x y)
    (goes_after : (x y : A) → first x y ≡ false → R y x)
    (trans : (x y z : A) → R x y → R y z → R x z) where
  All-trans : (x y : A) (xs : List A) → R x y → All (R y) xs → All (R x) xs
  All-trans x y [] h all = tt
  All-trans x y (z ∷ xs) h (here, all) = (trans x y z h here, All-trans x y xs h all)

  insert_by-IsSortedBy :
      (x : A) (xs : List A) → IsSortedBy R xs → IsSortedBy R (insert_by first x xs)
  insert_by-IsSortedBy x [] h = (tt, tt)
  insert_by-IsSortedBy x (y ∷ xs) (above, h) = elim (Bool-cases (first x y)) [
    | inl before ↦
        let rel = goes_first x y before in rw before ((rel, All-trans x y xs rel above), (above, h))
    | inr after ↦
        rw after
          (All-insert_by first (R y) x xs (goes_after x y after) above, insert_by-IsSortedBy x xs h)
  ]

  pub sort_by-IsSortedBy : (xs : List A) → IsSortedBy R (sort_by first xs)
  sort_by-IsSortedBy [] = tt
  sort_by-IsSortedBy (x ∷ xs) = insert_by-IsSortedBy x (sort_by first xs) (sort_by-IsSortedBy xs)

module _ {A : Type 0} (first : A → A → Bool) (same : A → Bool)
    (tied : (x y : A) → same x ≡ true → same y ≡ true → first x y ≡ true) where
  keep-insert_by : (x : A) (xs : List A) → keep same (insert_by first x xs) ≡ keep same (x ∷ xs)
  keep-insert_by x [] = refl
  keep-insert_by x (y ∷ xs) = ground (arith, keep-insert_by x xs, tied x y)

  -- The elements of a class whose members are tied keep their order.
  pub keep-sort_by : (xs : List A) → keep same (sort_by first xs) ≡ keep same xs
  keep-sort_by [] = refl
  keep-sort_by (x ∷ xs) = rw (keep-insert_by x (sort_by first xs)) (ground (arith, keep-sort_by xs))

module _ {A : Type 0} (R : A → A → Type 0) where
  -- Each element is related to all that come after it.
  abbrev pub AllPairs : List A → Type 0
  AllPairs [] = Unit
  AllPairs (x ∷ xs) = All (R x) xs × AllPairs xs

module _ {A : Type 0} (first second : A → A → Bool) where
  insert_by-same :
      (x : A) (xs : List A)
      → All (λ y. first x y ≡ second x y) xs
      → insert_by first x xs ≡ insert_by second x xs
  insert_by-same x [] h = refl
  insert_by-same x (y ∷ xs) (here, h) = rw (here, insert_by-same x xs h) refl

  -- Two tests that agree on the list's pairs sort it alike.
  pub sort_by-same :
      (xs : List A)
      → AllPairs (λ x y. first x y ≡ second x y) xs
      → sort_by first xs ≡ sort_by second xs
  sort_by-same [] h = refl
  sort_by-same (x ∷ xs) (here, h) = rw (sort_by-same xs h) (
      insert_by-same x (sort_by second xs)
        (All-sort_by second (λ y. first x y ≡ second x y) xs here))

-- A sorted list has the elements of the list.
module _ {A : Type 0} (first : A → A → Bool) where
  mem_of_insert_by : (z x : A) (xs : List A) → Memᴰ z (insert_by first x xs) → Memᴰ z (x ∷ xs)
  mem_of_insert_by z x [] h = h
  mem_of_insert_by z x (y ∷ xs) h = elim (Bool-cases (first x y)) [
    | inl before ↦ rw before at h
    | inr after ↦ elim (Memᴰ.cases_cons (rw after at h)) [
      | inl here ↦ Memᴰ.tail (Memᴰ.head here)
      | inr there ↦ elim (Memᴰ.cases_cons (mem_of_insert_by z x xs there)) [
        | inl same ↦ Memᴰ.head same
        | inr old ↦ Memᴰ.tail (Memᴰ.tail old)
      ]
    ]
  ]

  pub mem_of_sort_by : (z : A) (xs : List A) → Memᴰ z (sort_by first xs) → Memᴰ z xs
  mem_of_sort_by z [] h = h
  mem_of_sort_by z (x ∷ xs) h = elim (Memᴰ.cases_cons (mem_of_insert_by z x (sort_by first xs) h)) [
    | inl same ↦ Memᴰ.head same
    | inr old ↦ Memᴰ.tail (mem_of_sort_by z xs old)
  ]

  insert_by-perm : (x : A) (xs : List A) → Perm (insert_by first x xs) (x ∷ xs)
  insert_by-perm x [] = Perm.rfl
  insert_by-perm x (y ∷ xs) = elim (Bool-cases (first x y)) [
    | inl before ↦ rw before Perm.rfl
    | inr after ↦ rw after (Perm.trans (Perm.cons y (insert_by-perm x xs)) (Perm.swap x y xs))
  ]

  -- A sorted list is a permutation of the list.
  pub sort_by-perm : (xs : List A) → Perm (sort_by first xs) xs
  sort_by-perm [] = Perm.rfl
  sort_by-perm (x ∷ xs) =
      Perm.trans (insert_by-perm x (sort_by first xs)) (Perm.cons x (sort_by-perm xs))

  All-insert_by-rest :
      (P : A → Type 0) (x : A) (xs : List A) → All P (insert_by first x xs) → P x × All P xs
  All-insert_by-rest P x [] all = all
  All-insert_by-rest P x (y ∷ xs) all = elim (Bool-cases (first x y)) [
    | inl before ↦ rw before at all
    | inr after ↦
        let (here, rest) = rw after at all in
        let (of_x, of_xs) = All-insert_by-rest P x xs rest in (of_x, (here, of_xs))
  ]

  pub All-of_sorted : (P : A → Type 0) (xs : List A) → All P (sort_by first xs) → All P xs
  All-of_sorted P [] all = tt
  All-of_sorted P (x ∷ xs) all =
      let (of_x, of_xs) = All-insert_by-rest P x (sort_by first xs) all in
      (of_x, All-of_sorted P xs of_xs)
