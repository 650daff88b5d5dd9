-- ===== src/Auth/Claims.antt =====
-- What the claims of an accepted token of reference/bass/auth.py say: its expiry, its texts, its roles.
use bass_platform.Base.{
  ℕ, ◌≤◌, String, ◌≡◌, ◌≢◌, refl, false, Option, none, some, List, [], ◌∷◌, arith, inl, inr,
}
use bass_platform.Errors.{ok, Result-cases}
use bass_platform.Value.{pos, negsuc, Value, Items}
use bass_platform.Host.{Float}
use bass_platform.Auth.{before, text_claim, role_texts, role_claim}

-- The texts of a JSON list are the roles.
abbrev pub Lists : Items → List String → Type 0
Lists Items.nil roles = roles ≡ []
Lists (Items.item v xs) roles =
    (r : String) × (rest : List String) × (v ≡ Value.str r) × (roles ≡ r ∷ rest) × Lists xs rest

-- A claim of roles, which may be missing, lists the roles.
abbrev pub NamesRoles : Option Value → List String → Type 0
NamesRoles none roles = roles ≡ []
NamesRoles (some v) roles = (xs : Items) × (v ≡ Value.arr xs) × Lists xs roles

role_texts-Lists : (xs : Items) (roles : List String) → role_texts xs ≡ ok roles → Lists xs roles
role_texts-Lists Items.nil roles h = cc
role_texts-Lists (Items.item (Value.str r) xs) roles h = elim (Result-cases (role_texts xs)) [
  | inl (rest, read) ↦ (r, rest, refl, (let h' = rw read at h in cc), role_texts-Lists xs rest read)
  | inr (e, bad) ↦ (let h' = rw bad at h in cc)
]
role_texts-Lists (Items.item Value.null xs) roles h = cc
role_texts-Lists (Items.item (Value.bool b) xs) roles h = cc
role_texts-Lists (Items.item (Value.num z) xs) roles h = cc
role_texts-Lists (Items.item (Value.arr ys) xs) roles h = cc
role_texts-Lists (Items.item (Value.obj d) xs) roles h = cc

pub role_claim-NamesRoles :
    (o : Option Value) (roles : List String) → role_claim o ≡ ok roles → NamesRoles o roles
role_claim-NamesRoles none roles h = cc
role_claim-NamesRoles (some (Value.arr xs)) roles h = (xs, refl, role_texts-Lists xs roles h)
role_claim-NamesRoles (some Value.null) roles h = cc
role_claim-NamesRoles (some (Value.bool b)) roles h = cc
role_claim-NamesRoles (some (Value.num z)) roles h = cc
role_claim-NamesRoles (some (Value.str s)) roles h = cc
role_claim-NamesRoles (some (Value.obj d)) roles h = cc

-- The time of expiry is not before now. Infinity and NaN are not either.
abbrev pub IsCurrent : Float → ℕ → Type 0
IsCurrent (Float.finite (pos n)) now = now ≤ n
IsCurrent (Float.finite (negsuc n)) now = ⊥
IsCurrent Float.infinity now = Unit
IsCurrent Float.minus_infinity now = ⊥
IsCurrent Float.nan now = Unit

pub before-IsCurrent : (exp : Float) (now : ℕ) → before exp now ≡ false → IsCurrent exp now
before-IsCurrent (Float.finite (pos n)) now h = ground arith
before-IsCurrent (Float.finite (negsuc n)) now h = cc
before-IsCurrent Float.infinity now h = tt
before-IsCurrent Float.minus_infinity now h = cc
before-IsCurrent Float.nan now h = tt

pub text_claim_lem :
    (o : Option Value) (s : String) → text_claim o ≡ ok s → s ≢ "" → o ≡ some (Value.str s)
text_claim_lem none s h ne = absurd (ne (cc h))
text_claim_lem (some (Value.str t)) s h ne = cc
text_claim_lem (some Value.null) s h ne = absurd (ne (cc h))
text_claim_lem (some (Value.bool b)) s h ne = cc
text_claim_lem (some (Value.num z)) s h ne = cc
text_claim_lem (some (Value.arr xs)) s h ne = cc
text_claim_lem (some (Value.obj d)) s h ne = cc
