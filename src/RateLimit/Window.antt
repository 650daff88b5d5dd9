-- ===== src/RateLimit/Window.antt =====
-- How many calls the in-memory limiter of reference/bass/ratelimit.py lets through.
use bass_platform.Base.{
  ℕ, suc, ◌+◌, ◌-◌, ◌/◌, ◌≤◌, String, ◌≡◌, refl, ◌&&◌, List, [], ◌∷◌, ◌==◌, eq_iff, nat_eq, ltb,
  leb, length, keep, if◌then◌else◌, arith, All, Bool-cases, inl, inr,
}
use bass_platform.RateLimit.{RateLimiter, Bucket, bump, calls_in, drop_old, allow_call}

-- A call: its key, and the reading of the clock.
abbrev pub Request : Type 0
Request = String × ℕ

-- The calls of a key in a bucket that a sequence of calls lets through.
abbrev pub admitted : RateLimiter → String → ℕ → List Request → List Bucket → ℕ
admitted l k b [] counts = 0
admitted l k b ((j, now) ∷ rest) counts =
    let out = allow_call l j now counts in
    let later = admitted l k b rest out.1 in
    if (j == k && nat_eq (now / l.window_s) b) && out.0 then suc later else later

calls_in-bump :
    (j k : String) (a b : ℕ) (counts : List Bucket)
    → calls_in k b (bump j a counts)
      ≡ (if j == k && nat_eq a b then calls_in k b counts + 1 else calls_in k b counts)
calls_in-bump j k a b [] = ground arith
calls_in-bump j k a b (e ∷ rest) =
    ground (arith, eq_iff e.key j, eq_iff e.key k, eq_iff j k, calls_in-bump j k a b rest)

calls_in-keep :
    (k : String) (a b : ℕ) (counts : List Bucket)
    → a ≤ b
    → calls_in k b (keep (λ (e : Bucket). leb a e.bucket) counts) ≡ calls_in k b counts
calls_in-keep k a b [] h = refl
calls_in-keep k a b (e ∷ rest) h = ground (arith, calls_in-keep k a b rest h)

calls_in-drop_old :
    (k : String) (a b : ℕ) (counts : List Bucket)
    → a ≤ b
    → calls_in k b (drop_old a counts) ≡ calls_in k b counts
calls_in-drop_old k a b counts h = elim (Bool-cases (ltb 4096 (length counts))) [
  | inl many ↦ rw many (calls_in-keep k a b counts h)
  | inr few ↦ rw few refl
]

-- Until the clock leaves a window, the limiter lets through at most as many calls of a key in that
-- window as are left of the limit, whatever calls of other keys come in between and whatever entries
-- are dropped.
pub admitted_bound :
    (l : RateLimiter) (k : String) (b : ℕ) (calls : List Request) (counts : List Bucket)
    → All (λ (r : Request). r.1 / l.window_s ≤ b) calls
    → admitted l k b calls counts ≤ l.limit - calls_in k b counts
unfolding allow_call
admitted_bound l k b [] counts h = omega arith
admitted_bound l k b ((j, now) ∷ rest) counts (early, h) =
    let a = now / l.window_s in
    let ih = admitted_bound l k b rest (drop_old a (bump j a counts)) h in
    let kept = calls_in-drop_old k a b (bump j a counts) early in
    let bumped = calls_in-bump j k a b counts in grind (arith, eq_iff j k, ih, kept, bumped)
