-- ===== src/RateLimit.antt =====
-- reference/bass/ratelimit.py: the fixed-window rate limiters. Readings of the clock and the window
-- are natural numbers of one unit, and the window is positive. Redis is outside the repository: its
-- counter commands are parameters.
pub mod Window
use bass_platform.Base.{
  ℕ, ◌+◌, ◌/◌, String, Bool, ◌&&◌, List, [], ◌∷◌, ◌==◌, nat_eq, ltb, leb, length, keep, concat,
  if◌then◌else◌,
}

pub record RateLimiter : Type 0 where
  pub limit : ℕ
  pub window_s : ℕ

-- An entry of `_counts`: the calls of a key in a bucket.
pub record Bucket : Type 0 where
  pub key : String
  pub bucket : ℕ
  pub calls : ℕ

abbrev pub is_bucket : String → ℕ → Bucket → Bool
is_bucket k b e = e.key == k && nat_eq e.bucket b

-- `self._counts[(key, bucket)] += 1`, on a defaultdict
abbrev pub bump : String → ℕ → List Bucket → List Bucket
bump k b [] = record { key = k; bucket = b; calls = 1 } ∷ []
bump k b (e ∷ rest) =
    if is_bucket k b e then record e { calls = e.calls + 1 } ∷ rest else e ∷ bump k b rest

-- `self._counts[(key, bucket)]`
abbrev pub calls_in : String → ℕ → List Bucket → ℕ
calls_in k b [] = 0
calls_in k b (e ∷ rest) = if is_bucket k b e then e.calls else calls_in k b rest

-- Old buckets are dropped once there are more than 4096 entries.
abbrev pub drop_old : ℕ → List Bucket → List Bucket
drop_old b counts =
    if ltb 4096 (length counts) then keep (λ (e : Bucket). leb b e.bucket) counts else counts

-- `InMemoryRateLimiter.allow`, at a reading of the clock
unfoldable pub allow_call : RateLimiter → String → ℕ → List Bucket → Bool × List Bucket
allow_call l key now counts =
    let b = now / l.window_s in
    let bumped = bump key b counts in (leb (calls_in key b bumped) l.limit, drop_old b bumped)

-- `RedisRateLimiter.allow`, with `INCR` and `EXPIRE` and a number's printing as parameters
module _ {W : Type 0} (incr : String → W → ℕ × W) (expire : String → ℕ → W → W)
    (str : ℕ → String) where
  unfoldable pub allow_shared : RateLimiter → String → ℕ → W → Bool × W
  allow_shared l key now w =
      let redis_key = concat ("rl:" ∷ key ∷ ":" ∷ str (now / l.window_s) ∷ []) in
      let (count, w') = incr redis_key w in
      (leb count l.limit, if nat_eq count 1 then expire redis_key l.window_s w' else w')
