-- ===== src/Connector/Recovery.antt =====
-- What a call of reference/bass/connectors.py does for a service that fails for a while: the retries
-- and the half-open breaker of `Connector.run` bring it back.
use bass_platform.Base.{
  ℕ, zero, suc, ◌+◌, ◌-◌, ◌≤◌, ◌≡◌, refl, ◌∙◌, ◌⊎◌, inl, inr, true, none, some, arith, leb,
  Bool-cases,
}
use bass_platform.Errors.{Kind, Raised, Result, ok}
use bass_platform.Value.{Value, Fields}
use bass_platform.Models.{Outcome}
use bass_platform.Host.{Host}
use bass_platform.Connector.{
  CircuitBreaker, Connector, ReliabilityConfig, record_success, allow, handling, count_failure,
  handle, attempts, run, pause,
}

-- A failure that passes: the call timed out, or the operation raised `Transient`.
pub data Passes : Outcome → Type 0 where
  timed_out : Passes Outcome.timed_out
  transient :
      (m : _) → Passes (Outcome.raised_error (record { kind = Kind.transient; message = m }))

-- The breaker is closed, or its cooldown is over at the time now.
abbrev pub LetsThrough : CircuitBreaker → ℕ → Type 0
LetsThrough b now =
    (b.opened_at ≡ none) ⊎ ((t : ℕ) × (b.opened_at ≡ some t) × (t + b.reset_s ≤ now))

-- A call returned a value, and the breaker is closed with no failure counted.
abbrev pub Recovered : {W : Type 0} → Result Value × Connector × W → Type 0
Recovered out =
    (v : Value) × (out.0 ≡ ok v) × (out.1.breaker.opened_at ≡ none) × (out.1.breaker.failures ≡ 0)

-- A service with a number of failures left, which only a call of it changes.
module _ {W : Type 0} (h : Host W) (fn : Fields → W → Outcome × W) (args : Fields) (left : W → ℕ)
    (answers : (w : W) → left w ≡ 0 → (v : Value) × ((fn args w).0 ≡ Outcome.returned v))
    (fails : (w : W) → 1 ≤ left w → Passes (fn args w).0 × (left (fn args w).1 + 1 ≡ left w))
    (clock_keeps : (w : W) → left (h.monotonic w).1 ≡ left w)
    (sleep_keeps : (t : ℕ) (w : W) → left (h.sleep t w) ≡ left w) where
  count_keeps : (c : Connector) (w : W) → left (count_failure h c w).1 ≡ left w
  count_keeps c w = elim (Bool-cases (leb c.breaker.threshold (c.breaker.failures + 1))) [
    | inl crosses ↦ rw crosses (clock_keeps w)
    | inr below ↦ rw below refl
  ]

  pause_keeps :
      (cfg : ReliabilityConfig) (n attempt : ℕ) (w : W) → left (pause h cfg n attempt w) ≡ left w
  pause_keeps cfg zero attempt w = refl
  pause_keeps cfg (suc n) attempt w = sleep_keeps _ w

  -- A failure that passes is counted, and the loop goes on.
  handle-Passes :
      (n attempt : ℕ) (again : Raised → Connector → W → Result Value × Connector × W)
      (c : Connector) (w : W) (o : Outcome)
      → Passes o
      → (e : Raised) × (handle h fn args n attempt again c w (handling h c o)
          ≡ again e (count_failure h c w).0 (pause h c.config n attempt (count_failure h c w).1))
  handle-Passes n attempt again c w _ Passes.timed_out = (_, refl)
  handle-Passes n attempt again c w _ (Passes.transient m) = (_, refl)

  answered :
      (n attempt : ℕ) (last : Raised) (c : Connector) (w : W)
      → left w ≡ 0
      → Recovered (attempts h fn args (suc n) attempt last c w)
  unfolding attempts record_success
  answered n attempt last c w none_left =
      let (v, e) = answers w none_left in rw e (v, refl, refl, refl)

  attempts_recover :
      (n attempt : ℕ) (last : Raised) (c : Connector) (w : W)
      → left w ≤ n
      → Recovered (attempts h fn args (suc n) attempt last c w)
  unfolding attempts
  attempts_recover zero attempt last c w few = answered zero attempt last c w (omega arith)
  attempts_recover (suc n) attempt last c w few = elim (Bool-cases (leb 1 (left w))) [
    | inr none_left ↦ answered (suc n) attempt last c w (ground (arith, none_left))
    | inl some_left ↦
        let (passing, fewer) = fails w (ground (arith, some_left)) in
        let w' = (fn args w).1 in
        let counted = count_failure h c w' in
        let (e, next) =
          handle-Passes (suc n) attempt (attempts h fn args (suc n) (suc attempt)) c w'
            (fn args w).0 passing in
        let kept = pause_keeps c.config (suc n) attempt counted.1 ∙ count_keeps c w' in
        rw next (
          attempts_recover n (suc attempt) e counted.0 (pause h c.config (suc n) attempt counted.1)
            (rw kept (omega arith)))
  ]

  allow_lem :
      (b : CircuitBreaker) (w : W)
      → LetsThrough b (h.monotonic w).0
      → ((allow h b w).0 ≡ true) × (left (allow h b w).1 ≡ left w)
  unfolding allow
  allow_lem b w (inl closed) = rw closed (refl, refl)
  allow_lem b w (inr (t, opened, cooled)) =
      let allowed : leb b.reset_s ((h.monotonic w).0 - t) ≡ true = ground arith in
      rw opened (allowed, clock_keeps w)

  -- For a service that answers once it has no failure left, whose every call before that times out or
  -- raises `Transient` and uses up one failure, and which neither the clock nor a pause changes: a
  -- call with at most `max_retries` failures left, while the breaker is closed or its cooldown is
  -- over, returns a value and leaves the breaker closed, with no failure counted.
  pub run_recovers :
      (c : Connector) (w : W)
      → LetsThrough c.breaker (h.monotonic w).0
      → left w ≤ c.config.max_retries
      → Recovered (run h fn args c w)
  unfolding run
  run_recovers c w h_allowed few =
      let (allowed, same) = allow_lem c.breaker w h_allowed in
      rw (allowed, run)
        (attempts_recover c.config.max_retries 0
          (record { kind = Kind.assertion_error; message = "" }) c (allow h c.breaker w).1
          (rw same few))
