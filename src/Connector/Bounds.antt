-- ===== src/Connector/Bounds.antt =====
-- How often `Connector.run` of reference/bass/connectors.py calls the operation, whatever the
-- operation does, and when it does not call it at all.
use bass_platform.Base.{
  ℕ, zero, suc, ◌+◌, ◌≤◌, ◌≡◌, refl, if◌then◌else◌, arith, inl, inr, Bool-cases,
}
use bass_platform.Errors.{Kind, Raised, Result}
use bass_platform.Value.{Value, Fields}
use bass_platform.Models.{Outcome}
use bass_platform.Host.{Host}
use bass_platform.Connector.{
  CircuitBreaker, Connector, ReliabilityConfig, Handling, succeed, retry, fail_at_once,
  fail_unknown, handling, count_failure, pause, attempts, handle, allow, run,
}

-- `calls` counts the operation's calls in the outside state.
module _ {W : Type 0} (h : Host W) (fn : Fields → W → Outcome × W) (args : Fields) (calls : W → ℕ)
    (one : (w : W) → calls (fn args w).1 ≤ calls w + 1)
    (slept : (t : ℕ) (w : W) → calls (h.sleep t w) ≡ calls w)
    (read : (w : W) → calls (h.monotonic w).1 ≡ calls w) where
  count_failure_calls : (c : Connector) (w : W) → calls (count_failure h c w).1 ≡ calls w
  count_failure_calls c w = ground (arith, read w)

  pause_calls :
      (cfg : ReliabilityConfig) (left attempt : ℕ) (w : W)
      → calls (pause h cfg left attempt w) ≡ calls w
  pause_calls cfg zero attempt w = refl
  pause_calls cfg (suc left) attempt w = slept _ w

  handle_calls :
      (left attempt : ℕ) (again : Raised → Connector → W → Result Value × Connector × W)
      (c : Connector) (w : W) (x : Handling)
      → ((e : Raised) (c' : Connector) (w' : W) → calls (again e c' w').2 ≤ calls w' + left)
      → calls (handle h fn args left attempt again c w x).2 ≤ calls w + left
  handle_calls left attempt again c w (succeed v) ih = omega arith
  handle_calls left attempt again c w (retry e) ih = omega (
    arith,
    count_failure_calls c w,
    pause_calls c.config left attempt (count_failure h c w).1,
    ih e (count_failure h c w).0 (pause h c.config left attempt (count_failure h c w).1),
  )
  handle_calls left attempt again c w (fail_at_once e) ih = omega arith
  handle_calls left attempt again c w (fail_unknown e) ih = omega (arith, count_failure_calls c w)

  attempts_calls :
      (left attempt : ℕ) (last : Raised) (c : Connector) (w : W)
      → calls (attempts h fn args left attempt last c w).2 ≤ calls w + left
  unfolding attempts
  attempts_calls zero attempt last c w = omega arith
  attempts_calls (suc left) attempt last c w = omega (
    arith,
    one w,
    handle_calls left attempt (attempts h fn args left (suc attempt)) c (fn args w).1
        (handling h c (fn args w).0) (attempts_calls left (suc attempt)),
  )

  allow_calls : (b : CircuitBreaker) (w : W) → calls (allow h b w).1 ≡ calls w
  unfolding allow
  allow_calls b w = ground (arith, read w)

  -- If each call of the operation counts at most one, and sleeping and reading the clock count none,
  -- one `run` calls the operation at most `max_retries + 1` times if the breaker allows the call, and
  -- not at all if it does not.
  pub run_calls :
      (c : Connector) (w : W)
      → calls (run h fn args c w).2
        ≤ calls w + (if (allow h c.breaker w).0 then c.config.max_retries + 1 else 0)
  unfolding run
  run_calls c w = elim (Bool-cases (allow h c.breaker w).0) [
    | inl allowed ↦
        rw (allowed, run)
          (omega (
            arith,
            allow_calls c.breaker w,
            attempts_calls (suc c.config.max_retries) 0
                (record { kind = Kind.assertion_error; message = "" }) c (allow h c.breaker w).1,
          ))
    | inr refused ↦ rw (refused, run) (omega (arith, allow_calls c.breaker w))
  ]
