-- ===== src/Connector/Breaker.antt =====
-- The states of the circuit breaker of reference/bass/connectors.py over a call.
use bass_platform.Base.{
  ℕ, zero, suc, ◌+◌, ◌≤◌, ◌<◌, ◌≡◌, refl, ◌⊎◌, inl, inr, none, some, arith, leb, Bool-cases,
}
use bass_platform.Errors.{Kind, Raised, Result, ok, err}
use bass_platform.Value.{Value, Fields}
use bass_platform.Models.{Outcome}
use bass_platform.Host.{Host}
use bass_platform.Connector.{
  CircuitBreaker, Connector, Handling, succeed, retry, fail_at_once, fail_unknown, record_success,
  record_failure, allow, handling, count_failure, handle, attempts, run,
}

-- The breaker is open exactly when it has counted a failure and its failures reach the threshold.
abbrev pub IsSound : CircuitBreaker → Type 0
IsSound b = elim b.opened_at [
  | none ↦ (b.failures ≡ 0) ⊎ (b.failures < b.threshold)
  | some _ ↦ (1 ≤ b.failures) × (b.threshold ≤ b.failures)
]

-- A call that returned left the breaker closed, with no failure counted.
abbrev pub ClosedIfOk : Result Value → CircuitBreaker → Type 0
ClosedIfOk (ok v) b = (b.opened_at ≡ none) × (b.failures ≡ 0)
ClosedIfOk (err e) b = Unit

record_failure-IsSound : (now : ℕ) (b : CircuitBreaker) → IsSound b → IsSound (record_failure now b)
unfolding record_failure
record_failure-IsSound now b h = ground arith

module _ {W : Type 0} (h : Host W) (fn : Fields → W → Outcome × W) (args : Fields) where
  count_failure-IsSound :
      (c : Connector) (w : W) → IsSound c.breaker → IsSound (count_failure h c w).0.breaker
  count_failure-IsSound c w s =
      elim (Bool-cases (leb c.breaker.threshold (c.breaker.failures + 1))) [
        | inl crosses ↦ rw crosses (record_failure-IsSound (h.monotonic w).0 c.breaker s)
        | inr below ↦ rw below (record_failure-IsSound 0 c.breaker s)
      ]

  handle_keeps :
      (left attempt : ℕ) (again : Raised → Connector → W → Result Value × Connector × W)
      (c : Connector) (w : W) (x : Handling)
      → IsSound c.breaker
      → ((e : Raised) (d : Connector) (v : W)
          → IsSound d.breaker
          → IsSound (again e d v).1.breaker × ClosedIfOk (again e d v).0 (again e d v).1.breaker)
      → (let out = handle h fn args left attempt again c w x in
          IsSound out.1.breaker × ClosedIfOk out.0 out.1.breaker)
  unfolding record_success
  handle_keeps left attempt again c w (succeed v) s ih = (inl refl, (refl, refl))
  handle_keeps left attempt again c w (retry e) s ih =
      ih e (count_failure h c w).0 _ (count_failure-IsSound c w s)
  handle_keeps left attempt again c w (fail_at_once e) s ih = (s, tt)
  handle_keeps left attempt again c w (fail_unknown e) s ih = (count_failure-IsSound c w s, tt)

  attempts_keep :
      (left attempt : ℕ) (last : Raised) (c : Connector) (w : W)
      → IsSound c.breaker
      → (let out = attempts h fn args left attempt last c w in
          IsSound out.1.breaker × ClosedIfOk out.0 out.1.breaker)
  unfolding attempts
  attempts_keep zero attempt last c w s = (s, tt)
  attempts_keep (suc left) attempt last c w s =
      handle_keeps left attempt (attempts h fn args left (suc attempt)) c (fn args w).1
        (handling h c (fn args w).0) s (λ e d v. attempts_keep left (suc attempt) e d v)

  -- A call keeps the breaker sound: it is open exactly when it has counted a failure and its failures
  -- reach the threshold. A call that returns a value leaves it closed, with no failure counted.
  pub run-IsSound :
      (c : Connector) (w : W)
      → IsSound c.breaker
      → (let out = run h fn args c w in IsSound out.1.breaker × ClosedIfOk out.0 out.1.breaker)
  unfolding run
  run-IsSound c w s = elim (Bool-cases (allow h c.breaker w).0) [
    | inl allowed ↦
        rw (allowed, run)
          (attempts_keep (suc c.config.max_retries) 0
            (record { kind = Kind.assertion_error; message = "" }) c (allow h c.breaker w).1 s)
    | inr refused ↦ rw (refused, run) (s, tt)
  ]
