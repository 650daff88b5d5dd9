-- ===== src/Connector.antt =====
-- reference/bass/connectors.py: the circuit breaker, and `Connector.run` with its timeout, bounded
-- retries and backoff. Times are whole numbers of one unit. A call that times out goes on in its
-- thread, so what it does to the outside is kept.
pub mod Bounds
pub mod Breaker
pub mod Recovery
use bass_platform.Base.{
  ℕ, zero, suc, ◌+◌, ◌-◌, ◌*◌, ◌^◌, min, String, Bool, true, false, Option, none, some, [], ◌∷◌,
  leb, ltb, if◌then◌else◌, concat,
}
use bass_platform.Errors.{Kind, Raised, Result, ok, err, raised, is_connector_error}
use bass_platform.Value.{Value, Fields}
use bass_platform.Models.{Outcome}
use bass_platform.Host.{Host}

pub record ReliabilityConfig : Type 0 where
  pub timeout_s : ℕ
  pub max_retries : ℕ
  pub backoff_base_s : ℕ
  pub backoff_cap_s : ℕ
  pub breaker_threshold : ℕ
  pub breaker_reset_s : ℕ

pub record CircuitBreaker : Type 0 where
  pub threshold : ℕ
  pub reset_s : ℕ
  pub failures : ℕ
  pub opened_at : Option ℕ

pub record Connector : Type 0 where
  pub name : String
  pub config : ReliabilityConfig
  pub breaker : CircuitBreaker

unfoldable pub new_connector : String → ReliabilityConfig → Connector
new_connector name config = record {
  name = name;
  config = config;
  breaker = record {
    threshold = config.breaker_threshold;
    reset_s = config.breaker_reset_s;
    failures = 0;
    opened_at = none;
  };
}

-- The breaker's methods, at the time that `self._now()` returns.
unfoldable pub record_success : CircuitBreaker → CircuitBreaker
record_success b = record b { failures = 0; opened_at = none }

unfoldable pub record_failure : ℕ → CircuitBreaker → CircuitBreaker
record_failure now b =
    if leb b.threshold (b.failures + 1)
    then record b { failures = b.failures + 1; opened_at = some now }
    else record b { failures = b.failures + 1 }

abbrev pub has_cooled : CircuitBreaker → ℕ → ℕ → Bool
has_cooled b opened now = leb b.reset_s (now - opened)

unfoldable pub is_open : ℕ → CircuitBreaker → Bool
is_open now b = elim b.opened_at [ none ↦ false | some t ↦ ltb (now - t) b.reset_s ]

-- How an outcome of the operation is handled.
pub data Handling : Type 0 where
  succeed : Value → Handling
  retry fail_at_once fail_unknown : Raised → Handling

abbrev is_transient : Kind → Bool
is_transient Kind.transient = true
is_transient _ = false

module _ {W : Type 0} (h : Host W) where
  -- `allow`; the clock is read only if the breaker was opened.
  unfoldable pub allow : CircuitBreaker → W → Bool × W
  allow b w = elim b.opened_at [
    | none ↦ (true, w)
    | some opened ↦ let (now, w') = h.monotonic w in (has_cooled b opened now, w')
  ]

  abbrev pub handling : Connector → Outcome → Handling
  handling c (Outcome.returned v) = Handling.succeed v
  handling c Outcome.timed_out = Handling.retry (record {
    kind = Kind.transient;
    message =
        concat
          ("connector '" ∷ c.name ∷ "' timed out after " ∷ h.seconds c.config.timeout_s ∷ "s" ∷ []);
  })
  handling c (Outcome.raised_error e) =
      if is_transient e.kind
      then Handling.retry e
      else if is_connector_error e.kind
      then Handling.fail_at_once e
      else Handling.fail_unknown (record {
        kind = Kind.connector_error;
        message = concat ("connector '" ∷ c.name ∷ "' failed: " ∷ e.message ∷ []);
      })

  -- `self._breaker.record_failure()`, which reads the clock only when it opens the breaker.
  abbrev pub count_failure : Connector → W → Connector × W
  count_failure c w =
      let b = c.breaker in
      if leb b.threshold (b.failures + 1)
      then (let (now, w') = h.monotonic w in (record c { breaker = record_failure now b }, w'))
      else (record c { breaker = record_failure 0 b }, w)

  -- The sleep between attempts, and none after the last.
  abbrev pub pause : ReliabilityConfig → ℕ → ℕ → W → W
  pause cfg zero attempt w = w
  pause cfg (suc left) attempt w =
      h.sleep (min (cfg.backoff_base_s * 2 ^ attempt) cfg.backoff_cap_s) w

  module _ (fn : Fields → W → Outcome × W) (args : Fields) where
    -- What follows an attempt; `again` is the rest of the loop.
    abbrev pub handle :
        ℕ
        → ℕ
        → (Raised → Connector → W → Result Value × Connector × W)
        → Connector
        → W
        → Handling
        → Result Value × Connector × W
    handle left attempt again c w (succeed v) =
        (ok v, record c { breaker = record_success c.breaker }, w)
    handle left attempt again c w (retry e) =
        let (c', w') = count_failure c w in again e c' (pause c.config left attempt w')
    handle left attempt again c w (fail_at_once e) = (err e, c, w)
    handle left attempt again c w (fail_unknown e) =
        let (c', w') = count_failure c w in (err e, c', w')

    -- The loop, with the attempts that are left; `last` is what the latest attempt raised.
    unfoldable pub attempts : ℕ → ℕ → Raised → Connector → W → Result Value × Connector × W
    unfolding record_success record_failure
    attempts zero attempt last c w = (err last, c, w)
    attempts (suc left) attempt last c w =
        let (outcome, w') = fn args w in
        handle left attempt (attempts left (suc attempt)) c w' (handling c outcome)

    -- `Connector.run`
    unfoldable pub run : Connector → W → Result Value × Connector × W
    unfolding allow attempts
    run c w =
        let (allowed, w₁) = allow c.breaker w in
        if allowed
        then attempts (suc c.config.max_retries) 0
            (record { kind = Kind.assertion_error; message = "" }) c w₁
        else (
          raised Kind.circuit_open (concat ("connector '" ∷ c.name ∷ "' circuit is open" ∷ [])),
          c,
          w₁,
        )
