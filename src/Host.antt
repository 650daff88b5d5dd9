-- ===== src/Host.antt =====
-- What the platform reads from the machine and the standard library: the clocks, fresh identifiers,
-- the pause between retries, and the reading and printing of numbers. `W` is the state of everything
-- outside.
use bass_platform.Base.{ℕ, String}
use bass_platform.Errors.{Result}
use bass_platform.Value.{Value, Fields, ℤ}

-- A floating-point number: finite, in millionths, or one of the values that are not
pub data Float : Type 0 where
  finite : ℤ → Float
  infinity minus_infinity nan : Float

pub record Host (W : Type 0) : Type 0 where
  -- The values of the next readings of `time.time()`, and the state after some readings.
  pub clock : W → ℕ → ℕ
  pub tick : W → W
  -- One reading of `time.monotonic()`.
  pub monotonic : W → ℕ × W
  -- `new_id(prefix)`
  pub new_id : String → W → String × W
  pub sleep : ℕ → W → W
  -- `f"{x:.4f}"` of an amount in millionths, and `str` of an integer.
  pub fmt4 : ℕ → String
  pub decimal : ℕ → String
  -- `str` of a number of seconds.
  pub seconds : ℕ → String
  -- `float(v)`; raises for what is no number.
  pub to_float : Value → Result Float
  -- `str(v)`, and the 24 hexadecimal digits of the SHA-256 of the canonical JSON of a dict.
  pub text_of : Value → String
  pub digest : Fields → String
