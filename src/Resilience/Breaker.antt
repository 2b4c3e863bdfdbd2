-- ===== src/Resilience/Breaker.antt =====
-- resilience/resilience.go, CircuitBreaker. Instants are nanoseconds of one monotonic clock, and each
-- call of the clock is an argument. The mutex makes `admit` and `record_result` atomic; between
-- them the caller's function runs outside the lock.
pub mod Behaviour
pub mod Interleaving
mod Tests
use goplusplus.Prelude.{ℕ, ◌+◌, ◌-◌, Bool, true, false, Option, none, some, if◌then◌else◌, ltb, leb}
use goplusplus.Prelude.Int.{ℤ, positive_or}

pub data CircuitState : Type 0 where
  state_closed state_half_open state_open : CircuitState

pub record CircuitBreakerConfig : Type 0 where
  pub failure_threshold : ℤ
  pub reset_timeout : ℤ

-- `cfg` holds what the constructor makes of the configuration: two positive numbers.
pub record CircuitBreaker : Type 0 where
  pub state : CircuitState
  pub failures : ℕ
  pub failure_threshold : ℕ
  pub reset_timeout : ℕ
  pub last_state_chg : ℕ

unfoldable pub new_circuit_breaker : CircuitBreakerConfig → CircuitBreaker
new_circuit_breaker cfg = record {
  state = state_closed;
  failures = 0;
  failure_threshold = positive_or cfg.failure_threshold 5;
  reset_timeout = positive_or cfg.reset_timeout 10_000_000_000;
  last_state_chg = 0;
}

abbrev pub is_open : CircuitState → Bool
is_open state_open = true
is_open state_half_open = false
is_open state_closed = false

abbrev pub is_half_open : CircuitState → Bool
is_half_open state_half_open = true
is_half_open state_open = false
is_half_open state_closed = false

-- The first critical section of `Execute`: may the call go on? `now` and `stamp` are its two
-- readings of the clock. A timeout is positive, so the truncated difference serves.
unfoldable pub admit : CircuitBreaker → ℕ → ℕ → CircuitBreaker × Bool
admit cb now stamp =
    if is_open cb.state
    then (if ltb cb.reset_timeout (now - cb.last_state_chg)
        then (record cb { state = state_half_open; last_state_chg = stamp }, true)
        else (cb, false))
    else (cb, true)

-- The second critical section: the call's result is recorded.
unfoldable pub record_result : CircuitBreaker → Bool → ℕ → CircuitBreaker
record_result cb failed stamp =
    if failed
    then (if leb cb.failure_threshold (cb.failures + 1)
        then record cb { failures = cb.failures + 1; state = state_open; last_state_chg = stamp }
        else record cb { failures = cb.failures + 1 })
    else (if is_half_open cb.state
        then record cb { state = state_closed; failures = 0; last_state_chg = stamp }
        else cb)

pub data Outcome (Failure : Type 0) : Type 0 where
  rejected : Outcome Failure
  returned : Option Failure → Outcome Failure

abbrev pub is_failure {ℓ} : {Failure : Type ℓ} → Option Failure → Bool
is_failure none = false
is_failure (some e) = true

module _ {World Failure : Type 0} where
  -- `Execute` with no other call in between; `done` is the clock when the function has returned.
  unfoldable pub execute :
      CircuitBreaker
      → ℕ
      → ℕ
      → ℕ
      → (World → World × Option Failure)
      → World
      → CircuitBreaker × World × Outcome Failure
  execute cb now stamp done fn w =
      let (cb', admitted) = admit cb now stamp in
      let (w', err) = fn w in
      if admitted
      then (record_result cb' (is_failure err) done, w', returned err)
      else (cb', w, rejected)
