-- ===== src/Resilience/Breaker/Behaviour.antt =====
-- The breaker under one caller: when it rejects, when it trips, and how it recovers.
use goplusplus.Prelude.{
  ℕ, ◌+◌, ◌-◌, ◌≤◌, ◌<◌, ◌≡◌, refl, List, [], ◌∷◌, Option, none, some, ◌↔◌, ◌⊎◌, if◌then◌else◌, leb,
  Bool-cases, inl, inr, arith,
}
use goplusplus.Prelude.Int.{positive_or, positive_or-pos}
use goplusplus.Resilience.Breaker.{
  state_closed, state_open, CircuitBreakerConfig, CircuitBreaker, new_circuit_breaker, admit,
  record_result, Outcome, rejected, returned, execute, is_failure,
}

module _ {World Failure : Type 0} (cb : CircuitBreaker) (now stamp done : ℕ)
    (fn : World → World × Option Failure) (w : World) where
  -- A call is rejected exactly when the breaker is open and its timeout has not passed.
  pub execute-rejected_iff :
      ((execute cb now stamp done fn w).2 ≡ rejected)
      ↔ ((cb.state ≡ state_open) × (now - cb.last_state_chg ≤ cb.reset_timeout))
  unfolding execute admit
  execute-rejected_iff = ground arith

  -- A rejected call changes neither the breaker nor the world.
  pub execute_of_rejected :
      (execute cb now stamp done fn w).2 ≡ rejected
      → execute cb now stamp done fn w ≡ (cb, w, rejected)
  unfolding execute admit
  execute_of_rejected h = ground arith

-- Between calls the breaker is closed with too few failures, or open with enough.
record IsSettled (cfg : CircuitBreakerConfig) (cb : CircuitBreaker) : Type 0 where
  threshold : cb.failure_threshold ≡ positive_or cfg.failure_threshold 5
  timeout : cb.reset_timeout ≡ positive_or cfg.reset_timeout 10_000_000_000
  phase :
      ((cb.state ≡ state_closed) × (cb.failures < cb.failure_threshold))
      ⊎ ((cb.state ≡ state_open) × (cb.failure_threshold ≤ cb.failures))

new_circuit_breaker-IsSettled :
    (cfg : CircuitBreakerConfig) → IsSettled cfg (new_circuit_breaker cfg)
unfolding new_circuit_breaker
new_circuit_breaker-IsSettled cfg = record {
  threshold = refl;
  timeout = refl;
  phase = inl (refl, positive_or-pos cfg.failure_threshold 5 (omega arith));
}

-- A call and what the clock says at its three readings.
pub record Call (World Failure : Type 0) : Type 0 where
  pub now : ℕ
  pub stamp : ℕ
  pub done : ℕ
  pub fn : World → World × Option Failure

abbrev pub outcome_failures : {Failure : Type 0} → Outcome Failure → ℕ
outcome_failures rejected = 0
outcome_failures (returned none) = 0
outcome_failures (returned (some e)) = 1

module _ {World Failure : Type 0} where
  -- The calls of one caller, one after the other, with the number of functions that failed.
  unfoldable pub run_calls :
      CircuitBreaker → List (Call World Failure) → World → CircuitBreaker × World × ℕ
  run_calls cb [] w = (cb, w, 0)
  run_calls cb (call ∷ calls) w =
      let (cb', w', outcome) = execute cb call.now call.stamp call.done call.fn w in
      let (last, final, failed) = run_calls cb' calls w' in
      (last, final, outcome_failures outcome + failed)

  -- No call comes to an open breaker after its timeout.
  abbrev pub BeforeTimeout : CircuitBreaker → List (Call World Failure) → World → Type 0
  BeforeTimeout cb [] w = Unit
  BeforeTimeout cb (call ∷ calls) w =
      (cb.state ≡ state_open → call.now - cb.last_state_chg ≤ cb.reset_timeout)
      × BeforeTimeout (execute cb call.now call.stamp call.done call.fn w).0 calls
          (execute cb call.now call.stamp call.done call.fn w).1

  execute-IsSettled :
      (cfg : CircuitBreakerConfig) (cb : CircuitBreaker) (call : Call World Failure) (w : World)
      → IsSettled cfg cb
      → IsSettled cfg (execute cb call.now call.stamp call.done call.fn w).0
  unfolding execute admit record_result
  execute-IsSettled cfg cb call w s =
      let needed = positive_or-pos cfg.failure_threshold 5 (omega arith) in
      record {
        threshold = ground (arith, s.threshold);
        timeout = ground (arith, s.timeout);
        phase = elim s.phase [
          | inl (closed, few) ↦ elim (Bool-cases (leb cb.failure_threshold (cb.failures + 1))) [
            | inl trips ↦ ground (arith, s.threshold, needed)
            | inr stays ↦ ground (arith, s.threshold, needed)
          ]
          | inr (tripped, many) ↦ ground (arith, s.threshold, needed)
        ];
      }

  run_calls-IsSettled :
      (cfg : CircuitBreakerConfig) (cb : CircuitBreaker) (calls : List (Call World Failure))
      (w : World)
      → IsSettled cfg cb
      → IsSettled cfg (run_calls cb calls w).0
  unfolding run_calls
  run_calls-IsSettled cfg cb [] w s = s
  run_calls-IsSettled cfg cb (call ∷ calls) w s =
      let next = execute cb call.now call.stamp call.done call.fn w in
      run_calls-IsSettled cfg next.0 calls next.1 (execute-IsSettled cfg cb call w s)

  -- Before its timeout, a call adds its failure to the count.
  execute-counts :
      (cfg : CircuitBreakerConfig) (cb : CircuitBreaker) (call : Call World Failure) (w : World)
      → IsSettled cfg cb
      → (cb.state ≡ state_open → call.now - cb.last_state_chg ≤ cb.reset_timeout)
      → let (cb', _, outcome) = execute cb call.now call.stamp call.done call.fn w in
        cb'.failures ≡ outcome_failures outcome + cb.failures
  unfolding execute admit record_result
  execute-counts cfg cb call w s before = elim s.phase [
    | inl (closed, few) ↦ ground arith
    | inr (tripped, many) ↦ ground (arith, before tripped)
  ]

  run_calls-counts :
      (cfg : CircuitBreakerConfig) (cb : CircuitBreaker) (calls : List (Call World Failure))
      (w : World)
      → IsSettled cfg cb
      → BeforeTimeout cb calls w
      → let (cb', _, failed) = run_calls cb calls w in cb'.failures ≡ failed + cb.failures
  unfolding run_calls
  run_calls-counts cfg cb [] w s before = omega arith
  run_calls-counts cfg cb (call ∷ calls) w s before =
      let next = execute cb call.now call.stamp call.done call.fn w in
      let here = execute-counts cfg cb call w s before.0 in
      let later =
        run_calls-counts cfg next.0 calls next.1 (execute-IsSettled cfg cb call w s) before.1 in
      omega (arith, here, later)

  -- Of the functions that one caller has run through a new breaker, one after the other and with no
  -- call to an open breaker after its timeout, it counts every failure, also those with successes in
  -- between: it is open exactly when the failures have reached the threshold, 5 if the configured one
  -- is not positive, and closed before that.
  pub run_calls-trips :
      (cfg : CircuitBreakerConfig) (calls : List (Call World Failure)) (w : World)
      → BeforeTimeout (new_circuit_breaker cfg) calls w
      → let (cb, _, failed) = run_calls (new_circuit_breaker cfg) calls w in
        cb.state
        ≡ (if leb (positive_or cfg.failure_threshold 5) failed then state_open else state_closed)
  unfolding new_circuit_breaker
  run_calls-trips cfg calls w before =
      let start = new_circuit_breaker-IsSettled cfg in
      let settled = run_calls-IsSettled cfg (new_circuit_breaker cfg) calls w start in
      let counted = run_calls-counts cfg (new_circuit_breaker cfg) calls w start before in
      elim settled.phase [
        | inl (closed, few) ↦ ground (arith, settled.threshold, counted)
        | inr (tripped, many) ↦ ground (arith, settled.threshold, counted)
      ]

  -- When the calls of one caller, made one after the other from a new breaker on, have left it open,
  -- then the first call after its timeout runs the function. If that succeeds the breaker is a new
  -- one again, but for the time of its last change; if it fails, the breaker stays open and its
  -- timeout starts again.
  pub run_calls-recovers :
      (cfg : CircuitBreakerConfig) (calls : List (Call World Failure)) (w : World)
      (call : Call World Failure)
      → let (cb, w', _) = run_calls (new_circuit_breaker cfg) calls w in
        cb.state ≡ state_open
        → cb.reset_timeout < call.now - cb.last_state_chg
        → let (w'', err) = call.fn w' in
          execute cb call.now call.stamp call.done call.fn w' ≡ (
            if is_failure err
                then record cb { failures = cb.failures + 1; last_state_chg = call.done }
                else record (new_circuit_breaker cfg) { last_state_chg = call.done },
            w'',
            returned err,
          )
  unfolding execute admit record_result new_circuit_breaker
  run_calls-recovers cfg calls w call tripped late =
      let start = new_circuit_breaker-IsSettled cfg in
      let settled = run_calls-IsSettled cfg (new_circuit_breaker cfg) calls w start in
      elim settled.phase [
        | inl (closed, few) ↦ absurd (ground arith)
        | inr (_, many) ↦ ground (arith, settled.threshold, settled.timeout)
      ]
