-- ===== src/Resilience/Breaker/Tests.antt =====
-- The breaker of resilience_test.go, and the theorems at concrete breakers.
use goplusplus.Prelude.{
  ℕ, ◌-◌, ◌≤◌, ◌≡◌, refl, ◌↔◌, true, List, [], ◌∷◌, Option, none, some, arith, if◌then◌else◌, leb,
}
use goplusplus.Prelude.Int.{pos, positive_or}
use goplusplus.Resilience.Breaker.{
  state_closed, state_half_open, state_open, CircuitBreakerConfig, CircuitBreaker,
  new_circuit_breaker, admit, record_result, rejected, returned, execute,
}
use goplusplus.Resilience.Breaker.Behaviour.{
  execute-rejected_iff, execute_of_rejected, Call, run_calls, BeforeTimeout, run_calls-trips,
  run_calls-recovers,
}
use goplusplus.Resilience.Breaker.Interleaving.{
  Reach, here, after, enter, leave, IsConsistent, Reach-IsConsistent, admit-half_open,
}

abbrev config : CircuitBreakerConfig
config = record { failure_threshold = pos 2; reset_timeout = pos 50 }

program : Unit {0}
unfolding positive_or new_circuit_breaker admit record_result execute run_calls
program = tt

abbrev tripped : CircuitBreaker
tripped = record {
  state = state_open;
  failures = 2;
  failure_threshold = 2;
  reset_timeout = 50;
  last_state_chg = 20;
}

abbrev fails : ℕ → ℕ × Option ℕ
fails n = (n, some 7)

abbrev succeeds : ℕ → ℕ × Option ℕ
succeeds n = (n, none)

abbrev failing_at : ℕ → Call ℕ ℕ
failing_at t = record { now = t; stamp = t; done = t; fn = fails }

abbrev passing_at : ℕ → Call ℕ ℕ
passing_at t = record { now = t; stamp = t; done = t; fn = succeeds }

abbrev calls : List (Call ℕ ℕ)
calls = failing_at 10 ∷ passing_at 15 ∷ failing_at 20 ∷ []

trips : run_calls (new_circuit_breaker config) calls 0 ≡ (tripped, 0, 2)
unfolding program
trips = refl

-- A rejected call, a trial that fails, another rejected call, and a trial that succeeds.
trial_calls :
    run_calls tripped (failing_at 30 ∷ failing_at 80 ∷ passing_at 90 ∷ passing_at 140 ∷ []) 0
    ≡ (record tripped { state = state_closed; failures = 0; last_state_chg = 140 }, 0, 1)
unfolding program
trial_calls = refl

rejects_then_recovers :
    (execute tripped 30 31 32 succeeds 0 ≡ (tripped, 0, rejected))
    × (execute tripped 80 81 82 succeeds 0 ≡ (
      record tripped { state = state_closed; failures = 0; last_state_chg = 82 },
      0,
      returned none,
    ))
unfolding program
rejects_then_recovers = (refl, refl)

rejected_while_open :
    ((execute tripped 30 31 32 fails 0).2 ≡ rejected)
    ↔ ((tripped.state ≡ state_open) × (30 - tripped.last_state_chg ≤ tripped.reset_timeout))
rejected_while_open = execute-rejected_iff tripped 30 31 32 fails 0

rejected_keeps : execute tripped 30 31 32 fails 0 ≡ (tripped, 0, rejected)
unfolding program
rejected_keeps = execute_of_rejected tripped 30 31 32 fails 0 refl

run_calls-recovers_example :
    execute tripped 80 80 80 succeeds 0
    ≡ (record (new_circuit_breaker config) { last_state_chg = 80 }, 0, returned none)
unfolding program
run_calls-recovers_example = run_calls-recovers config calls 0 (passing_at 80) refl (omega arith)

calls-BeforeTimeout : BeforeTimeout (new_circuit_breaker config) calls 0
unfolding program
calls-BeforeTimeout = ((λ e. omega arith), ((λ e. omega arith), ((λ e. omega arith), tt)))

run_calls-trips_example : tripped.state ≡ (if leb 2 2 then state_open else state_closed)
unfolding program
run_calls-trips_example = run_calls-trips config calls 0 calls-BeforeTimeout

one_failure :
    Reach
      (record { breaker = new_circuit_breaker config; in_flight = 0 })
      (record {
        breaker = record_result (admit (new_circuit_breaker config) 1 1).0 true 2;
        in_flight = 0;
      })
unfolding program
one_failure =
    after
      (after here (enter (record { breaker = new_circuit_breaker config; in_flight = 0 }) 1 1 refl))
      (leave (record { breaker = new_circuit_breaker config; in_flight = 1 }) 0 true 2 refl)

Reach-IsConsistent_example :
    IsConsistent (record_result (admit (new_circuit_breaker config) 1 1).0 true 2)
Reach-IsConsistent_example = Reach-IsConsistent config _ one_failure

trial_calls_admitted :
    let (trial, _) = admit tripped 80 81 in
    (trial.state ≡ state_half_open) × (admit trial 83 84 ≡ (trial, true))
trial_calls_admitted = admit-half_open tripped 80 81 83 84 refl (omega arith)
