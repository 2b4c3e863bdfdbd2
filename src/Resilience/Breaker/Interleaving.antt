-- ===== src/Resilience/Breaker/Interleaving.antt =====
-- The breaker under many callers: any interleaving of the two critical sections of `Execute`.
use goplusplus.Prelude.{ℕ, suc, ◌-◌, ◌≤◌, ◌<◌, ◌≡◌, ◌≢◌, refl, Bool, true, false, arith}
use goplusplus.Prelude.Int.{positive_or-pos}
use goplusplus.Resilience.Breaker.{
  state_closed, state_half_open, state_open, CircuitBreakerConfig, CircuitBreaker,
  new_circuit_breaker, admit, record_result,
}

-- The shared breaker, and how many callers are between their two critical sections.
pub record System : Type 0 where
  pub breaker : CircuitBreaker
  pub in_flight : ℕ

pub data Move : System → System → Type 0 where
  enter :
      (s : System) (now stamp : ℕ)
      → (admit s.breaker now stamp).1 ≡ true
      → Move s (record { breaker = (admit s.breaker now stamp).0; in_flight = suc s.in_flight })
  turn_away :
      (s : System) (now stamp : ℕ)
      → (admit s.breaker now stamp).1 ≡ false
      → Move s (record { breaker = (admit s.breaker now stamp).0; in_flight = s.in_flight })
  leave :
      (s : System) (n : ℕ) (failed : Bool) (stamp : ℕ)
      → s.in_flight ≡ suc n
      → Move s (record { breaker = record_result s.breaker failed stamp; in_flight = n })

pub data Reach (s : System) : System → Type 0 where
  here : Reach s s
  after : {t u : System} → Reach s t → Move t u → Reach s u

-- The state agrees with the count: closed below the threshold, open or half open from it on.
pub record IsConsistent (cb : CircuitBreaker) : Type 0 where
  pub positive : (0 < cb.failure_threshold) × (0 < cb.reset_timeout)
  pub closed : cb.state ≡ state_closed → cb.failures < cb.failure_threshold
  pub tripped : cb.state ≢ state_closed → cb.failure_threshold ≤ cb.failures

new-IsConsistent : (cfg : CircuitBreakerConfig) → IsConsistent (new_circuit_breaker cfg)
unfolding new_circuit_breaker
new-IsConsistent cfg = record {
  positive = (
    positive_or-pos cfg.failure_threshold 5 (omega arith),
    positive_or-pos cfg.reset_timeout 10_000_000_000 (omega arith),
  );
  closed = λ _. positive_or-pos cfg.failure_threshold 5 (omega arith);
  tripped = λ h. absurd (h refl);
}

admit-IsConsistent :
    (cb : CircuitBreaker) (now stamp : ℕ) → IsConsistent cb → IsConsistent (admit cb now stamp).0
unfolding admit
admit-IsConsistent cb now stamp v = ground arith

record_result-IsConsistent :
    (cb : CircuitBreaker) (failed : Bool) (stamp : ℕ)
    → IsConsistent cb
    → IsConsistent (record_result cb failed stamp)
unfolding record_result
record_result-IsConsistent cb failed stamp v = ground arith

Move-IsConsistent : {s t : System} → Move s t → IsConsistent s.breaker → IsConsistent t.breaker
Move-IsConsistent (enter s now stamp h) v = admit-IsConsistent s.breaker now stamp v
Move-IsConsistent (turn_away s now stamp h) v = admit-IsConsistent s.breaker now stamp v
Move-IsConsistent (leave s n failed stamp h) v = record_result-IsConsistent s.breaker failed stamp v

Reach-from : {s t : System} → IsConsistent s.breaker → Reach s t → IsConsistent t.breaker
Reach-from v here = v
Reach-from v (after r m) = Move-IsConsistent m (Reach-from v r)

-- Whatever the callers do and however their calls interleave, the breaker stays consistent: it is
-- closed only below the threshold, and open or half open only from it on.
pub Reach-IsConsistent :
    (cfg : CircuitBreakerConfig) (s : System)
    → Reach (record { breaker = new_circuit_breaker cfg; in_flight = 0 }) s
    → IsConsistent s.breaker
Reach-IsConsistent cfg s r = Reach-from (new-IsConsistent cfg) r

-- Once the timeout of an open breaker has passed, every later caller is admitted until one of
-- the admitted calls returns, not a single trial call: the breaker is then half open.
pub admit-half_open :
    (cb : CircuitBreaker) (now stamp now' stamp' : ℕ)
    → cb.state ≡ state_open
    → cb.reset_timeout < now - cb.last_state_chg
    → let (trial, _) = admit cb now stamp in
      (trial.state ≡ state_half_open) × (admit trial now' stamp' ≡ (trial, true))
unfolding admit
admit-half_open cb now stamp now' stamp' h late = ground arith
