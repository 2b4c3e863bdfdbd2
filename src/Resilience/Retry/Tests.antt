-- ===== src/Resilience/Retry/Tests.antt =====
-- An operation that succeeds at its third call, one that never does, and the theorems at them.
use goplusplus.Prelude.{
  ℕ, zero, suc, ◌≡◌, refl, ◌+◌, ◌*◌, ◌%◌, ◌≤◌, ◌⊎◌, false, Option, none, some, arith, if◌then◌else◌,
  ◌==◌, ltb,
}
use goplusplus.Prelude.Int.{ℤ, pos, negsuc, positive_or}
use goplusplus.Resilience.Retry.{
  Env, RetryConfig, panicked, returned, panics, default_retry_config, with_defaults, add_jitter,
  next_delay, retry_from, retry,
}
use goplusplus.Resilience.Retry.Jitter.{DrawsBelow, Within, add_jitter-Within, add_jitter-panics}
use goplusplus.Resilience.Retry.Attempts.{
  Counts, AlwaysFails, retry-calls, retry-success, retry-exhausted,
}

program : Unit {0}
unfolding positive_or default_retry_config with_defaults add_jitter next_delay retry_from retry
program = tt

-- The world is the number of calls; factors are whole numbers, and the generator draws the largest
-- number below its bound.
abbrev draw : ℕ → ℕ → ℕ × Option ℕ
draw zero w = (w, none)
draw (suc bound) w = (w, some bound)

abbrev times : ℤ → ℕ → ℤ
times (pos n) factor = pos (n * factor)
times (negsuc n) factor = negsuc n

abbrev env : Env ℕ ℕ ℕ
env = record {
  ctx_err = λ w. none;
  sleep = λ t w. (w, none);
  rand_int = draw;
  is_even = λ n. n % 2 == 0;
  not_positive = λ n. n == 0;
  two = 2;
  scale = times;
}

abbrev cfg : RetryConfig ℕ ℕ
cfg = default_retry_config env

abbrev third_time : ℕ → ℕ × Option ℕ
third_time w = (suc w, if ltb w 2 then some 7 else none)

abbrev never : ℕ → ℕ × Option ℕ
never w = (suc w, some 7)

runs :
    (retry env cfg third_time 0 ≡ (3, returned none))
    × (retry env cfg never 0 ≡ (3, returned (some 7)))
    × (retry env (record cfg { retryable = some (λ e. false) }) never 0 ≡ (1, returned (some 7)))
    × (retry env (record cfg { initial_delay = pos 1 }) never 0 ≡ (1, panicked))
unfolding program
runs = (refl, refl, refl, refl)

draws : DrawsBelow env
draws zero w n e = absurd (ground arith)
draws (suc bound) w n e = ground arith

add_jitter-Within_example : Within 101 (add_jitter env (pos 101) 0).1
add_jitter-Within_example = add_jitter-Within env draws 100 0 (omega arith)

jitter_panics_at_one :
    ((add_jitter env (pos 2) 0).1 ≡ panics → pos 2 ≡ pos 1)
    × (pos 2 ≡ pos 1 → (add_jitter env (pos 2) 0).1 ≡ panics)
jitter_panics_at_one = add_jitter-panics env (pos 2) 0

drawn : (bound : ℕ) (w : ℕ) → (draw bound w).0 ≡ w
drawn zero w = refl
drawn (suc bound) w = refl

third_time-Counts : Counts env third_time (λ w. w)
third_time-Counts = record { counted = λ w. refl; asleep = λ t w. refl; drawn = drawn }

never-Counts : Counts env never (λ w. w)
never-Counts = record { counted = λ w. refl; asleep = λ t w. refl; drawn = drawn }

retry-calls_example : (retry env cfg third_time 0).0 ≤ 0 + positive_or (pos 3) 3
unfolding default_retry_config
retry-calls_example = retry-calls env cfg third_time (λ w. w) third_time-Counts 0

third_time_returns : (retry env cfg third_time 0).1 ≡ returned none
unfolding program
third_time_returns = refl

success_returned :
    (v : ℕ) × ((third_time v).1 ≡ none) × ((retry env cfg third_time 0).0 ≡ (third_time v).0)
success_returned = retry-success env cfg third_time 0 third_time_returns

never-AlwaysFails : AlwaysFails env cfg never
unfolding default_retry_config
never-AlwaysFails = record {
  running = λ w. refl;
  sleeping = λ t w. refl;
  fails = λ w. (7, refl, refl);
}

attempts_exhausted :
    ((retry env cfg never 0).1 ≡ panicked) ⊎ ((retry env cfg never 0).0 ≡ 0 + positive_or (pos 3) 3)
unfolding default_retry_config
attempts_exhausted = retry-exhausted env cfg never (λ w. w) never-Counts never-AlwaysFails 0
