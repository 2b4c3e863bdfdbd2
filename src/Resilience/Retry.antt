-- ===== src/Resilience/Retry.antt =====
-- resilience/retry.go. The context, the clock, crypto/rand and the floating-point arithmetic on
-- delays are an environment over a world that the operation changes. Delays are nanoseconds.
pub mod Jitter
pub mod Rounds
pub mod Attempts
mod Tests
use goplusplus.Prelude.{
  ℕ, zero, suc, ◌+◌, ◌-◌, ◌/◌, Bool, true, false, Option, none, some, if◌then◌else◌, ◌==◌,
}
use goplusplus.Prelude.Int.{ℤ, pos, negsuc, ltb_ℤ, positive_or, sub_ℕ, to_int64}

pub record RetryConfig (Failure Factor : Type 0) : Type 0 where
  pub max_attempts : ℤ
  pub initial_delay : ℤ
  pub max_delay : ℤ
  pub backoff_factor : Factor
  pub retryable : Option (Failure → Bool)

-- `sleep` is the select between ctx.Done() and time.After(jitter), `is_even` is
-- math.Mod(float64(jitter), 2) == 0, and `scale` is time.Duration(float64(delay) * factor).
pub record Env (World Failure Factor : Type 0) : Type 0 where
  pub ctx_err : World → Option Failure
  pub sleep : ℤ → World → World × Option Failure
  pub rand_int : ℕ → World → World × Option ℕ
  pub is_even : ℕ → Bool
  pub not_positive : Factor → Bool
  pub two : Factor
  pub scale : ℤ → Factor → ℤ

pub data JitterResult : Type 0 where
  panics : JitterResult
  waits : ℤ → JitterResult

pub data RetryResult (Failure : Type 0) : Type 0 where
  panicked : RetryResult Failure
  returned : Option Failure → RetryResult Failure

abbrev pub is_retryable : {Failure : Type 0} → Option (Failure → Bool) → Failure → Bool
is_retryable none e = true
is_retryable (some test) e = test e

module _ {World Failure Factor : Type 0} where
  unfoldable pub default_retry_config : Env World Failure Factor → RetryConfig Failure Factor
  default_retry_config env = record {
    max_attempts = pos 3;
    initial_delay = pos 100_000_000;
    max_delay = pos 3_000_000_000;
    backoff_factor = env.two;
    retryable = none;
  }

  -- The checks at the start of Retry.
  unfoldable pub with_defaults :
      Env World Failure Factor → RetryConfig Failure Factor → RetryConfig Failure Factor
  with_defaults env cfg = record cfg {
    max_attempts = pos (positive_or cfg.max_attempts 3);
    initial_delay = pos (positive_or cfg.initial_delay 100_000_000);
    max_delay = pos (positive_or cfg.max_delay 3_000_000_000);
    backoff_factor = if env.not_positive cfg.backoff_factor then env.two else cfg.backoff_factor;
  }

module _ {World Failure Factor : Type 0} (env : Env World Failure Factor) where
  -- rand.Int panics when its bound is not positive, here for a delay of one nanosecond. The sum is
  -- an int64, and wraps around as one.
  unfoldable pub add_jitter : ℤ → World → World × JitterResult
  add_jitter (negsuc n) w = (w, waits (pos 0))
  add_jitter (pos zero) w = (w, waits (pos 0))
  add_jitter (pos (suc n)) w =
      let (w', drawn) = env.rand_int (suc n / 2) w in
      if suc n / 2 == 0 then (w, panics) else elim drawn [
        | none ↦ (w', waits (pos (suc n)))
        | some jitter ↦ (
          w',
          waits (
              if env.is_even jitter then to_int64 (pos (suc n + jitter)) else sub_ℕ (suc n) jitter),
        )
      ]

  unfoldable pub next_delay : RetryConfig Failure Factor → ℤ → ℤ
  next_delay cfg delay =
      let scaled = env.scale delay cfg.backoff_factor in
      if ltb_ℤ cfg.max_delay scaled then cfg.max_delay else scaled

  -- The loop, with the number of attempts left.
  unfoldable pub retry_from :
      RetryConfig Failure Factor
      → (World → World × Option Failure)
      → ℕ
      → ℤ
      → Option Failure
      → World
      → World × RetryResult Failure
  retry_from cfg fn zero delay last_err w = (w, returned last_err)
  retry_from cfg fn (suc left) delay last_err w = elim (env.ctx_err w) [
    | some e ↦ (w, returned (some e))
    | none ↦
        let (w1, err) = fn w in
        elim err [
          | none ↦ (w1, returned none)
          | some e ↦ elim (is_retryable cfg.retryable e) [
            | false ↦ (w1, returned (some e))
            | true ↦ elim (left == 0) [
              | true ↦ (w1, returned (some e))
              | false ↦
                  let (w2, jitter) = add_jitter delay w1 in
                  elim jitter [
                    | panics ↦ (w2, panicked)
                    | waits t ↦
                        let (w3, done) = env.sleep t w2 in
                        elim done [
                          | some stopped ↦ (w3, returned (some stopped))
                          | none ↦ retry_from cfg fn left (next_delay cfg delay) (some e) w3
                        ]
                  ]
            ]
          ]
        ]
  ]

  unfoldable pub retry :
      RetryConfig Failure Factor
      → (World → World × Option Failure)
      → World
      → World × RetryResult Failure
  retry cfg fn w =
      retry_from (with_defaults env cfg) fn (positive_or cfg.max_attempts 3)
        (with_defaults env cfg).initial_delay none w
