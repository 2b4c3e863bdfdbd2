-- ===== src/Resilience/Retry/Attempts.antt =====
-- How often Retry calls the operation, and what its result says.
use goplusplus.Prelude.{
  ℕ, zero, suc, ◌≡◌, refl, subst, ◌+◌, ◌/◌, ◌≤◌, ◌<◌, ◌⊎◌, true, Option, none, some, arith, inl,
  inr,
}
use goplusplus.Prelude.Int.{ℤ, pos, negsuc, positive_or, positive_or-pos}
use goplusplus.Resilience.Retry.{
  Env, RetryConfig, RetryResult, panicked, returned, is_retryable, with_defaults, add_jitter,
  next_delay, retry_from, retry,
}
use goplusplus.Resilience.Retry.Rounds.{
  Round, round, done_before, succeeded, gave_up, crashed, done_waiting, again,
}

-- The world counts the calls of the operation, and nothing else changes the count.
pub record Counts {World Failure Factor : Type 0} (env : Env World Failure Factor)
    (fn : World → World × Option Failure) (calls : World → ℕ) : Type 0 where
  pub counted : (w : World) → calls (fn w).0 ≡ suc (calls w)
  pub asleep : (t : ℤ) (w : World) → calls (env.sleep t w).0 ≡ calls w
  pub drawn : (bound : ℕ) (w : World) → calls (env.rand_int bound w).0 ≡ calls w

module _ {World Failure Factor : Type 0} (env : Env World Failure Factor)
    (cfg : RetryConfig Failure Factor) (fn : World → World × Option Failure) where
  module _ (calls : World → ℕ) (c : Counts env fn calls) where
    add_jitter-calls : (delay : ℤ) (w : World) → calls (add_jitter env delay w).0 ≡ calls w
    unfolding add_jitter
    add_jitter-calls (negsuc n) w = refl
    add_jitter-calls (pos zero) w = refl
    add_jitter-calls (pos (suc n)) w = ground (arith, c.drawn (suc n / 2) w)

    Round-calls :
        (left : ℕ) (delay : ℤ) (w : World) (r : World × RetryResult Failure)
        → ((delay' : ℤ) (last : Option Failure) (w' : World)
            → calls (retry_from env cfg fn left delay' last w').0 ≤ calls w' + left)
        → Round env cfg fn left delay w r
        → calls r.0 ≤ calls w + suc left
    Round-calls left delay w r rest (done_before e h) = omega arith
    Round-calls left delay w r rest (succeeded h) = omega (arith, c.counted w)
    Round-calls left delay w r rest (gave_up e h f) = omega (arith, c.counted w)
    Round-calls left delay w r rest (crashed h) =
        omega (arith, c.counted w, add_jitter-calls delay (fn w).0)
    Round-calls left delay w r rest (done_waiting t e h) = omega (
      arith,
      c.counted w,
      add_jitter-calls delay (fn w).0,
      c.asleep t (add_jitter env delay (fn w).0).0,
    )
    Round-calls left delay w r rest (again t e) = omega (
      arith,
      c.counted w,
      add_jitter-calls delay (fn w).0,
      c.asleep t (add_jitter env delay (fn w).0).0,
      rest (next_delay env cfg delay) (some e) (env.sleep t (add_jitter env delay (fn w).0).0).0,
    )

    retry_from-calls :
        (left : ℕ) (delay : ℤ) (last : Option Failure) (w : World)
        → calls (retry_from env cfg fn left delay last w).0 ≤ calls w + left
    unfolding retry_from
    retry_from-calls zero delay last w = omega arith
    retry_from-calls (suc left) delay last w =
        Round-calls left delay w (retry_from env cfg fn (suc left) delay last w)
          (λ delay' last' w'. retry_from-calls left delay' last' w')
          (round env cfg fn left delay last w)

  Round-success :
      (left : ℕ) (delay : ℤ) (w : World) (r : World × RetryResult Failure)
      → ((delay' : ℤ) (e : Failure) (w' : World)
          → (retry_from env cfg fn left delay' (some e) w').1 ≡ returned none
          → (v : World) × ((fn v).1 ≡ none)
            × ((retry_from env cfg fn left delay' (some e) w').0 ≡ (fn v).0))
      → Round env cfg fn left delay w r
      → r.1 ≡ returned none
      → (v : World) × ((fn v).1 ≡ none) × (r.0 ≡ (fn v).0)
  Round-success left delay w r rest (done_before e h) ok = absurd (ground arith)
  Round-success left delay w r rest (succeeded h) ok = (w, h, refl)
  Round-success left delay w r rest (gave_up e h f) ok = absurd (ground arith)
  Round-success left delay w r rest (crashed h) ok = absurd (ground arith)
  Round-success left delay w r rest (done_waiting t e h) ok = absurd (ground arith)
  Round-success left delay w r rest (again t e) ok =
      rest (next_delay env cfg delay) e (env.sleep t (add_jitter env delay (fn w).0).0).0 ok

  retry_from-success :
      (left : ℕ) (delay : ℤ) (e : Failure) (w : World)
      → (retry_from env cfg fn left delay (some e) w).1 ≡ returned none
      → (v : World) × ((fn v).1 ≡ none)
        × ((retry_from env cfg fn left delay (some e) w).0 ≡ (fn v).0)
  unfolding retry_from
  retry_from-success zero delay e w ok = absurd (ground arith)
  retry_from-success (suc left) delay e w ok =
      Round-success left delay w (retry_from env cfg fn (suc left) delay (some e) w)
        (λ delay' e' w' ok'. retry_from-success left delay' e' w' ok')
        (round env cfg fn left delay (some e) w) ok

  retry_from-success_first :
      (left : ℕ) (delay : ℤ) (w : World)
      → 0 < left
      → (retry_from env cfg fn left delay none w).1 ≡ returned none
      → (v : World) × ((fn v).1 ≡ none) × ((retry_from env cfg fn left delay none w).0 ≡ (fn v).0)
  retry_from-success_first zero delay w some_left ok = absurd (omega arith)
  retry_from-success_first (suc left) delay w some_left ok =
      Round-success left delay w (retry_from env cfg fn (suc left) delay none w)
        (λ delay' e' w' ok'. retry_from-success left delay' e' w' ok')
        (round env cfg fn left delay none w) ok

-- The context is never done, and every call fails with an error that may be retried.
pub record AlwaysFails {World Failure Factor : Type 0} (env : Env World Failure Factor)
    (cfg : RetryConfig Failure Factor) (fn : World → World × Option Failure) : Type 0 where
  pub running : (w : World) → env.ctx_err w ≡ none
  pub sleeping : (t : ℤ) (w : World) → (env.sleep t w).1 ≡ none
  pub fails :
      (w : World) → (e : Failure) × ((fn w).1 ≡ some e) × (is_retryable cfg.retryable e ≡ true)

module _ {World Failure Factor : Type 0} (env : Env World Failure Factor)
    (cfg : RetryConfig Failure Factor) (fn : World → World × Option Failure) (calls : World → ℕ)
    (c : Counts env fn calls) (always : AlwaysFails env cfg fn) where
  abbrev IsExhausted : ℕ → World → World × RetryResult Failure → Type 0
  IsExhausted left w r = (r.1 ≡ panicked) ⊎ (calls r.0 ≡ calls w + left)

  Round-IsExhausted :
      (left : ℕ) (delay : ℤ) (w : World) (r : World × RetryResult Failure)
      → ((delay' : ℤ) (last : Option Failure) (w' : World)
          → IsExhausted left w' (retry_from env cfg fn left delay' last w'))
      → Round env cfg fn left delay w r
      → IsExhausted (suc left) w r
  Round-IsExhausted left delay w r rest (done_before e h) =
      absurd (ground (arith, always.running w))
  Round-IsExhausted left delay w r rest (succeeded h) =
      let (e, failed, retried) = always.fails w in absurd (ground arith)
  Round-IsExhausted left delay w r rest (gave_up e h f) =
      let (e', failed, retried) = always.fails w in
      let same : e' ≡ e = ground arith in
      elim f [
        | inl final ↦
            absurd (ground (arith, subst (λ x. is_retryable cfg.retryable x ≡ true) same retried))
        | inr last_one ↦ inr (omega (arith, c.counted w, last_one))
      ]
  Round-IsExhausted left delay w r rest (crashed h) = inl refl
  Round-IsExhausted left delay w r rest (done_waiting t e h) =
      absurd (ground (arith, always.sleeping t (add_jitter env delay (fn w).0).0))
  Round-IsExhausted left delay w r rest (again t e) =
      elim (rest (next_delay env cfg delay) (some e)
        (env.sleep t (add_jitter env delay (fn w).0).0).0) [
          | inl crash ↦ inl crash
          | inr count ↦ inr (
              omega (
                arith,
                count,
                c.counted w,
                add_jitter-calls env cfg fn calls c delay (fn w).0,
                c.asleep t (add_jitter env delay (fn w).0).0,
              ))
        ]

  retry_from-IsExhausted :
      (left : ℕ) (delay : ℤ) (last : Option Failure) (w : World)
      → IsExhausted left w (retry_from env cfg fn left delay last w)
  unfolding retry_from
  retry_from-IsExhausted zero delay last w = inr (omega arith)
  retry_from-IsExhausted (suc left) delay last w =
      Round-IsExhausted left delay w (retry_from env cfg fn (suc left) delay last w)
        (λ delay' last' w'. retry_from-IsExhausted left delay' last' w')
        (round env cfg fn left delay last w)

module _ {World Failure Factor : Type 0} (env : Env World Failure Factor)
    (cfg : RetryConfig Failure Factor) (fn : World → World × Option Failure) where
  -- Retry calls the operation at most MaxAttempts times, three if that is not positive, given that
  -- only the operation changes the count of its calls.
  pub retry-calls :
      (calls : World → ℕ)
      → Counts env fn calls
      → (w : World) → calls (retry env cfg fn w).0 ≤ calls w + positive_or cfg.max_attempts 3
  unfolding retry
  retry-calls calls c w =
      retry_from-calls env (with_defaults env cfg) fn calls c (positive_or cfg.max_attempts 3)
        (with_defaults env cfg).initial_delay none w

  -- If Retry returns nil, the last thing it did was a call of the operation that succeeded, and the
  -- world is as that call left it.
  pub retry-success :
      (w : World)
      → (retry env cfg fn w).1 ≡ returned none
      → (v : World) × ((fn v).1 ≡ none) × ((retry env cfg fn w).0 ≡ (fn v).0)
  unfolding retry
  retry-success w ok =
      retry_from-success_first env (with_defaults env cfg) fn (positive_or cfg.max_attempts 3)
        (with_defaults env cfg).initial_delay w (positive_or-pos cfg.max_attempts 3 (omega arith))
        ok

  -- If every call fails with an error that may be retried, the context is never done, and only the
  -- operation changes the count of its calls, then Retry calls it exactly MaxAttempts times, three if
  -- that is not positive, or panics in its jitter.
  pub retry-exhausted :
      (calls : World → ℕ)
      → Counts env fn calls
      → AlwaysFails env cfg fn
      → (w : World)
      → ((retry env cfg fn w).1 ≡ panicked)
        ⊎ (calls (retry env cfg fn w).0 ≡ calls w + positive_or cfg.max_attempts 3)
  unfolding retry with_defaults
  retry-exhausted calls c always w =
      retry_from-IsExhausted env (with_defaults env cfg) fn calls c
        (record { running = always.running; sleeping = always.sleeping; fails = always.fails })
        (positive_or cfg.max_attempts 3) (with_defaults env cfg).initial_delay none w
