-- ===== src/Resilience/Retry/Jitter.antt =====
-- The delay that addJitter returns.
use goplusplus.Prelude.{
  ℕ, zero, suc, ◌≡◌, ◌/◌, ◌*◌, ◌^◌, ◌≤◌, ◌<◌, some, arith, Option-cases, inl, inr,
}
use goplusplus.Prelude.Int.{ℤ, pos, negsuc, to_int64}
use goplusplus.Resilience.Retry.{Env, JitterResult, panics, waits, add_jitter}

-- rand.Int draws below its bound.
abbrev pub DrawsBelow : {World Failure Factor : Type 0} → Env World Failure Factor → Type 0
DrawsBelow {World} env =
    (bound : ℕ) (w : World) (n : ℕ) → (env.rand_int bound w).1 ≡ some n → n < bound

-- The wait stays within half of the delay on either side, given that the random number is
-- below its bound.
abbrev pub Within : ℕ → JitterResult → Type 0
Within delay panics = delay ≡ 1
Within delay (waits (negsuc n)) = ⊥
Within delay (waits (pos n)) = (delay ≤ 2 * n) × (2 * n ≤ 3 * delay)

module _ {World Failure Factor : Type 0} (env : Env World Failure Factor) where
  -- For a positive delay of less than 2/3 * 2 ^ 63 nanoseconds, addJitter either waits for at least half of it and at most one and a half
  -- times as long, given that rand.Int draws below its bound, or panics, when the delay is one
  -- nanosecond.
  pub add_jitter-Within :
      DrawsBelow env
      → (n : ℕ) (w : World) → 3 * suc n < 2 ^ 64
      → Within (suc n) (add_jitter env (pos (suc n)) w).1
  unfolding add_jitter to_int64
  add_jitter-Within draws n w small = elim (Option-cases (env.rand_int (suc n / 2) w).1) [
    | inl failed ↦ ground arith
    | inr (jitter, drawn) ↦ ground (arith, draws (suc n / 2) w jitter drawn)
  ]

  -- addJitter panics exactly for a delay of one nanosecond.
  pub add_jitter-panics :
      (delay : ℤ) (w : World)
      → ((add_jitter env delay w).1 ≡ panics → delay ≡ pos 1)
        × (delay ≡ pos 1 → (add_jitter env delay w).1 ≡ panics)
  unfolding add_jitter
  add_jitter-panics (negsuc n) w = ground arith
  add_jitter-panics (pos zero) w = ground arith
  add_jitter-panics (pos (suc n)) w = elim (Option-cases (env.rand_int (suc n / 2) w).1) [
    | inl failed ↦ (λ e. ground arith, λ e. ground arith)
    | inr (jitter, drawn) ↦ (λ e. ground arith, λ e. ground arith)
  ]
