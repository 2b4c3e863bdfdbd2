-- ===== src/Resilience/Retry/Rounds.antt =====
-- The outcomes of one round of Retry's loop.
use goplusplus.Prelude.{
  ℕ, suc, ◌≡◌, refl, ◌⊎◌, false, Option, none, some, arith, ◌==◌, Option-cases, Bool-cases, inl,
  inr,
}
use goplusplus.Prelude.Int.{ℤ}
use goplusplus.Resilience.Retry.{
  Env, RetryConfig, RetryResult, panicked, returned, JitterResult, panics, waits, is_retryable,
  add_jitter, next_delay, retry_from,
}

JitterResult-cases : (r : JitterResult) → (r ≡ panics) ⊎ ((t : ℤ) × (r ≡ waits t))
JitterResult-cases panics = inl refl
JitterResult-cases (waits t) = inr (t, refl)

module _ {World Failure Factor : Type 0} (env : Env World Failure Factor)
    (cfg : RetryConfig Failure Factor) (fn : World → World × Option Failure) where
  -- What a round of the loop comes to, with `left` attempts after it.
  pub data Round (left : ℕ) (delay : ℤ) (w : World) : World × RetryResult Failure → Type 0 where
    done_before : (e : Failure) → env.ctx_err w ≡ some e → Round left delay w (w, returned (some e))
    succeeded : (fn w).1 ≡ none → Round left delay w ((fn w).0, returned none)
    gave_up :
        (e : Failure)
        → (fn w).1 ≡ some e
        → (is_retryable cfg.retryable e ≡ false) ⊎ (left ≡ 0)
        → Round left delay w ((fn w).0, returned (some e))
    crashed :
        (add_jitter env delay (fn w).0).1 ≡ panics
        → Round left delay w ((add_jitter env delay (fn w).0).0, panicked)
    done_waiting :
        (t : ℤ) (e : Failure)
        → (env.sleep t (add_jitter env delay (fn w).0).0).1 ≡ some e
        → Round left delay w ((env.sleep t (add_jitter env delay (fn w).0).0).0, returned (some e))
    again :
        (t : ℤ) (e : Failure)
        → Round left delay w (
            retry_from env cfg fn left
              (next_delay env cfg delay)
              (some e)
              (env.sleep t (add_jitter env delay (fn w).0).0).0)

  pub round :
      (left : ℕ) (delay : ℤ) (last : Option Failure) (w : World)
      → Round left delay w (retry_from env cfg fn (suc left) delay last w)
  unfolding retry_from
  round left delay last w = elim (Option-cases (env.ctx_err w)) [
    | inr (e, stopped) ↦ rw (stopped, retry_from) (done_before e stopped)
    | inl running ↦ elim (Option-cases (fn w).1) [
      | inl ok ↦ rw (running, retry_from, ok) (succeeded ok)
      | inr (e, err) ↦ elim (Bool-cases (is_retryable cfg.retryable e)) [
        | inr final ↦ rw (running, retry_from, err, final) (gave_up e err (inl final))
        | inl again_ok ↦ elim (Bool-cases (left == 0)) [
          | inl last_one ↦
              rw (running, retry_from, err, again_ok, last_one) (gave_up e err (inr (ground arith)))
          | inr more ↦ elim (JitterResult-cases (add_jitter env delay (fn w).0).1) [
            | inl crash ↦ rw (running, retry_from, err, again_ok, more, crash) (crashed crash)
            | inr (t, wait) ↦
                elim (Option-cases (env.sleep t (add_jitter env delay (fn w).0).0).1) [
                  | inr (stop, stopped) ↦
                      rw (running, retry_from, err, again_ok, more, wait, stopped)
                        (done_waiting t stop stopped)
                  | inl slept ↦
                      rw (running, retry_from, err, again_ok, more, wait, slept) (again t e)
                ]
          ]
        ]
      ]
    ]
  ]
