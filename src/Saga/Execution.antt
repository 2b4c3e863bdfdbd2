-- ===== src/Saga/Execution.antt =====
-- What `Execute` does: it completes, it compensates after a failure, or it meets a nil function.
use mathlib.Core.List.{append_assoc, append-nil}
use goplusplus.Prelude.{
  ◌≡◌, ap, List, [], ◌∷◌, ◌++◌, reverse, Option, none, some, arith, ◌↔◌, ◌∙◌, sym, subst,
  Option-cases, inl, inr,
}
use goplusplus.Saga.{
  Step, Action, Coordinator, SagaError, no_execute, failed, execute_from, execute,
}
use goplusplus.Saga.Compensation.{compensate_all, compensate_reverse-all}

-- Every step of the list is executed in order and none fails.
pub data Runs {World Failure : Type 0} : List (Step World Failure) → World → World → Type 0 where
  done : {w : World} → Runs [] w w
  next :
      {step : Step World Failure} {steps : List (Step World Failure)} {w w' w'' : World}
      (act : Action World Failure)
      → step.execute ≡ some act
      → act w ≡ (w', none)
      → Runs steps w' w''
      → Runs (step ∷ steps) w w''

module _ {World Failure : Type 0} where
  execute_from-Runs :
      (executed steps rest : List (Step World Failure)) {w w' : World}
      → Runs steps w w'
      → execute_from executed (steps ++ rest) w ≡ execute_from (executed ++ steps) rest w'
  unfolding execute_from
  execute_from-Runs executed [] rest {w} done =
      ap (λ (l : List (Step World Failure)). execute_from l rest w) (sym (append-nil executed))
  execute_from-Runs executed (step ∷ steps) rest {w' = w''} (next act e f r) = ground (
    arith,
    execute_from-Runs (executed ++ step ∷ []) steps rest r,
    append_assoc executed (step ∷ []) steps,
  )

  Runs-execute_from :
      (executed steps : List (Step World Failure)) (w w' : World)
      → execute_from executed steps w ≡ (w', none)
      → Runs steps w w'
  unfolding execute_from
  Runs-execute_from executed [] w w' h =
      subst (Runs [] w) (ap (λ (p : World × Option (SagaError Failure)). p.0) h) done
  Runs-execute_from executed (step ∷ steps) w w' h = elim (Option-cases step.execute) [
    | inl e ↦ absurd (ground arith)
    | inr (act, e) ↦ elim (Option-cases (act w).1) [
      | inl f ↦
          next act e (ground arith)
            (Runs-execute_from (executed ++ step ∷ []) steps (act w).0 w' (ground arith))
      | inr (err, f) ↦ absurd (ground arith)
    ]
  ]

  module _ (c : Coordinator World Failure) where
    -- `Execute` returns nil in a world exactly when every step, in order, returned nil on the way
    -- there; no compensation is run then.
    pub execute-nil_iff : (w w' : World) → (execute c w ≡ (w', none)) ↔ Runs c.steps w w'
    unfolding execute execute_from
    execute-nil_iff w w' = (
      Runs-execute_from [] c.steps w w',
      λ r.
          ap (λ (l : List (Step World Failure)). execute_from [] l w) (sym (append-nil c.steps))
          ∙ execute_from-Runs [] c.steps [] r,
    )

    -- When the steps before one succeed and that one fails, the steps after it are not run, the
    -- completed ones are compensated from the last to the first in the world that the failing step
    -- left, and the error names the failed step and joins what the compensations returned.
    pub execute-compensates :
        (before after : List (Step World Failure)) (step : Step World Failure)
        (act : Action World Failure) (w w₁ w₂ : World) (e : Failure)
        → c.steps ≡ before ++ step ∷ after
        → Runs before w w₁
        → step.execute ≡ some act
        → act w₁ ≡ (w₂, some e)
        → execute c w ≡ (
          (compensate_all (reverse before) w₂ []).0,
          some (failed step.name e (compensate_all (reverse before) w₂ []).1),
        )
    unfolding execute execute_from
    execute-compensates before after step act w w₁ w₂ e split r found fails =
        ap (λ (l : List (Step World Failure)). execute_from [] l w) split
        ∙ execute_from-Runs [] before (step ∷ after) r
        ∙ ground (arith, compensate_reverse-all before w₂)

    -- When the steps before one succeed and that one has no execute function, `Execute` returns its
    -- error in the world that they left: no completed step is compensated.
    pub execute-no_execute :
        (before after : List (Step World Failure)) (step : Step World Failure) (w w₁ : World)
        → c.steps ≡ before ++ step ∷ after
        → Runs before w w₁
        → step.execute ≡ none
        → execute c w ≡ (w₁, some (no_execute step.name))
    unfolding execute execute_from
    execute-no_execute before after step w w₁ split r missing =
        ap (λ (l : List (Step World Failure)). execute_from [] l w) split
        ∙ execute_from-Runs [] before (step ∷ after) r
        ∙ ground arith
