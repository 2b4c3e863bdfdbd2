-- ===== src/Saga.antt =====
-- saga/saga.go: the process-local saga coordinator. A step's functions are state transformers over
-- the world that they change, and `none` is a nil function or a nil error. Log lines are left out.
pub mod Compensation
pub mod Execution
mod Tests
use goplusplus.Prelude.{
  ℕ, zero, suc, String, List, [], ◌∷◌, ◌++◌, Option, none, some, length, get_elem?,
}

-- func(ctx context.Context) error
abbrev pub Action : Type 0 → Type 0 → Type 0
Action World Failure = World → World × Option Failure

pub record Step (World Failure : Type 0) : Type 0 where
  pub name : String
  pub execute : Option (Action World Failure)
  pub compensate : Option (Action World Failure)

pub record Coordinator (World Failure : Type 0) : Type 0 where
  pub steps : List (Step World Failure)

-- The errors that `Execute` returns. `failed` joins the step's error with the errors of the
-- compensations, in the order in which they were met; with none of these it is the step's alone.
pub data SagaError (Failure : Type 0) : Type 0 where
  no_execute : String → SagaError Failure
  failed : String → Failure → List (String × Failure) → SagaError Failure

module _ {World Failure : Type 0} where
  unfoldable pub new_coordinator : Coordinator World Failure
  new_coordinator = record { steps = [] }

  unfoldable pub add_step :
      Coordinator World Failure
      → String
      → Option (Action World Failure)
      → Option (Action World Failure)
      → Coordinator World Failure
  add_step c name execute compensate = record {
    steps = c.steps ++ record { name = name; execute = execute; compensate = compensate } ∷ [];
  }

  -- One round of the loop of `compensateReverse`.
  unfoldable pub compensate_step :
      Step World Failure → World → List (String × Failure) → World × List (String × Failure)
  compensate_step step w errors = elim step.compensate [
    | none ↦ (w, errors)
    | some undo ↦
        let (w', err) = undo w in
        elim err [ none ↦ (w', errors) | some e ↦ (w', errors ++ (step.name, e) ∷ []) ]
  ]

  unfoldable pub compensate_index :
      ℕ
      → List (Step World Failure)
      → World
      → List (String × Failure)
      → World × List (String × Failure)
  compensate_index i executed w errors = elim (get_elem? executed i) [
    | none ↦ (w, errors)
    | some step ↦ compensate_step step w errors
  ]

  -- for i := n - 1; i >= 0; i--, where no index is out of range.
  unfoldable pub compensate_from :
      ℕ
      → List (Step World Failure)
      → World
      → List (String × Failure)
      → World × List (String × Failure)
  compensate_from zero executed w errors = (w, errors)
  compensate_from (suc i) executed w errors =
      let (w', errors') = compensate_index i executed w errors in
      compensate_from i executed w' errors'

  unfoldable pub compensate_reverse :
      List (Step World Failure) → World → World × List (String × Failure)
  compensate_reverse executed w = compensate_from (length executed) executed w []

  -- The loop of `Execute`, with the steps done so far.
  unfoldable pub execute_from :
      List (Step World Failure)
      → List (Step World Failure)
      → World
      → World × Option (SagaError Failure)
  execute_from executed [] w = (w, none)
  execute_from executed (step ∷ steps) w = elim step.execute [
    | none ↦ (w, some (no_execute step.name))
    | some act ↦
        let (w', err) = act w in
        elim err [
          | none ↦ execute_from (executed ++ step ∷ []) steps w'
          | some e ↦
              let (w'', errors) = compensate_reverse executed w' in
              (w'', some (failed step.name e errors))
        ]
  ]

  unfoldable pub execute : Coordinator World Failure → World → World × Option (SagaError Failure)
  execute c w = execute_from [] c.steps w
