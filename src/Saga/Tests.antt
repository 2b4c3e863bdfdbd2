-- ===== src/Saga/Tests.antt =====
-- Runs of the coordinator on a world that logs what is called, and the theorems at them.
use goplusplus.Prelude.{ℕ, ◌≡◌, refl, ◌↔◌, ◌++◌, List, [], ◌∷◌, Option, none, some}
use goplusplus.Saga.{
  Step, Action, Coordinator, no_execute, failed, new_coordinator, add_step, compensate_step,
  compensate_index, compensate_from, compensate_reverse, execute_from, execute,
}
use goplusplus.Saga.Compensation.{compensate_all, compensate_reverse-all}
use goplusplus.Saga.Execution.{
  Runs, done, next, execute-nil_iff, execute-compensates, execute-no_execute,
}

abbrev Log : Type 0
Log = List ℕ

abbrev call : ℕ → Option ℕ → Action Log ℕ
call n e log = (log ++ n ∷ [], e)

abbrev reserve : Step Log ℕ
reserve = record {
  name = "reserve";
  execute = some (call 1 none);
  compensate = some (call 11 none);
}

abbrev charge : Step Log ℕ
charge = record {
  name = "charge";
  execute = some (call 2 none);
  compensate = some (call 12 (some 7));
}

abbrev ship : Step Log ℕ
ship = record { name = "ship"; execute = some (call 3 (some 9)); compensate = none }

abbrev broken : Step Log ℕ
broken = record { name = "broken"; execute = none; compensate = none }

abbrev order : Coordinator Log ℕ
order = record { steps = reserve ∷ charge ∷ ship ∷ [] }

abbrev bad_order : Coordinator Log ℕ
bad_order = record { steps = reserve ∷ charge ∷ broken ∷ ship ∷ [] }

program : Unit {0}
unfolding new_coordinator add_step compensate_step compensate_index compensate_from
    compensate_reverse execute_from execute compensate_all
program = tt

order_fails :
    execute order [] ≡ (1 ∷ 2 ∷ 3 ∷ 12 ∷ 11 ∷ [], some (failed "ship" 9 (("charge", 7) ∷ [])))
unfolding program
order_fails = refl

two_steps :
    add_step {World = Log} {Failure = ℕ} (add_step new_coordinator "a" none none) "b" none none
    ≡ record {
      steps =
          record { name = "a"; execute = none; compensate = none }
          ∷ (record { name = "b"; execute = none; compensate = none } ∷ []);
    }
unfolding program
two_steps = refl

paid : Runs (reserve ∷ charge ∷ []) [] (1 ∷ 2 ∷ [])
paid = next (call 1 none) refl refl (next (call 2 none) refl refl done)

compensated_in_reverse :
    compensate_reverse (reserve ∷ charge ∷ []) [] ≡ compensate_all (charge ∷ reserve ∷ []) [] []
compensated_in_reverse = compensate_reverse-all (reserve ∷ charge ∷ []) []

execute-nil_iff_example :
    (execute (record { steps = reserve ∷ charge ∷ [] }) [] ≡ (1 ∷ 2 ∷ [], none))
    ↔ Runs (reserve ∷ charge ∷ []) [] (1 ∷ 2 ∷ [])
execute-nil_iff_example = execute-nil_iff (record { steps = reserve ∷ charge ∷ [] }) [] (1 ∷ 2 ∷ [])

execute-compensates_example : execute order [] ≡ (
  (compensate_all (charge ∷ reserve ∷ []) (1 ∷ 2 ∷ 3 ∷ []) []).0,
  some (failed "ship" 9 (compensate_all (charge ∷ reserve ∷ []) (1 ∷ 2 ∷ 3 ∷ []) []).1),
)
execute-compensates_example =
    execute-compensates order (reserve ∷ charge ∷ []) [] ship (call 3 (some 9)) [] (1 ∷ 2 ∷ [])
      (1 ∷ 2 ∷ 3 ∷ []) 9 refl paid refl refl

execute-no_execute_example : execute bad_order [] ≡ (1 ∷ 2 ∷ [], some (no_execute "broken"))
execute-no_execute_example =
    execute-no_execute bad_order (reserve ∷ charge ∷ []) (ship ∷ []) broken [] (1 ∷ 2 ∷ []) refl
      paid refl
