-- ===== src/Queue/Tracker/Tests.antt =====
-- A task that succeeds at its second attempt and one that never does.
use goplusplus.Prelude.{
  ℕ, suc, ◌≡◌, refl, ◌*◌, String, false, Option, none, some, if◌then◌else◌, ltb, str_eq,
}
use goplusplus.Prelude.Int.{ℤ, pos, positive_or}
use goplusplus.Prelude.Map.{lookup, assign}
use goplusplus.Queue.Tracker.{
  TaskInfo, status_completed, status_failed, new_task_tracker, update, run_from, dispatch,
  get_status,
}
use goplusplus.Queue.Tracker.Outcome.{first_success, IsOutcome, dispatch-IsOutcome}

program : Unit {0}
unfolding positive_or lookup assign update run_from dispatch get_status
program = tt

abbrev second_time : ℕ → ℕ × Option String
second_time w = (suc w, if ltb w 1 then some "busy" else none)

abbrev never : ℕ → ℕ × Option String
never w = (suc w, some "down")

abbrev clock : ℕ → ℤ
clock attempt = pos (10 * attempt)

completes :
    get_status
      (dispatch second_time clock "task_1" "mail" (pos 2) (pos 0) new_task_tracker 0).0
      "task_1"
    ≡ some (record {
      id = "task_1";
      name = "mail";
      status = status_completed;
      retries = 1;
      max_retries = 2;
      last_error = "busy";
      created_at = pos 0;
      completed_at = some (pos 10);
    })
unfolding program
completes = refl

-- Three retries by default: four calls.
fails :
    ((dispatch never clock "task_1" "mail" (pos 0) (pos 0) new_task_tracker 0).1 ≡ 4)
    × (get_status
          (dispatch never clock "task_1" "mail" (pos 0) (pos 0) new_task_tracker 0).0
          "task_1"
        ≡ some (record {
          id = "task_1";
          name = "mail";
          status = status_failed;
          retries = 3;
          max_retries = 3;
          last_error = "down";
          created_at = pos 0;
          completed_at = none;
        }))
unfolding program
fails = (refl, refl)

dispatch-IsOutcome_example :
    ((result : TaskInfo) × (get_status
          (dispatch never clock "task_1" "mail" (pos 2) (pos 0) new_task_tracker 0).0
          "task_1"
        ≡ some result)
      × IsOutcome never clock 0
          (suc (positive_or (pos 2) 3))
          (first_success never clock (suc (positive_or (pos 2) 3)) 0)
          result)
    × ((j : String)
        → str_eq "task_1" j ≡ false
        → get_status (dispatch never clock "task_1" "mail" (pos 2) (pos 0) new_task_tracker 0).0 j
          ≡ get_status new_task_tracker j)
dispatch-IsOutcome_example =
    dispatch-IsOutcome never clock "task_1" "mail" (pos 2) (pos 0) new_task_tracker 0
