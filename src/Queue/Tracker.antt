-- ===== src/Queue/Tracker.antt =====
-- queue/task_tracker.go. A task's function acts on a world and may fail; a panic that executeTask
-- recovers is a failure. Each section that holds the lock is a function; `clock` is the reading
-- when an attempt has succeeded. Log lines and the pauses between attempts are left out.
pub mod Outcome
mod Tests
use goplusplus.Prelude.{ℕ, zero, suc, ◌+◌, String, Option, none, some, [], if◌then◌else◌, ltb}
use goplusplus.Prelude.Int.{ℤ, positive_or}
use goplusplus.Prelude.Map.{Map, lookup, assign}

pub data TaskStatus : Type 0 where
  status_pending status_running status_completed status_failed status_retrying : TaskStatus

pub record TaskInfo : Type 0 where
  pub id : String
  pub name : String
  pub status : TaskStatus
  pub retries : ℕ
  pub max_retries : ℕ
  pub last_error : String
  pub created_at : ℤ
  pub completed_at : Option ℤ

abbrev pub TaskTracker : Type 0
TaskTracker = Map TaskInfo

abbrev pub new_task_tracker : TaskTracker
new_task_tracker = []

abbrev pub new_task : String → String → ℕ → ℤ → TaskInfo
new_task id name max_retries created_at = record {
  id = id;
  name = name;
  status = status_pending;
  retries = 0;
  max_retries = max_retries;
  last_error = "";
  created_at = created_at;
  completed_at = none;
}

-- tt.tasks[id].Field = value. No task is ever removed, so the key is there.
unfoldable pub update : TaskTracker → String → (TaskInfo → TaskInfo) → TaskTracker
update tracker id change = elim (lookup tracker id) [
  | none ↦ tracker
  | some info ↦ assign tracker id (change info)
]

abbrev pub started : ℕ → TaskInfo → TaskInfo
started attempt info =
    if ltb 0 attempt
    then record info { status = status_retrying; retries = attempt }
    else record info { status = status_running }

abbrev pub finished : ℤ → TaskInfo → TaskInfo
finished now info = record info { status = status_completed; completed_at = some now }

abbrev pub troubled : String → TaskInfo → TaskInfo
troubled message info = record info { last_error = message }

abbrev pub exhausted : TaskInfo → TaskInfo
exhausted info = record info { status = status_failed }

module _ {World : Type 0} (fn : World → World × Option String) (clock : ℕ → ℤ) where
  -- The goroutine's loop, with the number of attempts left.
  unfoldable pub run_from : ℕ → ℕ → String → TaskTracker → World → TaskTracker × World
  run_from zero attempt id tracker w = (update tracker id exhausted, w)
  run_from (suc left) attempt id tracker w =
      let tracker' = update tracker id (started attempt) in
      let (w', err) = fn w in
      elim err [
        | none ↦ (update tracker' id (finished (clock attempt)), w')
        | some message ↦ run_from left (attempt + 1) id (update tracker' id (troubled message)) w'
      ]

  -- Dispatch with its goroutine, run to the end. The identifier is made from the clock, `task_` and
  -- the nanoseconds.
  unfoldable pub dispatch : String → String → ℤ → ℤ → TaskTracker → World → TaskTracker × World
  dispatch id name max_retries created_at tracker w =
      let retries = positive_or max_retries 3 in
      run_from (suc retries) 0 id (assign tracker id (new_task id name retries created_at)) w

-- GetStatus
unfoldable pub get_status : TaskTracker → String → Option TaskInfo
get_status tracker id = lookup tracker id
