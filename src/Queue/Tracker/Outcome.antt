-- ===== src/Queue/Tracker/Outcome.antt =====
-- What becomes of a task.
use goplusplus.Prelude.{
  ℕ, zero, suc, ◌≡◌, refl, sym, subst, ◌∙◌, ◌+◌, ◌-◌, String, false, Option, none, some, str_eq,
  arith, Option-cases, inl, inr,
}
use goplusplus.Prelude.Int.{ℤ, positive_or}
use goplusplus.Prelude.Map.{lookup, assign, lookup-assign, lookup-assign_self}
use goplusplus.Queue.Tracker.{
  TaskInfo, status_completed, status_failed, TaskTracker, new_task, update, started, finished,
  troubled, exhausted, run_from, dispatch, get_status,
}

update-lookup :
    (tracker : TaskTracker) (id : String) (change : TaskInfo → TaskInfo) (info : TaskInfo)
    → lookup tracker id ≡ some info
    → lookup (update tracker id change) id ≡ some (change info)
unfolding update
update-lookup tracker id change info present =
    rw (present, update) (lookup-assign_self tracker id (change info))

update-other :
    (tracker : TaskTracker) (id j : String) (change : TaskInfo → TaskInfo)
    → str_eq id j ≡ false
    → lookup (update tracker id change) j ≡ lookup tracker j
unfolding update
update-other tracker id j change other = elim (Option-cases (lookup tracker id)) [
  | inl absent ↦ rw (absent, update) refl
  | inr (info, present) ↦ rw (present, update, lookup-assign tracker id (change info) j, other) refl
]

abbrev pub one_later : Option ℕ → Option ℕ
one_later none = none
one_later (some k) = some (suc k)

started-retries :
    (attempt : ℕ) (info : TaskInfo)
    → info.retries ≡ attempt - 1
    → (started attempt info).retries ≡ attempt
started-retries attempt info counted = ground (arith, counted)

module _ {World : Type 0} (fn : World → World × Option String) (clock : ℕ → ℤ) where
  -- The first of n attempts that succeeds.
  abbrev pub first_success : ℕ → World → Option ℕ
  first_success zero w = none
  first_success (suc n) w = elim (fn w).1 [
    | none ↦ some 0
    | some message ↦ one_later (first_success n (fn w).0)
  ]

  -- The state of a task whose attempts from `attempt` on, `left` in number, come to `result`.
  abbrev pub IsOutcome : ℕ → ℕ → Option ℕ → TaskInfo → Type 0
  IsOutcome attempt left none info =
      (info.status ≡ status_failed) × (info.retries ≡ attempt + left - 1)
  IsOutcome attempt left (some k) info =
      (info.status ≡ status_completed)
      × (info.retries ≡ attempt + k)
      × (info.completed_at ≡ some (clock (attempt + k)))

  first_success-ok : (n : ℕ) (w : World) → (fn w).1 ≡ none → first_success (suc n) w ≡ some 0
  first_success-ok n w ok = rw (ok, first_success) refl

  first_success-err :
      (n : ℕ) (w : World) (message : String)
      → (fn w).1 ≡ some message
      → first_success (suc n) w ≡ one_later (first_success n (fn w).0)
  first_success-err n w message err = rw (err, first_success) refl

  IsOutcome-now :
      (attempt left : ℕ) (info : TaskInfo)
      → info.status ≡ status_completed
      → info.retries ≡ attempt
      → info.completed_at ≡ some (clock attempt)
      → IsOutcome attempt left (some 0) info
  IsOutcome-now attempt left info done counted timed = (
    done,
    omega (arith, counted),
    subst (λ n. info.completed_at ≡ some (clock n)) {x = attempt} (omega arith) timed,
  )

  IsOutcome-later :
      (attempt left : ℕ) (result : Option ℕ) (info : TaskInfo)
      → IsOutcome (attempt + 1) left result info
      → IsOutcome attempt (suc left) (one_later result) info
  IsOutcome-later attempt left none info (failed, counted) = (failed, omega (arith, counted))
  IsOutcome-later attempt left (some k) info (done, counted, timed) = (
    done,
    omega (arith, counted),
    subst (λ n. info.completed_at ≡ some (clock n)) (shift k) timed,
  )
    where
      shift : (k : ℕ) → attempt + 1 + k ≡ attempt + suc k
      shift k = omega arith

  run_from-IsOutcome :
      (left attempt : ℕ) (id : String) (tracker : TaskTracker) (w : World) (info : TaskInfo)
      → lookup tracker id ≡ some info
      → info.retries ≡ attempt - 1
      → (result : TaskInfo) × (lookup (run_from fn clock left attempt id tracker w).0 id
          ≡ some result)
        × IsOutcome attempt left (first_success left w) result
  unfolding run_from
  run_from-IsOutcome zero attempt id tracker w info present counted = (
    exhausted info,
    update-lookup tracker id exhausted info present,
    (refl, omega (arith, counted)),
  )
  run_from-IsOutcome (suc left) attempt id tracker w info present counted =
      let started_now = update-lookup tracker id (started attempt) info present in
      elim (Option-cases (fn w).1) [
        | inl ok ↦
            rw (ok, run_from)
              (
                finished (clock attempt) (started attempt info),
                update-lookup (update tracker id (started attempt)) id (finished (clock attempt))
                    (started attempt info) started_now,
                subst
                    (λ r.
                      IsOutcome attempt (suc left) r
                        (finished (clock attempt) (started attempt info)))
                    (sym (first_success-ok left w ok))
                    (IsOutcome-now attempt (suc left)
                      (finished (clock attempt) (started attempt info)) refl
                      (started-retries attempt info counted) refl),
              )
        | inr (message, err) ↦
            let (result, found, outcome) =
              run_from-IsOutcome left (attempt + 1) id
                (update (update tracker id (started attempt)) id (troubled message)) (fn w).0
                (troubled message (started attempt info))
                (update-lookup (update tracker id (started attempt)) id (troubled message)
                  (started attempt info) started_now)
                (omega (arith, started-retries attempt info counted)) in
            rw (err, run_from)
              (
                result,
                found,
                subst (λ r. IsOutcome attempt (suc left) r result)
                    (sym (first_success-err left w message err))
                    (IsOutcome-later attempt left (first_success left (fn w).0) result outcome),
              )
      ]

  run_from-other :
      (left attempt : ℕ) (id j : String) (tracker : TaskTracker) (w : World)
      → str_eq id j ≡ false
      → lookup (run_from fn clock left attempt id tracker w).0 j ≡ lookup tracker j
  unfolding run_from
  run_from-other zero attempt id j tracker w other = update-other tracker id j exhausted other
  run_from-other (suc left) attempt id j tracker w other =
      let begun = update-other tracker id j (started attempt) other in
      elim (Option-cases (fn w).1) [
        | inl ok ↦
            rw (ok, run_from)
              (update-other (update tracker id (started attempt)) id j (finished (clock attempt))
                  other
                ∙ begun)
        | inr (message, err) ↦
            rw (err, run_from)
              (run_from-other left (attempt + 1) id j
                  (update (update tracker id (started attempt)) id (troubled message)) (fn w).0
                  other
                ∙ update-other (update tracker id (started attempt)) id j (troubled message) other
                ∙ begun)
      ]

  -- A dispatched task whose identifier no other task has ends, after its goroutine, as completed
  -- with the number of its first attempt that succeeded, the first being 0, or as failed with as many
  -- retries as were allowed, three if the bound given is not positive. No other task changes.
  pub dispatch-IsOutcome :
      (id name : String) (max_retries created_at : ℤ) (tracker : TaskTracker) (w : World)
      → ((result : TaskInfo) × (get_status
              (dispatch fn clock id name max_retries created_at tracker w).0
              id
            ≡ some result)
          × IsOutcome 0
              (suc (positive_or max_retries 3))
              (first_success (suc (positive_or max_retries 3)) w)
              result)
        × ((j : String)
            → str_eq id j ≡ false
            → get_status (dispatch fn clock id name max_retries created_at tracker w).0 j
              ≡ get_status tracker j)
  unfolding dispatch get_status
  dispatch-IsOutcome id name max_retries created_at tracker w =
      let n : ℕ = positive_or max_retries 3 in
      let info = new_task id name n created_at in
      (
        run_from-IsOutcome (suc n) 0 id (assign tracker id info) w info
            (lookup-assign_self tracker id info) (omega arith),
        λ j other.
            run_from-other (suc n) 0 id j (assign tracker id info) w other
            ∙ rw (lookup-assign tracker id info j, other) refl,
      )
