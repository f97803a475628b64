-- ===== src/Planning/States.antt =====
-- backend/app/services/planning/state_machine.py: the statuses of planning runs and of their steps,
-- from backend/app/schemas/orchestration.py, and the changes allowed between them.
use cine_forge.Prelude.{
  ℕ, String, str_eq, Bool, true, false, Option, none, some, List, [], ◌∷◌, ◌==◌, any, find?,
  if◌then◌else◌,
}
use cine_forge.Prelude.Session.{Result, ok, err}

pub data RunStatus : Type 0 where
  pending running completed failed canceled : RunStatus

pub data StepStatus : Type 0 where
  pending running completed failed skipped canceled : StepStatus

-- What a `PlanningError` is raised for, with what its message and details name, and the
-- `IntegrityError` of a flush that breaks a constraint.
pub data Error : Type 0 where
  unknown_status : String → Error
  invalid_run_transition : RunStatus → RunStatus → Error
  invalid_step_transition : StepStatus → StepStatus → Error
  run_not_found : ℕ → Error
  already_terminal : ℕ → RunStatus → Error
  active_run_exists : ℕ → RunStatus → Error
  budget_exhausted : ℕ → ℕ → Error
  integrity_error : Error

abbrev pub run_statuses : List RunStatus
run_statuses =
    RunStatus.pending ∷ RunStatus.running ∷ RunStatus.completed ∷ RunStatus.failed
    ∷ RunStatus.canceled ∷ []

abbrev pub run_value : RunStatus → String
run_value RunStatus.pending = "pending"
run_value RunStatus.running = "running"
run_value RunStatus.completed = "completed"
run_value RunStatus.failed = "failed"
run_value RunStatus.canceled = "canceled"

abbrev pub run_index : RunStatus → ℕ
run_index RunStatus.pending = 0
run_index RunStatus.running = 1
run_index RunStatus.completed = 2
run_index RunStatus.failed = 3
run_index RunStatus.canceled = 4

-- `status == other`
unfoldable pub same_run : RunStatus → RunStatus → Bool
same_run s t = run_index s == run_index t

abbrev pub step_statuses : List StepStatus
step_statuses =
    StepStatus.pending ∷ StepStatus.running ∷ StepStatus.completed ∷ StepStatus.failed
    ∷ StepStatus.skipped ∷ StepStatus.canceled ∷ []

abbrev pub step_value : StepStatus → String
step_value StepStatus.pending = "pending"
step_value StepStatus.running = "running"
step_value StepStatus.completed = "completed"
step_value StepStatus.failed = "failed"
step_value StepStatus.skipped = "skipped"
step_value StepStatus.canceled = "canceled"

abbrev pub step_index : StepStatus → ℕ
step_index StepStatus.pending = 0
step_index StepStatus.running = 1
step_index StepStatus.completed = 2
step_index StepStatus.failed = 3
step_index StepStatus.skipped = 4
step_index StepStatus.canceled = 5

unfoldable pub same_step : StepStatus → StepStatus → Bool
same_step s t = step_index s == step_index t

-- `RUN_TRANSITIONS` and `STEP_TRANSITIONS`
unfoldable pub run_transitions : RunStatus → List RunStatus
run_transitions RunStatus.pending = RunStatus.running ∷ RunStatus.canceled ∷ RunStatus.failed ∷ []
run_transitions RunStatus.running = RunStatus.completed ∷ RunStatus.failed ∷ RunStatus.canceled ∷ []
run_transitions _ = []

unfoldable pub step_transitions : StepStatus → List StepStatus
step_transitions StepStatus.pending =
    StepStatus.running ∷ StepStatus.skipped ∷ StepStatus.canceled ∷ StepStatus.failed ∷ []
step_transitions StepStatus.running =
    StepStatus.completed ∷ StepStatus.failed ∷ StepStatus.canceled ∷ []
step_transitions _ = []

abbrev pub run_allowed : RunStatus → RunStatus → Bool
unfolding same_run run_transitions
run_allowed current target = any (same_run target) (run_transitions current)

abbrev pub step_allowed : StepStatus → StepStatus → Bool
unfolding same_step step_transitions
step_allowed current target = any (same_step target) (step_transitions current)

-- `parse_run_status` and `parse_step_status`
unfoldable pub parse_run_status : String → Result Error RunStatus
parse_run_status text = parsed (find? (λ s. str_eq (run_value s) text) run_statuses)
  where
    parsed : Option RunStatus → Result Error RunStatus
    parsed none = err (unknown_status text)
    parsed (some s) = ok s

unfoldable pub parse_step_status : String → Result Error StepStatus
parse_step_status text = parsed (find? (λ s. str_eq (step_value s) text) step_statuses)
  where
    parsed : Option StepStatus → Result Error StepStatus
    parsed none = err (unknown_status text)
    parsed (some s) = ok s

unfoldable pub assert_run_transition : String → RunStatus → Result Error RunStatus
unfolding parse_run_status same_run
assert_run_transition current target = check (parse_run_status current)
  where
    check : Result Error RunStatus → Result Error RunStatus
    check (err e) = err e
    check (ok cur) =
        if same_run cur target
        then ok cur
        else (if run_allowed cur target then ok cur else err (invalid_run_transition cur target))

unfoldable pub assert_step_transition : String → StepStatus → Result Error StepStatus
unfolding parse_step_status same_step
assert_step_transition current target = check (parse_step_status current)
  where
    check : Result Error StepStatus → Result Error StepStatus
    check (err e) = err e
    check (ok cur) =
        if same_step cur target
        then ok cur
        else (if step_allowed cur target then ok cur else err (invalid_step_transition cur target))

-- `cur in TERMINAL_RUN_STATUSES` and the two other sets.
abbrev pub run_terminal : RunStatus → Bool
run_terminal RunStatus.pending = false
run_terminal RunStatus.running = false
run_terminal _ = true

abbrev pub step_terminal : StepStatus → Bool
step_terminal StepStatus.pending = false
step_terminal StepStatus.running = false
step_terminal _ = true

abbrev pub run_active : RunStatus → Bool
run_active RunStatus.pending = true
run_active RunStatus.running = true
run_active _ = false
