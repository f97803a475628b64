-- ===== src/Headless/Tasks.antt =====
-- scripts/headless_orchestrator/models.py: the statuses of tasks, and what a task specifies.
use cine_forge.Prelude.{ℕ, String, Bool, true, false, List, [], ◌∷◌, ◌==◌, any}

pub data TaskStatus : Type 0 where
  queued preparing leased running result_received verifying passed retry_wait : TaskStatus
  blocked failed cancel_requested canceled invalidated : TaskStatus

pub data ToolProfile : Type 0 where
  read_only edit_owned : ToolProfile

abbrev pub index : TaskStatus → ℕ
index TaskStatus.queued = 0
index TaskStatus.preparing = 1
index TaskStatus.leased = 2
index TaskStatus.running = 3
index TaskStatus.result_received = 4
index TaskStatus.verifying = 5
index TaskStatus.passed = 6
index TaskStatus.retry_wait = 7
index TaskStatus.blocked = 8
index TaskStatus.failed = 9
index TaskStatus.cancel_requested = 10
index TaskStatus.canceled = 11
index TaskStatus.invalidated = 12

unfoldable pub same : TaskStatus → TaskStatus → Bool
same s t = index s == index t

-- `TERMINAL_STATUSES`
abbrev pub terminal : TaskStatus → Bool
terminal TaskStatus.passed = true
terminal TaskStatus.blocked = true
terminal TaskStatus.failed = true
terminal TaskStatus.canceled = true
terminal TaskStatus.invalidated = true
terminal _ = false

unfoldable pub valid_transitions : TaskStatus → List TaskStatus
valid_transitions TaskStatus.queued = TaskStatus.preparing ∷ TaskStatus.cancel_requested ∷ []
valid_transitions TaskStatus.preparing =
    TaskStatus.leased ∷ TaskStatus.blocked ∷ TaskStatus.failed ∷ TaskStatus.cancel_requested ∷ []
valid_transitions TaskStatus.leased =
    TaskStatus.running ∷ TaskStatus.failed ∷ TaskStatus.cancel_requested ∷ []
valid_transitions TaskStatus.running =
    TaskStatus.result_received ∷ TaskStatus.retry_wait ∷ TaskStatus.blocked ∷ TaskStatus.failed
    ∷ TaskStatus.cancel_requested ∷ []
valid_transitions TaskStatus.result_received =
    TaskStatus.verifying ∷ TaskStatus.blocked ∷ TaskStatus.failed ∷ []
valid_transitions TaskStatus.verifying =
    TaskStatus.passed ∷ TaskStatus.retry_wait ∷ TaskStatus.blocked ∷ TaskStatus.failed ∷ []
valid_transitions TaskStatus.retry_wait = TaskStatus.queued ∷ TaskStatus.cancel_requested ∷ []
valid_transitions TaskStatus.cancel_requested = TaskStatus.canceled ∷ []
valid_transitions TaskStatus.passed = TaskStatus.invalidated ∷ []
valid_transitions _ = []

-- `target in VALID_TRANSITIONS[current]`
unfoldable pub allowed : TaskStatus → TaskStatus → Bool
unfolding same valid_transitions
allowed current target = any (same target) (valid_transitions current)

-- The fields that the controller reads; the worktree, the prompt, the expected commit and the
-- required tests only go to code that the controller calls.
pub record TaskSpec : Type 0 where
  pub run_id : String
  pub task_id : String
  pub role : String
  pub tool_profile : ToolProfile
