-- ===== src/Headless/Controller.antt =====
-- `run_task` of scripts/headless_orchestrator/controller.py. What the controller calls outside the
-- ledger (the worker process, the reading of its answer, the worktree and the tests) is an argument.
pub mod Steps
pub mod Runs
pub mod Preparing
pub mod Endings
mod Tests
use cine_forge.Prelude.{
  ℕ, zero, suc, String, str_eq, Bool, true, false, ◌&&◌, ◌||◌, not, Option, none, some, List, [],
  ◌∷◌, ◌==◌, any, if◌then◌else◌,
}
use cine_forge.Prelude.Json.{ℤ, pos, negsuc}
use cine_forge.Prelude.Session.{Result, ok, err}
use cine_forge.Headless.Tasks.{TaskStatus, ToolProfile, TaskSpec, allowed, terminal}
use cine_forge.Headless.Ledger.{
  Db, Error, task_failed, Call, pure, raise, ◌>>=◌, ◌>>◌, create_run, record_event, add_task,
  task_status, transition, reserve_slot, attach_pid, heartbeat, release_slot, complete_task,
}

-- How the worker process ended.
pub record WorkerResult : Type 0 where
  pub exit_code : ℤ
  pub timed_out : Bool

-- `status` and the paths of `patches` in a worker's answer.
pub record ImplementationResult : Type 0 where
  pub status : String
  pub patches : List String

-- What the calls outside the ledger come to; `none` and `false` stand for an exception.
pub record World : Type 0 where
  pub prompt_inside : Bool
  pub preflight : Bool
  pub lease_token : String
  pub snapshot_before : Bool
  pub pid : Option ℕ
  pub heartbeats : ℕ
  pub worker : Option WorkerResult
  pub report : Option ImplementationResult
  pub applied : Option (List String)
  pub snapshot_after : Bool
  pub changed : Option (List String)
  pub tests : Option (List (String × ℤ))

abbrev pub require : Bool → String → Call (Unit {0})
require true message = pure tt
require false message = raise (task_failed message)

abbrev pub obtain : {A : Type 0} → Option A → String → Call A
obtain none message = raise (task_failed message)
obtain (some a) message = pure a

abbrev pub is_zero : ℤ → Bool
is_zero (pos n) = n == 0
is_zero (negsuc n) = false

abbrev pub nonempty {ℓ} : {A : Type ℓ} → List A → Bool
nonempty [] = false
nonempty (x ∷ xs) = true

-- `set(xs) == set(ys)`
abbrev pub subset : List String → List String → Bool
subset xs ys = not (any (λ x. not (any (str_eq x) ys)) xs)

abbrev pub same_set : List String → List String → Bool
same_set xs ys = subset xs ys && subset ys xs

abbrev pub is_read_only : ToolProfile → Bool
is_read_only ToolProfile.read_only = true
is_read_only ToolProfile.edit_owned = false

abbrev pub artifact_of : TaskSpec → String × String
artifact_of spec = (spec.run_id, spec.task_id)

-- The callbacks of the worker process while it runs.
abbrev pub on_started : ℕ → TaskSpec → Option ℕ → Call (Unit {0})
on_started now spec none = pure tt
on_started now spec (some pid) = attach_pid now spec.task_id pid

unfoldable pub beats : ℕ → TaskSpec → ℕ → Call (Unit {0})
unfolding heartbeat
beats now spec zero = pure tt
beats now spec (suc n) = do heartbeat now spec.task_id; beats now spec n

-- The tests, up to `passed`.
unfoldable pub test : World → ℕ → TaskSpec → WorkerResult → Call (String × String)
unfolding transition complete_task
test w now spec result = do
  tests ← obtain w.tests "tests"
  complete_task now spec.task_id result.exit_code (some (artifact_of spec))
  require (not (any (λ (t : String × ℤ). not (is_zero t.1)) tests)) "controller tests failed"
  transition now spec.run_id spec.task_id TaskStatus.passed
  pure (artifact_of spec)

-- The checks of the worktree, and then the tests.
unfoldable pub verify :
    World → ℕ → TaskSpec → WorkerResult → ImplementationResult → Call (String × String)
unfolding record_event test
verify w now spec result report = do
  require (not (is_read_only spec.tool_profile && nonempty report.patches))
      "read-only worker returned file patches"
  applied ← if is_read_only spec.tool_profile then pure [] else obtain w.applied "patches"
  require w.snapshot_after "worktree snapshot"
  changed ← obtain w.changed "worktree changes"
  require (is_read_only spec.tool_profile || same_set changed applied)
      "observed worktree changes do not match controller-applied patch paths"
  record_event spec.run_id spec.task_id "worktree_verified" []
  test w now spec result

-- The part behind a worker that ended well, and behind the reading of its answer.
unfoldable pub settle_report :
    World → ℕ → TaskSpec → WorkerResult → ImplementationResult → Call (String × String)
unfolding verify
settle_report w now spec result report = do
  complete_task now spec.task_id result.exit_code (some (artifact_of spec))
  transition now spec.run_id spec.task_id TaskStatus.result_received
  if str_eq report.status "completed"
      then (do
        transition now spec.run_id spec.task_id TaskStatus.verifying
        verify w now spec result report)
      else (do
        transition now spec.run_id spec.task_id
            (if str_eq report.status "blocked" then TaskStatus.blocked else TaskStatus.failed)
        raise (task_failed "Grok reported"))

abbrev pub settle_answer :
    World → ℕ → TaskSpec → WorkerResult → Option ImplementationResult → Call (String × String)
settle_answer w now spec result none = do
  complete_task now spec.task_id result.exit_code (some (artifact_of spec))
  raise (task_failed "invalid answer")
settle_answer w now spec result (some report) = settle_report w now spec result report

-- The body of the `try`.
unfoldable pub attempt : World → ℕ → TaskSpec → Call (String × String)
unfolding transition beats settle_report
attempt w now spec = do
  transition now spec.run_id spec.task_id TaskStatus.running
  require w.snapshot_before "worktree snapshot"
  on_started now spec w.pid
  beats now spec w.heartbeats
  result ← obtain w.worker "worker"
  if not (is_zero result.exit_code) || result.timed_out
      then (do
        complete_task now spec.task_id result.exit_code (some (artifact_of spec))
        transition now spec.run_id spec.task_id TaskStatus.failed
        raise (task_failed "Grok worker failed"))
      else settle_answer w now spec result w.report

-- The `except`: the failure is recorded where the table allows it, and raised again.
unfoldable pub record_failure : {A : Type 0} → ℕ → TaskSpec → Error → Call A
unfolding task_status transition
record_failure now spec e = do
  current ← task_status spec.task_id
  if not (terminal current) && allowed current TaskStatus.failed
      then (do transition now spec.run_id spec.task_id TaskStatus.failed; raise e)
      else raise e

-- `try: … except: … finally: release_slot`
abbrev pub guarded :
    ℕ → TaskSpec → Result Error (String × String) × Db → Result Error (String × String) × Db
guarded now spec (ok a, l) = (ok a, l)
guarded now spec (err e, l) = record_failure now spec e l

abbrev pub released :
    TaskSpec → Result Error (String × String) × Db → Result Error (String × String) × Db
released spec (r, l) = (r, (release_slot spec.task_id l).1)

-- The statements before the `try`: a failure in them is not recorded, and gives up no slot.
unfoldable pub prepare : ℕ → World → ℕ → TaskSpec → Call (Unit {0})
prepare max_grok_workers w now spec = do
  require w.prompt_inside "prompt outside the state root"
  require w.preflight "preflight"
  create_run spec.run_id
  add_task now spec
  transition now spec.run_id spec.task_id TaskStatus.preparing
  reserve_slot now spec.task_id w.lease_token max_grok_workers
  transition now spec.run_id spec.task_id TaskStatus.leased

unfoldable pub run_task : ℕ → World → ℕ → TaskSpec → Call (String × String)
run_task max_grok_workers w now spec = do
  prepare max_grok_workers w now spec
  λ l. released spec (guarded now spec (attempt w now spec l))
