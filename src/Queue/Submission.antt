-- ===== src/Queue/Submission.antt =====
-- backend/app/services/comfy/submission.py: handing a reserved job to ComfyUI. The adapter is a
-- parameter: it answers with JSON or raises. While the adapter is awaited, other
-- sessions may change the database: `meanwhile` is what they do.
pub mod Outcomes
use cine_forge.Prelude.{
  ℕ, String, str_eq, Bool, true, false, Option, none, some, List, [], ◌∷◌, ◌++◌, not, ◌&&◌,
  if◌then◌else◌,
}
use cine_forge.Prelude.Json.{ℤ, pos, Json, Fields, truthy, get}
use cine_forge.Queue.Status
use cine_forge.Queue.Status.{QueueStatus}
use cine_forge.Queue.Machine.{
  ok, err, or_raise, attribute_error, adapter_not_configured, submission_job_not_found,
  submission_run_not_found,
}
use cine_forge.Queue.Store.{
  Problem, ErrorMessage, joined, exception, node_errors, missing_prompt_id, ComfyJob, WorkflowRun,
  AuditLog, Value, Db, Session, M, pure, raise, gets, lift, ◌>>=◌, ◌>>◌, commit, get_job, get_run,
  set_job, set_run, add_audit,
}
use cine_forge.Queue.Service.{comfy_job_audit, is_holder, transition_job}
use cine_forge.Queue.Readiness.{Check, SubmissionReadinessResult, evaluate_submission_readiness}

-- What `submit_prompt` comes to: it returns whatever JSON the response holds, and `unsupported` is
-- JSON that is not an object, which has no `get`.
pub data Answer : Type 0 where
  raised : String → Answer
  responded : Fields → Answer
  unsupported : Answer

abbrev pub Adapter : Type 0
Adapter = Json → String → Answer

pub record ControlledSubmissionResult : Type 0 where
  pub submitted : Bool
  pub job_id : ℕ
  pub worker_id : String
  pub status : String
  pub code : String
  pub prompt_id : Option String
  pub queue_number : Option ℤ
  pub errors : List ErrorMessage

-- `_require_job` and `_require_workflow_run`
unfoldable pub require_job : ℕ → M ComfyJob
require_job i = do found ← gets (get_job i); lift (or_raise found (submission_job_not_found i))

unfoldable pub require_workflow_run : ℕ → M WorkflowRun
require_workflow_run i = do
  found ← gets (get_run i)
  lift (or_raise found (submission_run_not_found i))

abbrev pub failure_audit :
    QueueStatus → String → String → ErrorMessage → String → ComfyJob → AuditLog
failure_audit target action reason message worker job = comfy_job_audit job.id action (
    ("previous_state", Value.text (Status.value job.status))
    ∷ ("new_state", Value.text (Status.value target))
    ∷ ("reason", Value.text reason)
    ∷ ("actor", Value.text "worker")
    ∷ ("worker_id", Value.text worker)
    ∷ ("error_message", Value.message message)
    ∷ [])

-- `_mark_submission_failure`. `job` is the object as it was loaded: only the columns that are
-- assigned are written to the row.
unfoldable pub mark_submission_failure :
    ℕ → ComfyJob → QueueStatus → String → String → ErrorMessage → String → M (Unit {0})
unfolding require_workflow_run
mark_submission_failure now job target action reason message worker = do
  set_job job.id (λ j. record j {
    status = target;
    error_message = some message;
    last_state_change_at = some now;
  })
  run ← require_workflow_run job.workflow_run_id
  set_run run.id (λ r. record r { status = Status.value target })
  add_audit (failure_audit target action reason message worker job)
  commit

abbrev pub queue_value : Option ℤ → Value
queue_value none = Value.null
queue_value (some n) = Value.integer n

abbrev pub submitted_audit : String → Option ℤ → String → ComfyJob → AuditLog
submitted_audit prompt number worker job = comfy_job_audit job.id "worker_prompt_submission" (
    ("previous_state", Value.text (Status.value job.status))
    ∷ ("new_state", Value.text (Status.value QueueStatus.submitted))
    ∷ ("reason", Value.text "controlled worker prompt submission")
    ∷ ("actor", Value.text "worker")
    ∷ ("worker_id", Value.text worker)
    ∷ ("prompt_id", Value.text prompt)
    ∷ ("queue_number", queue_value number)
    ∷ [])

-- `_mark_submitted`
unfoldable pub mark_submitted : ℕ → ComfyJob → String → Option ℤ → String → String → M (Unit {0})
unfolding require_workflow_run
mark_submitted now job prompt number client worker = do
  set_job job.id (λ j. record j {
    status = QueueStatus.submitted;
    prompt_id = some prompt;
    queue_number = number;
    client_id = some client;
    submitted_at = some now;
    last_state_change_at = some now;
  })
  run ← require_workflow_run job.workflow_run_id
  set_run run.id (λ r. record r { status = Status.value QueueStatus.submitted })
  add_audit (submitted_audit prompt number worker job)
  commit

-- `_mark_validation_failed_if_worker_owned_reserved`
abbrev pub fail_readiness : ℕ → SubmissionReadinessResult → M (Unit {0})
fail_readiness now r = do
  transition_job now r.job_id "validating" "controlled submission readiness failed" "worker"
      (some r.worker_id)
  job ← require_job r.job_id
  mark_submission_failure now job QueueStatus.validation_failed "worker_submission_readiness_failed"
      "controlled submission readiness failed" (joined r.errors) r.worker_id

abbrev pub fail_if_holder : ℕ → SubmissionReadinessResult → Option ComfyJob → M (Unit {0})
fail_if_holder now r none = pure tt
fail_if_holder now r (some job) =
    if is_holder r.worker_id job then fail_readiness now r else pure tt

unfoldable pub mark_validation_failed : ℕ → SubmissionReadinessResult → M (Unit {0})
unfolding transition_job require_job mark_submission_failure
mark_validation_failed now r = do found ← gets (get_job r.job_id); fail_if_holder now r found

-- `prompt_id` where it is a string that is not empty.
abbrev pub prompt_of : Json → Option String
prompt_of (Json.text t) = if str_eq t "" then none else some t
prompt_of _ = none

-- `number` where it is an `int`; a `bool` is one.
abbrev pub number_of : Json → Option ℤ
number_of (Json.int n) = some n
number_of (Json.boolean true) = some (pos 1)
number_of (Json.boolean false) = some (pos 0)
number_of _ = none

abbrev pub refused : ℕ → String → String → String → List ErrorMessage → ControlledSubmissionResult
refused job_id worker status code errors = record {
  submitted = false;
  job_id = job_id;
  worker_id = worker;
  status = status;
  code = code;
  prompt_id = none;
  queue_number = none;
  errors = errors;
}

abbrev pub accepted : ℕ → String → String → Option ℤ → ControlledSubmissionResult
accepted job_id worker prompt number = record {
  submitted = true;
  job_id = job_id;
  worker_id = worker;
  status = Status.value QueueStatus.submitted;
  code = "submitted";
  prompt_id = some prompt;
  queue_number = number;
  errors = [];
}

-- The part of `submit_reserved_job` behind the answer, from the prompt's identifier on.
unfoldable pub settle_prompt :
    ℕ → ComfyJob → ℕ → String → String → Option ℤ → Option String → M ControlledSubmissionResult
unfolding mark_submission_failure mark_submitted
settle_prompt now job job_id worker client number none = do
  mark_submission_failure now job QueueStatus.comfy_rejected "worker_prompt_rejected"
      "controlled submission response missing prompt_id" missing_prompt_id worker
  pure (
      refused job_id worker (Status.value QueueStatus.comfy_rejected) "missing_prompt_id"
        (missing_prompt_id ∷ []))
settle_prompt now job job_id worker client number (some prompt) = do
  mark_submitted now job prompt number client worker
  pure (accepted job_id worker prompt number)

-- The part behind the answer.
unfoldable pub settle : ℕ → ComfyJob → ℕ → String → String → Answer → M ControlledSubmissionResult
unfolding mark_submission_failure settle_prompt
settle now job job_id worker client (raised message) = do
  mark_submission_failure now job QueueStatus.comfy_rejected "worker_prompt_rejected"
      "controlled submission adapter rejected prompt" (exception message) worker
  pure (
      refused job_id worker (Status.value QueueStatus.comfy_rejected) "comfy_rejected"
        (exception message ∷ []))
settle now job job_id worker client (responded response) =
    if truthy (get "node_errors" response)
    then (do
      mark_submission_failure now job QueueStatus.validation_failed "worker_prompt_node_errors"
          "controlled submission returned node_errors" (node_errors (get "node_errors" response))
          worker
      pure (
          refused job_id worker (Status.value QueueStatus.validation_failed) "node_errors"
            (node_errors (get "node_errors" response) ∷ [])))
    else settle_prompt now job job_id worker client (number_of (get "number" response))
        (prompt_of (get "prompt_id" response))
settle now job job_id worker client unsupported = raise attribute_error

-- What other sessions commit while the adapter is awaited.
abbrev pub await : (Db → Db) → M (Unit {0})
await meanwhile s = (ok tt, record s { db = meanwhile s.db; durable = meanwhile s.durable })

-- The part behind a passed readiness check.
unfoldable pub submit_ready :
    Adapter → (Db → Db) → ℕ → ℕ → String → String → M ControlledSubmissionResult
unfolding transition_job require_job require_workflow_run settle
submit_ready adapter meanwhile now job_id worker client = do
  transition_job now job_id "validating" "controlled submission readiness passed" "worker"
      (some worker)
  job ← require_job job_id
  run ← require_workflow_run job.workflow_run_id
  let answer = adapter run.patched_workflow_json client
  await meanwhile
  settle now job job_id worker client answer

abbrev pub submit_checked :
    Adapter → (Db → Db) → ℕ → String → SubmissionReadinessResult → M ControlledSubmissionResult
submit_checked adapter meanwhile now client r =
    if r.ready then submit_ready adapter meanwhile now r.job_id r.worker_id client else (do
      mark_validation_failed now r
      pure (refused r.job_id r.worker_id "validation_failed" r.code (joined r.errors ∷ [])))

unfoldable pub submit_reserved_job :
    Option Adapter → Check → (Db → Db) → ℕ → ℕ → String → String → M ControlledSubmissionResult
submit_reserved_job none check meanwhile now job_id worker client = raise adapter_not_configured
submit_reserved_job (some adapter) check meanwhile now job_id worker client = do
  readiness ← gets (evaluate_submission_readiness check now job_id worker)
  submit_checked adapter meanwhile now client readiness
