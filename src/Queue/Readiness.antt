-- ===== src/Queue/Readiness.antt =====
-- `evaluate_submission_readiness` of backend/app/services/queue/service.py. The object info cache
-- is given by what its check of a workflow against a manifest raises.
pub mod Conditions
use cine_forge.Prelude.{
  ℕ, String, str_eq, Bool, true, false, Option, none, some, List, [], ◌∷◌, ◌++◌, ◌&&◌, not,
  if◌then◌else◌,
}
use cine_forge.Prelude.Json.{Json, truthy}
use cine_forge.Queue.Status
use cine_forge.Queue.Status.{QueueStatus}
use cine_forge.Queue.Store.{
  Problem, not_found, not_reserved, other_worker, has_prompt_id, missing_workflow, missing_manifest,
  run_not_found, template_not_found, incompatible, ComfyJob, WorkflowRun, WorkflowTemplate, Db,
  get_job, get_run, get_template,
}
use cine_forge.Queue.Service.{held_by}

pub record SubmissionReadinessResult : Type 0 where
  pub ready : Bool
  pub job_id : ℕ
  pub worker_id : String
  pub code : String
  pub errors : List Problem
  pub checked_at : ℕ

-- `_submission_readiness_result`
unfoldable pub readiness_result : ℕ → String → ℕ → List Problem → SubmissionReadinessResult
readiness_result job_id worker checked_at [] = record {
  ready = true;
  job_id = job_id;
  worker_id = worker;
  code = "ready";
  errors = [];
  checked_at = checked_at;
}
readiness_result job_id worker checked_at (p ∷ ps) = record {
  ready = false;
  job_id = job_id;
  worker_id = worker;
  code = "preflight_failed";
  errors = p ∷ ps;
  checked_at = checked_at;
}

abbrev pub report_if : Bool → Problem → List Problem
report_if true p = p ∷ []
report_if false p = []

-- `bool(job.prompt_id)`
abbrev pub has_text : Option String → Bool
has_text none = false
has_text (some t) = not (str_eq t "")

abbrev pub job_problems : String → ComfyJob → List Problem
job_problems worker job =
    report_if (not (Status.same job.status QueueStatus.reserved))
      (not_reserved (Status.value job.status))
    ++ (report_if (not (held_by worker job.worker_id)) other_worker
        ++ report_if (has_text job.prompt_id) has_prompt_id)

-- `WorkflowManifest.model_validate` and `validate_patched_workflow_manifest`: the text of the
-- exception that they raise, if they do.
abbrev pub Check : Type 0
Check = Json → Json → Option String

abbrev pub compatibility : Check → WorkflowRun → WorkflowTemplate → List Problem
compatibility check run template =
    if truthy run.patched_workflow_json && truthy template.manifest_json
    then elim (check run.patched_workflow_json template.manifest_json) [
      | none ↦ []
      | some message ↦ incompatible message ∷ []
    ]
    else []

abbrev pub template_problems : Check → WorkflowRun → Option WorkflowTemplate → List Problem
template_problems check run none = template_not_found run.workflow_template_id ∷ []
template_problems check run (some template) =
    report_if (not (truthy template.manifest_json)) missing_manifest
    ++ compatibility check run template

abbrev pub run_problems : Check → Db → ℕ → Option WorkflowRun → List Problem
run_problems check db i none = run_not_found i ∷ []
run_problems check db i (some run) =
    report_if (not (truthy run.patched_workflow_json)) missing_workflow
    ++ template_problems check run (get_template run.workflow_template_id db)

abbrev pub readiness_of : Check → ℕ → ℕ → String → Db → Option ComfyJob → SubmissionReadinessResult
readiness_of check now job_id worker db none = record {
  ready = false;
  job_id = job_id;
  worker_id = worker;
  code = "job_not_found";
  errors = not_found job_id ∷ [];
  checked_at = now;
}
readiness_of check now job_id worker db (some job) = readiness_result job_id worker now (
    job_problems worker job
    ++ run_problems check db job.workflow_run_id (get_run job.workflow_run_id db))

unfoldable pub evaluate_submission_readiness :
    Check → ℕ → ℕ → String → Db → SubmissionReadinessResult
unfolding readiness_result
evaluate_submission_readiness check now job_id worker db =
    readiness_of check now job_id worker db (get_job job_id db)
