-- ===== src/Queue/Readiness/Conditions.antt =====
-- When a job is ready to be submitted.
use cine_forge.Prelude.{
  ℕ, String, ◌≡◌, refl, ◌↔◌, inl, inr, true, false, none, some, List, [], ◌∷◌, ◌++◌, arith,
  Option-cases,
}
use cine_forge.Prelude.Json.{truthy}
use cine_forge.Queue.Store.{
  Problem, ComfyJob, WorkflowRun, WorkflowTemplate, Db, get_job, get_run, get_template,
}
use cine_forge.Queue.Service.{is_holder}
use cine_forge.Queue.Readiness.{
  Check, readiness_result, has_text, job_problems, template_problems, run_problems,
  evaluate_submission_readiness,
}

-- The job is reserved by the worker and has no prompt yet; its run and its template exist and have
-- their documents, which are compatible.
pub record IsReady (check : Check) (job_id : ℕ) (worker : String) (db : Db) : Type 0 where
  pub job : ComfyJob
  pub run : WorkflowRun
  pub template : WorkflowTemplate
  pub job_found : get_job job_id db ≡ some job
  pub held : is_holder worker job ≡ true
  pub no_prompt : has_text job.prompt_id ≡ false
  pub run_found : get_run job.workflow_run_id db ≡ some run
  pub has_workflow : truthy run.patched_workflow_json ≡ true
  pub template_found : get_template run.workflow_template_id db ≡ some template
  pub has_manifest : truthy template.manifest_json ≡ true
  pub compatible : check run.patched_workflow_json template.manifest_json ≡ none

-- No problem is found with a template exactly if its manifest is there and fits.
template_clean :
    (check : Check) (run : WorkflowRun) (t : WorkflowTemplate)
    → truthy run.patched_workflow_json ≡ true
    → (template_problems check run (some t) ≡ [])
      ↔ ((truthy t.manifest_json ≡ true) × (check run.patched_workflow_json t.manifest_json ≡ none))
template_clean check run t w = ground arith

job_clean :
    (worker : String) (j : ComfyJob)
    → (job_problems worker j ≡ []) ↔ ((is_holder worker j ≡ true) × (has_text j.prompt_id ≡ false))
job_clean worker j = ground arith

append_clean {ℓ} : {A : Type ℓ} (xs ys : List A) → xs ++ ys ≡ [] → (xs ≡ []) × (ys ≡ [])
append_clean [] ys h = (refl, h)
append_clean (x ∷ xs) ys h = cc

ready_iff :
    (job_id : ℕ) (worker : String) (now : ℕ) (ps : List Problem)
    → ((readiness_result job_id worker now ps).ready ≡ true) ↔ (ps ≡ [])
unfolding readiness_result
ready_iff job_id worker now [] = (λ _. refl, λ _. refl)
ready_iff job_id worker now (p ∷ ps) = (λ h. cc, λ h. cc)

module _ (check : Check) (now job_id : ℕ) (worker : String) (db : Db) where
  -- What no problem with the run means.
  run_clean :
      (j : ComfyJob)
      → get_job job_id db ≡ some j
      → job_problems worker j ≡ []
      → run_problems check db j.workflow_run_id (get_run j.workflow_run_id db) ≡ []
      → IsReady check job_id worker db
  run_clean j found clean h = elim (Option-cases (get_run j.workflow_run_id db)) [
    | inl absent ↦ cc (rw absent at h)
    | inr (r, run) ↦
        let h' : run_problems check db j.workflow_run_id (some r) ≡ [] = rw run at h in
        let parts =
          append_clean _ (template_problems check r (get_template r.workflow_template_id db)) h' in
        elim (Option-cases (get_template r.workflow_template_id db)) [
          | inl missing ↦ cc (rw missing at parts.1)
          | inr (t, template) ↦
              let workflow : truthy r.patched_workflow_json ≡ true = ground (arith, parts.0) in
              let fits = (template_clean check r t workflow).0 (rw template at parts.1) in
              let holds = (job_clean worker j).0 clean in
              record {
                job = j;
                run = r;
                template = t;
                job_found = found;
                held = holds.0;
                no_prompt = holds.1;
                run_found = run;
                has_workflow = workflow;
                template_found = template;
                has_manifest = fits.0;
                compatible = fits.1;
              }
        ]
  ]

  ready_sound :
      (evaluate_submission_readiness check now job_id worker db).ready ≡ true
      → IsReady check job_id worker db
  unfolding evaluate_submission_readiness
  ready_sound h = elim (Option-cases (get_job job_id db)) [
    | inl absent ↦ cc (rw absent at h)
    | inr (j, found) ↦
        let h' = (ready_iff job_id worker now _).0 (rw found at h) in
        let parts =
          append_clean (job_problems worker j)
            (run_problems check db j.workflow_run_id (get_run j.workflow_run_id db)) h' in
        run_clean j found parts.0 parts.1
  ]

  ready_complete :
      IsReady check job_id worker db
      → (evaluate_submission_readiness check now job_id worker db).ready ≡ true
  unfolding evaluate_submission_readiness
  ready_complete r =
      rw (r.job_found, r.run_found, r.template_found)
        ((ready_iff job_id worker now _).1 (
          rw (
            (job_clean worker r.job).1 (r.held, r.no_prompt),
            r.has_workflow,
            r.has_manifest,
            r.compatible,
          )))

-- A job is reported ready exactly if it exists, is reserved by the asking worker, has no prompt
-- yet, and its run and template exist with their documents, which the object info cache finds
-- compatible.
pub readiness_exact :
    (check : Check) (now job_id : ℕ) (worker : String) (db : Db)
    → ((evaluate_submission_readiness check now job_id worker db).ready ≡ true)
      ↔ IsReady check job_id worker db
readiness_exact check now job_id worker db =
    (ready_sound check now job_id worker db, ready_complete check now job_id worker db)
