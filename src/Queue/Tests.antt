-- ===== src/Queue/Tests.antt =====
-- The queue on a small database: two pending jobs, one stale reservation, and what its operations
-- make of them.
use cine_forge.Prelude.{
  ◌⊎◌, ℕ, ◌≤◌, ◌*◌, ◌+◌, String, ◌≡◌, ◌≢◌, ◌↔◌, refl, true, false, Option, none, some, [], ◌∷◌,
  arith, All, if◌then◌else◌, ◌==◌, inl,
}
use cine_forge.Prelude.Json.{pos, Json, field, end}
use cine_forge.Queue.States
use cine_forge.Queue.States.{JobState, allowed, active_flow}
use cine_forge.Queue.Status
use cine_forge.Queue.Status.{QueueStatus}
use cine_forge.Queue.Machine.{ok, err, invalid_transition, transition}
use cine_forge.Queue.Transitions.{
  Trace, here, next, passed, changes, requeues, state_of, accepted, transition-values,
  complete_passes_flow, submitted_once, changes_bounded,
}
use cine_forge.Queue.Store.{
  RecoveryMetadata, ComfyJob, WorkflowRun, WorkflowTemplate, Db, Session, order_by_id,
}
use cine_forge.Queue.Store.Rows.{row}
use cine_forge.Queue.Service.{Bind, claimed, claim_next_pending_job, transition_job}
use cine_forge.Queue.Service.Claims.{Claims, claim-Claims}
use cine_forge.Queue.Service.Changes.{Changes, transition_job-Changes}
use cine_forge.Queue.Recovery.{recover_stale_reserved_jobs}
use cine_forge.Queue.Recovery.Effects.{Recovers, recover-Recovers}
use cine_forge.Queue.Readiness.{evaluate_submission_readiness}
use cine_forge.Queue.Readiness.Conditions.{IsReady, readiness_exact}
use cine_forge.Queue.Worker.{Handler, run_batch}
use cine_forge.Queue.Worker.Batches.{Batch, run_batch-Batch}
use cine_forge.Queue.Submission.{Answer, raised, responded, settle, refused}
use cine_forge.Queue.Submission.Outcomes.{prompt_in, Settles, settle-Settles, settle_leaves_table}
use cine_forge.Queue.Lawful.{start, change, Runs-Trace, submitted_never_claimed}
use cine_forge.Queue.Kept.{IsValid}

abbrev no_metadata : RecoveryMetadata
no_metadata = record {
  recovery_count = none;
  last_recovery_reason = none;
  last_recovered_at = none;
  previous_worker_id = none;
  previous_state = none;
  new_state = none;
  max_attempts = none;
  attempt_count = none;
}

abbrev job : ℕ → QueueStatus → Option String → Option ℕ → ComfyJob
job i status worker beat = record {
  id = i;
  workflow_run_id = 50;
  prompt_id = none;
  client_id = none;
  queue_number = none;
  status = status;
  worker_id = worker;
  reserved_at = beat;
  heartbeat_at = beat;
  attempt_count = 1;
  last_state_change_at = none;
  recovery_metadata = no_metadata;
  error_message = none;
  submitted_at = none;
}

abbrev run_50 : WorkflowRun
run_50 = record {
  id = 50;
  workflow_template_id = 60;
  patched_workflow_json = Json.text "workflow";
  status = "pending";
}

abbrev template_60 : WorkflowTemplate
template_60 = record { id = 60; manifest_json = Json.text "manifest" }

-- Jobs 7 and 3 wait, job 5 is reserved by `ada` since instant 10, job 9 is submitted.
abbrev tables : Db
tables = record {
  jobs =
      job 7 QueueStatus.pending none none
      ∷ job 5 QueueStatus.reserved (some "ada") (some 10)
      ∷ job 3 QueueStatus.pending none none
      ∷ job 9 QueueStatus.submitted (some "bob") (some 20)
      ∷ [];
  runs = run_50 ∷ [];
  templates = template_60 ∷ [];
  audit = [];
}

abbrev session : Session
session = record { db = tables; durable = tables }

abbrev postgres : Bind
postgres = record { postgresql = true; locked = λ _. false }

-- Job 3 is locked by another transaction.
abbrev busy : Bind
busy = record { postgresql = true; locked = λ i. i == 3 }

session-IsValid : IsValid session
session-IsValid = ((refl, (refl, (refl, (refl, tt)))), refl)

claim-Claims_example :
    Claims postgres 30 "bob" "claim" session
      (claim_next_pending_job postgres 30 "bob" "claim" session)
claim-Claims_example = claim-Claims postgres 30 "bob" "claim" session session-IsValid.0

-- The reservation of job 5 is stale at instant 20, and has one attempt of two.
recover-Recovers_example :
    Recovers postgres 40 20 2 10 "sweep" session
      (recover_stale_reserved_jobs postgres 40 20 2 10 "sweep" session)
recover-Recovers_example =
    recover-Recovers postgres 40 20 2 10 "sweep" session session-IsValid.0 (omega arith)
      (omega arith)

abbrev cancel_3 : Session
cancel_3 = (transition_job 32 3 "canceled" "operator" "user" none session).1

Runs-Trace_example :
    (k : ComfyJob) × (row 3 cancel_3.db.jobs ≡ some k)
    × Trace (state_of QueueStatus.pending) (state_of k.status)
Runs-Trace_example =
    Runs-Trace 3 (job 3 QueueStatus.pending none none) session-IsValid
      (change start 32 3 "canceled" "operator" "user" none) refl

submitted_never_claimed_example : ◌≢◌ {A = ℕ} 3 9
unfolding claim_next_pending_job transition States.of_value States.allowed Status.value
    Status.of_value States.value order_by_id Status.same
submitted_never_claimed_example =
    submitted_never_claimed {s = session} {t = session} 9
      (job 9 QueueStatus.submitted (some "bob") (some 20)) postgres 30 "bob" "claim"
      (claimed 30 "bob" QueueStatus.reserved (job 3 QueueStatus.pending none none)) session-IsValid
      start refl refl refl

-- The pending job 3 is reserved by another worker.
transition_job-Changes_example :
    Changes 33 3 "mine" "user"
      (some "eve")
      session
      JobState.reserved
      (job 3 QueueStatus.pending none none)
      (transition_job 33 3 (States.value JobState.reserved) "mine" "user" (some "eve") session)
transition_job-Changes_example =
    transition_job-Changes 33 3 "mine" "user" (some "eve") session JobState.reserved refl

transition-values_example :
    transition (States.value JobState.running) (States.value JobState.oom) "out of memory" ≡ (
      if allowed JobState.running JobState.oom
      then ok (accepted JobState.running JobState.oom "out of memory")
      else err (invalid_transition JobState.running JobState.oom))
transition-values_example = transition-values JobState.running JobState.oom "out of memory"

-- A handler that fails on job 7.
abbrev picky : Handler
picky j s = (if j.id == 7 then some "no model" else none, s)

run_batch-Batch_example :
    Batch postgres "bob" (some picky) 5 (run_batch postgres (λ n. n) "bob" (some picky) 5 session)
run_batch-Batch_example =
    run_batch-Batch postgres (λ n. n) "bob" (some picky) 5 session (λ j s k. k) session-IsValid.0

readiness_exact_example :
    ((evaluate_submission_readiness (λ _ _. none) 35 5 "ada" tables).ready ≡ true)
    ↔ IsReady (λ _ _. none) 5 "ada" tables
readiness_exact_example = readiness_exact (λ _ _. none) 35 5 "ada" tables

-- Job 5 as the submission holds it while it is validated, and the answers of ComfyUI.
abbrev held : ComfyJob
held = job 5 QueueStatus.validating (some "ada") (some 10)

abbrev validating : Session
validating = record {
  db = record tables { jobs = held ∷ [] };
  durable = record tables { jobs = held ∷ [] };
}

abbrev good_answer : Answer
good_answer =
    responded (field "prompt_id" (Json.text "p-1") (field "number" (Json.int (pos 4)) end))

settle-Settles_example :
    Settles 5 validating good_answer (settle 36 held 5 "ada" "client" good_answer validating)
settle-Settles_example =
    settle-Settles 36 held 5 "ada" "client" validating {r = run_50} refl {j = held} refl good_answer

-- The adapter raises: job 5 goes from `validating` to `comfy_rejected`.
settle_leaves_table_example :
    (k : ComfyJob) × (row 5
        (settle 36 held 5 "ada" "client" (raised "refused") validating).1.db.jobs
      ≡ some k)
    × (((QueueStatus.validating ≡ QueueStatus.validating) × (k.status ≡ QueueStatus.comfy_rejected))
        ⊎ ((QueueStatus.validating ≡ QueueStatus.canceled)
            × (k.status ≡ QueueStatus.submitted)
            × (k.prompt_id ≡ prompt_in (raised "refused"))))
    × (allowed (state_of QueueStatus.validating) (state_of k.status) ≡ false)
unfolding settle
settle_leaves_table_example =
    settle_leaves_table 36 held 5 "ada" "client" validating {r = run_50} {j = held}
      (raised "refused")
      (refused 5 "ada" (Status.value QueueStatus.comfy_rejected) "comfy_rejected" _)
      (settle 36 held 5 "ada" "client" (raised "refused") validating).1 refl refl refl
      (inl (refl, refl))

-- A job that is recovered once and then completes.
abbrev recovered_history : Trace JobState.pending JobState.reserved
unfolding allowed
recovered_history =
    next (next (next here JobState.reserved refl) JobState.pending refl) JobState.reserved refl

abbrev whole_history : Trace JobState.pending JobState.complete
unfolding allowed
whole_history =
    next
      (next
        (next (next (next recovered_history JobState.validating refl) JobState.submitted refl)
          JobState.running refl)
        JobState.collecting_outputs refl)
      JobState.complete refl

complete_passes_flow_example : All (λ f. passed f whole_history ≡ true) active_flow
complete_passes_flow_example = complete_passes_flow whole_history

changes_bounded_example : changes whole_history ≤ 6 + 2 * requeues whole_history
changes_bounded_example = changes_bounded whole_history

changes-whole_history : changes whole_history ≡ 8
unfolding changes whole_history recovered_history allowed
changes-whole_history = refl

submitted_once_example :
    (JobState.running ≢ JobState.pending)
    × (JobState.running ≢ JobState.reserved)
    × (JobState.running ≢ JobState.validating)
    × (JobState.running ≢ JobState.canceled)
unfolding allowed
submitted_once_example = submitted_once (next here JobState.running refl)
