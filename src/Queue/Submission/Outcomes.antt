-- ===== src/Queue/Submission/Outcomes.antt =====
-- What a submission leaves in the job's row, by how ComfyUI answered.
use cine_forge.Prelude.{
  ℕ, String, ◌≡◌, refl, ◌≢◌, Bool, true, false, Option, none, some, List, [], ◌∷◌, ◌++◌,
  if◌then◌else◌, sym, ◌∙◌, Bool-cases, Option-cases, inl, inr, ◌⊎◌,
}
use mathlib.Core.Bool.{false≢true}
use cine_forge.Prelude.Json.{ℤ, Fields, truthy, get}
use cine_forge.Queue.States.{allowed}
use cine_forge.Queue.Status
use cine_forge.Queue.Status.{QueueStatus}
use cine_forge.Queue.Machine.{Error, Result, ok, err, attribute_error}
use cine_forge.Queue.Transitions.{state_of}
use cine_forge.Queue.Store.{
  ErrorMessage, exception, node_errors, missing_prompt_id, ComfyJob, WorkflowRun, Db, Session,
  get_run, update_rows, update_runs, pure, ◌>>◌,
}
use cine_forge.Queue.Store.Rows.{row, row-update_rows_self, row-update_rows_ne}
use cine_forge.Queue.Submission.{
  Answer, raised, responded, unsupported, ControlledSubmissionResult, failure_audit,
  submitted_audit, prompt_of, number_of, mark_submission_failure, mark_submitted, settle_prompt,
  settle, refused,
}

-- The row after a failure and after a submission.
abbrev failed : ℕ → QueueStatus → ErrorMessage → ComfyJob → ComfyJob
failed now target message j = record j {
  status = target;
  error_message = some message;
  last_state_change_at = some now;
}

abbrev sent : ℕ → String → Option ℤ → String → ComfyJob → ComfyJob
sent now prompt number client j = record j {
  status = QueueStatus.submitted;
  prompt_id = some prompt;
  queue_number = number;
  client_id = some client;
  submitted_at = some now;
  last_state_change_at = some now;
}

module _ (now : ℕ) (job : ComfyJob) (worker : String) (s : Session) (r : WorkflowRun)
    (run : get_run job.workflow_run_id s.db ≡ some r) where
  abbrev after_failure : QueueStatus → String → String → ErrorMessage → Db
  after_failure target action reason message = record s.db {
    jobs = update_rows job.id (failed now target message) s.db.jobs;
    runs = update_runs r.id (λ x. record x { status = Status.value target }) s.db.runs;
    audit = s.db.audit ++ failure_audit target action reason message worker job ∷ [];
  }

  mark_submission_failure_lem :
      (target : QueueStatus) (action reason : String) (message : ErrorMessage)
      → let d = after_failure target action reason message in
        mark_submission_failure now job target action reason message worker s
        ≡ (ok tt, record { db = d; durable = d })
  unfolding mark_submission_failure
  mark_submission_failure_lem target action reason message = rw run

  abbrev after_sent : String → Option ℤ → String → Db
  after_sent prompt number client = record s.db {
    jobs = update_rows job.id (sent now prompt number client) s.db.jobs;
    runs =
        update_runs r.id (λ x. record x { status = Status.value QueueStatus.submitted }) s.db.runs;
    audit = s.db.audit ++ submitted_audit prompt number worker job ∷ [];
  }

  mark_submitted_lem :
      (prompt : String) (number : Option ℤ) (client : String)
      → let d = after_sent prompt number client in
        mark_submitted now job prompt number client worker s
        ≡ (ok tt, record { db = d; durable = d })
  unfolding mark_submitted
  mark_submitted_lem prompt number client = rw run

-- Whether ComfyUI has taken the prompt: it answered without node errors and with an identifier.
abbrev pub taken : Answer → Bool
taken (raised message) = false
taken unsupported = false
taken (responded response) =
    if truthy (get "node_errors" response)
    then false
    else elim (prompt_of (get "prompt_id" response)) [ none ↦ false | some p ↦ true ]

-- Whether an answer has a method `get`, or there is none.
abbrev pub readable : Answer → Bool
readable unsupported = false
readable (raised message) = true
readable (responded response) = true

-- What is left of a call that raises.
abbrev pub Stuck : Answer → Error → Session → Session → Type 0
Stuck unsupported e s s' = (e ≡ attribute_error) × (s' ≡ s)
Stuck (raised message) e s s' = ⊥
Stuck (responded response) e s s' = ⊥

-- The status that an answer leads to. With JSON that is not an object it stays `validating`.
abbrev pub landing : Answer → QueueStatus
landing (raised message) = QueueStatus.comfy_rejected
landing unsupported = QueueStatus.validating
landing (responded response) =
    if truthy (get "node_errors" response)
    then QueueStatus.validation_failed
    else elim (prompt_of (get "prompt_id" response)) [
      | none ↦ QueueStatus.comfy_rejected
      | some p ↦ QueueStatus.submitted
    ]

-- The identifier that an answer gives the prompt, where ComfyUI has taken it.
abbrev pub prompt_in : Answer → Option String
prompt_in (raised message) = none
prompt_in unsupported = none
prompt_in (responded response) =
    if truthy (get "node_errors" response) then none else prompt_of (get "prompt_id" response)

-- What a call that began at `s` has done to the job `i` and to the tables.
abbrev pub Settles : ℕ → Session → Answer → Result ControlledSubmissionResult × Session → Type 0
Settles i s answer (err e, s') = Stuck answer e s s'
Settles i s answer (ok result, s') =
    (readable answer ≡ true)
    × (k : ComfyJob) × ((row i s'.db.jobs ≡ some k)
        × (k.status ≡ landing answer)
        × (Status.value k.status ≡ result.status))
    × ((result.submitted ≡ taken answer)
        × (result.prompt_id ≡ prompt_in answer)
        × (taken answer ≡ true → k.prompt_id ≡ prompt_in answer))
    × ((m : ℕ) → m ≢ i → row m s'.db.jobs ≡ row m s.db.jobs)
    × (s'.durable ≡ s'.db)

module _ (now : ℕ) (job : ComfyJob) (job_id : ℕ) (worker client : String) (s : Session)
    {r : WorkflowRun} (run : get_run job.workflow_run_id s.db ≡ some r) {j : ComfyJob}
    (found : row job.id s.db.jobs ≡ some j) where
  -- The rest of `settle` once a failure is recorded.
  failure-Settles :
      (answer : Answer) (target : QueueStatus) (action reason : String) (message : ErrorMessage)
      (code : String) (errors : List ErrorMessage)
      → readable answer ≡ true
      → landing answer ≡ target
      → taken answer ≡ false
      → prompt_in answer ≡ none
      → Settles job.id s answer (
          (mark_submission_failure now job target action reason message worker
              >> pure (refused job_id worker (Status.value target) code errors))
            s)
  failure-Settles answer target action reason message code errors o l t p =
      rw (mark_submission_failure_lem now job worker s r run target action reason message) (
        o,
        failed now target message j,
        (
          row-update_rows_self job.id (failed now target message) (λ _. refl) s.db.jobs found,
          sym l,
          refl,
        ),
        (sym t, sym p, λ h. absurd (false≢true (sym t ∙ h))),
        λ m ne. row-update_rows_ne job.id (failed now target message) (λ _. refl) m s.db.jobs ne,
        refl,
      )

  prompt-Settles :
      (response : Fields)
      → truthy (get "node_errors" response) ≡ false
      → (prompt : Option String) → prompt_of (get "prompt_id" response) ≡ prompt
      → Settles job.id s
          (responded response)
          (settle_prompt now job job_id worker client (number_of (get "number" response)) prompt s)
  unfolding settle_prompt
  prompt-Settles response clean none none_given =
      failure-Settles (responded response) QueueStatus.comfy_rejected _ _ missing_prompt_id _ _ refl
        (rw (clean, none_given)) (rw (clean, none_given)) (rw (clean, none_given))
  prompt-Settles response clean (some prompt) given =
      let number = number_of (get "number" response) in
      rw (mark_submitted_lem now job worker s r run prompt number client) (
        refl,
        sent now prompt number client j,
        (
          row-update_rows_self job.id (sent now prompt number client) (λ _. refl) s.db.jobs found,
          rw (clean, given),
          refl,
        ),
        (rw (clean, given), rw (clean, given), λ _. rw (clean, given)),
        λ m ne.
            row-update_rows_ne job.id (sent now prompt number client) (λ _. refl) m s.db.jobs ne,
        refl,
      )

  -- Where ComfyUI raises or answers with a JSON object, the call returns; with any other JSON it
  -- raises, and leaves the tables as they are. Where it returns, the job's row has the status that
  -- the answer leads to, which is the status that the result names; the result says that the prompt was submitted
  -- exactly if ComfyUI took it, and then the row has the prompt's identifier. No other row
  -- changes, and all is committed.
  pub settle-Settles :
      (answer : Answer) → Settles job.id s answer (settle now job job_id worker client answer s)
  unfolding settle
  settle-Settles (raised message) =
      failure-Settles (raised message) QueueStatus.comfy_rejected _ _ (exception message) _ _ refl
        refl refl refl
  settle-Settles (responded response) = elim (Bool-cases (truthy (get "node_errors" response))) [
    | inl bad ↦ rw bad (
        failure-Settles (responded response) QueueStatus.validation_failed _ _
          (node_errors (get "node_errors" response)) _ _ refl (rw bad) (rw bad) (rw bad))
    | inr clean ↦
        rw clean (prompt-Settles response clean (prompt_of (get "prompt_id" response)) refl)
  ]
  settle-Settles unsupported = (refl, refl)

-- Only a prompt that ComfyUI has taken is marked as submitted.
submitted-taken : (answer : Answer) → landing answer ≡ QueueStatus.submitted → taken answer ≡ true
submitted-taken (raised message) h = cc
submitted-taken unsupported h = cc
submitted-taken (responded response) h = elim (Bool-cases (truthy (get "node_errors" response))) [
  | inl bad ↦ cc (rw bad at h)
  | inr clean ↦ elim (Option-cases (prompt_of (get "prompt_id" response))) [
    | inl nothing ↦ cc (rw (clean, nothing) at h)
    | inr (p, given) ↦ rw (clean, given) refl
  ]
]

-- The answer decides the job's status whatever the row's own status has become. A prompt that
-- ComfyUI refuses takes a job from `validating` to `comfy_rejected`, and a job that was canceled
-- while ComfyUI was asked is marked as submitted and gets the prompt's identifier; the table of
-- allowed changes has neither change.
pub settle_leaves_table :
    (now : ℕ) (job : ComfyJob) (job_id : ℕ) (worker client : String) (s : Session) {r : WorkflowRun}
    {j : ComfyJob} (answer : Answer) (result : ControlledSubmissionResult) (s' : Session)
    → get_run job.workflow_run_id s.db ≡ some r
    → row job.id s.db.jobs ≡ some j
    → settle now job job_id worker client answer s ≡ (ok result, s')
    → ((j.status ≡ QueueStatus.validating) × (landing answer ≡ QueueStatus.comfy_rejected))
      ⊎ ((j.status ≡ QueueStatus.canceled) × (landing answer ≡ QueueStatus.submitted))
    → (k : ComfyJob) × (row job.id s'.db.jobs ≡ some k)
      × (((j.status ≡ QueueStatus.validating) × (k.status ≡ QueueStatus.comfy_rejected))
          ⊎ ((j.status ≡ QueueStatus.canceled)
              × (k.status ≡ QueueStatus.submitted)
              × (k.prompt_id ≡ prompt_in answer)))
      × (allowed (state_of j.status) (state_of k.status) ≡ false)
settle_leaves_table now job job_id worker client s {r} {j} answer result s' run found settled how =
    let done : Settles job.id s answer (ok result, s') =
      rw settled at (settle-Settles now job job_id worker client s run found answer) in
    let k = done.1 in (k, done.2.0, both how done.2.1 done.3.2, off j.status k.status how done.2.1)
  where
    both :
        {q p : QueueStatus} {given : Option String}
        → ((q ≡ QueueStatus.validating) × (landing answer ≡ QueueStatus.comfy_rejected))
          ⊎ ((q ≡ QueueStatus.canceled) × (landing answer ≡ QueueStatus.submitted))
        → p ≡ landing answer
        → (taken answer ≡ true → given ≡ prompt_in answer)
        → ((q ≡ QueueStatus.validating) × (p ≡ QueueStatus.comfy_rejected))
          ⊎ ((q ≡ QueueStatus.canceled) × (p ≡ QueueStatus.submitted) × (given ≡ prompt_in answer))
    both (inl h) e g = inl (h.0, e ∙ h.1)
    both (inr h) e g = inr (h.0, e ∙ h.1, g (submitted-taken answer h.1))

    off :
        (q p : QueueStatus)
        → ((q ≡ QueueStatus.validating) × (landing answer ≡ QueueStatus.comfy_rejected))
          ⊎ ((q ≡ QueueStatus.canceled) × (landing answer ≡ QueueStatus.submitted))
        → p ≡ landing answer
        → allowed (state_of q) (state_of p) ≡ false
    off q p (inl h) e = rw (h.0, e, h.1) (unfold state_of allowed in refl)
    off q p (inr h) e = rw (h.0, e, h.1) (unfold state_of allowed in refl)
