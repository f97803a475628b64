-- ===== src/Queue/Service.antt =====
-- backend/app/services/queue/service.py: claiming, heartbeats and single changes of state. `now`
-- is the instant that `datetime.now` returns in the call.
pub mod Claims
pub mod Changes
use cine_forge.Prelude.{
  ℕ, ◌+◌, String, str_eq, Bool, true, false, Option, none, some, List, [], ◌∷◌, ◌++◌, ◌&&◌, not,
  if◌then◌else◌, is_some, select, head?,
}
use cine_forge.Queue.States
use cine_forge.Queue.States.{JobState}
use cine_forge.Queue.Status
use cine_forge.Queue.Status.{QueueStatus}
use cine_forge.Queue.Machine.{
  Error, Result, ok, err, job_not_found, value_error, TransitionResult, transition, or_raise,
}
use cine_forge.Queue.Store.{
  ComfyJob, AuditLog, Value, Db, M, pure, raise, gets, lift, ◌>>=◌, ◌>>◌, commit, or_rollback,
  get_job, set_job, add_audit, order_by_id,
}

-- The database that a session is bound to: whether it is PostgreSQL, which skips the rows that
-- other transactions hold a lock on, and which rows those are.
pub record Bind : Type 0 where
  pub postgresql : Bool
  pub locked : ℕ → Bool

-- `FOR UPDATE SKIP LOCKED`, on PostgreSQL only.
abbrev pub skips : Bind → ComfyJob → Bool
skips b j = b.postgresql && b.locked j.id

-- `_datetime_value`
abbrev pub datetime_value : Option ℕ → Value
datetime_value none = Value.null
datetime_value (some t) = Value.time t

-- `worker_id or job.worker_id`
abbrev pub or_worker : Option String → Option String → Option String
or_worker none w = w
or_worker (some v) w = if str_eq v "" then w else some v

abbrev pub comfy_job_audit : ℕ → String → List (String × Value) → AuditLog
comfy_job_audit i action details = record {
  entity_type = "comfy_job";
  entity_id = i;
  action = action;
  details = details;
}

-- The rows that `claim_next_pending_job` selects from, in its order.
unfoldable pub claimable : Bind → List ComfyJob → List ComfyJob
unfolding order_by_id
claimable b js =
    order_by_id (select (λ j. Status.same j.status QueueStatus.pending && not (skips b j)) js)

-- The row after a claim.
abbrev pub claimed : ℕ → String → QueueStatus → ComfyJob → ComfyJob
claimed now worker status j = record j {
  status = status;
  worker_id = some worker;
  reserved_at = some now;
  heartbeat_at = some now;
  attempt_count = j.attempt_count + 1;
  last_state_change_at = some now;
}

abbrev pub claim_audit : String → String → TransitionResult → ComfyJob → AuditLog
claim_audit worker reason result j = comfy_job_audit j.id "worker_claim" (
    ("previous_state", Value.text (States.value result.previous))
    ∷ ("new_state", Value.text (States.value result.current))
    ∷ ("reason", Value.text reason)
    ∷ ("actor", Value.text "system")
    ∷ ("worker_id", Value.text worker)
    ∷ ("attempt_count", Value.number j.attempt_count)
    ∷ [])

-- The part of `claim_next_pending_job` behind the query.
unfoldable pub claim_row : ℕ → String → String → Option ComfyJob → M (Option ComfyJob)
claim_row now worker reason none = do commit; pure none
claim_row now worker reason (some job) = do
  result ← or_rollback (transition (Status.value job.status) "reserved" reason)
  status ← lift (or_raise (Status.of_value (States.value result.current)) value_error)
  set_job job.id (claimed now worker status)
  add_audit (claim_audit worker reason result (claimed now worker status job))
  commit
  pure (some (claimed now worker status job))

unfoldable pub claim_next_pending_job : Bind → ℕ → String → String → M (Option ComfyJob)
unfolding claimable claim_row
claim_next_pending_job b now worker reason = do
  job ← gets (λ db. head? (claimable b db.jobs))
  claim_row now worker reason job

abbrev pub heartbeat_audit : ℕ → String → String → ComfyJob → AuditLog
heartbeat_audit now worker reason j = comfy_job_audit j.id "worker_heartbeat" (
    ("status", Value.text (Status.value j.status))
    ∷ ("reason", Value.text reason)
    ∷ ("actor", Value.text "worker")
    ∷ ("worker_id", Value.text worker)
    ∷ ("previous_heartbeat_at", datetime_value j.heartbeat_at)
    ∷ ("heartbeat_at", Value.time now)
    ∷ [])

-- `job.worker_id == worker_id`
abbrev pub held_by : String → Option String → Bool
held_by worker none = false
held_by worker (some w) = str_eq w worker

-- Whether the job is reserved, by this worker.
abbrev pub is_holder : String → ComfyJob → Bool
is_holder worker j = Status.same j.status QueueStatus.reserved && held_by worker j.worker_id

unfoldable pub heartbeat_job : ℕ → ℕ → String → String → M (Option ComfyJob)
heartbeat_job now job_id worker reason = do
  found ← gets (get_job job_id)
  job ← lift (or_raise found (job_not_found job_id))
  if is_holder worker job
      then (do
        set_job job_id (λ j. record j { heartbeat_at = some now })
        add_audit (heartbeat_audit now worker reason job)
        commit
        pure (some (record job { heartbeat_at = some now })))
      else pure none

-- The row after `transition_job`.
abbrev pub moved : ℕ → Option String → JobState → QueueStatus → ComfyJob → ComfyJob
moved now worker current status j =
    let k = record j { status = status; last_state_change_at = some now } in
    if States.same current JobState.reserved && is_some worker
    then record k {
      worker_id = worker;
      reserved_at = some now;
      heartbeat_at = some now;
      attempt_count = j.attempt_count + 1;
    }
    else k

abbrev pub worker_entry : Option String → List (String × Value)
worker_entry none = []
worker_entry (some w) = ("worker_id", Value.text w) ∷ []

abbrev pub transition_audit :
    String → String → Option String → TransitionResult → ComfyJob → AuditLog
transition_audit reason actor worker result j = comfy_job_audit j.id "queue_transition" (
    (("previous_state", Value.text (States.value result.previous))
      ∷ ("new_state", Value.text (States.value result.current))
      ∷ ("reason", Value.text reason)
      ∷ ("actor", Value.text actor)
      ∷ [])
    ++ worker_entry (or_worker worker j.worker_id))

unfoldable pub transition_job : ℕ → ℕ → String → String → String → Option String → M ComfyJob
transition_job now job_id target reason actor worker = do
  found ← gets (get_job job_id)
  job ← lift (or_raise found (job_not_found job_id))
  result ← or_rollback (transition (Status.value job.status) target reason)
  status ← lift (or_raise (Status.of_value (States.value result.current)) value_error)
  set_job job_id (moved now worker result.current status)
  add_audit
      (transition_audit reason actor worker result (moved now worker result.current status job))
  commit
  pure (moved now worker result.current status job)

unfoldable pub reserve_job : ℕ → ℕ → String → String → M ComfyJob
unfolding transition_job
reserve_job now job_id worker reason =
    transition_job now job_id "reserved" reason "system" (some worker)
