-- ===== src/Queue/Recovery.antt =====
-- `recover_stale_reserved_jobs` of backend/app/services/queue/service.py. `max_attempts` and
-- `limit` are numbers: 0 stands for every value below 1.
pub mod Rounds
pub mod Effects
use cine_forge.Prelude.{
  ℕ, ◌+◌, String, Bool, true, false, Option, none, some, List, [], ◌∷◌, ◌&&◌, not, ltb,
  if◌then◌else◌, select, take,
}
use cine_forge.Queue.States
use cine_forge.Queue.Status
use cine_forge.Queue.Status.{QueueStatus}
use cine_forge.Queue.Machine.{err, value_error, TransitionResult, transition}
use cine_forge.Queue.Store.{
  RecoveryMetadata, ComfyJob, AuditLog, Value, M, pure, raise, gets, lift, ◌>>=◌, ◌>>◌, commit,
  set_job, add_audit, order_by_id,
}
use cine_forge.Queue.Service.{Bind, skips, comfy_job_audit}

-- `heartbeat_at < stale_before`, or without a heartbeat `reserved_at < stale_before`, or neither.
-- In SQL a comparison with NULL is not true.
abbrev pub is_stale : ℕ → Option ℕ → Option ℕ → Bool
is_stale before (some beat) reserved = ltb beat before
is_stale before none (some reserved) = ltb reserved before
is_stale before none none = true

abbrev pub is_candidate : Bind → ℕ → ComfyJob → Bool
is_candidate b before j =
    Status.same j.status QueueStatus.reserved
    && is_stale before j.heartbeat_at j.reserved_at
    && not (skips b j)

unfoldable pub candidates : Bind → ℕ → ℕ → List ComfyJob → List ComfyJob
unfolding order_by_id
candidates b before limit js = take limit (order_by_id (select (is_candidate b before) js))

abbrev pub target_state : ℕ → ComfyJob → QueueStatus
target_state max_attempts j =
    if ltb j.attempt_count max_attempts then QueueStatus.pending else QueueStatus.timeout

abbrev pub recovery_action : ℕ → ComfyJob → String
recovery_action max_attempts j =
    if ltb j.attempt_count max_attempts then "worker_recovery" else "worker_timeout"

-- `int(metadata.get("recovery_count", 0)) + 1`
abbrev pub next_count : Option ℕ → ℕ
next_count none = 1
next_count (some n) = n + 1

abbrev pub recovered_metadata : ℕ → ℕ → String → TransitionResult → ComfyJob → RecoveryMetadata
recovered_metadata now max_attempts reason result j = record {
  recovery_count = some (next_count j.recovery_metadata.recovery_count);
  last_recovery_reason = some reason;
  last_recovered_at = some now;
  previous_worker_id = j.worker_id;
  previous_state = some (States.value result.previous);
  new_state = some (States.value result.current);
  max_attempts = some max_attempts;
  attempt_count = some j.attempt_count;
}

abbrev pub recovered : ℕ → ℕ → String → TransitionResult → ComfyJob → ComfyJob
recovered now max_attempts reason result j = record j {
  status = target_state max_attempts j;
  worker_id = none;
  reserved_at = none;
  heartbeat_at = none;
  last_state_change_at = some now;
  recovery_metadata = recovered_metadata now max_attempts reason result j;
}

abbrev pub text_value : Option String → Value
text_value none = Value.null
text_value (some t) = Value.text t

abbrev pub recovery_audit : ℕ → String → TransitionResult → ComfyJob → AuditLog
recovery_audit max_attempts reason result j =
    comfy_job_audit j.id (recovery_action max_attempts j) (
      ("previous_state", Value.text (States.value result.previous))
      ∷ ("new_state", Value.text (States.value result.current))
      ∷ ("reason", Value.text reason)
      ∷ ("actor", Value.text "system")
      ∷ ("previous_worker_id", text_value j.worker_id)
      ∷ ("attempt_count", Value.number j.attempt_count)
      ∷ ("max_attempts", Value.number max_attempts)
      ∷ ("recovery_count", Value.number (next_count j.recovery_metadata.recovery_count))
      ∷ [])

-- One round of the loop. `transition` is not guarded here: if it raised, the changes of the
-- rounds before it would stay uncommitted.
unfoldable pub recover_row : ℕ → ℕ → String → ComfyJob → M ComfyJob
recover_row now max_attempts reason job = do
  result ←
      lift
        (transition (Status.value job.status) (Status.value (target_state max_attempts job)) reason)
  set_job job.id (recovered now max_attempts reason result)
  add_audit (recovery_audit max_attempts reason result job)
  pure (recovered now max_attempts reason result job)

unfoldable pub recover_rows : ℕ → ℕ → String → List ComfyJob → M (List ComfyJob)
recover_rows now max_attempts reason [] = pure []
recover_rows now max_attempts reason (job ∷ jobs) = do
  j ← recover_row now max_attempts reason job
  js ← recover_rows now max_attempts reason jobs
  pure (j ∷ js)

unfoldable pub recover_stale_reserved_jobs : Bind → ℕ → ℕ → ℕ → ℕ → String → M (List ComfyJob)
recover_stale_reserved_jobs b now stale_before max_attempts limit reason =
    if ltb max_attempts 1
    then raise value_error
    else (if ltb limit 1 then pure [] else (do
      jobs ← gets (λ db. candidates b stale_before limit db.jobs)
      done ← recover_rows now max_attempts reason jobs
      commit
      pure done))
