-- ===== src/Queue/Worker.antt =====
-- backend/app/services/queue/worker.py: a worker that claims jobs and hands them to its handler.
pub mod Batches
use cine_forge.Prelude.{
  ℕ, zero, suc, String, Bool, true, false, Option, none, some, List, [], ◌∷◌, if◌then◌else◌, map,
  is_some,
}
use cine_forge.Queue.Machine.{Result, ok, err}
use cine_forge.Queue.Store.{ComfyJob, Session, M, pure, gets, ◌>>=◌}
use cine_forge.Queue.Service.{Bind, claim_next_pending_job, heartbeat_job}
use cine_forge.Queue.Recovery.{recover_stale_reserved_jobs}

pub record QueueWorkerResult : Type 0 where
  pub worker_id : String
  pub claimed_job_id : Option ℕ
  pub claimed : Bool
  pub handler_called : Bool
  pub handler_succeeded : Option Bool
  pub error : Option String

-- `QueueWorkerResult.no_job`
unfoldable pub no_job : String → QueueWorkerResult
no_job worker = record {
  worker_id = worker;
  claimed_job_id = none;
  claimed = false;
  handler_called = false;
  handler_succeeded = none;
  error = none;
}

-- A handler may use the session that its job belongs to; `some text` is an exception.
abbrev pub Handler : Type 0
Handler = ComfyJob → Session → Option String × Session

abbrev pub handled : String → ComfyJob → Option String → QueueWorkerResult
handled worker job none = record {
  worker_id = worker;
  claimed_job_id = some job.id;
  claimed = true;
  handler_called = true;
  handler_succeeded = some true;
  error = none;
}
handled worker job (some message) = record {
  worker_id = worker;
  claimed_job_id = some job.id;
  claimed = true;
  handler_called = true;
  handler_succeeded = some false;
  error = some message;
}

-- The part of `run_once` behind the claim.
unfoldable pub run_claimed : String → Option Handler → Option ComfyJob → M QueueWorkerResult
unfolding no_job
run_claimed worker handler none s = (ok (no_job worker), s)
run_claimed worker none (some job) s = (
  ok (record {
    worker_id = worker;
    claimed_job_id = some job.id;
    claimed = true;
    handler_called = false;
    handler_succeeded = none;
    error = none;
  }),
  s,
)
run_claimed worker (some handler) (some job) s =
    let (outcome, s') = handler job s in (ok (handled worker job outcome), s')

unfoldable pub run_once : Bind → ℕ → String → Option Handler → M QueueWorkerResult
unfolding run_claimed
run_once b now worker handler = do
  job ← claim_next_pending_job b now worker "worker run once"
  run_claimed worker handler job

-- `run_batch`: the loop over `range(max_jobs)`, which breaks at the first round that claims
-- nothing. `clock` gives the instant of each round.
unfoldable pub run_batch : Bind → (ℕ → ℕ) → String → Option Handler → ℕ → M (List QueueWorkerResult)
run_batch b clock worker handler zero = pure []
run_batch b clock worker handler (suc rounds) = do
  result ← run_once b (clock (suc rounds)) worker handler
  let rest = run_batch b clock worker handler rounds
  if result.claimed then (do results ← rest; pure (result ∷ results)) else pure []

unfoldable pub heartbeat_once : ℕ → String → ℕ → M Bool
heartbeat_once now worker job_id = do
  beat ← heartbeat_job now job_id worker "worker heartbeat"
  pure (is_some beat)

unfoldable pub recover_stale_once : Bind → ℕ → ℕ → ℕ → ℕ → M (List ℕ)
recover_stale_once b now stale_before max_attempts limit = do
  jobs ←
      recover_stale_reserved_jobs b now stale_before max_attempts limit
        "worker stale reservation recovery"
  pure (map (λ j. j.id) jobs)
