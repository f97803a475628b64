-- ===== src/Planning/Engine/Tests.antt =====
-- Planning runs on a small table: one that waits, one under a live lease, one that is over.
use cine_forge.Prelude.{
  max, ◌+◌, ◌≢◌, ◌⊎◌, ℕ, Bool, ◌≡◌, refl, true, false, none, some, [], ◌∷◌, arith,
}
use cine_forge.Prelude.Json.{Json, end}
use cine_forge.Prelude.Session.{Session, ok}
use cine_forge.Planning.States.{RunStatus, same_run}
use cine_forge.Planning.Tables.{OrchestrationRun, Db, Texts, run_row, set_rows}
use cine_forge.Planning.Repository.{
  get_run, update_runs, update_where, acquire_execution_lease, bump_repair_used,
  renew_execution_lease,
}
use cine_forge.Planning.Repository.Ownership.{Holds, no_stealing, renew_exact}
use cine_forge.Planning.Repository.Acquiring.{begun, with_rows}
use cine_forge.Planning.Repository.Constraints.{Runs, start, acquire, repair, IsValid, Runs-IsValid}
use cine_forge.Planning.Repository.Terminal.{terminal_forever}
use cine_forge.Planning.Executor
use cine_forge.Planning.Executor.{Controller, blocked, submit}
use cine_forge.Planning.Executor.Capacity.{capacity_kept, submitted, submit_deadlock}
use cine_forge.Planning.Engine.{claim_run}
use cine_forge.Planning.Engine.Claiming.{claim_run-live}

abbrev texts : Texts
texts = record { sanitize_message = λ t. t; sanitize_details = λ fs. fs; prefix = λ n t. t }

abbrev waiting : OrchestrationRun
waiting = record {
  id = 1;
  story_id = 7;
  status = RunStatus.pending;
  requested_by = none;
  routing_snapshot_json = end;
  current_step = 0;
  max_steps = 3;
  repair_budget = 1;
  repair_used = 0;
  execution_owner_id = none;
  execution_claim_token = none;
  execution_lease_expires_at = none;
  execution_heartbeat_at = none;
  execution_attempt = 0;
  started_at = none;
  completed_at = none;
  failed_at = none;
  canceled_at = none;
  failure_category = none;
  failure_message = none;
}

abbrev finished : OrchestrationRun
finished = record waiting {
  id = 2;
  story_id = 8;
  status = RunStatus.completed;
  completed_at = some 5;
}

abbrev busy : OrchestrationRun
busy = record (begun texts 10 "ada" "t1" 60 waiting) { id = 3; story_id = 9 }

abbrev tables : Db
tables = record { runs = waiting ∷ finished ∷ busy ∷ []; steps = []; events = [] }

abbrev session : Session Db
session = record { db = tables; durable = tables }

session-IsValid : IsValid session
session-IsValid = (
  (refl, (refl, (refl, tt))),
  ((refl, omega arith), ((refl, omega arith), ((refl, omega arith), tt))),
)

no_stealing_example :
    acquire_execution_lease texts 69 1 "bob" "t3" 60
      (with_rows (set_rows 1 (begun texts 10 "ada" "t2" 60)) session)
    ≡ (
      ok (begun texts 10 "ada" "t2" 60 waiting, false, false),
      with_rows (set_rows 1 (begun texts 10 "ada" "t2" 60)) session,
    )
unfolding acquire_execution_lease update_runs update_where get_run same_run
no_stealing_example =
    no_stealing texts texts 10 69 1 "ada" "t2" "bob" "t3" 60 60 session
      (with_rows (set_rows 1 (begun texts 10 "ada" "t2" 60)) session)
      (begun texts 10 "ada" "t2" 60 waiting) true session-IsValid.0 refl (omega arith)

renew_exact_example :
    let (answer, t) = renew_execution_lease 40 3 "ada" "t1" 60 session in
    (Holds 40 "ada" "t1" busy
      × (answer ≡ ok true)
      × ((k : ℕ) → k ≢ 3 → run_row k t.db.runs ≡ run_row k session.db.runs)
      × (run_row 3 t.db.runs
          ≡ some (record busy {
            execution_heartbeat_at = some 40;
            execution_lease_expires_at = some (40 + max 5 60);
          })))
    ⊎ ((Holds 40 "ada" "t1" busy → ⊥) × (answer ≡ ok false) × (t ≡ session))
renew_exact_example = renew_exact 40 3 "ada" "t1" 60 session session-IsValid.0 refl

-- Run 1 is started and uses its one repair.
repairs :
    Runs session
      (bump_repair_used
        (begun texts 10 "ada" "t2" 60 waiting)
        (acquire_execution_lease texts 10 1 "ada" "t2" 60 session).1).1
unfolding acquire_execution_lease update_runs update_where get_run same_run
repairs =
    repair (acquire start texts 10 1 "ada" "t2" 60) (begun texts 10 "ada" "t2" 60 waiting) refl

Runs-IsValid_example :
    IsValid
      (bump_repair_used
        (begun texts 10 "ada" "t2" 60 waiting)
        (acquire_execution_lease texts 10 1 "ada" "t2" 60 session).1).1
Runs-IsValid_example = Runs-IsValid repairs session-IsValid

terminal_forever_example :
    (r : OrchestrationRun) × (run_row 2
        (bump_repair_used
          (begun texts 10 "ada" "t2" 60 waiting)
          (acquire_execution_lease texts 10 1 "ada" "t2" 60 session).1).1.db.runs
      ≡ some r)
    × (r.status ≡ RunStatus.completed)
terminal_forever_example =
    terminal_forever 2 RunStatus.completed refl session-IsValid repairs (finished, refl, refl)

claim_run-live_example :
    claim_run texts 20 Json.null "fresh" 3 (some "bob") none 60 session
    ≡ (ok (busy, false), session)
claim_run-live_example =
    claim_run-live texts 20 Json.null "fresh" 3 (some "bob") none 60 session {r = busy}
      session-IsValid.0 refl refl refl

-- A registry for two runs, the first of which is submitted and goes on.
abbrev registry : Controller
registry = record { max_in_flight = 2; locked = false; active = [] }

abbrev pending_futures : ℕ → Bool
pending_futures f = false

capacity_kept_example : Executor.Capacity.IsValid (submit pending_futures 7 (some 1) registry).1
capacity_kept_example =
    capacity_kept {c = registry} (tt, omega arith)
      (submitted Executor.Capacity.start pending_futures 7 (some 1))

submit_deadlock_example :
    ((submit (λ f. true) 7 (some 1) registry).0 ≡ blocked)
    × (submit pending_futures 8 (some 2) (submit (λ f. true) 7 (some 1) registry).1
        ≡ (blocked, (submit (λ f. true) 7 (some 1) registry).1))
submit_deadlock_example =
    submit_deadlock (λ f. true) 7 1 registry refl refl (omega arith) refl pending_futures 8 (some 2)
