-- ===== src/Planning/Repository.antt =====
-- backend/app/services/planning/repository.py: what changes planning runs and steps. `now` is the
-- instant that `utcnow` returns in the call; `lease_seconds` of 0 stands for every value below 1.
pub mod Acquiring
pub mod Ownership
pub mod Constraints
pub mod Terminal
use cine_forge.Prelude.{
  ℕ, ◌+◌, max, String, str_eq, Bool, true, false, ◌&&◌, ◌||◌, not, Option, none, some, List, [],
  ◌∷◌, ◌==◌, leb, ltb, if◌then◌else◌, length, select,
}
use cine_forge.Prelude.Json.{Fields, end, field}
use cine_forge.Prelude.Session.{
  Session, Result, ok, err, pure, raise, gets, lift, modify, ◌>>=◌, ◌>>◌,
}
use cine_forge.Planning.States.{
  RunStatus, StepStatus, Error, run_not_found, budget_exhausted, run_value, step_value, same_run,
  same_step, assert_run_transition, assert_step_transition, run_terminal, step_terminal,
}
use cine_forge.Planning.Tables.{
  OrchestrationRun, OrchestrationStep, OrchestrationEvent, Db, Texts, Call, run_row, set_run,
  set_step, push_event, put,
}

abbrev pub or_not_found : ℕ → Option OrchestrationRun → Result Error OrchestrationRun
or_not_found i none = err (run_not_found i)
or_not_found i (some r) = ok r

unfoldable pub get_run : ℕ → Call OrchestrationRun
get_run i = do found ← gets (λ db. run_row i db.runs); lift (or_not_found i found)

-- `UPDATE … WHERE`, which returns how many rows it has changed.
unfoldable pub update_where :
    (OrchestrationRun → Bool)
    → (OrchestrationRun → OrchestrationRun)
    → List OrchestrationRun
    → List OrchestrationRun
update_where p f [] = []
update_where p f (r ∷ rs) = (if p r then f r else r) ∷ update_where p f rs

unfoldable pub update_runs :
    (OrchestrationRun → Bool) → (OrchestrationRun → OrchestrationRun) → Call ℕ
unfolding update_where
update_runs p f = do
  rows ← gets (λ db. select p db.runs)
  modify (λ (db : Db). record db { runs = update_where p f db.runs })
  pure (length rows)

-- The `values` of a new lease, and the start of a pending run with it.
abbrev pub leased : Texts → ℕ → String → String → ℕ → OrchestrationRun → OrchestrationRun
leased texts now owner token seconds r = record r {
  execution_owner_id = some (texts.prefix 128 owner);
  execution_claim_token = some (texts.prefix 64 token);
  execution_lease_expires_at = some (now + max 5 seconds);
  execution_heartbeat_at = some now;
  execution_attempt = r.execution_attempt + 1;
}

-- `coalesce(value, default)`, and `value or default` of an instant.
abbrev pub coalesce : Option ℕ → ℕ → ℕ
coalesce none d = d
coalesce (some v) d = v

abbrev pub started : ℕ → OrchestrationRun → OrchestrationRun
started now r = record r {
  status = RunStatus.running;
  started_at = some (coalesce r.started_at now);
}

abbrev pub is_pending : ℕ → OrchestrationRun → Bool
is_pending i r = r.id == i && same_run r.status RunStatus.pending

-- `execution_lease_expires_at IS NULL OR execution_lease_expires_at <= now`
abbrev pub lapsed : ℕ → Option ℕ → Bool
lapsed now none = true
lapsed now (some t) = leb t now

abbrev pub is_recoverable : ℕ → ℕ → OrchestrationRun → Bool
is_recoverable now i r =
    r.id == i && (same_run r.status RunStatus.running && lapsed now r.execution_lease_expires_at)

-- Returns the run, whether this call has started it, and whether it has acquired the lease.
unfoldable pub acquire_execution_lease :
    Texts → ℕ → ℕ → String → String → ℕ → Call (OrchestrationRun × Bool × Bool)
unfolding update_runs get_run
acquire_execution_lease texts now i owner token seconds = do
  count ← update_runs (is_pending i) (λ r. started now (leased texts now owner token seconds r))
  recovered ← recover (count == 1)
  run ← get_run i
  pure (run, count == 1, count == 1 || recovered == 1)
  where
    recover : Bool → Call ℕ
    recover true = pure 0
    recover false = update_runs (is_recoverable now i) (leased texts now owner token seconds)

-- A column that is equal to a text, which NULL is not.
abbrev pub holds : String → Option String → Bool
holds v none = false
holds v (some w) = str_eq w v

-- `execution_lease_expires_at > now`
abbrev pub lasts : ℕ → Option ℕ → Bool
lasts now none = false
lasts now (some t) = ltb now t

abbrev pub owns : ℕ → ℕ → String → String → OrchestrationRun → Bool
owns now i owner token r =
    r.id == i
    && (same_run r.status RunStatus.running
        && (holds owner r.execution_owner_id
            && (holds token r.execution_claim_token && lasts now r.execution_lease_expires_at)))

abbrev pub renewed : ℕ → ℕ → OrchestrationRun → OrchestrationRun
renewed now seconds r = record r {
  execution_heartbeat_at = some now;
  execution_lease_expires_at = some (now + max 5 seconds);
}

unfoldable pub renew_execution_lease : ℕ → ℕ → String → String → ℕ → Call Bool
unfolding update_runs
renew_execution_lease now i owner token seconds = do
  count ← update_runs (owns now i owner token) (renewed now seconds)
  pure (count == 1)

unfoldable pub owns_execution_lease : ℕ → ℕ → String → String → Call Bool
owns_execution_lease now i owner token = do
  rows ← gets (λ db. select (owns now i owner token) db.runs)
  pure (not (length rows == 0))

-- `value or default` of a text.
abbrev pub or_text : Option String → String → String
or_text none d = d
or_text (some v) d = if str_eq v "" then d else v

-- What `transition_run` makes of the row, before and after the clearing of its lease.
abbrev pub marked :
    Texts → ℕ → RunStatus → Option String → Option String → OrchestrationRun → OrchestrationRun
marked texts now RunStatus.pending category message r = record r { status = RunStatus.pending }
marked texts now RunStatus.running category message r = started now r
marked texts now RunStatus.completed category message r = record r {
  status = RunStatus.completed;
  completed_at = some now;
}
marked texts now RunStatus.failed category message r = record r {
  status = RunStatus.failed;
  failed_at = some now;
  failure_category = category;
  failure_message = some (texts.sanitize_message (or_text message "run failed"));
}
marked texts now RunStatus.canceled category message r = record r {
  status = RunStatus.canceled;
  canceled_at = some now;
  failure_category = some (or_text category "canceled");
  failure_message = some (texts.sanitize_message (or_text message "run canceled"));
}

abbrev pub unleased : OrchestrationRun → OrchestrationRun
unleased r = record r {
  execution_owner_id = none;
  execution_claim_token = none;
  execution_lease_expires_at = none;
  execution_heartbeat_at = none;
}

abbrev pub run_after :
    Texts → ℕ → RunStatus → Option String → Option String → OrchestrationRun → OrchestrationRun
run_after texts now target category message r =
    if run_terminal target
    then unleased (marked texts now target category message r)
    else marked texts now target category message r

unfoldable pub transition_run :
    Texts → ℕ → OrchestrationRun → RunStatus → Option String → Option String → Call OrchestrationRun
transition_run texts now run target category message = do
  lift (assert_run_transition (run_value run.status) target)
  set_run run.id (run_after texts now target category message)
  pure (run_after texts now target category message run)

unfoldable pub bump_repair_used : OrchestrationRun → Call OrchestrationRun
bump_repair_used run =
    if leb run.repair_budget run.repair_used
    then raise (budget_exhausted run.repair_budget run.repair_used)
    else (do
      set_run run.id (λ r. record r { repair_used = r.repair_used + 1 })
      pure (record run { repair_used = run.repair_used + 1 }))

unfoldable pub set_current_step : OrchestrationRun → ℕ → Call (Unit {0})
set_current_step run n = set_run run.id (λ r. record r { current_step = n })

-- The optional arguments of `transition_step`.
pub record StepChange : Type 0 where
  pub output_hash : Option String
  pub proposal_id : Option ℕ
  pub error_category : Option String
  pub error_message : Option String
  pub metadata_patch : Fields

-- `argument if argument is not None else value`
abbrev pub given {ℓ} : {A : Type ℓ} → Option A → Option A → Option A
given none v = v
given (some a) v = some a

abbrev pub sanitized : Texts → Option String → Option String
sanitized texts none = none
sanitized texts (some t) = some (texts.sanitize_message t)

-- The start and the end of a step; a step that is set back to `pending` keeps both instants.
abbrev pub step_marked : ℕ → StepStatus → OrchestrationStep → OrchestrationStep
step_marked now StepStatus.pending s = record s { status = StepStatus.pending }
step_marked now StepStatus.running s = record s {
  status = StepStatus.running;
  started_at = some (coalesce s.started_at now);
}
step_marked now target s = record s { status = target; completed_at = some now }

-- `meta.update(patch)`
abbrev pub merge : Fields → Fields → Fields
merge meta end = meta
merge meta (field k v fs) = merge (put k v meta) fs

abbrev pub patched : Texts → Fields → Fields → Fields
patched texts meta end = meta
patched texts meta (field k v fs) = merge meta (texts.sanitize_details (field k v fs))

abbrev pub step_after : Texts → ℕ → StepStatus → StepChange → OrchestrationStep → OrchestrationStep
step_after texts now target c s = record (step_marked now target s) {
  output_hash = given c.output_hash s.output_hash;
  proposal_id = given c.proposal_id s.proposal_id;
  error_category = given c.error_category s.error_category;
  error_message = given (sanitized texts c.error_message) s.error_message;
  metadata_json = patched texts s.metadata_json c.metadata_patch;
}

unfoldable pub transition_step :
    Texts → ℕ → OrchestrationStep → StepStatus → StepChange → Call OrchestrationStep
transition_step texts now step target c = do
  lift (assert_step_transition (step_value step.status) target)
  set_step step.id (step_after texts now target c)
  pure (step_after texts now target c step)

unfoldable pub add_event :
    Texts → ℕ → String → String → Option ℕ → Option String → Fields → Call (Unit {0})
add_event texts run_id event_type actor_type step_id actor_reference details = push_event (record {
  run_id = run_id;
  step_id = step_id;
  event_type = event_type;
  actor_type = actor_type;
  actor_reference = actor_reference;
  details_json = texts.sanitize_details details;
})

-- The steps of a run; their order does not matter to the callers modelled here.
unfoldable pub get_steps : ℕ → Call (List OrchestrationStep)
get_steps i = gets (λ db. select (λ s. s.run_id == i) db.steps)
