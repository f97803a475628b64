-- ===== src/Planning/Tables.antt =====
-- The rows of backend/app/db/base.py that planning keeps. Identifiers and instants are numbers; a
-- query returns the rows in the order of the table.
use cine_forge.Prelude.{ℕ, String, Option, List, [], ◌∷◌, ◌++◌, ◌==◌, if◌then◌else◌, find?, str_eq}
use cine_forge.Prelude.Json.{Json, Fields, end, field}
use cine_forge.Prelude.Session.{M, modify}
use cine_forge.Planning.States.{RunStatus, StepStatus, Error}

pub record OrchestrationRun : Type 0 where
  pub id : ℕ
  pub story_id : ℕ
  pub status : RunStatus
  pub requested_by : Option String
  pub routing_snapshot_json : Fields
  pub current_step : ℕ
  pub max_steps : ℕ
  pub repair_budget : ℕ
  pub repair_used : ℕ
  pub execution_owner_id : Option String
  pub execution_claim_token : Option String
  pub execution_lease_expires_at : Option ℕ
  pub execution_heartbeat_at : Option ℕ
  pub execution_attempt : ℕ
  pub started_at : Option ℕ
  pub completed_at : Option ℕ
  pub failed_at : Option ℕ
  pub canceled_at : Option ℕ
  pub failure_category : Option String
  pub failure_message : Option String

pub record OrchestrationStep : Type 0 where
  pub id : ℕ
  pub run_id : ℕ
  pub sequence_index : ℕ
  pub attempt_number : ℕ
  pub status : StepStatus
  pub output_hash : Option String
  pub proposal_id : Option ℕ
  pub started_at : Option ℕ
  pub completed_at : Option ℕ
  pub error_category : Option String
  pub error_message : Option String
  pub metadata_json : Fields

pub record OrchestrationEvent : Type 0 where
  pub run_id : ℕ
  pub step_id : Option ℕ
  pub event_type : String
  pub actor_type : String
  pub actor_reference : Option String
  pub details_json : Fields

pub record Db : Type 0 where
  pub runs : List OrchestrationRun
  pub steps : List OrchestrationStep
  pub events : List OrchestrationEvent

-- `sanitize_message`, `sanitize_details`, and `text[:n]`.
pub record Texts : Type 0 where
  pub sanitize_message : String → String
  pub sanitize_details : Fields → Fields
  pub prefix : ℕ → String → String

abbrev pub Call {ℓ} : Type ℓ → Type ℓ
Call A = M Db Error A

-- `db.get`, and assignments to attributes of the row with an identifier.
abbrev pub run_row : ℕ → List OrchestrationRun → Option OrchestrationRun
run_row i rs = find? (λ r. r.id == i) rs

abbrev pub set_rows :
    ℕ → (OrchestrationRun → OrchestrationRun) → List OrchestrationRun → List OrchestrationRun
set_rows i f [] = []
set_rows i f (r ∷ rs) = (if r.id == i then f r else r) ∷ set_rows i f rs

abbrev pub step_row : ℕ → List OrchestrationStep → Option OrchestrationStep
step_row i ss = find? (λ s. s.id == i) ss

abbrev pub set_steps :
    ℕ → (OrchestrationStep → OrchestrationStep) → List OrchestrationStep → List OrchestrationStep
set_steps i f [] = []
set_steps i f (s ∷ ss) = (if s.id == i then f s else s) ∷ set_steps i f ss

abbrev pub set_run : ℕ → (OrchestrationRun → OrchestrationRun) → Call (Unit {0})
set_run i f = modify (λ (db : Db). record db { runs = set_rows i f db.runs })

abbrev pub set_step : ℕ → (OrchestrationStep → OrchestrationStep) → Call (Unit {0})
set_step i f = modify (λ (db : Db). record db { steps = set_steps i f db.steps })

abbrev pub push_event : OrchestrationEvent → Call (Unit {0})
push_event e = modify (λ (db : Db). record db { events = db.events ++ e ∷ [] })

-- `snapshot[key] = value`
abbrev pub put : String → Json → Fields → Fields
put k v end = field k v end
put k v (field j w fs) = if str_eq j k then field j v fs else field j w (put k v fs)
