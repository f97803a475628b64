-- ===== src/Queue/Store.antt =====
-- The rows of backend/app/db/base.py that the queue reads and writes, and a database session.
-- A session sees its own uncommitted changes; `durable` is what other sessions see. Identifiers
-- and instants are numbers; a query returns the rows in the order of their identifiers.

pub mod Rows
use cine_forge.Prelude.{
  ℕ, ◌<◌, String, Bool, true, false, Option, none, some, List, [], ◌∷◌, ◌++◌, map, ◌==◌, leb,
  if◌then◌else◌, find?,
}
use cine_forge.Prelude.Json.{ℤ, Json}
use cine_forge.Queue.Status.{QueueStatus}
use cine_forge.Queue.Machine.{Error, Result, ok, err}

-- The document that recovery keeps in a job's `recovery_metadata`; `none` is a missing key.
pub record RecoveryMetadata : Type 0 where
  pub recovery_count : Option ℕ
  pub last_recovery_reason : Option String
  pub last_recovered_at : Option ℕ
  pub previous_worker_id : Option String
  pub previous_state : Option String
  pub new_state : Option String
  pub max_attempts : Option ℕ
  pub attempt_count : Option ℕ

-- The messages of a failed readiness check, and those that a failed submission stores in
-- `error_message`, with what each is formatted from.
pub data Problem : Type 0 where
  not_found : ℕ → Problem
  not_reserved : String → Problem
  other_worker has_prompt_id missing_workflow missing_manifest : Problem
  run_not_found template_not_found : ℕ → Problem
  incompatible : String → Problem

pub data ErrorMessage : Type 0 where
  joined : List Problem → ErrorMessage
  exception : String → ErrorMessage
  node_errors : Json → ErrorMessage
  missing_prompt_id : ErrorMessage

pub record ComfyJob : Type 0 where
  pub id : ℕ
  pub workflow_run_id : ℕ
  pub prompt_id : Option String
  pub client_id : Option String
  pub queue_number : Option ℤ
  pub status : QueueStatus
  pub worker_id : Option String
  pub reserved_at : Option ℕ
  pub heartbeat_at : Option ℕ
  pub attempt_count : ℕ
  pub last_state_change_at : Option ℕ
  pub recovery_metadata : RecoveryMetadata
  pub error_message : Option ErrorMessage
  pub submitted_at : Option ℕ

pub record WorkflowRun : Type 0 where
  pub id : ℕ
  pub workflow_template_id : ℕ
  pub patched_workflow_json : Json
  pub status : String

pub record WorkflowTemplate : Type 0 where
  pub id : ℕ
  pub manifest_json : Json

-- A value in the `details` of an audit entry.
pub data Value : Type 0 where
  null : Value
  text : String → Value
  number : ℕ → Value
  integer : ℤ → Value
  time : ℕ → Value
  message : ErrorMessage → Value

pub record AuditLog : Type 0 where
  pub entity_type : String
  pub entity_id : ℕ
  pub action : String
  pub details : List (String × Value)

pub record Db : Type 0 where
  pub jobs : List ComfyJob
  pub runs : List WorkflowRun
  pub templates : List WorkflowTemplate
  pub audit : List AuditLog

pub record Session : Type 0 where
  pub db : Db
  pub durable : Db

-- A call on a session: what it returns or raises, and the session after it.
abbrev pub M {ℓ} : Type ℓ → Type ℓ
M A = Session → Result A × Session

module _ {ℓ} {A : Type ℓ} where
  abbrev pub pure : A → M A
  pure a s = (ok a, s)

  abbrev pub raise : Error → M A
  raise e s = (err e, s)

  abbrev pub gets : (Db → A) → M A
  gets f s = (ok (f s.db), s)

  -- The outcome of a pure computation.
  abbrev pub lift : Result A → M A
  lift r s = (r, s)

-- How a call goes on from what an earlier one came to.
abbrev pub go_on {ℓ κ} :
    {A : Type ℓ} {B : Type κ} → Result A × Session → (A → M B) → Result B × Session
go_on (ok a, s) f = f a s
go_on (err e, s) f = (err e, s)

infixl 5 ◌>>=◌ ◌>>◌
abbrev pub ◌>>=◌ {ℓ κ} : {A : Type ℓ} {B : Type κ} → M A → (A → M B) → M B
◌>>=◌ m f s = go_on (m s) f

abbrev pub ◌>>◌ {ℓ κ} : {A : Type ℓ} {B : Type κ} → M A → M B → M B
m >> k = m >>= λ _. k

-- `db.commit()` and `db.rollback()`
abbrev pub commit : M (Unit {0})
commit s = (ok tt, record s { durable = s.db })

abbrev pub rollback : M (Unit {0})
rollback s = (ok tt, record s { db = s.durable })

-- `try: … except (InvalidTransition, ValueError): db.rollback(); raise`
abbrev pub or_rollback {ℓ} : {A : Type ℓ} → Result A → M A
or_rollback (ok a) s = (ok a, s)
or_rollback (err e) s = (err e, record s { db = s.durable })

-- `db.get(ComfyJob, job_id)`, and the two other tables.
abbrev pub get_job : ℕ → Db → Option ComfyJob
get_job i db = find? (λ j. j.id == i) db.jobs

abbrev pub get_run : ℕ → Db → Option WorkflowRun
get_run i db = find? (λ r. r.id == i) db.runs

abbrev pub get_template : ℕ → Db → Option WorkflowTemplate
get_template i db = find? (λ t. t.id == i) db.templates

-- An assignment to attributes of the row with an identifier.
abbrev pub update_rows : ℕ → (ComfyJob → ComfyJob) → List ComfyJob → List ComfyJob
update_rows i f [] = []
update_rows i f (j ∷ js) = (if j.id == i then f j else j) ∷ update_rows i f js

abbrev pub update_runs : ℕ → (WorkflowRun → WorkflowRun) → List WorkflowRun → List WorkflowRun
update_runs i f [] = []
update_runs i f (r ∷ rs) = (if r.id == i then f r else r) ∷ update_runs i f rs

abbrev pub set_job : ℕ → (ComfyJob → ComfyJob) → M (Unit {0})
set_job i f s = (ok tt, record s { db = record s.db { jobs = update_rows i f s.db.jobs } })

abbrev pub set_run : ℕ → (WorkflowRun → WorkflowRun) → M (Unit {0})
set_run i f s = (ok tt, record s { db = record s.db { runs = update_runs i f s.db.runs } })

-- `db.add(AuditLog(…))`
abbrev pub add_audit : AuditLog → M (Unit {0})
add_audit a s = (ok tt, record s { db = record s.db { audit = s.db.audit ++ a ∷ [] } })

-- `ORDER BY id`
unfoldable pub insert_by_id : ComfyJob → List ComfyJob → List ComfyJob
insert_by_id j [] = j ∷ []
insert_by_id j (k ∷ ks) =
    let later = k ∷ insert_by_id j ks in if leb j.id k.id then j ∷ k ∷ ks else later

unfoldable pub order_by_id : List ComfyJob → List ComfyJob
unfolding insert_by_id
order_by_id [] = []
order_by_id (j ∷ js) = insert_by_id j (order_by_id js)
