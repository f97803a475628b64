-- ===== src/Headless/Ledger.antt =====
-- scripts/headless_orchestrator/ledger.py: the tables of the ledger, and the calls on them. Each
-- statement is committed at once, so the state is the database itself; `reserve_slot` changes
-- nothing before it raises. `now` is the instant of a call.
pub mod Slots
use cine_forge.Prelude.{
  ℕ, ◌+◌, String, str_eq, Bool, true, false, ◌&&◌, ◌||◌, not, Option, none, some, List, [], ◌∷◌,
  ◌++◌, ◌==◌, leb, any, find?, select, length, if◌then◌else◌, is_some,
}
use cine_forge.Prelude.Json.{ℤ}
use cine_forge.Prelude.Session.{Result, ok, err}
use cine_forge.Headless.Tasks.{TaskStatus, TaskSpec, allowed}

pub record Task : Type 0 where
  pub id : String
  pub run_id : String
  pub role : String
  pub status : TaskStatus
  pub exit_code : Option ℤ
  pub output_artifact : Option (String × String)
  pub updated_at : ℕ

pub record ProcessLease : Type 0 where
  pub task_id : String
  pub lease_token : String
  pub pid : Option ℕ
  pub acquired_at : ℕ
  pub heartbeat_at : ℕ

-- Of an event's details, the statuses that it names.
pub record Event : Type 0 where
  pub run_id : String
  pub task_id : String
  pub event_type : String
  pub statuses : List TaskStatus

pub record Db : Type 0 where
  pub runs : List String
  pub tasks : List Task
  pub process_leases : List ProcessLease
  pub events : List Event

-- What the orchestrator raises: `KeyError`, `ValueError`, `IntegrityError`, the `RuntimeError` at
-- the worker limit, and a failure of a task.
pub data Error : Type 0 where
  unknown_task : String → Error
  invalid_transition : TaskStatus → TaskStatus → Error
  bad_limit : ℕ → Error
  integrity_error : Error
  limit_reached : ℕ → ℕ → Error
  task_failed : String → Error

abbrev pub Call : Type 0 → Type 0
Call A = Db → Result Error A × Db

module _ {A : Type 0} where
  abbrev pub pure : A → Call A
  pure a l = (ok a, l)

  abbrev pub raise : Error → Call A
  raise e l = (err e, l)

module _ {A B : Type 0} where
  abbrev pub go_on : Result Error A × Db → (A → Call B) → Result Error B × Db
  go_on (ok a, l) f = f a l
  go_on (err e, l) f = (err e, l)

infixl 5 ◌>>=◌ ◌>>◌
abbrev pub ◌>>=◌ : {A B : Type 0} → Call A → (A → Call B) → Call B
◌>>=◌ m f l = go_on (m l) f

abbrev pub ◌>>◌ : {A B : Type 0} → Call A → Call B → Call B
m >> k = m >>= λ _. k

abbrev pub task_row : String → List Task → Option Task
task_row t ts = find? (λ x. str_eq x.id t) ts

abbrev pub set_task : String → (Task → Task) → List Task → List Task
set_task t f [] = []
set_task t f (x ∷ xs) = (if str_eq x.id t then f x else x) ∷ set_task t f xs

abbrev pub set_lease :
    String → (ProcessLease → ProcessLease) → List ProcessLease → List ProcessLease
set_lease t f [] = []
set_lease t f (x ∷ xs) = (if str_eq x.task_id t then f x else x) ∷ set_lease t f xs

-- `INSERT OR IGNORE`
unfoldable pub create_run : String → Call (Unit {0})
create_run r l =
    (ok tt, (if any (λ x. str_eq x r) l.runs then l else record l { runs = r ∷ l.runs }))

unfoldable pub record_event : String → String → String → List TaskStatus → Call (Unit {0})
record_event r t event_type statuses l = (
  ok tt,
  record l {
    events =
        l.events
        ++ record { run_id = r; task_id = t; event_type = event_type; statuses = statuses } ∷ [];
  },
)

abbrev pub new_task : ℕ → TaskSpec → Task
new_task now spec = record {
  id = spec.task_id;
  run_id = spec.run_id;
  role = spec.role;
  status = TaskStatus.queued;
  exit_code = none;
  output_artifact = none;
  updated_at = now;
}

-- The primary key of `tasks` refuses a second row.
unfoldable pub add_task : ℕ → TaskSpec → Call (Unit {0})
unfolding record_event
add_task now spec l =
    if is_some (task_row spec.task_id l.tasks)
    then (err integrity_error, l)
    else record_event spec.run_id spec.task_id "task_created" []
        (record l { tasks = new_task now spec ∷ l.tasks })

unfoldable pub task_status : String → Call TaskStatus
task_status t l = read (task_row t l.tasks)
  where
    read : Option Task → Result Error TaskStatus × Db
    read none = (err (unknown_task t), l)
    read (some x) = (ok x.status, l)

unfoldable pub transition : ℕ → String → String → TaskStatus → Call (Unit {0})
unfolding task_status record_event
transition now r t target = do
  current ← task_status t
  if allowed current target
      then (do
        (λ l. (
          ok tt,
          record l {
            tasks = set_task t (λ x. record x { status = target; updated_at = now }) l.tasks;
          },
        ))
        record_event r t "task_transition" (current ∷ target ∷ []))
      else raise (invalid_transition current target)

abbrev pub new_lease : ℕ → String → String → ProcessLease
new_lease now t token = record {
  task_id = t;
  lease_token = token;
  pid = none;
  acquired_at = now;
  heartbeat_at = now;
}

-- The primary key and the unique column of `process_leases` refuse a second row.
unfoldable pub reserve_slot : ℕ → String → String → ℕ → Call (Unit {0})
reserve_slot now t token max_active l =
    if not (leb 1 max_active && leb max_active 64)
    then (err (bad_limit max_active), l)
    else (if leb max_active (length l.process_leases)
        then (err (limit_reached (length l.process_leases) max_active), l)
        else (if any (λ x. str_eq x.task_id t || str_eq x.lease_token token) l.process_leases
            then (err integrity_error, l)
            else (ok tt, record l { process_leases = new_lease now t token ∷ l.process_leases })))

unfoldable pub attach_pid : ℕ → String → ℕ → Call (Unit {0})
attach_pid now t pid l = (
  ok tt,
  record l {
    process_leases =
        set_lease t (λ x. record x { pid = some pid; heartbeat_at = now }) l.process_leases;
  },
)

unfoldable pub heartbeat : ℕ → String → Call (Unit {0})
heartbeat now t l = (
  ok tt,
  record l { process_leases = set_lease t (λ x. record x { heartbeat_at = now }) l.process_leases },
)

-- The leases of other tasks.
abbrev pub others : String → List ProcessLease → List ProcessLease
others t ls = select (λ x. not (str_eq x.task_id t)) ls

unfoldable pub release_slot : String → Call (Unit {0})
release_slot t l = (ok tt, record l { process_leases = others t l.process_leases })

unfoldable pub complete_task : ℕ → String → ℤ → Option (String × String) → Call (Unit {0})
complete_task now t exit_code artifact l = (
  ok tt,
  record l {
    tasks =
        set_task t
          (λ x. record x {
            exit_code = some exit_code;
            output_artifact = artifact;
            updated_at = now;
          })
          l.tasks;
  },
)
