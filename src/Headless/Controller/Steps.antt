-- ===== src/Headless/Controller/Steps.antt =====
-- Calls of scripts/headless_orchestrator/controller.py that keep a task open or end it.
use cine_forge.Prelude.{
  ℕ, String, ◌≡◌, refl, ◌∙◌, ◌⊎◌, true, false, Option, some, List, [], ◌∷◌, arith,
}
use cine_forge.Prelude.Json.{ℤ}
use cine_forge.Prelude.Session.{Result, ok, err}
use cine_forge.Headless.Tasks.{TaskStatus, allowed, terminal}
use cine_forge.Headless.Ledger.{
  Task, ProcessLease, Db, Error, Call, go_on, ◌>>=◌, ◌>>◌, task_row, set_task, set_lease,
  record_event, task_status, transition, attach_pid, heartbeat, complete_task, others,
}

-- The task has a status, and the leases of other tasks are as given.
abbrev pub At : String → List ProcessLease → TaskStatus → Db → Type 0
At t others_held q l =
    ((x : Task) × (task_row t l.tasks ≡ some x) × (x.status ≡ q))
    × (others t l.process_leases ≡ others_held)

-- The statuses in which the body of the `try` may fail.
abbrev pub Unfinished : TaskStatus → Type 0
Unfinished q =
    (q ≡ TaskStatus.blocked)
    ⊎ ((q ≡ TaskStatus.failed) ⊎ ((terminal q ≡ false) × (allowed q TaskStatus.failed ≡ true)))

pub task_row-set_task :
    (t : String) (f : Task → Task) (ts : List Task) {x : Task}
    → ((x : Task) → (f x).id ≡ x.id)
    → task_row t ts ≡ some x
    → task_row t (set_task t f ts) ≡ some (f x)
task_row-set_task t f [] keeps h = cc
task_row-set_task t f (y ∷ ys) {x} keeps h =
    ground (arith, keeps y, task_row-set_task t f ys {x = x} keeps)

others-set_lease :
    (t : String) (f : ProcessLease → ProcessLease) (ls : List ProcessLease)
    → ((x : ProcessLease) → (f x).task_id ≡ x.task_id)
    → others t (set_lease t f ls) ≡ others t ls
others-set_lease t f [] keeps = refl
others-set_lease t f (y ∷ ys) keeps = ground (arith, keeps y, others-set_lease t f ys keeps)

-- What a call leaves: a value with what is asked of it, or an unfinished task.
abbrev pub Ends :
    {A : Type 0} → String → List ProcessLease → (A → Db → Type 0) → Result Error A × Db → Type 0
Ends t held Q (ok a, l) = Q a l
Ends t held Q (err e, l) = (q : TaskStatus) × (At t held q l × Unfinished q)

abbrev pub Then : {A : Type 0} → String → List ProcessLease → TaskStatus → A → Db → Type 0
Then t held q a l = At t held q l

-- A call that takes the task from one status to another, or leaves it unfinished.
pub record Keeps {A : Type 0} (t : String) (held : List ProcessLease) (q q' : TaskStatus)
    (m : Call A) : Type 0 where
  pub run : (l : Db) → At t held q l → Ends t held (Then t held q') (m l)

Ends-go_on :
    {A B : Type 0} (t : String) (held : List ProcessLease) (q q' : TaskStatus)
    (x : Result Error A × Db) (f : A → Call B)
    → Ends t held (Then t held q) x
    → ((a : A) → Keeps t held q q' (f a))
    → Ends t held (Then t held q') (go_on x f)
Ends-go_on t held q q' (ok a, l) f h k = (k a).run l h
Ends-go_on t held q q' (err e, l) f h k = h

pub Keeps-bind :
    {A B : Type 0} {t : String} {held : List ProcessLease} {q q1 q' : TaskStatus} {m : Call A}
    {f : A → Call B}
    → Keeps t held q q1 m
    → ((a : A) → Keeps t held q1 q' (f a))
    → Keeps t held q q' (m >>= f)
Keeps-bind {t = t} {held = held} {q1 = q1} {q' = q'} {m = m} {f = f} h k = record {
  run = λ l here. Ends-go_on t held q1 q' (m l) f (h.run l here) k;
}

pub Keeps-next :
    {A B : Type 0} {t : String} {held : List ProcessLease} {q q1 q' : TaskStatus} {m : Call A}
    {k : Call B}
    → Keeps t held q q1 m
    → Keeps t held q1 q' k
    → Keeps t held q q' (m >> k)
Keeps-next {t = t} {held = held} {q1 = q1} {q' = q'} {m = m} {k = k} h h' = record {
  run = λ l here. Ends-go_on t held q1 q' (m l) (λ _. k) (h.run l here) (λ _. h');
}

module _ (t : String) (held : List ProcessLease) (now : ℕ) where
  pub Keeps-transition :
      (r : String) (q target : TaskStatus)
      → allowed q target ≡ true
      → Keeps t held q target (transition now r t target)
  unfolding transition task_status record_event
  Keeps-transition r q target h = record { run = moved }
    where
      moved :
          (l : Db) → At t held q l → Ends t held (Then t held target) (transition now r t target l)
      moved l ((x, found, status), rest) =
          let may : allowed x.status target ≡ true = rw status h in
          rw (found, may)
            (
              (
                record x { status = target; updated_at = now },
                task_row-set_task t (λ x. record x { status = target; updated_at = now }) l.tasks
                    (λ _. refl) found,
                refl,
              ),
              rest,
            )

  pub Keeps-complete :
      (q : TaskStatus) (code : ℤ) (a : Option (String × String))
      → Keeps t held q q (complete_task now t code a)
  unfolding complete_task
  Keeps-complete q code a = record {
    run = λ l here. (
      (
        record here.0.0 { exit_code = some code; output_artifact = a; updated_at = now },
        task_row-set_task t
            (λ x. record x { exit_code = some code; output_artifact = a; updated_at = now }) l.tasks
            (λ _. refl) here.0.1,
        here.0.2,
      ),
      here.1,
    );
  }

  pub Keeps-attach : (q : TaskStatus) (pid : ℕ) → Keeps t held q q (attach_pid now t pid)
  unfolding attach_pid
  Keeps-attach q pid = record {
    run = λ l here. (
      here.0,
      others-set_lease t (λ x. record x { pid = some pid; heartbeat_at = now }) l.process_leases
            (λ _. refl)
          ∙ here.1,
    );
  }

  pub Keeps-heartbeat : (q : TaskStatus) → Keeps t held q q (heartbeat now t)
  unfolding heartbeat
  Keeps-heartbeat q = record {
    run = λ l here. (
      here.0,
      others-set_lease t (λ x. record x { heartbeat_at = now }) l.process_leases (λ _. refl)
          ∙ here.1,
    );
  }
