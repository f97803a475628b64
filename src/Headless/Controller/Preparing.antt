-- ===== src/Headless/Controller/Preparing.antt =====
-- What scripts/headless_orchestrator/controller.py does before a worker starts, and how a task that
-- has not ended can end.
use cine_forge.Prelude.{
  ℕ, ◌≤◌, ◌<◌, String, str_eq, eq_refl, ◌≡◌, refl, ap, ◌∙◌, ◌⊎◌, inl, inr, true, false, ◌&&◌, ◌||◌,
  not, none, some, List, [], ◌∷◌, any, length, arith, Bool-cases, leb,
}
use cine_forge.Prelude.Session.{Result, ok, err}
use cine_forge.Headless.Tasks.{TaskStatus, TaskSpec, allowed, terminal}
use cine_forge.Headless.Ledger.{
  Task, ProcessLease, Db, Error, go_on, task_row, set_task, create_run, record_event, add_task,
  task_status, transition, reserve_slot, release_slot, others, new_lease, new_task, limit_reached,
}
use cine_forge.Headless.Controller.Steps.{At, Unfinished, Ends, task_row-set_task}
use cine_forge.Headless.Controller.{World, record_failure, guarded, released, prepare}

-- How a guarded attempt ends: passed and returned, or blocked or failed and raised.
abbrev pub Settled : String → List ProcessLease → {A : Type 0} → Result Error A × Db → Type 0
Settled t held (ok a, l) =
    ((x : Task) × (task_row t l.tasks ≡ some x) × (x.status ≡ TaskStatus.passed))
    × (l.process_leases ≡ held)
Settled t held (err e, l) =
    ((x : Task) × (task_row t l.tasks ≡ some x)
      × ((x.status ≡ TaskStatus.blocked) ⊎ (x.status ≡ TaskStatus.failed)))
    × (l.process_leases ≡ held)

still_open :
    (q : TaskStatus)
    → Unfinished q
    → (q ≡ TaskStatus.blocked)
      ⊎ ((q ≡ TaskStatus.failed) ⊎ ((not (terminal q) && allowed q TaskStatus.failed) ≡ true))
still_open q (inl e) = inl e
still_open q (inr (inl e)) = inr (inl e)
still_open q (inr (inr (o, a))) = inr (inr (rw (o, a) refl))

closed_status :
    (q : TaskStatus)
    → (q ≡ TaskStatus.blocked) ⊎ (q ≡ TaskStatus.failed)
    → (not (terminal q) && allowed q TaskStatus.failed) ≡ false
closed_status q (inl e) = rw e refl
closed_status q (inr e) = rw e refl

module _ (now : ℕ) (spec : TaskSpec) (held : List ProcessLease) where
  -- The failure of an unfinished task is recorded, and its slot is given up.
  failure-Settled :
      (e : Error) (q : TaskStatus) (l : Db)
      → At spec.task_id held q l
      → Unfinished q
      → Settled spec.task_id held
          (released spec (record_failure {A = String × String} now spec e l))
  unfolding record_failure task_status transition record_event release_slot
  failure-Settled e q l ((x, found, status), rest) u = elim (still_open q u) [
    | inl b ↦
        let off = closed_status x.status (inl (status ∙ b)) in
        rw (found, off) ((x, found, inl (status ∙ b)), rest)
    | inr (inl f) ↦
        let off = closed_status x.status (inr (status ∙ f)) in
        rw (found, off) ((x, found, inr (status ∙ f)), rest)
    | inr (inr o) ↦
        let on : (not (terminal x.status) && allowed x.status TaskStatus.failed) ≡ true =
          ap (λ z. not (terminal z) && allowed z TaskStatus.failed) status ∙ o in
        let may : allowed x.status TaskStatus.failed ≡ true = ground arith in
        rw (found, on, found, may)
          (
            (
              record x { status = TaskStatus.failed; updated_at = now },
              task_row-set_task spec.task_id
                  (λ x. record x { status = TaskStatus.failed; updated_at = now }) l.tasks
                  (λ _. refl) found,
              inr refl,
            ),
            rest,
          )
  ]

  pub guarded-Settled :
      (x : Result Error (String × String) × Db)
      → Ends spec.task_id held (λ a l. At spec.task_id held TaskStatus.passed l) x
      → Settled spec.task_id held (released spec (guarded now spec x))
  unfolding release_slot
  guarded-Settled (ok a, l) h = h
  guarded-Settled (err e, l) (q, (h, u)) = failure-Settled e q l h u

-- The ledger after a change of a task, and after its event.
abbrev pub advanced : ℕ → String → String → TaskStatus → TaskStatus → Db → Db
advanced now r t current target l =
    (record_event r t "task_transition" (current ∷ target ∷ []) (record l {
      tasks = set_task t (λ x. record x { status = target; updated_at = now }) l.tasks;
    })).1

pub transition-ok :
    (now : ℕ) (r t : String) (target : TaskStatus) (l : Db) {x : Task}
    → task_row t l.tasks ≡ some x
    → allowed x.status target ≡ true
    → transition now r t target l ≡ (ok tt, advanced now r t x.status target l)
unfolding transition task_status record_event
transition-ok now r t target l found may = rw (found, may) refl

pub others-all :
    (t : String) (ls : List ProcessLease)
    → any (λ x. str_eq x.task_id t) ls ≡ false
    → others t ls ≡ ls
others-all t [] h = refl
others-all t (x ∷ xs) h = ground (arith, others-all t xs)

pub create_run-keeps :
    (r : String) (l : Db)
    → ((create_run r l).1.tasks ≡ l.tasks) × ((create_run r l).1.process_leases ≡ l.process_leases)
unfolding create_run
create_run-keeps r l = elim (Bool-cases (any (λ x. str_eq x r) l.runs)) [
  | inl e ↦ rw e (refl, refl)
  | inr e ↦ rw e (refl, refl)
]

-- The statements before the `try`, one after another.
pub prepares :
    (max_workers : ℕ) (w : World) (now : ℕ) (spec : TaskSpec) (l l1 l2 l3 l4 : Db)
    (r : Result Error (Unit {0}))
    → w.prompt_inside ≡ true
    → w.preflight ≡ true
    → create_run spec.run_id l ≡ (ok tt, l1)
    → add_task now spec l1 ≡ (ok tt, l2)
    → transition now spec.run_id spec.task_id TaskStatus.preparing l2 ≡ (ok tt, l3)
    → reserve_slot now spec.task_id w.lease_token max_workers l3 ≡ (r, l4)
    → prepare max_workers w now spec l
      ≡ go_on (r, l4) (λ _. transition now spec.run_id spec.task_id TaskStatus.leased)
unfolding prepare
prepares max_workers w now spec l l1 l2 l3 l4 r inside pre e0 e1 e2 e3 =
    rw (inside, pre, e0, e1, e2, e3) refl

pub add_task-ok :
    (now : ℕ) (spec : TaskSpec) (l : Db)
    → task_row spec.task_id l.tasks ≡ none
    → add_task now spec l ≡ (
      ok tt,
      (record_event spec.run_id spec.task_id "task_created" []
          (record l { tasks = new_task now spec ∷ l.tasks })).1,
    )
unfolding add_task record_event
add_task-ok now spec l fresh = rw fresh refl

-- The ledger with the new task, and then in `preparing`.
abbrev pub created : ℕ → TaskSpec → Db → Db
created now spec l =
    (record_event spec.run_id spec.task_id "task_created" []
      (record l { tasks = new_task now spec ∷ l.tasks })).1

pub created-row :
    (now : ℕ) (spec : TaskSpec) (l : Db)
    → task_row spec.task_id (created now spec l).tasks ≡ some (new_task now spec)
unfolding record_event
created-row now spec l = rw (eq_refl spec.task_id) refl

abbrev pub prepared : ℕ → TaskSpec → Db → Db
prepared now spec l =
    advanced now spec.run_id spec.task_id TaskStatus.queued TaskStatus.preparing
      (created now spec l)

pub prepared-row :
    (now : ℕ) (spec : TaskSpec) (l : Db)
    → task_row spec.task_id (prepared now spec l).tasks
      ≡ some (record (new_task now spec) { status = TaskStatus.preparing; updated_at = now })
unfolding record_event
prepared-row now spec l =
    task_row-set_task spec.task_id
      (λ x. record x { status = TaskStatus.preparing; updated_at = now }) (created now spec l).tasks
      (λ _. refl) (created-row now spec l)

pub reserve_slot-ok :
    (now : ℕ) (t token : String) (max_workers : ℕ) (l : Db)
    → any (λ x. str_eq x.task_id t || str_eq x.lease_token token) l.process_leases ≡ false
    → max_workers ≤ 64
    → length l.process_leases < max_workers
    → reserve_slot now t token max_workers l
      ≡ (ok tt, record l { process_leases = new_lease now t token ∷ l.process_leases })
unfolding reserve_slot
reserve_slot-ok now t token max_workers l free at_most room =
    let least : leb 1 max_workers ≡ true = ground arith in
    let most : leb max_workers 64 ≡ true = ground arith in
    let fits : leb max_workers (length l.process_leases) ≡ false = ground arith in
    rw (least, most, fits, free) refl

pub reserve_slot-full :
    (now : ℕ) (t token : String) (max_workers : ℕ) (l : Db)
    → 1 ≤ max_workers
    → max_workers ≤ 64
    → max_workers ≤ length l.process_leases
    → reserve_slot now t token max_workers l
      ≡ (err (limit_reached (length l.process_leases) max_workers), l)
unfolding reserve_slot
reserve_slot-full now t token max_workers l some_worker at_most full =
    let least : leb 1 max_workers ≡ true = ground arith in
    let most : leb max_workers 64 ≡ true = ground arith in
    let none_left : leb max_workers (length l.process_leases) ≡ true = ground arith in
    rw (least, most, none_left) refl

pub create_run-ok : (r : String) (l : Db) → create_run r l ≡ (ok tt, (create_run r l).1)
unfolding create_run
create_run-ok r l = refl
