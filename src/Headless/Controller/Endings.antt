-- ===== src/Headless/Controller/Endings.antt =====
-- How `run_task` of scripts/headless_orchestrator/controller.py ends, whatever the worker does.
use cine_forge.Prelude.{
  ℕ, ◌≤◌, ◌<◌, String, str_eq, eq_refl, ◌≡◌, refl, ap, ◌∙◌, true, false, ◌||◌, none, some, List, [],
  ◌∷◌, any, length, arith,
}
use cine_forge.Prelude.Session.{Result, ok, err}
use cine_forge.Headless.Tasks.{TaskStatus, TaskSpec, allowed}
use cine_forge.Headless.Ledger.{
  Task, ProcessLease, Db, Error, go_on, task_row, create_run, record_event, transition,
  reserve_slot, others, new_lease, new_task, limit_reached,
}
use cine_forge.Headless.Controller.Runs.{Keeps-attempt}
use cine_forge.Headless.Controller.Steps.{At, task_row-set_task}
use cine_forge.Headless.Controller.{World, attempt, guarded, released, prepare, run_task}
use cine_forge.Headless.Controller.Preparing.{
  Settled, guarded-Settled, advanced, transition-ok, others-all, create_run-keeps, prepares,
  add_task-ok, created, created-row, prepared, prepared-row, reserve_slot-ok, reserve_slot-full,
  create_run-ok,
}

-- The ledger after `reserve_slot`.
abbrev reserved : ℕ → World → TaskSpec → Db → Db
reserved now w spec l =
    let l3 = prepared now spec (create_run spec.run_id l).1 in
    record l3 { process_leases = new_lease now spec.task_id w.lease_token ∷ l3.process_leases }

abbrev begun : ℕ → World → TaskSpec → Db → Db
begun now w spec l =
    advanced now spec.run_id spec.task_id TaskStatus.preparing TaskStatus.leased
      (reserved now w spec l)

module _ (max_workers : ℕ) (w : World) (now : ℕ) (spec : TaskSpec) (l : Db)
    (inside : w.prompt_inside ≡ true) (pre : w.preflight ≡ true)
    (fresh : task_row spec.task_id l.tasks ≡ none) where
  reaches :
      (r : Result Error (Unit {0})) (l4 : Db)
      → reserve_slot now spec.task_id w.lease_token max_workers
          (prepared now spec (create_run spec.run_id l).1)
        ≡ (r, l4)
      → prepare max_workers w now spec l
        ≡ go_on (r, l4) (λ _. transition now spec.run_id spec.task_id TaskStatus.leased)
  reaches r l4 slot =
      let l1 = (create_run spec.run_id l).1 in
      let absent : task_row spec.task_id l1.tasks ≡ none =
        ap (task_row spec.task_id) (create_run-keeps spec.run_id l).0 ∙ fresh in
      prepares max_workers w now spec l l1 (created now spec l1) (prepared now spec l1) l4 r inside
        pre (create_run-ok spec.run_id l) (add_task-ok now spec l1 absent)
        (transition-ok now spec.run_id spec.task_id TaskStatus.preparing (created now spec l1)
          (created-row now spec l1) (unfold allowed in refl))
        slot

  begins :
      any
          (λ x. str_eq x.task_id spec.task_id || str_eq x.lease_token w.lease_token)
          l.process_leases
        ≡ false
      → max_workers ≤ 64
      → length l.process_leases < max_workers
      → prepare max_workers w now spec l ≡ (ok tt, begun now w spec l)
  unfolding record_event
  begins free at_most room =
      let l1 = (create_run spec.run_id l).1 in
      let same = (create_run-keeps spec.run_id l).1 in
      reaches (ok tt) (reserved now w spec l) (
        reserve_slot-ok now spec.task_id w.lease_token max_workers (prepared now spec l1)
          (ap (any (λ x. str_eq x.task_id spec.task_id || str_eq x.lease_token w.lease_token)) same
            ∙ free)
          at_most (rw same room))
      ∙ transition-ok now spec.run_id spec.task_id TaskStatus.leased (reserved now w spec l)
          (prepared-row now spec l1) (unfold allowed in refl)

advanced-At :
    (now : ℕ) (r t : String) (held : List ProcessLease) (current q target : TaskStatus) (l : Db)
    → At t held q l
    → At t held target (advanced now r t current target l)
unfolding record_event
advanced-At now r t held current q target l ((x, found, status), rest) = (
  (
    record x { status = target; updated_at = now },
    task_row-set_task t (λ x. record x { status = target; updated_at = now }) l.tasks (λ _. refl)
        found,
    refl,
  ),
  rest,
)

begun-At :
    (w : World) (now : ℕ) (spec : TaskSpec) (l : Db)
    → any (λ x. str_eq x.task_id spec.task_id) l.process_leases ≡ false
    → At spec.task_id l.process_leases TaskStatus.leased (begun now w spec l)
unfolding record_event
begun-At w now spec l free =
    let t = spec.task_id in
    let l1 = (create_run spec.run_id l).1 in
    let rest : others t l1.process_leases ≡ l.process_leases =
      ap (others t) (create_run-keeps spec.run_id l).1 ∙ others-all t l.process_leases free in
    let (row, leases) =
      advanced-At now spec.run_id t l.process_leases TaskStatus.queued TaskStatus.queued
        TaskStatus.preparing (created now spec l1)
        ((new_task now spec, created-row now spec l1, refl), rest) in
    let slotted : At t l.process_leases TaskStatus.preparing (reserved now w spec l) =
      (row, rw (eq_refl t) leases) in
    advanced-At now spec.run_id t l.process_leases TaskStatus.preparing TaskStatus.preparing
      TaskStatus.leased (reserved now w spec l) slotted

any-weaken :
    (t token : String) (ls : List ProcessLease)
    → any (λ x. str_eq x.task_id t || str_eq x.lease_token token) ls ≡ false
    → any (λ x. str_eq x.task_id t) ls ≡ false
any-weaken t token [] h = refl
any-weaken t token (x ∷ xs) h = ground (arith, any-weaken t token xs)

-- A new task that gets a slot always comes to an end, whatever the worker, its answer, the worktree
-- and the tests do: `run_task` returns and the task has passed, or it raises and the task is blocked
-- or failed. In each case its slot is free again, and the slots of other tasks are as before.
pub run_task-Settled :
    (max_workers : ℕ) (w : World) (now : ℕ) (spec : TaskSpec) (l : Db)
    → w.prompt_inside ≡ true
    → w.preflight ≡ true
    → task_row spec.task_id l.tasks ≡ none
    → any
        (λ x. str_eq x.task_id spec.task_id || str_eq x.lease_token w.lease_token)
        l.process_leases
      ≡ false
    → max_workers ≤ 64
    → length l.process_leases < max_workers
    → Settled spec.task_id l.process_leases (run_task max_workers w now spec l)
unfolding run_task
run_task-Settled max_workers w now spec l inside pre fresh free at_most room =
    let here =
      begun-At w now spec l (any-weaken spec.task_id w.lease_token l.process_leases free) in
    let ends = (Keeps-attempt w now spec l.process_leases).run (begun now w spec l) here in
    rw (begins max_workers w now spec l inside pre fresh free at_most room)
      (guarded-Settled now spec l.process_leases (attempt w now spec (begun now w spec l)) ends)

-- A new task that finds no free slot raises before its `try`: it is left in `preparing`, and no
-- failure is recorded.
pub run_task-full :
    (max_workers : ℕ) (w : World) (now : ℕ) (spec : TaskSpec) (l : Db)
    → w.prompt_inside ≡ true
    → w.preflight ≡ true
    → task_row spec.task_id l.tasks ≡ none
    → 1 ≤ max_workers
    → max_workers ≤ 64
    → max_workers ≤ length l.process_leases
    → let stuck = prepared now spec (create_run spec.run_id l).1 in
      (run_task max_workers w now spec l
        ≡ (err (limit_reached (length l.process_leases) max_workers), stuck))
      × ((x : Task) × (task_row spec.task_id stuck.tasks ≡ some x)
          × (x.status ≡ TaskStatus.preparing))
unfolding run_task record_event
run_task-full max_workers w now spec l inside pre fresh some_worker at_most full =
    let l1 = (create_run spec.run_id l).1 in
    let same = (create_run-keeps spec.run_id l).1 in
    let refused =
      reserve_slot-full now spec.task_id w.lease_token max_workers (prepared now spec l1)
        some_worker at_most (rw same full) in
    let done =
      reaches max_workers w now spec l inside pre fresh
        (err (limit_reached (length l1.process_leases) max_workers)) (prepared now spec l1)
        refused in
    (
      ap
            (λ (o : Result Error (Unit {0}) × Db).
              go_on o (λ _ l'. released spec (guarded now spec (attempt w now spec l'))))
            done
          ∙ renamed (create_run spec.run_id l).1.process_leases l.process_leases same,
      (
        record (new_task now spec) { status = TaskStatus.preparing; updated_at = now },
        prepared-row now spec l1,
        refl,
      ),
    )
  where
    renamed :
        (ls ms : List ProcessLease)
        → ls ≡ ms
        → ◌≡◌ {A = Result Error (String × String) × Db}
            (
              err (limit_reached (length ls) max_workers),
              prepared now spec (create_run spec.run_id l).1,
            )
            (
              err (limit_reached (length ms) max_workers),
              prepared now spec (create_run spec.run_id l).1,
            )
    renamed ls ms e = rw e refl
