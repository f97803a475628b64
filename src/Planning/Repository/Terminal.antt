-- ===== src/Planning/Repository/Terminal.antt =====
-- Runs that are over, under the calls of backend/app/services/planning/repository.py.
use cine_forge.Prelude.{
  ℕ, ◌+◌, String, ◌≡◌, refl, sym, ap, ◌∙◌, inl, inr, true, false, Option, some, ◌==◌, arith,
  Bool-cases, Option-cases, leb,
}
use cine_forge.Prelude.Session.{Session, ok}
use cine_forge.Planning.States.{
  RunStatus, run_value, run_terminal, same_run, assert_run_transition, parse_run_status,
  run_transitions,
}
use cine_forge.Planning.Tables.{OrchestrationRun, Db, Texts, run_row, set_rows}
use cine_forge.Planning.Repository.{
  leased, is_pending, is_recoverable, acquire_execution_lease, owns, renewed, renew_execution_lease,
  run_after, transition_run, bump_repair_used,
}
use cine_forge.Planning.Repository.Ownership.{renew-found, renew-absent, run_row-set_rows_ne}
use cine_forge.Planning.Repository.Acquiring.{
  run_row-set_rows, with_rows, begun, acquire-pending, acquire-lapsed, acquire-held, acquire-absent,
}
use cine_forge.Planning.Repository.Constraints.{
  Runs, start, acquire, renew, change, repair, IsValid, Runs-IsValid, run_after-id, Result-cases,
}

-- The run has a status.
abbrev Stands : ℕ → RunStatus → Session Db → Type 0
Stands i q s = (r : OrchestrationRun) × (run_row i s.db.runs ≡ some r) × (r.status ≡ q)

-- An update of a run, which keeps the status of the one that is watched.
Stands-set :
    (i j : ℕ) (q : RunStatus) (f : OrchestrationRun → OrchestrationRun) (s : Session Db)
    → ((r : OrchestrationRun) → (f r).id ≡ r.id)
    → ((r : OrchestrationRun)
        → run_row j s.db.runs ≡ some r
        → r.status ≡ q
        → j ≡ i
        → (f r).status ≡ q)
    → Stands i q s
    → Stands i q (with_rows (set_rows j f) s)
Stands-set i j q f s keeps same (r, found, status) = elim (Bool-cases (i == j)) [
  | inl e ↦
      let ji : j ≡ i = ground arith in
      (f r, rw ji (run_row-set_rows i f s.db.runs keeps found), same r (rw ji found) status ji)
  | inr e ↦ (r, run_row-set_rows_ne j i f s.db.runs keeps (λ h. ground (arith, e)) ∙ found, status)
]

same_row :
    (i j : ℕ) (s : Session Db) (r r' : OrchestrationRun)
    → j ≡ i
    → run_row i s.db.runs ≡ some r
    → run_row j s.db.runs ≡ some r'
    → r ≡ r'
same_row i j s r r' e a b =
    let b' : run_row i s.db.runs ≡ some r' = rw (sym e) b in
    let both : some r ≡ some r' = sym a ∙ b' in cc

terminal-not_open :
    (now i : ℕ) (r : OrchestrationRun)
    → run_terminal r.status ≡ true
    → (is_pending i r ≡ false) × (is_recoverable now i r ≡ false)
unfolding same_run
terminal-not_open now i r h = ground arith

module _ (q : RunStatus) (over : run_terminal q ≡ true) (i : ℕ) (s : Session Db) where
  -- The watched run is not one that the call may change.
  closed :
      (now j : ℕ) (r : OrchestrationRun)
      → run_row j s.db.runs ≡ some r
      → Stands i q s
      → j ≡ i
      → (is_pending j r ≡ false) × (is_recoverable now j r ≡ false)
  closed now j r found (w, there, status) ji =
      let wr = same_row i j s w r ji there found in
      let done : run_terminal r.status ≡ true =
        ap run_terminal (ap (λ (x : OrchestrationRun). x.status) (sym wr) ∙ status) ∙ over in
      terminal-not_open now j r done

  acquire-Stands :
      (texts : Texts) (now j : ℕ) (owner token : String) (seconds : ℕ)
      → IsValid s
      → Stands i q s
      → Stands i q (acquire_execution_lease texts now j owner token seconds s).1
  acquire-Stands texts now j owner token seconds v h = elim (Option-cases (run_row j s.db.runs)) [
    | inl absent ↦ rw (acquire-absent texts now j owner token seconds s absent) h
    | inr (r, found) ↦ elim (Bool-cases (is_pending j r)) [
      | inl p ↦ rw (acquire-pending texts now j owner token seconds s v.0 found p) (
          Stands-set i j q (begun texts now owner token seconds) s (λ _. refl)
            (λ x fx st ji. absurd (cc (sym (closed now j r found h ji).0 ∙ p))) h)
      | inr p ↦ elim (Bool-cases (is_recoverable now j r)) [
        | inl l ↦ rw (acquire-lapsed texts now j owner token seconds s v.0 found p l) (
            Stands-set i j q (leased texts now owner token seconds) s (λ _. refl) (λ x fx st ji. st)
              h)
        | inr l ↦ rw (acquire-held texts now j owner token seconds s v.0 found p l) h
      ]
    ]
  ]

  renew-Stands :
      (now j : ℕ) (owner token : String) (seconds : ℕ)
      → IsValid s
      → Stands i q s
      → Stands i q (renew_execution_lease now j owner token seconds s).1
  renew-Stands now j owner token seconds v h = elim (Option-cases (run_row j s.db.runs)) [
    | inl absent ↦ rw (renew-absent now j owner token seconds s absent) h
    | inr (r, found) ↦ elim (Bool-cases (owns now j owner token r)) [
      | inl mine ↦
          rw (renew-found now j owner token seconds s v.0 found, mine)
            (Stands-set i j q (renewed now seconds) s (λ _. refl) (λ x fx st ji. st) h)
      | inr other ↦ rw (renew-found now j owner token seconds s v.0 found, other) h
    ]
  ]

  repair-Stands : (r : OrchestrationRun) → Stands i q s → Stands i q (bump_repair_used r s).1
  unfolding bump_repair_used
  repair-Stands r h = elim (Bool-cases (leb r.repair_budget r.repair_used)) [
    | inl spent ↦ rw spent h
    | inr left ↦ rw left (
        Stands-set i r.id q (λ x. record x { repair_used = x.repair_used + 1 }) s (λ _. refl)
          (λ x fx st ji. st) h)
  ]

run_after-status :
    (texts : Texts) (now : ℕ) (target : RunStatus) (category message : Option String)
    (r : OrchestrationRun)
    → (run_after texts now target category message r).status ≡ target
run_after-status texts now RunStatus.pending category message r = refl
run_after-status texts now RunStatus.running category message r = refl
run_after-status texts now RunStatus.completed category message r = refl
run_after-status texts now RunStatus.failed category message r = refl
run_after-status texts now RunStatus.canceled category message r = refl

-- The only change that is allowed from a status of a run that is over is to that status.
terminal_target :
    (q target x : RunStatus)
    → run_terminal q ≡ true
    → assert_run_transition (run_value q) target ≡ ok x
    → target ≡ q
unfolding assert_run_transition parse_run_status same_run run_transitions
terminal_target RunStatus.pending target x h e = cc
terminal_target RunStatus.running target x h e = cc
terminal_target RunStatus.completed RunStatus.completed x h e = refl
terminal_target RunStatus.completed _ x h e = cc
terminal_target RunStatus.failed RunStatus.failed x h e = refl
terminal_target RunStatus.failed _ x h e = cc
terminal_target RunStatus.canceled RunStatus.canceled x h e = refl
terminal_target RunStatus.canceled _ x h e = cc

allowed_target :
    (s : Session Db) (r y : OrchestrationRun) (q target x : RunStatus)
    → run_terminal q ≡ true
    → run_row r.id s.db.runs ≡ some r
    → run_row r.id s.db.runs ≡ some y
    → y.status ≡ q
    → assert_run_transition (run_value r.status) target ≡ ok x
    → target ≡ q
allowed_target s r y q target x over found fy st fine =
    let ry = same_row r.id r.id s r y refl found fy in
    let rq : r.status ≡ q = ap (λ (z : OrchestrationRun). z.status) ry ∙ st in
    terminal_target q target x over
      (ap (λ z. assert_run_transition (run_value z) target) (sym rq) ∙ fine)

change-Stands :
    (q : RunStatus)
    → run_terminal q ≡ true
    → (i : ℕ) (s : Session Db) (texts : Texts) (now : ℕ) (r : OrchestrationRun) (target : RunStatus)
      (category message : Option String)
    → run_row r.id s.db.runs ≡ some r
    → Stands i q s
    → Stands i q (transition_run texts now r target category message s).1
unfolding transition_run
change-Stands q over i s texts now r target category message found h =
    elim (Result-cases (assert_run_transition (run_value r.status) target)) [
      | inl (e, refused) ↦ rw refused h
      | inr (x, fine) ↦ rw fine (
          Stands-set i r.id q (run_after texts now target category message) s
            (run_after-id texts now target category message)
            (λ y fy st ji.
              run_after-status texts now target category message y
              ∙ allowed_target s r y q target x over found fy st fine)
            h)
    ]

-- A run that is completed, failed or canceled keeps that status for ever, whatever calls follow.
pub terminal_forever :
    {s t : Session Db} (i : ℕ) (q : RunStatus)
    → run_terminal q ≡ true
    → IsValid s
    → Runs s t
    → (r : OrchestrationRun) × (run_row i s.db.runs ≡ some r) × (r.status ≡ q)
    → (r : OrchestrationRun) × (run_row i t.db.runs ≡ some r) × (r.status ≡ q)
terminal_forever i q over v start h = h
terminal_forever i q over v (acquire {t = t} r texts now j owner token seconds) h =
    acquire-Stands q over i t texts now j owner token seconds (Runs-IsValid r v)
      (terminal_forever i q over v r h)
terminal_forever i q over v (renew {t = t} r now j owner token seconds) h =
    renew-Stands q over i t now j owner token seconds (Runs-IsValid r v)
      (terminal_forever i q over v r h)
terminal_forever i q over v (change {t = t} r texts now run target category message found) h =
    change-Stands q over i t texts now run target category message found
      (terminal_forever i q over v r h)
terminal_forever i q over v (repair {t = t} r run found) h =
    repair-Stands q over i t run (terminal_forever i q over v r h)
