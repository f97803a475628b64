-- ===== src/Planning/Repository/Constraints.antt =====
-- The check constraints of the table `orchestration_runs`, and the statuses of its runs, under the
-- calls of backend/app/services/planning/repository.py.
use cine_forge.Prelude.{
  ℕ, ◌+◌, ◌≤◌, String, ◌≡◌, refl, ◌⊎◌, inl, inr, Bool, true, ◌&&◌, ◌||◌, not, Option, some, List,
  [], ◌∷◌, ◌==◌, is_some, arith, Bool-cases, Option-cases, leb, All,
}
use cine_forge.Prelude.Session.{Session, Result, ok, err}
use cine_forge.Planning.States.{RunStatus, Error, run_value, same_run, assert_run_transition}
use cine_forge.Planning.Tables.{OrchestrationRun, Db, Texts, run_row, set_rows}
use cine_forge.Planning.Repository.{
  update_where, leased, is_pending, is_recoverable, acquire_execution_lease, owns, renewed,
  renew_execution_lease, run_after, transition_run, bump_repair_used,
}
use cine_forge.Planning.Repository.Ownership.{renew-found, renew-absent}
use cine_forge.Planning.Repository.Acquiring.{
  Keyed, Keyed-set_rows, set_rows-none, with_rows, begun, acquire-pending, acquire-lapsed,
  acquire-held, acquire-absent,
}

-- The four columns of a lease are all NULL or all not NULL.
abbrev pub lease_complete : OrchestrationRun → Bool
lease_complete r =
    (is_some r.execution_claim_token
      && (is_some r.execution_owner_id
          && (is_some r.execution_lease_expires_at && is_some r.execution_heartbeat_at)))
    || not (
        is_some r.execution_claim_token
        || (is_some r.execution_owner_id
            || (is_some r.execution_lease_expires_at || is_some r.execution_heartbeat_at)))

abbrev pub IsSound : OrchestrationRun → Type 0
IsSound r = (lease_complete r ≡ true) × (r.repair_used ≤ r.repair_budget)

leased-IsSound :
    (texts : Texts) (now : ℕ) (owner token : String) (seconds : ℕ) (r : OrchestrationRun)
    → IsSound r
    → IsSound (leased texts now owner token seconds r)
leased-IsSound texts now owner token seconds r h = (refl, h.1)

renewed-IsSound :
    (now i : ℕ) (owner token : String) (seconds : ℕ) (r : OrchestrationRun)
    → owns now i owner token r ≡ true
    → IsSound r
    → IsSound (renewed now seconds r)
unfolding same_run
renewed-IsSound now i owner token seconds r o h = ground arith

run_after-IsSound :
    (texts : Texts) (now : ℕ) (target : RunStatus) (category message : Option String)
    (r : OrchestrationRun)
    → IsSound r
    → IsSound (run_after texts now target category message r)
run_after-IsSound texts now RunStatus.pending category message r h = h
run_after-IsSound texts now RunStatus.running category message r h = h
run_after-IsSound texts now RunStatus.completed category message r h = (refl, h.1)
run_after-IsSound texts now RunStatus.failed category message r h = (refl, h.1)
run_after-IsSound texts now RunStatus.canceled category message r h = (refl, h.1)

update_where-IsSound :
    (p : OrchestrationRun → Bool) (f : OrchestrationRun → OrchestrationRun)
    (rs : List OrchestrationRun)
    → ((r : OrchestrationRun) → p r ≡ true → IsSound r → IsSound (f r))
    → All IsSound rs
    → All IsSound (update_where p f rs)
unfolding update_where
update_where-IsSound p f [] keeps h = tt
update_where-IsSound p f (r ∷ rs) keeps h =
    ground (arith, keeps r, update_where-IsSound p f rs keeps h.1)

set_rows-IsSound :
    (i : ℕ) (f : OrchestrationRun → OrchestrationRun) (rs : List OrchestrationRun)
    {r : OrchestrationRun}
    → Keyed rs
    → run_row i rs ≡ some r
    → (IsSound r → IsSound (f r))
    → All IsSound rs
    → All IsSound (set_rows i f rs)
set_rows-IsSound i f [] k found keeps h = tt
set_rows-IsSound i f (x ∷ xs) {r} k found keeps h = elim (Bool-cases (x.id == i)) [
  | inl here ↦
      let xr : x ≡ r = ground arith in
      let xi : x.id ≡ i = ground arith in
      let below = set_rows-none i f xs (rw xi at k.0) in
      rw (here, below, xr) (keeps (rw xr at h.0), h.1)
  | inr there ↦ rw there (h.0, set_rows-IsSound i f xs {r = r} k.1 (ground arith) keeps h.1)
]

-- The calls that change runs, one after another. A call that is given a run is given the row that
-- the session holds.
pub data Runs (s : Session Db) : Session Db → Type 0 where
  start : Runs s s
  acquire :
      {t : Session Db}
      → Runs s t
      → (texts : Texts) (now i : ℕ) (owner token : String) (seconds : ℕ)
      → Runs s (acquire_execution_lease texts now i owner token seconds t).1
  renew :
      {t : Session Db}
      → Runs s t
      → (now i : ℕ) (owner token : String) (seconds : ℕ)
      → Runs s (renew_execution_lease now i owner token seconds t).1
  change :
      {t : Session Db}
      → Runs s t
      → (texts : Texts) (now : ℕ) (r : OrchestrationRun) (target : RunStatus)
      → (category message : Option String) → run_row r.id t.db.runs ≡ some r
      → Runs s (transition_run texts now r target category message t).1
  repair :
      {t : Session Db}
      → Runs s t
      → (r : OrchestrationRun) → run_row r.id t.db.runs ≡ some r
      → Runs s (bump_repair_used r t).1

abbrev pub IsValid : Session Db → Type 0
IsValid s = Keyed s.db.runs × All IsSound s.db.runs

module _ (i : ℕ) (f : OrchestrationRun → OrchestrationRun) (s : Session Db)
    (keeps : (r : OrchestrationRun) → (f r).id ≡ r.id) where
  set-IsValid :
      {r : OrchestrationRun}
      → run_row i s.db.runs ≡ some r
      → (IsSound r → IsSound (f r))
      → IsValid s
      → IsValid (with_rows (set_rows i f) s)
  set-IsValid found sound (k, h) =
      (Keyed-set_rows i f s.db.runs keeps k, set_rows-IsSound i f s.db.runs k found sound h)

acquire-IsValid :
    (texts : Texts) (now i : ℕ) (owner token : String) (seconds : ℕ) (s : Session Db)
    → IsValid s
    → IsValid (acquire_execution_lease texts now i owner token seconds s).1
acquire-IsValid texts now i owner token seconds s v = elim (Option-cases (run_row i s.db.runs)) [
  | inl absent ↦ rw (acquire-absent texts now i owner token seconds s absent) v
  | inr (q, found) ↦ elim (Bool-cases (is_pending i q)) [
    | inl p ↦ rw (acquire-pending texts now i owner token seconds s v.0 found p) (
        set-IsValid i (begun texts now owner token seconds) s (λ _. refl) found
          (leased-IsSound texts now owner token seconds q) v)
    | inr p ↦ elim (Bool-cases (is_recoverable now i q)) [
      | inl l ↦ rw (acquire-lapsed texts now i owner token seconds s v.0 found p l) (
          set-IsValid i (leased texts now owner token seconds) s (λ _. refl) found
            (leased-IsSound texts now owner token seconds q) v)
      | inr l ↦ rw (acquire-held texts now i owner token seconds s v.0 found p l) v
    ]
  ]
]

renew-IsValid :
    (now i : ℕ) (owner token : String) (seconds : ℕ) (s : Session Db)
    → IsValid s
    → IsValid (renew_execution_lease now i owner token seconds s).1
renew-IsValid now i owner token seconds s v = elim (Option-cases (run_row i s.db.runs)) [
  | inl absent ↦ rw (renew-absent now i owner token seconds s absent) v
  | inr (r, found) ↦ elim (Bool-cases (owns now i owner token r)) [
    | inl mine ↦
        rw (renew-found now i owner token seconds s v.0 found, mine)
          (set-IsValid i (renewed now seconds) s (λ _. refl) found
            (renewed-IsSound now i owner token seconds r mine) v)
    | inr other ↦ rw (renew-found now i owner token seconds s v.0 found, other) v
  ]
]

pub run_after-id :
    (texts : Texts) (now : ℕ) (target : RunStatus) (category message : Option String)
    (r : OrchestrationRun)
    → (run_after texts now target category message r).id ≡ r.id
run_after-id texts now RunStatus.pending category message r = refl
run_after-id texts now RunStatus.running category message r = refl
run_after-id texts now RunStatus.completed category message r = refl
run_after-id texts now RunStatus.failed category message r = refl
run_after-id texts now RunStatus.canceled category message r = refl

pub Result-cases :
    (x : Result Error RunStatus) → ((e : Error) × (x ≡ err e)) ⊎ ((q : RunStatus) × (x ≡ ok q))
Result-cases (err e) = inl (e, refl)
Result-cases (ok q) = inr (q, refl)

change-IsValid :
    (texts : Texts) (now : ℕ) (r : OrchestrationRun) (target : RunStatus)
    (category message : Option String) (s : Session Db)
    → run_row r.id s.db.runs ≡ some r
    → IsValid s
    → IsValid (transition_run texts now r target category message s).1
unfolding transition_run
change-IsValid texts now r target category message s found v =
    elim (Result-cases (assert_run_transition (run_value r.status) target)) [
      | inl (e, refused) ↦ rw refused v
      | inr (q, fine) ↦ rw fine (
          set-IsValid r.id (run_after texts now target category message) s
            (run_after-id texts now target category message) found
            (run_after-IsSound texts now target category message r) v)
    ]

repair-IsValid :
    (r : OrchestrationRun) (s : Session Db)
    → run_row r.id s.db.runs ≡ some r
    → IsValid s
    → IsValid (bump_repair_used r s).1
unfolding bump_repair_used
repair-IsValid r s found v = elim (Bool-cases (leb r.repair_budget r.repair_used)) [
  | inl spent ↦ rw spent v
  | inr left ↦ rw left (
      set-IsValid r.id (λ x. record x { repair_used = x.repair_used + 1 }) s (λ _. refl) found
        (λ h. (h.0, ground (arith, left))) v)
]

-- Whatever calls change the runs, in any order and by any workers, every run keeps the check
-- constraints of its table: the columns of its lease are set or cleared together, and it has used
-- no more repairs than its budget.
pub Runs-IsValid : {s t : Session Db} → Runs s t → IsValid s → IsValid t
Runs-IsValid start v = v
Runs-IsValid (acquire {t = t} r texts now i owner token seconds) v =
    acquire-IsValid texts now i owner token seconds t (Runs-IsValid r v)
Runs-IsValid (renew {t = t} r now i owner token seconds) v =
    renew-IsValid now i owner token seconds t (Runs-IsValid r v)
Runs-IsValid (change {t = t} r texts now run target category message found) v =
    change-IsValid texts now run target category message t found (Runs-IsValid r v)
Runs-IsValid (repair {t = t} r run found) v = repair-IsValid run t found (Runs-IsValid r v)
