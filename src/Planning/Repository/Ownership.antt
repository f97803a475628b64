-- ===== src/Planning/Repository/Ownership.antt =====
-- The execution leases of backend/app/services/planning/repository.py: who may take a run over.
use cine_forge.Prelude.{
  ℕ, ◌+◌, ◌<◌, max, String, ◌≡◌, refl, sym, ◌∙◌, ◌≢◌, inl, inr, Bool, true, false, none, some, List,
  [], ◌∷◌, Option, ◌⊎◌, ap, ==_iff, eq_iff, eq_refl, length, select, if◌then◌else◌, arith,
  Bool-cases, Option-cases,
}
use mathlib.Core.Bool.{false≢true}
use cine_forge.Prelude.Session.{Session, Result, ok}
use cine_forge.Planning.States.{RunStatus, Error, same_run}
use cine_forge.Planning.Tables.{OrchestrationRun, Db, Texts, run_row, set_rows}
use cine_forge.Planning.Repository.{
  update_where, update_runs, leased, is_pending, is_recoverable, acquire_execution_lease, owns,
  holds, lasts, renewed, renew_execution_lease,
}
use cine_forge.Planning.Repository.Acquiring.{
  same_running, run_row-id, Keyed, untouched, update_where-row, is_recoverable-running, owns-asks,
  run_row-set_rows, with_rows, begun, acquire-pending, acquire-lapsed, acquire-held, acquire-absent,
  Keyed-set_rows,
}

-- A running run whose lease lasts to some later time.
abbrev Taken : ℕ → ℕ → Session Db → OrchestrationRun → Type 0
Taken later i t r =
    Keyed t.db.runs
    × (run_row i t.db.runs ≡ some r)
    × (r.status ≡ RunStatus.running)
    × ((e : ℕ) × (r.execution_lease_expires_at ≡ some e) × (later < e))

Taken-set :
    (later i e : ℕ) (f : OrchestrationRun → OrchestrationRun) (s : Session Db)
    {r : OrchestrationRun}
    → Keyed s.db.runs
    → run_row i s.db.runs ≡ some r
    → ((r : OrchestrationRun) → (f r).id ≡ r.id)
    → (f r).status ≡ RunStatus.running
    → (f r).execution_lease_expires_at ≡ some e
    → later < e
    → Taken later i (with_rows (set_rows i f) s) (f r)
Taken-set later i e f s {r} k found keeps run lease soon = (
  Keyed-set_rows i f s.db.runs keeps k,
  run_row-set_rows i f s.db.runs {r = r} keeps found,
  run,
  (e, lease, soon),
)

abbrev Answer : Type 0
Answer = Result Error (OrchestrationRun × Bool × Bool) × Session Db

Taken-transfer :
    (later i : ℕ) (t t' : Session Db) (r r' : OrchestrationRun) (new new' : Bool)
    → ◌≡◌ {A = Answer} (ok (r', new', true), t') (ok (r, new, true), t)
    → Taken later i t' r'
    → Taken later i t r
Taken-transfer later i t t' r r' new new' same taken =
    let rr : r' ≡ r = cc in let tt' : t' ≡ t = cc in rw (sym rr, sym tt') taken

acquired-Taken :
    (texts : Texts) (now later i : ℕ) (owner token : String) (seconds : ℕ) (s t : Session Db)
    (r : OrchestrationRun) (new : Bool)
    → Keyed s.db.runs
    → acquire_execution_lease texts now i owner token seconds s ≡ (ok (r, new, true), t)
    → later < now + max 5 seconds
    → Taken later i t r
unfolding same_run
acquired-Taken texts now later i owner token seconds s t r new k h soon =
    elim (Option-cases (run_row i s.db.runs)) [
      | inl absent ↦ absurd (cc (rw (acquire-absent texts now i owner token seconds s absent) at h))
      | inr (q, found) ↦ elim (Bool-cases (is_pending i q)) [
        | inl p ↦
            Taken-transfer later i t _ r _ new true
              (sym (acquire-pending texts now i owner token seconds s k found p) ∙ h)
              (Taken-set later i (now + max 5 seconds) (begun texts now owner token seconds) s k
                found (λ _. refl) refl refl soon)
        | inr p ↦ elim (Bool-cases (is_recoverable now i q)) [
          | inl l ↦
              Taken-transfer later i t _ r _ new false
                (sym (acquire-lapsed texts now i owner token seconds s k found p l) ∙ h)
                (Taken-set later i (now + max 5 seconds) (leased texts now owner token seconds) s k
                  found (λ _. refl) (is_recoverable-running now i q l) refl soon)
          | inr l ↦
              absurd (cc (rw (acquire-held texts now i owner token seconds s k found p l) at h))
        ]
      ]
    ]

Taken-refuses :
    (later i : ℕ) (t : Session Db) (r : OrchestrationRun)
    → Taken later i t r
    → (is_pending i r ≡ false) × (is_recoverable later i r ≡ false)
unfolding same_run
Taken-refuses later i t r (k, found, run, (e, lease, soon)) = simp (run, lease) (ground arith)

-- Once a worker has acquired the lease of a run, no attempt to acquire it before the lease is over,
-- by any worker and with any token, succeeds or changes anything: it reports the run as it stands.
pub no_stealing :
    (texts texts' : Texts) (now later i : ℕ) (owner token owner' token' : String)
    (seconds seconds' : ℕ) (s t : Session Db) (r : OrchestrationRun) (new : Bool)
    → Keyed s.db.runs
    → acquire_execution_lease texts now i owner token seconds s ≡ (ok (r, new, true), t)
    → later < now + max 5 seconds
    → acquire_execution_lease texts' later i owner' token' seconds' t ≡ (ok (r, false, false), t)
no_stealing texts texts' now later i owner token owner' token' seconds seconds' s t r new k h soon =
    let taken = acquired-Taken texts now later i owner token seconds s t r new k h soon in
    let (p, q) = Taken-refuses later i t r taken in
    acquire-held texts' later i owner' token' seconds' t taken.0 taken.1 p q

pub renew-absent :
    (now i : ℕ) (owner token : String) (seconds : ℕ) (s : Session Db)
    → run_row i s.db.runs ≡ none
    → renew_execution_lease now i owner token seconds s ≡ (ok false, s)
unfolding renew_execution_lease update_runs
renew-absent now i owner token seconds s h =
    let (same, nothing) =
      untouched i (owns now i owner token) (renewed now seconds) (owns-asks now i owner token)
        s.db.runs h in
    rw (nothing, same) refl

pub run_row-set_rows_ne :
    (i k : ℕ) (f : OrchestrationRun → OrchestrationRun) (rs : List OrchestrationRun)
    → ((r : OrchestrationRun) → (f r).id ≡ r.id)
    → k ≢ i
    → run_row k (set_rows i f rs) ≡ run_row k rs
run_row-set_rows_ne i k f [] keeps ne = refl
run_row-set_rows_ne i k f (r ∷ rs) keeps ne =
    ground (arith, keeps r, run_row-set_rows_ne i k f rs keeps ne)

pub renew-found :
    (now i : ℕ) (owner token : String) (seconds : ℕ) (s : Session Db) {r : OrchestrationRun}
    → Keyed s.db.runs
    → run_row i s.db.runs ≡ some r
    → renew_execution_lease now i owner token seconds s ≡ (
      ok (owns now i owner token r),
      (if owns now i owner token r then with_rows (set_rows i (renewed now seconds)) s else s),
    )
unfolding renew_execution_lease update_runs
renew-found now i owner token seconds s {r} k found =
    let f = renewed now seconds in
    let (rows, count) =
      update_where-row i (owns now i owner token) f (owns-asks now i owner token) s.db.runs k
        found in
    elim (Bool-cases (owns now i owner token r)) [
      | inl mine ↦
          let one : length (select (owns now i owner token) s.db.runs) ≡ 1 = rw mine at count in
          let set : update_where (owns now i owner token) f s.db.runs ≡ set_rows i f s.db.runs =
            rw mine at rows in
          rw (one, set, mine) refl
      | inr other ↦
          let nothing : length (select (owns now i owner token) s.db.runs) ≡ 0 =
            rw other at count in
          let same : update_where (owns now i owner token) f s.db.runs ≡ s.db.runs =
            rw other at rows in
          rw (nothing, same, other) refl
    ]

-- A worker holds the execution of a run at an instant: the run is running, with this owner and this
-- token, and its lease lasts beyond the instant.
abbrev pub Holds : ℕ → String → String → OrchestrationRun → Type 0
Holds now owner token r =
    ((r.status ≡ RunStatus.running)
      × (r.execution_owner_id ≡ some owner)
      × (r.execution_claim_token ≡ some token))
    × ((e : ℕ) × (r.execution_lease_expires_at ≡ some e) × (now < e))

owns-Holds :
    (now i : ℕ) (owner token : String) (r : OrchestrationRun)
    → owns now i owner token r ≡ true
    → Holds now owner token r
unfolding same_run
owns-Holds now i owner token r h = (
  (
    same_running r.status (ground arith),
    held owner r.execution_owner_id (ground arith),
    held token r.execution_claim_token (ground arith),
  ),
  lasting r.execution_lease_expires_at (ground arith),
)
  where
    held : (v : String) (o : Option String) → holds v o ≡ true → o ≡ some v
    held v none h' = absurd (cc h')
    held v (some w) h' = ap some ((eq_iff w v).0 h')

    lasting : (o : Option ℕ) → lasts now o ≡ true → (e : ℕ) × (o ≡ some e) × (now < e)
    lasting none h' = absurd (cc h')
    lasting (some e) h' = (e, refl, ground arith)

Holds-owns :
    (now i : ℕ) (owner token : String) (r : OrchestrationRun)
    → r.id ≡ i
    → Holds now owner token r
    → owns now i owner token r ≡ true
unfolding same_run
Holds-owns now i owner token r same ((run, by_owner, by_token), (e, until, lt)) =
    rw (same, run, by_owner, by_token, until)
      (ground (arith, eq_refl owner, eq_refl token, ==_iff i i))

-- A heartbeat of a run's lease succeeds exactly for the worker that holds the execution: the run is
-- running, with its owner and its token, and the lease is not over. Then the heartbeat is recorded,
-- the lease lasts at least five seconds from now, and no other run changes. For any other
-- worker, and once the lease is over, it reports failure and changes nothing.
pub renew_exact :
    (now i : ℕ) (owner token : String) (seconds : ℕ) (s : Session Db) {r : OrchestrationRun}
    → Keyed s.db.runs
    → run_row i s.db.runs ≡ some r
    → let (answer, t) = renew_execution_lease now i owner token seconds s in
      (Holds now owner token r
        × (answer ≡ ok true)
        × ((k : ℕ) → k ≢ i → run_row k t.db.runs ≡ run_row k s.db.runs)
        × (run_row i t.db.runs
            ≡ some (record r {
              execution_heartbeat_at = some now;
              execution_lease_expires_at = some (now + max 5 seconds);
            })))
      ⊎ ((Holds now owner token r → ⊥) × (answer ≡ ok false) × (t ≡ s))
renew_exact now i owner token seconds s {r} k found =
    let exact = renew-found now i owner token seconds s {r = r} k found in
    elim (Bool-cases (owns now i owner token r)) [
      | inl mine ↦
          rw (exact, mine)
            (inl (
              owns-Holds now i owner token r mine,
              refl,
              λ j ne. run_row-set_rows_ne i j (renewed now seconds) s.db.runs (λ _. refl) ne,
              run_row-set_rows i (renewed now seconds) s.db.runs {r = r} (λ _. refl) found,
            ))
      | inr other ↦
          rw (exact, other)
            (inr (
              λ h.
                  false≢true
                    (sym other ∙ Holds-owns now i owner token r (run_row-id i s.db.runs found) h),
              refl,
              refl,
            ))
    ]
