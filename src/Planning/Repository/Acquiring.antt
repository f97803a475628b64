-- ===== src/Planning/Repository/Acquiring.antt =====
-- Updates of one run, and what an acquisition of its lease answers, in
-- backend/app/services/planning/repository.py.
use cine_forge.Prelude.{
  ℕ, String, ◌≡◌, refl, sym, inl, inr, Bool, true, false, none, some, List, [], ◌∷◌, ◌==◌, length,
  select, if◌then◌else◌, arith, Bool-cases,
}
use cine_forge.Prelude.Session.{Session, ok, err}
use cine_forge.Planning.States.{RunStatus, run_not_found, same_run}
use cine_forge.Planning.Tables.{OrchestrationRun, Db, Texts, run_row, set_rows}
use cine_forge.Planning.Repository.{
  get_run, update_where, update_runs, leased, started, is_pending, is_recoverable,
  acquire_execution_lease, owns,
}

-- No two runs share an identifier, as the primary key demands.
abbrev pub Keyed : List OrchestrationRun → Type 0
Keyed [] = Unit
Keyed (r ∷ rs) = (run_row r.id rs ≡ none) × Keyed rs

pub set_rows-none :
    (i : ℕ) (f : OrchestrationRun → OrchestrationRun) (rs : List OrchestrationRun)
    → run_row i rs ≡ none
    → set_rows i f rs ≡ rs
set_rows-none i f [] h = refl
set_rows-none i f (r ∷ rs) h = ground (arith, set_rows-none i f rs)

-- An UPDATE whose WHERE asks for an identifier is an update of that row.
module _ (i : ℕ) (p : OrchestrationRun → Bool) (f : OrchestrationRun → OrchestrationRun)
    (asks : (r : OrchestrationRun) → p r ≡ true → r.id ≡ i) where
  pub untouched :
      (rs : List OrchestrationRun)
      → run_row i rs ≡ none
      → (update_where p f rs ≡ rs) × (select p rs ≡ [])
  unfolding update_where
  untouched [] h = (refl, refl)
  untouched (r ∷ rs) h = ground (arith, asks r, untouched rs)

  pub update_where-row :
      (rs : List OrchestrationRun) {r : OrchestrationRun}
      → Keyed rs
      → run_row i rs ≡ some r
      → (update_where p f rs ≡ (if p r then set_rows i f rs else rs))
        × (length (select p rs) ≡ (if p r then 1 else 0))
  unfolding update_where
  update_where-row [] k h = cc
  update_where-row (x ∷ xs) {r} k h = elim (Bool-cases (x.id == i)) [
    | inl here ↦
        let xr : x ≡ r = ground arith in
        let xi : x.id ≡ i = ground arith in
        let (none_below, none_selected) = untouched xs (rw xi at k.0) in
        let same = set_rows-none i f xs (rw xi at k.0) in
        rw (sym xr, here, none_below, none_selected, same)
          (elim (Bool-cases (p x)) [
            | inl yes_p ↦ rw yes_p (refl, refl)
            | inr no_p ↦ rw no_p (refl, refl)
          ])
    | inr there ↦
        let (rows, count) = update_where-row xs {r = r} k.1 (ground arith) in
        let off : p x ≡ false = ground (arith, asks x) in
        rw (off, there, rows, count)
          (elim (Bool-cases (p r)) [
            | inl yes_p ↦ rw yes_p (refl, refl)
            | inr no_p ↦ rw no_p (refl, refl)
          ])
  ]

pub same_running : (q : RunStatus) → same_run q RunStatus.running ≡ true → q ≡ RunStatus.running
unfolding same_run
same_running RunStatus.running h = refl
same_running _ h = cc

is_pending-asks : (i : ℕ) (r : OrchestrationRun) → is_pending i r ≡ true → r.id ≡ i
unfolding same_run
is_pending-asks i r h = ground arith

pub is_recoverable-running :
    (now i : ℕ) (r : OrchestrationRun)
    → is_recoverable now i r ≡ true
    → r.status ≡ RunStatus.running
is_recoverable-running now i r h = same_running r.status (ground arith)

is_recoverable-asks : (now i : ℕ) (r : OrchestrationRun) → is_recoverable now i r ≡ true → r.id ≡ i
unfolding same_run
is_recoverable-asks now i r h = ground arith

pub owns-asks :
    (now i : ℕ) (owner token : String) (r : OrchestrationRun)
    → owns now i owner token r ≡ true
    → r.id ≡ i
unfolding same_run
owns-asks now i owner token r h = ground arith

pub run_row-id :
    (i : ℕ) (rs : List OrchestrationRun) {r : OrchestrationRun} → run_row i rs ≡ some r → r.id ≡ i
run_row-id i [] h = cc
run_row-id i (x ∷ xs) {r} h = ground (arith, run_row-id i xs {r = r})

pub run_row-set_rows :
    (i : ℕ) (f : OrchestrationRun → OrchestrationRun) (rs : List OrchestrationRun)
    {r : OrchestrationRun}
    → ((r : OrchestrationRun) → (f r).id ≡ r.id)
    → run_row i rs ≡ some r
    → run_row i (set_rows i f rs) ≡ some (f r)
run_row-set_rows i f [] keeps h = cc
run_row-set_rows i f (x ∷ xs) {r} keeps h =
    ground (arith, keeps x, run_row-set_rows i f xs {r = r} keeps)

-- The session after an update of a run.
abbrev pub with_rows : (List OrchestrationRun → List OrchestrationRun) → Session Db → Session Db
with_rows f s = record s { db = record s.db { runs = f s.db.runs } }

-- A run that is started with a lease.
abbrev pub begun : Texts → ℕ → String → String → ℕ → OrchestrationRun → OrchestrationRun
begun texts now owner token seconds r = started now (leased texts now owner token seconds r)

-- A pending run is started with the lease; a running one without a live lease gets the new lease;
-- any other run is left as it is.
module _ (texts : Texts) (now i : ℕ) (owner token : String) (seconds : ℕ) (s : Session Db)
    {r : OrchestrationRun} (k : Keyed s.db.runs) (found : run_row i s.db.runs ≡ some r) where
  pub acquire-pending :
      is_pending i r ≡ true
      → acquire_execution_lease texts now i owner token seconds s ≡ (
        ok (begun texts now owner token seconds r, true, true),
        with_rows (set_rows i (begun texts now owner token seconds)) s,
      )
  unfolding acquire_execution_lease update_runs get_run
  acquire-pending p =
      let f = begun texts now owner token seconds in
      let (rows, count) =
        update_where-row i (is_pending i) f (is_pending-asks i) s.db.runs k found in
      let one : length (select (is_pending i) s.db.runs) ≡ 1 = rw p at count in
      let set : update_where (is_pending i) f s.db.runs ≡ set_rows i f s.db.runs = rw p at rows in
      let stays = run_row-set_rows i f s.db.runs {r = r} (λ _. refl) found in
      rw (one, set, stays) refl

  pub acquire-lapsed :
      is_pending i r ≡ false
      → is_recoverable now i r ≡ true
      → acquire_execution_lease texts now i owner token seconds s ≡ (
        ok (leased texts now owner token seconds r, false, true),
        with_rows (set_rows i (leased texts now owner token seconds)) s,
      )
  unfolding acquire_execution_lease update_runs get_run
  acquire-lapsed p q =
      let f = begun texts now owner token seconds in
      let g = leased texts now owner token seconds in
      let (rows, count) =
        update_where-row i (is_pending i) f (is_pending-asks i) s.db.runs k found in
      let (rows', count') =
        update_where-row i (is_recoverable now i) g (is_recoverable-asks now i) s.db.runs k found in
      let nothing : length (select (is_pending i) s.db.runs) ≡ 0 = rw p at count in
      let same : update_where (is_pending i) f s.db.runs ≡ s.db.runs = rw p at rows in
      let one : length (select (is_recoverable now i) s.db.runs) ≡ 1 = rw q at count' in
      let set : update_where (is_recoverable now i) g s.db.runs ≡ set_rows i g s.db.runs =
        rw q at rows' in
      let stays = run_row-set_rows i g s.db.runs {r = r} (λ _. refl) found in
      rw (nothing, same, one, set, stays) refl

  pub acquire-held :
      is_pending i r ≡ false
      → is_recoverable now i r ≡ false
      → acquire_execution_lease texts now i owner token seconds s ≡ (ok (r, false, false), s)
  unfolding acquire_execution_lease update_runs get_run
  acquire-held p q =
      let f = begun texts now owner token seconds in
      let g = leased texts now owner token seconds in
      let (rows, count) =
        update_where-row i (is_pending i) f (is_pending-asks i) s.db.runs k found in
      let (rows', count') =
        update_where-row i (is_recoverable now i) g (is_recoverable-asks now i) s.db.runs k found in
      let nothing : length (select (is_pending i) s.db.runs) ≡ 0 = rw p at count in
      let same : update_where (is_pending i) f s.db.runs ≡ s.db.runs = rw p at rows in
      let nothing' : length (select (is_recoverable now i) s.db.runs) ≡ 0 = rw q at count' in
      let same' : update_where (is_recoverable now i) g s.db.runs ≡ s.db.runs = rw q at rows' in
      rw (nothing, same, nothing', same', found) refl

pub acquire-absent :
    (texts : Texts) (now i : ℕ) (owner token : String) (seconds : ℕ) (s : Session Db)
    → run_row i s.db.runs ≡ none
    → acquire_execution_lease texts now i owner token seconds s ≡ (err (run_not_found i), s)
unfolding acquire_execution_lease update_runs get_run
acquire-absent texts now i owner token seconds s h =
    let f = begun texts now owner token seconds in
    let g = leased texts now owner token seconds in
    let (same, nothing) = untouched i (is_pending i) f (is_pending-asks i) s.db.runs h in
    let (same', nothing') =
      untouched i (is_recoverable now i) g (is_recoverable-asks now i) s.db.runs h in
    rw (nothing, same, nothing', same', h) refl

set_rows-absent :
    (i k : ℕ) (f : OrchestrationRun → OrchestrationRun) (rs : List OrchestrationRun)
    → ((r : OrchestrationRun) → (f r).id ≡ r.id)
    → run_row k rs ≡ none
    → run_row k (set_rows i f rs) ≡ none
set_rows-absent i k f [] keeps h = refl
set_rows-absent i k f (r ∷ rs) keeps h = ground (arith, keeps r, set_rows-absent i k f rs keeps)

pub Keyed-set_rows :
    (i : ℕ) (f : OrchestrationRun → OrchestrationRun) (rs : List OrchestrationRun)
    → ((r : OrchestrationRun) → (f r).id ≡ r.id)
    → Keyed rs
    → Keyed (set_rows i f rs)
Keyed-set_rows i f [] keeps k = tt
Keyed-set_rows i f (r ∷ rs) keeps k =
    ground (arith, keeps r, set_rows-absent i r.id f rs keeps k.0, Keyed-set_rows i f rs keeps k.1)
