-- ===== src/Planning/Engine/Claiming.antt =====
-- What `claim_run` of backend/app/services/planning/engine.py leaves alone.
use cine_forge.Prelude.{
  ℕ, String, ◌≡◌, refl, ap, true, false, ◌||◌, Option, none, some, is_some, arith, Bool-cases, inl,
  inr,
}
use cine_forge.Prelude.Json.{Json}
use cine_forge.Prelude.Session.{Session, ok, err}
use cine_forge.Planning.States.{RunStatus, already_terminal, run_terminal, same_run}
use cine_forge.Planning.Tables.{OrchestrationRun, Db, Texts, run_row}
use cine_forge.Planning.Repository.{get_run, lasts, lapsed, is_pending, is_recoverable, or_text}
use cine_forge.Planning.Repository.Acquiring.{Keyed, acquire-held}
use cine_forge.Planning.Engine.{claim_leased, claim_plain, claim_run}

lasts-lapsed : (now : ℕ) (t : Option ℕ) → lasts now t ≡ true → lapsed now t ≡ false
lasts-lapsed now none h = cc
lasts-lapsed now (some t) h = ground arith

live-closed :
    (now i : ℕ) (r : OrchestrationRun)
    → r.status ≡ RunStatus.running
    → lasts now r.execution_lease_expires_at ≡ true
    → (is_pending i r ≡ false) × (is_recoverable now i r ≡ false)
unfolding same_run
live-closed now i r run live =
    let off = lasts-lapsed now r.execution_lease_expires_at live in simp (run, off) (ground arith)

-- A claim of a run that is completed, failed or canceled is refused, whoever claims it, and
-- changes nothing.
claim_run-over :
    (texts : Texts) (now : ℕ) (at_text : Json) (fresh : String) (i : ℕ)
    (owner token : Option String) (seconds : ℕ) (s : Session Db) {r : OrchestrationRun}
    → run_row i s.db.runs ≡ some r
    → run_terminal r.status ≡ true
    → claim_run texts now at_text fresh i owner token seconds s
      ≡ (err (already_terminal r.id r.status), s)
unfolding claim_run get_run
claim_run-over texts now at_text fresh i owner token seconds s found over = rw (found, over) refl

-- A claim of a run that another worker executes under a live lease reports the run as it stands
-- and changes nothing, with or without an owner and a token.
pub claim_run-live :
    (texts : Texts) (now : ℕ) (at_text : Json) (fresh : String) (i : ℕ)
    (owner token : Option String) (seconds : ℕ) (s : Session Db) {r : OrchestrationRun}
    → Keyed s.db.runs
    → run_row i s.db.runs ≡ some r
    → r.status ≡ RunStatus.running
    → lasts now r.execution_lease_expires_at ≡ true
    → claim_run texts now at_text fresh i owner token seconds s ≡ (ok (r, false), s)
unfolding claim_run get_run claim_plain claim_leased same_run
claim_run-live texts now at_text fresh i owner token seconds s {r} k found run live =
    let (p, q) = live-closed now i r run live in
    let busy : run_terminal r.status ≡ false = ap run_terminal run in
    elim (Bool-cases (is_some owner || is_some token)) [
      | inl leasing ↦
          rw
            (
              found,
              busy,
              leasing,
              acquire-held texts now i (or_text owner "sync-planning-engine") (or_text token fresh)
                  seconds s k found p q,
            )
            refl
      | inr plain ↦ rw (found, busy, plain, run) refl
    ]
