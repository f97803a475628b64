-- ===== src/Queue/Service/Claims.antt =====
-- What `claim_next_pending_job` does to the queue.
use cine_forge.Prelude.{
  ℕ, ◌+◌, ◌≤◌, String, ◌≡◌, refl, ◌≢◌, Bool, true, false, ◌&&◌, not, Option, none, some, [], ◌∷◌,
  ◌++◌, head?, select, length, arith, length-snoc, ap, ◌∙◌, Option-cases, inl, inr,
}
use cine_forge.Queue.States
use cine_forge.Queue.States.{JobState}
use cine_forge.Queue.Status
use cine_forge.Queue.Status.{QueueStatus}
use cine_forge.Queue.Machine.{Result, ok, err, transition}
use cine_forge.Queue.Transitions.{accepted}
use cine_forge.Queue.Store.{ComfyJob, Db, Session, update_rows, order_by_id}
use cine_forge.Queue.Store.Rows.{
  row, Keyed, Keyed-update_rows, row-update_rows_self, row-update_rows_ne, first_selected,
  none_selected,
}
use cine_forge.Queue.Service.{
  Bind, skips, claimable, claimed, claim_audit, claim_row, claim_next_pending_job,
}

-- `status == pending` decides the status.
pub same_pending :
    (q : QueueStatus) → Status.same q QueueStatus.pending ≡ true → q ≡ QueueStatus.pending
unfolding Status.same
same_pending QueueStatus.pending h = refl
same_pending _ h = cc

pending_to_reserved :
    (reason : String)
    → transition (Status.value QueueStatus.pending) "reserved" reason
      ≡ ok (accepted JobState.pending JobState.reserved reason)
unfolding transition Status.value States.of_value States.allowed
pending_to_reserved reason = refl

-- The database after a claim.
abbrev after_claim : ℕ → String → String → ComfyJob → Db → Db
after_claim now worker reason job db = record db {
  jobs = update_rows job.id (claimed now worker QueueStatus.reserved) db.jobs;
  audit =
      db.audit
      ++ claim_audit worker reason (accepted JobState.pending JobState.reserved reason)
          (claimed now worker QueueStatus.reserved job)
        ∷ [];
}

claim_row-pending :
    (now : ℕ) (worker reason : String) (job : ComfyJob) (s : Session)
    → job.status ≡ QueueStatus.pending
    → let d = after_claim now worker reason job s.db in
      claim_row now worker reason (some job) s
      ≡ (ok (some (claimed now worker QueueStatus.reserved job)), record { db = d; durable = d })
unfolding claim_row Status.of_value States.value
claim_row-pending now worker reason job s h =
    rw (ap (λ q. transition (Status.value q) "reserved" reason) h ∙ pending_to_reserved reason)

-- What a claim leaves behind, by what it returned.
abbrev pub Claims :
    Bind → ℕ → String → String → Session → Result (Option ComfyJob) × Session → Type 0
Claims b now worker reason s (err e, s') = ⊥
Claims b now worker reason s (ok none, s') =
    ((s'.db ≡ s.db) × (s'.durable ≡ s.db))
    × ((m : ComfyJob)
        → row m.id s.db.jobs ≡ some m
        → m.status ≡ QueueStatus.pending
        → skips b m ≡ true)
Claims b now worker reason s (ok (some c), s') =
    (j : ComfyJob) × ((row j.id s.db.jobs ≡ some j)
      × (j.status ≡ QueueStatus.pending)
      × (skips b j ≡ false))
    × ((m : ComfyJob)
        → row m.id s.db.jobs ≡ some m
        → m.status ≡ QueueStatus.pending
        → skips b m ≡ false
        → j.id ≤ m.id)
    × (c ≡ record j {
      status = QueueStatus.reserved;
      worker_id = some worker;
      reserved_at = some now;
      heartbeat_at = some now;
      attempt_count = j.attempt_count + 1;
      last_state_change_at = some now;
    })
    × ((row j.id s'.db.jobs ≡ some c)
        × ((k : ℕ) → k ≢ j.id → row k s'.db.jobs ≡ row k s.db.jobs)
        × (length s'.db.audit ≡ length s.db.audit + 1)
        × (s'.durable ≡ s'.db))

-- Whether a claim may take the row.
abbrev may_claim : Bind → ComfyJob → Bool
may_claim b j = Status.same j.status QueueStatus.pending && not (skips b j)

may_claim-true :
    (b : Bind) (j : ComfyJob)
    → may_claim b j ≡ true
    → (j.status ≡ QueueStatus.pending) × (skips b j ≡ false)
may_claim-true b j h = ground (arith, same_pending j.status)

may_claim_lem :
    (b : Bind) (j : ComfyJob) → j.status ≡ QueueStatus.pending → may_claim b j ≡ not (skips b j)
unfolding Status.same
may_claim_lem b j h = ground arith

Claims-row :
    (b : Bind) (now : ℕ) (worker reason : String) (s : Session) (j : ComfyJob)
    → Keyed s.db.jobs
    → head? (order_by_id (select (may_claim b) s.db.jobs)) ≡ some j
    → Claims b now worker reason s (claim_row now worker reason (some j) s)
Claims-row b now worker reason s j k first =
    let (held, may, least) = first_selected (may_claim b) s.db.jobs {j = j} k first in
    let (pending, free) = may_claim-true b j may in
    let taken = claimed now worker QueueStatus.reserved in
    rw (claim_row-pending now worker reason j s pending) (
      j,
      (held, pending, free),
      λ m r pm unlocked. least m r (rw (may_claim_lem b m pm, unlocked)),
      refl,
      (
        row-update_rows_self j.id taken (λ _. refl) s.db.jobs held,
        λ i ne. row-update_rows_ne j.id taken (λ _. refl) i s.db.jobs ne,
        length-snoc s.db.audit _,
        refl,
      ),
    )

Claims-nothing :
    (b : Bind) (now : ℕ) (worker reason : String) (s : Session)
    → Keyed s.db.jobs
    → head? (order_by_id (select (may_claim b) s.db.jobs)) ≡ none
    → Claims b now worker reason s (claim_row now worker reason none s)
unfolding claim_row
Claims-nothing b now worker reason s k empty = (
  (refl, refl),
  λ m r pm. ground (arith, none_selected (may_claim b) s.db.jobs m k empty r, may_claim_lem b m pm),
)

-- A claim never raises. It takes the pending row with the least identifier that it may lock, and
-- returns it as it now stands: reserved by the worker, with its lease times set and one more
-- attempt counted. No other row changes, one audit entry is added, and all is committed. It
-- returns no job only if every pending row is locked by another transaction on PostgreSQL.
pub claim-Claims :
    (b : Bind) (now : ℕ) (worker reason : String) (s : Session)
    → Keyed s.db.jobs
    → Claims b now worker reason s (claim_next_pending_job b now worker reason s)
unfolding claim_next_pending_job claimable
claim-Claims b now worker reason s k = elim (Option-cases (head? (claimable b s.db.jobs))) [
  | inl empty ↦ rw empty (Claims-nothing b now worker reason s k empty)
  | inr (j, first) ↦ rw first (Claims-row b now worker reason s j k first)
]

-- The tables that a claim leaves have no new identifiers and none twice.
pub claim-Keyed :
    (b : Bind) (now : ℕ) (worker reason : String) (s : Session)
    → Keyed s.db.jobs
    → Keyed (claim_next_pending_job b now worker reason s).1.db.jobs
unfolding claim_next_pending_job claimable
claim-Keyed b now worker reason s k = elim (Option-cases (head? (claimable b s.db.jobs))) [
  | inl empty ↦ rw empty (unfold claim_row in k)
  | inr (j, first) ↦
      let (held, may, least) = first_selected (may_claim b) s.db.jobs {j = j} k first in
      rw (first, claim_row-pending now worker reason j s (may_claim-true b j may).0)
        (Keyed-update_rows j.id (claimed now worker QueueStatus.reserved) s.db.jobs (λ _. refl) k)
]

-- The row that a claim took was pending.
pub Claims-pending :
    (b : Bind) (now : ℕ) (worker reason : String) (s s' : Session) (c : ComfyJob)
    → Claims b now worker reason s (ok (some c), s')
    → (m : ComfyJob) × (row c.id s.db.jobs ≡ some m) × (m.status ≡ QueueStatus.pending)
Claims-pending b now worker reason s s' c h =
    let m = h.0 in
    let e : c.id ≡ m.id = ap (λ (x : ComfyJob). x.id) h.3 in
    (m, ap (λ i. row i s.db.jobs) e ∙ h.1.0, h.1.1)
