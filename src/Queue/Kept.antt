-- ===== src/Queue/Kept.antt =====
-- One call of backend/app/services/queue/service.py keeps its rows valid and moves each job only
-- where the table of backend/app/queue/state_machine.py lets it.
use cine_forge.Prelude.{
  ℕ, String, ◌≡◌, refl, Bool, true, false, Option, none, some, List, if◌then◌else◌, zero, suc, ltb,
  subst, arith, ap, sym, ◌∙◌, Bool-cases, Option-cases, inl, inr, ◌⊎◌, ◌==◌, ==_iff,
}
use cine_forge.Queue.States
use cine_forge.Queue.States.{JobState, allowed}
use cine_forge.Queue.Status.{QueueStatus}
use cine_forge.Queue.Machine.{Result, ok, err}
use cine_forge.Queue.Transitions.{state_of, status_of, value-of_value, state_of-status_of}
use cine_forge.Queue.Store.{ComfyJob, Db, Session, update_rows}
use cine_forge.Queue.Store.Rows.{
  row, row-id, Keyed, Keyed-update_rows, row-update_rows_self, row-update_rows_ne,
}
use cine_forge.Queue.Service.{
  Bind, moved, is_holder, claim_next_pending_job, transition_job, heartbeat_job,
}
use cine_forge.Queue.Recovery.{recover_stale_reserved_jobs}
use cine_forge.Queue.Recovery.Rounds.{outcome, rows_after, Keyed-rows_after}
use cine_forge.Queue.Recovery.Effects.{
  candidate_reserved, chosen, recover-loop, row-outcome, recover_guards,
}
use cine_forge.Queue.Service.Claims.{Claims, claim-Claims, claim-Keyed}
use cine_forge.Queue.Service.Changes.{
  transition_job-found, transition_job-absent, transition_job-unknown, heartbeat_job-found,
  heartbeat_job-absent,
}

-- A row keeps its status or takes one that the table allows.
abbrev pub Moves : QueueStatus → QueueStatus → Type 0
Moves q r = (q ≡ r) ⊎ (allowed (state_of q) (state_of r) ≡ true)

-- No row is lost, and each moves.
abbrev pub Lawful : List ComfyJob → List ComfyJob → Type 0
Lawful js ks =
    (i : ℕ) (j : ComfyJob)
    → row i js ≡ some j
    → (k : ComfyJob) × (row i ks ≡ some k) × Moves j.status k.status

pub Lawful-refl : (js : List ComfyJob) → Lawful js js
Lawful-refl js i j h = (j, h, inl refl)

pub Lawful-update_rows :
    (i : ℕ) (f : ComfyJob → ComfyJob) (js : List ComfyJob)
    → ((k : ComfyJob) → (f k).id ≡ k.id)
    → ((k : ComfyJob) → row i js ≡ some k → Moves k.status (f k).status)
    → Lawful js (update_rows i f js)
Lawful-update_rows i f js keeps moves k l h = elim (Bool-cases (k == i)) [
  | inl same_row ↦
      let e : k ≡ i = (==_iff k i).0 same_row in
      let found : row i js ≡ some l = rw e at h in
      (f l, rw e (row-update_rows_self i f keeps js found), moves l found)
  | inr other ↦ (l, row-update_rows_ne i f keeps k js (ground arith) ∙ h, inl refl)
]

-- What every operation needs and keeps: the primary key, and no change that is not committed.
abbrev pub IsValid : Session → Type 0
IsValid s = Keyed s.db.jobs × (s.durable ≡ s.db)

-- An operation from `s` to `s'` keeps the session valid and changes statuses by the table only.
abbrev pub Keeps : Session → Session → Type 0
Keeps s s' = IsValid s' × Lawful s.db.jobs s'.db.jobs

Keeps-refl : (s : Session) → IsValid s → Keeps s s
Keeps-refl s v = (v, Lawful-refl s.db.jobs)

pending-Moves : (q r : QueueStatus) → q ≡ QueueStatus.pending → r ≡ QueueStatus.reserved → Moves q r
pending-Moves q r h e = inr (rw (h, e) (unfold state_of allowed in refl))

Claims-Keeps :
    (b : Bind) (now : ℕ) (worker reason : String) (s : Session) (r : Result (Option ComfyJob))
    (s' : Session)
    → Keyed s'.db.jobs
    → Claims b now worker reason s (r, s')
    → Keeps s s'
Claims-Keeps b now worker reason s (err e) s' k c = absurd c
Claims-Keeps b now worker reason s (ok none) s' k c =
    ((k, c.0.1 ∙ sym c.0.0), rw (ap (λ (d : Db). d.jobs) c.0.0) (Lawful-refl s.db.jobs))
Claims-Keeps b now worker reason s (ok (some c')) s' k c = ((k, c.4.3), lawful)
  where
    lawful : Lawful s.db.jobs s'.db.jobs
    lawful m l h = elim (Bool-cases (m == c.0.id)) [
      | inl taken ↦
          let e : m ≡ c.0.id = (==_iff m c.0.id).0 taken in
          let found : row c.0.id s.db.jobs ≡ some l = rw e at h in
          let both : some l ≡ some c.0 = sym found ∙ c.1.0 in
          let same : l ≡ c.0 = cc in
          (
            c',
            rw e c.4.0,
            pending-Moves l.status c'.status (ap (λ (x : ComfyJob). x.status) same ∙ c.1.1)
                (ap (λ (x : ComfyJob). x.status) c.3),
          )
      | inr other ↦ (l, c.4.1 m (ground arith) ∙ h, inl refl)
    ]

pub claim-Keeps :
    (b : Bind) (now : ℕ) (worker reason : String) (s : Session)
    → IsValid s
    → Keeps s (claim_next_pending_job b now worker reason s).1
claim-Keeps b now worker reason s v =
    let (r, s') = claim_next_pending_job b now worker reason s in
    Claims-Keeps b now worker reason s r s' (claim-Keyed b now worker reason s v.0)
      (claim-Claims b now worker reason s v.0)

pub beat-Keeps :
    (now i : ℕ) (worker reason : String) (s : Session)
    → IsValid s
    → Keeps s (heartbeat_job now i worker reason s).1
beat-Keeps now i worker reason s v = elim (Option-cases (row i s.db.jobs)) [
  | inl absent ↦ rw (heartbeat_job-absent now i worker reason s absent) (Keeps-refl s v)
  | inr (j, found) ↦ elim (Bool-cases (is_holder worker j)) [
    | inl holds ↦
        rw (heartbeat_job-found now i worker reason s found, holds)
          (
            (Keyed-update_rows i beat s.db.jobs (λ _. refl) v.0, refl),
            Lawful-update_rows i beat s.db.jobs (λ _. refl) (λ _ _. inl refl),
          )
    | inr other ↦ rw (heartbeat_job-found now i worker reason s found, other) (Keeps-refl s v)
  ]
]
  where
    beat : ComfyJob → ComfyJob
    beat k = record k { heartbeat_at = some now }

-- After a rollback a valid session is as it was.
rollback-Keeps : (s : Session) → IsValid s → Keeps s (record s { db = s.durable })
rollback-Keeps s v = rw v.1 ((v.0, refl), Lawful-refl s.db.jobs)

moved-status :
    (now : ℕ) (worker : Option String) (t : JobState) (j : ComfyJob)
    → (moved now worker t (status_of t) j).status ≡ status_of t
moved-status now worker t j = ground arith

moved-id :
    (now : ℕ) (worker : Option String) (t : JobState) (j : ComfyJob)
    → (moved now worker t (status_of t) j).id ≡ j.id
moved-id now worker t j = ground arith

change_to-Keeps :
    (now i : ℕ) (t : JobState) (reason actor : String) (worker : Option String) (s : Session)
    {j : ComfyJob}
    → IsValid s
    → row i s.db.jobs ≡ some j
    → Keeps s (transition_job now i (States.value t) reason actor worker s).1
change_to-Keeps now i t reason actor worker s {j} v found =
    elim (Bool-cases (allowed (state_of j.status) t)) [
      | inl yes_allowed ↦
          rw (transition_job-found now i reason actor worker s t found, yes_allowed)
            (
              (Keyed-update_rows i f s.db.jobs (moved-id now worker t) v.0, refl),
              Lawful-update_rows i f s.db.jobs (moved-id now worker t) (moves yes_allowed),
            )
      | inr refused ↦
          rw (transition_job-found now i reason actor worker s t found, refused)
            (rollback-Keeps s v)
    ]
  where
    f : ComfyJob → ComfyJob
    f = moved now worker t (status_of t)

    moves :
        allowed (state_of j.status) t ≡ true
        → (k : ComfyJob) → row i s.db.jobs ≡ some k
        → Moves k.status (f k).status
    moves yes_allowed k r =
        let both : some j ≡ some k = sym found ∙ r in
        let same : j ≡ k = cc in
        inr (
          rw (moved-status now worker t k, state_of-status_of t)
            (ap (λ (x : ComfyJob). allowed (state_of x.status) t) (sym same) ∙ yes_allowed))

pub change-Keeps :
    (now i : ℕ) (target reason actor : String) (worker : Option String) (s : Session)
    → IsValid s
    → Keeps s (transition_job now i target reason actor worker s).1
change-Keeps now i target reason actor worker s v = elim (Option-cases (row i s.db.jobs)) [
  | inl absent ↦
      rw (transition_job-absent now i reason actor worker s target absent) (Keeps-refl s v)
  | inr (j, found) ↦ elim (Option-cases (States.of_value target)) [
    | inl unknown ↦
        rw (transition_job-unknown now i reason actor worker s target found unknown)
          (rollback-Keeps s v)
    | inr (t, known) ↦
        subst (λ x. Keeps s (transition_job now i x reason actor worker s).1)
          (value-of_value target known) (change_to-Keeps now i t reason actor worker s v found)
  ]
]

-- A recovered row was reserved, and is pending or has timed out.
outcome-Moves :
    (q : QueueStatus) (again : Bool)
    → q ≡ QueueStatus.reserved
    → Moves q (if again then QueueStatus.pending else QueueStatus.timeout)
outcome-Moves q true h = inr (rw h (unfold state_of allowed in refl))
outcome-Moves q false h = inr (rw h (unfold state_of allowed in refl))

pub recover-Keeps :
    (b : Bind) (now before max_attempts limit : ℕ) (reason : String) (s : Session)
    → IsValid s
    → Keeps s (recover_stale_reserved_jobs b now before max_attempts limit reason s).1
recover-Keeps b now before zero limit reason s v =
    rw (recover_guards b now before zero limit reason s).0 (Keeps-refl s v)
recover-Keeps b now before (suc m) zero reason s v =
    rw ((recover_guards b now before (suc m) zero reason s).1 (omega arith)) (Keeps-refl s v)
recover-Keeps b now before (suc m) (suc n) reason s v =
    rw (recover-loop b now before (suc m) (suc n) reason s (omega arith) (omega arith)) (
      (
        Keyed-rows_after now (suc m) reason (chosen b now before (suc m) (suc n) reason s) s.db.jobs
            v.0,
        refl,
      ),
      lawful,
    )
  where
    lawful :
        Lawful s.db.jobs
          (rows_after now (suc m) reason (chosen b now before (suc m) (suc n) reason s) s.db.jobs)
    lawful i j r =
        let e : i ≡ j.id = sym (row-id i s.db.jobs r) in
        let r' : row j.id s.db.jobs ≡ some j = rw e at r in
        elim (row-outcome b now before (suc m) (suc n) reason s j v.0 r') [
          | inl kept ↦ (j, rw e kept, inl refl)
          | inr done ↦ (
            outcome now (suc m) reason j,
            rw e done.1,
            outcome-Moves j.status (ltb j.attempt_count (suc m))
                (candidate_reserved b before j done.0),
          )
        ]
