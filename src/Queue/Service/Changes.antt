-- ===== src/Queue/Service/Changes.antt =====
-- What `transition_job` and `heartbeat_job` do.
use cine_forge.Prelude.{
  ℕ, ◌+◌, String, ◌≡◌, ◌≢◌, ◌⊎◌, refl, true, false, ◌&&◌, Option, none, some, [], ◌∷◌, ◌++◌,
  if◌then◌else◌, Bool-cases, inl, inr, is_some, length, length-snoc,
}
use cine_forge.Queue.States
use cine_forge.Queue.States.{JobState, allowed}
use cine_forge.Queue.Machine.{
  Result, ok, err, job_not_found, value_error, invalid_transition, transition,
}
use cine_forge.Queue.Transitions.{
  accepted, state_of, status_of, of_value-state, transition-status, of_value-status,
}
use cine_forge.Queue.Store.{ComfyJob, Db, Session, update_rows}
use cine_forge.Queue.Store.Rows.{row, row-update_rows_self, row-update_rows_ne}
use cine_forge.Queue.Service.{
  moved, transition_audit, transition_job, is_holder, heartbeat_audit, heartbeat_job,
}

-- The database after an accepted change.
abbrev pub after_change : ℕ → ℕ → JobState → String → String → Option String → ComfyJob → Db → Db
after_change now i t reason actor worker j db =
    let f = moved now worker t (status_of t) in
    record db {
      jobs = update_rows i f db.jobs;
      audit =
          db.audit
          ++ transition_audit reason actor worker (accepted (state_of j.status) t reason) (f j)
            ∷ [];
    }

not_reserved : (t : JobState) → t ≢ JobState.reserved → States.same t JobState.reserved ≡ false
unfolding States.same
not_reserved JobState.reserved h = absurd (h refl)
not_reserved _ h = refl

module _ (now i : ℕ) (reason actor : String) (worker : Option String) (s : Session) where
  -- For a job that is found and the value of a state, `transition_job` does what the table says:
  -- an allowed change is written, audited and committed, any other raises after a rollback.
  pub transition_job-found :
      (t : JobState) {j : ComfyJob}
      → row i s.db.jobs ≡ some j
      → transition_job now i (States.value t) reason actor worker s ≡ (
          let d = after_change now i t reason actor worker j s.db in
          if allowed (state_of j.status) t
          then (ok (moved now worker t (status_of t) j), record { db = d; durable = d })
          else (err (invalid_transition (state_of j.status) t), record s { db = s.durable }))
  unfolding transition_job
  transition_job-found t {j} found = elim (Bool-cases (allowed (state_of j.status) t)) [
    | inl yes_allowed ↦ rw (found, transition-status, yes_allowed, of_value-state)
    | inr refused ↦ rw (found, transition-status, refused)
  ]

  -- What the call has done to the row `j`.
  abbrev pub Changes : JobState → ComfyJob → Result ComfyJob × Session → Type 0
  Changes t j (err e, s') =
      (allowed (state_of j.status) t ≡ false)
      × (e ≡ invalid_transition (state_of j.status) t)
      × ((s'.db ≡ s.durable) × (s'.durable ≡ s.durable))
  Changes t j (ok k, s') =
      (allowed (state_of j.status) t ≡ true)
      × ((k.status ≡ status_of t)
          × (k.last_state_change_at ≡ some now)
          × (k.prompt_id ≡ j.prompt_id))
      × ((t ≡ JobState.reserved
            → (w : String) → worker ≡ some w
            → (k.worker_id ≡ some w)
              × (k.reserved_at ≡ some now)
              × (k.heartbeat_at ≡ some now)
              × (k.attempt_count ≡ j.attempt_count + 1))
          × ((t ≢ JobState.reserved) ⊎ (worker ≡ none)
              → (k.worker_id ≡ j.worker_id)
                × (k.reserved_at ≡ j.reserved_at)
                × (k.heartbeat_at ≡ j.heartbeat_at)
                × (k.attempt_count ≡ j.attempt_count)))
      × ((row i s'.db.jobs ≡ some k)
          × ((m : ℕ) → m ≢ i → row m s'.db.jobs ≡ row m s.db.jobs)
          × (length s'.db.audit ≡ length s.db.audit + 1)
          × (s'.durable ≡ s'.db))

  moved-lease :
      (t : JobState) (j : ComfyJob)
      → let k = moved now worker t (status_of t) j in
        (t ≡ JobState.reserved
          → (w : String) → worker ≡ some w
          → (k.worker_id ≡ some w)
            × (k.reserved_at ≡ some now)
            × (k.heartbeat_at ≡ some now)
            × (k.attempt_count ≡ j.attempt_count + 1))
        × ((t ≢ JobState.reserved) ⊎ (worker ≡ none)
            → (k.worker_id ≡ j.worker_id)
              × (k.reserved_at ≡ j.reserved_at)
              × (k.heartbeat_at ≡ j.heartbeat_at)
              × (k.attempt_count ≡ j.attempt_count))
  unfolding States.same
  moved-lease t j = (
    λ e w f. rw (e, f) (refl, refl, refl, refl),
    λ h. elim h [
      | inl other ↦ rw (not_reserved t other) (refl, refl, refl, refl)
      | inr nobody ↦ rw nobody (elim (Bool-cases (States.same t JobState.reserved)) [
        | inl e ↦ rw e (refl, refl, refl, refl)
        | inr e ↦ rw e (refl, refl, refl, refl)
      ])
    ],
  )

  moved-rest :
      (t : JobState) (j : ComfyJob)
      → let k = moved now worker t (status_of t) j in
        ((k.status ≡ status_of t)
          × (k.last_state_change_at ≡ some now)
          × (k.prompt_id ≡ j.prompt_id))
        × (k.id ≡ j.id)
  moved-rest t j = elim (Bool-cases (States.same t JobState.reserved && is_some worker)) [
    | inl e ↦ rw e ((refl, refl, refl), refl)
    | inr e ↦ rw e ((refl, refl, refl), refl)
  ]

  -- For a job that is found and the value of a state: the call returns exactly if the table allows
  -- the change. Then the job's row has the new status and, only where a worker reserves it, that
  -- worker, new lease times and one more attempt; no other row changes, one audit entry is added
  -- and all is committed. A change that is not allowed raises, naming both states, and the session
  -- is rolled back to what was committed.
  pub transition_job-Changes :
      (t : JobState) {j : ComfyJob}
      → row i s.db.jobs ≡ some j
      → Changes t j (transition_job now i (States.value t) reason actor worker s)
  transition_job-Changes t {j} found = elim (Bool-cases (allowed (state_of j.status) t)) [
    | inl fits ↦
        let f = moved now worker t (status_of t) in
        let keeps = λ (x : ComfyJob). (moved-rest t x).1 in
        rw (transition_job-found t found, fits)
          (
            fits,
            (moved-rest t j).0,
            moved-lease t j,
            (
              row-update_rows_self i f keeps s.db.jobs found,
              λ m ne. row-update_rows_ne i f keeps m s.db.jobs ne,
              length-snoc s.db.audit _,
              refl,
            ),
          )
    | inr refused ↦ rw (transition_job-found t found, refused) (refused, refl, (refl, refl))
  ]

  pub transition_job-absent :
      (target : String)
      → row i s.db.jobs ≡ none
      → transition_job now i target reason actor worker s ≡ (err (job_not_found i), s)
  unfolding transition_job
  transition_job-absent target absent = rw absent

  pub transition_job-unknown :
      (target : String) {j : ComfyJob}
      → row i s.db.jobs ≡ some j
      → States.of_value target ≡ none
      → transition_job now i target reason actor worker s
        ≡ (err value_error, record s { db = s.durable })
  unfolding transition_job transition
  transition_job-unknown target {j} found unknown = rw (found, of_value-status, unknown)

module _ (now i : ℕ) (worker reason : String) (s : Session) where
  abbrev pub after_beat : ComfyJob → Db
  after_beat j = record s.db {
    jobs = update_rows i (λ k. record k { heartbeat_at = some now }) s.db.jobs;
    audit = s.db.audit ++ heartbeat_audit now worker reason j ∷ [];
  }

  -- A heartbeat sets one column of one row, and only for the worker that holds the reservation;
  -- for any other it changes nothing and returns no job.
  pub heartbeat_job-found :
      {j : ComfyJob}
      → row i s.db.jobs ≡ some j
      → heartbeat_job now i worker reason s ≡ (
          if is_holder worker j
          then (
            ok (some (record j { heartbeat_at = some now })),
            record { db = after_beat j; durable = after_beat j },
          )
          else (ok none, s))
  unfolding heartbeat_job
  heartbeat_job-found {j} found = elim (Bool-cases (is_holder worker j)) [
    | inl holds ↦ rw (found, holds)
    | inr other ↦ rw (found, other)
  ]

  pub heartbeat_job-absent :
      row i s.db.jobs ≡ none → heartbeat_job now i worker reason s ≡ (err (job_not_found i), s)
  unfolding heartbeat_job
  heartbeat_job-absent absent = rw absent
