-- ===== src/Queue/Recovery/Effects.antt =====
-- What `recover_stale_reserved_jobs` does to the queue.
use cine_forge.Prelude.{
  ℕ, ◌+◌, ◌≤◌, ◌<◌, String, ◌≡◌, refl, true, false, Option, none, some, List, [], ◌∷◌, arith, ap,
  sym, ◌∙◌, Option-cases, inl, inr, ◌⊎◌, All, select, take, map, length, length-take-le, All-map,
  le→not-ltb, length-map,
}
use cine_forge.Queue.Status
use cine_forge.Queue.Status.{QueueStatus}
use cine_forge.Queue.Machine.{Result, ok, err, value_error}
use cine_forge.Queue.Store.{ComfyJob, Session, order_by_id, go_on, pure, commit, ◌>>◌}
use cine_forge.Queue.Store.Rows.{row, Keyed, row-order_by_id, row-select, row_of_select}
use cine_forge.Queue.Service.{Bind, skips}
use cine_forge.Queue.Recovery.{is_candidate, candidates, recover_stale_reserved_jobs}
use cine_forge.Queue.Recovery.Rounds.{
  All-order_by_id, All-take, All-select, Keyed-select, Keyed-order_by_id, Keyed-take, row-take,
  take_short, outcome, rows_after, after_rounds, recover_rows-reserved, row-rows_after-none,
  row-rows_after-some, length-audit_after,
}

pub candidate_reserved :
    (b : Bind) (before : ℕ) (c : ComfyJob)
    → is_candidate b before c ≡ true
    → c.status ≡ QueueStatus.reserved
unfolding Status.same
candidate_reserved b before c h = ground arith

-- A reservation that nobody has kept up since an instant: its heartbeat is older, or, where it has
-- none, its reservation time is older or missing too.
abbrev pub IsStale : ℕ → ComfyJob → Type 0
IsStale before j =
    (j.status ≡ QueueStatus.reserved)
    × (((t : ℕ) × (j.heartbeat_at ≡ some t) × (t < before))
        ⊎ ((j.heartbeat_at ≡ none)
            × ((j.reserved_at ≡ none) ⊎ ((t : ℕ) × (j.reserved_at ≡ some t) × (t < before)))))

-- The row `k` of a job that was recovered from its row `j`.
abbrev pub IsRecovered : ℕ → ℕ → String → ComfyJob → ComfyJob → Type 0
IsRecovered now max_attempts reason j k =
    ((j.attempt_count < max_attempts → k.status ≡ QueueStatus.pending)
      × (max_attempts ≤ j.attempt_count → k.status ≡ QueueStatus.timeout)
      × (k.attempt_count ≡ j.attempt_count))
    × ((k.worker_id ≡ none) × (k.reserved_at ≡ none) × (k.heartbeat_at ≡ none))
    × ((k.last_state_change_at ≡ some now)
        × (k.recovery_metadata.previous_worker_id ≡ j.worker_id)
        × (k.recovery_metadata.last_recovery_reason ≡ some reason))

candidate-IsStale :
    (b : Bind) (before : ℕ) (j : ComfyJob)
    → is_candidate b before j ≡ true
    → IsStale before j × (skips b j ≡ false)
candidate-IsStale b before j h =
    ((candidate_reserved b before j h, when j.heartbeat_at j.reserved_at refl refl), ground arith)
  where
    when :
        (beat reserved : Option ℕ)
        → j.heartbeat_at ≡ beat
        → j.reserved_at ≡ reserved
        → ((t : ℕ) × (j.heartbeat_at ≡ some t) × (t < before))
          ⊎ ((j.heartbeat_at ≡ none)
              × ((j.reserved_at ≡ none) ⊎ ((t : ℕ) × (j.reserved_at ≡ some t) × (t < before))))
    when (some t) reserved e f = inl (t, e, ground (arith, h, e))
    when none none e f = inr (e, inl f)
    when none (some t) e f = inr (e, inr (t, f, ground (arith, h, e, f)))

IsStale-candidate :
    (b : Bind) (before : ℕ) (j : ComfyJob)
    → IsStale before j
    → skips b j ≡ false
    → is_candidate b before j ≡ true
unfolding Status.same
IsStale-candidate b before j (r, inl (t, e, late)) free = rw (r, e, free) (ground arith)
IsStale-candidate b before j (r, inr (e, inl f)) free = rw (r, e, f, free) refl
IsStale-candidate b before j (r, inr (e, inr (t, f, late))) free = rw (r, e, f, free) (ground arith)

outcome-IsRecovered :
    (now max_attempts : ℕ) (reason : String) (j : ComfyJob)
    → IsRecovered now max_attempts reason j (outcome now max_attempts reason j)
outcome-IsRecovered now max_attempts reason j =
    ((λ h. ground arith, λ h. ground arith, refl), (refl, refl, refl), (refl, refl, refl))

row-map-outcome :
    (now max_attempts : ℕ) (reason : String) (i : ℕ) (cs : List ComfyJob) {j : ComfyJob}
    → row i cs ≡ some j
    → row i (map (outcome now max_attempts reason) cs) ≡ some (outcome now max_attempts reason j)
row-map-outcome now max_attempts reason i [] h = cc
row-map-outcome now max_attempts reason i (c ∷ cs) {j} h =
    ground (arith, row-map-outcome now max_attempts reason i cs {j = j})

module _ (b : Bind) (now before max_attempts limit : ℕ) (reason : String) (s : Session) where
  -- The rows that the call works on.
  abbrev pub chosen : List ComfyJob
  chosen = take limit (order_by_id (select (is_candidate b before) s.db.jobs))

  -- With at least one attempt and a positive limit, the call runs its loop and commits.
  pub recover-loop :
      1 ≤ max_attempts
      → 1 ≤ limit
      → let s' = after_rounds now max_attempts reason chosen s in
        recover_stale_reserved_jobs b now before max_attempts limit reason s ≡ (
          ok (map (outcome now max_attempts reason) chosen),
          record { db = s'.db; durable = s'.db },
        )
  unfolding recover_stale_reserved_jobs candidates
  recover-loop h l =
      rw (le→not-ltb 1 max_attempts h, le→not-ltb 1 limit l)
        (ap (λ (o : Result (List ComfyJob) × Session). go_on o (λ done. commit >> pure done))
          (recover_rows-reserved now max_attempts reason chosen s reserved_rows))
    where
      reserved_rows : All (λ c. c.status ≡ QueueStatus.reserved) chosen
      reserved_rows =
          All-take (λ c. c.status ≡ QueueStatus.reserved) limit _
            (All-order_by_id (λ c. c.status ≡ QueueStatus.reserved) _
              (All-map (candidate_reserved b before) _
                (All-select (is_candidate b before) s.db.jobs)))

  Keyed-chosen : Keyed s.db.jobs → Keyed chosen
  Keyed-chosen k = Keyed-take limit _ (Keyed-order_by_id _ (Keyed-select _ s.db.jobs k))

  -- What the loop did to a row of the table.
  pub row-outcome :
      (j : ComfyJob)
      → Keyed s.db.jobs
      → row j.id s.db.jobs ≡ some j
      → let js' = rows_after now max_attempts reason chosen s.db.jobs in
        (row j.id js' ≡ some j)
        ⊎ ((is_candidate b before j ≡ true)
            × (row j.id js' ≡ some (outcome now max_attempts reason j))
            × (row j.id chosen ≡ some j))
  row-outcome j k r = elim (Option-cases (row j.id chosen)) [
    | inl left ↦ inl (row-rows_after-none now max_attempts reason j.id chosen s.db.jobs left ∙ r)
    | inr (c, found) ↦
        let selected = sym (row-order_by_id j.id _) ∙ row-take j.id limit _ found in
        let held = row_of_select j.id (is_candidate b before) s.db.jobs {j = c} k selected in
        let both : some c ≡ some j = sym held.0 ∙ r in
        let same : c ≡ j = cc in
        let found' : row j.id chosen ≡ some j = found ∙ ap some same in
        inr (
          rw same at held.1,
          row-rows_after-some now max_attempts reason j.id chosen s.db.jobs {c = j} {j = j}
              (Keyed-chosen k) found' r,
          found',
        )
  ]

  row-IsRecovered :
      (j : ComfyJob)
      → Keyed s.db.jobs
      → row j.id s.db.jobs ≡ some j
      → let js' = rows_after now max_attempts reason chosen s.db.jobs in
        (row j.id js' ≡ some j)
        ⊎ ((IsStale before j × (skips b j ≡ false))
            × ((m : ComfyJob) × (row j.id js' ≡ some m)
                × (row j.id (map (outcome now max_attempts reason) chosen) ≡ some m)
                × IsRecovered now max_attempts reason j m))
  row-IsRecovered j k r = elim (row-outcome j k r) [
    | inl same ↦ inl same
    | inr (stale, after, picked) ↦ inr (
      candidate-IsStale b before j stale,
      (
        outcome now max_attempts reason j,
        after,
        row-map-outcome now max_attempts reason j.id chosen {j = j} picked,
        outcome-IsRecovered now max_attempts reason j,
      ),
    )
  ]

  -- A candidate that a short selection holds.
  row-chosen :
      (j : ComfyJob)
      → Keyed s.db.jobs
      → row j.id s.db.jobs ≡ some j
      → is_candidate b before j ≡ true
      → length chosen < limit
      → row j.id chosen ≡ some j
  row-chosen j k r h short =
      rw (take_short limit (order_by_id (select (is_candidate b before) s.db.jobs)) short)
        (row-order_by_id j.id _ ∙ (row-select j.id (is_candidate b before) s.db.jobs k r ∙ rw h))

-- What a call of `recover_stale_reserved_jobs` that began at `s` has done, by how it ended.
abbrev pub Recovers :
    Bind → ℕ → ℕ → ℕ → ℕ → String → Session → Result (List ComfyJob) × Session → Type 0
Recovers b now before max_attempts limit reason s (err e, s') = ⊥
Recovers b now before max_attempts limit reason s (ok done, s') =
    ((length done ≤ limit)
      × (length s'.db.audit ≡ length s.db.audit + length done)
      × (s'.durable ≡ s'.db))
    × ((j : ComfyJob)
        → row j.id s.db.jobs ≡ some j
        → (row j.id s'.db.jobs ≡ some j)
          ⊎ ((IsStale before j × (skips b j ≡ false))
              × ((k : ComfyJob) × (row j.id s'.db.jobs ≡ some k)
                  × (row j.id done ≡ some k)
                  × IsRecovered now max_attempts reason j k)))
    × (length done < limit
        → (j : ComfyJob) → row j.id s.db.jobs ≡ some j
        → IsStale before j
        → skips b j ≡ false
        → (k : ComfyJob) × (row j.id s'.db.jobs ≡ some k) × IsRecovered now max_attempts reason j k)

-- With `max_attempts` and `limit` at least 1, recovery never raises, and commits. It returns at
-- most `limit` rows and adds one audit entry for each. A row of the table stays as it was, or it
-- was a stale reservation that no other transaction holds locked: then it is among the returned
-- rows, without a worker and lease times, pending if it has attempts left and timed out if not. If
-- fewer rows than the limit are returned, every stale reservation that is not locked is recovered.
pub recover-Recovers :
    (b : Bind) (now before max_attempts limit : ℕ) (reason : String) (s : Session)
    → Keyed s.db.jobs
    → 1 ≤ max_attempts
    → 1 ≤ limit
    → Recovers b now before max_attempts limit reason s
        (recover_stale_reserved_jobs b now before max_attempts limit reason s)
recover-Recovers b now before max_attempts limit reason s k h l =
    rw (recover-loop b now before max_attempts limit reason s h l) (
      (
        omega (arith, counted, length-take-le limit (order_by_id _)),
        omega (arith, counted, length-audit_after now max_attempts reason cs s.db.audit),
        refl,
      ),
      λ j r. row-IsRecovered b now before max_attempts limit reason s j k r,
      λ short j r stale free. (
        outcome now max_attempts reason j,
        row-rows_after-some now max_attempts reason j.id cs s.db.jobs {c = j} {j = j}
            (Keyed-chosen b now before max_attempts limit reason s k)
            (row-chosen b now before max_attempts limit reason s j k r
              (IsStale-candidate b before j stale free) (omega (arith, counted)))
            r,
        outcome-IsRecovered now max_attempts reason j,
      ),
    )
  where
    cs : List ComfyJob
    cs = chosen b now before max_attempts limit reason s

    counted : length (map (outcome now max_attempts reason) cs) ≡ length cs
    counted = length-map cs (outcome now max_attempts reason)

-- Whatever the limit, fewer than one attempt is refused and nothing is changed; with attempts but a
-- limit below 1 nothing is changed either.
pub recover_guards :
    (b : Bind) (now before max_attempts limit : ℕ) (reason : String) (s : Session)
    → (recover_stale_reserved_jobs b now before 0 limit reason s ≡ (err value_error, s))
      × (1 ≤ max_attempts
          → recover_stale_reserved_jobs b now before max_attempts 0 reason s ≡ (ok [], s))
unfolding recover_stale_reserved_jobs
recover_guards b now before max_attempts limit reason s =
    (refl, λ h. rw (le→not-ltb 1 max_attempts h))
