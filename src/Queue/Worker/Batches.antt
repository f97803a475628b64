-- ===== src/Queue/Worker/Batches.antt =====
-- What one round and one batch of a worker come to.
use cine_forge.Prelude.{
  ℕ, zero, suc, ◌≤◌, ◌<◌, String, ◌≡◌, refl, sym, ap, ◌∙◌, true, false, Option, none, some, List,
  [], ◌∷◌, length, All, arith, inl, inr, if◌then◌else◌, Bool-cases,
}
use mathlib.Core.Bool.{true≢false}
use cine_forge.Queue.Machine.{Result, ok, err}
use cine_forge.Queue.Store.{ComfyJob, Db, Session, go_on, pure, ◌>>=◌}
use cine_forge.Queue.Store.Rows.{row, Keyed}
use cine_forge.Queue.Status.{QueueStatus}
use cine_forge.Queue.Service.{Bind, skips, claim_next_pending_job}
use cine_forge.Queue.Service.Claims.{Claims, claim-Claims, claim-Keyed}
use cine_forge.Queue.Worker.{QueueWorkerResult, Handler, handled, run_claimed, run_once, run_batch}

-- What a result says of the handler's own outcome for a job.
abbrev pub Tells : Option Handler → ComfyJob → Session → QueueWorkerResult → Type 0
Tells none j t r = (r.handler_called ≡ false) × (r.handler_succeeded ≡ none) × (r.error ≡ none)
Tells (some handler) j t r =
    (r.handler_called ≡ true)
    × ((handler j t).0 ≡ none → (r.handler_succeeded ≡ some true) × (r.error ≡ none))
    × ((message : String)
        → (handler j t).0 ≡ some message
        → (r.handler_succeeded ≡ some false) × (r.error ≡ some message))

-- What a result of a batch says: there is a job and a committed state of the tables, the one after
-- its claim, in which the job is reserved by the worker; the result names this job, and tells how
-- the handler, if there is one, ended for this job in this state.
abbrev pub IsReport : String → Option Handler → QueueWorkerResult → Type 0
IsReport worker handler r =
    (j : ComfyJob) × (t : Session) × ((row j.id t.db.jobs ≡ some j)
      × (j.status ≡ QueueStatus.reserved)
      × (j.worker_id ≡ some worker)
      × (t.durable ≡ t.db))
    × ((r.worker_id ≡ worker) × (r.claimed ≡ true) × (r.claimed_job_id ≡ some j.id))
    × Tells handler j t r

-- A handler that leaves the primary key alone.
abbrev pub KeepsKeys : Option Handler → Type 0
KeepsKeys none = Unit
KeepsKeys (some handler) =
    (job : ComfyJob) (s : Session) → Keyed s.db.jobs → Keyed (handler job s).1.db.jobs

-- No job is left that the worker may claim.
abbrev pub Drained : Bind → Session → Type 0
Drained b t =
    (m : ComfyJob) → row m.id t.db.jobs ≡ some m → m.status ≡ QueueStatus.pending → skips b m ≡ true

-- What one round has come to.
abbrev Round : Bind → String → Option Handler → Result QueueWorkerResult × Session → Type 0
Round b worker handler (err e, s') = ⊥
Round b worker handler (ok r, s') =
    Keyed s'.db.jobs
    × (r.claimed ≡ true → IsReport worker handler r)
    × (r.claimed ≡ false → Drained b s')

handled-Tells :
    (worker : String) (handler : Handler) (j : ComfyJob) (t : Session) (outcome : Option String)
    → (handler j t).0 ≡ outcome
    → Tells (some handler) j t (handled worker j outcome)
handled-Tells worker handler j t none e = (refl, λ _. (refl, refl), λ m h. absurd (cc (e, h)))
handled-Tells worker handler j t (some message) e =
    (refl, λ h. absurd (cc (e, h)), λ m h. (refl, cc (e, h)))

handled-claim :
    (worker : String) (handler : Handler) (j : ComfyJob) (outcome : Option String)
    → let r = handled worker j outcome in
      (r.worker_id ≡ worker) × (r.claimed ≡ true) × (r.claimed_job_id ≡ some j.id)
handled-claim worker handler j none = (refl, refl, refl)
handled-claim worker handler j (some message) = (refl, refl, refl)

-- A row that is reserved by a worker, in a committed state.
abbrev Held : String → ComfyJob → Session → Type 0
Held worker j t =
    (row j.id t.db.jobs ≡ some j)
    × (j.status ≡ QueueStatus.reserved)
    × (j.worker_id ≡ some worker)
    × (t.durable ≡ t.db)

run_claimed-Round :
    (b : Bind) (worker : String) (handler : Option Handler) (j : ComfyJob) (t : Session)
    → KeepsKeys handler
    → Keyed t.db.jobs
    → Held worker j t
    → Round b worker handler (run_claimed worker handler (some j) t)
unfolding run_claimed
run_claimed-Round b worker none j t keeps k held =
    (k, λ _. (j, t, held, (refl, refl, refl), (refl, refl, refl)), λ h. absurd (true≢false h))
run_claimed-Round b worker (some handler) j t keeps k held = (
  keeps j t k,
  λ _. (
    j,
    t,
    held,
    handled-claim worker handler j (handler j t).0,
    handled-Tells worker handler j t (handler j t).0 refl,
  ),
  λ h. absurd (true≢false (sym (handled-claim worker handler j (handler j t).0).1 ∙ h)),
)

no_claim-Round :
    (b : Bind) (worker : String) (handler : Option Handler) (t : Session)
    → Keyed t.db.jobs
    → Drained b t
    → Round b worker handler (run_claimed worker handler none t)
unfolding run_claimed
no_claim-Round b worker handler t k empty = (k, λ h. absurd (cc h), λ _. empty)

claimed-Round :
    (b : Bind) (now : ℕ) (worker reason : String) (handler : Option Handler) (s : Session)
    (o : Result (Option ComfyJob)) (t : Session)
    → KeepsKeys handler
    → Keyed t.db.jobs
    → Claims b now worker reason s (o, t)
    → Round b worker handler (go_on (o, t) (run_claimed worker handler))
claimed-Round b now worker reason handler s (err e) t keeps k c = absurd c
claimed-Round b now worker reason handler s (ok none) t keeps k c =
    no_claim-Round b worker handler t k
      (λ m r. c.1 m (ap (λ (d : Db). row m.id d.jobs) (sym c.0.0) ∙ r))
claimed-Round b now worker reason handler s (ok (some j)) t keeps k c =
    let (m, took, least, made, (held, others, logged, saved)) = c in
    let same : j.id ≡ m.id = ap (λ (x : ComfyJob). x.id) made in
    run_claimed-Round b worker handler j t keeps k (
      ap (λ i. row i t.db.jobs) same ∙ held,
      ap (λ (x : ComfyJob). x.status) made,
      ap (λ (x : ComfyJob). x.worker_id) made,
      saved,
    )

run_once-Round :
    (b : Bind) (now : ℕ) (worker : String) (handler : Option Handler) (s : Session)
    → KeepsKeys handler
    → Keyed s.db.jobs
    → Round b worker handler (run_once b now worker handler s)
unfolding run_once
run_once-Round b now worker handler s keeps k =
    let (o, t) = claim_next_pending_job b now worker "worker run once" s in
    claimed-Round b now worker "worker run once" handler s o t keeps
      (claim-Keyed b now worker "worker run once" s k)
      (claim-Claims b now worker "worker run once" s k)

-- What a batch of at most so many rounds has come to.
abbrev pub Batch :
    Bind → String → Option Handler → ℕ → Result (List QueueWorkerResult) × Session → Type 0
Batch b worker handler n (err e, s') = ⊥
Batch b worker handler n (ok rs, s') =
    (length rs ≤ n)
    × All (IsReport worker handler) rs
    × Keyed s'.db.jobs
    × (length rs < n → Drained b s')

abbrev continue :
    QueueWorkerResult
    → Result (List QueueWorkerResult) × Session
    → Result (List QueueWorkerResult) × Session
continue r o = go_on o (λ rs. pure (r ∷ rs))

continue-Batch :
    (b : Bind) (worker : String) (handler : Option Handler) (n : ℕ) (r : QueueWorkerResult)
    (o : Result (List QueueWorkerResult) × Session)
    → IsReport worker handler r
    → Batch b worker handler n o
    → Batch b worker handler (suc n) (continue r o)
continue-Batch b worker handler n r (err e, s') report batch = absurd batch
continue-Batch b worker handler n r (ok rs, s') report batch =
    (omega arith, (report, batch.1), batch.2, λ h. batch.3 (omega arith))

Round-Batch :
    (b : Bind) (clock : ℕ → ℕ) (worker : String) (handler : Option Handler) (n : ℕ)
    (o : Result QueueWorkerResult × Session)
    → Round b worker handler o
    → ((s : Session)
        → Keyed s.db.jobs
        → Batch b worker handler n (run_batch b clock worker handler n s))
    → Batch b worker handler (suc n) (
        go_on o (λ result.
          let rest = run_batch b clock worker handler n in
          if result.claimed then rest >>= (λ rs. pure (result ∷ rs)) else pure []))
Round-Batch b clock worker handler n (err e, s') round rest = absurd round
Round-Batch b clock worker handler n (ok r, s') round rest = elim (Bool-cases r.claimed) [
  | inl claimed ↦ simp claimed (
      continue-Batch b worker handler n r (run_batch b clock worker handler n s') (round.1 claimed)
        (rest s' round.0))
  | inr nothing ↦ simp nothing (omega arith, tt, round.0, λ _. round.2 nothing)
]

-- With a handler that leaves the primary key alone, a batch always returns. It has at most
-- `max_jobs` results. Each is about a job that was, when its handler was called, committed as
-- reserved by this worker, and tells that handler's own outcome: success without an error text
-- where it returned, failure with the text of the exception where it raised. With fewer results than
-- `max_jobs` no pending job is left, but those that other transactions hold locked on PostgreSQL.
pub run_batch-Batch :
    (b : Bind) (clock : ℕ → ℕ) (worker : String) (handler : Option Handler) (max_jobs : ℕ)
    (s : Session)
    → KeepsKeys handler
    → Keyed s.db.jobs
    → Batch b worker handler max_jobs (run_batch b clock worker handler max_jobs s)
unfolding run_batch
run_batch-Batch b clock worker handler zero s keeps k =
    (omega arith, tt, k, λ h. absurd (omega (arith, h)))
run_batch-Batch b clock worker handler (suc n) s keeps k =
    Round-Batch b clock worker handler n (run_once b (clock (suc n)) worker handler s)
      (run_once-Round b (clock (suc n)) worker handler s keeps k)
      (λ t kt. run_batch-Batch b clock worker handler n t keeps kt)
