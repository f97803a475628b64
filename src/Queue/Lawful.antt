-- ===== src/Queue/Lawful.antt =====
-- Every operation of the queue service changes the statuses of jobs by the table only.
use cine_forge.Prelude.{ℕ, String, ◌≡◌, refl, ◌≢◌, Option, some, List, ap, sym, ◌∙◌, inl, inr}
use cine_forge.Queue.States.{JobState}
use cine_forge.Queue.Status.{QueueStatus}
use cine_forge.Queue.Machine.{ok}
use cine_forge.Queue.Transitions.{Trace, here, next, submitted_once, state_of}
use cine_forge.Queue.Store.{ComfyJob, Session}
use cine_forge.Queue.Store.Rows.{row}
use cine_forge.Queue.Service.{Bind, claim_next_pending_job, transition_job, heartbeat_job}
use cine_forge.Queue.Recovery.{recover_stale_reserved_jobs}
use cine_forge.Queue.Service.Claims.{Claims, claim-Claims, Claims-pending}
use cine_forge.Queue.Kept.{
  Moves, Lawful, IsValid, claim-Keeps, beat-Keeps, change-Keeps, recover-Keeps,
}

-- The operations of the queue service, one after another, by any workers at any times.
pub data Runs (s : Session) : Session → Type 0 where
  start : Runs s s
  claim :
      {t : Session}
      → Runs s t
      → (b : Bind) (now : ℕ) (worker reason : String)
      → Runs s (claim_next_pending_job b now worker reason t).1
  heartbeat :
      {t : Session}
      → Runs s t
      → (now i : ℕ) (worker reason : String) → Runs s (heartbeat_job now i worker reason t).1
  change :
      {t : Session}
      → Runs s t
      → (now i : ℕ) (target reason actor : String) (worker : Option String)
      → Runs s (transition_job now i target reason actor worker t).1
  recover :
      {t : Session}
      → Runs s t
      → (b : Bind) (now before max_attempts limit : ℕ) (reason : String)
      → Runs s (recover_stale_reserved_jobs b now before max_attempts limit reason t).1

Runs-IsValid : {s t : Session} → IsValid s → Runs s t → IsValid t
Runs-IsValid v start = v
Runs-IsValid v (claim {t = t} r b now worker reason) =
    (claim-Keeps b now worker reason t (Runs-IsValid v r)).0
Runs-IsValid v (heartbeat {t = t} r now i worker reason) =
    (beat-Keeps now i worker reason t (Runs-IsValid v r)).0
Runs-IsValid v (change {t = t} r now i target reason actor worker) =
    (change-Keeps now i target reason actor worker t (Runs-IsValid v r)).0
Runs-IsValid v (recover {t = t} r b now before max_attempts limit reason) =
    (recover-Keeps b now before max_attempts limit reason t (Runs-IsValid v r)).0

-- One more lawful operation lengthens a job's history by at most one change.
extend :
    (i : ℕ) (j : ComfyJob) (ks ls : List ComfyJob)
    → Lawful ks ls
    → (k : ComfyJob) × (row i ks ≡ some k) × Trace (state_of j.status) (state_of k.status)
    → (l : ComfyJob) × (row i ls ≡ some l) × Trace (state_of j.status) (state_of l.status)
extend i j ks ls lawful (k, found, history) =
    let (l, found', moves) = lawful i k found in (l, found', continued k l moves history)
  where
    continued :
        (k l : ComfyJob)
        → Moves k.status l.status
        → Trace (state_of j.status) (state_of k.status)
        → Trace (state_of j.status) (state_of l.status)
    continued k l (inl same) h = rw same at h
    continued k l (inr allow) h = next h (state_of l.status) allow

-- Whatever operations of the queue service run, in any order, by any workers and at any times, no
-- job is lost, and each job's status changes along a history of the table `VALID_TRANSITIONS`.
pub Runs-Trace :
    {s t : Session} (i : ℕ) (j : ComfyJob)
    → IsValid s
    → Runs s t
    → row i s.db.jobs ≡ some j
    → (k : ComfyJob) × (row i t.db.jobs ≡ some k) × Trace (state_of j.status) (state_of k.status)
Runs-Trace i j v start h = (j, h, here)
Runs-Trace i j v (claim {t = t} r b now worker reason) h =
    extend i j t.db.jobs _ (claim-Keeps b now worker reason t (Runs-IsValid v r)).1
      (Runs-Trace i j v r h)
Runs-Trace i j v (heartbeat {t = t} r now m worker reason) h =
    extend i j t.db.jobs _ (beat-Keeps now m worker reason t (Runs-IsValid v r)).1
      (Runs-Trace i j v r h)
Runs-Trace i j v (change {t = t} r now m target reason actor worker) h =
    extend i j t.db.jobs _ (change-Keeps now m target reason actor worker t (Runs-IsValid v r)).1
      (Runs-Trace i j v r h)
Runs-Trace i j v (recover {t = t} r b now before max_attempts limit reason) h =
    extend i j t.db.jobs _
      (recover-Keeps b now before max_attempts limit reason t (Runs-IsValid v r)).1
      (Runs-Trace i j v r h)

-- A job that has been submitted is never handed to a worker again: whatever operations have run
-- since, a claim that returns a job returns another one.
pub submitted_never_claimed :
    {s t t' : Session} (i : ℕ) (j : ComfyJob) (b : Bind) (now : ℕ) (worker reason : String)
    (c : ComfyJob)
    → IsValid s
    → Runs s t
    → row i s.db.jobs ≡ some j
    → j.status ≡ QueueStatus.submitted
    → claim_next_pending_job b now worker reason t ≡ (ok (some c), t')
    → c.id ≢ i
submitted_never_claimed {s} {t} {t'} i j b now worker reason c v r found sub claimed e =
    let claims : Claims b now worker reason t (ok (some c), t') =
      rw claimed at (claim-Claims b now worker reason t (Runs-IsValid v r).0) in
    still_pending (Claims-pending b now worker reason t t' c claims)
  where
    still_pending :
        (m : ComfyJob) × (row c.id t.db.jobs ≡ some m) × (m.status ≡ QueueStatus.pending) → ⊥
    still_pending (m, held, pending) =
        let (k, there, history) = Runs-Trace i j v r found in
        let there' : row i t.db.jobs ≡ some m = rw e at held in
        let both : some k ≡ some m = sym there ∙ there' in
        let same : k ≡ m = cc in
        let was : state_of j.status ≡ JobState.submitted = rw sub (unfold state_of in refl) in
        let now_pending : state_of k.status ≡ JobState.pending =
          ap (λ (x : ComfyJob). state_of x.status) same ∙ rw pending (unfold state_of in refl) in
        (submitted_once (rw was at history)).0 now_pending
