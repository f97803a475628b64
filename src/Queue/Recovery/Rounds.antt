-- ===== src/Queue/Recovery/Rounds.antt =====
-- The loop of `recover_stale_reserved_jobs`, one row at a time.
use cine_forge.Prelude.{
  ℕ, ◌+◌, ◌≤◌, String, ◌≡◌, refl, Bool, true, false, none, some, List, [], ◌∷◌, ◌++◌, if◌then◌else◌,
  arith, ap, ◌∙◌, Bool-cases, inl, inr, ◌==◌, ==_iff, All, select, take, map, length, length-snoc,
  ltb, zero, suc,
}
use cine_forge.Queue.States
use cine_forge.Queue.States.{JobState, allowed}
use cine_forge.Queue.Status
use cine_forge.Queue.Status.{QueueStatus}
use cine_forge.Queue.Machine.{Result, ok, transition}
use cine_forge.Queue.Transitions.{accepted, state_of}
use cine_forge.Queue.Store.{
  ComfyJob, AuditLog, Session, update_rows, go_on, pure, insert_by_id, order_by_id, ◌>>=◌,
}
use cine_forge.Queue.Store.Rows.{
  row, Keyed, Keyed-update_rows, row-update_rows_self, row-update_rows_ne, row-insert_by_id,
  row-order_by_id, row-select-none,
}
use cine_forge.Queue.Recovery.{target_state, recovered, recovery_audit, recover_row, recover_rows}

-- Rows of a selection, in order and cut short, keep what the rows of the table have in common.
module _ (P : ComfyJob → Type 0) where
  All-insert_by_id :
      (j : ComfyJob) (js : List ComfyJob) → P j → All P js → All P (insert_by_id j js)
  unfolding insert_by_id
  All-insert_by_id j [] h a = (h, tt)
  All-insert_by_id j (k ∷ ks) h a = ground (arith, All-insert_by_id j ks h a.1)

  pub All-order_by_id : (js : List ComfyJob) → All P js → All P (order_by_id js)
  unfolding order_by_id
  All-order_by_id [] a = tt
  All-order_by_id (j ∷ js) a = All-insert_by_id j (order_by_id js) a.0 (All-order_by_id js a.1)

  pub All-take : (n : ℕ) (js : List ComfyJob) → All P js → All P (take n js)
  All-take zero js a = tt
  All-take (suc n) [] a = tt
  All-take (suc n) (j ∷ js) a = (a.0, All-take n js a.1)

pub All-select : (p : ComfyJob → Bool) (js : List ComfyJob) → All (λ j. p j ≡ true) (select p js)
All-select p [] = tt
All-select p (j ∷ js) = elim (Bool-cases (p j)) [
  | inl passes ↦ rw passes (passes, All-select p js)
  | inr fails ↦ rw fails (All-select p js)
]

pub Keyed-select : (p : ComfyJob → Bool) (js : List ComfyJob) → Keyed js → Keyed (select p js)
Keyed-select p [] k = tt
Keyed-select p (j ∷ js) k = ground (arith, Keyed-select p js k.1, row-select-none j.id p js k.0)

Keyed-insert_by_id :
    (j : ComfyJob) (js : List ComfyJob) → row j.id js ≡ none → Keyed js → Keyed (insert_by_id j js)
unfolding insert_by_id
Keyed-insert_by_id j [] h k = (refl, tt)
Keyed-insert_by_id j (x ∷ xs) h k =
    ground (arith, Keyed-insert_by_id j xs, row-insert_by_id x.id j xs)

pub Keyed-order_by_id : (js : List ComfyJob) → Keyed js → Keyed (order_by_id js)
unfolding order_by_id
Keyed-order_by_id [] k = tt
Keyed-order_by_id (j ∷ js) k =
    Keyed-insert_by_id j (order_by_id js) (row-order_by_id j.id js ∙ k.0) (Keyed-order_by_id js k.1)

row-take-none : (i n : ℕ) (js : List ComfyJob) → row i js ≡ none → row i (take n js) ≡ none
row-take-none i zero js h = refl
row-take-none i (suc n) [] h = refl
row-take-none i (suc n) (j ∷ js) h = ground (arith, row-take-none i n js)

pub row-take :
    (i n : ℕ) (js : List ComfyJob) {j : ComfyJob} → row i (take n js) ≡ some j → row i js ≡ some j
row-take i zero js h = cc
row-take i (suc n) [] h = cc
row-take i (suc n) (k ∷ ks) {j} h = ground (arith, row-take i n ks {j = j})

pub Keyed-take : (n : ℕ) (js : List ComfyJob) → Keyed js → Keyed (take n js)
Keyed-take zero js k = tt
Keyed-take (suc n) [] k = tt
Keyed-take (suc n) (j ∷ js) k = (row-take-none j.id n js k.0, Keyed-take n js k.1)

-- A selection that is shorter than its limit is not cut.
pub take_short : (n : ℕ) (js : List ComfyJob) → suc (length (take n js)) ≤ n → take n js ≡ js
take_short zero js h = elim h [ ]
take_short (suc n) [] h = refl
take_short (suc n) (j ∷ js) h = ap (λ (l : List ComfyJob). j ∷ l) (take_short n js (omega arith))

-- A reserved job may be put back, and may time out.
reserved_to :
    (reason : String) (again : Bool)
    → let target = if again then QueueStatus.pending else QueueStatus.timeout in
      transition (Status.value QueueStatus.reserved) (Status.value target) reason
      ≡ ok (accepted JobState.reserved (state_of target) reason)
unfolding transition Status.value States.of_value States.allowed state_of
reserved_to reason true = refl
reserved_to reason false = refl

module _ (now max_attempts : ℕ) (reason : String) where
  -- What the loop writes to the row of a candidate `c`, and what it returns for it.
  abbrev pub write : ComfyJob → ComfyJob → ComfyJob
  write c =
      recovered now max_attempts reason
        (accepted JobState.reserved (state_of (target_state max_attempts c)) reason)

  abbrev pub outcome : ComfyJob → ComfyJob
  outcome c = write c c

  abbrev pub entry : ComfyJob → AuditLog
  entry j =
      recovery_audit max_attempts reason
        (accepted JobState.reserved (state_of (target_state max_attempts j)) reason) j

  -- The tables after the loop.
  abbrev pub rows_after : List ComfyJob → List ComfyJob → List ComfyJob
  rows_after [] js = js
  rows_after (c ∷ cs) js = rows_after cs (update_rows c.id (write c) js)

  abbrev pub audit_after : List ComfyJob → List AuditLog → List AuditLog
  audit_after [] log = log
  audit_after (c ∷ cs) log = audit_after cs (log ++ entry c ∷ [])

  abbrev pub after_rounds : List ComfyJob → Session → Session
  after_rounds cs s = record s {
    db = record s.db { jobs = rows_after cs s.db.jobs; audit = audit_after cs s.db.audit };
  }

  recover_row-reserved :
      (c : ComfyJob) (s : Session)
      → c.status ≡ QueueStatus.reserved
      → recover_row now max_attempts reason c s ≡ (
        ok (outcome c),
        record s {
          db = record s.db {
            jobs = update_rows c.id (write c) s.db.jobs;
            audit = s.db.audit ++ entry c ∷ [];
          };
        },
      )
  unfolding recover_row
  recover_row-reserved c s h = rw (
      ap (λ q. transition (Status.value q) (Status.value (target_state max_attempts c)) reason) h
      ∙ reserved_to reason (ltb c.attempt_count max_attempts))

  -- The loop never raises on reserved rows.
  pub recover_rows-reserved :
      (cs : List ComfyJob) (s : Session)
      → All (λ c. c.status ≡ QueueStatus.reserved) cs
      → recover_rows now max_attempts reason cs s ≡ (ok (map outcome cs), after_rounds cs s)
  unfolding recover_rows
  recover_rows-reserved [] s h = refl
  recover_rows-reserved (c ∷ cs) s h =
      ap
        (λ (o : Result ComfyJob × Session).
          go_on o (λ j. recover_rows now max_attempts reason cs >>= λ js. pure (j ∷ js)))
        (recover_row-reserved c s h.0)
      ∙ ap (λ (o : Result (List ComfyJob) × Session). go_on o (λ js. pure (outcome c ∷ js)))
          (recover_rows-reserved cs (after_rounds (c ∷ []) s) h.1)

  pub row-rows_after-none :
      (i : ℕ) (cs js : List ComfyJob) → row i cs ≡ none → row i (rows_after cs js) ≡ row i js
  row-rows_after-none i [] js h = refl
  row-rows_after-none i (c ∷ cs) js h = ground (
    arith,
    row-rows_after-none i cs (update_rows c.id (write c) js),
    row-update_rows_ne c.id (write c) (λ k. refl) i js,
  )

  pub row-rows_after-some :
      (i : ℕ) (cs js : List ComfyJob) {c j : ComfyJob}
      → Keyed cs
      → row i cs ≡ some c
      → row i js ≡ some j
      → row i (rows_after cs js) ≡ some (write c j)
  row-rows_after-some i [] js k h r = cc
  row-rows_after-some i (x ∷ xs) js {c} {j} k h r = elim (Bool-cases (x.id == i)) [
    | inl here ↦
        let e : x.id ≡ i = (==_iff x.id i).0 here in
        let first : some x ≡ some c = rw here at h in
        let same : x ≡ c = cc in
        row-rows_after-none i xs (update_rows x.id (write x) js) (rw e at k.0)
        ∙ (rw e (row-update_rows_self i (write x) (λ _. refl) js r)
            ∙ ap (λ y. some (write y j)) same)
    | inr there ↦
        row-rows_after-some i xs (update_rows x.id (write x) js) {c = c} {j = j} k.1 (rw there at h)
          (row-update_rows_ne x.id (write x) (λ _. refl) i js (ground arith) ∙ r)
  ]

  pub length-audit_after :
      (cs : List ComfyJob) (log : List AuditLog)
      → length (audit_after cs log) ≡ length log + length cs
  length-audit_after [] log = omega arith
  length-audit_after (c ∷ cs) log =
      omega (arith, length-audit_after cs (log ++ entry c ∷ []), length-snoc log (entry c))

  pub Keyed-rows_after : (cs js : List ComfyJob) → Keyed js → Keyed (rows_after cs js)
  Keyed-rows_after [] js k = k
  Keyed-rows_after (c ∷ cs) js k =
      Keyed-rows_after cs (update_rows c.id (write c) js)
        (Keyed-update_rows c.id (write c) js (λ _. refl) k)
