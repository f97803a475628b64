-- ===== src/Queue/Transitions.antt =====
-- What the queue's state machine (backend/app/queue/state_machine.py) guarantees.
use cine_forge.Prelude.{
  ℕ, ◌+◌, ◌*◌, ◌≤◌, String, str_eq, eq_iff, ◌≡◌, refl, Bool, true, ◌||◌, ◌&&◌, ◌≢◌, some, [], ◌∷◌,
  ◌<◌, find?-sound, All, arith, if◌then◌else◌,
}
use cine_forge.Queue.States
use cine_forge.Queue.States.{JobState, allowed, same, active_flow}
use cine_forge.Queue.Status
use cine_forge.Queue.Status.{QueueStatus}
use cine_forge.Queue.Machine.{ok, err, invalid_transition, transition, TransitionResult}

pub of_value-value : (s : JobState) → States.of_value (States.value s) ≡ some s
unfolding States.of_value
of_value-value JobState.pending = refl
of_value-value _ = refl

pub value-of_value :
    (text : String) {s : JobState} → States.of_value text ≡ some s → States.value s ≡ text
unfolding States.of_value
value-of_value text {s} h =
    (eq_iff (States.value s) text).0
      (find?-sound (λ s. str_eq (States.value s) text) States.members h)

-- The state that a column value stands for, and back.
unfoldable pub state_of : QueueStatus → JobState
state_of QueueStatus.pending = JobState.pending
state_of QueueStatus.reserved = JobState.reserved
state_of QueueStatus.validating = JobState.validating
state_of QueueStatus.submitted = JobState.submitted
state_of QueueStatus.running = JobState.running
state_of QueueStatus.collecting_outputs = JobState.collecting_outputs
state_of QueueStatus.complete = JobState.complete
state_of QueueStatus.validation_failed = JobState.validation_failed
state_of QueueStatus.comfy_rejected = JobState.comfy_rejected
state_of QueueStatus.runtime_failed = JobState.runtime_failed
state_of QueueStatus.timeout = JobState.timeout
state_of QueueStatus.interrupted = JobState.interrupted
state_of QueueStatus.oom = JobState.oom
state_of QueueStatus.postprocess_failed = JobState.postprocess_failed
state_of QueueStatus.canceled = JobState.canceled

pub of_value-status : (q : QueueStatus) → States.of_value (Status.value q) ≡ some (state_of q)
unfolding States.of_value Status.value state_of
of_value-status QueueStatus.pending = refl
of_value-status _ = refl

pub status-state_of : (q : QueueStatus) → Status.of_value (States.value (state_of q)) ≡ some q
unfolding Status.of_value States.value state_of
status-state_of QueueStatus.pending = refl
status-state_of _ = refl

-- The status that a state is stored as.
unfoldable pub status_of : JobState → QueueStatus
status_of JobState.pending = QueueStatus.pending
status_of JobState.reserved = QueueStatus.reserved
status_of JobState.validating = QueueStatus.validating
status_of JobState.submitted = QueueStatus.submitted
status_of JobState.running = QueueStatus.running
status_of JobState.collecting_outputs = QueueStatus.collecting_outputs
status_of JobState.complete = QueueStatus.complete
status_of JobState.validation_failed = QueueStatus.validation_failed
status_of JobState.comfy_rejected = QueueStatus.comfy_rejected
status_of JobState.runtime_failed = QueueStatus.runtime_failed
status_of JobState.timeout = QueueStatus.timeout
status_of JobState.interrupted = QueueStatus.interrupted
status_of JobState.oom = QueueStatus.oom
status_of JobState.postprocess_failed = QueueStatus.postprocess_failed
status_of JobState.canceled = QueueStatus.canceled

pub of_value-state : (t : JobState) → Status.of_value (States.value t) ≡ some (status_of t)
unfolding Status.of_value States.value status_of
of_value-state JobState.pending = refl
of_value-state _ = refl

pub state_of-status_of : (t : JobState) → state_of (status_of t) ≡ t
unfolding state_of status_of
state_of-status_of JobState.pending = refl
state_of-status_of _ = refl

-- The result of an accepted transition.
abbrev pub accepted : JobState → JobState → String → TransitionResult
accepted s t reason = record {
  previous = s;
  current = t;
  reason = reason;
  audit_event = ("from", States.value s) ∷ ("to", States.value t) ∷ ("reason", reason) ∷ [];
}

-- Given the values of two members, `transition` accepts exactly the pairs of the table, and names
-- the refused pair in the error.
pub transition-values :
    (s t : JobState) (reason : String)
    → transition (States.value s) (States.value t) reason
      ≡ (if allowed s t then ok (accepted s t reason) else err (invalid_transition s t))
unfolding transition
transition-values s t reason = rw (of_value-value s, of_value-value t)

pub transition-status :
    (q : QueueStatus) (t : JobState) (reason : String)
    → transition (Status.value q) (States.value t) reason ≡ (
        if allowed (state_of q) t
        then ok (accepted (state_of q) t reason)
        else err (invalid_transition (state_of q) t))
unfolding transition
transition-status q t reason = rw (of_value-status q, of_value-value t)

-- A history of a job: the states it has been in, each change allowed by the table.
pub data Trace (s : JobState) : JobState → Type 0 where
  here : Trace s s
  next : {t : JobState} → Trace s t → (u : JobState) → allowed t u ≡ true → Trace s u

-- Whether the history has been in a state.
unfoldable pub passed : JobState → {s t : JobState} → Trace s t → Bool
passed f {s} here = same f s
passed f (next h u a) = passed f h || same f u

-- How far along the normal flow a state lies; a failure or a cancellation has its own number.
abbrev stage : JobState → ℕ
stage JobState.pending = 0
stage JobState.reserved = 1
stage JobState.validating = 2
stage JobState.submitted = 3
stage JobState.running = 4
stage JobState.collecting_outputs = 5
stage JobState.complete = 6
stage _ = 0

-- Every state of the flow up to where the job stands has been passed.
record Behind {s t : JobState} (h : Trace s t) : Type 0 where
  at_1 : 0 < stage t → passed JobState.pending h && passed JobState.reserved h ≡ true
  at_2 : 1 < stage t → passed JobState.validating h ≡ true
  at_3 : 2 < stage t → passed JobState.submitted h ≡ true
  at_4 : 3 < stage t → passed JobState.running h ≡ true
  at_5 : 4 < stage t → passed JobState.collecting_outputs h ≡ true
  at_6 : 5 < stage t → passed JobState.complete h ≡ true

Trace-Behind : {t : JobState} (h : Trace JobState.pending t) → passed JobState.pending h ≡ true
unfolding passed same
Trace-Behind here = refl
Trace-Behind (next h u a) = ground (arith, Trace-Behind h)

Behind-next :
    {s t : JobState} (h : Trace s t) (u : JobState) (a : allowed t u ≡ true)
    → passed JobState.pending h ≡ true
    → Behind h
    → Behind (next h u a)
unfolding passed allowed
Behind-next {t = JobState.pending} h u a p b = ground arith
Behind-next {t = t} h u a p b = ground arith

Behind-Trace : {t : JobState} (h : Trace JobState.pending t) → Behind h
unfolding passed
Behind-Trace here = ground arith
Behind-Trace (next h u a) = Behind-next h u a (Trace-Behind h) (Behind-Trace h)

-- Whatever its history, a job that is complete has been in every state of `ACTIVE_FLOW`.
pub complete_passes_flow :
    (h : Trace JobState.pending JobState.complete) → All (λ f. passed f h ≡ true) active_flow
complete_passes_flow h = ground (arith, Behind-Trace h, Trace-Behind h)

-- Once a job has been submitted, no history brings it back to a state in which a worker could
-- claim it, validate it, or submit it anew, and none cancels it.
pub submitted_once :
    {t : JobState}
    → Trace JobState.submitted t
    → (t ≢ JobState.pending)
      × (t ≢ JobState.reserved)
      × (t ≢ JobState.validating)
      × (t ≢ JobState.canceled)
unfolding allowed
submitted_once here = ground arith
submitted_once (next h u a) = let past = submitted_once h in ground arith

-- Whether a change of state is the recovery of a reservation.
abbrev is_requeue : JobState → JobState → Bool
is_requeue s t = same s JobState.reserved && same t JobState.pending

-- The changes of state in a history, and those that put a reserved job back into the queue.
unfoldable pub changes : {s t : JobState} → Trace s t → ℕ
changes here = 0
changes (next h u a) = changes h + 1

unfoldable pub requeues : {s t : JobState} → Trace s t → ℕ
requeues here = 0
requeues (next {t = t} h u a) = if is_requeue t u then requeues h + 1 else requeues h

abbrev order : JobState → ℕ
order JobState.pending = 0
order JobState.reserved = 1
order JobState.validating = 2
order JobState.submitted = 3
order JobState.running = 4
order JobState.collecting_outputs = 5
order _ = 6

order-rises :
    (s t : JobState)
    → allowed s t ≡ true
    → order s + 1 ≤ (if is_requeue s t then order t + 2 else order t)
unfolding allowed
order-rises s t a = ground arith

order-le : (t : JobState) → order t ≤ 6
order-le JobState.pending = omega arith
order-le _ = omega arith

changes-order : {s t : JobState} (h : Trace s t) → changes h + order s ≤ order t + 2 * requeues h
unfolding changes requeues
changes-order here = omega arith
changes-order (next {t = t} h u a) = ground (arith, changes-order h, order-rises t u a)

-- The table has no loop but through the recovery of a reservation: a history makes at most six
-- changes of state, and two more for each time that the job was put back into the queue.
pub changes_bounded : {s t : JobState} (h : Trace s t) → changes h ≤ 6 + 2 * requeues h
changes_bounded {s} {t} h = omega (arith, changes-order h, order-le t)
