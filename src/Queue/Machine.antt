-- ===== src/Queue/Machine.antt =====
-- backend/app/queue/state_machine.py: `transition` and its result.
use cine_forge.Prelude.{ℕ, String, Option, none, some, List, [], ◌∷◌, if◌then◌else◌}
use cine_forge.Queue.States
use cine_forge.Queue.States.{JobState}

-- What the queue's code raises; an error carries what its message names.
pub data Error : Type 0 where
  invalid_transition : JobState → JobState → Error
  value_error attribute_error : Error
  job_not_found : ℕ → Error
  adapter_not_configured : Error
  submission_job_not_found submission_run_not_found : ℕ → Error

pub data Result {ℓ} (A : Type ℓ) : Type ℓ where
  ok : A → Result A
  err : Error → Result A

infixl 5 ◌>>=◌
abbrev pub ◌>>=◌ {ℓ κ} : {A : Type ℓ} {B : Type κ} → Result A → (A → Result B) → Result B
ok a >>= f = f a
err e >>= f = err e

abbrev pub or_raise {ℓ} : {A : Type ℓ} → Option A → Error → Result A
or_raise none e = err e
or_raise (some a) e = ok a

-- `audit_event` is built from the other three fields.
pub record TransitionResult : Type 0 where
  pub previous : JobState
  pub current : JobState
  pub reason : String
  pub audit_event : List (String × String)

unfoldable pub transition : String → String → String → Result TransitionResult
transition current target reason = do
  current_state ← or_raise (States.of_value current) value_error
  target_state ← or_raise (States.of_value target) value_error
  if States.allowed current_state target_state
      then ok (record {
        previous = current_state;
        current = target_state;
        reason = reason;
        audit_event =
            ("from", States.value current_state)
            ∷ ("to", States.value target_state)
            ∷ ("reason", reason)
            ∷ [];
      })
      else err (invalid_transition current_state target_state)
