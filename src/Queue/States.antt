-- ===== src/Queue/States.antt =====
-- backend/app/queue/state_machine.py: the states of a ComfyUI job, and `transition`.
-- `JobState` is a `StrEnum`, so a state given as a member and one given as a string are both the
-- member's value, and `JobState(x)` looks that value up.
use cine_forge.Prelude.{ℕ, String, str_eq, Bool, Option, List, [], ◌∷◌, ◌==◌, find?, any}

pub data JobState : Type 0 where
  pending reserved validating submitted running collecting_outputs complete : JobState
  validation_failed comfy_rejected runtime_failed timeout interrupted oom : JobState
  postprocess_failed canceled : JobState

abbrev pub members : List JobState
members =
    pending ∷ reserved ∷ validating ∷ submitted ∷ running ∷ collecting_outputs ∷ complete
    ∷ validation_failed ∷ comfy_rejected ∷ runtime_failed ∷ timeout ∷ interrupted ∷ oom
    ∷ postprocess_failed ∷ canceled ∷ []

-- `state.value`
unfoldable pub value : JobState → String
value pending = "pending"
value reserved = "reserved"
value validating = "validating"
value submitted = "submitted"
value running = "running"
value collecting_outputs = "collecting_outputs"
value complete = "complete"
value validation_failed = "validation_failed"
value comfy_rejected = "comfy_rejected"
value runtime_failed = "runtime_failed"
value timeout = "timeout"
value interrupted = "interrupted"
value oom = "oom"
value postprocess_failed = "postprocess_failed"
value canceled = "canceled"

-- `JobState(text)`; `none` is the `ValueError`.
unfoldable pub of_value : String → Option JobState
unfolding value
of_value text = find? (λ s. str_eq (value s) text) members

abbrev pub active_flow : List JobState
active_flow =
    pending ∷ reserved ∷ validating ∷ submitted ∷ running ∷ collecting_outputs ∷ complete ∷ []

abbrev pub failure_states : List JobState
failure_states =
    validation_failed ∷ comfy_rejected ∷ runtime_failed ∷ timeout ∷ interrupted ∷ oom
    ∷ postprocess_failed ∷ []

-- The table `VALID_TRANSITIONS`.
unfoldable pub valid_transitions : JobState → List JobState
valid_transitions pending = reserved ∷ canceled ∷ []
valid_transitions reserved = pending ∷ validating ∷ timeout ∷ canceled ∷ interrupted ∷ []
valid_transitions validating = submitted ∷ validation_failed ∷ canceled ∷ interrupted ∷ []
valid_transitions submitted = running ∷ comfy_rejected ∷ timeout ∷ interrupted ∷ []
valid_transitions running = collecting_outputs ∷ runtime_failed ∷ timeout ∷ interrupted ∷ oom ∷ []
valid_transitions collecting_outputs = complete ∷ postprocess_failed ∷ runtime_failed ∷ []
valid_transitions _ = []

-- A number for each state, so that membership in a table is a test that runs.
unfoldable pub index : JobState → ℕ
index pending = 0
index reserved = 1
index validating = 2
index submitted = 3
index running = 4
index collecting_outputs = 5
index complete = 6
index validation_failed = 7
index comfy_rejected = 8
index runtime_failed = 9
index timeout = 10
index interrupted = 11
index oom = 12
index postprocess_failed = 13
index canceled = 14

-- `state == other` and `target in VALID_TRANSITIONS[current]`
unfoldable pub same : JobState → JobState → Bool
unfolding index
same s t = index s == index t

unfoldable pub allowed : JobState → JobState → Bool
unfolding same valid_transitions
allowed current target = any (same target) (valid_transitions current)
