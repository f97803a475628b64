-- ===== src/Queue/Status.antt =====
-- backend/app/db/base.py: the column type `QueueStatus` of a ComfyUI job, which repeats the
-- values of `JobState`.
use cine_forge.Prelude.{ℕ, String, str_eq, Bool, Option, List, [], ◌∷◌, ◌==◌, find?}

pub data QueueStatus : Type 0 where
  pending reserved validating submitted running collecting_outputs complete : QueueStatus
  validation_failed comfy_rejected runtime_failed timeout interrupted oom : QueueStatus
  postprocess_failed canceled : QueueStatus

abbrev pub members : List QueueStatus
members =
    pending ∷ reserved ∷ validating ∷ submitted ∷ running ∷ collecting_outputs ∷ complete
    ∷ validation_failed ∷ comfy_rejected ∷ runtime_failed ∷ timeout ∷ interrupted ∷ oom
    ∷ postprocess_failed ∷ canceled ∷ []

-- `status.value`
unfoldable pub value : QueueStatus → String
value pending = "pending"
value reserved = "reserved"
value validating = "validating"
value submitted = "submitted"
value running = "running"
value collecting_outputs = "collecting_outputs"
value complete = "complete"
value validation_failed = "validation_failed"
value comfy_rejected = "comfy_rejected"
value runtime_failed = "runtime_failed"
value timeout = "timeout"
value interrupted = "interrupted"
value oom = "oom"
value postprocess_failed = "postprocess_failed"
value canceled = "canceled"

-- `QueueStatus(text)`; `none` is the `ValueError`.
unfoldable pub of_value : String → Option QueueStatus
unfolding value
of_value text = find? (λ s. str_eq (value s) text) members

-- A number for each status, so that equality is a test that runs.
unfoldable pub index : QueueStatus → ℕ
index pending = 0
index reserved = 1
index validating = 2
index submitted = 3
index running = 4
index collecting_outputs = 5
index complete = 6
index validation_failed = 7
index comfy_rejected = 8
index runtime_failed = 9
index timeout = 10
index interrupted = 11
index oom = 12
index postprocess_failed = 13
index canceled = 14

-- `status == other`
unfoldable pub same : QueueStatus → QueueStatus → Bool
unfolding index
same s t = index s == index t
