-- ===== src/Planning/Engine.antt =====
-- `claim_run` and `cancel_run` of backend/app/services/planning/engine.py.
pub mod Claiming
mod Tests
use cine_forge.Prelude.{
  ℕ, String, str_eq, Bool, true, false, Option, none, some, List, [], ◌∷◌, if◌then◌else◌, is_some,
  ◌||◌,
}
use cine_forge.Prelude.Json.{Json, pos, Fields, end, field}
use cine_forge.Prelude.Session.{
  Session, ok, err, pure, raise, gets, lift, modify, ◌>>=◌, ◌>>◌, commit,
}
use cine_forge.Planning.States.{
  RunStatus, StepStatus, Error, already_terminal, run_value, step_value, run_terminal,
  step_terminal, same_run, same_step,
}
use cine_forge.Planning.Tables.{OrchestrationRun, OrchestrationStep, Db, Texts, Call, set_run, put}
use cine_forge.Planning.Repository.{
  get_run, acquire_execution_lease, transition_run, transition_step, StepChange, add_event,
  get_steps, or_text,
}

-- The events of a claim.
abbrev pub claim_event : Texts → ℕ → String → Json → Bool → OrchestrationRun → Call (Unit {0})
claim_event texts now owner at_text true run =
    add_event texts run.id "run_started" "system" none none (
      field "started_at" at_text
        (field "execution_owner_id" (Json.text (texts.prefix 128 owner)) end))
claim_event texts now owner at_text false run =
    add_event texts run.id "run_resumed" "system" none none (
      field "current_step" (Json.int (pos run.current_step))
        (field "execution_owner_id" (Json.text (texts.prefix 128 owner)) end))

-- `claim_run` with an owner or a token, which stand for the two arguments or their defaults.
-- `at_text` is `utcnow().isoformat()`.
unfoldable pub claim_leased :
    Texts → ℕ → Json → ℕ → String → String → ℕ → Call (OrchestrationRun × Bool)
unfolding acquire_execution_lease
claim_leased texts now at_text i owner token seconds = do
  answer ← acquire_execution_lease texts now i owner token seconds
  if answer.2
      then (do
        claim_event texts now owner at_text answer.1 answer.0
        commit
        pure (answer.0, answer.1))
      else pure (answer.0, false)

-- `claim_run` without either.
unfoldable pub claim_plain : Texts → ℕ → Json → OrchestrationRun → Call (OrchestrationRun × Bool)
unfolding transition_run add_event
claim_plain texts now at_text run =
    if same_run run.status RunStatus.running then pure (run, false) else (do
      after ← transition_run texts now run RunStatus.running none none
      add_event texts run.id "run_started" "system" none none (field "started_at" at_text end)
      commit
      pure (after, true))

-- `owner_id or "sync-planning-engine"`; `fresh` is `uuid4().hex`.
unfoldable pub claim_run :
    Texts
    → ℕ
    → Json
    → String
    → ℕ
    → Option String
    → Option String
    → ℕ
    → Call (OrchestrationRun × Bool)
unfolding get_run claim_leased claim_plain
claim_run texts now at_text fresh i owner token seconds = do
  run ← get_run i
  if run_terminal run.status
      then raise (already_terminal run.id run.status)
      else (if is_some owner || is_some token
          then claim_leased texts now at_text i (or_text owner "sync-planning-engine")
              (or_text token fresh) seconds
          else claim_plain texts now at_text run)

-- The change of a step that is canceled, and its event.
abbrev pub cancel_change : Option String → StepChange
cancel_change reason = record {
  output_hash = none;
  proposal_id = none;
  error_category = some "canceled";
  error_message = some (or_text reason "canceled");
  metadata_patch = end;
}

-- `requested_by`, where an empty text counts as no user.
abbrev pub actor_type : Option String → String
actor_type none = "system"
actor_type (some u) = if str_eq u "" then "system" else "user"

unfoldable pub cancel_step :
    Texts → ℕ → ℕ → Option String → Option String → OrchestrationStep → Call (Unit {0})
unfolding transition_step add_event
cancel_step texts now i reason requested_by step =
    if step_terminal step.status then pure tt else (do
      transition_step texts now step StepStatus.canceled (cancel_change reason)
      add_event texts i "step_canceled" (actor_type requested_by) (some step.id) requested_by
          (field "reason" (Json.text (texts.sanitize_message (or_text reason "canceled"))) end))

unfoldable pub cancel_steps :
    Texts → ℕ → ℕ → Option String → Option String → List OrchestrationStep → Call (Unit {0})
unfolding cancel_step
cancel_steps texts now i reason requested_by [] = pure tt
cancel_steps texts now i reason requested_by (step ∷ steps) = do
  cancel_step texts now i reason requested_by step
  cancel_steps texts now i reason requested_by steps

abbrev pub text_or_null : Option String → Json
text_or_null none = Json.null
text_or_null (some t) = Json.text t

-- The flags that `cancel_run` leaves in the routing snapshot.
abbrev pub flagged : Texts → Option String → Option String → OrchestrationRun → OrchestrationRun
flagged texts reason requested_by r = record r {
  routing_snapshot_json = put "cancel_requested_by" (text_or_null requested_by) (
      put "cancel_reason" (Json.text (texts.sanitize_message (or_text reason "canceled by user")))
        (put "cancel_requested" (Json.boolean true) r.routing_snapshot_json));
}

unfoldable pub cancel_run : Texts → ℕ → ℕ → Option String → Option String → Call OrchestrationRun
unfolding get_run get_steps cancel_steps transition_run add_event
cancel_run texts now i reason requested_by = do
  run ← get_run i
  if run_terminal run.status then raise (already_terminal run.id run.status) else (do
    set_run run.id (flagged texts reason requested_by)
    steps ← get_steps run.id
    cancel_steps texts now run.id reason requested_by steps
    after ←
        transition_run texts now (flagged texts reason requested_by run) RunStatus.canceled
          (some "canceled") (some (or_text reason "canceled by user"))
    add_event texts run.id "run_canceled" (actor_type requested_by) none requested_by (
        field "reason" (Json.text (texts.sanitize_message (or_text reason "canceled by user"))) end)
    commit
    pure after)
