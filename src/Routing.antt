-- ===== src/Routing.antt =====
-- backend/app/services/planning/profiles.py and routing.py: which provider and which model profile
-- a planning task gets. A missing key of a catalog entry is the empty text or the empty list.
pub mod Policy
pub mod Escalation
mod Tests
use Prim.Native.String.{◌++◌ as append}
use cine_forge.Prelude.{
  ℕ, String, str_eq, Bool, true, false, ◌&&◌, ◌||◌, not, Option, none, some, List, [], ◌∷◌, ◌==◌,
  any, find?, select, if◌then◌else◌,
}
use cine_forge.Prelude.Session.{Result, ok, err}

pub data LogicalModelProfile : Type 0 where
  luna terra sol : LogicalModelProfile

pub data PlanningTaskType : Type 0 where
  story_structure character_bible chapter_outline scene_breakdown shot_list : PlanningTaskType
  narration_plan prompt_package continuity_plan model_recommendation : PlanningTaskType
  production_proposal : PlanningTaskType

pub data RoutingMode : Type 0 where
  automatic manual hybrid : RoutingMode

-- What `ROUTING_FAILED` is raised for.
pub data Error : Type 0 where
  no_assignment : PlanningTaskType → Error
  no_provider : Bool → Bool → Error

abbrev pub profile_value : LogicalModelProfile → String
profile_value LogicalModelProfile.luna = "luna"
profile_value LogicalModelProfile.terra = "terra"
profile_value LogicalModelProfile.sol = "sol"

abbrev pub quality_rank : LogicalModelProfile → ℕ
quality_rank LogicalModelProfile.luna = 1
quality_rank LogicalModelProfile.terra = 2
quality_rank LogicalModelProfile.sol = 3

abbrev pub default_resolved_model : LogicalModelProfile → String
default_resolved_model LogicalModelProfile.luna = "logical/luna"
default_resolved_model LogicalModelProfile.terra = "logical/terra"
default_resolved_model LogicalModelProfile.sol = "logical/sol"

unfoldable pub default_profile_for_task : PlanningTaskType → LogicalModelProfile
default_profile_for_task PlanningTaskType.story_structure = LogicalModelProfile.sol
default_profile_for_task PlanningTaskType.production_proposal = LogicalModelProfile.sol
default_profile_for_task PlanningTaskType.shot_list = LogicalModelProfile.luna
default_profile_for_task PlanningTaskType.prompt_package = LogicalModelProfile.luna
default_profile_for_task _ = LogicalModelProfile.terra

-- The member after another in `ESCALATION_ORDER`.
unfoldable pub next_escalation : LogicalModelProfile → Option LogicalModelProfile
next_escalation LogicalModelProfile.luna = some LogicalModelProfile.terra
next_escalation LogicalModelProfile.terra = some LogicalModelProfile.sol
next_escalation LogicalModelProfile.sol = none

unfoldable pub resolve_model_name : LogicalModelProfile → String → Option String → String
resolve_model_name profile provider explicit = name explicit
  where
    base : String
    base = append provider (append ":" (default_resolved_model profile))

    name : Option String → String
    name none = base
    name (some e) = if str_eq e "" then base else e

-- An entry of the provider catalog, and a manual assignment of a task.
pub record ProviderEntry : Type 0 where
  pub provider_identifier : String
  pub availability_status : String
  pub privacy_classification : String
  pub capabilities : List String

pub record ManualTaskRoute : Type 0 where
  pub provider_identifier : String
  pub logical_model : Option LogicalModelProfile
  pub resolved_model : Option String
  pub rationale : Option String

-- `manual_routes.get(task_type.value)` is a function here.
pub record RoutingSnapshot : Type 0 where
  pub mode : RoutingMode
  pub manual_routes : PlanningTaskType → Option ManualTaskRoute
  pub prefer_local_providers : Bool
  pub prefer_hosted_providers : Bool
  pub provider_catalog : List ProviderEntry

pub record RoutingDecision : Type 0 where
  pub task_type : PlanningTaskType
  pub mode : RoutingMode
  pub provider_identifier : String
  pub logical_model : LogicalModelProfile
  pub resolved_model : String
  pub rationale : String
  pub escalation_from : Option LogicalModelProfile

abbrev pub is_available : ProviderEntry → Bool
is_available e =
    str_eq e.availability_status "available" && any (λ c. str_eq c "planning") e.capabilities

abbrev pub of_class : String → ProviderEntry → Bool
of_class c e = str_eq e.privacy_classification c

-- `privacy_classification in allowed_privacy_classes`
abbrev pub is_permitted : Bool → Bool → ProviderEntry → Bool
is_permitted local hosted e = (local && of_class "local" e) || (hosted && of_class "hosted" e)

-- The choice among the available entries of a permitted class.
unfoldable pub choose : Bool → Bool → List ProviderEntry → Result Error String
choose local hosted [] = err (no_provider local hosted)
choose local hosted (e ∷ es) = first (if local then find? (of_class "local") (e ∷ es) else none)
  where
    second : Option ProviderEntry → Result Error String
    second none = ok e.provider_identifier
    second (some h) = ok h.provider_identifier

    first : Option ProviderEntry → Result Error String
    first none = second (if hosted then find? (of_class "hosted") (e ∷ es) else none)
    first (some l) = ok l.provider_identifier

unfoldable pub pick_automatic_provider : Bool → Bool → List ProviderEntry → Result Error String
unfolding choose
pick_automatic_provider local hosted catalog =
    choose local hosted (select (is_permitted local hosted) (select is_available catalog))

abbrev pub or_default {ℓ} : {A : Type ℓ} → Option A → A → A
or_default none d = d
or_default (some a) d = a

abbrev pub text_or : Option String → String → String
text_or none d = d
text_or (some t) d = if str_eq t "" then d else t

-- A task that is assigned by hand; `explicit` is the model that the assignment names.
abbrev pub assigned :
    PlanningTaskType
    → RoutingMode
    → Option LogicalModelProfile
    → Option LogicalModelProfile
    → Option String
    → String
    → ManualTaskRoute
    → RoutingDecision
assigned task mode force from explicit why r =
    let logical = or_default force (or_default r.logical_model (default_profile_for_task task)) in
    record {
      task_type = task;
      mode = mode;
      provider_identifier = r.provider_identifier;
      logical_model = logical;
      resolved_model = resolve_model_name logical r.provider_identifier explicit;
      rationale = text_or r.rationale why;
      escalation_from = from;
    }

abbrev pub automatic_rationale : Option LogicalModelProfile → String → LogicalModelProfile → String
automatic_rationale none provider logical =
    append "Automatic routing to " (append provider (append " / " (profile_value logical)))
automatic_rationale (some f) provider logical = append "Escalated " (
    append (profile_value f)
      (append " → " (append (profile_value logical) (append " on " provider))))

abbrev pub routed :
    PlanningTaskType
    → RoutingMode
    → Option LogicalModelProfile
    → Option LogicalModelProfile
    → Result Error String
    → Result Error RoutingDecision
routed task mode force from (err e) = err e
routed task mode force from (ok provider) =
    let logical = or_default force (default_profile_for_task task) in
    ok (record {
      task_type = task;
      mode = mode;
      provider_identifier = provider;
      logical_model = logical;
      resolved_model = resolve_model_name logical provider none;
      rationale = automatic_rationale from provider logical;
      escalation_from = from;
    })

-- With a forced profile a hybrid route does not keep the model that its assignment names.
abbrev pub hybrid_explicit : Option LogicalModelProfile → Option String → Option String
hybrid_explicit none explicit = explicit
hybrid_explicit (some f) explicit = none

unfoldable pub select_route :
    PlanningTaskType
    → RoutingSnapshot
    → Option LogicalModelProfile
    → Option LogicalModelProfile
    → Result Error RoutingDecision
unfolding pick_automatic_provider
select_route task s force from = by_mode s.mode (s.manual_routes task)
  where
    by_policy : RoutingMode → Result Error RoutingDecision
    by_policy mode = routed task mode force from (
        pick_automatic_provider s.prefer_local_providers s.prefer_hosted_providers
          s.provider_catalog)

    by_mode : RoutingMode → Option ManualTaskRoute → Result Error RoutingDecision
    by_mode RoutingMode.manual none = err (no_assignment task)
    by_mode RoutingMode.manual (some r) =
        ok (assigned task RoutingMode.manual force from r.resolved_model "Manual task assignment" r)
    by_mode RoutingMode.hybrid (some r) = ok (
        assigned task RoutingMode.hybrid force from (hybrid_explicit force r.resolved_model)
          "Hybrid: manual assignment preferred" r)
    by_mode RoutingMode.hybrid none = by_policy RoutingMode.hybrid
    by_mode RoutingMode.automatic route = by_policy RoutingMode.automatic

-- `none` where the profile is the last of the order.
unfoldable pub escalate_route :
    RoutingDecision → RoutingSnapshot → Option (Result Error RoutingDecision)
unfolding select_route next_escalation
escalate_route current s = go (next_escalation current.logical_model)
  where
    go : Option LogicalModelProfile → Option (Result Error RoutingDecision)
    go none = none
    go (some next) =
        some (select_route current.task_type s (some next) (some current.logical_model))
