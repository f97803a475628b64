-- ===== src/Routing/Tests.antt =====
-- Routes under a catalog with a local and a hosted provider.
use cine_forge.Prelude.{Has, ◌+◌, ◌≡◌, refl, true, false, none, some, [], ◌∷◌}
use cine_forge.Routing.{
  LogicalModelProfile, PlanningTaskType, RoutingMode, ProviderEntry, RoutingSnapshot,
  RoutingDecision, pick_automatic_provider, choose, quality_rank, select_route, escalate_route,
  next_escalation, resolve_model_name,
}
use cine_forge.Routing.Policy.{IsUsable, pick_permitted}
use cine_forge.Routing.Escalation.{escalate_route-rank}

abbrev hosted_first : ProviderEntry × ProviderEntry
hosted_first = (
  record {
    provider_identifier = "openai";
    availability_status = "available";
    privacy_classification = "hosted";
    capabilities = "planning" ∷ [];
  },
  record {
    provider_identifier = "mock";
    availability_status = "available";
    privacy_classification = "local";
    capabilities = "planning" ∷ [];
  },
)

pick_permitted_example :
    (e : ProviderEntry) × Has e (hosted_first.0 ∷ hosted_first.1 ∷ [])
    × (e.provider_identifier ≡ "mock")
    × IsUsable true true e
unfolding pick_automatic_provider choose
pick_permitted_example = pick_permitted true true (hosted_first.0 ∷ hosted_first.1 ∷ []) "mock" refl

abbrev snapshot : RoutingSnapshot
snapshot = record {
  mode = RoutingMode.automatic;
  manual_routes = λ t. none;
  prefer_local_providers = true;
  prefer_hosted_providers = false;
  provider_catalog = hosted_first.0 ∷ hosted_first.1 ∷ [];
}

abbrev drafted : RoutingDecision
drafted = record {
  task_type = PlanningTaskType.shot_list;
  mode = RoutingMode.automatic;
  provider_identifier = "mock";
  logical_model = LogicalModelProfile.luna;
  resolved_model = "mock:logical/luna";
  rationale = "Automatic routing to mock / luna";
  escalation_from = none;
}

abbrev escalated : RoutingDecision
escalated = record drafted {
  logical_model = LogicalModelProfile.terra;
  resolved_model = "mock:logical/terra";
  rationale = "Escalated luna → terra on mock";
  escalation_from = some LogicalModelProfile.luna;
}

escalate_route-rank_example :
    (PlanningTaskType.shot_list ≡ PlanningTaskType.shot_list)
    × (quality_rank LogicalModelProfile.terra ≡ quality_rank LogicalModelProfile.luna + 1)
    × (some LogicalModelProfile.luna ≡ some LogicalModelProfile.luna)
unfolding escalate_route select_route next_escalation pick_automatic_provider choose
    resolve_model_name
escalate_route-rank_example = escalate_route-rank drafted escalated snapshot refl
