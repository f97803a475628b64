-- ===== src/Routing/Escalation.antt =====
-- The escalation of backend/app/services/planning/routing.py.
use cine_forge.Prelude.{
  ◌+◌, String, ◌≡◌, refl, ap, ◌∙◌, ◌⊎◌, inl, inr, Option, some, arith, Option-cases,
}
use cine_forge.Prelude.Session.{Result, ok, err}
use cine_forge.Routing.{
  LogicalModelProfile, PlanningTaskType, RoutingMode, Error, RoutingSnapshot, RoutingDecision,
  quality_rank, next_escalation, routed, select_route, escalate_route,
}

-- What a decision keeps of its request.
abbrev Follows :
    PlanningTaskType
    → LogicalModelProfile
    → Option LogicalModelProfile
    → Result Error RoutingDecision
    → Type 0
Follows task p from (err e) = Unit
Follows task p from (ok d) =
    (d.task_type ≡ task) × (d.logical_model ≡ p) × (d.escalation_from ≡ from)

routed-Follows :
    (task : PlanningTaskType) (mode : RoutingMode) (p : LogicalModelProfile)
    (from : Option LogicalModelProfile) (r : Result Error String)
    → Follows task p from (routed task mode (some p) from r)
routed-Follows task mode p from (err e) = tt
routed-Follows task mode p from (ok provider) = (refl, refl, refl)

mode-cases :
    (m : RoutingMode)
    → (m ≡ RoutingMode.automatic) ⊎ ((m ≡ RoutingMode.manual) ⊎ (m ≡ RoutingMode.hybrid))
mode-cases RoutingMode.automatic = inl refl
mode-cases RoutingMode.manual = inr (inl refl)
mode-cases RoutingMode.hybrid = inr (inr refl)

select_route-Follows :
    (task : PlanningTaskType) (s : RoutingSnapshot) (p : LogicalModelProfile)
    (from : Option LogicalModelProfile)
    → Follows task p from (select_route task s (some p) from)
unfolding select_route
select_route-Follows task s p from = elim (mode-cases s.mode) [
  | inl auto ↦ simp auto (routed-Follows task RoutingMode.automatic p from _)
  | inr (inl by_hand) ↦ elim (Option-cases (s.manual_routes task)) [
    | inl unassigned ↦ simp (by_hand, unassigned) tt
    | inr (r, route) ↦ simp (by_hand, route) (refl, refl, refl)
  ]
  | inr (inr mixed) ↦ elim (Option-cases (s.manual_routes task)) [
    | inl unassigned ↦ simp (mixed, unassigned) (routed-Follows task RoutingMode.hybrid p from _)
    | inr (r, route) ↦ simp (mixed, route) (refl, refl, refl)
  ]
]

one_higher :
    (q p : LogicalModelProfile) → next_escalation q ≡ some p → quality_rank p ≡ quality_rank q + 1
unfolding next_escalation
one_higher LogicalModelProfile.luna p h = ground arith
one_higher LogicalModelProfile.terra p h = ground arith
one_higher LogicalModelProfile.sol p h = cc

-- An escalation that gives a route gives one for the same task, one rank higher, and names the
-- profile that it leaves.
pub escalate_route-rank :
    (current d : RoutingDecision) (s : RoutingSnapshot)
    → escalate_route current s ≡ some (ok d)
    → (d.task_type ≡ current.task_type)
      × (quality_rank d.logical_model ≡ quality_rank current.logical_model + 1)
      × (d.escalation_from ≡ some current.logical_model)
unfolding escalate_route
escalate_route-rank current d s h = elim (Option-cases (next_escalation current.logical_model)) [
  | inl last ↦ absurd (cc (rw last at h))
  | inr (p, next) ↦
      let same : select_route current.task_type s (some p) (some current.logical_model) ≡ ok d =
        cc (rw next at h) in
      let follows : Follows current.task_type p (some current.logical_model) (ok d) =
        rw same at (select_route-Follows current.task_type s p (some current.logical_model)) in
      (follows.0, ap quality_rank follows.1 ∙ one_higher current.logical_model p next, follows.2)
]
