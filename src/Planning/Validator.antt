-- ===== src/Planning/Validator.antt =====
-- `ActionPlanValidator` of groupmate/social_runtime/validator.py. The digest is SHA-256, which the
-- code takes from the standard library: a parameter.
use astrbot_plugin_groupmate.Prelude.{
  ℕ, suc, ℤ, pos, ◌+ℤ◌, int_eq, ltb_ℤ, leb_ℤ, String, ◌==◌, is_empty, strip, any, keep, length,
  Bool, true, false, not, ◌&&◌, ◌||◌, Option, none, some, List, [], ◌∷◌, ◌++◌, map, if◌then◌else◌,
}
use astrbot_plugin_groupmate.Result.{Result}
use astrbot_plugin_groupmate.Planning.Contracts.{
  ActionNode, ActionPlan, PlanContext, PlanValidation, is_in, is_nil, post_init,
  max_action_plan_nodes, max_action_plan_duration, max_action_node_retries,
  max_autonomous_followups,
}
use astrbot_plugin_groupmate.Planning.Graph.{dedupe, validate_edges_and_dag}

abbrev pub min_ℤ : ℤ → ℤ → ℤ
min_ℤ a b = if leb_ℤ a b then a else b

-- `if test: errors.append(error)`
abbrev pub append_if : Bool → String → List String → List String
append_if test error errors = if test then errors ++ error ∷ [] else errors

-- `_append_once` of the error that a test or a chain of tests finds
abbrev pub append_once : Option String → List String → List String
append_once none errors = errors
append_once (some error) errors = if is_in error errors then errors else errors ++ error ∷ []

abbrev pub error_if : Bool → String → Option String → Option String
error_if test error rest = if test then some error else rest

unfoldable pub validate_plan_scope : ActionPlan → PlanContext → List String → List String
unfolding any
validate_plan_scope plan c errors =
    let e1 = append_if (not (plan.group_id == c.group_id)) "wrong_group" errors in
    let e2 = append_if (not (plan.persona_id == c.persona_id)) "wrong_persona" e1 in
    let e3 = append_if (not (int_eq plan.scene_version c.scene_version)) "stale_scene" e2 in
    let e4 = append_if (not (int_eq plan.config_version c.config_version)) "stale_config" e3 in
    let e5 = append_if (not (int_eq plan.persona_version c.persona_version)) "stale_persona" e4 in
    let e6 =
      append_if (not (int_eq plan.constitution_version c.constitution_version)) "stale_constitution"
        e5 in
    let e7 =
      append_if (not (int_eq plan.relationship_version c.relationship_version)) "stale_relationship"
        e6 in
    let e8 = append_if (not (int_eq plan.state_version c.state_version)) "stale_state" e7 in
    let e9 =
      if leb_ℤ plan.expires_at c.now
      then e8 ++ "plan_expired" ∷ []
      else append_if
          (ltb_ℤ (c.now +ℤ min_ℤ c.max_plan_duration max_action_plan_duration) plan.expires_at)
          "plan_duration_exceeded" e8 in
    let e10 =
      append_if (ltb_ℤ (min_ℤ c.max_nodes max_action_plan_nodes) (pos (length plan.nodes)))
        "node_limit_exceeded" e9 in
    append_if (any (λ a. not (is_in a c.allowed_audience_ids)) plan.audience) "unknown_audience" e10

unfoldable pub validate_frozen_decisions : ActionPlan → PlanContext → List String → List String
unfolding any
validate_frozen_decisions plan c errors =
    let e1 =
      append_if (not plan.constitution_approved || not c.constitution_allowed)
        "constitution_rejected" errors in
    let e2 =
      append_if (not plan.relationship_approved || not c.relationship_allowed)
        "relationship_rejected" e1 in
    let e3 = append_if (not plan.state_approved || not c.state_allowed) "state_rejected" e2 in
    let e4 = append_if (ltb_ℤ c.max_risk_score plan.risk_score) "risk_limit_exceeded" e3 in
    let e5 =
      append_if (any (λ m. not (is_in m c.allowed_media_references)) plan.media_references)
        "media_not_allowed" e4 in
    let e6 = append_if (ltb_ℤ c.max_budget_cost plan.budget_cost) "budget_limit_exceeded" e5 in
    let e7 = append_if (ltb_ℤ c.max_concurrency plan.concurrency) "concurrency_limit_exceeded" e6 in
    append_if (any (λ i. not (is_in i c.confirmed_ids)) plan.confirmation_ids)
      "confirmation_missing" e7

abbrev pub deadline_error : ActionPlan → PlanContext → Option ℤ → Option String
deadline_error plan c none = some "node_deadline_missing"
deadline_error plan c (some d) =
    error_if (ltb_ℤ c.now plan.expires_at && leb_ℤ d c.now) "node_deadline_expired"
      (error_if (ltb_ℤ plan.expires_at d) "node_deadline_exceeded" none)

-- one round of the loop of `_validate_nodes`
unfoldable pub validate_node :
    ActionPlan → PlanContext → List String → ActionNode → List String → List String
unfolding strip
validate_node plan c seen n errors =
    let e1 =
      append_once (error_if (is_empty n.node_id || is_in n.node_id seen) "duplicate_node_id" none)
        errors in
    let e2 =
      append_once
        (error_if (not (is_in n.kind c.supported_node_kinds)) "unsupported_node_kind" none) e1 in
    let e3 =
      append_once
        (error_if (is_empty n.owner_id) "node_owner_missing"
          (error_if (not (is_in n.owner_id c.allowed_owner_ids)) "owner_not_allowed" none))
        e2 in
    let e4 =
      append_once
        (error_if
          (ltb_ℤ n.retry_limit (pos 0)
            || ltb_ℤ (min_ℤ c.max_retries max_action_node_retries) n.retry_limit)
          "retry_limit_exceeded" none)
        e3 in
    let e5 = append_once (deadline_error plan c n.deadline_at) e4 in
    append_once
      (error_if (is_empty (strip n.permission)) "node_permission_missing"
        (error_if (not (is_in n.permission c.requester_permissions)) "missing_permission" none))
      e5

unfoldable pub validate_each :
    ActionPlan → PlanContext → List String → List ActionNode → List String → List String
validate_each plan c seen [] errors = errors
validate_each plan c seen (n ∷ ns) errors =
    validate_each plan c (n.node_id ∷ seen) ns (validate_node plan c seen n errors)

unfoldable pub count_followups : List ActionNode → ℕ
count_followups [] = 0
count_followups (n ∷ ns) =
    if n.autonomous_followup then suc (count_followups ns) else count_followups ns

unfoldable pub validate_nodes : ActionPlan → PlanContext → List String → List String
validate_nodes plan c errors =
    append_if
      (ltb_ℤ (min_ℤ c.max_autonomous_followups max_autonomous_followups)
        (pos (count_followups plan.nodes)))
      "autonomous_followup_limit_exceeded" (validate_each plan c [] plan.nodes errors)

unfoldable pub validate_visible_owner : ActionPlan → List String → List String
unfolding keep dedupe
validate_visible_owner plan errors =
    append_if
      (ltb_ℤ (pos 1)
        (pos (length (dedupe [] (map (λ n. n.owner_id) (keep (λ n. n.visible) plan.nodes))))))
      "multiple_visible_owners" errors

unfoldable pub disposition_of : List String → String
disposition_of errors =
    if is_in "stale_scene" errors
    then "REPLAN"
    else if is_in "plan_expired" errors
    then "ABANDON"
    else if is_in "missing_permission" errors
    then "CLARIFY"
    else "REDUCE"

-- the errors that `validate` collects
unfoldable pub plan_errors : ActionPlan → PlanContext → List String
plan_errors plan c = validate_visible_owner plan (
    validate_edges_and_dag plan
      (validate_nodes plan c (validate_frozen_decisions plan c (validate_plan_scope plan c []))))

unfoldable pub validate : (ActionPlan → String) → ActionPlan → PlanContext → Result PlanValidation
validate digest plan c =
    let errors = plan_errors plan c in
    if is_nil errors
    then post_init (record {
      accepted = true;
      errors = [];
      reduced_plan = none;
      disposition = none;
      plan_id = some plan.plan_id;
      plan_digest = some (digest plan);
    })
    else post_init (record {
      accepted = false;
      errors = errors;
      reduced_plan = none;
      disposition = some (disposition_of errors);
      plan_id = none;
      plan_digest = none;
    })
