-- ===== src/Planning/Examples.antt =====
-- The planning theorems at a plan of two nodes.
use astrbot_plugin_groupmate.Prelude.{
  pos, ◌+ℤ◌, String, is_space, strip, lstrip, rstrip, any, keep, sort_by, insert_by, ◌≡◌, refl,
  true, false, none, some, List, [], ◌∷◌, arith,
}
use astrbot_plugin_groupmate.Result.{ok}
use astrbot_plugin_groupmate.Planning.Contracts.{
  ActionNode, ActionPlan, PlanContext, PlanValidation, is_in, is_nil, post_init,
}
use astrbot_plugin_groupmate.Planning.Graph.{
  Arc, dedupe, add_arcs, release, kahn_loop, kahn_order, validate_edges_and_dag,
}
use astrbot_plugin_groupmate.Planning.Validator.{
  validate_plan_scope, validate_frozen_decisions, validate_node, validate_each, count_followups,
  validate_nodes, validate_visible_owner, plan_errors, validate,
}
use astrbot_plugin_groupmate.Planning.Sound.{IsSafePlan, validate_sound, validate-returns}
use astrbot_plugin_groupmate.Planning.Fuel.{start_degrees, start_ready, kahn_order-fuel}

abbrev lookup : ActionNode
lookup = record {
  node_id = "lookup";
  kind = "KNOWLEDGE";
  owner_id = "mate";
  retry_limit = pos 1;
  deadline_at = some (pos 50);
  permission = "read";
  visible = false;
  autonomous_followup = false;
}

abbrev reply : ActionNode
reply = record lookup { node_id = "reply"; kind = "REPLY"; retry_limit = pos 0; visible = true }

abbrev plan : ActionPlan
plan = record {
  plan_id = "plan";
  correlation_id = "c";
  group_id = "g";
  persona_id = "mate";
  scene_version = pos 3;
  config_version = pos 1;
  persona_version = pos 1;
  constitution_version = pos 1;
  relationship_version = pos 1;
  state_version = pos 1;
  intention_ids = [];
  audience = "ann" ∷ [];
  topic_id = none;
  origin = "mention";
  nodes = reply ∷ lookup ∷ [];
  edges = record { source_node_id = "lookup"; target_node_id = "reply" } ∷ [];
  constraints = [];
  constitution_approved = true;
  relationship_approved = true;
  state_approved = true;
  risk_score = pos 0;
  media_references = [];
  budget_cost = pos 2;
  concurrency = pos 1;
  confirmation_ids = [];
  expires_at = pos 60;
}

abbrev context : PlanContext
context = record {
  now = pos 10;
  group_id = "g";
  persona_id = "mate";
  scene_version = pos 3;
  config_version = pos 1;
  persona_version = pos 1;
  constitution_version = pos 1;
  relationship_version = pos 1;
  state_version = pos 1;
  requester_permissions = "read" ∷ [];
  supported_node_kinds = "REPLY" ∷ "KNOWLEDGE" ∷ [];
  allowed_audience_ids = "ann" ∷ [];
  allowed_owner_ids = "mate" ∷ [];
  max_nodes = pos 8;
  max_plan_duration = pos 300;
  max_retries = pos 2;
  max_autonomous_followups = pos 1;
  constitution_allowed = true;
  relationship_allowed = true;
  state_allowed = true;
  max_risk_score = pos 5;
  allowed_media_references = [];
  max_budget_cost = pos 10;
  max_concurrency = pos 2;
  confirmed_ids = [];
}

-- a digest for the tests
abbrev digest : ActionPlan → String
digest p = p.correlation_id

abbrev validation : PlanValidation
validation = record {
  accepted = true;
  errors = [];
  reduced_plan = none;
  disposition = none;
  plan_id = some "plan";
  plan_digest = some "c";
}

ordered : kahn_order ("reply" ∷ "lookup" ∷ []) (("lookup", "reply") ∷ []) ≡ "lookup" ∷ "reply" ∷ []
unfolding kahn_order kahn_loop release any keep sort_by insert_by ◌+ℤ◌
ordered = refl

no_errors : plan_errors plan context ≡ []
unfolding plan_errors validate_plan_scope validate_frozen_decisions validate_nodes validate_each
    validate_node count_followups validate_visible_owner validate_edges_and_dag is_in any keep
    dedupe add_arcs kahn_order kahn_loop release sort_by insert_by strip lstrip rstrip is_space ◌+ℤ◌
no_errors = refl

-- A cycle is found.
cycle_found :
    validate_edges_and_dag
      (record plan {
        edges =
            record { source_node_id = "lookup"; target_node_id = "reply" }
            ∷ record { source_node_id = "reply"; target_node_id = "lookup" }
            ∷ [];
      })
      []
    ≡ "plan_cycle" ∷ []
unfolding validate_edges_and_dag is_in any keep dedupe add_arcs kahn_order kahn_loop release sort_by
    insert_by ◌+ℤ◌
cycle_found = refl

validates : validate digest plan context ≡ ok validation
unfolding validate post_init
validates = rw no_errors refl

validate_sound_example :
    IsSafePlan plan context
    × (validation.plan_id ≡ some "plan")
    × (validation.plan_digest ≡ some "c")
validate_sound_example = validate_sound digest plan context validation validates refl

validate-returns_example :
    (v : PlanValidation) × (validate digest plan context ≡ ok v)
    × (v.accepted ≡ is_nil (plan_errors plan context))
validate-returns_example = validate-returns digest plan context refl refl

abbrev arcs : List Arc
arcs = ("lookup", "reply") ∷ []

kahn_order-fuel_example :
    kahn_loop 5 arcs
      (start_degrees ("reply" ∷ "lookup" ∷ []) arcs)
      (start_ready (start_degrees ("reply" ∷ "lookup" ∷ []) arcs))
    ≡ kahn_order ("reply" ∷ "lookup" ∷ []) arcs
kahn_order-fuel_example = kahn_order-fuel ("reply" ∷ "lookup" ∷ []) arcs 5 (omega arith)
