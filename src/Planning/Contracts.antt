-- ===== src/Planning/Contracts.antt =====
-- The action-plan contracts of groupmate/social_runtime/actions/contracts.py.
use astrbot_plugin_groupmate.Prelude.{
  ℤ, pos, String, ◌==◌, is_empty, any, Bool, true, false, not, ◌&&◌, Option, none, some, List, [],
  ◌∷◌, if◌then◌else◌,
}
use astrbot_plugin_groupmate.Result.{Result, ok, value_error, require, ◌>>◌}

abbrev pub max_action_plan_nodes : ℤ
max_action_plan_nodes = pos 24

abbrev pub max_action_plan_duration : ℤ
max_action_plan_duration = pos 86400

abbrev pub max_action_node_retries : ℤ
max_action_node_retries = pos 2

abbrev pub max_autonomous_followups : ℤ
max_autonomous_followups = pos 1

pub record ActionNode : Type 0 where
  pub node_id : String
  pub kind : String
  pub owner_id : String
  pub retry_limit : ℤ
  pub deadline_at : Option ℤ
  pub permission : String
  pub visible : Bool
  pub autonomous_followup : Bool

pub record ActionEdge : Type 0 where
  pub source_node_id : String
  pub target_node_id : String

pub record ActionPlan : Type 0 where
  pub plan_id : String
  pub correlation_id : String
  pub group_id : String
  pub persona_id : String
  pub scene_version : ℤ
  pub config_version : ℤ
  pub persona_version : ℤ
  pub constitution_version : ℤ
  pub relationship_version : ℤ
  pub state_version : ℤ
  pub intention_ids : List String
  pub audience : List String
  pub topic_id : Option String
  pub origin : String
  pub nodes : List ActionNode
  pub edges : List ActionEdge
  pub constraints : List String
  pub constitution_approved : Bool
  pub relationship_approved : Bool
  pub state_approved : Bool
  pub risk_score : ℤ
  pub media_references : List String
  pub budget_cost : ℤ
  pub concurrency : ℤ
  pub confirmation_ids : List String
  pub expires_at : ℤ

pub record PlanContext : Type 0 where
  pub now : ℤ
  pub group_id : String
  pub persona_id : String
  pub scene_version : ℤ
  pub config_version : ℤ
  pub persona_version : ℤ
  pub constitution_version : ℤ
  pub relationship_version : ℤ
  pub state_version : ℤ
  pub requester_permissions : List String
  pub supported_node_kinds : List String
  pub allowed_audience_ids : List String
  pub allowed_owner_ids : List String
  pub max_nodes : ℤ
  pub max_plan_duration : ℤ
  pub max_retries : ℤ
  pub max_autonomous_followups : ℤ
  pub constitution_allowed : Bool
  pub relationship_allowed : Bool
  pub state_allowed : Bool
  pub max_risk_score : ℤ
  pub allowed_media_references : List String
  pub max_budget_cost : ℤ
  pub max_concurrency : ℤ
  pub confirmed_ids : List String

pub record PlanValidation : Type 0 where
  pub accepted : Bool
  pub errors : List String
  pub reduced_plan : Option ActionPlan
  pub disposition : Option String
  pub plan_id : Option String
  pub plan_digest : Option String

-- `x in xs`
unfoldable pub is_in : String → List String → Bool
unfolding any
is_in x xs = any (λ y. y == x) xs

abbrev pub invalid_dispositions : List String
invalid_dispositions = "REDUCE" ∷ "REPLAN" ∷ "DEFER" ∷ "CLARIFY" ∷ "ABANDON" ∷ []

abbrev pub is_none {ℓ} : {A : Type ℓ} → Option A → Bool
is_none none = true
is_none (some a) = false

abbrev pub is_nil {ℓ} : {A : Type ℓ} → List A → Bool
is_nil [] = true
is_nil (x ∷ xs) = false

-- the truth of an optional text
abbrev pub is_given : Option String → Bool
is_given none = false
is_given (some s) = not (is_empty s)

abbrev pub is_among : Option String → List String → Bool
is_among none xs = false
is_among (some s) xs = is_in s xs

-- `PlanValidation.__post_init__`
unfoldable pub post_init : PlanValidation → Result PlanValidation
post_init v =
    if v.accepted
    then (do
      require (is_nil v.errors && is_none v.reduced_plan && is_none v.disposition) value_error
      require (is_given v.plan_id && is_given v.plan_digest) value_error
      ok v)
    else (do
      require (is_among v.disposition invalid_dispositions) value_error
      require (is_none v.plan_id && is_none v.plan_digest) value_error
      ok v)
