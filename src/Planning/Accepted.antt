-- ===== src/Planning/Accepted.antt =====
-- What an accepted plan satisfies: `validate` accepts only plans within their context.
use astrbot_plugin_groupmate.Prelude.{
  ℤ, pos, ◌+ℤ◌, int_eq_iff, ltb_ℤ, leb_ℤ, String, text_eq, any, All, length, ◌≡◌, refl, Bool, true,
  false, not, ◌&&◌, ◌||◌, Option, none, some, List, [], ◌∷◌, ◌++◌, Bool-cases, inl, inr,
  if◌then◌else◌, arith,
}
use astrbot_plugin_groupmate.Planning.Contracts.{
  ActionPlan, PlanContext, is_in, max_action_plan_nodes, max_action_plan_duration,
}
use astrbot_plugin_groupmate.Planning.Validator.{
  min_ℤ, append_if, append_once, error_if, validate_plan_scope, validate_frozen_decisions,
}

pub append_if-none :
    (b : Bool) (e : String) (es : List String) → append_if b e es ≡ [] → (b ≡ false) × (es ≡ [])
append_if-none true e [] h = absurd (cc)
append_if-none true e (x ∷ es) h = absurd (cc)
append_if-none false e es h = (refl, h)

pub append_once-none :
    (o : Option String) (es : List String) → append_once o es ≡ [] → (o ≡ none) × (es ≡ [])
append_once-none none es h = (refl, h)
append_once-none (some e) [] h = absurd (unfold is_in any in cc h)
append_once-none (some e) (x ∷ es) h = elim (Bool-cases (is_in e (x ∷ es))) [
  | inl there ↦ absurd (cc (rw there at h))
  | inr missing ↦ absurd (cc (rw missing at h))
]

pub error_if-none :
    (b : Bool) (e : String) (o : Option String) → error_if b e o ≡ none → (b ≡ false) × (o ≡ none)
error_if-none true e o h = absurd (cc)
error_if-none false e o h = (refl, h)

pub not-false : (b : Bool) → not b ≡ false → b ≡ true
not-false true h = refl
not-false false h = absurd (cc)

-- The plan is of the context, fresh, in time, and speaks to people that the context allows.
pub record IsInScope (plan : ActionPlan) (c : PlanContext) : Type 0 where
  pub group : plan.group_id ≡ c.group_id
  pub persona : plan.persona_id ≡ c.persona_id
  pub scene : plan.scene_version ≡ c.scene_version
  pub config : plan.config_version ≡ c.config_version
  pub persona_version : plan.persona_version ≡ c.persona_version
  pub constitution : plan.constitution_version ≡ c.constitution_version
  pub relationship : plan.relationship_version ≡ c.relationship_version
  pub state : plan.state_version ≡ c.state_version
  pub fresh : ltb_ℤ c.now plan.expires_at ≡ true
  pub short :
      leb_ℤ plan.expires_at (c.now +ℤ min_ℤ c.max_plan_duration max_action_plan_duration) ≡ true
  pub small : leb_ℤ (pos (length plan.nodes)) (min_ℤ c.max_nodes max_action_plan_nodes) ≡ true
  pub audience : All (λ a. is_in a c.allowed_audience_ids ≡ true) plan.audience

each_in :
    (allowed xs : List String)
    → any (λ x. not (is_in x allowed)) xs ≡ false
    → All (λ x. is_in x allowed ≡ true) xs
unfolding any
each_in allowed [] h = tt
each_in allowed (x ∷ xs) h = (ground arith, each_in allowed xs (ground arith))

pub not-above : (a b : ℤ) → ltb_ℤ b a ≡ false → leb_ℤ a b ≡ true
not-above a b h = ground arith

not-until : (a b : ℤ) → leb_ℤ a b ≡ false → ltb_ℤ b a ≡ true
not-until a b h = ground arith

time_errors-none :
    (b c : Bool) (es : List String)
    → (if b then es ++ "plan_expired" ∷ [] else append_if c "plan_duration_exceeded" es) ≡ []
    → (b ≡ false) × (c ≡ false) × (es ≡ [])
time_errors-none true c [] h = absurd (cc)
time_errors-none true c (x ∷ es) h = absurd (cc)
time_errors-none false c es h =
    let r = append_if-none c "plan_duration_exceeded" es h in (refl, r.0, r.1)

pub scope-IsInScope :
    (plan : ActionPlan) (c : PlanContext) (es : List String)
    → validate_plan_scope plan c es ≡ []
    → IsInScope plan c × (es ≡ [])
unfolding validate_plan_scope
scope-IsInScope plan c es h =
    let r11 = append_if-none _ "unknown_audience" _ h in
    let r10 = append_if-none _ "node_limit_exceeded" _ r11.1 in
    let (live, near, r9) = time_errors-none _ _ _ r10.1 in
    let r8 = append_if-none _ "stale_state" _ r9 in
    let r7 = append_if-none _ "stale_relationship" _ r8.1 in
    let r6 = append_if-none _ "stale_constitution" _ r7.1 in
    let r5 = append_if-none _ "stale_persona" _ r6.1 in
    let r4 = append_if-none _ "stale_config" _ r5.1 in
    let r3 = append_if-none _ "stale_scene" _ r4.1 in
    let r2 = append_if-none _ "wrong_persona" _ r3.1 in
    let r1 = append_if-none _ "wrong_group" es r2.1 in
    (
      record {
        group = (text_eq _ _).0 (not-false _ r1.0);
        persona = (text_eq _ _).0 (not-false _ r2.0);
        scene = (int_eq_iff _ _).0 (not-false _ r3.0);
        config = (int_eq_iff _ _).0 (not-false _ r4.0);
        persona_version = (int_eq_iff _ _).0 (not-false _ r5.0);
        constitution = (int_eq_iff _ _).0 (not-false _ r6.0);
        relationship = (int_eq_iff _ _).0 (not-false _ r7.0);
        state = (int_eq_iff _ _).0 (not-false _ r8.0);
        fresh = not-until plan.expires_at c.now live;
        short =
            not-above plan.expires_at (c.now +ℤ min_ℤ c.max_plan_duration max_action_plan_duration)
              near;
        small = not-above (pos (length plan.nodes)) (min_ℤ c.max_nodes max_action_plan_nodes) r10.0;
        audience = each_in c.allowed_audience_ids plan.audience r11.0;
      },
      r1.1,
    )

-- Nothing frozen was rejected, and the limits of the context hold.
pub record IsApproved (plan : ActionPlan) (c : PlanContext) : Type 0 where
  pub constitution : (plan.constitution_approved && c.constitution_allowed) ≡ true
  pub relationship : (plan.relationship_approved && c.relationship_allowed) ≡ true
  pub state : (plan.state_approved && c.state_allowed) ≡ true
  pub risk : leb_ℤ plan.risk_score c.max_risk_score ≡ true
  pub media : All (λ m. is_in m c.allowed_media_references ≡ true) plan.media_references
  pub budget : leb_ℤ plan.budget_cost c.max_budget_cost ≡ true
  pub concurrency : leb_ℤ plan.concurrency c.max_concurrency ≡ true
  pub confirmed : All (λ i. is_in i c.confirmed_ids ≡ true) plan.confirmation_ids

both_given : (a b : Bool) → (not a || not b) ≡ false → (a && b) ≡ true
both_given a b h = ground arith

pub frozen-IsApproved :
    (plan : ActionPlan) (c : PlanContext) (es : List String)
    → validate_frozen_decisions plan c es ≡ []
    → IsApproved plan c × (es ≡ [])
unfolding validate_frozen_decisions
frozen-IsApproved plan c es h =
    let r8 = append_if-none _ "confirmation_missing" _ h in
    let r7 = append_if-none _ "concurrency_limit_exceeded" _ r8.1 in
    let r6 = append_if-none _ "budget_limit_exceeded" _ r7.1 in
    let r5 = append_if-none _ "media_not_allowed" _ r6.1 in
    let r4 = append_if-none _ "risk_limit_exceeded" _ r5.1 in
    let r3 = append_if-none _ "state_rejected" _ r4.1 in
    let r2 = append_if-none _ "relationship_rejected" _ r3.1 in
    let r1 = append_if-none _ "constitution_rejected" es r2.1 in
    (
      record {
        constitution = both_given plan.constitution_approved c.constitution_allowed r1.0;
        relationship = both_given plan.relationship_approved c.relationship_allowed r2.0;
        state = both_given plan.state_approved c.state_allowed r3.0;
        risk = not-above plan.risk_score c.max_risk_score r4.0;
        media = each_in c.allowed_media_references plan.media_references r5.0;
        budget = not-above plan.budget_cost c.max_budget_cost r6.0;
        concurrency = not-above plan.concurrency c.max_concurrency r7.0;
        confirmed = each_in c.confirmed_ids plan.confirmation_ids r8.0;
      },
      r1.1,
    )
