-- ===== src/Planning/Nodes.antt =====
-- What the nodes of an accepted plan satisfy.
use astrbot_plugin_groupmate.Prelude.{
  ℤ, pos, ltb_ℤ, leb_ℤ, String, ◌==◌, text_eq_comm, is_empty, any, All, ◌≡◌, refl, Bool, true,
  false, ◌&&◌, ◌||◌, Option, none, some, List, [], ◌∷◌, map, arith,
}
use astrbot_plugin_groupmate.Delivery.Contracts.{distinct}
use astrbot_plugin_groupmate.Planning.Contracts.{
  ActionNode, ActionPlan, PlanContext, is_in, max_action_node_retries, max_autonomous_followups,
}
use astrbot_plugin_groupmate.Planning.Validator.{
  min_ℤ, deadline_error, validate_node, validate_each, count_followups, validate_nodes,
}
use astrbot_plugin_groupmate.Planning.Accepted.{
  append_if-none, append_once-none, error_if-none, not-above, not-false,
}

-- A node that may run: known, owned, permitted, with few retries and a deadline within the plan.
pub record IsAllowed (plan : ActionPlan) (c : PlanContext) (n : ActionNode) : Type 0 where
  pub named : is_empty n.node_id ≡ false
  pub kind : is_in n.kind c.supported_node_kinds ≡ true
  pub owner : is_in n.owner_id c.allowed_owner_ids ≡ true
  pub retries :
      (leb_ℤ (pos 0) n.retry_limit
        && leb_ℤ n.retry_limit (min_ℤ c.max_retries max_action_node_retries))
      ≡ true
  pub deadline :
      (d : ℤ) × (n.deadline_at ≡ some d)
      × (leb_ℤ d plan.expires_at ≡ true)
      × ((ltb_ℤ c.now plan.expires_at && leb_ℤ d c.now) ≡ false)
  pub permission : is_in n.permission c.requester_permissions ≡ true

deadline-within :
    (plan : ActionPlan) (c : PlanContext) (o : Option ℤ)
    → deadline_error plan c o ≡ none
    → (d : ℤ) × (o ≡ some d)
      × (leb_ℤ d plan.expires_at ≡ true)
      × ((ltb_ℤ c.now plan.expires_at && leb_ℤ d c.now) ≡ false)
deadline-within plan c none h = absurd (cc)
deadline-within plan c (some d) h =
    let r1 =
      error_if-none (ltb_ℤ c.now plan.expires_at && leb_ℤ d c.now) "node_deadline_expired" _ h in
    let r2 = error_if-none (ltb_ℤ plan.expires_at d) "node_deadline_exceeded" none r1.1 in
    (d, refl, not-above d plan.expires_at r2.0, r1.0)

retries-within :
    (a b : ℤ) → (ltb_ℤ a (pos 0) || ltb_ℤ b a) ≡ false → (leb_ℤ (pos 0) a && leb_ℤ a b) ≡ true
retries-within a b h = ground arith

neither : (a b : Bool) → (a || b) ≡ false → (a ≡ false) × (b ≡ false)
neither a b h = ground arith

node-IsAllowed :
    (plan : ActionPlan) (c : PlanContext) (seen : List String) (n : ActionNode) (es : List String)
    → validate_node plan c seen n es ≡ []
    → IsAllowed plan c n × (is_in n.node_id seen ≡ false) × (es ≡ [])
unfolding validate_node
node-IsAllowed plan c seen n es h =
    let r6 = append_once-none _ _ h in
    let r5 = append_once-none (deadline_error plan c n.deadline_at) _ r6.1 in
    let r4 = append_once-none _ _ r5.1 in
    let r3 = append_once-none _ _ r4.1 in
    let r2 = append_once-none _ _ r3.1 in
    let r1 = append_once-none _ es r2.1 in
    let permitted =
      error_if-none _ "missing_permission" none
        (error_if-none _ "node_permission_missing" _ r6.0).1 in
    let owned =
      error_if-none _ "owner_not_allowed" none (error_if-none _ "node_owner_missing" _ r3.0).1 in
    let fresh =
      neither (is_empty n.node_id) (is_in n.node_id seen)
        (error_if-none _ "duplicate_node_id" none r1.0).0 in
    (
      record {
        named = fresh.0;
        kind = not-false _ (error_if-none _ "unsupported_node_kind" none r2.0).0;
        owner = not-false _ owned.0;
        retries =
            retries-within n.retry_limit (min_ℤ c.max_retries max_action_node_retries)
              (error_if-none _ "retry_limit_exceeded" none r4.0).0;
        deadline = deadline-within plan c n.deadline_at r5.0;
        permission = not-false _ permitted.0;
      },
      fresh.1,
      r1.1,
    )

abbrev node_ids : List ActionNode → List String
node_ids ns = map (λ n. n.node_id) ns

unseen-tail :
    (id : String) (seen : List String) (ns : List ActionNode)
    → All (λ n. is_in n.node_id (id ∷ seen) ≡ false) ns
    → (any (λ x. x == id) (node_ids ns) ≡ false) × All (λ n. is_in n.node_id seen ≡ false) ns
unfolding any is_in
unseen-tail id seen [] h = (refl, tt)
unseen-tail id seen (n ∷ ns) h =
    let rest = unseen-tail id seen ns h.1 in
    (ground (arith, text_eq_comm id n.node_id), (ground arith, rest.1))

-- The nodes pass one by one, and no two have the same id.
each-IsAllowed :
    (plan : ActionPlan) (c : PlanContext) (seen : List String) (ns : List ActionNode)
    (es : List String)
    → validate_each plan c seen ns es ≡ []
    → All (IsAllowed plan c) ns
      × (distinct (node_ids ns) ≡ true)
      × All (λ n. is_in n.node_id seen ≡ false) ns
      × (es ≡ [])
unfolding validate_each distinct
each-IsAllowed plan c seen [] es h = (tt, refl, tt, h)
each-IsAllowed plan c seen (n ∷ ns) es h =
    let (allowed, apart, unseen, none_before) = each-IsAllowed plan c (n.node_id ∷ seen) ns _ h in
    let (ok_node, fresh, none_at_all) = node-IsAllowed plan c seen n es none_before in
    let rest = unseen-tail n.node_id seen ns unseen in
    ((ok_node, allowed), ground arith, (fresh, rest.1), none_at_all)

-- What `_validate_nodes` establishes.
pub record AreAllowed (plan : ActionPlan) (c : PlanContext) : Type 0 where
  pub nodes : All (IsAllowed plan c) plan.nodes
  pub node_ids : distinct (map (λ n. n.node_id) plan.nodes) ≡ true
  pub followups :
      leb_ℤ
        (pos (count_followups plan.nodes))
        (min_ℤ c.max_autonomous_followups max_autonomous_followups)
      ≡ true

pub nodes-AreAllowed :
    (plan : ActionPlan) (c : PlanContext) (es : List String)
    → validate_nodes plan c es ≡ []
    → AreAllowed plan c × (es ≡ [])
unfolding validate_nodes
nodes-AreAllowed plan c es h =
    let last = append_if-none _ "autonomous_followup_limit_exceeded" _ h in
    let (allowed, apart, _, clean) = each-IsAllowed plan c [] plan.nodes es last.1 in
    (
      record {
        nodes = allowed;
        node_ids = apart;
        followups =
            not-above (pos (count_followups plan.nodes))
              (min_ℤ c.max_autonomous_followups max_autonomous_followups) last.0;
      },
      clean,
    )
