-- ===== src/Planning/Sound.antt =====
-- `validate` as a whole: what it accepts is within the context, and it never raises on a named plan.
use astrbot_plugin_groupmate.Prelude.{
  pos, ltb_ℤ, nat_eq, String, ◌==◌, text_eq, is_empty, any, keep, All, All-map_of, length, ◌≡◌,
  refl, sym, ap, subst, Bool, true, false, not, ◌||◌, none, some, List, [], ◌∷◌, ◌++◌, map,
  Bool-cases, inl, inr, if◌then◌else◌, arith,
}
use astrbot_plugin_groupmate.Result.{ok, on_ok, require, ok-injective, value_error, ◌>>◌}
use astrbot_plugin_groupmate.Planning.Contracts.{
  ActionNode, ActionEdge, ActionPlan, PlanContext, PlanValidation, is_in, is_nil,
  invalid_dispositions, post_init,
}
use astrbot_plugin_groupmate.Planning.Graph.{dedupe, add_arcs, kahn_order, validate_edges_and_dag}
use astrbot_plugin_groupmate.Planning.Validator.{
  validate_visible_owner, disposition_of, plan_errors, validate,
}
use astrbot_plugin_groupmate.Planning.Accepted.{
  append_if-none, IsInScope, IsApproved, scope-IsInScope, frozen-IsApproved,
}
use astrbot_plugin_groupmate.Planning.Nodes.{AreAllowed, nodes-AreAllowed}

-- the ids of the nodes, each once
abbrev pub plan_ids : ActionPlan → List String
plan_ids plan = dedupe [] (map (λ n. n.node_id) plan.nodes)

-- Edges join nodes of the plan, and Kahn's loop takes every node.
pub record IsConnected (plan : ActionPlan) : Type 0 where
  pub known :
      All
        (λ e.
          (is_in e.source_node_id (plan_ids plan) ≡ true)
          × (is_in e.target_node_id (plan_ids plan) ≡ true))
        plan.edges
  pub ordered :
      nat_eq (length (kahn_order (plan_ids plan) (add_arcs [] plan.edges))) (length (plan_ids plan))
      ≡ true

known-ends :
    (ids : List String) (es : List ActionEdge)
    → any (λ e. not (is_in e.source_node_id ids) || not (is_in e.target_node_id ids)) es ≡ false
    → All (λ e. (is_in e.source_node_id ids ≡ true) × (is_in e.target_node_id ids ≡ true)) es
unfolding any
known-ends ids [] h = tt
known-ends ids (e ∷ es) h = ((ground arith, ground arith), known-ends ids es (ground arith))

snoc-not-nil : {A : Type 0} (xs : List A) (x : A) → xs ++ x ∷ [] ≡ [] → ⊥
snoc-not-nil [] x h = absurd (cc)
snoc-not-nil (y ∷ xs) x h = absurd (cc)

two_errors-none :
    (a b : Bool) (es : List String) (e f : String)
    → (if a then es ++ e ∷ [] else if b then es else es ++ f ∷ []) ≡ []
    → (a ≡ false) × (b ≡ true) × (es ≡ [])
two_errors-none true b es e f h = absurd (snoc-not-nil es e h)
two_errors-none false true es e f h = (refl, refl, h)
two_errors-none false false es e f h = absurd (snoc-not-nil es f h)

edges-IsConnected :
    (plan : ActionPlan) (es : List String)
    → validate_edges_and_dag plan es ≡ []
    → IsConnected plan × (es ≡ [])
unfolding validate_edges_and_dag
edges-IsConnected plan es h =
    let (known, ordered, clean) = two_errors-none _ _ es "unknown_edge_node" "plan_cycle" h in
    (record { known = known-ends (plan_ids plan) plan.edges known; ordered = ordered }, clean)

in-tail :
    (x y : String) (seen : List String)
    → is_in x seen ≡ true
    → is_in y (x ∷ seen) ≡ true
    → is_in y seen ≡ true
in-tail x y seen old h = elim (Bool-cases (x == y)) [
  | inl same ↦ subst (λ z. is_in z seen ≡ true) ((text_eq x y).0 same) old
  | inr other ↦ unfold is_in any in ground arith
]

in-tails :
    (x : String) (seen ys : List String)
    → is_in x seen ≡ true
    → All (λ y. is_in y (x ∷ seen) ≡ true) ys
    → All (λ y. is_in y seen ≡ true) ys
in-tails x seen [] old k = tt
in-tails x seen (y ∷ ys) old k = (in-tail x y seen old k.0, in-tails x seen ys old k.1)

-- If nothing new is left, everything was seen.
dedupe-seen : (seen xs : List String) → dedupe seen xs ≡ [] → All (λ x. is_in x seen ≡ true) xs
unfolding dedupe
dedupe-seen seen [] h = tt
dedupe-seen seen (x ∷ xs) h = elim (Bool-cases (is_in x seen)) [
  | inr new ↦ absurd (cc (rw new at h))
  | inl old ↦ (old, in-tails x seen xs old (dedupe-seen (x ∷ seen) xs (rw old at h)))
]

in-one : (x y : String) → is_in y (x ∷ []) ≡ true → y ≡ x
unfolding is_in any
in-one x y h = sym ((text_eq x y).0 (ground arith))

at-most-none :
    {A : Type 0} (x : A) (xs : List A) → ltb_ℤ (pos 1) (pos (length (x ∷ xs))) ≡ false → xs ≡ []
at-most-none x [] h = refl
at-most-none x (y ∷ ys) h = absurd (ground arith)

-- All visible nodes have one owner.
abbrev pub HasOneVisibleOwner : List ActionNode → Type 0
HasOneVisibleOwner ns = (owner : String) × All (λ n. n.visible ≡ true → n.owner_id ≡ owner) ns

visible-owned :
    (owner : String) (ns : List ActionNode)
    → All (λ o. o ≡ owner) (map (λ n. n.owner_id) (keep (λ n. n.visible) ns))
    → All (λ n. n.visible ≡ true → n.owner_id ≡ owner) ns
unfolding keep
visible-owned owner [] h = tt
visible-owned owner (n ∷ ns) h = elim (Bool-cases n.visible) [
  | inl shown ↦ let k = rw shown at h in (λ _. k.0, visible-owned owner ns k.1)
  | inr hidden ↦ (λ e. absurd (cc), visible-owned owner ns (rw hidden at h))
]

one_owner :
    (owners : List String)
    → ltb_ℤ (pos 1) (pos (length (dedupe [] owners))) ≡ false
    → (owner : String) × All (λ o. o ≡ owner) owners
unfolding dedupe is_in any
one_owner [] h = ("", tt)
one_owner (x ∷ xs) h = (
  x,
  (
    refl,
    All-map_of (in-one x) xs (dedupe-seen (x ∷ []) xs (at-most-none x (dedupe (x ∷ []) xs) h)),
  ),
)

owner-HasOneVisibleOwner :
    (plan : ActionPlan) (es : List String)
    → validate_visible_owner plan es ≡ []
    → HasOneVisibleOwner plan.nodes × (es ≡ [])
unfolding validate_visible_owner
owner-HasOneVisibleOwner plan es h =
    let (few, clean) = append_if-none _ "multiple_visible_owners" es h in
    let (owner, all) = one_owner (map (λ n. n.owner_id) (keep (λ n. n.visible) plan.nodes)) few in
    ((owner, visible-owned owner plan.nodes all), clean)

-- A plan that may run in a context.
pub record IsSafePlan (plan : ActionPlan) (c : PlanContext) : Type 0 where
  pub scope : IsInScope plan c
  pub approved : IsApproved plan c
  pub allowed : AreAllowed plan c
  pub connected : IsConnected plan
  pub one_owner : HasOneVisibleOwner plan.nodes

no_errors-IsSafePlan :
    (plan : ActionPlan) (c : PlanContext) → plan_errors plan c ≡ [] → IsSafePlan plan c
unfolding plan_errors
no_errors-IsSafePlan plan c h =
    let (owner, h1) = owner-HasOneVisibleOwner plan _ h in
    let (connected, h2) = edges-IsConnected plan _ h1 in
    let (allowed, h3) = nodes-AreAllowed plan c _ h2 in
    let (approved, h4) = frozen-IsApproved plan c _ h3 in
    record {
      scope = (scope-IsInScope plan c [] h4).0;
      approved = approved;
      allowed = allowed;
      connected = connected;
      one_owner = owner;
    }

chosen-same :
    (v w : PlanValidation) (b c d e f : Bool)
    → (if b
        then (require c value_error >> (require d value_error >> ok v))
        else (require e value_error >> (require f value_error >> ok v)))
      ≡ ok w
    → v ≡ w
chosen-same v w true c d e f h =
    on_ok (require c value_error) _ h
      λ _ _ h1. on_ok (require d value_error) _ h1 λ _ _ h2. ok-injective h2
chosen-same v w false c d e f h =
    on_ok (require e value_error) _ h
      λ _ _ h1. on_ok (require f value_error) _ h1 λ _ _ h2. ok-injective h2

post_init-same : (v w : PlanValidation) → post_init v ≡ ok w → v ≡ w
unfolding post_init
post_init-same v w h = chosen-same v w v.accepted _ _ _ _ h

is_nil-nil : (xs : List String) → is_nil xs ≡ true → xs ≡ []
is_nil-nil [] h = refl
is_nil-nil (x ∷ xs) h = absurd (cc)

-- A validation that accepts a plan binds that plan's id and digest, and the plan is safe in the
-- context: of its scope and versions, in time, approved, within every limit, with distinct nodes
-- that are all allowed, edges between its nodes that Kahn's loop can order, and at most one owner
-- of visible nodes.
pub validate_sound :
    (digest : ActionPlan → String) (plan : ActionPlan) (c : PlanContext) (v : PlanValidation)
    → validate digest plan c ≡ ok v
    → v.accepted ≡ true
    → IsSafePlan plan c × (v.plan_id ≡ some plan.plan_id) × (v.plan_digest ≡ some (digest plan))
unfolding validate
validate_sound digest plan c v h accepted = elim (Bool-cases (is_nil (plan_errors plan c))) [
  | inl clean ↦
      let same = post_init-same _ v (rw clean at h) in
      (
        no_errors-IsSafePlan plan c (is_nil-nil _ clean),
        sym (ap (λ (x : PlanValidation). x.plan_id) same),
        sym (ap (λ (x : PlanValidation). x.plan_digest) same),
      )
  | inr wrong ↦
      let same = post_init-same _ v (rw wrong at h) in
      absurd (cc (ap (λ (x : PlanValidation). x.accepted) same))
]

disposition-listed : (es : List String) → is_in (disposition_of es) invalid_dispositions ≡ true
unfolding disposition_of
disposition-listed es = elim (Bool-cases (is_in "stale_scene" es)) [
  | inl a ↦ rw a (unfold is_in any in refl)
  | inr a ↦ rw a (elim (Bool-cases (is_in "plan_expired" es)) [
    | inl b ↦ rw b (unfold is_in any in refl)
    | inr b ↦ rw b (elim (Bool-cases (is_in "missing_permission" es)) [
      | inl d ↦ rw d (unfold is_in any in refl)
      | inr d ↦ rw d (unfold is_in any in refl)
    ])
  ])
]

abbrev acceptance : (ActionPlan → String) → ActionPlan → PlanValidation
acceptance digest plan = record {
  accepted = true;
  errors = [];
  reduced_plan = none;
  disposition = none;
  plan_id = some plan.plan_id;
  plan_digest = some (digest plan);
}

abbrev rejection : List String → PlanValidation
rejection errors = record {
  accepted = false;
  errors = errors;
  reduced_plan = none;
  disposition = some (disposition_of errors);
  plan_id = none;
  plan_digest = none;
}

-- On a plan with an id and a digest, `validate` returns, and accepts exactly when there is no error.
pub validate-returns :
    (digest : ActionPlan → String) (plan : ActionPlan) (c : PlanContext)
    → is_empty plan.plan_id ≡ false
    → is_empty (digest plan) ≡ false
    → (v : PlanValidation) × (validate digest plan c ≡ ok v)
      × (v.accepted ≡ is_nil (plan_errors plan c))
unfolding validate post_init
validate-returns digest plan c named digested = elim (Bool-cases (is_nil (plan_errors plan c))) [
  | inl clean ↦ rw clean (acceptance digest plan, rw (named, digested), refl)
  | inr wrong ↦
      rw wrong (rejection (plan_errors plan c), rw (disposition-listed (plan_errors plan c)), refl)
]
