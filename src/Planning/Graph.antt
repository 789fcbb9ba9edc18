-- ===== src/Planning/Graph.antt =====
-- `_validate_edges_and_dag` and `_kahn_order` of groupmate/social_runtime/validator.py. The sets of
-- targets are the list of arcs without repetition, and the indegrees a list of pairs.
use astrbot_plugin_groupmate.Prelude.{
  text_leb, ℕ, zero, suc, ℤ, pos, negsuc, ◌+ℤ◌, int_eq, nat_eq, String, ◌==◌, any, keep, length,
  sort_by, Bool, not, ◌&&◌, ◌||◌, List, [], ◌∷◌, ◌++◌, map, if◌then◌else◌,
}
use astrbot_plugin_groupmate.Planning.Contracts.{ActionEdge, ActionPlan, is_in}

-- `set(xs)`, in the order of the first occurrences
unfoldable pub dedupe : List String → List String → List String
dedupe seen [] = []
dedupe seen (x ∷ xs) = let rest = dedupe (x ∷ seen) xs in if is_in x seen then rest else x ∷ rest

abbrev pub Arc : Type 0
Arc = String × String

abbrev pub has_arc : Arc → List Arc → Bool
has_arc a arcs = any (λ b. b.0 == a.0 && b.1 == a.1) arcs

-- the arcs of the edges, each once
unfoldable pub add_arcs : List Arc → List ActionEdge → List Arc
unfolding any
add_arcs arcs [] = arcs
add_arcs arcs (e ∷ es) =
    let arc : Arc = (e.source_node_id, e.target_node_id) in
    add_arcs (if has_arc arc arcs then arcs else arcs ++ arc ∷ []) es

abbrev pub targets : String → List Arc → List String
targets source arcs = map (λ a. a.1) (keep (λ a. a.0 == source) arcs)

abbrev pub Indegrees : Type 0
Indegrees = List (String × ℤ)

abbrev pub indegree_of : List Arc → String → ℤ
indegree_of arcs id = pos (length (keep (λ a. a.1 == id) arcs))

-- `indegree[id] -= 1`
abbrev pub decrement : String → Indegrees → Indegrees
decrement id degrees = map (λ d. if d.0 == id then (d.0, d.1 +ℤ negsuc 0) else d) degrees

abbrev pub is_zero : String → Indegrees → Bool
is_zero id degrees = any (λ d. d.0 == id && int_eq d.1 (pos 0)) degrees

-- the loop over the targets of a node
unfoldable pub release : List String → Indegrees → List String → Indegrees × List String
unfolding any sort_by
release [] degrees ready = (degrees, ready)
release (t ∷ ts) degrees ready =
    let fewer = decrement t degrees in
    release ts fewer (if is_zero t fewer then sort_by text_leb (ready ++ t ∷ []) else ready)

-- `while ready`, with the order that it has found so far
unfoldable pub kahn_loop : ℕ → List Arc → Indegrees → List String → List String
unfolding keep sort_by
kahn_loop zero arcs degrees ready = []
kahn_loop (suc n) arcs degrees [] = []
kahn_loop (suc n) arcs degrees (id ∷ ready) =
    let (fewer, next) = release (sort_by text_leb (targets id arcs)) degrees ready in
    id ∷ kahn_loop n arcs fewer next

-- `_kahn_order`; a round takes one node that is ready, and makes a node ready only by
-- taking it from the nodes with a positive indegree, so the nodes are fuel enough.
unfoldable pub kahn_order : List String → List Arc → List String
unfolding keep sort_by
kahn_order ids arcs =
    let degrees = map (λ id. (id, indegree_of arcs id)) ids in
    kahn_loop (length ids) arcs degrees
      (sort_by text_leb (map (λ d. d.0) (keep (λ d. int_eq d.1 (pos 0)) degrees)))

-- `_validate_edges_and_dag`
unfoldable pub validate_edges_and_dag : ActionPlan → List String → List String
unfolding any dedupe
validate_edges_and_dag plan errors =
    let ids = dedupe [] (map (λ n. n.node_id) plan.nodes) in
    if any (λ e. not (is_in e.source_node_id ids) || not (is_in e.target_node_id ids)) plan.edges
    then errors ++ "unknown_edge_node" ∷ []
    else if nat_eq (length (kahn_order ids (add_arcs [] plan.edges))) (length ids)
    then errors
    else errors ++ "plan_cycle" ∷ []
