-- ===== src/Planning/Fuel.antt =====
-- The nodes are fuel enough for Kahn's loop: each round takes a ready node, and a node becomes ready
-- only by leaving the nodes with a positive indegree.
use astrbot_plugin_groupmate.Prelude.{
  text_leb, ℕ, zero, suc, ◌+◌, ◌≤◌, ℤ, pos, negsuc, ◌+ℤ◌, int_eq, ltb_ℤ, String, any, keep, length,
  length-map, length-append, sort_by, length-sort_by, ◌≡◌, refl, ap, ◌∙◌, Bool, true, false, List,
  [], ◌∷◌, ◌++◌, map, if◌then◌else◌, arith,
}
use astrbot_plugin_groupmate.Planning.Graph.{
  Arc, Indegrees, targets, indegree_of, decrement, is_zero, release, kahn_loop, kahn_order,
}

-- how many nodes still wait for another
unfoldable positives : Indegrees → ℕ
positives [] = 0
positives (d ∷ ds) = if ltb_ℤ (pos 0) d.1 then suc (positives ds) else positives ds

abbrev one_if : Bool → ℕ
one_if true = 1
one_if false = 0

fewer : (z : ℤ) → ltb_ℤ (pos 0) z ≡ false → ltb_ℤ (pos 0) (z +ℤ negsuc 0) ≡ false
unfolding ◌+ℤ◌
fewer (pos zero) h = ground arith
fewer (pos (suc n)) h = absurd (ground arith)
fewer (negsuc n) h = ground arith

last-one :
    (z : ℤ)
    → int_eq (z +ℤ negsuc 0) (pos 0) ≡ true
    → (ltb_ℤ (pos 0) z ≡ true) × (ltb_ℤ (pos 0) (z +ℤ negsuc 0) ≡ false)
unfolding ◌+ℤ◌
last-one (pos zero) h = ground arith
last-one (pos (suc n)) h = ground arith
last-one (negsuc n) h = ground arith

decrement-positives :
    (id : String) (ds : Indegrees)
    → positives (decrement id ds) + one_if (is_zero id (decrement id ds)) ≤ positives ds
unfolding positives any
decrement-positives id [] = ground arith
decrement-positives id (d ∷ ds) = ground (arith, decrement-positives id ds, fewer d.1, last-one d.1)

add-measure :
    (ts : List String) (t : String) (ds less : Indegrees) (ready : List String) (b : Bool)
    → ((next : List String)
        → length (release ts less next).1 + positives (release ts less next).0
          ≤ length next + positives less)
    → positives less + one_if b ≤ positives ds
    → length (release ts less (if b then sort_by text_leb (ready ++ t ∷ []) else ready)).1
        + positives (release ts less (if b then sort_by text_leb (ready ++ t ∷ []) else ready)).0
      ≤ length ready + positives ds
add-measure ts t ds less ready true rest h =
    let added = sort_by text_leb (ready ++ t ∷ []) in
    omega (
      arith,
      rest added,
      length-sort_by text_leb (ready ++ t ∷ []),
      length-append ready (t ∷ []),
      h,
    )
add-measure ts t ds less ready false rest h = omega (arith, rest ready, h)

release-measure :
    (ts : List String) (ds : Indegrees) (ready : List String)
    → length (release ts ds ready).1 + positives (release ts ds ready).0
      ≤ length ready + positives ds
unfolding release
release-measure [] ds ready = omega arith
release-measure (t ∷ ts) ds ready =
    add-measure ts t ds (decrement t ds) ready (is_zero t (decrement t ds))
      (release-measure ts (decrement t ds)) (decrement-positives t ds)

-- With fuel for the measure, more fuel changes nothing.
kahn_loop-fuel :
    (n m : ℕ) (arcs : List Arc) (ds : Indegrees) (ready : List String)
    → length ready + positives ds ≤ n
    → length ready + positives ds ≤ m
    → kahn_loop n arcs ds ready ≡ kahn_loop m arcs ds ready
unfolding kahn_loop
kahn_loop-fuel zero zero arcs ds ready h k = refl
kahn_loop-fuel zero (suc m) arcs ds [] h k = refl
kahn_loop-fuel zero (suc m) arcs ds (id ∷ ready) h k = absurd (omega arith)
kahn_loop-fuel (suc n) zero arcs ds [] h k = refl
kahn_loop-fuel (suc n) zero arcs ds (id ∷ ready) h k = absurd (omega arith)
kahn_loop-fuel (suc n) (suc m) arcs ds [] h k = refl
kahn_loop-fuel (suc n) (suc m) arcs ds (id ∷ ready) h k =
    let ts = sort_by text_leb (targets id arcs) in
    let r = release ts ds ready in
    let less = release-measure ts ds ready in
    ap (λ (xs : List String). id ∷ xs) (kahn_loop-fuel n m arcs r.0 r.1 (omega arith) (omega arith))

abbrev pub start_degrees : List String → List Arc → Indegrees
start_degrees ids arcs = map (λ id. (id, indegree_of arcs id)) ids

abbrev pub start_ready : Indegrees → List String
start_ready ds = sort_by text_leb (map (λ d. d.0) (keep (λ d. int_eq d.1 (pos 0)) ds))

zero-not-positive : (z : ℤ) → int_eq z (pos 0) ≡ true → ltb_ℤ (pos 0) z ≡ false
zero-not-positive z h = ground arith

start-measure :
    (ds : Indegrees) → length (keep (λ d. int_eq d.1 (pos 0)) ds) + positives ds ≤ length ds
unfolding positives keep
start-measure [] = omega arith
start-measure (d ∷ ds) = ground (arith, start-measure ds, zero-not-positive d.1)

-- Kahn's loop has fuel enough: with any fuel that is at least the number of nodes it finds the order
-- that `kahn_order` returns.
pub kahn_order-fuel :
    (ids : List String) (arcs : List Arc) (fuel : ℕ)
    → length ids ≤ fuel
    → kahn_loop fuel arcs (start_degrees ids arcs) (start_ready (start_degrees ids arcs))
      ≡ kahn_order ids arcs
unfolding kahn_order
kahn_order-fuel ids arcs fuel h =
    let ds = start_degrees ids arcs in
    let zeros = keep (λ (d : String × ℤ). int_eq d.1 (pos 0)) ds in
    let ready_len : length (start_ready ds) ≡ length zeros =
      length-sort_by text_leb (map (λ d. d.0) zeros) ∙ length-map (λ (d : String × ℤ). d.0) zeros in
    let all_len : length ds ≡ length ids =
      length-map (λ (id : String). (id, indegree_of arcs id)) ids in
    let enough = start-measure ds in
    kahn_loop-fuel fuel (length ids) arcs ds (start_ready ds) (omega arith) (omega arith)
