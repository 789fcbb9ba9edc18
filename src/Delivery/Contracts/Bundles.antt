-- ===== src/Delivery/Contracts/Bundles.antt =====
-- `DeliveryBundle.create`: what it returns it returns again, and its parts are in order.
use astrbot_plugin_groupmate.Prelude.{
  pos, leb_ℤ, ltb_ℤ, ◌≡◌, refl, sym, ap, ◌∙◌, true, false, not, ◌&&◌, List, [], ◌∷◌, map, length,
  all, arith, sort_by, sort_by-IsOrdered, sort_by_of_IsOrdered, length-sort_by, all-sort_by,
}
use astrbot_plugin_groupmate.Result.{
  ok, value_error, require, require-true, on_ok, on_require, then_ok, then_require, ok-injective,
}
use astrbot_plugin_groupmate.Delivery.Contracts.{
  DeliveryPart, DeliveryBundle, by_order, delivery_text, optional_text, create_bundle, distinct,
  is_nil, same_set, range_from,
}
use astrbot_plugin_groupmate.Delivery.Contracts.Normal.{delivery_text-normal, optional_text-normal}
use astrbot_plugin_groupmate.Delivery.Contracts.Sorting.{distinct-sort_by, same_set-sort_by}

pub by_order-total : (p q : DeliveryPart) → by_order p q ≡ false → by_order q p ≡ true
by_order-total p q h = ground arith

is_nil-length : (xs ys : List DeliveryPart) → length xs ≡ length ys → is_nil xs ≡ is_nil ys
is_nil-length [] [] h = refl
is_nil-length [] (y ∷ ys) h = absurd (omega arith)
is_nil-length (x ∷ xs) [] h = absurd (omega arith)
is_nil-length (x ∷ xs) (y ∷ ys) h = refl

abbrev pub sorted : List DeliveryPart → List DeliveryPart
sorted = sort_by by_order

sorted-sorted : (ps : List DeliveryPart) → sorted (sorted ps) ≡ sorted ps
sorted-sorted ps =
    sort_by_of_IsOrdered by_order (sorted ps) (sort_by-IsOrdered by_order by_order-total ps)

pub create_bundle-normal : (b c : DeliveryBundle) → create_bundle b ≡ ok c → create_bundle c ≡ ok c
unfolding create_bundle
create_bundle-normal b c h = on_ok (delivery_text b.bundle_id) _ h λ i hi h1.
    on_ok (delivery_text b.correlation_id) _ h1 λ k hk h2.
      on_ok (delivery_text b.persona_id) _ h2 λ p hp h3.
        on_ok (delivery_text b.group_id) _ h3 λ g hg h4.
          on_ok (optional_text b.topic_id) _ h4 λ t ht h5. on_require _ value_error _ h5 λ c1 h6.
            on_require _ value_error _ h6 λ c2 h7. on_require _ value_error _ h7 λ c3 h8.
              on_require _ value_error _ h8 λ c4 h9. on_require _ value_error _ h9 λ c5 h10.
                on_require _ value_error _ h10 λ c6 h11.
                  let same : record b {
                    bundle_id = i;
                    correlation_id = k;
                    persona_id = p;
                    group_id = g;
                    topic_id = t;
                    parts = sorted b.parts;
                  }
                      ≡ c =
                    ok-injective h11 in
                  rw (← same) (
                    then_ok _ (delivery_text-normal _ _ hi) (
                      then_ok _ (delivery_text-normal _ _ hk) (
                        then_ok _ (delivery_text-normal _ _ hp) (
                          then_ok _ (delivery_text-normal _ _ hg) (
                            then_ok _ (optional_text-normal _ _ ht) (
                              then_require value_error
                                (ap not (is_nil-length _ _ (length-sort_by by_order b.parts)) ∙ c1)
                                (then_require value_error
                                  (distinct-sort_by by_order (λ q. q.part_id) b.parts ∙ c2)
                                  (then_require value_error
                                    (distinct-sort_by by_order (λ q. q.idempotency_key) b.parts
                                      ∙ c3)
                                    (then_require value_error
                                      (rw (length-sort_by by_order b.parts)
                                        (same_set-sort_by by_order (λ q. q.order) b.parts _ ∙ c4))
                                      (then_require value_error c5 (
                                        then_require value_error
                                          (all-sort_by by_order _ b.parts ∙ c6)
                                          (rw (sorted-sorted b.parts)))))))))))))

-- What a created bundle says of its parts.
pub record IsCreated (b c : DeliveryBundle) : Type 0 where
  pub parts : c.parts ≡ sorted b.parts
  pub part_ids : distinct (map (λ p. p.part_id) b.parts) ≡ true
  pub keys : distinct (map (λ p. p.idempotency_key) b.parts) ≡ true
  pub orders : same_set (map (λ p. p.order) b.parts) (range_from 0 (length b.parts)) ≡ true

pub create_bundle-IsCreated : (b c : DeliveryBundle) → create_bundle b ≡ ok c → IsCreated b c
unfolding create_bundle
create_bundle-IsCreated b c h = on_ok (delivery_text b.bundle_id) _ h λ i hi h1.
    on_ok (delivery_text b.correlation_id) _ h1 λ k hk h2.
      on_ok (delivery_text b.persona_id) _ h2 λ p hp h3.
        on_ok (delivery_text b.group_id) _ h3 λ g hg h4.
          on_ok (optional_text b.topic_id) _ h4 λ t ht h5.
            on_ok (require (not (is_nil b.parts)) value_error) _ h5 λ _ c1 h6.
              on_ok (require (distinct (map (λ p. p.part_id) b.parts)) value_error) _ h6 λ _ c2 h7.
                on_ok (require (distinct (map (λ p. p.idempotency_key) b.parts)) value_error) _ h7
                  λ _ c3 h8.
                    on_ok
                      (require
                        (same_set (map (λ p. p.order) b.parts) (range_from 0 (length b.parts)))
                        value_error)
                      _ h8
                      λ _ c4 h9.
                        on_ok
                          (require
                            (not (ltb_ℤ b.created_at (pos 0)) && ltb_ℤ b.created_at b.expires_at)
                            value_error)
                          _ h9
                          λ _ c5 h10.
                            on_ok
                              (require
                                (all
                                  (λ p.
                                    leb_ℤ p.expires_at b.expires_at
                                    && ltb_ℤ b.created_at p.expires_at)
                                  b.parts)
                                value_error)
                              _ h10
                              λ _ c6 h11.
                                let same : record b {
                                  bundle_id = i;
                                  correlation_id = k;
                                  persona_id = p;
                                  group_id = g;
                                  topic_id = t;
                                  parts = sorted b.parts;
                                }
                                    ≡ c =
                                  ok-injective h11 in
                                record {
                                  parts = ap (λ (x : DeliveryBundle). x.parts) (sym same);
                                  part_ids = require-true _ value_error c2;
                                  keys = require-true _ value_error c3;
                                  orders = require-true _ value_error c4;
                                }
