-- ===== src/Delivery/Outbox/Commit.antt =====
-- What `_bundle_from_dict` returns, and `commit_bundle` on valid tables.
use astrbot_plugin_groupmate.Prelude.{
  ◌≡◌, refl, sym, subst, not, Option, none, some, List, [], ◌∷◌, any, All, sort_by-All,
}
use astrbot_plugin_groupmate.Result.{
  ok, require, on_ok, then_ok, ok-injective, traverse, bundle_identity_conflict,
  outbox_authorization_error, unsupported_delivery_part,
}
use astrbot_plugin_groupmate.Exec.{throw, lift, gets, for_each}
use astrbot_plugin_groupmate.Delivery.Contracts.{
  DeliveryPart, DeliveryBundle, DeliveryBundle-discrete, by_order, create_part,
}
use astrbot_plugin_groupmate.Delivery.Contracts.Normal.{create_part-normal}
use astrbot_plugin_groupmate.Delivery.Contracts.Bundles.{
  create_bundle-IsCreated, create_bundle-normal,
}
use astrbot_plugin_groupmate.Delivery.Database.{BundleRow, insert_row, insert_bundle, find_bundle}
use astrbot_plugin_groupmate.Delivery.Outbox.{
  OutboxService, is_authorized, bundle_from_dict, bundle_row, part_row, store_or_return,
  commit_bundle, suppress_replaced_progress,
}
use astrbot_plugin_groupmate.Delivery.Outbox.Safe.{
  Safe, Safe-lift, Safe-lift_bind, Safe-pure, Safe-throw, Safe-gets, Safe-ite, Safe-bind,
  Safe-for_each_of, Safe-transaction, Safe-unique_as_conflict,
}
use astrbot_plugin_groupmate.Delivery.Outbox.Expiry.{suppress_replaced_progress-Evolves}
use astrbot_plugin_groupmate.Delivery.Outbox.Tables.{insert_bundle-Safe, insert_row-Safe}

-- A part that reads back as itself.
abbrev pub IsNormal : DeliveryPart → Type 0
IsNormal p = create_part p ≡ ok p

traverse-IsNormal : (ps qs : List DeliveryPart) → traverse create_part ps ≡ ok qs → All IsNormal qs
unfolding traverse
traverse-IsNormal [] qs h = subst (All IsNormal) (ok-injective h) tt
traverse-IsNormal (p ∷ ps) qs h = on_ok (create_part p) _ h λ q hq h1.
    on_ok (traverse create_part ps) _ h1 λ rest hr h2.
      subst (All IsNormal) (ok-injective h2)
        (create_part-normal p q hq, traverse-IsNormal ps rest hr)

traverse_of_IsNormal : (ps : List DeliveryPart) → All IsNormal ps → traverse create_part ps ≡ ok ps
unfolding traverse
traverse_of_IsNormal [] h = refl
traverse_of_IsNormal (p ∷ ps) h = then_ok _ h.0 (then_ok _ (traverse_of_IsNormal ps h.1) refl)

pub bundle_from_dict-parts :
    (b c : DeliveryBundle) → bundle_from_dict b ≡ ok c → All IsNormal c.parts
unfolding bundle_from_dict
bundle_from_dict-parts b c h = on_ok (traverse create_part b.parts) _ h λ parts hp h1.
    let made = create_bundle-IsCreated (record b { parts = parts }) c h1 in
    subst (All IsNormal) (sym made.parts)
      (sort_by-All by_order IsNormal parts (traverse-IsNormal b.parts parts hp))

-- A bundle that `_bundle_from_dict` returned is read back as itself, with all its parts.
pub bundle_from_dict-normal :
    (b c : DeliveryBundle) → bundle_from_dict b ≡ ok c → bundle_from_dict c ≡ ok c
bundle_from_dict-normal b c h =
    let parts = traverse_of_IsNormal c.parts (bundle_from_dict-parts b c h) in
    unfold bundle_from_dict in
    on_ok (traverse create_part b.parts) _ h
      λ ps hp h1. then_ok _ parts (create_bundle-normal (record b { parts = ps }) c h1)

insert_parts-Safe :
    (b : DeliveryBundle)
    → All IsNormal b.parts
    → Safe (for_each (λ p. insert_row (part_row b p)) b.parts)
insert_parts-Safe b normal =
    Safe-for_each_of IsNormal (λ p. insert_row (part_row b p)) b.parts normal
      λ p h.
        insert_row-Safe (part_row b p)
          (record { part_id = refl; idempotency_key = refl; expires_at = refl; readable = h })

store_or_return-Safe :
    (b : DeliveryBundle) (prior : Option BundleRow)
    → All IsNormal b.parts
    → bundle_from_dict b ≡ ok b
    → Safe (store_or_return b prior)
store_or_return-Safe b (some row) normal readable =
    Safe-ite (DeliveryBundle-discrete row.bundle_json b) (lift (bundle_from_dict row.bundle_json))
      (throw bundle_identity_conflict) (Safe-lift _) (Safe-throw bundle_identity_conflict)
store_or_return-Safe b none normal readable =
    Safe-bind (suppress_replaced_progress b) _
      (record { at = suppress_replaced_progress-Evolves b })
      λ _.
        Safe-bind (insert_bundle (bundle_row b)) _ (insert_bundle-Safe (bundle_row b) readable) λ _.
          Safe-bind (for_each (λ p. insert_row (part_row b p)) b.parts) _
            (insert_parts-Safe b normal) λ _. Safe-pure b

pub commit_bundle-Safe : (svc : OutboxService) (b : DeliveryBundle) → Safe (commit_bundle svc b)
unfolding commit_bundle
commit_bundle-Safe svc given = Safe-lift_bind (bundle_from_dict given) _ λ b h.
    Safe-lift_bind (is_authorized svc b) _ λ allowed _.
      Safe-lift_bind (require allowed outbox_authorization_error) _ λ _ _.
        Safe-lift_bind
          (require (not (any (λ p. not (svc.supported_part_kinds p.kind)) b.parts))
            unsupported_delivery_part)
          _
          λ _ _. Safe-unique_as_conflict _ (
            Safe-transaction _ (
              Safe-bind (gets (find_bundle b.bundle_id)) _ (Safe-gets _) λ prior.
                store_or_return-Safe b prior (bundle_from_dict-parts given b h)
                  (bundle_from_dict-normal given b h)))
