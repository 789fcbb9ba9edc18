-- ===== src/Delivery/Outbox/Committed.antt =====
-- `commit_bundle` called again with a bundle that it has committed.
use astrbot_plugin_groupmate.Prelude.{
  String, ◌==◌, text_eq_refl, ite, ◌≡◌, refl, sym, ap, ◌∙◌, true, false, not, ◌||◌, Option, none,
  some, List, [], ◌∷◌, ◌++◌, any, find, Bool-cases, inl, inr, arith,
}
use astrbot_plugin_groupmate.Result.{
  Result, ok, raise, ok-injective, require, outbox_authorization_error, unsupported_delivery_part,
  bundle_identity_conflict, Result-cases,
}
use astrbot_plugin_groupmate.Exec.{
  Exec, pure, throw, lift, gets, transaction, for_each, on_lift, on_run, on_transaction, ◌>>=◌,
}
use astrbot_plugin_groupmate.Delivery.Contracts.{
  DeliveryPart, DeliveryBundle, DeliveryBundle-discrete,
}
use astrbot_plugin_groupmate.Delivery.Database.{
  BundleRow, Database, find_bundle, insert_bundle, insert_row, is_int64,
}
use astrbot_plugin_groupmate.Delivery.Outbox.{
  OutboxService, is_authorized, bundle_from_dict, bundle_row, part_row, conflict_result,
  unique_as_conflict, store_or_return, commit_bundle, suppress_replaced_progress,
}
use astrbot_plugin_groupmate.Delivery.Outbox.Commit.{bundle_from_dict-normal}
use astrbot_plugin_groupmate.Delivery.Outbox.Tables.{insert_row-tables}
use astrbot_plugin_groupmate.Delivery.Outbox.Repeats.{same_result, ite_same}

on_unique {ℓ} :
    {A : Type 0} {C : Type ℓ} (m : Exec Database A) {s t : Database} {a : A}
    → unique_as_conflict m s ≡ (ok a, t)
    → (m s ≡ (ok a, t) → C)
    → C
on_unique {A = A} {C = C} m {s} {t} {a} h next = split (m s) next refl h
  where
    split :
        (x : Result A × Database)
        → (m s ≡ (ok a, t) → C)
        → m s ≡ x
        → (conflict_result x.0, x.1) ≡ pure a t
        → C
    split (ok b, u) k e h = k (e ∙ h)
    split (raise x, u) k e h = absurd (cc)

find-snoc_bundle :
    (id : String) (bs : List BundleRow) (b : BundleRow)
    → any (λ r. r.bundle_id == id) bs ≡ false
    → (b.bundle_id == id) ≡ true
    → find (λ r. r.bundle_id == id) (bs ++ b ∷ []) ≡ some b
unfolding find any
find-snoc_bundle id [] b h k = rw k
find-snoc_bundle id (i ∷ bs) b h k = ground (arith, find-snoc_bundle id bs b)

insert_bundle-found :
    (row : BundleRow) (db : Database) {db' : Database}
    → insert_bundle row db ≡ (ok tt, db')
    → find_bundle row.bundle_id db' ≡ some row
unfolding insert_bundle find_bundle
insert_bundle-found row db h =
    elim (Bool-cases
      (not (is_int64 row.expires_at) || any (λ r. r.bundle_id == row.bundle_id) db.bundles)) [
        | inl clash ↦ absurd (cc (rw clash at h))
        | inr fresh ↦ rw (← (same_result (rw fresh at h)).1) (
            find-snoc_bundle row.bundle_id db.bundles row (ground arith)
              (text_eq_refl row.bundle_id))
      ]

-- Inserting parts leaves the bundles alone.
insert_parts-bundles :
    (b : DeliveryBundle) (ps : List DeliveryPart) (db : Database)
    → (for_each (λ p. insert_row (part_row b p)) ps db).1.bundles ≡ db.bundles
unfolding for_each
insert_parts-bundles b [] db = refl
insert_parts-bundles b (p ∷ ps) db =
    let same = (insert_row-tables (part_row b p) db).0 in
    elim (Result-cases (insert_row (part_row b p) db).0) [
      | inl (u, e) ↦ rw e (insert_parts-bundles b ps _ ∙ same)
      | inr (x, e) ↦ rw e same
    ]

-- What a successful `store_or_return` leaves: the bundle is stored, and it is what was returned.
abbrev IsStored : DeliveryBundle → DeliveryBundle → Database → Type 0
IsStored b result db =
    (result ≡ b)
    × ((row : BundleRow) × (find_bundle b.bundle_id db ≡ some row) × (row.bundle_json ≡ b))

store_or_return-IsStored :
    (b : DeliveryBundle) (prior : Option BundleRow) (db : Database) {db' : Database}
    {result : DeliveryBundle}
    → bundle_from_dict b ≡ ok b
    → find_bundle b.bundle_id db ≡ prior
    → store_or_return b prior db ≡ (ok result, db')
    → IsStored b result db'
unfolding find_bundle
store_or_return-IsStored b none db n e h =
    on_run (suppress_replaced_progress b) _ {s = db} h λ _ d1 h1 k1.
      on_run (insert_bundle (bundle_row b)) _ {s = d1} k1 λ _ d2 h2 k2.
        on_run (for_each (λ p. insert_row (part_row b p)) b.parts) _ {s = d2} k2 λ _ d3 h3 k3.
          let done = same_result {s = d3} k3 in
          let kept : d3.bundles ≡ d2.bundles =
            sym (ap (λ x. x.1.bundles) h3) ∙ insert_parts-bundles b b.parts d2 in
          (
            sym done.0,
            (
              bundle_row b,
              rw (← done.1)
                  (rw kept (unfold find_bundle in insert_bundle-found (bundle_row b) d1 h2)),
              refl,
            ),
          )
store_or_return-IsStored b (some row) db {db'} {result} n e h =
    decide (DeliveryBundle-discrete row.bundle_json b) h
  where
    decide :
        (d : Dec (row.bundle_json ≡ b))
        → ite d (lift (bundle_from_dict row.bundle_json)) (throw bundle_identity_conflict) db
          ≡ (ok result, db')
        → IsStored b result db'
    decide (yes same) k =
        let read : bundle_from_dict row.bundle_json ≡ ok result = ap (λ x. x.0) k in
        (ok-injective (sym (rw same at read) ∙ n), (row, rw (← ap (λ x. x.1) k) e, same))
    decide (no other) k = absurd (cc)

-- A bundle that `commit_bundle` accepted is accepted again: the second call returns the same bundle
-- and leaves the tables as they are.
pub commit_bundle-again :
    (svc : OutboxService) (given : DeliveryBundle) (db : Database) {db' : Database}
    {result : DeliveryBundle}
    → commit_bundle svc given db ≡ (ok result, db')
    → commit_bundle svc given db' ≡ (ok result, db')
unfolding commit_bundle
commit_bundle-again svc given db {db'} {result} h = on_lift (bundle_from_dict given) _ h λ b hb h1.
    on_lift (is_authorized svc b) _ {s = db} h1 λ allowed hq h1'.
      on_lift (require allowed outbox_authorization_error) _ {s = db} h1' λ _ ha h2.
        on_lift
          (require (not (any (λ p. not (svc.supported_part_kinds p.kind)) b.parts))
            unsupported_delivery_part)
          _ {s = db} h2
          λ _ hk h3.
            let body : Exec Database DeliveryBundle = (do
              prior ← gets (find_bundle b.bundle_id)
              store_or_return b prior) in
            on_unique (transaction body) {s = db} h3 λ h4. on_transaction body {s = db} h4 λ h5.
              let n = bundle_from_dict-normal given b hb in
              let (same, (row, found, stored)) =
                store_or_return-IsStored b (find_bundle b.bundle_id db) db n refl h5 in
              rw (
                hb,
                hq,
                ha,
                hk,
                found,
                ite_same (DeliveryBundle-discrete row.bundle_json b)
                    (lift {S = Database} (bundle_from_dict row.bundle_json))
                    (throw bundle_identity_conflict) stored,
                stored,
                n,
                same,
              )
