-- ===== src/Delivery/Outbox/Snapshot.antt =====
-- The rows that the claiming loop runs over: ready rows that have not expired.
use astrbot_plugin_groupmate.Prelude.{
  ℤ, ltb_ℤ, ◌==◌, text_eq, text_eq_refl, sym, refl, Among, All-map_of, ◌≡◌, true, false, ◌&&◌, some,
  List, [], ◌∷◌, map, All, All-append, keep, find, Bool-cases, inl, inr, arith,
}
use astrbot_plugin_groupmate.Delivery.Contracts.{distinct}
use astrbot_plugin_groupmate.Delivery.Database.{
  BundleRow, OutboxRow, has_id, is_ready, ready_joined,
}
use astrbot_plugin_groupmate.Delivery.Database.Valid.{ids}
use astrbot_plugin_groupmate.Delivery.Database.Sweep.{sweep, fresh-head, widen}
use astrbot_plugin_groupmate.Delivery.Outbox.{is_due}
use astrbot_plugin_groupmate.Delivery.Outbox.Expiry.{lapse}

-- After expiry no waiting row is due.
pub none-due :
    (now : ℤ) (rows : List OutboxRow)
    → All (λ r. is_due now r ≡ false) (map (sweep (is_due now) lapse) rows)
none-due now [] = tt
none-due now (r ∷ rows) = (swept now r, none-due now rows)
  where
    swept : (now : ℤ) (r : OutboxRow) → is_due now (sweep (is_due now) lapse r) ≡ false
    swept now r = elim (Bool-cases (is_due now r)) [
      | inl hit ↦ rw hit (ground arith)
      | inr miss ↦ rw miss miss
    ]

pub in-time :
    (now : ℤ) (r : OutboxRow)
    → is_due now r ≡ false
    → is_ready r.status ≡ true
    → ltb_ℤ now r.expires_at ≡ true
in-time now r h k = ground arith

-- Each row of a table with distinct ids is the one that its id finds.
pub find-own_id :
    (rows : List OutboxRow)
    → distinct (ids rows) ≡ true
    → All (λ t. find (has_id t.part_id) rows ≡ some t) rows
find-own_id [] d = tt
find-own_id (r ∷ rows) d =
    let (fresh, rest) = fresh-head r rows d in
    (unfold find in rw (text_eq_refl r.part_id), widen r rows rows fresh (find-own_id rows rest))

module _ (P : OutboxRow → Type 0) where
  of_bundle :
      (b : BundleRow) (rows : List OutboxRow)
      → All P rows
      → All
          (λ (x : OutboxRow × BundleRow).
            P x.0 × (is_ready x.0.status ≡ true) × (x.1 ≡ b) × (x.1.bundle_id ≡ x.0.bundle_id))
          (map
            (λ row. (row, b))
            (keep (λ row. row.bundle_id == b.bundle_id && is_ready row.status) rows))
  unfolding keep
  of_bundle b [] h = tt
  of_bundle b (r ∷ rows) h = elim (Bool-cases (r.bundle_id == b.bundle_id && is_ready r.status)) [
    | inl hit ↦ rw hit (
      (h.0, ground arith, refl, sym ((text_eq r.bundle_id b.bundle_id).0 (ground arith))),
      of_bundle b rows h.1,
    )
    | inr miss ↦ rw miss (of_bundle b rows h.1)
  ]

  -- What all rows have, the joined ones have, which are ready and joined with their own bundle.
  pub ready_joined-All :
      (rows : List OutboxRow) (bs : List BundleRow)
      → All P rows
      → All
          (λ (x : OutboxRow × BundleRow).
            P x.0 × (is_ready x.0.status ≡ true) × Among x.1 bs × (x.1.bundle_id ≡ x.0.bundle_id))
          (ready_joined rows bs)
  unfolding ready_joined
  ready_joined-All rows [] h = tt
  ready_joined-All rows (b ∷ bs) h =
      All-append
        (λ (x : OutboxRow × BundleRow).
          P x.0
          × (is_ready x.0.status ≡ true)
          × Among x.1 (b ∷ bs)
          × (x.1.bundle_id ≡ x.0.bundle_id))
        _ (ready_joined rows bs)
        (All-map_of (λ x (p, ready, same, own). (p, ready, inl same, own)) _ (of_bundle b rows h))
        (All-map_of (λ x (p, ready, there, own). (p, ready, inr there, own)) _
          (ready_joined-All rows bs h))
