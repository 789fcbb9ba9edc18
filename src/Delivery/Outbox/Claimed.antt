-- ===== src/Delivery/Outbox/Claimed.antt =====
-- What `claim_ready` claims: ready parts that have not expired, behind settled siblings.
use astrbot_plugin_groupmate.Prelude.{
  ℤ, pos, leb_ℤ, String, ◌==◌, refl, not, none, List, [], ◌∷◌, ◌++◌, length, any, keep, Bool-cases,
  inl, inr, if◌then◌else◌, arith,
}
use astrbot_plugin_groupmate.Exec.{pure, lift, gets}
use astrbot_plugin_groupmate.Delivery.Contracts.{sending, OutboxPart, create_part}
use astrbot_plugin_groupmate.Delivery.Database.{BundleRow, OutboxRow, ready_joined}
use astrbot_plugin_groupmate.Delivery.Database.Rows.{RowMoves, RowMoves-refl}
use astrbot_plugin_groupmate.Delivery.Database.Evolution.{map-Evolves}
use astrbot_plugin_groupmate.Delivery.Outbox.{
  OutboxService, is_authorized, bundle_from_dict, in_memory_part, expire_ready,
}
use astrbot_plugin_groupmate.Delivery.Outbox.Claim.{
  earlier_statuses, is_settled, is_ready_part, start_sending, mark_sending, claim_row, claim_rows,
  claim_ready,
}
use astrbot_plugin_groupmate.Delivery.Outbox.Safe.{
  Safe, Safe-lift, Safe-pure, Safe-gets, Safe-if, Safe-bind, Safe-transaction,
}
use astrbot_plugin_groupmate.Delivery.Outbox.Expiry.{with_status-RowMoves, expire_ready-Evolves}

start_sending-RowMoves : (id : String) (r : OutboxRow) → RowMoves r (start_sending id r)
start_sending-RowMoves id r = elim (Bool-cases (is_ready_part id r)) [
  | inl hit ↦ rw hit (with_status-RowMoves r (record r { status = sending }) (ground arith) refl)
  | inr miss ↦ rw miss (RowMoves-refl r)
]

pub mark_sending-Safe : (id : String) → Safe (mark_sending id)
unfolding mark_sending
mark_sending-Safe id = record {
  at = λ db v. map-Evolves (start_sending id) db v (start_sending-RowMoves id);
}

pub claim_row-Safe : (svc : OutboxService) (x : OutboxRow × BundleRow) → Safe (claim_row svc x)
unfolding claim_row
claim_row-Safe svc (row, b) =
    Safe-bind (lift (bundle_from_dict b.bundle_json)) _ (Safe-lift _) λ bundle.
      Safe-bind (lift (is_authorized svc bundle)) _ (Safe-lift _) λ authorized.
        Safe-if (not authorized) (pure []) _ (Safe-pure []) (
          Safe-bind (lift (create_part row.payload_json)) _ (Safe-lift _) λ part.
            Safe-bind (gets (λ db. keep (λ r. r.bundle_id == row.bundle_id) db.outbox)) _
              (Safe-gets _)
              λ siblings.
                Safe-bind (lift (earlier_statuses part.order siblings)) _ (Safe-lift _) λ earlier.
                  Safe-if (any (λ s. not (is_settled s)) earlier) (pure []) _ (Safe-pure []) (
                    Safe-bind (mark_sending part.part_id) _ (mark_sending-Safe part.part_id)
                      λ changed.
                        Safe-pure
                          (if changed then in_memory_part bundle part sending none ∷ [] else [])))

claim_rows-Safe :
    (svc : OutboxService) (limit : ℤ) (rows : List (OutboxRow × BundleRow))
    (claimed : List OutboxPart)
    → Safe (claim_rows svc limit rows claimed)
unfolding claim_rows
claim_rows-Safe svc limit [] claimed = Safe-pure claimed
claim_rows-Safe svc limit (x ∷ rows) claimed =
    Safe-if (leb_ℤ limit (pos (length claimed))) (pure claimed) _ (Safe-pure claimed) (
      Safe-bind (claim_row svc x) _ (claim_row-Safe svc x)
        λ got. claim_rows-Safe svc limit rows (claimed ++ got))

-- Claiming keeps the tables valid, and lets rows move only.
pub claim_ready-Safe : (svc : OutboxService) (now limit : ℤ) → Safe (claim_ready svc now limit)
unfolding claim_ready
claim_ready-Safe svc now limit = Safe-bind (lift _) _ (Safe-lift _) λ _. Safe-transaction _ (
    Safe-bind (expire_ready now) _ (record { at = expire_ready-Evolves now })
      λ _.
        Safe-bind (gets (λ db. ready_joined db.outbox db.bundles)) _ (Safe-gets _)
          λ rows. claim_rows-Safe svc limit rows [])
