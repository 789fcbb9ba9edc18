-- ===== src/Delivery/Outbox/Lifecycle.antt =====
-- `record_receipt` and `recover_inflight` keep valid tables valid, and let rows move only.
use mathlib.Core.List.{map-map}
use astrbot_plugin_groupmate.Prelude.{
  ℕ, ℤ, pos, negsuc, ltb_ℤ, String, ◌≡◌, refl, ap, ◌∙◌, true, Option, none, some, List, [], ◌∷◌,
  map, map_congr, All-intro, keep, find, Bool-cases, inl, inr, if◌then◌else◌, arith,
}
use astrbot_plugin_groupmate.Result.{
  raise, Exception, Result-cases, outbox_state_conflict, value_error,
}
use astrbot_plugin_groupmate.Exec.{
  Exec, pure, throw, lift, gets, transaction, for_each, ◌>>=◌, ◌>>◌,
}
use astrbot_plugin_groupmate.Delivery.Contracts.{
  DeliveryReceipt, DeliveryReceipt-discrete, create_receipt, delivery_text,
}
use astrbot_plugin_groupmate.Delivery.Database.{
  BundleRow, OutboxRow, JournalRow, Database, is_int64, has_id, is_sending, find_part, find_effect,
  find_joined, with_bundle,
}
use astrbot_plugin_groupmate.Delivery.Database.Valid.{IsValid}
use astrbot_plugin_groupmate.Delivery.Database.Evolution.{
  Evolves, Evolves-refl, Evolves-trans, map-Evolves, update-Evolves,
}
use astrbot_plugin_groupmate.Delivery.Outbox.{is_due, expire_ready}
use astrbot_plugin_groupmate.Delivery.Outbox.Receipt.{
  outbox, read_joined, target, journal_row, effect_id_of, set_receipt, settle, check_or_settle,
  record_receipt, recovery_receipt, recover_one, recover_inflight, outbox_all,
}
use astrbot_plugin_groupmate.Delivery.Outbox.Safe.{
  Safe, Safe-lift, Safe-lift_bind, Safe-pure, Safe-throw, Safe-gets, Safe-ite, Safe-bind,
  Safe-for_each, Safe-transaction,
}
use astrbot_plugin_groupmate.Delivery.Outbox.Expiry.{with_status-RowMoves, expire_ready-Evolves}
use astrbot_plugin_groupmate.Delivery.Outbox.Tables.{insert_journal-Safe}
use astrbot_plugin_groupmate.Delivery.Outbox.Expiry.{
  sweep-RowMoves, lapse, expire_ready-sweep, expire_ready_late,
}
use astrbot_plugin_groupmate.Delivery.Database.Sweep.{sweep}
use astrbot_plugin_groupmate.Delivery.Outbox.Recovery.{recover-sweep, interrupt, interrupt-RowMoves}

pub outbox-Safe : (part_id : String) → Safe (outbox part_id)
unfolding outbox
outbox-Safe part_id =
    Safe-bind (gets (find_joined part_id)) _ (Safe-gets _) λ joined. Safe-lift (read_joined joined)

outbox_all-Safe : (ids : List String) → Safe (outbox_all ids)
unfolding outbox_all
outbox_all-Safe [] = Safe-pure []
outbox_all-Safe (id ∷ ids) =
    Safe-bind (outbox id) _ (outbox-Safe id)
      λ part. Safe-bind (outbox_all ids) _ (outbox_all-Safe ids) λ rest. Safe-pure (part ∷ rest)

with_bundle-part :
    (db : Database) (found : Option OutboxRow) {row : OutboxRow} {b : BundleRow}
    → with_bundle db found ≡ some (row, b)
    → found ≡ some row
with_bundle-part db none h = absurd (cc)
with_bundle-part db (some r) h = ground arith

pub find_joined-part :
    (id : String) (db : Database) {row : OutboxRow} {b : BundleRow}
    → find_joined id db ≡ some (row, b)
    → find (has_id id) db.outbox ≡ some row
unfolding find_joined find_part
find_joined-part id db h = with_bundle-part db _ h

settle-at :
    (receipt : DeliveryReceipt) (joined : Option (OutboxRow × BundleRow)) (db : Database)
    → IsValid db
    → ((row : OutboxRow) (b : BundleRow)
        → joined ≡ some (row, b)
        → find (has_id receipt.part_id) db.outbox ≡ some row)
    → Evolves db (settle receipt joined db).1
settle-at receipt none db v h = Evolves-refl db v
settle-at receipt (some (row, b)) db v h = elim (Bool-cases (is_sending row.status)) [
  | inl hit ↦
      let change = set_receipt (target receipt.status) receipt in
      let moves = with_status-RowMoves row (change row) (ground arith) refl in
      let first = update-Evolves receipt.part_id change row db v (h row b refl) moves in
      rw hit (
        Evolves-trans db _ _ first
          ((insert_journal-Safe (journal_row receipt b.correlation_id)).at _ first.valid))
  | inr miss ↦ rw miss (Evolves-refl db v)
]

check_or_settle-Safe :
    (receipt : DeliveryReceipt) (prior : Option JournalRow) → Safe (check_or_settle receipt prior)
check_or_settle-Safe receipt none = record {
  at = λ db v.
      settle-at receipt (find_joined receipt.part_id db) db v
        (λ row b e. find_joined-part receipt.part_id db e);
}
check_or_settle-Safe receipt (some row) =
    Safe-ite (DeliveryReceipt-discrete row.effect_json receipt) (pure tt)
      (throw outbox_state_conflict) (Safe-pure tt) (Safe-throw outbox_state_conflict)

-- A receipt is recorded on valid tables, or they stay as they were.
pub record_receipt-Safe : (given : DeliveryReceipt) → Safe (record_receipt given)
unfolding record_receipt
record_receipt-Safe given = Safe-bind (lift (create_receipt given)) _ (Safe-lift _) λ receipt.
    Safe-bind _ _
      (Safe-transaction _ (
        Safe-bind (gets (find_effect (effect_id_of receipt))) _ (Safe-gets _)
          λ prior. check_or_settle-Safe receipt prior))
      λ _. outbox-Safe receipt.part_id

not-before-epoch :
    (r : DeliveryReceipt)
    → ltb_ℤ r.occurred_at (pos 0) ≡ true
    → (e : Exception) × (create_receipt r ≡ raise e)
unfolding create_receipt
not-before-epoch r h = elim (Result-cases (delivery_text r.receipt_id)) [
  | inr (e, c) ↦ (e, rw c)
  | inl (a, c) ↦ elim (Result-cases (delivery_text r.part_id)) [
    | inr (e, d) ↦ (e, rw (c, d))
    | inl (b, d) ↦ (value_error, rw (c, d, h))
  ]
]

early_recover_one-Safe : (k : ℕ) (id : String) → Safe (recover_one (negsuc k) id)
unfolding recover_one
early_recover_one-Safe k id =
    let (e, fails) = not-before-epoch (recovery_receipt id (negsuc k)) (ground arith) in
    Safe-lift_bind (create_receipt _) _ λ r h. absurd (cc)

-- what `recover_inflight` does before it commits
abbrev recover_all : ℤ → Exec Database (List String)
recover_all now = do
  ids ←
      gets (λ (db : Database).
        map (λ row. row.part_id) (keep (λ row. is_sending row.status) db.outbox))
  for_each (recover_one now) ids
  expire_ready now
  pure ids

recover_all-Safe : (now : ℤ) → Safe (recover_all now)
recover_all-Safe (negsuc k) = Safe-bind (gets _) _ (Safe-gets _) λ ids.
    Safe-bind (for_each (recover_one (negsuc k)) ids) _
      (Safe-for_each (recover_one (negsuc k)) ids (early_recover_one-Safe k))
      λ _.
        Safe-bind (expire_ready (negsuc k)) _ (record { at = expire_ready-Evolves (negsuc k) })
          λ _. Safe-pure ids
recover_all-Safe (pos n) = record {
  at = λ db v.
      let first =
        map-Evolves (sweep (λ r. is_sending r.status) (interrupt n)) db v
          (sweep-RowMoves (λ r. is_sending r.status) (interrupt n) (interrupt-RowMoves n)) in
      rw (recover-sweep n db v) (
        Evolves-trans db _ _ first (
          (Safe-bind (expire_ready (pos n)) _ (record { at = expire_ready-Evolves (pos n) })
              λ _.
                Safe-pure
                  (map (λ row. row.part_id) (keep (λ row. is_sending row.status) db.outbox))).at
            _ first.valid));
}

pub recover_inflight-Safe : (now : ℤ) → Safe (recover_inflight now)
unfolding recover_inflight
recover_inflight-Safe now =
    Safe-bind (transaction (recover_all now)) _ (Safe-transaction _ (recover_all-Safe now))
      outbox_all-Safe

outbox_all-database : (ids : List String) (db : Database) → (outbox_all ids db).1 ≡ db
unfolding outbox_all outbox
outbox_all-database [] db = refl
outbox_all-database (id ∷ ids) db = elim (Result-cases (read_joined (find_joined id db))) [
  | inr (e, fails) ↦ rw fails
  | inl (p, reads) ↦ rw reads (elim (Result-cases (outbox_all ids db).0) [
    | inr (e, fails) ↦ rw fails (outbox_all-database ids db)
    | inl (ps, rest) ↦ rw rest (outbox_all-database ids db)
  ])
]

-- What recovery makes of a row: a part that was being sent becomes unknown with a recovery receipt,
-- a waiting part that is due lapses, and every other row stays as it is.
abbrev pub recovered_row : ℕ → OutboxRow → OutboxRow
recovered_row now r =
    if is_sending r.status then interrupt now r else if is_due (pos now) r then lapse r else r

recovered_row-sweeps :
    (now : ℕ) (r : OutboxRow)
    → sweep (is_due (pos now)) lapse (sweep (λ x. is_sending x.status) (interrupt now) r)
      ≡ recovered_row now r
recovered_row-sweeps now r = elim (Bool-cases (is_sending r.status)) [
  | inl hit ↦ rw hit
  | inr miss ↦ rw miss
]

-- On valid tables, `recover_inflight` at a time of 64 bits makes each part that was being sent unknown,
-- with a receipt that says so, lets each waiting part that is due lapse, and changes nothing else; at
-- a later time it changes nothing.
pub recover_inflight-rows :
    (now : ℕ) (db : Database)
    → IsValid db
    → (recover_inflight (pos now) db).1 ≡ (
        if is_int64 (pos now) then record db { outbox = map (recovered_row now) db.outbox } else db)
unfolding recover_inflight
recover_inflight-rows now db v =
    let first =
      map-Evolves (sweep (λ r. is_sending r.status) (interrupt now)) db v
        (sweep-RowMoves (λ r. is_sending r.status) (interrupt now) (interrupt-RowMoves now)) in
    elim (Bool-cases (is_int64 (pos now))) [
      | inr outside ↦
          rw (recover-sweep now db v) (rw (expire_ready_late (pos now) _ outside) (rw outside refl))
      | inl fits ↦ rw (recover-sweep now db v) (
          rw (expire_ready-sweep (pos now) _ first.valid fits) (
            rw fits (
              outbox_all-database _ _
              ∙ ap (λ rows. record db { outbox = rows })
                  (map-map _ _ db.outbox
                    ∙ map_congr _ _ db.outbox (All-intro (recovered_row-sweeps now) db.outbox)))))
    ]
