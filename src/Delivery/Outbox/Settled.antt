-- ===== src/Delivery/Outbox/Settled.antt =====
-- What `record_receipt` does with a receipt that is new.
use astrbot_plugin_groupmate.Prelude.{
  String, not, ◌||◌, ◌==◌, ◌≡◌, refl, sym, ap, ◌∙◌, true, Option, none, some, List, [], ◌∷◌, find,
  any, Bool-cases, inl, inr, arith,
}
use astrbot_plugin_groupmate.Result.{
  ok, on_ok, ok-injective, require, require-true, outbox_state_conflict,
}
use astrbot_plugin_groupmate.Exec.{Exec, gets, transaction, on_lift, on_run, on_transaction, ◌>>=◌}
use astrbot_plugin_groupmate.Delivery.Contracts.{
  DeliveryReceipt, OutboxPart, create_part, create_receipt,
}
use astrbot_plugin_groupmate.Delivery.Contracts.Normal.{create_receipt-normal}
use astrbot_plugin_groupmate.Delivery.Database.{
  OutboxRow, BundleRow, JournalRow, Database, has_id, is_sending, find_part, find_bundle,
  find_effect, find_joined, with_bundle, insert_journal, update_part, is_int64,
}
use astrbot_plugin_groupmate.Delivery.Outbox.{bundle_from_dict, in_memory_part}
use astrbot_plugin_groupmate.Delivery.Outbox.Lifecycle.{find_joined-part}
use astrbot_plugin_groupmate.Delivery.Outbox.Receipt.{
  outbox, read_joined, receipt_from_json, effect_id_of, journal_row, set_receipt, target, settle,
  check_or_settle, record_receipt,
}
use astrbot_plugin_groupmate.Delivery.Outbox.Repeats.{same_result}

find-hit :
    (id : String) (r : OutboxRow) (rows : List OutboxRow)
    → has_id id r ≡ true
    → find (has_id id) (r ∷ rows) ≡ some r
unfolding find
find-hit id r rows h = simp h

find-update_part_eq :
    (id : String) (f : OutboxRow → OutboxRow) (rows : List OutboxRow) {t : OutboxRow}
    → ((r : OutboxRow) → (f r).part_id ≡ r.part_id)
    → find (has_id id) rows ≡ some t
    → find (has_id id) (update_part id f rows) ≡ some (f t)
unfolding find update_part
find-update_part_eq id f [] k h = absurd (cc)
find-update_part_eq id f (r ∷ rows) {t} k h = elim (Bool-cases (has_id id r)) [
  | inl hit ↦
      let same : r ≡ t = ground arith in
      rw hit (find-hit id (f r) _ (ap (λ s. s == id) (k r) ∙ hit) ∙ ap (λ x. some (f x)) same)
  | inr miss ↦ rw miss (rw miss (find-update_part_eq id f rows k (rw miss at h)))
]

-- The part that is read has its row's status and receipt.
read-row :
    (found : Option BundleRow) (row : OutboxRow) (receipt : DeliveryReceipt) {part : OutboxPart}
    → row.receipt_json ≡ some receipt
    → create_receipt receipt ≡ ok receipt
    → read_joined (elim found [ none ↦ none | some b ↦ some (row, b) ]) ≡ ok part
    → (part.status ≡ row.status) × (part.receipt ≡ some receipt)
unfolding in_memory_part receipt_from_json
read-row none row receipt e n h = absurd (cc)
read-row (some b) row receipt e n h = on_ok (bundle_from_dict b.bundle_json) _ h λ bundle _ h1.
    on_ok (receipt_from_json row.receipt_json) _ h1 λ r hr h2.
      on_ok (create_part row.payload_json) _ h2 λ p _ h3.
        let made = ok-injective h3 in
        let read : receipt_from_json (some receipt) ≡ ok r = rw e at hr in
        let same : r ≡ some receipt =
          on_ok (create_receipt receipt) _ read
            λ q hq h4. sym (ok-injective h4) ∙ ap (λ x. some x) (ok-injective (sym hq ∙ n)) in
        (
          sym (ap (λ (x : OutboxPart). x.status) made),
          sym (ap (λ (x : OutboxPart). x.receipt) made) ∙ same,
        )

insert_journal-tables :
    (j : JournalRow) (db : Database) {db' : Database}
    → insert_journal j db ≡ (ok tt, db')
    → (db'.outbox ≡ db.outbox) × (db'.bundles ≡ db.bundles)
unfolding insert_journal
insert_journal-tables j db h =
    elim (Bool-cases
      (not (is_int64 j.committed_at) || any (λ r. r.effect_id == j.effect_id) db.journal)) [
        | inl clash ↦ absurd (cc (rw clash at h))
        | inr fresh ↦
            let e = (same_result (rw fresh at h)).1 in
            (sym (ap (λ (x : Database). x.outbox) e), sym (ap (λ (x : Database). x.bundles) e))
      ]

-- What a new receipt leaves: the one part that it names was being sent, and has the receipt now.
pub record IsSettled (receipt : DeliveryReceipt) (db db' : Database) : Type 0 where
  pub row : OutboxRow
  pub before : find_part receipt.part_id db ≡ some row
  pub was_sending : is_sending row.status ≡ true
  pub outbox_table :
      db'.outbox
      ≡ update_part receipt.part_id (set_receipt (target receipt.status) receipt) db.outbox

settle-IsSettled :
    (receipt : DeliveryReceipt) (joined : Option (OutboxRow × BundleRow)) (db : Database)
    {db' : Database}
    → find_joined receipt.part_id db ≡ joined
    → settle receipt joined db ≡ (ok tt, db')
    → IsSettled receipt db db'
unfolding find_part
settle-IsSettled receipt none db e h = absurd (cc)
settle-IsSettled receipt (some (row, b)) db e h =
    on_lift (require (is_sending row.status) outbox_state_conflict) _ {s = db} h λ _ hs h1. record {
      row = row;
      before = find_joined-part receipt.part_id db e;
      was_sending = require-true (is_sending row.status) outbox_state_conflict hs;
      outbox_table = (insert_journal-tables (journal_row receipt b.correlation_id) _ h1).0;
    }

-- When `record_receipt` accepts a receipt that is not in the journal, the part that the receipt
-- names was being sent, only its row changes, by the receipt and the status that the receipt's
-- status stands for, and the part that is returned has that status and that receipt.
pub record_receipt-settles :
    (given receipt : DeliveryReceipt) (db : Database) {db' : Database} {part : OutboxPart}
    → create_receipt given ≡ ok receipt
    → find_effect (effect_id_of receipt) db ≡ none
    → record_receipt given db ≡ (ok part, db')
    → IsSettled receipt db db'
      × (part.status ≡ target receipt.status)
      × (part.receipt ≡ some receipt)
unfolding record_receipt outbox find_joined find_part
record_receipt-settles given receipt db {db'} {part} hr fresh h =
    let body : Exec Database (Unit {0}) = (do
      prior ← gets (find_effect (effect_id_of receipt))
      check_or_settle receipt prior) in
    on_run (transaction body) (λ _. outbox receipt.part_id) {s = db} (rw hr at h)
      λ _ mid ht h2. on_transaction body {s = db} ht λ hb.
        let done =
          settle-IsSettled receipt (find_joined receipt.part_id db) db refl (rw fresh at hb) in
        let change = set_receipt (target receipt.status) receipt in
        let now_there : find (has_id receipt.part_id) mid.outbox ≡ some (change done.row) =
          rw done.outbox_table
            (find-update_part_eq receipt.part_id change db.outbox (λ r. refl) done.before) in
        let read : read_joined (with_bundle mid (some (change done.row))) ≡ ok part =
          rw now_there at (ap (λ x. x.0) h2) in
        let seen =
          read-row (find_bundle (change done.row).bundle_id mid) (change done.row) receipt refl
            (create_receipt-normal given receipt hr) read in
        rw (← ap (λ x. x.1) h2) (done, seen.0, seen.1)
