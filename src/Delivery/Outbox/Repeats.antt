-- ===== src/Delivery/Outbox/Repeats.antt =====
-- Calls of `commit_bundle` and `record_receipt` that are repeated change nothing.
use astrbot_plugin_groupmate.Prelude.{
  not, ◌||◌, String, ◌==◌, text_eq_refl, ite, ◌≡◌, refl, ap, true, false, Option, none, some, List,
  [], ◌∷◌, ◌++◌, any, find, Bool-cases, inl, inr, arith,
}
use astrbot_plugin_groupmate.Result.{ok, ok-injective, require, outbox_state_conflict}
use astrbot_plugin_groupmate.Exec.{
  Exec, pure, throw, gets, transaction, on_lift, on_run, on_transaction, ◌>>=◌,
}
use astrbot_plugin_groupmate.Delivery.Contracts.{
  DeliveryReceipt, DeliveryReceipt-discrete, OutboxPart, create_receipt,
}
use astrbot_plugin_groupmate.Delivery.Database.{
  OutboxRow, BundleRow, JournalRow, Database, is_sending, find_effect, find_joined, insert_journal,
  is_int64,
}
use astrbot_plugin_groupmate.Delivery.Outbox.Receipt.{
  outbox, read_joined, effect_id_of, journal_row, settle, check_or_settle, record_receipt,
}

pub same_result : {S A : Type 0} {a b : A} {s t : S} → pure a s ≡ pure b t → (a ≡ b) × (s ≡ t)
same_result h = (ok-injective (ap (λ x. x.0) h), ap (λ x. x.1) h)

pub ite_same :
    {A : Type 0} {x y : A} (d : Dec (x ≡ y)) {B : Type 0} (m n : B) → x ≡ y → ite d m n ≡ m
ite_same (yes p) m n e = refl
ite_same (no p) m n e = absurd (p e)

find-snoc :
    (id : String) (js : List JournalRow) (j : JournalRow)
    → any (λ r. r.effect_id == id) js ≡ false
    → (j.effect_id == id) ≡ true
    → find (λ r. r.effect_id == id) (js ++ j ∷ []) ≡ some j
unfolding find any
find-snoc id [] j h k = rw k
find-snoc id (i ∷ js) j h k = ground (arith, find-snoc id js j)

-- A receipt that was inserted is found.
insert_journal-found :
    (receipt : DeliveryReceipt) (cid : String) (db : Database) {db' : Database}
    → insert_journal (journal_row receipt cid) db ≡ (ok tt, db')
    → find_effect (effect_id_of receipt) db' ≡ some (journal_row receipt cid)
unfolding insert_journal find_effect
insert_journal-found receipt cid db h =
    elim (Bool-cases (
      not (is_int64 receipt.occurred_at)
      || any (λ r. r.effect_id == effect_id_of receipt) db.journal)) [
        | inl clash ↦ absurd (cc (rw clash at h))
        | inr fresh ↦ rw (← (same_result (rw fresh at h)).1) (
            find-snoc (effect_id_of receipt) db.journal (journal_row receipt cid) (ground arith)
              (text_eq_refl (effect_id_of receipt)))
      ]

-- A receipt that was settled is in the journal.
settle-found :
    (receipt : DeliveryReceipt) (joined : Option (OutboxRow × BundleRow)) (db : Database)
    {db' : Database}
    → settle receipt joined db ≡ (ok tt, db')
    → (row : JournalRow) × (find_effect (effect_id_of receipt) db' ≡ some row)
      × (row.effect_json ≡ receipt)
settle-found receipt none db h = absurd (cc)
settle-found receipt (some (row, b)) db h =
    on_lift (require (is_sending row.status) outbox_state_conflict) _ h λ _ _ h1. (
      journal_row receipt b.correlation_id,
      insert_journal-found receipt b.correlation_id _ h1,
      refl,
    )

-- Whether new or not, a receipt that was accepted is in the journal.
check-found :
    (receipt : DeliveryReceipt) (prior : Option JournalRow) (db : Database) {db' : Database}
    → find_effect (effect_id_of receipt) db ≡ prior
    → check_or_settle receipt prior db ≡ (ok tt, db')
    → (row : JournalRow) × (find_effect (effect_id_of receipt) db' ≡ some row)
      × (row.effect_json ≡ receipt)
check-found receipt none db e h = settle-found receipt (find_joined receipt.part_id db) db h
check-found receipt (some row) db {db'} e h =
    decide (DeliveryReceipt-discrete row.effect_json receipt) h
  where
    decide :
        (d : Dec (row.effect_json ≡ receipt))
        → ite d (pure tt) (throw outbox_state_conflict) db ≡ (ok tt, db')
        → (j : JournalRow) × (find_effect (effect_id_of receipt) db' ≡ some j)
          × (j.effect_json ≡ receipt)
    decide (yes same) k = (row, rw (← (same_result k).1) e, same)
    decide (no other) k = absurd (cc)

-- A receipt that `record_receipt` accepted is accepted again: the second call returns the same part
-- and leaves the tables as they are.
pub record_receipt-again :
    (given : DeliveryReceipt) (db : Database) {db' : Database} {part : OutboxPart}
    → record_receipt given db ≡ (ok part, db')
    → record_receipt given db' ≡ (ok part, db')
unfolding record_receipt outbox
record_receipt-again given db {db'} {part} h = on_lift (create_receipt given) _ h λ receipt hr h1.
    let body : Exec Database (Unit {0}) = (do
      prior ← gets (find_effect (effect_id_of receipt))
      check_or_settle receipt prior) in
    on_run (transaction body) _ {s = db} h1 λ u mid ht h2. on_transaction body {s = db} ht λ hb.
      let hp : read_joined (find_joined receipt.part_id mid) ≡ ok part = ap (λ x. x.0) h2 in
      let (row, found, same) =
        check-found receipt (find_effect (effect_id_of receipt) db) db refl hb in
      rw (← ap (λ x. x.1) h2) (
        rw
          (
            hr,
            found,
            ite_same (DeliveryReceipt-discrete row.effect_json receipt) (pure {S = Database} tt)
                (throw outbox_state_conflict) same,
          )
          (ap (λ r. (r, mid)) hp))
