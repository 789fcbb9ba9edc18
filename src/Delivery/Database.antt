-- ===== src/Delivery/Database.antt =====
-- The tables that the outbox reads and writes (groupmate/social_runtime/persistence/schema.py), in
-- row order. A JSON column holds the value that its canonical JSON encodes, so that two texts are
-- equal exactly when the values are, and reading one back runs the `create` of its contract.
pub mod Rows
pub mod Valid
pub mod Evolution
pub mod Sweep
use astrbot_plugin_groupmate.Prelude.{
  ℤ, pos, negsuc, leb_ℤ, not, String, ◌==◌, Bool, true, false, ◌&&◌, ◌||◌, Option, none, some, List,
  [], ◌∷◌, ◌++◌, map, any, keep, find, if◌then◌else◌,
}
use astrbot_plugin_groupmate.Result.{Exception, ok, raise, integrity_error, overflow_error}
use astrbot_plugin_groupmate.Exec.{Exec}
use astrbot_plugin_groupmate.Delivery.Contracts.{
  DeliveryPart, DeliveryBundle, DeliveryReceipt, OutboxStatus, planned, ready, sending,
}

-- delivery_bundles
pub record BundleRow : Type 0 where
  pub bundle_id : String
  pub correlation_id : String
  pub persona_id : String
  pub group_id : String
  pub status : OutboxStatus
  pub bundle_json : DeliveryBundle
  pub expires_at : ℤ

-- outbox
pub record OutboxRow : Type 0 where
  pub part_id : String
  pub bundle_id : String
  pub persona_id : String
  pub group_id : String
  pub idempotency_key : String
  pub status : OutboxStatus
  pub payload_json : DeliveryPart
  pub expires_at : ℤ
  pub receipt_json : Option DeliveryReceipt

-- journal, of which the outbox writes and reads the rows of delivery receipts
pub record JournalRow : Type 0 where
  pub effect_id : String
  pub source_event_id : String
  pub correlation_id : String
  pub causation_id : Option String
  pub actor_key : String
  pub effect_type : String
  pub effect_json : DeliveryReceipt
  pub committed_at : ℤ

pub record Database : Type 0 where
  pub bundles : List BundleRow
  pub outbox : List OutboxRow
  pub journal : List JournalRow

abbrev pub has_id : String → OutboxRow → Bool
has_id id row = row.part_id == id

-- UPDATE outbox SET ... WHERE part_id=?
unfoldable pub update_part : String → (OutboxRow → OutboxRow) → List OutboxRow → List OutboxRow
update_part id f rows = map (λ row. if has_id id row then f row else row) rows

abbrev pub is_waiting : OutboxStatus → Bool
is_waiting planned = true
is_waiting ready = true
is_waiting _ = false

abbrev pub is_ready : OutboxStatus → Bool
is_ready ready = true
is_ready _ = false

abbrev pub is_sending : OutboxStatus → Bool
is_sending sending = true
is_sending _ = false

-- An integer that SQLite takes as a parameter has 64 bits; Python's binding refuses another with an
-- OverflowError, before the statement runs.
abbrev pub is_int64 : ℤ → Bool
is_int64 z = leb_ℤ (negsuc 9223372036854775807) z && leb_ℤ z (pos 9223372036854775807)

abbrev refusal : ℤ → Exception
refusal z = if is_int64 z then integrity_error else overflow_error

-- PRIMARY KEY (part_id) and UNIQUE (idempotency_key)
abbrev pub clashes : OutboxRow → List OutboxRow → Bool
clashes row rows =
    any (λ r. r.part_id == row.part_id || r.idempotency_key == row.idempotency_key) rows

unfoldable pub insert_row : OutboxRow → Exec Database (Unit {0})
insert_row row db =
    if not (is_int64 row.expires_at) || clashes row db.outbox
    then (raise (refusal row.expires_at), db)
    else (ok tt, record db { outbox = db.outbox ++ row ∷ [] })

unfoldable pub insert_bundle : BundleRow → Exec Database (Unit {0})
insert_bundle row db =
    if not (is_int64 row.expires_at) || any (λ r. r.bundle_id == row.bundle_id) db.bundles
    then (raise (refusal row.expires_at), db)
    else (ok tt, record db { bundles = db.bundles ++ row ∷ [] })

unfoldable pub insert_journal : JournalRow → Exec Database (Unit {0})
insert_journal row db =
    if not (is_int64 row.committed_at) || any (λ r. r.effect_id == row.effect_id) db.journal
    then (raise (refusal row.committed_at), db)
    else (ok tt, record db { journal = db.journal ++ row ∷ [] })

unfoldable pub find_part : String → Database → Option OutboxRow
find_part id db = find (has_id id) db.outbox

unfoldable pub find_bundle : String → Database → Option BundleRow
find_bundle id db = find (λ r. r.bundle_id == id) db.bundles

unfoldable pub find_effect : String → Database → Option JournalRow
find_effect id db = find (λ r. r.effect_id == id) db.journal

-- outbox JOIN delivery_bundles USING(bundle_id) WHERE part_id=?
abbrev pub with_bundle : Database → Option OutboxRow → Option (OutboxRow × BundleRow)
with_bundle db none = none
with_bundle db (some row) = elim (find_bundle row.bundle_id db) [
  | none ↦ none
  | some b ↦ some (row, b)
]

unfoldable pub find_joined : String → Database → Option (OutboxRow × BundleRow)
find_joined id db = with_bundle db (find_part id db)

-- ... WHERE outbox.status='ready' ORDER BY delivery_bundles.rowid, outbox.rowid
unfoldable pub ready_joined : List OutboxRow → List BundleRow → List (OutboxRow × BundleRow)
ready_joined rows [] = []
ready_joined rows (b ∷ bs) =
    map (λ row. (row, b)) (keep (λ row. row.bundle_id == b.bundle_id && is_ready row.status) rows)
    ++ ready_joined rows bs
