-- ===== src/Delivery/Outbox/Receipt.antt =====
-- `outbox`, `record_receipt`, `recover_inflight` and the queries of
-- groupmate/social_runtime/delivery/outbox.py.
use astrbot_plugin_groupmate.Prelude.{
  ℕ, ℤ, String, concat, decimal, ◌==◌, ite, Bool, true, false, ◌&&◌, ◌||◌, Option, none, some, List,
  [], ◌∷◌, any, length, keep, map, if◌then◌else◌,
}
use astrbot_plugin_groupmate.Result
use astrbot_plugin_groupmate.Result.{
  Result, ok, value_error, lookup_error, assertion_error, outbox_state_conflict, require,
}
use astrbot_plugin_groupmate.Exec.{
  Exec, pure, throw, lift, gets, transaction, for_each, ◌>>=◌, ◌>>◌,
}
use astrbot_plugin_groupmate.Delivery.Contracts.{
  OutboxStatus, ready, sent, failed, DeliveryReceiptStatus, success, retryable_failure,
  permanent_failure, DeliveryReceipt, DeliveryReceipt-discrete, OutboxPart, BotLedgerEntry,
  create_part, create_receipt,
}
use astrbot_plugin_groupmate.Delivery.Database.{
  BundleRow, OutboxRow, JournalRow, Database, is_waiting, is_sending, insert_journal, find_effect,
  find_joined,
}
use astrbot_plugin_groupmate.Delivery.Outbox.{
  bundle_from_dict, in_memory_part, update, expire_ready,
}

unfoldable pub receipt_from_json : Option DeliveryReceipt → Result (Option DeliveryReceipt)
receipt_from_json none = ok none
receipt_from_json (some r) = Result.◌>>=◌ (create_receipt r) λ receipt. ok (some receipt)

abbrev pub read_joined : Option (OutboxRow × BundleRow) → Result OutboxPart
read_joined none = Result.raise lookup_error
read_joined (some (row, b)) = Result.◌>>=◌ (bundle_from_dict b.bundle_json) λ bundle.
    Result.◌>>=◌ (receipt_from_json row.receipt_json) λ receipt.
      Result.◌>>=◌ (create_part row.payload_json)
        λ part. ok (in_memory_part bundle part row.status receipt)

-- the method `outbox(part_id)`
unfoldable pub outbox : String → Exec Database OutboxPart
outbox part_id = do joined ← gets (find_joined part_id); lift (read_joined joined)

abbrev pub target : DeliveryReceiptStatus → OutboxStatus
target success = sent
target retryable_failure = ready
target permanent_failure = failed
target DeliveryReceiptStatus.unknown = OutboxStatus.unknown

abbrev pub effect_id_of : DeliveryReceipt → String
effect_id_of receipt = concat "delivery-receipt:" receipt.receipt_id

abbrev pub journal_row : DeliveryReceipt → String → JournalRow
journal_row receipt correlation_id = record {
  effect_id = effect_id_of receipt;
  source_event_id = receipt.receipt_id;
  correlation_id = correlation_id;
  causation_id = none;
  actor_key = concat "delivery:" receipt.part_id;
  effect_type = "delivery.receipt";
  effect_json = receipt;
  committed_at = receipt.occurred_at;
}

abbrev pub set_receipt : OutboxStatus → DeliveryReceipt → OutboxRow → OutboxRow
set_receipt status receipt row = record row { status = status; receipt_json = some receipt }

abbrev pub settle : DeliveryReceipt → Option (OutboxRow × BundleRow) → Exec Database (Unit {0})
settle receipt none = throw outbox_state_conflict
settle receipt (some (row, b)) = do
  lift (require (is_sending row.status) outbox_state_conflict)
  update receipt.part_id (set_receipt (target receipt.status) receipt)
  insert_journal (journal_row receipt b.correlation_id)

-- A receipt that is there already is not applied again.
abbrev pub check_or_settle : DeliveryReceipt → Option JournalRow → Exec Database (Unit {0})
check_or_settle receipt (some row) =
    ite (DeliveryReceipt-discrete row.effect_json receipt) (pure tt) (throw outbox_state_conflict)
check_or_settle receipt none = do joined ← gets (find_joined receipt.part_id); settle receipt joined

unfoldable pub record_receipt : DeliveryReceipt → Exec Database OutboxPart
record_receipt given = do
  receipt ← lift (create_receipt given)
  transaction (do prior ← gets (find_effect (effect_id_of receipt)); check_or_settle receipt prior)
  outbox receipt.part_id

-- the receipt that `recover_inflight` writes for a part whose sending was cut off
abbrev pub recovery_receipt : String → ℤ → DeliveryReceipt
recovery_receipt part_id now = record {
  receipt_id = concat "recovery-unknown:" (concat part_id (concat ":" (decimal now)));
  part_id = part_id;
  status = DeliveryReceiptStatus.unknown;
  occurred_at = now;
  platform_message_id = none;
  error_code = some "send_interrupted_before_receipt";
}

unfoldable pub recover_one : ℤ → String → Exec Database (Unit {0})
recover_one now part_id = do
  receipt ← lift (create_receipt (recovery_receipt part_id now))
  update part_id (set_receipt OutboxStatus.unknown receipt)

-- the parts of some ids, each read by `outbox`
unfoldable pub outbox_all : List String → Exec Database (List OutboxPart)
outbox_all [] = pure []
outbox_all (id ∷ ids) = do part ← outbox id; rest ← outbox_all ids; pure (part ∷ rest)

unfoldable pub recover_inflight : ℤ → Exec Database (List OutboxPart)
recover_inflight now = do
  part_ids ← transaction (do
    ids ← gets (λ db. map (λ row. row.part_id) (keep (λ row. is_sending row.status) db.outbox))
    for_each (recover_one now) ids
    expire_ready now
    pure ids)
  outbox_all part_ids

abbrev ledger_entry : OutboxPart → Option DeliveryReceipt → Result BotLedgerEntry
ledger_entry part none = Result.raise lookup_error
ledger_entry part (some receipt) = elim receipt.platform_message_id [
  | none ↦ Result.raise assertion_error
  | some message ↦ ok (record {
    part_id = part.part.part_id;
    bundle_id = part.bundle_id;
    correlation_id = part.correlation_id;
    persona_id = part.persona_id;
    group_id = part.group_id;
    platform_message_id = message;
    sent_at = receipt.occurred_at;
  })
]

abbrev is_sent : OutboxStatus → Bool
is_sent sent = true
is_sent _ = false

unfoldable pub bot_ledger : String → Exec Database BotLedgerEntry
bot_ledger part_id = do
  part ← outbox part_id
  if is_sent part.status then lift (ledger_entry part part.receipt) else throw lookup_error

-- `count`
unfoldable pub count_parts : Exec Database ℕ
count_parts = gets (λ db. length db.outbox)

unfoldable pub has_unfinished_parts : String → Exec Database Bool
has_unfinished_parts bundle_id = gets (λ db.
    any (λ row. row.bundle_id == bundle_id && (is_waiting row.status || is_sending row.status))
      db.outbox)

abbrev has_receipt : Option DeliveryReceipt → Bool
has_receipt none = false
has_receipt (some r) = true

unfoldable pub receipted_parts : Exec Database (List OutboxPart)
receipted_parts = do
  ids ← gets (λ db. map (λ row. row.part_id) (keep (λ row. has_receipt row.receipt_json) db.outbox))
  outbox_all ids
