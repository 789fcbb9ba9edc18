-- ===== src/Delivery/Outbox.antt =====
-- `OutboxService` of groupmate/social_runtime/delivery/outbox.py. Each method is an action on the
-- database; the two authorizers and the supported kinds are what the service was built with.
pub mod Claim
pub mod Receipt
pub mod Expiry
pub mod Safe
pub mod Claimed
pub mod Recovery
pub mod Tables
pub mod Commit
pub mod Lifecycle
pub mod Runs
pub mod Sending
pub mod Snapshot
pub mod Claims
pub mod Returns
pub mod Repeats
pub mod Committed
pub mod Settled
use astrbot_plugin_groupmate.Prelude.{
  ℕ, ℤ, pos, leb_ℤ, ltb_ℤ, String, concat, decimal, ◌==◌, ite, Bool, true, false, not, ◌&&◌, ◌||◌,
  Option, none, some, List, [], ◌∷◌, ◌++◌, map, any, keep, length, if◌then◌else◌,
}
use astrbot_plugin_groupmate.Result.{
  Exception, Result, ok, raise, require, value_error, lookup_error, assertion_error,
  integrity_error, overflow_error, bundle_identity_conflict, unsupported_delivery_part,
  outbox_authorization_error, outbox_state_conflict, traverse,
}
use astrbot_plugin_groupmate.Result
use astrbot_plugin_groupmate.Exec.{
  Exec, pure, throw, lift, gets, modify, transaction, for_each, ◌>>=◌, ◌>>◌,
}
unfoldable pub use astrbot_plugin_groupmate.Delivery.Contracts.{bundle_from_dict}
use astrbot_plugin_groupmate.Delivery.Contracts.{
  DeliveryPartKind, OutboxStatus, ready, sending, sent, failed, expired, suppressed,
  DeliveryReceiptStatus, success, retryable_failure, permanent_failure, DeliveryPart,
  DeliveryBundle, DeliveryBundle-discrete, DeliveryReceipt, DeliveryReceipt-discrete, OutboxPart,
  BotLedgerEntry, create_part, create_bundle, create_receipt,
}
use astrbot_plugin_groupmate.Delivery.Database.{
  BundleRow, OutboxRow, JournalRow, Database, is_int64, update_part, is_waiting, is_ready,
  is_sending, insert_row, insert_bundle, insert_journal, find_bundle, find_effect, find_joined,
  ready_joined,
}

pub record OutboxService : Type 0 where
  pub supported_part_kinds : DeliveryPartKind → Bool
  pub group_authorizer : Option (String → Result Bool)
  pub bundle_authorizer : Option (DeliveryBundle → Result Bool)

abbrev allows : {A : Type 0} → Option (A → Result Bool) → A → Result Bool
allows none a = ok true
allows (some test) a = test a

-- `_is_authorized`, where an authorizer that is asked may raise; `_require_authorized` asks the same and
-- raises when the answer is no. The bundle's authorizer is asked only when the group's has agreed.
unfoldable pub is_authorized : OutboxService → DeliveryBundle → Result Bool
is_authorized svc b =
    Result.◌>>=◌ (allows svc.group_authorizer b.group_id)
      λ agreed. if agreed then allows svc.bundle_authorizer b else ok false

unfoldable pub in_memory_part :
    DeliveryBundle → DeliveryPart → OutboxStatus → Option DeliveryReceipt → OutboxPart
in_memory_part bundle part status receipt = record {
  bundle_id = bundle.bundle_id;
  correlation_id = bundle.correlation_id;
  persona_id = bundle.persona_id;
  group_id = bundle.group_id;
  topic_id = bundle.topic_id;
  part = part;
  status = status;
  receipt = receipt;
}

-- UPDATE outbox SET status=? WHERE part_id=?
abbrev pub set_status : OutboxStatus → OutboxRow → OutboxRow
set_status status row = record row { status = status }

abbrev pub update : String → (OutboxRow → OutboxRow) → Exec Database (Unit {0})
update id f = modify λ db. record db { outbox = update_part id f db.outbox }

abbrev pub is_due : ℤ → OutboxRow → Bool
is_due now row = is_waiting row.status && leb_ℤ row.expires_at now

abbrev pub lapsed : DeliveryPart → OutboxStatus
lapsed part = if part.decorative then suppressed else expired

-- the loop body of `_expire_ready`
unfoldable pub expire_one : OutboxRow → Exec Database (Unit {0})
expire_one row = do
  part ← lift (create_part row.payload_json)
  update part.part_id (set_status (lapsed part))

unfoldable pub expire_ready : ℤ → Exec Database (Unit {0})
expire_ready now = do
  lift (require (is_int64 now) overflow_error)
  rows ← gets (λ db. keep (is_due now) db.outbox)
  for_each expire_one rows

abbrev option_ids : Option String → List String
option_ids none = []
option_ids (some id) = id ∷ []

-- the task ids of the parts with the role of a result
unfoldable pub result_task_ids : List DeliveryPart → List String
result_task_ids [] = []
result_task_ids (p ∷ ps) =
    (if p.role == "result" then option_ids p.task_id else []) ++ result_task_ids ps

abbrev pub is_among : Option String → List String → Bool
is_among none ids = false
is_among (some id) ids = any (λ x. x == id) ids

abbrev pub is_replaced : List String → DeliveryPart → Bool
is_replaced ids part = part.role == "progress" && is_among part.task_id ids

-- the loop body of `_suppress_replaced_progress`
unfoldable pub suppress_one : List String → OutboxRow → Exec Database (Unit {0})
suppress_one ids row = do
  part ← lift (create_part row.payload_json)
  if is_replaced ids part then update part.part_id (set_status suppressed) else pure tt

abbrev is_none : List String → Bool
is_none [] = true
is_none (x ∷ xs) = false

unfoldable pub suppress_replaced_progress : DeliveryBundle → Exec Database (Unit {0})
suppress_replaced_progress bundle =
    let ids = result_task_ids bundle.parts in
    if is_none ids then pure tt else do
      rows ← gets (λ db. keep (λ row. is_waiting row.status) db.outbox)
      for_each (suppress_one ids) rows

abbrev pub bundle_row : DeliveryBundle → BundleRow
bundle_row b = record {
  bundle_id = b.bundle_id;
  correlation_id = b.correlation_id;
  persona_id = b.persona_id;
  group_id = b.group_id;
  status = ready;
  bundle_json = b;
  expires_at = b.expires_at;
}

abbrev pub part_row : DeliveryBundle → DeliveryPart → OutboxRow
part_row b p = record {
  part_id = p.part_id;
  bundle_id = b.bundle_id;
  persona_id = b.persona_id;
  group_id = b.group_id;
  idempotency_key = p.idempotency_key;
  status = ready;
  payload_json = p;
  expires_at = p.expires_at;
  receipt_json = none;
}

abbrev conflict_of : Exception → Exception
conflict_of integrity_error = bundle_identity_conflict
conflict_of e = e

abbrev pub conflict_result : {A : Type 0} → Result A → Result A
conflict_result (ok a) = ok a
conflict_result (raise e) = raise (conflict_of e)

-- `except Exception`: a UNIQUE constraint that failed is an identity conflict
abbrev pub unique_as_conflict : {A : Type 0} → Exec Database A → Exec Database A
unique_as_conflict m db = let (r, db') = m db in (conflict_result r, db')

abbrev pub store_or_return : DeliveryBundle → Option BundleRow → Exec Database DeliveryBundle
store_or_return b (some row) =
    ite (DeliveryBundle-discrete row.bundle_json b) (lift (bundle_from_dict row.bundle_json))
      (throw bundle_identity_conflict)
store_or_return b none = do
  suppress_replaced_progress b
  insert_bundle (bundle_row b)
  for_each (λ p. insert_row (part_row b p)) b.parts
  pure b

unfoldable pub commit_bundle : OutboxService → DeliveryBundle → Exec Database DeliveryBundle
commit_bundle svc given = do
  bundle ← lift (bundle_from_dict given)
  allowed ← lift (is_authorized svc bundle)
  lift (require allowed outbox_authorization_error)
  lift (
      require (not (any (λ p. not (svc.supported_part_kinds p.kind)) bundle.parts))
        unsupported_delivery_part)
  unique_as_conflict
      (transaction (do prior ← gets (find_bundle bundle.bundle_id); store_or_return bundle prior))
