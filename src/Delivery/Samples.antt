-- ===== src/Delivery/Samples.antt =====
-- Bundles, parts, receipts and tables for the tests of the delivery code, and runs of the code on them.
use astrbot_plugin_groupmate.Prelude.{
  pos, any, find, keep, sort_by, insert_by, all, is_space, strip, lstrip, rstrip, lower_codes,
  concat, ◌≡◌, refl, true, false, Option, none, some, [], ◌∷◌,
}
use astrbot_plugin_groupmate.Json.{
  Json, Json-discrete, Fields-discrete, get, has_text, sorted_fields, insert_field,
}
use astrbot_plugin_groupmate.Json
use astrbot_plugin_groupmate.Result.{ok, traverse}
use astrbot_plugin_groupmate.Exec.{for_each}
use astrbot_plugin_groupmate.Delivery.Contracts.{
  text, OutboxStatus, ready, sending, sent, success, delivery_text, optional_text, required_key,
  normalize_role, validate_payload, create_part, distinct, range_from, create_bundle,
  create_receipt, DeliveryPart, DeliveryBundle, DeliveryReceipt, DeliveryReceipt-discrete,
  OutboxPart-discrete, DeliveryPart-discrete,
}
use astrbot_plugin_groupmate.Delivery.Database.{
  Database, OutboxRow, find_part, find_bundle, find_effect, find_joined, ready_joined, insert_row,
  insert_bundle, insert_journal, update_part,
}
use astrbot_plugin_groupmate.Delivery.Outbox.{
  OutboxService, is_authorized, bundle_from_dict, in_memory_part, expire_one, expire_ready,
  result_task_ids, suppress_one, suppress_replaced_progress, commit_bundle,
}
use astrbot_plugin_groupmate.Delivery.Outbox.Claim.{
  earlier_statuses, mark_sending, claim_row, claim_rows, claim_ready,
}
use astrbot_plugin_groupmate.Delivery.Outbox.Runs.{empty_database}
use astrbot_plugin_groupmate.Delivery.Outbox.Returns.{Answers}
use astrbot_plugin_groupmate.Exec.{pure}
use astrbot_plugin_groupmate.Prelude.{ℕ_discrete, String-discrete, ℤ-discrete}
use astrbot_plugin_groupmate.Delivery.Database.Valid.{IsValid, IsFaithful}
use astrbot_plugin_groupmate.Delivery.Outbox.Receipt.{
  outbox, receipt_from_json, journal_row, effect_id_of, record_receipt,
}
use astrbot_plugin_groupmate.Delivery.Dispatcher.{Dispatcher, dispatch}

abbrev pub greeting : DeliveryPart
greeting = record {
  part_id = "p0";
  kind = text;
  payload = Json.field "text" (Json.text "hello") Json.end;
  order = pos 0;
  idempotency_key = "k0";
  expires_at = pos 100;
  decorative = false;
  task_id = none;
  role = "content";
}

abbrev pub answer : DeliveryPart
answer = record greeting {
  part_id = "p1";
  order = pos 1;
  idempotency_key = "k1";
  task_id = some "t";
  role = "result";
}

-- as a caller may give it, out of order and with blanks
abbrev pub given : DeliveryBundle
given = record {
  bundle_id = " b ";
  correlation_id = "c";
  persona_id = "mate";
  group_id = "g";
  topic_id = none;
  parts = answer ∷ greeting ∷ [];
  created_at = pos 1;
  expires_at = pos 100;
}

abbrev pub bundle : DeliveryBundle
bundle = record given { bundle_id = "b"; parts = greeting ∷ answer ∷ [] }

abbrev pub service : OutboxService
service = record {
  supported_part_kinds = λ k. true;
  group_authorizer = some (λ group_id. ok true);
  bundle_authorizer = some (λ b. ok true);
}

pub created : bundle_from_dict given ≡ ok bundle
unfolding bundle_from_dict traverse create_part delivery_text strip lstrip rstrip is_space
    optional_text normalize_role lower_codes validate_payload required_key get has_text
    sorted_fields insert_field create_bundle distinct any all range_from sort_by insert_by
created = refl

abbrev pub row_of : DeliveryPart → OutboxStatus → Option DeliveryReceipt → OutboxRow
row_of p status receipt = record {
  part_id = p.part_id;
  bundle_id = "b";
  persona_id = "mate";
  group_id = "g";
  idempotency_key = p.idempotency_key;
  status = status;
  payload_json = p;
  expires_at = pos 100;
  receipt_json = receipt;
}

abbrev pub stored : OutboxStatus → Option DeliveryReceipt → Database
stored status receipt = record {
  bundles =
      (record {
        bundle_id = "b";
        correlation_id = "c";
        persona_id = "mate";
        group_id = "g";
        status = ready;
        bundle_json = bundle;
        expires_at = pos 100;
      })
      ∷ [];
  outbox = row_of greeting status receipt ∷ row_of answer ready none ∷ [];
  journal = [];
}

pub commits : commit_bundle service given empty_database ≡ (ok bundle, stored ready none)
unfolding commit_bundle is_authorized bundle_from_dict traverse create_part delivery_text strip
    lstrip rstrip is_space optional_text normalize_role lower_codes validate_payload required_key
    get has_text sorted_fields insert_field create_bundle distinct any all range_from sort_by
    insert_by find_bundle find insert_bundle insert_row for_each suppress_replaced_progress
    result_task_ids suppress_one keep
commits = refl

pub claims :
    claim_ready service (pos 10) (pos 5) (stored ready none)
    ≡ (ok (in_memory_part bundle greeting sending none ∷ []), stored sending none)
unfolding claim_ready is_authorized claim_rows claim_row expire_ready expire_one ready_joined
    earlier_statuses mark_sending bundle_from_dict traverse create_part delivery_text strip lstrip
    rstrip is_space optional_text normalize_role lower_codes validate_payload required_key get
    has_text sorted_fields insert_field create_bundle distinct any all range_from sort_by insert_by
    find for_each keep in_memory_part
claims = refl

-- as the transport returns it, with blanks
abbrev pub reply : DeliveryReceipt
reply = record {
  receipt_id = " r1";
  part_id = "p0";
  status = success;
  occurred_at = pos 12;
  platform_message_id = some "m1";
  error_code = none;
}

abbrev pub receipt : DeliveryReceipt
receipt = record reply { receipt_id = "r1" }

abbrev pub delivered : Database
delivered = record (stored sent (some receipt)) { journal = journal_row receipt "c" ∷ [] }

pub receipt_created : create_receipt reply ≡ ok receipt
unfolding create_receipt delivery_text strip lstrip rstrip is_space optional_text
receipt_created = refl

pub bundle_created : create_bundle given ≡ ok bundle
unfolding create_bundle delivery_text strip lstrip rstrip is_space optional_text distinct any all
    range_from sort_by insert_by
bundle_created = refl

pub greeting_normal : create_part greeting ≡ ok greeting
unfolding create_part delivery_text strip lstrip rstrip is_space optional_text normalize_role
    lower_codes validate_payload required_key get has_text sorted_fields insert_field
greeting_normal = refl

pub answer_normal : create_part answer ≡ ok answer
unfolding create_part delivery_text strip lstrip rstrip is_space optional_text normalize_role
    lower_codes validate_payload required_key get has_text sorted_fields insert_field
answer_normal = refl

pub faithful :
    (p : DeliveryPart) (s : OutboxStatus) (r : Option DeliveryReceipt)
    → p.expires_at ≡ pos 100
    → create_part p ≡ ok p
    → IsFaithful (row_of p s r)
faithful p s r e n = record { part_id = refl; idempotency_key = refl; expires_at = e; readable = n }

pub stored-IsValid : (s : OutboxStatus) (r : Option DeliveryReceipt) → IsValid (stored s r)
unfolding distinct any
stored-IsValid s r = record {
  part_ids = refl;
  idempotency_keys = refl;
  faithful = (
    faithful greeting s r refl greeting_normal,
    (faithful answer ready none refl answer_normal, tt),
  );
}

pub delivered-IsValid : IsValid delivered
delivered-IsValid =
    let v = stored-IsValid sent (some receipt) in
    record { part_ids = v.part_ids; idempotency_keys = v.idempotency_keys; faithful = v.faithful }

pub records :
    record_receipt reply (stored sending none)
    ≡ (ok (in_memory_part bundle greeting sent (some receipt)), delivered)
unfolding record_receipt outbox receipt_from_json find_joined find_part find_bundle find_effect
    insert_journal update_part create_receipt bundle_from_dict traverse create_part delivery_text
    strip lstrip rstrip is_space optional_text normalize_role lower_codes validate_payload
    required_key get has_text sorted_fields insert_field create_bundle distinct any all range_from
    sort_by insert_by find in_memory_part concat
records = refl

pub no_effect : find_effect (effect_id_of receipt) (stored sending none) ≡ none
unfolding find_effect find
no_effect = refl

abbrev pub progress : DeliveryPart
progress = record answer { part_id = "p2"; idempotency_key = "k2"; role = "progress" }

pub progress_normal : create_part progress ≡ ok progress
unfolding create_part delivery_text strip lstrip rstrip is_space optional_text normalize_role
    lower_codes validate_payload required_key get has_text sorted_fields insert_field
progress_normal = refl

abbrev pub in_progress : Database
in_progress = record { bundles = []; outbox = row_of progress ready none ∷ []; journal = [] }

pub in_progress-IsValid : IsValid in_progress
unfolding distinct any
in_progress-IsValid = record {
  part_ids = refl;
  idempotency_keys = refl;
  faithful = (faithful progress ready none refl progress_normal, tt);
}

-- with a handler that records the receipt and hands back what the outbox holds
abbrev pub dispatcher : Dispatcher
dispatcher = record {
  service = service;
  send = λ part. pure receipt;
  receipt_handler = some (λ r. record_receipt r);
}

pub dispatches :
    dispatch dispatcher (in_memory_part bundle greeting sending none) (stored sending none)
    ≡ (ok (in_memory_part bundle greeting sent (some receipt)), delivered)
unfolding dispatch OutboxPart-discrete DeliveryPart-discrete DeliveryReceipt-discrete
    Fields-discrete Json-discrete String-discrete ℤ-discrete ℕ_discrete record_receipt outbox
    receipt_from_json find_joined find_part find_bundle find_effect insert_journal update_part
    create_receipt bundle_from_dict traverse create_part delivery_text strip lstrip rstrip is_space
    optional_text normalize_role lower_codes validate_payload required_key get has_text
    sorted_fields insert_field create_bundle distinct any all range_from sort_by insert_by find
    in_memory_part concat
dispatches = refl

pub committed-Answers : Answers service (commit_bundle service given empty_database).1
unfolding is_authorized
committed-Answers = rw commits ((true, refl), tt)

abbrev pub plain_dispatcher : Dispatcher
plain_dispatcher = record dispatcher { receipt_handler = none }

pub dispatches_plainly :
    dispatch plain_dispatcher (in_memory_part bundle greeting sending none) (stored sending none)
    ≡ (ok (in_memory_part bundle greeting sent (some receipt)), delivered)
unfolding dispatch OutboxPart-discrete DeliveryPart-discrete DeliveryReceipt-discrete
    Fields-discrete Json-discrete String-discrete ℤ-discrete ℕ_discrete record_receipt outbox
    receipt_from_json find_joined find_part find_bundle find_effect insert_journal update_part
    create_receipt bundle_from_dict traverse create_part delivery_text strip lstrip rstrip is_space
    optional_text normalize_role lower_codes validate_payload required_key get has_text
    sorted_fields insert_field create_bundle distinct any all range_from sort_by insert_by find
    in_memory_part concat
dispatches_plainly = refl

pub receipt_normal : create_receipt receipt ≡ ok receipt
unfolding create_receipt delivery_text strip lstrip rstrip is_space optional_text
receipt_normal = refl
