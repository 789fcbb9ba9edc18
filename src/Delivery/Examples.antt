-- ===== src/Delivery/Examples.antt =====
-- The delivery theorems at concrete bundles, parts, receipts and tables.
use astrbot_plugin_groupmate.Prelude.{
  pos, if◌then◌else◌, String, find, length, ◌≡◌, refl, true, none, some, [], ◌∷◌, map, All,
}
use astrbot_plugin_groupmate.Result.{ok}
use astrbot_plugin_groupmate.Delivery.Contracts.{ready, sending, sent, range_from, create_receipt}
use astrbot_plugin_groupmate.Delivery.Database.{
  BundleRow, is_int64, find_part, find_bundle, find_effect,
}
use astrbot_plugin_groupmate.Delivery.Outbox.{
  bundle_from_dict, in_memory_part, expire_ready, result_task_ids, suppress_replaced_progress,
  commit_bundle,
}
use astrbot_plugin_groupmate.Delivery.Outbox.Runs.{empty_database}
use astrbot_plugin_groupmate.Prelude.{leb_ℤ}
use astrbot_plugin_groupmate.Delivery.Contracts.{suppressed}
use astrbot_plugin_groupmate.Delivery.Contracts.Normal.{create_receipt-normal}
use astrbot_plugin_groupmate.Delivery.Contracts.Orders.{create_bundle-orders}
use astrbot_plugin_groupmate.Delivery.Database.{JournalRow}
use astrbot_plugin_groupmate.Delivery.Database.Valid.{IsValid}
use astrbot_plugin_groupmate.Delivery.Database.Sweep.{sweep}
use astrbot_plugin_groupmate.Delivery.Outbox.{is_due, set_status}
use astrbot_plugin_groupmate.Delivery.Outbox.Receipt.{record_receipt, recover_inflight}
use astrbot_plugin_groupmate.Delivery.Outbox.Expiry.{
  lapse, expire_ready-sweep, is_superseded, suppress_replaced_progress-sweep,
}
use astrbot_plugin_groupmate.Delivery.Outbox.Commit.{bundle_from_dict-normal}
use astrbot_plugin_groupmate.Delivery.Outbox.Committed.{commit_bundle-again}
use astrbot_plugin_groupmate.Delivery.Outbox.Repeats.{record_receipt-again}
use astrbot_plugin_groupmate.Delivery.Outbox.Settled.{IsSettled, record_receipt-settles}
use astrbot_plugin_groupmate.Delivery.Outbox.Lifecycle.{recovered_row, recover_inflight-rows}
use astrbot_plugin_groupmate.Delivery.Outbox.Claims.{IsHandedOut, claim_ready_sound}
use astrbot_plugin_groupmate.Delivery.Outbox.Runs.{
  commit, claim, recover, after, here, call, Reaches-IsValid, final-stays, stored-stays,
}
use astrbot_plugin_groupmate.Delivery.Dispatcher.Sent.{
  IsDispatched, dispatch_sound, dispatch-settles,
}
use astrbot_plugin_groupmate.Delivery.Samples.{
  greeting, given, bundle, service, created, row_of, stored, commits, claims, reply, receipt,
  delivered, receipt_created, bundle_created, stored-IsValid, delivered-IsValid, records, no_effect,
  plain_dispatcher, dispatches_plainly, receipt_normal, in_progress, in_progress-IsValid,
  dispatcher, dispatches, committed-Answers,
}
use astrbot_plugin_groupmate.Delivery.Outbox.Returns.{Returns}
use astrbot_plugin_groupmate.Delivery.Outbox.Runs.{claim_ready-Reaches, empty_database}
use astrbot_plugin_groupmate.Delivery.Outbox.Claim.{claim_ready}

create_receipt-normal_example : create_receipt receipt ≡ ok receipt
create_receipt-normal_example = create_receipt-normal reply receipt receipt_created

create_bundle-orders_example : map (λ p. p.order) bundle.parts ≡ range_from 0 (length bundle.parts)
create_bundle-orders_example = create_bundle-orders given bundle bundle_created

bundle_from_dict-normal_example : bundle_from_dict bundle ≡ ok bundle
bundle_from_dict-normal_example = bundle_from_dict-normal given bundle created

final-stays_example :
    find_part "p0" (after (recover (pos 20)) (stored sent (some receipt)))
    ≡ some (row_of greeting sent (some receipt))
unfolding find_part find
final-stays_example =
    final-stays "p0" (stored-IsValid sent (some receipt)) (call here (recover (pos 20))) refl refl

Reaches-IsValid_example :
    IsValid (after (claim service (pos 10) (pos 5)) (after (commit service given) empty_database))
Reaches-IsValid_example =
    Reaches-IsValid (call (call here (commit service given)) (claim service (pos 10) (pos 5)))

stored-stays_example :
    ((id : String) (b : BundleRow)
      → find_bundle id delivered ≡ some b
      → find_bundle id (after (recover (pos 20)) delivered) ≡ some b)
    × ((id : String) (j : JournalRow)
        → find_effect id delivered ≡ some j
        → find_effect id (after (recover (pos 20)) delivered) ≡ some j)
stored-stays_example = stored-stays delivered-IsValid (call here (recover (pos 20)))

claim_ready_sound_example :
    All
      (IsHandedOut service (pos 10) (stored sending none))
      (in_memory_part bundle greeting sending none ∷ [])
    × (leb_ℤ (pos 1) (pos 5) ≡ true)
claim_ready_sound_example =
    claim_ready_sound service (pos 10) (pos 5) (stored ready none) (stored-IsValid ready none)
      claims

record_receipt-settles_example :
    IsSettled receipt (stored sending none) delivered
    × ((in_memory_part bundle greeting sent (some receipt)).status ≡ sent)
    × ((in_memory_part bundle greeting sent (some receipt)).receipt ≡ some receipt)
record_receipt-settles_example =
    record_receipt-settles reply receipt (stored sending none) receipt_created no_effect records

record_receipt-again_example :
    record_receipt reply delivered
    ≡ (ok (in_memory_part bundle greeting sent (some receipt)), delivered)
record_receipt-again_example = record_receipt-again reply (stored sending none) records

commit_bundle-again_example :
    commit_bundle service given (stored ready none) ≡ (ok bundle, stored ready none)
commit_bundle-again_example = commit_bundle-again service given empty_database commits

recover_inflight-rows_example : (recover_inflight (pos 20) (stored sending none)).1 ≡ (
    if is_int64 (pos 20)
    then record (stored sending none) {
      outbox = map (recovered_row 20) (stored sending none).outbox;
    }
    else stored sending none)
recover_inflight-rows_example =
    recover_inflight-rows 20 (stored sending none) (stored-IsValid sending none)

expire_ready-sweep_example : expire_ready (pos 200) (stored ready none) ≡ (
  ok tt,
  record (stored ready none) {
    outbox = map (sweep (is_due (pos 200)) lapse) (stored ready none).outbox;
  },
)
expire_ready-sweep_example =
    expire_ready-sweep (pos 200) (stored ready none) (stored-IsValid ready none) refl

suppress_replaced_progress-sweep_example : suppress_replaced_progress bundle in_progress ≡ (
  ok tt,
  record in_progress {
    outbox =
        map
          (sweep (is_superseded (result_task_ids bundle.parts)) (set_status suppressed))
          in_progress.outbox;
  },
)
suppress_replaced_progress-sweep_example =
    suppress_replaced_progress-sweep bundle in_progress in_progress-IsValid

dispatch_sound_example :
    IsDispatched dispatcher
      (in_memory_part bundle greeting sending none)
      (stored sending none)
      delivered
      (in_memory_part bundle greeting sent (some receipt))
dispatch_sound_example =
    dispatch_sound dispatcher (in_memory_part bundle greeting sending none) (stored sending none)
      dispatches

claim_ready-Reaches_example :
    Returns (claim_ready service (pos 10) (pos 1)) (after (commit service given) empty_database)
claim_ready-Reaches_example =
    claim_ready-Reaches service (pos 10) (pos 1) (call here (commit service given))
      committed-Answers refl refl

dispatch-settles_example :
    (receipt.part_id ≡ "p0")
    × IsSettled receipt (stored sending none) delivered
    × ((in_memory_part bundle greeting sent (some receipt)).status ≡ sent)
    × ((in_memory_part bundle greeting sent (some receipt)).receipt ≡ some receipt)
unfolding in_memory_part
dispatch-settles_example =
    dispatch-settles plain_dispatcher (in_memory_part bundle greeting sending none)
      (stored sending none) refl refl receipt_normal no_effect dispatches_plainly
