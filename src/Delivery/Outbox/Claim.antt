-- ===== src/Delivery/Outbox/Claim.antt =====
-- `claim_ready` of groupmate/social_runtime/delivery/outbox.py: the ready parts that may be sent now.
use astrbot_plugin_groupmate.Prelude.{
  ℤ, pos, leb_ℤ, ltb_ℤ, String, ◌==◌, Bool, true, false, not, ◌&&◌, none, List, [], ◌∷◌, ◌++◌, any,
  length, keep, map, if◌then◌else◌,
}
use astrbot_plugin_groupmate.Result
use astrbot_plugin_groupmate.Result.{Result, ok, value_error, require}
use astrbot_plugin_groupmate.Exec.{Exec, pure, lift, gets, transaction, ◌>>=◌, ◌>>◌}
use astrbot_plugin_groupmate.Delivery.Contracts.{
  OutboxStatus, sending, sent, suppressed, expired, OutboxPart, create_part,
}
use astrbot_plugin_groupmate.Delivery.Database.{
  BundleRow, OutboxRow, Database, is_ready, ready_joined,
}
use astrbot_plugin_groupmate.Delivery.Outbox.{
  OutboxService, is_authorized, bundle_from_dict, in_memory_part, expire_ready,
}

-- the statuses of the siblings with a smaller order
unfoldable pub earlier_statuses : ℤ → List OutboxRow → Result (List OutboxStatus)
earlier_statuses order [] = ok []
earlier_statuses order (row ∷ rows) = Result.◌>>=◌ (create_part row.payload_json) λ part.
    Result.◌>>=◌ (earlier_statuses order rows)
      λ rest. ok (if ltb_ℤ part.order order then row.status ∷ rest else rest)

-- a part may follow these
abbrev pub is_settled : OutboxStatus → Bool
is_settled sent = true
is_settled suppressed = true
is_settled expired = true
is_settled _ = false

abbrev pub is_ready_part : String → OutboxRow → Bool
is_ready_part id row = row.part_id == id && is_ready row.status

abbrev pub start_sending : String → OutboxRow → OutboxRow
start_sending id row = if is_ready_part id row then record row { status = sending } else row

abbrev pub is_one : {A : Type 0} → List A → Bool
is_one (x ∷ []) = true
is_one _ = false

-- UPDATE outbox SET status='sending' WHERE part_id=? AND status='ready', and whether `rowcount == 1`
unfoldable pub mark_sending : String → Exec Database Bool
mark_sending id db = (
  ok (is_one (keep (is_ready_part id) db.outbox)),
  record db { outbox = map (start_sending id) db.outbox },
)

-- the loop body of `claim_ready`
unfoldable pub claim_row : OutboxService → OutboxRow × BundleRow → Exec Database (List OutboxPart)
claim_row svc (row, b) = do
  bundle ← lift (bundle_from_dict b.bundle_json)
  authorized ← lift (is_authorized svc bundle)
  if not authorized then pure [] else do
    part ← lift (create_part row.payload_json)
    siblings ← gets (λ db. keep (λ r. r.bundle_id == row.bundle_id) db.outbox)
    earlier ← lift (earlier_statuses part.order siblings)
    if any (λ s. not (is_settled s)) earlier then pure [] else do
      changed ← mark_sending part.part_id
      pure (if changed then in_memory_part bundle part sending none ∷ [] else [])

unfoldable pub claim_rows :
    OutboxService
    → ℤ
    → List (OutboxRow × BundleRow)
    → List OutboxPart
    → Exec Database (List OutboxPart)
claim_rows svc limit [] claimed = pure claimed
claim_rows svc limit (row ∷ rows) claimed =
    if leb_ℤ limit (pos (length claimed))
    then pure claimed
    else do got ← claim_row svc row; claim_rows svc limit rows (claimed ++ got)

unfoldable pub claim_ready : OutboxService → ℤ → ℤ → Exec Database (List OutboxPart)
claim_ready svc now limit = do
  lift (require (not (ltb_ℤ limit (pos 1))) value_error)
  transaction (do
    expire_ready now
    rows ← gets (λ db. ready_joined db.outbox db.bundles)
    claim_rows svc limit rows [])
