-- ===== src/Delivery/Dispatcher.antt =====
-- `DeliveryDispatcher` of groupmate/social_runtime/delivery/dispatcher.py. The transport and the
-- receipt handler are the platform's and the runtime's: each is an action, since other tasks may
-- change the database while it is awaited.
pub mod Sent
use astrbot_plugin_groupmate.Prelude.{
  ℤ, pos, ite, Bool, ◌&&◌, ◌==◌, Option, none, some, List, [], ◌∷◌,
}
use astrbot_plugin_groupmate.Result.{ok, outbox_state_conflict, require}
use astrbot_plugin_groupmate.Exec.{Exec, pure, throw, lift, ◌>>=◌, ◌>>◌}
use astrbot_plugin_groupmate.Delivery.Contracts.{
  DeliveryReceipt, DeliveryReceipt-discrete, OutboxPart, OutboxPart-discrete,
}
use astrbot_plugin_groupmate.Delivery.Database.{Database, is_sending}
use astrbot_plugin_groupmate.Delivery.Outbox.{OutboxService}
use astrbot_plugin_groupmate.Delivery.Outbox.Claim.{claim_ready}
use astrbot_plugin_groupmate.Delivery.Outbox.Receipt.{outbox, record_receipt}

pub record Dispatcher : Type 0 where
  pub service : OutboxService
  pub send : OutboxPart → Exec Database DeliveryReceipt
  pub receipt_handler : Option (DeliveryReceipt → Exec Database OutboxPart)

abbrev pub has_this_receipt : DeliveryReceipt → Option DeliveryReceipt → Bool
has_this_receipt receipt none = Bool.false
has_this_receipt receipt (some r) = ite (DeliveryReceipt-discrete r receipt) Bool.true Bool.false

abbrev pub settle_receipt :
    Option (DeliveryReceipt → Exec Database OutboxPart)
    → OutboxPart
    → DeliveryReceipt
    → Exec Database OutboxPart
settle_receipt none durable receipt = record_receipt receipt
settle_receipt (some handler) durable receipt = do
  handled ← handler receipt
  lift (
      require
        (handled.part.part_id == durable.part.part_id && has_this_receipt receipt handled.receipt)
        outbox_state_conflict)
  pure handled

unfoldable pub dispatch : Dispatcher → OutboxPart → Exec Database OutboxPart
dispatch d part = do
  durable ← outbox part.part.part_id
  ite (OutboxPart-discrete durable part) (pure tt) (throw outbox_state_conflict)
  lift (require (is_sending durable.status) outbox_state_conflict)
  receipt ← d.send durable
  lift (require (receipt.part_id == durable.part.part_id) outbox_state_conflict)
  settle_receipt d.receipt_handler durable receipt

abbrev pub dispatch_first : Dispatcher → List OutboxPart → Exec Database (Option OutboxPart)
dispatch_first d [] = pure none
dispatch_first d (part ∷ parts) = do done ← dispatch d part; pure (some done)

unfoldable pub dispatch_next : Dispatcher → ℤ → Exec Database (Option OutboxPart)
dispatch_next d now = do claimed ← claim_ready d.service now (pos 1); dispatch_first d claimed
