-- ===== src/Delivery/Dispatcher/Sent.antt =====
-- What `dispatch` sends, and whose receipt is recorded.
use astrbot_plugin_groupmate.Prelude.{
  String, Bool, arith, text_eq, ite, ◌≡◌, sym, ap, subst, ◌∙◌, true, ◌&&◌, ◌==◌, Option, none, some,
}
use astrbot_plugin_groupmate.Result.{ok, require, require-true, ok-injective, outbox_state_conflict}
use astrbot_plugin_groupmate.Exec.{Exec, pure, throw, on_lift, on_run}
use astrbot_plugin_groupmate.Delivery.Contracts.{
  DeliveryReceipt, DeliveryReceipt-discrete, create_receipt, OutboxPart, OutboxPart-discrete,
}
use astrbot_plugin_groupmate.Delivery.Database.{Database, is_sending, find_effect}
use astrbot_plugin_groupmate.Delivery.Outbox.Receipt.{outbox, record_receipt, effect_id_of, target}
use astrbot_plugin_groupmate.Delivery.Outbox.Settled.{IsSettled, record_receipt-settles}
use astrbot_plugin_groupmate.Delivery.Dispatcher.{
  Dispatcher, has_this_receipt, settle_receipt, dispatch,
}

-- The receipt of a part was recorded, by the service itself or by the handler; a handler has returned
-- the same part with the same receipt.
pub data IsRecorded (id : String) (receipt : DeliveryReceipt) (between db' : Database)
    (result : OutboxPart) : Option (DeliveryReceipt → Exec Database OutboxPart) → Type 0 where
  by_service :
      record_receipt receipt between ≡ (ok result, db')
      → IsRecorded id receipt between db' result none
  by_handler :
      (handler : DeliveryReceipt → Exec Database OutboxPart)
      → handler receipt between ≡ (ok result, db')
      → result.part.part_id ≡ id
      → result.receipt ≡ some receipt
      → IsRecorded id receipt between db' result (some handler)

-- A dispatch that went through.
pub record IsDispatched (d : Dispatcher) (part : OutboxPart) (db db' : Database)
    (result : OutboxPart) : Type 0 where
  pub durable : outbox part.part.part_id db ≡ (ok part, db)
  pub being_sent : is_sending part.status ≡ true
  pub receipt : DeliveryReceipt
  pub between : Database
  pub sent : d.send part db ≡ (ok receipt, between)
  pub own_receipt : receipt.part_id ≡ part.part.part_id
  pub recorded : IsRecorded part.part.part_id receipt between db' result d.receipt_handler

outbox-same :
    (id : String) (db : Database) {db' : Database} {part : OutboxPart}
    → outbox id db ≡ (ok part, db')
    → db ≡ db'
unfolding outbox
outbox-same id db h = ap (λ x. x.1) h

check_same-ok :
    {a b : OutboxPart} (d : Dec (a ≡ b)) (db : Database) {db' : Database} {u : Unit {0}}
    → ite d (pure tt) (throw outbox_state_conflict) db ≡ (ok u, db')
    → (a ≡ b) × (db ≡ db')
check_same-ok (yes e) db h = (e, ap (λ x. x.1) h)
check_same-ok (no e) db h = absurd (cc)

this_receipt :
    (receipt : DeliveryReceipt) (r : Option DeliveryReceipt)
    → has_this_receipt receipt r ≡ true
    → r ≡ some receipt
this_receipt receipt none h = absurd (cc)
this_receipt receipt (some r) h = by_decision (DeliveryReceipt-discrete r receipt) h
  where
    by_decision : (d : Dec (r ≡ receipt)) → ite d true Bool.false ≡ true → some r ≡ some receipt
    by_decision (yes p) h = ap (λ x. some x) p
    by_decision (no p) h = absurd (cc)

settle_receipt-IsRecorded :
    (handler : Option (DeliveryReceipt → Exec Database OutboxPart)) (part : OutboxPart)
    (receipt : DeliveryReceipt) (between : Database) {db' : Database} {result : OutboxPart}
    → settle_receipt handler part receipt between ≡ (ok result, db')
    → IsRecorded part.part.part_id receipt between db' result handler
settle_receipt-IsRecorded none part receipt between h = by_service h
settle_receipt-IsRecorded (some f) part receipt between {db'} {result} h =
    on_run (f receipt) _ {s = between} h λ handled d1 h1 k1.
      on_lift
        (require
          (handled.part.part_id == part.part.part_id && has_this_receipt receipt handled.receipt)
          outbox_state_conflict)
        _ {s = d1} k1
        λ _ hm k2.
          let matches = require-true _ outbox_state_conflict hm in
          let done : handled ≡ result = ok-injective (ap (λ x. x.0) k2) in
          by_handler f
            (h1 ∙ ap (λ s. (ok handled, s)) (ap (λ x. x.1) k2) ∙ ap (λ p. (ok p, db')) done)
            (subst (λ (p : OutboxPart). p.part.part_id ≡ part.part.part_id) done
              ((text_eq handled.part.part_id part.part.part_id).0 (both matches).0))
            (subst (λ (p : OutboxPart). p.receipt ≡ some receipt) done
              (this_receipt receipt handled.receipt (both matches).1))
  where
    both : {a b : Bool} → (a && b) ≡ true → (a ≡ true) × (b ≡ true)
    both h = ground arith

-- A dispatch that returns has sent the part that the outbox holds under its id, as it was given and
-- while it was being sent, and the receipt that the transport returned is of that part and was recorded:
-- by the service, or by a handler that returned the same part with that receipt.
pub dispatch_sound :
    (d : Dispatcher) (part : OutboxPart) (db : Database) {db' : Database} {result : OutboxPart}
    → dispatch d part db ≡ (ok result, db')
    → IsDispatched d part db db' result
unfolding dispatch
dispatch_sound d part db {db'} {result} h =
    on_run (outbox part.part.part_id) _ {s = db} h λ durable d1 h1 k1.
      on_run (ite (OutboxPart-discrete durable part) (pure tt) (throw outbox_state_conflict)) _
        {s = d1} k1
        λ _ d2 h2 k2.
          on_lift (require (is_sending durable.status) outbox_state_conflict) _ {s = d2} k2
            λ _ hs k3. on_run (d.send durable) _ {s = d2} k3 λ receipt d3 h3 k4.
              on_lift (require (receipt.part_id == durable.part.part_id) outbox_state_conflict) _
                {s = d3} k4
                λ _ hp k5.
                  let e1 = outbox-same part.part.part_id db h1 in
                  let (same, e2) = check_same-ok (OutboxPart-discrete durable part) d1 h2 in
                  let here : db ≡ d2 = e1 ∙ e2 in
                  record {
                    durable =
                        subst (λ s. outbox part.part.part_id db ≡ (ok part, s)) (sym e1)
                          (h1 ∙ ap (λ p. (ok p, d1)) same);
                    being_sent =
                        subst (λ (p : OutboxPart). is_sending p.status ≡ true) same
                          (require-true _ outbox_state_conflict hs);
                    receipt = receipt;
                    between = d3;
                    sent =
                        subst (λ s. d.send part s ≡ (ok receipt, d3)) (sym here)
                          (subst (λ p. d.send p d2 ≡ (ok receipt, d3)) same h3);
                    own_receipt =
                        subst (λ (p : OutboxPart). receipt.part_id ≡ p.part.part_id) same
                          ((text_eq receipt.part_id durable.part.part_id).0
                            (require-true _ outbox_state_conflict hp));
                    recorded = settle_receipt-IsRecorded d.receipt_handler part receipt d3 (
                        subst
                          (λ p. settle_receipt d.receipt_handler p receipt d3 ≡ (ok result, db'))
                          same k5);
                  }

by_the_service :
    {id : String} {receipt : DeliveryReceipt} {between db' : Database} {result : OutboxPart}
    {handler : Option (DeliveryReceipt → Exec Database OutboxPart)}
    → handler ≡ none
    → IsRecorded id receipt between db' result handler
    → record_receipt receipt between ≡ (ok result, db')
by_the_service e (by_service h) = h
by_the_service e (by_handler f h p r) = absurd (cc)

-- A dispatch without a handler that returns, whose transport returned a receipt that `create` made and
-- that is not in the journal: the receipt is of the given part, which was being sent until then, only
-- that part's row changes since, by the receipt and the status that it stands for, and the part that is
-- returned has that status and that receipt.
pub dispatch-settles :
    (d : Dispatcher) (part : OutboxPart) (db : Database) {between db' : Database}
    {result : OutboxPart} {receipt : DeliveryReceipt}
    → d.receipt_handler ≡ none
    → d.send part db ≡ (ok receipt, between)
    → create_receipt receipt ≡ ok receipt
    → find_effect (effect_id_of receipt) between ≡ none
    → dispatch d part db ≡ (ok result, db')
    → (receipt.part_id ≡ part.part.part_id)
      × IsSettled receipt between db'
      × (result.status ≡ target receipt.status)
      × (result.receipt ≡ some receipt)
dispatch-settles d part db {between} {db'} {result} {receipt} plain sent made fresh h =
    let done = dispatch_sound d part db h in
    let both = sym done.sent ∙ sent in
    let same : done.receipt ≡ receipt = ok-injective (ap (λ x. x.0) both) in
    let kept : done.between ≡ between = ap (λ x. x.1) both in
    let recorded : record_receipt receipt between ≡ (ok result, db') =
      subst (λ r. record_receipt r between ≡ (ok result, db')) same
        (subst (λ s. record_receipt done.receipt s ≡ (ok result, db')) kept
          (by_the_service plain done.recorded)) in
    let (settled, status, receipt_of) =
      record_receipt-settles receipt receipt between made fresh recorded in
    (
      subst (λ (r : DeliveryReceipt). r.part_id ≡ part.part.part_id) same done.own_receipt,
      settled,
      status,
      receipt_of,
    )
