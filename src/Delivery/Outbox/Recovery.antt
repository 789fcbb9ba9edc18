-- ===== src/Delivery/Outbox/Recovery.antt =====
-- `recover_inflight`: on valid tables every part that was being sent becomes UNKNOWN.
use astrbot_plugin_groupmate.Prelude.{
  ℕ, pos, ltb_ℤ, String, concat, strip, lstrip, rstrip, is_space, ◌≡◌, refl, subst, ap, ◌∙◌, true,
  false, not, none, some, List, [], ◌∷◌, map, All-map_of, keep, arith,
}
use astrbot_plugin_groupmate.Result.{ok, value_error, then_ok, then_require}
use astrbot_plugin_groupmate.Exec.{Exec, for_each, ◌>>◌}
use astrbot_plugin_groupmate.Delivery.Contracts.{
  OutboxStatus, DeliveryReceipt, delivery_text, create_receipt, optional_text,
}
use astrbot_plugin_groupmate.Delivery.Contracts.Normal.{create_part-part_id}
use astrbot_plugin_groupmate.Delivery.Database.{OutboxRow, Database, is_sending}
use astrbot_plugin_groupmate.Delivery.Database.Rows.{RowMoves, is_final}
use astrbot_plugin_groupmate.Delivery.Database.Valid.{IsValid, only_one}
use astrbot_plugin_groupmate.Delivery.Database.Sweep.{
  DoesUpdate, sweep, for_each-sweep, keep-All, update_part_congr,
}
use astrbot_plugin_groupmate.Delivery.Outbox.Receipt.{recovery_receipt, set_receipt, recover_one}
use astrbot_plugin_groupmate.Delivery.Outbox.Expiry.{with_status-RowMoves, Holds-IsFaithful}

-- the receipt as `create` returns it
abbrev pub recovered : String → ℕ → DeliveryReceipt
recovered id now =
    let r = recovery_receipt id (pos now) in record r { receipt_id = strip r.receipt_id }

recovery_id :
    (s : String)
    → delivery_text (concat "recovery-unknown:" s) ≡ ok (strip (concat "recovery-unknown:" s))
unfolding delivery_text strip lstrip rstrip concat is_space
recovery_id s = refl

no_message : optional_text none ≡ ok none
unfolding optional_text
no_message = refl

error_text :
    optional_text (some "send_interrupted_before_receipt")
    ≡ ok (some "send_interrupted_before_receipt")
unfolding optional_text delivery_text strip lstrip rstrip is_space
error_text = refl

not-negative : (now : ℕ) → not (ltb_ℤ (pos now) (pos 0)) ≡ true
not-negative now = ground arith

create_recovered :
    (id : String) (now : ℕ)
    → delivery_text id ≡ ok id
    → create_receipt (recovery_receipt id (pos now)) ≡ ok (recovered id now)
unfolding create_receipt
create_recovered id now h = then_ok _ (recovery_id _) (
    then_ok _ h (
      then_require value_error (not-negative now)
        (then_ok _ no_message (then_ok _ error_text refl))))

-- What recovery makes of a row that was being sent.
abbrev pub interrupt : ℕ → OutboxRow → OutboxRow
interrupt now r = set_receipt OutboxStatus.unknown (recovered r.part_id now) r

sending-not-final : (r : OutboxRow) → is_sending r.status ≡ true → is_final r.status ≡ false
sending-not-final r h = ground arith

pub interrupt-RowMoves :
    (now : ℕ) (r : OutboxRow) → is_sending r.status ≡ true → RowMoves r (interrupt now r)
interrupt-RowMoves now r h = with_status-RowMoves r (interrupt now r) (sending-not-final r h) refl

recover_one-DoesUpdate :
    (now : ℕ) (t : OutboxRow)
    → is_sending t.status ≡ true
    → DoesUpdate (interrupt now) (λ r. recover_one (pos now) r.part_id) t
unfolding recover_one
recover_one-DoesUpdate now t sending db v e =
    let f = Holds-IsFaithful db t v e in
    let text : delivery_text t.part_id ≡ ok t.part_id =
      subst (λ s. delivery_text s ≡ ok s) f.part_id (create_part-part_id _ _ f.readable) in
    (
      interrupt-RowMoves now t sending,
      rw (create_recovered t.part_id now text) (
          ap (λ rows. (ok tt, record db { outbox = rows }))
            (update_part_congr t.part_id _ (interrupt now) t db.outbox
              (only_one t.part_id db.outbox v.part_ids e) refl)),
    )

for_each-map :
    {A B : Type 0} (f : A → B) (body : B → Exec Database (Unit {0})) (xs : List A)
    → for_each body (map f xs) ≡ for_each (λ x. body (f x)) xs
unfolding for_each
for_each-map f body [] = refl
for_each-map f body (x ∷ xs) = ap (λ k. body (f x) >> k) (for_each-map f body xs)

-- The loop of `recover_inflight` makes every part that was being sent UNKNOWN, and no other.
pub recover-sweep :
    (now : ℕ) (db : Database)
    → IsValid db
    → for_each
        (recover_one (pos now))
        (map (λ r. r.part_id) (keep (λ r. is_sending r.status) db.outbox))
        db
      ≡ (
        ok tt,
        record db { outbox = map (sweep (λ r. is_sending r.status) (interrupt now)) db.outbox },
      )
recover-sweep now db v =
    ap (λ m. m db)
      (for_each-map (λ (r : OutboxRow). r.part_id) (recover_one (pos now))
        (keep (λ r. is_sending r.status) db.outbox))
    ∙ for_each-sweep (interrupt now) (λ r. refl) (λ r. recover_one (pos now) r.part_id)
        (λ r. is_sending r.status) db
        (All-map_of (recover_one-DoesUpdate now) _ (keep-All (λ r. is_sending r.status) db.outbox))
        v
