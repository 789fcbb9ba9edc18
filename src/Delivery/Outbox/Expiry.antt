-- ===== src/Delivery/Outbox/Expiry.antt =====
-- `_expire_ready` and `_suppress_replaced_progress` on valid tables: they never raise, and change
-- exactly the waiting rows that they are about.
use astrbot_plugin_groupmate.Prelude.{
  ℤ, String, ◌==◌, ◌≡◌, refl, sym, ap, ◌∙◌, Bool, true, false, ◌&&◌, List, [], ◌∷◌, map, All-map_of,
  All-intro, map_same, map_congr, any, keep, find-All, Bool-cases, inl, inr, if◌then◌else◌, arith,
}
use astrbot_plugin_groupmate.Result.{ok, raise, overflow_error}
use astrbot_plugin_groupmate.Exec.{for_each, pure, gets, ◌>>=◌}
use astrbot_plugin_groupmate.Delivery.Contracts.{
  OutboxStatus, DeliveryPart, DeliveryBundle, suppressed,
}
use astrbot_plugin_groupmate.Delivery.Database.{OutboxRow, Database, is_int64, has_id, is_waiting}
use astrbot_plugin_groupmate.Delivery.Database.Rows.{RowMoves, RowMoves-refl, is_final}
use astrbot_plugin_groupmate.Delivery.Database.Valid.{IsValid, IsFaithful, only_one}
use astrbot_plugin_groupmate.Delivery.Database.Evolution.{Evolves, Evolves-refl, map-Evolves}
use astrbot_plugin_groupmate.Delivery.Database.Sweep.{
  Holds, DoesUpdate, sweep, for_each-sweep, keep-All, update_part_congr, update_part_same,
}
use astrbot_plugin_groupmate.Delivery.Outbox.{
  is_among, is_due, is_none, set_status, expire_one, expire_ready, is_replaced, suppress_one,
  result_task_ids, suppress_replaced_progress,
}

pub with_status-RowMoves :
    (r s : OutboxRow)
    → is_final r.status ≡ false
    → s ≡ record r { status = s.status; receipt_json = s.receipt_json }
    → RowMoves r s
with_status-RowMoves r s h e = record {
  part_id = ap (λ (x : OutboxRow). x.part_id) e;
  bundle_id = ap (λ (x : OutboxRow). x.bundle_id) e;
  idempotency_key = ap (λ (x : OutboxRow). x.idempotency_key) e;
  payload_json = ap (λ (x : OutboxRow). x.payload_json) e;
  expires_at = ap (λ (x : OutboxRow). x.expires_at) e;
  final_stays = λ f. absurd (cc);
}

waiting-not-final : (r : OutboxRow) → is_waiting r.status ≡ true → is_final r.status ≡ false
waiting-not-final r h = ground arith

pub Holds-IsFaithful : (db : Database) (t : OutboxRow) → IsValid db → Holds db t → IsFaithful t
Holds-IsFaithful db t v e = (find-All IsFaithful (has_id t.part_id) db.outbox v.faithful e).0

-- What expiry makes of a row: a decorative part becomes suppressed, any other part expired.
abbrev pub lapse : OutboxRow → OutboxRow
lapse r = record r {
  status = if r.payload_json.decorative then OutboxStatus.suppressed else OutboxStatus.expired;
}

expire_one-DoesUpdate :
    (now : ℤ) (t : OutboxRow) → is_due now t ≡ true → DoesUpdate lapse expire_one t
unfolding expire_one
expire_one-DoesUpdate now t due db v e =
    let f = Holds-IsFaithful db t v e in
    (
      with_status-RowMoves t (lapse t) (waiting-not-final t (ground arith)) refl,
      rw f.readable (
          rw f.part_id (
            ap (λ rows. (ok tt, record db { outbox = rows }))
              (update_part_congr t.part_id _ lapse t db.outbox
                (only_one t.part_id db.outbox v.part_ids e) refl))),
    )

-- On valid tables and at a time of 64 bits, `_expire_ready` returns, and changes the rows of the
-- waiting parts that are due and no others: a decorative part becomes suppressed, any other expired.
pub expire_ready-sweep :
    (now : ℤ) (db : Database)
    → IsValid db
    → is_int64 now ≡ true
    → expire_ready now db ≡ (ok tt, record db { outbox = map (sweep (is_due now) lapse) db.outbox })
unfolding expire_ready
expire_ready-sweep now db v fits = rw fits (
    for_each-sweep lapse (λ r. refl) expire_one (is_due now) db
      (All-map_of (expire_one-DoesUpdate now) (keep (is_due now) db.outbox)
        (keep-All (is_due now) db.outbox))
      v)

pub sweep-RowMoves :
    (q : OutboxRow → Bool) (f : OutboxRow → OutboxRow)
    → ((r : OutboxRow) → q r ≡ true → RowMoves r (f r))
    → (r : OutboxRow) → RowMoves r (sweep q f r)
sweep-RowMoves q f h r = elim (Bool-cases (q r)) [
  | inl hit ↦ rw hit (h r hit)
  | inr miss ↦ rw miss (RowMoves-refl r)
]

pub expire_ready_late :
    (now : ℤ) (db : Database)
    → is_int64 now ≡ false
    → expire_ready now db ≡ (raise overflow_error, db)
unfolding expire_ready
expire_ready_late now db h = rw h refl

pub expired-Evolves :
    (now : ℤ) (db : Database)
    → IsValid db
    → Evolves db (record db { outbox = map (sweep (is_due now) lapse) db.outbox })
expired-Evolves now db v = map-Evolves _ db v (
    sweep-RowMoves (is_due now) lapse
      (λ r due. with_status-RowMoves r (lapse r) (waiting-not-final r (ground arith)) refl))

pub expire_ready-Evolves :
    (now : ℤ) (db : Database) → IsValid db → Evolves db (expire_ready now db).1
expire_ready-Evolves now db v = elim (Bool-cases (is_int64 now)) [
  | inr outside ↦ rw (expire_ready_late now db outside) (Evolves-refl db v)
  | inl fits ↦ rw (expire_ready-sweep now db v fits) (expired-Evolves now db v)
]

-- What a bundle's results make of a waiting row.
abbrev replace : List String → OutboxRow → OutboxRow
replace ids r = if is_replaced ids r.payload_json then set_status suppressed r else r

abbrev pub is_superseded : List String → OutboxRow → Bool
is_superseded ids r =
    is_waiting r.status
    && (r.payload_json.role == "progress" && is_among r.payload_json.task_id ids)

replace-RowMoves :
    (ids : List String) (r : OutboxRow) → is_waiting r.status ≡ true → RowMoves r (replace ids r)
replace-RowMoves ids r h = elim (Bool-cases (is_replaced ids r.payload_json)) [
  | inl hit ↦ rw hit (with_status-RowMoves r (set_status suppressed r) (waiting-not-final r h) refl)
  | inr miss ↦ rw miss (RowMoves-refl r)
]

suppress_one-DoesUpdate :
    (ids : List String) (t : OutboxRow)
    → is_waiting t.status ≡ true
    → DoesUpdate (replace ids) (suppress_one ids) t
unfolding suppress_one
suppress_one-DoesUpdate ids t waiting db v e =
    let f = Holds-IsFaithful db t v e in
    let one = only_one t.part_id db.outbox v.part_ids e in
    (
      replace-RowMoves ids t waiting,
      rw f.readable (elim (Bool-cases (is_replaced ids t.payload_json)) [
        | inl hit ↦ rw hit (
            rw f.part_id (
              ap (λ rows. (ok tt, record db { outbox = rows }))
                (update_part_congr t.part_id (set_status suppressed) (replace ids) t db.outbox one
                  (rw hit))))
        | inr miss ↦ rw miss (
            ap (λ rows. (ok tt, record db { outbox = rows }))
              (sym (update_part_same t.part_id (replace ids) t db.outbox one (rw miss))))
      ]),
    )

nothing_replaced : (p : DeliveryPart) → is_replaced [] p ≡ false
nothing_replaced p = unfold any in ground arith

-- On valid tables, `_suppress_replaced_progress` returns, and changes the rows of the waiting
-- progress parts of the tasks that the bundle has results of, which become suppressed, and no others.
pub suppress_replaced_progress-sweep :
    (b : DeliveryBundle) (db : Database)
    → IsValid db
    → suppress_replaced_progress b db ≡ (
      ok tt,
      record db {
        outbox =
            map (sweep (is_superseded (result_task_ids b.parts)) (set_status suppressed)) db.outbox;
      },
    )
unfolding suppress_replaced_progress
suppress_replaced_progress-sweep b db v = by_ids (result_task_ids b.parts)
  where
    by_ids :
        (ids : List String)
        → (if is_none ids then pure tt else do
          rows ← gets (λ (s : Database). keep (λ row. is_waiting row.status) s.outbox)
          for_each (suppress_one ids) rows)
            db
          ≡ (
            ok tt,
            record db {
              outbox = map (sweep (is_superseded ids) (set_status suppressed)) db.outbox;
            },
          )
    by_ids [] =
        ap (λ rows. (ok tt, record db { outbox = rows }))
          (sym (
            map_same _ db.outbox
              (All-intro (λ r. rw (nothing_replaced r.payload_json) (ground arith)) db.outbox)))
    by_ids (i ∷ is) =
        for_each-sweep (replace (i ∷ is)) (λ r. ground arith) (suppress_one (i ∷ is))
          (λ r. is_waiting r.status) db
          (All-map_of (suppress_one-DoesUpdate (i ∷ is)) _
            (keep-All (λ r. is_waiting r.status) db.outbox))
          v
        ∙ ap (λ rows. (ok tt, record db { outbox = rows }))
            (map_congr _ _ db.outbox (All-intro (λ r. ground arith) db.outbox))

pub suppress_replaced_progress-Evolves :
    (b : DeliveryBundle) (db : Database)
    → IsValid db
    → Evolves db (suppress_replaced_progress b db).1
suppress_replaced_progress-Evolves b db v = rw (suppress_replaced_progress-sweep b db v) (
    map-Evolves _ db v (
      sweep-RowMoves _ _ (λ r h.
        with_status-RowMoves r (set_status suppressed r) (waiting-not-final r (ground arith))
          refl)))
