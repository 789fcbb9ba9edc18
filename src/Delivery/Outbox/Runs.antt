-- ===== src/Delivery/Outbox/Runs.antt =====
-- Runs of the outbox service of groupmate/social_runtime/delivery/outbox.py: its methods, called in
-- any order with any arguments, each in one transaction, whether they return or raise.
use astrbot_plugin_groupmate.Prelude.{
  ℤ, String, ◌==◌, ◌≡◌, refl, Bool, true, some, List, [], ◌∷◌, ◌++◌, find, Bool-cases, inl, inr,
}
use astrbot_plugin_groupmate.Delivery.Contracts.{distinct, DeliveryBundle, DeliveryReceipt}
use astrbot_plugin_groupmate.Delivery.Database.{
  OutboxRow, BundleRow, JournalRow, Database, is_int64, find_part, find_bundle, find_effect,
}
use astrbot_plugin_groupmate.Delivery.Database.Rows.{is_final, find-Grows}
use astrbot_plugin_groupmate.Delivery.Database.Valid.{IsValid}
use astrbot_plugin_groupmate.Delivery.Database.Evolution.{Evolves, Evolves-refl, Evolves-trans}
use astrbot_plugin_groupmate.Delivery.Outbox.{OutboxService, commit_bundle}
use astrbot_plugin_groupmate.Delivery.Outbox.Claim.{claim_ready}
use astrbot_plugin_groupmate.Delivery.Outbox.Receipt.{record_receipt, recover_inflight}
use astrbot_plugin_groupmate.Delivery.Outbox.Claimed.{claim_ready-Safe}
use astrbot_plugin_groupmate.Delivery.Outbox.Commit.{commit_bundle-Safe}
use astrbot_plugin_groupmate.Delivery.Outbox.Lifecycle.{record_receipt-Safe, recover_inflight-Safe}
use astrbot_plugin_groupmate.Delivery.Outbox.Returns.{Returns, Answers, claim_ready-Returns}
use astrbot_plugin_groupmate.Prelude.{pos, ltb_ℤ, not}

-- One call of a method that writes.
pub data Call : Type 0 where
  commit : OutboxService → DeliveryBundle → Call
  claim : OutboxService → ℤ → ℤ → Call
  record_it : DeliveryReceipt → Call
  recover : ℤ → Call

abbrev pub after : Call → Database → Database
after (commit svc b) db = (commit_bundle svc b db).1
after (claim svc now limit) db = (claim_ready svc now limit db).1
after (record_it r) db = (record_receipt r db).1
after (recover now) db = (recover_inflight now db).1

-- The databases that calls lead to.
pub data Reaches (start : Database) : Database → Type 0 where
  here : Reaches start start
  call : {db : Database} → Reaches start db → (c : Call) → Reaches start (after c db)

call-Evolves : (c : Call) (db : Database) → IsValid db → Evolves db (after c db)
call-Evolves (commit svc b) db v = (commit_bundle-Safe svc b).at db v
call-Evolves (claim svc now limit) db v = (claim_ready-Safe svc now limit).at db v
call-Evolves (record_it r) db v = (record_receipt-Safe r).at db v
call-Evolves (recover now) db v = (recover_inflight-Safe now).at db v

pub Reaches-Evolves : {start db : Database} → IsValid start → Reaches start db → Evolves start db
Reaches-Evolves {start} v here = Evolves-refl start v
Reaches-Evolves {start} v (call {db = db} before c) =
    let first = Reaches-Evolves v before in
    Evolves-trans start db _ first (call-Evolves c db first.valid)

abbrev pub empty_database : Database
empty_database = record { bundles = []; outbox = []; journal = [] }

empty-IsValid : IsValid empty_database
unfolding distinct
empty-IsValid = record { part_ids = refl; idempotency_keys = refl; faithful = tt }

-- Every database that calls of the service lead to from the empty one is valid: no two parts share
-- an id or an idempotency key, and every row repeats its payload, which reads back as itself.
pub Reaches-IsValid : {db : Database} → Reaches empty_database db → IsValid db
Reaches-IsValid run = (Reaches-Evolves empty-IsValid run).valid

-- A part of valid tables that was sent, failed, became unknown, expired or was suppressed keeps its
-- row, receipt included, through every run of the service.
pub final-stays :
    {start db : Database} (id : String) {row : OutboxRow}
    → IsValid start
    → Reaches start db
    → find_part id start ≡ some row
    → is_final row.status ≡ true
    → find_part id db ≡ some row
unfolding find_part
final-stays {start} {db} id v run e f =
    let (s, found, moves) = find-Grows id start.outbox db.outbox (Reaches-Evolves v run).rows e in
    rw (← moves.final_stays f) found

-- From every database that calls of the service lead to from the empty one, `claim_ready` at a time of
-- 64 bits and with a positive limit returns when the authorizers answer about the stored bundles: no
-- row and no bundle that it reads makes it raise.
pub claim_ready-Reaches :
    (svc : OutboxService) (now limit : ℤ) {db : Database}
    → Reaches empty_database db
    → Answers svc db
    → is_int64 now ≡ true
    → not (ltb_ℤ limit (pos 1)) ≡ true
    → Returns (claim_ready svc now limit) db
claim_ready-Reaches svc now limit run answers fits positive =
    let moved = Reaches-Evolves empty-IsValid run in
    claim_ready-Returns svc now limit _ moved.valid (moved.readable tt) answers fits positive

find-append :
    {A : Type 0} (p : A → Bool) (xs zs : List A) {a : A}
    → find p xs ≡ some a
    → find p (xs ++ zs) ≡ some a
unfolding find
find-append p [] zs h = absurd (cc)
find-append p (x ∷ xs) zs h = elim (Bool-cases (p x)) [
  | inl hit ↦ rw hit (rw hit at h)
  | inr miss ↦ rw miss (find-append p xs zs (rw miss at h))
]

-- Through every run of the service from valid tables, a bundle that is stored stays stored, and a
-- receipt in the journal stays there, both unchanged.
pub stored-stays :
    {start db : Database}
    → IsValid start
    → Reaches start db
    → ((id : String) (b : BundleRow) → find_bundle id start ≡ some b → find_bundle id db ≡ some b)
      × ((id : String) (j : JournalRow)
          → find_effect id start ≡ some j
          → find_effect id db ≡ some j)
unfolding find_bundle find_effect
stored-stays {start} {db} v run =
    let moved = Reaches-Evolves v run in
    (
      λ id b e.
          rw moved.bundles.1 (find-append (λ r. r.bundle_id == id) start.bundles moved.bundles.0 e),
      λ id j e.
          rw moved.journal.1 (find-append (λ r. r.effect_id == id) start.journal moved.journal.0 e),
    )
