-- ===== src/Delivery/Outbox/Tables.antt =====
-- The INSERT statements keep valid tables valid.
use astrbot_plugin_groupmate.Prelude.{
  not, ◌||◌, ◌==◌, ◌≡◌, refl, [], ◌∷◌, any, All-append, Bool-cases, inl, inr, arith,
}
use astrbot_plugin_groupmate.Delivery.Database.{
  BundleRow, OutboxRow, JournalRow, Database, insert_row, insert_bundle, insert_journal, is_int64,
}
use astrbot_plugin_groupmate.Delivery.Database.Valid.{
  IsFaithful, insert_row-IsValid, insert_row-Grows,
}
use astrbot_plugin_groupmate.Delivery.Database.Evolution.{Evolves-refl, Extends-refl, IsReadable}
use astrbot_plugin_groupmate.Delivery.Outbox.Safe.{Safe}

pub insert_bundle-Safe : (row : BundleRow) → IsReadable row → Safe (insert_bundle row)
unfolding insert_bundle
insert_bundle-Safe row readable = record {
  at = λ db v.
      elim (Bool-cases
        (not (is_int64 row.expires_at) || any (λ r. r.bundle_id == row.bundle_id) db.bundles)) [
          | inl clash ↦ rw clash (Evolves-refl db v)
          | inr fresh ↦ rw fresh (record {
            valid = record {
              part_ids = v.part_ids;
              idempotency_keys = v.idempotency_keys;
              faithful = v.faithful;
            };
            rows = (Evolves-refl db v).rows;
            bundles = (row ∷ [], refl);
            journal = Extends-refl db.journal;
            readable = λ h. All-append IsReadable db.bundles (row ∷ []) h (readable, tt);
          })
        ];
}

pub insert_journal-Safe : (row : JournalRow) → Safe (insert_journal row)
unfolding insert_journal
insert_journal-Safe row = record {
  at = λ db v.
      elim (Bool-cases
        (not (is_int64 row.committed_at) || any (λ r. r.effect_id == row.effect_id) db.journal)) [
          | inl clash ↦ rw clash (Evolves-refl db v)
          | inr fresh ↦ rw fresh (record {
            valid = record {
              part_ids = v.part_ids;
              idempotency_keys = v.idempotency_keys;
              faithful = v.faithful;
            };
            rows = (Evolves-refl db v).rows;
            bundles = Extends-refl db.bundles;
            journal = (row ∷ [], refl);
            readable = λ h. h;
          })
        ];
}

pub insert_row-tables :
    (row : OutboxRow) (db : Database)
    → ((insert_row row db).1.bundles ≡ db.bundles) × ((insert_row row db).1.journal ≡ db.journal)
unfolding insert_row
insert_row-tables row db = ground arith

pub insert_row-Safe : (row : OutboxRow) → IsFaithful row → Safe (insert_row row)
insert_row-Safe row f = record {
  at = λ db v. record {
    valid = insert_row-IsValid row db f v;
    rows = insert_row-Grows row db;
    bundles = rw (insert_row-tables row db).0 (Extends-refl db.bundles);
    journal = rw (insert_row-tables row db).1 (Extends-refl db.journal);
    readable = λ h. rw (insert_row-tables row db).0 h;
  };
}
