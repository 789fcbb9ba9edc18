-- ===== src/Delivery/Database/Evolution.antt =====
-- How an operation may change the tables: every method of the service relates them so.
use mathlib.Core.List.{append-nil, append_assoc}
use astrbot_plugin_groupmate.Prelude.{
  String, ◌≡◌, sym, ap, ◌∙◌, some, List, [], ◌++◌, map, All, All-intro, find,
}
use astrbot_plugin_groupmate.Result.{ok}
use astrbot_plugin_groupmate.Delivery.Contracts.{bundle_from_dict}
use astrbot_plugin_groupmate.Delivery.Database.{BundleRow, OutboxRow, Database, has_id, update_part}
use astrbot_plugin_groupmate.Delivery.Database.Rows.{
  RowMoves, Grows, Grows-refl, Grows-trans, Grows-map,
}
use astrbot_plugin_groupmate.Delivery.Database.Valid.{IsValid, map-IsValid, update_part-IsValid}

-- `ys` is `xs` with something appended.
abbrev pub Extends {ℓ} : {A : Type ℓ} → List A → List A → Type ℓ
Extends {A = A} xs ys = (zs : List A) × (ys ≡ xs ++ zs)

pub Extends-refl {ℓ} : {A : Type ℓ} (xs : List A) → Extends xs xs
Extends-refl xs = ([], sym (append-nil xs))

pub Extends-trans {ℓ} :
    {A : Type ℓ} (xs ys zs : List A) → Extends xs ys → Extends ys zs → Extends xs zs
Extends-trans xs ys zs (us, e) (vs, f) = (us ++ vs, f ∙ ap (λ l. l ++ vs) e ∙ append_assoc xs us vs)

-- A stored bundle that reads back as itself.
abbrev pub IsReadable : BundleRow → Type 0
IsReadable b = bundle_from_dict b.bundle_json ≡ ok b.bundle_json

-- The tables stay valid, rows move, bundles and receipts are only added.
pub record Evolves (db db' : Database) : Type 0 where
  pub valid : IsValid db'
  pub rows : Grows db.outbox db'.outbox
  pub bundles : Extends db.bundles db'.bundles
  pub journal : Extends db.journal db'.journal
  pub readable : All IsReadable db.bundles → All IsReadable db'.bundles

pub Evolves-refl : (db : Database) → IsValid db → Evolves db db
Evolves-refl db v = record {
  valid = v;
  rows = Grows-refl db.outbox;
  bundles = Extends-refl db.bundles;
  journal = Extends-refl db.journal;
  readable = λ h. h;
}

pub Evolves-trans : (a b c : Database) → Evolves a b → Evolves b c → Evolves a c
Evolves-trans a b c h k = record {
  valid = k.valid;
  rows = Grows-trans a.outbox b.outbox c.outbox h.rows k.rows;
  bundles = Extends-trans a.bundles b.bundles c.bundles h.bundles k.bundles;
  journal = Extends-trans a.journal b.journal c.journal h.journal k.journal;
  readable = λ r. k.readable (h.readable r);
}

-- A row by row change that moves each row.
pub map-Evolves :
    (f : OutboxRow → OutboxRow) (db : Database)
    → IsValid db
    → ((r : OutboxRow) → RowMoves r (f r))
    → Evolves db (record db { outbox = map f db.outbox })
map-Evolves f db v m = record {
  valid = map-IsValid f db (All-intro m db.outbox) v;
  rows = Grows-map f db.outbox (All-intro m db.outbox);
  bundles = Extends-refl db.bundles;
  journal = Extends-refl db.journal;
  readable = λ h. h;
}

-- An UPDATE of one row that moves it.
pub update-Evolves :
    (id : String) (f : OutboxRow → OutboxRow) (t : OutboxRow) (db : Database)
    → IsValid db
    → find (has_id id) db.outbox ≡ some t
    → RowMoves t (f t)
    → Evolves db (record db { outbox = update_part id f db.outbox })
update-Evolves id f t db v e m =
    let both = update_part-IsValid id f t db v e m in
    record {
      valid = both.0;
      rows = both.1;
      bundles = Extends-refl db.bundles;
      journal = Extends-refl db.journal;
      readable = λ h. h;
    }
