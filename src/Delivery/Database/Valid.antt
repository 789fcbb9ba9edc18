-- ===== src/Delivery/Database/Valid.antt =====
-- The well-formed tables: the keys that the schema declares, and rows that repeat their payload.
use mathlib.Core.List.{map-append}
use astrbot_plugin_groupmate.Prelude.{
  String, not, ◌||◌, ◌==◌, text_eq, text_eq_comm, ◌≡◌, refl, ap₂, true, false, some, List, [], ◌∷◌,
  ◌++◌, map, any, any-append, All, All-append, All-map_of, find, Bool-cases, inl, inr,
  if◌then◌else◌, arith,
}
use astrbot_plugin_groupmate.Result.{ok}
use astrbot_plugin_groupmate.Delivery.Contracts.{distinct, create_part}
use astrbot_plugin_groupmate.Delivery.Database.{
  OutboxRow, Database, has_id, update_part, clashes, insert_row, is_int64,
}
use astrbot_plugin_groupmate.Delivery.Database.Rows.{
  RowMoves, RowMoves-refl, Grows, Grows-refl, Grows-append, Grows-map,
}

-- A row repeats its payload, which reads back as itself.
pub record IsFaithful (r : OutboxRow) : Type 0 where
  pub part_id : r.payload_json.part_id ≡ r.part_id
  pub idempotency_key : r.payload_json.idempotency_key ≡ r.idempotency_key
  pub expires_at : r.payload_json.expires_at ≡ r.expires_at
  pub readable : create_part r.payload_json ≡ ok r.payload_json

abbrev pub ids : List OutboxRow → List String
ids rows = map (λ r. r.part_id) rows

abbrev pub keys : List OutboxRow → List String
keys rows = map (λ r. r.idempotency_key) rows

pub record IsValid (db : Database) : Type 0 where
  pub part_ids : distinct (ids db.outbox) ≡ true
  pub idempotency_keys : distinct (keys db.outbox) ≡ true
  pub faithful : All IsFaithful db.outbox

pub RowMoves-IsFaithful : (r s : OutboxRow) → RowMoves r s → IsFaithful r → IsFaithful s
RowMoves-IsFaithful r s m f = record {
  part_id = rw (m.payload_json, m.part_id) f.part_id;
  idempotency_key = rw (m.payload_json, m.idempotency_key) f.idempotency_key;
  expires_at = rw (m.payload_json, m.expires_at) f.expires_at;
  readable = rw m.payload_json f.readable;
}

-- What the tables keep when rows move in place.
module _ (f : OutboxRow → OutboxRow) where
  ids-map : (rows : List OutboxRow) → All (λ r. RowMoves r (f r)) rows → ids (map f rows) ≡ ids rows
  ids-map [] h = refl
  ids-map (r ∷ rows) h = ap₂ (λ (x : String) xs. x ∷ xs) h.0.part_id (ids-map rows h.1)

  keys-map :
      (rows : List OutboxRow) → All (λ r. RowMoves r (f r)) rows → keys (map f rows) ≡ keys rows
  keys-map [] h = refl
  keys-map (r ∷ rows) h = ap₂ (λ (x : String) xs. x ∷ xs) h.0.idempotency_key (keys-map rows h.1)

  IsFaithful-map :
      (rows : List OutboxRow)
      → All (λ r. RowMoves r (f r)) rows
      → All IsFaithful rows
      → All IsFaithful (map f rows)
  IsFaithful-map [] h k = tt
  IsFaithful-map (r ∷ rows) h k = (RowMoves-IsFaithful r (f r) h.0 k.0, IsFaithful-map rows h.1 k.1)

  pub map-IsValid :
      (db : Database)
      → All (λ r. RowMoves r (f r)) db.outbox
      → IsValid db
      → IsValid (record db { outbox = map f db.outbox })
  map-IsValid db h v = record {
    part_ids = rw (ids-map db.outbox h) v.part_ids;
    idempotency_keys = rw (keys-map db.outbox h) v.idempotency_keys;
    faithful = IsFaithful-map db.outbox h v.faithful;
  }

distinct-snoc :
    (xs : List String) (t : String)
    → distinct xs ≡ true
    → any (λ x. x == t) xs ≡ false
    → distinct (xs ++ t ∷ []) ≡ true
unfolding distinct any
distinct-snoc [] t h k = refl
distinct-snoc (x ∷ xs) t h k =
    ground (arith, any-append (λ y. y == x) xs (t ∷ []), distinct-snoc xs t, text_eq_comm t x)

no-clash :
    (row : OutboxRow) (rows : List OutboxRow)
    → clashes row rows ≡ false
    → (any (λ x. x == row.part_id) (ids rows) ≡ false)
      × (any (λ x. x == row.idempotency_key) (keys rows) ≡ false)
unfolding any
no-clash row [] h = (refl, refl)
no-clash row (r ∷ rows) h = ground (arith, no-clash row rows)

-- A new row without a clash keeps the keys; one with a clash is refused.
pub insert_row-IsValid :
    (row : OutboxRow) (db : Database) → IsFaithful row → IsValid db → IsValid (insert_row row db).1
unfolding insert_row
insert_row-IsValid row db f v =
    elim (Bool-cases (not (is_int64 row.expires_at) || clashes row db.outbox)) [
      | inl clash ↦ rw clash v
      | inr fresh ↦
          let free = no-clash row db.outbox (ground arith) in
          rw fresh (record {
            part_ids =
                rw (map-append (λ (r : OutboxRow). r.part_id) db.outbox (row ∷ []))
                  (distinct-snoc (ids db.outbox) row.part_id v.part_ids free.0);
            idempotency_keys =
                rw (map-append (λ (r : OutboxRow). r.idempotency_key) db.outbox (row ∷ []))
                  (distinct-snoc (keys db.outbox) row.idempotency_key v.idempotency_keys free.1);
            faithful = All-append IsFaithful db.outbox (row ∷ []) v.faithful (f, tt);
          })
    ]

pub insert_row-Grows :
    (row : OutboxRow) (db : Database) → Grows db.outbox (insert_row row db).1.outbox
unfolding insert_row
insert_row-Grows row db =
    elim (Bool-cases (not (is_int64 row.expires_at) || clashes row db.outbox)) [
      | inl clash ↦ rw clash (Grows-refl db.outbox)
      | inr fresh ↦ rw fresh (Grows-append db.outbox (row ∷ []))
    ]

-- With distinct ids, a row that is found by its id is the only one with it.
not-there :
    (id : String) (rows : List OutboxRow)
    → any (λ x. x == id) (ids rows) ≡ false
    → (P : OutboxRow → Type 0) → All (λ r. has_id id r ≡ true → P r) rows
unfolding any
not-there id [] h P = tt
not-there id (r ∷ rows) h P = (λ hit. absurd (ground arith), not-there id rows (ground arith) P)

pub only_one :
    (id : String) (rows : List OutboxRow) {t : OutboxRow}
    → distinct (ids rows) ≡ true
    → find (has_id id) rows ≡ some t
    → All (λ r. has_id id r ≡ true → r ≡ t) rows
unfolding distinct find
only_one id [] d e = tt
only_one id (r ∷ rows) {t} d e = elim (Bool-cases (has_id id r)) [
  | inl hit ↦
      let same : r ≡ t = ground arith in
      let key : r.part_id ≡ id = (text_eq r.part_id id).0 hit in
      (λ _. same, not-there id rows (rw (← key) (ground arith)) (λ x. x ≡ t))
  | inr miss ↦ (λ hit. absurd (cc), only_one id rows (ground arith) (rw miss at e))
]

moves-only :
    (id : String) (f : OutboxRow → OutboxRow) (t r : OutboxRow)
    → RowMoves t (f t)
    → (has_id id r ≡ true → r ≡ t)
    → RowMoves r (if has_id id r then f r else r)
moves-only id f t r m h = elim (Bool-cases (has_id id r)) [
  | inl hit ↦ rw hit (rw (h hit) m)
  | inr miss ↦ rw miss (RowMoves-refl r)
]

-- An update of the one row with an id, when it moves that row.
pub update_part-IsValid :
    (id : String) (f : OutboxRow → OutboxRow) (t : OutboxRow) (db : Database)
    → IsValid db
    → find (has_id id) db.outbox ≡ some t
    → RowMoves t (f t)
    → IsValid (record db { outbox = update_part id f db.outbox })
      × Grows db.outbox (update_part id f db.outbox)
unfolding update_part
update_part-IsValid id f t db v e m =
    let moved =
      All-map_of (λ r. moves-only id f t r m) db.outbox (only_one id db.outbox v.part_ids e) in
    (map-IsValid _ db moved v, Grows-map _ db.outbox moved)

-- It leaves every other row where it is.
pub find-update_part_ne :
    (id j : String) (f : OutboxRow → OutboxRow) (rows : List OutboxRow)
    → ((r : OutboxRow) → (f r).part_id ≡ r.part_id)
    → (id == j) ≡ false
    → find (has_id j) (update_part id f rows) ≡ find (has_id j) rows
unfolding find update_part
find-update_part_ne id j f [] same d = refl
find-update_part_ne id j f (r ∷ rows) same d = ground (
  arith,
  find-update_part_ne id j f rows same d,
  same r,
  text_eq r.part_id id,
  text_eq r.part_id j,
  text_eq id j,
)
