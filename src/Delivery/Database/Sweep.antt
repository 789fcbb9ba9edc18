-- ===== src/Delivery/Database/Sweep.antt =====
-- The loops `SELECT ... ; for row in rows: UPDATE ... WHERE part_id=?`: on tables with distinct ids
-- they change the selected rows, each once, and nothing else.
use astrbot_plugin_groupmate.Prelude.{
  String, ◌==◌, text_eq, text_eq_comm, text_eq_refl, ◌≡◌, refl, sym, ap, ap₂, subst, map_congr,
  map_same, ◌∙◌, Bool, true, false, some, List, [], ◌∷◌, map, any, All, All-map_of, All-intro, keep,
  find, Bool-cases, inl, inr, if◌then◌else◌, arith,
}
use astrbot_plugin_groupmate.Result.{ok}
use astrbot_plugin_groupmate.Exec.{Exec, for_each}
use astrbot_plugin_groupmate.Delivery.Contracts.{distinct}
use astrbot_plugin_groupmate.Delivery.Database.{OutboxRow, Database, has_id, update_part}
use astrbot_plugin_groupmate.Delivery.Database.Rows.{RowMoves}
use astrbot_plugin_groupmate.Delivery.Database.Valid.{
  IsValid, ids, update_part-IsValid, find-update_part_ne,
}

abbrev pub Holds : Database → OutboxRow → Type 0
Holds db t = find (has_id t.part_id) db.outbox ≡ some t

-- the rows of a list of ids, changed
abbrev pub change_all : (OutboxRow → OutboxRow) → List OutboxRow → OutboxRow → OutboxRow
change_all f todo r = if any (λ x. x == r.part_id) (ids todo) then f r else r

abbrev with_outbox : Database → List OutboxRow → Database
with_outbox db rows = record db { outbox = rows }

-- What one round of a loop does.
abbrev pub DoesUpdate :
    (OutboxRow → OutboxRow) → (OutboxRow → Exec Database (Unit {0})) → OutboxRow → Type 0
DoesUpdate f body t =
    (db : Database)
    → IsValid db
    → Holds db t
    → RowMoves t (f t) × (body t db ≡ (ok tt, with_outbox db (update_part t.part_id f db.outbox)))

module _ (f : OutboxRow → OutboxRow) (keeps_id : (r : OutboxRow) → (f r).part_id ≡ r.part_id) where
  one-then-all :
      (t : OutboxRow) (todo : List OutboxRow)
      → any (λ x. x == t.part_id) (ids todo) ≡ false
      → (r : OutboxRow)
      → change_all f todo (if has_id t.part_id r then f r else r) ≡ change_all f (t ∷ todo) r
  unfolding any
  one-then-all t todo d r = elim (Bool-cases (has_id t.part_id r)) [
    | inl hit ↦
        let same : t.part_id ≡ (f r).part_id = sym (keeps_id r ∙ (text_eq _ _).0 hit) in
        let missing : any (λ x. x == (f r).part_id) (ids todo) ≡ false =
          subst (λ z. any (λ x. x == z) (ids todo) ≡ false) same d in
        rw (hit, missing, text_eq_comm t.part_id r.part_id, hit)
    | inr miss ↦ rw (miss, text_eq_comm t.part_id r.part_id, miss)
  ]

  map-one-then-all :
      (t : OutboxRow) (todo rows : List OutboxRow)
      → any (λ x. x == t.part_id) (ids todo) ≡ false
      → map (change_all f todo) (update_part t.part_id f rows) ≡ map (change_all f (t ∷ todo)) rows
  unfolding update_part
  map-one-then-all t todo [] d = refl
  map-one-then-all t todo (r ∷ rows) d =
      ap₂ (λ (x : OutboxRow) xs. x ∷ xs) (one-then-all t todo d r) (map-one-then-all t todo rows d)

  others-Holds :
      (t : OutboxRow) (todo : List OutboxRow) (db : Database)
      → any (λ x. x == t.part_id) (ids todo) ≡ false
      → All (Holds db) todo
      → All (Holds (with_outbox db (update_part t.part_id f db.outbox))) todo
  unfolding any
  others-Holds t [] db d h = tt
  others-Holds t (s ∷ todo) db d h = (
    find-update_part_ne t.part_id s.part_id f db.outbox keeps_id
          (ground (arith, text_eq_comm t.part_id s.part_id))
        ∙ h.0,
    others-Holds t todo db (ground arith) h.1,
  )

  module _ (body : OutboxRow → Exec Database (Unit {0})) where
    pub for_each-change_all :
        (todo : List OutboxRow)
        → All (DoesUpdate f body) todo
        → distinct (ids todo) ≡ true
        → (db : Database) → IsValid db
        → All (Holds db) todo
        → for_each body todo db ≡ (ok tt, with_outbox db (map (change_all f todo) db.outbox))
    unfolding for_each distinct any
    for_each-change_all [] spec d db v h =
        ap (λ rows. (ok tt, with_outbox db rows))
          (sym (map_same _ db.outbox (All-intro (λ r. refl) db.outbox)))
    for_each-change_all (t ∷ todo) spec d db v h =
        let (moves, done) = spec.0 db v h.0 in
        let fresh : any (λ x. x == t.part_id) (ids todo) ≡ false = ground arith in
        let next = update_part-IsValid t.part_id f t db v h.0 moves in
        rw done (
          for_each-change_all todo spec.1 (ground arith) _ next.0 (others-Holds t todo db fresh h.1)
          ∙ ap (λ rows. (ok tt, with_outbox db rows)) (map-one-then-all t todo db.outbox fresh))

not-kept :
    (q : OutboxRow → Bool) (id : String) (rows : List OutboxRow)
    → any (λ x. x == id) (ids rows) ≡ false
    → any (λ x. x == id) (ids (keep q rows)) ≡ false
unfolding any keep
not-kept q id [] h = refl
not-kept q id (r ∷ rows) h = ground (arith, not-kept q id rows)

selected-tail :
    (q : OutboxRow → Bool) (t : OutboxRow) (kept : List String) (rows : List OutboxRow)
    → any (λ x. x == t.part_id) (ids rows) ≡ false
    → All (λ r. any (λ x. x == r.part_id) kept ≡ q r) rows
    → All (λ r. any (λ x. x == r.part_id) (t.part_id ∷ kept) ≡ q r) rows
unfolding any
selected-tail q t kept [] h k = tt
selected-tail q t kept (r ∷ rows) h k = (
  ground (arith, text_eq_comm t.part_id r.part_id),
  selected-tail q t kept rows (ground arith) k.1,
)

pub fresh-head :
    (r : OutboxRow) (rows : List OutboxRow)
    → distinct (ids (r ∷ rows)) ≡ true
    → (any (λ x. x == r.part_id) (ids rows) ≡ false) × (distinct (ids rows) ≡ true)
unfolding distinct
fresh-head r rows d = ground arith

keep-hit :
    (q : OutboxRow → Bool) (r : OutboxRow) (rows : List OutboxRow)
    → q r ≡ true
    → keep q (r ∷ rows) ≡ r ∷ keep q rows
unfolding keep
keep-hit q r rows h = rw h

keep-miss :
    (q : OutboxRow → Bool) (r : OutboxRow) (rows : List OutboxRow)
    → q r ≡ false
    → keep q (r ∷ rows) ≡ keep q rows
unfolding keep
keep-miss q r rows h = rw h

-- The selected rows are those that the test selects.
abbrev Selects : (OutboxRow → Bool) → List OutboxRow → List OutboxRow → Type 0
Selects q kept rows = All (λ r. any (λ x. x == r.part_id) (ids kept) ≡ q r) rows

selected :
    (q : OutboxRow → Bool) (rows : List OutboxRow)
    → distinct (ids rows) ≡ true
    → Selects q (keep q rows) rows
unfolding any
selected q [] d = tt
selected q (r ∷ rows) d =
    let (fresh, rest) = fresh-head r rows d in
    elim (Bool-cases (q r)) [
      | inl hit ↦
          subst (λ kept. Selects q kept (r ∷ rows)) (sym (keep-hit q r rows hit))
            (
              rw (text_eq_refl r.part_id) (sym hit),
              selected-tail q r (ids (keep q rows)) rows fresh (selected q rows rest),
            )
      | inr miss ↦
          subst (λ kept. Selects q kept (r ∷ rows)) (sym (keep-miss q r rows miss))
            (not-kept q r.part_id rows fresh ∙ sym miss, selected q rows rest)
    ]

pub widen :
    (r : OutboxRow) (rows todo : List OutboxRow)
    → any (λ x. x == r.part_id) (ids todo) ≡ false
    → All (λ t. find (has_id t.part_id) rows ≡ some t) todo
    → All (λ t. find (has_id t.part_id) (r ∷ rows) ≡ some t) todo
unfolding any find
widen r rows [] h k = tt
widen r rows (t ∷ todo) h k =
    (ground (arith, text_eq_comm r.part_id t.part_id), widen r rows todo (ground arith) k.1)

pub keep-Holds :
    (q : OutboxRow → Bool) (rows : List OutboxRow)
    → distinct (ids rows) ≡ true
    → All (λ t. find (has_id t.part_id) rows ≡ some t) (keep q rows)
unfolding keep
keep-Holds q [] d = tt
keep-Holds q (r ∷ rows) d =
    let (fresh, rest) = fresh-head r rows d in
    let kept =
      widen r rows (keep q rows) (not-kept q r.part_id rows fresh) (keep-Holds q rows rest) in
    elim (Bool-cases (q r)) [
      | inl hit ↦ rw hit (unfold find in rw (text_eq_refl r.part_id), kept)
      | inr miss ↦ rw miss kept
    ]

distinct-keep :
    (q : OutboxRow → Bool) (rows : List OutboxRow)
    → distinct (ids rows) ≡ true
    → distinct (ids (keep q rows)) ≡ true
unfolding keep distinct
distinct-keep q [] d = refl
distinct-keep q (r ∷ rows) d = ground (arith, not-kept q r.part_id rows, distinct-keep q rows)

-- The change of the rows that `q` selects.
abbrev pub sweep : (OutboxRow → Bool) → (OutboxRow → OutboxRow) → OutboxRow → OutboxRow
sweep q f r = if q r then f r else r

-- A loop over `SELECT ... WHERE q` that updates each selected row by `f` maps `f` over them.
pub for_each-sweep :
    (f : OutboxRow → OutboxRow)
    → ((r : OutboxRow) → (f r).part_id ≡ r.part_id)
    → (body : OutboxRow → Exec Database (Unit {0})) (q : OutboxRow → Bool) (db : Database)
    → All (DoesUpdate f body) (keep q db.outbox)
    → IsValid db
    → for_each body (keep q db.outbox) db ≡ (ok tt, with_outbox db (map (sweep q f) db.outbox))
for_each-sweep f keeps_id body q db spec v =
    for_each-change_all f keeps_id body (keep q db.outbox) spec
      (distinct-keep q db.outbox v.part_ids) db v (keep-Holds q db.outbox v.part_ids)
    ∙ ap (λ rows. (ok tt, with_outbox db rows))
        (map_congr _ _ db.outbox (
          All-map_of (λ r e. ap (λ b. if b then f r else r) e) db.outbox
            (selected q db.outbox v.part_ids)))

pub keep-All : (q : OutboxRow → Bool) (rows : List OutboxRow) → All (λ r. q r ≡ true) (keep q rows)
keep-All q [] = unfold keep in tt
keep-All q (r ∷ rows) = elim (Bool-cases (q r)) [
  | inl hit ↦ subst (All (λ x. q x ≡ true)) (sym (keep-hit q r rows hit)) (hit, keep-All q rows)
  | inr miss ↦ subst (All (λ x. q x ≡ true)) (sym (keep-miss q r rows miss)) (keep-All q rows)
]

-- Two changes that agree on the one row with an id update the table alike.
pub update_part_congr :
    (id : String) (f g : OutboxRow → OutboxRow) (t : OutboxRow) (rows : List OutboxRow)
    → All (λ r. has_id id r ≡ true → r ≡ t) rows
    → f t ≡ g t
    → update_part id f rows ≡ update_part id g rows
unfolding update_part
update_part_congr id f g t rows h e = map_congr _ _ rows (All-map_of agree rows h)
  where
    agree :
        (r : OutboxRow)
        → (has_id id r ≡ true → r ≡ t)
        → (if has_id id r then f r else r) ≡ (if has_id id r then g r else r)
    agree r k = elim (Bool-cases (has_id id r)) [
      | inl hit ↦ rw hit (ap f (k hit) ∙ e ∙ sym (ap g (k hit)))
      | inr miss ↦ rw miss
    ]

-- An update that leaves the one row with an id as it is changes nothing.
pub update_part_same :
    (id : String) (f : OutboxRow → OutboxRow) (t : OutboxRow) (rows : List OutboxRow)
    → All (λ r. has_id id r ≡ true → r ≡ t) rows
    → f t ≡ t
    → update_part id f rows ≡ rows
update_part_same id f t rows h e =
    update_part_congr id f (λ r. r) t rows h e
    ∙ unfold update_part in map_same _ rows (All-intro (λ r. ground arith) rows)
