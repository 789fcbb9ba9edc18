-- ===== src/Delivery/Outbox/Sending.antt =====
-- What `claim_ready` returns: parts that it marked `sending`, that have not expired, and that stand
-- behind settled parts only.
use astrbot_plugin_groupmate.Prelude.{
  ℤ, ltb_ℤ, String, ◌==◌, text_eq, ◌≡◌, refl, sym, ap, ◌∙◌, Bool, true, false, not, ◌&&◌, some,
  List, [], ◌∷◌, map, any, All, keep, find, Bool-cases, inl, inr, if◌then◌else◌, arith,
}
use astrbot_plugin_groupmate.Result.{ok, on_ok, ok-injective}
use astrbot_plugin_groupmate.Delivery.Contracts.{OutboxStatus, sending, DeliveryPart, create_part}
use astrbot_plugin_groupmate.Delivery.Database.{OutboxRow, Database, has_id, is_ready, is_sending}
use astrbot_plugin_groupmate.Delivery.Database.Valid.{IsValid, IsFaithful, only_one}
use astrbot_plugin_groupmate.Delivery.Outbox.Claim.{
  earlier_statuses, is_one, is_settled, is_ready_part, start_sending,
}

-- A row of the same bundle with a smaller order is settled.
abbrev pub IsSettledBefore : String → ℤ → OutboxRow → Type 0
IsSettledBefore bid order r =
    (r.bundle_id == bid && ltb_ℤ r.payload_json.order order) ≡ true → is_settled r.status ≡ true

head-settled :
    (order : ℤ) (r : OutboxRow) (b : Bool) (rest : List OutboxStatus)
    → any (λ s. not (is_settled s)) (if b then r.status ∷ rest else rest) ≡ false
    → (b ≡ true → is_settled r.status ≡ true) × (any (λ s. not (is_settled s)) rest ≡ false)
unfolding any
head-settled order r true rest h = ground arith
head-settled order r false rest h = (λ e. absurd (cc), h)

pub earlier-settled :
    (bid : String) (order : ℤ) (rows : List OutboxRow) (es : List OutboxStatus)
    → All IsFaithful rows
    → earlier_statuses order (keep (λ r. r.bundle_id == bid) rows) ≡ ok es
    → any (λ s. not (is_settled s)) es ≡ false
    → All (IsSettledBefore bid order) rows
unfolding keep earlier_statuses
earlier-settled bid order [] es f h a = tt
earlier-settled bid order (r ∷ rows) es f h a = elim (Bool-cases (r.bundle_id == bid)) [
  | inr miss ↦ (λ e. absurd (ground arith), earlier-settled bid order rows es f.1 (rw miss at h) a)
  | inl hit ↦ on_ok (create_part r.payload_json) _ (rw hit at h) λ p hp h1.
      on_ok (earlier_statuses order (keep (λ r. r.bundle_id == bid) rows)) _ h1 λ rest hr h2.
        let same : p ≡ r.payload_json = ok-injective (sym hp ∙ f.0.readable) in
        let both = head-settled order r (ltb_ℤ p.order order) rest (rw (ok-injective h2) a) in
        (λ e. both.0 (rw same (ground arith)), earlier-settled bid order rows rest f.1 hr both.1)
]

-- What was settled stays so while other parts are marked.
start_sending-IsSettledBefore :
    (bid : String) (order : ℤ) (id : String) (r : OutboxRow)
    → IsSettledBefore bid order r
    → IsSettledBefore bid order (start_sending id r)
start_sending-IsSettledBefore bid order id r h = elim (Bool-cases (is_ready_part id r)) [
  | inr miss ↦ rw miss h
  | inl hit ↦ rw hit (λ e. absurd (ground (arith, h e)))
]

-- A part that was claimed: its row is `sending`, has not expired, and stands behind settled rows.
pub record IsClaimed (now : ℤ) (db : Database) (p : DeliveryPart) : Type 0 where
  pub row : OutboxRow
  pub found : find (has_id p.part_id) db.outbox ≡ some row
  pub payload : row.payload_json ≡ p
  pub is_being_sent : is_sending row.status ≡ true
  pub in_time : ltb_ℤ now row.expires_at ≡ true
  pub settled_before : All (IsSettledBefore row.bundle_id p.order) db.outbox

start_sending-part_id : (id : String) (r : OutboxRow) → (start_sending id r).part_id ≡ r.part_id
start_sending-part_id id r = ground arith

pub find-start_sending :
    (id j : String) (rows : List OutboxRow) {t : OutboxRow}
    → find (has_id j) rows ≡ some t
    → find (has_id j) (map (start_sending id) rows) ≡ some (start_sending id t)
unfolding find
find-start_sending id j [] h = absurd (cc)
find-start_sending id j (r ∷ rows) {t} h = elim (Bool-cases (has_id j r)) [
  | inl hit ↦
      let same : r ≡ t = ground arith in
      rw (start_sending-part_id id r) (rw hit (ap (λ x. some (start_sending id x)) same))
  | inr miss ↦
      rw (start_sending-part_id id r) (rw miss (find-start_sending id j rows (rw miss at h)))
]

-- the database after `mark_sending`
abbrev pub marked : String → Database → Database
marked id db = record db { outbox = map (start_sending id) db.outbox }

sending-not-started :
    (id : String) (r : OutboxRow) → is_sending r.status ≡ true → start_sending id r ≡ r
sending-not-started id r h = ground arith

settled-marked :
    (bid : String) (order : ℤ) (id : String) (rows : List OutboxRow)
    → All (IsSettledBefore bid order) rows
    → All (IsSettledBefore bid order) (map (start_sending id) rows)
settled-marked bid order id [] h = tt
settled-marked bid order id (r ∷ rows) h =
    (start_sending-IsSettledBefore bid order id r h.0, settled-marked bid order id rows h.1)

start_sending-bundle_id :
    (id : String) (r : OutboxRow) → (start_sending id r).bundle_id ≡ r.bundle_id
start_sending-bundle_id id r = ground arith

row_of_some : {r s : OutboxRow} → some r ≡ some s → r ≡ s
row_of_some h = cc

-- The row of a claimed part has the bundle that it had before a part was marked.
pub marked-bundle_id :
    (now : ℤ) (id : String) (db : Database) (p : DeliveryPart) {cur : OutboxRow}
    (c : IsClaimed now (marked id db) p)
    → find (has_id p.part_id) db.outbox ≡ some cur
    → c.row.bundle_id ≡ cur.bundle_id
marked-bundle_id now id db p {cur} c e =
    ap (λ (r : OutboxRow). r.bundle_id)
      (row_of_some (sym c.found ∙ find-start_sending id p.part_id db.outbox e))
    ∙ start_sending-bundle_id id cur

-- Claiming another part leaves a claimed part claimed.
pub marked-IsClaimed :
    (now : ℤ) (id : String) (db : Database) (p : DeliveryPart)
    → IsClaimed now db p
    → IsClaimed now (marked id db) p
marked-IsClaimed now id db p c = record {
  row = c.row;
  found =
      find-start_sending id p.part_id db.outbox c.found
      ∙ ap (λ x. some x) (sending-not-started id c.row c.is_being_sent);
  payload = c.payload;
  is_being_sent = c.is_being_sent;
  in_time = c.in_time;
  settled_before = settled-marked c.row.bundle_id p.order id db.outbox c.settled_before;
}

-- `rowcount == 1` says that the row with the id was ready.
ready-one :
    (id : String) (rows : List OutboxRow) (t : OutboxRow)
    → All (λ r. has_id id r ≡ true → r ≡ t) rows
    → is_one (keep (is_ready_part id) rows) ≡ true
    → is_ready t.status ≡ true
unfolding keep
ready-one id [] t h e = absurd (cc)
ready-one id (r ∷ rows) t h e = elim (Bool-cases (is_ready_part id r)) [
  | inl hit ↦ rw (← h.0 (ground arith)) (ground arith)
  | inr miss ↦ ready-one id rows t h.1 (rw miss at e)
]

started :
    (id : String) (r : OutboxRow)
    → is_ready_part id r ≡ true
    → start_sending id r ≡ record r { status = sending }
started id r h = rw h

-- A row of valid tables that is marked is a claimed part.
pub mark-IsClaimed :
    (now : ℤ) (db : Database) (p : DeliveryPart) (row : OutboxRow)
    → IsValid db
    → find (has_id p.part_id) db.outbox ≡ some row
    → row.payload_json ≡ p
    → row.part_id ≡ p.part_id
    → ltb_ℤ now row.expires_at ≡ true
    → All (IsSettledBefore row.bundle_id p.order) db.outbox
    → is_one (keep (is_ready_part p.part_id) db.outbox) ≡ true
    → IsClaimed now (marked p.part_id db) p
mark-IsClaimed now db p row v e payload id t s one =
    let was_ready =
      ready-one p.part_id db.outbox row (only_one p.part_id db.outbox v.part_ids e) one in
    let hit : is_ready_part p.part_id row ≡ true = ground (arith, text_eq row.part_id p.part_id) in
    record {
      row = record row { status = sending };
      found =
          find-start_sending p.part_id p.part_id db.outbox e
          ∙ ap (λ x. some x) (started p.part_id row hit);
      payload = payload;
      is_being_sent = refl;
      in_time = t;
      settled_before = settled-marked row.bundle_id p.order p.part_id db.outbox s;
    }
