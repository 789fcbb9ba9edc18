-- ===== src/Delivery/Database/Rows.antt =====
-- How rows of the outbox may change: what identifies a row stays, and a final row stays whole.
use astrbot_plugin_groupmate.Prelude.{
  String, ◌≡◌, refl, ◌∙◌, Bool, true, false, some, List, [], ◌∷◌, ◌++◌, map, All, find, Bool-cases,
  inl, inr, arith,
}
use astrbot_plugin_groupmate.Delivery.Contracts.{OutboxStatus, planned, ready, sending}
use astrbot_plugin_groupmate.Delivery.Database.{OutboxRow, has_id}

-- No operation leaves these statuses.
abbrev pub is_final : OutboxStatus → Bool
is_final planned = false
is_final ready = false
is_final sending = false
is_final _ = true

pub record RowMoves (r s : OutboxRow) : Type 0 where
  pub part_id : s.part_id ≡ r.part_id
  pub bundle_id : s.bundle_id ≡ r.bundle_id
  pub idempotency_key : s.idempotency_key ≡ r.idempotency_key
  pub payload_json : s.payload_json ≡ r.payload_json
  pub expires_at : s.expires_at ≡ r.expires_at
  pub final_stays : is_final r.status ≡ true → s ≡ r

pub RowMoves-refl : (r : OutboxRow) → RowMoves r r
RowMoves-refl r = record {
  part_id = refl;
  bundle_id = refl;
  idempotency_key = refl;
  payload_json = refl;
  expires_at = refl;
  final_stays = λ h. refl;
}

pub RowMoves-trans : (r s t : OutboxRow) → RowMoves r s → RowMoves s t → RowMoves r t
RowMoves-trans r s t h k = record {
  part_id = k.part_id ∙ h.part_id;
  bundle_id = k.bundle_id ∙ h.bundle_id;
  idempotency_key = k.idempotency_key ∙ h.idempotency_key;
  payload_json = k.payload_json ∙ h.payload_json;
  expires_at = k.expires_at ∙ h.expires_at;
  final_stays = λ f. let same = h.final_stays f in k.final_stays (rw same f) ∙ same;
}

-- Row by row, with rows that were appended behind.
abbrev pub Grows : List OutboxRow → List OutboxRow → Type 0
Grows [] ys = Unit
Grows (x ∷ xs) [] = ⊥
Grows (x ∷ xs) (y ∷ ys) = RowMoves x y × Grows xs ys

pub Grows-refl : (xs : List OutboxRow) → Grows xs xs
Grows-refl [] = tt
Grows-refl (x ∷ xs) = (RowMoves-refl x, Grows-refl xs)

pub Grows-trans : (xs ys zs : List OutboxRow) → Grows xs ys → Grows ys zs → Grows xs zs
Grows-trans [] ys zs h k = tt
Grows-trans (x ∷ xs) [] zs h k = absurd h
Grows-trans (x ∷ xs) (y ∷ ys) [] h k = k
Grows-trans (x ∷ xs) (y ∷ ys) (z ∷ zs) h k =
    (RowMoves-trans x y z h.0 k.0, Grows-trans xs ys zs h.1 k.1)

pub Grows-append : (xs ys : List OutboxRow) → Grows xs (xs ++ ys)
Grows-append [] ys = tt
Grows-append (x ∷ xs) ys = (RowMoves-refl x, Grows-append xs ys)

pub Grows-map :
    (f : OutboxRow → OutboxRow) (xs : List OutboxRow)
    → All (λ x. RowMoves x (f x)) xs
    → Grows xs (map f xs)
Grows-map f [] h = tt
Grows-map f (x ∷ xs) h = (h.0, Grows-map f xs h.1)

-- A row that is found stays found, in its new form.
pub find-Grows :
    (id : String) (xs ys : List OutboxRow) {r : OutboxRow}
    → Grows xs ys
    → find (has_id id) xs ≡ some r
    → (s : OutboxRow) × (find (has_id id) ys ≡ some s) × RowMoves r s
unfolding find
find-Grows id [] ys h e = absurd (cc)
find-Grows id (x ∷ xs) [] h e = absurd h
find-Grows id (x ∷ xs) (y ∷ ys) {r} h e = elim (Bool-cases (has_id id x)) [
  | inl hit ↦ let same : x ≡ r = ground arith in (y, rw h.0.part_id (rw hit), rw same at h.0)
  | inr miss ↦ rw h.0.part_id (rw miss (find-Grows id xs ys h.1 (rw miss at e)))
]
