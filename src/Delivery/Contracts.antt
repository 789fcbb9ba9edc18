-- ===== src/Delivery/Contracts.antt =====
-- The delivery contracts of groupmate/social_runtime/actions/contracts.py: parts, bundles, receipts
-- and their `create` methods, which normalise every field and raise ValueError. A record here is
-- the dataclass, valid or not; `create` takes one and returns the normalised one.
pub mod Normal
pub mod Sorting
pub mod Bundles
pub mod Orders
use astrbot_plugin_groupmate.Prelude.{
  ℕ, zero, suc, ◌+◌, ℤ, pos, ℤ-discrete, ltb_ℤ, leb_ℤ, int_eq, String, String-discrete, ◌==◌,
  is_empty, strip, lower_codes, nat_eq, Bool, true, false, not, ◌&&◌, ◌||◌, Option, none, some,
  List, [], ◌∷◌, map, any, all, sort_by, length, ◌≡◌, if◌then◌else◌,
}
use astrbot_plugin_groupmate.Json.{
  Json, Fields, Fields-discrete, get, has_text, sorted_fields, array, cons,
}
use astrbot_plugin_groupmate.Result.{Result, ok, raise, value_error, ◌>>=◌, ◌>>◌, require, traverse}

pub data DeliveryPartKind : Type 0 where
  text mention face image audio video file forward poke : DeliveryPartKind

pub data OutboxStatus : Type 0 where
  planned ready sending sent failed unknown expired suppressed : OutboxStatus

pub data DeliveryReceiptStatus : Type 0 where
  success retryable_failure permanent_failure unknown : DeliveryReceiptStatus

-- `_delivery_text` on a text
unfoldable pub delivery_text : String → Result String
unfolding strip
delivery_text value = let t = strip value in if is_empty t then raise value_error else ok t

unfoldable pub optional_text : Option String → Result (Option String)
optional_text none = ok none
optional_text (some value) = do t ← delivery_text value; ok (some t)

pub record DeliveryPart : Type 0 where
  pub part_id : String
  pub kind : DeliveryPartKind
  pub payload : Fields
  pub order : ℤ
  pub idempotency_key : String
  pub expires_at : ℤ
  pub decorative : Bool
  pub task_id : Option String
  pub role : String

unfoldable pub DeliveryPart-discrete : Discrete DeliveryPart
DeliveryPart-discrete = hlevel (String-discrete, ℤ-discrete, Fields-discrete)

-- The key that a kind's payload must carry.
unfoldable pub required_key : DeliveryPartKind → String
required_key text = "text"
required_key mention = "target_id"
required_key face = "face_id"
required_key forward = "nodes"
required_key poke = "target_id"
required_key _ = "media_ref"

abbrev pub is_forward : DeliveryPartKind → Bool
is_forward forward = true
is_forward _ = false

abbrev pub is_nonempty_array : Json → Bool
is_nonempty_array (array (cons x xs)) = true
is_nonempty_array _ = false

abbrev pub present_or : Bool → Option Json → Bool
present_or forwards none = false
present_or forwards (some value) = if forwards then is_nonempty_array value else has_text value

unfoldable pub validate_payload : DeliveryPartKind → Fields → Result (Unit {0})
validate_payload kind payload =
    require (present_or (is_forward kind) (get (required_key kind) payload)) value_error

abbrev pub codes_eq : List ℕ → List ℕ → Bool
codes_eq [] [] = true
codes_eq (c ∷ cs) (d ∷ ds) = nat_eq c d && codes_eq cs ds
codes_eq _ _ = false

-- `role.strip().lower()`, which must be one of three words. No character outside ASCII has a
-- letter of these words as its lower case.
unfoldable pub normalize_role : String → Result String
unfolding strip lower_codes
normalize_role role =
    let cs = lower_codes (strip role) in
    if codes_eq cs (lower_codes "content")
    then ok "content"
    else if codes_eq cs (lower_codes "progress")
    then ok "progress"
    else if codes_eq cs (lower_codes "result")
    then ok "result"
    else raise value_error

abbrev pub is_some {ℓ} : {A : Type ℓ} → Option A → Bool
is_some none = false
is_some (some a) = true

-- `_delivery_payload` on a JSON mapping
abbrev pub delivery_payload : Fields → Fields
delivery_payload value = sorted_fields value

-- `DeliveryPart.create`
unfoldable pub create_part : DeliveryPart → Result DeliveryPart
create_part p = do
  part_id ← delivery_text p.part_id
  require (not (ltb_ℤ p.order (pos 0))) value_error
  key ← delivery_text p.idempotency_key
  require (not (ltb_ℤ p.expires_at (pos 0))) value_error
  task_id ← optional_text p.task_id
  role ← normalize_role p.role
  require (role == "content" || is_some task_id) value_error
  let payload = delivery_payload p.payload
  validate_payload p.kind payload
  ok (record p {
    part_id = part_id;
    payload = payload;
    idempotency_key = key;
    task_id = task_id;
    role = role;
  })

pub record DeliveryBundle : Type 0 where
  pub bundle_id : String
  pub correlation_id : String
  pub persona_id : String
  pub group_id : String
  pub topic_id : Option String
  pub parts : List DeliveryPart
  pub created_at : ℤ
  pub expires_at : ℤ

unfoldable pub DeliveryBundle-discrete : Discrete DeliveryBundle
DeliveryBundle-discrete = hlevel (String-discrete, ℤ-discrete, Fields-discrete)

-- `len(xs) == len(set(xs))`
unfoldable pub distinct : List String → Bool
unfolding any
distinct [] = true
distinct (x ∷ xs) = not (any (λ y. y == x) xs) && distinct xs

-- `range(n)`
unfoldable pub range_from : ℕ → ℕ → List ℤ
range_from start zero = []
range_from start (suc n) = pos start ∷ range_from (start + 1) n

-- `set(xs) == set(ys)`
abbrev pub same_set : List ℤ → List ℤ → Bool
same_set xs ys = all (λ x. any (int_eq x) ys) xs && all (λ y. any (int_eq y) xs) ys

abbrev pub by_order : DeliveryPart → DeliveryPart → Bool
by_order p q = leb_ℤ p.order q.order

abbrev pub is_nil {ℓ} : {A : Type ℓ} → List A → Bool
is_nil [] = true
is_nil (x ∷ xs) = false

-- `DeliveryBundle.create`
unfoldable pub create_bundle : DeliveryBundle → Result DeliveryBundle
create_bundle b = do
  bundle_id ← delivery_text b.bundle_id
  correlation_id ← delivery_text b.correlation_id
  persona_id ← delivery_text b.persona_id
  group_id ← delivery_text b.group_id
  topic_id ← optional_text b.topic_id
  require (not (is_nil b.parts)) value_error
  require (distinct (map (λ p. p.part_id) b.parts)) value_error
  require (distinct (map (λ p. p.idempotency_key) b.parts)) value_error
  require (same_set (map (λ p. p.order) b.parts) (range_from 0 (length b.parts))) value_error
  require (not (ltb_ℤ b.created_at (pos 0)) && ltb_ℤ b.created_at b.expires_at) value_error
  require (all (λ p. leb_ℤ p.expires_at b.expires_at && ltb_ℤ b.created_at p.expires_at) b.parts)
      value_error
  ok (record b {
    bundle_id = bundle_id;
    correlation_id = correlation_id;
    persona_id = persona_id;
    group_id = group_id;
    topic_id = topic_id;
    parts = sort_by by_order b.parts;
  })

-- `_bundle_from_dict` of delivery/outbox.py, which recreates each part and then the bundle
unfoldable pub bundle_from_dict : DeliveryBundle → Result DeliveryBundle
bundle_from_dict b =
    traverse create_part b.parts >>= λ parts. create_bundle (record b { parts = parts })

pub record DeliveryReceipt : Type 0 where
  pub receipt_id : String
  pub part_id : String
  pub status : DeliveryReceiptStatus
  pub occurred_at : ℤ
  pub platform_message_id : Option String
  pub error_code : Option String

unfoldable pub DeliveryReceipt-discrete : Discrete DeliveryReceipt
DeliveryReceipt-discrete = hlevel (String-discrete, ℤ-discrete)

abbrev pub carries : DeliveryReceiptStatus → Option String → Option String → Bool
carries success message error = is_some message
carries _ message error = is_some error

-- `DeliveryReceipt.create`
unfoldable pub create_receipt : DeliveryReceipt → Result DeliveryReceipt
create_receipt r = do
  receipt_id ← delivery_text r.receipt_id
  part_id ← delivery_text r.part_id
  require (not (ltb_ℤ r.occurred_at (pos 0))) value_error
  message ← optional_text r.platform_message_id
  error ← optional_text r.error_code
  require (carries r.status message error) value_error
  ok (record r {
    receipt_id = receipt_id;
    part_id = part_id;
    platform_message_id = message;
    error_code = error;
  })

pub record OutboxPart : Type 0 where
  pub bundle_id : String
  pub correlation_id : String
  pub persona_id : String
  pub group_id : String
  pub topic_id : Option String
  pub part : DeliveryPart
  pub status : OutboxStatus
  pub receipt : Option DeliveryReceipt

unfoldable pub OutboxPart-discrete : Discrete OutboxPart
OutboxPart-discrete =
    hlevel (String-discrete, ℤ-discrete, DeliveryPart-discrete, DeliveryReceipt-discrete)

pub record BotLedgerEntry : Type 0 where
  pub part_id : String
  pub bundle_id : String
  pub correlation_id : String
  pub persona_id : String
  pub group_id : String
  pub platform_message_id : String
  pub sent_at : ℤ
