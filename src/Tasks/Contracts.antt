-- ===== src/Tasks/Contracts.antt =====
-- The contracts of groupmate/social_runtime/tasks/contracts.py. A record is the dataclass, valid or
-- not; its `create` (or `__post_init__`) returns the normalised one or raises ValueError.
use Prim.Native.Char.{code}
use Prim.Native.String.{[] as empty, ◌∷◌ as push}
use astrbot_plugin_groupmate.Prelude.{
  ℕ, ℤ, pos, ltb_ℤ, leb_ℤ, nat_eq, leb, ℤ-discrete, String, String-discrete, concat, ◌==◌, any, all,
  length, Bool, true, false, not, ◌&&◌, ◌||◌, Option, none, some, List, [], ◌∷◌, map,
}
use astrbot_plugin_groupmate.Json.{Fields, Fields-discrete}
use astrbot_plugin_groupmate.Result.{Result, ok, value_error, require, traverse, ◌>>=◌, ◌>>◌}
use astrbot_plugin_groupmate.Delivery.Contracts.{delivery_text, optional_text, distinct}

-- What the code takes from Python's library, and a model cannot spell out: `str.lower`, the equality
-- of JSON mappings (where 1 == 1.0 == True), and the hex SHA-256 of the identity of a task.
pub record Library : Type 0 where
  pub lower : String → String
  pub same_payload : Fields → Fields → Bool
  pub identity_digest : (provider capability persona group requester key : String) → String

pub data RiskLevel : Type 0 where
  read_only low_impact external_side_effect sensitive destructive : RiskLevel

pub data ConfirmationPolicy : Type 0 where
  never required : ConfirmationPolicy

pub data TaskStatus : Type 0 where
  proposed awaiting_confirmation queued running succeeded failed canceled expired unknown :
      TaskStatus

pub data ProviderEventKind : Type 0 where
  accepted progress succeeded failed canceled : ProviderEventKind

abbrev pub is_high_risk : RiskLevel → Bool
is_high_risk external_side_effect = true
is_high_risk sensitive = true
is_high_risk destructive = true
is_high_risk _ = false

abbrev pub field_types : List String
field_types = "string" ∷ "integer" ∷ "number" ∷ "boolean" ∷ "object" ∷ "array" ∷ "null" ∷ "any" ∷ []

-- `_required_text` on a text
abbrev pub required_text : String → Result String
required_text value = delivery_text value

pub record CapabilityField : Type 0 where
  pub name : String
  pub type_name : String
  pub required : Bool

-- `CapabilityField.__post_init__`
unfoldable pub create_field : Library → CapabilityField → Result CapabilityField
unfolding any
create_field lib f = do
  name ← required_text f.name
  kind ← required_text f.type_name
  require (any (λ t. t == lib.lower kind) field_types) value_error
  ok (record f { name = name; type_name = lib.lower kind })

pub record CapabilityDescriptor : Type 0 where
  pub capability_id : String
  pub provider_id : String
  pub input_schema : List CapabilityField
  pub output_schema : List CapabilityField
  pub risk_level : RiskLevel
  pub required_scopes : List String
  pub idempotent : Bool
  pub cancellable : Bool
  pub supports_progress : Bool
  pub expected_latency_ms : ℤ
  pub media_output_kinds : List String
  pub confirmation_policy : ConfirmationPolicy

unfoldable pub CapabilityDescriptor-discrete : Discrete CapabilityDescriptor
CapabilityDescriptor-discrete = hlevel (String-discrete, ℤ-discrete)

-- `requires_confirmation`
abbrev pub requires_confirmation : CapabilityDescriptor → Bool
requires_confirmation d = elim d.confirmation_policy [ never ↦ false | required ↦ true ]

unfoldable pub lower_text : Library → String → Result String
lower_text lib value = do text ← required_text value; ok (lib.lower text)

-- `CapabilityDescriptor.create`
unfoldable pub create_descriptor : Library → CapabilityDescriptor → Result CapabilityDescriptor
create_descriptor lib d = do
  capability_id ← required_text d.capability_id
  provider_id ← required_text d.provider_id
  require (distinct (map (λ f. f.name) d.input_schema)) value_error
  require (distinct (map (λ f. f.name) d.output_schema)) value_error
  scopes ← traverse required_text d.required_scopes
  require (distinct scopes) value_error
  require (not (ltb_ℤ d.expected_latency_ms (pos 0))) value_error
  media_kinds ← traverse (lower_text lib) d.media_output_kinds
  require (distinct media_kinds) value_error
  require (not (is_high_risk d.risk_level) || requires_confirmation d) value_error
  ok (record d {
    capability_id = capability_id;
    provider_id = provider_id;
    required_scopes = scopes;
    media_output_kinds = media_kinds;
  })

pub record CapabilityRequest : Type 0 where
  pub requester_id : String
  pub persona_id : String
  pub group_id : String
  pub topic_id : Option String
  pub input_payload : Fields
  pub authorization_scopes : List String
  pub idempotency_key : String
  pub correlation_id : String
  pub expires_at : ℤ
  pub direct_request : Bool

-- `CapabilityRequest.create`
unfoldable pub create_request : CapabilityRequest → Result CapabilityRequest
create_request r = do
  requester_id ← required_text r.requester_id
  persona_id ← required_text r.persona_id
  group_id ← required_text r.group_id
  idempotency_key ← required_text r.idempotency_key
  correlation_id ← required_text r.correlation_id
  topic_id ← optional_text r.topic_id
  scopes ← traverse required_text r.authorization_scopes
  require (distinct scopes) value_error
  require (not (ltb_ℤ r.expires_at (pos 0))) value_error
  ok (record r {
    requester_id = requester_id;
    persona_id = persona_id;
    group_id = group_id;
    topic_id = topic_id;
    authorization_scopes = scopes;
    idempotency_key = idempotency_key;
    correlation_id = correlation_id;
  })

pub record ProviderMedia : Type 0 where
  pub media_id : String
  pub kind : String
  pub uri : String
  pub mime_type : String
  pub size_bytes : ℤ
  pub sha256 : String

abbrev pub is_hex : ℕ → Bool
is_hex c = leb 48 c && leb c 57 || leb 97 c && leb c 102

unfoldable pub codes : String → List ℕ
codes empty = []
codes (push c s) = code c ∷ codes s

-- `^[0-9a-f]{64}$`
unfoldable pub is_digest : String → Bool
unfolding all codes
is_digest s = nat_eq (length (codes s)) 64 && all is_hex (codes s)

-- `s.startswith(prefix)`
unfoldable pub starts_with : String → String → Bool
starts_with empty s = true
starts_with (push c p) empty = false
starts_with (push c p) (push d s) = nat_eq (code c) (code d) && starts_with p s

-- `ProviderMedia.__post_init__`
unfoldable pub create_media : Library → ProviderMedia → Result ProviderMedia
unfolding concat
create_media lib m = do
  media_id ← required_text m.media_id
  kind ← required_text m.kind
  uri ← required_text m.uri
  mime_type ← required_text m.mime_type
  sha256 ← required_text m.sha256
  require (is_digest (lib.lower sha256)) value_error
  require (ltb_ℤ (pos 0) m.size_bytes) value_error
  require (starts_with (concat (lib.lower kind) "/") (lib.lower mime_type)) value_error
  ok (record m {
    media_id = media_id;
    kind = lib.lower kind;
    uri = uri;
    mime_type = lib.lower mime_type;
    sha256 = lib.lower sha256;
  })

pub record ProviderEvent : Type 0 where
  pub event_id : String
  pub task_id : String
  pub kind : ProviderEventKind
  pub occurred_at : ℤ
  pub progress : Option ℤ
  pub result : Option Fields
  pub media : List ProviderMedia
  pub error_code : Option String

unfoldable pub ProviderEvent-discrete : Discrete ProviderEvent
ProviderEvent-discrete = hlevel (String-discrete, ℤ-discrete, Fields-discrete)

abbrev pub is_given {ℓ} : {A : Type ℓ} → Option A → Bool
is_given none = false
is_given (some a) = true

abbrev pub is_percentage : Option ℤ → Bool
is_percentage none = true
is_percentage (some z) = leb_ℤ (pos 0) z && leb_ℤ z (pos 100)

abbrev pub is_nil {ℓ} : {A : Type ℓ} → List A → Bool
is_nil [] = true
is_nil (x ∷ xs) = false

-- whether a kind has the progress, result, media and error that it must and may have
abbrev pub suits_progress : ProviderEventKind → Option ℤ → Bool
suits_progress progress p = is_given p
suits_progress _ p = true

abbrev pub suits_result : ProviderEventKind → Option Fields → List ProviderMedia → Bool
suits_result succeeded result media = is_given result
suits_result _ result media = not (is_given result) && is_nil media

abbrev pub suits_error : ProviderEventKind → Option String → Bool
suits_error failed error = is_given error
suits_error _ error = true

-- `ProviderEvent.create`
unfoldable pub create_event : ProviderEvent → Result ProviderEvent
create_event e = do
  event_id ← required_text e.event_id
  task_id ← required_text e.task_id
  require (not (ltb_ℤ e.occurred_at (pos 0))) value_error
  require (is_percentage e.progress) value_error
  require (suits_progress e.kind e.progress) value_error
  require (suits_result e.kind e.result e.media) value_error
  error ← optional_text e.error_code
  require (suits_error e.kind error) value_error
  ok (record e { event_id = event_id; task_id = task_id; error_code = error })
