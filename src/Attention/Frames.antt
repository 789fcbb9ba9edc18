-- ===== src/Attention/Frames.antt =====
-- The frames of groupmate/social_runtime/attention.py: what an event asks for, by its type and payload.
use astrbot_plugin_groupmate.Prelude.{
  ℤ, pos, int_eq, ltb_ℤ, leb_ℤ, String, ◌==◌, is_empty, strip, concat, any, find, Bool, true, false,
  not, ◌&&◌, ◌||◌, Option, none, some, List, [], ◌∷◌, if◌then◌else◌,
}
use astrbot_plugin_groupmate.Json.{
  Json, null, boolean, int, float, text, array, object, Items, nil, cons, Fields, end, field, get,
}
use astrbot_plugin_groupmate.Result.{Result, ok, raise, value_error}
use astrbot_plugin_groupmate.Planning.Contracts.{is_in}

pub record SocialEventEnvelope : Type 0 where
  pub event_id : String
  pub event_type : String
  pub group_id : Option String
  pub actor_id : Option String
  pub source_message_id : Option String
  pub payload : Fields

pub record TopicState : Type 0 where
  pub topic_id : String
  pub message_ids : List String

pub record ConversationLease : Type 0 where
  pub target_id : String
  pub expires_at : ℤ
  pub remaining_turns : ℤ

pub record GroupWorldState : Type 0 where
  pub group_id : String
  pub scene_version : ℤ
  pub active_topics : List TopicState
  pub conversation_lease : Option ConversationLease

pub record PersonaSnapshot : Type 0 where
  pub state_version : ℤ
  pub config_version : ℤ

pub record AttentionFrame : Type 0 where
  pub frame_id : String
  pub group_id : String
  pub scene_version : ℤ
  pub trigger_kind : String
  pub focus_topic_ids : List String
  pub focus_event_ids : List String
  pub candidate_audiences : List String
  pub urgency : String
  pub deadline : ℤ
  pub requested_workers : List String
  pub persona_state_version : ℤ
  pub config_version : ℤ

-- what the digest of a frame reads
pub record FrameIdentity : Type 0 where
  pub group_id : String
  pub scene_version : ℤ
  pub trigger_kind : String
  pub focus_event_ids : List String
  pub deadline : ℤ
  pub persona_state_version : ℤ
  pub config_version : ℤ

-- What the code takes from Python: `str(value)`, `int(value)` with none for its exceptions,
-- `str.casefold`, and the first 24 digits of the SHA-256 of a frame's identity as JSON.
pub record Builtins : Type 0 where
  pub text_of : Json → String
  pub number_of : Json → Option ℤ
  pub casefold : String → String
  pub frame_digest : FrameIdentity → String

abbrev pub min_ℤ : ℤ → ℤ → ℤ
min_ℤ a b = if leb_ℤ a b then a else b

-- the truth of a JSON value; of a float, its mantissa's
abbrev pub is_true : Json → Bool
is_true null = false
is_true (boolean b) = b
is_true (int z) = not (int_eq z (pos 0))
is_true (float m e) = not (int_eq m (pos 0))
is_true (text s) = not (is_empty s)
is_true (array nil) = false
is_true (array (cons x xs)) = true
is_true (object end) = false
is_true (object (field k v rest)) = true

abbrev pub is_true_at : Option Json → Bool
is_true_at none = false
is_true_at (some v) = is_true v

abbrev pub strip_text : Builtins → Option Json → String
strip_text b none = ""
strip_text b (some v) = if is_true v then strip (b.text_of v) else ""

-- `str(payload.get(key) or "").strip()`
unfoldable pub payload_text : Builtins → String → SocialEventEnvelope → String
unfolding get strip
payload_text b key event = strip_text b (get key event.payload)

abbrev pub is_false : Option Json → Bool
is_false (some (boolean false)) = true
is_false _ = false

-- `event.payload.get("social_eligible") is False`
unfoldable pub is_declined : SocialEventEnvelope → Bool
unfolding get
is_declined event = is_false (get "social_eligible" event.payload)

-- an id that is given, as a tuple of one
abbrev pub given_ids : Option String → List String
given_ids none = []
given_ids (some id) = if is_empty id then [] else id ∷ []

abbrev pub topic_or_empty : Option TopicState → String
topic_or_empty none = ""
topic_or_empty (some t) = t.topic_id

-- `event.source_message_id or event.event_id`
abbrev pub message_id_of : Option String → String → String
message_id_of none event_id = event_id
message_id_of (some id) event_id = if is_empty id then event_id else id

-- `_topic_id`
unfoldable pub topic_id_of : Builtins → GroupWorldState → SocialEventEnvelope → String
unfolding any find is_in payload_text
topic_id_of b world event =
    let task_topic_id = payload_text b "topic_id" event in
    let message_id = message_id_of event.source_message_id event.event_id in
    if not (is_empty task_topic_id) && any (λ t. t.topic_id == task_topic_id) world.active_topics
    then task_topic_id
    else topic_or_empty (find (λ t. is_in message_id t.message_ids) world.active_topics)

abbrev pub identity_of : AttentionFrame → FrameIdentity
identity_of frame = record {
  group_id = frame.group_id;
  scene_version = frame.scene_version;
  trigger_kind = frame.trigger_kind;
  focus_event_ids = frame.focus_event_ids;
  deadline = frame.deadline;
  persona_state_version = frame.persona_state_version;
  config_version = frame.config_version;
}

-- `_build_frame`
unfoldable pub build_frame : Builtins → AttentionFrame → AttentionFrame
unfolding concat
build_frame b frame = record frame {
  frame_id = concat "attention:" (b.frame_digest (identity_of frame));
}

-- `_frame`
unfoldable pub own_frame :
    Builtins
    → SocialEventEnvelope
    → GroupWorldState
    → PersonaSnapshot
    → (trigger_kind urgency : String) → ℤ
    → List String
    → AttentionFrame
own_frame b event world persona trigger_kind urgency deadline requested_workers =
    build_frame b (record {
      frame_id = "";
      group_id = world.group_id;
      scene_version = world.scene_version;
      trigger_kind = trigger_kind;
      focus_topic_ids = given_ids (some (topic_id_of b world event));
      focus_event_ids = event.event_id ∷ [];
      candidate_audiences = given_ids event.actor_id;
      urgency = urgency;
      deadline = deadline;
      requested_workers = requested_workers;
      persona_state_version = persona.state_version;
      config_version = persona.config_version;
    })

abbrev pub number_or_raise : Option ℤ → Result ℤ
number_or_raise none = raise value_error
number_or_raise (some z) = ok z

abbrev pub due_or_now : Builtins → Option Json → ℤ → Result ℤ
due_or_now b none now = ok now
due_or_now b (some v) now = if is_true v then number_or_raise (b.number_of v) else ok now

-- `int(event.payload.get("due_at") or now)`
unfoldable pub due_at : Builtins → SocialEventEnvelope → ℤ → Result ℤ
unfolding get
due_at b event now = due_or_now b (get "due_at" event.payload) now

-- `_is_fast`
unfoldable pub is_fast : SocialEventEnvelope → Bool
unfolding get is_in any
is_fast event =
    is_in event.event_type ("platform.poke" ∷ "safety.boundary" ∷ "capability.result" ∷ [])
    || is_true_at (get "mentions_bot" event.payload)
    || is_true_at (get "reply_to_bot" event.payload)
    || is_true_at (get "direct_address" event.payload)

-- `_fast_workers`
unfoldable pub fast_workers : SocialEventEnvelope → List String
fast_workers event =
    if event.event_type == "safety.boundary"
    then "safety_guard" ∷ []
    else if event.event_type == "capability.result"
    then "capability_interpreter" ∷ []
    else []

abbrev pub item_text : Builtins → Json → String
item_text b v = if is_true v then strip (b.text_of v) else ""

-- whether a mention is of somebody else than the bot
abbrev pub names_other : Builtins → String → String → Bool
names_other b bot_id actor_id =
    not (is_empty actor_id)
    && not (actor_id == bot_id)
    && not (is_in (b.casefold actor_id) ("all" ∷ "@all" ∷ "0" ∷ []))

unfoldable pub any_other : Builtins → String → Items → Bool
unfolding is_in any strip
any_other b bot_id nil = false
any_other b bot_id (cons v rest) = names_other b bot_id (item_text b v) || any_other b bot_id rest

abbrev pub mentions_other : Builtins → String → Option Json → Bool
mentions_other b bot_id (some (array items)) = any_other b bot_id items
mentions_other b bot_id _ = false

abbrev pub is_actor : Option String → String → Bool
is_actor none target_id = false
is_actor (some id) target_id = id == target_id

abbrev pub matches_lease : Builtins → SocialEventEnvelope → ℤ → Option ConversationLease → Bool
matches_lease b event now none = false
matches_lease b event now (some lease) =
    let bot_id = payload_text b "bot_id" event in
    let reply_actor = payload_text b "reply_to_actor_id" event in
    (event.event_type == "platform.message")
    && not (is_declined event)
    && not (is_true_at (get "direct_address" event.payload))
    && is_actor event.actor_id lease.target_id
    && leb_ℤ now lease.expires_at
    && ltb_ℤ (pos 0) lease.remaining_turns
    && (is_empty reply_actor || (reply_actor == bot_id))
    && not (mentions_other b bot_id (get "mentions" event.payload))

-- `_matches_conversation_lease`
unfoldable pub matches_conversation_lease :
    Builtins → SocialEventEnvelope → GroupWorldState → ℤ → Bool
unfolding get payload_text is_declined any_other
matches_conversation_lease b event world now = matches_lease b event now world.conversation_lease
