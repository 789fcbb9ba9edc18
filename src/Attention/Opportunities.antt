-- ===== src/Attention/Opportunities.antt =====
-- The due opportunities of groupmate/social_runtime/attention.py: which of them may be looked at.
use astrbot_plugin_groupmate.Prelude.{
  ℤ, pos, int_eq, ltb_ℤ, leb_ℤ, String, is_empty, strip, any, all, Bool, false, not, ◌&&◌, ◌||◌,
  Option, none, some, List, [], ◌∷◌, ◌++◌, if◌then◌else◌,
}
use astrbot_plugin_groupmate.Json.{Json, boolean, array, Items, nil, cons, get}
use astrbot_plugin_groupmate.Planning.Contracts.{is_in, is_nil}
use astrbot_plugin_groupmate.Tasks.Contracts.{starts_with}
use astrbot_plugin_groupmate.Attention.Frames.{
  Builtins, SocialEventEnvelope, GroupWorldState, PersonaSnapshot, AttentionFrame, topic_id_of,
  payload_text, build_frame, given_ids,
}

-- `tuple(dict.fromkeys(str(item).strip() for item in value))`, behind the texts of `seen`
unfoldable pub unique_texts : Builtins → List String → Items → List String
unfolding is_in any strip
unique_texts b seen nil = seen
unique_texts b seen (cons v rest) =
    let item = strip (b.text_of v) in
    unique_texts b (if is_in item seen then seen else seen ++ item ∷ []) rest

abbrev pub texts_at : Builtins → Option Json → List String
texts_at b (some (array items)) =
    let normalized = unique_texts b [] items in if any is_empty normalized then [] else normalized
texts_at b _ = []

-- `_payload_texts(event.payload.get(key))`
unfoldable pub payload_texts : Builtins → String → SocialEventEnvelope → List String
unfolding get any unique_texts
payload_texts b key event = texts_at b (get key event.payload)

abbrev pub if_natural : Option ℤ → Option ℤ
if_natural none = none
if_natural (some z) = if leb_ℤ (pos 0) z then some z else none

abbrev pub number_at : Builtins → Option Json → Option ℤ
number_at b none = none
number_at b (some (boolean _)) = none
number_at b (some v) = if_natural (b.number_of v)

-- `_payload_int(event.payload.get(key))`
unfoldable pub payload_int : Builtins → String → SocialEventEnvelope → Option ℤ
unfolding get
payload_int b key event = number_at b (get key event.payload)

abbrev pub allowed_opportunity_kinds : List String
allowed_opportunity_kinds =
    "commitment" ∷ "task" ∷ "member-event" ∷ "group-ritual" ∷ "delayed-scene" ∷ "self-open-loop"
    ∷ []

-- a number that is there and passes a test
abbrev pub holds_of : Option ℤ → (ℤ → Bool) → Bool
holds_of none p = false
holds_of (some z) p = p z

-- whether an opportunity may be looked at
unfoldable pub is_opportunity : Builtins → SocialEventEnvelope → ℤ → Bool
unfolding is_in any all payload_texts payload_int payload_text starts_with
is_opportunity b event now =
    let sources = payload_texts b "source_event_ids" event in
    let reasons = payload_texts b "entry_reason_event_ids" event in
    not (is_nil sources)
    && not (is_nil reasons)
    && all (λ id. is_in id sources) reasons
    && not (is_nil (payload_texts b "audience" event))
    && not (any (λ id. starts_with "autonomy:" id) sources)
    && is_in (payload_text b "kind" event) allowed_opportunity_kinds
    && holds_of (payload_int b "earliest_at" event) (λ z. leb_ℤ z now)
    && holds_of (payload_int b "expires_at" event) (λ z. ltb_ℤ now z)
    && holds_of (payload_int b "attempt" event) (λ z. int_eq z (pos 1) || int_eq z (pos 2))
    && holds_of (payload_int b "followup_count" event) (λ z. int_eq z (pos 0) || int_eq z (pos 1))

-- `_append_unique`
unfoldable pub append_unique : List String → String → List String
unfolding is_in any
append_unique values value =
    if is_empty value || is_in value values then values else values ++ value ∷ []

-- `_autonomous_frames`
unfoldable pub autonomous_frames :
    Builtins → SocialEventEnvelope → GroupWorldState → PersonaSnapshot → ℤ → List AttentionFrame
unfolding is_opportunity topic_id_of payload_text payload_texts append_unique
autonomous_frames b event world persona now =
    let own_topic = topic_id_of b world event in
    let topic_id =
      if is_empty own_topic then payload_text b "opportunity_id" event else own_topic in
    if is_opportunity b event now
    then build_frame b (record {
      frame_id = "";
      group_id = world.group_id;
      scene_version = world.scene_version;
      trigger_kind = "TEMPORAL";
      focus_topic_ids = given_ids (some topic_id);
      focus_event_ids =
          append_unique (payload_texts b "entry_reason_event_ids" event) event.event_id;
      candidate_audiences = payload_texts b "audience" event;
      urgency = "normal";
      deadline = now;
      requested_workers = "autonomy_revalidator" ∷ [];
      persona_state_version = persona.state_version;
      config_version = persona.config_version;
    })
      ∷ []
    else []
