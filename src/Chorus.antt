-- ===== src/Chorus.antt =====
-- `ChorusDetector` of groupmate/social_runtime/chorus.py, with the facts of a scene's events of
-- social_context.py: whether members of a group repeat one text or sticker.
pub mod Detected
pub mod Examples
use astrbot_plugin_groupmate.Prelude.{
  text_leb, ℤ, pos, ◌+ℤ◌, ltb_ℤ, leb_ℤ, leb, String, ◌==◌, is_empty, strip, concat, any, keep, find,
  length, sort_by, Bool, true, false, not, ◌&&◌, ◌||◌, Option, none, some, List, [], ◌∷◌, ◌++◌, map,
  if◌then◌else◌,
}
use astrbot_plugin_groupmate.Result.{
  Result, ok, raise, value_error, lookup_error, ◌>>=◌, ◌>>◌, require, traverse,
}
use astrbot_plugin_groupmate.Planning.Contracts.{is_in}
use astrbot_plugin_groupmate.Tasks.Contracts.{codes, is_digest}
use astrbot_plugin_groupmate.Governor.{extend_unique}

pub record SceneEventFact : Type 0 where
  pub event_id : String
  pub actor_id : Option String
  pub text : String
  pub parts : List String
  pub occurred_at : ℤ
  pub origin_kind : String
  pub sticker_sha256 : Option String

pub record ChorusEvidence : Type 0 where
  pub chain_id : String
  pub payload : String
  pub normalized_key : String
  pub event_ids : List String
  pub participant_ids : List String
  pub already_joined : Bool
  pub kind : String

-- What the code takes from Python: `str.casefold`, `str.upper`, `unicodedata.normalize("NFKC", _)`,
-- `str.split()`, the search for a URL, and the first 24 digits of the SHA-256 of a chain's JSON, by its
-- first event, its group and its key.
pub record Texts : Type 0 where
  pub casefold : String → String
  pub upper : String → String
  pub normalize : String → String
  pub split : String → List String
  pub has_url : String → Bool
  pub chain_digest : String → String → String → String

pub record ChorusDetector : Type 0 where
  pub window_seconds : ℤ
  pub max_chars : ℤ

-- `ChorusDetector.__init__`
unfoldable pub create_detector : ℤ → ℤ → Result ChorusDetector
create_detector window_seconds max_chars = do
  require (not (ltb_ℤ window_seconds (pos 1))) value_error
  require (not (ltb_ℤ max_chars (pos 1))) value_error
  ok (record { window_seconds = window_seconds; max_chars = max_chars })

-- `_required`
abbrev pub required : String → Result String
required value = require (not (is_empty (strip value))) value_error >> ok (strip value)

-- `text or fallback`
abbrev pub or_text : String → String → String
or_text s fallback = if is_empty s then fallback else s

-- `tuple(dict.fromkeys(values))`
abbrev pub unique : List String → List String
unique values = extend_unique [] values

-- `ChorusEvidence.__post_init__`
unfoldable pub create_evidence : Texts → ChorusEvidence → Result ChorusEvidence
unfolding strip is_in any extend_unique traverse
create_evidence t e = do
  chain_id ← required e.chain_id
  payload ← required e.payload
  normalized_key ← required e.normalized_key
  let kind = or_text (t.upper (strip (or_text e.kind "TEXT"))) "TEXT"
  require (is_in kind ("TEXT" ∷ "STICKER" ∷ [])) value_error
  event_ids ← traverse required e.event_ids
  participant_ids ← traverse required e.participant_ids
  require (leb 2 (length (unique event_ids)) && leb 2 (length (unique participant_ids))) value_error
  ok (record e {
    chain_id = chain_id;
    payload = payload;
    normalized_key = normalized_key;
    kind = kind;
    event_ids = unique event_ids;
    participant_ids = unique participant_ids;
  })

-- `sticker_chorus_payload`
unfoldable pub sticker_chorus_payload : Texts → String → Result String
unfolding strip concat
sticker_chorus_payload t sha256 =
    let digest = t.casefold (strip sha256) in
    require (is_digest digest) value_error >> ok (concat "sticker:" digest)

-- an optional text, with "" for none: both are false
abbrev pub text_or_empty : Option String → String
text_or_empty none = ""
text_or_empty (some s) = s

unfoldable pub join : List String → String
unfolding concat
join [] = ""
join (s ∷ []) = s
join (s ∷ u ∷ us) = concat s (concat " " (join (u ∷ us)))

-- `_normalize_key`
unfoldable pub normalize_key : Texts → String → String
unfolding join
normalize_key t value = join (t.split (t.normalize value))

abbrev pub is_sticker : SceneEventFact → Bool
is_sticker event = not (is_empty (text_or_empty event.sticker_sha256))

-- `_content_key`
unfoldable pub content_key : Texts → SceneEventFact → Result String
content_key t event =
    if is_sticker event
    then sticker_chorus_payload t (text_or_empty event.sticker_sha256)
    else ok (normalize_key t event.text)

abbrev pub blocked_parts : List String
blocked_parts =
    "FACE" ∷ "MFACE" ∷ "VIDEO" ∷ "FILE" ∷ "RECORD" ∷ "FORWARD" ∷ "AT" ∷ "MENTION" ∷ "TEXT" ∷ []

-- `_sticker_parts`
unfoldable pub sticker_parts : List String → Bool
unfolding is_in any
sticker_parts parts = is_in "IMAGE" parts && not (any (λ kind. is_in kind blocked_parts) parts)

abbrev pub is_text_only : List String → Bool
is_text_only [] = false
is_text_only (kind ∷ []) = kind == "TEXT"
is_text_only (kind ∷ other ∷ kinds) = false

module _ (t : Texts) (d : ChorusDetector) where
  -- `_eligible`
  unfoldable pub is_eligible : SceneEventFact → String → Bool
  unfolding strip codes
  is_eligible event persona_actor_id =
      let actor = text_or_empty event.actor_id in
      let size = length (codes (strip event.text)) in
      not (is_empty actor)
      && not (actor == persona_actor_id)
      && (event.origin_kind == "USER_TEXT")
      && (if is_sticker event
          then sticker_parts event.parts
          else is_text_only event.parts
            && leb 1 size
            && leb_ℤ (pos size) d.max_chars
            && not (t.has_url (strip event.text)))

  -- `0 <= source.occurred_at - item.occurred_at <= self._window_seconds`
  abbrev pub is_in_window : SceneEventFact → SceneEventFact → Bool
  is_in_window source item =
      leb_ℤ item.occurred_at source.occurred_at
      && leb_ℤ source.occurred_at (item.occurred_at +ℤ d.window_seconds)

  module _ (persona_actor_id : String) (source : SceneEventFact) (normalized_key : String) where
    abbrev pub is_candidate : SceneEventFact → Bool
    is_candidate item = is_eligible item persona_actor_id && is_in_window source item

    -- an event in front of the matching ones, when it matches
    abbrev pub add_matching :
        SceneEventFact → Result (List SceneEventFact) → Result (List SceneEventFact)
    add_matching item rest =
        if is_candidate item
        then (do
          key ← content_key t item
          items ← rest
          ok (if key == normalized_key then item ∷ items else items))
        else rest

    unfoldable pub matching_events : List SceneEventFact → Result (List SceneEventFact)
    matching_events [] = ok []
    matching_events (item ∷ items) = add_matching item (matching_events items)

-- the order of `(occurred_at, event_id)`
abbrev pub comes_before : SceneEventFact → SceneEventFact → Bool
comes_before x y =
    ltb_ℤ x.occurred_at y.occurred_at
    || (leb_ℤ x.occurred_at y.occurred_at && text_leb x.event_id y.event_id)

-- `_chain_id`
unfoldable pub chain_id_of : Texts → String → String → List SceneEventFact → Result String
unfolding strip concat
chain_id_of t group_id normalized_key [] = raise lookup_error
chain_id_of t group_id normalized_key (first ∷ rest) = do
  first_event_id ← required first.event_id
  group ← required group_id
  ok (concat "chorus:" (t.chain_digest first_event_id group normalized_key))

abbrev pub payload_of : Texts → SceneEventFact → Result String
payload_of t source =
    if is_sticker source
    then sticker_chorus_payload t (text_or_empty source.sticker_sha256)
    else ok (strip source.text)

-- the actors of the events that have one
abbrev pub participants_of : List SceneEventFact → List String
participants_of items =
    unique (keep (λ id. not (is_empty id)) (map (λ item. text_or_empty item.actor_id) items))

module _ (t : Texts) (d : ChorusDetector) (group_id persona_actor_id : String)
    (joined_chain_ids : List String) where
  -- `detect` behind the sorting of the matching events
  unfoldable pub evidence_of :
      SceneEventFact → String → List SceneEventFact → Result (Option ChorusEvidence)
  unfolding any keep extend_unique is_in strip
  evidence_of source normalized_key matching =
      if not (any (λ item. item.event_id == source.event_id) matching)
        || not (leb 2 (length (participants_of matching)))
      then ok none
      else do
        chain_id ← chain_id_of t group_id normalized_key matching
        payload ← payload_of t source
        evidence ← create_evidence t (record {
          chain_id = chain_id;
          payload = payload;
          normalized_key = normalized_key;
          event_ids = map (λ item. item.event_id) matching;
          participant_ids = participants_of matching;
          already_joined = is_in chain_id joined_chain_ids;
          kind = if is_sticker source then "STICKER" else "TEXT";
        })
        ok (some evidence)

  abbrev pub detect_from :
      List SceneEventFact → Option SceneEventFact → Result (Option ChorusEvidence)
  detect_from events none = ok none
  detect_from events (some source) =
      if not (is_eligible t d source persona_actor_id) then ok none else do
        normalized_key ← content_key t source
        if is_empty normalized_key then ok none else do
          matching ← matching_events t d persona_actor_id source normalized_key events
          evidence_of source normalized_key (sort_by comes_before matching)

  unfoldable pub detect : List SceneEventFact → String → Result (Option ChorusEvidence)
  unfolding find sort_by
  detect events source_event_id =
      detect_from events (find (λ item. item.event_id == source_event_id) events)
