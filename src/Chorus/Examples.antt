-- ===== src/Chorus/Examples.antt =====
-- The theorem of the chorus detector at two members who say the same.
use astrbot_plugin_groupmate.Prelude.{
  pos, ◌+ℤ◌, concat, strip, lstrip, rstrip, is_space, ◌==◌, ◌≡◌, refl, any, keep, find, sort_by,
  insert_by, true, false, none, some, List, [], ◌∷◌,
}
use astrbot_plugin_groupmate.Result.{ok, traverse}
use astrbot_plugin_groupmate.Planning.Contracts.{is_in}
use astrbot_plugin_groupmate.Tasks.Contracts.{codes}
use astrbot_plugin_groupmate.Governor.{extend_unique}
use astrbot_plugin_groupmate.Chorus.{
  SceneEventFact, ChorusEvidence, Texts, ChorusDetector, create_evidence, join, normalize_key,
  content_key, is_eligible, matching_events, chain_id_of, evidence_of, detect,
}
use astrbot_plugin_groupmate.Chorus.Detected.{IsChorus, detect_sound}

abbrev texts : Texts
texts = record {
  casefold = λ s. s;
  upper = λ s. s;
  normalize = λ s. s;
  split = λ s. s ∷ [];
  has_url = λ s. false;
  chain_digest = λ event group key. event;
}

abbrev detector : ChorusDetector
detector = record { window_seconds = pos 45; max_chars = pos 80 }

abbrev first : SceneEventFact
first = record {
  event_id = "e1";
  actor_id = some "ann";
  text = "wow";
  parts = "TEXT" ∷ [];
  occurred_at = pos 10;
  origin_kind = "USER_TEXT";
  sticker_sha256 = none;
}

abbrev second : SceneEventFact
second = record first { event_id = "e2"; actor_id = some "bob"; occurred_at = pos 20 }

abbrev scene : List SceneEventFact
scene = second ∷ first ∷ []

abbrev evidence : ChorusEvidence
evidence = record {
  chain_id = "chorus:e1";
  payload = "wow";
  normalized_key = "wow";
  event_ids = "e1" ∷ "e2" ∷ [];
  participant_ids = "ann" ∷ "bob" ∷ [];
  already_joined = false;
  kind = "TEXT";
}

detected : detect texts detector "g" "bot" [] scene "e2" ≡ ok (some evidence)
unfolding detect evidence_of create_evidence chain_id_of matching_events is_eligible content_key
    normalize_key join extend_unique codes is_in traverse any keep find sort_by insert_by strip
    lstrip rstrip is_space concat ◌+ℤ◌
detected = refl

detect_sound_example :
    (source : SceneEventFact) × (find (λ item. item.event_id == "e2") scene ≡ some source)
    × (is_eligible texts detector source "bot" ≡ true)
    × IsChorus texts detector "g" "bot" [] scene source evidence
detect_sound_example = detect_sound texts detector "g" "bot" [] scene "e2" detected
