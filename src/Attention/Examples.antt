-- ===== src/Attention/Examples.antt =====
-- The theorems of the attention scheduler after one message in a group.
use astrbot_plugin_groupmate.Prelude.{
  pos, ◌+ℤ◌, leb_ℤ, strip, ◌≡◌, refl, false, not, any, find, keep, true, none, some, List, [], ◌∷◌,
}
use astrbot_plugin_groupmate.Result.{ok}
use astrbot_plugin_groupmate.Json.{end, get}
use astrbot_plugin_groupmate.Planning.Contracts.{is_in}
use astrbot_plugin_groupmate.Prelude.{Among}
use astrbot_plugin_groupmate.Attention.Frames.{
  Builtins, SocialEventEnvelope, GroupWorldState, PersonaSnapshot, AttentionFrame, topic_id_of,
  payload_text, is_declined, is_fast, matches_conversation_lease,
}
use astrbot_plugin_groupmate.Attention.{
  PendingAttentionWindow, AttentionScheduler, drop, take_last, trim_window, put_window,
  pending_window, refresh_pending_scene, drop_before, times_of, set_times, record_message_time,
  ambient_delay, grow_window, attend, on_event, ambient_frame, is_window_due, flush_due,
}
use astrbot_plugin_groupmate.Attention.Windows.{IsBounded}
use astrbot_plugin_groupmate.Attention.Bounds.{
  Reaches, hears, here, empty_scheduler, Reaches-IsBounded,
}
use astrbot_plugin_groupmate.Attention.Gathers.{EndsIn, on_event-gathers}
use astrbot_plugin_groupmate.Attention.Flushed.{flush_due-leaves, flush_due-emits}

abbrev builtins : Builtins
builtins = record {
  text_of = λ v. "text";
  number_of = λ v. none;
  casefold = λ s. s;
  frame_digest = λ f. f.group_id;
}

abbrev hello : SocialEventEnvelope
hello = record {
  event_id = "e1";
  event_type = "platform.message";
  group_id = some "g";
  actor_id = some "ann";
  source_message_id = some "m1";
  payload = end;
}

abbrev world : GroupWorldState
world = record {
  group_id = "g";
  scene_version = pos 1;
  active_topics = record { topic_id = "t"; message_ids = "m1" ∷ [] } ∷ [];
  conversation_lease = none;
}

abbrev persona : PersonaSnapshot
persona = record { state_version = pos 1; config_version = pos 1 }

abbrev heard : AttentionScheduler
heard = (on_event builtins hello world persona (pos 100) empty_scheduler).1

abbrev waiting : PendingAttentionWindow
waiting = record {
  group_id = "g";
  scene_version = pos 1;
  focus_topic_ids = "t" ∷ [];
  focus_event_ids = "e1" ∷ [];
  candidate_audiences = "ann" ∷ [];
  window_started_at = pos 100;
  deadline = pos 102;
  persona_state_version = pos 1;
  config_version = pos 1;
}

heard-run : Reaches empty_scheduler heard
heard-run = hears here builtins hello world persona (pos 100)

heard-waiting : pending_window "g" heard ≡ some waiting
unfolding ◌+ℤ◌ any find keep strip get is_in topic_id_of payload_text is_declined is_fast
    matches_conversation_lease drop take_last trim_window put_window pending_window
    refresh_pending_scene drop_before times_of set_times record_message_time ambient_delay
    grow_window attend on_event
heard-waiting = refl

heard-waited : leb_ℤ (pos 100 +ℤ pos 8) (pos 108) ≡ true
unfolding ◌+ℤ◌
heard-waited = refl

Reaches-IsBounded_example : IsBounded heard
Reaches-IsBounded_example = Reaches-IsBounded heard-run

flush_due-leaves_example :
    (flush_due builtins (pos 108) heard).1.ambient
    ≡ keep (λ w. not (is_window_due (pos 108) w)) heard.ambient
flush_due-leaves_example =
    flush_due-leaves builtins (pos 108) heard (Reaches-IsBounded heard-run).keyed

flush_due-emits_example :
    (frames : List AttentionFrame) × ((flush_due builtins (pos 108) heard).0 ≡ ok frames)
    × Among (ambient_frame builtins waiting) frames
    × (pending_window "g" (flush_due builtins (pos 108) heard).1 ≡ none)
flush_due-emits_example =
    flush_due-emits builtins (pos 108) heard-run "g" waiting heard-waiting heard-waited

abbrev again : SocialEventEnvelope
again = record hello { event_id = "e2"; source_message_id = some "m2" }

again_asked : is_declined again ≡ false
unfolding is_declined get
again_asked = refl

again_slow : is_fast again ≡ false
unfolding is_fast get is_in any
again_slow = refl

again_free : matches_conversation_lease builtins again world (pos 101) ≡ false
unfolding matches_conversation_lease
again_free = refl

on_event-gathers_example :
    ((on_event builtins again world persona (pos 101) heard).0 ≡ ok [])
    × (w : PendingAttentionWindow) × (pending_window "g"
          (on_event builtins again world persona (pos 101) heard).1
        ≡ some w)
    × EndsIn "e2" w.focus_event_ids
on_event-gathers_example =
    on_event-gathers builtins again world persona (pos 101) heard refl refl refl refl refl
      again_asked refl again_slow again_free
