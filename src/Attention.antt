-- ===== src/Attention.antt =====
-- `AttentionScheduler` of groupmate/social_runtime/attention.py. Its two dictionaries are lists: of the
-- windows, each under its own group, and of the recent times of each group. Of an event, a world and a
-- persona the records hold what the scheduler reads.
pub mod Frames
pub mod Opportunities
pub mod Windows
pub mod Bounds
pub mod Flushed
pub mod Gathers
pub mod Examples
use astrbot_plugin_groupmate.Prelude.{
  text_leb, ℕ, ◌-◌, ◌+◌, ℤ, pos, negsuc, ◌+ℤ◌, ltb_ℤ, leb_ℤ, leb, String, ◌==◌, is_empty, strip,
  any, all, keep, find, length, sort_by, Bool, true, false, not, ◌&&◌, ◌||◌, Option, none, some,
  List, [], ◌∷◌, ◌++◌, map, if◌then◌else◌,
}
use astrbot_plugin_groupmate.Json.{Json, Fields, get}
use astrbot_plugin_groupmate.Result.{Result, ok, raise, value_error, require}
use astrbot_plugin_groupmate.Exec.{Exec, pure, lift, gets, modify, ◌>>=◌, ◌>>◌}
use astrbot_plugin_groupmate.Attention.Opportunities.{autonomous_frames}
use astrbot_plugin_groupmate.Attention.Frames.{
  Builtins, SocialEventEnvelope, GroupWorldState, PersonaSnapshot, AttentionFrame, min_ℤ,
  topic_id_of, own_frame, is_fast, fast_workers, matches_conversation_lease, build_frame,
  is_declined, due_at, given_ids,
}

abbrev pub max_focus_events : ℕ
max_focus_events = 12

abbrev pub max_focus_topics : ℕ
max_focus_topics = 4

abbrev pub max_candidate_audiences : ℕ
max_candidate_audiences = 8

abbrev pub window_max_seconds : ℕ
window_max_seconds = 8

pub record PendingAttentionWindow : Type 0 where
  pub group_id : String
  pub scene_version : ℤ
  pub focus_topic_ids : List String
  pub focus_event_ids : List String
  pub candidate_audiences : List String
  pub window_started_at : ℤ
  pub deadline : ℤ
  pub persona_state_version : ℤ
  pub config_version : ℤ

unfoldable pub drop : ℕ → List String → List String
drop n [] = []
drop n (x ∷ xs) = if leb n 0 then x ∷ xs else drop (n - 1) xs

-- `values[-limit:]`, for a positive limit
unfoldable pub take_last : ℕ → List String → List String
unfolding drop
take_last limit values = drop (length values - limit) values

-- `PendingAttentionWindow.__post_init__`
unfoldable pub trim_window : PendingAttentionWindow → PendingAttentionWindow
trim_window w = record w {
  focus_topic_ids = take_last max_focus_topics w.focus_topic_ids;
  focus_event_ids = take_last max_focus_events w.focus_event_ids;
  candidate_audiences = take_last max_candidate_audiences w.candidate_audiences;
}

pub record AttentionScheduler : Type 0 where
  pub ambient : List PendingAttentionWindow
  pub recent_message_times : List (String × List ℤ)

abbrev pub has_group : String → PendingAttentionWindow → Bool
has_group group_id w = w.group_id == group_id

-- `self._ambient[w.group_id] = w`
unfoldable pub put_window :
    PendingAttentionWindow → List PendingAttentionWindow → List PendingAttentionWindow
unfolding any
put_window w ws =
    if any (has_group w.group_id) ws
    then map (λ x. if has_group w.group_id x then w else x) ws
    else ws ++ w ∷ []

-- `pending_window`
unfoldable pub pending_window : String → AttentionScheduler → Option PendingAttentionWindow
unfolding find
pending_window group_id s = find (has_group group_id) s.ambient

-- `_refresh_pending_scene`, for the window that is there
abbrev pub refreshed :
    GroupWorldState → PersonaSnapshot → PendingAttentionWindow → PendingAttentionWindow
refreshed world persona w = trim_window (record w {
  scene_version = world.scene_version;
  persona_state_version = persona.state_version;
  config_version = persona.config_version;
})

abbrev pub refresh_found :
    GroupWorldState
    → PersonaSnapshot
    → Option PendingAttentionWindow
    → AttentionScheduler
    → AttentionScheduler
refresh_found world persona none s = s
refresh_found world persona (some w) s = record s {
  ambient = put_window (refreshed world persona w) s.ambient;
}

unfoldable pub refresh_pending_scene :
    String → GroupWorldState → PersonaSnapshot → AttentionScheduler → AttentionScheduler
refresh_pending_scene group_id world persona s =
    refresh_found world persona (pending_window group_id s) s

-- the times from the first that is not before the cutoff on
unfoldable pub drop_before : ℤ → List ℤ → List ℤ
drop_before cutoff [] = []
drop_before cutoff (t ∷ ts) = if ltb_ℤ t cutoff then drop_before cutoff ts else t ∷ ts

unfoldable pub times_of : String → List (String × List ℤ) → List ℤ
times_of group_id [] = []
times_of group_id ((g, ts) ∷ rest) = if g == group_id then ts else times_of group_id rest

unfoldable pub set_times : String → List ℤ → List (String × List ℤ) → List (String × List ℤ)
set_times group_id ts [] = (group_id, ts) ∷ []
set_times group_id ts ((g, us) ∷ rest) =
    if g == group_id then (g, ts) ∷ rest else (g, us) ∷ set_times group_id ts rest

-- `_record_message_time`
unfoldable pub record_message_time : String → ℤ → AttentionScheduler → AttentionScheduler
unfolding drop_before times_of set_times
record_message_time group_id now s = record s {
  recent_message_times =
      set_times group_id
        (drop_before (now +ℤ negsuc 59) (times_of group_id s.recent_message_times ++ now ∷ []))
        s.recent_message_times;
}

-- `_ambient_delay`
unfoldable pub ambient_delay : String → AttentionScheduler → ℤ
unfolding times_of
ambient_delay group_id s =
    let count = length (times_of group_id s.recent_message_times) in
    if leb count 3 then pos 2 else if leb count 12 then pos 3 else pos 5

-- `_append_recent_unique`
unfoldable pub append_recent_unique : List String → Option String → ℕ → List String
unfolding keep take_last
append_recent_unique values none limit = take_last limit values
append_recent_unique values (some v) limit =
    if is_empty v
    then take_last limit values
    else take_last limit (keep (λ item. not (item == v)) values ++ v ∷ [])

module _ (b : Builtins) (event : SocialEventEnvelope) (world : GroupWorldState)
    (persona : PersonaSnapshot) (now : ℤ) where
  -- the window of an ambient message, new or grown
  abbrev pub grown_window : String → ℤ → Option PendingAttentionWindow → PendingAttentionWindow
  grown_window group_id delay none = trim_window (record {
    group_id = group_id;
    scene_version = world.scene_version;
    focus_topic_ids = given_ids (some (topic_id_of b world event));
    focus_event_ids = event.event_id ∷ [];
    candidate_audiences = given_ids event.actor_id;
    window_started_at = now;
    deadline = now +ℤ delay;
    persona_state_version = persona.state_version;
    config_version = persona.config_version;
  })
  grown_window group_id delay (some current) = trim_window (record current {
    scene_version = world.scene_version;
    focus_topic_ids =
        append_recent_unique current.focus_topic_ids (some (topic_id_of b world event))
          max_focus_topics;
    focus_event_ids =
        append_recent_unique current.focus_event_ids (some event.event_id) max_focus_events;
    candidate_audiences =
        append_recent_unique current.candidate_audiences event.actor_id max_candidate_audiences;
    deadline = min_ℤ (now +ℤ delay) (current.window_started_at +ℤ pos window_max_seconds);
    persona_state_version = persona.state_version;
    config_version = persona.config_version;
  })

  unfoldable pub grow_window : String → AttentionScheduler → AttentionScheduler
  grow_window group_id s =
      let s' = record_message_time group_id now s in
      record s' {
        ambient =
            put_window
              (grown_window group_id (ambient_delay group_id s') (pending_window group_id s'))
              s'.ambient;
      }

  -- `on_event` behind its checks
  unfoldable pub attend : String → Exec AttentionScheduler (List AttentionFrame)
  attend group_id =
      if is_declined event
      then pure []
      else if event.event_type == "temporal.opportunity_due"
      then pure (autonomous_frames b event world persona now)
      else if event.event_type == "temporal.commitment_due"
      then (do
        due ← lift (due_at b event now)
        pure (
            if ltb_ℤ now due
            then []
            else own_frame b event world persona "TEMPORAL" "normal" now
                ("commitment_revalidator" ∷ [])
              ∷ []))
      else if is_fast event
      then pure (
          own_frame b event world persona "FAST"
            (if event.event_type == "safety.boundary" then "critical" else "high") now
            (fast_workers event)
          ∷ [])
      else if matches_conversation_lease b event world now
      then pure (own_frame b event world persona "CONTINUATION" "high" now [] ∷ [])
      else if not (event.event_type == "platform.message")
      then pure []
      else (do modify (grow_window group_id); pure [])

  abbrev pub for_group : Option String → Exec AttentionScheduler (List AttentionFrame)
  for_group none = lift (raise value_error)
  for_group (some group_id) = do
    lift (require (not (is_empty group_id) && (group_id == world.group_id)) value_error)
    lift (require (not (ltb_ℤ world.scene_version (pos 1))) value_error)
    modify (refresh_pending_scene group_id world persona)
    attend group_id

  unfoldable pub on_event : Exec AttentionScheduler (List AttentionFrame)
  on_event = for_group event.group_id

-- `_ambient_frame`
abbrev pub ambient_frame : Builtins → PendingAttentionWindow → AttentionFrame
ambient_frame b w = build_frame b (record {
  frame_id = "";
  group_id = w.group_id;
  scene_version = w.scene_version;
  trigger_kind = "AMBIENT";
  focus_topic_ids = w.focus_topic_ids;
  focus_event_ids = w.focus_event_ids;
  candidate_audiences = w.candidate_audiences;
  urgency = "normal";
  deadline = w.deadline;
  requested_workers = "ambient_social_assessor" ∷ [];
  persona_state_version = w.persona_state_version;
  config_version = w.config_version;
})

abbrev pub is_window_due : ℤ → PendingAttentionWindow → Bool
is_window_due now w = leb_ℤ w.deadline now

-- the order of `(deadline, group_id)`
abbrev pub due_before : PendingAttentionWindow → PendingAttentionWindow → Bool
due_before v w =
    ltb_ℤ v.deadline w.deadline || (leb_ℤ v.deadline w.deadline && text_leb v.group_id w.group_id)

unfoldable pub due_windows : ℤ → AttentionScheduler → List PendingAttentionWindow
unfolding keep sort_by
due_windows now s = sort_by due_before (keep (is_window_due now) s.ambient)

-- `for window in due: self._ambient.pop(window.group_id, None)`
unfoldable pub pop_all :
    List PendingAttentionWindow → List PendingAttentionWindow → List PendingAttentionWindow
unfolding keep
pop_all [] ws = ws
pop_all (w ∷ due) ws = pop_all due (keep (λ x. not (has_group w.group_id x)) ws)

unfoldable pub flush_due : Builtins → ℤ → Exec AttentionScheduler (List AttentionFrame)
flush_due b now s =
    let due = due_windows now s in
    (ok (map (ambient_frame b) due), record s { ambient = pop_all due s.ambient })

unfoldable pub restore_window : PendingAttentionWindow → Exec AttentionScheduler (Unit {0})
unfolding strip
restore_window w = do
  lift (
      require
        (not (is_empty (strip w.group_id))
          && not (ltb_ℤ w.scene_version (pos 1))
          && not (ltb_ℤ w.window_started_at (pos 0))
          && leb_ℤ w.window_started_at w.deadline)
        value_error)
  modify (λ s. record s { ambient = put_window w s.ambient })

-- `ambient_deadline_expired`
unfoldable pub ambient_deadline_expired : AttentionFrame → ℤ → Bool
ambient_deadline_expired frame decision_at =
    (frame.trigger_kind == "AMBIENT")
    && ltb_ℤ (frame.deadline +ℤ pos window_max_seconds) decision_at
