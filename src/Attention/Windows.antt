-- ===== src/Attention/Windows.antt =====
-- The bounds of the windows of `AttentionScheduler` in groupmate/social_runtime/attention.py, and what
-- keeps them: trimming a window, putting it in and refreshing it.
use astrbot_plugin_groupmate.Prelude.{
  ℕ, ◌-◌, ◌≤◌, ℤ, pos, ◌+ℤ◌, leb_ℤ, String, text_eq, ◌≡◌, true, some, List, [], ◌∷◌, any, find-All,
  length, All, All-map, All-map_of, All-append, Bool-cases, Option-cases, inl, inr, if◌then◌else◌,
  arith, IsKeyed, map-IsKeyed, snoc-IsKeyed,
}
use astrbot_plugin_groupmate.Attention.{
  PendingAttentionWindow, AttentionScheduler, max_focus_topics, max_focus_events,
  max_candidate_audiences, window_max_seconds, drop, take_last, trim_window, has_group, put_window,
  pending_window, refreshed, refresh_pending_scene, ambient_delay,
}
use astrbot_plugin_groupmate.Attention.Frames.{GroupWorldState, PersonaSnapshot, min_ℤ}

-- The bounds of a window: how many it names, and how long it may wait.
pub record IsWindow (w : PendingAttentionWindow) : Type 0 where
  pub topics : length w.focus_topic_ids ≤ 4
  pub events : length w.focus_event_ids ≤ 12
  pub audiences : length w.candidate_audiences ≤ 8
  pub in_time : leb_ℤ w.deadline (w.window_started_at +ℤ pos window_max_seconds) ≡ true

pub record IsBounded (s : AttentionScheduler) : Type 0 where
  pub keyed : IsKeyed (λ w. w.group_id) s.ambient
  pub windows : All IsWindow s.ambient

length-drop : (n : ℕ) (xs : List String) → length (drop n xs) ≡ length xs - n
unfolding drop
length-drop n [] = omega arith
length-drop n (x ∷ xs) = ground (arith, length-drop (n - 1) xs)

length-take_last : (n : ℕ) (xs : List String) → length (take_last n xs) ≤ n
unfolding take_last
length-take_last n xs = omega (arith, length-drop (length xs - n) xs)

pub trim_window-IsWindow :
    (w : PendingAttentionWindow)
    → leb_ℤ w.deadline (w.window_started_at +ℤ pos window_max_seconds) ≡ true
    → IsWindow (trim_window w)
unfolding trim_window
trim_window-IsWindow w h = record {
  topics = length-take_last max_focus_topics w.focus_topic_ids;
  events = length-take_last max_focus_events w.focus_event_ids;
  audiences = length-take_last max_candidate_audiences w.candidate_audiences;
  in_time = h;
}

put-group :
    (w x : PendingAttentionWindow) → (if has_group w.group_id x then w else x).group_id ≡ x.group_id
put-group w x = ground (arith, text_eq x.group_id w.group_id)

put_window-IsKeyed :
    (w : PendingAttentionWindow) (ws : List PendingAttentionWindow)
    → IsKeyed (λ x. x.group_id) ws
    → IsKeyed (λ x. x.group_id) (put_window w ws)
unfolding put_window
put_window-IsKeyed w ws k = elim (Bool-cases (any (has_group w.group_id) ws)) [
  | inl there ↦ rw there (
      map-IsKeyed (λ (x : PendingAttentionWindow). x.group_id)
        (λ x. if has_group w.group_id x then w else x) (put-group w) ws k)
  | inr free ↦ rw free (snoc-IsKeyed (λ (x : PendingAttentionWindow). x.group_id) ws w free k)
]

put_window-All :
    (P : PendingAttentionWindow → Type 0) (w : PendingAttentionWindow)
    (ws : List PendingAttentionWindow)
    → P w
    → All P ws
    → All P (put_window w ws)
unfolding put_window
put_window-All P w ws pw pws = elim (Bool-cases (any (has_group w.group_id) ws)) [
  | inl there ↦
      rw there (All-map P (λ x. if has_group w.group_id x then w else x) ws (All-map_of one ws pws))
  | inr free ↦ rw free (All-append P ws (w ∷ []) pws (pw, tt))
]
  where
    one : (x : PendingAttentionWindow) → P x → P (if has_group w.group_id x then w else x)
    one x px = elim (Bool-cases (has_group w.group_id x)) [ inl h ↦ rw h pw | inr h ↦ rw h px ]

pub put_window-IsBounded :
    (w : PendingAttentionWindow) (s : AttentionScheduler)
    → IsWindow w
    → IsBounded s
    → IsBounded (record s { ambient = put_window w s.ambient })
put_window-IsBounded w s h v = record {
  keyed = put_window-IsKeyed w s.ambient v.keyed;
  windows = put_window-All IsWindow w s.ambient h v.windows;
}

pub pending_window-IsWindow :
    (group_id : String) (s : AttentionScheduler) (w : PendingAttentionWindow)
    → IsBounded s
    → pending_window group_id s ≡ some w
    → IsWindow w
unfolding pending_window
pending_window-IsWindow group_id s w v e =
    (find-All IsWindow (has_group group_id) s.ambient v.windows e).0

pub refresh-IsBounded :
    (group_id : String) (world : GroupWorldState) (persona : PersonaSnapshot)
    (s : AttentionScheduler)
    → IsBounded s
    → IsBounded (refresh_pending_scene group_id world persona s)
unfolding refresh_pending_scene
refresh-IsBounded group_id world persona s v = elim (Option-cases (pending_window group_id s)) [
  | inl missing ↦ rw missing v
  | inr (w, found) ↦ rw found (
      put_window-IsBounded (refreshed world persona w) s
        (trim_window-IsWindow _ (pending_window-IsWindow group_id s w v found).in_time) v)
]

pub short_delay :
    (group_id : String) (s : AttentionScheduler)
    → leb_ℤ (ambient_delay group_id s) (pos window_max_seconds) ≡ true
unfolding ambient_delay
short_delay group_id s = ground arith

pub add_delay :
    (now delay : ℤ) → leb_ℤ delay (pos 8) ≡ true → leb_ℤ (now +ℤ delay) (now +ℤ pos 8) ≡ true
unfolding ◌+ℤ◌
add_delay now delay h = ground arith

pub min_below : (a b : ℤ) → leb_ℤ (min_ℤ a b) b ≡ true
min_below a b = ground arith
