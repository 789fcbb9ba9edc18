-- ===== src/Attention/Bounds.antt =====
-- The windows of `AttentionScheduler` in groupmate/social_runtime/attention.py stay within their bounds,
-- whatever events come, at whatever times.
use astrbot_plugin_groupmate.Prelude.{
  ℤ, pos, ◌+ℤ◌, ltb_ℤ, leb_ℤ, String, ◌==◌, is_empty, strip, ◌≡◌, Bool, true, false, not, ◌&&◌,
  Option, none, some, List, [], ◌∷◌, any, keep, All, Bool-cases, inl, inr, if◌then◌else◌, arith,
  IsKeyed,
}
use astrbot_plugin_groupmate.Result.{value_error, require}
use astrbot_plugin_groupmate.Exec.{Exec, modify, after_lift}
use astrbot_plugin_groupmate.Attention.{
  PendingAttentionWindow, AttentionScheduler, window_max_seconds, has_group, put_window,
  pending_window, refresh_pending_scene, record_message_time, ambient_delay, grown_window,
  grow_window, attend, for_group, on_event, due_windows, pop_all, flush_due, restore_window,
}
use astrbot_plugin_groupmate.Attention.Frames.{
  Builtins, SocialEventEnvelope, GroupWorldState, PersonaSnapshot, AttentionFrame, is_declined,
  is_fast, due_at, matches_conversation_lease,
}
use astrbot_plugin_groupmate.Attention.Windows.{
  IsWindow, IsBounded, trim_window-IsWindow, put_window-IsBounded, refresh-IsBounded, short_delay,
  add_delay, min_below,
}

module _ (b : Builtins) (event : SocialEventEnvelope) (world : GroupWorldState)
    (persona : PersonaSnapshot) (now : ℤ) where
  grown_window-IsWindow :
      (group_id : String) (delay : ℤ) (o : Option PendingAttentionWindow)
      → leb_ℤ delay (pos window_max_seconds) ≡ true
      → IsWindow (grown_window b event world persona now group_id delay o)
  grown_window-IsWindow group_id delay none h = trim_window-IsWindow _ (add_delay now delay h)
  grown_window-IsWindow group_id delay (some current) h =
      trim_window-IsWindow _
        (min_below (now +ℤ delay) (current.window_started_at +ℤ pos window_max_seconds))

  grow_window-IsBounded :
      (group_id : String) (s : AttentionScheduler)
      → IsBounded s
      → IsBounded (grow_window b event world persona now group_id s)
  unfolding grow_window record_message_time
  grow_window-IsBounded group_id s v =
      let s' = record_message_time group_id now s in
      put_window-IsBounded
        (grown_window b event world persona now group_id (ambient_delay group_id s')
          (pending_window group_id s'))
        s'
        (grown_window-IsWindow group_id (ambient_delay group_id s') (pending_window group_id s')
          (short_delay group_id s'))
        (record { keyed = v.keyed; windows = v.windows })

  -- The state behind a choice between a call that leaves it and one that may not.
  choice :
      (t : Bool) (m k : Exec AttentionScheduler (List AttentionFrame)) (s : AttentionScheduler)
      → IsBounded (m s).1
      → IsBounded (k s).1
      → IsBounded ((if t then m else k) s).1
  choice true m k s hm hk = hm
  choice false m k s hm hk = hk

  attend-IsBounded :
      (group_id : String) (s : AttentionScheduler)
      → IsBounded s
      → IsBounded (attend b event world persona now group_id s).1
  unfolding attend
  attend-IsBounded group_id s v = choice (is_declined event) _ _ s v (
      choice (event.event_type == "temporal.opportunity_due") _ _ s v (
        choice (event.event_type == "temporal.commitment_due") _ _ s
          (after_lift IsBounded (due_at b event now) _ s v λ due _. v)
          (choice (is_fast event) _ _ s v (
            choice (matches_conversation_lease b event world now) _ _ s v (
              choice (not (event.event_type == "platform.message")) _ _ s v
                (grow_window-IsBounded group_id s v))))))

  on_event-IsBounded :
      (s : AttentionScheduler) → IsBounded s → IsBounded (on_event b event world persona now s).1
  unfolding on_event
  on_event-IsBounded s v = by_group event.group_id
    where
      by_group : (o : Option String) → IsBounded (for_group b event world persona now o s).1
      by_group none = v
      by_group (some group_id) =
          after_lift IsBounded
            (require (not (is_empty group_id) && (group_id == world.group_id)) value_error) _ s v
            λ _ _.
              after_lift IsBounded (require (not (ltb_ℤ world.scene_version (pos 1))) value_error) _
                s v
                λ _ _.
                  attend-IsBounded group_id (refresh_pending_scene group_id world persona s)
                    (refresh-IsBounded group_id world persona s v)

keep-All :
    (P : PendingAttentionWindow → Type 0) (p : PendingAttentionWindow → Bool)
    (ws : List PendingAttentionWindow)
    → All P ws
    → All P (keep p ws)
unfolding keep
keep-All P p [] h = tt
keep-All P p (w ∷ ws) h = ground (arith, keep-All P p ws h.1)

keep-IsKeyed :
    (p : PendingAttentionWindow → Bool) (ws : List PendingAttentionWindow)
    → IsKeyed (λ x. x.group_id) ws
    → IsKeyed (λ x. x.group_id) (keep p ws)
unfolding keep any
keep-IsKeyed p [] h = tt
keep-IsKeyed p (w ∷ ws) h = elim (Bool-cases (p w)) [
  | inl hit ↦ rw hit (still_free ws h.0, keep-IsKeyed p ws h.1)
  | inr miss ↦ rw miss (keep-IsKeyed p ws h.1)
]
  where
    still_free :
        (xs : List PendingAttentionWindow)
        → any (λ x. x.group_id == w.group_id) xs ≡ false
        → any (λ x. x.group_id == w.group_id) (keep p xs) ≡ false
    still_free [] h = h
    still_free (x ∷ xs) h = ground (arith, still_free xs)

pop_all-IsBounded :
    (due ws : List PendingAttentionWindow)
    → IsKeyed (λ x. x.group_id) ws
    → All IsWindow ws
    → IsKeyed (λ x. x.group_id) (pop_all due ws) × All IsWindow (pop_all due ws)
unfolding pop_all
pop_all-IsBounded [] ws k h = (k, h)
pop_all-IsBounded (w ∷ due) ws k h =
    pop_all-IsBounded due (keep (λ x. not (has_group w.group_id x)) ws) (keep-IsKeyed _ ws k)
      (keep-All IsWindow _ ws h)

-- What may happen to a scheduler: an event comes, it is flushed, or a window is restored that a
-- scheduler may have held, trimmed and with a deadline of at most eight seconds behind its start.
pub data Reaches (start : AttentionScheduler) : AttentionScheduler → Type 0 where
  here : Reaches start start
  hears :
      {s : AttentionScheduler}
      → Reaches start s
      → (b : Builtins) (event : SocialEventEnvelope) (world : GroupWorldState)
        (persona : PersonaSnapshot) (now : ℤ)
      → Reaches start (on_event b event world persona now s).1
  flushes :
      {s : AttentionScheduler}
      → Reaches start s
      → (b : Builtins) (now : ℤ) → Reaches start (flush_due b now s).1
  restores :
      {s : AttentionScheduler}
      → Reaches start s
      → (w : PendingAttentionWindow) → IsWindow w
      → Reaches start (restore_window w s).1

abbrev pub empty_scheduler : AttentionScheduler
empty_scheduler = record { ambient = []; recent_message_times = [] }

-- Whatever events come, at whatever times, whenever it is flushed, and whatever windows within the
-- bounds are restored: a scheduler that was empty holds at most one window of a group, and each names at
-- most 4 topics, 12 events and 8 members and is due at most 8 seconds behind its start.
pub Reaches-IsBounded : {s : AttentionScheduler} → Reaches empty_scheduler s → IsBounded s
unfolding flush_due restore_window
Reaches-IsBounded here = record { keyed = tt; windows = tt }
Reaches-IsBounded (hears {s = s} run b event world persona now) =
    on_event-IsBounded b event world persona now s (Reaches-IsBounded run)
Reaches-IsBounded (flushes {s = s} run b now) =
    let v = Reaches-IsBounded run in
    let (keyed, windows) = pop_all-IsBounded (due_windows now s) s.ambient v.keyed v.windows in
    record { keyed = keyed; windows = windows }
Reaches-IsBounded (restores {s = s} run w h) =
    let v = Reaches-IsBounded run in
    let valid =
      not (is_empty (strip w.group_id))
      && not (ltb_ℤ w.scene_version (pos 1))
      && not (ltb_ℤ w.window_started_at (pos 0))
      && leb_ℤ w.window_started_at w.deadline in
    after_lift {B = Unit {0}} IsBounded (require valid value_error)
      (λ _. modify (λ s. record s { ambient = put_window w s.ambient })) s v
      λ _ _. put_window-IsBounded w s h v
