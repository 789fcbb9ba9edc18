-- ===== src/Attention/Gathers.antt =====
-- What a message that is not answered at once does to the window of its group in
-- groupmate/social_runtime/attention.py.
use astrbot_plugin_groupmate.Prelude.{
  ℕ, ◌-◌, ◌+◌, ◌≤◌, ℤ, pos, ltb_ℤ, String, ◌==◌, text_eq, text_eq_refl, is_empty, ◌≡◌, refl, ap,
  ◌∙◌, Bool, true, false, Option, none, some, List, [], ◌∷◌, ◌++◌, map, any, find, length,
  Bool-cases, inl, inr, if◌then◌else◌, arith, subst,
}
use astrbot_plugin_groupmate.Result.{ok}
use astrbot_plugin_groupmate.Attention.{
  PendingAttentionWindow, AttentionScheduler, max_focus_events, drop, take_last, trim_window,
  has_group, put_window, pending_window, append_recent_unique, refresh_pending_scene,
  record_message_time, ambient_delay, grown_window, grow_window, attend, for_group, on_event,
}
use astrbot_plugin_groupmate.Attention.Frames.{
  Builtins, SocialEventEnvelope, GroupWorldState, PersonaSnapshot, is_declined, is_fast,
  matches_conversation_lease,
}

-- The last text of a list.
pub EndsIn : String → List String → Type 0
EndsIn v xs = (ys : List String) × (xs ≡ ys ++ v ∷ [])

drop_snoc :
    (k : ℕ) (v : String) (ys : List String)
    → k ≤ length ys
    → drop k (ys ++ v ∷ []) ≡ drop k ys ++ v ∷ []
unfolding drop
drop_snoc k v [] h = ground arith
drop_snoc k v (y ∷ ys) h = ground (arith, drop_snoc (k - 1) v ys)

length_snoc : (v : String) (ys : List String) → length (ys ++ v ∷ []) ≡ length ys + 1
length_snoc v [] = refl
length_snoc v (y ∷ ys) = omega (arith, length_snoc v ys)

take_last-EndsIn :
    (n : ℕ) (v : String) (xs : List String) → 1 ≤ n → EndsIn v xs → EndsIn v (take_last n xs)
unfolding take_last EndsIn
take_last-EndsIn n v xs h (ys, e) =
    let shorter : length xs - n ≤ length ys = omega (arith, ap length e ∙ length_snoc v ys) in
    (drop (length xs - n) ys, ap (drop (length xs - n)) e ∙ drop_snoc (length xs - n) v ys shorter)

append_recent_unique-EndsIn :
    (values : List String) (v : String) (n : ℕ)
    → 1 ≤ n
    → is_empty v ≡ false
    → EndsIn v (append_recent_unique values (some v) n)
unfolding append_recent_unique EndsIn
append_recent_unique-EndsIn values v n h given = rw given (take_last-EndsIn n v _ h (_, refl))

find_snoc :
    (w : PendingAttentionWindow) (ws : List PendingAttentionWindow)
    → any (has_group w.group_id) ws ≡ false
    → find (has_group w.group_id) (ws ++ w ∷ []) ≡ some w
unfolding any find
find_snoc w [] h = rw (text_eq_refl w.group_id) refl
find_snoc w (x ∷ xs) h = ground (arith, find_snoc w xs)

find_replaced :
    (w : PendingAttentionWindow) (ws : List PendingAttentionWindow)
    → any (has_group w.group_id) ws ≡ true
    → find (has_group w.group_id) (map (λ x. if has_group w.group_id x then w else x) ws) ≡ some w
unfolding any find
find_replaced w [] h = absurd (cc)
find_replaced w (x ∷ xs) h = elim (Bool-cases (has_group w.group_id x)) [
  | inl hit ↦ rw hit (rw (text_eq_refl w.group_id) refl)
  | inr miss ↦ rw miss (rw miss (find_replaced w xs (rw miss at h)))
]

find-put_window :
    (w : PendingAttentionWindow) (ws : List PendingAttentionWindow)
    → find (has_group w.group_id) (put_window w ws) ≡ some w
unfolding put_window
find-put_window w ws = elim (Bool-cases (any (has_group w.group_id) ws)) [
  | inl there ↦ rw there (find_replaced w ws there)
  | inr free ↦ rw free (find_snoc w ws free)
]

found_group :
    (P : PendingAttentionWindow → Bool) (ws : List PendingAttentionWindow)
    (w : PendingAttentionWindow)
    → find P ws ≡ some w
    → P w ≡ true
unfolding find
found_group P [] w e = absurd (cc)
found_group P (x ∷ xs) w e = elim (Bool-cases (P x)) [
  | inl hit ↦ let same : x ≡ w = ground arith in rw (← same) hit
  | inr miss ↦ found_group P xs w (ground arith)
]

module _ (b : Builtins) (event : SocialEventEnvelope) (world : GroupWorldState)
    (persona : PersonaSnapshot) (now : ℤ) where
  grown_window-group :
      (group_id : String) (delay : ℤ) (o : Option PendingAttentionWindow)
      → ((w : PendingAttentionWindow) → o ≡ some w → w.group_id ≡ group_id)
      → (grown_window b event world persona now group_id delay o).group_id ≡ group_id
  unfolding trim_window
  grown_window-group group_id delay none h = refl
  grown_window-group group_id delay (some current) h = h current refl

  grown_window-EndsIn :
      (group_id : String) (delay : ℤ) (o : Option PendingAttentionWindow)
      → is_empty event.event_id ≡ false
      → EndsIn event.event_id
          (grown_window b event world persona now group_id delay o).focus_event_ids
  unfolding trim_window EndsIn
  grown_window-EndsIn group_id delay none h =
      take_last-EndsIn max_focus_events event.event_id (event.event_id ∷ []) (omega arith)
        ([], refl)
  grown_window-EndsIn group_id delay (some current) h =
      take_last-EndsIn max_focus_events event.event_id _ (omega arith) (
        append_recent_unique-EndsIn current.focus_event_ids event.event_id max_focus_events
          (omega arith) h)

  grow_window-gathers :
      (group_id : String) (s : AttentionScheduler)
      → is_empty event.event_id ≡ false
      → (w : PendingAttentionWindow) × (pending_window group_id
            (grow_window b event world persona now group_id s)
          ≡ some w)
        × EndsIn event.event_id w.focus_event_ids
  unfolding grow_window pending_window
  grow_window-gathers group_id s given =
      let s' = record_message_time group_id now s in
      let o = pending_window group_id s' in
      let grown = grown_window b event world persona now group_id (ambient_delay group_id s') o in
      let named : grown.group_id ≡ group_id =
        grown_window-group group_id (ambient_delay group_id s') o (λ w e.
          (text_eq w.group_id group_id).0 (found_group (has_group group_id) s'.ambient w e)) in
      (
        grown,
        subst (λ g. find (has_group g) (put_window grown s'.ambient) ≡ some grown) named
            (find-put_window grown s'.ambient),
        grown_window-EndsIn group_id (ambient_delay group_id s') o given,
      )

  attend-grows :
      (group_id : String) (s : AttentionScheduler)
      → is_declined event ≡ false
      → event.event_type ≡ "platform.message"
      → is_fast event ≡ false
      → matches_conversation_lease b event world now ≡ false
      → attend b event world persona now group_id s
        ≡ (ok [], grow_window b event world persona now group_id s)
  unfolding attend
  attend-grows group_id s asked kind slow free = simp (asked, kind, slow, free)

  for_group-grows :
      (group_id : String) (s : AttentionScheduler)
      → is_empty group_id ≡ false
      → (group_id == world.group_id) ≡ true
      → ltb_ℤ world.scene_version (pos 1) ≡ false
      → for_group b event world persona now (some group_id) s
        ≡ attend b event world persona now group_id (refresh_pending_scene group_id world persona s)
  for_group-grows group_id s given same projected = rw given (rw same (rw projected refl))

  on_event-grows :
      {group_id : String} (s : AttentionScheduler)
      → event.group_id ≡ some group_id
      → is_empty group_id ≡ false
      → (group_id == world.group_id) ≡ true
      → ltb_ℤ world.scene_version (pos 1) ≡ false
      → is_declined event ≡ false
      → event.event_type ≡ "platform.message"
      → is_fast event ≡ false
      → matches_conversation_lease b event world now ≡ false
      → on_event b event world persona now s ≡ (
        ok [],
        grow_window b event world persona now group_id
            (refresh_pending_scene group_id world persona s),
      )
  unfolding on_event
  on_event-grows {group_id} s group given same projected asked kind slow free =
      ap (λ o. for_group b event world persona now o s) group
      ∙ for_group-grows group_id s given same projected
      ∙ attend-grows group_id (refresh_pending_scene group_id world persona s) asked kind slow free

  -- A message of a group, not declined, that is neither fast nor of the group's conversation lease, with
  -- an id, in a projected scene of its group: on_event asks for nothing, and the group's window is there
  -- and names the message last.
  pub on_event-gathers :
      {group_id : String} (s : AttentionScheduler)
      → event.group_id ≡ some group_id
      → is_empty group_id ≡ false
      → (group_id == world.group_id) ≡ true
      → ltb_ℤ world.scene_version (pos 1) ≡ false
      → is_empty event.event_id ≡ false
      → is_declined event ≡ false
      → event.event_type ≡ "platform.message"
      → is_fast event ≡ false
      → matches_conversation_lease b event world now ≡ false
      → ((on_event b event world persona now s).0 ≡ ok [])
        × (w : PendingAttentionWindow) × (pending_window group_id
              (on_event b event world persona now s).1
            ≡ some w)
        × EndsIn event.event_id w.focus_event_ids
  on_event-gathers {group_id} s group given same projected named asked kind slow free =
      let e = on_event-grows s group given same projected asked kind slow free in
      let (w, there, last) =
        grow_window-gathers group_id (refresh_pending_scene group_id world persona s) named in
      (ap (λ x. x.0) e, w, ap (λ x. pending_window group_id x.1) e ∙ there, last)
