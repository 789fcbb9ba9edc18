-- ===== src/Attention/Flushed.antt =====
-- What `flush_due` of groupmate/social_runtime/attention.py hands out, and what it leaves.
use astrbot_plugin_groupmate.Prelude.{
  ℤ, pos, ◌+ℤ◌, leb_ℤ, String, ◌==◌, text_eq_comm, text_eq_refl, ◌≡◌, refl, sym, ap, ap₂, ◌∙◌, ◌⊎◌,
  inl, inr, Bool, true, false, not, ◌||◌, none, some, List, [], ◌∷◌, map, any, find, keep, sort_by,
  insert_by, any-sort_by, All, All-map_of, All-zip, Bool-cases, if◌then◌else◌, arith, IsKeyed,
  only_row, subst,
}
use astrbot_plugin_groupmate.Result.{ok}
use astrbot_plugin_groupmate.Attention.{
  PendingAttentionWindow, AttentionScheduler, window_max_seconds, has_group, pending_window,
  ambient_frame, is_window_due, due_before, due_windows, pop_all, flush_due,
}
use astrbot_plugin_groupmate.Attention.Frames.{Builtins, AttentionFrame}
use astrbot_plugin_groupmate.Attention.Windows.{pending_window-IsWindow}
use astrbot_plugin_groupmate.Attention.Bounds.{Reaches, empty_scheduler, Reaches-IsBounded}
use astrbot_plugin_groupmate.Prelude.{Among}

module _ {A : Type 0} where
  keep_congr : (p q : A → Bool) (xs : List A) → All (λ x. p x ≡ q x) xs → keep p xs ≡ keep q xs
  unfolding keep
  keep_congr p q [] h = refl
  keep_congr p q (x ∷ xs) h =
      ap₂ (λ (t : Bool) (ys : List A). if t then x ∷ ys else ys) h.0 (keep_congr p q xs h.1)

  keep-keep :
      (f g : A → Bool) (xs : List A)
      → keep (λ x. not (g x)) (keep (λ x. not (f x)) xs) ≡ keep (λ x. not (f x || g x)) xs
  unfolding keep
  keep-keep f g [] = refl
  keep-keep f g (x ∷ xs) = elim (Bool-cases (f x)) [
    | inl h ↦ rw h (keep-keep f g xs)
    | inr h ↦ rw h (ap (λ ys. if not (g x) then x ∷ ys else ys) (keep-keep f g xs))
  ]

  keep_all : (xs : List A) → keep (λ x. true) xs ≡ xs
  unfolding keep
  keep_all [] = refl
  keep_all (x ∷ xs) = ap (λ ys. x ∷ ys) (keep_all xs)

  Among-keep_in :
      (p : A → Bool) (x : A) (xs : List A) → Among x xs → p x ≡ true → Among x (keep p xs)
  unfolding keep
  Among-keep_in p x [] m h = absurd m
  Among-keep_in p x (y ∷ ys) (inl e) h = rw (← e) (rw h (inl refl))
  Among-keep_in p x (y ∷ ys) (inr m) h = elim (Bool-cases (p y)) [
    | inl k ↦ rw k (inr (Among-keep_in p x ys m h))
    | inr k ↦ rw k (Among-keep_in p x ys m h)
  ]

  Among-insert_in :
      (le : A → A → Bool) (x y : A) (ys : List A)
      → (x ≡ y) ⊎ Among x ys
      → Among x (insert_by le y ys)
  unfolding insert_by
  Among-insert_in le x y [] m = m
  Among-insert_in le x y (z ∷ zs) m = elim (Bool-cases (le y z)) [
    | inl k ↦ rw k m
    | inr k ↦ rw k (behind (Among-insert_in le x y zs) m)
  ]
    where
      behind :
          ((x ≡ y) ⊎ Among x zs → Among x (insert_by le y zs))
          → (x ≡ y) ⊎ ((x ≡ z) ⊎ Among x zs)
          → (x ≡ z) ⊎ Among x (insert_by le y zs)
      behind ih (inl e) = inr (ih (inl e))
      behind ih (inr (inl e)) = inl e
      behind ih (inr (inr m)) = inr (ih (inr m))

  Among-sort_in : (le : A → A → Bool) (x : A) (xs : List A) → Among x xs → Among x (sort_by le xs)
  unfolding sort_by
  Among-sort_in le x [] m = m
  Among-sort_in le x (y ∷ ys) (inl e) = Among-insert_in le x y (sort_by le ys) (inl e)
  Among-sort_in le x (y ∷ ys) (inr m) =
      Among-insert_in le x y (sort_by le ys) (inr (Among-sort_in le x ys m))

  Among-found : (p : A → Bool) (x : A) (xs : List A) → find p xs ≡ some x → Among x xs
  unfolding find
  Among-found p x [] h = absurd (cc)
  Among-found p x (y ∷ ys) h = elim (Bool-cases (p y)) [
    | inl k ↦ inl (first (rw k at h))
    | inr k ↦ inr (Among-found p x ys (rw k at h))
  ]
    where
      first : some y ≡ some x → x ≡ y
      first h = cc

Among-map : {A B : Type 0} (f : A → B) (x : A) (xs : List A) → Among x xs → Among (f x) (map f xs)
Among-map f x [] m = m
Among-map f x (y ∷ ys) (inl e) = inl (ap f e)
Among-map f x (y ∷ ys) (inr m) = inr (Among-map f x ys m)

same_group : PendingAttentionWindow → PendingAttentionWindow → Bool
same_group x w = x.group_id == w.group_id

-- Popping the groups of `due` keeps the windows of no such group.
pop_all-keep :
    (due ws : List PendingAttentionWindow)
    → pop_all due ws ≡ keep (λ x. not (any (same_group x) due)) ws
unfolding pop_all any same_group
pop_all-keep [] ws = sym (keep_all ws)
pop_all-keep (w ∷ due) ws =
    pop_all-keep due (keep (λ x. not (x.group_id == w.group_id)) ws)
    ∙ keep-keep (λ x. x.group_id == w.group_id) (λ x. any (λ v. x.group_id == v.group_id) due) ws

none_kept :
    (p : PendingAttentionWindow → Bool) (y : PendingAttentionWindow)
    (ws : List PendingAttentionWindow)
    → any (λ z. z.group_id == y.group_id) ws ≡ false
    → any (same_group y) (keep p ws) ≡ false
unfolding any keep same_group
none_kept p y [] h = refl
none_kept p y (w ∷ ws) h = ground (arith, none_kept p y ws, text_eq_comm w.group_id y.group_id)

others_differ :
    (y : PendingAttentionWindow) (ws : List PendingAttentionWindow)
    → any (λ z. z.group_id == y.group_id) ws ≡ false
    → All (λ x. same_group x y ≡ false) ws
unfolding any same_group
others_differ y [] h = tt
others_differ y (w ∷ ws) h = (ground arith, others_differ y ws (ground arith))

-- With one window to a group, some kept window is of a window's group exactly when it is kept.
own_group :
    (p : PendingAttentionWindow → Bool) (ws : List PendingAttentionWindow)
    → IsKeyed (λ w. w.group_id) ws
    → All (λ x. any (same_group x) (keep p ws) ≡ p x) ws
unfolding any keep
own_group p [] k = tt
own_group p (y ∷ ys) k = elim (Bool-cases (p y)) [
  | inl h ↦
      let kept : keep p (y ∷ ys) ≡ y ∷ keep p ys = rw h refl in
      let first : any (same_group y) (y ∷ keep p ys) ≡ p y =
        unfold same_group in rw text_eq_refl (sym h) in
      subst (λ zs. All (λ x. any (same_group x) zs ≡ p x) (y ∷ ys)) (sym kept)
        (
          first,
          All-map_of (λ x e. rw e.0 e.1) ys
              (All-zip _ _ ys (others_differ y ys k.0) (own_group p ys k.1)),
        )
  | inr h ↦
      let kept : keep p (y ∷ ys) ≡ keep p ys = rw h refl in
      subst (λ zs. All (λ x. any (same_group x) zs ≡ p x) (y ∷ ys)) (sym kept)
        (none_kept p y ys k.0 ∙ sym h, own_group p ys k.1)
]

module _ (b : Builtins) (now : ℤ) (s : AttentionScheduler)
    (keyed : IsKeyed (λ w. w.group_id) s.ambient) where
  -- A flush of windows of different groups leaves exactly the windows that are not due.
  pub flush_due-leaves :
      (flush_due b now s).1.ambient ≡ keep (λ w. not (is_window_due now w)) s.ambient
  unfolding flush_due due_windows
  flush_due-leaves =
      pop_all-keep (sort_by due_before (keep (is_window_due now) s.ambient)) s.ambient
      ∙ keep_congr _ _ s.ambient
          (All-map_of agree s.ambient (own_group (is_window_due now) s.ambient keyed))
    where
      agree :
          (x : PendingAttentionWindow)
          → any (same_group x) (keep (is_window_due now) s.ambient) ≡ is_window_due now x
          → not (any (same_group x) (sort_by due_before (keep (is_window_due now) s.ambient)))
            ≡ not (is_window_due now x)
      agree x h =
          ap not (any-sort_by due_before (same_group x) (keep (is_window_due now) s.ambient) ∙ h)

none_found :
    (p q : PendingAttentionWindow → Bool) (ws : List PendingAttentionWindow)
    → All (λ x. q x ≡ true → p x ≡ true) ws
    → find q (keep (λ x. not (p x)) ws) ≡ none
unfolding find keep
none_found p q [] h = refl
none_found p q (w ∷ ws) h = elim (Bool-cases (p w)) [
  | inl k ↦ rw k (none_found p q ws h.1)
  | inr k ↦ rw k (elim (Bool-cases (q w)) [
    | inl wanted ↦ absurd (cc (h.0 wanted, k))
    | inr other ↦ rw other (none_found p q ws h.1)
  ])
]

leb_ℤ_trans : (a b c : ℤ) → leb_ℤ a b ≡ true → leb_ℤ b c ≡ true → leb_ℤ a c ≡ true
leb_ℤ_trans a b c h k = ground arith

-- In a scheduler that was empty and has only met events, flushes, and restored windows within the
-- bounds, a window that started eight seconds ago or earlier is handed out by a flush, and is gone then.
pub flush_due-emits :
    (b : Builtins) (now : ℤ) {s : AttentionScheduler}
    → Reaches empty_scheduler s
    → (group_id : String) (w : PendingAttentionWindow) → pending_window group_id s ≡ some w
    → leb_ℤ (w.window_started_at +ℤ pos window_max_seconds) now ≡ true
    → (frames : List AttentionFrame) × ((flush_due b now s).0 ≡ ok frames)
      × Among (ambient_frame b w) frames
      × (pending_window group_id (flush_due b now s).1 ≡ none)
unfolding flush_due due_windows pending_window
flush_due-emits b now {s} run group_id w found waited =
    let v = Reaches-IsBounded run in
    let due : is_window_due now w ≡ true =
      leb_ℤ_trans w.deadline (w.window_started_at +ℤ pos window_max_seconds) now
        (pending_window-IsWindow group_id s w v found).in_time waited in
    let there =
      Among-keep_in (is_window_due now) w s.ambient
        (Among-found (has_group group_id) w s.ambient found) due in
    let only =
      only_row (λ (x : PendingAttentionWindow). x.group_id) group_id s.ambient v.keyed found in
    let left : (flush_due b now s).1.ambient ≡ keep (λ x. not (is_window_due now x)) s.ambient =
      flush_due-leaves b now s v.keyed in
    (
      map (ambient_frame b) (sort_by due_before (keep (is_window_due now) s.ambient)),
      refl,
      Among-map (ambient_frame b) w _
          (Among-sort_in due_before w (keep (is_window_due now) s.ambient) there),
      ap (find (has_group group_id)) left
          ∙ none_found (is_window_due now) (has_group group_id) s.ambient
              (All-map_of (λ x e h. rw (e h) due) s.ambient only),
    )
