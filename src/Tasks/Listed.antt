-- ===== src/Tasks/Listed.antt =====
-- What `_list_status` of groupmate/social_runtime/tasks/runtime.py lists from consistent tables.
use astrbot_plugin_groupmate.Prelude.{
  text_leb, String, ◌==◌, text_eq, text_eq_refl, text_eq_comm, ◌≡◌, refl, sym, ap, ◌∙◌, Bool, true,
  false, some, List, [], ◌∷◌, find, any, keep, sort_by-All, All, All-map_of, All-zip, Bool-cases,
  inl, inr, if◌then◌else◌, IsKeyed, arith,
}
use astrbot_plugin_groupmate.Result.{Result, ok, traverse, on_ok, ok-injective}
use astrbot_plugin_groupmate.Tasks.Contracts.{Library, TaskStatus}
use astrbot_plugin_groupmate.Tasks.TaskRun.{TaskRun, task_from_dict}
use astrbot_plugin_groupmate.Tasks.Store.{
  TaskRow, TaskStore, find_task, status_value, status_eq, list_status,
}
use astrbot_plugin_groupmate.Tasks.Sound.{IsSound, task_from_dict_lem}
use astrbot_plugin_groupmate.Tasks.Consistent.{IsRow, IsConsistent, IsPast}
use astrbot_plugin_groupmate.Tasks.Loaded.{found-IsPast}

module _ {A : Type 0} where
  pub keep-All :
      (P : A → Type 0) (p : A → Bool) (xs : List A)
      → All P xs
      → All (λ x. P x × (p x ≡ true)) (keep p xs)
  unfolding keep
  keep-All P p [] h = tt
  keep-All P p (x ∷ xs) h = elim (Bool-cases (p x)) [
    | inl hit ↦ rw hit ((h.0, hit), keep-All P p xs h.1)
    | inr miss ↦ rw miss (keep-All P p xs h.1)
  ]

  different :
      (key : A → String) (x : A) (ys : List A)
      → any (λ y. key y == key x) ys ≡ false
      → All (λ y. (key x == key y) ≡ false) ys
  unfolding any
  different key x [] h = tt
  different key x (y ∷ ys) h =
      (ground (arith, text_eq_comm (key x) (key y)), different key x ys (ground arith))

  -- Under distinct keys each row is the one that its key finds.
  pub finds_each :
      (key : A → String) (xs : List A)
      → IsKeyed key xs
      → All (λ x. find (λ y. key y == key x) xs ≡ some x) xs
  unfolding find
  finds_each key [] k = tt
  finds_each key (x ∷ xs) k = (
    rw text_eq_refl refl,
    All-map_of (λ y h. rw h.0 h.1) xs
        (All-zip _ _ xs (different key x xs k.0) (finds_each key xs k.1)),
  )

-- A held task that is sound and of the tables' past.
abbrev pub IsHeld : Library → TaskStore → TaskRun → Type 0
IsHeld lib s t = IsSound lib t × IsPast lib s t

traverse-All :
    (lib : Library) (P : TaskRun → Type 0) (rows : List TaskRow) (ts : List TaskRun)
    → All (λ r. IsSound lib r.task_json × P r.task_json) rows
    → traverse (λ (row : TaskRow). task_from_dict lib row.task_json) rows ≡ ok ts
    → All P ts
unfolding traverse
traverse-All lib P [] ts h e = rw (← ok-injective e) tt
traverse-All lib P (r ∷ rows) ts h e = on_ok (task_from_dict lib r.task_json) _ e λ t ht e1.
    on_ok (traverse (λ (row : TaskRow). task_from_dict lib row.task_json) rows) _ e1 λ rest hr e2.
      let same : r.task_json ≡ t =
        ok-injective (sym (task_from_dict_lem lib r.task_json (h.0).0.readable) ∙ ht) in
      rw (← ok-injective e2) (rw (← same) (h.0).1, traverse-All lib P rows rest h.1 hr)

status_of : String → TaskStatus
status_of v =
    if v == "proposed"
    then TaskStatus.proposed
    else if v == "awaiting_confirmation"
    then TaskStatus.awaiting_confirmation
    else if v == "queued"
    then TaskStatus.queued
    else if v == "running"
    then TaskStatus.running
    else if v == "succeeded"
    then TaskStatus.succeeded
    else if v == "failed"
    then TaskStatus.failed
    else if v == "canceled"
    then TaskStatus.canceled
    else if v == "expired"
    then TaskStatus.expired
    else TaskStatus.unknown

status_of_value : (s : TaskStatus) → status_of (status_value s) ≡ s
unfolding status_of
status_of_value TaskStatus.proposed = refl
status_of_value TaskStatus.awaiting_confirmation = refl
status_of_value TaskStatus.queued = refl
status_of_value TaskStatus.running = refl
status_of_value TaskStatus.succeeded = refl
status_of_value TaskStatus.failed = refl
status_of_value TaskStatus.canceled = refl
status_of_value TaskStatus.expired = refl
status_of_value TaskStatus.unknown = refl

same_status : (s t : TaskStatus) → status_eq s t ≡ true → s ≡ t
same_status s t h = sym (status_of_value s) ∙ ap status_of ((text_eq _ _).0 h) ∙ status_of_value t

-- Each listed task is held by the tables, and has the status.
pub list_status-IsHeld :
    (lib : Library) (status : TaskStatus) (s s' : TaskStore) (ts : List TaskRun)
    → IsConsistent lib s
    → list_status lib status s ≡ (ok ts, s')
    → (s' ≡ s) × All (λ t. IsHeld lib s t × (t.status ≡ status)) ts
unfolding list_status find_task
list_status-IsHeld lib status s s' ts c h =
    let key : TaskRow → String = λ r. r.task_id in
    let wanted : TaskRow → Bool = λ row. status_eq row.status status in
    let facts =
      keep-All _ wanted s.tasks
        (All-zip _ (IsRow lib) s.tasks (finds_each key s.tasks c.keyed) c.rows) in
    let held =
      All-map_of
        (λ (r : TaskRow) (f : ((find_task r.task_id s ≡ some r) × IsRow lib r) × (wanted r ≡ true)).
          read r (f.0).0 (f.0).1 f.1)
        (keep wanted s.tasks) facts in
    (
      sym (ap (λ (x : Result (List TaskRun) × TaskStore). x.1) h),
      traverse-All lib (λ t. IsHeld lib s t × (t.status ≡ status)) _ ts
          (sort_by-All (λ r q. text_leb r.task_id q.task_id) _ (keep wanted s.tasks) held)
          (ap (λ (x : Result (List TaskRun) × TaskStore). x.0) h),
    )
  where
    read :
        (r : TaskRow)
        → find_task r.task_id s ≡ some r
        → IsRow lib r
        → status_eq r.status status ≡ true
        → IsSound lib r.task_json × (IsHeld lib s r.task_json × (r.task_json.status ≡ status))
    read r found row k =
        let (sound, past, key) = found-IsPast lib s c r.task_id r found in
        (
          sound,
          (
            (sound, past),
            sym (ap (λ (x : TaskRow). x.status) row.repeats) ∙ same_status r.status status k,
          ),
        )
