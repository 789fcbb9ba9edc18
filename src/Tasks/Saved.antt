-- ===== src/Tasks/Saved.antt =====
-- `_save` of groupmate/social_runtime/tasks/runtime.py with a task whose past the tables hold: it saves
-- only when the row is still the task that the caller holds, and then the tables stay consistent.
use astrbot_plugin_groupmate.Prelude.{
  ℕ, suc, ℤ, pos, ◌+ℤ◌, int_eq, int_eq_iff, String, ◌==◌, text_eq, ◌≡◌, refl, sym, ap, ◌∙◌, ◌⊎◌,
  true, false, ◌&&◌, none, some, [], ◌∷◌, ◌++◌, map, any, find, keep, All, All-map, All-map_of,
  All-zip, find-All, Bool-cases, Option-cases, inl, inr, if◌then◌else◌, arith, only_row, map_found,
  map-IsKeyed, find-map_keyed, found_key, count-snoc,
}
use astrbot_plugin_groupmate.Result.{
  Exception, Result, ok, raise, integrity_error, task_version_conflict,
}
use astrbot_plugin_groupmate.Tasks.Contracts.{Library}
use astrbot_plugin_groupmate.Tasks.TaskRun.{TaskRun}
use astrbot_plugin_groupmate.Tasks.Store.{
  TaskRow, TaskEventRow, EventJson, TaskStore, find_task, insert_event, write_row, advance, is_one,
  update_task, save,
}
use astrbot_plugin_groupmate.Tasks.Runtime.{task_row}
use astrbot_plugin_groupmate.Tasks.Sound.{Moves}
use astrbot_plugin_groupmate.Tasks.History.{start, next, History-same}
use astrbot_plugin_groupmate.Tasks.Consistent.{
  IsRow, events_of, version_of, IsConsistent, Extends, IsPast, current_row,
}

-- What a save comes to.
pub data Saved (lib : Library) (t u : TaskRun) (s : TaskStore) (x : Result TaskRun × TaskStore)
    : Type 0 where
  refused : (e : Exception) → x ≡ (raise e, s) → Saved lib t u s x
  saved :
      (s' : TaskStore)
      → x ≡ (ok u, s')
      → find_task t.task_id s ≡ some (task_row t)
      → ((id : String)
          → find_task id s' ≡ (if t.task_id == id then some (task_row u) else find_task id s))
      → Extends lib s s'
      → Saved lib t u s x

advance-task_id : (t u : TaskRun) (x : TaskRow) → (advance t u x).task_id ≡ x.task_id
advance-task_id t u x = ground arith

written : (lib : Library) (t u : TaskRun) → Moves lib t u → write_row u (task_row t) ≡ task_row u
written lib t u m = cc (m.task_id, m.request)

advance-task_row :
    (lib : Library) (t u : TaskRun) → Moves lib t u → advance t u (task_row t) ≡ task_row u
advance-task_row lib t u m =
    let same : u.task_id ≡ t.task_id = m.task_id in
    let hit : (t.task_id == u.task_id && int_eq t.version t.version) ≡ true =
      ground (arith, text_eq t.task_id u.task_id) in
    rw hit (written lib t u m)

one_more : (n : ℕ) → pos (suc n) ≡ pos n +ℤ pos 1
unfolding ◌+ℤ◌
one_more n = ground arith

same_version : (r : TaskRow) → r ≡ task_row r.task_json → r.task_json.version ≡ r.version
same_version r h = sym (ap (λ (x : TaskRow). x.version) h)

module _ (lib : Library) (t u : TaskRun) (s : TaskStore) (c : IsConsistent lib s)
    (m : Moves lib t u) (past : IsPast lib s t) where
  is_held : int_eq (past.0).version t.version ≡ true → past.0 ≡ task_row t
  unfolding find_task
  is_held e =
      let (row, key) = find-All (IsRow lib) (λ r. r.task_id == t.task_id) s.tasks c.rows past.1 in
      let v : (past.0).task_json.version ≡ t.version =
        same_version (past.0) row.repeats ∙ (int_eq_iff (past.0).version t.version).0 e in
      row.repeats ∙ ap task_row (History-same past.2 v)

  only_held : All (λ x. (x.task_id == t.task_id) ≡ true → x ≡ past.0) s.tasks
  unfolding find_task
  only_held = only_row (λ (r : TaskRow). r.task_id) t.task_id s.tasks c.keyed past.1

  -- Where the row is the held task:
  module _ (held : past.0 ≡ task_row t) where
    advance_held : (x : TaskRow) → x ≡ past.0 → advance t u x ≡ task_row u
    advance_held x h = rw (h, held) (advance-task_row lib t u m)

    advance_other : (x : TaskRow) → (x.task_id == t.task_id) ≡ false → advance t u x ≡ x
    advance_other x h = rw (m.task_id, h) refl

    advance-IsRow :
        (x : TaskRow)
        → ((x.task_id == t.task_id) ≡ true → x ≡ past.0) × IsRow lib x
        → IsRow lib (advance t u x)
    advance-IsRow x (only, row) = elim (Bool-cases (x.task_id == t.task_id)) [
      | inl hit ↦ rw (advance_held x (only hit)) (record { repeats = refl; sound = m.sound })
      | inr miss ↦ rw (advance_other x miss) row
    ]

    saved_event : String → String → EventJson → ℤ → TaskEventRow
    saved_event event_id event_type event_json at = record {
      event_id = event_id;
      task_id = u.task_id;
      event_type = event_type;
      event_json = event_json;
      occurred_at = at;
    }

    module _ (event : TaskEventRow) (of_task : event.task_id ≡ u.task_id) where
      after : TaskStore
      after = record {
        tasks = map (advance t u) s.tasks;
        task_events = s.task_events ++ event ∷ [];
      }

      find-after :
          (id : String)
          → find_task id after ≡ (if t.task_id == id then some (task_row u) else find_task id s)
      unfolding find_task after
      find-after id =
          find-map_keyed (λ (r : TaskRow). r.task_id) (advance t u) (advance-task_id t u) id s.tasks
          ∙ by_id (Bool-cases (t.task_id == id))
              (Option-cases (find (λ r. r.task_id == id) s.tasks))
        where
          by_id :
              ((t.task_id == id) ≡ true) ⊎ ((t.task_id == id) ≡ false)
              → (find (λ r. r.task_id == id) s.tasks ≡ none)
                ⊎ ((r : TaskRow) × (find (λ r. r.task_id == id) s.tasks ≡ some r))
              → map_found (advance t u) (find (λ r. r.task_id == id) s.tasks) ≡ (
                  if t.task_id == id
                  then some (task_row u)
                  else find (λ r. r.task_id == id) s.tasks)
          by_id (inl hit) o =
              let here : find (λ r. r.task_id == id) s.tasks ≡ some (past.0) =
                rw (← (text_eq t.task_id id).0 hit) past.1 in
              rw hit (rw here (ap (λ x. some x) (advance_held (past.0) refl)))
          by_id (inr miss) (inl none_there) = rw miss (rw none_there refl)
          by_id (inr miss) (inr (r, there)) =
              let key = found_key (λ (r : TaskRow). r.task_id) id s.tasks there in
              let other : (r.task_id == t.task_id) ≡ false =
                ground (
                  arith,
                  text_eq r.task_id id,
                  text_eq r.task_id t.task_id,
                  text_eq t.task_id id,
                ) in
              rw miss (rw there (ap (λ x. some x) (advance_other r other)))

      count-after : (id : String) → pos (events_of id after) ≡ version_of (find_task id after)
      unfolding after
      count-after id = elim (Bool-cases (t.task_id == id)) [
        | inl hit ↦
            let row : find_task id s ≡ some (task_row t) =
              rw (← (text_eq t.task_id id).0 hit) (past.1 ∙ ap (λ x. some x) held) in
            let more : (event.task_id == id) ≡ true = rw (of_task, m.task_id) hit in
            let now_row : find_task id after ≡ some (task_row u) = find-after id ∙ rw hit refl in
            let before : pos (events_of id s) ≡ t.version = c.counted id ∙ ap version_of row in
            let now : events_of id after ≡ suc (events_of id s) =
              count-snoc (λ (x : TaskEventRow). x.task_id) id s.task_events event ∙ rw more refl in
            ap pos now
            ∙ (one_more (events_of id s) ∙ ap (λ (v : ℤ). v +ℤ pos 1) before ∙ sym m.version)
            ∙ sym (ap version_of now_row)
        | inr miss ↦
            let same : (event.task_id == id) ≡ false = rw (of_task, m.task_id) miss in
            let now_row : find_task id after ≡ find_task id s = find-after id ∙ rw miss refl in
            let now : events_of id after ≡ events_of id s =
              count-snoc (λ (x : TaskEventRow). x.task_id) id s.task_events event ∙ rw same refl in
            ap pos now ∙ c.counted id ∙ sym (ap version_of now_row)
      ]

      after-Extends : Extends lib s after
      after-Extends = record {
        consistent = record {
          keyed =
              unfold after in
              map-IsKeyed (λ (r : TaskRow). r.task_id) (advance t u) (advance-task_id t u) s.tasks
                c.keyed;
          rows =
              unfold after in
              All-map (IsRow lib) (advance t u) s.tasks
                (All-map_of advance-IsRow s.tasks (All-zip _ (IsRow lib) s.tasks only_held c.rows));
          counted = count-after;
        };
        histories = λ id r e. elim (Bool-cases (t.task_id == id)) [
          | inl hit ↦
              let row : find_task id s ≡ some (task_row t) =
                rw (← (text_eq t.task_id id).0 hit) (past.1 ∙ ap (λ x. some x) held) in
              let same : r ≡ task_row t = cc in
              (task_row u, find-after id ∙ rw hit refl, rw same (next start m))
          | inr miss ↦ (r, find-after id ∙ (rw miss e), start)
        ];
      }

  pub save-Saved :
      (event_id event_type : String) (event_json : EventJson) (at : ℤ)
      → Saved lib t u s (save t u event_id event_type event_json at s)
  unfolding save update_task insert_event after saved_event
  save-Saved event_id event_type event_json at =
      elim (Bool-cases
        (is_one (keep (λ row. row.task_id == u.task_id && int_eq row.version t.version) s.tasks))) [
          | inr stale ↦ refused task_version_conflict (rw stale refl)
          | inl current ↦
              let held =
                is_held (current_row t u s.tasks (past.0) (rw m.task_id only_held) current) in
              elim (Bool-cases (any (λ r. r.event_id == event_id) s.task_events)) [
                | inl used ↦ refused integrity_error (rw current (rw used refl))
                | inr fresh ↦
                    let event = saved_event held event_id event_type event_json at in
                    saved (after held event refl) (rw current (rw fresh refl))
                      (past.1 ∙ ap (λ x. some x) held) (find-after held event refl)
                      (after-Extends held event refl)
              ]
        ]
