-- ===== src/Tasks/Loaded.antt =====
-- What `load` of groupmate/social_runtime/tasks/runtime.py finds in consistent tables.
use astrbot_plugin_groupmate.Prelude.{
  String, ◌==◌, text_eq, ◌≡◌, refl, sym, ap, ◌∙◌, none, some, find-All, Option-cases, inl, inr,
}
use astrbot_plugin_groupmate.Result.{ok, raise, ok-injective, task_not_found}
use astrbot_plugin_groupmate.Tasks.Contracts.{Library}
use astrbot_plugin_groupmate.Tasks.TaskRun.{TaskRun}
use astrbot_plugin_groupmate.Tasks.Store.{TaskRow, TaskStore, find_task, load}
use astrbot_plugin_groupmate.Tasks.Sound.{IsSound, task_from_dict_lem}
use astrbot_plugin_groupmate.Tasks.History.{start}
use astrbot_plugin_groupmate.Tasks.Consistent.{IsRow, IsConsistent, IsPast}

module _ (lib : Library) (s : TaskStore) (c : IsConsistent lib s) (id : String) where
  pub found-IsRow : (r : TaskRow) → find_task id s ≡ some r → IsRow lib r × (r.task_id ≡ id)
  unfolding find_task
  found-IsRow r e =
      let (row, key) = find-All (IsRow lib) (λ r. r.task_id == id) s.tasks c.rows e in
      (row, (text_eq r.task_id id).0 key)

  -- A row that is there is read, as the task that it holds.
  pub load-found : (r : TaskRow) → find_task id s ≡ some r → load lib id s ≡ (ok r.task_json, s)
  unfolding load
  load-found r e =
      let row = (found-IsRow r e).0 in
      rw e (rw (task_from_dict_lem lib r.task_json row.sound.readable) refl)

  pub load-none : find_task id s ≡ none → load lib id s ≡ (raise task_not_found, s)
  unfolding load
  load-none e = rw e refl

  pub found-IsPast :
      (r : TaskRow)
      → find_task id s ≡ some r
      → IsSound lib r.task_json × IsPast lib s r.task_json × (r.task_json.task_id ≡ id)
  found-IsPast r e =
      let (row, key) = found-IsRow r e in
      let same : r.task_json.task_id ≡ id =
        sym (ap (λ (x : TaskRow). x.task_id) row.repeats) ∙ key in
      (row.sound, (r, ap (λ i. find_task i s) same ∙ e, start), same)

  -- A task that was loaded is sound, is of the id, and its row is still it.
  pub load-IsPast :
      (t : TaskRun) (s' : TaskStore)
      → load lib id s ≡ (ok t, s')
      → (s' ≡ s) × IsSound lib t × IsPast lib s t × (t.task_id ≡ id)
  load-IsPast t s' h = elim (Option-cases (find_task id s)) [
    | inl missing ↦ absurd (cc (load-none missing, h))
    | inr (r, e) ↦
        let both : (ok r.task_json, s) ≡ (ok t, s') = sym (load-found r e) ∙ h in
        let same : r.task_json ≡ t = ok-injective (ap (λ x. x.0) both) in
        let (sound, past, key) = found-IsPast r e in
        (sym (ap (λ x. x.1) both), rw (← same) sound, rw (← same) past, rw (← same) key)
  ]
