-- ===== src/Tasks/Repeats.antt =====
-- Calls of `apply_event` of groupmate/social_runtime/tasks/runtime.py that come again.
use astrbot_plugin_groupmate.Prelude.{
  ℤ, String, ◌==◌, text_eq_refl, int_eq, ◌&&◌, ite, ◌≡◌, refl, sym, ap, ◌∙◌, inl, inr, true, false,
  none, some, [], ◌∷◌, ◌++◌, any, find, keep, Bool-cases, Option-cases, find-snoc, concat,
}
use astrbot_plugin_groupmate.Result.{
  Exception, Result, ok, raise, ok-injective, traverse, require, provider_event_conflict,
}
use astrbot_plugin_groupmate.Exec.{lift, on_lift, on_run, ◌>>=◌}
use astrbot_plugin_groupmate.Tasks.Contracts.{
  Library, ProviderEvent, ProviderEvent-discrete, create_event, create_media,
}
use astrbot_plugin_groupmate.Tasks.TaskRun.{TaskRun}
use astrbot_plugin_groupmate.Tasks.Store.{
  TaskEventRow, EventJson, provider, TaskStore, find_task, find_event, is_one, insert_event,
  update_task, load, save,
}
use astrbot_plugin_groupmate.Tasks.Runtime.{task_row}
use astrbot_plugin_groupmate.Tasks.Events.{
  kind_value, event_update, apply_loaded, same_event, apply_or_return, value_error_as_invalid,
  apply_event,
}
use astrbot_plugin_groupmate.Tasks.Applies.{IsBuilt, create_event-IsBuilt, event_update-Moves}
use astrbot_plugin_groupmate.Tasks.Consistent.{IsConsistent}
use astrbot_plugin_groupmate.Tasks.Saved.{Saved, refused, saved, save-Saved}
use astrbot_plugin_groupmate.Tasks.Loaded.{load-found, load-IsPast}

-- A save that returns has put its event behind the others, under an id that was free.
pub save-event :
    (t u : TaskRun) (event_id event_type : String) (event_json : EventJson) (at : ℤ)
    (s s' : TaskStore) (v : TaskRun)
    → save t u event_id event_type event_json at s ≡ (ok v, s')
    → find_event event_id s ≡ none
    → (row : TaskEventRow) × (find_event event_id s' ≡ some row)
      × (row.task_id ≡ u.task_id)
      × (row.event_json ≡ event_json)
unfolding save update_task insert_event find_event
save-event t u event_id event_type event_json at s s' v h free =
    elim (Bool-cases
      (is_one (keep (λ row. row.task_id == u.task_id && int_eq row.version t.version) s.tasks))) [
        | inr stale ↦ absurd (cc (rw stale at h))
        | inl current ↦ elim (Bool-cases (any (λ r. r.event_id == event_id) s.task_events)) [
          | inl used ↦ absurd (cc (rw used at (rw current at h)))
          | inr fresh ↦
              let row : TaskEventRow = record {
                event_id = event_id;
                task_id = u.task_id;
                event_type = event_type;
                event_json = event_json;
                occurred_at = at;
              } in
              let done = rw fresh at (rw current at h) in
              let there : find (λ (r : TaskEventRow). r.event_id == event_id)
                    (s.task_events ++ row ∷ [])
                  ≡ some row =
                find-snoc (λ (r : TaskEventRow). r.event_id) event_id s.task_events row
                ∙ rw free (rw text_eq_refl refl) in
              (row, rw (← ap (λ (y : Result TaskRun × TaskStore). y.1) done) there, refl, refl)
        ]
      ]

built_from :
    (given e : ProviderEvent)
    → value_error_as_invalid (create_event given) ≡ ok e
    → create_event given ≡ ok e
built_from given e h = by_result (create_event given) h
  where
    by_result : (r : Result ProviderEvent) → value_error_as_invalid r ≡ ok e → r ≡ ok e
    by_result (ok x) h = h
    by_result (raise Exception.value_error) h = absurd (cc)
    by_result (raise x) h = absurd (cc)

same_event_refl : (e : ProviderEvent) → same_event (provider e) e ≡ true
same_event_refl e = by_decision (ProviderEvent-discrete e e)
  where
    by_decision : (d : Dec (e ≡ e)) → ite d true false ≡ true
    by_decision (yes p) = refl
    by_decision (no p) = absurd (p refl)

module _ (lib : Library) (given e : ProviderEvent)
    (made : value_error_as_invalid (create_event given) ≡ ok e) where
  -- A stored event with the same content makes the call a load.
  apply_stored :
      (s : TaskStore) (row : TaskEventRow)
      → find_event e.event_id s ≡ some row
      → row.task_id ≡ e.task_id
      → same_event row.event_json e ≡ true
      → apply_event lib given s ≡ load lib e.task_id s
  unfolding apply_event
  apply_stored s row found id same = rw made (rw found (rw id (rw text_eq_refl (rw same refl))))

  module _ (s s' : TaskStore) (u : TaskRun) (c : IsConsistent lib s) (built : IsBuilt lib e) where
    after_fresh :
        find_event e.event_id s ≡ none
        → apply_or_return lib e none s ≡ (ok u, s')
        → apply_event lib given s' ≡ (ok u, s')
    after_fresh free h =
        on_run (load lib e.task_id) (λ t. apply_loaded t e) {s = s} h
          λ t s1 hl h1.
            let (still, sound, past, key) = load-IsPast lib s c e.task_id t s1 hl in
            let h2 : apply_loaded t e s ≡ (ok u, s') = rw (← still) h1 in
            let h3 : (lift (event_update t e) >>= λ updated.
            save t updated e.event_id (concat "provider." (kind_value e.kind)) (provider e)
              e.occurred_at)
                  s
                ≡ (ok u, s') =
              unfold apply_loaded in h2 in
            on_lift (event_update t e) _ {s = s} h3 λ v hv h4.
              let moved = event_update-Moves lib t sound e built v hv in
              let event_type = concat "provider." (kind_value e.kind) in
              let (row, found, of_task, json) =
                save-event t v e.event_id event_type (provider e) e.occurred_at s s' u h4 free in
              let stored : same_event row.event_json e ≡ true =
                ap (λ j. same_event j e) json ∙ same_event_refl e in
              apply_stored s' row found (of_task ∙ moved.task_id ∙ key) stored
              ∙ loads_saved t v h4 key (
                  save-Saved lib t v s c moved past e.event_id event_type (provider e)
                    e.occurred_at)
      where
        loads_saved :
            (t v : TaskRun) {x : Result TaskRun × TaskStore}
            → x ≡ (ok u, s')
            → t.task_id ≡ e.task_id
            → Saved lib t v s x
            → load lib e.task_id s' ≡ (ok u, s')
        loads_saved t v h key (refused y k) = absurd (cc)
        loads_saved t v h key (saved s2 k held rows more) =
            let same : s2 ≡ s' = ap (λ (y : Result TaskRun × TaskStore). y.1) (sym k ∙ h) in
            let value : v ≡ u =
              ok-injective (ap (λ (y : Result TaskRun × TaskStore). y.0) (sym k ∙ h)) in
            let there : find_task e.task_id s2 ≡ some (task_row v) =
              rows e.task_id ∙ rw key (rw text_eq_refl refl) in
            let loaded = load-found lib s2 more.consistent e.task_id (task_row v) there in
            rw (← same) (rw (← value) loaded)

    after_stored :
        (row : TaskEventRow)
        → find_event e.event_id s ≡ some row
        → apply_or_return lib e (some row) s ≡ (ok u, s')
        → apply_event lib given s' ≡ (ok u, s')
    after_stored row found h =
        on_lift
          (require (row.task_id == e.task_id && same_event row.event_json e)
            provider_event_conflict)
          (λ _. load lib e.task_id) {s = s} h
          λ _ hr h1.
            let (still, sound, past, key) = load-IsPast lib s c e.task_id u s' h1 in
            let again : apply_event lib given s ≡ (ok u, s') =
              unfold apply_event in rw made (rw found h) in
            ap (apply_event lib given) still ∙ again

-- On consistent tables, an event of built media that was applied and comes again returns the same
-- task and leaves the tables.
pub apply_event_again :
    (lib : Library) (given : ProviderEvent) (s s' : TaskStore) (u : TaskRun)
    → traverse (create_media lib) given.media ≡ ok given.media
    → IsConsistent lib s
    → apply_event lib given s ≡ (ok u, s')
    → apply_event lib given s' ≡ (ok u, s')
unfolding apply_event
apply_event_again lib given s s' u media c h =
    on_lift (value_error_as_invalid (create_event given)) _ {s = s} h λ e made h1.
      let built = create_event-IsBuilt lib given e media (built_from given e made) in
      elim (Option-cases (find_event e.event_id s)) [
        | inl free ↦
            unfold apply_event in after_fresh lib given e made s s' u c built free (rw free at h1)
        | inr (row, found) ↦
            unfold apply_event in
            after_stored lib given e made s s' u c built row found (rw found at h1)
      ]
