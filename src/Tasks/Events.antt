-- ===== src/Tasks/Events.antt =====
-- `apply_event`, `cancel` and `expire` of groupmate/social_runtime/tasks/runtime.py.
use astrbot_plugin_groupmate.Prelude.{
  ℤ, pos, ltb_ℤ, leb_ℤ, String, concat, ◌==◌, any, ite, Bool, true, false, not, ◌&&◌, Option, none,
  some, List, if◌then◌else◌,
}
use astrbot_plugin_groupmate.Result.{
  Result, ok, raise, value_error, assertion_error, require, invalid_task_transition,
  provider_event_conflict, ◌>>=◌, ◌>>◌,
}
use astrbot_plugin_groupmate.Exec
use astrbot_plugin_groupmate.Exec.{Exec, pure, throw, lift, gets}
use astrbot_plugin_groupmate.Json.{Fields}
use astrbot_plugin_groupmate.Tasks.Contracts.{
  Library, ProviderMedia, ProviderEvent, ProviderEvent-discrete, ProviderEventKind, accepted,
  progress, succeeded, failed, canceled, TaskStatus, create_event,
}
use astrbot_plugin_groupmate.Tasks.TaskRun.{TaskRun, transition}
use astrbot_plugin_groupmate.Tasks.Payload.{validate_payload}
use astrbot_plugin_groupmate.Tasks.Store.{
  TaskEventRow, EventJson, task, provider, TaskStore, find_event, load, save, save_transition,
}
use astrbot_plugin_groupmate.Tasks.Runtime.{is_terminal, save_expired}

abbrev pub is_running : TaskStatus → Bool
is_running TaskStatus.running = true
is_running _ = false

abbrev pub is_active : TaskStatus → Bool
is_active TaskStatus.queued = true
is_active TaskStatus.running = true
is_active _ = false

-- progress that does not go back
abbrev pub advances : Option ℤ → Option ℤ → Bool
advances none new = true
advances (some old) none = true
advances (some old) (some new) = not (ltb_ℤ new old)

abbrev pub are_allowed : List ProviderMedia → List String → Bool
are_allowed media kinds = not (any (λ m. not (any (λ k. k == m.kind) kinds)) media)

abbrev pub validate_output : Option Fields → TaskRun → Result (Unit {0})
validate_output none t = raise assertion_error
validate_output (some result) t = validate_payload result t.descriptor.output_schema

-- the target status and the changes of an event of a kind
unfoldable pub event_changes : TaskRun → ProviderEvent → ProviderEventKind → Result TaskRun
unfolding any
event_changes t e accepted = do
  require (is_active t.status) invalid_task_transition
  ok (record t { status = TaskStatus.running })
event_changes t e progress = do
  require (is_running t.status) invalid_task_transition
  require t.descriptor.supports_progress invalid_task_transition
  require (advances t.progress e.progress) invalid_task_transition
  ok (record t { status = TaskStatus.running; progress = e.progress })
event_changes t e succeeded = do
  require (is_running t.status) invalid_task_transition
  validate_output e.result t
  require (are_allowed e.media t.descriptor.media_output_kinds) invalid_task_transition
  ok (record t {
    status = TaskStatus.succeeded;
    result = e.result;
    result_media = e.media;
    progress = some (pos 100);
    error_code = none;
  })
event_changes t e failed = do
  require (is_running t.status) invalid_task_transition
  ok (record t { status = TaskStatus.failed; error_code = e.error_code })
event_changes t e canceled = do
  require (is_active t.status) invalid_task_transition
  ok (record t { status = TaskStatus.canceled })

abbrev pub is_conclusion : ProviderEventKind → Bool
is_conclusion accepted = false
is_conclusion progress = false
is_conclusion _ = true

abbrev pub late_changes : ProviderEvent → TaskRun → TaskRun
late_changes e t =
    if leb_ℤ t.request.expires_at e.occurred_at && is_conclusion e.kind
    then record t { delivery_relevant = false }
    else t

unfoldable pub event_update : TaskRun → ProviderEvent → Result TaskRun
event_update t e = do
  require (not (ltb_ℤ e.occurred_at t.updated_at)) invalid_task_transition
  changed ← event_changes t e e.kind
  ok (transition changed.status e.occurred_at (late_changes e changed))

-- `event.kind.value`
abbrev pub kind_value : ProviderEventKind → String
kind_value accepted = "accepted"
kind_value progress = "progress"
kind_value succeeded = "succeeded"
kind_value failed = "failed"
kind_value canceled = "canceled"

-- the part of `apply_event` behind the load
unfoldable pub apply_loaded : TaskRun → ProviderEvent → Exec TaskStore TaskRun
unfolding concat
apply_loaded t e = Exec.◌>>=◌ (lift (event_update t e)) λ updated.
    save t updated e.event_id (concat "provider." (kind_value e.kind)) (provider e) e.occurred_at

abbrev pub same_event : EventJson → ProviderEvent → Bool
same_event (task t) e = false
same_event (provider e') e = ite (ProviderEvent-discrete e' e) true false

abbrev pub apply_or_return : Library → ProviderEvent → Option TaskEventRow → Exec TaskStore TaskRun
apply_or_return lib e (some row) =
    Exec.◌>>◌
      (lift
        (require (row.task_id == e.task_id && same_event row.event_json e) provider_event_conflict))
      (load lib e.task_id)
apply_or_return lib e none = Exec.◌>>=◌ (load lib e.task_id) λ t. apply_loaded t e

-- `except ValueError as exc: raise InvalidTaskTransition`
abbrev pub value_error_as_invalid : {A : Type 0} → Result A → Result A
value_error_as_invalid (raise value_error) = raise invalid_task_transition
value_error_as_invalid r = r

unfoldable pub apply_event : Library → ProviderEvent → Exec TaskStore TaskRun
apply_event lib given =
    Exec.◌>>=◌ (lift (value_error_as_invalid (create_event given)))
      λ e. Exec.◌>>=◌ (gets (find_event e.event_id)) λ row. apply_or_return lib e row

abbrev pub is_cancelable : TaskStatus → Bool
is_cancelable TaskStatus.proposed = true
is_cancelable TaskStatus.awaiting_confirmation = true
is_cancelable TaskStatus.queued = true
is_cancelable _ = false

-- A running task is refused too, whether it is cancellable or not.
unfoldable pub cancel_loaded : TaskRun → ℤ → Exec TaskStore TaskRun
cancel_loaded t now =
    Exec.◌>>◌ (lift (require (not (is_running t.status)) invalid_task_transition)) (
      Exec.◌>>◌ (lift (require (is_cancelable t.status) invalid_task_transition))
        (save_transition t (transition TaskStatus.canceled now t) now "task.canceled"))

unfoldable pub cancel : Library → String → ℤ → Exec TaskStore TaskRun
cancel lib task_id now = Exec.◌>>=◌ (load lib task_id) λ t. cancel_loaded t now

unfoldable pub expire_loaded : TaskRun → ℤ → Exec TaskStore TaskRun
expire_loaded t now =
    if is_terminal t.status
    then pure t
    else if ltb_ℤ now t.request.expires_at
    then throw invalid_task_transition
    else save_expired t now

unfoldable pub expire : Library → String → ℤ → Exec TaskStore TaskRun
expire lib task_id now = Exec.◌>>=◌ (load lib task_id) λ t. expire_loaded t now
