-- ===== src/Tasks/Store.antt =====
-- The tables `tasks` and `task_events` of groupmate/social_runtime/persistence/schema.py, and the
-- reads and writes of `TaskRuntime` in tasks/runtime.py. Each of them is one transaction; between
-- two of them another worker may write.
use astrbot_plugin_groupmate.Prelude.{
  text_leb, ℕ, ℤ, int_eq, String, concat, decimal, ◌==◌, any, keep, find, length, sort_by, Bool,
  true, false, ◌&&◌, Option, none, some, List, [], ◌∷◌, ◌++◌, map, if◌then◌else◌,
}
use astrbot_plugin_groupmate.Result.{
  Result, ok, raise, integrity_error, lookup_error, task_not_found, task_version_conflict, require,
  traverse,
}
use astrbot_plugin_groupmate.Result
use astrbot_plugin_groupmate.Exec.{Exec, pure, lift, gets, transaction, ◌>>=◌, ◌>>◌}
use astrbot_plugin_groupmate.Tasks.Contracts.{
  Library, TaskStatus, ProviderEvent, create_event, create_media, starts_with,
}
use astrbot_plugin_groupmate.Tasks.TaskRun.{TaskRun, task_from_dict}

pub record TaskRow : Type 0 where
  pub task_id : String
  pub correlation_id : String
  pub persona_id : String
  pub group_id : String
  pub status : TaskStatus
  pub task_json : TaskRun
  pub version : ℤ
  pub updated_at : ℤ

-- The two kinds of JSON that the column event_json has. Their keys differ, so no text is both.
pub data EventJson : Type 0 where
  task : TaskRun → EventJson
  provider : ProviderEvent → EventJson

pub record TaskEventRow : Type 0 where
  pub event_id : String
  pub task_id : String
  pub event_type : String
  pub event_json : EventJson
  pub occurred_at : ℤ

pub record TaskStore : Type 0 where
  pub tasks : List TaskRow
  pub task_events : List TaskEventRow

abbrev pub has_task : String → TaskRow → Bool
has_task id row = row.task_id == id

unfoldable pub find_task : String → TaskStore → Option TaskRow
find_task id s = find (has_task id) s.tasks

unfoldable pub find_event : String → TaskStore → Option TaskEventRow
find_event id s = find (λ row. row.event_id == id) s.task_events

-- PRIMARY KEY (task_id)
unfoldable pub insert_task : TaskRow → Exec TaskStore (Unit {0})
insert_task row s =
    if any (has_task row.task_id) s.tasks
    then (raise integrity_error, s)
    else (ok tt, record s { tasks = s.tasks ++ row ∷ [] })

-- PRIMARY KEY (event_id)
unfoldable pub insert_event : TaskEventRow → Exec TaskStore (Unit {0})
insert_event row s =
    if any (λ r. r.event_id == row.event_id) s.task_events
    then (raise integrity_error, s)
    else (ok tt, record s { task_events = s.task_events ++ row ∷ [] })

abbrev pub read_row : Library → Option TaskRow → Result TaskRun
read_row lib none = raise task_not_found
read_row lib (some row) = task_from_dict lib row.task_json

-- `load`
unfoldable pub load : Library → String → Exec TaskStore TaskRun
load lib task_id = do row ← gets (find_task task_id); lift (read_row lib row)

abbrev pub write_row : TaskRun → TaskRow → TaskRow
write_row updated row = record row {
  status = updated.status;
  task_json = updated;
  version = updated.version;
  updated_at = updated.updated_at;
}

-- UPDATE tasks SET ... WHERE task_id=? AND version=?, with the id of the updated task
abbrev pub advance : TaskRun → TaskRun → TaskRow → TaskRow
advance previous updated row =
    if row.task_id == updated.task_id && int_eq row.version previous.version
    then write_row updated row
    else row

abbrev pub is_one : {A : Type 0} → List A → Bool
is_one (x ∷ []) = true
is_one _ = false

-- the UPDATE, and whether its `rowcount` is 1
unfoldable pub update_task : TaskRun → TaskRun → Exec TaskStore Bool
update_task previous updated s = (
  ok (
      is_one (
        keep (λ row. row.task_id == updated.task_id && int_eq row.version previous.version)
          s.tasks)),
  record s { tasks = map (advance previous updated) s.tasks },
)

-- `_save`
unfoldable pub save : TaskRun → TaskRun → String → String → EventJson → ℤ → Exec TaskStore TaskRun
save previous updated event_id event_type event_json occurred_at = transaction (do
  changed ← update_task previous updated
  lift (require changed task_version_conflict)
  insert_event (record {
    event_id = event_id;
    task_id = updated.task_id;
    event_type = event_type;
    event_json = event_json;
    occurred_at = occurred_at;
  })
  pure updated)

-- `status.value`
abbrev pub status_value : TaskStatus → String
status_value TaskStatus.proposed = "proposed"
status_value TaskStatus.awaiting_confirmation = "awaiting_confirmation"
status_value TaskStatus.queued = "queued"
status_value TaskStatus.running = "running"
status_value TaskStatus.succeeded = "succeeded"
status_value TaskStatus.failed = "failed"
status_value TaskStatus.canceled = "canceled"
status_value TaskStatus.expired = "expired"
status_value TaskStatus.unknown = "unknown"

-- `runtime:{task_id}:{version}:{status}`
unfoldable pub runtime_event_id : TaskRun → String
unfolding concat decimal
runtime_event_id updated = concat "runtime:" (
    concat updated.task_id
      (concat ":" (concat (decimal updated.version) (concat ":" (status_value updated.status)))))

-- `_transition`, with the updated task
unfoldable pub save_transition : TaskRun → TaskRun → ℤ → String → Exec TaskStore TaskRun
save_transition previous updated now event_type =
    save previous updated (runtime_event_id updated) event_type (task updated) now

-- `event_count`
unfoldable pub event_count : String → Exec TaskStore ℕ
unfolding keep
event_count task_id = gets (λ s. length (keep (λ row. row.task_id == task_id) s.task_events))

abbrev pub read_event : Library → EventJson → Result ProviderEvent
read_event lib (task t) = raise lookup_error
read_event lib (provider e) =
    Result.◌>>=◌ (traverse (create_media lib) e.media)
      λ media. create_event (record e { media = media })

-- `provider_events`
unfoldable pub provider_events : Library → Exec TaskStore (List ProviderEvent)
unfolding keep traverse starts_with
provider_events lib = do
  rows ← gets (λ s. keep (λ row. starts_with "provider." row.event_type) s.task_events)
  lift (traverse (λ row. read_event lib row.event_json) rows)

abbrev pub status_eq : TaskStatus → TaskStatus → Bool
status_eq s t = status_value s == status_value t

-- `_list_status`
unfoldable pub list_status : Library → TaskStatus → Exec TaskStore (List TaskRun)
unfolding keep sort_by traverse
list_status lib status = do
  rows ← gets (λ s.
      sort_by (λ r q. text_leb r.task_id q.task_id)
        (keep (λ row. status_eq row.status status) s.tasks))
  lift (traverse (λ row. task_from_dict lib row.task_json) rows)
