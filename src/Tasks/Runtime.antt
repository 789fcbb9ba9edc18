-- ===== src/Tasks/Runtime.antt =====
-- `TaskRuntime` of groupmate/social_runtime/tasks/runtime.py. A method that changes a task loads it
-- in one transaction and saves it in another: its second part, which works on the loaded task, is a
-- definition of its own (`..._loaded`).
use astrbot_plugin_groupmate.Prelude.{
  ℤ, int_eq, ltb_ℤ, leb_ℤ, String, concat, strip, ◌==◌, any, all, ite, Bool, true, false, not, ◌&&◌,
  Option, none, some, List, [], ◌∷◌, if◌then◌else◌,
}
use astrbot_plugin_groupmate.Result.{
  value_error, require, unauthorized_capability, task_identity_conflict, invalid_task_transition,
}
use astrbot_plugin_groupmate.Exec.{Exec, pure, throw, lift, gets, transaction, ◌>>=◌, ◌>>◌}
use astrbot_plugin_groupmate.Tasks.Contracts.{
  Library, CapabilityDescriptor, CapabilityDescriptor-discrete, CapabilityRequest, TaskStatus,
  proposed, awaiting_confirmation, queued, running, expired, requires_confirmation,
  create_descriptor, create_request,
}
use astrbot_plugin_groupmate.Tasks.TaskRun.{TaskRun, propose_task, task_from_dict, transition}
use astrbot_plugin_groupmate.Tasks.Payload.{validate_payload}
use astrbot_plugin_groupmate.Tasks.Store.{
  TaskRow, TaskEventRow, task, TaskStore, find_task, insert_task, insert_event, load,
  save_transition,
}

-- `_task_id`
unfoldable pub task_id_of : Library → CapabilityDescriptor → CapabilityRequest → String
unfolding concat
task_id_of lib d r = concat "task:" (
    lib.identity_digest d.provider_id d.capability_id r.persona_id r.group_id r.requester_id
      r.idempotency_key)

abbrev pub covers : List String → List String → Bool
covers held wanted = all (λ s. any (λ t. t == s) held) wanted

abbrev pub text_option_eq : Option String → Option String → Bool
text_option_eq none none = true
text_option_eq (some s) (some t) = s == t
text_option_eq _ _ = false

abbrev pub texts_eq : List String → List String → Bool
texts_eq [] [] = true
texts_eq (s ∷ ss) (t ∷ ts) = s == t && texts_eq ss ts
texts_eq _ _ = false

abbrev pub bool_eq : Bool → Bool → Bool
bool_eq true b = b
bool_eq false b = not b

-- `existing.request == request`
unfoldable pub same_request : Library → CapabilityRequest → CapabilityRequest → Bool
same_request lib r q =
    r.requester_id == q.requester_id
    && r.persona_id == q.persona_id
    && r.group_id == q.group_id
    && text_option_eq r.topic_id q.topic_id
    && lib.same_payload r.input_payload q.input_payload
    && texts_eq r.authorization_scopes q.authorization_scopes
    && r.idempotency_key == q.idempotency_key
    && r.correlation_id == q.correlation_id
    && int_eq r.expires_at q.expires_at
    && bool_eq r.direct_request q.direct_request

abbrev pub same_content : Library → TaskRun → CapabilityDescriptor → CapabilityRequest → Bool
same_content lib existing d r =
    ite (CapabilityDescriptor-discrete existing.descriptor d) true false
    && same_request lib existing.request r

abbrev pub task_row : TaskRun → TaskRow
task_row t = record {
  task_id = t.task_id;
  correlation_id = t.request.correlation_id;
  persona_id = t.request.persona_id;
  group_id = t.request.group_id;
  status = t.status;
  task_json = t;
  version = t.version;
  updated_at = t.updated_at;
}

abbrev pub proposed_event : String → TaskRun → ℤ → TaskEventRow
proposed_event task_id t now = record {
  event_id = concat "runtime:" (concat task_id ":proposed");
  task_id = task_id;
  event_type = "task.proposed";
  event_json = task t;
  occurred_at = now;
}

abbrev pub insert_or_return :
    Library → String → TaskRun → ℤ → Option TaskRow → Exec TaskStore TaskRun
insert_or_return lib task_id t now (some row) = do
  existing ← lift (task_from_dict lib row.task_json)
  lift (require (same_content lib existing t.descriptor t.request) task_identity_conflict)
  pure existing
insert_or_return lib task_id t now none = do
  insert_task (record (task_row t) { task_id = task_id })
  insert_event (proposed_event task_id t now)
  pure t

unfoldable pub propose :
    Library → CapabilityDescriptor → CapabilityRequest → ℤ → Exec TaskStore TaskRun
unfolding any all
propose lib given_descriptor given_request now = do
  descriptor ← lift (create_descriptor lib given_descriptor)
  request ← lift (create_request given_request)
  lift (
      require (covers request.authorization_scopes descriptor.required_scopes)
        unauthorized_capability)
  lift (validate_payload request.input_payload descriptor.input_schema)
  lift (require (ltb_ℤ now request.expires_at) value_error)
  let task_id = task_id_of lib descriptor request
  t ← lift (propose_task task_id descriptor request now)
  transaction (do row ← gets (find_task task_id); insert_or_return lib task_id t now row)

abbrev pub is_terminal : TaskStatus → Bool
is_terminal TaskStatus.succeeded = true
is_terminal TaskStatus.failed = true
is_terminal TaskStatus.canceled = true
is_terminal expired = true
is_terminal TaskStatus.unknown = true
is_terminal _ = false

abbrev pub save_expired : TaskRun → ℤ → Exec TaskStore TaskRun
save_expired t now = save_transition t (transition expired now t) now "task.expired"

-- what `start` does with a task of a status that it may start from
abbrev pub start_status : TaskRun → ℤ → TaskStatus → Exec TaskStore TaskRun
start_status t now proposed =
    if requires_confirmation t.descriptor
    then save_transition t (transition awaiting_confirmation now t) now "task.awaiting_confirmation"
    else save_transition t (transition queued now t) now "task.queued"
start_status t now queued = save_transition t (transition running now t) now "task.started"
start_status t now _ = throw invalid_task_transition

unfoldable pub start_loaded : TaskRun → ℤ → Exec TaskStore TaskRun
start_loaded t now =
    if is_terminal t.status
    then throw invalid_task_transition
    else if leb_ℤ t.request.expires_at now
    then save_expired t now
    else start_status t now t.status

unfoldable pub start : Library → String → ℤ → Exec TaskStore TaskRun
start lib task_id now = do t ← load lib task_id; start_loaded t now

abbrev pub is_awaiting : TaskStatus → Bool
is_awaiting awaiting_confirmation = true
is_awaiting _ = false

unfoldable pub confirm_loaded : TaskRun → String → ℤ → Exec TaskStore TaskRun
unfolding strip
confirm_loaded t confirmer_id now = do
  lift (require (is_awaiting t.status) invalid_task_transition)
  lift (require (strip confirmer_id == t.request.requester_id) unauthorized_capability)
  if leb_ℤ t.request.expires_at now
      then save_expired t now
      else save_transition t
          (record (transition queued now t) { confirmed_by = some t.request.requester_id }) now
          "task.confirmed"

unfoldable pub confirm : Library → String → String → ℤ → Exec TaskStore TaskRun
confirm lib task_id confirmer_id now = do t ← load lib task_id; confirm_loaded t confirmer_id now
