-- ===== src/Tasks/Samples.antt =====
-- Test data of the task runtime: a capability that must be confirmed, its task, and a run of workers.
use astrbot_plugin_groupmate.Prelude.{
  pos, String, ◌≡◌, refl, ap, true, false, none, some, [], ◌∷◌, ite, inl, any, all, find, keep,
  concat, decimal, decimal_fuel, strip, ◌+ℤ◌, subst,
}
use astrbot_plugin_groupmate.Json.{Fields, Fields-discrete}
use astrbot_plugin_groupmate.Result.{Result, ok, raise, task_version_conflict, traverse}
use astrbot_plugin_groupmate.Delivery.Contracts.{delivery_text, optional_text, distinct}
use astrbot_plugin_groupmate.Tasks.Contracts.{
  Library, CapabilityDescriptor, CapabilityRequest, ProviderEvent, ProviderEventKind, RiskLevel,
  ConfirmationPolicy, TaskStatus, create_descriptor, create_request, create_event,
}
use astrbot_plugin_groupmate.Tasks.TaskRun.{
  TaskRun, propose_task, task_from_dict, restore, descriptor_from_dict, transition,
}
use astrbot_plugin_groupmate.Tasks.Payload.{validate_payload, validate_fields, are_declared}
use astrbot_plugin_groupmate.Tasks.Store.{
  TaskEventRow, EventJson, TaskStore, find_task, find_event, insert_task, insert_event, load, save,
  save_transition, update_task, runtime_event_id,
}
use astrbot_plugin_groupmate.Tasks.Runtime.{
  task_id_of, task_row, propose, start_loaded, confirm_loaded,
}
use astrbot_plugin_groupmate.Tasks.Events.{
  cancel_loaded, event_changes, event_update, apply_loaded, apply_event,
}
use astrbot_plugin_groupmate.Tasks.Normal.{IsLower}
use astrbot_plugin_groupmate.Tasks.Proposed.{IsDigest, HasFields}
use astrbot_plugin_groupmate.Tasks.Workers.{World, In, Use, run_use, IsFit, Step, Reaches}
use astrbot_plugin_groupmate.Tasks.Runs.{empty_world}

-- Texts in lower case only, equality of payloads as data, and one digest.
abbrev pub lib : Library
lib = record {
  lower = λ s. s;
  same_payload = λ p q. ite (Fields-discrete p q) true false;
  identity_digest = λ provider capability persona group requester key. "0";
}

pub lib-IsLower : IsLower lib
lib-IsLower = record { idempotent = λ s. refl; keeps_text = λ s h. h }

pub lib-IsDigest : IsDigest lib
unfolding task_id_of concat delivery_text strip
lib-IsDigest = record { text = λ d r. refl }

pub same_payload_refl : (p : Fields) → lib.same_payload p p ≡ true
same_payload_refl p = by_decision (Fields-discrete p p)
  where
    by_decision : (d : Dec (p ≡ p)) → ite d true false ≡ true
    by_decision (yes e) = refl
    by_decision (no e) = absurd (e refl)

abbrev pub descriptor : CapabilityDescriptor
descriptor = record {
  capability_id = "publish";
  provider_id = "local";
  input_schema = [];
  output_schema = [];
  risk_level = RiskLevel.external_side_effect;
  required_scopes = "post" ∷ [];
  idempotent = true;
  cancellable = true;
  supports_progress = true;
  expected_latency_ms = pos 5;
  media_output_kinds = [];
  confirmation_policy = ConfirmationPolicy.required;
}

abbrev pub request : CapabilityRequest
request = record {
  requester_id = "ann";
  persona_id = "mate";
  group_id = "g";
  topic_id = none;
  input_payload = Fields.end;
  authorization_scopes = "post" ∷ [];
  idempotency_key = "k";
  correlation_id = "c";
  expires_at = pos 50;
  direct_request = true;
}

pub descriptor-HasFields : HasFields lib descriptor
unfolding traverse
descriptor-HasFields = record { input = refl; output = refl }

abbrev pub proposed_task : TaskRun
proposed_task = record {
  task_id = "task:0";
  descriptor = descriptor;
  request = request;
  status = TaskStatus.proposed;
  progress = none;
  result = none;
  result_media = [];
  error_code = none;
  delivery_relevant = true;
  confirmed_by = none;
  version = pos 1;
  updated_at = pos 1;
}

abbrev pub awaiting_task : TaskRun
awaiting_task = record proposed_task {
  status = TaskStatus.awaiting_confirmation;
  version = pos 2;
  updated_at = pos 2;
}

abbrev pub queued_task : TaskRun
queued_task = record proposed_task {
  status = TaskStatus.queued;
  confirmed_by = some "ann";
  version = pos 3;
  updated_at = pos 3;
}

abbrev pub canceled_task : TaskRun
canceled_task = record proposed_task {
  status = TaskStatus.canceled;
  version = pos 2;
  updated_at = pos 2;
}

abbrev event : String → String → TaskRun → TaskEventRow
event id event_type t = record {
  event_id = id;
  task_id = "task:0";
  event_type = event_type;
  event_json = EventJson.task t;
  occurred_at = t.updated_at;
}

abbrev pub proposed_store : TaskStore
proposed_store = record {
  tasks = task_row proposed_task ∷ [];
  task_events = event "runtime:task:0:proposed" "task.proposed" proposed_task ∷ [];
}

abbrev pub queued_store : TaskStore
queued_store = record {
  tasks = task_row queued_task ∷ [];
  task_events =
      event "runtime:task:0:proposed" "task.proposed" proposed_task
      ∷ event "runtime:task:0:2:awaiting_confirmation" "task.awaiting_confirmation" awaiting_task
      ∷ event "runtime:task:0:3:queued" "task.confirmed" queued_task
      ∷ [];
}

abbrev pub proposed_world : World
proposed_world = record { store = proposed_store; held = proposed_task ∷ [] }

pub propose_step :
    propose lib descriptor request (pos 1) empty_world.store ≡ (ok proposed_task, proposed_store)
unfolding propose create_descriptor create_request delivery_text optional_text strip traverse
    distinct any all task_id_of concat validate_payload validate_fields are_declared propose_task
    insert_task insert_event find_task find
propose_step = refl

load_step : load lib "task:0" proposed_store ≡ (ok proposed_task, proposed_store)
unfolding load find_task find task_from_dict descriptor_from_dict restore create_descriptor
    create_request delivery_text optional_text strip traverse distinct any all
load_step = refl

propose-Step : Step lib empty_world (record { store = proposed_store; held = [] })
propose-Step =
    subst (λ s. Step lib empty_world (record { store = s; held = [] })) (ap (λ y. y.1) propose_step)
      (Step.proposes descriptor request 1 descriptor-HasFields)

pub proposed-Reaches : Reaches lib empty_world proposed_world
proposed-Reaches =
    Reaches.next (Reaches.next Reaches.here propose-Step)
      (Step.loads "task:0" proposed_task proposed_store load_step)

-- The world behind one use of a held task.
use-Step :
    (w : World) (t : TaskRun) (u : Use) {r : Result TaskRun} {s : TaskStore}
    → In t w.held
    → IsFit lib t u
    → run_use t u w.store ≡ (r, s)
    → Step lib w (record { store = s; held = w.held })
use-Step w t u there fit h =
    subst (λ s. Step lib w (record { store = s; held = w.held })) (ap (λ y. y.1) h)
      (Step.uses t u there fit)

abbrev awaiting_store : TaskStore
awaiting_store = record {
  tasks = task_row awaiting_task ∷ [];
  task_events =
      event "runtime:task:0:proposed" "task.proposed" proposed_task
      ∷ event "runtime:task:0:2:awaiting_confirmation" "task.awaiting_confirmation" awaiting_task
      ∷ [];
}

abbrev pub canceled_store : TaskStore
canceled_store = record {
  tasks = task_row canceled_task ∷ [];
  task_events =
      event "runtime:task:0:proposed" "task.proposed" proposed_task
      ∷ event "runtime:task:0:2:canceled" "task.canceled" canceled_task
      ∷ [];
}

pub start_step :
    run_use proposed_task (Use.to_start 2) proposed_store ≡ (ok awaiting_task, awaiting_store)
unfolding start_loaded save_transition transition save update_task insert_event runtime_event_id
    concat decimal decimal_fuel keep any ◌+ℤ◌
start_step = refl

pub cancel_step :
    run_use proposed_task (Use.to_cancel 2) proposed_store ≡ (ok canceled_task, canceled_store)
unfolding cancel_loaded save_transition transition save update_task insert_event runtime_event_id
    concat decimal decimal_fuel keep any ◌+ℤ◌
cancel_step = refl

awaiting_load : load lib "task:0" awaiting_store ≡ (ok awaiting_task, awaiting_store)
unfolding load find_task find task_from_dict descriptor_from_dict restore create_descriptor
    create_request delivery_text optional_text strip traverse distinct any all
awaiting_load = refl

confirm_step :
    run_use awaiting_task (Use.to_confirm "ann" 3) awaiting_store ≡ (ok queued_task, queued_store)
unfolding confirm_loaded strip save_transition transition save update_task insert_event
    runtime_event_id concat decimal decimal_fuel keep any ◌+ℤ◌
confirm_step = refl

abbrev pub queued_world : World
queued_world = record { store = queued_store; held = awaiting_task ∷ proposed_task ∷ [] }

-- From the proposed task to the confirmed one.
pub proposed-queued : Reaches lib proposed_world queued_world
proposed-queued =
    let awaiting : Reaches lib proposed_world
        (record { store = awaiting_store; held = proposed_task ∷ [] }) =
      Reaches.next Reaches.here
        (use-Step proposed_world proposed_task (Use.to_start 2) (inl refl) tt start_step) in
    let loaded : Reaches lib proposed_world
        (record { store = awaiting_store; held = awaiting_task ∷ proposed_task ∷ [] }) =
      Reaches.next awaiting (Step.loads "task:0" awaiting_task awaiting_store awaiting_load) in
    Reaches.next loaded (
      use-Step (record { store = awaiting_store; held = awaiting_task ∷ proposed_task ∷ [] })
        awaiting_task (Use.to_confirm "ann" 3) (inl refl) tt confirm_step)

pub queued-Reaches : Reaches lib empty_world queued_world
queued-Reaches =
    Reaches.next
      (Reaches.next
        (Reaches.next proposed-Reaches
          (use-Step proposed_world proposed_task (Use.to_start 2) (inl refl) tt start_step))
        (Step.loads "task:0" awaiting_task awaiting_store awaiting_load))
      (use-Step (record { store = awaiting_store; held = awaiting_task ∷ proposed_task ∷ [] })
        awaiting_task (Use.to_confirm "ann" 3) (inl refl) tt confirm_step)

abbrev pub canceled_world : World
canceled_world = record { store = canceled_store; held = proposed_task ∷ [] }

pub canceled-Reaches : Reaches lib empty_world canceled_world
canceled-Reaches =
    Reaches.next proposed-Reaches
      (use-Step proposed_world proposed_task (Use.to_cancel 2) (inl refl) tt cancel_step)

late_step :
    run_use proposed_task (Use.to_start 3) canceled_store
    ≡ (raise task_version_conflict, canceled_store)
unfolding start_loaded save_transition transition save update_task keep ◌+ℤ◌
late_step = refl

-- Another worker, which held the task before it was canceled, changes nothing.
pub canceled-canceled : Reaches lib canceled_world canceled_world
canceled-canceled =
    Reaches.next Reaches.here
      (use-Step canceled_world proposed_task (Use.to_start 3) (inl refl) tt late_step)

abbrev pub accepted : ProviderEvent
accepted = record {
  event_id = "e1";
  task_id = "task:0";
  kind = ProviderEventKind.accepted;
  occurred_at = pos 4;
  progress = none;
  result = none;
  media = [];
  error_code = none;
}

abbrev pub running_task : TaskRun
running_task = record queued_task {
  status = TaskStatus.running;
  version = pos 4;
  updated_at = pos 4;
}

abbrev pub running_store : TaskStore
running_store = record {
  tasks = task_row running_task ∷ [];
  task_events =
      event "runtime:task:0:proposed" "task.proposed" proposed_task
      ∷ event "runtime:task:0:2:awaiting_confirmation" "task.awaiting_confirmation" awaiting_task
      ∷ event "runtime:task:0:3:queued" "task.confirmed" queued_task
      ∷ record {
        event_id = "e1";
        task_id = "task:0";
        event_type = "provider.accepted";
        event_json = EventJson.provider accepted;
        occurred_at = pos 4;
      }
      ∷ [];
}

pub accept_step : apply_event lib accepted queued_store ≡ (ok running_task, running_store)
unfolding apply_event create_event find_event apply_loaded event_update event_changes save
    transition update_task insert_event concat keep any ◌+ℤ◌ load find_task find task_from_dict
    descriptor_from_dict restore create_descriptor create_request delivery_text optional_text strip
    traverse distinct all
accept_step = refl
