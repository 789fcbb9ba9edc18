-- ===== src/Tasks/TaskRun.antt =====
-- `TaskRun` of groupmate/social_runtime/tasks/contracts.py, and its JSON form of tasks/runtime.py:
-- a column holds the value that its canonical JSON encodes, and reading it back runs `restore`.
use astrbot_plugin_groupmate.Prelude.{
  ℤ, pos, ◌+ℤ◌, ltb_ℤ, String, Bool, true, not, Option, none, List, [],
}
use astrbot_plugin_groupmate.Json.{Fields}
use astrbot_plugin_groupmate.Result.{Result, ok, value_error, require, traverse, ◌>>=◌, ◌>>◌}
use astrbot_plugin_groupmate.Delivery.Contracts.{optional_text}
use astrbot_plugin_groupmate.Tasks.Contracts.{
  Library, CapabilityDescriptor, CapabilityRequest, ProviderMedia, TaskStatus, required_text,
  is_percentage, create_field, create_descriptor, create_request, create_media,
}

pub record TaskRun : Type 0 where
  pub task_id : String
  pub descriptor : CapabilityDescriptor
  pub request : CapabilityRequest
  pub status : TaskStatus
  pub progress : Option ℤ
  pub result : Option Fields
  pub result_media : List ProviderMedia
  pub error_code : Option String
  pub delivery_relevant : Bool
  pub confirmed_by : Option String
  pub version : ℤ
  pub updated_at : ℤ

-- `TaskRun.proposed`
unfoldable pub propose_task : String → CapabilityDescriptor → CapabilityRequest → ℤ → Result TaskRun
propose_task task_id descriptor request now = do
  id ← required_text task_id
  ok (record {
    task_id = id;
    descriptor = descriptor;
    request = request;
    status = TaskStatus.proposed;
    progress = none;
    result = none;
    result_media = [];
    error_code = none;
    delivery_relevant = true;
    confirmed_by = none;
    version = pos 1;
    updated_at = now;
  })

-- `TaskRun.restore`, with `normalize_descriptor` and `normalize_request`
unfoldable pub restore : Library → TaskRun → Result TaskRun
restore lib t = do
  require (is_percentage t.progress) value_error
  require (not (ltb_ℤ t.version (pos 1))) value_error
  require (not (ltb_ℤ t.updated_at (pos 0))) value_error
  task_id ← required_text t.task_id
  descriptor ← create_descriptor lib t.descriptor
  request ← create_request t.request
  error_code ← optional_text t.error_code
  confirmed_by ← optional_text t.confirmed_by
  ok (record t {
    task_id = task_id;
    descriptor = descriptor;
    request = request;
    error_code = error_code;
    confirmed_by = confirmed_by;
  })

-- `_descriptor_from_dict`
unfoldable pub descriptor_from_dict : Library → CapabilityDescriptor → Result CapabilityDescriptor
descriptor_from_dict lib d = do
  input ← traverse (create_field lib) d.input_schema
  output ← traverse (create_field lib) d.output_schema
  create_descriptor lib (record d { input_schema = input; output_schema = output })

-- `_task_from_dict`
unfoldable pub task_from_dict : Library → TaskRun → Result TaskRun
task_from_dict lib t = do
  descriptor ← descriptor_from_dict lib t.descriptor
  request ← create_request t.request
  media ← traverse (create_media lib) t.result_media
  restore lib (record t { descriptor = descriptor; request = request; result_media = media })

-- `TaskRun.transition`, before the changes that a caller adds
unfoldable pub transition : TaskStatus → ℤ → TaskRun → TaskRun
transition status now t = record t {
  status = status;
  version = t.version +ℤ pos 1;
  updated_at = now;
}
