-- ===== src/Tasks/Examples.antt =====
-- The theorems of the task runtime at a run of two workers.
use astrbot_plugin_groupmate.Prelude.{
  pos, ◌≡◌, ◌≢◌, refl, sym, ap, ◌∙◌, true, Option, none, some, inl, any, all, find, strip,
}
use astrbot_plugin_groupmate.Result.{Result, ok, traverse}
use astrbot_plugin_groupmate.Delivery.Contracts.{delivery_text, optional_text, distinct}
use astrbot_plugin_groupmate.Tasks.Contracts.{create_descriptor, create_request}
use astrbot_plugin_groupmate.Tasks.TaskRun.{TaskRun}
use astrbot_plugin_groupmate.Tasks.Store.{TaskRow, TaskStore, find_task}
use astrbot_plugin_groupmate.Tasks.Runtime.{task_row, propose}
use astrbot_plugin_groupmate.Tasks.Events.{apply_event}
use astrbot_plugin_groupmate.Tasks.Sound.{grows}
use astrbot_plugin_groupmate.Tasks.History.{History, Keeps}
use astrbot_plugin_groupmate.Tasks.Normal.{create_descriptor-normal, create_request-normal}
use astrbot_plugin_groupmate.Tasks.Workers.{Use, run_use}
use astrbot_plugin_groupmate.Tasks.Runs.{
  IsStored, empty_world, fits, Reaches-IsStored, confirmed_before_queued, stored_task_moves,
  ended_task_stays, only_one_saves,
}
use astrbot_plugin_groupmate.Tasks.Repeats.{apply_event_again}
use astrbot_plugin_groupmate.Tasks.Proposals.{propose_again}
use astrbot_plugin_groupmate.Tasks.Samples.{
  lib, lib-IsLower, lib-IsDigest, same_payload_refl, descriptor, request, descriptor-HasFields,
  proposed_task, queued_task, canceled_task, proposed_store, queued_store, canceled_store,
  proposed-Reaches, queued-Reaches, proposed-queued, canceled-Reaches, canceled-canceled,
  propose_step, cancel_step, accepted, running_task, running_store, accept_step,
}

queued_row : find_task "task:0" queued_store ≡ some (task_row queued_task)
unfolding find_task find
queued_row = refl

proposed_row : find_task "task:0" proposed_store ≡ some (task_row proposed_task)
unfolding find_task find
proposed_row = refl

canceled_row : find_task "task:0" canceled_store ≡ some (task_row canceled_task)
unfolding find_task find
canceled_row = refl

Reaches-IsStored_example : IsStored lib queued_store "task:0" (task_row queued_task)
Reaches-IsStored_example =
    Reaches-IsStored lib lib-IsLower lib-IsDigest queued-Reaches "task:0" (task_row queued_task)
      queued_row

confirmed_before_queued_example : queued_task.confirmed_by ≡ some "ann"
confirmed_before_queued_example =
    confirmed_before_queued lib lib-IsLower lib-IsDigest queued-Reaches "task:0"
      (task_row queued_task) queued_row refl refl

stored_task_moves_example :
    (q : TaskRow) × (find_task "task:0" queued_store ≡ some q)
    × History lib proposed_task q.task_json
    × Keeps proposed_task q.task_json
    × (grows proposed_task.progress q.task_json.progress ≡ true)
stored_task_moves_example =
    stored_task_moves lib lib-IsLower lib-IsDigest proposed-Reaches proposed-queued "task:0"
      (task_row proposed_task) proposed_row

ended_task_stays_example : find_task "task:0" canceled_store ≡ some (task_row canceled_task)
ended_task_stays_example =
    ended_task_stays lib lib-IsLower lib-IsDigest canceled-Reaches canceled-canceled "task:0"
      (task_row canceled_task) canceled_row refl

status_found : Option TaskRow → Option TaskRun
status_found none = none
status_found (some r) = some r.task_json

cancel_wrote : (run_use proposed_task (Use.to_cancel 2) proposed_store).1 ≢ proposed_store
unfolding find_task find status_found
cancel_wrote e =
    let same : canceled_store ≡ proposed_store =
      sym (ap (λ (y : Result TaskRun × TaskStore). y.1) cancel_step) ∙ e in
    let row : some canceled_task ≡ some proposed_task =
      ap (λ s. status_found (find_task "task:0" s)) same in
    cc

only_one_saves_example :
    (run_use proposed_task
      (Use.to_start 3)
      (run_use proposed_task (Use.to_cancel 2) proposed_store).1).1
    ≡ (run_use proposed_task (Use.to_cancel 2) proposed_store).1
only_one_saves_example =
    only_one_saves lib lib-IsLower lib-IsDigest proposed-Reaches proposed_task (inl refl)
      (Use.to_cancel 2) (Use.to_start 3) tt tt cancel_wrote

apply_event_again_example :
    apply_event lib accepted running_store ≡ (ok running_task, running_store)
apply_event_again_example =
    apply_event_again lib accepted queued_store running_store running_task (unfold traverse in refl)
      (fits lib lib-IsLower lib-IsDigest queued-Reaches).consistent accept_step

propose_again_example :
    propose lib descriptor request (pos 7) proposed_store ≡ (ok proposed_task, proposed_store)
propose_again_example =
    propose_again lib same_payload_refl lib-IsLower lib-IsDigest descriptor request 1 7
      empty_world.store proposed_store proposed_task descriptor-HasFields propose_step refl

descriptor_made : create_descriptor lib descriptor ≡ ok descriptor
unfolding create_descriptor delivery_text strip traverse distinct any all
descriptor_made = refl

request_made : create_request request ≡ ok request
unfolding create_request delivery_text optional_text strip traverse distinct any all
request_made = refl

create_descriptor-normal_example :
    (create_descriptor lib descriptor ≡ ok descriptor)
    × (descriptor.input_schema ≡ descriptor.input_schema)
    × (descriptor.output_schema ≡ descriptor.output_schema)
create_descriptor-normal_example =
    create_descriptor-normal lib lib-IsLower descriptor descriptor descriptor_made

create_request-normal_example : create_request request ≡ ok request
create_request-normal_example = create_request-normal request request request_made
