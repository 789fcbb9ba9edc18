-- ===== src/Tasks/Sound.antt =====
-- Tasks as the runtime stores them: they read back as themselves, and what is past confirmation was
-- confirmed by its requester. How one may follow another.
use astrbot_plugin_groupmate.Prelude.{
  ℤ, pos, ◌+ℤ◌, ltb_ℤ, leb_ℤ, ◌≡◌, refl, Bool, true, false, not, Option, none, some,
}
use astrbot_plugin_groupmate.Result.{ok, value_error, traverse, then_ok, then_require}
use astrbot_plugin_groupmate.Delivery.Contracts.{optional_text}
use astrbot_plugin_groupmate.Tasks.Contracts.{
  Library, TaskStatus, proposed, awaiting_confirmation, queued, running, succeeded, failed,
  canceled, expired, unknown, required_text, is_percentage, requires_confirmation,
  create_descriptor, create_request, create_media,
}
use astrbot_plugin_groupmate.Tasks.TaskRun.{TaskRun, restore, descriptor_from_dict, task_from_dict}

-- The transitions of a task.
abbrev pub follows : TaskStatus → TaskStatus → Bool
follows proposed awaiting_confirmation = true
follows proposed queued = true
follows proposed canceled = true
follows proposed expired = true
follows awaiting_confirmation queued = true
follows awaiting_confirmation canceled = true
follows awaiting_confirmation expired = true
follows queued running = true
follows queued canceled = true
follows queued expired = true
follows running proposed = false
follows running awaiting_confirmation = false
follows running queued = false
follows running _ = true
follows _ _ = false

-- What only a confirmed task reaches, where confirmation is required.
abbrev pub is_past_confirmation : TaskStatus → Bool
is_past_confirmation queued = true
is_past_confirmation running = true
is_past_confirmation succeeded = true
is_past_confirmation failed = true
is_past_confirmation unknown = true
is_past_confirmation _ = false

-- What `restore` tests.
pub record IsReadable (lib : Library) (t : TaskRun) : Type 0 where
  pub fields : descriptor_from_dict lib t.descriptor ≡ ok t.descriptor
  pub descriptor : create_descriptor lib t.descriptor ≡ ok t.descriptor
  pub request : create_request t.request ≡ ok t.request
  pub media : traverse (create_media lib) t.result_media ≡ ok t.result_media
  pub progress : is_percentage t.progress ≡ true
  pub version : not (ltb_ℤ t.version (pos 1)) ≡ true
  pub updated_at : not (ltb_ℤ t.updated_at (pos 0)) ≡ true
  pub task_id : required_text t.task_id ≡ ok t.task_id
  pub error_code : optional_text t.error_code ≡ ok t.error_code
  pub confirmed_by : optional_text t.confirmed_by ≡ ok t.confirmed_by

-- Such a task is read back as itself.
pub task_from_dict_lem :
    (lib : Library) (t : TaskRun) → IsReadable lib t → task_from_dict lib t ≡ ok t
unfolding task_from_dict restore
task_from_dict_lem lib t r = then_ok _ r.fields (
    then_ok _ r.request (
      then_ok _ r.media (
        then_require value_error r.progress (
          then_require value_error r.version (
            then_require value_error r.updated_at (
              then_ok _ r.task_id (
                then_ok _ r.descriptor (
                  then_ok _ r.request
                    (then_ok _ r.error_code (then_ok _ r.confirmed_by refl))))))))))

abbrev pub IsConfirmed : TaskRun → Type 0
IsConfirmed t =
    is_past_confirmation t.status ≡ true
    → requires_confirmation t.descriptor ≡ true
    → t.confirmed_by ≡ some t.request.requester_id

pub record IsSound (lib : Library) (t : TaskRun) : Type 0 where
  pub readable : IsReadable lib t
  pub confirmed : IsConfirmed t

-- Progress that is there stays there, and does not go back.
abbrev pub grows : Option ℤ → Option ℤ → Bool
grows none new = true
grows (some old) none = false
grows (some old) (some new) = leb_ℤ old new

-- One saved change of a task.
pub record Moves (lib : Library) (t u : TaskRun) : Type 0 where
  pub task_id : u.task_id ≡ t.task_id
  pub descriptor : u.descriptor ≡ t.descriptor
  pub request : u.request ≡ t.request
  pub version : u.version ≡ t.version +ℤ pos 1
  pub edge : follows t.status u.status ≡ true
  pub progress : grows t.progress u.progress ≡ true
  pub sound : IsSound lib u
