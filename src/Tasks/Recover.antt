-- ===== src/Tasks/Recover.antt =====
-- `recover` of groupmate/social_runtime/tasks/runtime.py. The provider's adapter is a parameter: what
-- it answers for a task, or that it raises.
use astrbot_plugin_groupmate.Prelude.{
  ℤ, leb_ℤ, String, ◌⊎◌, inl, inr, Bool, not, Option, none, some, List, [], ◌∷◌, if◌then◌else◌,
}
use astrbot_plugin_groupmate.Result.{Result, ok, raise}
use astrbot_plugin_groupmate.Exec.{Exec, pure, lift, ◌>>=◌}
use astrbot_plugin_groupmate.Tasks.Contracts.{Library, ProviderEvent, TaskStatus}
use astrbot_plugin_groupmate.Tasks.TaskRun.{TaskRun, transition}
use astrbot_plugin_groupmate.Tasks.Store.{TaskStore, save_transition, list_status}
use astrbot_plugin_groupmate.Tasks.Events.{apply_event, expire}

pub record ProviderAdapter : Type 0 where
  pub can_query : TaskRun → Result Bool
  pub query_status : TaskRun → Result (Option ProviderEvent)

-- `_mark_unknown`
unfoldable pub mark_unknown : TaskRun → ℤ → String → Exec TaskStore TaskRun
mark_unknown t now error_code =
    save_transition t
      (record (transition TaskStatus.unknown now t) { error_code = some error_code }) now
      "task.recovery_unknown"

abbrev pub handle : {A : Type 0} → Exec TaskStore A → Result A → TaskStore → Result A × TaskStore
handle handler (ok a) s = (ok a, s)
handle handler (raise e) s = handler s

-- `try: m; except Exception: handler`
abbrev pub catch : {A : Type 0} → Exec TaskStore A → Exec TaskStore A → Exec TaskStore A
catch m handler s = let (r, s') = m s in handle handler r s'

abbrev pub Answer : Type 0
Answer = TaskRun ⊎ Option ProviderEvent

-- the body of `try`: a task that was marked already, or the adapter's answer
unfoldable pub query : ProviderAdapter → TaskRun → ℤ → Exec TaskStore Answer
query adapter t now = do
  able ← lift (adapter.can_query t)
  if not able
      then (do marked ← mark_unknown t now "provider_status_unqueryable"; pure (inl marked))
      else (do event ← lift (adapter.query_status t); pure (inr event))

abbrev pub settle_answer : Library → TaskRun → ℤ → Answer → Exec TaskStore TaskRun
settle_answer lib t now (inl marked) = pure marked
settle_answer lib t now (inr none) = mark_unknown t now "provider_status_unqueryable"
settle_answer lib t now (inr (some event)) = apply_event lib event

-- one round of the loop of `recover`
unfoldable pub recover_task : Library → ProviderAdapter → ℤ → TaskRun → Exec TaskStore TaskRun
recover_task lib adapter now t =
    if leb_ℤ t.request.expires_at now
    then expire lib t.task_id now
    else if not t.descriptor.idempotent
    then mark_unknown t now "provider_status_not_safe_to_query"
    else (do
      answer ←
          catch (query adapter t now)
            (do marked ← mark_unknown t now "provider_status_query_failed"; pure (inl marked))
      settle_answer lib t now answer)

unfoldable pub recover_tasks :
    Library → ProviderAdapter → ℤ → List TaskRun → Exec TaskStore (List TaskRun)
recover_tasks lib adapter now [] = pure []
recover_tasks lib adapter now (t ∷ ts) = do
  recovered ← recover_task lib adapter now t
  rest ← recover_tasks lib adapter now ts
  pure (recovered ∷ rest)

unfoldable pub recover : Library → ProviderAdapter → ℤ → Exec TaskStore (List TaskRun)
recover lib adapter now = do
  tasks ← list_status lib TaskStatus.running
  recover_tasks lib adapter now tasks
