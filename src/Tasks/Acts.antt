-- ===== src/Tasks/Acts.antt =====
-- What the methods of `TaskRuntime` do with a task that they hold: a call leaves the tables, or it
-- saves one change of the task.
use astrbot_plugin_groupmate.Prelude.{
  ℕ, ℤ, pos, ◌+ℤ◌, ltb_ℤ, leb_ℤ, String, strip, ◌==◌, ◌≡◌, refl, ap, true, false, not, Option, none,
  some, Bool-cases, inl, inr, arith,
}
use astrbot_plugin_groupmate.Result.{
  Result, ok, value_error, traverse, on_ok, on_require, then_ok, ok-injective,
}
use astrbot_plugin_groupmate.Delivery.Contracts.{distinct, optional_text}
use astrbot_plugin_groupmate.Tasks.Contracts.{
  Library, CapabilityRequest, TaskStatus, proposed, awaiting_confirmation, queued, running,
  succeeded, failed, canceled, expired, unknown, required_text, requires_confirmation,
  create_request,
}
use astrbot_plugin_groupmate.Tasks.TaskRun.{TaskRun, transition}
use astrbot_plugin_groupmate.Tasks.Store.{EventJson, TaskStore, save, save_transition}
use astrbot_plugin_groupmate.Tasks.Runtime.{
  is_terminal, save_expired, start_status, start_loaded, is_awaiting, confirm_loaded,
}
use astrbot_plugin_groupmate.Tasks.Events.{is_running, is_cancelable, cancel_loaded, expire_loaded}
use astrbot_plugin_groupmate.Tasks.Recover.{mark_unknown}
use astrbot_plugin_groupmate.Tasks.Sound.{
  follows, is_past_confirmation, IsReadable, IsSound, grows, Moves,
}

-- The outcome `x` of a call in the store `s` that holds the task `t`.
pub data Acts (lib : Library) (t : TaskRun) (s : TaskStore) (x : Result TaskRun × TaskStore)
    : Type 0 where
  stays : (r : Result TaskRun) → x ≡ (r, s) → Acts lib t s x
  saves :
      (u : TaskRun) (event_id event_type : String) (event_json : EventJson) (at : ℤ)
      → Moves lib t u
      → x ≡ save t u event_id event_type event_json at s
      → Acts lib t s x

pub grows_refl : (p : Option ℤ) → grows p p ≡ true
grows_refl none = refl
grows_refl (some z) = ground arith

next_version : (v : ℤ) → not (ltb_ℤ v (pos 1)) ≡ true → not (ltb_ℤ (v +ℤ pos 1) (pos 1)) ≡ true
unfolding ◌+ℤ◌
next_version v h = ground arith

natural : (n : ℕ) → not (ltb_ℤ (pos n) (pos 0)) ≡ true
natural n = ground arith

pub transition-IsReadable :
    (lib : Library) (st : TaskStatus) (now : ℤ) (t : TaskRun)
    → not (ltb_ℤ now (pos 0)) ≡ true
    → IsReadable lib t
    → IsReadable lib (transition st now t)
unfolding transition
transition-IsReadable lib st now t h r = record {
  fields = r.fields;
  descriptor = r.descriptor;
  request = r.request;
  media = r.media;
  progress = r.progress;
  version = next_version t.version r.version;
  updated_at = h;
  task_id = r.task_id;
  error_code = r.error_code;
  confirmed_by = r.confirmed_by;
}

pub annotate-IsReadable :
    (lib : Library) (t : TaskRun) (e c : Option String)
    → optional_text e ≡ ok e
    → optional_text c ≡ ok c
    → IsReadable lib t
    → IsReadable lib (record t { error_code = e; confirmed_by = c })
annotate-IsReadable lib t e c he hc r = record {
  fields = r.fields;
  descriptor = r.descriptor;
  request = r.request;
  media = r.media;
  progress = r.progress;
  version = r.version;
  updated_at = r.updated_at;
  task_id = r.task_id;
  error_code = he;
  confirmed_by = hc;
}

requester-text :
    (r : CapabilityRequest)
    → create_request r ≡ ok r
    → optional_text (some r.requester_id) ≡ ok (some r.requester_id)
unfolding create_request optional_text
requester-text r h = on_ok (required_text r.requester_id) _ h λ a ha h1.
    on_ok (required_text r.persona_id) _ h1 λ p hp h2.
      on_ok (required_text r.group_id) _ h2 λ g hg h3.
        on_ok (required_text r.idempotency_key) _ h3 λ k hk h4.
          on_ok (required_text r.correlation_id) _ h4 λ c hc h5.
            on_ok (optional_text r.topic_id) _ h5 λ o ho h6.
              on_ok (traverse required_text r.authorization_scopes) _ h6 λ scopes hs h7.
                on_require (distinct scopes) value_error _ h7 λ c1 h8.
                  on_require (not (ltb_ℤ r.expires_at (pos 0))) value_error _ h8 λ c2 h9.
                    then_ok _ ha
                      (ap (λ (q : CapabilityRequest). ok (some q.requester_id)) (ok-injective h9))

-- A change of the status alone.
pub transition-Moves :
    (lib : Library) (st : TaskStatus) (now : ℕ) (t : TaskRun)
    → IsSound lib t
    → follows t.status st ≡ true
    → (is_past_confirmation st ≡ true
        → requires_confirmation t.descriptor ≡ true
        → is_past_confirmation t.status ≡ true)
    → Moves lib t (transition st (pos now) t)
unfolding transition
transition-Moves lib st now t sound e c = record {
  task_id = refl;
  descriptor = refl;
  request = refl;
  version = refl;
  edge = e;
  progress = grows_refl t.progress;
  sound = record {
    readable = transition-IsReadable lib st (pos now) t (natural now) sound.readable;
    confirmed = λ past req. sound.confirmed (c past req) req;
  };
}

module _ (lib : Library) (t : TaskRun) (sound : IsSound lib t) (now : ℕ) (s : TaskStore) where
  saves_status :
      (st : TaskStatus) (event_type : String) {x : Result TaskRun × TaskStore}
      → follows t.status st ≡ true
      → (is_past_confirmation st ≡ true
          → requires_confirmation t.descriptor ≡ true
          → is_past_confirmation t.status ≡ true)
      → x ≡ save_transition t (transition st (pos now) t) (pos now) event_type s
      → Acts lib t s x
  unfolding save_transition
  saves_status st event_type e c h =
      saves (transition st (pos now) t) _ event_type _ (pos now)
        (transition-Moves lib st now t sound e c) h

  expires :
      {x : Result TaskRun × TaskStore}
      → is_terminal t.status ≡ false
      → x ≡ save_expired t (pos now) s
      → Acts lib t s x
  expires open_task h =
      saves_status expired "task.expired" (may_expire t.status open_task) (λ p. absurd (cc)) h
    where
      may_expire : (st : TaskStatus) → is_terminal st ≡ false → follows st expired ≡ true
      may_expire proposed h = refl
      may_expire awaiting_confirmation h = refl
      may_expire queued h = refl
      may_expire running h = refl
      may_expire succeeded h = absurd (cc)
      may_expire failed h = absurd (cc)
      may_expire canceled h = absurd (cc)
      may_expire expired h = absurd (cc)
      may_expire unknown h = absurd (cc)

  start_status-Acts :
      (st : TaskStatus) → t.status ≡ st → Acts lib t s (start_status t (pos now) st s)
  start_status-Acts proposed e = elim (Bool-cases (requires_confirmation t.descriptor)) [
    | inl req ↦ rw req (
        saves_status awaiting_confirmation "task.awaiting_confirmation" (rw e refl)
          (λ p. absurd (cc)) refl)
    | inr free ↦ rw free (saves_status queued "task.queued" (rw e refl) (λ p req. absurd (cc)) refl)
  ]
  start_status-Acts queued e =
      saves_status running "task.started" (rw e refl) (λ p req. rw e refl) refl
  start_status-Acts awaiting_confirmation e = stays _ refl
  start_status-Acts running e = stays _ refl
  start_status-Acts succeeded e = stays _ refl
  start_status-Acts failed e = stays _ refl
  start_status-Acts canceled e = stays _ refl
  start_status-Acts expired e = stays _ refl
  start_status-Acts unknown e = stays _ refl

  pub start_loaded-Acts : Acts lib t s (start_loaded t (pos now) s)
  unfolding start_loaded
  start_loaded-Acts = elim (Bool-cases (is_terminal t.status)) [
    | inl done ↦ rw done (stays _ refl)
    | inr live ↦ rw live (elim (Bool-cases (leb_ℤ t.request.expires_at (pos now))) [
      | inl late ↦ rw late (expires live refl)
      | inr in_time ↦ rw in_time (start_status-Acts t.status refl)
    ])
  ]

  pub expire_loaded-Acts : Acts lib t s (expire_loaded t (pos now) s)
  unfolding expire_loaded
  expire_loaded-Acts = elim (Bool-cases (is_terminal t.status)) [
    | inl done ↦ rw done (stays _ refl)
    | inr live ↦ rw live (elim (Bool-cases (ltb_ℤ (pos now) t.request.expires_at)) [
      | inl early ↦ rw early (stays _ refl)
      | inr late ↦ rw late (expires live refl)
    ])
  ]

  cancels : (st : TaskStatus) → is_cancelable st ≡ true → follows st canceled ≡ true
  cancels proposed h = refl
  cancels awaiting_confirmation h = refl
  cancels queued h = refl
  cancels running h = refl
  cancels succeeded h = absurd (cc)
  cancels failed h = absurd (cc)
  cancels canceled h = absurd (cc)
  cancels expired h = absurd (cc)
  cancels unknown h = absurd (cc)

  pub cancel_loaded-Acts : Acts lib t s (cancel_loaded t (pos now) s)
  unfolding cancel_loaded
  cancel_loaded-Acts = elim (Bool-cases (not (is_running t.status))) [
    | inr runs ↦ rw runs (stays _ refl)
    | inl idle ↦ rw idle (elim (Bool-cases (is_cancelable t.status)) [
      | inr closed ↦ rw closed (stays _ refl)
      | inl open_task ↦ rw open_task (
          saves_status canceled "task.canceled" (cancels t.status open_task) (λ p. absurd (cc))
            refl)
    ])
  ]

  waits : (st : TaskStatus) → is_awaiting st ≡ true → st ≡ awaiting_confirmation
  waits awaiting_confirmation h = refl
  waits proposed h = absurd (cc)
  waits queued h = absurd (cc)
  waits running h = absurd (cc)
  waits succeeded h = absurd (cc)
  waits failed h = absurd (cc)
  waits canceled h = absurd (cc)
  waits expired h = absurd (cc)
  waits unknown h = absurd (cc)

  confirm-Moves :
      t.status ≡ awaiting_confirmation
      → Moves lib t
          (record (transition queued (pos now) t) { confirmed_by = some t.request.requester_id })
  unfolding transition
  confirm-Moves e = record {
    task_id = refl;
    descriptor = refl;
    request = refl;
    version = refl;
    edge = rw e refl;
    progress = grows_refl t.progress;
    sound = record {
      readable =
          annotate-IsReadable lib (transition queued (pos now) t) t.error_code
            (some t.request.requester_id) sound.readable.error_code
            (requester-text t.request sound.readable.request)
            (transition-IsReadable lib queued (pos now) t (natural now) sound.readable);
      confirmed = λ p req. refl;
    };
  }

  confirmed_saves :
      {x : Result TaskRun × TaskStore}
      → t.status ≡ awaiting_confirmation
      → x
        ≡ save_transition t
            (record (transition queued (pos now) t) { confirmed_by = some t.request.requester_id })
            (pos now)
            "task.confirmed"
            s
      → Acts lib t s x
  unfolding save_transition
  confirmed_saves e h = saves _ _ "task.confirmed" _ (pos now) (confirm-Moves e) h

  pub confirm_loaded-Acts :
      (confirmer_id : String) → Acts lib t s (confirm_loaded t confirmer_id (pos now) s)
  unfolding confirm_loaded
  confirm_loaded-Acts confirmer_id = elim (Bool-cases (is_awaiting t.status)) [
    | inr closed ↦ rw closed (stays _ refl)
    | inl open_task ↦
        rw open_task (elim (Bool-cases (strip confirmer_id == t.request.requester_id)) [
          | inr other ↦ rw other (stays _ refl)
          | inl same ↦ rw same (elim (Bool-cases (leb_ℤ t.request.expires_at (pos now))) [
            | inl late ↦ rw late (expires (ap is_terminal (waits t.status open_task)) refl)
            | inr in_time ↦ rw in_time (confirmed_saves (waits t.status open_task) refl)
          ])
        ])
  ]

  pub mark_unknown-Moves :
      (code : String)
      → is_running t.status ≡ true
      → optional_text (some code) ≡ ok (some code)
      → Moves lib t (record (transition unknown (pos now) t) { error_code = some code })
  unfolding transition
  mark_unknown-Moves code h text = record {
    task_id = refl;
    descriptor = refl;
    request = refl;
    version = refl;
    edge = fails t.status h;
    progress = grows_refl t.progress;
    sound = record {
      readable =
          annotate-IsReadable lib (transition unknown (pos now) t) (some code) t.confirmed_by text
            sound.readable.confirmed_by
            (transition-IsReadable lib unknown (pos now) t (natural now) sound.readable);
      confirmed = λ p req. sound.confirmed (past t.status h) req;
    };
  }
    where
      fails : (st : TaskStatus) → is_running st ≡ true → follows st unknown ≡ true
      fails running h = refl
      fails proposed h = absurd (cc)
      fails awaiting_confirmation h = absurd (cc)
      fails queued h = absurd (cc)
      fails succeeded h = absurd (cc)
      fails failed h = absurd (cc)
      fails canceled h = absurd (cc)
      fails expired h = absurd (cc)
      fails unknown h = absurd (cc)

      past : (st : TaskStatus) → is_running st ≡ true → is_past_confirmation st ≡ true
      past running h = refl
      past queued h = refl
      past proposed h = absurd (cc)
      past awaiting_confirmation h = absurd (cc)
      past succeeded h = refl
      past failed h = refl
      past canceled h = absurd (cc)
      past expired h = absurd (cc)
      past unknown h = refl

  pub mark_unknown-Acts :
      (code : String)
      → is_running t.status ≡ true
      → optional_text (some code) ≡ ok (some code)
      → Acts lib t s (mark_unknown t (pos now) code s)
  unfolding mark_unknown save_transition
  mark_unknown-Acts code h text =
      saves _ _ "task.recovery_unknown" _ (pos now) (mark_unknown-Moves code h text) refl
