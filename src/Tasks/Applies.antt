-- ===== src/Tasks/Applies.antt =====
-- What `apply_event` of groupmate/social_runtime/tasks/runtime.py does with the task that it loaded.
use astrbot_plugin_groupmate.Prelude.{
  ℤ, pos, ◌+ℤ◌, ltb_ℤ, leb_ℤ, String, ◌≡◌, refl, sym, ap, ◌∙◌, true, not, ◌&&◌, Option, none, some,
  Bool-cases, inl, inr, arith,
}
use astrbot_plugin_groupmate.Result.{
  ok, value_error, traverse, on_ok, on_require, Result-cases, ok-injective, invalid_task_transition,
}
use astrbot_plugin_groupmate.Delivery.Contracts.{optional_text}
use astrbot_plugin_groupmate.Delivery.Contracts.Normal.{optional_text-normal}
use astrbot_plugin_groupmate.Tasks.Contracts.{
  Library, CapabilityRequest, ProviderEvent, ProviderEventKind, accepted, progress, succeeded,
  failed, canceled, TaskStatus, required_text, create_media, is_percentage, is_given,
  suits_progress, suits_result, suits_error, create_event,
}
use astrbot_plugin_groupmate.Tasks.TaskRun.{TaskRun, transition}
use astrbot_plugin_groupmate.Tasks.Store.{TaskStore}
use astrbot_plugin_groupmate.Tasks.Events.{
  is_running, is_active, advances, are_allowed, validate_output, event_changes, late_changes,
  is_conclusion, event_update, apply_loaded,
}
use astrbot_plugin_groupmate.Tasks.Sound.{
  follows, is_past_confirmation, IsReadable, IsSound, grows, Moves,
}
use astrbot_plugin_groupmate.Tasks.Acts.{Acts, stays, saves, grows_refl, transition-IsReadable}

-- An event as `ProviderEvent.create` and `ProviderMedia` leave it.
pub record IsBuilt (lib : Library) (e : ProviderEvent) : Type 0 where
  pub percentage : is_percentage e.progress ≡ true
  pub suited : suits_progress e.kind e.progress ≡ true
  pub error : optional_text e.error_code ≡ ok e.error_code
  pub media : traverse (create_media lib) e.media ≡ ok e.media

pub create_event-IsBuilt :
    (lib : Library) (given e : ProviderEvent)
    → traverse (create_media lib) given.media ≡ ok given.media
    → create_event given ≡ ok e
    → IsBuilt lib e
unfolding create_event
create_event-IsBuilt lib given e m h = on_ok (required_text given.event_id) _ h λ a ha h1.
    on_ok (required_text given.task_id) _ h1 λ b hb h2.
      on_require (not (ltb_ℤ given.occurred_at (pos 0))) value_error _ h2 λ c1 h3.
        on_require (is_percentage given.progress) value_error _ h3 λ c2 h4.
          on_require (suits_progress given.kind given.progress) value_error _ h4 λ c3 h5.
            on_require (suits_result given.kind given.result given.media) value_error _ h5 λ c4 h6.
              on_ok (optional_text given.error_code) _ h6 λ x hx h7.
                on_require (suits_error given.kind x) value_error _ h7 λ c5 h8.
                  let same : record given { event_id = a; task_id = b; error_code = x } ≡ e =
                    ok-injective h8 in
                  rw (← same) (record {
                    percentage = c2;
                    suited = c3;
                    error = optional_text-normal _ _ hx;
                    media = m;
                  })

-- What an event changes beside the version and the time.
pub record IsChange (lib : Library) (t u : TaskRun) : Type 0 where
  pub task_id : u.task_id ≡ t.task_id
  pub descriptor : u.descriptor ≡ t.descriptor
  pub request : u.request ≡ t.request
  pub version : u.version ≡ t.version
  pub updated_at : u.updated_at ≡ t.updated_at
  pub confirmed_by : u.confirmed_by ≡ t.confirmed_by
  pub edge : follows t.status u.status ≡ true
  pub past : is_past_confirmation t.status ≡ true
  pub progress : grows t.progress u.progress ≡ true
  pub percentage : is_percentage u.progress ≡ true
  pub media : traverse (create_media lib) u.result_media ≡ ok u.result_media
  pub error : optional_text u.error_code ≡ ok u.error_code

runs : (st : TaskStatus) → is_running st ≡ true → st ≡ TaskStatus.running
runs TaskStatus.running h = refl
runs TaskStatus.proposed h = absurd (cc)
runs TaskStatus.awaiting_confirmation h = absurd (cc)
runs TaskStatus.queued h = absurd (cc)
runs TaskStatus.succeeded h = absurd (cc)
runs TaskStatus.failed h = absurd (cc)
runs TaskStatus.canceled h = absurd (cc)
runs TaskStatus.expired h = absurd (cc)
runs TaskStatus.unknown h = absurd (cc)

-- An active task may start to run or be canceled, and was confirmed.
active :
    (st : TaskStatus)
    → is_active st ≡ true
    → (follows st TaskStatus.running ≡ true)
      × (follows st TaskStatus.canceled ≡ true)
      × (is_past_confirmation st ≡ true)
active TaskStatus.queued h = (refl, refl, refl)
active TaskStatus.running h = (refl, refl, refl)
active TaskStatus.proposed h = absurd (cc)
active TaskStatus.awaiting_confirmation h = absurd (cc)
active TaskStatus.succeeded h = absurd (cc)
active TaskStatus.failed h = absurd (cc)
active TaskStatus.canceled h = absurd (cc)
active TaskStatus.expired h = absurd (cc)
active TaskStatus.unknown h = absurd (cc)

advances-grows :
    (old new : Option ℤ) → is_given new ≡ true → advances old new ≡ true → grows old new ≡ true
advances-grows none new g h = refl
advances-grows (some a) none g h = absurd (cc)
advances-grows (some a) (some b) g h = ground arith

-- Nothing is above 100.
grows_full : (p : Option ℤ) → is_percentage p ≡ true → grows p (some (pos 100)) ≡ true
grows_full none h = refl
grows_full (some z) h = ground arith

module _ (lib : Library) (t : TaskRun) (sound : IsSound lib t) (e : ProviderEvent)
    (built : IsBuilt lib e) where
  status-IsChange :
      (st : TaskStatus) (code : Option String)
      → follows t.status st ≡ true
      → is_past_confirmation t.status ≡ true
      → optional_text code ≡ ok code
      → IsChange lib t (record t { status = st; error_code = code })
  status-IsChange st code edge past text = record {
    task_id = refl;
    descriptor = refl;
    request = refl;
    version = refl;
    updated_at = refl;
    confirmed_by = refl;
    edge = edge;
    past = past;
    progress = grows_refl t.progress;
    percentage = sound.readable.progress;
    media = sound.readable.media;
    error = text;
  }

  pub event_changes-IsChange :
      (kind : ProviderEventKind)
      → e.kind ≡ kind
      → (u : TaskRun) → event_changes t e kind ≡ ok u
      → IsChange lib t u
  unfolding event_changes
  event_changes-IsChange accepted k u h =
      on_require (is_active t.status) invalid_task_transition _ h λ a h1. rw (← ok-injective h1) (
        status-IsChange TaskStatus.running t.error_code (active t.status a).0 (active t.status a).2
          sound.readable.error_code)
  event_changes-IsChange progress k u h =
      on_require (is_running t.status) invalid_task_transition _ h λ r h1.
        on_require t.descriptor.supports_progress invalid_task_transition _ h1 λ _ h2.
          on_require (advances t.progress e.progress) invalid_task_transition _ h2 λ a h3.
            let given : is_given e.progress ≡ true = rw k at built.suited in
            rw (← ok-injective h3) (record {
              task_id = refl;
              descriptor = refl;
              request = refl;
              version = refl;
              updated_at = refl;
              confirmed_by = refl;
              edge = rw (runs t.status r) refl;
              past = rw (runs t.status r) refl;
              progress = advances-grows t.progress e.progress given a;
              percentage = built.percentage;
              media = sound.readable.media;
              error = sound.readable.error_code;
            })
  event_changes-IsChange succeeded k u h =
      on_require (is_running t.status) invalid_task_transition _ h λ r h1.
        on_ok (validate_output e.result t) _ h1 λ _ _ h2.
          on_require (are_allowed e.media t.descriptor.media_output_kinds) invalid_task_transition _
            h2
            λ _ h3. rw (← ok-injective h3) (record {
              task_id = refl;
              descriptor = refl;
              request = refl;
              version = refl;
              updated_at = refl;
              confirmed_by = refl;
              edge = rw (runs t.status r) refl;
              past = rw (runs t.status r) refl;
              progress = grows_full t.progress sound.readable.progress;
              percentage = refl;
              media = built.media;
              error = unfold optional_text in refl;
            })
  event_changes-IsChange failed k u h =
      on_require (is_running t.status) invalid_task_transition _ h λ r h1. rw (← ok-injective h1) (
        status-IsChange TaskStatus.failed e.error_code (rw (runs t.status r) refl)
          (rw (runs t.status r) refl) built.error)
  event_changes-IsChange canceled k u h =
      on_require (is_active t.status) invalid_task_transition _ h λ a h1. rw (← ok-injective h1) (
        status-IsChange TaskStatus.canceled t.error_code (active t.status a).1 (active t.status a).2
          sound.readable.error_code)

  late_changes-IsChange : (u : TaskRun) → IsChange lib t u → IsChange lib t (late_changes e u)
  late_changes-IsChange u c =
      elim (Bool-cases (leb_ℤ u.request.expires_at e.occurred_at && is_conclusion e.kind)) [
        | inr in_time ↦ rw in_time c
        | inl late ↦ rw late (record {
          task_id = c.task_id;
          descriptor = c.descriptor;
          request = c.request;
          version = c.version;
          updated_at = c.updated_at;
          confirmed_by = c.confirmed_by;
          edge = c.edge;
          past = c.past;
          progress = c.progress;
          percentage = c.percentage;
          media = c.media;
          error = c.error;
        })
      ]

  late_status : (u : TaskRun) → (late_changes e u).status ≡ u.status
  late_status u = ground arith

  later :
      (now before : ℤ)
      → not (ltb_ℤ now before) ≡ true
      → not (ltb_ℤ before (pos 0)) ≡ true
      → not (ltb_ℤ now (pos 0)) ≡ true
  later now before h k = ground arith

  change-IsReadable : (u : TaskRun) → IsChange lib t u → IsReadable lib u
  change-IsReadable u c = record {
    fields = rw c.descriptor sound.readable.fields;
    descriptor = rw c.descriptor sound.readable.descriptor;
    request = rw c.request sound.readable.request;
    media = c.media;
    progress = c.percentage;
    version = rw c.version sound.readable.version;
    updated_at = rw c.updated_at sound.readable.updated_at;
    task_id = rw c.task_id sound.readable.task_id;
    error_code = c.error;
    confirmed_by = rw c.confirmed_by sound.readable.confirmed_by;
  }

  change-Moves :
      (u : TaskRun)
      → IsChange lib t u
      → not (ltb_ℤ e.occurred_at (pos 0)) ≡ true
      → Moves lib t (transition u.status e.occurred_at u)
  unfolding transition
  change-Moves u c late = record {
    task_id = c.task_id;
    descriptor = c.descriptor;
    request = c.request;
    version = ap (λ (v : ℤ). v +ℤ pos 1) c.version;
    edge = c.edge;
    progress = c.progress;
    sound = record {
      readable = transition-IsReadable lib u.status e.occurred_at u late (change-IsReadable u c);
      confirmed = λ p req.
          c.confirmed_by
          ∙ sound.confirmed c.past (rw c.descriptor at req)
          ∙ ap (λ (q : CapabilityRequest). some q.requester_id) (sym c.request);
    };
  }

  pub event_update-Moves : (u : TaskRun) → event_update t e ≡ ok u → Moves lib t u
  unfolding event_update
  event_update-Moves u h =
      on_require (not (ltb_ℤ e.occurred_at t.updated_at)) invalid_task_transition _ h λ ordered h1.
        on_ok (event_changes t e e.kind) _ h1 λ changed hc h2.
          let c = late_changes-IsChange changed (event_changes-IsChange e.kind refl changed hc) in
          let time = later e.occurred_at t.updated_at ordered sound.readable.updated_at in
          let moved : Moves lib t
              (transition changed.status e.occurred_at (late_changes e changed)) =
            rw (late_status changed) at (change-Moves (late_changes e changed) c time) in
          rw (← ok-injective h2) moved

  pub apply_loaded-Acts : (s : TaskStore) → Acts lib t s (apply_loaded t e s)
  unfolding apply_loaded
  apply_loaded-Acts s = elim (Result-cases (event_update t e)) [
    | inl (u, h) ↦ rw h (saves u e.event_id _ _ e.occurred_at (event_update-Moves u h) refl)
    | inr (x, h) ↦ rw h (stays _ refl)
  ]
