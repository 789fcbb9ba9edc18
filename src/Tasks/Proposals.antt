-- ===== src/Tasks/Proposals.antt =====
-- Calls of `propose` of groupmate/social_runtime/tasks/runtime.py that come again.
use astrbot_plugin_groupmate.Prelude.{
  ℕ, ℤ, pos, ltb_ℤ, String, ◌==◌, text_eq_refl, int_eq_iff, ite, not, ◌≡◌, refl, sym, ap, ◌∙◌, inl,
  inr, Bool, true, false, Option, none, some, List, [], ◌∷◌, ◌++◌, any, find, Bool-cases,
  Option-cases, find-snoc,
}
use astrbot_plugin_groupmate.Result.{
  Result, ok, ok-injective, value_error, unauthorized_capability, task_identity_conflict, traverse,
  require, require-true, on_ok, on_require,
}
use astrbot_plugin_groupmate.Json.{Fields}
use astrbot_plugin_groupmate.Exec.{Exec, pure, gets, on_lift, on_transaction, ◌>>=◌}
use astrbot_plugin_groupmate.Delivery.Contracts.{distinct, optional_text}
use astrbot_plugin_groupmate.Tasks.Contracts.{
  Library, CapabilityDescriptor, CapabilityDescriptor-discrete, CapabilityRequest, required_text,
  create_descriptor, create_request,
}
use astrbot_plugin_groupmate.Tasks.TaskRun.{TaskRun, propose_task, task_from_dict}
use astrbot_plugin_groupmate.Tasks.Payload.{validate_payload}
use astrbot_plugin_groupmate.Tasks.Store.{
  TaskRow, TaskEventRow, TaskStore, find_task, insert_task, insert_event,
}
use astrbot_plugin_groupmate.Tasks.Runtime.{
  task_id_of, covers, text_option_eq, texts_eq, bool_eq, same_request, same_content, task_row,
  proposed_event, insert_or_return, propose,
}
use astrbot_plugin_groupmate.Tasks.Sound.{task_from_dict_lem}
use astrbot_plugin_groupmate.Tasks.Normal.{IsLower}
use astrbot_plugin_groupmate.Tasks.Proposed.{
  HasFields, IsDigest, propose_task-task_id, propose_task-IsSound,
}

create_request-expires_at :
    (r q : CapabilityRequest) → create_request r ≡ ok q → q.expires_at ≡ r.expires_at
unfolding create_request
create_request-expires_at r q h = on_ok (required_text r.requester_id) _ h λ a ha h1.
    on_ok (required_text r.persona_id) _ h1 λ p hp h2.
      on_ok (required_text r.group_id) _ h2 λ g hg h3.
        on_ok (required_text r.idempotency_key) _ h3 λ k hk h4.
          on_ok (required_text r.correlation_id) _ h4 λ c hc h5.
            on_ok (optional_text r.topic_id) _ h5 λ t ht h6.
              on_ok (traverse required_text r.authorization_scopes) _ h6 λ scopes hs h7.
                on_require (distinct scopes) value_error _ h7 λ c1 h8.
                  on_require (not (ltb_ℤ r.expires_at (pos 0))) value_error _ h8
                    λ c2 h9. sym (ap (λ (x : CapabilityRequest). x.expires_at) (ok-injective h9))

text_option_eq_refl : (o : Option String) → text_option_eq o o ≡ true
text_option_eq_refl none = refl
text_option_eq_refl (some s) = text_eq_refl s

texts_eq_refl : (ss : List String) → texts_eq ss ss ≡ true
texts_eq_refl [] = refl
texts_eq_refl (s ∷ ss) = rw (text_eq_refl s) (texts_eq_refl ss)

bool_eq_refl : (b : Bool) → bool_eq b b ≡ true
bool_eq_refl true = refl
bool_eq_refl false = refl

descriptor_same :
    (d : CapabilityDescriptor) → ite (CapabilityDescriptor-discrete d d) true false ≡ true
descriptor_same d = by_decision (CapabilityDescriptor-discrete d d)
  where
    by_decision : (x : Dec (d ≡ d)) → ite x true false ≡ true
    by_decision (yes p) = refl
    by_decision (no p) = absurd (p refl)

propose_task-made :
    (id : String) (d : CapabilityDescriptor) (r : CapabilityRequest) (now : ℤ) (t : TaskRun)
    → propose_task id d r now ≡ ok t
    → (required_text id ≡ ok t.task_id) × (t.descriptor ≡ d) × (t.request ≡ r)
unfolding propose_task
propose_task-made id d r now t h =
    on_ok (required_text id) _ h λ name hn h1. rw (← ok-injective h1) (hn, refl, refl)

inserted :
    (lib : Library) (t0 t : TaskRun) (now : ℤ) (s s' : TaskStore)
    → find_task t0.task_id s ≡ none
    → insert_or_return lib t0.task_id t0 now none s ≡ (ok t, s')
    → (t0 ≡ t) × (find_task t0.task_id s' ≡ some (task_row t0))
unfolding insert_task insert_event find_task
inserted lib t0 t now s s' missing h =
    elim (Bool-cases (any (λ (r : TaskRow). r.task_id == t0.task_id) s.tasks)) [
      | inl clash ↦ absurd (cc (rw clash at h))
      | inr free ↦
          elim (Bool-cases (
            any (λ (r : TaskEventRow). r.event_id == (proposed_event t0.task_id t0 now).event_id)
              s.task_events)) [
                | inl used ↦ absurd (cc (rw used at (rw free at h)))
                | inr fresh ↦
                    let done = rw fresh at (rw free at h) in
                    let there : find (λ (r : TaskRow). r.task_id == t0.task_id)
                          (s.tasks ++ task_row t0 ∷ [])
                        ≡ some (task_row t0) =
                      find-snoc (λ (r : TaskRow). r.task_id) t0.task_id s.tasks (task_row t0)
                      ∙ rw missing (rw text_eq_refl refl) in
                    (
                      ok-injective (ap (λ (y : Result TaskRun × TaskStore). y.0) done),
                      rw (← ap (λ (y : Result TaskRun × TaskStore). y.1) done) there,
                    )
              ]
    ]

returned :
    (lib : Library) (t0 t : TaskRun) (now : ℤ) (s s' : TaskStore) (row : TaskRow)
    → insert_or_return lib t0.task_id t0 now (some row) s ≡ (ok t, s')
    → (s' ≡ s)
      × (task_from_dict lib row.task_json ≡ ok t)
      × (same_content lib t t0.descriptor t0.request ≡ true)
returned lib t0 t now s s' row h =
    on_lift (task_from_dict lib row.task_json) _ {s = s} h λ old read h1.
      on_lift (require (same_content lib old t0.descriptor t0.request) task_identity_conflict)
        (λ _. pure old) {s = s} h1
        λ _ hs h2.
          let value : old ≡ t = ok-injective (ap (λ (y : Result TaskRun × TaskStore). y.0) h2) in
          (
            sym (ap (λ (y : Result TaskRun × TaskStore). y.1) h2),
            rw (← value) read,
            rw (← value) (
                require-true (same_content lib old t0.descriptor t0.request) task_identity_conflict
                  hs),
          )

module _ (lib : Library) (same_payload_refl : (p : Fields) → lib.same_payload p p ≡ true) where
  same_request_refl : (r : CapabilityRequest) → same_request lib r r ≡ true
  unfolding same_request
  same_request_refl r =
      let same_time = (int_eq_iff r.expires_at r.expires_at).1 refl in
      simp (
        text_eq_refl, text_option_eq_refl, same_payload_refl, texts_eq_refl, same_time,
        bool_eq_refl,
      )

  -- The call when the task is stored.
  propose_stored :
      (given d : CapabilityDescriptor) (given_request r : CapabilityRequest) (now : ℕ) (id : String)
      (s : TaskStore) (row : TaskRow) (t : TaskRun)
      → create_descriptor lib given ≡ ok d
      → create_request given_request ≡ ok r
      → covers r.authorization_scopes d.required_scopes ≡ true
      → validate_payload r.input_payload d.input_schema ≡ ok tt
      → ltb_ℤ (pos now) r.expires_at ≡ true
      → required_text (task_id_of lib d r) ≡ ok id
      → id ≡ task_id_of lib d r
      → find_task id s ≡ some row
      → task_from_dict lib row.task_json ≡ ok t
      → same_content lib t d r ≡ true
      → propose lib given given_request (pos now) s ≡ (ok t, s)
  unfolding propose propose_task
  propose_stored given d given_request r now id s row t hd hr hc hp ht hid named found read same =
      let there : find_task (task_id_of lib d r) s ≡ some row =
        ap (λ i. find_task i s) (sym named) ∙ found in
      rw hd (rw hr (rw hc (rw hp (rw ht (rw hid (rw there (rw read (rw same refl))))))))

  -- A proposal that was accepted and comes again before the request expires returns the same task and
  -- leaves the tables, where a payload equals itself, `lower` and the digest do what is relied on, and
  -- the fields of the descriptor were built.
  pub propose_again :
      IsLower lib
      → IsDigest lib
      → (given : CapabilityDescriptor) (given_request : CapabilityRequest) (now later : ℕ)
        (s s' : TaskStore) (t : TaskRun)
      → HasFields lib given
      → propose lib given given_request (pos now) s ≡ (ok t, s')
      → ltb_ℤ (pos later) given_request.expires_at ≡ true
      → propose lib given given_request (pos later) s' ≡ (ok t, s')
  unfolding propose
  propose_again law digest given given_request now later s s' t fields h in_time =
      on_lift (create_descriptor lib given) _ {s = s} h λ d hd h1.
        on_lift (create_request given_request) _ {s = s} h1 λ r hr h2.
          on_lift
            (require (covers r.authorization_scopes d.required_scopes) unauthorized_capability) _
            {s = s} h2
            λ _ hc h3.
              on_lift (validate_payload r.input_payload d.input_schema) _ {s = s} h3 λ _ hp h4.
                on_lift (require (ltb_ℤ (pos now) r.expires_at) value_error) _ {s = s} h4 λ _ ht h5.
                  on_lift (propose_task (task_id_of lib d r) d r (pos now)) _ {s = s} h5
                    λ t0 ht0 h6.
                      let sound =
                        (propose_task-IsSound lib law (task_id_of lib d r) given d given_request r
                          now t0 fields hd hr ht0).0 in
                      let time : ltb_ℤ (pos later) r.expires_at ≡ true =
                        rw (create_request-expires_at given_request r hr) in_time in
                      let (made, about_d, about_r) =
                        propose_task-made (task_id_of lib d r) d r (pos now) t0 ht0 in
                      let named = propose_task-task_id lib digest d r (pos now) t0 ht0 in
                      let again =
                        λ (s2 : TaskStore) (row : TaskRow)
                            (found : find_task t0.task_id s2 ≡ some row)
                            (read : task_from_dict lib row.task_json ≡ ok t)
                            (same : same_content lib t d r ≡ true).
                          propose_stored given d given_request r later t0.task_id s2 row t hd hr
                            (require-true _ unauthorized_capability hc) hp time made named found
                            read same in
                      let body : Exec TaskStore TaskRun = (do
                        row ← gets (find_task t0.task_id)
                        insert_or_return lib t0.task_id t0 (pos now) row) in
                      on_transaction body {s = s} (rw (← named) at h6) λ h7.
                        elim (Option-cases (find_task t0.task_id s)) [
                          | inl missing ↦
                              let (value, found) =
                                inserted lib t0 t (pos now) s s' missing (rw missing at h7) in
                              let same : same_content lib t0 d r ≡ true = rw (← about_d) (
                                rw (← about_r) (
                                  rw (descriptor_same t0.descriptor)
                                    (same_request_refl t0.request))) in
                              again s' (task_row t0) found
                                (task_from_dict_lem lib t0 sound.readable ∙ ap (λ x. ok x) value)
                                (rw (← value) same)
                          | inr (row, found) ↦
                              let (still, read, same) =
                                returned lib t0 t (pos now) s s' row (rw found at h7) in
                              again s' row (ap (find_task t0.task_id) still ∙ found) read
                                (rw (← about_d) (rw (← about_r) same))
                        ]
