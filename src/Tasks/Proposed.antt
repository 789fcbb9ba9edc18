-- ===== src/Tasks/Proposed.antt =====
-- `propose` of groupmate/social_runtime/tasks/runtime.py keeps the tables consistent.
use astrbot_plugin_groupmate.Prelude.{
  ℕ, suc, ℤ, pos, ltb_ℤ, String, ◌==◌, text_eq, ◌≡◌, refl, sym, ap, ◌∙◌, true, false, none, some,
  [], ◌∷◌, ◌++◌, any, find, All-append, Bool-cases, Option-cases, inl, inr, if◌then◌else◌,
  snoc-IsKeyed, find-snoc, any_of_find, count-snoc, length, keep, arith, or_else, or_else-none,
}
use astrbot_plugin_groupmate.Result.{
  ok, value_error, require, traverse, on_ok, then_ok, ok-injective, unauthorized_capability,
  Result-cases,
}
use astrbot_plugin_groupmate.Exec.{after_lift}
use astrbot_plugin_groupmate.Delivery.Contracts.Normal.{delivery_text-normal}
use astrbot_plugin_groupmate.Delivery.Contracts.{optional_text}
use astrbot_plugin_groupmate.Tasks.Contracts.{
  Library, CapabilityDescriptor, CapabilityRequest, required_text, create_field, create_descriptor,
  create_request,
}
use astrbot_plugin_groupmate.Tasks.TaskRun.{
  TaskRun, propose_task, descriptor_from_dict, task_from_dict,
}
use astrbot_plugin_groupmate.Tasks.Payload.{validate_payload}
use astrbot_plugin_groupmate.Tasks.Store.{
  TaskRow, TaskEventRow, TaskStore, find_task, insert_task, insert_event,
}
use astrbot_plugin_groupmate.Tasks.Runtime.{
  task_id_of, covers, same_content, task_row, proposed_event, propose,
}
use astrbot_plugin_groupmate.Tasks.Sound.{IsSound}
use astrbot_plugin_groupmate.Tasks.Normal.{IsLower, create_descriptor-normal, create_request-normal}
use astrbot_plugin_groupmate.Tasks.History.{start}
use astrbot_plugin_groupmate.Tasks.Consistent.{
  IsRow, events_of, version_of, IsConsistent, Extends, Extends-refl,
}

-- A descriptor whose fields `CapabilityField.create` has built.
pub record HasFields (lib : Library) (d : CapabilityDescriptor) : Type 0 where
  pub input : traverse (create_field lib) d.input_schema ≡ ok d.input_schema
  pub output : traverse (create_field lib) d.output_schema ≡ ok d.output_schema

pub propose_task-IsSound :
    (lib : Library)
    → IsLower lib
    → (id : String) (given d : CapabilityDescriptor) (given_request r : CapabilityRequest) (now : ℕ)
      (t : TaskRun)
    → HasFields lib given
    → create_descriptor lib given ≡ ok d
    → create_request given_request ≡ ok r
    → propose_task id d r (pos now) ≡ ok t
    → IsSound lib t × (t.version ≡ pos 1)
unfolding propose_task
propose_task-IsSound lib law id given d given_request r now t fields hd hr h =
    on_ok (required_text id) _ h λ name hn h1.
      let (normal, input, output) = create_descriptor-normal lib law given d hd in
      let inputs : traverse (create_field lib) d.input_schema ≡ ok d.input_schema =
        rw input fields.input in
      let outputs : traverse (create_field lib) d.output_schema ≡ ok d.output_schema =
        rw output fields.output in
      let read_fields : descriptor_from_dict lib d ≡ ok d =
        unfold descriptor_from_dict in then_ok _ inputs (then_ok _ outputs normal) in
      rw (← ok-injective h1) (
        record {
          readable = record {
            fields = read_fields;
            descriptor = normal;
            request = create_request-normal given_request r hr;
            media = unfold traverse in refl;
            progress = refl;
            version = refl;
            updated_at = ground arith;
            task_id = delivery_text-normal id name hn;
            error_code = unfold optional_text in refl;
            confirmed_by = unfold optional_text in refl;
          };
          confirmed = λ p req. absurd (cc);
        },
        refl,
      )

module _ (lib : Library) (t : TaskRun) (s : TaskStore) (c : IsConsistent lib s)
    (event : TaskEventRow) (of_task : event.task_id ≡ t.task_id) where
  added : TaskStore
  added = record { tasks = s.tasks ++ task_row t ∷ []; task_events = s.task_events ++ event ∷ [] }

  -- A new task with its first event.
  added-Extends :
      find_task t.task_id s ≡ none → IsSound lib t → t.version ≡ pos 1 → Extends lib s added
  unfolding find_task added
  added-Extends missing sound v = record {
    consistent = record {
      keyed =
          snoc-IsKeyed (λ (r : TaskRow). r.task_id) s.tasks (task_row t)
            (any_of_find (λ (r : TaskRow). r.task_id) t.task_id s.tasks missing) c.keyed;
      rows =
          All-append (IsRow lib) s.tasks (task_row t ∷ []) c.rows
            (record { repeats = refl; sound = sound }, tt);
      counted = λ id. elim (Bool-cases (t.task_id == id)) [
        | inl hit ↦
            let here : find (λ (r : TaskRow). r.task_id == id) s.tasks ≡ none =
              rw (← (text_eq t.task_id id).0 hit) missing in
            let row : find (λ (r : TaskRow). r.task_id == id) (s.tasks ++ task_row t ∷ [])
                ≡ some (task_row t) =
              find-snoc (λ (r : TaskRow). r.task_id) id s.tasks (task_row t)
              ∙ rw here (rw hit refl) in
            let more : (event.task_id == id) ≡ true = rw of_task hit in
            let now : length
                  (keep (λ (r : TaskEventRow). r.task_id == id) (s.task_events ++ event ∷ []))
                ≡ suc (events_of id s) =
              count-snoc (λ (x : TaskEventRow). x.task_id) id s.task_events event ∙ rw more refl in
            let before : pos (events_of id s) ≡ pos 0 = c.counted id ∙ ap version_of here in
            let one : pos (suc (events_of id s)) ≡ pos 1 = ground arith in
            ap pos now ∙ one ∙ sym v ∙ sym (ap version_of row)
        | inr miss ↦
            let row : find (λ (r : TaskRow). r.task_id == id) (s.tasks ++ task_row t ∷ [])
                ≡ find (λ (r : TaskRow). r.task_id == id) s.tasks =
              find-snoc (λ (r : TaskRow). r.task_id) id s.tasks (task_row t)
              ∙ ap
                  (λ b.
                    or_else (find (λ (r : TaskRow). r.task_id == id) s.tasks)
                      (if b then some (task_row t) else none))
                  miss
              ∙ (or_else-none (find (λ (r : TaskRow). r.task_id == id) s.tasks)) in
            let same : (event.task_id == id) ≡ false = rw of_task miss in
            let now : length
                  (keep (λ (r : TaskEventRow). r.task_id == id) (s.task_events ++ event ∷ []))
                ≡ events_of id s =
              count-snoc (λ (x : TaskEventRow). x.task_id) id s.task_events event ∙ rw same refl in
            ap pos now ∙ c.counted id ∙ sym (ap version_of row)
      ];
    };
    histories = λ id r e.
        (r, find-snoc (λ (r : TaskRow). r.task_id) id s.tasks (task_row t) ∙ rw e refl, start);
  }

-- What SHA-256's `hexdigest` is relied on for: an id has no white space at its ends to strip.
pub record IsDigest (lib : Library) : Type 0 where
  pub text :
      (d : CapabilityDescriptor) (r : CapabilityRequest)
      → required_text (task_id_of lib d r) ≡ ok (task_id_of lib d r)

pub propose_task-task_id :
    (lib : Library)
    → IsDigest lib
    → (d : CapabilityDescriptor) (r : CapabilityRequest) (now : ℤ) (t : TaskRun)
    → propose_task (task_id_of lib d r) d r now ≡ ok t
    → t.task_id ≡ task_id_of lib d r
unfolding propose_task
propose_task-task_id lib digest d r now t h =
    on_ok (required_text (task_id_of lib d r)) _ h λ name hn h1.
      sym (ap (λ (x : TaskRun). x.task_id) (ok-injective h1))
      ∙ ok-injective (sym hn ∙ digest.text d r)

pub propose-Extends :
    (lib : Library)
    → IsLower lib
    → IsDigest lib
    → (given : CapabilityDescriptor) (given_request : CapabilityRequest) (now : ℕ) (s : TaskStore)
    → HasFields lib given
    → IsConsistent lib s
    → Extends lib s (propose lib given given_request (pos now) s).1
unfolding propose insert_task insert_event added
propose-Extends lib law digest given given_request now s fields c =
    let same = Extends-refl lib s c in
    after_lift (Extends lib s) (create_descriptor lib given) _ s same λ d hd.
      after_lift (Extends lib s) (create_request given_request) _ s same λ r hr.
        after_lift (Extends lib s)
          (require (covers r.authorization_scopes d.required_scopes) unauthorized_capability) _ s
          same
          λ _ _.
            after_lift (Extends lib s) (validate_payload r.input_payload d.input_schema) _ s same
              λ _ _.
                after_lift (Extends lib s) (require (ltb_ℤ (pos now) r.expires_at) value_error) _ s
                  same
                  λ _ _.
                    after_lift (Extends lib s) (propose_task (task_id_of lib d r) d r (pos now)) _ s
                      same
                      λ t ht.
                        let (sound, first) =
                          propose_task-IsSound lib law (task_id_of lib d r) given d given_request r
                            now t fields hd hr ht in
                        let named = propose_task-task_id lib digest d r (pos now) t ht in
                        rw (← named) (elim (Option-cases (find_task t.task_id s)) [
                          | inl missing ↦
                              let free : any (λ (x : TaskRow). x.task_id == t.task_id) s.tasks
                                  ≡ false =
                                unfold find_task in
                                any_of_find (λ (x : TaskRow). x.task_id) t.task_id s.tasks
                                  missing in
                              rw missing (
                                rw free
                                  (elim (Bool-cases (
                                    any
                                      (λ x.
                                        x.event_id
                                        == (proposed_event t.task_id t (pos now)).event_id)
                                      s.task_events)) [
                                        | inl used ↦ rw used same
                                        | inr fresh ↦ rw fresh (
                                            added-Extends lib t s c
                                              (proposed_event t.task_id t (pos now)) refl missing
                                              sound first)
                                      ]))
                          | inr (row, there) ↦
                              rw there (elim (Result-cases (task_from_dict lib row.task_json)) [
                                | inr (x, e) ↦ rw e same
                                | inl (old, e) ↦
                                    rw e
                                      (elim (Bool-cases
                                        (same_content lib old t.descriptor t.request)) [
                                          | inl repeated ↦ rw repeated same
                                          | inr conflict ↦ rw conflict same
                                        ])
                              ])
                        ])
