-- ===== src/Delivery/Contracts/Normal.antt =====
-- `create` normalises: what it returns, it returns again unchanged.
use astrbot_plugin_groupmate.Prelude.{
  String, ◌≡◌, refl, sym, ap, Bool, true, false, Option, none, some, arith, strip, strip-strip,
  lower_codes, pos, ltb_ℤ, not, ◌||◌, ◌==◌, ◌∙◌, lstrip, rstrip, is_space, if◌then◌else◌, ◌⊎◌, inl,
  inr,
}
use astrbot_plugin_groupmate.Json.{sorted_fields}
use astrbot_plugin_groupmate.Json.Sorted.{sorted_fields-normal}
use astrbot_plugin_groupmate.Result.{
  ok, raise, on_ok, require, on_require, then_ok, then_require, ok-injective, require, value_error,
}
use astrbot_plugin_groupmate.Delivery.Contracts.{
  DeliveryPart, DeliveryReceipt, delivery_text, optional_text, normalize_role, is_some,
  validate_payload, create_part, create_receipt,
}

pub delivery_text-normal : (s t : String) → delivery_text s ≡ ok t → delivery_text t ≡ ok t
unfolding delivery_text
delivery_text-normal s t h =
    let same : t ≡ strip s = ground arith in rw same (rw (strip-strip s) (rw same at h))

pub optional_text-normal : (s t : Option String) → optional_text s ≡ ok t → optional_text t ≡ ok t
unfolding optional_text
optional_text-normal none t h = ground arith
optional_text-normal (some s) none h = ground arith
optional_text-normal (some s) (some t) h = ground (arith, delivery_text-normal s t)

abbrev IsRole : String → Type 0
IsRole t = (t ≡ "content") ⊎ (t ≡ "progress") ⊎ (t ≡ "result")

one_of_three :
    (a b c : Bool) (t : String)
    → (if a
        then ok "content"
        else if b
        then ok "progress"
        else if c
        then ok "result"
        else raise value_error)
      ≡ ok t
    → IsRole t
one_of_three true b c t h = inl (sym (ok-injective h))
one_of_three false true c t h = inr (inl (sym (ok-injective h)))
one_of_three false false true t h = inr (inr (sym (ok-injective h)))
one_of_three false false false t h = absurd (cc)

pub normalize_role-IsRole : (s t : String) → normalize_role s ≡ ok t → IsRole t
unfolding normalize_role
normalize_role-IsRole s t h = one_of_three _ _ _ t h

pub normalize_role-normal : (s t : String) → normalize_role s ≡ ok t → normalize_role t ≡ ok t
unfolding normalize_role
normalize_role-normal s t h = elim (normalize_role-IsRole s t h) [
  | inl e ↦ unfold strip lstrip rstrip is_space lower_codes in rw e
  | inr (inl e) ↦ unfold strip lstrip rstrip is_space lower_codes in rw e
  | inr (inr e) ↦ unfold strip lstrip rstrip is_space lower_codes in rw e
]

pub create_part-normal : (p q : DeliveryPart) → create_part p ≡ ok q → create_part q ≡ ok q
unfolding create_part
create_part-normal p q h = on_ok (delivery_text p.part_id) _ h λ a ha h1.
    on_require _ value_error _ h1 λ hb h2. on_ok (delivery_text p.idempotency_key) _ h2 λ c hc h3.
      on_require _ value_error _ h3 λ hd h4. on_ok (optional_text p.task_id) _ h4 λ t ht h5.
        on_ok (normalize_role p.role) _ h5 λ r hr h6. on_require _ value_error _ h6 λ he h7.
          on_ok (validate_payload p.kind (sorted_fields p.payload)) _ h7 λ u hu h8.
            let same : record p {
              part_id = a;
              payload = sorted_fields p.payload;
              idempotency_key = c;
              task_id = t;
              role = r;
            }
                ≡ q =
              ok-injective h8 in
            rw (← same) (
              then_ok _ (delivery_text-normal _ _ ha) (
                then_require value_error hb (
                  then_ok _ (delivery_text-normal _ _ hc) (
                    then_require value_error hd (
                      then_ok _ (optional_text-normal _ _ ht) (
                        then_ok _ (normalize_role-normal _ _ hr) (
                          then_require value_error he
                            (rw (sorted_fields-normal p.payload) (then_ok _ hu refl)))))))))

-- A receipt that `create` returned is created again unchanged.
pub create_receipt-normal :
    (r q : DeliveryReceipt) → create_receipt r ≡ ok q → create_receipt q ≡ ok q
unfolding create_receipt
create_receipt-normal r q h = on_ok (delivery_text r.receipt_id) _ h λ a ha h1.
    on_ok (delivery_text r.part_id) _ h1 λ b hb h2. on_require _ value_error _ h2 λ hc h3.
      on_ok (optional_text r.platform_message_id) _ h3 λ m hm h4.
        on_ok (optional_text r.error_code) _ h4 λ e he h5. on_require _ value_error _ h5 λ hd h6.
          let same : record r {
            receipt_id = a;
            part_id = b;
            platform_message_id = m;
            error_code = e;
          }
              ≡ q =
            ok-injective h6 in
          rw (← same) (
            then_ok _ (delivery_text-normal _ _ ha) (
              then_ok _ (delivery_text-normal _ _ hb) (
                then_require value_error hc (
                  then_ok _ (optional_text-normal _ _ hm)
                    (then_ok _ (optional_text-normal _ _ he) (then_require value_error hd refl))))))

-- The id of a created part is its own text.
pub create_part-part_id :
    (p q : DeliveryPart) → create_part p ≡ ok q → delivery_text p.part_id ≡ ok q.part_id
unfolding create_part
create_part-part_id p q h = on_ok (delivery_text p.part_id) _ h λ a ha h1.
    on_ok (require (not (ltb_ℤ p.order (pos 0))) value_error) _ h1 λ _ _ h2.
      on_ok (delivery_text p.idempotency_key) _ h2 λ c hc h3.
        on_ok (require (not (ltb_ℤ p.expires_at (pos 0))) value_error) _ h3 λ _ _ h4.
          on_ok (optional_text p.task_id) _ h4 λ t ht h5.
            on_ok (normalize_role p.role) _ h5 λ r hr h6.
              on_ok (require (r == "content" || is_some t) value_error) _ h6 λ _ _ h7.
                on_ok (validate_payload p.kind (sorted_fields p.payload)) _ h7 λ u hu h8.
                  let same : record p {
                    part_id = a;
                    payload = sorted_fields p.payload;
                    idempotency_key = c;
                    task_id = t;
                    role = r;
                  }
                      ≡ q =
                    ok-injective h8 in
                  ha ∙ ap (λ (x : DeliveryPart). ok x.part_id) same
