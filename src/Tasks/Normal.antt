-- ===== src/Tasks/Normal.antt =====
-- `create` normalises: what it returns, it returns again unchanged.
use astrbot_plugin_groupmate.Prelude.{
  String, ◌≡◌, refl, ap, subst, not, ◌||◌, List, [], ◌∷◌, map, ltb_ℤ, pos,
}
use astrbot_plugin_groupmate.Result.{
  Result, ok, value_error, traverse, on_ok, on_require, then_ok, then_require, ok-injective,
}
use astrbot_plugin_groupmate.Delivery.Contracts.{distinct, optional_text}
use astrbot_plugin_groupmate.Delivery.Contracts.Normal.{delivery_text-normal, optional_text-normal}
use astrbot_plugin_groupmate.Tasks.Contracts.{
  Library, CapabilityDescriptor, CapabilityRequest, required_text, lower_text, create_descriptor,
  create_request, is_high_risk, requires_confirmation,
}

-- What `str.lower` is relied on for: lowering twice is lowering once, and it keeps a text that is
-- stripped and not empty so.
pub record IsLower (lib : Library) : Type 0 where
  pub idempotent : (s : String) → lib.lower (lib.lower s) ≡ lib.lower s
  pub keeps_text :
      (s : String) → required_text s ≡ ok s → required_text (lib.lower s) ≡ ok (lib.lower s)

module _ {A : Type 0} (f : A → Result A) where
  -- A list of results that are normal.
  pub traverse-normal :
      ((x y : A) → f x ≡ ok y → f y ≡ ok y)
      → (xs ys : List A) → traverse f xs ≡ ok ys
      → traverse f ys ≡ ok ys
  unfolding traverse
  traverse-normal n [] ys h = rw (← ok-injective h)
  traverse-normal n (x ∷ xs) ys h = on_ok (f x) _ h λ y hy h1.
      on_ok (traverse f xs) _ h1 λ rest hr h2.
        subst (λ zs. traverse f zs ≡ ok zs) (ok-injective h2)
          (then_ok _ (n x y hy) (then_ok _ (traverse-normal n xs rest hr) refl))

pub lower_text-normal :
    (lib : Library)
    → IsLower lib
    → (s t : String) → lower_text lib s ≡ ok t
    → lower_text lib t ≡ ok t
unfolding lower_text
lower_text-normal lib law s t h = on_ok (required_text s) _ h λ text ht h1.
    subst (λ z. lower_text lib z ≡ ok z) (ok-injective h1)
      (then_ok _ (law.keeps_text text (delivery_text-normal s text ht))
        (ap (λ z. ok z) (law.idempotent text)))

-- A descriptor that `create` returned, it returns again unchanged, where `lower` does what is relied
-- on; its schemas are those that were given.
pub create_descriptor-normal :
    (lib : Library)
    → IsLower lib
    → (d e : CapabilityDescriptor) → create_descriptor lib d ≡ ok e
    → (create_descriptor lib e ≡ ok e)
      × (e.input_schema ≡ d.input_schema)
      × (e.output_schema ≡ d.output_schema)
unfolding create_descriptor
create_descriptor-normal lib law d e h = on_ok (required_text d.capability_id) _ h λ c hc h1.
    on_ok (required_text d.provider_id) _ h1 λ p hp h2.
      on_require (distinct (map (λ f. f.name) d.input_schema)) value_error _ h2 λ c1 h3.
        on_require (distinct (map (λ f. f.name) d.output_schema)) value_error _ h3 λ c2 h4.
          on_ok (traverse required_text d.required_scopes) _ h4 λ scopes hs h5.
            on_require (distinct scopes) value_error _ h5 λ c3 h6.
              on_require (not (ltb_ℤ d.expected_latency_ms (pos 0))) value_error _ h6 λ c4 h7.
                on_ok (traverse (lower_text lib) d.media_output_kinds) _ h7 λ kinds hk h8.
                  on_require (distinct kinds) value_error _ h8 λ c5 h9.
                    on_require (not (is_high_risk d.risk_level) || requires_confirmation d)
                      value_error _ h9
                      λ c6 h10.
                        let same : record d {
                          capability_id = c;
                          provider_id = p;
                          required_scopes = scopes;
                          media_output_kinds = kinds;
                        }
                            ≡ e =
                          ok-injective h10 in
                        rw (← same) (
                          then_ok _ (delivery_text-normal _ _ hc) (
                              then_ok _ (delivery_text-normal _ _ hp) (
                                then_require value_error c1 (
                                  then_require value_error c2 (
                                    then_ok _
                                      (traverse-normal required_text delivery_text-normal _ _ hs)
                                      (then_require value_error c3 (
                                        then_require value_error c4 (
                                          then_ok _
                                            (traverse-normal (lower_text lib)
                                              (lower_text-normal lib law) _ _ hk)
                                            (then_require value_error c5
                                              (then_require value_error c6 refl))))))))),
                          refl,
                          refl,
                        )

-- A request that `create` returned, it returns again unchanged.
pub create_request-normal :
    (r q : CapabilityRequest) → create_request r ≡ ok q → create_request q ≡ ok q
unfolding create_request
create_request-normal r q h = on_ok (required_text r.requester_id) _ h λ a ha h1.
    on_ok (required_text r.persona_id) _ h1 λ p hp h2.
      on_ok (required_text r.group_id) _ h2 λ g hg h3.
        on_ok (required_text r.idempotency_key) _ h3 λ k hk h4.
          on_ok (required_text r.correlation_id) _ h4 λ c hc h5.
            on_ok (optional_text r.topic_id) _ h5 λ t ht h6.
              on_ok (traverse required_text r.authorization_scopes) _ h6 λ scopes hs h7.
                on_require (distinct scopes) value_error _ h7 λ c1 h8.
                  on_require (not (ltb_ℤ r.expires_at (pos 0))) value_error _ h8 λ c2 h9.
                    let same : record r {
                      requester_id = a;
                      persona_id = p;
                      group_id = g;
                      topic_id = t;
                      authorization_scopes = scopes;
                      idempotency_key = k;
                      correlation_id = c;
                    }
                        ≡ q =
                      ok-injective h9 in
                    rw (← same) (
                      then_ok _ (delivery_text-normal _ _ ha) (
                        then_ok _ (delivery_text-normal _ _ hp) (
                          then_ok _ (delivery_text-normal _ _ hg) (
                            then_ok _ (delivery_text-normal _ _ hk) (
                              then_ok _ (delivery_text-normal _ _ hc) (
                                then_ok _ (optional_text-normal _ _ ht) (
                                  then_ok _
                                    (traverse-normal required_text delivery_text-normal _ _ hs)
                                    (then_require value_error c1
                                      (then_require value_error c2 refl)))))))))
