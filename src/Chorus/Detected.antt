-- ===== src/Chorus/Detected.antt =====
-- What evidence `detect` of groupmate/social_runtime/chorus.py gives is backed by.
use astrbot_plugin_groupmate.Prelude.{
  ◌≤◌, leb, String, ◌==◌, is_empty, strip, ◌≡◌, refl, ap, ◌∙◌, inl, inr, Bool, true, not, ◌&&◌,
  ◌||◌, none, some, List, [], ◌∷◌, ◌++◌, any, keep, find, sort_by, sort_by-All, length, All,
  All-map, All-map_of, All-append, Bool-cases, Option-cases, arith, subst, text_eq,
}
use astrbot_plugin_groupmate.Result.{
  ok, value_error, require, traverse, on_ok, on_require, require-true, ok-injective, ◌>>=◌,
}
use astrbot_plugin_groupmate.Planning.Contracts.{is_in}
use astrbot_plugin_groupmate.Governor.{extend_unique}
use astrbot_plugin_groupmate.Prelude.{Among}
use astrbot_plugin_groupmate.Chorus.{
  SceneEventFact, ChorusEvidence, Texts, ChorusDetector, required, unique, or_text, create_evidence,
  text_or_empty, content_key, is_eligible, is_in_window, is_candidate, matching_events,
  comes_before, chain_id_of, payload_of, participants_of, evidence_of, detect_from, detect,
}

extend_unique-All :
    (P : String → Type 0) (xs vs : List String) → All P xs → All P vs → All P (extend_unique xs vs)
unfolding extend_unique
extend_unique-All P xs [] h k = h
extend_unique-All P xs (v ∷ vs) h k = elim (Bool-cases (is_in v xs)) [
  | inl old ↦ rw old (extend_unique-All P xs vs h k.1)
  | inr new ↦
      rw new (extend_unique-All P (xs ++ v ∷ []) vs (All-append P xs (v ∷ []) h (k.0, tt)) k.1)
]

keep_texts-All :
    (P : String → Type 0) (p : String → Bool) (xs : List String) → All P xs → All P (keep p xs)
unfolding keep
keep_texts-All P p [] h = tt
keep_texts-All P p (x ∷ xs) h = elim (Bool-cases (p x)) [
  | inl hit ↦ rw hit (h.0, keep_texts-All P p xs h.1)
  | inr miss ↦ rw miss (keep_texts-All P p xs h.1)
]

required_lem : (x y : String) → required x ≡ ok y → strip x ≡ y
required_lem x y h =
    on_require (not (is_empty (strip x))) value_error (ok (strip x)) h λ _ k. ok-injective k

-- The texts that are required are those that were given, stripped.
required-All :
    (P Q : String → Type 0)
    → ((x : String) → P x → Q (strip x))
    → (xs : List String) {ys : List String} → traverse required xs ≡ ok ys
    → All P xs
    → All Q ys
unfolding traverse
required-All P Q f [] h k = subst (All Q) (ok-injective h) tt
required-All P Q f (x ∷ xs) h k = on_ok (required x) _ h λ y e h'.
    on_ok (traverse required xs) _ h' λ zs e' h''.
      subst (All Q) (ok-injective h'')
        (subst Q (required_lem x y e) (f x k.0), required-All P Q f xs e' k.1)

among_all :
    {A : Type 0} (ys xs : List A) → ((x : A) → Among x xs → Among x ys) → All (λ x. Among x ys) xs
among_all ys [] f = tt
among_all ys (x ∷ xs) f = (f x (inl refl), among_all ys xs λ z m. f z (inr m))

module _ (t : Texts) (d : ChorusDetector) (persona_actor_id : String) (events : List SceneEventFact)
    (source : SceneEventFact) (key : String) where
  -- An event of the scene that repeats the source.
  pub record Repeats (item : SceneEventFact) : Type 0 where
    pub given : Among item events
    pub eligible : is_eligible t d item persona_actor_id ≡ true
    pub in_window : is_in_window t d source item ≡ true
    pub same : content_key t item ≡ ok key

  matching_events-Repeats :
      (xs : List SceneEventFact) {ys : List SceneEventFact}
      → matching_events t d persona_actor_id source key xs ≡ ok ys
      → All (λ x. Among x events) xs
      → All Repeats ys
  unfolding matching_events
  matching_events-Repeats [] h k = subst (All Repeats) (ok-injective h) tt
  matching_events-Repeats (x ∷ xs) {ys} h k =
      elim (Bool-cases (is_candidate t d persona_actor_id source key x)) [
        | inr other ↦ matching_events-Repeats xs (rw other at h) k.1
        | inl hit ↦ on_ok (content_key t x) _ (rw hit at h) λ found e h'.
            on_ok (matching_events t d persona_actor_id source key xs) _ h' λ zs e' h''.
              subst (All Repeats) (ok-injective h'') (elim (Bool-cases (found == key)) [
                | inl same ↦ rw same (
                  record {
                    given = k.0;
                    eligible = ground arith;
                    in_window = ground arith;
                    same = e ∙ ap ok ((text_eq found key).0 same);
                  },
                  matching_events-Repeats xs e' k.1,
                )
                | inr differs ↦ rw differs (matching_events-Repeats xs e' k.1)
              ])
      ]

module _ (t : Texts) (e : ChorusEvidence) {r : ChorusEvidence}
    (h : create_evidence t e ≡ ok r) where
  -- What the checks of an evidence keep of its ids: a property of the given ones, and two of each.
  create_evidence-keeps :
      (P Q E M : String → Type 0)
      → ((x : String) → P x → E (strip x))
      → ((x : String) → Q x → M (strip x))
      → All P e.event_ids
      → All Q e.participant_ids
      → (2 ≤ length r.event_ids)
        × (2 ≤ length r.participant_ids)
        × All E r.event_ids
        × All M r.participant_ids
  unfolding create_evidence
  create_evidence-keeps P Q E M f g k l = on_ok (required e.chain_id) _ h λ chain_id _ h1.
      on_ok (required e.payload) _ h1 λ payload _ h2.
        on_ok (required e.normalized_key) _ h2 λ normalized_key _ h3.
          on_ok
            (require
              (is_in (or_text (t.upper (strip (or_text e.kind "TEXT"))) "TEXT")
                ("TEXT" ∷ "STICKER" ∷ []))
              value_error)
            _ h3
            λ _ _ h4. on_ok (traverse required e.event_ids) _ h4 λ event_ids ids h5.
              on_ok (traverse required e.participant_ids) _ h5 λ participant_ids members h6.
                on_ok
                  (require
                    (leb 2 (length (unique event_ids)) && leb 2 (length (unique participant_ids)))
                    value_error)
                  _ h6
                  λ _ checked h7.
                    let two : (leb 2 (length (unique event_ids))
                          && leb 2 (length (unique participant_ids)))
                        ≡ true =
                      require-true _ value_error checked in
                    subst
                      (λ (x : ChorusEvidence).
                        (2 ≤ length x.event_ids)
                        × (2 ≤ length x.participant_ids)
                        × All E x.event_ids
                        × All M x.participant_ids)
                      (ok-injective h7)
                      (
                        ground arith,
                        ground arith,
                        extend_unique-All E [] event_ids tt (required-All P E f e.event_ids ids k),
                        extend_unique-All M [] participant_ids tt
                            (required-All Q M g e.participant_ids members l),
                      )

module _ (t : Texts) (d : ChorusDetector) (group_id persona_actor_id : String)
    (joined_chain_ids : List String) (events : List SceneEventFact) where
  -- The evidence of a chorus: its source repeats itself, each event is of an event that repeats it, and
  -- each member is the actor of one.
  pub record IsChorus (source : SceneEventFact) (e : ChorusEvidence) : Type 0 where
    pub key : String
    pub key_of : content_key t source ≡ ok key
    pub two_events : 2 ≤ length e.event_ids
    pub two_members : 2 ≤ length e.participant_ids
    pub repeated :
        All
          (λ id.
            (item : SceneEventFact) × Repeats t d persona_actor_id events source key item
            × (strip item.event_id ≡ id))
          e.event_ids
    pub said :
        All
          (λ id.
            (item : SceneEventFact) × Repeats t d persona_actor_id events source key item
            × (strip (text_or_empty item.actor_id) ≡ id))
          e.participant_ids

  evidence_of-IsChorus :
      (source : SceneEventFact) (key : String) (matching : List SceneEventFact) {e : ChorusEvidence}
      → content_key t source ≡ ok key
      → All (Repeats t d persona_actor_id events source key) matching
      → evidence_of t d group_id persona_actor_id joined_chain_ids source key matching ≡ ok (some e)
      → IsChorus source e
  unfolding evidence_of
  evidence_of-IsChorus source key matching {e} c m h =
      elim (Bool-cases (
        not (any (λ item. item.event_id == source.event_id) matching)
        || not (leb 2 (length (participants_of matching))))) [
          | inl few ↦ absurd (nothing (rw few at h))
          | inr enough ↦
              on_ok (chain_id_of t group_id key matching) _ (rw enough at h) λ chain_id _ h1.
                on_ok (payload_of t source) _ h1 λ payload _ h2.
                  on_ok (create_evidence t _) _ h2 λ made k h3.
                    subst (IsChorus source) (same_evidence (ok-injective h3)) (
                      from_kept made (
                        create_evidence-keeps t _ k
                          (λ x.
                            (item : SceneEventFact) × Repeats t d persona_actor_id events source key
                              item
                            × (item.event_id ≡ x))
                          (λ x.
                            (item : SceneEventFact) × Repeats t d persona_actor_id events source key
                              item
                            × (text_or_empty item.actor_id ≡ x))
                          _ _ (λ x (item, r, same). (item, r, ap strip same))
                          (λ x (item, r, same). (item, r, ap strip same))
                          (All-map _ (λ item. item.event_id) matching
                            (All-map_of (λ item r. (item, r, refl)) matching m))
                          (extend_unique-All _ [] _ tt (
                            keep_texts-All _ (λ id. not (is_empty id)) _
                              (All-map _ (λ item. text_or_empty item.actor_id) matching
                                (All-map_of (λ item r. (item, r, refl)) matching m))))))
        ]
    where
      nothing : ok none ≡ ok (some e) → ⊥
      nothing h = absurd (cc)

      same_evidence : {x : ChorusEvidence} → some x ≡ some e → x ≡ e
      same_evidence h = cc

      from_kept :
          (x : ChorusEvidence)
          → (2 ≤ length x.event_ids)
            × (2 ≤ length x.participant_ids)
            × All
                (λ id.
                  (item : SceneEventFact) × Repeats t d persona_actor_id events source key item
                  × (strip item.event_id ≡ id))
                x.event_ids
            × All
                (λ id.
                  (item : SceneEventFact) × Repeats t d persona_actor_id events source key item
                  × (strip (text_or_empty item.actor_id) ≡ id))
                x.participant_ids
          → IsChorus source x
      from_kept x (two, members, ids, actors) = record {
        key = key;
        key_of = c;
        two_events = two;
        two_members = members;
        repeated = ids;
        said = actors;
      }

  -- Evidence that detect gives has the named source, which is eligible itself, and at least two events
  -- and two members: each of its event ids is of a given event that is eligible, within the window up to
  -- the source and of the source's content, and each member is the actor of such an event.
  pub detect_sound :
      (source_event_id : String) {e : ChorusEvidence}
      → detect t d group_id persona_actor_id joined_chain_ids events source_event_id ≡ ok (some e)
      → (source : SceneEventFact) × (find (λ item. item.event_id == source_event_id) events
          ≡ some source)
        × (is_eligible t d source persona_actor_id ≡ true)
        × IsChorus source e
  unfolding detect
  detect_sound source_event_id {e} h =
      elim (Option-cases (find (λ item. item.event_id == source_event_id) events)) [
        | inl missing ↦ absurd (nothing (rw missing at h))
        | inr (source, found) ↦
            let (fit, chorus) = of_source source (rw found at h) in (source, found, fit, chorus)
      ]
    where
      nothing : ok none ≡ ok (some e) → ⊥
      nothing h = absurd (cc)

      with_key :
          (source : SceneEventFact) (key : String)
          → content_key t source ≡ ok key
          → (matching_events t d persona_actor_id source key events >>= λ matching.
              evidence_of t d group_id persona_actor_id joined_chain_ids source key
                (sort_by comes_before matching))
            ≡ ok (some e)
          → IsChorus source e
      with_key source key c h =
          on_ok (matching_events t d persona_actor_id source key events) _ h λ matching m h'.
            evidence_of-IsChorus source key (sort_by comes_before matching) c
              (sort_by-All comes_before _ matching (
                matching_events-Repeats t d persona_actor_id events source key events m
                  (among_all events events λ x m. m)))
              h'

      of_source :
          (source : SceneEventFact)
          → detect_from t d group_id persona_actor_id joined_chain_ids events (some source)
            ≡ ok (some e)
          → (is_eligible t d source persona_actor_id ≡ true) × IsChorus source e
      of_source source h = elim (Bool-cases (is_eligible t d source persona_actor_id)) [
        | inr barred ↦ absurd (nothing (rw barred at h))
        | inl fit ↦ (
          fit,
          on_ok (content_key t source) _ (rw fit at h) λ key c h'.
              elim (Bool-cases (is_empty key)) [
                | inl blank ↦ absurd (nothing (rw blank at h'))
                | inr given ↦ with_key source key c (rw given at h')
              ],
        )
      ]
