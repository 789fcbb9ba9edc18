-- ===== src/Governor/Outcomes.antt =====
-- The outcomes of `SocialGovernor.decide` in groupmate/social_runtime/governor.py, case by case.
use mathlib.Core.List.{append-nil, append_assoc}
use astrbot_plugin_groupmate.Prelude.{
  ℤ, ◌≡◌, ◌≢◌, refl, sym, ap, ◌∙◌, inl, inr, Bool, true, false, not, Option, none, some, List, [],
  ◌∷◌, ◌++◌, map, any, all, keep, length, length-sort_by, Bool-cases, if◌then◌else◌, arith,
}
use astrbot_plugin_groupmate.Result.{Result, ok}
use astrbot_plugin_groupmate.Planning.Contracts.{is_in, is_nil}
use astrbot_plugin_groupmate.Governor.{
  Floats, CandidateIntention, RejectedIntention, GovernorContext, GovernorResult, check_result,
  active_constraints, hard_reasons, Screening, screen_one, screen, is_observe, reject_for,
  is_limited, utility, stays_before, rank, lost_reason, choose, decide_screened, decide,
}

module _ {F : Type 0} (c : GovernorContext F) where
  abbrev pub passes : CandidateIntention F → Bool
  passes i = is_nil (hard_reasons i c)

  abbrev pub hard_reject : CandidateIntention F → RejectedIntention
  hard_reject i = record { intention_id = i.intention_id; reason_codes = hard_reasons i c }

  passed :
      (i : CandidateIntention F) (st : Screening F)
      → passes i ≡ true
      → screen_one c i st ≡ record st { eligible = st.eligible ++ i ∷ [] }
  unfolding screen_one
  passed i st h = rw h refl

  failed :
      (i : CandidateIntention F) (st : Screening F)
      → passes i ≡ false
      → ((screen_one c i st).eligible ≡ st.eligible)
        × ((screen_one c i st).rejected ≡ st.rejected ++ hard_reject i ∷ [])
  unfolding screen_one
  failed i st h = (rw h refl, rw h refl)

  -- The loop sorts the candidates into those that pass the hard gates and the others.
  pub screen-sorts :
      (is : List (CandidateIntention F)) (st : Screening F)
      → ((screen c is st).eligible ≡ st.eligible ++ keep passes is)
        × ((screen c is st).rejected
            ≡ st.rejected ++ map hard_reject (keep (λ i. not (passes i)) is))
  unfolding screen keep
  screen-sorts [] st = (sym (append-nil st.eligible), sym (append-nil st.rejected))
  screen-sorts (i ∷ is) st =
      let (eligible, rejected) = screen-sorts is (screen_one c i st) in
      elim (Bool-cases (passes i)) [
        | inl p ↦
            let one = passed i st p in
            (
              rw p (
                  eligible
                  ∙ ap (λ (x : Screening F). x.eligible ++ keep passes is) one
                  ∙ append_assoc st.eligible (i ∷ []) (keep passes is)),
              rw p (
                  rejected
                  ∙ ap
                      (λ (x : Screening F).
                        x.rejected ++ map hard_reject (keep (λ j. not (passes j)) is))
                      one),
            )
        | inr p ↦
            let (same, more) = failed i st p in
            (
              rw p (eligible ∙ ap (λ x. x ++ keep passes is) same),
              rw p (
                  rejected
                  ∙ ap (λ x. x ++ map hard_reject (keep (λ j. not (passes j)) is)) more
                  ∙ append_assoc st.rejected (hard_reject i ∷ [])
                      (map hard_reject (keep (λ j. not (passes j)) is))),
            )
      ]

module _ (fl : Floats) (candidates : List (CandidateIntention fl.Float))
    (c : GovernorContext fl.Float) where
  abbrev pub eligible_of : List (CandidateIntention fl.Float)
  eligible_of = keep (passes c) candidates

  abbrev pub refused_of : List RejectedIntention
  refused_of = map (hard_reject c) (keep (λ i. not (passes c i)) candidates)

  -- How `decide` comes to its result.
  pub data Decision (x : Result GovernorResult) : Type 0 where
    forced :
        (r : GovernorResult)
        → x ≡ ok r
        → c.force_observe ≡ true
        → r.outcome ≡ "OBSERVE"
        → r.rejected ≡ map (reject_for "forced_observe") (keep (λ i. not (is_observe i)) candidates)
        → Decision x
    none_left :
        (r : GovernorResult)
        → x ≡ ok r
        → c.force_observe ≡ false
        → eligible_of ≡ []
        → r.outcome ≡ "SILENCE"
        → r.rejected ≡ refused_of
        → Decision x
    observing :
        (r : GovernorResult)
        → x ≡ ok r
        → c.force_observe ≡ false
        → all is_observe eligible_of ≡ true
        → r.outcome ≡ "OBSERVE"
        → r.rejected ≡ refused_of
        → Decision x
    deferring :
        (r : GovernorResult)
        → x ≡ ok r
        → c.force_observe ≡ false
        → all is_observe eligible_of ≡ false
        → is_limited c.rate_limited_until c.now ≡ true
        → r.outcome ≡ "DEFER"
        → r.rejected ≡ refused_of
        → r.reconsider_at ≡ c.rate_limited_until
        → Decision x
    too_low :
        (r : GovernorResult) (top : CandidateIntention fl.Float)
        (rest : List (CandidateIntention fl.Float))
        → x ≡ ok r
        → c.force_observe ≡ false
        → is_limited c.rate_limited_until c.now ≡ false
        → rank fl eligible_of ≡ top ∷ rest
        → fl.less (utility fl top) c.minimum_utility ≡ true
        → r.outcome ≡ "SILENCE"
        → r.rejected ≡ refused_of ++ map (reject_for "utility_below_threshold") (top ∷ rest)
        → Decision x
    acting :
        (r : GovernorResult) (top : CandidateIntention fl.Float)
        (rest : List (CandidateIntention fl.Float))
        → x ≡ ok r
        → c.force_observe ≡ false
        → is_limited c.rate_limited_until c.now ≡ false
        → rank fl eligible_of ≡ top ∷ rest
        → fl.less (utility fl top) c.minimum_utility ≡ false
        → r.outcome ≡ "ACT"
        → r.selected_intention_ids ≡ top.intention_id ∷ []
        → r.rejected ≡ refused_of ++ map (λ i. reject_for (lost_reason fl top i) i) rest
        → Decision x

  ranked_length :
      (is : List (CandidateIntention fl.Float))
      → length (rank fl is) ≡ length (keep (λ i. not (is_observe i)) is)
  unfolding rank
  ranked_length is = length-sort_by (stays_before fl) (keep (λ i. not (is_observe i)) is)

  someone_acts :
      (is : List (CandidateIntention fl.Float))
      → all is_observe is ≡ false
      → length (keep (λ i. not (is_observe i)) is) ≢ 0
  unfolding all keep
  someone_acts [] h = absurd (cc)
  someone_acts (i ∷ is) h = elim (Bool-cases (is_observe i)) [
    | inl o ↦ rw o (someone_acts is (rw o at h))
    | inr o ↦ rw o (λ e. absurd (omega arith))
  ]

  chosen :
      (st : Screening fl.Float) (ranked : List (CandidateIntention fl.Float))
      → c.force_observe ≡ false
      → is_limited c.rate_limited_until c.now ≡ false
      → st.rejected ≡ refused_of
      → rank fl eligible_of ≡ ranked
      → length ranked ≢ 0
      → Decision (choose fl c st ranked)
  unfolding choose check_result is_in any
  chosen st [] f l e r n = absurd (n refl)
  chosen st (top ∷ rest) f l e r n =
      elim (Bool-cases (fl.less (utility fl top) c.minimum_utility)) [
        | inl low ↦ rw low (
            too_low _ top rest refl f l r low refl
              (ap (λ x. x ++ map (reject_for "utility_below_threshold") (top ∷ rest)) e))
        | inr high ↦ rw high (
            acting _ top rest refl f l r high refl refl
              (ap (λ x. x ++ map (λ i. reject_for (lost_reason fl top i) i) rest) e))
      ]

  defers :
      (st : Screening fl.Float) (until : Option ℤ)
      → c.rate_limited_until ≡ until
      → c.force_observe ≡ false
      → all is_observe eligible_of ≡ false
      → is_limited until c.now ≡ true
      → st.rejected ≡ refused_of
      → Decision (
          check_result (record {
            outcome = "DEFER";
            selected_intention_ids = [];
            rejected = st.rejected;
            reason_codes = "rate_limited" ∷ [];
            reconsider_at = until;
            constraints = active_constraints c;
          }))
  unfolding check_result is_in any
  defers st none u f a l e = absurd (cc)
  defers st (some t) u f a l e = deferring _ refl f a (rw u l) refl e (sym u)

  decided :
      (st : Screening fl.Float)
      → c.force_observe ≡ false
      → st.eligible ≡ eligible_of
      → st.rejected ≡ refused_of
      → Decision (decide_screened fl c st)
  unfolding decide_screened choose
  decided st f same e = rw same (elim (Bool-cases (is_nil eligible_of)) [
    | inl empty ↦
        rw empty
          (unfold check_result is_in any in none_left _ refl f (nil_of eligible_of empty) refl e)
    | inr more ↦ rw more (elim (Bool-cases (all is_observe eligible_of)) [
      | inl watch ↦ rw watch (unfold check_result is_in any in observing _ refl f watch refl e)
      | inr act ↦ rw act (elim (Bool-cases (is_limited c.rate_limited_until c.now)) [
        | inl limited ↦ rw limited (defers st c.rate_limited_until refl f act limited e)
        | inr free ↦ rw free (
            chosen st (rank fl eligible_of) f free e refl
              (λ n. someone_acts eligible_of act (sym (ranked_length eligible_of) ∙ n)))
      ])
    ])
  ])
    where
      nil_of : {A : Type 0} (xs : List A) → is_nil xs ≡ true → xs ≡ []
      nil_of [] h = refl
      nil_of (x ∷ xs) h = absurd (cc)

  either_way :
      (b : Bool) {x y : Result GovernorResult}
      → (b ≡ true → Decision x)
      → (b ≡ false → Decision y)
      → Decision (if b then x else y)
  either_way true h k = h refl
  either_way false h k = k refl

  pub decide-Decision : Decision (decide fl candidates c)
  unfolding decide
  decide-Decision =
      let sorted =
        screen-sorts c candidates (record { rejected = []; eligible = []; reasons = [] }) in
      either_way c.force_observe (λ f. unfold check_result is_in any in forced _ refl f refl refl)
        (λ f.
          decided (screen c candidates (record { rejected = []; eligible = []; reasons = [] })) f
            sorted.0 sorted.1)
