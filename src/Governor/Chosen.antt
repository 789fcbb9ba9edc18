-- ===== src/Governor/Chosen.antt =====
-- What `SocialGovernor.decide` of groupmate/social_runtime/governor.py returns, and when.
use mathlib.Core.List.{append-nil}
use astrbot_plugin_groupmate.Prelude.{
  Among, ℤ, ltb_ℤ, leb_ℤ, ◌&&◌, String, ◌==◌, ◌≡◌, refl, sym, ap, ◌∙◌, ◌⊎◌, ◌↔◌, inl, inr, Bool,
  true, false, not, ◌||◌, List, [], ◌∷◌, ◌++◌, all, keep, insert_by, map, sort_by, All, All-map_of,
  all-sort_by, text_eq, subst, Bool-cases, arith,
}
use astrbot_plugin_groupmate.Result.{Result, ok, ok-injective}
use astrbot_plugin_groupmate.Planning.Contracts.{is_in, is_nil}
use astrbot_plugin_groupmate.Governor.{
  Floats, CandidateIntention, RejectedIntention, GovernorContext, GovernorResult, reject_for,
  lost_reason, hard_reasons, reason_if, is_outside, is_observe, is_limited, utility, stays_before,
  rank, decide,
}
use astrbot_plugin_groupmate.Governor.Ranking.{IsFloatOrder, top_best, ranked_IsOrdered}
use astrbot_plugin_groupmate.Governor.Outcomes.{
  passes, eligible_of, refused_of, Decision, forced, none_left, observing, deferring, too_low,
  acting, decide-Decision,
}

module _ {A : Type 0} where
  Among-keep :
      (p : A → Bool) (x : A) (xs : List A) → Among x (keep p xs) → Among x xs × (p x ≡ true)
  unfolding keep
  Among-keep p x [] m = absurd m
  Among-keep p x (y ∷ ys) m = elim (Bool-cases (p y)) [
    | inl hit ↦ here_or_behind hit (Among-keep p x ys) (rw hit at m)
    | inr miss ↦ let (there, h) = Among-keep p x ys (rw miss at m) in (inr there, h)
  ]
    where
      here_or_behind :
          p y ≡ true
          → (Among x (keep p ys) → Among x ys × (p x ≡ true))
          → (x ≡ y) ⊎ Among x (keep p ys)
          → ((x ≡ y) ⊎ Among x ys) × (p x ≡ true)
      here_or_behind hit ih (inl e) = (inl e, rw e hit)
      here_or_behind hit ih (inr m) = let (there, h) = ih m in (inr there, h)

  Among-insert_by :
      (le : A → A → Bool) (x y : A) (ys : List A)
      → Among x (insert_by le y ys)
      → (x ≡ y) ⊎ Among x ys
  unfolding insert_by
  Among-insert_by le x y [] m = m
  Among-insert_by le x y (z ∷ zs) m = elim (Bool-cases (le y z)) [
    | inl first ↦ rw first at m
    | inr after ↦ behind (Among-insert_by le x y zs) (rw after at m)
  ]
    where
      behind :
          (Among x (insert_by le y zs) → (x ≡ y) ⊎ Among x zs)
          → (x ≡ z) ⊎ Among x (insert_by le y zs)
          → (x ≡ y) ⊎ ((x ≡ z) ⊎ Among x zs)
      behind ih (inl e) = inr (inl e)
      behind ih (inr m) = elim (ih m) [ inl e ↦ inl e | inr there ↦ inr (inr there) ]

  Among-sort_by : (le : A → A → Bool) (x : A) (xs : List A) → Among x (sort_by le xs) → Among x xs
  unfolding sort_by
  Among-sort_by le x [] m = m
  Among-sort_by le x (y ∷ ys) m = elim (Among-insert_by le x y (sort_by le ys) m) [
    | inl e ↦ inl e
    | inr there ↦ inr (Among-sort_by le x ys there)
  ]

  all-keep : (p q : A → Bool) (xs : List A) → all p (keep q xs) ≡ all (λ x. not (q x) || p x) xs
  unfolding all keep
  all-keep p q [] = refl
  all-keep p q (x ∷ xs) = ground (arith, all-keep p q xs)

  all-keep-not :
      (p g : A → Bool) (xs : List A) → all p (keep (λ x. not (g x)) xs) ≡ all (λ x. g x || p x) xs
  unfolding all keep
  all-keep-not p g [] = refl
  all-keep-not p g (x ∷ xs) = ground (arith, all-keep-not p g xs)

  all_none : (p : A → Bool) → all p [] ≡ true
  unfolding all
  all_none p = refl

  all_of_All : (p : A → Bool) (xs : List A) → All (λ x. p x ≡ true) xs → all p xs ≡ true
  unfolding all
  all_of_All p [] h = refl
  all_of_All p (x ∷ xs) h = rw h.0 (all_of_All p xs h.1)

nil_reason :
    (b : Bool) (reason : String) (rest : List String)
    → is_nil (reason_if b reason ++ rest) ≡ true
    → (b ≡ false) × (is_nil rest ≡ true)
nil_reason true reason rest h = absurd (cc)
nil_reason false reason rest h = (refl, h)

-- What every hard gate lets through.
pub record IsOpen {F : Type 0} (i : CandidateIntention F) (c : GovernorContext F) : Type 0 where
  pub running : c.paused ≡ false
  pub available : c.platform_available ≡ true
  pub privacy : (c.privacy_allowed || i.kind == "BOUNDARY") ≡ true
  pub boundary : (not c.boundary_active || is_in i.kind ("BOUNDARY" ∷ "OBSERVE" ∷ [])) ≡ true
  pub in_time : ltb_ℤ c.now i.expires_at ≡ true
  pub target : is_outside i.target_id c.allowed_target_ids ≡ false
  pub topic : is_outside i.topic_id c.allowed_topic_ids ≡ false
  pub capability :
      (not (is_in i.kind ("CAPABILITY" ∷ "ACCEPT_TASK" ∷ [])) || c.capability_allowed) ≡ true

in_time_of : (a b : ℤ) → leb_ℤ a b ≡ false → ltb_ℤ b a ≡ true
in_time_of a b h = ground arith

hard_reasons-IsOpen :
    {F : Type 0} (i : CandidateIntention F) (c : GovernorContext F)
    → is_nil (hard_reasons i c) ≡ true
    → IsOpen i c
unfolding hard_reasons
hard_reasons-IsOpen i c h =
    let (running, h1) = nil_reason c.paused "runtime_paused" _ h in
    let (available, h2) = nil_reason (not c.platform_available) "platform_unavailable" _ h1 in
    let (privacy, h3) =
      nil_reason (not c.privacy_allowed && not (i.kind == "BOUNDARY")) "privacy_blocked" _ h2 in
    let (boundary, h4) =
      nil_reason (c.boundary_active && not (is_in i.kind ("BOUNDARY" ∷ "OBSERVE" ∷ [])))
        "boundary_active" _ h3 in
    let (in_time, h5) = nil_reason (leb_ℤ i.expires_at c.now) "candidate_expired" _ h4 in
    let (target, h6) =
      nil_reason (is_outside i.target_id c.allowed_target_ids) "wrong_target" _ h5 in
    let (topic, h7) = nil_reason (is_outside i.topic_id c.allowed_topic_ids) "wrong_topic" _ h6 in
    let (capability, h8) =
      nil_reason (is_in i.kind ("CAPABILITY" ∷ "ACCEPT_TASK" ∷ []) && not c.capability_allowed)
        "capability_not_allowed" [] (rw append-nil h7) in
    record {
      running = running;
      available = ground arith;
      privacy = ground arith;
      boundary = ground arith;
      in_time = in_time_of i.expires_at c.now in_time;
      target = target;
      topic = topic;
      capability = ground arith;
    }

module _ (fl : Floats) (candidates : List (CandidateIntention fl.Float))
    (c : GovernorContext fl.Float) where
  -- Whether another candidate may stand against the chosen one: it is refused, it only observes, or
  -- its utility is not more.
  abbrev pub is_no_better : CandidateIntention fl.Float → CandidateIntention fl.Float → Bool
  is_no_better top i =
      not (is_nil (hard_reasons i c))
      || (is_observe i || not (fl.less (utility fl top) (utility fl i)))

  -- The one candidate that was chosen.
  pub record IsChosen (r : GovernorResult) : Type 0 where
    pub top : CandidateIntention fl.Float
    pub given : Among top candidates
    pub selected : r.selected_intention_ids ≡ top.intention_id ∷ []
    pub gates : IsOpen top c
    pub acts : is_observe top ≡ false
    pub enough : fl.less (utility fl top) c.minimum_utility ≡ false
    pub best : all (is_no_better top) candidates ≡ true
    pub free : is_limited c.rate_limited_until c.now ≡ false
    pub unforced : c.force_observe ≡ false

  -- `decide` always returns: none of the checks of its result fails.
  pub decide-returns : (r : GovernorResult) × (decide fl candidates c ≡ ok r)
  decide-returns = by_case (decide-Decision fl candidates c)
    where
      by_case :
          {x : Result GovernorResult}
          → Decision fl candidates c x
          → (r : GovernorResult) × (x ≡ ok r)
      by_case (forced r e _ _ _) = (r, e)
      by_case (none_left r e _ _ _ _) = (r, e)
      by_case (observing r e _ _ _ _) = (r, e)
      by_case (deferring r e _ _ _ _ _ _) = (r, e)
      by_case (too_low r _ _ e _ _ _ _ _ _) = (r, e)
      by_case (acting r _ _ e _ _ _ _ _ _ _) = (r, e)

  not-true : (b : Bool) → not b ≡ true → b ≡ false
  not-true true h = sym h
  not-true false h = refl

  irreflexive : IsFloatOrder fl → (x : fl.Float) → fl.less x x ≡ false
  irreflexive law x = elim (Bool-cases (fl.less x x)) [ inl h ↦ law.asym x x h | inr h ↦ h ]

  top_sound :
      IsFloatOrder fl
      → (r : GovernorResult) (top : CandidateIntention fl.Float)
        (rest : List (CandidateIntention fl.Float))
      → rank fl (eligible_of fl candidates c) ≡ top ∷ rest
      → fl.less (utility fl top) c.minimum_utility ≡ false
      → r.selected_intention_ids ≡ top.intention_id ∷ []
      → is_limited c.rate_limited_until c.now ≡ false
      → c.force_observe ≡ false
      → IsChosen r
  unfolding rank
  top_sound law r top rest ranked enough selected free unforced =
      let acting_ones = keep (λ i. not (is_observe i)) (eligible_of fl candidates c) in
      let first : Among top (sort_by (stays_before fl) acting_ones) = rw ranked (inl refl) in
      let (eligible, acts) =
        Among-keep _ top (eligible_of fl candidates c)
          (Among-sort_by (stays_before fl) top acting_ones first) in
      let (given, gates) = Among-keep (passes c) top candidates eligible in
      let below : All (λ j. fl.less (utility fl top) (utility fl j) ≡ false) rest =
        top_best fl law top rest (rw ranked at (ranked_IsOrdered fl law acting_ones)) in
      let fair : CandidateIntention fl.Float → Bool =
        λ j. not (fl.less (utility fl top) (utility fl j)) in
      let all_fair : all fair (sort_by (stays_before fl) acting_ones) ≡ true = rw ranked (
        all_of_All fair (top ∷ rest)
          (rw (irreflexive law (utility fl top)) refl, All-map_of (λ j e. rw e refl) rest below)) in
      record {
        top = top;
        given = given;
        selected = selected;
        gates = hard_reasons-IsOpen top c gates;
        acts = not-true (is_observe top) acts;
        enough = enough;
        best =
            sym (all-keep (λ j. is_observe j || fair j) (passes c) candidates)
            ∙ sym (all-keep-not fair is_observe (eligible_of fl candidates c))
            ∙ sym (all-sort_by (stays_before fl) fair acting_ones)
            ∙ all_fair;
        free = free;
        unforced = unforced;
      }

  -- When `decide` acts, it selects one candidate: one of those that were given, which passes every hard
  -- gate, does more than observe, and reaches the least utility, and no other candidate that passes the
  -- gates and does more than observe has more utility; it was not forced to observe, nor limited.
  pub decide_acts :
      IsFloatOrder fl
      → (r : GovernorResult) → decide fl candidates c ≡ ok r
      → r.outcome ≡ "ACT"
      → IsChosen r
  decide_acts law r h act = by_case (decide-Decision fl candidates c) h
    where
      other :
          (o : String) (q : GovernorResult) {x : Result GovernorResult}
          → x ≡ ok q
          → x ≡ ok r
          → q.outcome ≡ o
          → (o == "ACT") ≡ false
          → IsChosen r
      other o q e k is differs =
          let same : o ≡ "ACT" =
            sym is ∙ ap (λ (y : GovernorResult). y.outcome) (ok-injective (sym e ∙ k)) ∙ act in
          absurd (cc (sym differs ∙ (text_eq o "ACT").1 same))

      by_case : {x : Result GovernorResult} → Decision fl candidates c x → x ≡ ok r → IsChosen r
      by_case (forced q e _ o _) k = other "OBSERVE" q e k o refl
      by_case (none_left q e _ _ o _) k = other "SILENCE" q e k o refl
      by_case (observing q e _ _ o _) k = other "OBSERVE" q e k o refl
      by_case (deferring q e _ _ _ o _ _) k = other "DEFER" q e k o refl
      by_case (too_low q _ _ e _ _ _ _ o _) k = other "SILENCE" q e k o refl
      by_case (acting q top rest e f l ranked enough o selected _) k =
          subst IsChosen (ok-injective (sym e ∙ k))
            (top_sound law q top rest ranked enough selected l f)

  -- Unless it is forced to observe, `decide` rejects every candidate that a hard gate stops, with all
  -- its reasons and in the order that was given, before it rejects any other.
  pub decide_rejects :
      (r : GovernorResult)
      → decide fl candidates c ≡ ok r
      → c.force_observe ≡ false
      → (others : List RejectedIntention) × (r.rejected ≡ refused_of fl candidates c ++ others)
  decide_rejects r h free = by_case (decide-Decision fl candidates c) h
    where
      stopped : List RejectedIntention
      stopped = refused_of fl candidates c

      with_others :
          (q : GovernorResult) (others : List RejectedIntention) {x : Result GovernorResult}
          → x ≡ ok q
          → x ≡ ok r
          → q.rejected ≡ stopped ++ others
          → (others : List RejectedIntention) × (r.rejected ≡ stopped ++ others)
      with_others q others e k h =
          (others, sym (ap (λ (y : GovernorResult). y.rejected) (ok-injective (sym e ∙ k))) ∙ h)

      by_case :
          {x : Result GovernorResult}
          → Decision fl candidates c x
          → x ≡ ok r
          → (others : List RejectedIntention) × (r.rejected ≡ stopped ++ others)
      by_case (forced q e f _ _) k = absurd (cc (sym f ∙ free))
      by_case (none_left q e _ _ _ h) k = with_others q [] e k (h ∙ sym (append-nil stopped))
      by_case (observing q e _ _ _ h) k = with_others q [] e k (h ∙ sym (append-nil stopped))
      by_case (deferring q e _ _ _ _ h _) k = with_others q [] e k (h ∙ sym (append-nil stopped))
      by_case (too_low q top rest e _ _ _ _ _ h) k =
          with_others q (map (reject_for "utility_below_threshold") (top ∷ rest)) e k h
      by_case (acting q top rest e _ _ _ _ _ _ h) k =
          with_others q (map (λ i. reject_for (lost_reason fl top i) i) rest) e k h

  -- What makes `decide` put its decision off: nothing forces it to observe, some candidate that passes
  -- the hard gates does more than observe, and a rate limit is still on.
  abbrev pub IsPutOff : Type 0
  IsPutOff =
      (c.force_observe ≡ false)
      × (all is_observe (eligible_of fl candidates c) ≡ false)
      × (is_limited c.rate_limited_until c.now ≡ true)

  -- `decide` defers exactly when it is not forced to observe, some candidate that passes the hard gates
  -- does more than observe, a rate limit is still on, and it asks to be called when that ends.
  pub decide_defers :
      (r : GovernorResult)
      → decide fl candidates c ≡ ok r
      → (r.outcome ≡ "DEFER") ↔ (IsPutOff × (r.reconsider_at ≡ c.rate_limited_until))
  decide_defers r h = by_case (decide-Decision fl candidates c) h
    where
      Deferral : Type 0
      Deferral = (r.outcome ≡ "DEFER") ↔ (IsPutOff × (r.reconsider_at ≡ c.rate_limited_until))

      never :
          (o : String) (q : GovernorResult) {x : Result GovernorResult}
          → x ≡ ok q
          → x ≡ ok r
          → q.outcome ≡ o
          → (o == "DEFER") ≡ false
          → (IsPutOff → ⊥)
          → Deferral
      never o q e k is differs no_limit =
          let is_other : r.outcome ≡ "DEFER" → ⊥ = λ d. cc (
            sym differs
            ∙ (text_eq o "DEFER").1
                (sym is ∙ ap (λ (y : GovernorResult). y.outcome) (ok-injective (sym e ∙ k)) ∙ d)) in
          (λ d. absurd (is_other d), λ p. absurd (no_limit p.0))

      by_case : {x : Result GovernorResult} → Decision fl candidates c x → x ≡ ok r → Deferral
      by_case (forced q e f o _) k = never "OBSERVE" q e k o refl (λ p. cc (sym f ∙ p.0))
      by_case (none_left q e f nil o _) k =
          never "SILENCE" q e k o refl (λ p. cc (all_none is_observe, rw nil at p.1))
      by_case (observing q e f watch o _) k =
          never "OBSERVE" q e k o refl (λ p. cc (sym watch ∙ p.1))
      by_case (deferring q e f act limited o _ until) k =
          let same = ok-injective (sym e ∙ k) in
          let asks : r.reconsider_at ≡ c.rate_limited_until =
            sym (ap (λ (y : GovernorResult). y.reconsider_at) same) ∙ until in
          (
            λ d. ((f, act, limited), asks),
            λ p. sym (ap (λ (y : GovernorResult). y.outcome) same) ∙ o,
          )
      by_case (too_low q _ _ e _ l _ _ o _) k = never "SILENCE" q e k o refl (λ p. cc (sym l ∙ p.2))
      by_case (acting q _ _ e _ l _ _ o _ _) k = never "ACT" q e k o refl (λ p. cc (sym l ∙ p.2))
