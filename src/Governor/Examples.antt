-- ===== src/Governor/Examples.antt =====
-- The theorems of the governor at two candidates, with integers for floats.
use astrbot_plugin_groupmate.Prelude.{
  ℤ, pos, pos_part, neg_part, sub_ℕ, ◌+ℤ◌, int_eq, ltb_ℤ, ◌≡◌, ◌↔◌, refl, true, false, not, ◌&&◌,
  none, some, List, [], ◌∷◌, ◌++◌, all, any, keep, sort_by, insert_by, arith,
}
use astrbot_plugin_groupmate.Result.{ok}
use astrbot_plugin_groupmate.Planning.Contracts.{is_in}
use astrbot_plugin_groupmate.Governor.{
  Floats, CandidateIntention, RejectedIntention, GovernorContext, GovernorResult, check_result,
  active_constraints, extend_unique, hard_reasons, screen, screen_one, utility, key_less, rank,
  choose, decide_screened, decide,
}
use astrbot_plugin_groupmate.Governor.Ranking.{IsFloatOrder}
use astrbot_plugin_groupmate.Governor.Outcomes.{refused_of}
use astrbot_plugin_groupmate.Governor.Chosen.{
  IsChosen, IsPutOff, decide-returns, decide_acts, decide_rejects, decide_defers,
}

abbrev neg_ℤ : ℤ → ℤ
neg_ℤ a = sub_ℕ (neg_part a) (pos_part a)

abbrev integers : Floats
integers = record {
  Float = ℤ;
  add = ◌+ℤ◌;
  sub = λ a b. a +ℤ neg_ℤ b;
  neg = neg_ℤ;
  equal = int_eq;
  less = ltb_ℤ;
}

asym_lem : (x y : ℤ) → ltb_ℤ x y ≡ true → ltb_ℤ y x ≡ false
asym_lem x y h = ground arith

trans_lem : (x y z : ℤ) → ltb_ℤ x y ≡ false → ltb_ℤ y z ≡ false → ltb_ℤ x z ≡ false
trans_lem x y z h k = ground arith

equal_lem : (x y : ℤ) → int_eq x y ≡ (not (ltb_ℤ x y) && not (ltb_ℤ y x))
equal_lem x y = ground arith

neg_lem : (x y : ℤ) → ltb_ℤ (neg_ℤ x) (neg_ℤ y) ≡ ltb_ℤ y x
neg_lem x y = ground arith

integers-IsFloatOrder : IsFloatOrder integers
integers-IsFloatOrder = record {
  asym = asym_lem;
  trans = trans_lem;
  equal_is = equal_lem;
  neg_less = neg_lem;
}

abbrev help : CandidateIntention ℤ
help = record {
  intention_id = "help";
  kind = "HELP";
  target_id = some "ann";
  topic_id = none;
  evidence_event_ids = "e1" ∷ [];
  proposed_act = "answer";
  obligation = pos 3;
  relevance = pos 2;
  relational_value = pos 0;
  continuity_value = pos 0;
  novelty = pos 0;
  urgency = pos 0;
  persona_fit = pos 1;
  state_fit = pos 1;
  information_gain = pos 0;
  disruption_cost = pos 1;
  uncertainty_cost = pos 0;
  repetition_cost = pos 0;
  resource_cost = pos 0;
  risk = pos 0;
  expires_at = pos 9;
  anchor_event_id = none;
  continue_from_event_id = none;
}

abbrev play : CandidateIntention ℤ
play = record help { intention_id = "play"; kind = "PLAY"; obligation = pos 0 }

abbrev late : CandidateIntention ℤ
late = record help { intention_id = "late"; expires_at = pos 1 }

abbrev context : GovernorContext ℤ
context = record {
  now = pos 1;
  scene_version = pos 1;
  allowed_target_ids = "ann" ∷ [];
  allowed_topic_ids = [];
  privacy_allowed = true;
  boundary_active = false;
  paused = false;
  platform_available = true;
  capability_allowed = false;
  force_observe = false;
  rate_limited_until = none;
  minimum_utility = pos 2;
}

abbrev limited : GovernorContext ℤ
limited = record context { rate_limited_until = some (pos 7) }

abbrev too_late : RejectedIntention
too_late = record { intention_id = "late"; reason_codes = "candidate_expired" ∷ [] }

abbrev acted : GovernorResult
acted = record {
  outcome = "ACT";
  selected_intention_ids = "help" ∷ [];
  rejected = too_late ∷ record { intention_id = "play"; reason_codes = "lower_utility" ∷ [] } ∷ [];
  reason_codes = "selected_by_social_utility" ∷ [];
  reconsider_at = none;
  constraints = "hard_gate_v1" ∷ [];
}

abbrev deferred : GovernorResult
deferred = record {
  outcome = "DEFER";
  selected_intention_ids = [];
  rejected = too_late ∷ [];
  reason_codes = "rate_limited" ∷ [];
  reconsider_at = some (pos 7);
  constraints = "hard_gate_v1" ∷ [];
}

acts : decide integers (play ∷ late ∷ help ∷ []) context ≡ ok acted
unfolding decide decide_screened choose check_result is_in any all keep rank sort_by insert_by
    key_less utility screen screen_one hard_reasons extend_unique active_constraints ◌+ℤ◌
acts = refl

defers : decide integers (play ∷ late ∷ help ∷ []) limited ≡ ok deferred
unfolding decide decide_screened choose check_result is_in any all keep rank sort_by insert_by
    key_less utility screen screen_one hard_reasons extend_unique active_constraints ◌+ℤ◌
defers = refl

decide-returns_example :
    (r : GovernorResult) × (decide integers (play ∷ late ∷ help ∷ []) context ≡ ok r)
decide-returns_example = decide-returns integers (play ∷ late ∷ help ∷ []) context

decide_acts_example : IsChosen integers (play ∷ late ∷ help ∷ []) context acted
decide_acts_example =
    decide_acts integers (play ∷ late ∷ help ∷ []) context integers-IsFloatOrder acted acts refl

decide_rejects_example :
    (others : List RejectedIntention) × (acted.rejected
      ≡ refused_of integers (play ∷ late ∷ help ∷ []) context ++ others)
decide_rejects_example = decide_rejects integers (play ∷ late ∷ help ∷ []) context acted acts refl

decide_defers_example : (deferred.outcome ≡ "DEFER") ↔ (
    IsPutOff integers (play ∷ late ∷ help ∷ []) limited
    × (deferred.reconsider_at ≡ limited.rate_limited_until))
decide_defers_example = decide_defers integers (play ∷ late ∷ help ∷ []) limited deferred defers
