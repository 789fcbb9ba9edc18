-- ===== src/Governor.antt =====
-- `SocialGovernor` of groupmate/social_runtime/governor.py, and the candidates that it chooses from, of
-- groupmate/social_runtime/intentions.py. The floats of the utility are a parameter: a type with the
-- operations that the code uses.
pub mod Ranking
pub mod Outcomes
pub mod Chosen
pub mod Examples
use astrbot_plugin_groupmate.Prelude.{
  text_leb, ℤ, ltb_ℤ, leb_ℤ, pos, String, ◌==◌, is_empty, any, all, keep, sort_by, ite, Bool, true,
  false, not, ◌&&◌, ◌||◌, Option, none, some, List, [], ◌∷◌, ◌++◌, map, if◌then◌else◌,
}
use astrbot_plugin_groupmate.Result.{Exception, Result, ok, value_error, require, ◌>>=◌, ◌>>◌}
use astrbot_plugin_groupmate.Planning.Contracts.{is_in, is_nil}

-- Python's finite floats: the arithmetic and the comparisons.
pub record Floats : Type 1 where
  pub Float : Type 0
  pub add : Float → Float → Float
  pub sub : Float → Float → Float
  pub neg : Float → Float
  pub equal : Float → Float → Bool
  pub less : Float → Float → Bool

pub record CandidateIntention (F : Type 0) : Type 0 where
  pub intention_id : String
  pub kind : String
  pub target_id : Option String
  pub topic_id : Option String
  pub evidence_event_ids : List String
  pub proposed_act : String
  pub obligation : F
  pub relevance : F
  pub relational_value : F
  pub continuity_value : F
  pub novelty : F
  pub urgency : F
  pub persona_fit : F
  pub state_fit : F
  pub information_gain : F
  pub disruption_cost : F
  pub uncertainty_cost : F
  pub repetition_cost : F
  pub resource_cost : F
  pub risk : F
  pub expires_at : ℤ
  pub anchor_event_id : Option String
  pub continue_from_event_id : Option String

pub record RejectedIntention : Type 0 where
  pub intention_id : String
  pub reason_codes : List String

pub record GovernorContext (F : Type 0) : Type 0 where
  pub now : ℤ
  pub scene_version : ℤ
  pub allowed_target_ids : List String
  pub allowed_topic_ids : List String
  pub privacy_allowed : Bool
  pub boundary_active : Bool
  pub paused : Bool
  pub platform_available : Bool
  pub capability_allowed : Bool
  pub force_observe : Bool
  pub rate_limited_until : Option ℤ
  pub minimum_utility : F

pub record GovernorResult : Type 0 where
  pub outcome : String
  pub selected_intention_ids : List String
  pub rejected : List RejectedIntention
  pub reason_codes : List String
  pub reconsider_at : Option ℤ
  pub constraints : List String

abbrev pub is_present {ℓ} : {A : Type ℓ} → Option A → Bool
is_present none = false
is_present (some a) = true

-- `GovernorResult.__post_init__`
unfoldable pub check_result : GovernorResult → Result GovernorResult
unfolding is_in any
check_result r = do
  require (is_in r.outcome ("ACT" ∷ "DEFER" ∷ "OBSERVE" ∷ "SILENCE" ∷ [])) value_error
  require (not (r.outcome == "ACT" && is_nil r.selected_intention_ids)) value_error
  require (not (not (r.outcome == "ACT") && not (is_nil r.selected_intention_ids))) value_error
  require (not (r.outcome == "DEFER" && not (is_present r.reconsider_at))) value_error
  require (not (not (r.outcome == "DEFER") && is_present r.reconsider_at)) value_error
  ok r

-- `_active_constraints`
unfoldable pub active_constraints : {F : Type 0} → GovernorContext F → List String
active_constraints c =
    "hard_gate_v1"
    ∷ ((if c.paused then "runtime_paused" ∷ [] else [])
        ++ (if c.boundary_active then "boundary_active" ∷ [] else [])
        ++ (if not c.privacy_allowed then "privacy_blocked" ∷ [] else []))

-- `_extend_unique`
unfoldable pub extend_unique : List String → List String → List String
unfolding is_in any
extend_unique target [] = target
extend_unique target (v ∷ vs) =
    extend_unique (if is_in v target then target else target ++ v ∷ []) vs

-- whether an id is given and not among those that are allowed
abbrev pub is_outside : Option String → List String → Bool
is_outside none allowed = false
is_outside (some id) allowed = not (is_empty id) && not (is_in id allowed)

abbrev pub reason_if : Bool → String → List String
reason_if b reason = if b then reason ∷ [] else []

-- `_hard_reasons`
unfoldable pub hard_reasons : {F : Type 0} → CandidateIntention F → GovernorContext F → List String
unfolding is_in any
hard_reasons i c =
    reason_if c.paused "runtime_paused"
    ++ (reason_if (not c.platform_available) "platform_unavailable"
        ++ (reason_if (not c.privacy_allowed && not (i.kind == "BOUNDARY")) "privacy_blocked"
            ++ (reason_if (c.boundary_active && not (is_in i.kind ("BOUNDARY" ∷ "OBSERVE" ∷ [])))
                  "boundary_active"
                ++ (reason_if (leb_ℤ i.expires_at c.now) "candidate_expired"
                    ++ (reason_if (is_outside i.target_id c.allowed_target_ids) "wrong_target"
                        ++ (reason_if (is_outside i.topic_id c.allowed_topic_ids) "wrong_topic"
                            ++ reason_if
                                (is_in i.kind ("CAPABILITY" ∷ "ACCEPT_TASK" ∷ [])
                                  && not c.capability_allowed)
                                "capability_not_allowed"))))))

-- the lists that the loop over the candidates fills
pub record Screening (F : Type 0) : Type 0 where
  pub rejected : List RejectedIntention
  pub eligible : List (CandidateIntention F)
  pub reasons : List String

-- one round of that loop
unfoldable pub screen_one :
    {F : Type 0} → GovernorContext F → CandidateIntention F → Screening F → Screening F
screen_one c i st =
    if is_nil (hard_reasons i c)
    then record st { eligible = st.eligible ++ i ∷ [] }
    else record st {
      rejected =
          st.rejected
          ++ record { intention_id = i.intention_id; reason_codes = hard_reasons i c } ∷ [];
      reasons = extend_unique st.reasons (hard_reasons i c);
    }

unfoldable pub screen :
    {F : Type 0} → GovernorContext F → List (CandidateIntention F) → Screening F → Screening F
screen c [] st = st
screen c (i ∷ is) st = screen c is (screen_one c i st)

abbrev pub is_observe : {F : Type 0} → CandidateIntention F → Bool
is_observe i = i.kind == "OBSERVE"

abbrev pub reject_for : {F : Type 0} → String → CandidateIntention F → RejectedIntention
reject_for reason i = record { intention_id = i.intention_id; reason_codes = reason ∷ [] }

-- `rate_limited_until is not None and rate_limited_until > now`
abbrev pub is_limited : Option ℤ → ℤ → Bool
is_limited none now = false
is_limited (some until) now = ltb_ℤ now until

-- `a != b` of two optional ids
abbrev pub differ : Option String → Option String → Bool
differ none none = false
differ (some a) (some b) = not (a == b)
differ _ _ = true

module _ (fl : Floats) where
  open fl use {Float, add, sub, neg, equal, less}

  -- `utility`
  unfoldable pub utility : CandidateIntention Float → Float
  utility i =
      sub
        (add
          (add
            (add
              (add
                (add
                  (add (add (add i.obligation i.relevance) i.relational_value) i.continuity_value)
                  i.novelty)
                i.urgency)
              i.persona_fit)
            i.state_fit)
          i.information_gain)
        (add
          (add (add (add i.disruption_cost i.uncertainty_cost) i.repetition_cost) i.resource_cost)
          i.risk)

  -- `<` of two keys `(-utility, intention_id)`
  unfoldable pub key_less : CandidateIntention Float → CandidateIntention Float → Bool
  key_less i j =
      if equal (neg (utility i)) (neg (utility j))
      then not (text_leb j.intention_id i.intention_id)
      else less (neg (utility i)) (neg (utility j))

  -- what `sorted` asks of an entry and one behind it
  abbrev pub stays_before : CandidateIntention Float → CandidateIntention Float → Bool
  stays_before i j = not (key_less j i)

  unfoldable pub rank : List (CandidateIntention Float) → List (CandidateIntention Float)
  unfolding keep sort_by
  rank eligible = sort_by stays_before (keep (λ i. not (is_observe i)) eligible)

  abbrev pub lost_reason : CandidateIntention Float → CandidateIntention Float → String
  lost_reason top i =
      if differ i.target_id top.target_id
      then "different_target"
      else if differ i.topic_id top.topic_id
      then "different_topic"
      else "lower_utility"

  -- the decision between the ranked candidates
  unfoldable pub choose :
      GovernorContext Float
      → Screening Float
      → List (CandidateIntention Float)
      → Result GovernorResult
  choose c st [] = Result.raise Exception.lookup_error
  choose c st (top ∷ rest) =
      if less (utility top) c.minimum_utility
      then check_result (record {
        outcome = "SILENCE";
        selected_intention_ids = [];
        rejected = st.rejected ++ map (reject_for "utility_below_threshold") (top ∷ rest);
        reason_codes = "utility_below_threshold" ∷ [];
        reconsider_at = none;
        constraints = active_constraints c;
      })
      else check_result (record {
        outcome = "ACT";
        selected_intention_ids = top.intention_id ∷ [];
        rejected = st.rejected ++ map (λ i. reject_for (lost_reason top i) i) rest;
        reason_codes = "selected_by_social_utility" ∷ [];
        reconsider_at = none;
        constraints = active_constraints c;
      })

  abbrev pub or_default : List String → List String
  or_default [] = "no_eligible_intention" ∷ []
  or_default (r ∷ rs) = r ∷ rs

  -- the decision behind the loop
  unfoldable pub decide_screened : GovernorContext Float → Screening Float → Result GovernorResult
  unfolding all
  decide_screened c st =
      if is_nil st.eligible
      then check_result (record {
        outcome = "SILENCE";
        selected_intention_ids = [];
        rejected = st.rejected;
        reason_codes = or_default st.reasons;
        reconsider_at = none;
        constraints = active_constraints c;
      })
      else if all is_observe st.eligible
      then check_result (record {
        outcome = "OBSERVE";
        selected_intention_ids = [];
        rejected = st.rejected;
        reason_codes = "observe_intention" ∷ [];
        reconsider_at = none;
        constraints = active_constraints c;
      })
      else if is_limited c.rate_limited_until c.now
      then check_result (record {
        outcome = "DEFER";
        selected_intention_ids = [];
        rejected = st.rejected;
        reason_codes = "rate_limited" ∷ [];
        reconsider_at = c.rate_limited_until;
        constraints = active_constraints c;
      })
      else choose c st (rank st.eligible)

  -- `decide`
  unfoldable pub decide :
      List (CandidateIntention Float) → GovernorContext Float → Result GovernorResult
  unfolding keep
  decide candidates c =
      if c.force_observe
      then check_result (record {
        outcome = "OBSERVE";
        selected_intention_ids = [];
        rejected = map (reject_for "forced_observe") (keep (λ i. not (is_observe i)) candidates);
        reason_codes = "forced_observe" ∷ [];
        reconsider_at = none;
        constraints = active_constraints c;
      })
      else decide_screened c
          (screen c candidates (record { rejected = []; eligible = []; reasons = [] }))
