-- ===== src/Governor/Ranking.antt =====
-- The ranking of `SocialGovernor.decide` in groupmate/social_runtime/governor.py: its first entry has the
-- greatest utility.
use astrbot_plugin_groupmate.Prelude.{
  text_leb_total, ◌≡◌, refl, sym, Bool, true, false, not, ◌&&◌, List, [], ◌∷◌, sort_by,
  sort_by-IsOrdered, IsOrdered, arith, All, All-map_of,
}
use astrbot_plugin_groupmate.Governor.{Floats, CandidateIntention, utility, key_less, stays_before}

-- What the comparison of finite floats is relied on for: a strict weak order, in which the equal are
-- those that are not less either way, and which negation turns round.
pub record IsFloatOrder (fl : Floats) : Type 0 where
  pub asym : (x y : fl.Float) → fl.less x y ≡ true → fl.less y x ≡ false
  pub trans : (x y z : fl.Float) → fl.less x y ≡ false → fl.less y z ≡ false → fl.less x z ≡ false
  pub equal_is : (x y : fl.Float) → fl.equal x y ≡ (not (fl.less x y) && not (fl.less y x))
  pub neg_less : (x y : fl.Float) → fl.less (fl.neg x) (fl.neg y) ≡ fl.less y x

module _ (fl : Floats) (law : IsFloatOrder fl) where
  open fl use {Float, neg, equal, less}

  key_less-utility :
      (i j : CandidateIntention Float)
      → key_less fl i j ≡ false
      → less (utility fl j) (utility fl i) ≡ false
  unfolding key_less
  key_less-utility i j h = ground (
    arith,
    law.equal_is (neg (utility fl i)) (neg (utility fl j)),
    law.neg_less (utility fl i) (utility fl j),
    law.neg_less (utility fl j) (utility fl i),
  )

  stays_before_total :
      (i j : CandidateIntention Float) → stays_before fl i j ≡ false → stays_before fl j i ≡ true
  unfolding key_less
  stays_before_total i j h = ground (
    arith,
    law.equal_is (neg (utility fl i)) (neg (utility fl j)),
    law.equal_is (neg (utility fl j)) (neg (utility fl i)),
    law.asym (neg (utility fl j)) (neg (utility fl i)),
    law.asym (neg (utility fl i)) (neg (utility fl j)),
    text_leb_total i.intention_id j.intention_id,
    text_leb_total j.intention_id i.intention_id,
  )

  not_less :
      (i j : CandidateIntention Float)
      → stays_before fl i j ≡ true
      → less (utility fl i) (utility fl j) ≡ false
  not_less i j h = key_less-utility j i (is_false (key_less fl j i) h)
    where
      is_false : (b : Bool) → not b ≡ true → b ≡ false
      is_false true h = sym h
      is_false false h = refl

  -- The first of ranked candidates is nowhere below.
  pub top_best :
      (i : CandidateIntention Float) (is : List (CandidateIntention Float))
      → IsOrdered (stays_before fl) (i ∷ is)
      → All (λ j. less (utility fl i) (utility fl j) ≡ false) is
  top_best i [] h = tt
  top_best i (j ∷ is) h =
      let below = not_less i j h.0 in
      (
        below,
        All-map_of (λ k e. law.trans (utility fl i) (utility fl j) (utility fl k) below e) is
            (top_best j is h.1),
      )

  pub ranked_IsOrdered :
      (is : List (CandidateIntention Float))
      → IsOrdered (stays_before fl) (sort_by (stays_before fl) is)
  ranked_IsOrdered is = sort_by-IsOrdered (stays_before fl) stays_before_total is
