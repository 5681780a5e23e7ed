-- ===== src/Decision/Config/Accepted.antt =====
-- What an accepted configuration guarantees to the code that reads it.
use shanghai_home_radar.Prelude.{
  ℤ, ◌≡◌, Bool, true, List, [], ◌∷◌, String, contains, keys, lookup, lookup-contains, some, arith,
  every, and_left, and_right, eq_iff,
}
use shanghai_home_radar.Decision.Config.{
  DecisionConfig, EligibilityConfig, RankingConfig, confidence_levels, same_set,
  accepts_eligibility, accepts_ranking, accepts,
}

pub accepts-eligibility :
    (c : DecisionConfig) → accepts c ≡ true → accepts_eligibility c.eligibility ≡ true
unfolding accepts
accepts-eligibility c h = ground arith

pub accepts-ranking : (c : DecisionConfig) → accepts c ≡ true → accepts_ranking c.ranking ≡ true
unfolding accepts
accepts-ranking c h = ground arith

pub accepts_eligibility-known :
    (c : EligibilityConfig)
    → accepts_eligibility c ≡ true
    → contains c.minimum_confidence confidence_levels ≡ true
unfolding accepts_eligibility
accepts_eligibility-known c h = ground arith

-- What a test on all elements says of one of them.
every-contains :
    (p : String → Bool) (k : String) (xs : List String)
    → every p xs ≡ true
    → contains k xs ≡ true
    → p k ≡ true
every-contains p k [] h m = cc
every-contains p k (x ∷ xs) h m = ground (arith, eq_iff k x, every-contains p k xs)

same_set-contains :
    (k : String) (xs ys : List String)
    → same_set xs ys ≡ true
    → contains k ys ≡ true
    → contains k xs ≡ true
same_set-contains k xs ys h m =
    every-contains (λ y. contains y xs) k ys (and_right (every (λ x. contains x ys) xs) _ h) m

-- Both classes that can be ranked have a priority.
pub accepts_ranking-class :
    (c : RankingConfig) (k : String)
    → accepts_ranking c ≡ true
    → contains k ("QUALITY_AT_DISCOUNT" ∷ "GOOD_BUT_EXPENSIVE" ∷ []) ≡ true
    → (v : ℤ) × (lookup k c.classification_priority ≡ some v)
unfolding accepts_ranking
accepts_ranking-class c k h m = lookup-contains k c.classification_priority (
    same_set-contains k (keys c.classification_priority)
      ("QUALITY_AT_DISCOUNT" ∷ "GOOD_BUT_EXPENSIVE" ∷ [])
      (and_left _ (same_set (keys c.confidence_priority) confidence_levels) h) m)

-- Every level of confidence has a priority.
pub accepts_ranking-level :
    (c : RankingConfig) (k : String)
    → accepts_ranking c ≡ true
    → contains k confidence_levels ≡ true
    → (v : ℤ) × (lookup k c.confidence_priority ≡ some v)
unfolding accepts_ranking
accepts_ranking-level c k h m = lookup-contains k c.confidence_priority (
    same_set-contains k (keys c.confidence_priority) confidence_levels
      (and_right
        (same_set (keys c.classification_priority)
          ("QUALITY_AT_DISCOUNT" ∷ "GOOD_BUT_EXPENSIVE" ∷ []))
        _ h)
      m)
