-- ===== src/Decision/Blind/Ranks.antt =====
-- The ranks of a batch are those of the ranking that the rest of the stage uses.
use shanghai_home_radar.Prelude.{
  ℕ, suc, ◌≡◌, refl, ap, inl, inr, List, [], ◌∷◌, ok, map, ◌>>=◌, Result-cases, length,
}
use shanghai_home_radar.Sorting.{sort_by}
use shanghai_home_radar.Decision.Domain.{DecisionEvaluation, RankedDecision}
use shanghai_home_radar.Decision.Config.{DecisionConfig}
use shanghai_home_radar.Decision.Ranking.{
  Keyed, with_keys, keyed_leb, eligible_only, number_from, rank_eligible,
}
use shanghai_home_radar.Decision.Blind.{rank_by_listing, ranks_from}

-- The entry of a ranked decision.
abbrev pub entry_of : RankedDecision → ℕ × ℕ
entry_of r = (r.evaluation.listing_id, r.rank)

number_from-entries :
    (index count : ℕ) (l : List Keyed)
    → ranks_from index l ≡ map entry_of (number_from index count l)
unfolding number_from
number_from-entries index count [] = refl
number_from-entries index count ((key, e) ∷ rest) =
    ap (λ x. (e.listing_id, index) ∷ x) (number_from-entries (suc index) count rest)

-- `_rank_by_listing` gives each listing the rank that `rank_eligible` gives it, and fails where that
-- fails.
pub rank_by_listing-rank_eligible :
    (es : List DecisionEvaluation) (config : DecisionConfig)
    → rank_by_listing es config ≡ (rank_eligible es config >>= (λ ranked. ok (map entry_of ranked)))
unfolding rank_by_listing rank_eligible
rank_by_listing-rank_eligible es config =
    elim (Result-cases (with_keys config (eligible_only es))) [
      | inl (keyed, e) ↦ rw e (
          ap ok
            (number_from-entries 1 (length (sort_by keyed_leb keyed)) (sort_by keyed_leb keyed)))
      | inr (x, e) ↦ rw e refl
    ]
