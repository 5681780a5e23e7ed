-- ===== src/Decision/Reasons/Codes.antt =====
-- Which reasons are given, and how many.
use shanghai_home_radar.Prelude.{
  ◌≡◌, refl, ap, ◌∙◌, ◌≤◌, Bool, ◌&&◌, ◌||◌, not, List, [], ◌∷◌, ◌++◌, String, contains, is_none,
  str_eq, eq_iff, arith, length, length-take-le, dedupe, leb_ℤ, ltb_ℤ, pos,
}
use shanghai_home_radar.Sorting.Texts.{contains-append, contains-dedupe}
use shanghai_home_radar.Decision.Domain.{DecisionInputs, DecisionReason}
use shanghai_home_radar.Decision.Config.{DecisionConfig}
use shanghai_home_radar.Decision.Classification.{at_least}
use shanghai_home_radar.Decision.Reasons.{
  text_of, warning_reasons, reason_if, missing_liquidity, positive_reasons, negative_reasons,
  build_reasons,
}

abbrev pub codes : List DecisionReason → List String
codes [] = []
codes (r ∷ rs) = r.code ∷ codes rs

-- The warning has a text.
abbrev pub is_explained : String → Bool
is_explained w = not (is_none (text_of w))

codes-append : (rs qs : List DecisionReason) → codes (rs ++ qs) ≡ codes rs ++ codes qs
codes-append [] qs = refl
codes-append (r ∷ rs) qs = rw (codes-append rs qs)

contains-warning_reasons :
    (w : String) (l : List String)
    → contains w (codes (warning_reasons l)) ≡ (contains w l && is_explained w)
contains-warning_reasons w [] = refl
contains-warning_reasons w (x ∷ l) = ground (arith, eq_iff w x, contains-warning_reasons w l)

contains_parts :
    (w : String) (i : DecisionInputs)
    → (contains w (codes (warning_reasons (dedupe (i.valuation_warnings ++ i.future_warnings))))
        || contains w (codes (reason_if (is_none i.liquidity_score) missing_liquidity)))
      ≡ ((contains w (i.valuation_warnings ++ i.future_warnings) && is_explained w)
          || (str_eq w "MISSING_LIQUIDITY" && is_none i.liquidity_score))
contains_parts w i =
    rw (contains-warning_reasons w (dedupe (i.valuation_warnings ++ i.future_warnings)))
      (rw (contains-dedupe w (i.valuation_warnings ++ i.future_warnings)) (ground arith))

-- The reasons against a listing, before they are cut, are the warnings of both stages that have a
-- text, and the missing liquidity exactly where no liquidity score is known.
pub contains-negative_reasons :
    (w : String) (i : DecisionInputs)
    → contains w (codes (negative_reasons i)) ≡ (
        (contains w (i.valuation_warnings ++ i.future_warnings) && is_explained w)
        || (str_eq w "MISSING_LIQUIDITY" && is_none i.liquidity_score))
unfolding negative_reasons
contains-negative_reasons w i =
    let found = dedupe (i.valuation_warnings ++ i.future_warnings) in
    let cut = reason_if (is_none i.liquidity_score) missing_liquidity in
    ap (contains w) (codes-append (warning_reasons found) cut)
    ∙ contains-append w (codes (warning_reasons found)) (codes cut)
    ∙ contains_parts w i

-- The reasons for a listing, before they are cut, are those whose condition holds.
pub contains-positive_reasons :
    (w : String) (i : DecisionInputs) (c : DecisionConfig)
    → contains w (codes (positive_reasons i c)) ≡ (
        (str_eq w "FAIR_VALUE_DISCOUNT" && ltb_ℤ (pos 0) i.ask_discount_to_fair_value)
        || (str_eq w "HIGH_LIQUIDITY"
            && at_least i.liquidity_score c.explanations.high_liquidity_score)
        || (str_eq w "STRONG_FUTURE_QUALITY"
            && at_least i.future_score c.classification.high_future_score)
        || (str_eq w "POSITIVE_STRUCTURAL_ALPHA"
            && leb_ℤ c.explanations.positive_structural_alpha i.structural_alpha))
unfolding positive_reasons
contains-positive_reasons w i c = ground arith

-- No more reasons are given than the configuration allows.
pub length-build_reasons :
    (i : DecisionInputs) (c : DecisionConfig)
    → (length (build_reasons i c).0 ≤ c.explanations.maximum_positive_reasons)
      × (length (build_reasons i c).1 ≤ c.explanations.maximum_negative_reasons)
unfolding build_reasons
length-build_reasons i c = (
  length-take-le c.explanations.maximum_positive_reasons (positive_reasons i c),
  length-take-le c.explanations.maximum_negative_reasons (negative_reasons i),
)
