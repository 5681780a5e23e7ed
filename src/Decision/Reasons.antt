-- ===== src/Decision/Reasons.antt =====
-- services/decision/src/home_radar_decision/why_ranked.py. A text that is formatted from a number is
-- the list of its pieces.
pub mod Codes
use shanghai_home_radar.Prelude.{
  ℕ, zero, suc, ◌*◌, ℤ, pos, negsuc, neg, Bool, true, false, Option, none, some, List, [], ◌∷◌,
  ◌++◌, String, Piece, literal, printed, tenths, half_even, leb_ℤ, ltb_ℤ, lookup, dedupe, take,
  is_none, Decimal, if◌then◌else◌,
}
use shanghai_home_radar.Decision.Domain.{DecisionInputs, DecisionReason}
use shanghai_home_radar.Decision.Config.{DecisionConfig}

-- `WARNING_TEXT`
abbrev pub warning_text : List (String × String)
warning_text =
    ("HIGH_OBSOLESCENCE_RISK", "长期淘汰风险偏高")
    ∷ ("SUPPLY_SHOCK_RISK", "未来竞争供应可能形成压力")
    ∷ ("LOW_FORECAST_CONFIDENCE", "未来模型证据覆盖不足")
    ∷ ("UNCALIBRATED_MODEL", "Future 模型尚未完成成交校准")
    ∷ ("LOW_RENTAL_SUPPORT", "租赁需求证据不足")
    ∷ ("AGING_PRODUCT_RISK", "楼龄与产品老化风险偏高")
    ∷ ("LIQUIDITY_DECAY_RISK", "买方池与流动性可能走弱")
    ∷ ("PLANNING_DEPENDENCY", "未来改善较依赖规划兑现")
    ∷ []

-- `WARNING_TEXT.get(code)`
unfoldable pub text_of : String → Option String
text_of code = lookup code warning_text

-- `(d * 100).quantize(Decimal("0.1"))`, in tenths: a thousandth of the millionths of `d`.
abbrev pub percent_tenths : Decimal → ℤ
percent_tenths (pos n) = pos (half_even n 1000)
percent_tenths (negsuc n) = neg (pos (half_even (suc n) 1000))

-- The reason `r`, where the test holds.
abbrev pub reason_if : Bool → DecisionReason → List DecisionReason
reason_if true r = r ∷ []
reason_if false r = []

-- The reason for a score that is present and at least the minimum.
abbrev pub score_reason :
    Option Decimal → Decimal → (Decimal → DecisionReason) → List DecisionReason
score_reason none minimum reason = []
score_reason (some score) minimum reason = reason_if (leb_ℤ minimum score) (reason score)

discount_reason : Decimal → DecisionReason
discount_reason discount =
    let pct = tenths (percent_tenths discount) in
    record {
      code = "FAIR_VALUE_DISCOUNT";
      text = literal "价格较 Fair Value 低 " ∷ pct ∷ literal "%" ∷ [];
      source_stage = "P4";
      evidence = ("discount_pct", pct) ∷ [];
    }

liquidity_reason : Decimal → DecisionReason
liquidity_reason score = record {
  code = "HIGH_LIQUIDITY";
  text = literal "总价与产品处于较高流动性区间" ∷ [];
  source_stage = "P3/P4";
  evidence = ("liquidity_score", printed score) ∷ [];
}

future_reason : Decimal → DecisionReason
future_reason score = record {
  code = "STRONG_FUTURE_QUALITY";
  text = literal "未来资产质量处于高分区间" ∷ [];
  source_stage = "P5";
  evidence = ("future_score", printed score) ∷ [];
}

alpha_reason : Decimal → DecisionReason
alpha_reason alpha = record {
  code = "POSITIVE_STRUCTURAL_ALPHA";
  text = literal "结构性因素相对市场基线为正" ∷ [];
  source_stage = "P5";
  evidence = ("structural_alpha", printed alpha) ∷ [];
}

-- `_positive_reasons`
unfoldable pub positive_reasons : DecisionInputs → DecisionConfig → List DecisionReason
unfolding discount_reason liquidity_reason future_reason alpha_reason
positive_reasons inputs config =
    reason_if (ltb_ℤ (pos 0) inputs.ask_discount_to_fair_value)
      (discount_reason inputs.ask_discount_to_fair_value)
    ++ (score_reason inputs.liquidity_score config.explanations.high_liquidity_score
          liquidity_reason
        ++ (score_reason inputs.future_score config.classification.high_future_score future_reason
            ++ reason_if
                (leb_ℤ config.explanations.positive_structural_alpha inputs.structural_alpha)
                (alpha_reason inputs.structural_alpha)))

-- A reason for each code that has a text.
abbrev pub warning_reasons : List String → List DecisionReason
warning_reasons [] = []
warning_reasons (code ∷ codes) = elim (text_of code) [
  | none ↦ warning_reasons codes
  | some text ↦
      record {
        code = code;
        text = literal text ∷ [];
        source_stage = "P4/P5";
        evidence = ("warning", literal code) ∷ [];
      }
      ∷ warning_reasons codes
]

abbrev pub missing_liquidity : DecisionReason
missing_liquidity = record {
  code = "MISSING_LIQUIDITY";
  text = literal "缺少可用的流动性基线" ∷ [];
  source_stage = "P3";
  evidence = [];
}

-- `_negative_reasons`
unfoldable pub negative_reasons : DecisionInputs → List DecisionReason
negative_reasons inputs =
    warning_reasons (dedupe (inputs.valuation_warnings ++ inputs.future_warnings))
    ++ reason_if (is_none inputs.liquidity_score) missing_liquidity

unfoldable pub build_reasons :
    DecisionInputs → DecisionConfig → List DecisionReason × List DecisionReason
build_reasons inputs config = (
  take config.explanations.maximum_positive_reasons (positive_reasons inputs config),
  take config.explanations.maximum_negative_reasons (negative_reasons inputs),
)
