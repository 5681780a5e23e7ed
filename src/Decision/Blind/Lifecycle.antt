-- ===== src/Decision/Blind/Lifecycle.antt =====
-- The batches that the operations lead to.
use shanghai_home_radar.Prelude.{
  ℕ, ◌≡◌, ◌⊎◌, ◌↔◌, refl, ap, ◌∙◌, Bool, true, false, inl, inr, Option, List, [], ◌∷◌, String, ok,
  arith, map, Bool-cases, Option-cases, Result-cases, every, and_right,
}
use shanghai_home_radar.Collector.Repository.{find, update_where}
use shanghai_home_radar.Decision.Domain.{HumanLabel, BlindEvaluationCase}
use shanghai_home_radar.Decision.Config.{DecisionConfig}
use shanghai_home_radar.Decision.Blind.{
  BlindItem, BlindBatch, BlindSnapshot, is_revealed, labeled, of_listing, label_blind_item,
  evaluation_cases, is_labeled, has_items, revealed_batch, reveal_blind_batch,
}
use shanghai_home_radar.Decision.BlindMetrics.{calculate_blind_metrics}

-- One call. The configuration and the clock are those of the call.
pub data Call (b c : BlindBatch) : Type 0 where
  label_item :
      (now listing : ℕ) (human : HumanLabel) (notes : Option String)
      → label_blind_item now listing human notes b ≡ ok c
      → Call b c
  reveal_batch :
      (now : ℕ) (config : DecisionConfig) → reveal_blind_batch now config b ≡ ok c → Call b c

pub data Calls (b : BlindBatch) : BlindBatch → Type 0 where
  none_yet : Calls b b
  then_call : {c d : BlindBatch} → Calls b c → Call c d → Calls b d

label_blind_item-did :
    (now listing : ℕ) (human : HumanLabel) (notes : Option String) (b c : BlindBatch)
    → label_blind_item now listing human notes b ≡ ok c
    → (is_revealed b ≡ false)
      × (c ≡ record b {
        items = update_where (of_listing listing) (labeled now human notes) b.items;
      })
unfolding label_blind_item
label_blind_item-did now listing human notes b c h =
    elim (Option-cases (find (of_listing listing) b.items)) [
      | inl e ↦ ground (arith, e, h)
      | inr (i, e) ↦ ground (arith, e, h)
    ]

reveal_blind_batch-did :
    (now : ℕ) (config : DecisionConfig) (b c : BlindBatch)
    → reveal_blind_batch now config b ≡ ok c
    → ((is_revealed b ≡ true) × (c ≡ b))
      ⊎ ((is_revealed b ≡ false)
          × (has_items b.items ≡ true)
          × (every is_labeled b.items ≡ true)
          × ((cases : List BlindEvaluationCase) × (evaluation_cases b.items ≡ ok cases)
              × (c ≡ revealed_batch now (calculate_blind_metrics cases config.validation) b)))
unfolding reveal_blind_batch
reveal_blind_batch-did now config b c h = elim (Result-cases (evaluation_cases b.items)) [
  | inr (x, e) ↦ elim (Bool-cases (is_revealed b)) [
    | inl r ↦ inl (r, ground (arith, r, h))
    | inr r ↦ ground (arith, r, e, h)
  ]
  | inl (cases, e) ↦ elim (Bool-cases (is_revealed b)) [
    | inl r ↦ inl (r, ground (arith, r, h))
    | inr r ↦
        inr
          (r, ground (arith, r, e, h), ground (arith, r, e, h), (cases, e, ground (arith, r, e, h)))
  ]
]

Call-revealed : (b c : BlindBatch) → Call b c → is_revealed b ≡ true → c ≡ b
Call-revealed b c (label_item now listing human notes h) r =
    ground (arith, r, (label_blind_item-did now listing human notes b c h).0)
Call-revealed b c (reveal_batch now config h) r = elim (reveal_blind_batch-did now config b c h) [
  | inl (_, same) ↦ same
  | inr (open_still, _, _, _) ↦ ground (arith, r, open_still)
]

-- A batch that is revealed never changes again: every call that returns leaves it as it is.
pub Calls-revealed : (b c : BlindBatch) → Calls b c → is_revealed b ≡ true → c ≡ b
Calls-revealed b c none_yet r = refl
Calls-revealed b d (then_call {c} calls call) r =
    let same = Calls-revealed b c calls r in Call-revealed c d call (ap is_revealed same ∙ r) ∙ same

-- What a person cannot change.
pub record FrozenPart : Type 0 where
  pub listing_id : ℕ
  pub decision_assessment_id : ℕ
  pub frozen_rank : Option ℕ
  pub listing_snapshot : ℕ
  pub model_snapshot : BlindSnapshot

abbrev pub frozen_part : BlindItem → FrozenPart
frozen_part i = record {
  listing_id = i.listing_id;
  decision_assessment_id = i.decision_assessment_id;
  frozen_rank = i.frozen_rank;
  listing_snapshot = i.listing_snapshot;
  model_snapshot = i.model_snapshot;
}

map-frozen_part :
    (p : BlindItem → Bool) (now : ℕ) (human : HumanLabel) (notes : Option String)
    (items : List BlindItem)
    → map frozen_part (update_where p (labeled now human notes) items) ≡ map frozen_part items
map-frozen_part p now human notes [] = refl
map-frozen_part p now human notes (i ∷ is) = elim (Bool-cases (p i)) [
  | inl e ↦ rw e (ap (λ x. frozen_part i ∷ x) (map-frozen_part p now human notes is))
  | inr e ↦ rw e (ap (λ x. frozen_part i ∷ x) (map-frozen_part p now human notes is))
]

Call-frozen_part : (b c : BlindBatch) → Call b c → map frozen_part c.items ≡ map frozen_part b.items
Call-frozen_part b c (label_item now listing human notes h) =
    let (_, e) = label_blind_item-did now listing human notes b c h in
    ap (λ (x : BlindBatch). map frozen_part x.items) e
    ∙ map-frozen_part (of_listing listing) now human notes b.items
Call-frozen_part b c (reveal_batch now config h) = elim (reveal_blind_batch-did now config b c h) [
  | inl (_, e) ↦ ap (λ (x : BlindBatch). map frozen_part x.items) e
  | inr (_, _, _, (cases, _, e)) ↦ ap (λ (x : BlindBatch). map frozen_part x.items) e
]

-- No sequence of calls changes which listings a batch has, their ranks or what the model said of
-- them.
pub Calls-frozen_part :
    (b c : BlindBatch) → Calls b c → map frozen_part c.items ≡ map frozen_part b.items
Calls-frozen_part b c none_yet = refl
Calls-frozen_part b d (then_call {c} calls call) =
    Call-frozen_part c d call ∙ Calls-frozen_part b c calls

evaluation_cases-returns :
    (items : List BlindItem)
    → every is_labeled items ≡ true
    → (cases : List BlindEvaluationCase) × (evaluation_cases items ≡ ok cases)
evaluation_cases-returns [] h = ([], refl)
evaluation_cases-returns (i ∷ is) h =
    let (cases, e) = evaluation_cases-returns is (and_right (is_labeled i) _ h) in
    elim (Option-cases i.human_label) [
      | inl g ↦ ground (arith, g, h)
      | inr (human, g) ↦ rw (g, e) (_, refl)
    ]

-- A batch that is not revealed can be revealed exactly if it has listings and all are labelled.
pub reveal_blind_batch-returns_iff :
    (now : ℕ) (config : DecisionConfig) (b : BlindBatch)
    → is_revealed b ≡ false
    → ((c : BlindBatch) × (reveal_blind_batch now config b ≡ ok c) × (is_revealed c ≡ true))
      ↔ ((has_items b.items ≡ true) × (every is_labeled b.items ≡ true))
unfolding reveal_blind_batch
reveal_blind_batch-returns_iff now config b closed = (
  λ (c, e, shown). elim (reveal_blind_batch-did now config b c e) [
    | inl (r, same) ↦ ground (arith, r, closed)
    | inr (r, some_item, all, rest) ↦ (some_item, all)
  ],
  λ (some_item, all).
      let (cases, e) = evaluation_cases-returns b.items all in
      (
        revealed_batch now (calculate_blind_metrics cases config.validation) b,
        ground (arith, closed, some_item, all, e),
        refl,
      ),
)
