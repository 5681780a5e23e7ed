-- ===== src/Decision/Ranking/Listing.antt =====
-- What a finished ranking lists.
use mathlib.Core.List.{Perm}
use mathlib.Core.List.Perm
use shanghai_home_radar.Prelude.{
  ℕ, suc, ◌≡◌, refl, ap, ℤ, true, List, [], ◌∷◌, map, ok, arith, All, length,
}
use shanghai_home_radar.Sorting.{insert, sort_by, lex_leb}
use shanghai_home_radar.Sorting.Laws.{IsSorted, IsBelow, sort_by-perm, sort_by-IsSorted}
use shanghai_home_radar.Decision.Domain.{DecisionEvaluation, RankedDecision}
use shanghai_home_radar.Decision.Config.{DecisionConfig}
use shanghai_home_radar.Decision.Ranking.{
  decision_sort_key, Keyed, keyed_leb, eligible_only, number_from, rank_eligible,
}
use shanghai_home_radar.Decision.Ranking.Order.{
  keyed_leb-IsTotal, KeyedAs, ranked_of, rank_eligible-inv,
}

-- The ranks count up from `i`, and each entry states the same count.
abbrev pub Numbered : ℕ → ℕ → List RankedDecision → Type 0
Numbered i n [] = Unit
Numbered i n (x ∷ r) = (x.rank ≡ i) × (x.eligible_count ≡ n) × Numbered (suc i) n r

-- The key of the first is not above the key of the second.
abbrev pub Ahead : DecisionConfig → DecisionEvaluation → DecisionEvaluation → Type 0
Ahead c e f =
    (a b : List ℤ)
    → decision_sort_key e c ≡ ok a
    → decision_sort_key f c ≡ ok b
    → lex_leb a b ≡ true

-- Every entry is ahead of all that follow.
abbrev pub InOrder : DecisionConfig → List RankedDecision → Type 0
InOrder c [] = Unit
InOrder c (x ∷ r) = All (λ y. Ahead c x.evaluation y.evaluation) r × InOrder c r

abbrev pub listed : List RankedDecision → List DecisionEvaluation
listed [] = []
listed (x ∷ r) = x.evaluation ∷ listed r

pub record IsRanking (c : DecisionConfig) (l : List DecisionEvaluation) (r : List RankedDecision)
    : Type 0 where
  pub numbered : Numbered 1 (length r) r
  pub complete : Perm (listed r) (eligible_only l)
  pub in_order : InOrder c r

-- The candidates carry their own keys.
abbrev HasKeys : DecisionConfig → List Keyed → Type 0
HasKeys c = All (λ x. decision_sort_key x.1 c ≡ ok x.0)

number_from-Numbered : (i n : ℕ) (k : List Keyed) → Numbered i n (number_from i n k)
unfolding number_from
number_from-Numbered i n [] = tt
number_from-Numbered i n ((a, e) ∷ k) = (refl, refl, number_from-Numbered (suc i) n k)

length-number_from : (i n : ℕ) (k : List Keyed) → length (number_from i n k) ≡ length k
unfolding number_from
length-number_from i n [] = refl
length-number_from i n ((a, e) ∷ k) = ap suc (length-number_from (suc i) n k)

abbrev seconds : List Keyed → List DecisionEvaluation
seconds [] = []
seconds (x ∷ k) = x.1 ∷ seconds k

listed-number_from : (i n : ℕ) (k : List Keyed) → listed (number_from i n k) ≡ seconds k
unfolding number_from
listed-number_from i n [] = refl
listed-number_from i n ((a, e) ∷ k) = ap (◌∷◌ e) (listed-number_from (suc i) n k)

KeyedAs-seconds :
    (c : DecisionConfig) (l : List DecisionEvaluation) (k : List Keyed)
    → KeyedAs c l k
    → seconds k ≡ l
KeyedAs-seconds c [] [] h = refl
KeyedAs-seconds c [] (x ∷ k) h = elim h [ ]
KeyedAs-seconds c (e ∷ l) [] h = elim h [ ]
KeyedAs-seconds c (e ∷ l) (x ∷ k) h = cc (KeyedAs-seconds c l k h.2, h.1)

KeyedAs-HasKeys :
    (c : DecisionConfig) (l : List DecisionEvaluation) (k : List Keyed)
    → KeyedAs c l k
    → HasKeys c k
KeyedAs-HasKeys c [] [] h = tt
KeyedAs-HasKeys c [] (x ∷ k) h = elim h [ ]
KeyedAs-HasKeys c (e ∷ l) [] h = elim h [ ]
KeyedAs-HasKeys c (e ∷ l) (x ∷ k) h = (cc (h.0, h.1), KeyedAs-HasKeys c l k h.2)

insert-HasKeys :
    (c : DecisionConfig) (x : Keyed) (k : List Keyed)
    → decision_sort_key x.1 c ≡ ok x.0
    → HasKeys c k
    → HasKeys c (insert keyed_leb x k)
unfolding insert
insert-HasKeys c x [] h hs = (h, tt)
insert-HasKeys c x (y ∷ k) h hs = ground (arith, insert-HasKeys c x k h hs.1)

sort_by-HasKeys :
    (c : DecisionConfig) (k : List Keyed) → HasKeys c k → HasKeys c (sort_by keyed_leb k)
unfolding sort_by
sort_by-HasKeys c [] h = tt
sort_by-HasKeys c (x ∷ k) h = insert-HasKeys c x (sort_by keyed_leb k) h.0 (sort_by-HasKeys c k h.1)

number_from-Ahead :
    (c : DecisionConfig) (x : Keyed) (i n : ℕ) (k : List Keyed)
    → decision_sort_key x.1 c ≡ ok x.0
    → HasKeys c k
    → IsBelow keyed_leb x k
    → All (λ y. Ahead c x.1 y.evaluation) (number_from i n k)
unfolding number_from
number_from-Ahead c x i n [] h hs b = tt
number_from-Ahead c x i n ((a, e) ∷ k) h hs b =
    (λ p q u v. ground (arith, h, hs.0, u, v, b.0), number_from-Ahead c x (suc i) n k h hs.1 b.1)

number_from-InOrder :
    (c : DecisionConfig) (i n : ℕ) (k : List Keyed)
    → HasKeys c k
    → IsSorted keyed_leb k
    → InOrder c (number_from i n k)
unfolding number_from
number_from-InOrder c i n [] hs s = tt
number_from-InOrder c i n ((a, e) ∷ k) hs s = (
  number_from-Ahead c (a, e) (suc i) n k hs.0 hs.1 s.0,
  number_from-InOrder c (suc i) n k hs.1 s.1,
)

seconds-map : (k : List Keyed) → seconds k ≡ map (λ (x : Keyed). x.1) k
seconds-map [] = refl
seconds-map (x ∷ k) = ap (◌∷◌ x.1) (seconds-map k)

seconds-perm : (k m : List Keyed) → Perm k m → Perm (seconds k) (seconds m)
seconds-perm k m p = rw (seconds-map k, seconds-map m) (Perm.map (λ (x : Keyed). x.1) p)

ranked_of-IsRanking :
    (c : DecisionConfig) (l : List DecisionEvaluation) (k : List Keyed)
    → KeyedAs c (eligible_only l) k
    → IsRanking c l (ranked_of k)
unfolding ranked_of
ranked_of-IsRanking c l k s =
    let o = sort_by keyed_leb k in
    record {
      numbered = rw (length-number_from 1 (length o) o) (number_from-Numbered 1 (length o) o);
      complete = rw (listed-number_from 1 (length o) o) (
          rw (KeyedAs-seconds c (eligible_only l) k s) at
            (seconds-perm o k (sort_by-perm keyed_leb k)));
      in_order =
          number_from-InOrder c 1 (length o) o
            (sort_by-HasKeys c k (KeyedAs-HasKeys c (eligible_only l) k s))
            (sort_by-IsSorted keyed_leb keyed_leb-IsTotal k);
    }

-- A ranking that succeeds lists exactly the eligible evaluations, each once, numbered from 1 and
-- with their number in each entry, and no entry has a key above that of an entry behind it.
pub rank_eligible-IsRanking :
    (c : DecisionConfig) (l : List DecisionEvaluation) (r : List RankedDecision)
    → rank_eligible l c ≡ ok r
    → IsRanking c l r
rank_eligible-IsRanking c l r h =
    let (k, s, e) = rank_eligible-inv c l r h in rw e (ranked_of-IsRanking c l k s)
