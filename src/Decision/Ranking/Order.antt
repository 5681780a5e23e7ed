-- ===== src/Decision/Ranking/Order.antt =====
-- The ranking does not depend on the order in which the evaluations arrive.
use mathlib.Core.List.{Perm, Permᴰ, Pairwise, Mem, mem-cons, not-mem-nil}
use mathlib.Core.Logic.Or
use mathlib.Core.Logic.{∥∥₁_elim}
use mathlib.Core.Path.{subst}
use shanghai_home_radar.Prelude.{
  String_set, ◌≡◌, ◌≢◌, refl, sym, ap, ◌∙◌, ℤ, pos, Bool, Option, none, some, List, [], ◌∷◌, Result,
  ok, Result-cases, arith, All, select, inl, inr, Bool-cases, length, All-select,
}
use shanghai_home_radar.Sorting.{sort_by}
use shanghai_home_radar.Sorting.Laws.{IsTotal, Differ, sort_by_of_permᴰ, select-perm}
use shanghai_home_radar.Sorting.Lex.{lex_leb_total, lex_leb_trans, lex_leb_antisym}
use shanghai_home_radar.Decision.Domain.{DecisionEvaluation, RankedDecision}
use shanghai_home_radar.Decision.Config.{DecisionConfig}
use shanghai_home_radar.Decision.Workflow.{is_eligible}
use shanghai_home_radar.Decision.Ranking.{
  decision_sort_key, Keyed, with_keys, keyed_leb, eligible_only, number_from, rank_eligible,
}

pub keyed_leb-IsTotal : IsTotal keyed_leb
keyed_leb-IsTotal = record {
  total = λ a b. lex_leb_total a.0 b.0;
  trans = λ a b c. lex_leb_trans a.0 b.0 c.0;
}

-- No two evaluations are of one listing.
abbrev pub DistinctListings : List DecisionEvaluation → Type 0
DistinctListings [] = Unit
DistinctListings (e ∷ es) = All (λ f. e.listing_id ≢ f.listing_id) es × DistinctListings es

abbrev last_of : List ℤ → Option ℤ
last_of [] = none
last_of (x ∷ []) = some x
last_of (x ∷ y ∷ xs) = last_of (y ∷ xs)

-- The key ends with the listing.
key_last :
    (e : DecisionEvaluation) (c : DecisionConfig) (key : List ℤ)
    → decision_sort_key e c ≡ ok key
    → last_of key ≡ some (pos e.listing_id)
unfolding decision_sort_key
key_last e c key h = ground arith

key_apart :
    (c : DecisionConfig) (a b : Keyed)
    → decision_sort_key a.1 c ≡ ok a.0
    → decision_sort_key b.1 c ≡ ok b.0
    → a.1.listing_id ≢ b.1.listing_id
    → Differ keyed_leb a b
key_apart c a b h k d p q =
    d (cc (key_last a.1 c a.0 h, key_last b.1 c b.0 k, lex_leb_antisym a.0 b.0 p q))

-- The second list holds the first, each element with its key.
abbrev pub KeyedAs : DecisionConfig → List DecisionEvaluation → List Keyed → Type 0
KeyedAs c [] [] = Unit
KeyedAs c [] (x ∷ xs) = ⊥
KeyedAs c (e ∷ es) [] = ⊥
KeyedAs c (e ∷ es) (x ∷ xs) = (decision_sort_key e c ≡ ok x.0) × (x.1 ≡ e) × KeyedAs c es xs

pub with_keys-KeyedAs :
    (c : DecisionConfig) (l : List DecisionEvaluation) (k : List Keyed)
    → with_keys c l ≡ ok k
    → KeyedAs c l k
unfolding with_keys
with_keys-KeyedAs c [] [] h = tt
with_keys-KeyedAs c [] (x ∷ xs) h = cc
with_keys-KeyedAs c (e ∷ es) [] h = ground arith
with_keys-KeyedAs c (e ∷ es) (x ∷ xs) h = ground (arith, with_keys-KeyedAs c es xs)

pub KeyedAs-with_keys :
    (c : DecisionConfig) (l : List DecisionEvaluation) (k : List Keyed)
    → KeyedAs c l k
    → with_keys c l ≡ ok k
unfolding with_keys
KeyedAs-with_keys c [] [] h = refl
KeyedAs-with_keys c [] (x ∷ xs) h = elim h [ ]
KeyedAs-with_keys c (e ∷ es) [] h = elim h [ ]
KeyedAs-with_keys c (e ∷ es) (x ∷ xs) h = ground (arith, KeyedAs-with_keys c es xs h.2)

KeyedAs-perm :
    (c : DecisionConfig) {l m : List DecisionEvaluation} (k : List Keyed)
    → Permᴰ l m
    → KeyedAs c l k
    → (k' : List Keyed) × KeyedAs c m k' × Permᴰ k k'
KeyedAs-perm c [] Permᴰ.nil h = ([], tt, Permᴰ.nil)
KeyedAs-perm c (x ∷ k) Permᴰ.nil h = elim h [ ]
KeyedAs-perm c [] (Permᴰ.cons e p) h = elim h [ ]
KeyedAs-perm c (x ∷ k) (Permᴰ.cons e p) h =
    let (k', s, q) = KeyedAs-perm c k p h.2 in (x ∷ k', (cc, h.1 ∙ e, s), Permᴰ.cons refl q)
KeyedAs-perm c [] (Permᴰ.swap e f) h = elim h [ ]
KeyedAs-perm c (x ∷ []) (Permᴰ.swap e f) h = elim h.2 [ ]
KeyedAs-perm c (x ∷ y ∷ k) (Permᴰ.swap e f) h =
    (y ∷ x ∷ k, (cc, h.2.1 ∙ f, (cc, h.1 ∙ e, h.2.2)), Permᴰ.swap refl refl)
KeyedAs-perm c k (Permᴰ.trans p q) h =
    let (k', s, r) = KeyedAs-perm c k p h in
    let (k'', s', r') = KeyedAs-perm c k' q s in (k'', s', Permᴰ.trans r r')

-- The keys of different listings are told apart.
Apart : List Keyed → Type 0
Apart = Pairwise (Differ keyed_leb)

KeyedAs-below :
    (c : DecisionConfig) (x : Keyed) (es : List DecisionEvaluation) (k : List Keyed)
    → decision_sort_key x.1 c ≡ ok x.0
    → KeyedAs c es k
    → All (λ f. x.1.listing_id ≢ f.listing_id) es
    → All (Differ keyed_leb x) k
KeyedAs-below c x [] [] h s d = tt
KeyedAs-below c x [] (y ∷ k) h s d = elim s [ ]
KeyedAs-below c x (e ∷ es) [] h s d = elim s [ ]
KeyedAs-below c x (e ∷ es) (y ∷ k) h s d =
    (key_apart c x y h (cc (s.0, s.1)) (λ q. d.0 (cc (q, s.1))), KeyedAs-below c x es k h s.2 d.1)

-- A property of all elements, at a member.
All-Mem :
    {x : Keyed} {P : Keyed → Type 0} (k : List Keyed)
    → ((y : Keyed) → IsProp (P y))
    → All P k
    → Mem x k
    → P x
All-Mem [] p h m = absurd (not-mem-nil m)
All-Mem {x} {P} (y ∷ k) p h m =
    Or.elim (p x) (mem-cons.0 m) (λ e. subst P (sym e) h.0) (All-Mem k p h.1)

KeyedAs-Apart :
    (c : DecisionConfig) (es : List DecisionEvaluation) (k : List Keyed)
    → KeyedAs c es k
    → DistinctListings es
    → Apart k
unfolding Apart
KeyedAs-Apart c [] [] s d = Pairwise.nil
KeyedAs-Apart c [] (y ∷ k) s d = elim s [ ]
KeyedAs-Apart c (e ∷ es) [] s d = elim s [ ]
KeyedAs-Apart c (e ∷ es) (y ∷ k) s d =
    Pairwise.cons
      (λ z m. All-Mem k (λ w. hlevel) (KeyedAs-below c y es k (cc (s.0, s.1)) s.2 (rw s.1 d.0)) m)
      (KeyedAs-Apart c es k s.2 d.1)

DistinctListings-select :
    (p : DecisionEvaluation → Bool) (es : List DecisionEvaluation)
    → DistinctListings es
    → DistinctListings (select p es)
DistinctListings-select p [] d = tt
DistinctListings-select p (e ∷ es) d = elim (Bool-cases (p e)) [
  | inl q ↦
      rw q
        (All-select (λ f. e.listing_id ≢ f.listing_id) p es d.0, DistinctListings-select p es d.1)
  | inr q ↦ rw q (DistinctListings-select p es d.1)
]

-- The ranking that belongs to the keyed candidates.
unfoldable pub ranked_of : List Keyed → List RankedDecision
ranked_of k = number_from 1 (length (sort_by keyed_leb k)) (sort_by keyed_leb k)

pub rank_eligible-ranked_of :
    (c : DecisionConfig) (l : List DecisionEvaluation) (k : List Keyed)
    → with_keys c (eligible_only l) ≡ ok k
    → rank_eligible l c ≡ ok (ranked_of k)
unfolding rank_eligible ranked_of
rank_eligible-ranked_of c l k e = rw (e, rank_eligible)

-- A ranking that succeeds comes from keyed candidates.
pub rank_eligible-inv :
    (c : DecisionConfig) (l : List DecisionEvaluation) (r : List RankedDecision)
    → rank_eligible l c ≡ ok r
    → (k : List Keyed) × KeyedAs c (eligible_only l) k × (r ≡ ranked_of k)
unfolding rank_eligible ranked_of
rank_eligible-inv c l r h = elim (Result-cases (with_keys c (eligible_only l))) [
  | inl (k, e) ↦ (k, with_keys-KeyedAs c (eligible_only l) k e, ground arith)
  | inr (error, e) ↦ absurd (ground arith)
]

eligible_only-perm :
    {l m : List DecisionEvaluation} → Permᴰ l m → Permᴰ (eligible_only l) (eligible_only m)
unfolding eligible_only
eligible_only-perm p = select-perm (λ e. is_eligible e.eligibility_status) p

rank_eligible_of_permᴰ :
    (c : DecisionConfig) {l m : List DecisionEvaluation} (r : List RankedDecision)
    → Permᴰ l m
    → DistinctListings l
    → rank_eligible l c ≡ ok r
    → rank_eligible m c ≡ ok r
unfolding eligible_only ranked_of Apart
rank_eligible_of_permᴰ c {l} {m} r p d h =
    let (k, s, e) = rank_eligible-inv c l r h in
    let (k', s', q) = KeyedAs-perm c k (eligible_only-perm p) s in
    let apart = KeyedAs-Apart c (eligible_only l) k s (DistinctListings-select _ l d) in
    let same = sort_by_of_permᴰ keyed_leb keyed_leb-IsTotal q apart in
    rank_eligible-ranked_of c m k' (KeyedAs-with_keys c (eligible_only m) k' s')
    ∙ ap (λ o. ok (number_from 1 (length o) o)) (sym same)
    ∙ ap ok (sym e)

RankedDecision-set : IsSet (Result (List RankedDecision))
RankedDecision-set = hlevel String_set

-- Evaluations of different listings are ranked alike in whatever order they arrive.
pub rank_eligible_of_perm :
    (c : DecisionConfig) (l m : List DecisionEvaluation) (r : List RankedDecision)
    → Perm l m
    → DistinctListings l
    → rank_eligible l c ≡ ok r
    → rank_eligible m c ≡ ok r
rank_eligible_of_perm c l m r p d h =
    ∥∥₁_elim p (RankedDecision-set _ _) (λ q. rank_eligible_of_permᴰ c r q d h)
