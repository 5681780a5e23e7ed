-- ===== src/Arithmetic/Exact.antt =====
-- Sums of short decimals are exact.
use shanghai_home_radar.Prelude.{ℕ, ◌+◌, ◌≡◌, ◌∙◌, ap, pos, List, [], ◌∷◌, arith, map}
use shanghai_home_radar.Arithmetic.{Arithmetic, IsRounded, Fits, lit, sum_from, sum}

abbrev pub total : List ℕ → ℕ
total [] = 0
total (n ∷ ns) = n + total ns

module _ {D : Type 0} ⦃a : Arithmetic D⦄ (r : IsRounded D) where
  sum_from-lit :
      (m : ℕ) (ns : List ℕ)
      → Fits (m + total ns)
      → sum_from (lit (pos m)) (map (λ n. a.lit (pos n)) ns) ≡ a.lit (pos (m + total ns))
  unfolding sum_from
  sum_from-lit m [] h = ap (λ n. a.lit (pos n)) (omega arith)
  sum_from-lit m (n ∷ ns) h =
      ap (λ x. sum_from x (map (λ n. a.lit (pos n)) ns)) (r.lit_add m n (omega (arith, h)))
      ∙ sum_from-lit (m + n) ns (omega (arith, h))
      ∙ ap (λ k. a.lit (pos k)) (omega arith)

  pub sum-lit :
      (ns : List ℕ) → Fits (total ns) → sum (map (λ n. a.lit (pos n)) ns) ≡ a.lit (pos (total ns))
  sum-lit ns h = sum_from-lit 0 ns (omega (arith, h)) ∙ ap (λ k. a.lit (pos k)) (omega arith)
