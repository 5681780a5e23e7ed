-- ===== src/Sorting/Lex.antt =====
-- The order of key tuples is total, transitive and antisymmetric.
use shanghai_home_radar.Prelude.{◌≡◌, refl, true, false, List, [], ◌∷◌, ℤ, eq_of_parts, arith}
use shanghai_home_radar.Sorting.{lex_leb}

pub lex_leb_total : (xs ys : List ℤ) → lex_leb xs ys ≡ false → lex_leb ys xs ≡ true
unfolding lex_leb
lex_leb_total [] ys h = cc
lex_leb_total (x ∷ xs) [] h = refl
lex_leb_total (x ∷ xs) (y ∷ ys) h = ground (arith, lex_leb_total xs ys)

pub lex_leb_trans :
    (xs ys zs : List ℤ) → lex_leb xs ys ≡ true → lex_leb ys zs ≡ true → lex_leb xs zs ≡ true
unfolding lex_leb
lex_leb_trans [] ys zs h k = refl
lex_leb_trans (x ∷ xs) [] zs h k = cc
lex_leb_trans (x ∷ xs) (y ∷ ys) [] h k = cc
lex_leb_trans (x ∷ xs) (y ∷ ys) (z ∷ zs) h k = ground (arith, lex_leb_trans xs ys zs)

pub lex_leb_antisym : (xs ys : List ℤ) → lex_leb xs ys ≡ true → lex_leb ys xs ≡ true → xs ≡ ys
unfolding lex_leb
lex_leb_antisym [] [] h k = refl
lex_leb_antisym [] (y ∷ ys) h k = cc
lex_leb_antisym (x ∷ xs) [] h k = cc
lex_leb_antisym (x ∷ xs) (y ∷ ys) h k = ground (arith, eq_of_parts x y, lex_leb_antisym xs ys)
