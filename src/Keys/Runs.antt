-- ===== src/Keys/Runs.antt =====
-- The order at concrete keys.
use scoria_db.Base.{◌≡◌, refl, [], ◌∷◌, Ordering}
use scoria_db.Keys.{compare_keys}
use scoria_db.Keys.Order.{lex, compare_keys-eq-lex}

prefix_first : compare_keys (1 ∷ 2 ∷ []) (1 ∷ 2 ∷ 0 ∷ []) ≡ Ordering.lt
unfolding compare_keys
prefix_first = refl

difference_decides : compare_keys (1 ∷ 3 ∷ []) (1 ∷ 2 ∷ 0 ∷ []) ≡ Ordering.gt
unfolding compare_keys
difference_decides = refl

compare_keys-eq-lex_example : compare_keys (1 ∷ 2 ∷ []) (1 ∷ 3 ∷ []) ≡ lex (1 ∷ 2 ∷ []) (1 ∷ 3 ∷ [])
compare_keys-eq-lex_example = compare_keys-eq-lex (1 ∷ 2 ∷ []) (1 ∷ 3 ∷ [])
