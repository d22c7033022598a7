-- ===== src/Postdot/Tests.antt =====
-- A search among three symbols.
use marpa_r.Prelude.{ℕ, zero, suc, ◌<◌, ◌≡◌, refl, List, [], ◌∷◌, none, some, length, get_or, arith}
use marpa_r.Postdot.{pim_nsy_p_find}
use marpa_r.Postdot.Search.{Found, pim_nsy_p_find_lem}

abbrev three : List ℕ
three = 2 ∷ 5 ∷ 9 ∷ []

runs :
    (pim_nsy_p_find three 9 ≡ some 2)
    × (pim_nsy_p_find three 2 ≡ some 0)
    × (pim_nsy_p_find three 4 ≡ none)
    × (pim_nsy_p_find [] 4 ≡ none)
unfolding pim_nsy_p_find
runs = (refl, refl, refl, refl)

three_ordered : (i j : ℕ) → i < j → j < length three → get_or three i 0 < get_or three j 0
three_ordered i zero h l = absurd (omega arith)
three_ordered zero (suc zero) h l = omega arith
three_ordered zero (suc (suc zero)) h l = omega arith
three_ordered (suc zero) (suc (suc zero)) h l = omega arith
three_ordered (suc zero) (suc zero) h l = absurd (omega arith)
three_ordered (suc (suc i)) (suc zero) h l = absurd (omega arith)
three_ordered (suc (suc i)) (suc (suc zero)) h l = absurd (omega arith)
three_ordered i (suc (suc (suc j))) h l = absurd (omega arith)

pim_nsy_p_find_lem_example : Found three 9 (pim_nsy_p_find three 9)
pim_nsy_p_find_lem_example = pim_nsy_p_find_lem three 9 (record { ordered = three_ordered })
