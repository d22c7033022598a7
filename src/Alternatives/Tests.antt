-- ===== src/Alternatives/Tests.antt =====
-- A stack with two alternatives.
use marpa_r.Prelude.{
  ℕ, zero, suc, ◌<◌, ◌≡◌, refl, List, [], ◌∷◌, none, some, length, get_or, inl, pos, negsuc, arith,
}
use marpa_r.Alternatives.{
  Alternative, blank_alternative, alternative_insert, alternative_pop, alternative_insertion_point,
}
use marpa_r.Alternatives.Search.{Before, Sorted, Answer, alternative_insertion_point_lem}
use marpa_r.Alternatives.Insert.{Insertion, alternative_insert_lem}
use marpa_r.Alternatives.Pop.{Popped, alternative_pop_lem}

abbrev token : ℕ → ℕ → ℕ → Alternative
token start end nsyid = record blank_alternative {
  start_earleme = start;
  end_earleme = end;
  nsyid = nsyid;
}

-- The one below ends at 5, the top one at 3.
abbrev two : List Alternative
two = token 2 5 7 ∷ token 2 3 7 ∷ []

two_ordered :
    (i j : ℕ)
    → i < j
    → j < length two
    → Before (get_or two i blank_alternative) (get_or two j blank_alternative)
two_ordered zero zero h l = absurd (omega arith)
two_ordered zero (suc zero) h l = record { less = inl (ground arith) }
two_ordered zero (suc (suc j)) h l = absurd (omega arith)
two_ordered (suc i) j h l = absurd (omega arith)

two-Sorted : Sorted two
two-Sorted = record { ordered = two_ordered }

runs :
    (alternative_insert two (token 2 3 8) ≡ (token 2 5 7 ∷ token 2 3 7 ∷ token 2 3 8 ∷ [], pos 2))
    × (alternative_insert two (token 2 4 1) ≡ (token 2 5 7 ∷ token 2 4 1 ∷ token 2 3 7 ∷ [], pos 1))
    × (alternative_insert two (token 2 5 7) ≡ (two, negsuc 0))
    × (alternative_pop two 3 ≡ (token 2 5 7 ∷ [], some (token 2 3 7)))
    × (alternative_pop two 2 ≡ (two, none))
unfolding alternative_insert alternative_pop
runs = (refl, refl, refl, refl, refl)

alternative_insertion_point_lem_example :
    Answer two (token 2 4 1) (alternative_insertion_point two (token 2 4 1))
alternative_insertion_point_lem_example =
    alternative_insertion_point_lem two (token 2 4 1) two-Sorted

alternative_insert_lem_example : Insertion two (token 2 4 1) (alternative_insert two (token 2 4 1))
alternative_insert_lem_example = alternative_insert_lem two (token 2 4 1) two-Sorted

alternative_pop_lem_example : Popped two 3 (alternative_pop two 3)
alternative_pop_lem_example = alternative_pop_lem two 3 two-Sorted
