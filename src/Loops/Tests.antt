-- ===== src/Loops/Tests.antt =====
-- Runs of the search for loop rules, and its theorem applied to one.
use marpa_r.Prelude.{ℕ, zero, suc, ◌<◌, ◌≡◌, refl, true, false, List, [], ◌∷◌, map, has, arith}
use marpa_r.BitVector.{BitVector, bv_create, bv_bit_set, bv_bit_test, bv_or_assign}
use marpa_r.Matrix.{matrix_bit_test, matrix_bit_set, matrix_create, transitive_closure}
use marpa_r.Grammar.{Xsy, Xrl, blank_xsy, blank_xrl}
use marpa_r.Closure.Derived.{mentions, rule_at}
use marpa_r.Closure.Rules.{IsNamed}
use marpa_r.Census.Index.{sym_rule_cmp, make_lists, index_rules}
use marpa_r.Census.Tests.{sorted_list, sorted_laws}
use marpa_r.Loops.{loop_rules}
use marpa_r.Closure.{rules_of}
use marpa_r.Loops.Lefts.{has_left, rules_of-lefts}
use marpa_r.Loops.Found.{LoopsFound, loop_rules_lem}

-- Symbol 0 becomes 1 beside the nullable 2, symbol 1 becomes 0; 3 is a terminal.
abbrev four : List Xsy
four = blank_xsy ∷ blank_xsy ∷ record blank_xsy { is_nullable = true } ∷ blank_xsy ∷ []

abbrev circle : List Xrl
circle = blank_xrl 0 (2 ∷ 1 ∷ []) ∷ blank_xrl 1 (0 ∷ []) ∷ blank_xrl 1 (3 ∷ 0 ∷ []) ∷ []

abbrev nullable_two : BitVector
nullable_two = bv_bit_set (bv_create 4) 2

loop_rules-circle :
    map
      (λ (r : Xrl). r.is_loop)
      (loop_rules four circle nullable_two
        (make_lists 4 (sorted_list.traverse (index_rules 4 circle).lh_pairs))
        false
        []).xrls
    ≡ true ∷ true ∷ false ∷ []
unfolding loop_rules index_rules make_lists bv_create bv_bit_set matrix_bit_test bv_bit_test
    transitive_closure rules_of sym_rule_cmp matrix_bit_set matrix_create bv_or_assign
loop_rules-circle = refl

-- Symbol 1 is nulling but not in the set of nullable symbols, and its rule is a loop.
loop_rules-nulling :
    map
      (λ (r : Xrl). r.is_loop)
      (loop_rules
        (blank_xsy ∷ record blank_xsy { is_nulling = true } ∷ [])
        (blank_xrl 1 (1 ∷ []) ∷ [])
        (bv_create 2)
        (make_lists 2 (sorted_list.traverse (index_rules 2 (blank_xrl 1 (1 ∷ []) ∷ [])).lh_pairs))
        false
        []).xrls
    ≡ true ∷ []
unfolding loop_rules index_rules make_lists bv_create bv_bit_set matrix_bit_test bv_bit_test
    transitive_closure rules_of sym_rule_cmp matrix_bit_set matrix_create bv_or_assign
loop_rules-nulling = refl

circle-IsNamed : IsNamed 4 circle
circle-IsNamed = record { lhs = lhs; rhs = rhs }
  where
    lhs : (r : ℕ) → r < 3 → (rule_at circle r).lhs < 4
    lhs zero l = omega arith
    lhs (suc zero) l = omega arith
    lhs (suc (suc zero)) l = omega arith
    lhs (suc (suc (suc r))) l = absurd (omega (arith, l))

    rhs : (r s : ℕ) → r < 3 → has (mentions (rule_at circle r)) s ≡ true → s < 4
    rhs zero s l h = ground (arith, h)
    rhs (suc zero) s l h = ground (arith, h)
    rhs (suc (suc zero)) s l h = ground (arith, h)
    rhs (suc (suc (suc r))) s l h = absurd (omega (arith, l))

loop_rules_lem_example : LoopsFound four nullable_two circle false (
    loop_rules four circle nullable_two
      (make_lists 4 (sorted_list.traverse (index_rules 4 circle).lh_pairs))
      false
      [])
loop_rules_lem_example =
    loop_rules_lem sorted_list four nullable_two circle 4 sorted_laws circle-IsNamed false []

rules_of-lefts_example :
    has (rules_of (make_lists 4 (sorted_list.traverse (index_rules 4 circle).lh_pairs)) 1) 2
    ≡ has_left circle 1 2
rules_of-lefts_example = rules_of-lefts sorted_list 4 circle 1 2 sorted_laws (omega arith)
