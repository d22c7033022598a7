-- ===== src/Loops.antt =====
-- The loop rules in marpa_g_precompute, of cpan/engine/read_only/marpa.c: the matrix of the unit
-- transitions between the rules, and the rules that lead back to themselves.
pub mod Lefts
pub mod Steps
pub mod Rows
pub mod Marks
pub mod Result
pub mod Found
mod Tests
use marpa_r.Prelude.{
  ℕ, zero, suc, ◌+◌, Bool, true, false, List, [], ◌∷◌, ◌++◌, length, get_or, modify, ℤ, pos, negsuc,
  pos_part, ◌==◌, if◌then◌else◌,
}
use marpa_r.BitVector.{BitVector, bv_bit_test}
use marpa_r.Matrix.{Matrix, matrix_create, matrix_bit_set, matrix_bit_test, transitive_closure}
use marpa_r.Grammar.{Xsy, Xrl, Event, blank_xsy}
use marpa_r.Closure.{RuleLists, rules_of}

-- The loop that counts the symbols that are not nullable, with the last one of them.
unfoldable pub count_nonnullable : BitVector → List ℕ → ℤ → ℕ → ℤ × ℕ
count_nonnullable nullable_v [] nonnullable_id nonnullable_count =
    (nonnullable_id, nonnullable_count)
count_nonnullable nullable_v (xsy_id ∷ rhs) nonnullable_id nonnullable_count =
    let nullable = bv_bit_test nullable_v xsy_id in
    count_nonnullable nullable_v rhs (if nullable then nonnullable_id else pos xsy_id)
      (if nullable then nonnullable_count else nonnullable_count + 1)

-- The loop over the rules with a left side.
unfoldable pub set_transitions : ℕ → List ℕ → Matrix → Matrix
set_transitions rule_id [] m = m
set_transitions rule_id (to_rule_id ∷ to) m =
    set_transitions rule_id to (matrix_bit_set m rule_id to_rule_id)

-- The loop over a right side that is all nullable.
unfoldable pub nullable_transitions : List Xsy → RuleLists → ℕ → List ℕ → Matrix → Matrix
unfolding set_transitions
nullable_transitions xsys lists rule_id [] m = m
nullable_transitions xsys lists rule_id (id ∷ rhs) m = nullable_transitions xsys lists rule_id rhs (
    if (get_or xsys id blank_xsy).is_nulling
    then m
    else set_transitions rule_id (rules_of lists id) m)

-- The body of the loop over the rules.
unfoldable pub rule_transitions : List Xsy → BitVector → RuleLists → ℕ → Xrl → Matrix → Matrix
unfolding count_nonnullable set_transitions nullable_transitions
rule_transitions xsys nullable_v lists rule_id rule m =
    let (nonnullable_id, nonnullable_count) = count_nonnullable nullable_v rule.rhs (negsuc 0) 0 in
    if nonnullable_count == 1
    then set_transitions rule_id (rules_of lists (pos_part nonnullable_id)) m
    else if nonnullable_count == 0
    then nullable_transitions xsys lists rule_id rule.rhs m
    else m

unfoldable pub unit_transitions : List Xsy → BitVector → RuleLists → ℕ → List Xrl → Matrix → Matrix
unfolding rule_transitions
unit_transitions xsys nullable_v lists rule_id [] m = m
unit_transitions xsys nullable_v lists rule_id (rule ∷ rules) m =
    unit_transitions xsys nullable_v lists (suc rule_id) rules
      (rule_transitions xsys nullable_v lists rule_id rule m)

-- The loop that marks the rules, with the count of them. `n` rules are left.
unfoldable pub mark_loops : Matrix → ℕ → ℕ → List Xrl → ℕ → List Xrl × ℕ
mark_loops m zero rule_id xrls loop_rule_count = (xrls, loop_rule_count)
mark_loops m (suc n) rule_id xrls loop_rule_count =
    let looping = matrix_bit_test m rule_id rule_id in
    mark_loops m n (suc rule_id)
      (if looping then modify xrls rule_id (λ r. record r { is_loop = true }) else xrls)
      (if looping then loop_rule_count + 1 else loop_rule_count)

abbrev pub event_loop_rules : ℕ
event_loop_rules = 4

-- The rules, `t_has_cycle` and the events.
pub record Looped : Type 0 where
  pub xrls : List Xrl
  pub has_cycle : Bool
  pub events : List Event

unfoldable pub loop_rules : List Xsy → List Xrl → BitVector → RuleLists → Bool → List Event → Looped
unfolding unit_transitions mark_loops
loop_rules xsys xrls nullable_v lists has_cycle events =
    let n = length xrls in
    let m =
      transitive_closure (unit_transitions xsys nullable_v lists 0 xrls (matrix_create n n)) in
    let (xrls1, loop_rule_count) = mark_loops m n 0 xrls 0 in
    if loop_rule_count == 0
    then record { xrls = xrls1; has_cycle = has_cycle; events = events }
    else record {
      xrls = xrls1;
      has_cycle = true;
      events = events ++ record { type = event_loop_rules; value = pos loop_rule_count } ∷ [];
    }
