-- ===== src/Closure.antt =====
-- rhs_closure of cpan/engine/read_only/marpa.c: the symbols that follow from a set of symbols,
-- where a rule adds its left side if its right side is in the set. Precomputation uses it for
-- the nullable and the productive symbols.
pub mod Derived
pub mod Rules
pub mod Loop
use marpa_r.Prelude.{
  ℕ, zero, suc, ◌+◌, ◌-◌, Bool, true, false, ◌&&◌, ◌||◌, not, List, [], ◌∷◌, ◌++◌, Option, none,
  some, length, get_or, ℤ, pos, negsuc, ltb, ltb_ℤ, if◌then◌else◌,
}
use marpa_r.BitVector.{BitVector, bv_bit_test, bv_bit_set}
use marpa_r.BitVector.Scan.{bv_scan, set_bits}
use marpa_r.Grammar.{Xrl, blank_xrl}

-- The lists of rule identifiers by symbol (`xrl_list_x_rh_sym`, `xrl_list_x_lh_sym`): the list of
-- symbol `i` lies in `rule_data` from the place that `offsets` has at `i` to the one at `i + 1`.
pub record RuleLists : Type 0 where
  pub offsets : List ℕ
  pub rule_data : List ℕ

abbrev pub take : ℕ → List ℕ → List ℕ
take zero xs = []
take (suc n) [] = []
take (suc n) (x ∷ xs) = x ∷ take n xs

abbrev pub drop : ℕ → List ℕ → List ℕ
drop zero xs = xs
drop (suc n) [] = []
drop (suc n) (x ∷ xs) = drop n xs

unfoldable pub rules_of : RuleLists → ℕ → List ℕ
rules_of lists xsy_id =
    let from = get_or lists.offsets xsy_id 0 in
    take (get_or lists.offsets (xsy_id + 1) 0 - from) (drop from lists.rule_data)

-- The loop over the right side.
unfoldable pub all_set : BitVector → List ℕ → Bool
all_set bv [] = true
all_set bv (i ∷ is) = bv_bit_test bv i && all_set bv is

-- `is_sequence&&Minimum_of_XRL(rule)>=2`, and a separator that is not in the set.
unfoldable pub lacks_separator : BitVector → Xrl → Bool
lacks_separator bv rule = elim (rule.separator) [
  | pos i ↦ rule.is_sequence && ltb_ℤ (pos 1) rule.minimum && not (bv_bit_test bv i)
  | negsuc i ↦ false
]

-- The set and the stack, the top first.
pub record Work : Type 0 where
  pub bv : BitVector
  pub stack : List ℕ

-- The body of the inner loop, up to NEXT_RULE. The stack has room for `capacity` symbols; `none` is
-- a push past its end, which the code does not check for.
unfoldable pub closure_rule : ℕ → List Xrl → ℕ → Work → Option Work
unfolding all_set lacks_separator
closure_rule capacity xrls rule_id w =
    let rule = get_or xrls rule_id (blank_xrl 0 []) in
    if bv_bit_test w.bv rule.lhs
    then some w
    else if not (all_set w.bv rule.rhs)
    then some w
    else if lacks_separator w.bv rule
    then some w
    else if ltb (length w.stack) capacity
    then some (record { bv = bv_bit_set w.bv rule.lhs; stack = rule.lhs ∷ w.stack })
    else none

unfoldable pub closure_rule_list : ℕ → List Xrl → List ℕ → Work → Option Work
unfolding closure_rule
closure_rule_list capacity xrls [] w = some w
closure_rule_list capacity xrls (id ∷ ids) w = elim (closure_rule capacity xrls id w) [
  | none ↦ none
  | some w' ↦ closure_rule_list capacity xrls ids w'
]

-- The outer loop. The first argument bounds the symbols that are popped; there are no more than
-- symbols of the grammar.
unfoldable pub closure_loop : ℕ → ℕ → List Xrl → RuleLists → BitVector → List ℕ → Option BitVector
unfolding closure_rule_list rules_of
closure_loop n capacity xrls lists bv [] = some bv
closure_loop zero capacity xrls lists bv (i ∷ stack) = none
closure_loop (suc n) capacity xrls lists bv (i ∷ stack) =
    elim (closure_rule_list capacity xrls (rules_of lists i) (record { bv = bv; stack = stack })) [
      | none ↦ none
      | some w ↦ closure_loop n capacity xrls lists w.bv w.stack
    ]

unfoldable pub push_all : ℕ → List ℕ → List ℕ → Option (List ℕ)
push_all capacity [] stack = some stack
push_all capacity (i ∷ is) stack =
    let rest = push_all capacity is (i ∷ stack) in
    if ltb (length stack) capacity then rest else none

-- For a grammar with `xsy_count` symbols.
unfoldable pub rhs_closure : ℕ → List Xrl → RuleLists → BitVector → Option BitVector
unfolding push_all closure_loop
rhs_closure xsy_count xrls lists bv = elim (push_all xsy_count (set_bits bv) []) [
  | none ↦ none
  | some stack ↦ closure_loop xsy_count xsy_count xrls lists (bv_scan bv 0).0 stack
]
