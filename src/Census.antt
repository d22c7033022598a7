-- ===== src/Census.antt =====
-- The census of the symbols in marpa_g_precompute, of cpan/engine/read_only/marpa.c: which are
-- terminal, nullable, productive, accessible and nulling, and the same of the rules.
pub mod Index
pub mod Lists
pub mod Indexing
pub mod Collected
pub mod Capacity
pub mod Flags
pub mod Terminals
pub mod Reach
pub mod Spec
pub mod Nulls
pub mod Stages
pub mod Sets
pub mod Result
pub mod Tests
use marpa_r.Prelude.{
  ℕ, zero, suc, ◌+◌, Bool, true, false, ◌&&◌, ◌||◌, not, List, [], ◌∷◌, ◌++◌, map, Option, none,
  some, length, get_or, modify, ℤ, pos, negsuc, ltb_ℤ, if◌then◌else◌,
}
use marpa_r.BitVector.{
  BitVector, bv_create, bv_shadow, bv_clone, bv_bit_set, bv_bit_clear, bv_bit_test, bv_not, bv_and,
  bv_or, bv_is_empty,
}
use marpa_r.BitVector.Scan.{set_bits}
use marpa_r.Matrix.{Matrix, matrix_create, matrix_bit_set, matrix_row, transitive_closure}
use marpa_r.Grammar.{
  Xsy, Xrl, Event, ErrorCode, blank_xsy, counted_nullable, unproductive_start, nulling_terminal,
}
use marpa_r.Closure.{RuleLists, rhs_closure}
use marpa_r.Census.Index.{SymRulePair, Indexed, index_rules, make_lists}

-- The library's tree: the pairs in the order of a traversal, after they were inserted one by one
-- under `sym_rule_cmp`.
pub record PairTree : Type 0 where
  pub traverse : List SymRulePair → List SymRulePair

-- The loop over the symbols that decides which are terminals: the status that is locked, and else
-- all that are no left side.
unfoldable pub terminal_loop : ℕ → List Xsy → BitVector → BitVector × List Xsy
terminal_loop symid [] v = (v, [])
terminal_loop symid (symbol ∷ symbols) v =
    let v' =
      if symbol.is_locked_terminal
      then (if symbol.is_terminal then bv_bit_set v symid else bv_bit_clear v symid)
      else v in
    let symbol' =
      if symbol.is_locked_terminal
      then symbol
      else if bv_bit_test v symid
      then record symbol { is_terminal = true }
      else symbol in
    let (out, rest) = terminal_loop (suc symid) symbols v' in (out, symbol' ∷ rest)

unfoldable pub mark_terminals : List Xsy → BitVector → BitVector × List Xsy
unfolding terminal_loop
mark_terminals xsys lhs_v = terminal_loop 0 xsys (bv_not (bv_create (length xsys)) lhs_v)

unfoldable pub reach_symbols : ℕ → List ℕ → Matrix → Matrix
reach_symbols lhs_id [] m = m
reach_symbols lhs_id (i ∷ is) m = reach_symbols lhs_id is (matrix_bit_set m lhs_id i)

unfoldable pub reach_separator : ℕ → ℤ → Matrix → Matrix
reach_separator lhs_id (pos i) m = matrix_bit_set m lhs_id i
reach_separator lhs_id (negsuc i) m = m

unfoldable pub reach_rules : List Xrl → Matrix → Matrix
unfolding reach_symbols reach_separator
reach_rules [] m = m
reach_rules (rule ∷ rules) m =
    let m1 = reach_symbols rule.lhs rule.rhs m in
    reach_rules rules (if rule.is_sequence then reach_separator rule.lhs rule.separator m1 else m1)

unfoldable pub make_reach_matrix : ℕ → List Xrl → Matrix
unfolding reach_rules
make_reach_matrix xsy_count xrls =
    transitive_closure (reach_rules xrls (matrix_create xsy_count xsy_count))

-- A loop over the set bits that sets a flag of each symbol.
unfoldable pub mark_symbols : (Xsy → Xsy) → List ℕ → List Xsy → List Xsy
mark_symbols f [] xsys = xsys
mark_symbols f (i ∷ is) xsys = mark_symbols f is (modify xsys i f)

abbrev pub event_counted_nullable : ℕ
event_counted_nullable = 1

abbrev pub event_nulling_terminal : ℕ
event_nulling_terminal = 5

-- The loop over the nullable symbols, with the events that it makes.
unfoldable pub mark_nullable : List ℕ → List Xsy → List Event → List Xsy × List Event
mark_nullable [] xsys events = (xsys, events)
mark_nullable (i ∷ is) xsys events =
    mark_nullable is (modify xsys i (λ x. record x { is_nullable = true })) (
      if (get_or xsys i blank_xsy).is_counted
      then events ++ record { type = event_counted_nullable; value = pos i } ∷ []
      else events)

-- The loop over the left sides that looks for those that reach no terminal.
unfoldable pub mark_nulling :
    Matrix → BitVector → List ℕ → List Xsy → List Event → List Xsy × List Event
mark_nulling reach_matrix terminal_v [] xsys events = (xsys, events)
mark_nulling reach_matrix terminal_v (i ∷ is) xsys events =
    let reaches_terminal_v = bv_and (bv_shadow terminal_v) terminal_v (matrix_row reach_matrix i) in
    let is_nulling = (bv_is_empty reaches_terminal_v).1 in
    mark_nulling reach_matrix terminal_v is
      (if is_nulling then modify xsys i (λ x. record x { is_nulling = true }) else xsys)
      (if is_nulling && (get_or xsys i blank_xsy).is_terminal
        then events ++ record { type = event_nulling_terminal; value = pos i } ∷ []
        else events)

unfoldable pub all_symbols : (Xsy → Bool) → List Xsy → List ℕ → Bool
all_symbols p xsys [] = true
all_symbols p xsys (i ∷ is) = p (get_or xsys i blank_xsy) && all_symbols p xsys is

unfoldable pub classify_bnf : List Xsy → Xrl → Xrl
unfolding all_symbols
classify_bnf xsys xrl =
    let accessible = (get_or xsys xrl.lhs blank_xsy).is_accessible in
    let nulling = all_symbols (λ x. x.is_nulling) xsys xrl.rhs in
    let productive = all_symbols (λ x. x.is_productive) xsys xrl.rhs in
    record xrl {
      is_accessible = accessible;
      is_nulling = nulling;
      is_nullable = all_symbols (λ x. x.is_nullable) xsys xrl.rhs;
      is_productive = productive;
      is_used = accessible && productive && not nulling;
    }

unfoldable pub classify_sequence : List Xsy → Xrl → Xrl
classify_sequence xsys xrl =
    let accessible = (get_or xsys xrl.lhs blank_xsy).is_accessible in
    let rh_xsy = get_or xsys (get_or xrl.rhs 0 0) blank_xsy in
    let nullable = not (ltb_ℤ (pos 0) xrl.minimum) || rh_xsy.is_nullable in
    let productive = nullable || rh_xsy.is_productive in
    let used = accessible && rh_xsy.is_productive in
    let separator : Xsy = elim (xrl.separator) as (λ _. Xsy) [
      | pos i ↦ get_or xsys i blank_xsy
      | negsuc i ↦ record blank_xsy { is_nulling = true; is_productive = true }
    ] in
    let nulling = rh_xsy.is_nulling && separator.is_nulling in
    record xrl {
      is_accessible = accessible;
      is_nulling = nulling;
      is_nullable = nullable;
      is_productive = if separator.is_productive then productive else nullable;
      is_used = used && separator.is_productive && not nulling;
    }

unfoldable pub classify_rule : List Xsy → Xrl → Xrl
unfolding classify_bnf classify_sequence
classify_rule xsys xrl =
    if xrl.is_sequence then classify_sequence xsys xrl else classify_bnf xsys xrl

-- The outcome: the symbols and rules with their properties, or the error with the symbols as far
-- as they were marked and the events; or a write past the end of a stack.
pub data Outcome : Type 0 where
  counted : List Xsy → List Xrl → Outcome
  failed : ErrorCode → List Xsy → List Event → Outcome
  overrun : Outcome

-- From the accessible symbols on.
unfoldable pub census_accessible : ℕ → List Xsy → List Xrl → Indexed → BitVector → Matrix → Outcome
unfolding mark_symbols mark_nulling classify_rule
census_accessible start_xsy_id xsys xrls indexed terminal_v reach_matrix =
    let f : Xsy → Xsy = λ x. record x { is_accessible = true } in
    let xsys1 = mark_symbols f (set_bits (matrix_row reach_matrix start_xsy_id)) xsys in
    let xsys2 = modify xsys1 start_xsy_id f in
    let (xsys3, events) = mark_nulling reach_matrix terminal_v (set_bits indexed.lhs_v) xsys2 [] in
    elim events [
      | [] ↦ counted xsys3 (map (classify_rule xsys3) xrls)
      | e ∷ es ↦ failed nulling_terminal xsys3 (e ∷ es)
    ]

-- From the productive symbols on.
unfoldable pub census_productive :
    ℕ → List Xsy → List Xrl → Indexed → RuleLists → BitVector → BitVector → Matrix → Outcome
unfolding mark_symbols census_accessible
census_productive start_xsy_id xsys xrls indexed lists terminal_v nullable_v reach_matrix =
    elim (rhs_closure (length xsys) xrls lists
      (bv_or (bv_shadow nullable_v) nullable_v terminal_v)) [
        | none ↦ overrun
        | some productive_v ↦
            let xsys' =
              mark_symbols (λ x. record x { is_productive = true }) (set_bits productive_v) xsys in
            if bv_bit_test productive_v start_xsy_id
            then census_accessible start_xsy_id xsys' xrls indexed terminal_v reach_matrix
            else failed unproductive_start xsys' []
      ]

-- From the nullable symbols on.
unfoldable pub census_nullable :
    ℕ → List Xsy → List Xrl → Indexed → RuleLists → BitVector → Matrix → BitVector → Outcome
unfolding mark_nullable census_productive
census_nullable start_xsy_id xsys xrls indexed lists terminal_v reach_matrix nullable_v =
    let (xsys', events) = mark_nullable (set_bits nullable_v) xsys [] in
    elim events [
      | [] ↦
          census_productive start_xsy_id xsys' xrls indexed lists terminal_v nullable_v reach_matrix
      | e ∷ es ↦ failed counted_nullable xsys' (e ∷ es)
    ]

unfoldable pub census : PairTree → ℕ → List Xsy → List Xrl → Outcome
unfolding mark_terminals make_reach_matrix census_nullable
census tree start_xsy_id xsys xrls =
    let xsy_count = length xsys in
    let indexed = index_rules xsy_count xrls in
    let lists = make_lists xsy_count (tree.traverse indexed.rh_pairs) in
    let (terminal_v, xsys1) = mark_terminals xsys indexed.lhs_v in
    let reach_matrix = make_reach_matrix xsy_count xrls in
    elim (rhs_closure xsy_count xrls lists (bv_clone indexed.empty_lhs_v)) [
      | none ↦ overrun
      | some nullable_v ↦
          census_nullable start_xsy_id xsys1 xrls indexed lists terminal_v reach_matrix nullable_v
    ]
