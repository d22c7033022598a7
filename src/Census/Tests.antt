-- ===== src/Census/Tests.antt =====
-- Runs of the closure and of the census, and the theorems applied to them.
use marpa_r.Prelude.{
  ℕ, zero, suc, ◌<◌, ◌≡◌, refl, Bool, true, false, ◌&&◌, ◌||◌, List, [], ◌∷◌, map, All, All-map,
  length, has, pos, ltb, ltb_ℤ, ◌==◌, arith, if◌then◌else◌, Bool-cases, inl, inr,
}
use marpa_r.BitVector.{
  BitVector, bv_clone, bv_create, bv_bit_set, bv_bit_test, bv_not, bv_or, bv_and, bv_is_empty,
  bv_or_assign,
}
use marpa_r.Matrix.{matrix_row, transitive_closure, matrix_bit_set, matrix_create, matrix_bit_test}
use marpa_r.BitVector.Full.{bv_create-IsFull, bv_bit_set-IsFull}
use marpa_r.BitVector.Scan.{set_bits}
use marpa_r.Grammar.{
  Xsy, Xrl, ErrorCode, blank_xsy, blank_xrl, counted_nullable, unproductive_start, nulling_terminal,
}
use marpa_r.Closure.{RuleLists, rules_of, rhs_closure}
use marpa_r.Closure.Derived.{needs, mentions, rule_at}
use marpa_r.Closure.Rules.{IsNamed, Closes}
use marpa_r.Closure.Loop.{rhs_closure_lem}
use marpa_r.Census.{
  PairTree, Outcome, counted, failed, overrun, census, mark_terminals, make_reach_matrix,
}
use marpa_r.Census.Index.{SymRulePair, sym_rule_cmp, index_rules, make_lists}
use marpa_r.Census.Lists.{has_pair, Ordered, PairTreeLaws}
use marpa_r.Census.Collected.{index_rules_lem, rules_of-index, make_lists-IsIndex}
use marpa_r.Census.Terminals.{Terminals, mark_terminals_lem}
use marpa_r.Census.Reach.{Reaches, make_reach_matrix_lem}

-- A tree that is a sorted list.
abbrev pub insert : SymRulePair → List SymRulePair → List SymRulePair
insert p [] = p ∷ []
insert p (q ∷ qs) =
    let rest = insert p qs in
    if ltb_ℤ (sym_rule_cmp p q) (pos 0)
    then p ∷ q ∷ qs
    else if ltb_ℤ (sym_rule_cmp q p) (pos 0)
    then q ∷ rest
    else q ∷ qs

abbrev pub insert_all : List SymRulePair → List SymRulePair
insert_all [] = []
insert_all (p ∷ ps) = insert p (insert_all ps)

abbrev pub sorted_list : PairTree
sorted_list = record { traverse = insert_all }

cmp_trans :
    (p q r : SymRulePair)
    → ltb_ℤ (sym_rule_cmp p q) (pos 0) ≡ true
    → ltb_ℤ (sym_rule_cmp q r) (pos 0) ≡ true
    → ltb_ℤ (sym_rule_cmp p r) (pos 0) ≡ true
unfolding sym_rule_cmp
cmp_trans p q r a b = ground (arith, a, b)

insert-All :
    (P : SymRulePair → Type 0) (p : SymRulePair) (qs : List SymRulePair)
    → P p
    → All P qs
    → All P (insert p qs)
insert-All P p [] h a = (h, tt)
insert-All P p (q ∷ qs) h a = elim (Bool-cases (ltb_ℤ (sym_rule_cmp p q) (pos 0))) [
  | inl e ↦ rw e (h, a)
  | inr e ↦ elim (Bool-cases (ltb_ℤ (sym_rule_cmp q p) (pos 0))) [
    | inl f ↦ rw (e, f) (a.0, insert-All P p qs h a.1)
    | inr f ↦ rw (e, f) a
  ]
]

insert-Ordered : (p : SymRulePair) (qs : List SymRulePair) → Ordered qs → Ordered (insert p qs)
insert-Ordered p [] o = (tt, tt)
insert-Ordered p (q ∷ qs) o = elim (Bool-cases (ltb_ℤ (sym_rule_cmp p q) (pos 0))) [
  | inl e ↦ rw e (
    (
      e,
      All-map (λ r. ltb_ℤ (sym_rule_cmp q r) (pos 0) ≡ true)
          (λ r. ltb_ℤ (sym_rule_cmp p r) (pos 0) ≡ true) qs (λ r h. cmp_trans p q r e h) o.0,
    ),
    o,
  )
  | inr e ↦ elim (Bool-cases (ltb_ℤ (sym_rule_cmp q p) (pos 0))) [
    | inl f ↦
        rw (e, f)
          (
            insert-All (λ r. ltb_ℤ (sym_rule_cmp q r) (pos 0) ≡ true) p qs f o.0,
            insert-Ordered p qs o.1,
          )
    | inr f ↦ rw (e, f) o
  ]
]

has_pair-insert :
    (p : SymRulePair) (qs : List SymRulePair) (s r : ℕ)
    → has_pair (insert p qs) s r ≡ ((p.symid == s && p.ruleid == r) || has_pair qs s r)
unfolding sym_rule_cmp
has_pair-insert p [] s r = refl
has_pair-insert p (q ∷ qs) s r = elim (Bool-cases (ltb_ℤ (sym_rule_cmp p q) (pos 0))) [
  | inl e ↦ rw e refl
  | inr e ↦ elim (Bool-cases (ltb_ℤ (sym_rule_cmp q p) (pos 0))) [
    | inl f ↦ rw (e, f) (ground (arith, has_pair-insert p qs s r))
    | inr f ↦ rw (e, f) (ground (arith, e, f))
  ]
]

pub sorted_laws : PairTreeLaws sorted_list
sorted_laws = record { ordered = ordered; members = members }
  where
    ordered : (ps : List SymRulePair) → Ordered (insert_all ps)
    ordered [] = tt
    ordered (p ∷ ps) = insert-Ordered p (insert_all ps) (ordered ps)

    members : (ps : List SymRulePair) (s r : ℕ) → has_pair (insert_all ps) s r ≡ has_pair ps s r
    members [] s r = refl
    members (p ∷ ps) s r = ground (arith, has_pair-insert p (insert_all ps) s r, members ps s r)

-- Symbol 0 is the start, 1 is empty, 2 a terminal.
abbrev three : List Xsy
three = blank_xsy ∷ blank_xsy ∷ blank_xsy ∷ []

abbrev two_rules : List Xrl
two_rules = blank_xrl 0 (1 ∷ 2 ∷ []) ∷ blank_xrl 1 [] ∷ []

two_rules-IsNamed : IsNamed 3 two_rules
two_rules-IsNamed = record { lhs = lhs; rhs = rhs }
  where
    lhs : (r : ℕ) → r < 2 → (rule_at two_rules r).lhs < 3
    lhs zero l = omega arith
    lhs (suc zero) l = omega arith
    lhs (suc (suc r)) l = absurd (omega arith)

    rhs : (r s : ℕ) → r < 2 → has (mentions (rule_at two_rules r)) s ≡ true → s < 3
    rhs zero s l h = ground (arith, h)
    rhs (suc zero) s l h = absurd (ground (arith, h))
    rhs (suc (suc r)) s l h = absurd (omega arith)

abbrev flags : Outcome → List (List Bool)
flags (counted xsys xrls) =
    map (λ x. x.is_nullable) xsys
    ∷ map (λ x. x.is_productive) xsys
    ∷ map (λ x. x.is_accessible) xsys
    ∷ map (λ x. x.is_nulling) xsys
    ∷ map (λ x. x.is_terminal) xsys
    ∷ map (λ r. r.is_used) xrls
    ∷ []
flags (failed code xsys events) = []
flags overrun = []

flags-census :
    flags (census sorted_list 0 three two_rules)
    ≡ (false ∷ true ∷ false ∷ [])
      ∷ (true ∷ true ∷ true ∷ [])
      ∷ (true ∷ true ∷ true ∷ [])
      ∷ (false ∷ true ∷ false ∷ [])
      ∷ (false ∷ false ∷ true ∷ [])
      ∷ (true ∷ false ∷ [])
      ∷ []
unfolding census rhs_closure set_bits bv_clone index_rules bv_bit_set make_lists sym_rule_cmp
    bv_bit_test bv_not bv_or bv_is_empty bv_and matrix_row transitive_closure matrix_bit_set
    matrix_create matrix_bit_test bv_or_assign
flags-census = refl

-- Without the terminal the start symbol is not productive.
abbrev a_loop : List Xrl
a_loop = blank_xrl 0 (0 ∷ []) ∷ blank_xrl 1 (0 ∷ []) ∷ blank_xrl 2 (1 ∷ []) ∷ []

abbrev code_of : Outcome → List ErrorCode
code_of (counted xsys xrls) = []
code_of (failed code xsys events) = code ∷ []
code_of overrun = []

census_unproductive : code_of (census sorted_list 0 three a_loop) ≡ unproductive_start ∷ []
unfolding census rhs_closure set_bits bv_clone index_rules bv_bit_set make_lists sym_rule_cmp
    bv_bit_test bv_not bv_or bv_is_empty bv_and matrix_row transitive_closure matrix_bit_set
    matrix_create matrix_bit_test bv_or_assign
census_unproductive = refl

-- An empty symbol that a sequence counts.
abbrev counted_three : List Xsy
counted_three = blank_xsy ∷ record blank_xsy { is_counted = true } ∷ blank_xsy ∷ []

census_counted : code_of (census sorted_list 0 counted_three two_rules) ≡ counted_nullable ∷ []
unfolding census rhs_closure set_bits bv_clone index_rules bv_bit_set make_lists sym_rule_cmp
    bv_bit_test bv_not bv_or bv_is_empty bv_and matrix_row transitive_closure matrix_bit_set
    matrix_create matrix_bit_test bv_or_assign
census_counted = refl

-- A locked terminal that is also an empty left side.
abbrev locked_three : List Xsy
locked_three =
    blank_xsy ∷ record blank_xsy { is_terminal = true; is_locked_terminal = true } ∷ blank_xsy ∷ []

census_locked : code_of (census sorted_list 0 locked_three two_rules) ≡ nulling_terminal ∷ []
unfolding census rhs_closure set_bits bv_clone index_rules bv_bit_set make_lists sym_rule_cmp
    bv_bit_test bv_not bv_or bv_is_empty bv_and matrix_row transitive_closure matrix_bit_set
    matrix_create matrix_bit_test bv_or_assign
census_locked = refl

rules_of-index_example :
    has (rules_of (make_lists 3 (sorted_list.traverse (index_rules 3 two_rules).rh_pairs)) 2) 0
    ≡ (ltb 0 (length two_rules) && has (mentions (rule_at two_rules 0)) 2)
rules_of-index_example =
    rules_of-index sorted_list 3 two_rules 2 0 sorted_laws two_rules-IsNamed.lhs (omega arith)

make_reach_matrix_lem_example : Reaches 3 two_rules (make_reach_matrix 3 two_rules)
make_reach_matrix_lem_example = make_reach_matrix_lem 3 two_rules (omega arith) two_rules-IsNamed

mark_terminals_lem_example :
    Terminals three
      (index_rules 3 two_rules).lhs_v
      (mark_terminals three (index_rules 3 two_rules).lhs_v)
mark_terminals_lem_example =
    mark_terminals_lem three (index_rules 3 two_rules).lhs_v
      (index_rules_lem 3 two_rules two_rules-IsNamed.lhs).lhs_sized

-- The closure of the set of symbols 1 and 2.
abbrev two_lists : RuleLists
two_lists = make_lists 3 (insert_all (index_rules 3 two_rules).rh_pairs)

abbrev one_and_two : BitVector
one_and_two = bv_bit_set (bv_bit_set (bv_create 3) 1) 2

one_and_two-empty :
    (r : ℕ)
    → r < 2
    → needs (rule_at two_rules r) ≡ []
    → bv_bit_test one_and_two (rule_at two_rules r).lhs ≡ true
unfolding bv_bit_test bv_bit_set bv_create
one_and_two-empty zero l e = absurd (ground (arith, e))
one_and_two-empty (suc zero) l e = refl
one_and_two-empty (suc (suc r)) l e = absurd (omega arith)

one_and_two_bits : one_and_two.bits ≡ 3
unfolding bv_bit_set bv_create
one_and_two_bits = refl

rhs_closure_lem_example :
    Closes 3 two_rules (bv_bit_test one_and_two) (rhs_closure 3 two_rules two_lists one_and_two)
rhs_closure_lem_example =
    rhs_closure_lem 3 two_rules two_lists one_and_two
      (make_lists-IsIndex sorted_list 3 two_rules sorted_laws two_rules-IsNamed.lhs)
      two_rules-IsNamed
      (bv_bit_set-IsFull (bv_bit_set (bv_create 3) 1) 2
        (bv_bit_set-IsFull (bv_create 3) 1 (bv_create-IsFull 3)))
      one_and_two_bits one_and_two-empty
