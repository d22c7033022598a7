-- ===== src/Loops/Lefts.antt =====
-- The lists of the rules by their left side.
use marpa_r.Prelude.{
  ℕ, zero, suc, ◌+◌, ◌<◌, ◌≡◌, refl, ap, ◌∙◌, sym, Bool, true, false, List, [], ◌∷◌, ◌++◌, length,
  has, ◌==◌, ℤ, pos, negsuc, ltb_ℤ, arith, if◌then◌else◌,
}
use mathlib.Core.List.{append_assoc, append-nil}
use marpa_r.Grammar.{Xrl}
use marpa_r.Closure.{rules_of}
use marpa_r.Census.{PairTree}
use marpa_r.Census.Index.{
  SymRulePair, Indexed, insert_rh, insert_rhs, insert_separator, mark_empty, index_sequence,
  index_rule, index_loop, index_rules, make_lists,
}
use marpa_r.Census.Lists.{has_pair, PairTreeLaws, rules_of-make_lists}

-- The left sides with the numbers of their rules, from `id` on.
abbrev lefts : ℕ → List Xrl → List SymRulePair
lefts id [] = []
lefts id (rule ∷ rules) = record { symid = rule.lhs; ruleid = id } ∷ lefts (suc id) rules

insert_rhs-lh : (is : List ℕ) (id : ℕ) (s : Indexed) → (insert_rhs is id s).lh_pairs ≡ s.lh_pairs
unfolding insert_rhs insert_rh
insert_rhs-lh [] id s = refl
insert_rhs-lh (i ∷ is) id s = insert_rhs-lh is id (insert_rh i id s)

insert_separator-lh :
    (sep : ℤ) (id : ℕ) (s : Indexed) → (insert_separator sep id s).lh_pairs ≡ s.lh_pairs
unfolding insert_separator insert_rh
insert_separator-lh (pos i) id s = refl
insert_separator-lh (negsuc i) id s = refl

index_sequence-lh :
    (id : ℕ) (rule : Xrl) (s : Indexed) → (index_sequence id rule s).lh_pairs ≡ s.lh_pairs
unfolding index_sequence mark_empty
index_sequence-lh id rule s =
    insert_separator-lh rule.separator id _ ∙ kept (ltb_ℤ (pos 0) rule.minimum)
  where
    kept : (b : Bool) → (if b then s else mark_empty rule.lhs s).lh_pairs ≡ s.lh_pairs
    kept true = refl
    kept false = refl

index_rule-lh :
    (id : ℕ) (rule : Xrl) (s : Indexed)
    → (index_rule id rule s).lh_pairs ≡ s.lh_pairs ++ record { symid = rule.lhs; ruleid = id } ∷ []
unfolding index_rule mark_empty
index_rule-lh id rule s = filled (length rule.rhs == 0) _ ∙ by_kind rule.is_sequence _
  where
    by_kind :
        (b : Bool) (s1 : Indexed)
        → (if b then index_sequence id rule s1 else s1).lh_pairs ≡ s1.lh_pairs
    by_kind true s1 = index_sequence-lh id rule s1
    by_kind false s1 = refl

    filled :
        (b : Bool) (s2 : Indexed)
        → (if b then mark_empty rule.lhs s2 else insert_rhs rule.rhs id s2).lh_pairs ≡ s2.lh_pairs
    filled true s2 = refl
    filled false s2 = insert_rhs-lh rule.rhs id s2

index_loop-lh :
    (id : ℕ) (xrls : List Xrl) (s : Indexed)
    → (index_loop id xrls s).lh_pairs ≡ s.lh_pairs ++ lefts id xrls
unfolding index_loop
index_loop-lh id [] s = sym (append-nil s.lh_pairs)
index_loop-lh id (rule ∷ rules) s =
    index_loop-lh (suc id) rules (index_rule id rule s)
    ∙ ap (λ ps. ps ++ lefts (suc id) rules) (index_rule-lh id rule s)
    ∙ append_assoc s.lh_pairs (record { symid = rule.lhs; ruleid = id } ∷ []) (lefts (suc id) rules)

-- Rule `r` has the left side `s`.
abbrev pub has_left : List Xrl → ℕ → ℕ → Bool
has_left [] s r = false
has_left (rule ∷ rules) s zero = rule.lhs == s
has_left (rule ∷ rules) s (suc r) = has_left rules s r

none_before : (id : ℕ) (xrls : List Xrl) (s r : ℕ) → r < id → has_pair (lefts id xrls) s r ≡ false
none_before id [] s r l = refl
none_before id (rule ∷ rules) s r l =
    ground (arith, none_before (suc id) rules s r (omega (arith, l)), l)

has_pair-lefts :
    (id : ℕ) (xrls : List Xrl) (s r : ℕ) → has_pair (lefts id xrls) s (id + r) ≡ has_left xrls s r
has_pair-lefts id [] s r = refl
has_pair-lefts id (rule ∷ rules) s zero =
    ground (arith, none_before (suc id) rules s (id + 0) (omega arith))
has_pair-lefts id (rule ∷ rules) s (suc r) =
    let e : suc id + r ≡ id + suc r = omega arith in
    ground (arith, rw e at (has_pair-lefts (suc id) rules s r))

-- With a tree that keeps its order, the list of rules under a symbol of the grammar, made from
-- the pairs of left sides, has exactly the rules with that left side.
pub rules_of-lefts :
    (tree : PairTree) (n : ℕ) (xrls : List Xrl) (s r : ℕ)
    → PairTreeLaws tree
    → s < n
    → has (rules_of (make_lists n (tree.traverse (index_rules n xrls).lh_pairs)) s) r
      ≡ has_left xrls s r
unfolding index_rules
rules_of-lefts tree n xrls s r laws l =
    let lh = (index_rules n xrls).lh_pairs in
    let zero_id : 0 + r ≡ r = omega arith in
    rules_of-make_lists n (tree.traverse lh) s r (laws.ordered lh) l
    ∙ laws.members lh s r
    ∙ ap (λ ps. has_pair ps s r) (index_loop-lh 0 xrls _)
    ∙ rw zero_id at (has_pair-lefts 0 xrls s r)
