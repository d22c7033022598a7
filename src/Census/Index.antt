-- ===== src/Census/Index.antt =====
-- The first part of the census: the left sides, and the rules by the symbols on their right and on
-- their left.
use marpa_r.Prelude.{
  ℕ, suc, ◌+◌, ◌-◌, max, List, [], ◌∷◌, ◌++◌, map, length, replicate, ℤ, pos, negsuc, sub_ℕ, ltb_ℤ,
  not, ◌==◌, if◌then◌else◌,
}
use marpa_r.BitVector.{BitVector, bv_create, bv_shadow, bv_bit_set}
use marpa_r.Grammar.{Xrl}
use marpa_r.Closure.{RuleLists}

-- A symbol and a rule.
pub record SymRulePair : Type 0 where
  pub symid : ℕ
  pub ruleid : ℕ

unfoldable pub sym_rule_cmp : SymRulePair → SymRulePair → ℤ
sym_rule_cmp pair_a pair_b =
    if not (pair_a.symid == pair_b.symid)
    then sub_ℕ pair_a.symid pair_b.symid
    else sub_ℕ pair_a.ruleid pair_b.ruleid

-- The bit vectors, and the pairs in the order in which they are inserted into the two trees.
pub record Indexed : Type 0 where
  pub lhs_v : BitVector
  pub empty_lhs_v : BitVector
  pub rh_pairs : List SymRulePair
  pub lh_pairs : List SymRulePair

unfoldable pub insert_rh : ℕ → ℕ → Indexed → Indexed
insert_rh symid rule_id s = record s {
  rh_pairs = s.rh_pairs ++ record { symid = symid; ruleid = rule_id } ∷ [];
}

unfoldable pub insert_rhs : List ℕ → ℕ → Indexed → Indexed
unfolding insert_rh
insert_rhs [] rule_id s = s
insert_rhs (i ∷ is) rule_id s = insert_rhs is rule_id (insert_rh i rule_id s)

unfoldable pub mark_empty : ℕ → Indexed → Indexed
mark_empty lhs_id s = record s { empty_lhs_v = bv_bit_set s.empty_lhs_v lhs_id }

-- A separator below 0 is none.
unfoldable pub insert_separator : ℤ → ℕ → Indexed → Indexed
unfolding insert_rh
insert_separator (pos i) rule_id s = insert_rh i rule_id s
insert_separator (negsuc i) rule_id s = s

-- What the loop does for a sequence rule.
unfoldable pub index_sequence : ℕ → Xrl → Indexed → Indexed
unfolding insert_separator mark_empty
index_sequence rule_id rule s =
    insert_separator rule.separator rule_id
      (if ltb_ℤ (pos 0) rule.minimum then s else mark_empty rule.lhs s)

-- The body of the loop over the rules.
unfoldable pub index_rule : ℕ → Xrl → Indexed → Indexed
unfolding index_sequence mark_empty insert_rhs
index_rule rule_id rule s =
    let s1 : Indexed = record s {
      lhs_v = bv_bit_set s.lhs_v rule.lhs;
      lh_pairs = s.lh_pairs ++ record { symid = rule.lhs; ruleid = rule_id } ∷ [];
    } in
    let s2 = if rule.is_sequence then index_sequence rule_id rule s1 else s1 in
    if length rule.rhs == 0 then mark_empty rule.lhs s2 else insert_rhs rule.rhs rule_id s2

unfoldable pub index_loop : ℕ → List Xrl → Indexed → Indexed
unfolding index_rule
index_loop rule_id [] s = s
index_loop rule_id (rule ∷ rules) s = index_loop (suc rule_id) rules (index_rule rule_id rule s)

unfoldable pub index_rules : ℕ → List Xrl → Indexed
unfolding index_loop
index_rules xsy_count xrls =
    let lhs_v = bv_create xsy_count in
    index_loop 0 xrls
      (record { lhs_v = lhs_v; empty_lhs_v = bv_shadow lhs_v; rh_pairs = []; lh_pairs = [] })

-- The loops that fill `xrl_list_x_rh_sym` or `xrl_list_x_lh_sym` from a traversal: `next` is
-- `seen_symid + 1`, and `p` the place of `p_rule_data`.
unfoldable pub fill_offsets : ℕ → List SymRulePair → ℕ → ℕ → List ℕ
fill_offsets xsy_count [] next p = replicate (xsy_count + 1 - next) p
fill_offsets xsy_count (pair ∷ pairs) next p =
    replicate (pair.symid + 1 - next) p
    ++ fill_offsets xsy_count pairs (max next (pair.symid + 1)) (p + 1)

unfoldable pub make_lists : ℕ → List SymRulePair → RuleLists
unfolding fill_offsets
make_lists xsy_count pairs = record {
  offsets = fill_offsets xsy_count pairs 0 0;
  rule_data = map (λ (p : SymRulePair). p.ruleid) pairs;
}
