-- ===== src/Census/Capacity.antt =====
-- The room in the arrays in which the pairs of symbols and rules are laid out.
use marpa_r.Prelude.{
  ℕ, suc, ◌+◌, ◌≤◌, ◌≡◌, Bool, true, false, List, [], ◌∷◌, ◌++◌, length, length-append, ℤ, pos,
  negsuc, ltb_ℤ, ◌==◌, inl, inr, arith, if◌then◌else◌, Bool-cases,
}
use marpa_r.BitVector.{bv_bit_set, bv_create, bv_shadow}
use marpa_r.Grammar.{Xrl}
use marpa_r.Grammar.Invariant.{total_size}
use marpa_r.Census.Index.{
  Indexed, insert_rh, insert_rhs, insert_separator, mark_empty, index_sequence, index_rule,
  index_loop, index_rules,
}

-- At most `k` pairs more on the right, and `l` on the left.
record Grows (k l : ℕ) (s t : Indexed) : Type 0 where
  rh : length t.rh_pairs ≤ k + length s.rh_pairs
  lh : length t.lh_pairs ≡ l + length s.lh_pairs

insert_rhs-Grows : (is : List ℕ) (id : ℕ) (s : Indexed) → Grows (length is) 0 s (insert_rhs is id s)
unfolding insert_rhs insert_rh
insert_rhs-Grows [] id s = record { rh = omega arith; lh = omega arith }
insert_rhs-Grows (i ∷ is) id s =
    let r = insert_rhs-Grows is id (insert_rh i id s) in
    record {
      rh = omega (arith, r.rh, length-append s.rh_pairs (record { symid = i; ruleid = id } ∷ []));
      lh = r.lh;
    }

insert_separator-Grows : (sep : ℤ) (id : ℕ) (s : Indexed) → Grows 1 0 s (insert_separator sep id s)
unfolding insert_separator insert_rh
insert_separator-Grows (pos i) id s = record {
  rh = omega (arith, length-append s.rh_pairs (record { symid = i; ruleid = id } ∷ []));
  lh = omega arith;
}
insert_separator-Grows (negsuc i) id s = record { rh = omega arith; lh = omega arith }

index_sequence-Grows : (id : ℕ) (rule : Xrl) (s : Indexed) → Grows 1 0 s (index_sequence id rule s)
unfolding index_sequence mark_empty
index_sequence-Grows id rule s = elim (Bool-cases (ltb_ℤ (pos 0) rule.minimum)) [
  | inl e ↦
      let r = insert_separator-Grows rule.separator id s in
      record { rh = rw e r.rh; lh = rw e r.lh }
  | inr e ↦
      let r = insert_separator-Grows rule.separator id (mark_empty rule.lhs s) in
      record { rh = rw e r.rh; lh = rw e r.lh }
]

index_rule-Grows :
    (id : ℕ) (rule : Xrl) (s : Indexed) → Grows (1 + length rule.rhs) 1 s (index_rule id rule s)
unfolding index_rule mark_empty
index_rule-Grows id rule s =
    let s1 : Indexed = record s {
      lhs_v = bv_bit_set s.lhs_v rule.lhs;
      lh_pairs = s.lh_pairs ++ record { symid = rule.lhs; ruleid = id } ∷ [];
    } in
    let s2 = if rule.is_sequence then index_sequence id rule s1 else s1 in
    let q = by_kind rule.is_sequence s1 in
    let r = filled (length rule.rhs == 0) s2 in
    record {
      rh = omega (arith, r.rh, q.rh);
      lh = omega (
        arith,
        r.lh,
        q.lh,
        length-append s.lh_pairs (record { symid = rule.lhs; ruleid = id } ∷ []),
      );
    }
  where
    by_kind : (b : Bool) (s1 : Indexed) → Grows 1 0 s1 (if b then index_sequence id rule s1 else s1)
    by_kind true s1 = index_sequence-Grows id rule s1
    by_kind false s1 = record { rh = omega arith; lh = omega arith }

    filled :
        (b : Bool) (s2 : Indexed)
        → Grows
            (length rule.rhs)
            0
            s2
            (if b then mark_empty rule.lhs s2 else insert_rhs rule.rhs id s2)
    filled true s2 = record { rh = omega arith; lh = omega arith }
    filled false s2 = insert_rhs-Grows rule.rhs id s2

index_loop-Grows :
    (id : ℕ) (xrls : List Xrl) (s : Indexed)
    → Grows (total_size xrls) (length xrls) s (index_loop id xrls s)
unfolding index_loop
index_loop-Grows id [] s = record { rh = omega arith; lh = omega arith }
index_loop-Grows id (rule ∷ rules) s =
    let q = index_rule-Grows id rule s in
    let r = index_loop-Grows (suc id) rules (index_rule id rule s) in
    record { rh = omega (arith, r.rh, q.rh); lh = omega (arith, r.lh, q.lh) }

-- The loop over the rules makes no more pairs for the right sides than the recorded size of the
-- rules (External_Size_of_G), for which their array has room, and one pair for each left side.
pub index_rules-room :
    (n : ℕ) (xrls : List Xrl)
    → (length (index_rules n xrls).rh_pairs ≤ total_size xrls)
      × (length (index_rules n xrls).lh_pairs ≡ length xrls)
unfolding index_rules
index_rules-room n xrls =
    let r = index_loop-Grows 0 xrls (record {
      lhs_v = bv_create n;
      empty_lhs_v = bv_shadow (bv_create n);
      rh_pairs = [];
      lh_pairs = [];
    }) in
    (omega (arith, r.rh), omega (arith, r.lh))
