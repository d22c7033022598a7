-- ===== src/Census/Indexing.antt =====
-- What the loop over the rules collects.
use marpa_r.Prelude.{
  ℕ, suc, ◌<◌, ◌≡◌, refl, ap, ◌∙◌, Bool, true, false, not, ◌&&◌, ◌||◌, List, [], ◌∷◌, ◌++◌, length,
  has, has-append, ltb_ℤ, ℤ, pos, negsuc, ◌==◌, arith, if◌then◌else◌,
}
use marpa_r.BitVector.{BitVector, bv_bit_test, bv_bit_set}
use marpa_r.BitVector.Laws.{bv_bit_test-set}
use marpa_r.BitVector.Full.{IsSized, bv_bit_set-IsFull, bits-set}
use marpa_r.Grammar.{Xrl}
use marpa_r.Closure.Derived.{mentions, separators}
use marpa_r.Census.Index.{
  SymRulePair, Indexed, insert_rh, insert_rhs, insert_separator, mark_empty, index_sequence,
  index_rule,
}
use marpa_r.Census.Lists.{has_pair}

pub bv_bit_set-IsSized : (n : ℕ) (v : BitVector) (i : ℕ) → IsSized n v → IsSized n (bv_bit_set v i)
bv_bit_set-IsSized n v i s = record {
  full = bv_bit_set-IsFull v i s.full;
  size = bits-set v i ∙ s.size;
}

pub test-set :
    (n : ℕ) (v : BitVector) (i j : ℕ)
    → IsSized n v
    → i < n
    → bv_bit_test (bv_bit_set v i) j ≡ (i == j || bv_bit_test v j)
test-set n v i j s l = bv_bit_test-set v i j s.full.vector (omega (arith, s.size))

-- A rule with this left side.
abbrev pub is_left : List Xrl → ℕ → Bool
is_left [] i = false
is_left (r ∷ rs) i = r.lhs == i || is_left rs i

-- A rule that can stand for nothing at all without any other symbol.
abbrev pub is_empty_rule : Xrl → Bool
is_empty_rule r = length r.rhs == 0 || (r.is_sequence && not (ltb_ℤ (pos 0) r.minimum))

abbrev pub makes_empty : List Xrl → ℕ → Bool
makes_empty [] i = false
makes_empty (r ∷ rs) i = (r.lhs == i && is_empty_rule r) || makes_empty rs i

abbrev pub mention_at : ℕ → List Xrl → ℕ → ℕ → Bool
mention_at id [] x r = false
mention_at id (rule ∷ rules) x r =
    (id == r && has (mentions rule) x) || mention_at (suc id) rules x r

has_pair-append :
    (ps qs : List SymRulePair) (s r : ℕ)
    → has_pair (ps ++ qs) s r ≡ (has_pair ps s r || has_pair qs s r)
has_pair-append [] qs s r = refl
has_pair-append (p ∷ ps) qs s r = ground (arith, has_pair-append ps qs s r)

insert_rhs-pairs :
    (is : List ℕ) (id : ℕ) (s : Indexed) (x r : ℕ)
    → has_pair (insert_rhs is id s).rh_pairs x r
      ≡ (has_pair s.rh_pairs x r || (id == r && has is x))
unfolding insert_rhs
insert_rhs-pairs [] id s x r = ground arith
insert_rhs-pairs (i ∷ is) id s x r =
    insert_rhs-pairs is id (insert_rh i id s) x r
    ∙ ground (arith, has_pair-append s.rh_pairs (record { symid = i; ruleid = id } ∷ []) x r)

insert_rhs-vectors :
    (is : List ℕ) (id : ℕ) (s : Indexed)
    → ((insert_rhs is id s).lhs_v ≡ s.lhs_v) × ((insert_rhs is id s).empty_lhs_v ≡ s.empty_lhs_v)
unfolding insert_rhs
insert_rhs-vectors [] id s = (refl, refl)
insert_rhs-vectors (i ∷ is) id s = insert_rhs-vectors is id (insert_rh i id s)

-- The vectors and pairs of `t` are those of `s` with what one rule adds.
pub record Adds (n id : ℕ) (rule : Xrl) (s t : Indexed) : Type 0 where
  pub lhs_sized : IsSized n t.lhs_v
  pub empty_sized : IsSized n t.empty_lhs_v
  pub lhs_v : (j : ℕ) → bv_bit_test t.lhs_v j ≡ (rule.lhs == j || bv_bit_test s.lhs_v j)
  pub empty_lhs_v :
      (j : ℕ)
      → bv_bit_test t.empty_lhs_v j
        ≡ ((rule.lhs == j && is_empty_rule rule) || bv_bit_test s.empty_lhs_v j)
  pub rh_pairs :
      (x r : ℕ)
      → has_pair t.rh_pairs x r ≡ (has_pair s.rh_pairs x r || (id == r && has (mentions rule) x))

insert_separator-pairs :
    (sep : ℤ) (id : ℕ) (s : Indexed) (x r : ℕ)
    → has_pair (insert_separator sep id s).rh_pairs x r
      ≡ (has_pair s.rh_pairs x r || (id == r && has (separators sep) x))
unfolding insert_separator insert_rh
insert_separator-pairs (pos i) id s x r =
    ground (arith, has_pair-append s.rh_pairs (record { symid = i; ruleid = id } ∷ []) x r)
insert_separator-pairs (negsuc i) id s x r = ground arith

insert_separator-vectors :
    (sep : ℤ) (id : ℕ) (s : Indexed)
    → ((insert_separator sep id s).lhs_v ≡ s.lhs_v)
      × ((insert_separator sep id s).empty_lhs_v ≡ s.empty_lhs_v)
unfolding insert_separator insert_rh
insert_separator-vectors (pos i) id s = (refl, refl)
insert_separator-vectors (negsuc i) id s = (refl, refl)

-- What `index_sequence` changes.
record Sequenced (id : ℕ) (rule : Xrl) (s t : Indexed) : Type 0 where
  pairs :
      (x r : ℕ)
      → has_pair t.rh_pairs x r
        ≡ (has_pair s.rh_pairs x r || (id == r && has (separators rule.separator) x))
  lhs : t.lhs_v ≡ s.lhs_v
  empty :
      t.empty_lhs_v
      ≡ (if ltb_ℤ (pos 0) rule.minimum then s.empty_lhs_v else bv_bit_set s.empty_lhs_v rule.lhs)

index_sequence_lem :
    (id : ℕ) (rule : Xrl) (s : Indexed) → Sequenced id rule s (index_sequence id rule s)
unfolding index_sequence mark_empty
index_sequence_lem id rule s = by_minimum (ltb_ℤ (pos 0) rule.minimum) refl
  where
    by_minimum :
        (b : Bool)
        → ltb_ℤ (pos 0) rule.minimum ≡ b
        → Sequenced id rule s (
            insert_separator rule.separator id
              (if ltb_ℤ (pos 0) rule.minimum then s else mark_empty rule.lhs s))
    by_minimum true e = rw e record {
      pairs = insert_separator-pairs rule.separator id s;
      lhs = (insert_separator-vectors rule.separator id s).0;
      empty = (insert_separator-vectors rule.separator id s).1 ∙ rw e refl;
    }
    by_minimum false e = rw e record {
      pairs = insert_separator-pairs rule.separator id (mark_empty rule.lhs s);
      lhs = (insert_separator-vectors rule.separator id (mark_empty rule.lhs s)).0;
      empty = (insert_separator-vectors rule.separator id (mark_empty rule.lhs s)).1 ∙ rw e refl;
    }

-- What the rule's separator and minimum change, for a sequence rule and for another.
record Separated (id : ℕ) (rule : Xrl) (is_sequence : Bool) (s t : Indexed) : Type 0 where
  pairs :
      (x r : ℕ)
      → has_pair t.rh_pairs x r ≡ (
          has_pair s.rh_pairs x r
          || (id == r && has (if is_sequence then separators rule.separator else []) x))
  lhs : t.lhs_v ≡ s.lhs_v
  empty : t.empty_lhs_v ≡ (
      if is_sequence && not (ltb_ℤ (pos 0) rule.minimum)
      then bv_bit_set s.empty_lhs_v rule.lhs
      else s.empty_lhs_v)

separated_lem :
    (id : ℕ) (rule : Xrl) (is_sequence : Bool) (s : Indexed)
    → Separated id rule is_sequence s (if is_sequence then index_sequence id rule s else s)
separated_lem id rule true s =
    let q = index_sequence_lem id rule s in
    record {
      pairs = q.pairs;
      lhs = q.lhs;
      empty =
          by_minimum (ltb_ℤ (pos 0) rule.minimum) (index_sequence id rule s).empty_lhs_v
            s.empty_lhs_v (bv_bit_set s.empty_lhs_v rule.lhs) q.empty;
    }
  where
    by_minimum :
        (b : Bool) (x y z : BitVector) → x ≡ (if b then y else z) → x ≡ (if not b then z else y)
    by_minimum true x y z e = e
    by_minimum false x y z e = e
separated_lem id rule false s = record { pairs = λ x r. ground arith; lhs = refl; empty = refl }

-- What the right side `is` changes.
record Filled (id lhs : ℕ) (is : List ℕ) (s t : Indexed) : Type 0 where
  pairs : (x r : ℕ) → has_pair t.rh_pairs x r ≡ (has_pair s.rh_pairs x r || (id == r && has is x))
  lhs_v : t.lhs_v ≡ s.lhs_v
  empty_lhs_v :
      t.empty_lhs_v ≡ (if length is == 0 then bv_bit_set s.empty_lhs_v lhs else s.empty_lhs_v)

filled_lem :
    (id lhs : ℕ) (is : List ℕ) (s : Indexed)
    → Filled id lhs is s (if length is == 0 then mark_empty lhs s else insert_rhs is id s)
unfolding mark_empty
filled_lem id lhs [] s = record { pairs = λ x r. ground arith; lhs_v = refl; empty_lhs_v = refl }
filled_lem id lhs (i ∷ is) s =
    let e : (length (i ∷ is) == 0) ≡ false = ground arith in
    rw e record {
      pairs = insert_rhs-pairs (i ∷ is) id s;
      lhs_v = (insert_rhs-vectors (i ∷ is) id s).0;
      empty_lhs_v = rw e (insert_rhs-vectors (i ∷ is) id s).1;
    }

module _ (n id : ℕ) (rule : Xrl) (s : Indexed) (l : rule.lhs < n) (hl : IsSized n s.lhs_v)
    (he : IsSized n s.empty_lhs_v) where
  set_if :
      (b : Bool) (v w : BitVector)
      → IsSized n v
      → w ≡ (if b then bv_bit_set v rule.lhs else v)
      → IsSized n w × ((j : ℕ) → bv_bit_test w j ≡ ((rule.lhs == j && b) || bv_bit_test v j))
  set_if true v w h e =
      rw e (bv_bit_set-IsSized n v rule.lhs h, λ j. test-set n v rule.lhs j h l ∙ ground arith)
  set_if false v w h e = rw e (h, λ j. ground arith)

  pub index_rule_lem : Adds n id rule s (index_rule id rule s)
  unfolding index_rule
  index_rule_lem =
      let s1 : Indexed = record s {
        lhs_v = bv_bit_set s.lhs_v rule.lhs;
        lh_pairs = s.lh_pairs ++ record { symid = rule.lhs; ruleid = id } ∷ [];
      } in
      let s2 = if rule.is_sequence then index_sequence id rule s1 else s1 in
      let q = separated_lem id rule rule.is_sequence s1 in
      let r = filled_lem id rule.lhs rule.rhs s2 in
      let (eq, tq) =
        set_if (rule.is_sequence && not (ltb_ℤ (pos 0) rule.minimum)) s.empty_lhs_v s2.empty_lhs_v
          he q.empty in
      let (er, tr) =
        set_if (length rule.rhs == 0) s2.empty_lhs_v (index_rule id rule s).empty_lhs_v eq
          r.empty_lhs_v in
      let same : (index_rule id rule s).lhs_v ≡ bv_bit_set s.lhs_v rule.lhs = r.lhs_v ∙ q.lhs in
      record {
        lhs_sized = rw same (bv_bit_set-IsSized n s.lhs_v rule.lhs hl);
        empty_sized = er;
        lhs_v = λ j. ap (λ v. bv_bit_test v j) same ∙ test-set n s.lhs_v rule.lhs j hl l;
        empty_lhs_v = λ j. ground (arith, tr j, tq j);
        rh_pairs = λ x y. ground (
          arith,
          r.pairs x y,
          q.pairs x y,
          has-append rule.rhs (if rule.is_sequence then separators rule.separator else []) x,
        );
      }
