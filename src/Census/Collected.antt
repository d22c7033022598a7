-- ===== src/Census/Collected.antt =====
-- The index of all the rules: the left sides, the symbols that stand for nothing, and the rules
-- under the symbols that they mention.
use marpa_r.Prelude.{
  ℕ, zero, suc, ◌+◌, ◌<◌, ◌≡◌, refl, ap, ◌∙◌, sym, false, ◌&&◌, ◌||◌, List, [], ◌∷◌, length, has,
  All-has, ltb, arith,
}
use marpa_r.BitVector.{bv_bit_test, bv_create, bv_shadow}
use marpa_r.BitVector.Full.{IsSized, bv_create-IsFull, bv_bit_test-create}
use marpa_r.Grammar.{Xrl}
use marpa_r.Closure.{rules_of}
use marpa_r.Closure.Derived.{mentions, rule_at}
use marpa_r.Closure.Rules.{IsIndex}
use marpa_r.Census.{PairTree}
use marpa_r.Census.Index.{Indexed, index_rule, index_loop, index_rules, make_lists}
use marpa_r.Census.Lists.{has_pair, PairTreeLaws, rules_of-make_lists}
use marpa_r.Census.Indexing.{is_left, makes_empty, mention_at, index_rule_lem}

-- The vectors and pairs of `t` are those of `s` with what the rules from `id` on add.
record Collected (n id : ℕ) (xrls : List Xrl) (s t : Indexed) : Type 0 where
  lhs_sized : IsSized n t.lhs_v
  empty_sized : IsSized n t.empty_lhs_v
  lhs_v : (j : ℕ) → bv_bit_test t.lhs_v j ≡ (is_left xrls j || bv_bit_test s.lhs_v j)
  empty_lhs_v :
      (j : ℕ) → bv_bit_test t.empty_lhs_v j ≡ (makes_empty xrls j || bv_bit_test s.empty_lhs_v j)
  rh_pairs :
      (x r : ℕ) → has_pair t.rh_pairs x r ≡ (has_pair s.rh_pairs x r || mention_at id xrls x r)

index_loop_lem :
    (n id : ℕ) (xrls : List Xrl) (s : Indexed)
    → ((r : ℕ) → r < length xrls → (rule_at xrls r).lhs < n)
    → IsSized n s.lhs_v
    → IsSized n s.empty_lhs_v
    → Collected n id xrls s (index_loop id xrls s)
unfolding index_loop
index_loop_lem n id [] s named hl he = record {
  lhs_sized = hl;
  empty_sized = he;
  lhs_v = λ j. refl;
  empty_lhs_v = λ j. refl;
  rh_pairs = λ x r. ground arith;
}
index_loop_lem n id (rule ∷ rules) s named hl he =
    let a = index_rule_lem n id rule s (named 0 (omega arith)) hl he in
    let c =
      index_loop_lem n (suc id) rules (index_rule id rule s) (λ r l. named (suc r) (omega arith))
        a.lhs_sized a.empty_sized in
    record {
      lhs_sized = c.lhs_sized;
      empty_sized = c.empty_sized;
      lhs_v = λ j. ground (arith, c.lhs_v j, a.lhs_v j);
      empty_lhs_v = λ j. ground (arith, c.empty_lhs_v j, a.empty_lhs_v j);
      rh_pairs = λ x r. ground (arith, c.rh_pairs x r, a.rh_pairs x r);
    }

mention_at_ge : (id : ℕ) (xrls : List Xrl) (x r : ℕ) → r < id → mention_at id xrls x r ≡ false
mention_at_ge id [] x r l = refl
mention_at_ge id (rule ∷ rules) x r l =
    ground (arith, l, mention_at_ge (suc id) rules x r (omega arith))

mention_at_lem :
    (id : ℕ) (xrls : List Xrl) (x k : ℕ)
    → mention_at id xrls x (id + k) ≡ (ltb k (length xrls) && has (mentions (rule_at xrls k)) x)
mention_at_lem id [] x k = ground arith
mention_at_lem id (rule ∷ rules) x zero =
    let e : id + zero ≡ id = omega arith in
    rw e (ground (arith, mention_at_ge (suc id) rules x id (omega arith)))
mention_at_lem id (rule ∷ rules) x (suc k) =
    let e : id + suc k ≡ suc id + k = omega arith in
    rw e (ground (arith, mention_at_lem (suc id) rules x k))

-- What `index_rules` returns.
pub record Index (n : ℕ) (xrls : List Xrl) (t : Indexed) : Type 0 where
  pub lhs_sized : IsSized n t.lhs_v
  pub empty_sized : IsSized n t.empty_lhs_v
  pub lhs_v : (j : ℕ) → bv_bit_test t.lhs_v j ≡ is_left xrls j
  pub empty_lhs_v : (j : ℕ) → bv_bit_test t.empty_lhs_v j ≡ makes_empty xrls j
  pub rh_pairs :
      (x r : ℕ)
      → has_pair t.rh_pairs x r ≡ (ltb r (length xrls) && has (mentions (rule_at xrls r)) x)

pub index_rules_lem :
    (n : ℕ) (xrls : List Xrl)
    → ((r : ℕ) → r < length xrls → (rule_at xrls r).lhs < n)
    → Index n xrls (index_rules n xrls)
unfolding index_rules bv_shadow bv_create
index_rules_lem n xrls named =
    let fresh : IsSized n (bv_create n) = record { full = bv_create-IsFull n; size = refl } in
    let c =
      index_loop_lem n 0 xrls
        (record { lhs_v = bv_create n; empty_lhs_v = bv_create n; rh_pairs = []; lh_pairs = [] })
        named fresh fresh in
    record {
      lhs_sized = c.lhs_sized;
      empty_sized = c.empty_sized;
      lhs_v = λ j. ground (arith, c.lhs_v j, bv_bit_test-create n j);
      empty_lhs_v = λ j. ground (arith, c.empty_lhs_v j, bv_bit_test-create n j);
      rh_pairs = λ x r.
          let e : 0 + r ≡ r = omega arith in
          c.rh_pairs x r ∙ ap (mention_at 0 xrls x) (sym e) ∙ mention_at_lem 0 xrls x r;
    }

-- The lists made of a traversal have under each symbol the rules that mention it, and nothing else.
pub rules_of-index :
    (tree : PairTree) (n : ℕ) (xrls : List Xrl) (s r : ℕ)
    → PairTreeLaws tree
    → ((r : ℕ) → r < length xrls → (rule_at xrls r).lhs < n)
    → s < n
    → has (rules_of (make_lists n (tree.traverse (index_rules n xrls).rh_pairs)) s) r
      ≡ (ltb r (length xrls) && has (mentions (rule_at xrls r)) s)
rules_of-index tree n xrls s r laws named l =
    rules_of-make_lists n (tree.traverse (index_rules n xrls).rh_pairs) s r
      (laws.ordered (index_rules n xrls).rh_pairs) l
    ∙ laws.members (index_rules n xrls).rh_pairs s r
    ∙ (index_rules_lem n xrls named).rh_pairs s r

pub make_lists-IsIndex :
    (tree : PairTree) (n : ℕ) (xrls : List Xrl)
    → PairTreeLaws tree
    → ((r : ℕ) → r < length xrls → (rule_at xrls r).lhs < n)
    → IsIndex n xrls (make_lists n (tree.traverse (index_rules n xrls).rh_pairs))
make_lists-IsIndex tree n xrls laws named = record {
  known = λ s l.
      All-has (λ r. r < length xrls)
        (rules_of (make_lists n (tree.traverse (index_rules n xrls).rh_pairs)) s)
        (λ r h. ground (arith, h, rules_of-index tree n xrls s r laws named l));
  complete = λ s r l m h. ground (arith, rules_of-index tree n xrls s r laws named l, m, h);
}
