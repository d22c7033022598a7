-- ===== src/Loops/Rows.antt =====
-- The bits of the matrix of unit transitions.
use marpa_r.Prelude.{
  ℕ, suc, ◌+◌, ◌<◌, ◌≡◌, ◌⊎◌, refl, sym, subst, Bool, true, false, ◌&&◌, ◌||◌, not, List, [], ◌∷◌,
  length, has, get_or, ◌==◌, ℤ, pos, negsuc, pos_part, inl, inr, arith, if◌then◌else◌, has-append,
}
use marpa_r.BitVector.{BitVector, bv_bit_test}
use marpa_r.Matrix.{Matrix, matrix_bit_test, matrix_bit_set}
use marpa_r.Matrix.Rows.{IsSolid}
use marpa_r.Grammar.{Xsy, Xrl, blank_xsy}
use marpa_r.Closure.{RuleLists, rules_of}
use marpa_r.Closure.Derived.{separators}
use marpa_r.Closure.Rules.{IsNamed}
use marpa_r.Census.{reach_symbols}
use marpa_r.Census.Reach.{reach_symbols_lem}
use marpa_r.Loops.{
  count_nonnullable, set_transitions, nullable_transitions, rule_transitions, unit_transitions,
}
use marpa_r.Loops.Steps.{sets, some_left}

set_transitions_path :
    (i : ℕ) (is : List ℕ) (m : Matrix) → set_transitions i is m ≡ reach_symbols i is m
unfolding set_transitions reach_symbols
set_transitions_path i [] m = refl
set_transitions_path i (j ∷ is) m = set_transitions_path i is (matrix_bit_set m i j)

-- `t` has the bits of `m`, and those of row `i` that `p` gives.
record Row (n i : ℕ) (p : ℕ → Bool) (m t : Matrix) : Type 0 where
  solid : IsSolid n t
  bits : (k l : ℕ) → matrix_bit_test t k l ≡ ((i == k && p l) || matrix_bit_test m k l)

module _ (xsys : List Xsy) (nullable_v : BitVector) (lists : RuleLists) (n s : ℕ)
    (below : (x q : ℕ) → x < s → has (rules_of lists x) q ≡ true → q < n) where
  listed :
      (i x : ℕ) (m : Matrix)
      → IsSolid n m
      → i < n
      → x < s
      → Row n i (has (rules_of lists x)) m (set_transitions i (rules_of lists x) m)
  listed i x m h l g =
      let r = reach_symbols_lem n i (rules_of lists x) m h l (λ q e. below x q g e) in
      subst (Row n i (has (rules_of lists x)) m) (sym (set_transitions_path i (rules_of lists x) m))
        (record { solid = r.solid; bits = r.bits })

  skipped_or :
      (b : Bool) (i x : ℕ) (m : Matrix)
      → IsSolid n m
      → i < n
      → x < s
      → Row n i
          (λ q. not b && has (rules_of lists x) q)
          m
          (if b then m else set_transitions i (rules_of lists x) m)
  skipped_or true i x m h l g = record { solid = h; bits = λ k j. ground arith }
  skipped_or false i x m h l g = listed i x m h l g

  nullable_lem :
      (i : ℕ) (xs : List ℕ) (m : Matrix)
      → IsSolid n m
      → i < n
      → ((x : ℕ) → has xs x ≡ true → x < s)
      → Row n i (some_left nullable_v xsys lists xs) m (nullable_transitions xsys lists i xs m)
  unfolding nullable_transitions
  nullable_lem i [] m h l g = record { solid = h; bits = λ k j. ground arith }
  nullable_lem i (x ∷ xs) m h l g =
      let a = skipped_or (get_or xsys x blank_xsy).is_nulling i x m h l (g x (ground arith)) in
      let b = nullable_lem i xs _ a.solid l (λ y e. g y (ground (arith, e))) in
      record { solid = b.solid; bits = λ k j. ground (arith, b.bits k j, a.bits k j) }

  -- The symbol that is counted is one of the right side.
  last_named :
      (xs : List ℕ) (id : ℤ) (c : ℕ)
      → ((x : ℕ) → has xs x ≡ true → x < s)
      → pos_part id < s ⊎ (c ≡ 0)
      → pos_part (count_nonnullable nullable_v xs id c).0 < s
        ⊎ ((count_nonnullable nullable_v xs id c).1 ≡ 0)
  unfolding count_nonnullable
  last_named [] id c g h = h
  last_named (x ∷ xs) id c g h =
      let b = bv_bit_test nullable_v x in
      last_named xs (if b then id else pos x) (if b then c else c + 1)
        (λ y k. g y (ground (arith, k))) (either b)
    where
      either : (b : Bool) → pos_part (if b then id else pos x) < s ⊎ ((if b then c else c + 1) ≡ 0)
      either true = h
      either false = inl (g x (ground arith))

  rule_lem :
      (i : ℕ) (rule : Xrl) (m : Matrix)
      → IsSolid n m
      → i < n
      → ((x : ℕ) → has rule.rhs x ≡ true → x < s)
      → Row n i
          (sets nullable_v xsys lists rule)
          m
          (rule_transitions xsys nullable_v lists i rule m)
  unfolding rule_transitions
  rule_lem i rule m h l g =
      by_count (count_nonnullable nullable_v rule.rhs (negsuc 0) 0)
        (last_named rule.rhs (negsuc 0) 0 g (inr refl))
    where
      one_or :
          (b b' : Bool) (id : ℤ)
          → (b ≡ true → pos_part id < s)
          → Row n i
              (λ q.
                if b
                then has (rules_of lists (pos_part id)) q
                else if b'
                then some_left nullable_v xsys lists rule.rhs q
                else false)
              m
              (if b
                then set_transitions i (rules_of lists (pos_part id)) m
                else if b'
                then nullable_transitions xsys lists i rule.rhs m
                else m)
      one_or true b' id k = listed i (pos_part id) m h l (k refl)
      one_or false true id k = nullable_lem i rule.rhs m h l g
      one_or false false id k = record { solid = h; bits = λ k j. ground arith }

      by_count :
          (p : ℤ × ℕ)
          → pos_part p.0 < s ⊎ (p.1 ≡ 0)
          → Row n i
              (λ q.
                if p.1 == 1
                then has (rules_of lists (pos_part p.0)) q
                else if p.1 == 0
                then some_left nullable_v xsys lists rule.rhs q
                else false)
              m
              (if p.1 == 1
                then set_transitions i (rules_of lists (pos_part p.0)) m
                else if p.1 == 0
                then nullable_transitions xsys lists i rule.rhs m
                else m)
      by_count p (inl k) = one_or (p.1 == 1) (p.1 == 0) p.0 (λ _. k)
      by_count p (inr k) = one_or (p.1 == 1) (p.1 == 0) p.0 (λ e. absurd (ground (arith, e, k)))

  -- Rule `k`, counted from rule `i` on, sets `l`.
  abbrev pub all_sets : ℕ → List Xrl → ℕ → ℕ → Bool
  all_sets i [] k l = false
  all_sets i (rule ∷ rules) k l =
      (i == k && sets nullable_v xsys lists rule l) || all_sets (suc i) rules k l

  pub record AllRows (i : ℕ) (xrls : List Xrl) (m t : Matrix) : Type 0 where
    pub solid : IsSolid n t
    pub bits : (k l : ℕ) → matrix_bit_test t k l ≡ (all_sets i xrls k l || matrix_bit_test m k l)

  pub rules_lem :
      (i : ℕ) (xrls : List Xrl) (m : Matrix)
      → IsSolid n m
      → i + length xrls ≡ n
      → IsNamed s xrls
      → AllRows i xrls m (unit_transitions xsys nullable_v lists i xrls m)
  unfolding unit_transitions
  rules_lem i [] m h l named = record { solid = h; bits = λ k j. refl }
  rules_lem i (rule ∷ rules) m h l named =
      let rest : IsNamed s rules = record {
        lhs = λ k g. named.lhs (suc k) (omega (arith, g));
        rhs = λ k x g e. named.rhs (suc k) x (omega (arith, g)) e;
      } in
      let a = rule_lem i rule m h (omega (arith, l)) (λ x e. named.rhs 0 x (omega arith) (
        ground (
          arith,
          e,
          has-append rule.rhs (if rule.is_sequence then separators rule.separator else []) x,
        ))) in
      let b = rules_lem (suc i) rules _ a.solid (omega (arith, l)) rest in
      record { solid = b.solid; bits = λ k j. ground (arith, b.bits k j, a.bits k j) }
