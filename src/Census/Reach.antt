-- ===== src/Census/Reach.antt =====
-- The reach matrix, and which symbols a symbol leads to.
use marpa_r.Prelude.{
  ℕ, zero, suc, ◌%◌, ◌<◌, ◌≡◌, ◌↔◌, refl, ◌∙◌, sym, Bool, true, false, ◌&&◌, ◌||◌, List, [], ◌∷◌,
  get_or, replicate, get_or-modify_self, get_or-modify_ne, has, has-append, ℤ, pos, negsuc, ◌==◌,
  inl, inr, arith, if◌then◌else◌, Bool-cases,
}
use native.Mathlib.Decide.{ℕ_discrete}
use marpa_r.BitVector.{bv_bit_test, bv_bit_set, bv_create}
use marpa_r.BitVector.Laws.{lbv_bit_test_lem, bv_bit_test-set}
use marpa_r.BitVector.Bits.{testbit-zero}
use marpa_r.BitVector.Full.{bv_bit_test-create}
use marpa_r.Matrix.{Matrix, no_row, matrix_create, matrix_bit_set, matrix_bit_test, matrix_row}
use marpa_r.Matrix.Closure.{Reach, edge, join, transitive_closure_lem}
use marpa_r.Matrix.Rows.{
  IsSolid, IsSolid-IsSquare, matrix_create-IsSolid, matrix_bit_set-IsSolid,
  transitive_closure-IsSolid, matrix_row-IsSized,
}
use marpa_r.Grammar.{Xrl}
use marpa_r.Closure.Derived.{mentions, separators}
use marpa_r.Closure.Rules.{IsNamed}
use marpa_r.Census.{reach_symbols, reach_separator, reach_rules, make_reach_matrix}

test-matrix_bit_set :
    (n i j k l : ℕ) (m : Matrix)
    → IsSolid n m
    → i < n
    → j < n
    → matrix_bit_test (matrix_bit_set m i j) k l ≡ ((i == k && j == l) || matrix_bit_test m k l)
unfolding matrix_bit_test matrix_bit_set matrix_row
test-matrix_bit_set n i j k l m s p q = elim (ℕ_discrete i k) [
  | yes e ↦
      let r = matrix_row-IsSized n m i s p in
      rw (← e, get_or-modify_self m.rows i (λ v. bv_bit_set v j) no_row (omega (arith, s.counted)))
        (bv_bit_test-set (matrix_row m i) j l r.full.vector (omega (arith, r.size)) ∙ ground arith)
  | no ne ↦ rw (get_or-modify_ne m.rows i k (λ v. bv_bit_set v j) no_row ne) (ground (arith, ne))
]

-- `t` has the bits of `m`, and those of row `i` in `is`.
pub record Widened (n i : ℕ) (is : List ℕ) (m t : Matrix) : Type 0 where
  pub solid : IsSolid n t
  pub bits : (k l : ℕ) → matrix_bit_test t k l ≡ ((i == k && has is l) || matrix_bit_test m k l)

pub reach_symbols_lem :
    (n i : ℕ) (is : List ℕ) (m : Matrix)
    → IsSolid n m
    → i < n
    → ((s : ℕ) → has is s ≡ true → s < n)
    → Widened n i is m (reach_symbols i is m)
unfolding reach_symbols
reach_symbols_lem n i [] m s p named = record { solid = s; bits = λ k l. ground arith }
reach_symbols_lem n i (j ∷ is) m s p named =
    let q : j < n = named j (ground arith) in
    let r =
      reach_symbols_lem n i is (matrix_bit_set m i j) (matrix_bit_set-IsSolid n i j m s) p
        (λ x h. named x (ground (arith, h))) in
    record {
      solid = r.solid;
      bits = λ k l. ground (arith, r.bits k l, test-matrix_bit_set n i j k l m s p q);
    }

reach_separator_lem :
    (n i : ℕ) (sep : ℤ) (m : Matrix)
    → IsSolid n m
    → i < n
    → ((s : ℕ) → has (separators sep) s ≡ true → s < n)
    → Widened n i (separators sep) m (reach_separator i sep m)
unfolding reach_separator
reach_separator_lem n i (pos j) m s p named = record {
  solid = matrix_bit_set-IsSolid n i j m s;
  bits = λ k l. test-matrix_bit_set n i j k l m s p (named j (ground arith)) ∙ ground arith;
}
reach_separator_lem n i (negsuc j) m s p named = record { solid = s; bits = λ k l. ground arith }

-- A rule from `i` that mentions `j`.
abbrev pub leads : List Xrl → ℕ → ℕ → Bool
leads [] i j = false
leads (r ∷ rs) i j = (r.lhs == i && has (mentions r) j) || leads rs i j

record Spread (n : ℕ) (xrls : List Xrl) (m t : Matrix) : Type 0 where
  solid : IsSolid n t
  bits : (k l : ℕ) → matrix_bit_test t k l ≡ (leads xrls k l || matrix_bit_test m k l)

reach_rules_lem :
    (n : ℕ) (xrls : List Xrl) (m : Matrix)
    → IsNamed n xrls
    → IsSolid n m
    → Spread n xrls m (reach_rules xrls m)
unfolding reach_rules
reach_rules_lem n [] m named s = record { solid = s; bits = λ k l. refl }
reach_rules_lem n (r ∷ rs) m named s =
    let p : r.lhs < n = named.lhs 0 (omega arith) in
    let at : (x : ℕ) → has (mentions r) x ≡ true → x < n = λ x h. named.rhs 0 x (omega arith) h in
    let seps = if r.is_sequence then separators r.separator else [] in
    let a =
      reach_symbols_lem n r.lhs r.rhs m s p
        (λ x h. at x (ground (arith, h, has-append r.rhs seps x))) in
    let m1 = reach_symbols r.lhs r.rhs m in
    let b : Widened n r.lhs seps m1
        (if r.is_sequence then reach_separator r.lhs r.separator m1 else m1) =
      separated r.is_sequence r.lhs r.separator m1 a.solid p
        (λ x h. at x (ground (arith, h, has-append r.rhs seps x))) in
    let c =
      reach_rules_lem n rs (if r.is_sequence then reach_separator r.lhs r.separator m1 else m1)
        (record {
          lhs = λ k l. named.lhs (suc k) (omega arith);
          rhs = λ k x l h. named.rhs (suc k) x (omega arith) h;
        })
        b.solid in
    record {
      solid = c.solid;
      bits = λ k l. ground (arith, c.bits k l, b.bits k l, a.bits k l, has-append r.rhs seps l);
    }
  where
    separated :
        (is_sequence : Bool) (i : ℕ) (sep : ℤ) (m : Matrix)
        → IsSolid n m
        → i < n
        → ((s : ℕ) → has (if is_sequence then separators sep else []) s ≡ true → s < n)
        → Widened n i
            (if is_sequence then separators sep else [])
            m
            (if is_sequence then reach_separator i sep m else m)
    separated true i sep m s p named = reach_separator_lem n i sep m s p named
    separated false i sep m s p named = record { solid = s; bits = λ k l. ground arith }

-- A symbol leads to another over one rule or more.
pub data Leads (xrls : List Xrl) : ℕ → ℕ → Type 0 where
  over : {i j : ℕ} → leads xrls i j ≡ true → Leads xrls i j
  onward : {i j k : ℕ} → Leads xrls i j → Leads xrls j k → Leads xrls i k

pub create_clear : (n k l : ℕ) → matrix_bit_test (matrix_create n n) k l ≡ false
unfolding matrix_bit_test matrix_create matrix_row bv_bit_test
create_clear n k l = row_clear n k
  where
    row_clear : (m k : ℕ) → bv_bit_test (get_or (replicate m (bv_create n)) k no_row) l ≡ false
    row_clear zero k = lbv_bit_test_lem [] l ∙ testbit-zero (l % 32)
    row_clear (suc m) zero = bv_bit_test-create n l
    row_clear (suc m) (suc k) = row_clear m k

leads_below :
    (n : ℕ) (xrls : List Xrl) (i j : ℕ) → IsNamed n xrls → leads xrls i j ≡ true → (i < n) × (j < n)
leads_below n [] i j named e = absurd (ground (arith, e))
leads_below n (r ∷ rs) i j named e = elim (Bool-cases (r.lhs == i && has (mentions r) j)) [
  | inl h ↦ (
    ground (arith, h, named.lhs 0 (omega arith)),
    named.rhs 0 j (omega arith) (ground (arith, h)),
  )
  | inr h ↦
      leads_below n rs i j
        (record {
          lhs = λ k l. named.lhs (suc k) (omega arith);
          rhs = λ k x l g. named.rhs (suc k) x (omega arith) g;
        })
        (ground (arith, e, h))
]

module _ (n : ℕ) (xrls : List Xrl) (m : Matrix) (named : IsNamed n xrls)
    (bits : (k l : ℕ) → matrix_bit_test m k l ≡ leads xrls k l) where
  Reach-Leads : {i j : ℕ} → Reach n m i j → Leads xrls i j
  Reach-Leads (edge {i} {j} l h e) = over (sym (bits i j) ∙ e)
  Reach-Leads (join p q) = onward (Reach-Leads p) (Reach-Leads q)

  Leads-Reach : {i j : ℕ} → Leads xrls i j → Reach n m i j
  Leads-Reach (over {i} {j} e) =
      let (l, h) = leads_below n xrls i j named e in edge l h (bits i j ∙ e)
  Leads-Reach (onward p q) = join (Leads-Reach p) (Leads-Reach q)

-- The reach matrix that the census makes.
pub record Reaches (n : ℕ) (xrls : List Xrl) (m : Matrix) : Type 0 where
  pub solid : IsSolid n m
  pub bits : (i j : ℕ) → i < n → j < n → (matrix_bit_test m i j ≡ true) ↔ Leads xrls i j

pub make_reach_matrix_lem :
    (n : ℕ) (xrls : List Xrl) → 0 < n → IsNamed n xrls → Reaches n xrls (make_reach_matrix n xrls)
unfolding make_reach_matrix
make_reach_matrix_lem n xrls p named =
    let s = reach_rules_lem n xrls (matrix_create n n) named (matrix_create-IsSolid n) in
    let m = reach_rules xrls (matrix_create n n) in
    let bits : (k l : ℕ) → matrix_bit_test m k l ≡ leads xrls k l =
      λ k l. ground (arith, s.bits k l, create_clear n k l) in
    record {
      solid = transitive_closure-IsSolid n m p s.solid;
      bits = λ i j l h.
          let c = transitive_closure_lem n m i j (IsSolid-IsSquare n m s.solid) l h in
          (
            λ e. Reach-Leads n xrls m named bits (c.0 e),
            λ d. c.1 (Leads-Reach n xrls m named bits d),
          );
    }
