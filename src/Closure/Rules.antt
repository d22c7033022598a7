-- ===== src/Closure/Rules.antt =====
-- What a rule needs, as the loop tests it, and what an index of the rules must have.
use marpa_r.Prelude.{
  ℕ, ◌<◌, ◌≡◌, ◌↔◌, refl, Bool, true, false, not, ◌&&◌, inl, inr, List, [], ◌∷◌, ◌++◌, Option, some,
  All, length, ℤ, pos, negsuc, has, has-append, ltb_ℤ, ◌==◌, arith, if◌then◌else◌, Bool-cases,
}
use marpa_r.BitVector.{BitVector, bv_bit_test}
use marpa_r.BitVector.Full.{IsFull}
use marpa_r.Grammar.{Xrl}
use marpa_r.Closure.{RuleLists, rules_of, all_set, lacks_separator}
use marpa_r.Closure.Derived.{Derived, needs, mentions, separators, rule_at}

pub all_set_lem :
    (bv : BitVector) (is : List ℕ)
    → (all_set bv is ≡ true) ↔ ((s : ℕ) → has is s ≡ true → bv_bit_test bv s ≡ true)
unfolding all_set
all_set_lem bv [] = (λ e s h. absurd (ground (arith, h)), λ h. refl)
all_set_lem bv (i ∷ is) = (
  λ e s h. elim (Bool-cases (i == s)) [
    | inl p ↦ let q : i ≡ s = ground (arith, p) in rw (← q) (ground (arith, e))
    | inr p ↦ (all_set_lem bv is).0 (ground (arith, e)) s (ground (arith, h, p))
  ],
  λ h.
      let rest : all_set bv is ≡ true = (all_set_lem bv is).1 (λ s m. h s (ground (arith, m))) in
      ground (arith, rest, h i (ground arith)),
)

-- The tests of the loop are one test of what the rule needs.
pub needs_lem :
    (bv : BitVector) (rule : Xrl)
    → all_set bv (needs rule) ≡ (all_set bv rule.rhs && not (lacks_separator bv rule))
unfolding all_set lacks_separator
needs_lem bv rule = over_rhs rule.rhs rule.separator
  where
    tail : ℤ → List ℕ
    tail z = if rule.is_sequence && ltb_ℤ (pos 1) rule.minimum then separators z else []

    lacks : ℤ → Bool
    lacks z = elim z [
      | pos i ↦ rule.is_sequence && ltb_ℤ (pos 1) rule.minimum && not (bv_bit_test bv i)
      | negsuc i ↦ false
    ]

    over_rhs : (xs : List ℕ) (z : ℤ) → all_set bv (xs ++ tail z) ≡ (all_set bv xs && not (lacks z))
    over_rhs [] (pos i) = ground arith
    over_rhs [] (negsuc i) = ground arith
    over_rhs (x ∷ xs) z = ground (arith, over_rhs xs z)

pub needs-mentions : (rule : Xrl) (s : ℕ) → has (needs rule) s ≡ true → has (mentions rule) s ≡ true
needs-mentions rule s h = ground (
  arith,
  h,
  has-append rule.rhs
      (if rule.is_sequence && ltb_ℤ (pos 1) rule.minimum then separators rule.separator else []) s,
  has-append rule.rhs (if rule.is_sequence then separators rule.separator else []) s,
)

module _ (n : ℕ) (xrls : List Xrl) where
  -- The names in the rules are symbols of the grammar.
  pub record IsNamed : Type 0 where
    pub lhs : (r : ℕ) → r < length xrls → (rule_at xrls r).lhs < n
    pub rhs : (r s : ℕ) → r < length xrls → has (mentions (rule_at xrls r)) s ≡ true → s < n

module _ (n : ℕ) (xrls : List Xrl) (base : ℕ → Bool) where
  -- The set that is returned.
  pub record Closed (bv : BitVector) : Type 0 where
    pub full : IsFull bv
    pub size : bv.bits ≡ n
    pub members : (i : ℕ) → i < n → (bv_bit_test bv i ≡ true) ↔ Derived xrls base i

  pub data Closes : Option BitVector → Type 0 where
    closes : (bv : BitVector) → Closed bv → Closes (some bv)

module _ (n : ℕ) (xrls : List Xrl) (lists : RuleLists) where
  -- What the lists of rules must have: under each symbol the rules that mention it, and no
  -- identifier that is none of a rule.
  pub record IsIndex : Type 0 where
    pub known : (s : ℕ) → s < n → All (λ r. r < length xrls) (rules_of lists s)
    pub complete :
        (s r : ℕ)
        → s < n
        → r < length xrls
        → has (mentions (rule_at xrls r)) s ≡ true
        → has (rules_of lists s) r ≡ true
