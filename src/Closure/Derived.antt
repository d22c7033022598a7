-- ===== src/Closure/Derived.antt =====
-- What a set of symbols should be closed to, by rules of inference.
use marpa_r.Prelude.{
  ℕ, ◌<◌, ◌≡◌, Bool, true, ◌&&◌, List, [], ◌∷◌, ◌++◌, length, get_or, ℤ, pos, negsuc, ltb_ℤ, has,
  if◌then◌else◌,
}
use marpa_r.Grammar.{Xrl, blank_xrl}

-- The separator, if there is one.
abbrev pub separators : ℤ → List ℕ
separators (pos i) = i ∷ []
separators (negsuc i) = []

-- The symbols that a rule uses in its shortest form that is not empty.
abbrev pub needs : Xrl → List ℕ
needs rule =
    rule.rhs
    ++ (if rule.is_sequence && ltb_ℤ (pos 1) rule.minimum then separators rule.separator else [])

-- All symbols on the right of a rule.
abbrev pub mentions : Xrl → List ℕ
mentions rule = rule.rhs ++ (if rule.is_sequence then separators rule.separator else [])

abbrev pub rule_at : List Xrl → ℕ → Xrl
rule_at xrls r = get_or xrls r (blank_xrl 0 [])

-- The symbols that follow from those of `base`.
pub data Derived (xrls : List Xrl) (base : ℕ → Bool) : ℕ → Type 0 where
  given : {i : ℕ} → base i ≡ true → Derived xrls base i
  by_rule :
      {i : ℕ} (r : ℕ)
      → r < length xrls
      → (rule_at xrls r).lhs ≡ i
      → ((s : ℕ) → has (needs (rule_at xrls r)) s ≡ true → Derived xrls base s)
      → Derived xrls base i
