-- ===== src/Grammar/Invariant.antt =====
-- What is true of every grammar that the public functions build.
use marpa_r.Prelude.{
  ℕ, suc, ◌+◌, ◌<◌, max, ◌≡◌, ◌≢◌, Bool, true, false, ◌&&◌, ◌||◌, ◌⊎◌, List, [], ◌∷◌, map, All,
  none, some, length, get_or, pos, eqb_ℤ, ◌==◌,
}
use marpa_r.Grammar.{Contents, Env, Xrl}
use marpa_r.Grammar.Rules.{duplicate_rule_cmp}
use marpa_r.Grammar.Change.{InRange, IsSymbol, IsNoneOrBelow}

-- The identifiers count up from `n`.
abbrev pub CountUp : ℕ → List ℕ → Type 0
CountUp n [] = Unit {0}
CountUp n (i ∷ is) = (i ≡ n) × CountUp (suc n) is

abbrev pub AllPairs : (Xrl → Xrl → Type 0) → List Xrl → Type 0
AllPairs R [] = Unit {0}
AllPairs R (r ∷ rs) = All (R r) rs × AllPairs R rs

abbrev pub same_ids : List ℕ → List ℕ → Bool
same_ids [] [] = true
same_ids [] (y ∷ ys) = false
same_ids (x ∷ xs) [] = false
same_ids (x ∷ xs) (y ∷ ys) = x == y && same_ids xs ys

-- A BNF rule of the table with these symbols.
abbrev pub listed : List Xrl → ℕ → List ℕ → Bool
listed [] lhs rhs = false
listed (s ∷ ss) lhs rhs = s.is_bnf && (s.lhs == lhs && same_ids s.rhs rhs) || listed ss lhs rhs

-- Two rules with one left side are both BNF rules, and differ in their right sides.
abbrev pub Compatible : Xrl → Xrl → Type 0
Compatible r s =
    (r.lhs ≢ s.lhs)
    ⊎ ((r.is_sequence ≡ false) × (s.is_sequence ≡ false) × (same_ids r.rhs s.rhs ≡ false))

-- A rule of a grammar with `n` symbols, at the flags that say which of them are left sides, and
-- left sides of a sequence.
pub record IsRule (n : ℕ) (lhs_flags sequence_flags : List Bool) (r : Xrl) : Type 0 where
  pub lhs_below : r.lhs < n
  pub rhs_below : All (λ i. i < n) r.rhs
  pub separator_below : IsNoneOrBelow n r.separator
  pub ranked : InRange r.rank
  pub flagged : get_or lhs_flags r.lhs false ≡ true
  pub sequence_flagged :
      ((r.is_sequence ≡ false) × (r.is_bnf ≡ true))
      ⊎ ((r.is_sequence ≡ true)
          × (r.is_bnf ≡ false)
          × (get_or sequence_flags r.lhs false ≡ true)
          × (length r.rhs ≡ 1))

abbrev pub total_size : List Xrl → ℕ
total_size [] = 0
total_size (r ∷ rs) = 1 + length r.rhs + total_size rs

abbrev pub longest : List Xrl → ℕ
longest [] = 0
longest (r ∷ rs) = max (length r.rhs) (longest rs)

-- What the AVL library promises of a tree under `duplicate_rule_cmp`: it has the rules that were
-- inserted, up to the comparison, and an insertion fails exactly on a rule that it has.
pub record AvlLaws {T : Type 0} (env : Env T) : Type 0 where
  pub has : T → Xrl → Bool
  pub has_create : (r : Xrl) → has (env.avl_create) r ≡ false
  pub insert_present : (t : T) (r : Xrl) → has t r ≡ true → env.avl_insert t r ≡ none
  pub insert_absent :
      (t : T) (r : Xrl)
      → has t r ≡ false
      → (t' : T) × (env.avl_insert t r ≡ some t')
        × ((s : Xrl) → has t' s ≡ (eqb_ℤ (duplicate_rule_cmp r s) (pos 0) || has t s))

pub record IsWf {T : Type 0} {env : Env T} (laws : AvlLaws env) (c : Contents T) : Type 0 where
  pub symbols : All IsSymbol c.xsys
  pub symbols_numbered : CountUp 0 (map (λ x. x.symbol_id) c.xsys)
  pub rules :
      All
        (IsRule (length c.xsys) (map (λ x. x.is_lhs) c.xsys) (map (λ x. x.is_sequence_lhs) c.xsys))
        c.xrls
  pub rules_numbered : CountUp 0 (map (λ r. r.id) c.xrls)
  pub distinct : AllPairs Compatible c.xrls
  pub tree : (r : Xrl) → laws.has c.xrl_tree r ≡ listed c.xrls r.lhs r.rhs
  pub start : IsNoneOrBelow (length c.xsys) c.start_xsy_id
  pub default_ranked : InRange c.default_rank
  pub size : c.external_size ≡ total_size c.xrls
  pub longest_rule : c.max_rule_length ≡ longest c.xrls
