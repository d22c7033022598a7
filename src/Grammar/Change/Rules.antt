-- ===== src/Grammar/Change/Rules.antt =====
-- The changes that the calls on rules make.
use marpa_r.Prelude.{
  ℕ, ◌<◌, ◌≡◌, refl, true, false, inl, inr, All, Option-cases, List, [], ◌∷◌, map, length, get_or,
  ℤ, pos, pos_part, eqb_ℤ, not, arith,
}
use marpa_r.Grammar.{Grammar, Contents, Env, Xsy, final, blank_xsy, blank_xrl, xsy_id_is_valid}
use marpa_r.Grammar.Call.{Call, perform}
use marpa_r.Grammar.Rules.{marpa_g_rule_new, marpa_g_sequence_new}
use marpa_r.Grammar.RuleAccess.{
  marpa_g_rule_lhs, marpa_g_rule_rhs, marpa_g_rule_length, marpa_g_rule_rank, marpa_g_rule_rank_set,
  marpa_g_rule_null_high, marpa_g_rule_null_high_set, marpa_g_sequence_min,
  marpa_g_sequence_separator, marpa_g_rule_is_keep_separation, marpa_g_rule_is_proper_separation,
  marpa_g_rule_is_loop, marpa_g_rule_is_nulling, marpa_g_rule_is_nullable,
  marpa_g_rule_is_accessible, marpa_g_rule_is_productive, marpa_g_rule_is_used,
}
use marpa_r.Grammar.Rules.{rule_add, all_valid}
use marpa_r.Grammar.Change.{Change, InRange, IsNoneOrBelow}

all_valid-below :
    (xsys : List Xsy) (ids : List ℤ)
    → all_valid xsys ids ≡ true
    → All (λ i. i < length xsys) (map pos_part ids)
unfolding all_valid xsy_id_is_valid
all_valid-below xsys [] h = tt
all_valid-below xsys (id ∷ ids) h = (ground arith, all_valid-below xsys ids (ground arith))

module _ {T : Type 0} (P : Contents T → Type 0) (env : Env T) (g : Grammar T) (h : P g.contents)
    (k : (c' : Contents T) → Change env g.contents c' → P c') where
  pub rule_lhs_cases : (a : ℤ) → P (final (perform env (Call.rule_lhs a) g)).contents
  unfolding perform marpa_g_rule_lhs
  rule_lhs_cases a = ground arith

  pub rule_rhs_cases : (a b : ℤ) → P (final (perform env (Call.rule_rhs a b) g)).contents
  unfolding perform marpa_g_rule_rhs
  rule_rhs_cases a b = ground arith

  pub rule_length_cases : (a : ℤ) → P (final (perform env (Call.rule_length a) g)).contents
  unfolding perform marpa_g_rule_length
  rule_length_cases a = ground arith

  pub rule_rank_cases : (a : ℤ) → P (final (perform env (Call.rule_rank a) g)).contents
  unfolding perform marpa_g_rule_rank
  rule_rank_cases a = ground arith

  pub rule_rank_set_cases : (a b : ℤ) → P (final (perform env (Call.rule_rank_set a b) g)).contents
  unfolding perform marpa_g_rule_rank_set
  rule_rank_set_cases a b = ground (
    arith,
    λ (r : InRange b). k _ (
        Change.rule (pos_part a) (λ x. record x { rank = b })
          (λ x. (refl, refl, refl, refl, refl, refl, λ _. r)) refl),
  )

  pub rule_null_high_cases : (a : ℤ) → P (final (perform env (Call.rule_null_high a) g)).contents
  unfolding perform marpa_g_rule_null_high
  rule_null_high_cases a = ground arith

  pub rule_null_high_set_cases :
      (a b : ℤ) → P (final (perform env (Call.rule_null_high_set a b) g)).contents
  unfolding perform marpa_g_rule_null_high_set
  rule_null_high_set_cases a b = ground (
    arith,
    k _ (
        Change.rule (pos_part a) (λ x. record x { null_ranks_high = not (eqb_ℤ b (pos 0)) })
          (λ x. (refl, refl, refl, refl, refl, refl, λ r. r)) refl),
  )

  pub sequence_min_cases : (a : ℤ) → P (final (perform env (Call.sequence_min a) g)).contents
  unfolding perform marpa_g_sequence_min
  sequence_min_cases a = ground arith

  pub sequence_separator_cases :
      (a : ℤ) → P (final (perform env (Call.sequence_separator a) g)).contents
  unfolding perform marpa_g_sequence_separator
  sequence_separator_cases a = ground arith

  pub rule_is_keep_separation_cases :
      (a : ℤ) → P (final (perform env (Call.rule_is_keep_separation a) g)).contents
  unfolding perform marpa_g_rule_is_keep_separation
  rule_is_keep_separation_cases a = ground arith

  pub rule_is_proper_separation_cases :
      (a : ℤ) → P (final (perform env (Call.rule_is_proper_separation a) g)).contents
  unfolding perform marpa_g_rule_is_proper_separation
  rule_is_proper_separation_cases a = ground arith

  pub rule_is_loop_cases : (a : ℤ) → P (final (perform env (Call.rule_is_loop a) g)).contents
  unfolding perform marpa_g_rule_is_loop
  rule_is_loop_cases a = ground arith

  pub rule_is_nulling_cases : (a : ℤ) → P (final (perform env (Call.rule_is_nulling a) g)).contents
  unfolding perform marpa_g_rule_is_nulling
  rule_is_nulling_cases a = ground arith

  pub rule_is_nullable_cases :
      (a : ℤ) → P (final (perform env (Call.rule_is_nullable a) g)).contents
  unfolding perform marpa_g_rule_is_nullable
  rule_is_nullable_cases a = ground arith

  pub rule_is_accessible_cases :
      (a : ℤ) → P (final (perform env (Call.rule_is_accessible a) g)).contents
  unfolding perform marpa_g_rule_is_accessible
  rule_is_accessible_cases a = ground arith

  pub rule_is_productive_cases :
      (a : ℤ) → P (final (perform env (Call.rule_is_productive a) g)).contents
  unfolding perform marpa_g_rule_is_productive
  rule_is_productive_cases a = ground arith

  pub rule_is_used_cases : (a : ℤ) → P (final (perform env (Call.rule_is_used a) g)).contents
  unfolding perform marpa_g_rule_is_used
  rule_is_used_cases a = ground arith

  pub rule_new_cases : (a : ℤ) (b : List ℤ) → P (final (perform env (Call.rule_new a b) g)).contents
  unfolding perform marpa_g_rule_new rule_add
  rule_new_cases a b =
      let lhs = pos_part a in
      let rhs = map pos_part b in
      elim (Option-cases (env.avl_insert g.xrl_tree (blank_xrl lhs rhs))) [
        | inl e ↦ ground (arith, k _ (Change.duplicate lhs rhs e refl))
        | inr (t, e) ↦ ground (
          arith,
          λ (p : lhs < length g.xsys) (v : all_valid g.xsys b ≡ true)
                (u : (get_or g.xsys lhs blank_xsy).is_sequence_lhs ≡ false).
              k _ (Change.rule_new lhs rhs t p (all_valid-below g.xsys b v) u e refl),
        )
      ]

  pub sequence_new_cases :
      (a b c d : ℤ) (e : ℕ) → P (final (perform env (Call.sequence_new a b c d e) g)).contents
  unfolding perform marpa_g_sequence_new rule_add
  sequence_new_cases a b c d e = ground (
    arith,
    λ (p : pos_part a < length g.xsys) (q : pos_part b < length g.xsys)
          (r : IsNoneOrBelow (length g.xsys) c)
          (u : (get_or g.xsys (pos_part a) blank_xsy).is_lhs ≡ false).
        k _ (Change.sequence_new (pos_part a) (pos_part b) c d e p q r u refl),
  )
