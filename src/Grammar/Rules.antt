-- ===== src/Grammar/Rules.antt =====
-- marpa_g_rule_new and marpa_g_sequence_new of marpa.c, with what they call.
use Prim.Native.Nat.{bit_and}
use marpa_r.Prelude.{
  ℕ, ◌+◌, max, Bool, true, ◌&&◌, ◌||◌, not, List, [], ◌∷◌, ◌++◌, map, none, some, length, ℤ, pos,
  negsuc, pos_part, is_negative, ltb, eqb_ℤ, sub_ℕ, ◌==◌, if◌then◌else◌,
}
use marpa_r.Grammar.{
  Contents, Env, M, Xsy, Xrl, blank_xrl, rhs_too_long, invalid_symbol_id, sequence_lhs_not_unique,
  duplicate_rule, bad_separator, value, failure, pure, fail_if, reads, update, update_xsy,
  update_xrl, ◌>>=◌, ◌>>◌, failure_indicator, minus_one, max_rhs_length, fail_if_fatal,
  fail_if_precomputed, xsy_by_id, xsy_id_is_valid,
}

-- Compare left sides, then lengths, then right sides from the left; the sign is that of
-- second minus first.
unfoldable pub rhs_cmp : List ℕ → List ℕ → ℤ
rhs_cmp [] ys = pos 0
rhs_cmp (x ∷ xs) [] = pos 0
rhs_cmp (x ∷ xs) (y ∷ ys) = let rest = rhs_cmp xs ys in if y == x then rest else sub_ℕ y x

unfoldable pub duplicate_rule_cmp : Xrl → Xrl → ℤ
unfolding rhs_cmp
duplicate_rule_cmp xrl1 xrl2 =
    if not (xrl2.lhs == xrl1.lhs)
    then sub_ℕ xrl2.lhs xrl1.lhs
    else if not (length xrl2.rhs == length xrl1.rhs)
    then sub_ℕ (length xrl2.rhs) (length xrl1.rhs)
    else rhs_cmp xrl1.rhs xrl2.rhs

-- The loop of `marpa_g_rule_new` over `rhs_ids`.
unfoldable pub all_valid : List Xsy → List ℤ → Bool
all_valid xsys [] = true
all_valid xsys (id ∷ ids) = xsy_id_is_valid xsys id && all_valid xsys ids

module _ {T : Type 0} where
  unfoldable pub rule_add : Contents T → Xrl → Contents T
  rule_add c rule = record c {
    xrls = c.xrls ++ record rule { id = length c.xrls } ∷ [];
    external_size = c.external_size + (1 + length rule.rhs);
    max_rule_length = max (length rule.rhs) c.max_rule_length;
  }

  -- The rule under construction, after the flag of its left side is set.
  unfoldable pub xrl_start : ℕ → List ℕ → M T Xrl
  xrl_start lhs rhs = do update_xsy lhs (λ x. record x { is_lhs = true }); pure (blank_xrl lhs rhs)

  unfoldable pub xrl_finish : Xrl → M T ℕ
  unfolding rule_add
  xrl_finish rule = do
    id ← reads (λ c. length c.xrls)
    update (λ c. rule_add c (record rule { rank = c.default_rank }))
    pure id

  -- Put the rule into the duplicate-rule tree, or fail.
  unfoldable pub avl_insert : Env T → Xrl → M T (Unit {0})
  avl_insert env rule g = elim (env.avl_insert g.xrl_tree rule) [
    | none ↦ failure failure_indicator (record g { error = duplicate_rule })
    | some t ↦ value tt (record g { contents = record (g.contents) { xrl_tree = t } })
  ]

-- `flags & bit`, of the bits of an `int`.
abbrev pub has_flag : ℕ → ℕ → Bool
has_flag flags bit = not (bit_and flags bit == 0)

abbrev pub keep_separation : ℕ
keep_separation = 1

abbrev pub proper_separation : ℕ
proper_separation = 2

-- The assignments to the new rule.
unfoldable pub as_sequence : ℤ → ℤ → ℕ → Xrl → Xrl
as_sequence separator_id min flags rule = record rule {
  separator = if is_negative separator_id then rule.separator else separator_id;
  minimum = min;
  is_sequence = true;
  is_discard = not (has_flag flags keep_separation) && not (is_negative separator_id);
  is_proper_separation = has_flag flags proper_separation || rule.is_proper_separation;
}

module _ {T : Type 0} where
  unfoldable pub count_separator : ℤ → M T (Unit {0})
  count_separator separator_id = elim separator_id [
    | pos n ↦ update_xsy n (λ x. record x { is_counted = true })
    | negsuc n ↦ pure tt
  ]

module _ {T : Type 0} (env : Env T) where
  unfoldable pub check_rule : ℤ → List ℤ → M T (Unit {0})
  unfolding fail_if_fatal fail_if_precomputed xsy_id_is_valid all_valid
  check_rule lhs_id rhs_ids = do
    fail_if_fatal env
    fail_if_precomputed
    fail_if (ltb max_rhs_length (length rhs_ids)) rhs_too_long failure_indicator
    xsys ← reads (λ c. c.xsys)
    fail_if (not (xsy_id_is_valid xsys lhs_id)) invalid_symbol_id failure_indicator
    fail_if (not (all_valid xsys rhs_ids)) invalid_symbol_id failure_indicator
    lhs ← xsy_by_id lhs_id
    fail_if lhs.is_sequence_lhs sequence_lhs_not_unique failure_indicator

  -- `rhs_ids` has `length` entries.
  unfoldable pub marpa_g_rule_new : ℤ → List ℤ → M T ℤ
  unfolding check_rule xrl_start avl_insert xrl_finish
  marpa_g_rule_new lhs_id rhs_ids = do
    check_rule lhs_id rhs_ids
    rule ← xrl_start (pos_part lhs_id) (map pos_part rhs_ids)
    avl_insert env rule
    id ← xrl_finish rule
    update_xrl id (λ r. record r { is_bnf = true })
    pure (pos id)

  unfoldable pub check_sequence : ℤ → ℤ → ℤ → M T (Unit {0})
  unfolding fail_if_fatal fail_if_precomputed xsy_id_is_valid
  check_sequence lhs_id rhs_id separator_id = do
    fail_if_fatal env
    fail_if_precomputed
    xsys ← reads (λ c. c.xsys)
    fail_if (not (eqb_ℤ separator_id minus_one) && not (xsy_id_is_valid xsys separator_id))
        bad_separator failure_indicator
    fail_if (not (xsy_id_is_valid xsys lhs_id)) invalid_symbol_id failure_indicator
    lhs ← xsy_by_id lhs_id
    fail_if lhs.is_lhs sequence_lhs_not_unique failure_indicator
    fail_if (not (xsy_id_is_valid xsys rhs_id)) invalid_symbol_id failure_indicator

  unfoldable pub marpa_g_sequence_new : ℤ → ℤ → ℤ → ℤ → ℕ → M T ℤ
  unfolding check_sequence xrl_start xrl_finish as_sequence count_separator
  marpa_g_sequence_new lhs_id rhs_id separator_id min flags = do
    check_sequence lhs_id rhs_id separator_id
    rule ← xrl_start (pos_part lhs_id) (pos_part rhs_id ∷ [])
    id ← xrl_finish rule
    update_xrl id (as_sequence separator_id min flags)
    update_xsy (pos_part lhs_id) (λ x. record x { is_sequence_lhs = true })
    update_xsy (pos_part rhs_id) (λ x. record x { is_counted = true })
    count_separator separator_id
    pure (pos id)
