-- ===== src/Grammar/RuleAccess.antt =====
-- The public functions of marpa.c on one rule.
use marpa_r.Prelude.{not, length, get_or, ltb_ℤ, ℤ, pos, pos_part, is_negative, of_bool, eqb_ℤ}
use marpa_r.Grammar.{
  Env, M, rhs_ix_negative, rhs_ix_oob, not_a_sequence, pure, fail_if, update_xrl, clear, ◌>>=◌,
  ◌>>◌, failure_indicator, minus_one, fail_if_fatal, fail_if_precomputed, fail_if_not_precomputed,
  fail_if_malformed_xrlid, soft_fail_if_no_xrl, fail_if_no_xrl, fail_if_rank_out_of_range,
  fail_if_not_boolean, xrl_by_id, clear_error,
}

module _ {T : Type 0} where
  unfoldable pub marpa_g_rule_is_used : ℤ → M T ℤ
  unfolding fail_if_malformed_xrlid soft_fail_if_no_xrl
  marpa_g_rule_is_used xrl_id = do
    fail_if_malformed_xrlid xrl_id
    soft_fail_if_no_xrl xrl_id
    xrl ← xrl_by_id xrl_id
    pure (of_bool xrl.is_used)

module _ {T : Type 0} (env : Env T) where
  unfoldable pub marpa_g_rule_lhs : ℤ → M T ℤ
  unfolding fail_if_fatal fail_if_malformed_xrlid soft_fail_if_no_xrl
  marpa_g_rule_lhs xrl_id = do
    fail_if_fatal env
    fail_if_malformed_xrlid xrl_id
    soft_fail_if_no_xrl xrl_id
    xrl ← xrl_by_id xrl_id
    pure (pos xrl.lhs)

  unfoldable pub marpa_g_rule_rhs : ℤ → ℤ → M T ℤ
  unfolding fail_if_fatal fail_if_malformed_xrlid soft_fail_if_no_xrl
  marpa_g_rule_rhs xrl_id ix = do
    fail_if_fatal env
    fail_if_malformed_xrlid xrl_id
    soft_fail_if_no_xrl xrl_id
    xrl ← xrl_by_id xrl_id
    fail_if (is_negative ix) rhs_ix_negative failure_indicator
    fail_if (not (ltb_ℤ ix (pos (length xrl.rhs)))) rhs_ix_oob failure_indicator
    pure (pos (get_or xrl.rhs (pos_part ix) 0))

  unfoldable pub marpa_g_rule_length : ℤ → M T ℤ
  unfolding fail_if_fatal fail_if_malformed_xrlid soft_fail_if_no_xrl
  marpa_g_rule_length xrl_id = do
    fail_if_fatal env
    fail_if_malformed_xrlid xrl_id
    soft_fail_if_no_xrl xrl_id
    xrl ← xrl_by_id xrl_id
    pure (pos (length xrl.rhs))

  unfoldable pub marpa_g_rule_rank : ℤ → M T ℤ
  unfolding clear_error fail_if_fatal fail_if_malformed_xrlid fail_if_no_xrl
  marpa_g_rule_rank xrl_id = do
    clear
    fail_if_fatal env
    fail_if_malformed_xrlid xrl_id
    fail_if_no_xrl xrl_id
    clear
    xrl ← xrl_by_id xrl_id
    pure xrl.rank

  unfoldable pub marpa_g_rule_rank_set : ℤ → ℤ → M T ℤ
  unfolding clear_error fail_if_fatal fail_if_precomputed fail_if_malformed_xrlid fail_if_no_xrl
      fail_if_rank_out_of_range
  marpa_g_rule_rank_set xrl_id rank = do
    clear
    fail_if_fatal env
    fail_if_precomputed
    fail_if_malformed_xrlid xrl_id
    fail_if_no_xrl xrl_id
    fail_if_rank_out_of_range rank
    update_xrl (pos_part xrl_id) (λ r. record r { rank = rank })
    pure rank

  unfoldable pub marpa_g_rule_null_high : ℤ → M T ℤ
  unfolding fail_if_fatal fail_if_malformed_xrlid soft_fail_if_no_xrl
  marpa_g_rule_null_high xrl_id = do
    fail_if_fatal env
    fail_if_malformed_xrlid xrl_id
    soft_fail_if_no_xrl xrl_id
    xrl ← xrl_by_id xrl_id
    pure (of_bool xrl.null_ranks_high)

  unfoldable pub marpa_g_rule_null_high_set : ℤ → ℤ → M T ℤ
  unfolding fail_if_fatal fail_if_precomputed fail_if_malformed_xrlid soft_fail_if_no_xrl
      fail_if_not_boolean
  marpa_g_rule_null_high_set xrl_id flag = do
    fail_if_fatal env
    fail_if_precomputed
    fail_if_malformed_xrlid xrl_id
    soft_fail_if_no_xrl xrl_id
    fail_if_not_boolean flag
    let b = not (eqb_ℤ flag (pos 0))
    update_xrl (pos_part xrl_id) (λ r. record r { null_ranks_high = b })
    pure (of_bool b)

  unfoldable pub marpa_g_sequence_min : ℤ → M T ℤ
  unfolding fail_if_fatal fail_if_malformed_xrlid fail_if_no_xrl
  marpa_g_sequence_min xrl_id = do
    fail_if_fatal env
    fail_if_malformed_xrlid xrl_id
    fail_if_no_xrl xrl_id
    xrl ← xrl_by_id xrl_id
    fail_if (not xrl.is_sequence) not_a_sequence minus_one
    pure xrl.minimum

  unfoldable pub marpa_g_sequence_separator : ℤ → M T ℤ
  unfolding fail_if_fatal fail_if_malformed_xrlid fail_if_no_xrl
  marpa_g_sequence_separator xrl_id = do
    fail_if_fatal env
    fail_if_malformed_xrlid xrl_id
    fail_if_no_xrl xrl_id
    xrl ← xrl_by_id xrl_id
    fail_if (not xrl.is_sequence) not_a_sequence failure_indicator
    pure xrl.separator

  unfoldable pub marpa_g_rule_is_keep_separation : ℤ → M T ℤ
  unfolding fail_if_fatal fail_if_malformed_xrlid soft_fail_if_no_xrl
  marpa_g_rule_is_keep_separation xrl_id = do
    fail_if_fatal env
    fail_if_malformed_xrlid xrl_id
    soft_fail_if_no_xrl xrl_id
    xrl ← xrl_by_id xrl_id
    pure (of_bool (not xrl.is_discard))

  unfoldable pub marpa_g_rule_is_proper_separation : ℤ → M T ℤ
  unfolding fail_if_fatal fail_if_malformed_xrlid soft_fail_if_no_xrl
  marpa_g_rule_is_proper_separation xrl_id = do
    fail_if_fatal env
    fail_if_malformed_xrlid xrl_id
    soft_fail_if_no_xrl xrl_id
    xrl ← xrl_by_id xrl_id
    pure (of_bool xrl.is_proper_separation)

  unfoldable pub marpa_g_rule_is_loop : ℤ → M T ℤ
  unfolding fail_if_fatal fail_if_not_precomputed fail_if_malformed_xrlid soft_fail_if_no_xrl
  marpa_g_rule_is_loop xrl_id = do
    fail_if_fatal env
    fail_if_not_precomputed
    fail_if_malformed_xrlid xrl_id
    soft_fail_if_no_xrl xrl_id
    fail_if_not_precomputed
    xrl ← xrl_by_id xrl_id
    pure (of_bool xrl.is_loop)

  unfoldable pub marpa_g_rule_is_nulling : ℤ → M T ℤ
  unfolding fail_if_fatal fail_if_not_precomputed fail_if_malformed_xrlid soft_fail_if_no_xrl
  marpa_g_rule_is_nulling xrl_id = do
    fail_if_fatal env
    fail_if_not_precomputed
    fail_if_malformed_xrlid xrl_id
    soft_fail_if_no_xrl xrl_id
    xrl ← xrl_by_id xrl_id
    pure (of_bool xrl.is_nulling)

  unfoldable pub marpa_g_rule_is_nullable : ℤ → M T ℤ
  unfolding fail_if_fatal fail_if_not_precomputed fail_if_malformed_xrlid soft_fail_if_no_xrl
  marpa_g_rule_is_nullable xrl_id = do
    fail_if_fatal env
    fail_if_not_precomputed
    fail_if_malformed_xrlid xrl_id
    soft_fail_if_no_xrl xrl_id
    xrl ← xrl_by_id xrl_id
    pure (of_bool xrl.is_nullable)

  unfoldable pub marpa_g_rule_is_accessible : ℤ → M T ℤ
  unfolding fail_if_fatal fail_if_not_precomputed fail_if_malformed_xrlid soft_fail_if_no_xrl
  marpa_g_rule_is_accessible xrl_id = do
    fail_if_fatal env
    fail_if_not_precomputed
    fail_if_malformed_xrlid xrl_id
    soft_fail_if_no_xrl xrl_id
    xrl ← xrl_by_id xrl_id
    pure (of_bool xrl.is_accessible)

  unfoldable pub marpa_g_rule_is_productive : ℤ → M T ℤ
  unfolding fail_if_fatal fail_if_not_precomputed fail_if_malformed_xrlid soft_fail_if_no_xrl
  marpa_g_rule_is_productive xrl_id = do
    fail_if_fatal env
    fail_if_not_precomputed
    fail_if_malformed_xrlid xrl_id
    soft_fail_if_no_xrl xrl_id
    xrl ← xrl_by_id xrl_id
    pure (of_bool xrl.is_productive)
