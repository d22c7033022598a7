-- ===== src/Grammar/Settings.antt =====
-- marpa_g_new, the start symbol, the default rank, the events and the error code of marpa.c.
use marpa_r.Prelude.{
  true, false, not, [], length, get_or, ℤ, pos, pos_part, is_negative, of_bool, ltb, sub_ℕ,
}
use marpa_r.Grammar.{
  Grammar, Env, Event, M, ErrorCode, no_error, event_ix_negative, event_ix_oob, no_start_symbol,
  value, pure, fail_if, reads, update, clear, ◌>>=◌, ◌>>◌, failure_indicator, minus_one,
  fail_if_fatal, fail_if_precomputed, fail_if_malformed_xsyid, soft_fail_if_no_xsy,
  fail_if_rank_out_of_range, clear_error,
}

module _ {T : Type 0} where
  -- The grammar that `marpa_g_new` returns for a configuration that is OK.
  unfoldable pub marpa_g_new : Env T → Grammar T
  marpa_g_new env = record {
    contents = record {
      is_ok = true;
      xsys = [];
      xrls = [];
      start_xsy_id = minus_one;
      external_size = 0;
      max_rule_length = 0;
      default_rank = pos 0;
      is_precomputed = false;
      has_cycle = false;
      events = [];
      xrl_tree = env.avl_create;
      force_valued = false;
    };
    error = no_error;
  }

  unfoldable pub marpa_g_error : M T ErrorCode
  marpa_g_error g = value g.error g

  unfoldable pub marpa_g_error_clear : M T ErrorCode
  unfolding clear_error
  marpa_g_error_clear = do clear; marpa_g_error_now
    where
      marpa_g_error_now : M T ErrorCode
      marpa_g_error_now g = value g.error g

  unfoldable pub marpa_g_event : ℤ → M T Event
  marpa_g_event ix = do
    fail_if (is_negative ix) event_ix_negative failure_indicator
    events ← reads (λ c. c.events)
    fail_if (not (ltb (pos_part ix) (length events))) event_ix_oob failure_indicator
    pure (get_or events (pos_part ix) (record { type = 0; value = pos 0 }))

module _ {T : Type 0} (env : Env T) where
  unfoldable pub marpa_g_highest_symbol_id : M T ℤ
  unfolding fail_if_fatal
  marpa_g_highest_symbol_id = do fail_if_fatal env; reads (λ c. sub_ℕ (length c.xsys) 1)

  unfoldable pub marpa_g_highest_rule_id : M T ℤ
  unfolding fail_if_fatal
  marpa_g_highest_rule_id = do fail_if_fatal env; reads (λ c. sub_ℕ (length c.xrls) 1)

  unfoldable pub marpa_g_start_symbol : M T ℤ
  unfolding fail_if_fatal
  marpa_g_start_symbol = do
    fail_if_fatal env
    id ← reads (λ c. c.start_xsy_id)
    fail_if (is_negative id) no_start_symbol minus_one
    pure id

  unfoldable pub marpa_g_start_symbol_set : ℤ → M T ℤ
  unfolding fail_if_fatal fail_if_precomputed fail_if_malformed_xsyid soft_fail_if_no_xsy
  marpa_g_start_symbol_set xsy_id = do
    fail_if_fatal env
    fail_if_precomputed
    fail_if_malformed_xsyid xsy_id
    soft_fail_if_no_xsy xsy_id
    update (λ c. record c { start_xsy_id = xsy_id })
    pure xsy_id

  unfoldable pub marpa_g_default_rank : M T ℤ
  unfolding clear_error fail_if_fatal
  marpa_g_default_rank = do clear; fail_if_fatal env; reads (λ c. c.default_rank)

  unfoldable pub marpa_g_default_rank_set : ℤ → M T ℤ
  unfolding clear_error fail_if_fatal fail_if_precomputed fail_if_rank_out_of_range
  marpa_g_default_rank_set rank = do
    clear
    fail_if_fatal env
    fail_if_precomputed
    fail_if_rank_out_of_range rank
    update (λ c. record c { default_rank = rank })
    pure rank

  unfoldable pub marpa_g_is_precomputed : M T ℤ
  unfolding fail_if_fatal
  marpa_g_is_precomputed = do fail_if_fatal env; reads (λ c. of_bool c.is_precomputed)

  unfoldable pub marpa_g_has_cycle : M T ℤ
  unfolding fail_if_fatal
  marpa_g_has_cycle = do fail_if_fatal env; reads (λ c. of_bool c.has_cycle)

  unfoldable pub marpa_g_event_count : M T ℤ
  unfolding fail_if_fatal
  marpa_g_event_count = do fail_if_fatal env; reads (λ c. pos (length c.events))
