-- ===== src/Grammar/Change/Perform.antt =====
-- All calls together.
use marpa_r.Prelude.{◌≡◌, refl, ◌⊎◌, inl, inr}
use marpa_r.Grammar.{Grammar, Contents, Env, final}
use marpa_r.Grammar.Call.{Call, perform}
use marpa_r.Grammar.Change.{Change}
use marpa_r.Grammar.Change.Symbols.{
  symbol_new_cases, force_valued_cases, symbol_is_valued_cases, symbol_is_valued_set_cases,
  symbol_is_start_cases, symbol_rank_cases, symbol_rank_set_cases, symbol_is_accessible_cases,
  symbol_is_counted_cases, symbol_is_nulling_cases, symbol_is_nullable_cases,
  symbol_is_terminal_cases, symbol_is_terminal_set_cases, symbol_is_productive_cases,
  symbol_is_completion_event_cases, symbol_is_completion_event_set_cases,
  completion_symbol_activate_cases, symbol_is_nulled_event_cases, symbol_is_nulled_event_set_cases,
  nulled_symbol_activate_cases, symbol_is_prediction_event_cases,
  symbol_is_prediction_event_set_cases, prediction_symbol_activate_cases,
}
use marpa_r.Grammar.Change.Settings.{
  highest_symbol_id_cases, highest_rule_id_cases, start_symbol_cases, start_symbol_set_cases,
  default_rank_cases, default_rank_set_cases, is_precomputed_cases, has_cycle_cases,
  event_count_cases,
}
use marpa_r.Grammar.Change.Rules.{
  rule_lhs_cases, rule_rhs_cases, rule_length_cases, rule_rank_cases, rule_rank_set_cases,
  rule_null_high_cases, rule_null_high_set_cases, sequence_min_cases, sequence_separator_cases,
  rule_is_keep_separation_cases, rule_is_proper_separation_cases, rule_is_loop_cases,
  rule_is_nulling_cases, rule_is_nullable_cases, rule_is_accessible_cases, rule_is_productive_cases,
  rule_is_used_cases, rule_new_cases, sequence_new_cases,
}

module _ {T : Type 0} (P : Contents T → Type 0) (env : Env T) (g : Grammar T) (h : P g.contents)
    (k : (c' : Contents T) → Change env g.contents c' → P c') where
  -- What holds of the contents and is kept by every change holds after a call.
  perform_cases : (call : Call) → P (final (perform env call g)).contents
  perform_cases Call.symbol_new = symbol_new_cases P env g h k
  perform_cases Call.force_valued = force_valued_cases P env g h k
  perform_cases (Call.symbol_is_valued a) = symbol_is_valued_cases P env g h k a
  perform_cases (Call.symbol_is_valued_set a b) = symbol_is_valued_set_cases P env g h k a b
  perform_cases (Call.symbol_is_start a) = symbol_is_start_cases P env g h k a
  perform_cases (Call.symbol_rank a) = symbol_rank_cases P env g h k a
  perform_cases (Call.symbol_rank_set a b) = symbol_rank_set_cases P env g h k a b
  perform_cases (Call.symbol_is_accessible a) = symbol_is_accessible_cases P env g h k a
  perform_cases (Call.symbol_is_counted a) = symbol_is_counted_cases P env g h k a
  perform_cases (Call.symbol_is_nulling a) = symbol_is_nulling_cases P env g h k a
  perform_cases (Call.symbol_is_nullable a) = symbol_is_nullable_cases P env g h k a
  perform_cases (Call.symbol_is_terminal a) = symbol_is_terminal_cases P env g h k a
  perform_cases (Call.symbol_is_terminal_set a b) = symbol_is_terminal_set_cases P env g h k a b
  perform_cases (Call.symbol_is_productive a) = symbol_is_productive_cases P env g h k a
  perform_cases (Call.symbol_is_completion_event a) = symbol_is_completion_event_cases P env g h k a
  perform_cases (Call.symbol_is_completion_event_set a b) =
      symbol_is_completion_event_set_cases P env g h k a b
  perform_cases (Call.completion_symbol_activate a b) =
      completion_symbol_activate_cases P env g h k a b
  perform_cases (Call.symbol_is_nulled_event a) = symbol_is_nulled_event_cases P env g h k a
  perform_cases (Call.symbol_is_nulled_event_set a b) =
      symbol_is_nulled_event_set_cases P env g h k a b
  perform_cases (Call.nulled_symbol_activate a b) = nulled_symbol_activate_cases P env g h k a b
  perform_cases (Call.symbol_is_prediction_event a) = symbol_is_prediction_event_cases P env g h k a
  perform_cases (Call.symbol_is_prediction_event_set a b) =
      symbol_is_prediction_event_set_cases P env g h k a b
  perform_cases (Call.prediction_symbol_activate a b) =
      prediction_symbol_activate_cases P env g h k a b
  perform_cases Call.highest_symbol_id = highest_symbol_id_cases P env g h k
  perform_cases Call.highest_rule_id = highest_rule_id_cases P env g h k
  perform_cases Call.start_symbol = start_symbol_cases P env g h k
  perform_cases (Call.start_symbol_set a) = start_symbol_set_cases P env g h k a
  perform_cases Call.default_rank = default_rank_cases P env g h k
  perform_cases (Call.default_rank_set a) = default_rank_set_cases P env g h k a
  perform_cases Call.is_precomputed = is_precomputed_cases P env g h k
  perform_cases Call.has_cycle = has_cycle_cases P env g h k
  perform_cases Call.event_count = event_count_cases P env g h k
  perform_cases (Call.rule_new a b) = rule_new_cases P env g h k a b
  perform_cases (Call.sequence_new a b c d e) = sequence_new_cases P env g h k a b c d e
  perform_cases (Call.rule_lhs a) = rule_lhs_cases P env g h k a
  perform_cases (Call.rule_rhs a b) = rule_rhs_cases P env g h k a b
  perform_cases (Call.rule_length a) = rule_length_cases P env g h k a
  perform_cases (Call.rule_rank a) = rule_rank_cases P env g h k a
  perform_cases (Call.rule_rank_set a b) = rule_rank_set_cases P env g h k a b
  perform_cases (Call.rule_null_high a) = rule_null_high_cases P env g h k a
  perform_cases (Call.rule_null_high_set a b) = rule_null_high_set_cases P env g h k a b
  perform_cases (Call.sequence_min a) = sequence_min_cases P env g h k a
  perform_cases (Call.sequence_separator a) = sequence_separator_cases P env g h k a
  perform_cases (Call.rule_is_keep_separation a) = rule_is_keep_separation_cases P env g h k a
  perform_cases (Call.rule_is_proper_separation a) = rule_is_proper_separation_cases P env g h k a
  perform_cases (Call.rule_is_loop a) = rule_is_loop_cases P env g h k a
  perform_cases (Call.rule_is_nulling a) = rule_is_nulling_cases P env g h k a
  perform_cases (Call.rule_is_nullable a) = rule_is_nullable_cases P env g h k a
  perform_cases (Call.rule_is_accessible a) = rule_is_accessible_cases P env g h k a
  perform_cases (Call.rule_is_productive a) = rule_is_productive_cases P env g h k a
  perform_cases (Call.rule_is_used a) = rule_is_used_cases P env g h k a

-- Every call leaves the contents alone or makes one of the changes.
pub perform_changes :
    {T : Type 0} (env : Env T) (call : Call) (g : Grammar T)
    → let c' = (final (perform env call g)).contents in (c' ≡ g.contents) ⊎ Change env g.contents c'
perform_changes env call g =
    perform_cases (λ c'. (c' ≡ g.contents) ⊎ Change env g.contents c') env g (inl refl)
      (λ c' ch. inr ch) call
