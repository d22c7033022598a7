-- ===== src/Grammar/Call.antt =====
-- The public functions of marpa.c on the symbols, the rules, the ranks, the events and the start
-- symbol of a grammar, as one type of calls. Precomputation, zero-width assertions and reference
-- counts are not among them.
use marpa_r.Prelude.{ℕ, List, [], ◌∷◌, ℤ}
use marpa_r.Grammar.{Grammar, Env, M, final}
use marpa_r.Grammar.Settings.{
  marpa_g_highest_symbol_id, marpa_g_highest_rule_id, marpa_g_start_symbol,
  marpa_g_start_symbol_set, marpa_g_default_rank, marpa_g_default_rank_set, marpa_g_is_precomputed,
  marpa_g_has_cycle, marpa_g_event_count,
}
use marpa_r.Grammar.Symbols.{
  marpa_g_symbol_new, marpa_g_force_valued, marpa_g_symbol_is_valued, marpa_g_symbol_is_valued_set,
  marpa_g_symbol_is_start, marpa_g_symbol_rank, marpa_g_symbol_rank_set,
  marpa_g_symbol_is_accessible, marpa_g_symbol_is_counted, marpa_g_symbol_is_nulling,
  marpa_g_symbol_is_nullable, marpa_g_symbol_is_terminal, marpa_g_symbol_is_terminal_set,
  marpa_g_symbol_is_productive,
}
use marpa_r.Grammar.Events.{
  marpa_g_symbol_is_completion_event, marpa_g_symbol_is_completion_event_set,
  marpa_g_completion_symbol_activate, marpa_g_symbol_is_nulled_event,
  marpa_g_symbol_is_nulled_event_set, marpa_g_nulled_symbol_activate,
  marpa_g_symbol_is_prediction_event, marpa_g_symbol_is_prediction_event_set,
  marpa_g_prediction_symbol_activate,
}
use marpa_r.Grammar.Rules.{marpa_g_rule_new, marpa_g_sequence_new}
use marpa_r.Grammar.RuleAccess.{
  marpa_g_rule_lhs, marpa_g_rule_rhs, marpa_g_rule_length, marpa_g_rule_rank, marpa_g_rule_rank_set,
  marpa_g_rule_null_high, marpa_g_rule_null_high_set, marpa_g_sequence_min,
  marpa_g_sequence_separator, marpa_g_rule_is_keep_separation, marpa_g_rule_is_proper_separation,
  marpa_g_rule_is_loop, marpa_g_rule_is_nulling, marpa_g_rule_is_nullable,
  marpa_g_rule_is_accessible, marpa_g_rule_is_productive, marpa_g_rule_is_used,
}

pub data Call : Type 0 where
  symbol_new : Call
  force_valued : Call
  symbol_is_valued : ℤ → Call
  symbol_is_valued_set : ℤ → ℤ → Call
  symbol_is_start : ℤ → Call
  symbol_rank : ℤ → Call
  symbol_rank_set : ℤ → ℤ → Call
  symbol_is_accessible : ℤ → Call
  symbol_is_counted : ℤ → Call
  symbol_is_nulling : ℤ → Call
  symbol_is_nullable : ℤ → Call
  symbol_is_terminal : ℤ → Call
  symbol_is_terminal_set : ℤ → ℤ → Call
  symbol_is_productive : ℤ → Call
  symbol_is_completion_event : ℤ → Call
  symbol_is_completion_event_set : ℤ → ℤ → Call
  completion_symbol_activate : ℤ → ℤ → Call
  symbol_is_nulled_event : ℤ → Call
  symbol_is_nulled_event_set : ℤ → ℤ → Call
  nulled_symbol_activate : ℤ → ℤ → Call
  symbol_is_prediction_event : ℤ → Call
  symbol_is_prediction_event_set : ℤ → ℤ → Call
  prediction_symbol_activate : ℤ → ℤ → Call
  highest_symbol_id : Call
  highest_rule_id : Call
  start_symbol : Call
  start_symbol_set : ℤ → Call
  default_rank : Call
  default_rank_set : ℤ → Call
  is_precomputed : Call
  has_cycle : Call
  event_count : Call
  rule_new : ℤ → List ℤ → Call
  sequence_new : ℤ → ℤ → ℤ → ℤ → ℕ → Call
  rule_lhs : ℤ → Call
  rule_rhs : ℤ → ℤ → Call
  rule_length : ℤ → Call
  rule_rank : ℤ → Call
  rule_rank_set : ℤ → ℤ → Call
  rule_null_high : ℤ → Call
  rule_null_high_set : ℤ → ℤ → Call
  sequence_min : ℤ → Call
  sequence_separator : ℤ → Call
  rule_is_keep_separation : ℤ → Call
  rule_is_proper_separation : ℤ → Call
  rule_is_loop : ℤ → Call
  rule_is_nulling : ℤ → Call
  rule_is_nullable : ℤ → Call
  rule_is_accessible : ℤ → Call
  rule_is_productive : ℤ → Call
  rule_is_used : ℤ → Call

-- The function that a call runs.
unfoldable pub perform : {T : Type 0} → Env T → Call → M T ℤ
perform env symbol_new = marpa_g_symbol_new
perform env force_valued = marpa_g_force_valued
perform env (symbol_is_valued a) = marpa_g_symbol_is_valued a
perform env (symbol_is_valued_set a b) = marpa_g_symbol_is_valued_set a b
perform env (symbol_is_start a) = marpa_g_symbol_is_start env a
perform env (symbol_rank a) = marpa_g_symbol_rank env a
perform env (symbol_rank_set a b) = marpa_g_symbol_rank_set env a b
perform env (symbol_is_accessible a) = marpa_g_symbol_is_accessible env a
perform env (symbol_is_counted a) = marpa_g_symbol_is_counted env a
perform env (symbol_is_nulling a) = marpa_g_symbol_is_nulling env a
perform env (symbol_is_nullable a) = marpa_g_symbol_is_nullable env a
perform env (symbol_is_terminal a) = marpa_g_symbol_is_terminal env a
perform env (symbol_is_terminal_set a b) = marpa_g_symbol_is_terminal_set env a b
perform env (symbol_is_productive a) = marpa_g_symbol_is_productive env a
perform env (symbol_is_completion_event a) = marpa_g_symbol_is_completion_event env a
perform env (symbol_is_completion_event_set a b) = marpa_g_symbol_is_completion_event_set env a b
perform env (completion_symbol_activate a b) = marpa_g_completion_symbol_activate env a b
perform env (symbol_is_nulled_event a) = marpa_g_symbol_is_nulled_event env a
perform env (symbol_is_nulled_event_set a b) = marpa_g_symbol_is_nulled_event_set env a b
perform env (nulled_symbol_activate a b) = marpa_g_nulled_symbol_activate env a b
perform env (symbol_is_prediction_event a) = marpa_g_symbol_is_prediction_event env a
perform env (symbol_is_prediction_event_set a b) = marpa_g_symbol_is_prediction_event_set env a b
perform env (prediction_symbol_activate a b) = marpa_g_prediction_symbol_activate env a b
perform env highest_symbol_id = marpa_g_highest_symbol_id env
perform env highest_rule_id = marpa_g_highest_rule_id env
perform env start_symbol = marpa_g_start_symbol env
perform env (start_symbol_set a) = marpa_g_start_symbol_set env a
perform env default_rank = marpa_g_default_rank env
perform env (default_rank_set a) = marpa_g_default_rank_set env a
perform env is_precomputed = marpa_g_is_precomputed env
perform env has_cycle = marpa_g_has_cycle env
perform env event_count = marpa_g_event_count env
perform env (rule_new a b) = marpa_g_rule_new env a b
perform env (sequence_new a b c d e) = marpa_g_sequence_new env a b c d e
perform env (rule_lhs a) = marpa_g_rule_lhs env a
perform env (rule_rhs a b) = marpa_g_rule_rhs env a b
perform env (rule_length a) = marpa_g_rule_length env a
perform env (rule_rank a) = marpa_g_rule_rank env a
perform env (rule_rank_set a b) = marpa_g_rule_rank_set env a b
perform env (rule_null_high a) = marpa_g_rule_null_high env a
perform env (rule_null_high_set a b) = marpa_g_rule_null_high_set env a b
perform env (sequence_min a) = marpa_g_sequence_min env a
perform env (sequence_separator a) = marpa_g_sequence_separator env a
perform env (rule_is_keep_separation a) = marpa_g_rule_is_keep_separation env a
perform env (rule_is_proper_separation a) = marpa_g_rule_is_proper_separation env a
perform env (rule_is_loop a) = marpa_g_rule_is_loop env a
perform env (rule_is_nulling a) = marpa_g_rule_is_nulling env a
perform env (rule_is_nullable a) = marpa_g_rule_is_nullable env a
perform env (rule_is_accessible a) = marpa_g_rule_is_accessible env a
perform env (rule_is_productive a) = marpa_g_rule_is_productive env a
perform env (rule_is_used a) = marpa_g_rule_is_used a

-- The grammar after a list of calls, failed ones included.
unfoldable pub run : {T : Type 0} → Env T → List Call → Grammar T → Grammar T
run env [] g = g
run env (c ∷ cs) g = run env cs (final (perform env c g))
