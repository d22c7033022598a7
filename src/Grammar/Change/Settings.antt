-- ===== src/Grammar/Change/Settings.antt =====
-- The changes that the calls on the grammar as a whole make.
use marpa_r.Prelude.{◌<◌, refl, length, ℤ, pos_part, arith}
use marpa_r.Grammar.{Grammar, Contents, Env, final}
use marpa_r.Grammar.Call.{Call, perform}
use marpa_r.Grammar.Settings.{
  marpa_g_highest_symbol_id, marpa_g_highest_rule_id, marpa_g_start_symbol,
  marpa_g_start_symbol_set, marpa_g_default_rank, marpa_g_default_rank_set, marpa_g_is_precomputed,
  marpa_g_has_cycle, marpa_g_event_count,
}
use marpa_r.Grammar.Change.{Change, InRange}

module _ {T : Type 0} (P : Contents T → Type 0) (env : Env T) (g : Grammar T) (h : P g.contents)
    (k : (c' : Contents T) → Change env g.contents c' → P c') where
  pub highest_symbol_id_cases : P (final (perform env Call.highest_symbol_id g)).contents
  unfolding perform marpa_g_highest_symbol_id
  highest_symbol_id_cases = ground arith

  pub highest_rule_id_cases : P (final (perform env Call.highest_rule_id g)).contents
  unfolding perform marpa_g_highest_rule_id
  highest_rule_id_cases = ground arith

  pub start_symbol_cases : P (final (perform env Call.start_symbol g)).contents
  unfolding perform marpa_g_start_symbol
  start_symbol_cases = ground arith

  pub start_symbol_set_cases :
      (a : ℤ) → P (final (perform env (Call.start_symbol_set a) g)).contents
  unfolding perform marpa_g_start_symbol_set
  start_symbol_set_cases a =
      ground (arith, λ (p : pos_part a < length g.xsys). k _ (Change.start (pos_part a) p refl))

  pub default_rank_cases : P (final (perform env Call.default_rank g)).contents
  unfolding perform marpa_g_default_rank
  default_rank_cases = ground arith

  pub default_rank_set_cases :
      (a : ℤ) → P (final (perform env (Call.default_rank_set a) g)).contents
  unfolding perform marpa_g_default_rank_set
  default_rank_set_cases a = ground (arith, λ (r : InRange a). k _ (Change.default_rank a r refl))

  pub is_precomputed_cases : P (final (perform env Call.is_precomputed g)).contents
  unfolding perform marpa_g_is_precomputed
  is_precomputed_cases = ground arith

  pub has_cycle_cases : P (final (perform env Call.has_cycle g)).contents
  unfolding perform marpa_g_has_cycle
  has_cycle_cases = ground arith

  pub event_count_cases : P (final (perform env Call.event_count g)).contents
  unfolding perform marpa_g_event_count
  event_count_cases = ground arith
