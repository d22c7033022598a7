-- ===== src/Precompute.antt =====
-- The start of marpa_g_precompute, of cpan/engine/read_only/marpa.c: its guards, in their order, up
-- to the census; and the calls on a grammar with precomputation among them.
pub mod Start
pub mod Refused
pub mod Room
pub mod Tests
use marpa_r.Prelude.{ℕ, not, List, [], ◌∷◌, length, ℤ, ◌==◌, is_negative, pos_part}
use marpa_r.Grammar.{
  Grammar, Env, M, value, ◌>>=◌, ◌>>◌, pure, fail_if, reads, update, failure_indicator,
  fail_if_fatal, fail_if_precomputed, xsy_id_is_valid, xsy_by_id, no_rules, no_start_symbol,
  invalid_start_symbol, start_not_lhs, final,
}
use marpa_r.Grammar.Call.{Call, perform}

-- A call of those on a grammar, or precomputation.
pub data AnyCall : Type 0 where
  on_grammar : Call → AnyCall
  precompute : AnyCall

module _ {T : Type 0} (env : Env T) where
  -- The value is the start symbol.
  unfoldable pub precompute_guards : M T ℕ
  unfolding fail_if_fatal fail_if_precomputed xsy_id_is_valid
  precompute_guards = do
    start_xsy_id ← reads (λ c. c.start_xsy_id)
    fail_if_fatal env
    update (λ c. record c { events = [] })
    xrl_count ← reads (λ c. length c.xrls)
    fail_if (xrl_count == 0) no_rules failure_indicator
    fail_if_precomputed
    fail_if (is_negative start_xsy_id) no_start_symbol failure_indicator
    valid ← reads (λ c. xsy_id_is_valid c.xsys start_xsy_id)
    fail_if (not valid) invalid_start_symbol failure_indicator
    start ← xsy_by_id start_xsy_id
    fail_if (not start.is_lhs) start_not_lhs failure_indicator
    pure (pos_part start_xsy_id)

  -- Behind its guards, precomputation goes on by `rest`, which is any function of the start symbol
  -- and the grammar.
  unfoldable pub perform_any : (ℕ → M T ℤ) → AnyCall → M T ℤ
  unfolding perform precompute_guards
  perform_any rest (on_grammar call) = perform env call
  perform_any rest precompute = precompute_guards >>= rest

  -- The grammar after a list of calls, failed ones included.
  unfoldable pub run_any : (ℕ → M T ℤ) → List AnyCall → Grammar T → Grammar T
  unfolding perform_any
  run_any rest [] g = g
  run_any rest (call ∷ calls) g = run_any rest calls (final (perform_any rest call g))
