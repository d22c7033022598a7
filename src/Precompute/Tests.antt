-- ===== src/Precompute/Tests.antt =====
-- A grammar that is built by calls, up to the census.
use marpa_r.Prelude.{ℕ, ◌≤◌, length, pos, ◌≡◌, refl, List, [], ◌∷◌}
use marpa_r.Grammar.{Outcome, ErrorCode, Xrl, value, failure, no_rules, start_not_lhs}
use marpa_r.Grammar.Settings.{marpa_g_new, marpa_g_start_symbol_set}
use marpa_r.Grammar.Symbols.{marpa_g_symbol_new}
use marpa_r.Grammar.Rules.{duplicate_rule_cmp, marpa_g_rule_new, marpa_g_sequence_new, as_sequence}
use marpa_r.Grammar.Call.{Call, perform, run}
use marpa_r.Grammar.Reach.{run_new-IsWf}
use marpa_r.Grammar.Tests.{list_env, list_laws, calls, sealed}
use marpa_r.Census.Tests.{sorted_list, sorted_laws}
use marpa_r.Grammar.{pure}
use marpa_r.Grammar.Atomic.{Frozen}
use marpa_r.Census.Index.{index_rules}
use marpa_r.Precompute.{precompute_guards, on_grammar, precompute, run_any}
use marpa_r.Precompute.Refused.{run_any-Frozen}
use marpa_r.Precompute.Room.{run_new-room}
use marpa_r.Precompute.Start.{Begins, precompute_guards-Begins}

abbrev codes : Outcome (List Xrl) ℕ → List ErrorCode
codes (value start g) = []
codes (failure r g) = g.error ∷ []

guards_run :
    (codes (precompute_guards list_env (run list_env calls (marpa_g_new list_env))) ≡ [])
    × (codes (precompute_guards list_env (marpa_g_new list_env)) ≡ no_rules ∷ [])
    × (codes (
          precompute_guards list_env (
            run list_env
              (Call.start_symbol_set (pos 2) ∷ [])
              (run list_env calls (marpa_g_new list_env))))
        ≡ start_not_lhs ∷ [])
unfolding precompute_guards run marpa_g_new perform marpa_g_symbol_new marpa_g_rule_new
    marpa_g_sequence_new marpa_g_start_symbol_set duplicate_rule_cmp as_sequence
guards_run = (refl, refl, refl)

precompute_guards-Begins_example :
    Begins list_laws sorted_list
      (run list_env calls (marpa_g_new list_env))
      (precompute_guards list_env (run list_env calls (marpa_g_new list_env)))
precompute_guards-Begins_example =
    precompute_guards-Begins list_laws sorted_list (run list_env calls (marpa_g_new list_env))
      (run_new-IsWf list_laws calls) sorted_laws

-- Precomputation again, and a call between.
run_any-Frozen_example :
    Frozen sealed.contents
      (run_any list_env
        (λ start. pure (pos 1))
        (precompute ∷ on_grammar Call.symbol_new ∷ precompute ∷ [])
        sealed).contents
unfolding run marpa_g_new
run_any-Frozen_example =
    run_any-Frozen list_env (λ start. pure (pos 1))
      (precompute ∷ on_grammar Call.symbol_new ∷ precompute ∷ []) sealed refl

run_new-room_example :
    let c = (run list_env calls (marpa_g_new list_env)).contents in
    (length (index_rules (length c.xsys) c.xrls).rh_pairs ≤ c.external_size)
    × (length (index_rules (length c.xsys) c.xrls).lh_pairs ≡ length c.xrls)
run_new-room_example = run_new-room list_laws calls
