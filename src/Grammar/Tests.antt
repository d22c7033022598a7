-- ===== src/Grammar/Tests.antt =====
-- Runs of the calls on a small grammar, with the tree of rules as a list.
use marpa_r.Prelude.{
  ℕ, ◌≡◌, refl, Bool, true, false, not, ◌||◌, inl, List, [], ◌∷◌, map, none, some, length, pos,
  negsuc, eqb_ℤ, arith, if◌then◌else◌,
}
use marpa_r.Grammar.{Grammar, Env, Xrl, failure_indicator, final, result, sequence_lhs_not_unique}
use marpa_r.Grammar.Settings.{marpa_g_new, marpa_g_start_symbol_set}
use marpa_r.Grammar.Symbols.{marpa_g_symbol_new}
use marpa_r.Grammar.Rules.{duplicate_rule_cmp, marpa_g_rule_new, marpa_g_sequence_new, as_sequence}
use marpa_r.Grammar.Call.{Call, perform, run}
use marpa_r.Grammar.Invariant.{AvlLaws, IsWf, listed}
use marpa_r.Grammar.Reach.{run_new-IsWf}
use marpa_r.Grammar.Atomic.{FailsAt, perform-FailsAt, rule_new_result}
use marpa_r.Grammar.Settled.{Open, rank-rank_set, terminal_set_locks}
use marpa_r.Grammar.Symbols.{
  marpa_g_symbol_rank, marpa_g_symbol_rank_set, marpa_g_symbol_is_terminal,
  marpa_g_symbol_is_terminal_set,
}
use marpa_r.Grammar.{blank_xsy, failure, terminal_is_locked}
use marpa_r.Prelude.{get_or, of_bool, ◌≢◌}

-- A tree as the list of its rules.
abbrev pub has_rule : List Xrl → Xrl → Bool
has_rule [] r = false
has_rule (s ∷ ss) r = eqb_ℤ (duplicate_rule_cmp s r) (pos 0) || has_rule ss r

abbrev pub list_env : Env (List Xrl)
list_env = record {
  header_version_mismatch = false;
  avl_create = [];
  avl_insert = λ t r. if has_rule t r then none else some (r ∷ t);
}

abbrev pub list_laws : AvlLaws list_env
list_laws = record {
  has = has_rule;
  has_create = λ r. refl;
  insert_present = λ t r e. rw e;
  insert_absent = λ t r e. (r ∷ t, rw e, λ s. refl);
}

-- Symbols 0 to 3; 0 ::= 1 2, the same again, 1 ::= 3* with separator 2, and a second rule for 1.
abbrev pub calls : List Call
calls =
    Call.symbol_new
    ∷ Call.symbol_new
    ∷ Call.symbol_new
    ∷ Call.symbol_new
    ∷ Call.rule_new (pos 0) (pos 1 ∷ pos 2 ∷ [])
    ∷ Call.rule_new (pos 0) (pos 1 ∷ pos 2 ∷ [])
    ∷ Call.sequence_new (pos 1) (pos 3) (pos 2) (pos 0) 2
    ∷ Call.rule_new (pos 1) []
    ∷ Call.start_symbol_set (pos 0)
    ∷ []

abbrev built : Grammar (List Xrl)
built = run list_env calls (marpa_g_new list_env)

-- The duplicate and the second rule for the sequence's left side were refused.
built_rules :
    (map (λ (r : Xrl). r.lhs) built.xrls ≡ 0 ∷ 1 ∷ [])
    × (map (λ (r : Xrl). r.rhs) built.xrls ≡ (1 ∷ 2 ∷ []) ∷ (3 ∷ []) ∷ [])
    × (built.external_size ≡ 5)
    × (built.error ≡ sequence_lhs_not_unique)
unfolding run marpa_g_new perform marpa_g_symbol_new marpa_g_rule_new marpa_g_sequence_new
    marpa_g_start_symbol_set duplicate_rule_cmp as_sequence
built_rules = (refl, refl, refl, refl)

run_new-IsWf_example : IsWf list_laws (run list_env calls (marpa_g_new list_env)).contents
run_new-IsWf_example = run_new-IsWf list_laws calls

perform-FailsAt_example : FailsAt (run list_env calls (marpa_g_new list_env)).contents (
    perform list_env
      (Call.rule_new (pos 0) (pos 1 ∷ pos 2 ∷ []))
      (run list_env calls (marpa_g_new list_env)))
perform-FailsAt_example =
    perform-FailsAt list_laws (Call.rule_new (pos 0) (pos 1 ∷ pos 2 ∷ []))
      (run list_env calls (marpa_g_new list_env)) (run_new-IsWf list_laws calls)

-- The same grammar, marked as precomputed.
abbrev pub sealed : Grammar (List Xrl)
unfolding run marpa_g_new
sealed =
    let g = run list_env calls (marpa_g_new list_env) in
    record g { contents = record (g.contents) { is_precomputed = true } }

-- What the theorems ask of the grammar.
built_facts :
    (built.is_ok ≡ true)
    × (built.is_precomputed ≡ false)
    × (length built.xsys ≡ 4)
    × ((get_or built.xsys 2 blank_xsy).is_sequence_lhs ≡ false)
    × ((get_or built.xsys 1 blank_xsy).is_locked_terminal ≡ false)
    × (if listed built.xrls 2 (3 ∷ 3 ∷ []) then failure_indicator else pos (length built.xrls))
      ≡ pos 2
unfolding run marpa_g_new perform marpa_g_symbol_new marpa_g_rule_new marpa_g_sequence_new
    marpa_g_start_symbol_set duplicate_rule_cmp as_sequence
built_facts = (refl, refl, refl, refl, refl, refl)

-- Symbol 2 gets a rule with a right side that no rule has.
rule_new_result_example :
    result (marpa_g_rule_new list_env (pos 2) (pos 3 ∷ pos 3 ∷ []) built)
    ≡ (if listed built.xrls 2 (3 ∷ 3 ∷ []) then failure_indicator else pos (length built.xrls))
rule_new_result_example =
    let (o, p, l, s, _, r) = built_facts in
    rule_new_result list_laws 2 (3 ∷ 3 ∷ []) built (run_new-IsWf list_laws calls) refl o p
      (omega (arith, l)) (omega (arith, l), (omega (arith, l), tt)) s (ground arith)

abbrev opened : Open list_env 1 built
opened = record {
  headers = refl;
  is_ok = built_facts.0;
  unprecomputed = built_facts.1;
  below = omega (arith, built_facts.2);
}

rank-rank_set_example :
    let g' = final (marpa_g_symbol_rank_set list_env (pos 1) (negsuc 6) built) in
    (result (marpa_g_symbol_rank list_env (pos 1) g') ≡ negsuc 6)
    × (◌≢◌ {A = ℕ} 1 2
        → result (marpa_g_symbol_rank list_env (pos 2) g')
          ≡ result (marpa_g_symbol_rank list_env (pos 2) built))
rank-rank_set_example =
    rank-rank_set list_env 1 built opened (negsuc 6) 2 (ground arith, ground arith)
      (omega (arith, built_facts.2))

terminal_set_locks_example :
    let g' = final (marpa_g_symbol_is_terminal_set list_env (pos 1) (of_bool true) built) in
    (result (marpa_g_symbol_is_terminal list_env (pos 1) g') ≡ of_bool true)
    × (marpa_g_symbol_is_terminal_set list_env (pos 1) (of_bool (not true)) g'
        ≡ failure failure_indicator (record g' { error = terminal_is_locked }))
terminal_set_locks_example = terminal_set_locks list_env 1 built opened true (inl built_facts.4)
