-- ===== src/Precompute/Refused.antt =====
-- Calls on a precomputed grammar, precomputation again among them.
use marpa_r.Prelude.{ℕ, ◌≡◌, refl, ◌∙◌, true, List, [], ◌∷◌, ℤ, arith}
use marpa_r.Grammar.{
  Grammar, Contents, Env, M, final, ◌>>=◌, fail_if_fatal, fail_if_not_ok, fail_if_precomputed,
}
use marpa_r.Grammar.Atomic.{Frozen, perform-Frozen}
use marpa_r.Precompute.{precompute_guards, AnyCall, on_grammar, precompute, perform_any, run_any}

Frozen-refl : {T : Type 0} (c : Contents T) → Frozen c c
Frozen-refl c = record {
  xrls = refl;
  xrl_tree = refl;
  start_xsy_id = refl;
  default_rank = refl;
  size = refl;
  is_precomputed = refl;
}

Frozen-trans : {T : Type 0} (c d e : Contents T) → Frozen c d → Frozen d e → Frozen c e
Frozen-trans c d e p q = record {
  xrls = q.xrls ∙ p.xrls;
  xrl_tree = q.xrl_tree ∙ p.xrl_tree;
  start_xsy_id = q.start_xsy_id ∙ p.start_xsy_id;
  default_rank = q.default_rank ∙ p.default_rank;
  size = q.size ∙ p.size;
  is_precomputed = q.is_precomputed ∙ p.is_precomputed;
}

module _ {T : Type 0} (env : Env T) (rest : ℕ → M T ℤ) where
  -- The guards refuse a precomputed grammar, so that nothing behind them runs.
  refused :
      (g : Grammar T)
      → g.is_precomputed ≡ true
      → Frozen g.contents (final ((precompute_guards env >>= rest) g)).contents
  unfolding precompute_guards fail_if_fatal fail_if_not_ok fail_if_precomputed
  refused g p =
      let keeps = Frozen-refl g.contents in
      let cleared : Frozen g.contents (record g.contents { events = [] }) = record {
        xrls = refl;
        xrl_tree = refl;
        start_xsy_id = refl;
        default_rank = refl;
        size = refl;
        is_precomputed = refl;
      } in
      ground (arith, p, keeps, cleared)

  perform_any-Frozen :
      (call : AnyCall) (g : Grammar T)
      → g.is_precomputed ≡ true
      → Frozen g.contents (final (perform_any env rest call g)).contents
  unfolding perform_any
  perform_any-Frozen (on_grammar call) g p = perform-Frozen env call g p
  perform_any-Frozen precompute g p = refused g p

  -- Once a grammar is precomputed, any list of the calls of the type Call and of precomputation,
  -- failed ones included, keeps its rules, its duplicate-rule tree, its start symbol, its
  -- default rank, its size and the precomputed mark. This holds whatever precomputation does
  -- behind its guards. Zero-width assertions and reference counts are not among the calls.
  pub run_any-Frozen :
      (calls : List AnyCall) (g : Grammar T)
      → g.is_precomputed ≡ true
      → Frozen g.contents (run_any env rest calls g).contents
  unfolding run_any
  run_any-Frozen [] g p = Frozen-refl g.contents
  run_any-Frozen (call ∷ calls) g p =
      let g1 = final (perform_any env rest call g) in
      let f = perform_any-Frozen call g p in
      Frozen-trans g.contents g1.contents _ f (run_any-Frozen calls g1 (f.is_precomputed ∙ p))
