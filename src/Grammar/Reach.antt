-- ===== src/Grammar/Reach.antt =====
-- Every grammar that calls can build from `marpa_g_new` is well formed.
use marpa_r.Prelude.{
  ℕ, ◌≡◌, refl, sym, Bool, true, false, inl, inr, List, [], ◌∷◌, map, length, modify, All-modify,
  map-modify, ◌∙◌, arith, length-append, All-append,
}
use mathlib.Core.List.{map-append}
use marpa_r.Grammar.{Grammar, Contents, Env, Xsy, Xrl, final}
use marpa_r.Grammar.Settings.{marpa_g_new}
use marpa_r.Grammar.Symbols.{fresh_xsy, symbol_add, force_valued_loop}
use marpa_r.Grammar.Call.{Call, perform, run}
use marpa_r.Grammar.Change.{Change, IsSymbol, KeepsRule}
use marpa_r.Grammar.Change.Perform.{perform_changes}
use marpa_r.Grammar.Invariant.{AvlLaws, IsWf}
use marpa_r.Grammar.Tables.{
  CountUp-append, Grows-append, length-map, IsNoneOrBelow-mono, IsRule-keeps, AllPairs-modify,
  listed-modify, total_size-modify, longest-modify,
}
use marpa_r.Grammar.Preserve.{
  Extends, SymbolsOk, Rules-Extends, Extends-roles, Extends-lhs, Grows-eq, SymbolsOk-modify, as_lhs,
  force_valued_loop-length, force_valued_loop-map, force_valued_loop-symbols,
}
use marpa_r.Grammar.NewRule.{rule_new-IsWf, sequence_new-IsWf}

module _ {T : Type 0} {env : Env T} (laws : AvlLaws env) (c : Contents T) (w : IsWf laws c) where
  -- The invariant after a change to the symbols alone, and to the mode.
  with_xsys-IsWf :
      (xs : List Xsy) (forced : Bool)
      → Extends c.xsys xs
      → SymbolsOk xs
      → IsWf laws (record c { xsys = xs; force_valued = forced })
  with_xsys-IsWf xs forced e s = record {
    symbols = s.symbols;
    symbols_numbered = s.numbered;
    rules = Rules-Extends c.xsys xs c.xrls e w.rules;
    rules_numbered = w.rules_numbered;
    distinct = w.distinct;
    tree = w.tree;
    start = IsNoneOrBelow-mono (length c.xsys) (length xs) c.start_xsy_id e.longer w.start;
    default_ranked = w.default_ranked;
    size = w.size;
    longest_rule = w.longest_rule;
  }

  symbols_ok : SymbolsOk c.xsys
  symbols_ok = record { symbols = w.symbols; numbered = w.symbols_numbered }

  forced-Extends : Extends c.xsys (force_valued_loop c.xsys).0
  forced-Extends = record {
    longer = omega (arith, force_valued_loop-length c.xsys);
    lhs_grow = Grows-eq (force_valued_loop-map (λ x. x.is_lhs) c.xsys (λ x. refl));
    sequence_grow = Grows-eq (force_valued_loop-map (λ x. x.is_sequence_lhs) c.xsys (λ x. refl));
  }

  forced-SymbolsOk : SymbolsOk (force_valued_loop c.xsys).0
  forced-SymbolsOk = record {
    symbols = force_valued_loop-symbols c.xsys w.symbols;
    numbered = rw (force_valued_loop-map (λ x. x.symbol_id) c.xsys (λ x. refl)) w.symbols_numbered;
  }

  fresh-IsWf : IsWf laws (symbol_add c (fresh_xsy c))
  unfolding symbol_add fresh_xsy
  fresh-IsWf =
      let x = fresh_xsy c in
      with_xsys-IsWf _ c.force_valued
        (record {
          longer = omega (arith, length-append {0} c.xsys (x ∷ []));
          lhs_grow = rw (map-append (λ x. x.is_lhs) c.xsys (x ∷ [])) (Grows-append _ false);
          sequence_grow =
              rw (map-append (λ x. x.is_sequence_lhs) c.xsys (x ∷ [])) (Grows-append _ false);
        })
        (record {
          symbols =
              All-append IsSymbol c.xsys (x ∷ []) w.symbols ((w.default_ranked, ground arith), tt);
          numbered = rw (map-append (λ x. x.symbol_id) c.xsys (x ∷ [])) (
              CountUp-append 0 (map (λ x. x.symbol_id) c.xsys) (length c.xsys) w.symbols_numbered
                (rw (length-map (λ (x : Xsy). x.symbol_id) c.xsys) (omega arith)));
        })

  rule-IsWf :
      (i : ℕ) (f : Xrl → Xrl) → KeepsRule f → IsWf laws (record c { xrls = modify c.xrls i f })
  rule-IsWf i f k = record {
    symbols = w.symbols;
    symbols_numbered = w.symbols_numbered;
    rules = All-modify _ c.xrls i f (IsRule-keeps _ _ _ f k) w.rules;
    rules_numbered = rw (map-modify_ids c.xrls i) w.rules_numbered;
    distinct = AllPairs-modify f k c.xrls i w.distinct;
    tree = λ r. w.tree r ∙ sym (listed-modify f k c.xrls i r.lhs r.rhs);
    start = w.start;
    default_ranked = w.default_ranked;
    size = w.size ∙ sym (total_size-modify f k c.xrls i);
    longest_rule = w.longest_rule ∙ sym (longest-modify f k c.xrls i);
  }
    where
      map-modify_ids :
          (rs : List Xrl) (i : ℕ) → map (λ r. r.id) (modify rs i f) ≡ map (λ r. r.id) rs
      map-modify_ids rs i = map-modify (λ (r : Xrl). r.id) rs i f (λ r. (k r).0)

  Change-IsWf : (c' : Contents T) → Change env c c' → IsWf laws c'
  Change-IsWf c' (Change.start n p e) = rw e (record {
    symbols = w.symbols;
    symbols_numbered = w.symbols_numbered;
    rules = w.rules;
    rules_numbered = w.rules_numbered;
    distinct = w.distinct;
    tree = w.tree;
    start = p;
    default_ranked = w.default_ranked;
    size = w.size;
    longest_rule = w.longest_rule;
  })
  Change-IsWf c' (Change.default_rank r p e) = rw e (record {
    symbols = w.symbols;
    symbols_numbered = w.symbols_numbered;
    rules = w.rules;
    rules_numbered = w.rules_numbered;
    distinct = w.distinct;
    tree = w.tree;
    start = w.start;
    default_ranked = p;
    size = w.size;
    longest_rule = w.longest_rule;
  })
  Change-IsWf c' (Change.symbol i f k o e) = rw e (
      with_xsys-IsWf _ c.force_valued (Extends-roles c.xsys i f k)
        (SymbolsOk-modify c.xsys i f (λ x. (k x).0) o symbols_ok))
  Change-IsWf c' (Change.rule i f k e) = rw e (rule-IsWf i f k)
  Change-IsWf c' (Change.fresh e) = rw e fresh-IsWf
  Change-IsWf c' (Change.forced_in_part e) =
      rw e (with_xsys-IsWf _ c.force_valued forced-Extends forced-SymbolsOk)
  Change-IsWf c' (Change.forced e) = rw e (with_xsys-IsWf _ true forced-Extends forced-SymbolsOk)
  Change-IsWf c' (Change.duplicate lhs rhs _ e) = rw e (
      with_xsys-IsWf _ c.force_valued (Extends-lhs c.xsys lhs)
        (SymbolsOk-modify c.xsys lhs as_lhs (λ x. refl) (λ o. o) symbols_ok))
  Change-IsWf c' (Change.rule_new lhs rhs t p a u i e) =
      rw e (rule_new-IsWf laws c w lhs rhs t p a u i)
  Change-IsWf c' (Change.sequence_new lhs rhs sep min flags p q s u e) =
      rw e (sequence_new-IsWf laws c w lhs rhs sep min flags p q s u)

module _ {T : Type 0} {env : Env T} (laws : AvlLaws env) where
  pub perform-IsWf :
      (call : Call) (g : Grammar T)
      → IsWf laws g.contents
      → IsWf laws (final (perform env call g)).contents
  perform-IsWf call g w = elim (perform_changes env call g) [
    | inl same ↦ rw same w
    | inr change ↦ Change-IsWf laws g.contents w _ change
  ]

  pub marpa_g_new-IsWf : IsWf laws (marpa_g_new env).contents
  unfolding marpa_g_new
  marpa_g_new-IsWf = record {
    symbols = tt;
    symbols_numbered = tt;
    rules = tt;
    rules_numbered = tt;
    distinct = tt;
    tree = laws.has_create;
    start = refl;
    default_ranked = omega arith;
    size = refl;
    longest_rule = refl;
  }

  run-IsWf :
      (calls : List Call) (g : Grammar T)
      → IsWf laws g.contents
      → IsWf laws (run env calls g).contents
  unfolding run
  run-IsWf [] g w = w
  run-IsWf (call ∷ calls) g w = run-IsWf calls _ (perform-IsWf call g w)

  -- After any list of the calls of the type Call on a new grammar, failed ones included, the
  -- grammar is well formed: identifiers count up, all names exist, ranks are in range, a
  -- sequence rule is alone with its left side, no two BNF rules are equal, the duplicate-rule
  -- tree has exactly the BNF rules, and the recorded sizes are those of the table. The AVL
  -- library keeps its laws. The calls are the public functions on symbols, rules, ranks, events
  -- and the start symbol; precomputation, zero-width assertions and reference counts are not
  -- among them.
  pub run_new-IsWf : (calls : List Call) → IsWf laws (run env calls (marpa_g_new env)).contents
  run_new-IsWf calls = run-IsWf calls _ marpa_g_new-IsWf
