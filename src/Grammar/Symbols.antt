-- ===== src/Grammar/Symbols.antt =====
-- The public functions of marpa.c on one symbol, but for those about events.
use marpa_r.Prelude.{
  Bool, true, false, ◌&&◌, not, List, [], ◌∷◌, ◌++◌, length, ℤ, pos, pos_part, is_negative, of_bool,
  eqb_ℤ, if◌then◌else◌,
}
use marpa_r.Grammar.{
  Contents, Env, M, Xsy, blank_xsy, valued_is_locked, terminal_is_locked, pure, fail_if, reads,
  update, update_xsy, clear, ◌>>=◌, ◌>>◌, failure_indicator, fail_if_fatal, fail_if_precomputed,
  fail_if_not_precomputed, fail_if_malformed_xsyid, soft_fail_if_no_xsy, fail_if_no_xsy,
  fail_if_rank_out_of_range, fail_if_not_boolean, xsy_by_id, clear_error,
}

-- `Boolean(value)`.
abbrev pub to_boolean : ℤ → Bool
to_boolean v = not (eqb_ℤ v (pos 0))

-- The loop of `marpa_g_force_valued`: the symbols after it, and whether it ran to the end.
unfoldable pub force_valued_loop : List Xsy → List Xsy × Bool
force_valued_loop [] = ([], true)
force_valued_loop (x ∷ xs) =
    let (ys, done) = force_valued_loop xs in
    if not x.is_valued && x.is_valued_locked
    then (x ∷ xs, false)
    else (record x { is_valued = true; is_valued_locked = true } ∷ ys, done)

module _ {T : Type 0} where
  -- The symbol that `symbol_new` fills in.
  unfoldable pub fresh_xsy : Contents T → Xsy
  fresh_xsy c = record blank_xsy {
    symbol_id = length c.xsys;
    rank = c.default_rank;
    is_valued = c.force_valued;
    is_valued_locked = c.force_valued;
  }

  unfoldable pub symbol_add : Contents T → Xsy → Contents T
  symbol_add c symbol = record c { xsys = c.xsys ++ symbol ∷ [] }

  unfoldable pub marpa_g_symbol_new : M T ℤ
  unfolding fresh_xsy symbol_add
  marpa_g_symbol_new = do
    id ← reads (λ c. length c.xsys)
    update (λ c. symbol_add c (fresh_xsy c))
    pure (pos id)

  unfoldable pub marpa_g_force_valued : M T ℤ
  unfolding force_valued_loop
  marpa_g_force_valued = do
    done ← reads (λ c. (force_valued_loop c.xsys).1)
    update (λ c. record c { xsys = (force_valued_loop c.xsys).0 })
    fail_if (not done) valued_is_locked failure_indicator
    update (λ c. record c { force_valued = true })
    pure (pos 0)

  unfoldable pub marpa_g_symbol_is_valued : ℤ → M T ℤ
  unfolding fail_if_malformed_xsyid soft_fail_if_no_xsy
  marpa_g_symbol_is_valued xsy_id = do
    fail_if_malformed_xsyid xsy_id
    soft_fail_if_no_xsy xsy_id
    xsy ← xsy_by_id xsy_id
    pure (of_bool xsy.is_valued)

  unfoldable pub marpa_g_symbol_is_valued_set : ℤ → ℤ → M T ℤ
  unfolding fail_if_malformed_xsyid soft_fail_if_no_xsy fail_if_not_boolean
  marpa_g_symbol_is_valued_set xsy_id v = do
    fail_if_malformed_xsyid xsy_id
    soft_fail_if_no_xsy xsy_id
    symbol ← xsy_by_id xsy_id
    fail_if_not_boolean v
    fail_if (symbol.is_valued_locked && not (eqb_ℤ v (of_bool symbol.is_valued))) valued_is_locked
        failure_indicator
    update_xsy (pos_part xsy_id) (λ x. record x { is_valued = to_boolean v })
    pure v

module _ {T : Type 0} (env : Env T) where
  unfoldable pub marpa_g_symbol_is_start : ℤ → M T ℤ
  unfolding fail_if_fatal fail_if_malformed_xsyid soft_fail_if_no_xsy
  marpa_g_symbol_is_start xsy_id = do
    fail_if_fatal env
    fail_if_malformed_xsyid xsy_id
    soft_fail_if_no_xsy xsy_id
    start ← reads (λ c. c.start_xsy_id)
    pure (if is_negative start then pos 0 else of_bool (eqb_ℤ xsy_id start))

  unfoldable pub marpa_g_symbol_rank : ℤ → M T ℤ
  unfolding clear_error fail_if_fatal fail_if_malformed_xsyid fail_if_no_xsy
  marpa_g_symbol_rank xsy_id = do
    clear
    fail_if_fatal env
    fail_if_malformed_xsyid xsy_id
    fail_if_no_xsy xsy_id
    xsy ← xsy_by_id xsy_id
    pure xsy.rank

  unfoldable pub marpa_g_symbol_rank_set : ℤ → ℤ → M T ℤ
  unfolding clear_error fail_if_fatal fail_if_precomputed fail_if_malformed_xsyid fail_if_no_xsy
      fail_if_rank_out_of_range
  marpa_g_symbol_rank_set xsy_id rank = do
    clear
    fail_if_fatal env
    fail_if_precomputed
    fail_if_malformed_xsyid xsy_id
    fail_if_no_xsy xsy_id
    fail_if_rank_out_of_range rank
    update_xsy (pos_part xsy_id) (λ x. record x { rank = rank })
    pure rank

  unfoldable pub marpa_g_symbol_is_accessible : ℤ → M T ℤ
  unfolding fail_if_fatal fail_if_not_precomputed fail_if_malformed_xsyid soft_fail_if_no_xsy
  marpa_g_symbol_is_accessible xsy_id = do
    fail_if_fatal env
    fail_if_not_precomputed
    fail_if_malformed_xsyid xsy_id
    soft_fail_if_no_xsy xsy_id
    xsy ← xsy_by_id xsy_id
    pure (of_bool xsy.is_accessible)

  unfoldable pub marpa_g_symbol_is_counted : ℤ → M T ℤ
  unfolding fail_if_fatal fail_if_malformed_xsyid soft_fail_if_no_xsy
  marpa_g_symbol_is_counted xsy_id = do
    fail_if_fatal env
    fail_if_malformed_xsyid xsy_id
    soft_fail_if_no_xsy xsy_id
    xsy ← xsy_by_id xsy_id
    pure (of_bool xsy.is_counted)

  unfoldable pub marpa_g_symbol_is_nulling : ℤ → M T ℤ
  unfolding fail_if_fatal fail_if_not_precomputed fail_if_malformed_xsyid soft_fail_if_no_xsy
  marpa_g_symbol_is_nulling xsy_id = do
    fail_if_fatal env
    fail_if_not_precomputed
    fail_if_malformed_xsyid xsy_id
    soft_fail_if_no_xsy xsy_id
    xsy ← xsy_by_id xsy_id
    pure (of_bool xsy.is_nulling)

  unfoldable pub marpa_g_symbol_is_nullable : ℤ → M T ℤ
  unfolding fail_if_fatal fail_if_not_precomputed fail_if_malformed_xsyid soft_fail_if_no_xsy
  marpa_g_symbol_is_nullable xsy_id = do
    fail_if_fatal env
    fail_if_not_precomputed
    fail_if_malformed_xsyid xsy_id
    soft_fail_if_no_xsy xsy_id
    xsy ← xsy_by_id xsy_id
    pure (of_bool xsy.is_nullable)

  unfoldable pub marpa_g_symbol_is_terminal : ℤ → M T ℤ
  unfolding fail_if_fatal fail_if_malformed_xsyid soft_fail_if_no_xsy
  marpa_g_symbol_is_terminal xsy_id = do
    fail_if_fatal env
    fail_if_malformed_xsyid xsy_id
    soft_fail_if_no_xsy xsy_id
    xsy ← xsy_by_id xsy_id
    pure (of_bool xsy.is_terminal)

  unfoldable pub marpa_g_symbol_is_terminal_set : ℤ → ℤ → M T ℤ
  unfolding fail_if_fatal fail_if_precomputed fail_if_malformed_xsyid soft_fail_if_no_xsy
      fail_if_not_boolean
  marpa_g_symbol_is_terminal_set xsy_id v = do
    fail_if_fatal env
    fail_if_precomputed
    fail_if_malformed_xsyid xsy_id
    soft_fail_if_no_xsy xsy_id
    symbol ← xsy_by_id xsy_id
    fail_if_not_boolean v
    fail_if (symbol.is_locked_terminal && not (eqb_ℤ (of_bool symbol.is_terminal) v))
        terminal_is_locked failure_indicator
    update_xsy (pos_part xsy_id)
        (λ x. record x { is_locked_terminal = true; is_terminal = to_boolean v })
    pure (of_bool (to_boolean v))

  unfoldable pub marpa_g_symbol_is_productive : ℤ → M T ℤ
  unfolding fail_if_fatal fail_if_not_precomputed fail_if_malformed_xsyid soft_fail_if_no_xsy
  marpa_g_symbol_is_productive xsy_id = do
    fail_if_fatal env
    fail_if_not_precomputed
    fail_if_malformed_xsyid xsy_id
    soft_fail_if_no_xsy xsy_id
    xsy ← xsy_by_id xsy_id
    pure (of_bool xsy.is_productive)
