-- ===== src/Grammar/Settled.antt =====
-- What is read back after a setting is made.
use marpa_r.Prelude.{
  ℕ, ◌<◌, ◌≡◌, ◌≢◌, Bool, true, false, not, ◌⊎◌, length, get_or, length-modify, get_or-modify_self,
  get_or-modify_ne, ℤ, pos, of_bool, arith,
}
use marpa_r.Grammar.{
  Grammar, Env, Xsy, blank_xsy, failure, failure_indicator, final, result, terminal_is_locked,
}
use marpa_r.Grammar.Symbols.{
  marpa_g_symbol_rank, marpa_g_symbol_rank_set, marpa_g_symbol_is_terminal,
  marpa_g_symbol_is_terminal_set,
}
use marpa_r.Grammar.Change.{InRange}

-- The functions on symbol `i` come as far as its record.
pub record Open {T : Type 0} (env : Env T) (i : ℕ) (g : Grammar T) : Type 0 where
  pub headers : env.header_version_mismatch ≡ false
  pub is_ok : g.is_ok ≡ true
  pub unprecomputed : g.is_precomputed ≡ false
  pub below : i < length g.xsys

module _ {T : Type 0} (env : Env T) (i : ℕ) (g : Grammar T) (o : Open env i g) where
  -- A rank in range that is set for a symbol is read back from it, and the ranks of the other
  -- symbols are read back as they were before.
  pub rank-rank_set :
      (rank : ℤ) (j : ℕ)
      → InRange rank
      → j < length g.xsys
      → let g' = final (marpa_g_symbol_rank_set env (pos i) rank g) in
        (result (marpa_g_symbol_rank env (pos i) g') ≡ rank)
        × ((i ≢ j)
            → result (marpa_g_symbol_rank env (pos j) g')
              ≡ result (marpa_g_symbol_rank env (pos j) g))
  unfolding marpa_g_symbol_rank marpa_g_symbol_rank_set
  rank-rank_set rank j r l =
      let f : Xsy → Xsy = λ x. record x { rank = rank } in
      (
        ground (
          arith,
          o.headers,
          o.is_ok,
          o.unprecomputed,
          o.below,
          length-modify g.xsys i f,
          get_or-modify_self g.xsys i f blank_xsy,
        ),
        λ ne. ground (
          arith,
          o.headers,
          o.is_ok,
          o.unprecomputed,
          o.below,
          length-modify g.xsys i f,
          get_or-modify_ne g.xsys i j f blank_xsy ne,
        ),
      )

  -- A terminal status that is not locked the other way can be set. It is read back, and is locked:
  -- setting the opposite then fails and changes only the error code.
  pub terminal_set_locks :
      (b : Bool)
      → ((get_or g.xsys i blank_xsy).is_locked_terminal ≡ false)
        ⊎ ((get_or g.xsys i blank_xsy).is_terminal ≡ b)
      → let g' = final (marpa_g_symbol_is_terminal_set env (pos i) (of_bool b) g) in
        (result (marpa_g_symbol_is_terminal env (pos i) g') ≡ of_bool b)
        × (marpa_g_symbol_is_terminal_set env (pos i) (of_bool (not b)) g'
            ≡ failure failure_indicator (record g' { error = terminal_is_locked }))
  unfolding marpa_g_symbol_is_terminal marpa_g_symbol_is_terminal_set
  terminal_set_locks b free =
      let f : Xsy → Xsy = λ x. record x { is_locked_terminal = true; is_terminal = b } in
      (
        ground (
          arith,
          o.headers,
          o.is_ok,
          o.unprecomputed,
          o.below,
          length-modify g.xsys i f,
          get_or-modify_self g.xsys i f blank_xsy,
        ),
        ground (
          arith,
          o.headers,
          o.is_ok,
          o.unprecomputed,
          o.below,
          length-modify g.xsys i f,
          get_or-modify_self g.xsys i f blank_xsy,
        ),
      )
