-- ===== src/Grammar/Change/Symbols.antt =====
-- The changes that the calls on symbols and events make.
use marpa_r.Prelude.{
  ◌≡◌, refl, Bool, true, false, get_or, ℤ, pos_part, eqb_ℤ, not, ◌&&◌, of_bool, arith,
}
use marpa_r.Grammar.{Grammar, Contents, Env, Xsy, final, blank_xsy}
use marpa_r.Grammar.Call.{Call, perform}
use marpa_r.Grammar.Symbols.{
  marpa_g_symbol_new, marpa_g_force_valued, marpa_g_symbol_is_valued, marpa_g_symbol_is_valued_set,
  marpa_g_symbol_is_start, marpa_g_symbol_rank, marpa_g_symbol_rank_set,
  marpa_g_symbol_is_accessible, marpa_g_symbol_is_counted, marpa_g_symbol_is_nulling,
  marpa_g_symbol_is_nullable, marpa_g_symbol_is_terminal, marpa_g_symbol_is_terminal_set,
  marpa_g_symbol_is_productive,
}
use marpa_r.Grammar.Events.{
  marpa_g_symbol_is_completion_event, marpa_g_symbol_is_completion_event_set,
  marpa_g_completion_symbol_activate, marpa_g_symbol_is_nulled_event,
  marpa_g_symbol_is_nulled_event_set, marpa_g_nulled_symbol_activate,
  marpa_g_symbol_is_prediction_event, marpa_g_symbol_is_prediction_event_set,
  marpa_g_prediction_symbol_activate,
}
use marpa_r.Grammar.Symbols.{to_boolean, fresh_xsy, symbol_add}
use marpa_r.Grammar.Change.{Change, InRange, IsSymbol}

-- The test that refuses `marpa_g_symbol_is_valued_set` on a locked symbol.
abbrev conflict : Xsy → ℤ → Bool
conflict x b = x.is_valued_locked && not (eqb_ℤ b (of_bool x.is_valued))

conflict-IsSymbol :
    (x : Xsy) (b : ℤ)
    → conflict x b ≡ false
    → IsSymbol x
    → IsSymbol (record x { is_valued = to_boolean b })
conflict-IsSymbol x b e o = (o.0, ground arith)

module _ {T : Type 0} (P : Contents T → Type 0) (env : Env T) (g : Grammar T) (h : P g.contents)
    (k : (c' : Contents T) → Change env g.contents c' → P c') where
  pub symbol_new_cases : P (final (perform env Call.symbol_new g)).contents
  unfolding perform marpa_g_symbol_new fresh_xsy symbol_add
  symbol_new_cases = k _ (Change.fresh refl)

  pub force_valued_cases : P (final (perform env Call.force_valued g)).contents
  unfolding perform marpa_g_force_valued
  force_valued_cases = ground (arith, k _ (Change.forced_in_part refl), k _ (Change.forced refl))

  pub symbol_is_valued_cases :
      (a : ℤ) → P (final (perform env (Call.symbol_is_valued a) g)).contents
  unfolding perform marpa_g_symbol_is_valued
  symbol_is_valued_cases a = ground arith

  pub symbol_is_valued_set_cases :
      (a b : ℤ) → P (final (perform env (Call.symbol_is_valued_set a b) g)).contents
  unfolding perform marpa_g_symbol_is_valued_set
  symbol_is_valued_set_cases a b = ground (
    arith,
    λ (e : conflict (get_or g.xsys (pos_part a) blank_xsy) b ≡ false). k _ (
        Change.symbol (pos_part a) (λ x. record x { is_valued = to_boolean b })
          (λ x. (refl, refl, refl)) (conflict-IsSymbol (get_or g.xsys (pos_part a) blank_xsy) b e)
          refl),
  )

  pub symbol_is_start_cases : (a : ℤ) → P (final (perform env (Call.symbol_is_start a) g)).contents
  unfolding perform marpa_g_symbol_is_start
  symbol_is_start_cases a = ground arith

  pub symbol_rank_cases : (a : ℤ) → P (final (perform env (Call.symbol_rank a) g)).contents
  unfolding perform marpa_g_symbol_rank
  symbol_rank_cases a = ground arith

  pub symbol_rank_set_cases :
      (a b : ℤ) → P (final (perform env (Call.symbol_rank_set a b) g)).contents
  unfolding perform marpa_g_symbol_rank_set
  symbol_rank_set_cases a b = ground (
    arith,
    λ (r : InRange b). k _ (
        Change.symbol (pos_part a) (λ x. record x { rank = b }) (λ x. (refl, refl, refl))
          (λ o. (r, o.1)) refl),
  )

  pub symbol_is_accessible_cases :
      (a : ℤ) → P (final (perform env (Call.symbol_is_accessible a) g)).contents
  unfolding perform marpa_g_symbol_is_accessible
  symbol_is_accessible_cases a = ground arith

  pub symbol_is_counted_cases :
      (a : ℤ) → P (final (perform env (Call.symbol_is_counted a) g)).contents
  unfolding perform marpa_g_symbol_is_counted
  symbol_is_counted_cases a = ground arith

  pub symbol_is_nulling_cases :
      (a : ℤ) → P (final (perform env (Call.symbol_is_nulling a) g)).contents
  unfolding perform marpa_g_symbol_is_nulling
  symbol_is_nulling_cases a = ground arith

  pub symbol_is_nullable_cases :
      (a : ℤ) → P (final (perform env (Call.symbol_is_nullable a) g)).contents
  unfolding perform marpa_g_symbol_is_nullable
  symbol_is_nullable_cases a = ground arith

  pub symbol_is_terminal_cases :
      (a : ℤ) → P (final (perform env (Call.symbol_is_terminal a) g)).contents
  unfolding perform marpa_g_symbol_is_terminal
  symbol_is_terminal_cases a = ground arith

  pub symbol_is_terminal_set_cases :
      (a b : ℤ) → P (final (perform env (Call.symbol_is_terminal_set a b) g)).contents
  unfolding perform marpa_g_symbol_is_terminal_set
  symbol_is_terminal_set_cases a b = ground (
    arith,
    k _ (
        Change.symbol (pos_part a)
          (λ x. record x { is_locked_terminal = true; is_terminal = to_boolean b })
          (λ x. (refl, refl, refl)) (λ o. o) refl),
  )

  pub symbol_is_productive_cases :
      (a : ℤ) → P (final (perform env (Call.symbol_is_productive a) g)).contents
  unfolding perform marpa_g_symbol_is_productive
  symbol_is_productive_cases a = ground arith

  pub symbol_is_completion_event_cases :
      (a : ℤ) → P (final (perform env (Call.symbol_is_completion_event a) g)).contents
  unfolding perform marpa_g_symbol_is_completion_event
  symbol_is_completion_event_cases a = ground arith

  pub symbol_is_completion_event_set_cases :
      (a b : ℤ) → P (final (perform env (Call.symbol_is_completion_event_set a b) g)).contents
  unfolding perform marpa_g_symbol_is_completion_event_set
  symbol_is_completion_event_set_cases a b = ground (
    arith,
    k _ (
        Change.symbol (pos_part a)
          (λ x. record x {
            is_completion_event = to_boolean b;
            completion_event_starts_active = to_boolean b;
          })
          (λ x. (refl, refl, refl)) (λ o. o) refl),
  )

  pub completion_symbol_activate_cases :
      (a b : ℤ) → P (final (perform env (Call.completion_symbol_activate a b) g)).contents
  unfolding perform marpa_g_completion_symbol_activate
  completion_symbol_activate_cases a b = ground (
    arith,
    k _ (
        Change.symbol (pos_part a) (λ x. record x { completion_event_starts_active = to_boolean b })
          (λ x. (refl, refl, refl)) (λ o. o) refl),
  )

  pub symbol_is_nulled_event_cases :
      (a : ℤ) → P (final (perform env (Call.symbol_is_nulled_event a) g)).contents
  unfolding perform marpa_g_symbol_is_nulled_event
  symbol_is_nulled_event_cases a = ground arith

  pub symbol_is_nulled_event_set_cases :
      (a b : ℤ) → P (final (perform env (Call.symbol_is_nulled_event_set a b) g)).contents
  unfolding perform marpa_g_symbol_is_nulled_event_set
  symbol_is_nulled_event_set_cases a b = ground (
    arith,
    k _ (
        Change.symbol (pos_part a)
          (λ x. record x {
            is_nulled_event = to_boolean b;
            nulled_event_starts_active = to_boolean b;
          })
          (λ x. (refl, refl, refl)) (λ o. o) refl),
  )

  pub nulled_symbol_activate_cases :
      (a b : ℤ) → P (final (perform env (Call.nulled_symbol_activate a b) g)).contents
  unfolding perform marpa_g_nulled_symbol_activate
  nulled_symbol_activate_cases a b = ground (
    arith,
    k _ (
        Change.symbol (pos_part a) (λ x. record x { nulled_event_starts_active = to_boolean b })
          (λ x. (refl, refl, refl)) (λ o. o) refl),
  )

  pub symbol_is_prediction_event_cases :
      (a : ℤ) → P (final (perform env (Call.symbol_is_prediction_event a) g)).contents
  unfolding perform marpa_g_symbol_is_prediction_event
  symbol_is_prediction_event_cases a = ground arith

  pub symbol_is_prediction_event_set_cases :
      (a b : ℤ) → P (final (perform env (Call.symbol_is_prediction_event_set a b) g)).contents
  unfolding perform marpa_g_symbol_is_prediction_event_set
  symbol_is_prediction_event_set_cases a b = ground (
    arith,
    k _ (
        Change.symbol (pos_part a)
          (λ x. record x {
            is_prediction_event = to_boolean b;
            prediction_event_starts_active = to_boolean b;
          })
          (λ x. (refl, refl, refl)) (λ o. o) refl),
  )

  pub prediction_symbol_activate_cases :
      (a b : ℤ) → P (final (perform env (Call.prediction_symbol_activate a b) g)).contents
  unfolding perform marpa_g_prediction_symbol_activate
  prediction_symbol_activate_cases a b = ground (
    arith,
    k _ (
        Change.symbol (pos_part a) (λ x. record x { prediction_event_starts_active = to_boolean b })
          (λ x. (refl, refl, refl)) (λ o. o) refl),
  )
