-- ===== src/Grammar/Change.antt =====
-- What a call may do to the contents of a grammar, as a relation: every call leaves them alone or
-- makes one of these changes.
pub mod Symbols
pub mod Settings
pub mod Rules
pub mod Perform
use marpa_r.Prelude.{
  ℕ, suc, ◌+◌, ◌<◌, max, ◌≡◌, refl, Bool, true, false, ◌⊎◌, inl, inr, All, Option-cases, List, [],
  ◌∷◌, ◌++◌, map, Option, none, some, length, get_or, modify, ℤ, pos, pos_part, negsuc, is_negative,
  ◌≤ℤ◌, eqb_ℤ, not, ◌&&◌, of_bool, arith,
}
use marpa_r.Grammar.{
  Grammar, Contents, Env, Xsy, Xrl, final, minimum_rank, maximum_rank, minus_one, blank_xsy,
  blank_xrl, xsy_id_is_valid, ◌>>=◌, ◌>>◌, value, failure, M,
}
use marpa_r.Grammar.Call.{Call, perform}
use marpa_r.Grammar.Call
use marpa_r.Grammar.Settings.{
  marpa_g_highest_symbol_id, marpa_g_highest_rule_id, marpa_g_start_symbol,
  marpa_g_start_symbol_set, marpa_g_default_rank, marpa_g_default_rank_set, marpa_g_is_precomputed,
  marpa_g_has_cycle, marpa_g_event_count,
}
use marpa_r.Grammar.Symbols.{
  marpa_g_symbol_new, marpa_g_force_valued, marpa_g_symbol_is_valued, marpa_g_symbol_is_valued_set,
  marpa_g_symbol_is_start, marpa_g_symbol_rank, marpa_g_symbol_rank_set,
  marpa_g_symbol_is_accessible, marpa_g_symbol_is_counted, marpa_g_symbol_is_nulling,
  marpa_g_symbol_is_nullable, marpa_g_symbol_is_terminal, marpa_g_symbol_is_terminal_set,
  marpa_g_symbol_is_productive,
}
use marpa_r.Grammar.Events.{
  marpa_g_symbol_is_completion_event, marpa_g_symbol_is_completion_event_set,
  marpa_g_completion_symbol_activate, marpa_g_symbol_is_nulled_event,
  marpa_g_symbol_is_nulled_event_set, marpa_g_nulled_symbol_activate,
  marpa_g_symbol_is_prediction_event, marpa_g_symbol_is_prediction_event_set,
  marpa_g_prediction_symbol_activate,
}
use marpa_r.Grammar.Rules.{marpa_g_rule_new, marpa_g_sequence_new}
use marpa_r.Grammar.RuleAccess.{
  marpa_g_rule_lhs, marpa_g_rule_rhs, marpa_g_rule_length, marpa_g_rule_rank, marpa_g_rule_rank_set,
  marpa_g_rule_null_high, marpa_g_rule_null_high_set, marpa_g_sequence_min,
  marpa_g_sequence_separator, marpa_g_rule_is_keep_separation, marpa_g_rule_is_proper_separation,
  marpa_g_rule_is_loop, marpa_g_rule_is_nulling, marpa_g_rule_is_nullable,
  marpa_g_rule_is_accessible, marpa_g_rule_is_productive, marpa_g_rule_is_used,
}
use marpa_r.Grammar.Symbols.{to_boolean, fresh_xsy, symbol_add, force_valued_loop}
use marpa_r.Grammar.Rules.{rule_add, all_valid, as_sequence, check_rule, check_sequence}

abbrev pub InRange : ℤ → Type 0
InRange rank = (minimum_rank ≤ℤ rank) × (rank ≤ℤ maximum_rank)

-- The rank of a symbol is in range, and a symbol whose valued status is locked is valued.
abbrev pub IsSymbol : Xsy → Type 0
IsSymbol x = InRange x.rank × ((x.is_valued_locked ≡ false) ⊎ (x.is_valued ≡ true))

-- A write to a symbol that is not about its rules.
abbrev pub KeepsRoles : (Xsy → Xsy) → Type 0
KeepsRoles f =
    (x : Xsy)
    → ((f x).symbol_id ≡ x.symbol_id)
      × ((f x).is_lhs ≡ x.is_lhs)
      × ((f x).is_sequence_lhs ≡ x.is_sequence_lhs)

-- A write to a rule that leaves what it says alone.
abbrev pub KeepsRule : (Xrl → Xrl) → Type 0
KeepsRule f =
    (r : Xrl)
    → ((f r).id ≡ r.id)
      × ((f r).lhs ≡ r.lhs)
      × ((f r).rhs ≡ r.rhs)
      × ((f r).is_bnf ≡ r.is_bnf)
      × ((f r).is_sequence ≡ r.is_sequence)
      × ((f r).separator ≡ r.separator)
      × (InRange r.rank → InRange (f r).rank)

-- -1, or the identifier of one of `n` symbols.
abbrev pub IsNoneOrBelow : ℕ → ℤ → Type 0
IsNoneOrBelow n (pos i) = i < n
IsNoneOrBelow n (negsuc i) = i ≡ 0

module _ {T : Type 0} where
  abbrev pub mark_lhs : Contents T → ℕ → Contents T
  mark_lhs c lhs = record c { xsys = modify c.xsys lhs (λ x. record x { is_lhs = true }) }

  -- A new rule at the end of the table, as `xrl_finish` leaves it.
  abbrev pub finished : Contents T → ℕ → List ℕ → Xrl
  finished c lhs rhs = record (blank_xrl lhs rhs) { id = length c.xrls; rank = c.default_rank }

  abbrev pub with_rule : Contents T → ℕ → List ℕ → T → Contents T
  unfolding rule_add
  with_rule c lhs rhs t =
      let c1 : Contents T = record (mark_lhs c lhs) { xrl_tree = t } in
      let c2 = rule_add c1 (record (blank_xrl lhs rhs) { rank = c.default_rank }) in
      record c2 { xrls = modify c2.xrls (length c.xrls) (λ r. record r { is_bnf = true }) }

  abbrev pub count_xsy : Contents T → ℕ → Contents T
  count_xsy c i = record c { xsys = modify c.xsys i (λ x. record x { is_counted = true }) }

  abbrev pub counted_separator : Contents T → ℤ → Contents T
  counted_separator c (pos n) = count_xsy c n
  counted_separator c (negsuc n) = c

  abbrev pub with_sequence : Contents T → ℕ → ℕ → ℤ → ℤ → ℕ → Contents T
  unfolding rule_add
  with_sequence c lhs rhs separator min flags =
      let c1 =
        rule_add (mark_lhs c lhs) (record (blank_xrl lhs (rhs ∷ [])) { rank = c.default_rank }) in
      let c2 : Contents T = record c1 {
        xrls = modify c1.xrls (length c.xrls) (as_sequence separator min flags);
      } in
      let c3 : Contents T = record c2 {
        xsys = modify c2.xsys lhs (λ x. record x { is_sequence_lhs = true });
      } in
      counted_separator (count_xsy c3 rhs) separator

  pub data Change (env : Env T) (c c' : Contents T) : Type 0 where
    start : (n : ℕ) → n < length c.xsys → c' ≡ record c { start_xsy_id = pos n } → Change env c c'
    default_rank : (r : ℤ) → InRange r → c' ≡ record c { default_rank = r } → Change env c c'
    symbol :
        (i : ℕ) (f : Xsy → Xsy)
        → KeepsRoles f
        → (IsSymbol (get_or c.xsys i blank_xsy) → IsSymbol (f (get_or c.xsys i blank_xsy)))
        → c' ≡ record c { xsys = modify c.xsys i f }
        → Change env c c'
    rule :
        (i : ℕ) (f : Xrl → Xrl)
        → KeepsRule f
        → c' ≡ record c { xrls = modify c.xrls i f }
        → Change env c c'
    fresh : c' ≡ symbol_add c (fresh_xsy c) → Change env c c'
    forced_in_part : c' ≡ record c { xsys = (force_valued_loop c.xsys).0 } → Change env c c'
    forced :
        c' ≡ record c { xsys = (force_valued_loop c.xsys).0; force_valued = true } → Change env c c'
    duplicate :
        (lhs : ℕ) (rhs : List ℕ)
        → env.avl_insert c.xrl_tree (blank_xrl lhs rhs) ≡ none
        → c' ≡ mark_lhs c lhs
        → Change env c c'
    rule_new :
        (lhs : ℕ) (rhs : List ℕ) (t : T)
        → lhs < length c.xsys
        → All (λ i. i < length c.xsys) rhs
        → (get_or c.xsys lhs blank_xsy).is_sequence_lhs ≡ false
        → env.avl_insert c.xrl_tree (blank_xrl lhs rhs) ≡ some t
        → c' ≡ with_rule c lhs rhs t
        → Change env c c'
    sequence_new :
        (lhs rhs : ℕ) (separator min : ℤ) (flags : ℕ)
        → lhs < length c.xsys
        → rhs < length c.xsys
        → IsNoneOrBelow (length c.xsys) separator
        → (get_or c.xsys lhs blank_xsy).is_lhs ≡ false
        → c' ≡ with_sequence c lhs rhs separator min flags
        → Change env c c'
