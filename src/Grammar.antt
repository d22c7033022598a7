-- ===== src/Grammar.antt =====
-- The grammar object of cpan/engine/read_only/marpa.c (`struct marpa_g`), its symbols (`struct
-- s_xsy`) and rules (`struct s_xrl`), and the guards that open each public function. The children
-- hold the public functions, the calls as one type, and the proofs about them.
--
-- A symbol or rule identifier that has passed its guard is a natural number here, and an argument
-- of a public function is an `int`, so ℤ. A pointer to a symbol or rule is its identifier.
pub mod Settings
pub mod Symbols
pub mod Events
pub mod Rules
pub mod RuleAccess
pub mod Call
pub mod Change
pub mod Invariant
pub mod Tables
pub mod Preserve
pub mod NewRule
pub mod Reach
pub mod Atomic
pub mod Settled
pub mod Tests
use marpa_r.Prelude.{
  ℕ, suc, ◌+◌, Bool, true, false, ◌&&◌, ◌||◌, not, List, [], ◌∷◌, ◌++◌, Option, none, some, length,
  get_or, modify, ℤ, pos, negsuc, pos_part, is_negative, ltb, ltb_ℤ, if◌then◌else◌,
}

-- The error codes of marpa.h that these functions set.
pub data ErrorCode : Type 0 where
  no_error headers_do_not_match i_am_not_ok precomputed not_precomputed : ErrorCode
  invalid_symbol_id no_such_symbol_id invalid_rule_id no_such_rule_id no_start_symbol : ErrorCode
  rank_too_low rank_too_high event_ix_negative event_ix_oob invalid_boolean : ErrorCode
  valued_is_locked terminal_is_locked not_completion_event not_nulled_event : ErrorCode
  not_prediction_event rhs_too_long sequence_lhs_not_unique duplicate_rule : ErrorCode
  bad_separator rhs_ix_negative rhs_ix_oob not_a_sequence : ErrorCode
  no_rules invalid_start_symbol start_not_lhs counted_nullable unproductive_start : ErrorCode
  nulling_terminal : ErrorCode

-- The fields that precomputation alone fills with pointers are left out.
pub record Xsy : Type 0 where
  pub symbol_id : ℕ
  pub rank : ℤ
  pub is_lhs : Bool
  pub is_sequence_lhs : Bool
  pub is_valued : Bool
  pub is_valued_locked : Bool
  pub is_accessible : Bool
  pub is_counted : Bool
  pub is_nulling : Bool
  pub is_nullable : Bool
  pub is_terminal : Bool
  pub is_locked_terminal : Bool
  pub is_productive : Bool
  pub is_completion_event : Bool
  pub completion_event_starts_active : Bool
  pub is_nulled_event : Bool
  pub nulled_event_starts_active : Bool
  pub is_prediction_event : Bool
  pub prediction_event_starts_active : Bool

-- `t_symbols` is the left side and then the right side; `t_rhs_length` is the length of `rhs`.
pub record Xrl : Type 0 where
  pub id : ℕ
  pub lhs : ℕ
  pub rhs : List ℕ
  pub rank : ℤ
  pub null_ranks_high : Bool
  pub is_bnf : Bool
  pub is_sequence : Bool
  pub minimum : ℤ
  pub separator : ℤ
  pub is_discard : Bool
  pub is_proper_separation : Bool
  pub is_loop : Bool
  pub is_nulling : Bool
  pub is_nullable : Bool
  pub is_accessible : Bool
  pub is_productive : Bool
  pub is_used : Bool

pub record Event : Type 0 where
  pub type : ℕ
  pub value : ℤ

-- All of the grammar but its error code. `T` is the type of the duplicate-rule tree.
pub record Contents (T : Type 0) : Type 0 where
  pub is_ok : Bool
  pub xsys : List Xsy
  pub xrls : List Xrl
  pub start_xsy_id : ℤ
  pub external_size : ℕ
  pub max_rule_length : ℕ
  pub default_rank : ℤ
  pub is_precomputed : Bool
  pub has_cycle : Bool
  pub events : List Event
  pub xrl_tree : T
  pub force_valued : Bool

pub record Grammar (T : Type 0) : Type 0 where
  pub contents : Contents T
  pub open contents use *
  pub error : ErrorCode

-- What the functions take from outside: whether the compiled-in version differs from the
-- header's, an empty tree of the AVL library under `duplicate_rule_cmp`, and its insertion, which
-- is `none` where an equal rule is already there.
pub record Env (T : Type 0) : Type 0 where
  pub header_version_mismatch : Bool
  pub avl_create : T
  pub avl_insert : T → Xrl → Option T

-- A function goes on with a value, or returns early with an error indicator.
pub data Outcome (T A : Type 0) : Type 0 where
  value : A → Grammar T → Outcome T A
  failure : ℤ → Grammar T → Outcome T A

abbrev pub M : Type 0 → Type 0 → Type 0
M T A = Grammar T → Outcome T A

infixl 5 ◌>>=◌ ◌>>◌
abbrev pub ◌>>=◌ : {T A B : Type 0} → M T A → (A → M T B) → M T B
◌>>=◌ m f g = elim (m g) [ value a g' ↦ f a g' | failure r g' ↦ failure r g' ]

abbrev pub ◌>>◌ : {T B : Type 0} → M T (Unit {0}) → M T B → M T B
m >> k = m >>= λ _. k

-- The grammar after a call, and the `int` that the caller sees.
abbrev pub final : {T : Type 0} → Outcome T ℤ → Grammar T
final (value r g) = g
final (failure r g) = g

abbrev pub result : {T : Type 0} → Outcome T ℤ → ℤ
result (value r g) = r
result (failure r g) = r

module _ {T : Type 0} where
  abbrev pub pure : {A : Type 0} → A → M T A
  pure a g = value a g

  -- `MARPA_ERROR(code); return r;`. The message is always NULL and the flags 0.
  abbrev pub fail : {A : Type 0} → ErrorCode → ℤ → M T A
  fail code r g = failure r (record g { error = code })

  abbrev pub fail_if : Bool → ErrorCode → ℤ → M T (Unit {0})
  fail_if true code r g = failure r (record g { error = code })
  fail_if false code r g = value tt g

  abbrev pub update : (Contents T → Contents T) → M T (Unit {0})
  update f g = value tt (record g { contents = f g.contents })

  abbrev pub reads : {A : Type 0} → (Contents T → A) → M T A
  reads f g = value (f g.contents) g

  abbrev pub update_xsy : ℕ → (Xsy → Xsy) → M T (Unit {0})
  update_xsy i f = update (λ c. record c { xsys = modify c.xsys i f })

  abbrev pub update_xrl : ℕ → (Xrl → Xrl) → M T (Unit {0})
  update_xrl i f = update (λ c. record c { xrls = modify c.xrls i f })

  pub clear_error : Grammar T → Grammar T
  clear_error g =
      if g.is_ok
      then record g { error = no_error }
      else elim g.error [ no_error ↦ record g { error = i_am_not_ok } | _ ↦ g ]

  abbrev pub clear : M T (Unit {0})
  unfolding clear_error
  clear g = value tt (clear_error g)

-- The failure indicator of all these functions.
abbrev pub failure_indicator : ℤ
failure_indicator = negsuc 1

abbrev pub minus_one : ℤ
minus_one = negsuc 0

-- `MINIMUM_RANK` and `MAXIMUM_RANK` at a 32-bit `int`.
abbrev pub minimum_rank : ℤ
minimum_rank = negsuc 536870911

abbrev pub maximum_rank : ℤ
maximum_rank = pos 536870911

-- `MAX_RHS_LENGTH`, which is INT_MAX >> 2.
abbrev pub max_rhs_length : ℕ
max_rhs_length = 536870911

unfoldable pub xsy_id_is_valid : List Xsy → ℤ → Bool
xsy_id_is_valid xsys id = not (is_negative id) && ltb (pos_part id) (length xsys)

-- Read past the end of a table: no function reaches it.
abbrev pub blank_xsy : Xsy
blank_xsy = record {
  symbol_id = 0;
  rank = pos 0;
  is_lhs = false;
  is_sequence_lhs = false;
  is_valued = false;
  is_valued_locked = false;
  is_accessible = false;
  is_counted = false;
  is_nulling = false;
  is_nullable = false;
  is_terminal = false;
  is_locked_terminal = false;
  is_productive = false;
  is_completion_event = false;
  completion_event_starts_active = false;
  is_nulled_event = false;
  nulled_event_starts_active = false;
  is_prediction_event = false;
  prediction_event_starts_active = false;
}

-- The fields of `xrl_finish`, and a rule read past the end of the table.
abbrev pub blank_xrl : ℕ → List ℕ → Xrl
blank_xrl lhs rhs = record {
  id = 0;
  lhs = lhs;
  rhs = rhs;
  rank = pos 0;
  null_ranks_high = false;
  is_bnf = false;
  is_sequence = false;
  minimum = minus_one;
  separator = minus_one;
  is_discard = false;
  is_proper_separation = false;
  is_loop = false;
  is_nulling = false;
  is_nullable = false;
  is_accessible = true;
  is_productive = true;
  is_used = false;
}

abbrev pub xsy_by_id : {T : Type 0} → ℤ → M T Xsy
xsy_by_id id = reads (λ c. get_or c.xsys (pos_part id) blank_xsy)

abbrev pub xrl_by_id : {T : Type 0} → ℤ → M T Xrl
xrl_by_id id = reads (λ c. get_or c.xrls (pos_part id) (blank_xrl 0 []))

-- The guards, which marpa.w shares under section names.
module _ {T : Type 0} where
  unfoldable pub fail_if_not_ok : M T (Unit {0})
  fail_if_not_ok g = fail_if (not g.is_ok) g.error failure_indicator g

  -- Fail if the compiled-in version differs or the grammar is not OK.
  unfoldable pub fail_if_fatal : Env T → M T (Unit {0})
  unfolding fail_if_not_ok
  fail_if_fatal env = do
    fail_if env.header_version_mismatch headers_do_not_match failure_indicator
    fail_if_not_ok

  unfoldable pub fail_if_precomputed : M T (Unit {0})
  fail_if_precomputed g = fail_if g.is_precomputed precomputed failure_indicator g

  pub fail_if_not_precomputed : M T (Unit {0})
  fail_if_not_precomputed g = fail_if (not g.is_precomputed) not_precomputed failure_indicator g

  pub fail_if_malformed_xsyid : ℤ → M T (Unit {0})
  fail_if_malformed_xsyid id = fail_if (is_negative id) invalid_symbol_id failure_indicator

  -- The soft form returns -1, the hard form the failure indicator.
  pub soft_fail_if_no_xsy : ℤ → M T (Unit {0})
  soft_fail_if_no_xsy id g =
      fail_if (not (ltb (pos_part id) (length g.xsys))) no_such_symbol_id minus_one g

  pub fail_if_no_xsy : ℤ → M T (Unit {0})
  fail_if_no_xsy id g =
      fail_if (not (ltb (pos_part id) (length g.xsys))) no_such_symbol_id failure_indicator g

  pub fail_if_malformed_xrlid : ℤ → M T (Unit {0})
  fail_if_malformed_xrlid id = fail_if (is_negative id) invalid_rule_id failure_indicator

  pub soft_fail_if_no_xrl : ℤ → M T (Unit {0})
  soft_fail_if_no_xrl id g =
      fail_if (not (ltb (pos_part id) (length g.xrls))) no_such_rule_id minus_one g

  pub fail_if_no_xrl : ℤ → M T (Unit {0})
  fail_if_no_xrl id g =
      fail_if (not (ltb (pos_part id) (length g.xrls))) no_such_rule_id failure_indicator g

  pub fail_if_rank_out_of_range : ℤ → M T (Unit {0})
  fail_if_rank_out_of_range rank = do
    fail_if (ltb_ℤ rank minimum_rank) rank_too_low failure_indicator
    fail_if (ltb_ℤ maximum_rank rank) rank_too_high failure_indicator

  pub fail_if_not_boolean : ℤ → M T (Unit {0})
  fail_if_not_boolean b =
      fail_if (is_negative b || ltb_ℤ (pos 1) b) invalid_boolean failure_indicator
