-- ===== src/Grammar/Atomic.antt =====
-- What a failed call leaves behind, and what precomputation freezes.
use marpa_r.Prelude.{
  ℕ, zero, suc, ◌∙◌, ◌<◌, ◌≤◌, ◌≡◌, refl, sym, ap, Bool, true, false, inl, inr, List, [], ◌∷◌, map,
  All, none, length, get_or, modify, ℤ, pos, pos_part, arith, ==_iff, ◌==◌, if◌then◌else◌,
  Bool-cases, Option-cases,
}
use marpa_r.Grammar.{
  Grammar, Contents, Env, Outcome, Xsy, Xrl, blank_xsy, blank_xrl, value, failure, final, result,
  failure_indicator, max_rhs_length, xsy_id_is_valid,
}
use marpa_r.Grammar.Call.{Call, perform}
use marpa_r.Grammar.Settings.{
  marpa_g_highest_symbol_id, marpa_g_highest_rule_id, marpa_g_start_symbol,
  marpa_g_start_symbol_set, marpa_g_default_rank, marpa_g_default_rank_set, marpa_g_is_precomputed,
  marpa_g_has_cycle, marpa_g_event_count,
}
use marpa_r.Grammar.Symbols.{
  marpa_g_symbol_new, marpa_g_force_valued, marpa_g_symbol_is_valued, marpa_g_symbol_is_valued_set,
  marpa_g_symbol_is_start, marpa_g_symbol_rank, marpa_g_symbol_rank_set,
  marpa_g_symbol_is_accessible, marpa_g_symbol_is_counted, marpa_g_symbol_is_nulling,
  marpa_g_symbol_is_nullable, marpa_g_symbol_is_terminal, marpa_g_symbol_is_terminal_set,
  marpa_g_symbol_is_productive,
}
use marpa_r.Grammar.Events.{
  marpa_g_symbol_is_completion_event, marpa_g_symbol_is_completion_event_set,
  marpa_g_completion_symbol_activate, marpa_g_symbol_is_nulled_event,
  marpa_g_symbol_is_nulled_event_set, marpa_g_nulled_symbol_activate,
  marpa_g_symbol_is_prediction_event, marpa_g_symbol_is_prediction_event_set,
  marpa_g_prediction_symbol_activate,
}
use marpa_r.Grammar.Rules.{marpa_g_rule_new, marpa_g_sequence_new}
use marpa_r.Grammar.RuleAccess.{
  marpa_g_rule_lhs, marpa_g_rule_rhs, marpa_g_rule_length, marpa_g_rule_rank, marpa_g_rule_rank_set,
  marpa_g_rule_null_high, marpa_g_rule_null_high_set, marpa_g_sequence_min,
  marpa_g_sequence_separator, marpa_g_rule_is_keep_separation, marpa_g_rule_is_proper_separation,
  marpa_g_rule_is_loop, marpa_g_rule_is_nulling, marpa_g_rule_is_nullable,
  marpa_g_rule_is_accessible, marpa_g_rule_is_productive, marpa_g_rule_is_used,
}
use marpa_r.Grammar.Symbols.{force_valued_loop, symbol_add, to_boolean}
use marpa_r.Grammar.Rules.{all_valid}
use marpa_r.Grammar.Invariant.{AvlLaws, IsWf, IsRule, listed}
use marpa_r.Grammar.Tables.{get_or-map}
use marpa_r.Grammar.Preserve.{as_lhs, force_valued_loop-done}

-- If the outcome is a failure, the contents are `c`.
abbrev pub FailsAt : {T : Type 0} → Contents T → Outcome T ℤ → Type 0
FailsAt c (value r g) = Unit {0}
FailsAt c (failure r g) = g.contents ≡ c

set_flag_again :
    (xs : List Xsy) (i : ℕ) → (get_or xs i blank_xsy).is_lhs ≡ true → modify xs i as_lhs ≡ xs
set_flag_again [] i h = refl
set_flag_again (x ∷ xs) zero h = ap (λ y. y ∷ xs) (ground arith)
set_flag_again (x ∷ xs) (suc i) h = ap (λ ys. x ∷ ys) (set_flag_again xs i h)

-- A left side of a listed rule is flagged.
listed_flag :
    (n : ℕ) (bs ds : List Bool) (lhs : ℕ) (rhs : List ℕ) (rs : List Xrl)
    → All (IsRule n bs ds) rs
    → listed rs lhs rhs ≡ true
    → get_or bs lhs false ≡ true
listed_flag n bs ds lhs rhs [] a h = cc
listed_flag n bs ds lhs rhs (s ∷ rs) a h = elim (Bool-cases (s.lhs == lhs)) [
  | inl e ↦ rw (← (==_iff s.lhs lhs).0 e) (a.0.flagged)
  | inr e ↦ listed_flag n bs ds lhs rhs rs a.1 (ground arith)
]

map-pos : (is : List ℕ) → map pos_part (map pos is) ≡ is
map-pos [] = refl
map-pos (i ∷ is) = ap (λ js. i ∷ js) (map-pos is)

length-map_pos : (is : List ℕ) → length (map pos is) ≡ length is
length-map_pos [] = refl
length-map_pos (i ∷ is) = ap suc (length-map_pos is)

all_valid-pos :
    (xs : List Xsy) (is : List ℕ) → All (λ i. i < length xs) is → all_valid xs (map pos is) ≡ true
unfolding all_valid xsy_id_is_valid
all_valid-pos xs [] a = refl
all_valid-pos xs (i ∷ is) a = ground (arith, all_valid-pos xs is a.1)

module _ {T : Type 0} {env : Env T} (laws : AvlLaws env) where
  -- A refused duplicate has the left side of a rule, whose flag is set already.
  duplicate_flag :
      (c : Contents T) (lhs : ℕ) (rhs : List ℕ)
      → IsWf laws c
      → env.avl_insert c.xrl_tree (blank_xrl lhs rhs) ≡ none
      → modify c.xsys lhs as_lhs ≡ c.xsys
  duplicate_flag c lhs rhs w e = elim (Bool-cases (laws.has c.xrl_tree (blank_xrl lhs rhs))) [
    | inl present ↦ set_flag_again c.xsys lhs (
        sym (get_or-map (λ (x : Xsy). x.is_lhs) c.xsys lhs blank_xsy)
        ∙ listed_flag _ _ _ lhs rhs c.xrls w.rules (sym (w.tree (blank_xrl lhs rhs)) ∙ present))
    | inr absent ↦ let (t, e', _) = laws.insert_absent c.xrl_tree (blank_xrl lhs rhs) absent in cc
  ]

  rule_new-FailsAt :
      (a : ℤ) (b : List ℤ) (g : Grammar T)
      → IsWf laws g.contents
      → FailsAt g.contents (perform env (Call.rule_new a b) g)
  unfolding perform marpa_g_rule_new
  rule_new-FailsAt a b g w =
      let lhs = pos_part a in
      let rhs = map pos_part b in
      elim (Option-cases (env.avl_insert g.xrl_tree (blank_xrl lhs rhs))) [
        | inl e ↦ ground (arith, duplicate_flag g.contents lhs rhs w e)
        | inr (t, e) ↦ ground arith
      ]

  -- On a well-formed grammar a call of the type Call that fails leaves everything but the error
  -- code as it was, also where a duplicate rule is refused only after its left side was flagged.
  -- The calls are the public functions on symbols, rules, ranks, events and the start symbol;
  -- precomputation, zero-width assertions and reference counts are not among them.
  pub perform-FailsAt :
      (call : Call) (g : Grammar T) → IsWf laws g.contents → FailsAt g.contents (perform env call g)
  unfolding perform marpa_g_symbol_new marpa_g_force_valued marpa_g_symbol_is_valued
      marpa_g_symbol_is_valued_set marpa_g_symbol_is_start marpa_g_symbol_rank
      marpa_g_symbol_rank_set marpa_g_symbol_is_accessible marpa_g_symbol_is_counted
      marpa_g_symbol_is_nulling marpa_g_symbol_is_nullable marpa_g_symbol_is_terminal
      marpa_g_symbol_is_terminal_set marpa_g_symbol_is_productive marpa_g_symbol_is_completion_event
      marpa_g_symbol_is_completion_event_set marpa_g_completion_symbol_activate
      marpa_g_symbol_is_nulled_event marpa_g_symbol_is_nulled_event_set
      marpa_g_nulled_symbol_activate marpa_g_symbol_is_prediction_event
      marpa_g_symbol_is_prediction_event_set marpa_g_prediction_symbol_activate
      marpa_g_highest_symbol_id marpa_g_highest_rule_id marpa_g_start_symbol
      marpa_g_start_symbol_set marpa_g_default_rank marpa_g_default_rank_set marpa_g_is_precomputed
      marpa_g_has_cycle marpa_g_event_count marpa_g_rule_new marpa_g_sequence_new marpa_g_rule_lhs
      marpa_g_rule_rhs marpa_g_rule_length marpa_g_rule_rank marpa_g_rule_rank_set
      marpa_g_rule_null_high marpa_g_rule_null_high_set marpa_g_sequence_min
      marpa_g_sequence_separator marpa_g_rule_is_keep_separation marpa_g_rule_is_proper_separation
      marpa_g_rule_is_loop marpa_g_rule_is_nulling marpa_g_rule_is_nullable
      marpa_g_rule_is_accessible marpa_g_rule_is_productive marpa_g_rule_is_used
  perform-FailsAt (Call.rule_new a b) g w = rule_new-FailsAt a b g w
  perform-FailsAt Call.force_valued g w = ground (arith, force_valued_loop-done g.xsys w.symbols)
  perform-FailsAt _ g w = ground arith

-- The parts of a grammar that no call of the type `Call` changes once it is precomputed.
pub record Frozen {T : Type 0} (c d : Contents T) : Type 0 where
  pub xrls : d.xrls ≡ c.xrls
  pub xrl_tree : d.xrl_tree ≡ c.xrl_tree
  pub start_xsy_id : d.start_xsy_id ≡ c.start_xsy_id
  pub default_rank : d.default_rank ≡ c.default_rank
  pub size : d.external_size ≡ c.external_size
  pub is_precomputed : d.is_precomputed ≡ c.is_precomputed

module _ {T : Type 0} (P : Contents T → Type 0) (env : Env T) (g : Grammar T) (h : P g.contents)
    (k : (xs : List Xsy) (f : Bool) → P (record (g.contents) { xsys = xs; force_valued = f }))
    (p : g.is_precomputed ≡ true) where
  perform_frozen : (call : Call) → P (final (perform env call g)).contents
  unfolding perform symbol_add marpa_g_symbol_new marpa_g_force_valued marpa_g_symbol_is_valued
      marpa_g_symbol_is_valued_set marpa_g_symbol_is_start marpa_g_symbol_rank
      marpa_g_symbol_rank_set marpa_g_symbol_is_accessible marpa_g_symbol_is_counted
      marpa_g_symbol_is_nulling marpa_g_symbol_is_nullable marpa_g_symbol_is_terminal
      marpa_g_symbol_is_terminal_set marpa_g_symbol_is_productive marpa_g_symbol_is_completion_event
      marpa_g_symbol_is_completion_event_set marpa_g_completion_symbol_activate
      marpa_g_symbol_is_nulled_event marpa_g_symbol_is_nulled_event_set
      marpa_g_nulled_symbol_activate marpa_g_symbol_is_prediction_event
      marpa_g_symbol_is_prediction_event_set marpa_g_prediction_symbol_activate
      marpa_g_highest_symbol_id marpa_g_highest_rule_id marpa_g_start_symbol
      marpa_g_start_symbol_set marpa_g_default_rank marpa_g_default_rank_set marpa_g_is_precomputed
      marpa_g_has_cycle marpa_g_event_count marpa_g_rule_new marpa_g_sequence_new marpa_g_rule_lhs
      marpa_g_rule_rhs marpa_g_rule_length marpa_g_rule_rank marpa_g_rule_rank_set
      marpa_g_rule_null_high marpa_g_rule_null_high_set marpa_g_sequence_min
      marpa_g_sequence_separator marpa_g_rule_is_keep_separation marpa_g_rule_is_proper_separation
      marpa_g_rule_is_loop marpa_g_rule_is_nulling marpa_g_rule_is_nullable
      marpa_g_rule_is_accessible marpa_g_rule_is_productive marpa_g_rule_is_used
  perform_frozen Call.symbol_new = k _ g.force_valued
  perform_frozen Call.force_valued =
      ground
        (arith, k (force_valued_loop g.xsys).0 g.force_valued, k (force_valued_loop g.xsys).0 true)
  perform_frozen (Call.symbol_is_valued_set a b) = ground (
    arith,
    k (modify g.xsys (pos_part a) (λ x. record x { is_valued = to_boolean b })) g.force_valued,
  )
  perform_frozen _ = ground arith

-- One call on a precomputed grammar.
pub perform-Frozen :
    {T : Type 0} (env : Env T) (call : Call) (g : Grammar T)
    → g.is_precomputed ≡ true
    → Frozen g.contents (final (perform env call g)).contents
perform-Frozen env call g p =
    perform_frozen (Frozen g.contents) env g (keeps g.xsys g.force_valued) keeps p call
  where
    keeps :
        (xs : List Xsy) (f : Bool)
        → Frozen g.contents (record (g.contents) { xsys = xs; force_valued = f })
    keeps xs f = record {
      xrls = refl;
      xrl_tree = refl;
      start_xsy_id = refl;
      default_rank = refl;
      size = refl;
      is_precomputed = refl;
    }

-- A new BNF rule that passes the checks on its symbols is accepted, under the next identifier,
-- exactly if no BNF rule of the grammar has the same symbols.
pub rule_new_result :
    {T : Type 0} {env : Env T} (laws : AvlLaws env) (lhs : ℕ) (rhs : List ℕ) (g : Grammar T)
    → IsWf laws g.contents
    → env.header_version_mismatch ≡ false
    → g.is_ok ≡ true
    → g.is_precomputed ≡ false
    → lhs < length g.xsys
    → All (λ i. i < length g.xsys) rhs
    → (get_or g.xsys lhs blank_xsy).is_sequence_lhs ≡ false
    → length rhs ≤ max_rhs_length
    → result (marpa_g_rule_new env (pos lhs) (map pos rhs) g)
      ≡ (if listed g.xrls lhs rhs then failure_indicator else pos (length g.xrls))
unfolding marpa_g_rule_new
rule_new_result {env = env} laws lhs rhs g w m o n p a u l =
    let e1 = map-pos rhs in
    let e2 = length-map_pos rhs in
    let e3 = all_valid-pos g.xsys rhs a in
    elim (Bool-cases (laws.has g.xrl_tree (blank_xrl lhs rhs))) [
      | inl present ↦
          ground
            (arith, laws.insert_present g.xrl_tree (blank_xrl lhs rhs), w.tree (blank_xrl lhs rhs))
      | inr absent ↦
          let (t, e, _) = laws.insert_absent g.xrl_tree (blank_xrl lhs rhs) absent in
          ground (arith, w.tree (blank_xrl lhs rhs))
    ]
