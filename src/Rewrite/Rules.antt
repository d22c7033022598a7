-- ===== src/Rewrite/Rules.antt =====
-- The rewrite of the sequence rules, the loop over the rules, and the rule for the start symbol.
use marpa_r.Prelude.{
  ℕ, suc, ◌+◌, true, false, not, List, [], ◌∷◌, ◌++◌, map, none, some, length, get_or, replicate, ℤ,
  pos, negsuc, if◌then◌else◌,
}
use marpa_r.Grammar.{Xsy, Xrl, blank_xsy}
use marpa_r.Rewrite.{
  Irl, Rewriting, Names, names_of, irl_rank, scaled_rank, nsy_new, last_nsy, add_irl, clone_symbols,
}
use marpa_r.Rewrite.Chaf.{Chaf, scan_factors, chaf_pieces}

-- `irl_start` with the fields that all rewritten rules set.
unfoldable pub plain_irl : ℕ → Xrl → ℕ → List ℕ → Irl
unfolding irl_rank
plain_irl rule_id rule lhs rhs = record {
  lhs = lhs;
  rhs = rhs;
  source_xrl = some rule_id;
  rank = irl_rank rule;
  has_virtual_lhs = false;
  has_virtual_rhs = false;
  is_chaf = false;
  virtual_start = negsuc 0;
  virtual_end = negsuc 0;
  real_symbol_count = 0;
}

abbrev pub separator_names : Names → ℤ → List ℕ
separator_names names (pos i) = names.nsyid i ∷ []
separator_names names (negsuc i) = []

-- The four sections of a sequence rule, for the left side, the internal left side, the item and
-- the separator.
unfoldable pub sequence_irls : ℕ → Xrl → ℕ → ℕ → ℕ → List ℕ → List Irl
unfolding plain_irl
sequence_irls rule_id rule lhs internal item separator =
    record (plain_irl rule_id rule lhs (internal ∷ [])) { has_virtual_rhs = true }
    ∷ ((if not rule.is_proper_separation
          then elim separator as (λ _. List Irl) [
            | [] ↦ []
            | sep ∷ seps ↦
                record (plain_irl rule_id rule lhs (internal ∷ sep ∷ [])) {
                  has_virtual_rhs = true;
                  real_symbol_count = 1;
                }
                ∷ []
          ]
          else [])
        ++ record (plain_irl rule_id rule internal (item ∷ [])) {
          has_virtual_lhs = true;
          real_symbol_count = 1;
        }
          ∷ record (plain_irl rule_id rule internal (internal ∷ (separator ++ item ∷ []))) {
            has_virtual_lhs = true;
            has_virtual_rhs = true;
            real_symbol_count = length separator + 1;
          }
          ∷ [])

unfoldable pub add_irls : List Irl → Rewriting → Rewriting
unfolding add_irl
add_irls [] s = s
add_irls (irl ∷ irls) s = add_irls irls (add_irl irl s)

unfoldable pub rewrite_sequence : List Xsy → ℕ → Xrl → Rewriting → Rewriting
unfolding nsy_new last_nsy sequence_irls add_irls
rewrite_sequence xsys rule_id rule s =
    let names = names_of s in
    let internal = length s.nsys in
    add_irls
      (sequence_irls rule_id rule (names.nsyid rule.lhs) internal
        (names.nsyid (get_or rule.rhs 0 0)) (separator_names names rule.separator))
      (last_nsy (λ n. record n { lhs_xrl = some rule_id }) (nsy_new xsys rule.lhs s))

-- The body of the loop over the rules.
unfoldable pub rewrite_rule : List Xsy → ℕ → Xrl → Rewriting → Rewriting
unfolding rewrite_sequence scan_factors chaf_pieces plain_irl add_irl
rewrite_rule xsys rule_id rule s =
    if not rule.is_used
    then s
    else if rule.is_sequence
    then rewrite_sequence xsys rule_id rule s
    else let names = names_of s in
      let (factors, suffix) = scan_factors xsys 0 rule.rhs 0 in
      let c : Chaf = record {
        names = names;
        rule_id = rule_id;
        rule = rule;
        nullable_suffix_ix = suffix;
      } in
      elim factors as (λ _. Rewriting) [
        | [] ↦ add_irl (plain_irl rule_id rule (names.nsyid rule.lhs) (map names.nsyid rule.rhs)) s
        | f ∷ fs ↦ chaf_pieces c xsys (f ∷ fs) 0 (names.nsyid rule.lhs) s
      ]

unfoldable pub rewrite_rules : List Xsy → ℕ → List Xrl → Rewriting → Rewriting
unfolding rewrite_rule
rewrite_rules xsys rule_id [] s = s
rewrite_rules xsys rule_id (rule ∷ rules) s =
    rewrite_rules xsys (suc rule_id) rules (rewrite_rule xsys rule_id rule s)

-- Its rank is the one that `irl_start` sets, from the default rank.
unfoldable pub start_rule : ℕ → ℕ → ℤ → Irl
unfolding scaled_rank
start_rule new_start_nsyid rhs default_rank = record {
  lhs = new_start_nsyid;
  rhs = rhs ∷ [];
  source_xrl = none;
  rank = scaled_rank default_rank 3;
  has_virtual_lhs = true;
  has_virtual_rhs = false;
  is_chaf = false;
  virtual_start = negsuc 0;
  virtual_end = negsuc 0;
  real_symbol_count = 1;
}

-- The sections for the start symbol and its rule, where the start symbol is not nulling.
unfoldable pub add_start : List Xsy → ℕ → ℤ → Rewriting → Rewriting
unfolding nsy_new last_nsy add_irl start_rule
add_start xsys start_xsy_id default_rank s =
    let s1 = last_nsy (λ n. record n { is_start = true }) (nsy_new xsys start_xsy_id s) in
    let rule = start_rule (length s.nsys) ((names_of s).nsyid start_xsy_id) default_rank in
    record (add_irl rule s1) { start_irl = some (length s.irls) }

unfoldable pub rewrite_start : List Xsy → ℕ → ℤ → Rewriting → Rewriting
unfolding add_start
rewrite_start xsys start_xsy_id default_rank s =
    if (get_or xsys start_xsy_id blank_xsy).is_nulling
    then s
    else add_start xsys start_xsy_id default_rank s

-- From the empty stacks to the rule for the start symbol.
unfoldable pub rewrite : List Xsy → List Xrl → ℕ → ℤ → Rewriting
unfolding clone_symbols rewrite_rules rewrite_start
rewrite xsys xrls start_xsy_id default_rank =
    let n = length xsys in
    let fresh : Rewriting = record {
      nsys = [];
      irls = [];
      nsy_of_xsy = replicate n none;
      nulling_nsy_of_xsy = replicate n none;
      start_irl = none;
    } in
    rewrite_start xsys start_xsy_id default_rank
      (rewrite_rules xsys 0 xrls (clone_symbols xsys n 0 fresh))
