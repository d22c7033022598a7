-- ===== src/Rewrite/Added/Rule.antt =====
-- What is added for one external rule.
use marpa_r.Prelude.{
  ℕ, ◌-◌, refl, sym, Bool, true, false, not, List, [], ◌∷◌, map, some, length, length-modify,
  get_or, arith, if◌then◌else◌,
}
use mathlib.Core.List.{append-nil}
use marpa_r.Grammar.{Xsy, Xrl}
use marpa_r.Rewrite.{Nsy, Irl, Rewriting, Names, names_of, nsy_new, last_nsy, add_irl}
use marpa_r.Rewrite.Chaf.{Chaf, scan_factors, chaf_pieces}
use marpa_r.Rewrite.Rules.{
  plain_irl, separator_names, sequence_irls, rewrite_sequence, rewrite_rule,
}
use marpa_r.Rewrite.Pieces.{chaf_irls}
use marpa_r.Rewrite.Added.{
  Adds, Adds-none, Adds-trans, Adds-add_irl, Adds-add_irls, nsy_new-length, Adds-chaf_pieces,
}

-- What is added for a rule when there are `k` internal symbols.
abbrev pub chaf_of : List Xsy → Names → ℕ → Xrl → Chaf
chaf_of xsys names rule_id rule = record {
  names = names;
  rule_id = rule_id;
  rule = rule;
  nullable_suffix_ix = (scan_factors xsys 0 rule.rhs 0).1;
}

abbrev pub bnf_irls : List Xsy → Names → ℕ → Xrl → ℕ → List ℕ → List Irl
bnf_irls xsys names rule_id rule k [] =
    plain_irl rule_id rule (names.nsyid rule.lhs) (map names.nsyid rule.rhs) ∷ []
bnf_irls xsys names rule_id rule k (f ∷ fs) =
    chaf_irls (chaf_of xsys names rule_id rule) (f ∷ fs) 0 (names.nsyid rule.lhs) k

abbrev pub rule_irls : List Xsy → Names → ℕ → Xrl → ℕ → List Irl
rule_irls xsys names rule_id rule k =
    if not rule.is_used
    then []
    else if rule.is_sequence
    then sequence_irls rule_id rule (names.nsyid rule.lhs) k (names.nsyid (get_or rule.rhs 0 0))
        (separator_names names rule.separator)
    else bnf_irls xsys names rule_id rule k (scan_factors xsys 0 rule.rhs 0).0

Adds-bnf :
    (xsys : List Xsy) (rule_id : ℕ) (rule : Xrl) (s : Rewriting) (fs : List ℕ)
    → Adds s
        (elim fs as (λ _. Rewriting) [
          | [] ↦
              add_irl
                (plain_irl rule_id rule
                  ((names_of s).nsyid rule.lhs)
                  (map (names_of s).nsyid rule.rhs))
                s
          | f ∷ fs ↦
              chaf_pieces
                (chaf_of xsys (names_of s) rule_id rule)
                xsys
                (f ∷ fs)
                0
                ((names_of s).nsyid rule.lhs)
                s
        ])
        (bnf_irls xsys (names_of s) rule_id rule (length s.nsys) fs)
Adds-bnf xsys rule_id rule s [] = Adds-add_irl _ s
Adds-bnf xsys rule_id rule s (f ∷ fs) = Adds-chaf_pieces _ xsys (f ∷ fs) 0 _ s

Adds-sequence :
    (xsys : List Xsy) (rule_id : ℕ) (rule : Xrl) (s : Rewriting)
    → Adds s (rewrite_sequence xsys rule_id rule s) (
        sequence_irls rule_id rule
          ((names_of s).nsyid rule.lhs)
          (length s.nsys)
          ((names_of s).nsyid (get_or rule.rhs 0 0))
          (separator_names (names_of s) rule.separator))
unfolding rewrite_sequence nsy_new last_nsy
Adds-sequence xsys rule_id rule s =
    let f = λ (n : Nsy). record n { lhs_xrl = some rule_id } in
    let s0 = nsy_new xsys rule.lhs s in
    let s1 = last_nsy f s0 in
    let l = nsy_new-length xsys rule.lhs s in
    let l' = length-modify s0.nsys (length s0.nsys - 1) f in
    let h : Adds s s1 [] = record {
      irls_grow = sym (append-nil s.irls);
      nsys_grow = omega (arith, l, l');
      same_nsys = refl;
      same_nulling = refl;
    } in
    Adds-trans s s1 _ [] _ h (Adds-add_irls _ s1)

pub Adds-rewrite_rule :
    (xsys : List Xsy) (rule_id : ℕ) (rule : Xrl) (s : Rewriting)
    → Adds s
        (rewrite_rule xsys rule_id rule s)
        (rule_irls xsys (names_of s) rule_id rule (length s.nsys))
unfolding rewrite_rule
Adds-rewrite_rule xsys rule_id rule s = cases rule.is_used rule.is_sequence
  where
    cases :
        (u q : Bool)
        → Adds s
            (if not u
              then s
              else if q
              then rewrite_sequence xsys rule_id rule s
              else elim (scan_factors xsys 0 rule.rhs 0).0 as (λ _. Rewriting) [
                | [] ↦
                    add_irl
                      (plain_irl rule_id rule
                        ((names_of s).nsyid rule.lhs)
                        (map (names_of s).nsyid rule.rhs))
                      s
                | f ∷ fs ↦
                    chaf_pieces
                      (chaf_of xsys (names_of s) rule_id rule)
                      xsys
                      (f ∷ fs)
                      0
                      ((names_of s).nsyid rule.lhs)
                      s
              ])
            (if not u
              then []
              else if q
              then sequence_irls rule_id rule
                  ((names_of s).nsyid rule.lhs)
                  (length s.nsys)
                  ((names_of s).nsyid (get_or rule.rhs 0 0))
                  (separator_names (names_of s) rule.separator)
              else bnf_irls xsys
                  (names_of s)
                  rule_id
                  rule
                  (length s.nsys)
                  (scan_factors xsys 0 rule.rhs 0).0)
    cases false q = Adds-none s
    cases true true = Adds-sequence xsys rule_id rule s
    cases true false = Adds-bnf xsys rule_id rule s (scan_factors xsys 0 rule.rhs 0).0
