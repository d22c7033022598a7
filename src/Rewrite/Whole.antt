-- ===== src/Rewrite/Whole.antt =====
-- The whole rewrite, from the loop over the symbols to the rule for the start symbol.
use marpa_r.Prelude.{
  ℕ, ◌+◌, ◌≤◌, ◌<◌, ◌≡◌, refl, ap, ◌∙◌, sym, subst, ◌↔◌, inl, inr, Bool, true, false, List, [], ◌∷◌,
  ◌++◌, none, some, length, get_or, get_elem?, ℤ, arith, Bool-cases, ltb, not, pos, negsuc,
  if◌then◌else◌,
}
use mathlib.Core.List.{Memᴰ}
use mathlib.Core.List.Memᴰ
use marpa_r.Grammar.{Xsy, Xrl, blank_xsy}
use marpa_r.Rewrite.{Irl, Rewriting, Names, names_of, pointed, clone_symbols}
use marpa_r.Rewrite.Rules.{rewrite_rules, rewrite, separator_names, sequence_irls}
use marpa_r.Rewrite.Sequences.{Repeats, IsSequence, sequence_irls_lem}
use marpa_r.Rewrite.Variants.{nulling}
use marpa_r.Rewrite.Expansion.{Expands}
use marpa_r.Rewrite.Added.{Adds}
use marpa_r.Rewrite.Added.Rule.{rule_irls}
use marpa_r.Rewrite.Start.{Adds-start}
use marpa_r.Rewrite.Language.{
  Written, AllOf, rule_lem, rules_added, Before, rules_of_rule, names_path,
}
use marpa_r.Rewrite.Clones.{Slot, Cloned, get_elem?-length}
use marpa_r.Rewrite.Clones.Loop.{fresh, Cloned-clone_symbols, Cloned-fresh}

AllOf-more :
    (irls irls' more : List Irl) (id : ℕ) (is : List Irl)
    → irls' ≡ irls ++ more
    → ((irl : Irl) → Memᴰ irl more → irl.source_xrl ≡ none)
    → AllOf irls id is
    → AllOf irls' id is
AllOf-more irls irls' more id is e h a = record {
  inside = λ irl m. subst (Memᴰ irl) (sym e) (Memᴰ.append_left more (a.inside irl m));
  owned = λ irl m p. elim (Memᴰ.append_cases irls (subst (Memᴰ irl) e m)) [
    | inl t ↦ a.owned irl t p
    | inr t ↦ let q : none ≡ some id = sym (h irl t) ∙ p in absurd (ground (arith, q))
  ];
}

one_separator :
    (names : Names) (z : ℤ) (s : ℕ) (seps : List ℕ) → separator_names names z ≡ s ∷ seps → seps ≡ []
one_separator names (pos i) s seps e = ground (arith, e)
one_separator names (negsuc i) s seps e = absurd (ground (arith, e))

sequence_case :
    (u q : Bool) (is is' : List Irl)
    → u ≡ true
    → q ≡ true
    → (if not u then [] else if q then is else is') ≡ is
sequence_case true true is is' e e' = refl
sequence_case true false is is' e e' = absurd (ground (arith, e'))
sequence_case false q is is' e e' = absurd (ground (arith, e))

module _ (xsys : List Xsy) (xrls : List Xrl) (start : ℕ) (default_rank : ℤ) where
  abbrev cloned : Rewriting
  cloned = clone_symbols xsys (length xsys) 0 (fresh (length xsys))

  Cloned-cloned : Cloned xsys (length xsys) cloned
  Cloned-cloned =
      Cloned-clone_symbols xsys (length xsys) 0 (fresh (length xsys)) (omega arith)
        (Cloned-fresh xsys)

  agree_of :
      (x : ℕ)
      → nulling xsys x ≡ true
      → (names_of cloned).nulling_nsyid x ≡ (names_of cloned).nsyid x
  agree_of x n = ap pointed (elim (Bool-cases (ltb x (length xsys))) [
    | inl l ↦ (Cloned-cloned.slot x (ground (arith, l))).agree n
    | inr l ↦ let (p, q) = Cloned-cloned.none_yet x (ground (arith, l)) in q ∙ sym p
  ])

  abbrev before_start : Rewriting
  before_start = rewrite_rules xsys 0 xrls cloned

  -- The state at the end, of which only the rule for the start symbol is not from a rule.
  ended :
      (is : List Irl) × Adds before_start (rewrite xsys xrls start default_rank) is
      × ((irl : Irl) → Memᴰ irl is → irl.source_xrl ≡ none)
  unfolding rewrite
  ended = Adds-start xsys start default_rank before_start

  names_kept : names_of (rewrite xsys xrls start default_rank) ≡ names_of cloned
  names_kept =
      let (is, a, _) = ended in
      let (js, b, _) = rules_added xsys xrls 0 cloned in
      names_path before_start _ is a ∙ names_path cloned before_start js b

  -- The rules for the external rule `id` are those that its rewrite adds.
  pub rules_for :
      (id : ℕ) (rule : Xrl)
      → get_elem? xrls id ≡ some rule
      → (k : ℕ) × (length cloned.nsys ≤ k)
        × AllOf
            (rewrite xsys xrls start default_rank).irls
            id
            (rule_irls xsys (names_of cloned) id rule k)
  unfolding Before
  rules_for id rule e =
      let (is, a, h) = ended in
      let none_before : (irl : Irl)
          → Memᴰ irl cloned.irls
          → (n : ℕ) → irl.source_xrl ≡ some n
          → n < 0 =
        λ irl m n _. absurd (Memᴰ.not-nil (subst (Memᴰ irl) Cloned-cloned.no_rules m)) in
      let (k, l, all) = rules_of_rule xsys xrls 0 id rule cloned e none_before in
      let zero_id : 0 + id ≡ id = omega arith in
      (
        k,
        l,
        AllOf-more before_start.irls _ is id _ a.irls_grow h (
            subst (λ z. AllOf before_start.irls z (rule_irls xsys (names_of cloned) z rule k))
              zero_id all),
      )

  old_symbol :
      (x : ℕ)
      → x < length xsys
      → (get_or xsys x blank_xsy).is_accessible ≡ true
      → (get_or xsys x blank_xsy).is_productive ≡ true
      → (names_of cloned).nsyid x < length cloned.nsys
  old_symbol x l a p =
      let (n, e, t) = (Cloned-cloned.slot x l).symbol a p in
      rw e (get_elem?-length cloned.nsys n t.nsy t.place)

  -- For a used rule that is not a sequence rule, whose left side is an accessible and productive
  -- symbol, take the internal rules of the whole rewrite that name the rule as their source, and
  -- expand the virtual symbol at the end of a right side by the rules for it. From the internal
  -- symbol of the left side this gives, if the right side has no properly nullable symbol,
  -- exactly its internal symbols; otherwise exactly the variants of the right side in which each
  -- properly nullable symbol stands as itself or as its nulling alias, except where all symbols
  -- are nulling.
  pub rewrite_lem :
      (id : ℕ) (rule : Xrl) (w : List ℕ)
      → get_elem? xrls id ≡ some rule
      → rule.is_used ≡ true
      → rule.is_sequence ≡ false
      → rule.lhs < length xsys
      → (get_or xsys rule.lhs blank_xsy).is_accessible ≡ true
      → (get_or xsys rule.lhs blank_xsy).is_productive ≡ true
      → Expands
          (rewrite xsys xrls start default_rank).irls
          id
          ((names_of (rewrite xsys xrls start default_rank)).nsyid rule.lhs)
          w
        ↔ Written xsys (names_of (rewrite xsys xrls start default_rank)) rule.rhs w
  rewrite_lem id rule w e u q l a p =
      let (k, lk, all) = rules_for id rule e in
      let old : (names_of cloned).nsyid rule.lhs < k =
        omega (arith, old_symbol rule.lhs l a p, lk) in
      subst
        (λ n.
          Expands (rewrite xsys xrls start default_rank).irls id (n.nsyid rule.lhs) w
          ↔ Written xsys n rule.rhs w)
        (sym names_kept)
        (rule_lem xsys (names_of cloned) (rewrite xsys xrls start default_rank).irls id rule k
          agree_of old w u q all)

  -- For a used sequence rule, whose left side is an accessible and productive symbol, the
  -- internal rules of the whole rewrite that name the rule as their source generate, from the
  -- internal symbol of the left side, exactly the lists of items with the separator between
  -- them; without proper separation a separator may follow the last item. This is so for every
  -- minimum of the rule: also where it is 2 or more, one item alone is generated, against the
  -- documentation of marpa_g_sequence_new in Thin.pod.
  pub rewrite-Repeats :
      (id : ℕ) (rule : Xrl) (w : List ℕ)
      → get_elem? xrls id ≡ some rule
      → rule.is_used ≡ true
      → rule.is_sequence ≡ true
      → rule.lhs < length xsys
      → (get_or xsys rule.lhs blank_xsy).is_accessible ≡ true
      → (get_or xsys rule.lhs blank_xsy).is_productive ≡ true
      → Repeats
          (rewrite xsys xrls start default_rank).irls
          id
          ((names_of (rewrite xsys xrls start default_rank)).nsyid rule.lhs)
          w
        ↔ IsSequence rule.is_proper_separation
            ((names_of (rewrite xsys xrls start default_rank)).nsyid (get_or rule.rhs 0 0))
            (separator_names (names_of (rewrite xsys xrls start default_rank)) rule.separator)
            w
  rewrite-Repeats id rule w e u q l a p =
      let (k, lk, all) = rules_for id rule e in
      let old = old_symbol rule.lhs l a p in
      let names = names_of cloned in
      let mine : List Irl =
        sequence_irls id rule (names.nsyid rule.lhs) k (names.nsyid (get_or rule.rhs 0 0))
          (separator_names names rule.separator) in
      subst
        (λ n.
          Repeats (rewrite xsys xrls start default_rank).irls id (n.nsyid rule.lhs) w
          ↔ IsSequence rule.is_proper_separation (n.nsyid (get_or rule.rhs 0 0))
              (separator_names n rule.separator) w)
        (sym names_kept)
        (sequence_irls_lem (rewrite xsys xrls start default_rank).irls id rule
          (names.nsyid rule.lhs) k (names.nsyid (get_or rule.rhs 0 0))
          (separator_names names rule.separator) (one_separator names rule.separator)
          (λ h. absurd (omega (arith, h, old, lk)))
          (subst (AllOf (rewrite xsys xrls start default_rank).irls id)
            (sequence_case rule.is_used rule.is_sequence mine _ u q) all)
          w)

-- After the loop that clones the symbols, an accessible and productive symbol points to a
-- semantic internal symbol that names it as its source and is nulling if it is; if it is
-- nullable, its nulling pointer leads to such a symbol that is nulling. The two pointers of a
-- nulling symbol agree.
pub clone_symbols-Slot :
    (xsys : List Xsy) (x : ℕ)
    → x < length xsys
    → Slot xsys (clone_symbols xsys (length xsys) 0 (fresh (length xsys))) x
clone_symbols-Slot xsys x l =
    let c =
      Cloned-clone_symbols xsys (length xsys) 0 (fresh (length xsys)) (omega arith)
        (Cloned-fresh xsys) in
    c.slot x l
