-- ===== src/Grammar/NewRule.antt =====
-- A new rule keeps the invariant.
use marpa_r.Prelude.{
  ℕ, ◌+◌, ◌<◌, max, ◌≡◌, ◌≢◌, refl, sym, ap, ◌∙◌, Bool, true, false, ◌⊎◌, inl, inr, List, [], ◌∷◌,
  ◌++◌, map, All, some, length, get_or, modify, length-modify, All-append, ℤ, pos, negsuc, arith,
  ◌==◌, if◌then◌else◌, Bool-cases, ==_iff, is_negative,
}
use mathlib.Core.List.{map-append}
use marpa_r.Grammar.{Contents, Env, Xsy, Xrl, blank_xrl, blank_xsy, minus_one}
use marpa_r.Grammar.Rules.{as_sequence, rule_add}
use marpa_r.Grammar.Change.{IsNoneOrBelow, with_rule, with_sequence, counted_separator, finished}
use marpa_r.Grammar.Invariant.{AvlLaws, IsWf, Compatible, IsRule, listed, same_ids}
use marpa_r.Grammar.Tables.{
  CountUp-append, modify-append_last, get_or-modify-true, map-modify-true, length-map, get_or-map,
  IsNoneOrBelow-mono, AllPairs-append, listed-append, total_size-append, longest-append,
  duplicate_rule_cmp-zero,
}
use marpa_r.Grammar.Preserve.{
  lhs_flags, sequence_flags, Rules, Extends, SymbolsOk, Rules-Extends, Extends-trans, Extends-lhs,
  Extends-sequence_lhs, Extends-roles, SymbolsOk-modify, as_lhs, as_sequence_lhs, as_counted,
}

module _ {T : Type 0} {env : Env T} (laws : AvlLaws env) (c : Contents T) (w : IsWf laws c) where
  pub add-IsWf :
      (xs : List Xsy) (r : Xrl) (t : T)
      → Extends c.xsys xs
      → SymbolsOk xs
      → IsRule (length xs) (lhs_flags xs) (sequence_flags xs) r
      → r.id ≡ length c.xrls
      → All (λ s. Compatible s r) c.xrls
      → ((q : Xrl) → laws.has t q ≡ listed (c.xrls ++ r ∷ []) q.lhs q.rhs)
      → IsWf laws (record c {
        xsys = xs;
        xrls = c.xrls ++ r ∷ [];
        external_size = c.external_size + (1 + length r.rhs);
        max_rule_length = max (length r.rhs) c.max_rule_length;
        xrl_tree = t;
      })
  add-IsWf xs r t e s v id d h = record {
    symbols = s.symbols;
    symbols_numbered = s.numbered;
    rules = All-append _ c.xrls (r ∷ []) (Rules-Extends c.xsys xs c.xrls e w.rules) (v, tt);
    rules_numbered = rw (map-append (λ x. x.id) c.xrls (r ∷ [])) (
        CountUp-append 0 (map (λ x. x.id) c.xrls) r.id w.rules_numbered
          (rw (length-map (λ (x : Xrl). x.id) c.xrls) (omega (arith, id))));
    distinct = AllPairs-append c.xrls r w.distinct d;
    tree = h;
    start = IsNoneOrBelow-mono (length c.xsys) (length xs) c.start_xsy_id e.longer w.start;
    default_ranked = w.default_ranked;
    size = omega (arith, w.size, total_size-append c.xrls r);
    longest_rule = omega (arith, w.longest_rule, longest-append c.xrls r);
  }

  mark-SymbolsOk : (lhs : ℕ) → SymbolsOk (modify c.xsys lhs as_lhs)
  mark-SymbolsOk lhs =
      SymbolsOk-modify c.xsys lhs as_lhs (λ x. refl) (λ o. o)
        (record { symbols = w.symbols; numbered = w.symbols_numbered })

  marked_flag :
      (lhs : ℕ)
      → lhs < length c.xsys
      → get_or (lhs_flags (modify c.xsys lhs as_lhs)) lhs false ≡ true
  marked_flag lhs p =
      rw (map-modify-true (λ x. x.is_lhs) c.xsys lhs as_lhs (λ x. refl)) (
        get_or-modify-true (lhs_flags c.xsys) lhs
          (rw (length-map (λ (x : Xsy). x.is_lhs) c.xsys) p))

  below_modify :
      (rhs : List ℕ) (lhs : ℕ)
      → All (λ i. i < length c.xsys) rhs
      → All (λ i. i < length (modify c.xsys lhs as_lhs)) rhs
  below_modify rhs lhs a = rw (length-modify c.xsys lhs as_lhs) a

  -- A flag of the left side of a rule, read from the symbol.
  lhs_flag_of : (i : ℕ) → get_or (lhs_flags c.xsys) i false ≡ (get_or c.xsys i blank_xsy).is_lhs
  lhs_flag_of i = get_or-map (λ (x : Xsy). x.is_lhs) c.xsys i blank_xsy

  sequence_flag_of :
      (i : ℕ) → get_or (sequence_flags c.xsys) i false ≡ (get_or c.xsys i blank_xsy).is_sequence_lhs
  sequence_flag_of i = get_or-map (λ (x : Xsy). x.is_sequence_lhs) c.xsys i blank_xsy

  -- A BNF rule that the tree does not have is compatible with the rules of the table.
  bnf-Compatible :
      (lhs : ℕ) (rhs : List ℕ) (r : Xrl)
      → (get_or c.xsys lhs blank_xsy).is_sequence_lhs ≡ false
      → r.lhs ≡ lhs
      → r.rhs ≡ rhs
      → r.is_sequence ≡ false
      → (rs : List Xrl) → Rules c.xsys rs
      → listed rs lhs rhs ≡ false
      → All (λ s. Compatible s r) rs
  bnf-Compatible lhs rhs r u el eh es [] a n = tt
  bnf-Compatible lhs rhs r u el eh es (s ∷ rs) a n = (
    rw (el, eh, es) (one (s.lhs == lhs) refl a.0.sequence_flagged),
    bnf-Compatible lhs rhs r u el eh es rs a.1 (ground arith),
  )
    where
      one :
          (b : Bool)
          → (s.lhs == lhs) ≡ b
          → ((s.is_sequence ≡ false) × (s.is_bnf ≡ true))
            ⊎ ((s.is_sequence ≡ true)
                × (s.is_bnf ≡ false)
                × (get_or (sequence_flags c.xsys) s.lhs false ≡ true)
                × (length s.rhs ≡ 1))
          → (s.lhs ≢ lhs)
            ⊎ ((s.is_sequence ≡ false) × (false ≡ false) × (same_ids s.rhs rhs ≡ false))
      one false e f = inl (λ p. ground arith)
      one true e (inl (q, b)) = inr (q, refl, ground arith)
      one true e (inr (q, b, f, _)) = ground (arith, sequence_flag_of lhs, ==_iff s.lhs lhs)

  -- A rule whose left side no rule has yet.
  sequence-Compatible :
      (lhs : ℕ) (r : Xrl)
      → (get_or c.xsys lhs blank_xsy).is_lhs ≡ false
      → r.lhs ≡ lhs
      → (rs : List Xrl) → Rules c.xsys rs
      → All (λ s. Compatible s r) rs
  sequence-Compatible lhs r u el [] a = tt
  sequence-Compatible lhs r u el (s ∷ rs) a = (
    inl (λ p.
        let f : get_or (lhs_flags c.xsys) s.lhs false ≡ true = a.0.flagged in
        cc (f, lhs_flag_of lhs, u, ap (λ i. get_or (lhs_flags c.xsys) i false) (p ∙ el))),
    sequence-Compatible lhs r u el rs a.1,
  )

  tree-with_rule :
      (lhs : ℕ) (rhs : List ℕ) (t : T) (r : Xrl)
      → env.avl_insert c.xrl_tree (blank_xrl lhs rhs) ≡ some t
      → r.lhs ≡ lhs
      → r.rhs ≡ rhs
      → r.is_bnf ≡ true
      → (listed c.xrls lhs rhs ≡ false)
        × ((q : Xrl) → laws.has t q ≡ listed (c.xrls ++ r ∷ []) q.lhs q.rhs)
  tree-with_rule lhs rhs t r e el eh eb =
      elim (Bool-cases (laws.has c.xrl_tree (blank_xrl lhs rhs))) [
        | inl present ↦ absurd (ground (arith, laws.insert_present c.xrl_tree (blank_xrl lhs rhs)))
        | inr absent ↦
            let (t', e', law) = laws.insert_absent c.xrl_tree (blank_xrl lhs rhs) absent in
            (
              sym (w.tree (blank_xrl lhs rhs)) ∙ absent,
              λ q.
                  let same : t ≡ t' = cc in
                  rw
                    (
                      same,
                      law q,
                      w.tree q,
                      duplicate_rule_cmp-zero (blank_xrl lhs rhs) q,
                      listed-append c.xrls r q.lhs q.rhs,
                      el,
                      eh,
                      eb,
                    )
                    (ground arith),
            )
      ]

  pub rule_new-IsWf :
      (lhs : ℕ) (rhs : List ℕ) (t : T)
      → lhs < length c.xsys
      → All (λ i. i < length c.xsys) rhs
      → (get_or c.xsys lhs blank_xsy).is_sequence_lhs ≡ false
      → env.avl_insert c.xrl_tree (blank_xrl lhs rhs) ≡ some t
      → IsWf laws (with_rule c lhs rhs t)
  unfolding rule_add
  rule_new-IsWf lhs rhs t p a u e =
      let r : Xrl = record (finished c lhs rhs) { is_bnf = true } in
      let (absent, tree) = tree-with_rule lhs rhs t r e refl refl refl in
      let xs = modify c.xsys lhs as_lhs in
      let size = length-modify c.xsys lhs as_lhs in
      rw (modify-append_last c.xrls (finished c lhs rhs) (λ r. record r { is_bnf = true })) (
        add-IsWf xs r t (Extends-lhs c.xsys lhs) (mark-SymbolsOk lhs)
          (record {
            lhs_below = rw size p;
            rhs_below = below_modify rhs lhs a;
            separator_below = refl;
            ranked = w.default_ranked;
            flagged = marked_flag lhs p;
            sequence_flagged = inl (refl, refl);
          })
          refl (bnf-Compatible lhs rhs r u refl refl refl c.xrls w.rules absent) tree)

module _ {T : Type 0} {env : Env T} (laws : AvlLaws env) (c : Contents T) (w : IsWf laws c) where
  -- The symbols after `marpa_g_sequence_new`.
  abbrev sequence_xsys : ℕ → ℕ → ℤ → List Xsy
  sequence_xsys lhs rhs separator =
      (counted_separator
        (record c {
          xsys = modify (modify (modify c.xsys lhs as_lhs) lhs as_sequence_lhs) rhs as_counted;
        })
        separator).xsys

  counted_separator-Extends :
      (d : Contents T) (separator : ℤ) → Extends d.xsys (counted_separator d separator).xsys
  counted_separator-Extends d (pos n) = Extends-roles d.xsys n as_counted (λ x. (refl, refl, refl))
  counted_separator-Extends d (negsuc n) = record {
    longer = omega arith;
    lhs_grow = λ i h. h;
    sequence_grow = λ i h. h;
  }

  counted_separator-SymbolsOk :
      (d : Contents T) (separator : ℤ)
      → SymbolsOk d.xsys
      → SymbolsOk (counted_separator d separator).xsys
  counted_separator-SymbolsOk d (pos n) s =
      SymbolsOk-modify d.xsys n as_counted (λ x. refl) (λ o. o) s
  counted_separator-SymbolsOk d (negsuc n) s = s

  module _ (lhs rhs : ℕ) (separator min : ℤ) (flags : ℕ) (p : lhs < length c.xsys)
      (q : rhs < length c.xsys) (s : IsNoneOrBelow (length c.xsys) separator)
      (u : (get_or c.xsys lhs blank_xsy).is_lhs ≡ false) where
    abbrev xs1 : List Xsy
    xs1 = modify c.xsys lhs as_lhs

    abbrev xs2 : List Xsy
    xs2 = modify xs1 lhs as_sequence_lhs

    abbrev xs3 : List Xsy
    xs3 = modify xs2 rhs as_counted

    abbrev new_rule : Xrl
    new_rule = as_sequence separator min flags (finished c lhs (rhs ∷ []))

    marked-Extends : Extends c.xsys xs1
    marked-Extends = Extends-lhs c.xsys lhs

    xs2-Extends : Extends xs2 (sequence_xsys lhs rhs separator)
    xs2-Extends =
        Extends-trans (Extends-roles xs2 rhs as_counted (λ x. (refl, refl, refl)))
          (counted_separator-Extends (record c { xsys = xs3 }) separator)

    sequence-Extends : Extends xs1 (sequence_xsys lhs rhs separator)
    sequence-Extends = Extends-trans (Extends-sequence_lhs xs1 lhs) xs2-Extends

    sequence-SymbolsOk : SymbolsOk (sequence_xsys lhs rhs separator)
    sequence-SymbolsOk =
        counted_separator-SymbolsOk (record c { xsys = xs3 }) separator
          (SymbolsOk-modify xs2 rhs as_counted (λ x. refl) (λ o. o)
            (SymbolsOk-modify xs1 lhs as_sequence_lhs (λ x. refl) (λ o. o)
              (mark-SymbolsOk laws c w lhs)))

    sequence_flag : get_or (sequence_flags xs2) lhs false ≡ true
    sequence_flag =
        rw (map-modify-true (λ x. x.is_sequence_lhs) xs1 lhs as_sequence_lhs (λ x. refl)) (
          get_or-modify-true (sequence_flags xs1) lhs (
            rw (length-map (λ (x : Xsy). x.is_sequence_lhs) xs1, length-modify c.xsys lhs as_lhs)
              p))

    new_separator : IsNoneOrBelow (length c.xsys) new_rule.separator
    unfolding as_sequence
    new_separator = keeps separator s
      where
        keeps :
            (z : ℤ)
            → IsNoneOrBelow (length c.xsys) z
            → IsNoneOrBelow (length c.xsys) (if is_negative z then minus_one else z)
        keeps (pos n) h = h
        keeps (negsuc n) h = refl

    new_rule-IsRule :
        let xs = sequence_xsys lhs rhs separator in
        IsRule (length xs) (lhs_flags xs) (sequence_flags xs) new_rule
    unfolding as_sequence
    new_rule-IsRule =
        let le = marked-Extends.longer in
        let le' = sequence-Extends.longer in
        record {
          lhs_below = omega arith;
          rhs_below = (omega arith, tt);
          separator_below = IsNoneOrBelow-mono _ _ new_rule.separator (omega arith) new_separator;
          ranked = w.default_ranked;
          flagged = sequence-Extends.lhs_grow lhs (marked_flag laws c w lhs p);
          sequence_flagged = inr (refl, refl, xs2-Extends.sequence_grow lhs sequence_flag, refl);
        }

    tree-with_sequence :
        (z : Xrl) → laws.has c.xrl_tree z ≡ listed (c.xrls ++ new_rule ∷ []) z.lhs z.rhs
    unfolding as_sequence
    tree-with_sequence z = rw (w.tree z, listed-append c.xrls new_rule z.lhs z.rhs) (ground arith)

    added : IsWf laws (record c {
      xsys = sequence_xsys lhs rhs separator;
      xrls = c.xrls ++ new_rule ∷ [];
      external_size = c.external_size + (1 + 1);
      max_rule_length = max 1 c.max_rule_length;
    })
    unfolding as_sequence
    added =
        add-IsWf laws c w (sequence_xsys lhs rhs separator) new_rule c.xrl_tree
          (Extends-trans marked-Extends sequence-Extends) sequence-SymbolsOk new_rule-IsRule refl
          (sequence-Compatible laws c w lhs new_rule u refl c.xrls w.rules) tree-with_sequence

    pub sequence_new-IsWf : IsWf laws (with_sequence c lhs rhs separator min flags)
    unfolding rule_add
    sequence_new-IsWf = by_sign separator refl
      where
        by_sign : (z : ℤ) → separator ≡ z → IsWf laws (with_sequence c lhs rhs separator min flags)
        by_sign (pos n) e =
            rw
              (
                modify-append_last c.xrls (finished c lhs (rhs ∷ []))
                    (as_sequence separator min flags),
                e,
              )
              (rw e at added)
        by_sign (negsuc n) e =
            rw
              (
                modify-append_last c.xrls (finished c lhs (rhs ∷ []))
                    (as_sequence separator min flags),
                e,
              )
              (rw e at added)
