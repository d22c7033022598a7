-- ===== src/Rewrite/Language.antt =====
-- What the internal rules of the whole rewrite generate for an external rule.
use marpa_r.Prelude.{
  ℕ, zero, suc, ◌+◌, ◌≤◌, ◌<◌, ◌≡◌, refl, ap, ◌∙◌, sym, subst, ◌↔◌, ◌⊎◌, inl, inr, Bool, true,
  false, not, List, [], ◌∷◌, ◌++◌, map, Option, none, some, length, get_or, get_elem?, arith,
  if◌then◌else◌,
}
use mathlib.Core.List.{Memᴰ}
use mathlib.Core.List.Memᴰ
use marpa_r.Grammar.{Xsy, Xrl}
use marpa_r.Rewrite.{Irl, Rewriting, Names, names_of, pointed}
use marpa_r.Rewrite.Slices.{all_rest}
use marpa_r.Rewrite.Chaf.{scan_factors}
use marpa_r.Rewrite.Rules.{plain_irl, rewrite_rule, rewrite_rules}
use marpa_r.Rewrite.Variants.{nulling, factor, no_factor, Variant}
use marpa_r.Rewrite.Factors.{Cut, scan_factors-Cut}
use marpa_r.Rewrite.Expansion.{Expands, ends, first_turn, take_turn}
use marpa_r.Rewrite.Pieces.{Right}
use marpa_r.Rewrite.Pieces.Whole.{pieces_lem}
use marpa_r.Rewrite.Added.{Adds, Adds-none, Adds-trans}
use marpa_r.Rewrite.Added.Rule.{Adds-rewrite_rule, chaf_of, bnf_irls, rule_irls}
use marpa_r.Rewrite.Sources.{source_of}

-- The words for a right side: the symbols under their own names; with properly nullable symbols,
-- the variants that are not all nulling.
abbrev pub Written : List Xsy → Names → List ℕ → List ℕ → Type 0
Written xsys names rhs w =
    ((no_factor xsys rhs ≡ true) × (w ≡ map names.nsyid rhs))
    ⊎ ((no_factor xsys rhs ≡ false) × Variant xsys names rhs w true)

some_factor :
    (xsys : List Xsy) (a : List ℕ) (x : ℕ) (r : List ℕ)
    → factor xsys x ≡ true
    → no_factor xsys (a ++ x ∷ r) ≡ false
some_factor xsys [] x r f = ground (arith, f)
some_factor xsys (y ∷ a) x r f = ground (arith, some_factor xsys a x r f)

bnf_case :
    (u q : Bool) (is is' : List Irl)
    → u ≡ true
    → q ≡ false
    → (if not u then [] else if q then is else is') ≡ is'
bnf_case true false is is' e e' = refl
bnf_case true true is is' e e' = absurd (ground (arith, e'))
bnf_case false q is is' e e' = absurd (ground (arith, e))

-- `is` are the rules of `irls` that come from the external rule `id`.
pub record AllOf (irls : List Irl) (id : ℕ) (is : List Irl) : Type 0 where
  pub inside : (irl : Irl) → Memᴰ irl is → Memᴰ irl irls
  pub owned : (irl : Irl) → Memᴰ irl irls → irl.source_xrl ≡ some id → Memᴰ irl is

module _ (xsys : List Xsy) (names : Names) (irls : List Irl) (id : ℕ) (rule : Xrl) (k : ℕ)
    (agree : (x : ℕ) → nulling xsys x ≡ true → names.nulling_nsyid x ≡ names.nsyid x)
    (old : names.nsyid rule.lhs < k) where
  bnf_lem :
      (fs : List ℕ) (w : List ℕ)
      → fs ≡ (scan_factors xsys 0 rule.rhs 0).0
      → Cut xsys 0 rule.rhs fs
      → AllOf irls id (bnf_irls xsys names id rule k fs)
      → Expands irls id (names.nsyid rule.lhs) w ↔ Written xsys names rule.rhs w
  unfolding plain_irl Right
  bnf_lem [] w e cut h = (
    λ d.
        elim (first_turn irls id _ (names.nsyid rule.lhs) (ends (map names.nsyid rule.rhs) ∷ []) w
          ((refl, refl, refl, refl), tt) (λ irl m q _. h.owned irl m q) d) [
            | inl p ↦ inl (cut, p)
            | inr o ↦ absurd o
          ],
    λ d.
        take_turn irls id (bnf_irls xsys names id rule k []) (names.nsyid rule.lhs)
          (ends (map names.nsyid rule.rhs) ∷ []) w ((refl, refl, refl, refl), tt) h.inside
          (elim d [ inl (n, p) ↦ inl p | inr (n, v) ↦ absurd (ground (arith, n, cut)) ]),
  )
  bnf_lem (f ∷ fs) w e (a, x, r, p, ha, hx, hf, cut) h =
      let n : no_factor xsys rule.rhs ≡ false = ap (no_factor xsys) p ∙ some_factor xsys a x r hx in
      let right =
        pieces_lem (chaf_of xsys names id rule) xsys irls agree refl fs f 0 (names.nsyid rule.lhs) k
          rule.rhs old (all_rest rule.rhs) (a, x, r, p, ha, hx, hf, cut) h.inside
          (λ irl m q _. h.owned irl m q) w in
      (
        λ d. inr (n, right.0 d),
        λ d. elim d [ inl (n', q) ↦ absurd (ground (arith, n, n')) | inr (n', v) ↦ right.1 v ],
      )

  pub rule_lem :
      (w : List ℕ)
      → rule.is_used ≡ true
      → rule.is_sequence ≡ false
      → AllOf irls id (rule_irls xsys names id rule k)
      → Expands irls id (names.nsyid rule.lhs) w ↔ Written xsys names rule.rhs w
  rule_lem w u q h =
      bnf_lem (scan_factors xsys 0 rule.rhs 0).0 w refl (scan_factors-Cut xsys rule.rhs 0 0)
        (subst (AllOf irls id) (bnf_case rule.is_used rule.is_sequence _ _ u q) h)

pub names_path : (s s' : Rewriting) (is : List Irl) → Adds s s' is → names_of s' ≡ names_of s
names_path s s' is a =
    let make : List (Option ℕ) → List (Option ℕ) → Names = λ t t'. record {
      nsyid = λ i. pointed (get_or t i none);
      nulling_nsyid = λ i. pointed (get_or t' i none);
    } in
    ap (λ t. make t s'.nulling_nsy_of_xsy) a.same_nsys ∙ ap (make s.nsy_of_xsy) a.same_nulling

-- The rules from number `i` on add rules that come from them.
unfoldable pub From : ℕ → List Irl → Type 0
From i is = (irl : Irl) → Memᴰ irl is → (n : ℕ) × (irl.source_xrl ≡ some n) × (i ≤ n)

pub rules_added :
    (xsys : List Xsy) (rules : List Xrl) (i : ℕ) (s : Rewriting)
    → (is : List Irl) × Adds s (rewrite_rules xsys i rules s) is × From i is
unfolding rewrite_rules From
rules_added xsys [] i s = ([], Adds-none s, λ irl m. absurd (Memᴰ.not-nil m))
rules_added xsys (rule ∷ rules) i s =
    let s1 = rewrite_rule xsys i rule s in
    let mine = rule_irls xsys (names_of s) i rule (length s.nsys) in
    let (is, a, h) = rules_added xsys rules (suc i) s1 in
    (
      mine ++ is,
      Adds-trans s s1 _ mine is (Adds-rewrite_rule xsys i rule s) a,
      λ irl m. elim (Memᴰ.append_cases mine m) [
        | inl t ↦ (i, source_of xsys (names_of s) i rule (length s.nsys) irl t, omega arith)
        | inr t ↦ let (n, e, l) = h irl t in (n, e, omega (arith, l))
      ],
    )

-- The rules so far come from the external rules before `i`.
unfoldable pub Before : ℕ → List Irl → Type 0
Before i is = (irl : Irl) → Memᴰ irl is → (n : ℕ) → irl.source_xrl ≡ some n → n < i

same_source : (irl : Irl) (m n : ℕ) → irl.source_xrl ≡ some m → irl.source_xrl ≡ some n → m ≡ n
same_source irl m n e e' = let p : some m ≡ some n = sym e ∙ e' in ground (arith, p)

pub rules_of_rule :
    (xsys : List Xsy) (rules : List Xrl) (i j : ℕ) (rule : Xrl) (s : Rewriting)
    → get_elem? rules j ≡ some rule
    → Before i s.irls
    → (k : ℕ) × (length s.nsys ≤ k)
      × AllOf
          (rewrite_rules xsys i rules s).irls
          (i + j)
          (rule_irls xsys (names_of s) (i + j) rule k)
unfolding rewrite_rules From Before
rules_of_rule xsys [] i j rule s e b = absurd (ground (arith, e))
rules_of_rule xsys (r ∷ rules) i zero rule s e b =
    let s1 = rewrite_rule xsys i r s in
    let k = length s.nsys in
    let mine = rule_irls xsys (names_of s) i r k in
    let (is, a, h) = rules_added xsys rules (suc i) s1 in
    let all = Adds-trans s s1 _ mine is (Adds-rewrite_rule xsys i r s) a in
    let same : r ≡ rule = ground (arith, e) in
    let here : i ≡ i + 0 = omega arith in
    let have : AllOf (rewrite_rules xsys (suc i) rules s1).irls i mine = record {
      inside = λ irl m.
          subst (Memᴰ irl) (sym all.irls_grow) (Memᴰ.append_right s.irls (Memᴰ.append_left is m));
      owned = λ irl m p. elim (Memᴰ.append_cases s.irls (subst (Memᴰ irl) all.irls_grow m)) [
        | inl t ↦ absurd (ground (arith, b irl t i p))
        | inr t ↦ elim (Memᴰ.append_cases mine t) [
          | inl v ↦ v
          | inr v ↦ let (n, q, l) = h irl v in absurd (ground (arith, same_source irl i n p q, l))
        ]
      ];
    } in
    (
      k,
      omega arith,
      subst
          (λ z.
            AllOf (rewrite_rules xsys (suc i) rules s1).irls z
              (rule_irls xsys (names_of s) z rule k))
          here
          (subst
            (λ z.
              AllOf (rewrite_rules xsys (suc i) rules s1).irls i
                (rule_irls xsys (names_of s) i z k))
            same have),
    )
rules_of_rule xsys (r ∷ rules) i (suc j) rule s e b =
    let s1 = rewrite_rule xsys i r s in
    let mine = rule_irls xsys (names_of s) i r (length s.nsys) in
    let a = Adds-rewrite_rule xsys i r s in
    let b1 : Before (suc i) s1.irls = λ irl m n p.
      elim (Memᴰ.append_cases s.irls (subst (Memᴰ irl) a.irls_grow m)) [
        | inl t ↦ omega (arith, b irl t n p)
        | inr t ↦
            omega
              (arith, same_source irl n i p (source_of xsys (names_of s) i r (length s.nsys) irl t))
      ] in
    let (k, l, h) = rules_of_rule xsys rules (suc i) j rule s1 e b1 in
    let next : suc i + j ≡ i + suc j = omega arith in
    (
      k,
      omega (arith, l, a.nsys_grow),
      subst
          (λ z.
            AllOf (rewrite_rules xsys (suc i) rules s1).irls z
              (rule_irls xsys (names_of s) z rule k))
          next
          (subst
            (λ z.
              AllOf (rewrite_rules xsys (suc i) rules s1).irls (suc i + j)
                (rule_irls xsys z (suc i + j) rule k))
            (names_path s s1 mine a) h),
    )
