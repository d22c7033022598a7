-- ===== src/Census/Lists.antt =====
-- The lists of rules by symbol, from the pairs in ascending order.
use marpa_r.Prelude.{
  ℕ, zero, suc, ◌+◌, ◌-◌, ◌≤◌, ◌<◌, max, ◌≡◌, refl, ◌∙◌, Bool, true, false, ◌&&◌, ◌||◌, List, [],
  ◌∷◌, ◌++◌, map, All, All-map, replicate, get_or, has, ltb, ltb_ℤ, pos, ◌==◌, inl, inr, arith,
  if◌then◌else◌, Bool-cases,
}
use marpa_r.Closure.{rules_of, take, drop}
use marpa_r.Census.Index.{SymRulePair, sym_rule_cmp, fill_offsets, make_lists}
use marpa_r.Census.{PairTree}

abbrev pub has_pair : List SymRulePair → ℕ → ℕ → Bool
has_pair [] s r = false
has_pair (p ∷ ps) s r = (p.symid == s && p.ruleid == r) || has_pair ps s r

abbrev pub Ordered : List SymRulePair → Type 0
Ordered [] = Unit {0}
Ordered (p ∷ ps) = All (λ q. ltb_ℤ (sym_rule_cmp p q) (pos 0) ≡ true) ps × Ordered ps

-- What the library documents of a tree under `sym_rule_cmp`: a traversal has the pairs that were
-- inserted, in ascending order.
pub record PairTreeLaws (tree : PairTree) : Type 0 where
  pub ordered : (ps : List SymRulePair) → Ordered (tree.traverse ps)
  pub members :
      (ps : List SymRulePair) (s r : ℕ) → has_pair (tree.traverse ps) s r ≡ has_pair ps s r

-- The symbols do not go down.
abbrev Rising : List SymRulePair → Type 0
Rising [] = Unit {0}
Rising (p ∷ ps) = All (λ (q : SymRulePair). p.symid ≤ q.symid) ps × Rising ps

Ordered-Rising : (ps : List SymRulePair) → Ordered ps → Rising ps
unfolding sym_rule_cmp
Ordered-Rising [] o = tt
Ordered-Rising (p ∷ ps) o = (
  All-map (λ q. ltb_ℤ (sym_rule_cmp p q) (pos 0) ≡ true) (λ (q : SymRulePair). p.symid ≤ q.symid) ps
      (λ q h. ground (arith, h)) o.0,
  Ordered-Rising ps o.1,
)

-- The number of pairs with a symbol below `i`.
abbrev below : List SymRulePair → ℕ → ℕ
below [] i = 0
below (p ∷ ps) i = (if ltb p.symid i then 1 else 0) + below ps i

below_none :
    (ps : List SymRulePair) (i : ℕ) → All (λ (q : SymRulePair). i ≤ q.symid) ps → below ps i ≡ 0
below_none [] i a = refl
below_none (p ∷ ps) i a = ground (arith, below_none ps i a.1, a.0)

get_or-replicate-append :
    (m p k : ℕ) (ys : List ℕ)
    → get_or (replicate m p ++ ys) k 0 ≡ (if ltb k m then p else get_or ys (k - m) 0)
get_or-replicate-append zero p k ys = let e : k - 0 ≡ k = omega arith in ground (arith, e)
get_or-replicate-append (suc m) p zero ys = ground arith
get_or-replicate-append (suc m) p (suc k) ys =
    let e : suc k - suc m ≡ k - m = omega arith in
    get_or-replicate-append m p k ys ∙ ground (arith, e)

get_or-replicate_lt : (m p k : ℕ) → k < m → get_or (replicate m p) k 0 ≡ p
get_or-replicate_lt zero p k l = elim l [ ]
get_or-replicate_lt (suc m) p zero l = refl
get_or-replicate_lt (suc m) p (suc k) l = get_or-replicate_lt m p k (omega arith)

fill_offsets_lem :
    (n : ℕ) (ps : List SymRulePair) (next p k : ℕ)
    → Rising ps
    → next + k ≤ n
    → get_or (fill_offsets n ps next p) k 0 ≡ p + below ps (next + k)
unfolding fill_offsets
fill_offsets_lem n [] next p k o l =
    get_or-replicate_lt (n + 1 - next) p k (omega arith) ∙ omega arith
fill_offsets_lem n (q ∷ ps) next p k o l =
    let m = q.symid + 1 - next in
    let next' = max next (q.symid + 1) in
    get_or-replicate-append m p k (fill_offsets n ps next' (p + 1)) ∙ elim (Bool-cases (ltb k m)) [
      | inl early ↦
          let none_yet : below ps (next + k) ≡ 0 = below_none ps (next + k) (
            All-map (λ (x : SymRulePair). q.symid ≤ x.symid) (λ x. next + k ≤ x.symid) ps
              (λ x h. ground (arith, h, early)) o.0) in
          let not_this : ltb q.symid (next + k) ≡ false = ground (arith, early) in
          rw (early, not_this, none_yet) (omega arith)
      | inr late ↦
          let this : ltb q.symid (next + k) ≡ true = ground (arith, late) in
          let e : next' + (k - m) ≡ next + k = ground (arith, late) in
          let ih = fill_offsets_lem n ps next' (p + 1) (k - m) o.1 (omega (arith, e, l)) in
          rw (late, this, ih, e) (omega arith)
    ]

ids : List SymRulePair → List ℕ
ids ps = map (λ (p : SymRulePair). p.ruleid) ps

has_pair_none :
    (ps : List SymRulePair) (s r : ℕ)
    → All (λ (q : SymRulePair). s < q.symid) ps
    → has_pair ps s r ≡ false
has_pair_none [] s r a = refl
has_pair_none (p ∷ ps) s r a = ground (arith, a.0, has_pair_none ps s r a.1)

slice_lem :
    (ps : List SymRulePair) (s r : ℕ)
    → Rising ps
    → has (take (below ps (s + 1) - below ps s) (drop (below ps s) (ids ps))) r ≡ has_pair ps s r
unfolding ids
slice_lem [] s r o = refl
slice_lem (p ∷ ps) s r o = elim (Bool-cases (ltb p.symid s)) [
  | inl before ↦
      let within : ltb p.symid (s + 1) ≡ true = ground (arith, before) in
      let e : 1 + below ps (s + 1) - (1 + below ps s) ≡ below ps (s + 1) - below ps s =
        omega arith in
      let f : 1 + below ps s ≡ suc (below ps s) = omega arith in
      rw (before, within, e, f) (slice_lem ps s r o.1 ∙ ground (arith, before))
  | inr from ↦ elim (Bool-cases (ltb p.symid (s + 1))) [
    | inl this ↦
        let here : p.symid ≡ s = ground (arith, from, this) in
        let z : below ps s ≡ 0 = below_none ps s (
          All-map (λ (x : SymRulePair). p.symid ≤ x.symid) (λ x. s ≤ x.symid) ps
            (λ x h. omega (arith, here)) o.0) in
        let e : 1 + below ps (s + 1) - (0 + 0) ≡ suc (below ps (s + 1) - 0) = omega arith in
        let g : 0 + 0 ≡ 0 = omega arith in
        let ih : has (take (below ps (s + 1) - 0) (ids ps)) r ≡ has_pair ps s r =
          subst_zero ps s r z (slice_lem ps s r o.1) in
        rw (from, this, z, e, g) (ground (arith, ih, here))
    | inr after ↦
        let later : All (λ (x : SymRulePair). s < x.symid) ps =
          All-map (λ (x : SymRulePair). p.symid ≤ x.symid) (λ x. s < x.symid) ps
            (λ x h. ground (arith, h, after)) o.0 in
        let z : below ps (s + 1) ≡ 0 = below_none ps (s + 1) (
          All-map (λ (x : SymRulePair). s < x.symid) (λ x. s + 1 ≤ x.symid) ps (λ x h. omega arith)
            later) in
        let e : 0 + 0 - (0 + below ps s) ≡ 0 = omega arith in
        rw (from, after, z, e) (ground (arith, has_pair_none ps s r later, after))
  ]
]
  where
    subst_zero :
        (qs : List SymRulePair) (s r : ℕ)
        → below qs s ≡ 0
        → has (take (below qs (s + 1) - below qs s) (drop (below qs s) (ids qs))) r
          ≡ has_pair qs s r
        → has (take (below qs (s + 1) - 0) (ids qs)) r ≡ has_pair qs s r
    subst_zero qs s r z h = rw z at h

-- From a traversal in ascending order, the list of a symbol has the rules that are paired with it.
pub rules_of-make_lists :
    (n : ℕ) (ps : List SymRulePair) (s r : ℕ)
    → Ordered ps
    → s < n
    → has (rules_of (make_lists n ps) s) r ≡ has_pair ps s r
unfolding rules_of make_lists ids
rules_of-make_lists n ps s r o l =
    let rising = Ordered-Rising ps o in
    let at = fill_offsets_lem n ps 0 0 s rising (omega arith) in
    let next = fill_offsets_lem n ps 0 0 (s + 1) rising (omega arith) in
    let e : 0 + s ≡ s = omega arith in
    let f : 0 + (s + 1) ≡ s + 1 = omega arith in
    let at' : get_or (fill_offsets n ps 0 0) s 0 ≡ below ps s = at ∙ rw e (omega arith) in
    let next' : get_or (fill_offsets n ps 0 0) (s + 1) 0 ≡ below ps (s + 1) =
      next ∙ rw f (omega arith) in
    rw (at', next') (slice_lem ps s r rising)
