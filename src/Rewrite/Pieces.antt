-- ===== src/Rewrite/Pieces.antt =====
-- The rules that the pieces of one external rule become, and what they generate.
pub mod Whole
use marpa_r.Prelude.{
  ℕ, suc, ◌+◌, ◌-◌, ◌≤◌, ◌<◌, ◌≡◌, refl, ap, ◌∙◌, ◌↔◌, ◌⊎◌, inl, inr, Bool, true, false, List, [],
  ◌∷◌, ◌++◌, some, All, ltb, leb, arith, if◌then◌else◌,
}
use mathlib.Core.List.{Memᴰ}
use mathlib.Core.List.Memᴰ
use marpa_r.Grammar.{Xsy}
use marpa_r.Rewrite.{Irl}
use marpa_r.Rewrite.Chaf.{
  Chaf, chaf_irl, nullable_tail_piece, inner_piece, last_two_piece, last_one_piece,
}
use marpa_r.Rewrite.Variants.{Variant}
use marpa_r.Rewrite.Expansion.{Expands, Turn, Shape, OneOf, first_turn, take_turn}

pub LhsIs : ℕ → List Irl → Type 0
LhsIs l is = All (λ irl. irl.lhs ≡ l) is

LhsIs-Mem : (l : ℕ) (is : List Irl) (irl : Irl) → LhsIs l is → Memᴰ irl is → irl.lhs ≡ l
unfolding LhsIs
LhsIs-Mem l [] irl h m = absurd (Memᴰ.not-nil m)
LhsIs-Mem l (i ∷ is) irl h (Memᴰ.head e) = ap (λ (j : Irl). j.lhs) e ∙ h.0
LhsIs-Mem l (i ∷ is) irl h (Memᴰ.tail m) = LhsIs-Mem l is irl h.1 m

LhsIs-optional : (l : ℕ) (b : Bool) (irl : Irl) → irl.lhs ≡ l → LhsIs l (if b then irl ∷ [] else [])
unfolding LhsIs
LhsIs-optional l true irl e = (e, tt)
LhsIs-optional l false irl e = tt

module _ (c : Chaf) where
  -- The rules that the pieces add; the virtual symbols are numbered from `k` on.
  abbrev pub chaf_irls : List ℕ → ℕ → ℕ → ℕ → List Irl
  chaf_irls [] p l k = []
  chaf_irls (first ∷ []) p l k = last_one_piece c l p first
  chaf_irls (first ∷ second ∷ []) p l k = last_two_piece c l p first second
  chaf_irls (first ∷ second ∷ third ∷ fs) p l k = elim (leb c.nullable_suffix_ix second) [
    | true ↦
        nullable_tail_piece c l p k first second ++ chaf_irls (second ∷ third ∷ fs) second k (suc k)
    | false ↦ inner_piece c l p k first second ++ chaf_irls (third ∷ fs) (second + 1) k (suc k)
  ]

  pub LhsIs-tail : (l p k first second : ℕ) → LhsIs l (nullable_tail_piece c l p k first second)
  unfolding nullable_tail_piece chaf_irl LhsIs
  LhsIs-tail l p k first second =
      (refl, (refl, (refl, LhsIs-optional l (ltb p c.nullable_suffix_ix) _ refl)))

  pub LhsIs-inner : (l p k first second : ℕ) → LhsIs l (inner_piece c l p k first second)
  unfolding inner_piece chaf_irl LhsIs
  LhsIs-inner l p k first second = (refl, (refl, (refl, (refl, tt))))

  LhsIs-last_two : (l p first second : ℕ) → LhsIs l (last_two_piece c l p first second)
  unfolding last_two_piece chaf_irl LhsIs
  LhsIs-last_two l p first second =
      (refl, (refl, (refl, LhsIs-optional l (ltb p c.nullable_suffix_ix) _ refl)))

  LhsIs-last_one : (l p first : ℕ) → LhsIs l (last_one_piece c l p first)
  unfolding last_one_piece chaf_irl LhsIs
  LhsIs-last_one l p first = (refl, LhsIs-optional l (ltb p c.nullable_suffix_ix) _ refl)

  -- A piece with left side `l`, then pieces for the virtual symbol `k`.
  lhs_cases :
      (l k : ℕ) (is rest : List Irl) (irl : Irl)
      → LhsIs l is
      → (Memᴰ irl rest → (irl.lhs ≡ k) ⊎ (suc k ≤ irl.lhs))
      → Memᴰ irl (is ++ rest)
      → (irl.lhs ≡ l) ⊎ (k ≤ irl.lhs)
  lhs_cases l k is rest irl h r m = elim (Memᴰ.append_cases is m) [
    | inl n ↦ inl (LhsIs-Mem l is irl h n)
    | inr n ↦ inr (ground (arith, r n))
  ]

  abbrev pub split : Bool → ℕ → ℕ → ℕ → ℕ → ℕ → List Irl → List Irl → List Irl
  split b l p k first second tl inn = elim b [
    | true ↦ nullable_tail_piece c l p k first second ++ tl
    | false ↦ inner_piece c l p k first second ++ inn
  ]

  lhs_split :
      (b : Bool) (l p k first second : ℕ) (tl inn : List Irl) (irl : Irl)
      → (Memᴰ irl tl → (irl.lhs ≡ k) ⊎ (suc k ≤ irl.lhs))
      → (Memᴰ irl inn → (irl.lhs ≡ k) ⊎ (suc k ≤ irl.lhs))
      → Memᴰ irl (split b l p k first second tl inn)
      → (irl.lhs ≡ l) ⊎ (k ≤ irl.lhs)
  lhs_split true l p k first second tl inn irl h h' m =
      lhs_cases l k _ tl irl (LhsIs-tail l p k first second) h m
  lhs_split false l p k first second tl inn irl h h' m =
      lhs_cases l k _ inn irl (LhsIs-inner l p k first second) h' m

  pub lhs_of :
      (fs : List ℕ) (p l k : ℕ) (irl : Irl)
      → Memᴰ irl (chaf_irls fs p l k)
      → (irl.lhs ≡ l) ⊎ (k ≤ irl.lhs)
  lhs_of [] p l k irl m = absurd (Memᴰ.not-nil m)
  lhs_of (first ∷ []) p l k irl m = inl (LhsIs-Mem l _ irl (LhsIs-last_one l p first) m)
  lhs_of (first ∷ second ∷ []) p l k irl m =
      inl (LhsIs-Mem l _ irl (LhsIs-last_two l p first second) m)
  lhs_of (first ∷ second ∷ third ∷ fs) p l k irl m =
      lhs_split (leb c.nullable_suffix_ix second) l p k first second _ _ irl
        (lhs_of (second ∷ third ∷ fs) second k (suc k) irl)
        (lhs_of (third ∷ fs) (second + 1) k (suc k) irl) m

  module _ (xsys : List Xsy) (irls : List Irl) where
    -- Among `irls`, the rules `is` are those of the symbol `l` and of the virtual symbols from `k`
    -- on. They generate the variants of `ys`.
    unfoldable pub Right : List Irl → ℕ → ℕ → List ℕ → Type 0
    Right is l k ys =
        ((irl : Irl) → Memᴰ irl is → Memᴰ irl irls)
        → ((irl : Irl)
            → Memᴰ irl irls
            → irl.source_xrl ≡ some c.rule_id
            → (irl.lhs ≡ l) ⊎ (k ≤ irl.lhs)
            → Memᴰ irl is)
        → (w : List ℕ) → Expands irls c.rule_id l w ↔ Variant xsys c.names ys w true

    pub Right-last :
        (is : List Irl) (l k : ℕ) (ts : List Turn) (ys : List ℕ)
        → Shape c.rule_id l is ts
        → ((w : List ℕ) → OneOf irls c.rule_id ts w ↔ Variant xsys c.names ys w true)
        → Right is l k ys
    unfolding Right
    Right-last is l k ts ys s v sub own w = (
      λ d. (v w).0 (first_turn irls c.rule_id is l ts w s (λ irl m q e. own irl m q (inl e)) d),
      λ d. take_turn irls c.rule_id is l ts w s sub ((v w).1 d),
    )

    pub Right-more :
        (is rest : List Irl) (l k : ℕ) (ts : List Turn) (ys d : List ℕ)
        → l < k
        → Shape c.rule_id l is ts
        → LhsIs l is
        → ((irl : Irl) → Memᴰ irl rest → (irl.lhs ≡ k) ⊎ (suc k ≤ irl.lhs))
        → Right rest k (suc k) d
        → (((w : List ℕ) → Expands irls c.rule_id k w ↔ Variant xsys c.names d w true)
            → (w : List ℕ) → OneOf irls c.rule_id ts w ↔ Variant xsys c.names ys w true)
        → Right (is ++ rest) l k ys
    unfolding Right
    Right-more is rest l k ts ys d lt s h h' r v sub own =
        let sub' : (irl : Irl) → Memᴰ irl rest → Memᴰ irl irls =
          λ irl m. sub irl (Memᴰ.append_right is m) in
        let own' : (irl : Irl)
            → Memᴰ irl irls
            → irl.source_xrl ≡ some c.rule_id
            → (irl.lhs ≡ k) ⊎ (suc k ≤ irl.lhs)
            → Memᴰ irl rest =
          λ irl m q e. elim (Memᴰ.append_cases is (own irl m q (inr (ground (arith, e))))) [
            | inl n ↦ absurd (ground (arith, LhsIs-Mem l is irl h n, e, lt))
            | inr n ↦ n
          ] in
        let first : (irl : Irl)
            → Memᴰ irl irls
            → irl.source_xrl ≡ some c.rule_id
            → irl.lhs ≡ l
            → Memᴰ irl is =
          λ irl m q e. elim (Memᴰ.append_cases is (own irl m q (inl e))) [
            | inl n ↦ n
            | inr n ↦ absurd (ground (arith, h' irl n, e, lt))
          ] in
        let v' = v (r sub' own') in
        λ w. (
          λ d. (v' w).0 (first_turn irls c.rule_id is l ts w s first d),
          λ d.
              take_turn irls c.rule_id is l ts w s (λ irl m. sub irl (Memᴰ.append_left rest m))
                ((v' w).1 d),
        )
