-- ===== src/Rewrite/Sources.antt =====
-- Each internal rule names the external rule that it comes from.
use marpa_r.Prelude.{
  ℕ, suc, ◌+◌, ◌≡◌, refl, ◌∙◌, ap, Bool, true, false, not, List, [], ◌∷◌, some, All, All-append,
  ltb, leb, get_or, if◌then◌else◌,
}
use mathlib.Core.List.{Memᴰ}
use mathlib.Core.List.Memᴰ
use marpa_r.Grammar.{Xsy, Xrl}
use marpa_r.Rewrite.{Irl, Names}
use marpa_r.Rewrite.Chaf.{
  Chaf, scan_factors, chaf_irl, nullable_tail_piece, inner_piece, last_two_piece, last_one_piece,
}
use marpa_r.Rewrite.Rules.{plain_irl, separator_names, sequence_irls}
use marpa_r.Rewrite.Pieces.{chaf_irls, split}
use marpa_r.Rewrite.Added.Rule.{chaf_of, bnf_irls, rule_irls}

OfRule : ℕ → List Irl → Type 0
OfRule id is = All (λ irl. irl.source_xrl ≡ some id) is

OfRule-Mem :
    (id : ℕ) (is : List Irl) (irl : Irl) → OfRule id is → Memᴰ irl is → irl.source_xrl ≡ some id
unfolding OfRule
OfRule-Mem id [] irl h m = absurd (Memᴰ.not-nil m)
OfRule-Mem id (i ∷ is) irl h (Memᴰ.head e) = ap (λ (j : Irl). j.source_xrl) e ∙ h.0
OfRule-Mem id (i ∷ is) irl h (Memᴰ.tail m) = OfRule-Mem id is irl h.1 m

OfRule-optional :
    (id : ℕ) (b : Bool) (irl : Irl)
    → irl.source_xrl ≡ some id
    → OfRule id (if b then irl ∷ [] else [])
unfolding OfRule
OfRule-optional id true irl e = (e, tt)
OfRule-optional id false irl e = tt

module _ (c : Chaf) where
  OfRule-split :
      (b : Bool) (l p k first second : ℕ) (tl inn : List Irl)
      → OfRule c.rule_id tl
      → OfRule c.rule_id inn
      → OfRule c.rule_id (split c b l p k first second tl inn)
  unfolding OfRule nullable_tail_piece inner_piece chaf_irl
  OfRule-split true l p k first second tl inn h h' = (
    refl,
    (
      refl,
      (refl, All-append _ _ tl (OfRule-optional c.rule_id (ltb p c.nullable_suffix_ix) _ refl) h),
    ),
  )
  OfRule-split false l p k first second tl inn h h' = (refl, (refl, (refl, (refl, h'))))

  OfRule-chaf_irls : (fs : List ℕ) (p l k : ℕ) → OfRule c.rule_id (chaf_irls c fs p l k)
  unfolding OfRule last_two_piece last_one_piece chaf_irl
  OfRule-chaf_irls [] p l k = tt
  OfRule-chaf_irls (f ∷ []) p l k =
      (refl, OfRule-optional c.rule_id (ltb p c.nullable_suffix_ix) _ refl)
  OfRule-chaf_irls (f ∷ g ∷ []) p l k =
      (refl, (refl, (refl, OfRule-optional c.rule_id (ltb p c.nullable_suffix_ix) _ refl)))
  OfRule-chaf_irls (f ∷ g ∷ h ∷ fs) p l k =
      OfRule-split (leb c.nullable_suffix_ix g) l p k f g _ _
        (OfRule-chaf_irls (g ∷ h ∷ fs) g k (suc k)) (OfRule-chaf_irls (h ∷ fs) (g + 1) k (suc k))

OfRule-sequence :
    (id : ℕ) (rule : Xrl) (l v item : ℕ) (sep : List ℕ) (proper : Bool)
    → rule.is_proper_separation ≡ proper
    → OfRule id (sequence_irls id rule l v item sep)
unfolding OfRule sequence_irls plain_irl
OfRule-sequence id rule l v item sep true e = (refl, rw e (refl, (refl, tt)))
OfRule-sequence id rule l v item [] false e = (refl, rw e (refl, (refl, tt)))
OfRule-sequence id rule l v item (x ∷ sep) false e = (refl, rw e (refl, (refl, (refl, tt))))

OfRule-bnf :
    (xsys : List Xsy) (names : Names) (id : ℕ) (rule : Xrl) (k : ℕ) (fs : List ℕ)
    → OfRule id (bnf_irls xsys names id rule k fs)
unfolding OfRule plain_irl
OfRule-bnf xsys names id rule k [] = (refl, tt)
OfRule-bnf xsys names id rule k (f ∷ fs) =
    OfRule-chaf_irls (chaf_of xsys names id rule) (f ∷ fs) 0 (names.nsyid rule.lhs) k

OfRule-if :
    (id : ℕ) (b : Bool) (is is' : List Irl)
    → OfRule id is
    → OfRule id is'
    → OfRule id (if b then is else is')
OfRule-if id true is is' h h' = h
OfRule-if id false is is' h h' = h'

pub source_of :
    (xsys : List Xsy) (names : Names) (id : ℕ) (rule : Xrl) (k : ℕ) (irl : Irl)
    → Memᴰ irl (rule_irls xsys names id rule k)
    → irl.source_xrl ≡ some id
unfolding OfRule
source_of xsys names id rule k irl m =
    OfRule-Mem id _ irl
      (OfRule-if id (not rule.is_used) [] _ tt (
        OfRule-if id rule.is_sequence _ _
          (OfRule-sequence id rule (names.nsyid rule.lhs) k (names.nsyid (get_or rule.rhs 0 0))
            (separator_names names rule.separator) rule.is_proper_separation refl)
          (OfRule-bnf xsys names id rule k (scan_factors xsys 0 rule.rhs 0).0)))
      m
