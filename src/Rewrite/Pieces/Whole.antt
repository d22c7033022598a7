-- ===== src/Rewrite/Pieces/Whole.antt =====
-- All the pieces of one external rule.
use marpa_r.Prelude.{
  ℕ, suc, ◌+◌, ◌<◌, ◌≡◌, refl, ap, ◌∙◌, sym, subst, Bool, true, false, not, ◌||◌, List, [], ◌∷◌,
  ◌++◌, length, ltb, leb, arith, ◌≤◌, ◌⊎◌, length-append,
}
use mathlib.Core.List.{Memᴰ}
use marpa_r.Grammar.{Xsy}
use mathlib.Core.List.{append_assoc}
use marpa_r.Rewrite.Slices.{Rest, Rest-past}
use marpa_r.Rewrite.{Irl}
use marpa_r.Rewrite.Chaf.{Chaf, scan_factors, last_two_piece, last_one_piece}
use marpa_r.Rewrite.Variants.{nulling, factor, no_factor, has_solid}
use marpa_r.Rewrite.Factors.{Cut, suffix_lem}
use marpa_r.Rewrite.Turns.One.{solid_past, last_one_lem, tail_lem}
use marpa_r.Rewrite.Turns.Two.{inner_lem, last_two_lem}
use marpa_r.Rewrite.Shapes.{last_one-Shape}
use marpa_r.Rewrite.Shapes.Two.{tail-Shape, inner-Shape, last_two-Shape}
use marpa_r.Rewrite.Pieces.{
  LhsIs-tail, LhsIs-inner, chaf_irls, split, lhs_of, Right, Right-last, Right-more,
}

module _ (c : Chaf) (xsys : List Xsy) (irls : List Irl)
    (agree : (x : ℕ) → nulling xsys x ≡ true → c.names.nulling_nsyid x ≡ c.names.nsyid x)
    (suffix : c.nullable_suffix_ix ≡ (scan_factors xsys 0 c.rule.rhs 0).1) where
  -- The test for the all nulling rule of a piece.
  before_suffix :
      (p : ℕ) (ys : List ℕ) → Rest c.rule.rhs p ys → has_solid xsys ys ≡ ltb p c.nullable_suffix_ix
  before_suffix p ys t = ground (arith, suffix_lem xsys c.rule.rhs p ys t, suffix)

  -- The test for a rest that is all nullable.
  at_suffix :
      (p : ℕ) (ys : List ℕ) (b : Bool)
      → Rest c.rule.rhs p ys
      → leb c.nullable_suffix_ix p ≡ b
      → has_solid xsys ys ≡ not b
  at_suffix p ys b t e = ground (arith, suffix_lem xsys c.rule.rhs p ys t, suffix, e)

  last_one-Right :
      (l k p first : ℕ) (a : List ℕ) (x : ℕ) (r : List ℕ)
      → Rest c.rule.rhs p (a ++ x ∷ r)
      → no_factor xsys a ≡ true
      → factor xsys x ≡ true
      → first ≡ p + length a
      → no_factor xsys r ≡ true
      → Right c xsys irls (last_one_piece c l p first) l k (a ++ x ∷ r)
  last_one-Right l k p first a x r t ha hx e hr =
      let b = ltb p c.nullable_suffix_ix in
      Right-last c xsys irls _ l k _ (a ++ x ∷ r) (last_one-Shape c l p first a x r t e) (λ w.
        last_one_lem xsys c.names irls c.rule_id a x r b w ha hx hr
          (sym (solid_past xsys a x r hx) ∙ before_suffix p (a ++ x ∷ r) t))

  -- The same where the first factor is followed by another.
  module _ (l k p first second : ℕ) (a : List ℕ) (x : ℕ) (b : List ℕ) (y : ℕ) (r : List ℕ)
      (t : Rest c.rule.rhs p (a ++ x ∷ (b ++ y ∷ r))) (ha : no_factor xsys a ≡ true)
      (hx : factor xsys x ≡ true) (e : first ≡ p + length a) (hb : no_factor xsys b ≡ true)
      (hy : factor xsys y ≡ true) (e' : second ≡ suc first + length b) where
    pub at_second : Rest c.rule.rhs second (y ∷ r)
    at_second =
        Rest-past c.rule.rhs (suc first) second b (y ∷ r)
          (Rest-past c.rule.rhs p (suc first) (a ++ x ∷ []) (b ++ y ∷ r)
            (rw (append_assoc a (x ∷ []) (b ++ y ∷ r)) t)
            (omega (arith, e, length-append a (x ∷ []))))
          e'

    pub past_second : Rest c.rule.rhs (second + 1) r
    past_second = Rest-past c.rule.rhs second (second + 1) (y ∷ []) r at_second (omega arith)

    solid_all :
        (has_solid xsys a || (has_solid xsys b || has_solid xsys r)) ≡ ltb p c.nullable_suffix_ix
    solid_all = ground (
      arith,
      solid_past xsys a x (b ++ y ∷ r) hx,
      solid_past xsys b y r hy,
      before_suffix p (a ++ x ∷ (b ++ y ∷ r)) t,
    )

    last_two-Right :
        no_factor xsys r ≡ true
        → Right c xsys irls (last_two_piece c l p first second) l k (a ++ x ∷ (b ++ y ∷ r))
    last_two-Right hr =
        Right-last c xsys irls _ l k _ _ (last_two-Shape c l p first second a x b y r t e e') (λ w.
          last_two_lem xsys c.names irls c.rule_id a x b y r ha hx hb hy
            (ltb p c.nullable_suffix_ix) w hr solid_all)

    -- A piece before a virtual symbol, whose rules are right.
    split-Right :
        (z : Bool) (tl inn : List Irl)
        → leb c.nullable_suffix_ix second ≡ z
        → l < k
        → ((irl : Irl) → Memᴰ irl tl → (irl.lhs ≡ k) ⊎ (suc k ≤ irl.lhs))
        → ((irl : Irl) → Memᴰ irl inn → (irl.lhs ≡ k) ⊎ (suc k ≤ irl.lhs))
        → Right c xsys irls tl k (suc k) (y ∷ r)
        → Right c xsys irls inn k (suc k) r
        → Right c xsys irls (split c z l p k first second tl inn) l k (a ++ x ∷ (b ++ y ∷ r))
    split-Right true tl inn z lt g h u v =
        let d = at_suffix second (y ∷ r) true at_second z in
        Right-more c xsys irls _ tl l k _ _ (y ∷ r) lt
          (tail-Shape c l p first second a x b y r t e e' k) (LhsIs-tail c l p k first second) g u
          (λ m.
            tail_lem xsys c.names irls c.rule_id agree a x b (y ∷ r) k (ltb p c.nullable_suffix_ix)
              ha hx hb d (ground (arith, solid_all, d, hy)) m)
    split-Right false tl inn z lt g h u v =
        let d = at_suffix second (y ∷ r) false at_second z in
        Right-more c xsys irls _ inn l k _ _ r lt
          (inner-Shape c l p first second a x b y r t e e' k) (LhsIs-inner c l p k first second) h v
          (λ m w.
            inner_lem xsys c.names irls c.rule_id a x b y r ha hx hb hy k w (ground (arith, d, hy))
              m)

  pub pieces_lem :
      (fs : List ℕ) (f p l k : ℕ) (ys : List ℕ)
      → l < k
      → Rest c.rule.rhs p ys
      → Cut xsys p ys (f ∷ fs)
      → Right c xsys irls (chaf_irls c (f ∷ fs) p l k) l k ys
  pieces_lem [] f p l k ys lt t (a, x, r, e, ha, hx, hf, hr) =
      subst (λ z. Right c xsys irls (last_one_piece c l p f) l k z) (sym e)
        (last_one-Right l k p f a x r (subst (λ z. Rest c.rule.rhs p z) e t) ha hx hf hr)
  pieces_lem (g ∷ []) f p l k ys lt t (a, x, r1, e, ha, hx, hf, (b, y, r, e1, hb, hy, hg, hr)) =
      let e2 = e ∙ ap (λ z. a ++ x ∷ z) e1 in
      subst (λ z. Right c xsys irls (last_two_piece c l p f g) l k z) (sym e2)
        (last_two-Right l k p f g a x b y r (subst (λ z. Rest c.rule.rhs p z) e2 t) ha hx hf hb hy
          hg hr)
  pieces_lem (g ∷ h ∷ fs) f p l k ys lt t
        (a, x, r1, e, ha, hx, hf, (b, y, r, e1, hb, hy, hg, cut)) =
      let e2 = e ∙ ap (λ z. a ++ x ∷ z) e1 in
      let t' = subst (λ z. Rest c.rule.rhs p z) e2 t in
      let next : suc g ≡ g + 1 = omega arith in
      subst (λ z. Right c xsys irls (chaf_irls c (f ∷ g ∷ h ∷ fs) p l k) l k z) (sym e2)
        (split-Right l k p f g a x b y r t' ha hx hf hb hy hg (leb c.nullable_suffix_ix g) _ _ refl
          lt (lhs_of c (g ∷ h ∷ fs) g k (suc k)) (lhs_of c (h ∷ fs) (g + 1) k (suc k))
          (pieces_lem (h ∷ fs) g g k (suc k) (y ∷ r) (omega arith)
            (at_second l k p f g a x b y r t' ha hx hf hb hy hg)
            ([], y, r, refl, refl, hy, omega arith, cut))
          (pieces_lem fs h (g + 1) k (suc k) r (omega arith)
            (past_second l k p f g a x b y r t' ha hx hf hb hy hg)
            (subst (λ z. Cut xsys z r (h ∷ fs)) next cut)))
