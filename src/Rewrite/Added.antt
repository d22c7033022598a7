-- ===== src/Rewrite/Added.antt =====
-- What the rewrite of one external rule adds to the internal rules, as a list.
pub mod Rule
use marpa_r.Prelude.{
  ℕ, suc, ◌+◌, ◌-◌, ◌≤◌, ◌≡◌, refl, ap, ◌∙◌, sym, subst, Bool, true, false, List, [], ◌∷◌, ◌++◌,
  some, length, length-append, length-modify, leb, modify, arith, pos,
}
use mathlib.Core.List.{append_assoc, append-nil}
use marpa_r.Grammar.{Xsy}
use marpa_r.Rewrite.{Nsy, Irl, Rewriting, nsy_new, add_irl}
use marpa_r.Rewrite.Chaf.{
  Chaf, nullable_tail_piece, inner_piece, last_two_piece, last_one_piece, add_chaf_irls,
  chaf_pieces,
}
use marpa_r.Rewrite.Rules.{add_irls}
use marpa_r.Rewrite.Pieces.{chaf_irls, split}

-- From `s` to `s'` the rules `is` are added, and the pointers from the external symbols are kept.
pub record Adds (s s' : Rewriting) (is : List Irl) : Type 0 where
  pub irls_grow : s'.irls ≡ s.irls ++ is
  pub nsys_grow : length s.nsys ≤ length s'.nsys
  pub same_nsys : s'.nsy_of_xsy ≡ s.nsy_of_xsy
  pub same_nulling : s'.nulling_nsy_of_xsy ≡ s.nulling_nsy_of_xsy

pub Adds-none : (s : Rewriting) → Adds s s []
Adds-none s = record {
  irls_grow = sym (append-nil s.irls);
  nsys_grow = omega arith;
  same_nsys = refl;
  same_nulling = refl;
}

pub Adds-trans :
    (s s' s'' : Rewriting) (is is' : List Irl)
    → Adds s s' is
    → Adds s' s'' is'
    → Adds s s'' (is ++ is')
Adds-trans s s' s'' is is' a b = record {
  irls_grow = b.irls_grow ∙ ap (λ t. t ++ is') a.irls_grow ∙ append_assoc s.irls is is';
  nsys_grow = omega (arith, a.nsys_grow, b.nsys_grow);
  same_nsys = b.same_nsys ∙ a.same_nsys;
  same_nulling = b.same_nulling ∙ a.same_nulling;
}

pub Adds-add_irl : (irl : Irl) (s : Rewriting) → Adds s (add_irl irl s) (irl ∷ [])
unfolding add_irl
Adds-add_irl irl s = record {
  irls_grow = refl;
  nsys_grow = omega (arith, length-modify s.nsys irl.lhs (λ n. record n { is_lhs = true }));
  same_nsys = refl;
  same_nulling = refl;
}

pub Adds-add_irls : (is : List Irl) (s : Rewriting) → Adds s (add_irls is s) is
unfolding add_irls
Adds-add_irls [] s = Adds-none s
Adds-add_irls (irl ∷ is) s =
    Adds-trans s (add_irl irl s) _ (irl ∷ []) is (Adds-add_irl irl s)
      (Adds-add_irls is (add_irl irl s))

pub nsy_new-length :
    (xsys : List Xsy) (x : ℕ) (s : Rewriting) → length (nsy_new xsys x s).nsys ≡ suc (length s.nsys)
unfolding nsy_new
nsy_new-length xsys x s = length-append s.nsys _ ∙ omega arith

module _ (c : Chaf) where
  add_chaf_irls_lem :
      (p : ℕ) (is : List Irl) (s : Rewriting)
      → Adds s (add_chaf_irls c p is s) is × (length (add_chaf_irls c p is s).nsys ≡ length s.nsys)
  unfolding add_chaf_irls add_irl
  add_chaf_irls_lem p [] s = (Adds-none s, refl)
  add_chaf_irls_lem p (irl ∷ is) s =
      let s1 = add_irl irl s in
      let f = λ (n : Nsy). record n { lhs_xrl = some c.rule_id; xrl_offset = pos p } in
      let s2 : Rewriting = record s1 { nsys = modify s1.nsys irl.lhs f } in
      let e1 = length-modify s.nsys irl.lhs (λ n. record n { is_lhs = true }) in
      let e2 = length-modify s1.nsys irl.lhs f in
      let (a, e) = add_chaf_irls_lem p is s2 in
      let h : Adds s s2 (irl ∷ []) = record {
        irls_grow = refl;
        nsys_grow = omega (arith, e1, e2);
        same_nsys = refl;
        same_nulling = refl;
      } in
      (Adds-trans s s2 _ (irl ∷ []) is h a, omega (arith, e, e1, e2))

  -- A new virtual symbol, then the rules of a piece.
  Adds-piece :
      (xsys : List Xsy) (p : ℕ) (is : List Irl) (s : Rewriting)
      → Adds s (add_chaf_irls c p is (nsy_new xsys c.rule.lhs s)) is
        × (length (add_chaf_irls c p is (nsy_new xsys c.rule.lhs s)).nsys ≡ suc (length s.nsys))
  unfolding nsy_new
  Adds-piece xsys p is s =
      let s1 = nsy_new xsys c.rule.lhs s in
      let (a, e) = add_chaf_irls_lem p is s1 in
      let l = nsy_new-length xsys c.rule.lhs s in
      let h : Adds s s1 [] = record {
        irls_grow = sym (append-nil s.irls);
        nsys_grow = omega (arith, l);
        same_nsys = refl;
        same_nulling = refl;
      } in
      (Adds-trans s s1 _ [] is h a, e ∙ l)

  Adds-split :
      (b : Bool) (l p k first second : ℕ) (tl inn : List Irl) (s st si s_tl s_inn : Rewriting)
      → Adds s st (nullable_tail_piece c l p k first second)
      → Adds s si (inner_piece c l p k first second)
      → Adds st s_tl tl
      → Adds si s_inn inn
      → Adds s (elim b [ true ↦ s_tl | false ↦ s_inn ]) (split c b l p k first second tl inn)
  Adds-split true l p k first second tl inn s st si s_tl s_inn a b u v =
      Adds-trans s st s_tl _ tl a u
  Adds-split false l p k first second tl inn s st si s_tl s_inn a b u v =
      Adds-trans s si s_inn _ inn b v

  pub Adds-chaf_pieces :
      (xsys : List Xsy) (fs : List ℕ) (p l : ℕ) (s : Rewriting)
      → Adds s (chaf_pieces c xsys fs p l s) (chaf_irls c fs p l (length s.nsys))
  unfolding chaf_pieces
  Adds-chaf_pieces xsys [] p l s = Adds-none s
  Adds-chaf_pieces xsys (f ∷ []) p l s = (add_chaf_irls_lem p (last_one_piece c l p f) s).0
  Adds-chaf_pieces xsys (f ∷ g ∷ []) p l s = (add_chaf_irls_lem p (last_two_piece c l p f g) s).0
  Adds-chaf_pieces xsys (f ∷ g ∷ h ∷ fs) p l s =
      let k = length s.nsys in
      let s1 = nsy_new xsys c.rule.lhs s in
      let (a, e) = Adds-piece xsys p (nullable_tail_piece c l p k f g) s in
      let (b, e') = Adds-piece xsys p (inner_piece c l p k f g) s in
      let st = add_chaf_irls c p (nullable_tail_piece c l p k f g) s1 in
      let si = add_chaf_irls c p (inner_piece c l p k f g) s1 in
      Adds-split (leb c.nullable_suffix_ix g) l p k f g _ _ s st si _ _ a b
        (subst
          (λ n. Adds st (chaf_pieces c xsys (g ∷ h ∷ fs) g k st) (chaf_irls c (g ∷ h ∷ fs) g k n)) e
          (Adds-chaf_pieces xsys (g ∷ h ∷ fs) g k st))
        (subst
          (λ n.
            Adds si (chaf_pieces c xsys (h ∷ fs) (g + 1) k si) (chaf_irls c (h ∷ fs) (g + 1) k n))
          e' (Adds-chaf_pieces xsys (h ∷ fs) (g + 1) k si))
