-- ===== src/Loops/Steps.antt =====
-- The unit transitions of a rule.
use marpa_r.Prelude.{
  ℕ, ◌+◌, ◌≡◌, ◌↔◌, refl, ap, ◌∙◌, sym, Bool, true, false, ◌&&◌, ◌||◌, not, List, [], ◌∷◌, ◌++◌,
  has, get_or, ◌==◌, ℤ, pos, negsuc, pos_part, inl, inr, arith, if◌then◌else◌, Bool-cases,
}
use marpa_r.BitVector.{BitVector, bv_bit_test}
use marpa_r.Grammar.{Xsy, Xrl, blank_xsy}
use marpa_r.Closure.{RuleLists, rules_of}
use marpa_r.Loops.{count_nonnullable}

module _ (nullable_v : BitVector) where
  -- How many symbols are not nullable.
  abbrev pub solid_count : List ℕ → ℕ
  solid_count [] = 0
  solid_count (x ∷ xs) = (if bv_bit_test nullable_v x then 0 else 1) + solid_count xs

  solid_count-append : (a b : List ℕ) → solid_count (a ++ b) ≡ solid_count a + solid_count b
  solid_count-append [] b = omega arith
  solid_count-append (x ∷ a) b = omega (arith, solid_count-append a b)

  count_lem :
      (xs : List ℕ) (id : ℤ) (c : ℕ) → (count_nonnullable nullable_v xs id c).1 ≡ c + solid_count xs
  unfolding count_nonnullable
  count_lem [] id c = omega arith
  count_lem (x ∷ xs) id c =
      let b = bv_bit_test nullable_v x in
      ground (arith, count_lem xs (if b then id else pos x) (if b then c else c + 1))

  last_kept :
      (xs : List ℕ) (id : ℤ) (c : ℕ)
      → solid_count xs ≡ 0
      → (count_nonnullable nullable_v xs id c).0 ≡ id
  unfolding count_nonnullable
  last_kept [] id c h = refl
  last_kept (x ∷ xs) id c h =
      let b = bv_bit_test nullable_v x in
      last_kept xs (if b then id else pos x) (if b then c else c + 1) (ground (arith, h))
      ∙ ground (arith, h)

  last_solid :
      (a : List ℕ) (x : ℕ) (b : List ℕ) (id : ℤ) (c : ℕ)
      → bv_bit_test nullable_v x ≡ false
      → solid_count b ≡ 0
      → (count_nonnullable nullable_v (a ++ x ∷ b) id c).0 ≡ pos x
  unfolding count_nonnullable
  last_solid [] x b id c e h =
      let t = bv_bit_test nullable_v x in
      last_kept b (if t then id else pos x) (if t then c else c + 1) h ∙ ground (arith, e)
  last_solid (y ∷ a) x b id c e h =
      let t = bv_bit_test nullable_v y in
      last_solid a x b (if t then id else pos y) (if t then c else c + 1) e h

  one_solid :
      (xs : List ℕ)
      → solid_count xs ≡ 1
      → (a : List ℕ) × (x : ℕ) × (b : List ℕ) × (xs ≡ a ++ x ∷ b)
        × (solid_count a ≡ 0)
        × (bv_bit_test nullable_v x ≡ false)
        × (solid_count b ≡ 0)
  one_solid [] h = absurd (omega (arith, h))
  one_solid (x ∷ xs) h = elim (Bool-cases (bv_bit_test nullable_v x)) [
    | inl e ↦
        let (a, y, b, p, q, r, s) = one_solid xs (ground (arith, h, e)) in
        (x ∷ a, y, b, ap (λ t. x ∷ t) p, ground (arith, q, e), r, s)
    | inr e ↦ ([], x, xs, refl, refl, e, ground (arith, h, e))
  ]

  module _ (xsys : List Xsy) (lists : RuleLists) where
    -- Rule `q` is on the list of a symbol of `xs` that is not nulling.
    abbrev pub some_left : List ℕ → ℕ → Bool
    some_left [] q = false
    some_left (x ∷ xs) q =
        (not (get_or xsys x blank_xsy).is_nulling && has (rules_of lists x) q) || some_left xs q

    some_left-append :
        (a b : List ℕ) (q : ℕ) → some_left (a ++ b) q ≡ (some_left a q || some_left b q)
    some_left-append [] b q = refl
    some_left-append (x ∷ a) b q = ground (arith, some_left-append a b q)

    of_some_left :
        (xs : List ℕ) (q : ℕ)
        → some_left xs q ≡ true
        → (a : List ℕ) × (x : ℕ) × (b : List ℕ) × (xs ≡ a ++ x ∷ b)
          × ((get_or xsys x blank_xsy).is_nulling ≡ false)
          × (has (rules_of lists x) q ≡ true)
    of_some_left [] q h = absurd (ground (arith, h))
    of_some_left (x ∷ xs) q h =
        elim (Bool-cases (not (get_or xsys x blank_xsy).is_nulling && has (rules_of lists x) q)) [
          | inl e ↦ ([], x, xs, refl, ground (arith, e), ground (arith, e))
          | inr e ↦
              let (a, y, b, p, r, s) = of_some_left xs q (ground (arith, h, e)) in
              (x ∷ a, y, b, ap (λ t. x ∷ t) p, r, s)
        ]

    -- The transitions that are set for a rule.
    abbrev pub sets : Xrl → ℕ → Bool
    sets rule q =
        let (id, count) = count_nonnullable nullable_v rule.rhs (negsuc 0) 0 in
        if count == 1
        then has (rules_of lists (pos_part id)) q
        else if count == 0
        then some_left rule.rhs q
        else false

    -- All symbols of a right side but one are nullable, and that one is not both nullable and
    -- nulling: the rule leads to the rules `q` on the list of that symbol.
    abbrev pub UnitStep : Xrl → ℕ → Type 0
    UnitStep rule q =
        (a : List ℕ) × (x : ℕ) × (b : List ℕ) × (rule.rhs ≡ a ++ x ∷ b)
        × (solid_count a ≡ 0)
        × (solid_count b ≡ 0)
        × ((bv_bit_test nullable_v x && (get_or xsys x blank_xsy).is_nulling) ≡ false)
        × (has (rules_of lists x) q ≡ true)

    sets-UnitStep : (rule : Xrl) (q : ℕ) → sets rule q ≡ true → UnitStep rule q
    sets-UnitStep rule q h =
        let n = count_lem rule.rhs (negsuc 0) 0 in
        elim (Bool-cases (solid_count rule.rhs == 1)) [
          | inl e ↦
              let (a, x, b, p, q1, r, s) = one_solid rule.rhs (ground (arith, e)) in
              let i =
                ap (λ z. (count_nonnullable nullable_v z (negsuc 0) 0).0) p
                ∙ last_solid a x b (negsuc 0) 0 r s in
              (
                a,
                x,
                b,
                p,
                q1,
                s,
                ground (arith, r),
                ap (λ z. has (rules_of lists (pos_part z)) q) (sym i) ∙ ground (arith, h, n, e),
              )
          | inr e ↦
              let z : solid_count rule.rhs ≡ 0 = ground (arith, h, n, e) in
              let (a, x, b, p, r, s) = of_some_left rule.rhs q (ground (arith, h, n, e)) in
              let c = sym (ap solid_count p) ∙ z in
              let d = solid_count-append a (x ∷ b) in
              (a, x, b, p, omega (arith, c, d), omega (arith, c, d), ground (arith, r), s)
        ]

    UnitStep-sets : (rule : Xrl) (q : ℕ) → UnitStep rule q → sets rule q ≡ true
    UnitStep-sets rule q (a, x, b, p, ha, hb, k, h) =
        let n = count_lem rule.rhs (negsuc 0) 0 in
        let c = ap solid_count p ∙ solid_count-append a (x ∷ b) in
        elim (Bool-cases (bv_bit_test nullable_v x)) [
          | inl e ↦
              let l = ap (λ z. some_left z q) p ∙ some_left-append a (x ∷ b) q in
              ground (arith, n, c, ha, hb, e, k, h, l)
          | inr e ↦
              let i =
                ap (λ z. (count_nonnullable nullable_v z (negsuc 0) 0).0) p
                ∙ last_solid a x b (negsuc 0) 0 e hb in
              let l = ap (λ z. has (rules_of lists (pos_part z)) q) i in
              ground (arith, n, c, ha, hb, e, h, l)
        ]

    pub sets_lem : (rule : Xrl) (q : ℕ) → (sets rule q ≡ true) ↔ UnitStep rule q
    sets_lem rule q = (sets-UnitStep rule q, UnitStep-sets rule q)
