-- ===== src/Rewrite/Variants.antt =====
-- The variants of a right side: each properly nullable symbol under its own name or under that of
-- its nulling alias.
use marpa_r.Prelude.{
  ℕ, ◌≡◌, refl, ap, ◌∙◌, sym, Bool, true, false, not, ◌&&◌, ◌||◌, ◌⊎◌, inl, inr, List, [], ◌∷◌,
  ◌++◌, map, get_or, arith, Bool-cases,
}
use marpa_r.Grammar.{Xsy, blank_xsy}
use marpa_r.Rewrite.{Names}

module _ (xsys : List Xsy) where
  abbrev pub nulling : ℕ → Bool
  nulling x = (get_or xsys x blank_xsy).is_nulling

  abbrev pub factor : ℕ → Bool
  factor x = not (get_or xsys x blank_xsy).is_nulling && (get_or xsys x blank_xsy).is_nullable

  abbrev pub solid : ℕ → Bool
  solid x = not (get_or xsys x blank_xsy).is_nulling && not (get_or xsys x blank_xsy).is_nullable

  abbrev pub no_factor : List ℕ → Bool
  no_factor [] = true
  no_factor (x ∷ xs) =
      not (not (get_or xsys x blank_xsy).is_nulling && (get_or xsys x blank_xsy).is_nullable)
      && no_factor xs

  abbrev pub has_solid : List ℕ → Bool
  has_solid [] = false
  has_solid (x ∷ xs) =
      (not (get_or xsys x blank_xsy).is_nulling && not (get_or xsys x blank_xsy).is_nullable)
      || has_solid xs

  -- `w` is a variant of `xs`, and `b` says whether it has a symbol that is not nulling.
  abbrev pub Variant : Names → List ℕ → List ℕ → Bool → Type 0
  Variant names [] w b = (w ≡ []) × (b ≡ false)
  Variant names (x ∷ xs) w b =
      (w' : List ℕ) × (b' : Bool) × Variant names xs w' b'
      × (((w ≡ names.nsyid x ∷ w') × (b ≡ (not (get_or xsys x blank_xsy).is_nulling || b')))
          ⊎ (((not (get_or xsys x blank_xsy).is_nulling && (get_or xsys x blank_xsy).is_nullable)
                ≡ true)
              × (w ≡ names.nulling_nsyid x ∷ w')
              × (b ≡ b')))

  module _ (names : Names) where
    -- What a variant of `a ++ r` is, for `a` with no factor.
    pub prefixed :
        (a r w : List ℕ) (b : Bool)
        → no_factor a ≡ true
        → Variant names (a ++ r) w b
        → (w' : List ℕ) × (b' : Bool) × Variant names r w' b'
          × (w ≡ map names.nsyid a ++ w')
          × (b ≡ (has_solid a || b'))
    prefixed [] r w b h v = (w, b, v, refl, refl)
    prefixed (x ∷ a) r w b h (w1, b1, v, inl (p, q)) =
        let (w', b', v', p', q') = prefixed a r w1 b1 (ground (arith, h)) v in
        (w', b', v', p ∙ ap (λ t. names.nsyid x ∷ t) p', ground (arith, q, q', h))
    prefixed (x ∷ a) r w b h (w1, b1, v, inr (f, p, q)) = absurd (ground (arith, h, f))

    pub prefix :
        (a r w' : List ℕ) (b' : Bool)
        → no_factor a ≡ true
        → Variant names r w' b'
        → Variant names (a ++ r) (map names.nsyid a ++ w') (has_solid a || b')
    prefix [] r w' b' h v = v
    prefix (x ∷ a) r w' b' h v = (
      map names.nsyid a ++ w',
      has_solid a || b',
      prefix a r w' b' (ground (arith, h)) v,
      inl (refl, ground (arith, h)),
    )

    -- The same for `a ++ x ∷ r` with a factor `x`, where something is not nulling.
    pub opened :
        (a : List ℕ) (x : ℕ) (r w : List ℕ)
        → no_factor a ≡ true
        → factor x ≡ true
        → Variant names (a ++ x ∷ r) w true
        → (w' : List ℕ) × (b' : Bool) × Variant names r w' b'
          × ((w ≡ map names.nsyid a ++ (names.nsyid x ∷ w'))
              ⊎ ((w ≡ map names.nsyid a ++ (names.nulling_nsyid x ∷ w'))
                  × ((has_solid a || b') ≡ true)))
    opened a x r w h f v =
        let (w1, b1, (w', b', v', c), p, q) = prefixed a (x ∷ r) w true h v in
        (
          w',
          b',
          v',
          elim c [
            | inl (s, t) ↦ inl (p ∙ ap (λ y. map names.nsyid a ++ y) s)
            | inr (g, s, t) ↦ inr (p ∙ ap (λ y. map names.nsyid a ++ y) s, ground (arith, q, t))
          ],
        )

    pub open_as_is :
        (a : List ℕ) (x : ℕ) (r w' : List ℕ) (b' : Bool)
        → no_factor a ≡ true
        → factor x ≡ true
        → Variant names r w' b'
        → Variant names (a ++ x ∷ r) (map names.nsyid a ++ (names.nsyid x ∷ w')) true
    open_as_is a x r w' b' h f v =
        let e : (has_solid a || true) ≡ true = ground arith in
        rw e at
          (prefix a (x ∷ r) (names.nsyid x ∷ w') true h (w', b', v, inl (refl, ground (arith, f))))

    pub open_nulled :
        (a : List ℕ) (x : ℕ) (r w' : List ℕ) (b' : Bool)
        → no_factor a ≡ true
        → factor x ≡ true
        → Variant names r w' b'
        → (has_solid a || b') ≡ true
        → Variant names (a ++ x ∷ r) (map names.nsyid a ++ (names.nulling_nsyid x ∷ w')) true
    open_nulled a x r w' b' h f v e =
        rw e at
          (prefix a (x ∷ r) (names.nulling_nsyid x ∷ w') b' h (w', b', v, inr (f, refl, refl)))

    -- Where something is solid, no variant is all nulling.
    pub live : (xs w : List ℕ) (b : Bool) → has_solid xs ≡ true → Variant names xs w b → b ≡ true
    live [] w b h v = absurd (ground (arith, h))
    live (x ∷ xs) w b h (w', b', v, c) = elim (Bool-cases (has_solid xs)) [
      | inl e ↦
          let t = live xs w' b' e v in
          elim c [ inl (p, q) ↦ ground (arith, q, t) | inr (f, p, q) ↦ ground (arith, q, t) ]
      | inr e ↦ elim c [
        | inl (p, q) ↦ ground (arith, q, h, e)
        | inr (f, p, q) ↦ absurd (ground (arith, f, h, e))
      ]
    ]

    -- Where nothing is solid, one variant is all nulling, and it has the nulling names.
    pub nulled :
        (xs : List ℕ)
        → ((x : ℕ) → nulling x ≡ true → names.nulling_nsyid x ≡ names.nsyid x)
        → has_solid xs ≡ false
        → Variant names xs (map names.nulling_nsyid xs) false
    nulled [] agree h = (refl, refl)
    nulled (x ∷ xs) agree h = (
      map names.nulling_nsyid xs,
      false,
      nulled xs agree (ground (arith, h)),
      elim (Bool-cases (nulling x)) [
        | inl n ↦ inl (ap (λ y. y ∷ map names.nulling_nsyid xs) (agree x n), ground (arith, n))
        | inr n ↦ inr (ground (arith, n, h), refl, refl)
      ],
    )

    pub only_nulled :
        (xs w : List ℕ)
        → ((x : ℕ) → nulling x ≡ true → names.nulling_nsyid x ≡ names.nsyid x)
        → Variant names xs w false
        → w ≡ map names.nulling_nsyid xs
    only_nulled [] w agree v = v.0
    only_nulled (x ∷ xs) w agree (w', b', v, inl (p, q)) =
        let b : b' ≡ false = ground (arith, q) in
        let n : nulling x ≡ true = ground (arith, q) in
        p
        ∙ ap (λ y. y ∷ w') (sym (agree x n))
        ∙ ap (λ y. names.nulling_nsyid x ∷ y) (only_nulled xs w' agree (rw b at v))
    only_nulled (x ∷ xs) w agree (w', b', v, inr (f, p, q)) =
        p ∙ ap (λ y. names.nulling_nsyid x ∷ y) (only_nulled xs w' agree (rw (sym q) at v))

    -- With no factor there is one variant.
    pub only_names :
        (xs w : List ℕ) (b : Bool)
        → no_factor xs ≡ true
        → Variant names xs w b
        → (w ≡ map names.nsyid xs) × (b ≡ has_solid xs)
    only_names [] w b h v = v
    only_names (x ∷ xs) w b h (w', b', v, inl (p, q)) =
        let (p', q') = only_names xs w' b' (ground (arith, h)) v in
        (p ∙ ap (λ y. names.nsyid x ∷ y) p', ground (arith, q, q', h))
    only_names (x ∷ xs) w b h (w', b', v, inr (f, p, q)) = absurd (ground (arith, h, f))

    pub names_variant :
        (xs : List ℕ) → no_factor xs ≡ true → Variant names xs (map names.nsyid xs) (has_solid xs)
    names_variant [] h = (refl, refl)
    names_variant (x ∷ xs) h = (
      map names.nsyid xs,
      has_solid xs,
      names_variant xs (ground (arith, h)),
      inl (refl, ground (arith, h)),
    )
