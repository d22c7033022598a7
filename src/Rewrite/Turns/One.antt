-- ===== src/Rewrite/Turns/One.antt =====
-- The turns of the pieces with one factor of their own, and the variants of the right side from
-- the piece on.
use marpa_r.Prelude.{
  ℕ, ◌≡◌, refl, ap, ◌∙◌, sym, ◌↔◌, Bool, true, false, ◌||◌, inl, inr, List, [], ◌∷◌, ◌++◌, map,
  arith, Bool-cases,
}
use marpa_r.Grammar.{Xsy}
use mathlib.Core.List.{append_assoc}
use marpa_r.Rewrite.{Irl, Names}
use marpa_r.Rewrite.Variants.{
  nulling, factor, no_factor, has_solid, Variant, prefixed, prefix, opened, open_as_is, open_nulled,
  nulled, only_nulled, only_names, names_variant,
}
use marpa_r.Rewrite.Expansion.{Expands, Turn, ends, Match, OneOf}
use marpa_r.Rewrite.Turns.{optional, last_one_turns, tail_turns}

has_solid-append :
    (xsys : List Xsy) (a r : List ℕ)
    → has_solid xsys (a ++ r) ≡ (has_solid xsys a || has_solid xsys r)
has_solid-append xsys [] r = refl
has_solid-append xsys (x ∷ a) r = ground (arith, has_solid-append xsys a r)

-- Behind factors, what is solid is in what stands between them.
pub solid_past :
    (xsys : List Xsy) (a : List ℕ) (x : ℕ) (r : List ℕ)
    → factor xsys x ≡ true
    → has_solid xsys (a ++ x ∷ r) ≡ (has_solid xsys a || has_solid xsys r)
solid_past xsys a x r f = ground (arith, has_solid-append xsys a (x ∷ r), f)

module _ (irls : List Irl) (rule_id : ℕ) where
  pub optional_turn :
      (c : Bool) (t : Turn) (w : List ℕ)
      → c ≡ true
      → Match irls rule_id t w
      → OneOf irls rule_id (optional c t) w
  optional_turn true t w e m = inl m
  optional_turn false t w e m = absurd (ground (arith, e))

  pub of_optional :
      (c : Bool) (t : Turn) (w : List ℕ)
      → OneOf irls rule_id (optional c t) w
      → (c ≡ true) × Match irls rule_id t w
  of_optional true t w (inl m) = (refl, m)
  of_optional true t w (inr o) = absurd o
  of_optional false t w o = absurd o

module _ (names : Names) where
  -- The words of a piece, the symbols between the factors under their own names.
  abbrev pub with_one : List ℕ → ℕ → List ℕ → List ℕ
  with_one a x w = map names.nsyid a ++ x ∷ w

  pub one_assoc : (a : List ℕ) (x : ℕ) (u w : List ℕ) → with_one a x u ++ w ≡ with_one a x (u ++ w)
  one_assoc a x u w = append_assoc (map names.nsyid a) (x ∷ u) w

  pub two_assoc :
      (a : List ℕ) (x : ℕ) (b : List ℕ) (y : ℕ) (u w : List ℕ)
      → with_one a x (with_one b y u) ++ w ≡ with_one a x (with_one b y (u ++ w))
  two_assoc a x b y u w =
      one_assoc a x (with_one b y u) w ∙ ap (λ t. with_one a x t) (one_assoc b y u w)

module _ (xsys : List Xsy) (names : Names) (irls : List Irl) (rule_id : ℕ) where
  pub last_one_lem :
      (a : List ℕ) (x : ℕ) (b : List ℕ) (c : Bool) (w : List ℕ)
      → no_factor xsys a ≡ true
      → factor xsys x ≡ true
      → no_factor xsys b ≡ true
      → (has_solid xsys a || has_solid xsys b) ≡ c
      → OneOf irls rule_id (last_one_turns names a x b c) w ↔ Variant xsys names (a ++ x ∷ b) w true
  last_one_lem a x b c w ha f hb e = (
    λ o. elim o [
      | inl p ↦ rw p (
          open_as_is xsys names a x b (map names.nsyid b) (has_solid xsys b) ha f
            (names_variant xsys names b hb))
      | inr q ↦
          let (g, p) =
            of_optional irls rule_id c
              (ends (with_one names a (names.nulling_nsyid x) (map names.nsyid b))) w q in
          rw p (
            open_nulled xsys names a x b (map names.nsyid b) (has_solid xsys b) ha f
              (names_variant xsys names b hb) (e ∙ g))
    ],
    λ v.
        let (w', b', v', k) = opened xsys names a x b w ha f v in
        let (p, q) = only_names xsys names b w' b' hb v' in
        elim k [
          | inl r ↦ inl (r ∙ ap (λ t. with_one names a (names.nsyid x) t) p)
          | inr (r, s) ↦ inr (
              optional_turn irls rule_id c
                (ends (with_one names a (names.nulling_nsyid x) (map names.nsyid b))) w
                (ground (arith, s, q, e))
                (r ∙ ap (λ t. with_one names a (names.nulling_nsyid x) t) p))
        ],
  )

  module _ (agree : (x : ℕ) → nulling xsys x ≡ true → names.nulling_nsyid x ≡ names.nsyid x)
      (a : List ℕ) (x : ℕ) (b d : List ℕ) (v : ℕ) (c : Bool) (ha : no_factor xsys a ≡ true)
      (f : factor xsys x ≡ true) (hb : no_factor xsys b ≡ true) (hd : has_solid xsys d ≡ false)
      (e : (has_solid xsys a || has_solid xsys b) ≡ c)
      (virtual : (w : List ℕ) → Expands irls rule_id v w ↔ Variant xsys names d w true) where
    all_null :
        Variant xsys names
          (b ++ d)
          (map names.nsyid b ++ map names.nulling_nsyid d)
          (has_solid xsys b || false)
    all_null =
        prefix xsys names b d (map names.nulling_nsyid d) false hb (nulled xsys names d agree hd)

    tail_to :
        (w : List ℕ)
        → OneOf irls rule_id (tail_turns names a x b d v c) w
        → Variant xsys names (a ++ x ∷ (b ++ d)) w true
    tail_to w (inl (w', g, p)) = rw (p ∙ one_assoc names a (names.nsyid x) (map names.nsyid b) w') (
        open_as_is xsys names a x (b ++ d) (map names.nsyid b ++ w') (has_solid xsys b || true) ha f
          (prefix xsys names b d w' true hb ((virtual w').0 g)))
    tail_to w (inr (inl p)) = rw p (
        open_as_is xsys names a x (b ++ d) (map names.nsyid b ++ map names.nulling_nsyid d)
          (has_solid xsys b || false) ha f all_null)
    tail_to w (inr (inr (inl (w', g, p)))) =
        rw (p ∙ one_assoc names a (names.nulling_nsyid x) (map names.nsyid b) w') (
          open_nulled xsys names a x (b ++ d) (map names.nsyid b ++ w') (has_solid xsys b || true)
            ha f (prefix xsys names b d w' true hb ((virtual w').0 g)) (ground arith))
    tail_to w (inr (inr (inr q))) =
        let (g, p) =
          of_optional irls rule_id c
            (ends (
              with_one names a (names.nulling_nsyid x)
                (map names.nsyid b ++ map names.nulling_nsyid d)))
            w q in
        rw p (
          open_nulled xsys names a x (b ++ d) (map names.nsyid b ++ map names.nulling_nsyid d)
            (has_solid xsys b || false) ha f all_null (ground (arith, e, g)))

    -- By whether `x` is as it is, and whether something in `d` is not nulling.
    tail_from :
        (w : List ℕ)
        → Variant xsys names (a ++ x ∷ (b ++ d)) w true
        → OneOf irls rule_id (tail_turns names a x b d v c) w
    tail_from w u =
        let (w1, b1, u1, k) = opened xsys names a x (b ++ d) w ha f u in
        let (w2, b2, u2, p, q) = prefixed xsys names b d w1 b1 hb u1 in
        elim (Bool-cases b2) [
          | inl t ↦
              let g = (virtual w2).1 (rw t at u2) in
              elim k [
                | inl r ↦ inl (
                  w2,
                  g,
                  r
                      ∙ ap (λ y. with_one names a (names.nsyid x) y) p
                      ∙ sym (one_assoc names a (names.nsyid x) (map names.nsyid b) w2),
                )
                | inr (r, s) ↦ inr (
                    inr (
                      inl (
                        w2,
                        g,
                        r
                            ∙ ap (λ y. with_one names a (names.nulling_nsyid x) y) p
                            ∙ sym
                                (one_assoc names a (names.nulling_nsyid x) (map names.nsyid b) w2),
                      )))
              ]
          | inr t ↦
              let g = only_nulled xsys names d w2 agree (rw t at u2) in
              let p' = p ∙ ap (λ y. map names.nsyid b ++ y) g in
              elim k [
                | inl r ↦ inr (inl (r ∙ ap (λ y. with_one names a (names.nsyid x) y) p'))
                | inr (r, s) ↦ inr (
                    inr (
                      inr (
                        optional_turn irls rule_id c
                          (ends (
                            with_one names a (names.nulling_nsyid x)
                              (map names.nsyid b ++ map names.nulling_nsyid d)))
                          w (ground (arith, s, q, t, e))
                          (r ∙ ap (λ y. with_one names a (names.nulling_nsyid x) y) p'))))
              ]
        ]

    pub tail_lem :
        (w : List ℕ)
        → OneOf irls rule_id (tail_turns names a x b d v c) w
          ↔ Variant xsys names (a ++ x ∷ (b ++ d)) w true
    tail_lem w = (tail_to w, tail_from w)
