-- ===== src/Rewrite/Turns/Two.antt =====
-- The turns of the pieces with two factors, and the variants of the right side from the piece on.
use marpa_r.Prelude.{
  ℕ, ◌≡◌, refl, ap, ◌∙◌, sym, ◌↔◌, Bool, true, false, ◌||◌, inl, inr, List, [], ◌∷◌, ◌++◌, map,
  arith, if◌then◌else◌,
}
use marpa_r.Grammar.{Xsy}
use marpa_r.Rewrite.{Irl, Names}
use marpa_r.Rewrite.Variants.{
  factor, no_factor, has_solid, Variant, prefixed, prefix, opened, open_as_is, open_nulled, live,
  only_names, names_variant,
}
use marpa_r.Rewrite.Expansion.{Expands, ends, goes, Match, OneOf}
use marpa_r.Rewrite.Turns.{two_words, inner_turns, last_two_turns}
use marpa_r.Rewrite.Turns.One.{with_one, two_assoc, of_optional}

module _ (xsys : List Xsy) (names : Names) (irls : List Irl) (rule_id : ℕ) where
  module _ (a : List ℕ) (x : ℕ) (b : List ℕ) (y : ℕ) (r : List ℕ) (ha : no_factor xsys a ≡ true)
      (f : factor xsys x ≡ true) (hb : no_factor xsys b ≡ true) (g : factor xsys y ≡ true) where
    -- What the choices `s` and `t`, and `e` for the rest, say of the whole.
    abbrev awake : Bool → Bool → Bool → Bool
    awake s t e = s || (has_solid xsys a || (t || (has_solid xsys b || e)))

    two_inner :
        (t : Bool) (w : List ℕ) (e : Bool)
        → Variant xsys names r w e
        → Variant xsys names
            (b ++ y ∷ r)
            (map names.nsyid b ++ (if t then names.nsyid y else names.nulling_nsyid y) ∷ w)
            (t || (has_solid xsys b || e))
    two_inner true w e v = open_as_is xsys names b y r w e hb g v
    two_inner false w e v =
        prefix xsys names b (y ∷ r) (names.nulling_nsyid y ∷ w) e hb (w, e, v, inr (g, refl, refl))

    two_to :
        (s t : Bool) (w : List ℕ) (e : Bool)
        → Variant xsys names r w e
        → awake s t e ≡ true
        → Variant xsys names (a ++ x ∷ (b ++ y ∷ r)) (two_words names a x b y s t w) true
    two_to true t w e v k =
        open_as_is xsys names a x (b ++ y ∷ r) _ (t || (has_solid xsys b || e)) ha f
          (two_inner t w e v)
    two_to false t w e v k =
        open_nulled xsys names a x (b ++ y ∷ r) _ (t || (has_solid xsys b || e)) ha f
          (two_inner t w e v) k

    inner_from :
        (w : List ℕ) (e : Bool)
        → Variant xsys names (b ++ y ∷ r) w e
        → (t : Bool) × (w' : List ℕ) × (e' : Bool) × Variant xsys names r w' e'
          × (w ≡ map names.nsyid b ++ (if t then names.nsyid y else names.nulling_nsyid y) ∷ w')
          × (e ≡ (t || (has_solid xsys b || e')))
    inner_from w e v =
        let (w1, e1, (w', e', v', k), p, q) = prefixed xsys names b (y ∷ r) w e hb v in
        elim k [
          | inl (i, j) ↦
              (true, w', e', v', p ∙ ap (λ z. map names.nsyid b ++ z) i, ground (arith, q, j, g))
          | inr (h, i, j) ↦
              (false, w', e', v', p ∙ ap (λ z. map names.nsyid b ++ z) i, ground (arith, q, j))
        ]

    two_from :
        (w : List ℕ)
        → Variant xsys names (a ++ x ∷ (b ++ y ∷ r)) w true
        → (s t : Bool) × (w' : List ℕ) × (e : Bool) × Variant xsys names r w' e
          × (w ≡ two_words names a x b y s t w')
          × (awake s t e ≡ true)
    two_from w v =
        let (w1, e1, v1, k) = opened xsys names a x (b ++ y ∷ r) w ha f v in
        let (t, w', e', v', p, q) = inner_from w1 e1 v1 in
        elim k [
          | inl i ↦ (true, t, w', e', v', i ∙ ap (λ z. with_one names a (names.nsyid x) z) p, refl)
          | inr (i, j) ↦ (
            false,
            t,
            w',
            e',
            v',
            i ∙ ap (λ z. with_one names a (names.nulling_nsyid x) z) p,
            ground (arith, q, j),
          )
        ]

    inner_turn :
        (v : ℕ) (s t : Bool) (w : List ℕ)
        → Match irls rule_id (goes (two_words names a x b y s t []) v) w
        → OneOf irls rule_id (inner_turns names a x b y v) w
    inner_turn v true true w m = inl m
    inner_turn v true false w m = inr (inl m)
    inner_turn v false true w m = inr (inr (inl m))
    inner_turn v false false w m = inr (inr (inr (inl m)))

    of_inner_turns :
        (v : ℕ) (w : List ℕ)
        → OneOf irls rule_id (inner_turns names a x b y v) w
        → (s t : Bool) × Match irls rule_id (goes (two_words names a x b y s t []) v) w
    of_inner_turns v w (inl m) = (true, true, m)
    of_inner_turns v w (inr (inl m)) = (true, false, m)
    of_inner_turns v w (inr (inr (inl m))) = (false, true, m)
    of_inner_turns v w (inr (inr (inr (inl m)))) = (false, false, m)
    of_inner_turns v w (inr (inr (inr (inr o)))) = absurd o

    -- Where something behind `y` is solid.
    pub inner_lem :
        (v : ℕ) (w : List ℕ)
        → has_solid xsys r ≡ true
        → ((w' : List ℕ) → Expands irls rule_id v w' ↔ Variant xsys names r w' true)
        → OneOf irls rule_id (inner_turns names a x b y v) w
          ↔ Variant xsys names (a ++ x ∷ (b ++ y ∷ r)) w true
    inner_lem v w h virtual = (
      λ o.
          let (s, t, m) = of_inner_turns v w o in
          let (w', d, p) = m in
          rw (p ∙ two_assoc names a _ b _ [] w')
            (two_to s t w' true ((virtual w').0 d) (ground arith)),
      λ u.
          let (s, t, w', e, d, p, k) = two_from w u in
          let e' = live xsys names r w' e h d in
          inner_turn v s t w
            (w', (virtual w').1 (rw e' at d), p ∙ sym (two_assoc names a _ b _ [] w')),
    )

    last_two_turn :
        (s t c : Bool) (w : List ℕ)
        → (s || (t || c)) ≡ true
        → w ≡ two_words names a x b y s t (map names.nsyid r)
        → OneOf irls rule_id (last_two_turns names a x b y r c) w
    last_two_turn true true c w e m = inl m
    last_two_turn true false c w e m = inr (inl m)
    last_two_turn false true c w e m = inr (inr (inl m))
    last_two_turn false false true w e m = inr (inr (inr (inl m)))
    last_two_turn false false false w e m = absurd (ground (arith, e))

    of_last_two_turns :
        (c : Bool) (w : List ℕ)
        → OneOf irls rule_id (last_two_turns names a x b y r c) w
        → (s t : Bool) × (w ≡ two_words names a x b y s t (map names.nsyid r))
          × ((s || (t || c)) ≡ true)
    of_last_two_turns c w (inl m) = (true, true, m, refl)
    of_last_two_turns c w (inr (inl m)) = (true, false, m, refl)
    of_last_two_turns c w (inr (inr (inl m))) = (false, true, m, refl)
    of_last_two_turns c w (inr (inr (inr o))) =
        let (e, m) =
          of_optional irls rule_id c
            (ends (two_words names a x b y false false (map names.nsyid r))) w o in
        (false, false, m, e)

    -- Where no factor is behind `y`.
    pub last_two_lem :
        (c : Bool) (w : List ℕ)
        → no_factor xsys r ≡ true
        → (has_solid xsys a || (has_solid xsys b || has_solid xsys r)) ≡ c
        → OneOf irls rule_id (last_two_turns names a x b y r c) w
          ↔ Variant xsys names (a ++ x ∷ (b ++ y ∷ r)) w true
    last_two_lem c w hr q = (
      λ o.
          let (s, t, p, k) = of_last_two_turns c w o in
          rw p (
            two_to s t (map names.nsyid r) (has_solid xsys r) (names_variant xsys names r hr)
              (ground (arith, k, q))),
      λ u.
          let (s, t, w', e, d, p, k) = two_from w u in
          let (i, j) = only_names xsys names r w' e hr d in
          last_two_turn s t c w (ground (arith, k, j, q))
            (p ∙ ap (λ z. two_words names a x b y s t z) i),
    )
