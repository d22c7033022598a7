-- ===== src/Rewrite/Expansion.antt =====
-- What the internal rules that stand for one external rule generate, when a virtual symbol at the
-- end of a right side is replaced by what the rules for it generate.
use marpa_r.Prelude.{
  ℕ, ◌≡◌, refl, ap, ◌∙◌, sym, subst, Bool, true, false, ◌⊎◌, inl, inr, List, [], ◌∷◌, ◌++◌, some,
  arith,
}
use mathlib.Core.List.{Memᴰ}
use mathlib.Core.List.Memᴰ
use marpa_r.Rewrite.{Irl}

-- `w` is what rules with the source `rule_id` generate from the internal symbol `l`.
pub data Expands (irls : List Irl) (rule_id : ℕ) : ℕ → List ℕ → Type 0 where
  whole :
      {l : ℕ} {w : List ℕ} (irl : Irl)
      → Memᴰ irl irls
      → irl.source_xrl ≡ some rule_id
      → irl.lhs ≡ l
      → irl.has_virtual_rhs ≡ false
      → w ≡ irl.rhs
      → Expands irls rule_id l w
  chained :
      {l : ℕ} {w : List ℕ} (irl : Irl) (u : List ℕ) (v : ℕ) (w' : List ℕ)
      → Memᴰ irl irls
      → irl.source_xrl ≡ some rule_id
      → irl.lhs ≡ l
      → irl.has_virtual_rhs ≡ true
      → irl.rhs ≡ u ++ v ∷ []
      → Expands irls rule_id v w'
      → w ≡ u ++ w'
      → Expands irls rule_id l w

-- The right side of a rule: it ends there, or goes on at a virtual symbol.
pub data Turn : Type 0 where
  ends : List ℕ → Turn
  goes : List ℕ → ℕ → Turn

abbrev pub has_virtual : Turn → Bool
has_virtual (ends w) = false
has_virtual (goes u v) = true

abbrev pub turn_rhs : Turn → List ℕ
turn_rhs (ends w) = w
turn_rhs (goes u v) = u ++ v ∷ []

snoc_init : (u u' : List ℕ) (v v' : ℕ) → u ++ v ∷ [] ≡ u' ++ v' ∷ [] → (u ≡ u') × (v ≡ v')
snoc_init [] [] v v' e = ground (arith, e)
snoc_init [] (x ∷ []) v v' e = absurd (ground (arith, e))
snoc_init [] (x ∷ y ∷ u') v v' e = absurd (ground (arith, e))
snoc_init (x ∷ []) [] v v' e = absurd (ground (arith, e))
snoc_init (x ∷ y ∷ u) [] v v' e = absurd (ground (arith, e))
snoc_init (x ∷ u) (y ∷ u') v v' e =
    let (p, q) = snoc_init u u' v v' (ground (arith, e)) in
    let r : x ≡ y = ground (arith, e) in (rw (p, r) refl, q)

module _ (rule_id : ℕ) where
  abbrev pub Shows : ℕ → Irl → Turn → Type 0
  Shows l irl t =
      (irl.source_xrl ≡ some rule_id)
      × (irl.lhs ≡ l)
      × (irl.has_virtual_rhs ≡ has_virtual t)
      × (irl.rhs ≡ turn_rhs t)

  -- The rules of one left side, in order, with the turns that they show.
  abbrev pub Shape : ℕ → List Irl → List Turn → Type 0
  Shape l [] [] = Unit
  Shape l [] (t ∷ ts) = ⊥
  Shape l (irl ∷ is) [] = ⊥
  Shape l (irl ∷ is) (t ∷ ts) = Shows l irl t × Shape l is ts

module _ (irls : List Irl) (rule_id : ℕ) where
  abbrev pub Match : Turn → List ℕ → Type 0
  Match (ends u) w = w ≡ u
  Match (goes u v) w = (w' : List ℕ) × Expands irls rule_id v w' × (w ≡ u ++ w')

  abbrev pub OneOf : List Turn → List ℕ → Type 0
  OneOf [] w = ⊥
  OneOf (t ∷ ts) w = Match t w ⊎ OneOf ts w

  -- A turn taken with one rule.
  Taken : Irl → List ℕ → Type 0
  Taken irl w =
      ((irl.has_virtual_rhs ≡ false) × (w ≡ irl.rhs))
      ⊎ ((u : List ℕ) × (v : ℕ) × (w' : List ℕ) × (irl.has_virtual_rhs ≡ true)
          × (irl.rhs ≡ u ++ v ∷ [])
          × Expands irls rule_id v w'
          × (w ≡ u ++ w'))

  matched :
      (l : ℕ) (irl : Irl) (t : Turn) (w : List ℕ) → Shows rule_id l irl t → Taken irl w → Match t w
  unfolding Taken
  matched l irl (ends u) w (s, e, h, r) (inl (g, p)) = p ∙ r
  matched l irl (ends u) w (s, e, h, r) (inr (u', v, w', g, q, d, p)) =
      absurd (ground (arith, g, h))
  matched l irl (goes u v) w (s, e, h, r) (inl (g, p)) = absurd (ground (arith, g, h))
  matched l irl (goes u v) w (s, e, h, r) (inr (u', v', w', g, q, d, p)) =
      let (i, j) = snoc_init u' u v' v (sym q ∙ r) in
      (w', subst (λ n. Expands irls rule_id n w') j d, p ∙ ap (λ y. y ++ w') i)

  found :
      (is : List Irl) (l : ℕ) (ts : List Turn) (irl : Irl) (w : List ℕ)
      → Shape rule_id l is ts
      → Memᴰ irl is
      → Taken irl w
      → OneOf ts w
  found [] l ts irl w s m t = absurd (Memᴰ.not-nil m)
  found (i ∷ is) l [] irl w s m t = absurd s
  found (i ∷ is) l (u ∷ ts) irl w s (Memᴰ.head e) t =
      inl (matched l i u w s.0 (subst (λ j. Taken j w) e t))
  found (i ∷ is) l (u ∷ ts) irl w s (Memᴰ.tail m) t = inr (found is l ts irl w s.1 m t)

  -- Where `is` are all the rules of `l`, their turns are all there is.
  pub first_turn :
      (is : List Irl) (l : ℕ) (ts : List Turn) (w : List ℕ)
      → Shape rule_id l is ts
      → ((irl : Irl) → Memᴰ irl irls → irl.source_xrl ≡ some rule_id → irl.lhs ≡ l → Memᴰ irl is)
      → Expands irls rule_id l w
      → OneOf ts w
  unfolding Taken
  first_turn is l ts w s own (whole irl m p e h q) =
      found is l ts irl w s (own irl m p e) (inl (h, q))
  first_turn is l ts w s own (chained irl u v w' m p e h r d q) =
      found is l ts irl w s (own irl m p e) (inr (u, v, w', h, r, d, q))

  pub take_turn :
      (is : List Irl) (l : ℕ) (ts : List Turn) (w : List ℕ)
      → Shape rule_id l is ts
      → ((irl : Irl) → Memᴰ irl is → Memᴰ irl irls)
      → OneOf ts w
      → Expands irls rule_id l w
  take_turn is l [] w s sub o = absurd o
  take_turn [] l (t ∷ ts) w s sub o = absurd s
  take_turn (i ∷ is) l (ends u ∷ ts) w s sub (inl p) =
      let (a, b, c, d) = s.0 in whole i (sub i (Memᴰ.head refl)) a b c (p ∙ sym d)
  take_turn (i ∷ is) l (goes u v ∷ ts) w s sub (inl (w', p, q)) =
      let (a, b, c, d) = s.0 in chained i u v w' (sub i (Memᴰ.head refl)) a b c d p q
  take_turn (i ∷ is) l (t ∷ ts) w s sub (inr o) =
      take_turn is l ts w s.1 (λ j m. sub j (Memᴰ.tail m)) o
