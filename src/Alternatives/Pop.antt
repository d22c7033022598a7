-- ===== src/Alternatives/Pop.antt =====
-- Popping the alternatives that end by an earleme.
use marpa_r.Prelude.{
  ℕ, zero, suc, ◌≤◌, ◌<◌, ◌≡◌, refl, sym, ap, subst, List, [], ◌∷◌, ◌++◌, Option, none, some,
  length, get_or, length-append, inl, inr, ltb, arith, Bool-cases,
}
use marpa_r.Alternatives.{Alternative, blank_alternative, below_top, alternative_pop}
use marpa_r.Alternatives.Search.{Before, Sorted}

top_last :
    (a : Alternative) (es : List Alternative)
    → a ∷ es ≡ below_top (a ∷ es) ++ get_or (a ∷ es) (length es) blank_alternative ∷ []
unfolding below_top
top_last a [] = refl
top_last a (b ∷ es) = ap (λ xs. a ∷ xs) (top_last b es)

get_or-below :
    (es : List Alternative) (x : Alternative) (i : ℕ)
    → i < length es
    → get_or (es ++ x ∷ []) i blank_alternative ≡ get_or es i blank_alternative
get_or-below [] x i l = elim l [ ]
get_or-below (e ∷ es) x zero l = refl
get_or-below (e ∷ es) x (suc i) l = get_or-below es x i (omega arith)

get_or-top :
    (es : List Alternative) (x : Alternative)
    → get_or (es ++ x ∷ []) (length es) blank_alternative ≡ x
get_or-top [] x = refl
get_or-top (e ∷ es) x = get_or-top es x

-- The outcome of `alternative_pop`: nothing, as every entry ends later than `earleme`; or the top
-- entry, which ends by then and no later than the rest.
pub data Popped (es : List Alternative) (earleme : ℕ)
    : List Alternative × Option Alternative → Type 0 where
  kept :
      ((i : ℕ) → i < length es → earleme < (get_or es i blank_alternative).end_earleme)
      → Popped es earleme (es, none)
  popped :
      (rest : List Alternative) (top : Alternative)
      → es ≡ rest ++ top ∷ []
      → top.end_earleme ≤ earleme
      → Sorted rest
      → ((i : ℕ)
          → i < length rest
          → top.end_earleme ≤ (get_or rest i blank_alternative).end_earleme)
      → Popped es earleme (rest, some top)

module _ (rest : List Alternative) (top : Alternative) (s : Sorted (rest ++ top ∷ [])) where
  rest-Sorted : Sorted rest
  rest-Sorted = record {
    ordered = λ i j h l.
        let o = s.ordered i j h (omega (arith, length-append rest (top ∷ []))) in
        subst (λ x. Before x (get_or rest j blank_alternative))
          (get_or-below rest top i (omega arith))
          (subst (λ x. Before (get_or (rest ++ top ∷ []) i blank_alternative) x)
            (get_or-below rest top j l) o);
  }

  top_least :
      (i : ℕ) → i < length rest → top.end_earleme ≤ (get_or rest i blank_alternative).end_earleme
  top_least i l =
      let o = s.ordered i (length rest) l (omega (arith, length-append rest (top ∷ []))) in
      let o' : Before (get_or rest i blank_alternative) top =
        subst (λ x. Before x top) (get_or-below rest top i l)
          (subst (λ x. Before (get_or (rest ++ top ∷ []) i blank_alternative) x)
            (get_or-top rest top) o) in
      ground (arith, o'.less)

  all_later :
      (earleme : ℕ)
      → earleme < top.end_earleme
      → (i : ℕ) → i < length (rest ++ top ∷ [])
      → earleme < (get_or (rest ++ top ∷ []) i blank_alternative).end_earleme
  all_later earleme e i l = elim (Bool-cases (ltb i (length rest))) [
    | inl low ↦
        let h : i < length rest = ground (arith, low) in
        rw (get_or-below rest top i h) (omega (arith, e, top_least i h))
    | inr high ↦
        let p : i ≡ length rest = ground (arith, high, l, length-append rest (top ∷ [])) in
        rw (p, get_or-top rest top) e
  ]

-- On a sorted stack, `alternative_pop` leaves it alone only if every alternative ends later than
-- the earleme; otherwise it takes off the top one, which ends by then and no later than the
-- others, and the stack stays sorted.
pub alternative_pop_lem :
    (es : List Alternative) (earleme : ℕ)
    → Sorted es
    → Popped es earleme (alternative_pop es earleme)
unfolding alternative_pop
alternative_pop_lem [] earleme s = kept (λ i l. elim l [ ])
alternative_pop_lem (a ∷ es) earleme s =
    let rest = below_top (a ∷ es) in
    let top = get_or (a ∷ es) (length es) blank_alternative in
    let e : a ∷ es ≡ rest ++ top ∷ [] = top_last a es in
    let s' : Sorted (rest ++ top ∷ []) = subst Sorted e s in
    elim (Bool-cases (ltb earleme top.end_earleme)) [
      | inl later ↦ rw later (
          kept (λ i l.
            subst (λ xs. i < length xs → earleme < (get_or xs i blank_alternative).end_earleme)
              (sym e) (all_later rest top s' earleme (ground (arith, later)) i) l))
      | inr by_then ↦ rw by_then (
          popped rest top e (ground (arith, by_then)) (rest-Sorted rest top s')
            (top_least rest top s'))
    ]
