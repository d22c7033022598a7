-- ===== src/Grammar/Preserve.antt =====
-- Each change of `Change` keeps the invariant.
use marpa_r.Prelude.{
  ℕ, ◌≤◌, ◌≡◌, refl, Bool, true, not, ◌&&◌, inl, inr, List, [], ◌∷◌, map, All, length, get_or,
  modify, length-modify, map-modify, All-map, arith, Bool-cases,
}
use marpa_r.Grammar.{Xsy, Xrl, blank_xsy}
use marpa_r.Grammar.Symbols.{force_valued_loop}
use marpa_r.Grammar.Change.{IsSymbol, KeepsRoles}
use marpa_r.Grammar.Invariant.{CountUp, IsRule}
use marpa_r.Grammar.Tables.{Grows, Grows-modify, map-modify-true, All-modify_at, IsRule-mono}

abbrev pub lhs_flags : List Xsy → List Bool
lhs_flags = map (λ x. x.is_lhs)

abbrev pub sequence_flags : List Xsy → List Bool
sequence_flags = map (λ x. x.is_sequence_lhs)

abbrev pub Rules : List Xsy → List Xrl → Type 0
Rules xsys = All (IsRule (length xsys) (lhs_flags xsys) (sequence_flags xsys))

-- What the rules ask of a new table of symbols.
pub record Extends (xs ys : List Xsy) : Type 0 where
  pub longer : length xs ≤ length ys
  pub lhs_grow : Grows (lhs_flags xs) (lhs_flags ys)
  pub sequence_grow : Grows (sequence_flags xs) (sequence_flags ys)

pub Rules-Extends : (xs ys : List Xsy) (rs : List Xrl) → Extends xs ys → Rules xs rs → Rules ys rs
Rules-Extends xs ys rs e a =
    All-map _ _ rs (λ r v. IsRule-mono _ _ _ _ _ _ r e.longer e.lhs_grow e.sequence_grow v) a

pub Extends-trans : {xs ys zs : List Xsy} → Extends xs ys → Extends ys zs → Extends xs zs
Extends-trans p q = record {
  longer = let a = p.longer in let b = q.longer in omega arith;
  lhs_grow = λ i h. q.lhs_grow i (p.lhs_grow i h);
  sequence_grow = λ i h. q.sequence_grow i (p.sequence_grow i h);
}

pub Grows-eq : {bs cs : List Bool} → cs ≡ bs → Grows bs cs
Grows-eq e i h = rw e h

pub Extends-modify :
    (xs : List Xsy) (i : ℕ) (f : Xsy → Xsy)
    → Grows (lhs_flags xs) (lhs_flags (modify xs i f))
    → Grows (sequence_flags xs) (sequence_flags (modify xs i f))
    → Extends xs (modify xs i f)
Extends-modify xs i f p q = record {
  longer = omega (arith, length-modify {0} xs i f);
  lhs_grow = p;
  sequence_grow = q;
}

pub Extends-roles :
    (xs : List Xsy) (i : ℕ) (f : Xsy → Xsy) → KeepsRoles f → Extends xs (modify xs i f)
Extends-roles xs i f k =
    Extends-modify xs i f (Grows-eq (map-modify _ xs i f (λ x. (k x).1)))
      (Grows-eq (map-modify _ xs i f (λ x. (k x).2)))

abbrev pub as_lhs : Xsy → Xsy
as_lhs x = record x { is_lhs = true }

abbrev pub as_sequence_lhs : Xsy → Xsy
as_sequence_lhs x = record x { is_sequence_lhs = true }

abbrev pub as_counted : Xsy → Xsy
as_counted x = record x { is_counted = true }

pub Extends-lhs : (xs : List Xsy) (i : ℕ) → Extends xs (modify xs i as_lhs)
Extends-lhs xs i =
    Extends-modify xs i as_lhs
      (rw (map-modify-true (λ x. x.is_lhs) xs i as_lhs (λ x. refl)) (Grows-modify (lhs_flags xs) i))
      (Grows-eq (map-modify (λ x. x.is_sequence_lhs) xs i as_lhs (λ x. refl)))

pub Extends-sequence_lhs : (xs : List Xsy) (i : ℕ) → Extends xs (modify xs i as_sequence_lhs)
Extends-sequence_lhs xs i =
    Extends-modify xs i as_sequence_lhs
      (Grows-eq (map-modify (λ x. x.is_lhs) xs i as_sequence_lhs (λ x. refl)))
      (rw (map-modify-true (λ x. x.is_sequence_lhs) xs i as_sequence_lhs (λ x. refl))
        (Grows-modify (sequence_flags xs) i))

-- The invariant of the table of symbols alone.
pub record SymbolsOk (xs : List Xsy) : Type 0 where
  pub symbols : All IsSymbol xs
  pub numbered : CountUp 0 (map (λ x. x.symbol_id) xs)

pub SymbolsOk-modify :
    (xs : List Xsy) (i : ℕ) (f : Xsy → Xsy)
    → ((x : Xsy) → (f x).symbol_id ≡ x.symbol_id)
    → (IsSymbol (get_or xs i blank_xsy) → IsSymbol (f (get_or xs i blank_xsy)))
    → SymbolsOk xs
    → SymbolsOk (modify xs i f)
SymbolsOk-modify xs i f id keep s = record {
  symbols = All-modify_at IsSymbol xs i f blank_xsy keep s.symbols;
  numbered = rw (map-modify (λ x. x.symbol_id) xs i f id) s.numbered;
}

pub force_valued_loop-length : (xs : List Xsy) → length (force_valued_loop xs).0 ≡ length xs
unfolding force_valued_loop
force_valued_loop-length [] = refl
force_valued_loop-length (x ∷ xs) = ground (arith, force_valued_loop-length xs)

pub force_valued_loop-map {ℓ} :
    {B : Type ℓ} (p : Xsy → B) (xs : List Xsy)
    → ((x : Xsy) → p (record x { is_valued = true; is_valued_locked = true }) ≡ p x)
    → map p (force_valued_loop xs).0 ≡ map p xs
unfolding force_valued_loop
force_valued_loop-map p [] h = refl
force_valued_loop-map p (x ∷ xs) h = elim (Bool-cases (not x.is_valued && x.is_valued_locked)) [
  | inl e ↦ rw (e, force_valued_loop)
  | inr e ↦ rw (e, force_valued_loop, h x, force_valued_loop-map p xs h)
]

pub force_valued_loop-symbols :
    (xs : List Xsy) → All IsSymbol xs → All IsSymbol (force_valued_loop xs).0
unfolding force_valued_loop
force_valued_loop-symbols [] a = tt
force_valued_loop-symbols (x ∷ xs) a = elim (Bool-cases (not x.is_valued && x.is_valued_locked)) [
  | inl e ↦ rw (e, force_valued_loop) a
  | inr e ↦ rw (e, force_valued_loop) ((a.0.0, inr refl), force_valued_loop-symbols xs a.1)
]

-- No valued lock without a value: the loop runs to its end.
pub force_valued_loop-done : (xs : List Xsy) → All IsSymbol xs → (force_valued_loop xs).1 ≡ true
unfolding force_valued_loop
force_valued_loop-done [] a = refl
force_valued_loop-done (x ∷ xs) a = ground (arith, force_valued_loop-done xs a.1)
