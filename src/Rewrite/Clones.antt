-- ===== src/Rewrite/Clones.antt =====
-- The internal symbols that the loop over the external symbols makes.
pub mod Loop
use marpa_r.Prelude.{
  ℕ, zero, suc, ◌+◌, ◌-◌, ◌≤◌, ◌<◌, ◌≡◌, ◌≢◌, refl, ◌∙◌, sym, subst, Bool, true, ◌||◌, List, [],
  ◌∷◌, ◌++◌, Option, none, some, length, length-modify, modify, get_or, get_elem?, get_or-modify_ne,
  arith, ◌⊎◌, inl, inr,
}
use marpa_r.Grammar.{Xsy, blank_xsy}
use marpa_r.Rewrite.{Nsy, Rewriting}
use marpa_r.Rewrite.Variants.{nulling}

-- Entry `n` is a semantic symbol for the external symbol `x`.
pub record Entry (nsys : List Nsy) (n x : ℕ) (is_nulling : Bool) : Type 0 where
  pub nsy : Nsy
  pub place : get_elem? nsys n ≡ some nsy
  pub semantic : nsy.is_semantic ≡ true
  pub source : nsy.source_xsy ≡ some x
  pub nulls : nsy.is_nulling ≡ is_nulling

lt-or-eq : (x d : ℕ) → x < suc d → (x < d) ⊎ (x ≡ d)
lt-or-eq x d h = ground (arith, h)

get_elem?-append_left :
    (xs ys : List Nsy) (n : ℕ) (y : Nsy) → get_elem? xs n ≡ some y → get_elem? (xs ++ ys) n ≡ some y
get_elem?-append_left [] ys n y e = absurd (ground (arith, e))
get_elem?-append_left (x ∷ xs) ys zero y e = e
get_elem?-append_left (x ∷ xs) ys (suc n) y e = get_elem?-append_left xs ys n y e

pub get_elem?-append_at :
    (xs ys : List Nsy) (y : Nsy) → get_elem? (xs ++ y ∷ ys) (length xs) ≡ some y
get_elem?-append_at [] ys y = refl
get_elem?-append_at (x ∷ xs) ys y = get_elem?-append_at xs ys y

pub get_elem?-length : (xs : List Nsy) (n : ℕ) (y : Nsy) → get_elem? xs n ≡ some y → n < length xs
get_elem?-length [] n y e = absurd (ground (arith, e))
get_elem?-length (x ∷ xs) zero y e = omega arith
get_elem?-length (x ∷ xs) (suc n) y e = omega (arith, get_elem?-length xs n y e)

pub Entry-append : (xs ys : List Nsy) (n x : ℕ) (b : Bool) → Entry xs n x b → Entry (xs ++ ys) n x b
Entry-append xs ys n x b t = record {
  nsy = t.nsy;
  place = get_elem?-append_left xs ys n t.nsy t.place;
  semantic = t.semantic;
  source = t.source;
  nulls = t.nulls;
}

-- A pointer to such an entry.
abbrev pub Points : List Nsy → List (Option ℕ) → ℕ → Bool → Type 0
Points nsys table x b = (n : ℕ) × (get_or table x none ≡ some n) × Entry nsys n x b

-- What holds of the symbol `x` once it has been cloned.
pub record Slot (xsys : List Xsy) (s : Rewriting) (x : ℕ) : Type 0 where
  pub agree :
      nulling xsys x ≡ true → get_or s.nulling_nsy_of_xsy x none ≡ get_or s.nsy_of_xsy x none
  pub symbol :
      (get_or xsys x blank_xsy).is_accessible ≡ true
      → (get_or xsys x blank_xsy).is_productive ≡ true
      → Points s.nsys s.nsy_of_xsy x (nulling xsys x)
  pub alias :
      (get_or xsys x blank_xsy).is_accessible ≡ true
      → (get_or xsys x blank_xsy).is_productive ≡ true
      → (nulling xsys x || (get_or xsys x blank_xsy).is_nullable) ≡ true
      → Points s.nsys s.nulling_nsy_of_xsy x true

-- The state when the symbols before `d` have been cloned.
pub record Cloned (xsys : List Xsy) (d : ℕ) (s : Rewriting) : Type 0 where
  pub size : length s.nsy_of_xsy ≡ length xsys
  pub nulling_size : length s.nulling_nsy_of_xsy ≡ length xsys
  pub no_rules : s.irls ≡ []
  pub slot : (x : ℕ) → x < d → Slot xsys s x
  pub none_yet :
      (x : ℕ)
      → d ≤ x
      → (get_or s.nsy_of_xsy x none ≡ none) × (get_or s.nulling_nsy_of_xsy x none ≡ none)

-- A write to the entry `d` of a table, or none.
unfoldable pub Wrote : ℕ → List (Option ℕ) → List (Option ℕ) → Type 0
Wrote d t t' = (length t' ≡ length t) × ((x : ℕ) → x ≢ d → get_or t' x none ≡ get_or t x none)

pub Wrote-same : (d : ℕ) (t : List (Option ℕ)) → Wrote d t t
unfolding Wrote
Wrote-same d t = (refl, λ x h. refl)

pub Wrote-modify : (d n : ℕ) (t : List (Option ℕ)) → Wrote d t (modify t d (λ _. some n))
unfolding Wrote
Wrote-modify d n t = (
  length-modify t d (λ _. some n),
  λ x h. get_or-modify_ne t d x (λ _. some n) none (λ e. h (sym e)),
)

Points-kept :
    (nsys more : List Nsy) (d : ℕ) (t t' : List (Option ℕ)) (x : ℕ) (b : Bool)
    → x ≢ d
    → Wrote d t t'
    → Points nsys t x b
    → Points (nsys ++ more) t' x b
unfolding Wrote
Points-kept nsys more d t t' x b h w (n, e, p) = (n, w.1 x h ∙ e, Entry-append nsys more n x b p)

-- One round, from what it does to the tables and from the new slot.
pub Cloned-step :
    (xsys : List Xsy) (d : ℕ) (s s' : Rewriting) (more : List Nsy)
    → Cloned xsys d s
    → s'.nsys ≡ s.nsys ++ more
    → s'.irls ≡ s.irls
    → Wrote d s.nsy_of_xsy s'.nsy_of_xsy
    → Wrote d s.nulling_nsy_of_xsy s'.nulling_nsy_of_xsy
    → Slot xsys s' d
    → Cloned xsys (suc d) s'
unfolding Wrote
Cloned-step xsys d s s' more c e r w w' slot_d = record {
  size = w.0 ∙ c.size;
  nulling_size = w'.0 ∙ c.nulling_size;
  no_rules = r ∙ c.no_rules;
  slot = λ x l. elim (lt-or-eq x d l) [
    | inl h ↦
        let o = c.slot x h in
        let ne : x ≢ d = λ p. absurd (omega (arith, p, h)) in
        record {
          agree = λ n. w'.1 x ne ∙ o.agree n ∙ sym (w.1 x ne);
          symbol = λ a p.
              subst (λ z. Points z s'.nsy_of_xsy x (nulling xsys x)) (sym e)
                (Points-kept s.nsys more d s.nsy_of_xsy s'.nsy_of_xsy x (nulling xsys x) ne w
                  (o.symbol a p));
          alias = λ a p n.
              subst (λ z. Points z s'.nulling_nsy_of_xsy x true) (sym e)
                (Points-kept s.nsys more d s.nulling_nsy_of_xsy s'.nulling_nsy_of_xsy x true ne w'
                  (o.alias a p n));
        }
    | inr h ↦ subst (Slot xsys s') (sym h) slot_d
  ];
  none_yet = λ x l.
      let ne : x ≢ d = λ p. absurd (omega (arith, p, l)) in
      let (p, q) = c.none_yet x (omega (arith, l)) in (w.1 x ne ∙ p, w'.1 x ne ∙ q);
}
