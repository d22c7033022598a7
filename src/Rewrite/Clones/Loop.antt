-- ===== src/Rewrite/Clones/Loop.antt =====
-- The rounds of the loop that clones the symbols.
use marpa_r.Prelude.{
  ℕ, zero, suc, ◌+◌, ◌-◌, ◌<◌, ◌≡◌, refl, ap, ◌∙◌, sym, subst, Bool, true, false, not, List, [],
  ◌∷◌, ◌++◌, Option, none, some, length, length-append, length-replicate, modify, replicate, get_or,
  get_or-modify_self, negsuc, arith, if◌then◌else◌, ◌⊎◌, inl, inr,
}
use mathlib.Core.List.{append_assoc, append-nil}
use marpa_r.Grammar.{Xsy, blank_xsy}
use marpa_r.Grammar.Tables.{modify-append_last}
use marpa_r.Rewrite.{
  Nsy, Rewriting, scaled_rank, nsy_new, last_nsy, nsy_clone, symbol_alias_create, clone_symbol,
  clone_symbols,
}
use marpa_r.Rewrite.Variants.{nulling}
use marpa_r.Rewrite.Clones.{
  Entry, get_elem?-append_at, Entry-append, Cloned, Wrote-same, Wrote-modify, Cloned-step,
}

-- The semantic symbol for `x`.
made : List Xsy → ℕ → Bool → Nsy
unfolding scaled_rank
made xsys x b = record {
  is_lhs = false;
  is_start = false;
  is_nulling = b;
  is_semantic = true;
  source_xsy = some x;
  lhs_xrl = none;
  xrl_offset = negsuc 0;
  rank = scaled_rank (get_or xsys x blank_xsy).rank 3;
}

last_of :
    (xs : List Nsy) (n : Nsy) (f : Nsy → Nsy)
    → modify (xs ++ n ∷ []) (length (xs ++ n ∷ []) - 1) f ≡ xs ++ f n ∷ []
last_of xs n f =
    let l : length (xs ++ n ∷ []) - 1 ≡ length xs = omega (arith, length-append xs (n ∷ [])) in
    rw l (modify-append_last xs n f)

nsy_clone_lem :
    (xsys : List Xsy) (x : ℕ) (s : Rewriting)
    → (nsy_clone xsys x s).nsys ≡ s.nsys ++ made xsys x (nulling xsys x) ∷ []
unfolding nsy_clone nsy_new last_nsy made
nsy_clone_lem xsys x s = last_of s.nsys _ _

symbol_alias_create_lem :
    (xsys : List Xsy) (x : ℕ) (s : Rewriting)
    → (symbol_alias_create xsys x s).nsys ≡ s.nsys ++ made xsys x true ∷ []
unfolding symbol_alias_create nsy_new last_nsy made
symbol_alias_create_lem xsys x s = last_of s.nsys _ _

Entry-made :
    (xsys : List Xsy) (nsys : List Nsy) (x : ℕ) (b : Bool)
    → Entry (nsys ++ made xsys x b ∷ []) (length nsys) x b
unfolding made
Entry-made xsys nsys x b = record {
  nsy = made xsys x b;
  place = get_elem?-append_at nsys [] (made xsys x b);
  semantic = refl;
  source = refl;
  nulls = refl;
}

-- The body of the loop, by the flags of the symbol.
round : Bool → Bool → Bool → Bool → List Xsy → ℕ → Rewriting → Rewriting
unfolding nsy_clone symbol_alias_create
round acc prod nul able xsys xsyid s =
    if not acc
    then s
    else if not prod
    then s
    else let nsyid = length s.nsys in
      let s1 : Rewriting = record (nsy_clone xsys xsyid s) {
        nsy_of_xsy = modify s.nsy_of_xsy xsyid (λ _. some nsyid);
      } in
      let null_to = λ (n : ℕ). modify s.nulling_nsy_of_xsy xsyid (λ _. some n) in
      if nul
      then record s1 { nulling_nsy_of_xsy = null_to nsyid }
      else if able
      then record (symbol_alias_create xsys xsyid s1) {
        nulling_nsy_of_xsy = null_to (length s1.nsys);
      }
      else s1

module _ (xsys : List Xsy) (d : ℕ) (s : Rewriting) (c : Cloned xsys d s) (h : d < length xsys) where
  written :
      (n : ℕ) (t : List (Option ℕ))
      → length t ≡ length xsys
      → get_or (modify t d (λ _. some n)) d none ≡ some n
  written n t e = get_or-modify_self t d (λ _. some n) none (omega (arith, e, h))

  -- A symbol that is skipped keeps both pointers NULL.
  skipped :
      (get_or xsys d blank_xsy).is_accessible ≡ false
        ⊎ (get_or xsys d blank_xsy).is_productive ≡ false
      → Cloned xsys (suc d) s
  skipped e =
      let (p, q) = c.none_yet d (omega arith) in
      Cloned-step xsys d s s [] c (sym (append-nil s.nsys)) refl (Wrote-same d s.nsy_of_xsy)
        (Wrote-same d s.nulling_nsy_of_xsy)
        (record {
          agree = λ _. q ∙ sym p;
          symbol = λ a b. absurd (ground (arith, a, b, e));
          alias = λ a b _. absurd (ground (arith, a, b, e));
        })

  rounds :
      (acc prod nul able : Bool)
      → (get_or xsys d blank_xsy).is_accessible ≡ acc
      → (get_or xsys d blank_xsy).is_productive ≡ prod
      → nulling xsys d ≡ nul
      → (get_or xsys d blank_xsy).is_nullable ≡ able
      → Cloned xsys (suc d) (round acc prod nul able xsys d s)
  unfolding round nsy_clone symbol_alias_create nsy_new last_nsy
  rounds false prod nul able a p n k = skipped (inl a)
  rounds true false nul able a p n k = skipped (inr p)
  rounds true true true able a p n k =
      let m = length s.nsys in
      let e = nsy_clone_lem xsys d s in
      let entry =
        subst (λ z. Entry z m d (nulling xsys d)) (sym e)
          (Entry-made xsys s.nsys d (nulling xsys d)) in
      let w = written m s.nsy_of_xsy c.size in
      let w' = written m s.nulling_nsy_of_xsy c.nulling_size in
      Cloned-step xsys d s (round true true true able xsys d s) _ c e refl
        (Wrote-modify d m s.nsy_of_xsy) (Wrote-modify d m s.nulling_nsy_of_xsy)
        (record {
          agree = λ _. w' ∙ sym w;
          symbol = λ _ _. (m, w, entry);
          alias = λ _ _ _. (m, w', subst (Entry _ m d) n entry);
        })
  rounds true true false true a p n k =
      let m = length s.nsys in
      let s1 = nsy_clone xsys d s in
      let e = nsy_clone_lem xsys d s in
      let s2 : Rewriting = record s1 { nsy_of_xsy = modify s.nsy_of_xsy d (λ _. some m) } in
      let e2 = symbol_alias_create_lem xsys d s2 in
      let entry =
        subst (λ z. Entry z m d (nulling xsys d)) (sym e)
          (Entry-made xsys s.nsys d (nulling xsys d)) in
      let all =
        e2
        ∙ ap (λ z. z ++ made xsys d true ∷ []) e
        ∙ append_assoc s.nsys (made xsys d (nulling xsys d) ∷ []) (made xsys d true ∷ []) in
      Cloned-step xsys d s (round true true false true xsys d s) _ c all refl
        (Wrote-modify d m s.nsy_of_xsy) (Wrote-modify d (length s1.nsys) s.nulling_nsy_of_xsy)
        (record {
          agree = λ t. absurd (ground (arith, t, n));
          symbol = λ _ _. (
            m,
            written m s.nsy_of_xsy c.size,
            subst (λ z. Entry z m d (nulling xsys d)) (sym e2)
                (Entry-append s1.nsys (made xsys d true ∷ []) m d (nulling xsys d) entry),
          );
          alias = λ _ _ _. (
            length s1.nsys,
            written (length s1.nsys) s.nulling_nsy_of_xsy c.nulling_size,
            subst (λ z. Entry z (length s1.nsys) d true) (sym e2) (Entry-made xsys s1.nsys d true),
          );
        })
  rounds true true false false a p n k =
      let m = length s.nsys in
      let e = nsy_clone_lem xsys d s in
      let entry =
        subst (λ z. Entry z m d (nulling xsys d)) (sym e)
          (Entry-made xsys s.nsys d (nulling xsys d)) in
      Cloned-step xsys d s (round true true false false xsys d s) _ c e refl
        (Wrote-modify d m s.nsy_of_xsy) (Wrote-same d s.nulling_nsy_of_xsy)
        (record {
          agree = λ t. absurd (ground (arith, t, n));
          symbol = λ _ _. (m, written m s.nsy_of_xsy c.size, entry);
          alias = λ _ _ t. absurd (ground (arith, t, n, k));
        })

  pub Cloned-clone_symbol : Cloned xsys (suc d) (clone_symbol xsys d s)
  unfolding clone_symbol round
  Cloned-clone_symbol =
      rounds (get_or xsys d blank_xsy).is_accessible (get_or xsys d blank_xsy).is_productive
        (nulling xsys d) (get_or xsys d blank_xsy).is_nullable refl refl refl refl

pub Cloned-clone_symbols :
    (xsys : List Xsy) (n d : ℕ) (s : Rewriting)
    → n + d ≡ length xsys
    → Cloned xsys d s
    → Cloned xsys (length xsys) (clone_symbols xsys n d s)
unfolding clone_symbols
Cloned-clone_symbols xsys zero d s e c =
    let e' : d ≡ length xsys = omega (arith, e) in subst (λ z. Cloned xsys z s) e' c
Cloned-clone_symbols xsys (suc n) d s e c =
    Cloned-clone_symbols xsys n (suc d) (clone_symbol xsys d s) (omega (arith, e))
      (Cloned-clone_symbol xsys d s c (omega (arith, e)))

get_or-replicate : (n x : ℕ) → get_or (replicate {A = Option ℕ} n none) x none ≡ none
get_or-replicate zero x = refl
get_or-replicate (suc n) zero = refl
get_or-replicate (suc n) (suc x) = get_or-replicate n x

abbrev pub fresh : ℕ → Rewriting
fresh n = record {
  nsys = [];
  irls = [];
  nsy_of_xsy = replicate n none;
  nulling_nsy_of_xsy = replicate n none;
  start_irl = none;
}

pub Cloned-fresh : (xsys : List Xsy) → Cloned xsys 0 (fresh (length xsys))
Cloned-fresh xsys = record {
  size = length-replicate (length xsys) none;
  nulling_size = length-replicate (length xsys) none;
  no_rules = refl;
  slot = λ x l. absurd (omega (arith, l));
  none_yet = λ x l. (get_or-replicate (length xsys) x, get_or-replicate (length xsys) x);
}
