-- ===== src/Rewrite/Start.antt =====
-- What is added for the start symbol.
use marpa_r.Prelude.{
  ℕ, ◌≡◌, refl, ap, sym, Bool, true, false, List, [], ◌∷◌, none, length, length-modify, get_or, ℤ,
  arith, ◌-◌, if◌then◌else◌,
}
use mathlib.Core.List.{Memᴰ, append-nil}
use mathlib.Core.List.Memᴰ
use marpa_r.Grammar.{Xsy, blank_xsy}
use marpa_r.Rewrite.{Nsy, Irl, Rewriting, names_of, nsy_new, last_nsy}
use marpa_r.Rewrite.Rules.{rewrite_start, add_start, start_rule}
use marpa_r.Rewrite.Added.{Adds, Adds-none, Adds-add_irl, nsy_new-length, Adds-trans}

Adds-add_start :
    (xsys : List Xsy) (x : ℕ) (rank : ℤ) (s : Rewriting)
    → Adds s (add_start xsys x rank s) (start_rule (length s.nsys) ((names_of s).nsyid x) rank ∷ [])
unfolding add_start nsy_new last_nsy
Adds-add_start xsys x rank s =
    let f = λ (n : Nsy). record n { is_start = true } in
    let s0 = nsy_new xsys x s in
    let s1 = last_nsy f s0 in
    let rule = start_rule (length s.nsys) ((names_of s).nsyid x) rank in
    let h : Adds s s1 [] = record {
      irls_grow = sym (append-nil s.irls);
      nsys_grow =
          omega (arith, nsy_new-length xsys x s, length-modify s0.nsys (length s0.nsys - 1) f);
      same_nsys = refl;
      same_nulling = refl;
    } in
    let a = Adds-add_irl rule s1 in
    let all = Adds-trans s s1 _ [] _ h a in
    record {
      irls_grow = all.irls_grow;
      nsys_grow = all.nsys_grow;
      same_nsys = all.same_nsys;
      same_nulling = all.same_nulling;
    }

-- The rule for the start symbol comes from no external rule.
pub Adds-start :
    (xsys : List Xsy) (x : ℕ) (rank : ℤ) (s : Rewriting)
    → (is : List Irl) × Adds s (rewrite_start xsys x rank s) is
      × ((irl : Irl) → Memᴰ irl is → irl.source_xrl ≡ none)
unfolding rewrite_start start_rule
Adds-start xsys x rank s = by_nulling (get_or xsys x blank_xsy).is_nulling
  where
    by_nulling :
        (b : Bool)
        → (is : List Irl) × Adds s (if b then s else add_start xsys x rank s) is
          × ((irl : Irl) → Memᴰ irl is → irl.source_xrl ≡ none)
    by_nulling true = ([], Adds-none s, λ irl m. absurd (Memᴰ.not-nil m))
    by_nulling false = (
      _,
      Adds-add_start xsys x rank s,
      λ irl m. ap (λ (i : Irl). i.source_xrl) (Memᴰ.eq_of_singleton m),
    )
