-- ===== src/Rewrite/Factors.antt =====
-- What the scan of a right side finds.
use marpa_r.Prelude.{
  ℕ, suc, ◌+◌, ◌≤◌, ◌<◌, ◌≡◌, refl, ap, ◌∙◌, Bool, true, false, not, List, [], ◌∷◌, ◌++◌, length,
  get_or, leb, arith, if◌then◌else◌, Bool-cases, inl, inr,
}
use marpa_r.Grammar.{Xsy, blank_xsy}
use marpa_r.Rewrite.Chaf.{scan_factors}
use marpa_r.Rewrite.Variants.{nulling, factor, no_factor, has_solid}
use marpa_r.Rewrite.Slices.{Rest}

module _ (xsys : List Xsy) where
  -- `fs` are the positions of the factors of `ys`, which stands from position `p` on.
  abbrev pub Cut : ℕ → List ℕ → List ℕ → Type 0
  Cut p ys [] = no_factor xsys ys ≡ true
  Cut p ys (f ∷ fs) =
      (a : List ℕ) × (x : ℕ) × (r : List ℕ) × (ys ≡ a ++ x ∷ r)
      × (no_factor xsys a ≡ true)
      × (factor xsys x ≡ true)
      × (f ≡ p + length a)
      × Cut (suc f) r fs

  Cut-cons :
      (fs : List ℕ) (p x : ℕ) (ys : List ℕ)
      → factor xsys x ≡ false
      → Cut (suc p) ys fs
      → Cut p (x ∷ ys) fs
  Cut-cons [] p x ys n c = ground (arith, n, c)
  Cut-cons (f ∷ fs) p x ys n (a, y, r, e, h, k, l, c) =
      (x ∷ a, y, r, ap (λ t. x ∷ t) e, ground (arith, n, h), k, omega (arith, l), c)

  -- One step of the scan.
  abbrev next_suffix : ℕ → ℕ → ℕ → ℕ
  next_suffix p x s =
      if (get_or xsys x blank_xsy).is_nulling
      then s
      else if (get_or xsys x blank_xsy).is_nullable
      then s
      else p + 1

  abbrev scanned : Bool → Bool → ℕ → List ℕ × ℕ → List ℕ × ℕ
  scanned n k p rest = if n then rest else if k then (p ∷ rest.0, rest.1) else rest

  scanned_suffix : (n k : Bool) (p : ℕ) (rest : List ℕ × ℕ) → (scanned n k p rest).1 ≡ rest.1
  scanned_suffix true k p rest = refl
  scanned_suffix false true p rest = refl
  scanned_suffix false false p rest = refl

  scanned-Cut :
      (n k : Bool) (p x : ℕ) (ys : List ℕ) (rest : List ℕ × ℕ)
      → nulling xsys x ≡ n
      → (get_or xsys x blank_xsy).is_nullable ≡ k
      → Cut (suc p) ys rest.0
      → Cut p (x ∷ ys) (scanned n k p rest).0
  scanned-Cut true k p x ys rest n e c = Cut-cons rest.0 p x ys (ground (arith, n)) c
  scanned-Cut false true p x ys rest n e c =
      ([], x, ys, refl, refl, ground (arith, n, e), omega arith, c)
  scanned-Cut false false p x ys rest n e c = Cut-cons rest.0 p x ys (ground (arith, n, e)) c

  pub scan_factors-Cut : (ys : List ℕ) (p s : ℕ) → Cut p ys (scan_factors xsys p ys s).0
  unfolding scan_factors
  scan_factors-Cut [] p s = refl
  scan_factors-Cut (x ∷ ys) p s =
      scanned-Cut (nulling xsys x) (get_or xsys x blank_xsy).is_nullable p x ys
        (scan_factors xsys (suc p) ys (next_suffix p x s)) refl refl
        (scan_factors-Cut ys (suc p) (next_suffix p x s))

  -- The suffix index, which comes from `s`.
  abbrev suffix_of : ℕ → List ℕ → ℕ → ℕ
  suffix_of p ys s = (scan_factors xsys p ys s).1

  suffix_step :
      (p x : ℕ) (ys : List ℕ) (s : ℕ)
      → suffix_of p (x ∷ ys) s ≡ suffix_of (suc p) ys (next_suffix p x s)
  unfolding scan_factors
  suffix_step p x ys s =
      scanned_suffix (nulling xsys x) (get_or xsys x blank_xsy).is_nullable p
        (scan_factors xsys (suc p) ys (next_suffix p x s))

  suffix_end : (p s : ℕ) → suffix_of p [] s ≡ s
  unfolding scan_factors
  suffix_end p s = refl

  suffix-append :
      (u v : List ℕ) (p s : ℕ)
      → suffix_of p (u ++ v) s ≡ suffix_of (p + length u) v (suffix_of p u s)
  suffix-append [] v p s = let e : p + 0 ≡ p = omega arith in rw (e, suffix_end p s) refl
  suffix-append (x ∷ u) v p s =
      let e : p + suc (length u) ≡ suc p + length u = omega arith in
      rw (suffix_step p x (u ++ v) s, suffix_step p x u s, e)
        (suffix-append u v (suc p) (next_suffix p x s))

  suffix_none : (ys : List ℕ) (p s : ℕ) → has_solid xsys ys ≡ false → suffix_of p ys s ≡ s
  suffix_none [] p s h = suffix_end p s
  suffix_none (x ∷ ys) p s h =
      suffix_step p x ys s
      ∙ suffix_none ys (suc p) (next_suffix p x s) (ground (arith, h))
      ∙ ground (arith, h)

  suffix_high : (ys : List ℕ) (p s : ℕ) → s ≤ p → suffix_of p ys s ≤ p + length ys
  suffix_high [] p s h = omega (arith, suffix_end p s)
  suffix_high (x ∷ ys) p s h =
      let l : next_suffix p x s ≤ suc p = ground (arith, h) in
      omega (arith, suffix_step p x ys s, suffix_high ys (suc p) (next_suffix p x s) l)

  suffix_some : (ys : List ℕ) (p s : ℕ) → s ≤ p → has_solid xsys ys ≡ true → p < suffix_of p ys s
  suffix_some [] p s l h = absurd (ground (arith, h))
  suffix_some (x ∷ ys) p s l h =
      let n : next_suffix p x s ≤ suc p = ground (arith, l) in
      elim (Bool-cases (has_solid xsys ys)) [
        | inl e ↦
            omega (arith, suffix_step p x ys s, suffix_some ys (suc p) (next_suffix p x s) n e)
        | inr e ↦
            let t : next_suffix p x s ≡ p + 1 = ground (arith, h, e) in
            omega (arith, suffix_step p x ys s, suffix_none ys (suc p) (next_suffix p x s) e, t)
      ]

  -- The suffix index that the scan of a right side finds is at or before a position exactly if
  -- all symbols from the position on are nullable or nulling.
  pub suffix_lem :
      (rhs : List ℕ) (p : ℕ) (ys : List ℕ)
      → Rest rhs p ys
      → leb (scan_factors xsys 0 rhs 0).1 p ≡ not (has_solid xsys ys)
  suffix_lem rhs p ys t =
      let q = suffix_of 0 t.before 0 in
      let e : (scan_factors xsys 0 rhs 0).1 ≡ suffix_of p ys q =
        ap (λ r. suffix_of 0 r 0) t.whole
        ∙ suffix-append t.before ys 0 0
        ∙ ap (λ n. suffix_of n ys q) (omega (arith, t.at_place)) in
      let l : q ≤ p = omega (arith, suffix_high t.before 0 0 (omega arith), t.at_place) in
      elim (Bool-cases (has_solid xsys ys)) [
        | inl h ↦ ground (arith, e, suffix_some ys p q l h, h)
        | inr h ↦ ground (arith, e, suffix_none ys p q h, h, l)
      ]
