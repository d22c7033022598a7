-- ===== src/Loops/Marks.antt =====
-- The loop that marks the loop rules.
use marpa_r.Prelude.{
  ℕ, zero, suc, ◌+◌, ◌≤◌, ◌<◌, ◌≡◌, ◌≢◌, ◌↔◌, ◌⊎◌, refl, ap, ◌∙◌, Bool, true, false, ◌&&◌, ◌||◌,
  List, [], ◌∷◌, length, length-modify, modify, ◌==◌, arith, inl, inr, if◌then◌else◌, Bool-cases,
}
use marpa_r.Matrix.{Matrix, matrix_bit_test}
use marpa_r.Grammar.{Xrl}
use marpa_r.Closure.Derived.{rule_at}
use marpa_r.Loops.{mark_loops}

unfoldable pub is_loop_at : List Xrl → ℕ → Bool
is_loop_at xrls r = (rule_at xrls r).is_loop

abbrev as_loop : Xrl → Xrl
as_loop r = record r { is_loop = true }

marked_at :
    (xrls : List Xrl) (k r : ℕ)
    → r < length xrls
    → is_loop_at (modify xrls k as_loop) r ≡ (k == r || is_loop_at xrls r)
unfolding is_loop_at
marked_at [] k r l = absurd (omega (arith, l))
marked_at (x ∷ xs) zero zero l = refl
marked_at (x ∷ xs) zero (suc r) l = ground arith
marked_at (x ∷ xs) (suc k) zero l = ground arith
marked_at (x ∷ xs) (suc k) (suc r) l = marked_at xs k r (omega (arith, l)) ∙ ground arith

-- A bit on the diagonal, from row `i` on, in `n` rows.
abbrev pub looping : Matrix → ℕ → ℕ → ℕ → Bool
looping m zero i r = false
looping m (suc n) i r = (i == r && matrix_bit_test m i i) || looping m n (suc i) r

past : (m : Matrix) (n i r : ℕ) → r < i → looping m n i r ≡ false
past m zero i r l = refl
past m (suc n) i r l = ground (arith, past m n (suc i) r (omega (arith, l)), l)

pub looping_lem :
    (m : Matrix) (n i r : ℕ) → i ≤ r → r < i + n → looping m n i r ≡ matrix_bit_test m r r
looping_lem m zero i r h l = absurd (omega (arith, h, l))
looping_lem m (suc n) i r h l = elim (Bool-cases (i == r)) [
  | inl e ↦
      let p : i ≡ r = ground (arith, e) in
      ground (arith, past m n (suc i) r (omega (arith, p)), e, ap (λ k. matrix_bit_test m k k) p)
  | inr e ↦ ground (arith, looping_lem m n (suc i) r (ground (arith, h, e)) (omega (arith, l)), e)
]

-- What the loop over the rules marks, and whether it counts one.
pub record Marked (m : Matrix) (n i : ℕ) (xrls : List Xrl) (c : ℕ) (out : List Xrl × ℕ)
    : Type 0 where
  pub sized : length out.0 ≡ length xrls
  pub flags :
      (r : ℕ) → r < length xrls → is_loop_at out.0 r ≡ (looping m n i r || is_loop_at xrls r)
  pub counts :
      (out.1 ≢ 0) ↔ ((c ≢ 0) ⊎ ((r : ℕ) × (i ≤ r) × (r < i + n) × (matrix_bit_test m r r ≡ true)))

Marked-one :
    (m : Matrix) (n i : ℕ) (xrls : List Xrl) (c : ℕ) (out : List Xrl × ℕ) (b : Bool)
    → matrix_bit_test m i i ≡ b
    → Marked m n (suc i) (if b then modify xrls i as_loop else xrls) (if b then c + 1 else c) out
    → Marked m (suc n) i xrls c out
Marked-one m n i xrls c out true e k =
    let s = length-modify xrls i as_loop in
    record {
      sized = k.sized ∙ s;
      flags = λ r l. ground (arith, k.flags r (omega (arith, l, s)), marked_at xrls i r l, e);
      counts = (
        λ h. inr (elim (k.counts.0 h) [
          | inl t ↦ (i, omega arith, omega arith, e)
          | inr (r, p, q, t) ↦ (r, omega (arith, p), omega (arith, q), t)
        ]),
        λ _. k.counts.1 (inl (λ z. absurd (omega (arith, z)))),
      );
    }
Marked-one m n i xrls c out false e k = record {
  sized = k.sized;
  flags = λ r l. ground (arith, k.flags r l, e);
  counts = (
    λ h. elim (k.counts.0 h) [
      | inl t ↦ inl t
      | inr (r, p, q, t) ↦ inr (r, omega (arith, p), omega (arith, q), t)
    ],
    λ d. elim d [
      | inl t ↦ k.counts.1 (inl t)
      | inr (r, p, q, t) ↦
          let ne : i ≢ r = λ z. absurd (ground (arith, ap (λ j. matrix_bit_test m j j) z, e, t)) in
          k.counts.1 (inr (r, ground (arith, p, ne), omega (arith, q), t))
    ],
  );
}

pub mark_loops_lem :
    (m : Matrix) (n i : ℕ) (xrls : List Xrl) (c : ℕ) → Marked m n i xrls c (mark_loops m n i xrls c)
unfolding mark_loops
mark_loops_lem m zero i xrls c = record {
  sized = refl;
  flags = λ r l. refl;
  counts =
      (λ h. inl h, λ d. elim d [ inl h ↦ h | inr (r, a, b, _) ↦ absurd (omega (arith, a, b)) ]);
}
mark_loops_lem m (suc n) i xrls c =
    let b = matrix_bit_test m i i in
    Marked-one m n i xrls c _ b refl (
      mark_loops_lem m n (suc i) (if b then modify xrls i as_loop else xrls)
        (if b then c + 1 else c))
