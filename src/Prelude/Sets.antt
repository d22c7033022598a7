-- ===== src/Prelude/Sets.antt =====
-- Lists of numbers as sets.
use Prim.Native.Nat.{ℕ, suc, ◌+◌, ◌≤◌, ◌<◌}
use mathlib.Core.Path.{◌≡◌, refl}
use mathlib.Core.Logic.{inl, inr}
use mathlib.Core.Bool.{Bool, true, false, ◌||◌}
use mathlib.Core.List.{List, [], ◌∷◌, ◌++◌}
use native.Mathlib.Omega.{arith}
use marpa_r.Prelude.Tests.{◌==◌, Bool-cases}
use marpa_r.Prelude.Lists.{All, length}

abbrev pub has : List ℕ → ℕ → Bool
has [] z = false
has (x ∷ xs) z = x == z || has xs z

-- The items go up, without repetition.
abbrev pub Ascending : List ℕ → Type 0
Ascending [] = Unit {0}
Ascending (x ∷ xs) = All (λ y. x < y) xs × Ascending xs

pub has-All : (P : ℕ → Type 0) (xs : List ℕ) (z : ℕ) → All P xs → has xs z ≡ true → P z
has-All P [] z a h = absurd (ground (arith, h))
has-All P (x ∷ xs) z a h = elim (Bool-cases (x == z)) [
  | inl e ↦ let p : x ≡ z = ground (arith, e) in rw (← p) (a.0)
  | inr e ↦ has-All P xs z a.1 (ground (arith, h, e))
]

pub All-has : (P : ℕ → Type 0) (xs : List ℕ) → ((z : ℕ) → has xs z ≡ true → P z) → All P xs
All-has P [] h = tt
All-has P (x ∷ xs) h = (h x (ground arith), All-has P xs (λ z m. h z (ground (arith, m))))

-- Ascending lists that have the same items are equal.
pub Ascending-unique :
    (xs ys : List ℕ) → Ascending xs → Ascending ys → ((z : ℕ) → has xs z ≡ has ys z) → xs ≡ ys
Ascending-unique [] [] a b h = refl
Ascending-unique [] (y ∷ ys) a b h = absurd (ground (arith, h y))
Ascending-unique (x ∷ xs) [] a b h = absurd (ground (arith, h x))
Ascending-unique (x ∷ xs) (y ∷ ys) a b h =
    let x_least : has ys x ≡ true → y < x = λ m. has-All (λ z. y < z) ys x b.0 m in
    let y_least : has xs y ≡ true → x < y = λ m. has-All (λ z. x < z) xs y a.0 m in
    let e : x ≡ y = ground (arith, h x, h y, x_least, y_least) in
    rw (
      e,
      Ascending-unique xs ys a.1 b.1 (λ z.
          let above : has xs z ≡ true → x < z = λ m. has-All (λ z. x < z) xs z a.0 m in
          let above' : has ys z ≡ true → y < z = λ m. has-All (λ z. y < z) ys z b.0 m in
          ground (arith, e, h z, above, above')),
    )

pub has-append : (xs ys : List ℕ) (z : ℕ) → has (xs ++ ys) z ≡ (has xs z || has ys z)
has-append [] ys z = refl
has-append (x ∷ xs) ys z = ground (arith, has-append xs ys z)

pub Ascending-append :
    (xs ys : List ℕ) (n : ℕ)
    → Ascending xs
    → Ascending ys
    → All (λ x. x < n) xs
    → All (λ y. n ≤ y) ys
    → Ascending (xs ++ ys)
Ascending-append [] ys n a b p q = b
Ascending-append (x ∷ xs) ys n a b p q = (
  All-has (λ z. x < z) (xs ++ ys)
      (λ z m.
        let low : has xs z ≡ true → x < z = λ m'. has-All (λ y. x < y) xs z a.0 m' in
        let high : has ys z ≡ true → n ≤ z = λ m'. has-All (λ y. n ≤ y) ys z q m' in
        ground (arith, m, has-append xs ys z, low, high, p.0)),
  Ascending-append xs ys n a.1 b p.1 q,
)

-- An ascending list of numbers between two bounds is no longer than their distance.
pub length-Ascending :
    (xs : List ℕ) (lo hi : ℕ)
    → lo ≤ hi
    → Ascending xs
    → All (λ x. lo ≤ x) xs
    → All (λ x. x < hi) xs
    → length xs + lo ≤ hi
length-Ascending [] lo hi l a p q = omega arith
length-Ascending (x ∷ xs) lo hi l a p q =
    let rest = length-Ascending xs (suc x) hi (omega (arith, q.0)) a.1 (a.0) q.1 in
    omega (arith, rest, p.0)
