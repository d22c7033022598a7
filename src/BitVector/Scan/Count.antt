-- ===== src/BitVector/Scan/Count.antt =====
-- Counting the set bits, and listing them.
use marpa_r.Prelude.{
  ℕ, zero, suc, ◌+◌, ◌-◌, ◌≤◌, ◌<◌, ◌≡◌, refl, ◌∙◌, sym, ap, true, false, ◌&&◌, ◌||◌, List, [],
  ◌++◌, Option, none, some, length, length-append, All, All-append, All-map, has, Ascending,
  has-append, Ascending-append, ltb, leb, ◌==◌, inl, inr, arith, if◌then◌else◌, Bool-cases,
}
use marpa_r.BitVector.{BitVector, bv_bit_test}
use marpa_r.BitVector.Scan.{bv_scan, count_loop, bv_count, numbers_from, scan_loop, set_bits}
use marpa_r.BitVector.Full.{IsFull}
use marpa_r.BitVector.Scan.Runs.{Scanned, no_run, run, bv_scan_lem}

-- The number of set bits among the `n` from `start` on.
abbrev pub ones : BitVector → ℕ → ℕ → ℕ
ones v start zero = 0
ones v start (suc n) = (if bv_bit_test v start then 1 else 0) + ones v (start + 1) n

ones-append :
    (v : BitVector) (start m n : ℕ) → ones v start (m + n) ≡ ones v start m + ones v (start + m) n
ones-append v start zero n =
    let e : start + 0 ≡ start = omega arith in
    let f : 0 + n ≡ n = omega arith in rw (e, f) (omega arith)
ones-append v start (suc m) n =
    let e : suc m + n ≡ suc (m + n) = omega arith in
    let f : start + suc m ≡ start + 1 + m = omega arith in
    rw (e, f) (omega (arith, ones-append v (start + 1) m n))

ones_none :
    (v : BitVector) (start n : ℕ)
    → ((j : ℕ) → start ≤ j → j < start + n → bv_bit_test v j ≡ false)
    → ones v start n ≡ 0
ones_none v start zero h = refl
ones_none v start (suc n) h =
    rw (h start (omega arith) (omega arith))
      (omega (arith, ones_none v (start + 1) n (λ j a b. h j (omega arith) (omega arith))))

ones_all :
    (v : BitVector) (start n : ℕ)
    → ((j : ℕ) → start ≤ j → j < start + n → bv_bit_test v j ≡ true)
    → ones v start n ≡ n
ones_all v start zero h = refl
ones_all v start (suc n) h =
    rw (h start (omega arith) (omega arith))
      (omega (arith, ones_all v (start + 1) n (λ j a b. h j (omega arith) (omega arith))))

pub ones_same :
    (v w : BitVector) (start n : ℕ)
    → ((j : ℕ) → start ≤ j → j < start + n → bv_bit_test w j ≡ bv_bit_test v j)
    → ones w start n ≡ ones v start n
ones_same v w start zero h = refl
ones_same v w start (suc n) h =
    rw (h start (omega arith) (omega arith))
      (omega (arith, ones_same v w (start + 1) n (λ j s l. h j (omega arith) (omega arith))))

-- A run, and the clear bit behind it, on the way to the end.
ones_run :
    (v : BitVector) (start min max : ℕ)
    → start ≤ min
    → min ≤ max
    → max < v.bits
    → ((j : ℕ) → start ≤ j → j < min → bv_bit_test v j ≡ false)
    → ((j : ℕ) → min ≤ j → j ≤ max → bv_bit_test v j ≡ true)
    → (max + 1 < v.bits → bv_bit_test v (max + 1) ≡ false)
    → ones v start (v.bits - start) ≡ (max - min + 1) + ones v (max + 2) (v.bits - (max + 2))
ones_run v start min max a b c before inside beyond =
    let p = min - start in
    let q = max - min + 1 in
    let e : v.bits - start ≡ p + (q + (v.bits - (max + 1))) = omega arith in
    let m : start + p ≡ min = omega arith in
    let n : min + q ≡ max + 1 = omega arith in
    let skip : ones v start p ≡ 0 = ones_none v start p (λ j x y. before j x (omega arith)) in
    let all : ones v min q ≡ q = ones_all v min q (λ j x y. inside j x (omega arith)) in
    rw
      (
        e,
        ones-append v start p (q + (v.bits - (max + 1))),
        m,
        ones-append v min q (v.bits - (max + 1)),
        n,
      )
      (elim (Bool-cases (ltb (max + 1) v.bits)) [
        | inl l ↦
            let s : v.bits - (max + 1) ≡ suc (v.bits - (max + 2)) = ground (arith, l) in
            let t : max + 1 + 1 ≡ max + 2 = omega arith in
            rw (s, beyond (ground (arith, l)), t) (omega (arith, skip, all))
        | inr l ↦
            let s : v.bits - (max + 1) ≡ 0 = ground (arith, l) in
            let t : v.bits - (max + 2) ≡ 0 = ground (arith, l) in
            rw (s, t) (omega (arith, skip, all))
      ])

count_loop_lem :
    (n : ℕ) (v : BitVector) (start count : ℕ)
    → IsFull v
    → v.bits + 1 ≤ n + start
    → count_loop n v start count ≡ count + ones v start (v.bits - start)
unfolding count_loop
count_loop_lem zero v start count h f =
    let e : v.bits - start ≡ 0 = omega arith in rw e (omega arith)
count_loop_lem (suc n) v start count h f =
    let (same, s) = bv_scan_lem v start h in
    after ((bv_scan v start).1) s (λ min max l.
      count_loop_lem n (bv_scan v start).0 (max + 2) (count + (max - min + 1)) same.full
        (omega (arith, same.bits))
      ∙ rw
          (
            same.bits,
            ones_same v ((bv_scan v start).0) (max + 2) (v.bits - (max + 2))
                (λ j s u. same.same j (omega arith)),
          )
          refl)
  where
    after :
        (r : Option (ℕ × ℕ))
        → Scanned v start r
        → ((min max : ℕ)
            → start ≤ max
            → count_loop n (bv_scan v start).0 (max + 2) (count + (max - min + 1))
              ≡ count + (max - min + 1) + ones v (max + 2) (v.bits - (max + 2)))
        → (elim r as (λ _. ℕ) [
          | none ↦ count
          | some (min, max) ↦ count_loop n (bv_scan v start).0 (max + 2) (count + (max - min + 1))
        ])
          ≡ count + ones v start (v.bits - start)
    after r (no_run g) rec =
        omega (arith, ones_none v start (v.bits - start) (λ j a b. g j a (omega arith)))
    after r (run min max a b c x y z) rec =
        rec min max (omega arith) ∙ omega (arith, ones_run v start min max a b c x y z)

-- `bv_count` counts the bits of the vector that are set.
pub bv_count_lem : (v : BitVector) → IsFull v → bv_count v ≡ ones v 0 v.bits
unfolding bv_count
bv_count_lem v h =
    count_loop_lem (v.bits + 1) v 0 0 h (omega arith)
    ∙ (let e : v.bits - 0 ≡ v.bits = omega arith in rw e (omega arith))

numbers_from-All : (min n : ℕ) → All (λ x. min ≤ x) (numbers_from min n)
unfolding numbers_from
numbers_from-All min zero = tt
numbers_from-All min (suc n) = (
  omega arith,
  All-map (λ x. min + 1 ≤ x) (λ x. min ≤ x) (numbers_from (min + 1) n) (λ x h. omega arith)
      (numbers_from-All (min + 1) n),
)

numbers_from-below : (min n : ℕ) → All (λ x. x < min + n) (numbers_from min n)
unfolding numbers_from
numbers_from-below min zero = tt
numbers_from-below min (suc n) = (
  omega arith,
  All-map (λ x. x < min + 1 + n) (λ x. x < min + suc n) (numbers_from (min + 1) n)
      (λ x h. omega arith) (numbers_from-below (min + 1) n),
)

numbers_from-Ascending : (min n : ℕ) → Ascending (numbers_from min n)
unfolding numbers_from
numbers_from-Ascending min zero = tt
numbers_from-Ascending min (suc n) = (
  All-map (λ x. min + 1 ≤ x) (λ x. min < x) (numbers_from (min + 1) n) (λ x h. omega arith)
      (numbers_from-All (min + 1) n),
  numbers_from-Ascending (min + 1) n,
)

has-numbers_from : (min n z : ℕ) → has (numbers_from min n) z ≡ (leb min z && ltb z (min + n))
unfolding numbers_from
has-numbers_from min zero z = ground arith
has-numbers_from min (suc n) z = ground (arith, has-numbers_from (min + 1) n z)

-- The numbers of the set bits from `start` on, in ascending order.
record Lists (v : BitVector) (start : ℕ) (is : List ℕ) : Type 0 where
  pub ascending : Ascending is
  pub from : All (λ i. start ≤ i) is
  pub members : (z : ℕ) → has is z ≡ (leb start z && ltb z v.bits && bv_bit_test v z)

run-Lists :
    (v : BitVector) (start min max : ℕ) (is : List ℕ)
    → start ≤ min
    → min ≤ max
    → max < v.bits
    → ((j : ℕ) → start ≤ j → j < min → bv_bit_test v j ≡ false)
    → ((j : ℕ) → min ≤ j → j ≤ max → bv_bit_test v j ≡ true)
    → (max + 1 < v.bits → bv_bit_test v (max + 1) ≡ false)
    → Lists v (max + 2) is
    → Lists v start (numbers_from min (max - min + 1) ++ is)
run-Lists v start min max is a b c before inside beyond l =
    let k = max - min + 1 in
    record {
      ascending =
          Ascending-append (numbers_from min k) is (max + 2) (numbers_from-Ascending min k)
            l.ascending
            (All-map (λ x. x < min + k) (λ x. x < max + 2) (numbers_from min k) (λ x h. omega arith)
              (numbers_from-below min k))
            l.from;
      from =
          All-append (λ i. start ≤ i) (numbers_from min k) is
            (All-map (λ x. min ≤ x) (λ x. start ≤ x) (numbers_from min k) (λ x h. omega arith)
              (numbers_from-All min k))
            (All-map (λ x. max + 2 ≤ x) (λ x. start ≤ x) is (λ x h. omega arith) l.from);
      members = λ z.
          has-append (numbers_from min k) is z
          ∙ rw (has-numbers_from min k z, l.members z)
              (elim (Bool-cases (z == max + 1)) [
                | inl e ↦
                    let q : z ≡ max + 1 = ground (arith, e) in
                    ground (arith, q, beyond, ap (bv_bit_test v) q)
                | inr e ↦ ground (arith, e, before z, inside z)
              ]);
    }

scan_loop_lem :
    (n : ℕ) (v : BitVector) (start : ℕ)
    → IsFull v
    → v.bits + 1 ≤ n + start
    → Lists v start (scan_loop n v start)
unfolding scan_loop
scan_loop_lem zero v start h f = record {
  ascending = tt;
  from = tt;
  members = λ z. ground (arith, f);
}
scan_loop_lem (suc n) v start h f =
    let (same, s) = bv_scan_lem v start h in
    after ((bv_scan v start).1) s (λ max l.
      let rest =
        scan_loop_lem n (bv_scan v start).0 (max + 2) same.full (omega (arith, same.bits)) in
      record {
        ascending = rest.ascending;
        from = rest.from;
        members = λ z. rest.members z ∙ ground (arith, same.bits, same.same z);
      })
  where
    after :
        (r : Option (ℕ × ℕ))
        → Scanned v start r
        → ((max : ℕ) → start ≤ max → Lists v (max + 2) (scan_loop n (bv_scan v start).0 (max + 2)))
        → Lists v start (elim r [
          | none ↦ []
          | some (min, max) ↦
              numbers_from min (max - min + 1) ++ scan_loop n (bv_scan v start).0 (max + 2)
        ])
    after r (no_run g) rec = record {
      ascending = tt;
      from = tt;
      members = λ z. ground (arith, g z);
    }
    after r (run min max a b c x y z) rec =
        run-Lists v start min max _ a b c x y z (rec max (omega arith))

-- The loops over the runs of a vector visit each set bit once, in ascending order.
pub set_bits_lem :
    (v : BitVector)
    → IsFull v
    → Ascending (set_bits v) × ((z : ℕ) → has (set_bits v) z ≡ (ltb z v.bits && bv_bit_test v z))
unfolding set_bits
set_bits_lem v h =
    let l = scan_loop_lem (v.bits + 1) v 0 h (omega arith) in
    (l.ascending, λ z. l.members z ∙ ground arith)

pub ones-le : (v : BitVector) (start n : ℕ) → ones v start n ≤ n
ones-le v start zero = omega arith
ones-le v start (suc n) = ground (arith, ones-le v (start + 1) n)

-- A clear bit that is set counts.
pub ones_set :
    (v w : BitVector) (i start n : ℕ)
    → start ≤ i
    → i < start + n
    → bv_bit_test v i ≡ false
    → ((j : ℕ) → bv_bit_test w j ≡ (i == j || bv_bit_test v j))
    → ones w start n ≡ suc (ones v start n)
ones_set v w i start zero a b e h = absurd (omega arith)
ones_set v w i start (suc n) a b e h = elim (Bool-cases (i == start)) [
  | inl same ↦
      let p : i ≡ start = ground (arith, same) in
      let rest : ones w (start + 1) n ≡ ones v (start + 1) n =
        ones_same v w (start + 1) n (λ j s l. ground (arith, h j, p, s)) in
      let clear : bv_bit_test v start ≡ false = ap (bv_bit_test v) (sym p) ∙ e in
      rw (h start, same, clear) (omega (arith, rest))
  | inr other ↦
      rw (h start, other)
        (omega (arith, ones_set v w i (start + 1) n (ground (arith, a, other)) (omega arith) e h))
]

length-numbers_from : (min n : ℕ) → length (numbers_from min n) ≡ n
unfolding numbers_from
length-numbers_from min zero = refl
length-numbers_from min (suc n) = ap suc (length-numbers_from (min + 1) n)

length-scan_loop :
    (n : ℕ) (v : BitVector) (start : ℕ)
    → IsFull v
    → v.bits + 1 ≤ n + start
    → length (scan_loop n v start) ≡ ones v start (v.bits - start)
unfolding scan_loop
length-scan_loop zero v start h f = let e : v.bits - start ≡ 0 = omega arith in rw e
length-scan_loop (suc n) v start h f =
    let (same, s) = bv_scan_lem v start h in
    after ((bv_scan v start).1) s (λ max l.
      length-scan_loop n (bv_scan v start).0 (max + 2) same.full (omega (arith, same.bits))
      ∙ rw
          (
            same.bits,
            ones_same v ((bv_scan v start).0) (max + 2) (v.bits - (max + 2))
                (λ j s u. same.same j (omega arith)),
          )
          refl)
  where
    after :
        (r : Option (ℕ × ℕ))
        → Scanned v start r
        → ((max : ℕ)
            → start ≤ max
            → length (scan_loop n (bv_scan v start).0 (max + 2))
              ≡ ones v (max + 2) (v.bits - (max + 2)))
        → length (elim r as (λ _. List ℕ) [
          | none ↦ []
          | some (min, max) ↦
              numbers_from min (max - min + 1) ++ scan_loop n (bv_scan v start).0 (max + 2)
        ])
          ≡ ones v start (v.bits - start)
    after r (no_run g) rec =
        omega (arith, ones_none v start (v.bits - start) (λ j a b. g j a (omega arith)))
    after r (run min max a b c x y z) rec =
        length-append (numbers_from min (max - min + 1)) _
        ∙ omega (
          arith,
          ones_run v start min max a b c x y z,
          rec max (omega arith),
          length-numbers_from min (max - min + 1),
        )

-- There are as many as `bv_count` counts.
pub length-set_bits : (v : BitVector) → IsFull v → length (set_bits v) ≡ ones v 0 v.bits
unfolding set_bits
length-set_bits v h =
    length-scan_loop (v.bits + 1) v 0 h (omega arith)
    ∙ (let e : v.bits - 0 ≡ v.bits = omega arith in rw e)
