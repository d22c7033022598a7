-- ===== src/BitVector/Laws.antt =====
-- The operations on bit vectors, as what they do to the bits that `bv_bit_test` reads.
use Prim.Native.Nat.{bit_and, bit_or}
use marpa_r.Prelude.{
  ℕ, zero, suc, ◌/◌, ◌%◌, ◌^◌, ◌≤◌, ◌<◌, ◌≡◌, refl, ap, ◌∙◌, Bool, true, false, not, ◌&&◌, ◌||◌,
  inl, inr, List, [], ◌∷◌, length, get_or, modify, length-replicate, length-modify,
  get_or-modify_self, get_or-modify_ne, arith, ◌==◌, if◌then◌else◌, Bool-cases,
}
use native.Mathlib.Decide.{ℕ_discrete}
use native.Mathlib.Nat.{pow-le-pow_right}
use marpa_r.BitVector.Bits.{
  testbit, testbit-and, testbit-or, testbit-pow, testbit-low_mask, testbit-complement, bit_and-pow,
}
use marpa_r.BitVector.{
  BitVector, bits_to_size, bits_to_unused_mask, wordbits, bit_mask, lnot, bv_create, mask_last,
  zip_words, lbv_bit_set, lbv_bit_clear, lbv_bit_test, bv_bit_set, bv_bit_clear, bv_bit_test,
  bv_bit_test_then_set, bv_or_assign,
}

-- A vector whose header fits its words.
pub record IsVector (v : BitVector) : Type 0 where
  pub sized : v.size ≡ bits_to_size v.bits
  pub filled : length v.words ≡ v.size
  pub masked : v.mask ≡ bits_to_unused_mask v.bits

pub bv_create-IsVector : (bits : ℕ) → IsVector (bv_create bits)
unfolding bv_create
bv_create-IsVector bits = record {
  sized = refl;
  filled = length-replicate (bits_to_size bits) 0;
  masked = refl;
}

pub bv_bit_set-IsVector : (v : BitVector) (i : ℕ) → IsVector v → IsVector (bv_bit_set v i)
unfolding bv_bit_set
bv_bit_set-IsVector v i h = record {
  sized = h.sized;
  filled = length-modify v.words (i / wordbits) _ ∙ h.filled;
  masked = h.masked;
}

-- A bit that the vector has lies in one of its words.
pub word_below : (v : BitVector) (i : ℕ) → IsVector v → i < v.bits → i / wordbits < length v.words
word_below v i h l = omega (arith, h.sized, h.filled)

-- The test is of the digit of the word.
pub lbv_bit_test_lem :
    (ws : List ℕ) (i : ℕ) → lbv_bit_test ws i ≡ testbit (get_or ws (i / wordbits) 0) (i % wordbits)
unfolding lbv_bit_test
lbv_bit_test_lem ws i = bit_and-pow (get_or ws (i / wordbits) 0) (i % wordbits)

lbv_bit_test-set :
    (ws : List ℕ) (i j : ℕ)
    → i / wordbits < length ws
    → lbv_bit_test (lbv_bit_set ws i) j ≡ (i == j || lbv_bit_test ws j)
unfolding lbv_bit_set
lbv_bit_test-set ws i j l =
    let f : ℕ → ℕ = λ w. bit_or w (bit_mask i) in
    rw (lbv_bit_test_lem (modify ws (i / wordbits) f) j, lbv_bit_test_lem ws j)
      (elim (ℕ_discrete (i / wordbits) (j / wordbits)) [
        | yes e ↦
            rw
              (
                ← e,
                get_or-modify_self ws (i / wordbits) f 0 l,
                testbit-or (get_or ws (i / wordbits) 0) (bit_mask i) (j % wordbits),
                testbit-pow (i % wordbits) (j % wordbits),
              )
              (ground arith)
        | no ne ↦ rw (get_or-modify_ne ws (i / wordbits) (j / wordbits) f 0 ne) (ground arith)
      ])

-- Setting bit `i` sets it, and leaves every other bit as it was.
pub bv_bit_test-set :
    (v : BitVector) (i j : ℕ)
    → IsVector v
    → i < v.bits
    → bv_bit_test (bv_bit_set v i) j ≡ (i == j || bv_bit_test v j)
unfolding bv_bit_test bv_bit_set
bv_bit_test-set v i j h l = lbv_bit_test-set v.words i j (word_below v i h l)

bit_mask-lt : (i : ℕ) → bit_mask i < 2 ^ 32
bit_mask-lt i =
    let below : 2 ^ (i % 32) ≤ 2 ^ 31 = pow-le-pow_right (omega arith) {j = 31} (omega arith) in
    omega arith

lbv_bit_test-clear :
    (ws : List ℕ) (i j : ℕ)
    → i / wordbits < length ws
    → lbv_bit_test (lbv_bit_clear ws i) j ≡ (not (i == j) && lbv_bit_test ws j)
unfolding lbv_bit_clear
lbv_bit_test-clear ws i j l =
    let f : ℕ → ℕ = λ w. bit_and w (lnot (bit_mask i)) in
    rw (lbv_bit_test_lem (modify ws (i / wordbits) f) j, lbv_bit_test_lem ws j)
      (elim (ℕ_discrete (i / wordbits) (j / wordbits)) [
        | yes e ↦
            rw
              (
                ← e,
                get_or-modify_self ws (i / wordbits) f 0 l,
                testbit-and (get_or ws (i / wordbits) 0) (lnot (bit_mask i)) (j % wordbits),
                testbit-complement 32 (bit_mask i) (j % wordbits) (bit_mask-lt i) (omega arith),
                testbit-pow (i % wordbits) (j % wordbits),
              )
              (ground arith)
        | no ne ↦ rw (get_or-modify_ne ws (i / wordbits) (j / wordbits) f 0 ne) (ground arith)
      ])

-- Clearing bit `i` clears it, and leaves every other bit as it was.
pub bv_bit_test-clear :
    (v : BitVector) (i j : ℕ)
    → IsVector v
    → i < v.bits
    → bv_bit_test (bv_bit_clear v i) j ≡ (not (i == j) && bv_bit_test v j)
unfolding bv_bit_test bv_bit_clear
bv_bit_test-clear v i j h l = lbv_bit_test-clear v.words i j (word_below v i h l)

-- The test reports the bit as it was, and the bit is set afterwards, the others as before.
pub bv_bit_test_then_set_lem :
    (v : BitVector) (i j : ℕ)
    → IsVector v
    → i < v.bits
    → ((bv_bit_test_then_set v i).1 ≡ bv_bit_test v i)
      × (bv_bit_test (bv_bit_test_then_set v i).0 j ≡ (i == j || bv_bit_test v j))
unfolding bv_bit_test_then_set
bv_bit_test_then_set_lem v i j h l = elim (Bool-cases (bv_bit_test v i)) [
  | inl e ↦ rw e (refl, same (i == j) refl e)
  | inr e ↦ rw e (refl, bv_bit_test-set v i j h l)
]
  where
    same :
        (b : Bool)
        → (i == j) ≡ b
        → bv_bit_test v i ≡ true
        → bv_bit_test v j ≡ (b || bv_bit_test v j)
    same true e t = let p : i ≡ j = ground arith in rw (← p) t
    same false e t = refl

pub get_or-zip_words :
    (f : ℕ → ℕ → ℕ) (xs ys : List ℕ) (k : ℕ)
    → length xs ≡ length ys
    → k < length xs
    → get_or (zip_words f xs ys) k 0 ≡ f (get_or xs k 0) (get_or ys k 0)
unfolding zip_words
get_or-zip_words f [] ys k e l = elim l [ ]
get_or-zip_words f (x ∷ xs) [] k e l = absurd (omega arith)
get_or-zip_words f (x ∷ xs) (y ∷ ys) zero e l = refl
get_or-zip_words f (x ∷ xs) (y ∷ ys) (suc k) e l =
    get_or-zip_words f xs ys k (omega arith) (omega arith)

pub length-zip_words : (f : ℕ → ℕ → ℕ) (xs ys : List ℕ) → length (zip_words f xs ys) ≡ length xs
unfolding zip_words
length-zip_words f [] ys = refl
length-zip_words f (x ∷ xs) [] = refl
length-zip_words f (x ∷ xs) (y ∷ ys) = ap suc (length-zip_words f xs ys)

pub length-mask_last : (ws : List ℕ) (m : ℕ) → length (mask_last ws m) ≡ length ws
unfolding mask_last
length-mask_last [] m = refl
length-mask_last (x ∷ []) m = refl
length-mask_last (x ∷ y ∷ ws) m = ap suc (length-mask_last (y ∷ ws) m)

pub get_or-mask_last :
    (ws : List ℕ) (m k : ℕ)
    → k < length ws
    → get_or (mask_last ws m) k 0
      ≡ (if suc k == length ws then bit_and (get_or ws k 0) m else get_or ws k 0)
unfolding mask_last
get_or-mask_last [] m k l = elim l [ ]
get_or-mask_last (x ∷ []) m zero l = refl
get_or-mask_last (x ∷ []) m (suc k) l = absurd (omega arith)
get_or-mask_last (x ∷ y ∷ ws) m zero l = ground arith
get_or-mask_last (x ∷ y ∷ ws) m (suc k) l =
    get_or-mask_last (y ∷ ws) m k (omega arith) ∙ ground arith

-- The mask of the last word has the bits in use.
mask_bit :
    (bits j : ℕ)
    → j < bits
    → suc (j / wordbits) ≡ bits_to_size bits
    → testbit (bits_to_unused_mask bits) (j % wordbits) ≡ true
unfolding bits_to_unused_mask
mask_bit bits j l e = elim (Bool-cases (bits % 32 == 0)) [
  | inl z ↦ rw z (testbit-low_mask 32 (j % 32) ∙ ground arith)
  | inr p ↦ rw p (testbit-low_mask (bits % 32) (j % 32) ∙ ground arith)
]

-- On the bits in use the masking changes nothing.
pub test-mask_last :
    (ws : List ℕ) (bits j : ℕ)
    → length ws ≡ bits_to_size bits
    → j < bits
    → lbv_bit_test (mask_last ws (bits_to_unused_mask bits)) j ≡ lbv_bit_test ws j
test-mask_last ws bits j e l =
    let k = j / wordbits in
    let m = bits_to_unused_mask bits in
    rw
      (
        lbv_bit_test_lem (mask_last ws m) j,
        lbv_bit_test_lem ws j,
        get_or-mask_last ws m k (omega (arith, e)),
      )
      (elim (Bool-cases (suc k == length ws)) [
        | inl last ↦
            rw
              (
                last,
                testbit-and (get_or ws k 0) m (j % wordbits),
                mask_bit bits j l (ground (arith, e)),
              )
              (ground arith)
        | inr inner ↦ rw inner
      ])

module _ (x y : BitVector) (hx : IsVector x) (hy : IsVector y) (same : x.bits ≡ y.bits) where
  -- X |= Y is the union, on the bits that the vectors have.
  pub bv_bit_test-or_assign :
      (j : ℕ) → j < x.bits → bv_bit_test (bv_or_assign x y) j ≡ (bv_bit_test x j || bv_bit_test y j)
  unfolding bv_bit_test bv_or_assign
  bv_bit_test-or_assign j l =
      let k = j / wordbits in
      let ws = zip_words bit_or x.words y.words in
      let sizes : length x.words ≡ length y.words =
        omega (arith, hx.filled, hy.filled, hx.sized, hy.sized, same) in
      rw
        (
          hx.masked,
          test-mask_last ws x.bits j
              (length-zip_words bit_or x.words y.words ∙ hx.filled ∙ hx.sized) l,
          lbv_bit_test_lem ws j,
          lbv_bit_test_lem x.words j,
          lbv_bit_test_lem y.words j,
          get_or-zip_words bit_or x.words y.words k sizes (word_below x j hx l),
        )
        (testbit-or (get_or x.words k 0) (get_or y.words k 0) (j % wordbits))

  pub bv_or_assign-IsVector : IsVector (bv_or_assign x y)
  unfolding bv_or_assign
  bv_or_assign-IsVector = record {
    sized = hx.sized;
    filled =
        length-mask_last (zip_words bit_or x.words y.words) x.mask
        ∙ length-zip_words bit_or x.words y.words
        ∙ hx.filled;
    masked = hx.masked;
  }
