-- ===== src/BitVector/Full.antt =====
-- Vectors whose words are words: what each operation keeps, and what it does to the bits in use.
use Prim.Native.Nat.{bit_and, bit_or}
use marpa_r.Prelude.{
  ℕ, zero, suc, ◌/◌, ◌%◌, ◌^◌, ◌≤◌, ◌<◌, ◌≡◌, refl, ◌∙◌, sym, ap, false, not, ◌&&◌, ◌||◌, List, [],
  ◌∷◌, map, All, All-modify, length, get_or, replicate, length-replicate, length-modify, arith,
}
use native.Mathlib.Nat.{pow-le-pow_right}
use marpa_r.BitVector.{
  BitVector, bits_to_size, wordbits, bit_mask, lnot, mask_last, zip_words, copy_words, lbv_bit_test,
  bv_create, bv_shadow, bv_copy, bv_clone, bv_bit_set, bv_bit_clear, bv_bit_test, bv_not, bv_and,
  bv_or, lbv_bit_set, lbv_bit_clear,
}
use marpa_r.BitVector.Bits.{
  testbit, testbit-zero, testbit-and, testbit-or, testbit-complement, bit_and-le, bit_or-lt,
}
use marpa_r.BitVector.Laws.{
  IsVector, bv_create-IsVector, bv_bit_set-IsVector, word_below, lbv_bit_test_lem, length-mask_last,
  test-mask_last, length-zip_words, get_or-zip_words,
}

-- All words are words of 32 bits.
abbrev pub AllWords : List ℕ → Type 0
AllWords = All (λ w. w < 2 ^ 32)

pub record IsFull (v : BitVector) : Type 0 where
  pub vector : IsVector v
  pub small : AllWords v.words

-- A full vector of `n` bits.
pub record IsSized (n : ℕ) (v : BitVector) : Type 0 where
  pub full : IsFull v
  pub size : v.bits ≡ n

pub get_or-AllWords : (ws : List ℕ) (i : ℕ) → AllWords ws → get_or ws i 0 < 2 ^ 32
get_or-AllWords [] i a = omega arith
get_or-AllWords (w ∷ ws) zero a = a.0
get_or-AllWords (w ∷ ws) (suc i) a = get_or-AllWords ws i a.1

pub lnot-lt : (w : ℕ) → lnot w < 2 ^ 32
lnot-lt w = omega arith

pub mask_last-AllWords : (ws : List ℕ) (m : ℕ) → AllWords ws → AllWords (mask_last ws m)
unfolding mask_last
mask_last-AllWords [] m a = tt
mask_last-AllWords (x ∷ []) m a = (omega (arith, bit_and-le x x m (omega arith), a.0), tt)
mask_last-AllWords (x ∷ y ∷ ws) m a = (a.0, mask_last-AllWords (y ∷ ws) m a.1)

replicate-AllWords : (n : ℕ) → AllWords (replicate n 0)
replicate-AllWords zero = tt
replicate-AllWords (suc n) = (omega arith, replicate-AllWords n)

get_or-replicate : (n k : ℕ) → get_or {A = ℕ} (replicate n 0) k 0 ≡ 0
get_or-replicate zero k = refl
get_or-replicate (suc n) zero = refl
get_or-replicate (suc n) (suc k) = get_or-replicate n k

pub bv_create-IsFull : (n : ℕ) → IsFull (bv_create n)
unfolding bv_create
bv_create-IsFull n = record {
  vector = bv_create-IsVector n;
  small = replicate-AllWords (bits_to_size n);
}

pub bv_bit_test-create : (n j : ℕ) → bv_bit_test (bv_create n) j ≡ false
unfolding bv_bit_test bv_create
bv_bit_test-create n j =
    lbv_bit_test_lem (replicate (bits_to_size n) 0) j
    ∙ rw (get_or-replicate (bits_to_size n) (j / 32)) (testbit-zero (j % 32))

bit_mask-lt : (i : ℕ) → bit_mask i < 2 ^ 32
bit_mask-lt i =
    let below : 2 ^ (i % 32) ≤ 2 ^ 31 = pow-le-pow_right (omega arith) {j = 31} (omega arith) in
    omega arith

pub bv_bit_set-IsFull : (v : BitVector) (i : ℕ) → IsFull v → IsFull (bv_bit_set v i)
unfolding bv_bit_set lbv_bit_set
bv_bit_set-IsFull v i h = record {
  vector = bv_bit_set-IsVector v i h.vector;
  small =
      All-modify (λ w. w < 2 ^ 32) v.words (i / wordbits) (λ w. bit_or w (bit_mask i))
        (λ w l. bit_or-lt 32 w (bit_mask i) l (bit_mask-lt i)) h.small;
}

pub bits-set : (v : BitVector) (i : ℕ) → (bv_bit_set v i).bits ≡ v.bits
unfolding bv_bit_set
bits-set v i = refl

pub bv_bit_clear-IsFull : (v : BitVector) (i : ℕ) → IsFull v → IsFull (bv_bit_clear v i)
unfolding bv_bit_clear lbv_bit_clear
bv_bit_clear-IsFull v i h = record {
  vector = record {
    sized = h.vector.sized;
    filled = length-modify v.words (i / wordbits) _ ∙ h.vector.filled;
    masked = h.vector.masked;
  };
  small =
      All-modify (λ w. w < 2 ^ 32) v.words (i / wordbits) (λ w. bit_and w (lnot (bit_mask i)))
        (λ w l. omega (arith, bit_and-le w w (lnot (bit_mask i)) (omega arith))) h.small;
}

pub bits-clear : (v : BitVector) (i : ℕ) → (bv_bit_clear v i).bits ≡ v.bits
unfolding bv_bit_clear
bits-clear v i = refl

copy_words_lem : (xs ys : List ℕ) → length xs ≡ length ys → copy_words xs ys ≡ ys
unfolding copy_words
copy_words_lem [] [] e = refl
copy_words_lem [] (y ∷ ys) e = absurd (omega arith)
copy_words_lem (x ∷ xs) [] e = absurd (omega arith)
copy_words_lem (x ∷ xs) (y ∷ ys) e = ap (λ zs. y ∷ zs) (copy_words_lem xs ys (omega arith))

-- A clone is the same vector.
pub bv_clone_lem : (v : BitVector) → IsFull v → bv_clone v ≡ v
unfolding bv_clone bv_copy bv_shadow bv_create
bv_clone_lem v h =
    rw
      (
        copy_words_lem (replicate (bits_to_size v.bits) 0) v.words
            (length-replicate (bits_to_size v.bits) 0 ∙ sym (h.vector.filled ∙ h.vector.sized)),
        ← h.vector.sized,
        ← h.vector.masked,
      )
      refl

length-map_words : (f : ℕ → ℕ) (xs : List ℕ) → length (map f xs) ≡ length xs
length-map_words f [] = refl
length-map_words f (x ∷ xs) = ap suc (length-map_words f xs)

get_or-map_words :
    (f : ℕ → ℕ) (xs : List ℕ) (k : ℕ) → k < length xs → get_or (map f xs) k 0 ≡ f (get_or xs k 0)
get_or-map_words f [] k l = elim l [ ]
get_or-map_words f (x ∷ xs) zero l = refl
get_or-map_words f (x ∷ xs) (suc k) l = get_or-map_words f xs k (omega arith)

map-AllWords :
    (f : ℕ → ℕ) (xs : List ℕ)
    → ((w : ℕ) → w < 2 ^ 32 → f w < 2 ^ 32)
    → AllWords xs
    → AllWords (map f xs)
map-AllWords f [] s a = tt
map-AllWords f (x ∷ xs) s a = (s x a.0, map-AllWords f xs s a.1)

zip_words-AllWords :
    (f : ℕ → ℕ → ℕ) (xs ys : List ℕ)
    → ((a b : ℕ) → a < 2 ^ 32 → b < 2 ^ 32 → f a b < 2 ^ 32)
    → AllWords xs
    → AllWords ys
    → AllWords (zip_words f xs ys)
unfolding zip_words
zip_words-AllWords f [] ys s a b = tt
zip_words-AllWords f (x ∷ xs) [] s a b = a
zip_words-AllWords f (x ∷ xs) (y ∷ ys) s a b = (s x y a.0 b.0, zip_words-AllWords f xs ys s a.1 b.1)

-- A vector with other words, of which the unused bits are cleared.
module _ (x : BitVector) (ws : List ℕ) (h : IsVector x) (l : length ws ≡ x.size) where
  filled_IsFull : AllWords ws → IsFull (record x { words = mask_last ws x.mask })
  filled_IsFull a = record {
    vector = record { sized = h.sized; filled = length-mask_last ws x.mask ∙ l; masked = h.masked };
    small = mask_last-AllWords ws x.mask a;
  }

  test_filled :
      (j : ℕ)
      → j < x.bits
      → lbv_bit_test (mask_last ws x.mask) j ≡ testbit (get_or ws (j / 32) 0) (j % 32)
  test_filled j b =
      rw (h.masked) (test-mask_last ws x.bits j (l ∙ h.sized) b) ∙ lbv_bit_test_lem ws j

module _ (x y : BitVector) (hx : IsVector x) (hy : IsFull y) (same : x.bits ≡ y.bits) where
  sizes : length y.words ≡ x.size
  sizes = omega (arith, hx.sized, hy.vector.filled, hy.vector.sized, same)

  pub bv_not-IsFull : IsFull (bv_not x y)
  unfolding bv_not
  bv_not-IsFull =
      filled_IsFull x (map lnot y.words) hx (length-map_words lnot y.words ∙ sizes)
        (map-AllWords lnot y.words (λ w l. lnot-lt w) hy.small)

  -- X := ~Y, on the bits in use.
  pub bv_bit_test-not : (j : ℕ) → j < x.bits → bv_bit_test (bv_not x y) j ≡ not (bv_bit_test y j)
  unfolding bv_bit_test bv_not
  bv_bit_test-not j l =
      test_filled x (map lnot y.words) hx (length-map_words lnot y.words ∙ sizes) j l
      ∙ rw
          (
            get_or-map_words lnot y.words (j / 32)
                (omega (arith, word_below y j hy.vector (omega (arith, same)))),
            lbv_bit_test_lem y.words j,
          )
          (testbit-complement 32 (get_or y.words (j / 32) 0) (j % 32)
            (get_or-AllWords y.words (j / 32) hy.small) (omega arith))

  module _ (z : BitVector) (hz : IsFull z) (same' : x.bits ≡ z.bits) where
    lengths : length y.words ≡ length z.words
    lengths =
        omega
          (arith, hz.vector.filled, hz.vector.sized, hy.vector.filled, hy.vector.sized, same, same')

    pub bv_or-IsFull : IsFull (bv_or x y z)
    unfolding bv_or
    bv_or-IsFull =
        filled_IsFull x (zip_words bit_or y.words z.words) hx
          (length-zip_words bit_or y.words z.words ∙ sizes)
          (zip_words-AllWords bit_or y.words z.words (λ a b p q. bit_or-lt 32 a b p q) hy.small
            hz.small)

    -- X := Y | Z, on the bits in use.
    pub bv_bit_test-or :
        (j : ℕ) → j < x.bits → bv_bit_test (bv_or x y z) j ≡ (bv_bit_test y j || bv_bit_test z j)
    unfolding bv_bit_test bv_or
    bv_bit_test-or j l =
        test_filled x (zip_words bit_or y.words z.words) hx
          (length-zip_words bit_or y.words z.words ∙ sizes) j l
        ∙ rw
            (
              get_or-zip_words bit_or y.words z.words (j / 32) lengths
                  (omega (arith, word_below y j hy.vector (omega (arith, same)))),
              lbv_bit_test_lem y.words j,
              lbv_bit_test_lem z.words j,
            )
            (testbit-or (get_or y.words (j / 32) 0) (get_or z.words (j / 32) 0) (j % 32))

    pub bv_and-IsFull : IsFull (bv_and x y z)
    unfolding bv_and
    bv_and-IsFull =
        filled_IsFull x (zip_words bit_and y.words z.words) hx
          (length-zip_words bit_and y.words z.words ∙ sizes)
          (zip_words-AllWords bit_and y.words z.words
            (λ a b p q. omega (arith, bit_and-le a a b (omega arith))) hy.small hz.small)

    -- X := Y & Z, on the bits in use.
    pub bv_bit_test-and :
        (j : ℕ) → j < x.bits → bv_bit_test (bv_and x y z) j ≡ (bv_bit_test y j && bv_bit_test z j)
    unfolding bv_bit_test bv_and
    bv_bit_test-and j l =
        test_filled x (zip_words bit_and y.words z.words) hx
          (length-zip_words bit_and y.words z.words ∙ sizes) j l
        ∙ rw
            (
              get_or-zip_words bit_and y.words z.words (j / 32) lengths
                  (omega (arith, word_below y j hy.vector (omega (arith, same)))),
              lbv_bit_test_lem y.words j,
              lbv_bit_test_lem z.words j,
            )
            (testbit-and (get_or y.words (j / 32) 0) (get_or z.words (j / 32) 0) (j % 32))
