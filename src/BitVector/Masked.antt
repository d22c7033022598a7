-- ===== src/BitVector/Masked.antt =====
-- Vectors after the bits out of use are cleared; the test for an empty one.
use marpa_r.Prelude.{
  ℕ, zero, suc, ◌+◌, ◌*◌, ◌/◌, ◌%◌, ◌≤◌, ◌<◌, ◌≡◌, ◌↔◌, refl, ◌∙◌, sym, true, false, List, [], ◌∷◌,
  length, get_or, ltb, ◌==◌, inl, inr, arith, Bool-cases,
}
use marpa_r.BitVector.{
  BitVector, bits_to_unused_mask, mask_last, all_zero, bv_is_empty, lbv_bit_test, bv_bit_test,
}
use marpa_r.BitVector.Bits.{testbit, testbit-zero, testbit-and, testbit-low_mask, testbit-injective}
use marpa_r.BitVector.Laws.{lbv_bit_test_lem, length-mask_last, get_or-mask_last, test-mask_last}
use marpa_r.BitVector.Full.{IsFull, get_or-AllWords, mask_last-AllWords}

-- Two vectors with the same bits in use.
pub record SameBits (v w : BitVector) : Type 0 where
  pub full : IsFull w
  pub bits : w.bits ≡ v.bits
  pub same : (j : ℕ) → j < v.bits → bv_bit_test w j ≡ bv_bit_test v j

-- Clearing the bits out of use.
abbrev pub masked : BitVector → BitVector
masked v = record v { words = mask_last v.words v.mask }

pub masked-SameBits : (v : BitVector) → IsFull v → SameBits v (masked v)
unfolding bv_bit_test
masked-SameBits v h = record {
  full = record {
    vector = record {
      sized = h.vector.sized;
      filled = length-mask_last v.words v.mask ∙ h.vector.filled;
      masked = h.vector.masked;
    };
    small = mask_last-AllWords v.words v.mask h.small;
  };
  bits = refl;
  same = λ j l.
      rw (h.vector.masked) (test-mask_last v.words v.bits j (h.vector.filled ∙ h.vector.sized) l);
}

-- A bit out of use is clear after that.
pub masked-unused :
    (v : BitVector) (j : ℕ)
    → IsFull v
    → v.bits ≤ j
    → j < v.size * 32
    → lbv_bit_test (mask_last v.words v.mask) j ≡ false
unfolding bits_to_unused_mask
masked-unused v j h l u =
    let k = j / 32 in
    let ws = v.words in
    let m = v.mask in
    let small : k < length ws = omega (arith, h.vector.filled) in
    let is_last : suc k == length ws ≡ true =
      ground (arith, h.vector.filled, h.vector.sized, l, u) in
    let r : v.bits % 32 == 0 ≡ false = ground (arith, h.vector.sized, l, u) in
    lbv_bit_test_lem (mask_last ws m) j
    ∙ rw
        (
          get_or-mask_last ws m k small,
          is_last,
          testbit-and (get_or ws k 0) m (j % 32),
          h.vector.masked,
          r,
          testbit-low_mask (v.bits % 32) (j % 32),
        )
        (ground (arith, h.vector.sized, l, u))

all_zero_words : (ws : List ℕ) (k : ℕ) → all_zero ws ≡ true → get_or ws k 0 ≡ 0
unfolding all_zero
all_zero_words [] k e = refl
all_zero_words (w ∷ ws) zero e = ground (arith, e)
all_zero_words (w ∷ ws) (suc k) e = all_zero_words ws k (ground (arith, e))

words-all_zero : (ws : List ℕ) → ((k : ℕ) → k < length ws → get_or ws k 0 ≡ 0) → all_zero ws ≡ true
unfolding all_zero
words-all_zero [] h = refl
words-all_zero (w ∷ ws) h =
    let rest : all_zero ws ≡ true = words-all_zero ws (λ k l. h (suc k) (omega arith)) in
    ground (arith, rest, h 0 (omega arith))

digit_lem :
    (ws : List ℕ) (k i : ℕ) → i < 32 → lbv_bit_test ws (k * 32 + i) ≡ testbit (get_or ws k 0) i
digit_lem ws k i s =
    let d : (k * 32 + i) / 32 ≡ k = omega arith in
    let r : (k * 32 + i) % 32 ≡ i = omega arith in lbv_bit_test_lem ws (k * 32 + i) ∙ rw (d, r) refl

-- The test says whether all the bits in use are clear.
pub bv_is_empty_lem :
    (v : BitVector)
    → IsFull v
    → ((bv_is_empty v).1 ≡ true) ↔ ((j : ℕ) → j < v.bits → bv_bit_test v j ≡ false)
unfolding bv_is_empty bv_bit_test
bv_is_empty_lem v h =
    let ws = mask_last v.words v.mask in
    let sized : length ws ≡ v.size = length-mask_last v.words v.mask ∙ h.vector.filled in
    let m = masked-SameBits v h in
    (
      λ e j l.
          sym (m.same j l)
          ∙ lbv_bit_test_lem ws j
          ∙ rw (all_zero_words ws (j / 32) e) (testbit-zero (j % 32)),
      λ c. words-all_zero ws (λ k l.
          testbit-injective 32 (get_or ws k 0) 0 (get_or-AllWords ws k m.full.small) (omega arith)
            (λ i s.
              let u : k * 32 + i < v.size * 32 = omega (arith, sized) in
              let t : lbv_bit_test ws (k * 32 + i) ≡ false =
                elim (Bool-cases (ltb (k * 32 + i) v.bits)) [
                  | inl b ↦
                      let b' : k * 32 + i < v.bits = ground (arith, b) in
                      m.same (k * 32 + i) b' ∙ c (k * 32 + i) b'
                  | inr b ↦ masked-unused v (k * 32 + i) h (ground (arith, b)) u
                ] in
              sym (digit_lem ws k i s) ∙ t ∙ sym (testbit-zero i))),
    )
