-- ===== src/BitVector/Tests.antt =====
-- Bits across the border of two words.
use marpa_r.Prelude.{
  ℕ, ◌<◌, ◌↔◌, true, false, Ascending, has, ltb, ◌≡◌, refl, not, ◌&&◌, ◌||◌, ◌==◌, [], ◌∷◌, arith,
}
use marpa_r.BitVector.{
  BitVector, bv_create, bv_bit_set, bv_bit_clear, bv_bit_test, bv_bit_test_then_set, bv_or_assign,
  bv_is_empty,
}
use marpa_r.BitVector.Full.{IsFull, bv_create-IsFull, bv_bit_set-IsFull}
use marpa_r.BitVector.Masked.{SameBits, bv_is_empty_lem}
use marpa_r.BitVector.Scan.{bv_scan, bv_count, set_bits}
use marpa_r.BitVector.Scan.Runs.{Scanned, bv_scan_lem}
use marpa_r.BitVector.Scan.Count.{ones, bv_count_lem, set_bits_lem}
use marpa_r.BitVector.Laws.{
  IsVector, bv_create-IsVector, bv_bit_set-IsVector, bv_bit_test-set, bv_bit_test-clear,
  bv_bit_test_then_set_lem, bv_bit_test-or_assign,
}

-- 40 bits, of which 3 and 35 are set.
abbrev marked : BitVector
marked = bv_bit_set (bv_bit_set (bv_create 40) 3) 35

marked_words : marked.words ≡ 8 ∷ 8 ∷ []
unfolding bv_create bv_bit_set
marked_words = refl

marked-IsVector : IsVector marked
marked-IsVector = bv_bit_set-IsVector _ 35 (bv_bit_set-IsVector _ 3 (bv_create-IsVector 40))

marked_bits : marked.bits ≡ 40
unfolding bv_create bv_bit_set
marked_bits = refl

bv_bit_test-set_example :
    bv_bit_test (bv_bit_set marked 36) 35 ≡ (36 == 35 || bv_bit_test marked 35)
unfolding bv_create bv_bit_set
bv_bit_test-set_example = bv_bit_test-set marked 36 35 marked-IsVector (ground arith)

bv_bit_test-clear_example :
    bv_bit_test (bv_bit_clear marked 35) 35 ≡ (not (35 == 35) && bv_bit_test marked 35)
unfolding bv_create bv_bit_set
bv_bit_test-clear_example = bv_bit_test-clear marked 35 35 marked-IsVector (ground arith)

bv_bit_test_then_set_lem_example :
    ((bv_bit_test_then_set marked 4).1 ≡ bv_bit_test marked 4)
    × (bv_bit_test (bv_bit_test_then_set marked 4).0 35 ≡ (4 == 35 || bv_bit_test marked 35))
unfolding bv_create bv_bit_set
bv_bit_test_then_set_lem_example =
    bv_bit_test_then_set_lem marked 4 35 marked-IsVector (ground arith)

bv_bit_test-or_assign_example :
    bv_bit_test (bv_or_assign marked marked) 35 ≡ (bv_bit_test marked 35 || bv_bit_test marked 35)
unfolding bv_create bv_bit_set
bv_bit_test-or_assign_example =
    bv_bit_test-or_assign marked marked marked-IsVector marked-IsVector refl 35 (ground arith)

marked-IsFull : IsFull marked
marked-IsFull =
    bv_bit_set-IsFull (bv_bit_set (bv_create 40) 3) 35
      (bv_bit_set-IsFull (bv_create 40) 3 (bv_create-IsFull 40))

marked-set_bits : set_bits marked ≡ 3 ∷ 35 ∷ []
unfolding set_bits bv_create bv_bit_set
marked-set_bits = refl

marked_count : bv_count marked ≡ 2
unfolding bv_count bv_create bv_bit_set
marked_count = refl

bv_scan_lem_example : SameBits marked (bv_scan marked 4).0 × Scanned marked 4 (bv_scan marked 4).1
bv_scan_lem_example = bv_scan_lem marked 4 marked-IsFull

bv_count_lem_example : bv_count marked ≡ ones marked 0 marked.bits
bv_count_lem_example = bv_count_lem marked marked-IsFull

set_bits_lem_example :
    Ascending (set_bits marked)
    × ((z : ℕ) → has (set_bits marked) z ≡ (ltb z marked.bits && bv_bit_test marked z))
set_bits_lem_example = set_bits_lem marked marked-IsFull

bv_is_empty_lem_example :
    ((bv_is_empty marked).1 ≡ true) ↔ ((j : ℕ) → j < marked.bits → bv_bit_test marked j ≡ false)
bv_is_empty_lem_example = bv_is_empty_lem marked marked-IsFull
