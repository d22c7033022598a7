-- ===== src/BitVector.antt =====
-- The bit vectors of cpan/engine/read_only/marpa.c: arrays of 32-bit words behind three hidden
-- words (the number of bits, the number of words, and the mask of the used bits of the last word),
-- and the "light" vectors, which are the words alone.
--
-- A word is a number below 2 ^ 32. `vector + k` is the k-th data word; a read past the end is 0
-- here and a write there does nothing, and no function below does either on a vector made for
-- the bits that it is asked for.
pub mod Bits
pub mod Laws
pub mod Full
pub mod Masked
pub mod Scan
pub mod Tests
use Prim.Native.Nat.{bit_and, bit_or}
use marpa_r.Prelude.{
  ℕ, zero, suc, ◌+◌, ◌-◌, ◌*◌, ◌/◌, ◌%◌, ◌^◌, Bool, true, false, ◌&&◌, not, List, [], ◌∷◌, map,
  length, get_or, modify, replicate, ◌==◌, if◌then◌else◌,
}

-- `lbv_wordbits` and `bv_wordbits`: `sizeof(LBW) * 8u`, with LBW an unsigned int of 4 bytes.
abbrev pub wordbits : ℕ
wordbits = 32

-- `~w` of a word.
abbrev pub lnot : ℕ → ℕ
lnot w = 2 ^ 32 - 1 - w

-- `bv_lsb << (bit % bv_wordbits)`: the shift is below 32, so nothing is cut off.
abbrev pub bit_mask : ℕ → ℕ
bit_mask bit = 2 ^ (bit % wordbits)

-- `lbv_bits_to_size` and `bv_bits_to_size`.
abbrev pub bits_to_size : ℕ → ℕ
bits_to_size bits = (bits + 31) / wordbits

-- `~(~0uL << mask)` cut to a word, for `mask` the bits in use of the last word; all ones if it is 0.
unfoldable pub bits_to_unused_mask : ℕ → ℕ
bits_to_unused_mask bits =
    let mask = bits % wordbits in if mask == 0 then 2 ^ 32 - 1 else 2 ^ mask - 1

pub record BitVector : Type 0 where
  pub bits : ℕ
  pub size : ℕ
  pub mask : ℕ
  pub words : List ℕ

-- `bv_create` and `bv_obs_create`, which differ in who owns the memory.
unfoldable pub bv_create : ℕ → BitVector
unfolding bits_to_unused_mask
bv_create bits = record {
  bits = bits;
  size = bits_to_size bits;
  mask = bits_to_unused_mask bits;
  words = replicate (bits_to_size bits) 0;
}

unfoldable pub bv_shadow : BitVector → BitVector
unfolding bv_create
bv_shadow bv = bv_create bv.bits

-- The first words of `from` in place of those of `to`.
unfoldable pub copy_words : List ℕ → List ℕ → List ℕ
copy_words [] from = []
copy_words (x ∷ to) [] = x ∷ to
copy_words (x ∷ to) (y ∷ from) = y ∷ copy_words to from

unfoldable pub bv_copy : BitVector → BitVector → BitVector
unfolding copy_words
bv_copy to from = record to { words = copy_words to.words from.words }

unfoldable pub bv_clone : BitVector → BitVector
unfolding bv_copy bv_shadow
bv_clone bv = bv_copy (bv_shadow bv) bv

-- `*(--X) &= mask` after the loop over the words.
unfoldable pub mask_last : List ℕ → ℕ → List ℕ
mask_last [] m = []
mask_last (x ∷ []) m = bit_and x m ∷ []
mask_last (x ∷ y ∷ ws) m = x ∷ mask_last (y ∷ ws) m

unfoldable pub bv_fill : BitVector → BitVector
unfolding mask_last
bv_fill bv = record bv { words = mask_last (replicate bv.size (lnot 0)) bv.mask }

unfoldable pub bv_clear : BitVector → BitVector
bv_clear bv = record bv { words = replicate bv.size 0 }

-- Zeroes in the first `n` words.
unfoldable pub clear_words : ℕ → List ℕ → List ℕ
clear_words zero ws = ws
clear_words (suc n) [] = []
clear_words (suc n) (w ∷ ws) = 0 ∷ clear_words n ws

unfoldable pub bv_over_clear : BitVector → ℕ → BitVector
unfolding clear_words
bv_over_clear bv bit = record bv { words = clear_words (bit / wordbits + 1) bv.words }

unfoldable pub lbv_bit_set : List ℕ → ℕ → List ℕ
lbv_bit_set ws bit = modify ws (bit / wordbits) (λ w. bit_or w (bit_mask bit))

unfoldable pub lbv_bit_clear : List ℕ → ℕ → List ℕ
lbv_bit_clear ws bit = modify ws (bit / wordbits) (λ w. bit_and w (lnot (bit_mask bit)))

unfoldable pub lbv_bit_test : List ℕ → ℕ → Bool
lbv_bit_test ws bit = not (bit_and (get_or ws (bit / wordbits) 0) (bit_mask bit) == 0)

unfoldable pub bv_bit_set : BitVector → ℕ → BitVector
unfolding lbv_bit_set
bv_bit_set bv bit = record bv { words = lbv_bit_set bv.words bit }

unfoldable pub bv_bit_clear : BitVector → ℕ → BitVector
unfolding lbv_bit_clear
bv_bit_clear bv bit = record bv { words = lbv_bit_clear bv.words bit }

unfoldable pub bv_bit_test : BitVector → ℕ → Bool
unfolding lbv_bit_test
bv_bit_test bv bit = lbv_bit_test bv.words bit

unfoldable pub bv_bit_test_then_set : BitVector → ℕ → BitVector × Bool
unfolding bv_bit_test bv_bit_set
bv_bit_test_then_set bv bit = if bv_bit_test bv bit then (bv, true) else (bv_bit_set bv bit, false)

unfoldable pub all_zero : List ℕ → Bool
all_zero [] = true
all_zero (w ∷ ws) = w == 0 && all_zero ws

-- The bits out of use are cleared first.
unfoldable pub bv_is_empty : BitVector → BitVector × Bool
unfolding mask_last all_zero
bv_is_empty bv = let ws = mask_last bv.words bv.mask in (record bv { words = ws }, all_zero ws)

unfoldable pub zip_words : (ℕ → ℕ → ℕ) → List ℕ → List ℕ → List ℕ
zip_words f [] ys = []
zip_words f (x ∷ xs) [] = x ∷ xs
zip_words f (x ∷ xs) (y ∷ ys) = f x y ∷ zip_words f xs ys

-- X := ~Y, X := Y & Z, X := Y | Z. The three vectors have one size.
unfoldable pub bv_not : BitVector → BitVector → BitVector
unfolding mask_last
bv_not x y = record x { words = mask_last (map lnot y.words) x.mask }

unfoldable pub bv_and : BitVector → BitVector → BitVector → BitVector
unfolding mask_last zip_words
bv_and x y z = record x { words = mask_last (zip_words bit_and y.words z.words) x.mask }

unfoldable pub bv_or : BitVector → BitVector → BitVector → BitVector
unfolding mask_last zip_words
bv_or x y z = record x { words = mask_last (zip_words bit_or y.words z.words) x.mask }

-- X |= Y.
unfoldable pub bv_or_assign : BitVector → BitVector → BitVector
unfolding mask_last zip_words
bv_or_assign x y = record x { words = mask_last (zip_words bit_or x.words y.words) x.mask }
