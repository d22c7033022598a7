-- ===== src/BitVector/Scan.antt =====
-- bv_scan and bv_count of cpan/engine/read_only/marpa.c, which walk over the runs of set bits of
-- a vector.
pub mod Words
pub mod Runs
pub mod Count
use Prim.Native.Nat.{bit_and, bit_or}
use marpa_r.Prelude.{
  ℕ, zero, suc, ◌+◌, ◌-◌, ◌*◌, ◌/◌, ◌^◌, Bool, true, false, not, List, [], ◌∷◌, ◌++◌, Option, none,
  some, get_or, ltb, ◌==◌, if◌then◌else◌,
}
use marpa_r.BitVector.{BitVector, wordbits, bit_mask, lnot, mask_last}

-- `while(!(value&bv_lsb)){value>>= 1;start++;}`, as the number of rounds; a word has 32 at most.
unfoldable pub low_zeros : ℕ → ℕ → ℕ
low_zeros zero value = 0
low_zeros (suc n) value =
    let rest = low_zeros n (value / 2) in if bit_and value 1 == 0 then suc rest else 0

-- `~(bitmask|(bitmask-1))`: the bits above the one of `bitmask`.
unfoldable pub bits_above : ℕ → ℕ
bits_above bitmask = lnot (bit_or bitmask (bitmask - 1))

-- The loop `while(empty&&(--size> 0))` from word `offset` with `n` words left: the first word that
-- is not zero under `f`, and its offset. `f` is the word itself or its complement.
unfoldable pub skip_words : (ℕ → ℕ) → List ℕ → ℕ → ℕ → Option (ℕ × ℕ)
skip_words f words zero offset = none
skip_words f words (suc n) offset =
    let value = f (get_or words offset 0) in
    let rest = skip_words f words n (offset + 1) in
    if value == 0 then rest else some (value, offset)

-- The value at `offset` if it is not zero, and else the first word behind it that is not zero.
unfoldable pub seek : (ℕ → ℕ) → List ℕ → ℕ → ℕ → ℕ → Option (ℕ × ℕ)
unfolding skip_words
seek f words size value offset =
    if value == 0
    then skip_words f words (size - (offset + 1)) (offset + 1)
    else some (value, offset)

-- What the variables hold when the first bit of a run is found.
pub record RunStart : Type 0 where
  pub first : ℕ
  pub offset : ℕ
  pub value : ℕ
  pub mask : ℕ

unfoldable pub run_start : List ℕ → ℕ → ℕ → Option RunStart
unfolding seek bits_above low_zeros
run_start words size start =
    let offset = start / wordbits in
    let bitmask = bit_mask start in
    let value = get_or words offset 0 in
    if bit_and value bitmask == 0
    then elim (seek (λ w. w) words size (bit_and value (bits_above bitmask)) offset) [
      | none ↦ none
      | some (found, at) ↦
          let zeros = low_zeros 32 found in
          some (record {
            first = at * wordbits + zeros;
            offset = at;
            value = found;
            mask = bits_above (2 ^ zeros);
          })
    ]
    else some (record { first = start; offset = offset; value = value; mask = bits_above bitmask })

-- The last bit of the run. Where all words are run through, the run ends with the last word.
unfoldable pub run_end : List ℕ → ℕ → RunStart → ℕ
unfolding seek low_zeros
run_end words size s =
    let past = elim (seek lnot words size (bit_and (lnot s.value) s.mask) s.offset) as (λ _. ℕ) [
      | none ↦ size * wordbits
      | some (found, at) ↦ at * wordbits + low_zeros 32 found
    ] in
    past - 1

-- The vector afterwards, in which the bits out of use are cleared, and `*raw_min` and `*raw_max`.
-- Where the function returns 0, no caller reads these.
unfoldable pub bv_scan : BitVector → ℕ → BitVector × Option (ℕ × ℕ)
unfolding mask_last run_start run_end
bv_scan bv start =
    if bv.size == 0
    then (bv, none)
    else if not (ltb start bv.bits)
    then (bv, none)
    else let words = mask_last bv.words bv.mask in
      (
        record bv { words = words },
        elim (run_start words bv.size start) [
          | none ↦ none
          | some s ↦ some (s.first, run_end words bv.size s)
        ],
      )

-- The loop of `bv_count`; the first argument bounds the rounds, of which there are no more than
-- bits.
unfoldable pub count_loop : ℕ → BitVector → ℕ → ℕ → ℕ
unfolding bv_scan
count_loop zero v start count = count
count_loop (suc n) v start count = elim ((bv_scan v start).1) [
  | none ↦ count
  | some (min, max) ↦ count_loop n (bv_scan v start).0 (max + 2) (count + (max - min + 1))
]

unfoldable pub bv_count : BitVector → ℕ
unfolding count_loop
bv_count v = count_loop (v.bits + 1) v 0 0

-- `min`, ..., `max`, for `n` numbers from `min`.
unfoldable pub numbers_from : ℕ → ℕ → List ℕ
numbers_from min zero = []
numbers_from min (suc n) = min ∷ numbers_from (min + 1) n

-- `for(start= 0;bv_scan(v,start,&min,&max);start= max+2)` around
-- `for(i= min;i<=max;i++)`: the values of `i`, one after another.
unfoldable pub scan_loop : ℕ → BitVector → ℕ → List ℕ
unfolding bv_scan numbers_from
scan_loop zero v start = []
scan_loop (suc n) v start = elim ((bv_scan v start).1) [
  | none ↦ []
  | some (min, max) ↦ numbers_from min (max - min + 1) ++ scan_loop n (bv_scan v start).0 (max + 2)
]

unfoldable pub set_bits : BitVector → List ℕ
unfolding scan_loop
set_bits v = scan_loop (v.bits + 1) v 0
