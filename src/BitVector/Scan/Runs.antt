-- ===== src/BitVector/Scan/Runs.antt =====
-- A scan finds the next run of set bits.
use Prim.Native.Nat.{bit_and}
use marpa_r.Prelude.{
  ℕ, ◌+◌, ◌-◌, ◌*◌, ◌/◌, ◌%◌, ◌^◌, ◌≤◌, ◌<◌, ◌≡◌, refl, ◌∙◌, sym, Bool, true, false, not, List,
  Option, none, some, get_or, ltb, ◌==◌, inl, inr, arith, Bool-cases,
}
use marpa_r.BitVector.{BitVector, wordbits, lnot, mask_last, bv_bit_test}
use marpa_r.BitVector.Bits.{testbit, testbit-and, testbit-complement, bit_and-pow, bit_and-le}
use marpa_r.BitVector.Laws.{lbv_bit_test_lem}
use marpa_r.BitVector.Masked.{SameBits, masked-SameBits, masked-unused}
use marpa_r.BitVector.Full.{AllWords, IsFull, get_or-AllWords, lnot-lt, mask_last-AllWords}
use marpa_r.BitVector.Scan.{low_zeros, bits_above, seek, RunStart, run_start, run_end, bv_scan}
use marpa_r.BitVector.Scan.Words.{
  digit, IsPart, Sought, nowhere, somewhere, seek_lem, testbit-bits_above,
}

module _ (ws : List ℕ) (small : AllWords ws) where
  abbrev bit : ℕ → Bool
  bit = digit (λ w. w) ws (λ i. get_or-AllWords ws i small)

  abbrev gap : ℕ → Bool
  gap = digit lnot ws (λ i. lnot-lt (get_or ws i 0))

  gap_lem : (j : ℕ) → gap j ≡ not (bit j)
  gap_lem j =
      testbit-complement 32 (get_or ws (j / 32) 0) (j % 32) (get_or-AllWords ws (j / 32) small)
        (omega arith)

  -- The first set bit from `start` on, with what is left of its word under the complement.
  data Started (start stop : ℕ) : Option RunStart → Type 0 where
    no_start : ((j : ℕ) → start ≤ j → j < stop → bit j ≡ false) → Started start stop none
    started :
        (s : RunStart)
        → start ≤ s.first
        → s.offset * 32 < stop
        → s.offset * 32 ≤ s.first
        → s.first < s.offset * 32 + 32
        → bit s.first ≡ true
        → ((j : ℕ) → start ≤ j → j < s.first → bit j ≡ false)
        → IsPart lnot ws
            (λ i. lnot-lt (get_or ws i 0))
            (bit_and (lnot s.value) s.mask)
            s.offset
            (s.first + 1)
        → Started start stop (some s)

  -- The complement of a value that has the bits of word `offset` from `start` on, above one of
  -- them.
  complement-IsPart :
      (value offset start zeros : ℕ)
      → zeros < 32
      → start ≤ offset * 32 + zeros
      → IsPart (λ w. w) ws (λ i. get_or-AllWords ws i small) value offset start
      → IsPart lnot ws
          (λ i. lnot-lt (get_or ws i 0))
          (bit_and (lnot value) (bits_above (2 ^ zeros)))
          offset
          (offset * 32 + zeros + 1)
  complement-IsPart value offset start zeros z s p = record {
    word =
        omega (arith, bit_and-le (lnot value) (lnot value) (bits_above (2 ^ zeros)) (omega arith));
    part = λ j d.
        testbit-and (lnot value) (bits_above (2 ^ zeros)) (j % 32)
        ∙ rw
            (
              testbit-complement 32 value (j % 32) p.word (omega arith),
              testbit-bits_above zeros (j % 32) z (omega arith),
              p.part j d,
              gap_lem j,
            )
            (ground (arith, d, s, z));
  }

  run_start_lem :
      (size start : ℕ) → start / 32 < size → Started start (size * 32) (run_start ws size start)
  unfolding run_start
  run_start_lem size start l =
      let offset = start / 32 in
      let value = get_or ws offset 0 in
      let k = start % 32 in
      let whole : IsPart (λ w. w) ws (λ i. get_or-AllWords ws i small) value offset (offset * 32) =
        record { word = get_or-AllWords ws offset small; part = λ j d. rw d (ground (arith, d)) } in
      elim (Bool-cases (bit_and value (2 ^ k) == 0)) [
        | inr set ↦ rw set (
            started _ (omega arith) (omega arith) (omega arith) (omega arith)
              (sym (bit_and-pow value k) ∙ rw set) (λ j h u. absurd (omega arith))
              (let e : offset * 32 + k + 1 ≡ start + 1 = omega arith in
                rw (← e) (
                  complement-IsPart value offset (offset * 32) k (omega arith) (omega arith)
                    whole)))
        | inl clear ↦
            let off : testbit value k ≡ false = sym (bit_and-pow value k) ∙ rw clear in
            let above = bit_and value (bits_above (2 ^ k)) in
            let p : IsPart (λ w. w) ws (λ i. get_or-AllWords ws i small) above offset start =
              record {
                word = omega (
                  arith,
                  bit_and-le value value (bits_above (2 ^ k)) (omega arith),
                  get_or-AllWords ws offset small,
                );
                part = λ j d.
                    testbit-and value (bits_above (2 ^ k)) (j % 32)
                    ∙ rw (testbit-bits_above k (j % 32) (omega arith) (omega arith), d)
                        (elim (Bool-cases (j % 32 == k)) [
                          | inl e ↦
                              let q : j % 32 ≡ k = ground (arith, e) in rw (q, off) (ground arith)
                          | inr e ↦ ground (arith, d, e)
                        ]);
              } in
            rw clear (
              found size start (seek (λ w. w) ws size above offset) (
                seek_lem (λ w. w) ws (λ i. get_or-AllWords ws i small) size above offset start p l
                  (omega arith) (omega arith)))
      ]
    where
      found :
          (size start : ℕ) (o : Option (ℕ × ℕ))
          → Sought (λ w. w) ws (λ i. get_or-AllWords ws i small) start (size * 32) o
          → Started start (size * 32) (elim o [
            | none ↦ none
            | some (found, at) ↦
                let zeros = low_zeros 32 found in
                some (record {
                  first = at * wordbits + zeros;
                  offset = at;
                  value = found;
                  mask = bits_above (2 ^ zeros);
                })
          ])
      found size start o (nowhere h) = no_start h
      found size start o (somewhere value offset p l z s t before) =
          started _ s l (omega arith) (omega (arith, z)) t before
            (complement-IsPart value offset start (low_zeros 32 value) z s p)

  -- Where the run ends that starts with a set bit.
  record Ended (first stop last : ℕ) : Type 0 where
    within : (first ≤ last) × (last < stop)
    inside : (j : ℕ) → first < j → j ≤ last → bit j ≡ true
    beyond : last + 1 < stop → bit (last + 1) ≡ false

  run_end_lem :
      (size : ℕ) (s : RunStart)
      → s.offset < size
      → s.offset * 32 ≤ s.first
      → s.first < s.offset * 32 + 32
      → IsPart lnot ws
          (λ i. lnot-lt (get_or ws i 0))
          (bit_and (lnot s.value) s.mask)
          s.offset
          (s.first + 1)
      → Ended s.first (size * 32) (run_end ws size s)
  unfolding run_end
  run_end_lem size s l a b p = ended (seek lnot ws size (bit_and (lnot s.value) s.mask) s.offset) (
      seek_lem lnot ws (λ i. lnot-lt (get_or ws i 0)) size (bit_and (lnot s.value) s.mask) s.offset
        (s.first + 1) p l (omega arith) (omega arith))
    where
      ended :
          (o : Option (ℕ × ℕ))
          → Sought lnot ws (λ i. lnot-lt (get_or ws i 0)) (s.first + 1) (size * 32) o
          → Ended s.first (size * 32) (
              (elim o as (λ _. ℕ) [
                | none ↦ size * wordbits
                | some (found, place) ↦ place * wordbits + low_zeros 32 found
              ])
              - 1)
      ended o (nowhere h) = record {
        within = (omega arith, omega arith);
        inside = λ j u v. ground (arith, gap_lem j, h j (omega arith) (omega arith));
        beyond = λ u. absurd (omega arith);
      }
      ended o (somewhere value offset q u z r t before) =
          let i = offset * 32 + low_zeros 32 value in
          let e : i - 1 + 1 ≡ i = omega arith in
          record {
            within = (omega arith, omega (arith, z));
            inside = λ j v w. ground (arith, gap_lem j, before j (omega arith) (omega arith));
            beyond = λ v. rw e (ground (arith, gap_lem i, t));
          }

-- What a scan of `v` from `start` reports: nothing, as no bit is set from there on; or the first
-- run of set bits from there on, from `min` to `max`, which ends before a clear bit or with the
-- vector.
pub data Scanned (v : BitVector) (start : ℕ) : Option (ℕ × ℕ) → Type 0 where
  no_run : ((j : ℕ) → start ≤ j → j < v.bits → bv_bit_test v j ≡ false) → Scanned v start none
  run :
      (min max : ℕ)
      → start ≤ min
      → min ≤ max
      → max < v.bits
      → ((j : ℕ) → start ≤ j → j < min → bv_bit_test v j ≡ false)
      → ((j : ℕ) → min ≤ j → j ≤ max → bv_bit_test v j ≡ true)
      → (max + 1 < v.bits → bv_bit_test v (max + 1) ≡ false)
      → Scanned v start (some (min, max))

module _ (v : BitVector) (h : IsFull v) where
  all_small : AllWords (mask_last v.words v.mask)
  all_small = mask_last-AllWords v.words v.mask h.small

  bit_used : (j : ℕ) → j < v.bits → bit (mask_last v.words v.mask) all_small j ≡ bv_bit_test v j
  unfolding bv_bit_test
  bit_used j l =
      sym (lbv_bit_test_lem (mask_last v.words v.mask) j) ∙ (masked-SameBits v h).same j l

  bit_unused :
      (j : ℕ) → v.bits ≤ j → j < v.size * 32 → bit (mask_last v.words v.mask) all_small j ≡ false
  bit_unused j l u = sym (lbv_bit_test_lem (mask_last v.words v.mask) j) ∙ masked-unused v j h l u

  -- A set bit is in use.
  set_used :
      (j : ℕ) → j < v.size * 32 → bit (mask_last v.words v.mask) all_small j ≡ true → j < v.bits
  set_used j u t = elim (Bool-cases (ltb j v.bits)) [
    | inl e ↦ ground (arith, e)
    | inr e ↦ absurd (ground (arith, t, bit_unused j (ground (arith, e)) u))
  ]

  report :
      (start : ℕ) (o : Option RunStart)
      → start < v.bits
      → Started (mask_last v.words v.mask) all_small start (v.size * 32) o
      → Scanned v start (elim o [
        | none ↦ none
        | some s ↦ some (s.first, run_end (mask_last v.words v.mask) v.size s)
      ])
  report start o l (no_start f) =
      no_run (λ j s u. sym (bit_used j u) ∙ f j s (omega (arith, h.vector.sized)))
  report start o l (started s a b c d t before p) =
      let e = run_end_lem (mask_last v.words v.mask) all_small v.size s (omega arith) c d p in
      let first : s.first < v.bits = set_used s.first (omega arith) t in
      let last = run_end (mask_last v.words v.mask) v.size s in
      let (le, lt) = e.within in
      let top : bit (mask_last v.words v.mask) all_small last ≡ true =
        elim (Bool-cases (last == s.first)) [
          | inl q ↦ let q' : last ≡ s.first = ground (arith, q) in rw q' t
          | inr q ↦ e.inside last (ground (arith, q, le)) (omega arith)
        ] in
      let used : last < v.bits = set_used last lt top in
      run s.first last a le used (λ j x y. sym (bit_used j (omega arith)) ∙ before j x y)
        (λ j x y. sym (bit_used j (omega arith)) ∙ elim (Bool-cases (j == s.first)) [
          | inl q ↦ let q' : j ≡ s.first = ground (arith, q) in rw q' t
          | inr q ↦ e.inside j (ground (arith, q, x)) y
        ])
        (λ x. sym (bit_used (last + 1) x) ∙ e.beyond (omega (arith, h.vector.sized)))

-- On a vector that its header fits, with words of 32 bits, `bv_scan` reports the first run of set
-- bits from the start on, exactly and within the vector; the bits in use stay as they are.
pub bv_scan_lem :
    (v : BitVector) (start : ℕ)
    → IsFull v
    → SameBits v (bv_scan v start).0 × Scanned v start (bv_scan v start).1
unfolding bv_scan
bv_scan_lem v start h = elim (Bool-cases (v.size == 0)) [
  | inl e ↦ rw e (
    record { full = h; bits = refl; same = λ j l. refl },
    no_run (λ j s l. absurd (ground (arith, e, l, h.vector.sized))),
  )
  | inr e ↦ elim (Bool-cases (ltb start v.bits)) [
    | inr out ↦
        rw (e, out)
          (
            record { full = h; bits = refl; same = λ j l. refl },
            no_run (λ j s l. absurd (ground (arith, out, s, l))),
          )
    | inl inn ↦
        let ws = mask_last v.words v.mask in
        let sb = masked-SameBits v h in
        rw (e, inn)
          (
            sb,
            report v h start (run_start ws v.size start) (ground (arith, inn)) (
                run_start_lem ws (all_small v h) v.size start
                  (ground (arith, inn, h.vector.sized))),
          )
  ]
]
