-- ===== src/BitVector/Scan/Words.antt =====
-- The search for a digit through the words of a vector.
use Prim.Native.Nat.{bit_and, bit_or}
use marpa_r.Prelude.{
  ℕ, zero, suc, ◌+◌, ◌-◌, ◌*◌, ◌/◌, ◌%◌, ◌^◌, ◌≤◌, ◌<◌, ◌≡◌, ◌≢◌, ◌∙◌, sym, Bool, true, false, ◌&&◌,
  List, Option, none, some, get_or, ltb, leb, ◌==◌, inl, inr, arith, Bool-cases,
}
use native.Mathlib.Nat.{pow-suc, pow-le-pow_right}
use marpa_r.BitVector.Bits.{
  testbit, testbit-zero, testbit-or, testbit-pow, testbit-low_mask, testbit-complement, bit_and-pow,
  bit_or-lt,
}
use marpa_r.BitVector.Scan.{low_zeros, bits_above, skip_words, seek}

-- The lowest digit of a word that is not zero.
low_zeros_lem :
    (n w : ℕ)
    → w < 2 ^ n
    → w ≢ 0
    → (low_zeros n w < n)
      × (testbit w (low_zeros n w) ≡ true)
      × ((j : ℕ) → j < low_zeros n w → testbit w j ≡ false)
unfolding low_zeros
low_zeros_lem zero w l p = absurd (p (omega arith))
low_zeros_lem (suc n) w l p = elim (Bool-cases (bit_and w 1 == 0)) [
  | inl e ↦
      let even : testbit w 0 ≡ false = ground (arith, bit_and-pow w 0, e) in
      let (b, t, f) =
        low_zeros_lem n (w / 2) (omega (arith, pow-suc 2 n)) (λ z. p (ground (arith, z, even))) in
      rw e (omega (arith, b), t, λ j. below (w / 2) (low_zeros n (w / 2)) even f j)
  | inr e ↦ rw e (omega arith, ground (arith, bit_and-pow w 0, e), λ j h. elim h [ ])
]
  where
    below :
        (h k : ℕ)
        → testbit w 0 ≡ false
        → ((j : ℕ) → j < k → testbit (w / 2) j ≡ false)
        → (j : ℕ) → j < suc k
        → testbit w j ≡ false
    below h k even f zero l = even
    below h k even f (suc j) l = f j (omega arith)

-- The digits above `k`.
pub testbit-bits_above : (k i : ℕ) → k < 32 → i < 32 → testbit (bits_above (2 ^ k)) i ≡ ltb k i
unfolding bits_above
testbit-bits_above k i h l =
    let below : 2 ^ k ≤ 2 ^ 31 = pow-le-pow_right (omega arith) {j = 31} (omega arith) in
    let b : bit_or (2 ^ k) (2 ^ k - 1) < 2 ^ 32 =
      bit_or-lt 32 (2 ^ k) (2 ^ k - 1) (omega arith) (omega arith) in
    testbit-complement 32 (bit_or (2 ^ k) (2 ^ k - 1)) i b l
    ∙ rw (testbit-or (2 ^ k) (2 ^ k - 1) i, testbit-pow k i, testbit-low_mask k i) (ground arith)

module _ (f : ℕ → ℕ) (words : List ℕ) (small : (i : ℕ) → f (get_or words i 0) < 2 ^ 32) where
  -- Digit `j` of all the words, under `f`.
  abbrev pub digit : ℕ → Bool
  digit j = testbit (f (get_or words (j / 32) 0)) (j % 32)

  -- `value` has the digits of word `offset` from `start` on.
  pub record IsPart (value offset start : ℕ) : Type 0 where
    pub word : value < 2 ^ 32
    pub part : (j : ℕ) → j / 32 ≡ offset → testbit value (j % 32) ≡ (leb start j && digit j)

  -- The first digit from `start` on, if there is one below `stop`.
  pub data Sought (start stop : ℕ) : Option (ℕ × ℕ) → Type 0 where
    nowhere : ((j : ℕ) → start ≤ j → j < stop → digit j ≡ false) → Sought start stop none
    somewhere :
        (value offset : ℕ)
        → IsPart value offset start
        → offset * 32 < stop
        → low_zeros 32 value < 32
        → start ≤ offset * 32 + low_zeros 32 value
        → digit (offset * 32 + low_zeros 32 value) ≡ true
        → ((j : ℕ) → start ≤ j → j < offset * 32 + low_zeros 32 value → digit j ≡ false)
        → Sought start stop (some (value, offset))

  hit :
      (value offset start stop : ℕ)
      → IsPart value offset start
      → value ≢ 0
      → offset * 32 < stop
      → ((j : ℕ) → start ≤ j → j < offset * 32 → digit j ≡ false)
      → Sought start stop (some (value, offset))
  hit value offset start stop p ne l before =
      let (b, t, z) = low_zeros_lem 32 value p.word ne in
      let i = offset * 32 + low_zeros 32 value in
      let d : i / 32 ≡ offset = omega arith in
      let m : i % 32 ≡ low_zeros 32 value = omega arith in
      let t' : testbit value (i % 32) ≡ true = rw m t in
      let found : (leb start i && digit i) ≡ true = sym (p.part i d) ∙ t' in
      somewhere value offset p l b (ground (arith, found)) (ground (arith, found)) (λ j s u.
        elim (Bool-cases (ltb j (offset * 32))) [
          | inl lower ↦ before j s (ground (arith, lower))
          | inr same ↦
              let dj : j / 32 ≡ offset = ground (arith, same, u, b) in
              let c : (leb start j && digit j) ≡ false =
                sym (p.part j dj) ∙ z (j % 32) (ground (arith, same, u, b)) in
              ground (arith, c, s)
        ])

  skip_words_lem :
      (n offset start size : ℕ)
      → offset + n ≡ size
      → start ≤ offset * 32
      → ((j : ℕ) → start ≤ j → j < offset * 32 → digit j ≡ false)
      → Sought start (size * 32) (skip_words f words n offset)
  unfolding skip_words
  skip_words_lem zero offset start size e s before = nowhere (λ j h l. before j h (omega arith))
  skip_words_lem (suc n) offset start size e s before =
      elim (Bool-cases (f (get_or words offset 0) == 0)) [
        | inl z ↦ rw z (
            skip_words_lem n (offset + 1) start size (omega arith) (omega arith) (λ j h l.
              elim (Bool-cases (ltb j (offset * 32))) [
                | inl lower ↦ before j h (ground (arith, lower))
                | inr same ↦
                    let d : j / 32 ≡ offset = ground (arith, same, l) in
                    let w : f (get_or words offset 0) ≡ 0 = ground (arith, z) in
                    rw (d, w) (testbit-zero (j % 32))
              ]))
        | inr nz ↦ rw nz (
            hit (f (get_or words offset 0)) offset start (size * 32)
              (record { word = small offset; part = λ j d. rw d (ground (arith, d, s)) })
              (ground (arith, nz)) (omega arith) before)
      ]

  pub seek_lem :
      (size value offset start : ℕ)
      → IsPart value offset start
      → offset < size
      → offset * 32 ≤ start
      → start ≤ offset * 32 + 32
      → Sought start (size * 32) (seek f words size value offset)
  unfolding seek
  seek_lem size value offset start p l s t = elim (Bool-cases (value == 0)) [
    | inl z ↦ rw z (
        skip_words_lem (size - (offset + 1)) (offset + 1) start size (omega arith) (omega arith)
          (λ j h u.
            let d : j / 32 ≡ offset = omega arith in
            let w : value ≡ 0 = ground (arith, z) in
            let q : (leb start j && digit j) ≡ false =
              sym (p.part j d) ∙ rw w (testbit-zero (j % 32)) in
            ground (arith, q, h)))
    | inr nz ↦ rw nz (
        hit value offset start (size * 32) p (ground (arith, nz)) (omega arith)
          (λ j h u. absurd (omega arith)))
  ]
