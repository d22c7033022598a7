-- ===== src/Alternatives/Search.antt =====
-- The binary search for the place of a new alternative.
use marpa_r.Prelude.{
  ℕ, zero, suc, ◌+◌, ◌-◌, ◌/◌, ◌≤◌, ◌<◌, ◌≡◌, true, false, List, length, get_or, ◌⊎◌, inl, inr, ℤ,
  pos, negsuc, ltb_ℤ, eqb_ℤ, leb, ◌==◌, arith, Bool-cases,
}
use marpa_r.Alternatives.{
  Alternative, blank_alternative, alternative_cmp, insertion_loop, alternative_insertion_point,
}

-- `a` belongs below `b` in the stack: it ends later, or as late with a smaller symbol, or as late
-- with the same symbol and an earlier start.
pub record Before (a b : Alternative) : Type 0 where
  pub less :
      (b.end_earleme < a.end_earleme)
      ⊎ ((a.end_earleme ≡ b.end_earleme)
          × ((a.nsyid < b.nsyid) ⊎ ((a.nsyid ≡ b.nsyid) × (a.start_earleme < b.start_earleme))))

-- The two have one key.
pub record SameKey (a b : Alternative) : Type 0 where
  pub ends : a.end_earleme ≡ b.end_earleme
  pub symbols : a.nsyid ≡ b.nsyid
  pub starts : a.start_earleme ≡ b.start_earleme

pub Before-trans : (a b c : Alternative) → Before a b → Before b c → Before a c
Before-trans a b c p q = record { less = ground (arith, p.less, q.less) }

pub greater-Before : (a b : Alternative) → ltb_ℤ (pos 0) (alternative_cmp a b) ≡ true → Before b a
unfolding alternative_cmp
greater-Before a b e = record { less = ground (arith, e) }

pub Before-cmp :
    (a b : Alternative)
    → Before a b
    → (ltb_ℤ (pos 0) (alternative_cmp a b) ≡ false) × (eqb_ℤ (alternative_cmp a b) (pos 0) ≡ false)
unfolding alternative_cmp
Before-cmp a b p = (ground (arith, p.less), ground (arith, p.less))

pub cmp-SameKey : (a b : Alternative) → eqb_ℤ (alternative_cmp a b) (pos 0) ≡ true → SameKey a b
unfolding alternative_cmp
cmp-SameKey a b e = record {
  ends = ground (arith, e);
  symbols = ground (arith, e);
  starts = ground (arith, e);
}

pub cmp-Before :
    (a b : Alternative)
    → eqb_ℤ (alternative_cmp a b) (pos 0) ≡ false
    → ltb_ℤ (pos 0) (alternative_cmp a b) ≡ false
    → Before a b
unfolding alternative_cmp
cmp-Before a b e f = record { less = ground (arith, e, f) }

pub Before-irrefl : (a b : Alternative) → SameKey a b → Before a b → ⊥
Before-irrefl a b k p = ground (arith, k.ends, k.symbols, k.starts, p.less)

-- The entries go up in that order from the base.
pub record Sorted (es : List Alternative) : Type 0 where
  pub ordered :
      (i j : ℕ)
      → i < j
      → j < length es
      → Before (get_or es i blank_alternative) (get_or es j blank_alternative)

-- What the search answers: -1 if an entry has the key of the new one, and otherwise the place
-- that has the smaller entries below and the greater ones above.
pub data Answer (es : List Alternative) (new : Alternative) : ℤ → Type 0 where
  present :
      (i : ℕ)
      → i < length es
      → SameKey new (get_or es i blank_alternative)
      → Answer es new (negsuc 0)
  place :
      (k : ℕ)
      → k ≤ length es
      → ((i : ℕ) → i < k → Before (get_or es i blank_alternative) new)
      → ((i : ℕ) → k ≤ i → i < length es → Before new (get_or es i blank_alternative))
      → Answer es new (pos k)

module _ (es : List Alternative) (new : Alternative) (s : Sorted es) where
  nth : ℕ → Alternative
  nth i = get_or es i blank_alternative

  -- All up to `i` are smaller if that one is, and all from `i` on greater if that one is.
  smaller_down :
      (i : ℕ) → i < length es → Before (nth i) new → (j : ℕ) → j < i + 1 → Before (nth j) new
  unfolding nth
  smaller_down i l b j h = elim (Bool-cases (j == i)) [
    | inl e ↦ let p : j ≡ i = ground (arith, e) in rw p b
    | inr e ↦
        Before-trans (get_or es j blank_alternative) (get_or es i blank_alternative) new
          (s.ordered j i (ground (arith, e)) l) b
  ]

  greater_up : (i : ℕ) → Before new (nth i) → (j : ℕ) → i ≤ j → j < length es → Before new (nth j)
  unfolding nth
  greater_up i b j h l = elim (Bool-cases (j == i)) [
    | inl e ↦ let p : j ≡ i = ground (arith, e) in rw p b
    | inr e ↦
        Before-trans new (get_or es i blank_alternative) (get_or es j blank_alternative) b
          (s.ordered i j (ground (arith, e)) l)
  ]

  insertion_loop_lem :
      (n lo past : ℕ)
      → lo < past
      → past ≤ length es
      → past - lo ≤ n
      → ((i : ℕ) → i < lo → Before (nth i) new)
      → ((i : ℕ) → past ≤ i → i < length es → Before new (nth i))
      → Answer es new (insertion_loop n es new lo past)
  unfolding nth insertion_loop
  insertion_loop_lem zero lo past l p n down up = absurd (omega arith)
  insertion_loop_lem (suc n) lo past l p f down up =
      let t = lo + (past - 1 - lo) / 2 in
      let lt : t < past = omega arith in
      let ge : lo ≤ t = omega arith in
      let entry = get_or es t blank_alternative in
      let outcome = alternative_cmp new entry in
      elim (Bool-cases (eqb_ℤ outcome (pos 0))) [
        | inl same ↦ rw same (present t (omega arith) (cmp-SameKey new entry same))
        | inr other ↦ elim (Bool-cases (ltb_ℤ (pos 0) outcome)) [
          | inl higher ↦
              let down' = smaller_down t (omega arith) (greater-Before new entry higher) in
              elim (Bool-cases (leb past (t + 1))) [
                | inl stop ↦
                    rw (other, higher, stop)
                      (place (t + 1) (omega arith) down'
                        (λ i h m. up i (ground (arith, stop, h)) m))
                | inr on ↦
                    rw (other, higher, on)
                      (insertion_loop_lem n (t + 1) past (ground (arith, on)) p (omega arith) down'
                        up)
              ]
          | inr lower ↦
              let up' = greater_up t (cmp-Before new entry other lower) in
              elim (Bool-cases (leb t lo)) [
                | inl stop ↦
                    rw (other, lower, stop)
                      (place t (omega arith) (λ i h. down i (ground (arith, stop, h))) up')
                | inr on ↦
                    rw (other, lower, on)
                      (insertion_loop_lem n lo t (ground (arith, on)) (omega arith) (omega arith)
                        down up')
              ]
        ]
      ]

  -- The search ends, and tells whether the key is there and where the new entry belongs.
  pub alternative_insertion_point_lem : Answer es new (alternative_insertion_point es new)
  unfolding alternative_insertion_point nth
  alternative_insertion_point_lem = elim (Bool-cases (length es == 0)) [
    | inl e ↦ rw e (place 0 (omega arith) (λ i h. elim h [ ]) (λ i h l. absurd (ground (arith, e))))
    | inr e ↦ rw e (
        insertion_loop_lem (length es) 0 (length es) (ground (arith, e)) (omega arith) (omega arith)
          (λ i h. elim h [ ]) (λ i h l. absurd (omega arith)))
  ]
