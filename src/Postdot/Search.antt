-- ===== src/Postdot/Search.antt =====
-- The binary search finds the symbol if it is there.
use marpa_r.Prelude.{
  ℕ, zero, suc, ◌+◌, ◌-◌, ◌/◌, ◌≤◌, ◌<◌, ◌≡◌, ◌≢◌, List, Option, none, some, length, get_or, inl,
  inr, ltb, leb, ◌==◌, arith, Bool-cases,
}
use marpa_r.Postdot.{find_loop, pim_nsy_p_find}

-- The symbols go up.
pub record Sorted (postdot : List ℕ) : Type 0 where
  pub ordered : (i j : ℕ) → i < j → j < length postdot → get_or postdot i 0 < get_or postdot j 0

-- The place of the symbol, or NULL if it has none.
pub data Found (postdot : List ℕ) (nsyid : ℕ) : Option ℕ → Type 0 where
  null : ((i : ℕ) → i < length postdot → get_or postdot i 0 ≢ nsyid) → Found postdot nsyid none
  entry : (i : ℕ) → i < length postdot → get_or postdot i 0 ≡ nsyid → Found postdot nsyid (some i)

module _ (postdot : List ℕ) (nsyid : ℕ) (s : Sorted postdot) where
  up_to :
      (t : ℕ)
      → t < length postdot
      → get_or postdot t 0 < nsyid
      → (i : ℕ) → i < t + 1
      → get_or postdot i 0 < nsyid
  up_to t l b i h = elim (Bool-cases (i == t)) [
    | inl e ↦ let p : i ≡ t = ground (arith, e) in rw p b
    | inr e ↦ omega (arith, b, s.ordered i t (ground (arith, e, h)) l)
  ]

  from_on :
      (t : ℕ)
      → nsyid < get_or postdot t 0
      → (i : ℕ) → t ≤ i
      → i < length postdot
      → nsyid < get_or postdot i 0
  from_on t b i h l = elim (Bool-cases (i == t)) [
    | inl e ↦ let p : i ≡ t = ground (arith, e) in rw p b
    | inr e ↦ omega (arith, b, s.ordered t i (ground (arith, e, h)) l)
  ]

  find_loop_lem :
      (n lo past : ℕ)
      → past ≤ length postdot
      → past - lo ≤ n
      → ((i : ℕ) → i < lo → get_or postdot i 0 < nsyid)
      → ((i : ℕ) → past ≤ i → i < length postdot → nsyid < get_or postdot i 0)
      → Found postdot nsyid (find_loop n postdot nsyid lo past)
  unfolding find_loop
  find_loop_lem zero lo past p f down up = null (λ i l e. elim (Bool-cases (ltb i lo)) [
    | inl h ↦ absurd (omega (arith, e, down i (ground (arith, h))))
    | inr h ↦ absurd (omega (arith, e, up i (ground (arith, h, f)) l))
  ])
  find_loop_lem (suc n) lo past p f down up =
      let t = lo + (past - 1 - lo) / 2 in
      let id = get_or postdot t 0 in
      elim (Bool-cases (leb past lo)) [
        | inl done ↦ rw done (
            null (λ i l e. elim (Bool-cases (ltb i lo)) [
              | inl h ↦ absurd (omega (arith, e, down i (ground (arith, h))))
              | inr h ↦ absurd (omega (arith, e, up i (ground (arith, h, done)) l))
            ]))
        | inr on ↦
            let lt : lo < past = ground (arith, on) in
            elim (Bool-cases (id == nsyid)) [
              | inl same ↦ rw (on, same) (entry t (omega arith) (ground (arith, same)))
              | inr other ↦ elim (Bool-cases (ltb id nsyid)) [
                | inl less ↦
                    rw (on, other, less)
                      (find_loop_lem n (t + 1) past p (omega arith)
                        (up_to t (omega arith) (ground (arith, less))) up)
                | inr more ↦
                    rw (on, other, more)
                      (find_loop_lem n lo t (omega arith) (omega arith) down
                        (from_on t (ground (arith, other, more))))
              ]
            ]
      ]

-- On an ascending array of symbols, `pim_nsy_p_find` ends with the place of the symbol if the
-- array has it, and with NULL if it does not.
pub pim_nsy_p_find_lem :
    (postdot : List ℕ) (nsyid : ℕ)
    → Sorted postdot
    → Found postdot nsyid (pim_nsy_p_find postdot nsyid)
unfolding pim_nsy_p_find
pim_nsy_p_find_lem postdot nsyid s =
    find_loop_lem postdot nsyid s (length postdot) 0 (length postdot) (omega arith) (omega arith)
      (λ i h. elim h [ ]) (λ i h l. absurd (omega arith))
