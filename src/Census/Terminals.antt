-- ===== src/Census/Terminals.antt =====
-- Which symbols the census takes for terminals.
use marpa_r.Prelude.{
  ℕ, zero, suc, ◌+◌, ◌≤◌, ◌<◌, ◌≡◌, refl, ap, ◌∙◌, sym, Bool, true, not, List, [], ◌∷◌, length,
  ◌==◌, inl, inr, arith, if◌then◌else◌, Bool-cases,
}
use marpa_r.BitVector.{BitVector, bv_bit_set, bv_bit_clear, bv_bit_test, bv_create, bv_not}
use marpa_r.BitVector.Laws.{bv_bit_test-set, bv_bit_test-clear}
use marpa_r.BitVector.Full.{
  IsSized, bv_create-IsFull, bv_bit_set-IsFull, bits-set, bv_bit_clear-IsFull, bits-clear,
  bv_not-IsFull, bv_bit_test-not,
}
use marpa_r.Grammar.{Xsy}
use marpa_r.Census.{terminal_loop, mark_terminals}
use marpa_r.Census.Flags.{symbol_at}

-- The status that a symbol ends with: its locked one, or else the one given.
abbrev pub terminal_status : Xsy → Bool → Bool
terminal_status x b = if x.is_locked_terminal then x.is_terminal else b

abbrev pub terminal_mark : Xsy → Bool → Xsy
terminal_mark x b =
    if x.is_locked_terminal then x else if b then record x { is_terminal = true } else x

abbrev next_v : ℕ → Xsy → BitVector → BitVector
next_v i x v =
    if x.is_locked_terminal then (if x.is_terminal then bv_bit_set v i else bv_bit_clear v i) else v

next_v-IsSized : (n i : ℕ) (x : Xsy) (v : BitVector) → IsSized n v → IsSized n (next_v i x v)
next_v-IsSized n i x v s = elim (Bool-cases x.is_locked_terminal) [
  | inl e ↦ elim (Bool-cases x.is_terminal) [
    | inl t ↦ rw (e, t) record { full = bv_bit_set-IsFull v i s.full; size = bits-set v i ∙ s.size }
    | inr t ↦
        rw (e, t) record { full = bv_bit_clear-IsFull v i s.full; size = bits-clear v i ∙ s.size }
  ]
  | inr e ↦ rw e s
]

next_v_lem :
    (n i j : ℕ) (x : Xsy) (v : BitVector)
    → IsSized n v
    → i < n
    → bv_bit_test (next_v i x v) j
      ≡ (if i == j then terminal_status x (bv_bit_test v j) else bv_bit_test v j)
next_v_lem n i j x v s l =
    let b = bv_bit_test-set v i j s.full.vector (omega (arith, s.size)) in
    let c = bv_bit_test-clear v i j s.full.vector (omega (arith, s.size)) in
    elim (Bool-cases x.is_locked_terminal) [
      | inl e ↦ elim (Bool-cases x.is_terminal) [
        | inl t ↦ rw (e, t) (ground (arith, b))
        | inr t ↦ rw (e, t) (ground (arith, c))
      ]
      | inr e ↦ rw e (ground arith)
    ]

module _ (n : ℕ) where
  -- What the loop returns for the symbols from `symid` on.
  record Marked (symid : ℕ) (symbols : List Xsy) (v : BitVector) (out : BitVector × List Xsy)
      : Type 0 where
    sized : IsSized n out.0
    lower : (j : ℕ) → j < symid → bv_bit_test out.0 j ≡ bv_bit_test v j
    bits :
        (k : ℕ)
        → k < length symbols
        → bv_bit_test out.0 (symid + k)
          ≡ terminal_status (symbol_at symbols k) (bv_bit_test v (symid + k))
    counted : length out.1 ≡ length symbols
    marks :
        (k : ℕ)
        → k < length symbols
        → symbol_at out.1 k ≡ terminal_mark (symbol_at symbols k) (bv_bit_test v (symid + k))

  terminal_loop_lem :
      (symid : ℕ) (symbols : List Xsy) (v : BitVector)
      → IsSized n v
      → symid + length symbols ≤ n
      → Marked symid symbols v (terminal_loop symid symbols v)
  unfolding terminal_loop
  terminal_loop_lem symid [] v s l = record {
    sized = s;
    lower = λ j h. refl;
    bits = λ k h. absurd (omega arith);
    counted = refl;
    marks = λ k h. absurd (omega arith);
  }
  terminal_loop_lem symid (x ∷ xs) v s l =
      let v' = next_v symid x v in
      let step : (j : ℕ)
          → bv_bit_test v' j
            ≡ (if symid == j then terminal_status x (bv_bit_test v j) else bv_bit_test v j) =
        λ j. next_v_lem n symid j x v s (omega arith) in
      let r = terminal_loop_lem (suc symid) xs v' (next_v-IsSized n symid x v s) (omega arith) in
      record {
        sized = r.sized;
        lower = λ j h. r.lower j (omega arith) ∙ step j ∙ ground (arith, h);
        bits = λ k. bits_at (terminal_loop (suc symid) xs v').0 v' r.lower r.bits step k;
        counted = ap suc r.counted;
        marks = λ k. mark_at (terminal_loop (suc symid) xs v').1 v' r.marks step k;
      }
    where
      bits_at :
          (out v' : BitVector)
          → ((j : ℕ) → j < suc symid → bv_bit_test out j ≡ bv_bit_test v' j)
          → ((k : ℕ)
              → k < length xs
              → bv_bit_test out (suc symid + k)
                ≡ terminal_status (symbol_at xs k) (bv_bit_test v' (suc symid + k)))
          → ((j : ℕ)
              → bv_bit_test v' j
                ≡ (if symid == j then terminal_status x (bv_bit_test v j) else bv_bit_test v j))
          → (k : ℕ) → k < suc (length xs)
          → bv_bit_test out (symid + k)
            ≡ terminal_status (symbol_at (x ∷ xs) k) (bv_bit_test v (symid + k))
      bits_at out v' lower bits step zero h =
          let e : symid + zero ≡ symid = omega arith in
          rw e (lower symid (omega arith) ∙ step symid ∙ ground arith)
      bits_at out v' lower bits step (suc k) h =
          let e : symid + suc k ≡ suc symid + k = omega arith in
          rw e (
            bits k (omega arith)
            ∙ ap (terminal_status (symbol_at xs k)) (step (suc symid + k) ∙ ground arith))

      mark_at :
          (out : List Xsy) (v' : BitVector)
          → ((k : ℕ)
              → k < length xs
              → symbol_at out k ≡ terminal_mark (symbol_at xs k) (bv_bit_test v' (suc symid + k)))
          → ((j : ℕ)
              → bv_bit_test v' j
                ≡ (if symid == j then terminal_status x (bv_bit_test v j) else bv_bit_test v j))
          → (k : ℕ) → k < suc (length xs)
          → symbol_at (terminal_mark x (bv_bit_test v symid) ∷ out) k
            ≡ terminal_mark (symbol_at (x ∷ xs) k) (bv_bit_test v (symid + k))
      mark_at out v' marks step zero h = let e : symid + zero ≡ symid = omega arith in rw e refl
      mark_at out v' marks step (suc k) h =
          let e : symid + suc k ≡ suc symid + k = omega arith in
          rw e (
            marks k (omega arith)
            ∙ ap (terminal_mark (symbol_at xs k)) (step (suc symid + k) ∙ ground arith))

-- What `mark_terminals` returns for the left sides `lhs_v`.
pub record Terminals (xsys : List Xsy) (lhs_v : BitVector) (out : BitVector × List Xsy)
    : Type 0 where
  pub sized : IsSized (length xsys) out.0
  pub bits :
      (i : ℕ)
      → i < length xsys
      → bv_bit_test out.0 i ≡ terminal_status (symbol_at xsys i) (not (bv_bit_test lhs_v i))
  pub counted : length out.1 ≡ length xsys
  pub marks :
      (i : ℕ)
      → i < length xsys
      → symbol_at out.1 i ≡ terminal_mark (symbol_at xsys i) (not (bv_bit_test lhs_v i))

bits-create : (n : ℕ) → (bv_create n).bits ≡ n
unfolding bv_create
bits-create n = refl

bits-not : (x y : BitVector) → (bv_not x y).bits ≡ x.bits
unfolding bv_not
bits-not x y = refl

pub mark_terminals_lem :
    (xsys : List Xsy) (lhs_v : BitVector)
    → IsSized (length xsys) lhs_v
    → Terminals xsys lhs_v (mark_terminals xsys lhs_v)
unfolding mark_terminals
mark_terminals_lem xsys lhs_v s =
    let n = length xsys in
    let v = bv_not (bv_create n) lhs_v in
    let same : (bv_create n).bits ≡ lhs_v.bits = bits-create n ∙ sym s.size in
    let r =
      terminal_loop_lem n 0 xsys v
        (record {
          full = bv_not-IsFull (bv_create n) lhs_v (bv_create-IsFull n).vector s.full same;
          size = bits-not (bv_create n) lhs_v ∙ bits-create n;
        })
        (omega arith) in
    let not_bit : (i : ℕ) → i < n → bv_bit_test v (0 + i) ≡ not (bv_bit_test lhs_v i) = λ i l.
      let e : 0 + i ≡ i = omega arith in
      rw e (
        bv_bit_test-not (bv_create n) lhs_v (bv_create-IsFull n).vector s.full same i
          (omega (arith, bits-create n))) in
    record {
      sized = r.sized;
      bits = λ i l.
          let e : 0 + i ≡ i = omega arith in
          ap (bv_bit_test (terminal_loop 0 xsys v).0) (sym e)
          ∙ r.bits i l
          ∙ ap (terminal_status (symbol_at xsys i)) (not_bit i l);
      counted = r.counted;
      marks = λ i l. r.marks i l ∙ ap (terminal_mark (symbol_at xsys i)) (not_bit i l);
    }
