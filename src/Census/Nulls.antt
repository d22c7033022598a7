-- ===== src/Census/Nulls.antt =====
-- Which left sides the census finds nulling.
use marpa_r.Prelude.{
  ℕ, ◌<◌, ◌≡◌, ◌↔◌, refl, ◌∙◌, sym, true, false, ◌&&◌, arith, Bool-cases, inl, inr,
}
use marpa_r.BitVector.{BitVector, bv_bit_test, bv_create, bv_shadow, bv_and}
use marpa_r.BitVector.Full.{IsFull, IsSized, bv_create-IsFull, bv_and-IsFull, bv_bit_test-and}
use marpa_r.BitVector.Masked.{bv_is_empty_lem}
use marpa_r.Matrix.{Matrix, matrix_row, matrix_bit_test}
use marpa_r.Matrix.Rows.{IsSolid, matrix_row-IsSized}
use marpa_r.Census.Flags.{finds_nulling}

bits-and : (x y z : BitVector) → (bv_and x y z).bits ≡ x.bits
unfolding bv_and
bits-and x y z = refl

bits-shadow : (v : BitVector) → (bv_shadow v).bits ≡ v.bits
unfolding bv_shadow bv_create
bits-shadow v = refl

pub bv_shadow-IsFull : (v : BitVector) → IsFull (bv_shadow v)
unfolding bv_shadow
bv_shadow-IsFull v = bv_create-IsFull v.bits

-- Exactly those of which no terminal is in the row.
pub finds_nulling_lem :
    (n : ℕ) (m : Matrix) (tv : BitVector) (i : ℕ)
    → IsSolid n m
    → IsSized n tv
    → i < n
    → (finds_nulling m tv i ≡ true)
      ↔ ((j : ℕ) → j < n → matrix_bit_test m i j ≡ true → bv_bit_test tv j ≡ false)
unfolding matrix_bit_test
finds_nulling_lem n m tv i s t l =
    let r = matrix_row-IsSized n m i s l in
    let sh = bv_shadow-IsFull tv in
    let ea : (bv_shadow tv).bits ≡ tv.bits = bits-shadow tv in
    let eb : (bv_shadow tv).bits ≡ (matrix_row m i).bits = ea ∙ t.size ∙ sym r.size in
    let v = bv_and (bv_shadow tv) tv (matrix_row m i) in
    let full : IsFull v =
      bv_and-IsFull (bv_shadow tv) tv sh.vector t.full ea (matrix_row m i) r.full eb in
    let size : v.bits ≡ n = bits-and (bv_shadow tv) tv (matrix_row m i) ∙ ea ∙ t.size in
    let bit : (j : ℕ)
        → j < n
        → bv_bit_test v j ≡ (bv_bit_test tv j && bv_bit_test (matrix_row m i) j) =
      λ j h.
        bv_bit_test-and (bv_shadow tv) tv sh.vector t.full ea (matrix_row m i) r.full eb j
          (omega (arith, ea, t.size)) in
    let c = bv_is_empty_lem v full in
    (
      λ e j h b. ground (arith, c.0 e j (omega (arith, size)), bit j h, b),
      λ d. c.1 (λ j h.
          let h' : j < n = omega (arith, size) in
          elim (Bool-cases (bv_bit_test (matrix_row m i) j)) [
            | inl e ↦ ground (arith, bit j h', d j h' e)
            | inr e ↦ ground (arith, bit j h', e)
          ]),
    )
