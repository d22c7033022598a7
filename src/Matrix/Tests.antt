-- ===== src/Matrix/Tests.antt =====
-- The closure of a small relation.
use marpa_r.Prelude.{◌≡◌, ◌↔◌, refl, true, false, arith}
use marpa_r.BitVector.{bv_bit_test, bv_bit_set, bv_or_assign}
use marpa_r.Matrix.{Matrix, matrix_create, matrix_bit_set, matrix_bit_test, transitive_closure}
use marpa_r.Matrix.Closure.{
  IsSquare, Reach, matrix_create-IsSquare, matrix_bit_set-IsSquare, transitive_closure_lem,
}

-- Bits (0, 2), (2, 1) and (1, 3) of four rows.
abbrev chain : Matrix
chain = matrix_bit_set (matrix_bit_set (matrix_bit_set (matrix_create 4 4) 0 2) 2 1) 1 3

chain-IsSquare : IsSquare 4 chain
chain-IsSquare =
    matrix_bit_set-IsSquare 4 1 3 _
      (matrix_bit_set-IsSquare 4 2 1 _ (matrix_bit_set-IsSquare 4 0 2 _ (matrix_create-IsSquare 4)))

chain_closed :
    (matrix_bit_test (transitive_closure chain) 0 3 ≡ true)
    × (matrix_bit_test (transitive_closure chain) 0 1 ≡ true)
    × (matrix_bit_test (transitive_closure chain) 1 0 ≡ false)
    × (matrix_bit_test (transitive_closure chain) 0 0 ≡ false)
unfolding transitive_closure matrix_create matrix_bit_set matrix_bit_test bv_bit_test bv_bit_set
    bv_or_assign
chain_closed = (refl, refl, refl, refl)

transitive_closure_lem_example :
    (matrix_bit_test (transitive_closure chain) 0 3 ≡ true) ↔ Reach 4 chain 0 3
transitive_closure_lem_example =
    transitive_closure_lem 4 chain 0 3 chain-IsSquare (ground arith) (ground arith)
