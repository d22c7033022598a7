-- ===== src/Matrix.antt =====
-- The bit matrices of cpan/engine/read_only/marpa.c and Warshall's algorithm on them. The rows
-- lie one behind the other in memory, each with its hidden words; here they are a list.
pub mod Closure
pub mod Rows
pub mod Tests
use marpa_r.Prelude.{
  ℕ, zero, suc, ◌+◌, ◌*◌, Bool, true, false, List, [], ◌∷◌, map, length, get_or, modify, replicate,
  if◌then◌else◌,
}
use marpa_r.BitVector.{
  BitVector, bits_to_size, bv_create, bv_clear, bv_bit_set, bv_bit_clear, bv_bit_test, bv_or_assign,
}

pub record Matrix : Type 0 where
  pub row_count : ℕ
  pub rows : List BitVector

-- `matrix_buffer_create`, and so `matrix_obs_create`.
unfoldable pub matrix_create : ℕ → ℕ → Matrix
unfolding bv_create
matrix_create rows columns = record { row_count = rows; rows = replicate rows (bv_create columns) }

-- Read past the last row: no function reaches it.
abbrev pub no_row : BitVector
no_row = record { bits = 0; size = 0; mask = 0; words = [] }

unfoldable pub matrix_clear : Matrix → Matrix
unfolding bv_clear
matrix_clear m = record m { rows = map bv_clear m.rows }

unfoldable pub matrix_row : Matrix → ℕ → BitVector
matrix_row m row = get_or m.rows row no_row

unfoldable pub matrix_columns : Matrix → ℕ
unfolding matrix_row
matrix_columns m = (matrix_row m 0).bits

unfoldable pub matrix_bit_set : Matrix → ℕ → ℕ → Matrix
matrix_bit_set m row column = record m { rows = modify m.rows row (λ v. bv_bit_set v column) }

unfoldable pub matrix_bit_clear : Matrix → ℕ → ℕ → Matrix
matrix_bit_clear m row column = record m { rows = modify m.rows row (λ v. bv_bit_clear v column) }

unfoldable pub matrix_bit_test : Matrix → ℕ → ℕ → Bool
unfolding matrix_row
matrix_bit_test m row column = bv_bit_test (matrix_row m row) column

-- The body of the inner loop of `transitive_closure`: row `column` takes in row `outer` if it has
-- its bit. `outer_row_v` points to the row, so it is read as it is now.
unfoldable pub closure_step : ℕ → ℕ → Matrix → Matrix
closure_step outer column m =
    if matrix_bit_test m column outer
    then record m { rows = modify m.rows column (λ v. bv_or_assign v (matrix_row m outer)) }
    else m

-- The inner loop over the columns from `column`, with `n` left.
unfoldable pub closure_columns : ℕ → ℕ → ℕ → Matrix → Matrix
unfolding closure_step
closure_columns outer zero column m = m
closure_columns outer (suc n) column m =
    closure_columns outer n (suc column) (closure_step outer column m)

-- The outer loop over the rows from `outer`, with `n` left.
unfoldable pub closure_rows : ℕ → ℕ → ℕ → Matrix → Matrix
unfolding closure_columns
closure_rows size zero outer m = m
closure_rows size (suc n) outer m = closure_rows size n (suc outer) (closure_columns outer size 0 m)

unfoldable pub transitive_closure : Matrix → Matrix
unfolding closure_rows matrix_columns
transitive_closure m = let size = matrix_columns m in closure_rows size size 0 m
