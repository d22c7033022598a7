-- ===== src/Matrix/Rows.antt =====
-- The rows of a square matrix as full vectors.
use marpa_r.Prelude.{
  ℕ, zero, suc, ◌+◌, ◌<◌, ◌≡◌, refl, ◌∙◌, sym, List, [], ◌∷◌, All, All-modify, length, get_or,
  modify, replicate, length-replicate, length-modify, Bool-cases, inl, inr, arith,
}
use marpa_r.BitVector.{BitVector, bv_create, bv_bit_set, bv_or, bv_or_assign}
use marpa_r.BitVector.Full.{IsSized, bv_create-IsFull, bv_bit_set-IsFull, bits-set, bv_or-IsFull}
use marpa_r.Matrix.{
  Matrix, no_row, matrix_create, matrix_row, matrix_columns, matrix_bit_set, matrix_bit_test,
  closure_step, closure_columns, closure_rows, transitive_closure,
}
use marpa_r.Matrix.Closure.{IsSquare}

-- `n` rows of `n` bits, all of them full vectors.
pub record IsSolid (n : ℕ) (m : Matrix) : Type 0 where
  pub counted : length m.rows ≡ n
  pub rows : All (IsSized n) m.rows

get_or-All :
    (n : ℕ) (vs : List BitVector) (i : ℕ)
    → All (IsSized n) vs
    → i < length vs
    → IsSized n (get_or vs i no_row)
get_or-All n [] i a l = elim l [ ]
get_or-All n (v ∷ vs) zero a l = a.0
get_or-All n (v ∷ vs) (suc i) a l = get_or-All n vs i a.1 (omega arith)

pub matrix_row-IsSized :
    (n : ℕ) (m : Matrix) (i : ℕ) → IsSolid n m → i < n → IsSized n (matrix_row m i)
unfolding matrix_row
matrix_row-IsSized n m i s l = get_or-All n m.rows i s.rows (omega (arith, s.counted))

pub IsSolid-IsSquare : (n : ℕ) (m : Matrix) → IsSolid n m → IsSquare n m
IsSolid-IsSquare n m s = record {
  counted = s.counted;
  row = λ i l. let r = matrix_row-IsSized n m i s l in (r.full.vector, r.size);
}

replicate-IsSized : (n k : ℕ) (v : BitVector) → IsSized n v → All (IsSized n) (replicate k v)
replicate-IsSized n zero v r = tt
replicate-IsSized n (suc k) v r = (r, replicate-IsSized n k v r)

bits-create : (n : ℕ) → (bv_create n).bits ≡ n
unfolding bv_create
bits-create n = refl

pub matrix_create-IsSolid : (n : ℕ) → IsSolid n (matrix_create n n)
unfolding matrix_create
matrix_create-IsSolid n = record {
  counted = length-replicate n (bv_create n);
  rows =
      replicate-IsSized n n (bv_create n)
        (record { full = bv_create-IsFull n; size = bits-create n });
}

modify-IsSolid :
    (n : ℕ) (m : Matrix) (i : ℕ) (f : BitVector → BitVector)
    → IsSolid n m
    → ((v : BitVector) → IsSized n v → IsSized n (f v))
    → IsSolid n (record m { rows = modify m.rows i f })
modify-IsSolid n m i f s h = record {
  counted = length-modify m.rows i f ∙ s.counted;
  rows = All-modify (IsSized n) m.rows i f h s.rows;
}

pub matrix_bit_set-IsSolid :
    (n i j : ℕ) (m : Matrix) → IsSolid n m → IsSolid n (matrix_bit_set m i j)
unfolding matrix_bit_set
matrix_bit_set-IsSolid n i j m s =
    modify-IsSolid n m i (λ v. bv_bit_set v j) s
      (λ v r. record { full = bv_bit_set-IsFull v j r.full; size = bits-set v j ∙ r.size })

or_assign-IsSized :
    (n : ℕ) (v w : BitVector) → IsSized n v → IsSized n w → IsSized n (bv_or_assign v w)
unfolding bv_or_assign bv_or
or_assign-IsSized n v w a b = record {
  full = bv_or-IsFull v v a.full.vector a.full refl w b.full (a.size ∙ sym b.size);
  size = a.size;
}

closure_step-IsSolid :
    (n outer column : ℕ) (m : Matrix)
    → outer < n
    → IsSolid n m
    → IsSolid n (closure_step outer column m)
unfolding closure_step
closure_step-IsSolid n outer column m o s = elim (Bool-cases (matrix_bit_test m column outer)) [
  | inl e ↦ rw e (
      modify-IsSolid n m column (λ v. bv_or_assign v (matrix_row m outer)) s
        (λ v r. or_assign-IsSized n v (matrix_row m outer) r (matrix_row-IsSized n m outer s o)))
  | inr e ↦ rw e s
]

closure_columns-IsSolid :
    (n outer k column : ℕ) (m : Matrix)
    → outer < n
    → IsSolid n m
    → IsSolid n (closure_columns outer k column m)
unfolding closure_columns
closure_columns-IsSolid n outer zero column m o s = s
closure_columns-IsSolid n outer (suc k) column m o s =
    closure_columns-IsSolid n outer k (suc column) (closure_step outer column m) o
      (closure_step-IsSolid n outer column m o s)

closure_rows-IsSolid :
    (n size k outer : ℕ) (m : Matrix)
    → outer + k ≡ n
    → IsSolid n m
    → IsSolid n (closure_rows size k outer m)
unfolding closure_rows
closure_rows-IsSolid n size zero outer m o s = s
closure_rows-IsSolid n size (suc k) outer m o s =
    closure_rows-IsSolid n size k (suc outer) (closure_columns outer size 0 m) (omega arith)
      (closure_columns-IsSolid n outer size 0 m (omega arith) s)

pub transitive_closure-IsSolid :
    (n : ℕ) (m : Matrix) → 0 < n → IsSolid n m → IsSolid n (transitive_closure m)
unfolding transitive_closure matrix_columns
transitive_closure-IsSolid n m l s =
    let e : (matrix_row m 0).bits ≡ n = (matrix_row-IsSized n m 0 s l).size in
    rw e (closure_rows-IsSolid n n n 0 m (omega arith) s)
