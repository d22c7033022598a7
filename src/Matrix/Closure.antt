-- ===== src/Matrix/Closure.antt =====
-- Warshall's algorithm computes reachability.
use marpa_r.Prelude.{
  ℕ, zero, suc, ◌+◌, ◌<◌, ◌≡◌, ◌↔◌, refl, ◌∙◌, Bool, true, false, ◌&&◌, ◌||◌, ◌⊎◌, inl, inr, length,
  get_or, replicate, length-replicate, length-modify, get_or-modify_self, get_or-modify_ne, arith,
  ◌==◌, leb, if◌then◌else◌, Bool-cases,
}
use native.Mathlib.Decide.{ℕ_discrete}
use marpa_r.BitVector.{BitVector, bv_or_assign, bv_create, bv_bit_set}
use marpa_r.BitVector.Laws.{
  IsVector, bv_create-IsVector, bv_bit_set-IsVector, bv_bit_test-or_assign, bv_or_assign-IsVector,
}
use marpa_r.Matrix.{
  Matrix, no_row, matrix_row, matrix_columns, matrix_bit_test, closure_step, closure_columns,
  closure_rows, transitive_closure, matrix_create, matrix_bit_set,
}

-- `n` rows of `n` bits.
pub record IsSquare (n : ℕ) (m : Matrix) : Type 0 where
  pub counted : length m.rows ≡ n
  pub row : (i : ℕ) → i < n → IsVector (matrix_row m i) × ((matrix_row m i).bits ≡ n)

-- A walk along the set bits, of one step or more.
pub data Reach (n : ℕ) (m : Matrix) : ℕ → ℕ → Type 0 where
  edge : {i j : ℕ} → i < n → j < n → matrix_bit_test m i j ≡ true → Reach n m i j
  join : {i j k : ℕ} → Reach n m i j → Reach n m j k → Reach n m i k

module _ (n outer : ℕ) (o : outer < n) where
  step_row :
      (column i : ℕ) (m : Matrix)
      → IsSquare n m
      → column < n
      → i < n
      → matrix_row (closure_step outer column m) i ≡ (
          if matrix_bit_test m column outer && (column == i)
          then bv_or_assign (matrix_row m i) (matrix_row m outer)
          else matrix_row m i)
  unfolding closure_step matrix_row
  step_row column i m s c l =
      let f : BitVector → BitVector = λ v. bv_or_assign v (matrix_row m outer) in
      elim (Bool-cases (matrix_bit_test m column outer)) [
        | inr e ↦ rw (e, closure_step)
        | inl e ↦
            rw (e, closure_step)
              (elim (ℕ_discrete column i) [
                | yes p ↦
                    rw (p, get_or-modify_self m.rows i f no_row (omega (arith, s.counted)))
                      (ground arith)
                | no ne ↦ rw (get_or-modify_ne m.rows column i f no_row ne) (ground arith)
              ])
      ]

  step-length :
      (column : ℕ) (m : Matrix) → length (closure_step outer column m).rows ≡ length m.rows
  unfolding closure_step
  step-length column m = elim (Bool-cases (matrix_bit_test m column outer)) [
    | inl e ↦ rw (e, closure_step) (length-modify m.rows column _)
    | inr e ↦ rw (e, closure_step)
  ]

  or_assign-bits : (v w : BitVector) → (bv_or_assign v w).bits ≡ v.bits
  unfolding bv_or_assign
  or_assign-bits v w = refl

  step-IsSquare :
      (column : ℕ) (m : Matrix)
      → IsSquare n m
      → column < n
      → IsSquare n (closure_step outer column m)
  step-IsSquare column m s c = record {
    counted = step-length column m ∙ s.counted;
    row = λ i l.
        let here = s.row i l in
        let there = s.row outer o in
        let same : (matrix_row m i).bits ≡ (matrix_row m outer).bits = omega arith in
        rw (step_row column i m s c l) (
          choose (matrix_bit_test m column outer && (column == i)) (matrix_row m i)
            (bv_or_assign (matrix_row m i) (matrix_row m outer)) here
            (bv_or_assign-IsVector _ _ here.0 there.0 same, or_assign-bits _ _ ∙ here.1));
  }
    where
      choose :
          (b : Bool) (v w : BitVector)
          → IsVector v × (v.bits ≡ n)
          → IsVector w × (w.bits ≡ n)
          → IsVector (if b then w else v) × ((if b then w else v).bits ≡ n)
      choose true v w p q = q
      choose false v w p q = p

  -- One step, seen through the bits.
  step_bit :
      (column i j : ℕ) (m : Matrix)
      → IsSquare n m
      → column < n
      → i < n
      → j < n
      → matrix_bit_test (closure_step outer column m) i j ≡ (
          matrix_bit_test m i j
          || (column == i && (matrix_bit_test m i outer && matrix_bit_test m outer j)))
  unfolding matrix_bit_test
  step_bit column i j m s c l h =
      let here = s.row i l in
      let there = s.row outer o in
      let same : (matrix_row m i).bits ≡ (matrix_row m outer).bits = omega arith in
      let union =
        bv_bit_test-or_assign (matrix_row m i) (matrix_row m outer) here.0 there.0 same j
          (omega (arith, here.1)) in
      rw (step_row column i m s c l)
        (elim (ℕ_discrete column i) [ yes p ↦ rw p (ground (arith, union)) | no ne ↦ ground arith ])

  columns-IsSquare :
      (k column : ℕ) (m : Matrix)
      → column + k ≡ n
      → IsSquare n m
      → IsSquare n (closure_columns outer k column m)
  unfolding closure_columns
  columns-IsSquare zero column m e s = s
  columns-IsSquare (suc k) column m e s =
      columns-IsSquare k (suc column) _ (omega arith) (step-IsSquare column m s (omega arith))

  -- The inner loop adds the walks through `outer`.
  columns_bit :
      (k column i j : ℕ) (m : Matrix)
      → column + k ≡ n
      → IsSquare n m
      → i < n
      → j < n
      → matrix_bit_test (closure_columns outer k column m) i j ≡ (
          matrix_bit_test m i j
          || (leb column i && (matrix_bit_test m i outer && matrix_bit_test m outer j)))
  unfolding closure_columns
  columns_bit zero column i j m e s l h = ground arith
  columns_bit (suc k) column i j m e s l h =
      let c : column < n = omega arith in
      ground (
        arith,
        columns_bit k (suc column) i j (closure_step outer column m) (omega arith)
            (step-IsSquare column m s c) l h,
        step_bit column i j m s c l h,
        step_bit column i outer m s c l o,
        step_bit column outer j m s c o h,
      )

-- The bits are closed under walks through vertices below `k`.
abbrev ClosedBelow : ℕ → ℕ → Matrix → Type 0
ClosedBelow n k m =
    (i v j : ℕ)
    → i < n
    → v < k
    → j < n
    → matrix_bit_test m i v ≡ true
    → matrix_bit_test m v j ≡ true
    → matrix_bit_test m i j ≡ true

-- The bits of `m'` include those of `m`, and are walks of `m`.
record Between (n : ℕ) (m m' : Matrix) : Type 0 where
  keeps : (i j : ℕ) → i < n → j < n → matrix_bit_test m i j ≡ true → matrix_bit_test m' i j ≡ true
  walks : (i j : ℕ) → i < n → j < n → matrix_bit_test m' i j ≡ true → Reach n m i j

module _ (n : ℕ) (m : Matrix) where
  columns-ClosedBelow :
      (k : ℕ) (m' : Matrix)
      → k < n
      → IsSquare n m'
      → ClosedBelow n k m'
      → ClosedBelow n (suc k) (closure_columns k n 0 m')
  columns-ClosedBelow k m' o s closed i v j l lv h p q =
      let bit =
        λ (a b : ℕ) (la : a < n) (lb : b < n). columns_bit n k o n 0 a b m' (omega arith) s la lb in
      ground (
        arith,
        bit i v l (omega arith),
        bit v j (omega arith) h,
        bit i j l h,
        closed i v j l,
        closed i v k l,
        closed k v j o,
      )

  columns-Between :
      (k : ℕ) (m' : Matrix)
      → k < n
      → IsSquare n m'
      → Between n m m'
      → Between n m (closure_columns k n 0 m')
  columns-Between k m' o s b = record {
    keeps = λ i j l h e.
        ground (arith, columns_bit n k o n 0 i j m' (omega arith) s l h, b.keeps i j l h e);
    walks = λ i j l h e. new i j l h (Bool-cases (matrix_bit_test m' i j)) e;
  }
    where
      new :
          (i j : ℕ)
          → i < n
          → j < n
          → (matrix_bit_test m' i j ≡ true) ⊎ (matrix_bit_test m' i j ≡ false)
          → matrix_bit_test (closure_columns k n 0 m') i j ≡ true
          → Reach n m i j
      new i j l h (inl old) e = b.walks i j l h old
      new i j l h (inr fresh) e =
          let bit = columns_bit n k o n 0 i j m' (omega arith) s l h in
          join (b.walks i k l o (ground arith)) (b.walks k j o h (ground arith))

  rows_lem :
      (left k : ℕ) (m' : Matrix)
      → k + left ≡ n
      → IsSquare n m'
      → ClosedBelow n k m'
      → Between n m m'
      → Between n m (closure_rows n left k m') × ClosedBelow n n (closure_rows n left k m')
  unfolding closure_rows
  rows_lem zero k m' e s closed b = let same : k ≡ n = omega arith in (b, rw same at closed)
  rows_lem (suc left) k m' e s closed b =
      let o : k < n = omega arith in
      rows_lem left (suc k) _ (omega arith) (columns-IsSquare n k o n 0 m' (omega arith) s)
        (columns-ClosedBelow k m' o s closed) (columns-Between k m' o s b)

Reach-below : {n : ℕ} {m : Matrix} {i j : ℕ} → Reach n m i j → (i < n) × (j < n)
Reach-below (edge l h e) = (l, h)
Reach-below (join p q) = ((Reach-below p).0, (Reach-below q).1)

complete :
    {n : ℕ} {m m' : Matrix} {i j : ℕ}
    → Between n m m'
    → ClosedBelow n n m'
    → Reach n m i j
    → matrix_bit_test m' i j ≡ true
complete b c (edge {i} {j} l h e) = b.keeps i j l h e
complete b c (join {i} {j} {k} p q) =
    c i j k (Reach-below p).0 (Reach-below p).1 (Reach-below q).1 (complete b c p) (complete b c q)

columns_of : {n : ℕ} (m : Matrix) → IsSquare n m → 0 < n → matrix_columns m ≡ n
unfolding matrix_columns
columns_of m s p = (s.row 0 p).1

-- On a square matrix, a bit of the closure is set exactly if a walk of one or more set bits of the
-- matrix leads from the row to the column.
pub transitive_closure_lem :
    (n : ℕ) (m : Matrix) (i j : ℕ)
    → IsSquare n m
    → i < n
    → j < n
    → (matrix_bit_test (transitive_closure m) i j ≡ true) ↔ Reach n m i j
unfolding transitive_closure
transitive_closure_lem n m i j s l h =
    let columns : matrix_columns m ≡ n = columns_of m s (omega arith) in
    let start : Between n m m = record {
      keeps = λ i j l h e. e;
      walks = λ i j l h e. edge l h e;
    } in
    let (b, c) = rows_lem n m n 0 m (omega arith) s (λ i v j l lv. absurd (omega arith)) start in
    rw columns (b.walks i j l h, complete b c)

row_of_replicate : (k i : ℕ) (v : BitVector) → i < k → get_or (replicate k v) i no_row ≡ v
row_of_replicate zero i v l = elim l [ ]
row_of_replicate (suc k) zero v l = refl
row_of_replicate (suc k) (suc i) v l = row_of_replicate k i v (omega arith)

create-bits : (k : ℕ) → (bv_create k).bits ≡ k
unfolding bv_create
create-bits k = refl

pub matrix_create-IsSquare : (n : ℕ) → IsSquare n (matrix_create n n)
unfolding matrix_create matrix_row
matrix_create-IsSquare n = record {
  counted = length-replicate n (bv_create n);
  row = λ i l. (
    rw (row_of_replicate n i (bv_create n) l) (bv_create-IsVector n),
    rw (row_of_replicate n i (bv_create n) l) (create-bits n),
  );
}

bit_set-bits : (v : BitVector) (j : ℕ) → (bv_bit_set v j).bits ≡ v.bits
unfolding bv_bit_set
bit_set-bits v j = refl

pub matrix_bit_set-IsSquare :
    (n i j : ℕ) (m : Matrix) → IsSquare n m → IsSquare n (matrix_bit_set m i j)
unfolding matrix_bit_set matrix_row
matrix_bit_set-IsSquare n i j m s = record {
  counted = length-modify m.rows i _ ∙ s.counted;
  row = λ k l. elim (ℕ_discrete i k) [
    | yes p ↦
        rw
          (← p, get_or-modify_self m.rows i (λ v. bv_bit_set v j) no_row (omega (arith, s.counted)))
          (let (v, b) = s.row i (omega arith) in (bv_bit_set-IsVector _ j v, bit_set-bits _ j ∙ b))
    | no ne ↦ rw (get_or-modify_ne m.rows i k (λ v. bv_bit_set v j) no_row ne) (s.row k l)
  ];
}
