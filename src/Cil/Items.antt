-- ===== src/Cil/Items.antt =====
-- Merging sorted lists of items is the union of sets.
use marpa_r.Prelude.{
  has, Ascending, has-All, All-has, ℕ, zero, suc, ◌+◌, ◌≤◌, ◌<◌, ◌≡◌, ◌↔◌, refl, true, false, ◌||◌,
  List, [], ◌∷◌, Option, none, some, length, All, All-map, inl, inr, pos, ltb, eqb_ℤ, ◌==◌, arith,
  Bool-cases,
}
use marpa_r.Cil.{items_cmp, cil_cmp, merge_loop, merge_items, insert_item}

items_cmp_lem :
    (xs ys : List ℕ) → length xs ≡ length ys → eqb_ℤ (items_cmp xs ys) (pos 0) ≡ true → xs ≡ ys
unfolding items_cmp
items_cmp_lem [] [] l e = refl
items_cmp_lem [] (y ∷ ys) l e = absurd (omega arith)
items_cmp_lem (x ∷ xs) [] l e = absurd (omega arith)
items_cmp_lem (x ∷ xs) (y ∷ ys) l e = elim (Bool-cases (x == y)) [
  | inl h ↦
      let p : x ≡ y = ground (arith, h) in
      rw (p, items_cmp_lem xs ys (omega arith) (ground (arith, e, h)))
  | inr h ↦ absurd (ground (arith, e, h))
]

items_cmp_refl : (xs : List ℕ) → items_cmp xs xs ≡ pos 0
unfolding items_cmp
items_cmp_refl [] = refl
items_cmp_refl (x ∷ xs) = ground (arith, items_cmp_refl xs)

-- `cil_cmp` is 0 exactly on lists with the same items.
pub cil_cmp_lem : (xs ys : List ℕ) → (eqb_ℤ (cil_cmp xs ys) (pos 0) ≡ true) ↔ (xs ≡ ys)
unfolding cil_cmp
cil_cmp_lem xs ys = (
  λ e. elim (Bool-cases (length xs == length ys)) [
    | inl h ↦ items_cmp_lem xs ys (ground (arith, h)) (ground (arith, e, h))
    | inr h ↦ absurd (ground (arith, e, h))
  ],
  λ p. rw p (ground (arith, items_cmp_refl ys)),
)

merge_loop-All :
    (P : ℕ → Type 0) (n : ℕ) (xs ys : List ℕ) → All P xs → All P ys → All P (merge_loop n xs ys)
unfolding merge_loop
merge_loop-All P n [] ys a b = b
merge_loop-All P n (x ∷ xs) [] a b = a
merge_loop-All P zero (x ∷ xs) (y ∷ ys) a b = tt
merge_loop-All P (suc n) (x ∷ xs) (y ∷ ys) a b = elim (Bool-cases (ltb y x)) [
  | inl h ↦
      let h' : ltb x y ≡ false = ground (arith, h) in
      rw (h, h') (b.0, merge_loop-All P n (x ∷ xs) ys a b.1)
  | inr h ↦ rw h (
    a.0,
    elim (Bool-cases (ltb x y)) [
      | inl h' ↦ rw h' (merge_loop-All P n xs (y ∷ ys) a.1 b)
      | inr h' ↦ rw h' (merge_loop-All P n xs ys a.1 b.1)
    ],
  )
]

merge_loop-Ascending :
    (n : ℕ) (xs ys : List ℕ) → Ascending xs → Ascending ys → Ascending (merge_loop n xs ys)
unfolding merge_loop
merge_loop-Ascending n [] ys a b = b
merge_loop-Ascending n (x ∷ xs) [] a b = a
merge_loop-Ascending zero (x ∷ xs) (y ∷ ys) a b = tt
merge_loop-Ascending (suc n) (x ∷ xs) (y ∷ ys) a b = elim (Bool-cases (ltb y x)) [
  | inl h ↦
      let h' : ltb x y ≡ false = ground (arith, h) in
      let l : y < x = ground (arith, h) in
      rw (h, h')
        (
          merge_loop-All (λ z. y < z) n (x ∷ xs) ys
              (l, All-map (λ z. x < z) (λ z. y < z) xs (λ z m. omega arith) a.0) b.0,
          merge_loop-Ascending n (x ∷ xs) ys a b.1,
        )
  | inr h ↦ elim (Bool-cases (ltb x y)) [
    | inl h' ↦
        let l : x < y = ground (arith, h') in
        rw (h, h')
          (
            merge_loop-All (λ z. x < z) n xs (y ∷ ys) a.0
                (l, All-map (λ z. y < z) (λ z. x < z) ys (λ z m. omega arith) b.0),
            merge_loop-Ascending n xs (y ∷ ys) a.1 b,
          )
    | inr h' ↦
        let p : x ≡ y = ground (arith, h, h') in
        rw (h, h')
          (merge_loop-All (λ z. x < z) n xs ys a.0 (rw p b.0), merge_loop-Ascending n xs ys a.1 b.1)
  ]
]

merge_loop-has :
    (n : ℕ) (xs ys : List ℕ) (z : ℕ)
    → length xs + length ys ≤ n
    → has (merge_loop n xs ys) z ≡ (has xs z || has ys z)
unfolding merge_loop
merge_loop-has n [] ys z l = refl
merge_loop-has n (x ∷ xs) [] z l = ground arith
merge_loop-has zero (x ∷ xs) (y ∷ ys) z l = absurd (omega arith)
merge_loop-has (suc n) (x ∷ xs) (y ∷ ys) z l = elim (Bool-cases (ltb y x)) [
  | inl h ↦
      let h' : ltb x y ≡ false = ground (arith, h) in
      rw (h, h') (ground (arith, merge_loop-has n (x ∷ xs) ys z (omega arith)))
  | inr h ↦ elim (Bool-cases (ltb x y)) [
    | inl h' ↦ rw (h, h') (ground (arith, merge_loop-has n xs (y ∷ ys) z (omega arith)))
    | inr h' ↦ rw (h, h') (ground (arith, h, h', merge_loop-has n xs ys z (omega arith)))
  ]
]

-- A merge of ascending lists is ascending, and has what one of the two has.
pub merge_items_lem :
    (xs ys : List ℕ)
    → Ascending xs
    → Ascending ys
    → Ascending (merge_items xs ys) × ((z : ℕ) → has (merge_items xs ys) z ≡ (has xs z || has ys z))
unfolding merge_items
merge_items_lem xs ys a b = (
  merge_loop-Ascending (length xs + length ys) xs ys a b,
  λ z. merge_loop-has (length xs + length ys) xs ys z (omega arith),
)

-- Inserting an item into an ascending list.
pub data Insertion (xs : List ℕ) (new : ℕ) : Option (List ℕ) → Type 0 where
  there : has xs new ≡ true → Insertion xs new none
  added :
      (ys : List ℕ)
      → has xs new ≡ false
      → Ascending ys
      → ((z : ℕ) → has ys z ≡ (new == z || has xs z))
      → Insertion xs new (some ys)

-- The rest of the list behind an item below the new one.
insert_behind :
    (x : ℕ) (xs : List ℕ) (new : ℕ) (o : Option (List ℕ))
    → Ascending (x ∷ xs)
    → x < new
    → Insertion xs new o
    → Insertion (x ∷ xs) new (elim o [ none ↦ none | some ys ↦ some (x ∷ ys) ])
insert_behind x xs new o a l (there h) = there (ground (arith, h))
insert_behind x xs new o a l (added ys gone b h) =
    added (x ∷ ys) (ground (arith, gone, l))
      (
        All-has (λ z. x < z) ys
            (λ z m.
              let above : has xs z ≡ true → x < z = λ m'. has-All (λ y. x < y) xs z a.0 m' in
              ground (arith, m, h z, above, l)),
        b,
      )
      (λ z. ground (arith, h z))

-- The items of an ascending list with a new one are put in order; an item that is there is refused.
pub insert_item_lem : (xs : List ℕ) (new : ℕ) → Ascending xs → Insertion xs new (insert_item xs new)
unfolding insert_item
insert_item_lem [] new a = added (new ∷ []) refl (tt, tt) (λ z. refl)
insert_item_lem (x ∷ xs) new a = elim (Bool-cases (x == new)) [
  | inl same ↦ rw same (there (ground (arith, same)))
  | inr other ↦ elim (Bool-cases (ltb new x)) [
    | inl low ↦
        let l : new < x = ground (arith, low) in
        let gone : has xs new ≡ true → x < new = λ m. has-All (λ z. x < z) xs new a.0 m in
        rw (other, low)
          (added (new ∷ x ∷ xs) (ground (arith, other, low, gone))
            ((l, All-map (λ z. x < z) (λ z. new < z) xs (λ z m. omega arith) a.0), a) (λ z. refl))
    | inr high ↦
        rw (other, high)
          (insert_behind x xs new (insert_item xs new) a (ground (arith, other, high))
            (insert_item_lem xs new a.1))
  ]
]
