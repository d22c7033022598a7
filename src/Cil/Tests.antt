-- ===== src/Cil/Tests.antt =====
-- Runs of the arena, with the tree as a list of keys and pointers.
use marpa_r.Prelude.{
  Ascending, has, ℕ, ◌<◌, ◌≡◌, refl, ◌||◌, List, [], ◌∷◌, Option, none, some, length, get_or, pos,
  eqb_ℤ, if◌then◌else◌,
}
use marpa_r.Cil.{
  Avl, Cilar, cil_cmp, cilar_init, cil_empty, cil_singleton, cil_merge, cil_merge_one,
  cil_buffer_add, cil_buffer_clear, cil_buffer_push, merge_items, insert_item, cil_bv_add,
}
use marpa_r.Cil.Vector.{OfVector, cil_bv_add_lem}
use marpa_r.BitVector.{BitVector, bv_create, bv_bit_set}
use marpa_r.BitVector.Full.{bv_create-IsFull, bv_bit_set-IsFull}
use marpa_r.BitVector.Scan.{set_bits}
use marpa_r.Cil.Arena.{AvlLaws, IsArena, cilar_init-IsArena, cil_buffer_add_lem}
use marpa_r.Cil.Merge.{Merged, MergedOne, cil_merge_lem, cil_merge_one_lem}

abbrev Keyed : Type 0
Keyed = List ℕ × ℕ

abbrev find_in : List Keyed → List ℕ → Option ℕ
find_in [] k = none
find_in ((k', p) ∷ rest) k =
    let below = find_in rest k in if eqb_ℤ (cil_cmp k' k) (pos 0) then some p else below

abbrev list_avl : Avl (List Keyed)
list_avl = record { create = []; find = find_in; insert = λ t k p. (k, p) ∷ t }

list_avl_laws : AvlLaws list_avl
list_avl_laws = record { find_create = λ k. refl; find_insert = λ t k k' p e. refl }

-- The arena of [2] and [3], and then of their union.
abbrev singles : Cilar (List Keyed)
singles = (cil_singleton list_avl (cil_singleton list_avl (cilar_init list_avl) 2).0 3).0

abbrev merged : Cilar (List Keyed) × ℕ
merged = cil_merge list_avl singles 1 0

runs :
    (merged.1 ≡ 2)
    × ((merged.0).obs ≡ (2 ∷ []) ∷ (3 ∷ []) ∷ (2 ∷ 3 ∷ []) ∷ [])
    × ((cil_merge list_avl (merged.0) 0 1).1 ≡ 2)
    × ((cil_merge_one list_avl (merged.0) 0 3).1 ≡ some 2)
    × ((cil_merge_one list_avl (merged.0) 2 3).1 ≡ none)
    × ((cil_empty list_avl (merged.0)).1 ≡ 3)
    × ((cil_buffer_add list_avl
          (cil_buffer_push (cil_buffer_push (cil_buffer_clear (merged.0)) 2) 3)).1
        ≡ 2)
unfolding cilar_init cil_singleton cil_merge cil_merge_one cil_empty cil_buffer_add cil_cmp
    cil_buffer_clear cil_buffer_push merge_items insert_item
runs = (refl, refl, refl, refl, refl, refl, refl)

singles-IsArena : IsArena list_avl_laws singles
unfolding cil_singleton cilar_init
singles-IsArena =
    let c1 : Cilar (List Keyed) = record (cilar_init list_avl) { buffer = 2 ∷ [] } in
    let w0 = cilar_init-IsArena list_avl_laws in
    let a1 =
      cil_buffer_add_lem list_avl_laws c1 (record { found = w0.found; shared = w0.shared }) in
    let c2 : Cilar (List Keyed) = record ((cil_buffer_add list_avl c1).0) { buffer = 3 ∷ [] } in
    (cil_buffer_add_lem list_avl_laws c2
      (record { found = a1.arena.found; shared = a1.arena.shared })).arena

singles_obs : singles.obs ≡ (2 ∷ []) ∷ (3 ∷ []) ∷ []
unfolding cilar_init cil_singleton cil_cmp
singles_obs = refl

singles-Ascending : Ascending (get_or singles.obs 0 []) × Ascending (get_or singles.obs 1 [])
singles-Ascending = rw singles_obs ((tt, tt), (tt, tt))

cil_merge_lem_example :
    Merged list_avl_laws singles
      (get_or singles.obs 1 [])
      (get_or singles.obs 0 [])
      (cil_merge list_avl singles 1 0)
    × ((p : ℕ)
        → p < length singles.obs
        → Ascending (get_or singles.obs p [])
        → ((z : ℕ)
            → has (get_or singles.obs p []) z
              ≡ (has (get_or singles.obs 1 []) z || has (get_or singles.obs 0 []) z))
        → (cil_merge list_avl singles 1 0).1 ≡ p)
cil_merge_lem_example =
    cil_merge_lem list_avl_laws singles 1 0 singles-IsArena (singles-Ascending.1)
      (singles-Ascending.0)

cil_merge_one_lem_example :
    MergedOne list_avl_laws singles (get_or singles.obs 0 []) 3 (cil_merge_one list_avl singles 0 3)
cil_merge_one_lem_example =
    cil_merge_one_lem list_avl_laws singles 0 3 singles-IsArena (singles-Ascending.0)

-- The vector of 2 and 3.
abbrev two_three : BitVector
two_three = bv_bit_set (bv_bit_set (bv_create 5) 3) 2

cil_bv_add_run : (cil_bv_add list_avl (merged.0) two_three).1 ≡ 2
unfolding cilar_init cil_singleton cil_merge cil_buffer_add cil_cmp cil_buffer_clear cil_buffer_push
    merge_items cil_bv_add set_bits bv_create bv_bit_set
cil_bv_add_run = refl

cil_bv_add_lem_example :
    OfVector list_avl_laws singles two_three (cil_bv_add list_avl singles two_three)
cil_bv_add_lem_example = cil_bv_add_lem list_avl_laws singles two_three singles-IsArena (
    bv_bit_set-IsFull (bv_bit_set (bv_create 5) 3) 2
      (bv_bit_set-IsFull (bv_create 5) 3 (bv_create-IsFull 5)))
