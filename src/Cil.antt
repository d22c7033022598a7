-- ===== src/Cil.antt =====
-- The counted integer lists (CIL) of cpan/engine/read_only/marpa.c, which one arena (CILAR) keeps
-- and shares. A list is the items after its count; a pointer to one is its place among the lists
-- that the arena's obstack holds. Items are identifiers.
pub mod Items
pub mod Arena
pub mod Merge
pub mod Vector
pub mod Tests
use marpa_r.Prelude.{
  ℕ, zero, suc, ◌+◌, List, [], ◌∷◌, ◌++◌, Option, none, some, length, get_or, ℤ, pos, negsuc, ltb,
  ◌==◌, if◌then◌else◌,
}
use marpa_r.BitVector.{BitVector}
use marpa_r.BitVector.Scan.{set_bits}

-- The loop of `cil_cmp` over two lists of one length.
unfoldable pub items_cmp : List ℕ → List ℕ → ℤ
items_cmp [] ys = pos 0
items_cmp (x ∷ xs) [] = pos 0
items_cmp (x ∷ xs) (y ∷ ys) =
    let rest = items_cmp xs ys in if x == y then rest else if ltb y x then pos 1 else negsuc 0

unfoldable pub cil_cmp : List ℕ → List ℕ → ℤ
unfolding items_cmp
cil_cmp cil1 cil2 =
    if length cil1 == length cil2
    then items_cmp cil1 cil2
    else if ltb (length cil2) (length cil1)
    then pos 1
    else negsuc 0

-- The three loops of `cil_merge`: from the heads of what is left of the two lists. The first
-- argument bounds the rounds; the sum of the lengths is enough.
unfoldable pub merge_loop : ℕ → List ℕ → List ℕ → List ℕ
merge_loop n [] ys = ys
merge_loop n (x ∷ xs) [] = x ∷ xs
merge_loop zero (x ∷ xs) (y ∷ ys) = []
merge_loop (suc n) (x ∷ xs) (y ∷ ys) =
    let rest = merge_loop n (if ltb y x then x ∷ xs else xs) (if ltb x y then y ∷ ys else ys) in
    (if ltb y x then y else x) ∷ rest

unfoldable pub merge_items : List ℕ → List ℕ → List ℕ
unfolding merge_loop
merge_items xs ys = merge_loop (length xs + length ys) xs ys

-- The loops of `cil_merge_one`, which gives up on an element that is there.
unfoldable pub insert_item : List ℕ → ℕ → Option (List ℕ)
insert_item [] new = some (new ∷ [])
insert_item (x ∷ xs) new =
    let rest = insert_item xs new in
    if x == new
    then none
    else if ltb new x
    then some (new ∷ x ∷ xs)
    else elim rest [ none ↦ none | some ys ↦ some (x ∷ ys) ]

-- The AVL library under the order `cil_cmp`: an empty tree, the pointer that is found for a list
-- with certain items, and the insertion of a pointer to a list with such items.
pub record Avl (T : Type 0) : Type 0 where
  pub create : T
  pub find : T → List ℕ → Option ℕ
  pub insert : T → List ℕ → ℕ → T

-- What the buffer holds after `cil_merge_one` gives up is left open, so it stays here as it was:
-- all functions but `cil_buffer_push` write it before they read it.
pub record Cilar (T : Type 0) : Type 0 where
  pub obs : List (List ℕ)
  pub avl : T
  pub buffer : List ℕ

module _ {T : Type 0} (env : Avl T) where
  unfoldable pub cilar_init : Cilar T
  cilar_init = record { obs = []; avl = env.create; buffer = [] }

  unfoldable pub cil_buffer_add : Cilar T → Cilar T × ℕ
  cil_buffer_add cilar = elim (env.find cilar.avl cilar.buffer) [
    | some found ↦ (cilar, found)
    | none ↦
        let found = length cilar.obs in
        (
          record cilar {
            obs = cilar.obs ++ cilar.buffer ∷ [];
            avl = env.insert cilar.avl cilar.buffer found;
          },
          found,
        )
  ]

  unfoldable pub cil_empty : Cilar T → Cilar T × ℕ
  unfolding cil_buffer_add
  cil_empty cilar = cil_buffer_add (record cilar { buffer = [] })

  unfoldable pub cil_singleton : Cilar T → ℕ → Cilar T × ℕ
  unfolding cil_buffer_add
  cil_singleton cilar element = cil_buffer_add (record cilar { buffer = element ∷ [] })

  unfoldable pub cil_merge : Cilar T → ℕ → ℕ → Cilar T × ℕ
  unfolding cil_buffer_add
  cil_merge cilar cil1 cil2 =
      cil_buffer_add (record cilar {
        buffer = merge_items (get_or cilar.obs cil1 []) (get_or cilar.obs cil2 []);
      })

  -- `none` is NULL.
  unfoldable pub cil_merge_one : Cilar T → ℕ → ℕ → Cilar T × Option ℕ
  unfolding cil_buffer_add
  cil_merge_one cilar cil new_element = elim (insert_item (get_or cilar.obs cil []) new_element) [
    | none ↦ (cilar, none)
    | some items ↦
        let (cilar', found) = cil_buffer_add (record cilar { buffer = items }) in
        (cilar', some found)
  ]

module _ {T : Type 0} where
  unfoldable pub cil_buffer_clear : Cilar T → Cilar T
  cil_buffer_clear cilar = record cilar { buffer = [] }

  unfoldable pub cil_buffer_push : Cilar T → ℕ → Cilar T
  cil_buffer_push cilar new_item = record cilar { buffer = cilar.buffer ++ new_item ∷ [] }

  unfoldable pub push_items : List ℕ → Cilar T → Cilar T
  unfolding cil_buffer_push
  push_items [] cilar = cilar
  push_items (i ∷ is) cilar = push_items is (cil_buffer_push cilar i)

-- The loops over the runs of `bv` push its set bits; that the scan clears the bits of `bv` out of use
-- is left out.
unfoldable pub cil_bv_add : {T : Type 0} → Avl T → Cilar T → BitVector → Cilar T × ℕ
unfolding cil_buffer_clear push_items cil_buffer_add
cil_bv_add env cilar bv = cil_buffer_add env (push_items (set_bits bv) (cil_buffer_clear cilar))
