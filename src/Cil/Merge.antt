-- ===== src/Cil/Merge.antt =====
-- Merging in the arena: which list the returned pointer has, and when two pointers are one.
use marpa_r.Prelude.{
  has, Ascending, Ascending-unique, ℕ, ◌<◌, ◌≡◌, sym, ap, ◌∙◌, true, false, ◌||◌, ◌==◌, List, [],
  Option, none, some, length, get_or, arith,
}
use marpa_r.Cil.{Avl, Cilar, merge_items, insert_item, cil_buffer_add, cil_merge, cil_merge_one}
use marpa_r.Cil.Items.{merge_items_lem, Insertion, there, added, insert_item_lem}
use marpa_r.Cil.Arena.{AvlLaws, IsArena, Keeps, Added, cil_buffer_add_lem}

module _ {T : Type 0} {env : Avl T} (laws : AvlLaws env) where
  -- Pointers to lists with the same items are equal.
  pub one_pointer :
      (c : Cilar T) (p q : ℕ)
      → IsArena laws c
      → p < length c.obs
      → q < length c.obs
      → get_or c.obs p [] ≡ get_or c.obs q []
      → p ≡ q
  one_pointer c p q w l m e =
      ground (arith, w.shared p l, w.shared q m, ap (λ x. env.find c.avl x) e)

  pub buffered :
      (c : Cilar T) (items : List ℕ)
      → IsArena laws c
      → Added laws c items (cil_buffer_add env (record c { buffer = items }))
  buffered c items w =
      let c' : Cilar T = record c { buffer = items } in
      let w' : IsArena laws c' = record { found = w.found; shared = w.shared } in
      let a = cil_buffer_add_lem laws c' w' in
      record {
        arena = a.arena;
        keeps = record { kept = a.keeps.kept };
        inside = a.inside;
        holds = a.holds;
      }

  -- What `cil_merge` returns: the arena stays well formed, its lists keep their pointers, and the
  -- pointer that is returned has the union of the two lists in ascending order.
  pub record Merged (c : Cilar T) (xs ys : List ℕ) (out : Cilar T × ℕ) : Type 0 where
    pub arena : IsArena laws (out.0)
    pub keeps : Keeps laws c (out.0)
    pub inside : out.1 < length (out.0).obs
    pub ascending : Ascending (get_or (out.0).obs (out.1) [])
    pub union : (z : ℕ) → has (get_or (out.0).obs (out.1) []) z ≡ (has xs z || has ys z)

  -- `cil_merge` of two ascending lists of an arena returns a pointer to their union, in ascending
  -- order, and keeps all lists; a pointer that the arena has for that set already is the one that
  -- is returned.
  pub cil_merge_lem :
      (c : Cilar T) (cil1 cil2 : ℕ)
      → IsArena laws c
      → Ascending (get_or c.obs cil1 [])
      → Ascending (get_or c.obs cil2 [])
      → Merged c (get_or c.obs cil1 []) (get_or c.obs cil2 []) (cil_merge env c cil1 cil2)
        × ((p : ℕ)
            → p < length c.obs
            → Ascending (get_or c.obs p [])
            → ((z : ℕ)
                → has (get_or c.obs p []) z
                  ≡ (has (get_or c.obs cil1 []) z || has (get_or c.obs cil2 []) z))
            → (cil_merge env c cil1 cil2).1 ≡ p)
  unfolding cil_merge
  cil_merge_lem c cil1 cil2 w a b =
      let xs = get_or c.obs cil1 [] in
      let ys = get_or c.obs cil2 [] in
      let (up, union) = merge_items_lem xs ys a b in
      let d = buffered c (merge_items xs ys) w in
      let out = cil_buffer_add env (record c { buffer = merge_items xs ys }) in
      (
        record {
          arena = d.arena;
          keeps = d.keeps;
          inside = d.inside;
          ascending = rw (d.holds) up;
          union = λ z. rw (d.holds) (union z);
        },
        λ p l o h.
            let (l', e) = d.keeps.kept p l in
            one_pointer (out.0) (out.1) p d.arena d.inside l' (
              d.holds
              ∙ Ascending-unique (merge_items xs ys) (get_or c.obs p []) up o
                  (λ z. union z ∙ sym (h z))
              ∙ sym e),
      )

  -- What `cil_merge_one` returns: NULL and the same arena for an element that is there, and
  -- otherwise a pointer to the list with the element in its place.
  pub data MergedOne (c : Cilar T) (xs : List ℕ) (new : ℕ) : Cilar T × Option ℕ → Type 0 where
    null : has xs new ≡ true → MergedOne c xs new (c, none)
    pointer :
        {c' : Cilar T} (p : ℕ)
        → has xs new ≡ false
        → IsArena laws c'
        → Keeps laws c c'
        → p < length c'.obs
        → Ascending (get_or c'.obs p [])
        → ((z : ℕ) → has (get_or c'.obs p []) z ≡ (new == z || has xs z))
        → MergedOne c xs new (c', some p)

  -- `cil_merge_one` on an ascending list of an arena returns NULL exactly for an element of the
  -- list; otherwise it returns a pointer to the list with that element added, in ascending order,
  -- and keeps all lists.
  pub cil_merge_one_lem :
      (c : Cilar T) (cil new_element : ℕ)
      → IsArena laws c
      → Ascending (get_or c.obs cil [])
      → MergedOne c (get_or c.obs cil []) new_element (cil_merge_one env c cil new_element)
  unfolding cil_merge_one
  cil_merge_one_lem c cil new_element w a =
      by_insertion (insert_item (get_or c.obs cil []) new_element)
        (insert_item_lem (get_or c.obs cil []) new_element a)
    where
      by_insertion :
          (o : Option (List ℕ))
          → Insertion (get_or c.obs cil []) new_element o
          → MergedOne c (get_or c.obs cil []) new_element (elim o [
            | none ↦ (c, none)
            | some items ↦
                let (c', found) = cil_buffer_add env (record c { buffer = items }) in
                (c', some found)
          ])
      by_insertion o (there h) = null h
      by_insertion o (added items gone up h) =
          let d = buffered c items w in
          pointer _ gone d.arena d.keeps d.inside (rw (d.holds) up) (λ z. rw (d.holds) (h z))
