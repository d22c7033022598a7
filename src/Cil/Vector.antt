-- ===== src/Cil/Vector.antt =====
-- The list of the set bits of a vector, in the arena.
use marpa_r.Prelude.{
  has, Ascending, ℕ, ◌<◌, ◌≡◌, refl, sym, ap, ◌∙◌, ◌&&◌, List, [], ◌∷◌, ◌++◌, length, get_or, ltb,
}
use marpa_r.BitVector.{BitVector, bv_bit_test}
use marpa_r.BitVector.Full.{IsFull}
use marpa_r.BitVector.Scan.{set_bits}
use marpa_r.BitVector.Scan.Count.{set_bits_lem}
use marpa_r.Cil.{Avl, Cilar, cil_buffer_clear, cil_buffer_push, push_items, cil_bv_add}
use marpa_r.Cil.Arena.{AvlLaws, IsArena, Keeps}
use marpa_r.Cil.Merge.{buffered}

append_assoc : (xs ys zs : List ℕ) → (xs ++ ys) ++ zs ≡ xs ++ (ys ++ zs)
append_assoc [] ys zs = refl
append_assoc (x ∷ xs) ys zs = ap (λ t. x ∷ t) (append_assoc xs ys zs)

append_nil : (xs : List ℕ) → xs ++ [] ≡ xs
append_nil [] = refl
append_nil (x ∷ xs) = ap (λ t. x ∷ t) (append_nil xs)

module _ {T : Type 0} {env : Avl T} (laws : AvlLaws env) where
  push_items_lem :
      (is : List ℕ) (c : Cilar T) → push_items is c ≡ record c { buffer = c.buffer ++ is }
  unfolding push_items cil_buffer_push
  push_items_lem [] c = ap (λ b. record c { buffer = b }) (sym (append_nil c.buffer))
  push_items_lem (i ∷ is) c =
      push_items_lem is (cil_buffer_push c i)
      ∙ ap (λ b. record c { buffer = b }) (append_assoc c.buffer (i ∷ []) is)

  -- What `cil_bv_add` returns: the arena stays well formed, its lists keep their pointers, and the
  -- pointer that is returned has the set bits of the vector in ascending order.
  pub record OfVector (c : Cilar T) (bv : BitVector) (out : Cilar T × ℕ) : Type 0 where
    pub arena : IsArena laws (out.0)
    pub keeps : Keeps laws c (out.0)
    pub inside : out.1 < length (out.0).obs
    pub ascending : Ascending (get_or (out.0).obs (out.1) [])
    pub members :
        (z : ℕ) → has (get_or (out.0).obs (out.1) []) z ≡ (ltb z bv.bits && bv_bit_test bv z)

  -- On an arena and a vector that its header fits, with words of 32 bits, `cil_bv_add` returns a
  -- pointer to the list of the set bits, in ascending order, and keeps all lists.
  pub cil_bv_add_lem :
      (c : Cilar T) (bv : BitVector)
      → IsArena laws c
      → IsFull bv
      → OfVector c bv (cil_bv_add env c bv)
  unfolding cil_bv_add cil_buffer_clear
  cil_bv_add_lem c bv w h =
      let (up, members) = set_bits_lem bv h in
      let d = buffered laws c (set_bits bv) w in
      rw (push_items_lem (set_bits bv) (record c { buffer = [] })) (record {
        arena = d.arena;
        keeps = d.keeps;
        inside = d.inside;
        ascending = rw (d.holds) up;
        members = λ z. rw (d.holds) (members z);
      })
