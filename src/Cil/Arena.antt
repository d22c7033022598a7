-- ===== src/Cil/Arena.antt =====
-- The arena keeps one list for each sequence of items, so that pointers can be compared instead.
use marpa_r.Prelude.{
  ℕ, zero, suc, ◌<◌, ◌≡◌, refl, ap, ◌∙◌, false, ◌==◌, List, [], ◌∷◌, ◌++◌, none, some, length,
  get_or, length-append, inl, inr, pos, eqb_ℤ, arith, if◌then◌else◌, Bool-cases, Option-cases,
}
use marpa_r.Cil.{Avl, Cilar, cil_cmp, cilar_init, cil_buffer_add}
use marpa_r.Cil.Items.{cil_cmp_lem}

-- What libavl documents of its trees, for keys under `cil_cmp`.
pub record AvlLaws {T : Type 0} (env : Avl T) : Type 0 where
  pub find_create : (k : List ℕ) → env.find env.create k ≡ none
  pub find_insert :
      (t : T) (k k' : List ℕ) (p : ℕ)
      → env.find t k ≡ none
      → env.find (env.insert t k p) k'
        ≡ (if eqb_ℤ (cil_cmp k k') (pos 0) then some p else env.find t k')

module _ {T : Type 0} {env : Avl T} (laws : AvlLaws env) where
  -- The tree finds each list of the arena, under the one pointer that it has.
  pub record IsArena (c : Cilar T) : Type 0 where
    pub found :
        (k : List ℕ) (p : ℕ)
        → env.find c.avl k ≡ some p
        → (p < length c.obs) × (get_or c.obs p [] ≡ k)
    pub shared : (p : ℕ) → p < length c.obs → env.find c.avl (get_or c.obs p []) ≡ some p

  -- The lists of `c` are those of `d` too, under their pointers.
  pub record Keeps (c d : Cilar T) : Type 0 where
    pub kept :
        (p : ℕ) → p < length c.obs → (p < length d.obs) × (get_or d.obs p [] ≡ get_or c.obs p [])

  pub cilar_init-IsArena : IsArena (cilar_init env)
  unfolding cilar_init
  cilar_init-IsArena = record {
    found = λ k p e. absurd (ground (arith, e, laws.find_create k));
    shared = λ p l. elim l [ ];
  }

  get_or-append :
      (xs ys : List (List ℕ)) (i : ℕ) → i < length xs → get_or (xs ++ ys) i [] ≡ get_or xs i []
  get_or-append [] ys i l = elim l [ ]
  get_or-append (x ∷ xs) ys zero l = refl
  get_or-append (x ∷ xs) ys (suc i) l = get_or-append xs ys i (omega arith)

  get_or-append_end : (xs : List (List ℕ)) (y : List ℕ) → get_or (xs ++ y ∷ []) (length xs) [] ≡ y
  get_or-append_end [] y = refl
  get_or-append_end (x ∷ xs) y = get_or-append_end xs y

  -- The pointer that is returned has the items of the buffer.
  pub record Added (c : Cilar T) (items : List ℕ) (out : Cilar T × ℕ) : Type 0 where
    pub arena : IsArena (out.0)
    pub keeps : Keeps c (out.0)
    pub inside : out.1 < length (out.0).obs
    pub holds : get_or (out.0).obs (out.1) [] ≡ items

  grown-IsArena :
      (c : Cilar T)
      → IsArena c
      → env.find c.avl c.buffer ≡ none
      → IsArena (record c {
        obs = c.obs ++ c.buffer ∷ [];
        avl = env.insert c.avl c.buffer (length c.obs);
      })
  grown-IsArena c w e =
      let size = length-append c.obs (c.buffer ∷ []) in
      record {
        found = λ k p f. elim (Bool-cases (eqb_ℤ (cil_cmp c.buffer k) (pos 0))) [
          | inl same ↦
              let b : c.buffer ≡ k = (cil_cmp_lem c.buffer k).0 same in
              let q : p ≡ length c.obs =
                ground (arith, laws.find_insert c.avl c.buffer k (length c.obs) e, same, f) in
              rw (q, ← b) (omega (arith, size), get_or-append_end c.obs c.buffer)
          | inr other ↦
              let old : env.find c.avl k ≡ some p =
                ground (arith, laws.find_insert c.avl c.buffer k (length c.obs) e, other, f) in
              let (l, h) = w.found k p old in
              (omega (arith, size, l), get_or-append c.obs (c.buffer ∷ []) p l ∙ h)
        ];
        shared = λ p l. elim (Bool-cases (p == length c.obs)) [
          | inl last ↦
              let q : p ≡ length c.obs = ground (arith, last) in
              rw (q, get_or-append_end c.obs c.buffer)
                (laws.find_insert c.avl c.buffer c.buffer (length c.obs) e
                  ∙ rw ((cil_cmp_lem c.buffer c.buffer).1 refl))
          | inr inner ↦
              let l' : p < length c.obs = ground (arith, inner, l, size) in
              let k = get_or c.obs p [] in
              let h = w.shared p l' in
              let differs : eqb_ℤ (cil_cmp c.buffer k) (pos 0) ≡ false =
                elim (Bool-cases (eqb_ℤ (cil_cmp c.buffer k) (pos 0))) [
                  | inl same ↦ absurd (
                      ground
                        (arith, e, h, ap (λ x. env.find c.avl x) ((cil_cmp_lem c.buffer k).0 same)))
                  | inr not_same ↦ not_same
                ] in
              rw (get_or-append c.obs (c.buffer ∷ []) p l')
                (laws.find_insert c.avl c.buffer k (length c.obs) e ∙ rw differs h)
        ];
      }

  pub cil_buffer_add_lem : (c : Cilar T) → IsArena c → Added c c.buffer (cil_buffer_add env c)
  unfolding cil_buffer_add
  cil_buffer_add_lem c w = elim (Option-cases (env.find c.avl c.buffer)) [
    | inl e ↦
        let size = length-append c.obs (c.buffer ∷ []) in
        rw (e, cil_buffer_add)
          (record {
            arena = grown-IsArena c w e;
            keeps = record {
              kept = λ p l. (omega (arith, size), get_or-append c.obs (c.buffer ∷ []) p l);
            };
            inside = omega (arith, size);
            holds = get_or-append_end c.obs c.buffer;
          })
    | inr (p, e) ↦
        rw (e, cil_buffer_add)
          (record {
            arena = w;
            keeps = record { kept = λ p l. (l, refl) };
            inside = (w.found c.buffer p e).0;
            holds = (w.found c.buffer p e).1;
          })
  ]
