-- ===== src/Alternatives/Insert.antt =====
-- What inserting and popping do to the stack of alternatives.
use marpa_r.Prelude.{
  ℕ, zero, suc, ◌+◌, ◌-◌, ◌≤◌, ◌<◌, ◌≡◌, refl, ◌∙◌, subst, ◌&&◌, List, [], ◌∷◌, ◌++◌, length,
  get_or, modify, length-append, length-modify, get_or-modify_self, get_or-modify_ne, inl, inr, ℤ,
  pos, negsuc, pos_part, is_negative, ltb, leb, arith, if◌then◌else◌, Bool-cases,
}
use native.Mathlib.Decide.{ℕ_discrete}
use marpa_r.Alternatives.{
  Alternative, blank_alternative, alternative_insertion_point, move_up, alternative_insert,
}
use marpa_r.Alternatives.Search.{
  Before, Before-trans, SameKey, Sorted, Answer, present, place, alternative_insertion_point_lem,
}

length-move_up : (n ix : ℕ) (base : List Alternative) → length (move_up n ix base) ≡ length base
unfolding move_up
length-move_up zero ix base = refl
length-move_up (suc n) ix base =
    length-move_up n (ix - 1) (modify base ix (λ _. get_or base (ix - 1) blank_alternative))
    ∙ length-modify base ix _

-- The entries from place `k` on have moved up by one.
get_or-move_up :
    (n k j : ℕ) (base : List Alternative)
    → k + n < length base
    → get_or (move_up n (k + n) base) j blank_alternative ≡ (
        if ltb k j && leb j (k + n)
        then get_or base (j - 1) blank_alternative
        else get_or base j blank_alternative)
unfolding move_up
get_or-move_up zero k j base l = ground arith
get_or-move_up (suc n) k j base l =
    let e : k + suc n - 1 ≡ k + n = omega arith in
    let moved = modify base (k + suc n) (λ _. get_or base (k + n) blank_alternative) in
    let ih = get_or-move_up n k j moved (
      omega (arith, length-modify base (k + suc n) (λ _. get_or base (k + n) blank_alternative))) in
    rw (e, ih)
      (elim (ℕ_discrete (k + suc n) j) [
        | yes p ↦
            rw
              (
                ← p,
                get_or-modify_self base (k + suc n) (λ _. get_or base (k + n) blank_alternative)
                    blank_alternative l,
              )
              (ground arith)
        | no ne ↦
            rw
              (get_or-modify_ne base (k + suc n) j (λ _. get_or base (k + n) blank_alternative)
                blank_alternative ne)
              (elim (ℕ_discrete (k + suc n) (j - 1)) [
                | yes p ↦ ground (arith, p)
                | no ne' ↦ ground (
                  arith,
                  ne,
                  get_or-modify_ne base (k + suc n) (j - 1)
                      (λ _. get_or base (k + n) blank_alternative) blank_alternative ne',
                )
              ])
      ])

get_or-push :
    (es : List Alternative) (j : ℕ)
    → get_or (es ++ blank_alternative ∷ []) j blank_alternative ≡ get_or es j blank_alternative
get_or-push [] zero = refl
get_or-push [] (suc j) = refl
get_or-push (e ∷ es) zero = refl
get_or-push (e ∷ es) (suc j) = get_or-push es j

-- `new` stands at place `k` of `after`, with the entries of `es` around it in their order.
pub record Inserted (es : List Alternative) (new : Alternative) (k : ℕ) (after : List Alternative)
    : Type 0 where
  pub within : k ≤ length es
  pub longer : length after ≡ suc (length es)
  pub here : get_or after k blank_alternative ≡ new
  pub below : (i : ℕ) → i < k → get_or after i blank_alternative ≡ get_or es i blank_alternative
  pub above :
      (i : ℕ)
      → k ≤ i
      → i < length es
      → get_or after (suc i) blank_alternative ≡ get_or es i blank_alternative

insert-Inserted :
    (es : List Alternative) (new : Alternative) (k : ℕ)
    → k ≤ length es
    → Inserted es new k
        (modify (move_up (length es - k) (length es) (es ++ blank_alternative ∷ [])) k (λ _. new))
insert-Inserted es new k l =
    let pushed = es ++ blank_alternative ∷ [] in
    let n = length es - k in
    let moved = move_up n (length es) pushed in
    let e : k + n ≡ length es = omega arith in
    let size : length pushed ≡ suc (length es) =
      length-append es (blank_alternative ∷ []) ∙ omega arith in
    let msize : length moved ≡ suc (length es) = length-move_up n (length es) pushed ∙ size in
    let read : (j : ℕ)
        → get_or moved j blank_alternative ≡ (
            if ltb k j && leb j (length es)
            then get_or es (j - 1) blank_alternative
            else get_or es j blank_alternative) =
      λ j.
        subst
          (λ x. get_or (move_up n x pushed) j blank_alternative ≡ (
            if ltb k j && leb j x
            then get_or es (j - 1) blank_alternative
            else get_or es j blank_alternative))
          e
          (rw (← get_or-push es j, ← get_or-push es (j - 1))
            (get_or-move_up n k j pushed (omega (arith, size)))) in
    record {
      within = l;
      longer = length-modify moved k (λ _. new) ∙ msize;
      here = get_or-modify_self moved k (λ _. new) blank_alternative (omega (arith, msize));
      below = λ i h.
          get_or-modify_ne moved k i (λ _. new) blank_alternative (omega arith)
          ∙ read i
          ∙ ground (arith, h);
      above = λ i h m.
          get_or-modify_ne moved k (suc i) (λ _. new) blank_alternative (omega arith)
          ∙ read (suc i)
          ∙ ground (arith, h, m);
    }

module _ (es after : List Alternative) (new : Alternative) (k : ℕ) (s : Sorted es)
    (w : Inserted es new k after)
    (down : (i : ℕ) → i < k → Before (get_or es i blank_alternative) new)
    (up : (i : ℕ) → k ≤ i → i < length es → Before new (get_or es i blank_alternative)) where
  -- An entry above place `k` of the new stack.
  above_at :
      (j : ℕ)
      → k < j
      → j < length after
      → get_or after j blank_alternative ≡ get_or es (j - 1) blank_alternative
  above_at j h l =
      let e : suc (j - 1) ≡ j = omega arith in
      subst (λ x. get_or after x blank_alternative ≡ get_or es (j - 1) blank_alternative) e
        (w.above (j - 1) (omega arith) (omega (arith, w.longer)))

  insert-Sorted : Sorted after
  insert-Sorted = record {
    ordered = λ i j h l. elim (Bool-cases (ltb j k)) [
      | inl low ↦
          let jk : j < k = ground (arith, low) in
          rw (w.below i (omega arith), w.below j jk) (s.ordered i j h (omega (arith, w.within)))
      | inr high ↦
          let kj : k ≤ j = ground (arith, high) in
          elim (ℕ_discrete k j) [
            | yes p ↦ rw (← p, w.here, w.below i (omega (arith, p))) (down i (omega (arith, p)))
            | no ne ↦ rw (above_at j (omega (arith, ne)) l) (elim (Bool-cases (ltb i k)) [
              | inl low ↦
                  let ik : i < k = ground (arith, low) in
                  rw (w.below i ik) (
                    Before-trans _ new _ (down i ik)
                      (up (j - 1) (omega (arith, ne)) (omega (arith, w.longer))))
              | inr no_low ↦ elim (ℕ_discrete k i) [
                | yes q ↦
                    rw (← q, w.here) (up (j - 1) (omega (arith, ne)) (omega (arith, w.longer)))
                | no nq ↦
                    let ki : k < i = ground (arith, no_low, nq) in
                    rw (above_at i ki (omega arith))
                      (s.ordered (i - 1) (j - 1) (omega arith) (omega (arith, w.longer)))
              ]
            ])
          ]
    ];
  }

-- The outcome of an insertion: refused with -1 and no change, as an entry has the key already, or
-- made at place `k`, with the stack still sorted.
pub data Insertion (es : List Alternative) (new : Alternative) : List Alternative × ℤ → Type 0 where
  refused :
      (i : ℕ)
      → i < length es
      → SameKey new (get_or es i blank_alternative)
      → Insertion es new (es, negsuc 0)
  made :
      {after : List Alternative} (k : ℕ)
      → Inserted es new k after
      → Sorted after
      → Insertion es new (after, pos k)

-- On a sorted stack, an alternative whose key is there already is refused with -1 and the stack
-- stays as it was; any other is put at the returned place, the entries around it in their order,
-- and the stack is sorted again.
pub alternative_insert_lem :
    (es : List Alternative) (new : Alternative)
    → Sorted es
    → Insertion es new (alternative_insert es new)
unfolding alternative_insert
alternative_insert_lem es new s =
    by_answer (alternative_insertion_point es new) (alternative_insertion_point_lem es new s)
  where
    moved_to : ℕ → List Alternative
    moved_to k =
        modify (move_up (length es - k) (length es) (es ++ blank_alternative ∷ [])) k (λ _. new)

    by_answer :
        (r : ℤ)
        → Answer es new r
        → Insertion es new (if is_negative r then (es, r) else (moved_to (pos_part r), r))
    by_answer r (present i l k) = refused i l k
    by_answer r (place k l down up) =
        let w = insert-Inserted es new k l in
        made k w (insert-Sorted es (moved_to k) new k s w down up)
