-- ===== src/Closure/Loop.antt =====
-- The worklist of `rhs_closure`, with its invariant.
use marpa_r.Prelude.{
  ℕ, zero, suc, ◌+◌, ◌≤◌, ◌<◌, ◌≡◌, refl, ap, ◌∙◌, sym, Bool, true, false, ◌||◌, ◌⊎◌, inl, inr,
  List, [], ◌∷◌, Option, none, some, All, length, has, All-has, ltb, ◌==◌, arith, Bool-cases,
}
use marpa_r.BitVector.{BitVector, bv_bit_test, bv_bit_set}
use marpa_r.BitVector.Laws.{bv_bit_test-set}
use marpa_r.BitVector.Full.{IsFull, bv_bit_set-IsFull, bits-set}
use marpa_r.BitVector.Scan.{bv_scan, set_bits}
use marpa_r.BitVector.Scan.Runs.{bv_scan_lem}
use marpa_r.BitVector.Scan.Count.{ones, ones-le, ones_set, ones_same, set_bits_lem, length-set_bits}
use marpa_r.Grammar.{Xrl}
use marpa_r.Closure.{
  RuleLists, rules_of, all_set, lacks_separator, Work, closure_rule, closure_rule_list,
  closure_loop, push_all, rhs_closure,
}
use marpa_r.Closure.Derived.{Derived, given, by_rule, needs, rule_at}
use marpa_r.Closure.Rules.{all_set_lem, needs_lem, needs-mentions, IsNamed, Closes, closes, IsIndex}

module _ (n : ℕ) (xrls : List Xrl) (lists : RuleLists) where
  module _ (index : IsIndex n xrls lists) (named : IsNamed n xrls) (base : ℕ → Bool) where
    met : BitVector → ℕ → Bool
    met bv r = all_set bv (needs (rule_at xrls r))

    -- Part way: `k` symbols were popped, and the rules of `pending` are still to be looked at for
    -- the last of them.
    record Inv (w : Work) (pending : List ℕ) (k : ℕ) : Type 0 where
      full : IsFull w.bv
      size : w.bv.bits ≡ n
      sound : (i : ℕ) → i < n → bv_bit_test w.bv i ≡ true → Derived xrls base i
      started : (i : ℕ) → i < n → base i ≡ true → bv_bit_test w.bv i ≡ true
      stacked : All (λ i. i < n) w.stack
      room : length w.stack + k ≤ ones w.bv 0 n
      waits :
          (r : ℕ)
          → r < length xrls
          → met w.bv r ≡ true
          → bv_bit_test w.bv (rule_at xrls r).lhs ≡ false
          → ((s : ℕ) × (has w.stack s ≡ true) × (has (needs (rule_at xrls r)) s ≡ true))
            ⊎ (has pending r ≡ true)

    data Stepped (pending : List ℕ) (k : ℕ) : Option Work → Type 0 where
      stepped : (w : Work) → Inv w pending k → Stepped pending k (some w)

    -- A rule that is passed over is not waiting.
    passed :
        (w : Work) (r : ℕ) (pending : List ℕ) (k : ℕ)
        → Inv w (r ∷ pending) k
        → (met w.bv r ≡ false) ⊎ (bv_bit_test w.bv (rule_at xrls r).lhs ≡ true)
        → Inv w pending k
    passed w r pending k v off = record {
      full = v.full;
      size = v.size;
      sound = v.sound;
      started = v.started;
      stacked = v.stacked;
      room = v.room;
      waits = λ q l m u. elim (v.waits q l m u) [
        | inl s ↦ inl s
        | inr p ↦ elim (Bool-cases (r == q)) [
          | inl e ↦
              let e' : r ≡ q = ground (arith, e) in
              let m' : met w.bv r ≡ true = ap (met w.bv) e' ∙ m in
              let u' : bv_bit_test w.bv (rule_at xrls r).lhs ≡ false =
                ap (λ x. bv_bit_test w.bv (rule_at xrls x).lhs) e' ∙ u in
              absurd (ground (arith, off, m', u'))
          | inr e ↦ inr (ground (arith, p, e))
        ]
      ];
    }

    -- A rule that is met adds its left side.
    added :
        (w : Work) (r : ℕ) (pending : List ℕ) (k : ℕ)
        → Inv w (r ∷ pending) k
        → r < length xrls
        → met w.bv r ≡ true
        → bv_bit_test w.bv (rule_at xrls r).lhs ≡ false
        → (length w.stack < n)
          × Inv
              (record {
                bv = bv_bit_set w.bv (rule_at xrls r).lhs;
                stack = (rule_at xrls r).lhs ∷ w.stack;
              })
              pending
              k
    unfolding met
    added w r pending k v l m u =
        let i = (rule_at xrls r).lhs in
        let bv' = bv_bit_set w.bv i in
        let below : i < n = named.lhs r l in
        let test : (j : ℕ) → bv_bit_test bv' j ≡ (i == j || bv_bit_test w.bv j) =
          λ j. bv_bit_test-set w.bv i j v.full.vector (omega (arith, v.size, below)) in
        let more : ones bv' 0 n ≡ suc (ones w.bv 0 n) =
          ones_set w.bv bv' i 0 n (omega arith) (omega (arith, below)) u test in
        (
          omega (arith, v.room, more, ones-le bv' 0 n),
          record {
            full = bv_bit_set-IsFull w.bv i v.full;
            size = bits-set w.bv i ∙ v.size;
            sound = λ j h t. elim (Bool-cases (i == j)) [
              | inl e ↦ by_rule r l (ground (arith, e)) (λ s need.
                  v.sound s (named.rhs r s l (needs-mentions (rule_at xrls r) s need))
                    ((all_set_lem w.bv (needs (rule_at xrls r))).0 m s need))
              | inr e ↦ v.sound j h (ground (arith, e, t, test j))
            ];
            started = λ j h b. ground (arith, test j, v.started j h b);
            stacked = (below, v.stacked);
            room = omega (arith, v.room, more);
            waits = λ q h m' u'. elim (Bool-cases (has (needs (rule_at xrls q)) i)) [
              | inl here ↦ inl (i, ground arith, here)
              | inr away ↦
                  let old : met w.bv q ≡ true =
                    (all_set_lem w.bv (needs (rule_at xrls q))).1 (λ s need.
                      let differs : i == s ≡ false = elim (Bool-cases (i == s)) [
                        | inl e ↦
                            let e' : i ≡ s = ground (arith, e) in
                            absurd
                              (ground (arith, away, ap (has (needs (rule_at xrls q))) e', need))
                        | inr e ↦ e
                      ] in
                      ground (
                        arith,
                        test s,
                        differs,
                        (all_set_lem bv' (needs (rule_at xrls q))).0 m' s need,
                      )) in
                  let free : bv_bit_test w.bv (rule_at xrls q).lhs ≡ false =
                    ground (arith, test (rule_at xrls q).lhs, u') in
                  let apart : r == q ≡ false = elim (Bool-cases (r == q)) [
                    | inl e ↦
                        let e' : r ≡ q = ground (arith, e) in
                        absurd (
                          ground (
                            arith,
                            u',
                            test (rule_at xrls q).lhs,
                            ap (λ x. (rule_at xrls x).lhs) e',
                          ))
                    | inr e ↦ e
                  ] in
                  elim (v.waits q h old free) [
                    | inl (s, a, b) ↦ inl (s, ground (arith, a), b)
                    | inr p ↦ inr (ground (arith, p, apart))
                  ]
            ];
          },
        )

    closure_rule_lem :
        (w : Work) (r : ℕ) (pending : List ℕ) (k : ℕ)
        → Inv w (r ∷ pending) k
        → r < length xrls
        → Stepped pending k (closure_rule n xrls r w)
    unfolding closure_rule met
    closure_rule_lem w r pending k v l =
        let rule = rule_at xrls r in
        let e = needs_lem w.bv rule in
        elim (Bool-cases (bv_bit_test w.bv rule.lhs)) [
          | inl set ↦ rw set (stepped w (passed w r pending k v (inr set)))
          | inr clear ↦ elim (Bool-cases (all_set w.bv rule.rhs)) [
            | inr short ↦
                rw (clear, short)
                  (stepped w (passed w r pending k v (inl (ground (arith, e, short)))))
            | inl rhs ↦ elim (Bool-cases (lacks_separator w.bv rule)) [
              | inl lacks ↦
                  rw (clear, rhs, lacks)
                    (stepped w (passed w r pending k v (inl (ground (arith, e, lacks)))))
              | inr whole ↦
                  let (fits, next) =
                    added w r pending k v l (ground (arith, e, rhs, whole)) clear in
                  let fits' : ltb (length w.stack) n ≡ true = ground (arith, fits) in
                  rw (clear, rhs, whole, fits') (stepped _ next)
            ]
          ]
        ]

    closure_rule_list_lem :
        (ids : List ℕ) (w : Work) (k : ℕ)
        → Inv w ids k
        → All (λ r. r < length xrls) ids
        → Stepped [] k (closure_rule_list n xrls ids w)
    unfolding closure_rule_list
    closure_rule_list_lem [] w k v a = stepped w v
    closure_rule_list_lem (r ∷ ids) w k v a =
        after (closure_rule n xrls r w) (closure_rule_lem w r ids k v a.0)
          (λ w' v'. closure_rule_list_lem ids w' k v' a.1)
      where
        after :
            (o : Option Work)
            → Stepped ids k o
            → ((w' : Work) → Inv w' ids k → Stepped [] k (closure_rule_list n xrls ids w'))
            → Stepped [] k (elim o [ none ↦ none | some w' ↦ closure_rule_list n xrls ids w' ])
        after o (stepped w' v') rec = rec w' v'

    -- With nothing waiting, what follows is in the set.
    all-Derived :
        (bv : BitVector) (k : ℕ)
        → Inv (record { bv = bv; stack = [] }) [] k
        → {i : ℕ} → Derived xrls base i
        → i < n
        → bv_bit_test bv i ≡ true
    unfolding met
    all-Derived bv k v (given b) l = v.started _ l b
    all-Derived bv k v (by_rule r h p deps) l =
        let m : met bv r ≡ true = (all_set_lem bv (needs (rule_at xrls r))).1 (λ s need.
          all-Derived bv k v (deps s need)
            (named.rhs r s h (needs-mentions (rule_at xrls r) s need))) in
        rw (← p) (elim (Bool-cases (bv_bit_test bv (rule_at xrls r).lhs)) [
          | inl t ↦ t
          | inr u ↦ elim (v.waits r h m u) [
            | inl (s, a, b) ↦ absurd (ground (arith, a))
            | inr a ↦ absurd (ground (arith, a))
          ]
        ])

    popped :
        (bv : BitVector) (i : ℕ) (stack : List ℕ) (k : ℕ)
        → Inv (record { bv = bv; stack = i ∷ stack }) [] k
        → Inv (record { bv = bv; stack = stack }) (rules_of lists i) (k + 1)
    unfolding met
    popped bv i stack k v = record {
      full = v.full;
      size = v.size;
      sound = v.sound;
      started = v.started;
      stacked = v.stacked.1;
      room = omega (arith, v.room);
      waits = λ r l m u. elim (v.waits r l m u) [
        | inl (s, a, b) ↦ elim (Bool-cases (i == s)) [
          | inl e ↦
              let e' : s ≡ i = ground (arith, e) in
              inr (
                index.complete i r (v.stacked.0) l (
                  needs-mentions (rule_at xrls r) i
                    (ap (has (needs (rule_at xrls r))) (sym e') ∙ b)))
          | inr e ↦ inl (s, ground (arith, a, e), b)
        ]
        | inr a ↦ absurd (ground (arith, a))
      ];
    }

    closure_loop_lem :
        (f : ℕ) (bv : BitVector) (stack : List ℕ) (k : ℕ)
        → Inv (record { bv = bv; stack = stack }) [] k
        → n ≤ f + k
        → Closes n xrls base (closure_loop f n xrls lists bv stack)
    unfolding closure_loop
    closure_loop_lem f bv [] k v g = closes bv (record {
      full = v.full;
      size = v.size;
      members = λ i l. (v.sound i l, λ d. all-Derived bv k v d l);
    })
    closure_loop_lem zero bv (i ∷ stack) k v g = absurd (omega (arith, v.room, ones-le bv 0 n))
    closure_loop_lem (suc f) bv (i ∷ stack) k v g =
        after (closure_rule_list n xrls (rules_of lists i) (record { bv = bv; stack = stack }))
          (closure_rule_list_lem (rules_of lists i) (record { bv = bv; stack = stack }) (k + 1)
            (popped bv i stack k v) (index.known i (v.stacked.0)))
          (λ w v'.
            closure_loop_lem f w.bv w.stack (k + 1)
              (record {
                full = v'.full;
                size = v'.size;
                sound = v'.sound;
                started = v'.started;
                stacked = v'.stacked;
                room = v'.room;
                waits = v'.waits;
              })
              (omega arith))
      where
        after :
            (o : Option Work)
            → Stepped [] (k + 1) o
            → ((w : Work)
                → Inv w [] (k + 1)
                → Closes n xrls base (closure_loop f n xrls lists w.bv w.stack))
            → Closes n xrls base
                (elim o [ none ↦ none | some w ↦ closure_loop f n xrls lists w.bv w.stack ])
        after o (stepped w v') rec = rec w v'

push_all_lem :
    (n : ℕ) (is stack : List ℕ)
    → length is + length stack ≤ n
    → (out : List ℕ) × (push_all n is stack ≡ some out)
      × ((z : ℕ) → has out z ≡ (has is z || has stack z))
      × (length out ≡ length is + length stack)
unfolding push_all
push_all_lem n [] stack l = (stack, refl, λ z. refl, omega arith)
push_all_lem n (i ∷ is) stack l =
    let (out, e, h, m) = push_all_lem n is (i ∷ stack) (omega arith) in
    let fits : ltb (length stack) n ≡ true = ground (arith, l) in
    (out, rw fits e, λ z. ground (arith, h z), omega (arith, m))

first_item : (xs : List ℕ) → (xs ≡ []) ⊎ ((s : ℕ) × (has xs s ≡ true))
first_item [] = inl refl
first_item (x ∷ xs) = inr (x, ground arith)

-- On an index of the rules, from a set that has the left side of every rule that needs nothing,
-- `rhs_closure` ends, never pushes past the end of its stack, and returns the set of the symbols
-- that follow from it.
pub rhs_closure_lem :
    (n : ℕ) (xrls : List Xrl) (lists : RuleLists) (bv : BitVector)
    → IsIndex n xrls lists
    → IsNamed n xrls
    → IsFull bv
    → bv.bits ≡ n
    → ((r : ℕ)
        → r < length xrls
        → needs (rule_at xrls r) ≡ []
        → bv_bit_test bv (rule_at xrls r).lhs ≡ true)
    → Closes n xrls (bv_bit_test bv) (rhs_closure n xrls lists bv)
unfolding rhs_closure met
rhs_closure_lem n xrls lists bv index named full size empty =
    let (up, members) = set_bits_lem bv full in
    let (out, e, h, m) =
      push_all_lem n (set_bits bv) []
        (omega (arith, length-set_bits bv full, ones-le bv 0 n, ap (ones bv 0) size)) in
    let (sb, _) = bv_scan_lem bv 0 full in
    let w : Work = record { bv = (bv_scan bv 0).0; stack = out } in
    rw (e, rhs_closure)
      (closure_loop_lem n xrls lists index named (bv_bit_test bv) n w.bv out 0
        (record {
          full = sb.full;
          size = sb.bits ∙ size;
          sound = λ i l t. given (sym (sb.same i (omega (arith, size))) ∙ t);
          started = λ i l b. sb.same i (omega (arith, size)) ∙ b;
          stacked = All-has (λ i. i < n) out (λ z a. ground (arith, a, h z, members z, size));
          room = omega (
            arith,
            m,
            length-set_bits bv full,
            ap (ones bv 0) size,
            ones_same bv w.bv 0 n (λ j s l. sb.same j (omega (arith, size))),
          );
          waits = λ r l a b. elim (first_item (needs (rule_at xrls r))) [
            | inl none_needed ↦ absurd (
                ground (
                  arith,
                  b,
                  empty r l none_needed,
                  sb.same (rule_at xrls r).lhs (omega (arith, size, named.lhs r l)),
                ))
            | inr (s, need) ↦
                let below : s < n = named.rhs r s l (needs-mentions (rule_at xrls r) s need) in
                let set = (all_set_lem w.bv (needs (rule_at xrls r))).0 a s need in
                inl (
                  s,
                  ground (
                    arith,
                    h s,
                    members s,
                    set,
                    below,
                    size,
                    sb.same s (omega (arith, size, below)),
                  ),
                  need,
                )
          ];
        })
        (omega arith))
