-- ===== src/Rewrite/Shapes/Two.antt =====
-- The rules of the pieces with two factors, as turns.
use marpa_r.Prelude.{
  ℕ, suc, ◌+◌, ◌-◌, ◌≡◌, refl, ap, ◌∙◌, sym, List, [], ◌∷◌, ◌++◌, map, length, length-append, ltb,
  arith,
}
use marpa_r.Grammar.Tables.{length-map}
use mathlib.Core.List.{append_assoc}
use marpa_r.Rewrite.Slices.{words_assoc, Rest, part-Rest, length-Rest}
use marpa_r.Rewrite.Chaf.{Chaf, part, nullable_tail_piece, inner_piece, last_two_piece}
use marpa_r.Rewrite.Expansion.{Shape}
use marpa_r.Rewrite.Turns.{tail_turns, inner_turns, last_two_turns}
use marpa_r.Rewrite.Shapes.{
  ends-Shows, goes-Shows, Shape-optional, length-word, names-word, at_first, past_first,
  part_before, first_entry, part_to, part_end,
}

module _ (c : Chaf) where
  -- A piece before a virtual symbol: a part with the factor `x`, then the factor `y`.
  module _ (l p first second : ℕ) (a : List ℕ) (x : ℕ) (b : List ℕ) (y : ℕ) (r : List ℕ)
      (t : Rest c.rule.rhs p (a ++ x ∷ (b ++ y ∷ r))) (e : first ≡ p + length a)
      (e' : second ≡ suc first + length b) where
    abbrev behind : Rest c.rule.rhs (first + 1) (b ++ y ∷ r)
    behind = past_first c p first a x (b ++ y ∷ r) t e

    second_at : second ≡ first + 1 + length b
    second_at = omega (arith, e')

    abbrev n : ℕ → ℕ
    n = c.names.nsyid

    abbrev n0 : ℕ → ℕ
    n0 = c.names.nulling_nsyid

    part_up : part c p second ≡ a ++ x ∷ b
    part_up =
        part-Rest c.rule.rhs p second (a ++ x ∷ b) (y ∷ r) (rw (append_assoc a (x ∷ b) (y ∷ r)) t)
          (omega (arith, e, e', length-append a (x ∷ b)))

    part_from_second : part c second (length c.rule.rhs) ≡ y ∷ r
    part_from_second =
        part_end c second (y ∷ r) (at_first c (first + 1) second b y r behind second_at)

    part_none : part c (second + 1) (second + 1) ≡ []
    part_none =
        part-Rest c.rule.rhs (second + 1) (second + 1) [] r
          (past_first c (first + 1) second b y r behind second_at) (omega arith)

    to_second : second - 1 + 1 ≡ second
    to_second = omega (arith, e')

    pub tail-Shape :
        (v : ℕ)
        → Shape c.rule_id l
            (nullable_tail_piece c l p v first second)
            (tail_turns c.names a x b (y ∷ r) v (ltb p c.nullable_suffix_ix))
    unfolding nullable_tail_piece
    tail-Shape v =
        let end = length c.rule.rhs in
        let m = length-Rest c.rule.rhs p (a ++ x ∷ (b ++ y ∷ r)) t in
        let lb = length-map n b in
        let lw : length (a ++ x ∷ (b ++ y ∷ r)) ≡ suc (length a + (length b + suc (length r))) =
          omega (arith, length-append a (x ∷ (b ++ y ∷ r)), length-append b (y ∷ r)) in
        let ln : (z : ℕ) → length (map n a ++ z ∷ (map n b ++ map n0 (y ∷ r))) ≡ end - p = λ z.
          omega (
            arith,
            m,
            lw,
            lb,
            length-word c a z (map n b ++ map n0 (y ∷ r)),
            length-append (map n b) (map n0 (y ∷ r)),
            length-map n0 r,
          ) in
        let lg : (z : ℕ) → length (map n a ++ z ∷ map n b) ≡ second - 1 + 1 - p =
          λ z. omega (arith, e, e', lb, length-word c a z (map n b)) in
        (
          goes-Shows c l p _ 3 _ _ v
              (rw (to_second, part_up) (ap (λ w. w ++ v ∷ []) (names-word c a x b))) (lg (n x)),
          (
            ends-Shows c l p _ 2 _ _
                (rw (part_up, part_from_second)
                  (ap (λ w. w ++ map n0 (y ∷ r)) (names-word c a x b)
                    ∙ append_assoc (map n a) (n x ∷ map n b) (map n0 (y ∷ r))))
                (ln (n x)),
            (
              goes-Shows c l p _ 1 _ _ v
                  (rw
                    (
                      to_second,
                      part_before c p first a x (b ++ y ∷ r) t e,
                      first_entry c p first a x (b ++ y ∷ r) t e,
                      part_before c (first + 1) second b y r behind second_at,
                    )
                    (sym (append_assoc (map n a) (n0 x ∷ map n b) (v ∷ []))))
                  (lg (n0 x)),
              Shape-optional c l (ltb p c.nullable_suffix_ix) _ _ (
                  ends-Shows c l p _ 0 _ _
                    (rw
                      (
                        part_before c p first a x (b ++ y ∷ r) t e,
                        first_entry c p first a x (b ++ y ∷ r) t e,
                        part_before c (first + 1) second b y r behind second_at,
                        part_from_second,
                      )
                      refl)
                    (ln (n0 x))),
            ),
          ),
        )

    length_two :
        (z z' : ℕ) (w : List ℕ)
        → length (map n a ++ z ∷ (map n b ++ z' ∷ w)) ≡ suc (length a + suc (length b + length w))
    length_two z z' w = omega (arith, length-word c a z (map n b ++ z' ∷ w), length-word c b z' w)

    up_to : (z : ℕ) (w : List ℕ) → map n (a ++ x ∷ b) ++ z ∷ w ≡ map n a ++ n x ∷ (map n b ++ z ∷ w)
    up_to z w =
        ap (λ u. u ++ z ∷ w) (names-word c a x b) ∙ append_assoc (map n a) (n x ∷ map n b) (z ∷ w)

    pub inner-Shape :
        (v : ℕ)
        → Shape c.rule_id l (inner_piece c l p v first second) (inner_turns c.names a x b y v)
    unfolding inner_piece
    inner-Shape v =
        let ls : (z z' : ℕ) → length (map n a ++ z ∷ (map n b ++ z' ∷ [])) ≡ second + 1 - p =
          λ z z'. omega (arith, e, e', length_two z z' []) in
        let fold : (z z' : ℕ)
            → map n a ++ z ∷ (map n b ++ z' ∷ (v ∷ []))
              ≡ (map n a ++ z ∷ (map n b ++ z' ∷ [])) ++ v ∷ [] =
          λ z z'. sym (words_assoc (map n a) z (map n b) z' [] (v ∷ [])) in
        let to_first = part_before c p first a x (b ++ y ∷ r) t e in
        let at_x = first_entry c p first a x (b ++ y ∷ r) t e in
        let between = part_before c (first + 1) second b y r behind second_at in
        let through = part_to c (first + 1) second b y r behind second_at in
        let at_y = first_entry c (first + 1) second b y r behind second_at in
        let all : part c p (second + 1) ≡ a ++ x ∷ (b ++ y ∷ []) =
          part-Rest c.rule.rhs p (second + 1) (a ++ x ∷ (b ++ y ∷ [])) r
            (rw (words_assoc a x b y [] r) t)
            (omega (arith, e, e', length-append a (x ∷ (b ++ y ∷ [])), length-append b (y ∷ []))) in
        (
          goes-Shows c l p _ 3 _ _ v
              (rw all (
                ap (λ w. w ++ v ∷ [])
                  (names-word c a x (b ++ y ∷ [])
                    ∙ ap (λ w. map n a ++ n x ∷ w) (names-word c b y []))))
              (ls (n x) (n y)),
          (
            goes-Shows c l p _ 2 _ _ v
                (rw (part_up, at_y, part_none) (up_to (n0 y) (v ∷ []) ∙ fold (n x) (n0 y)))
                (ls (n x) (n0 y)),
            (
              goes-Shows c l p _ 1 _ _ v
                  (rw (to_first, at_x, through)
                    (ap (λ w. map n a ++ n0 x ∷ (w ++ v ∷ [])) (names-word c b y [])
                      ∙ ap (λ w. map n a ++ n0 x ∷ w) (append_assoc (map n b) (n y ∷ []) (v ∷ []))
                      ∙ fold (n0 x) (n y)))
                  (ls (n0 x) (n y)),
              (
                goes-Shows c l p _ 0 _ _ v
                    (rw (to_first, at_x, between, at_y, part_none) (fold (n0 x) (n0 y)))
                    (ls (n0 x) (n0 y)),
                tt,
              ),
            ),
          ),
        )

    pub last_two-Shape :
        Shape c.rule_id l
          (last_two_piece c l p first second)
          (last_two_turns c.names a x b y r (ltb p c.nullable_suffix_ix))
    unfolding last_two_piece
    last_two-Shape =
        let end = length c.rule.rhs in
        let lw : length (a ++ x ∷ (b ++ y ∷ r)) ≡ suc (length a + (length b + suc (length r))) =
          omega (arith, length-append a (x ∷ (b ++ y ∷ r)), length-append b (y ∷ r)) in
        let ls : (z z' : ℕ) → length (map n a ++ z ∷ (map n b ++ z' ∷ map n r)) ≡ end - p = λ z z'.
          omega (
            arith,
            length-Rest c.rule.rhs p (a ++ x ∷ (b ++ y ∷ r)) t,
            lw,
            length-map n r,
            length_two z z' (map n r),
          ) in
        let to_first = part_before c p first a x (b ++ y ∷ r) t e in
        let at_x = first_entry c p first a x (b ++ y ∷ r) t e in
        let between = part_before c (first + 1) second b y r behind second_at in
        let at_y = first_entry c (first + 1) second b y r behind second_at in
        let past =
          part_end c (second + 1) r (past_first c (first + 1) second b y r behind second_at) in
        let rest = part_end c (first + 1) (b ++ y ∷ r) behind in
        (
          ends-Shows c l p _ 3 _ _
              (rw (part_end c p (a ++ x ∷ (b ++ y ∷ r)) t)
                (names-word c a x (b ++ y ∷ r) ∙ ap (λ w. map n a ++ n x ∷ w) (names-word c b y r)))
              (ls (n x) (n y)),
          (
            ends-Shows c l p _ 2 _ _ (rw (part_up, at_y, past) (up_to (n0 y) (map n r)))
                (ls (n x) (n0 y)),
            (
              ends-Shows c l p _ 1 _ _
                  (rw (to_first, at_x, rest) (ap (λ w. map n a ++ n0 x ∷ w) (names-word c b y r)))
                  (ls (n0 x) (n y)),
              Shape-optional c l (ltb p c.nullable_suffix_ix) _ _ (
                  ends-Shows c l p _ 0 _ _ (rw (to_first, at_x, between, at_y, past) refl)
                    (ls (n0 x) (n0 y))),
            ),
          ),
        )
