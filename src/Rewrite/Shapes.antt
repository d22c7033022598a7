-- ===== src/Rewrite/Shapes.antt =====
-- The rules that the sections for a piece make, as turns.
pub mod Two
use marpa_r.Prelude.{
  ℕ, suc, ◌+◌, ◌-◌, ◌≡◌, refl, ap, ◌∙◌, Bool, true, false, List, [], ◌∷◌, ◌++◌, map, length,
  length-append, ltb, get_or, arith, if◌then◌else◌,
}
use mathlib.Core.List.{map-append}
use marpa_r.Grammar.Tables.{length-map}
use mathlib.Core.List.{append_assoc, append-nil}
use marpa_r.Rewrite.Slices.{Rest, Rest-past, part-Rest, get_or-Rest, length-Rest}
use marpa_r.Rewrite.{Irl}
use marpa_r.Rewrite.Chaf.{Chaf, part, names_in, chaf_irl, last_one_piece}
use marpa_r.Rewrite.Expansion.{Turn, ends, goes, Shows, Shape}
use marpa_r.Rewrite.Turns.{optional, last_one_turns}

module _ (c : Chaf) where
  pub ends-Shows :
      (l p real rank : ℕ) (rhs w : List ℕ)
      → rhs ≡ w
      → length w ≡ real
      → Shows c.rule_id l (chaf_irl c l p real rank rhs) (ends w)
  unfolding chaf_irl
  ends-Shows l p real rank rhs w e h = (refl, refl, ground (arith, ap length e, h), e)

  pub goes-Shows :
      (l p real rank : ℕ) (rhs u : List ℕ) (v : ℕ)
      → rhs ≡ u ++ v ∷ []
      → length u ≡ real
      → Shows c.rule_id l (chaf_irl c l p real rank rhs) (goes u v)
  unfolding chaf_irl
  goes-Shows l p real rank rhs u v e h =
      (refl, refl, ground (arith, ap length e, length-append u (v ∷ []), h), e)

  pub Shape-optional :
      (l : ℕ) (b : Bool) (irl : Irl) (t : Turn)
      → Shows c.rule_id l irl t
      → Shape c.rule_id l (if b then irl ∷ [] else []) (optional b t)
  Shape-optional l true irl t s = (s, tt)
  Shape-optional l false irl t s = tt

  pub length-word :
      (a : List ℕ) (x : ℕ) (w : List ℕ)
      → length (map c.names.nsyid a ++ x ∷ w) ≡ suc (length a + length w)
  length-word a x w =
      omega (arith, length-append (map c.names.nsyid a) (x ∷ w), length-map c.names.nsyid a)

  pub names-word :
      (a : List ℕ) (x : ℕ) (b : List ℕ)
      → map c.names.nsyid (a ++ x ∷ b)
        ≡ map c.names.nsyid a ++ c.names.nsyid x ∷ map c.names.nsyid b
  names-word a x b = map-append c.names.nsyid a (x ∷ b)

  module _ (p first : ℕ) (a : List ℕ) (x : ℕ) (r : List ℕ) (t : Rest c.rule.rhs p (a ++ x ∷ r))
      (e : first ≡ p + length a) where
    pub at_first : Rest c.rule.rhs first (x ∷ r)
    at_first = Rest-past c.rule.rhs p first a (x ∷ r) t e

    pub past_first : Rest c.rule.rhs (first + 1) r
    past_first = Rest-past c.rule.rhs first (first + 1) (x ∷ []) r at_first (omega arith)

    pub part_before : part c p first ≡ a
    part_before = part-Rest c.rule.rhs p first a (x ∷ r) t e

    pub first_entry : get_or c.rule.rhs first 0 ≡ x
    first_entry = get_or-Rest c.rule.rhs first x r at_first

    -- The part up to the factor.
    pub part_to : part c p (first + 1) ≡ a ++ x ∷ []
    part_to =
        part-Rest c.rule.rhs p (first + 1) (a ++ x ∷ []) r (rw (append_assoc a (x ∷ []) r) t)
          (omega (arith, e, length-append a (x ∷ [])))

  -- A part up to the end.
  pub part_end : (p : ℕ) (ys : List ℕ) → Rest c.rule.rhs p ys → part c p (length c.rule.rhs) ≡ ys
  part_end p ys t =
      part-Rest c.rule.rhs p (length c.rule.rhs) ys [] (rw (append-nil ys) t)
        (length-Rest c.rule.rhs p ys t)

  pub last_one-Shape :
      (l p first : ℕ) (a : List ℕ) (x : ℕ) (b : List ℕ)
      → Rest c.rule.rhs p (a ++ x ∷ b)
      → first ≡ p + length a
      → Shape c.rule_id l
          (last_one_piece c l p first)
          (last_one_turns c.names a x b (ltb p c.nullable_suffix_ix))
  unfolding last_one_piece
  last_one-Shape l p first a x b t e =
      let n = length-Rest c.rule.rhs p (a ++ x ∷ b) t in
      let m = length-append a (x ∷ b) in
      let end = length c.rule.rhs in
      (
        ends-Shows l p (end - p) 3 (names_in c p end) _
            (ap (map c.names.nsyid) (part_end p (a ++ x ∷ b) t) ∙ names-word a x b)
            (omega (
              arith,
              n,
              m,
              length-word a (c.names.nsyid x) (map c.names.nsyid b),
              length-map c.names.nsyid b,
            )),
        Shape-optional l (ltb p c.nullable_suffix_ix) _ _ (
            ends-Shows l p (end - p) 0 _ _
              (rw
                (
                  part_before p first a x b t e,
                  first_entry p first a x b t e,
                  part_end (first + 1) b (past_first p first a x b t e),
                )
                refl)
              (omega (
                arith,
                n,
                m,
                length-word a (c.names.nulling_nsyid x) (map c.names.nsyid b),
                length-map c.names.nsyid b,
              ))),
      )
