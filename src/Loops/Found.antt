-- ===== src/Loops/Found.antt =====
-- The loop rules, with the lists of the rules by their left side that the census makes.
use marpa_r.Prelude.{
  ℕ, zero, suc, ◌<◌, ◌≡◌, ◌↔◌, ◌⊎◌, ◌∙◌, sym, Bool, true, false, ◌&&◌, List, ◌∷◌, ◌++◌, length, has,
  get_or, inl, inr, arith, [],
}
use marpa_r.BitVector.{BitVector, bv_bit_test}
use marpa_r.Grammar.{Xsy, Xrl, Event, blank_xsy}
use marpa_r.Closure.{RuleLists, rules_of}
use marpa_r.Closure.Derived.{rule_at}
use marpa_r.Closure.Rules.{IsNamed}
use marpa_r.Census.{PairTree}
use marpa_r.Census.Index.{make_lists, index_rules}
use marpa_r.Census.Lists.{PairTreeLaws}
use marpa_r.Loops.{Looped, loop_rules}
use marpa_r.Loops.Lefts.{has_left, rules_of-lefts}
use marpa_r.Loops.Steps.{solid_count}
use marpa_r.Loops.Result.{UnitWalk, step, walk, named_middle, found_lem}

module _ (xsys : List Xsy) (nullable_v : BitVector) (xrls : List Xrl) where
  -- All symbols of the right side of rule `r` but one are nullable, and that one, the left side of
  -- rule `q`, is not both nullable and nulling.
  abbrev pub CanBecome : ℕ → ℕ → Type 0
  CanBecome r q =
      (a : List ℕ) × (x : ℕ) × (b : List ℕ) × ((rule_at xrls r).rhs ≡ a ++ x ∷ b)
      × (solid_count nullable_v a ≡ 0)
      × (solid_count nullable_v b ≡ 0)
      × ((bv_bit_test nullable_v x && (get_or xsys x blank_xsy).is_nulling) ≡ false)
      × (has_left xrls x q ≡ true)

  pub data Cycles : ℕ → ℕ → Type 0 where
    one : {i j : ℕ} → i < length xrls → CanBecome i j → Cycles i j
    more : {i j k : ℕ} → Cycles i j → Cycles j k → Cycles i k

  pub record LoopsFound (has_cycle : Bool) (out : Looped) : Type 0 where
    pub marks :
        (r : ℕ)
        → r < length xrls
        → ((rule_at out.xrls r).is_loop ≡ true) ↔ (Cycles r r ⊎ ((rule_at xrls r).is_loop ≡ true))
    pub cycle : (out.has_cycle ≡ true) ↔ (((r : ℕ) × Cycles r r) ⊎ (has_cycle ≡ true))

has_left-below : (xrls : List Xrl) (x q : ℕ) → has_left xrls x q ≡ true → q < length xrls
has_left-below [] x q h = absurd (ground (arith, h))
has_left-below (r ∷ rs) x zero h = omega arith
has_left-below (r ∷ rs) x (suc q) h = omega (arith, has_left-below rs x q h)

module _ (tree : PairTree) (xsys : List Xsy) (nullable_v : BitVector) (xrls : List Xrl) (n : ℕ)
    (laws : PairTreeLaws tree) (named : IsNamed n xrls) where
  abbrev lists : RuleLists
  lists = make_lists n (tree.traverse (index_rules n xrls).lh_pairs)

  below : (x q : ℕ) → x < n → has (rules_of lists x) q ≡ true → q < length xrls
  below x q l h = has_left-below xrls x q (sym (rules_of-lefts tree n xrls x q laws l) ∙ h)

  to_Cycles : {i j : ℕ} → UnitWalk xsys nullable_v lists xrls i j → Cycles xsys nullable_v xrls i j
  to_Cycles (step {i} {j} p (a, x, b, e, ha, hb, k, h)) = one p (
    a,
    x,
    b,
    e,
    ha,
    hb,
    k,
    sym (rules_of-lefts tree n xrls x j laws (named_middle n xrls named i a x b p e)) ∙ h,
  )
  to_Cycles (walk u v) = more (to_Cycles u) (to_Cycles v)

  of_Cycles : {i j : ℕ} → Cycles xsys nullable_v xrls i j → UnitWalk xsys nullable_v lists xrls i j
  of_Cycles (one {i} {j} p (a, x, b, e, ha, hb, k, h)) = step p (
    a,
    x,
    b,
    e,
    ha,
    hb,
    k,
    rules_of-lefts tree n xrls x j laws (named_middle n xrls named i a x b p e) ∙ h,
  )
  of_Cycles (more u v) = walk (of_Cycles u) (of_Cycles v)

  -- With a tree that keeps its order, on a grammar whose rules name symbols of it, the rules
  -- that are marked as loop rules (and those that had the mark) are exactly the rules that lead
  -- back to themselves by one step or more, where a rule leads to the rules of a symbol of its
  -- right side if all the other symbols there are in the given set of nullable symbols and that
  -- symbol is not both in the set and nulling (a nulling symbol that is not in the set does
  -- count); and the grammar is said to have a cycle, if it was not before, exactly if there is
  -- such a rule.
  pub loop_rules_lem :
      (has_cycle : Bool) (events : List Event)
      → LoopsFound xsys nullable_v xrls has_cycle (
          loop_rules xsys xrls nullable_v
            (make_lists n (tree.traverse (index_rules n xrls).lh_pairs))
            has_cycle
            events)
  loop_rules_lem has_cycle events =
      let f = found_lem xsys nullable_v lists xrls n below named has_cycle events in
      record {
        marks = λ r l. (
          λ e. elim ((f.marks r l).0 e) [ inl w ↦ inl (to_Cycles w) | inr h ↦ inr h ],
          λ d. (f.marks r l).1 (elim d [ inl w ↦ inl (of_Cycles w) | inr h ↦ inr h ]),
        );
        cycle = (
          λ e. elim (f.cycle.0 e) [ inl (r, w) ↦ inl (r, to_Cycles w) | inr h ↦ inr h ],
          λ d. f.cycle.1 (elim d [ inl (r, w) ↦ inl (r, of_Cycles w) | inr h ↦ inr h ]),
        );
      }
