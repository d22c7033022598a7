-- ===== src/Census/Sets.antt =====
-- The vectors that the census computes, and the sets that they should be.
use marpa_r.Prelude.{
  ℕ, zero, suc, ◌<◌, ◌≡◌, ◌↔◌, refl, ap, ◌∙◌, sym, Bool, true, not, ◌&&◌, ◌||◌, List, [], ◌∷◌, ◌++◌,
  Option, some, length, pos, ltb_ℤ, ◌==◌, arith, if◌then◌else◌, Bool-cases, inl, inr,
}
use marpa_r.BitVector.{BitVector, bv_bit_test, bv_create, bv_shadow, bv_clone, bv_or}
use marpa_r.BitVector.Full.{IsSized, bv_clone_lem, bv_or-IsFull, bv_bit_test-or}
use marpa_r.Grammar.{Xsy, Xrl}
use marpa_r.Closure.{RuleLists, rhs_closure}
use marpa_r.Closure.Derived.{Derived, given, needs, separators, rule_at}
use marpa_r.Closure.Rules.{IsIndex, IsNamed, Closes, closes}
use marpa_r.Closure.Loop.{rhs_closure_lem}
use marpa_r.Census.{PairTree, mark_terminals}
use marpa_r.Census.Index.{Indexed, index_rules, make_lists}
use marpa_r.Census.Lists.{PairTreeLaws}
use marpa_r.Census.Indexing.{is_empty_rule, makes_empty}
use marpa_r.Census.Collected.{Index, index_rules_lem, make_lists-IsIndex}
use marpa_r.Census.Flags.{symbol_at}
use marpa_r.Census.Terminals.{Terminals, terminal_status, mark_terminals_lem}
use marpa_r.Census.Nulls.{bv_shadow-IsFull}
use marpa_r.Census.Spec.{Nullable, counts_terminal, Productive, Derived-change}

makes_empty_at :
    (xrls : List Xrl) (r : ℕ)
    → r < length xrls
    → is_empty_rule (rule_at xrls r) ≡ true
    → makes_empty xrls (rule_at xrls r).lhs ≡ true
makes_empty_at [] r l e = absurd (omega arith)
makes_empty_at (x ∷ xs) zero l e = ground (arith, e)
makes_empty_at (x ∷ xs) (suc r) l e = ground (arith, makes_empty_at xs r (omega arith) e)

no_prefix : (xs ys : List ℕ) → xs ++ ys ≡ [] → (length xs == 0) ≡ true
no_prefix [] ys e = refl
no_prefix (x ∷ xs) ys e = absurd (ground (arith, e))

pub needs_none-makes_empty :
    (xrls : List Xrl) (r : ℕ)
    → r < length xrls
    → needs (rule_at xrls r) ≡ []
    → makes_empty xrls (rule_at xrls r).lhs ≡ true
needs_none-makes_empty xrls r l e =
    let rule = rule_at xrls r in
    makes_empty_at xrls r l (
      ground (
        arith,
        no_prefix rule.rhs
            (if rule.is_sequence && ltb_ℤ (pos 1) rule.minimum
              then separators rule.separator
              else [])
            e,
      ))

-- A vector of the symbols that a property holds of.
pub record Holds (n : ℕ) (P : ℕ → Type 0) (v : BitVector) : Type 0 where
  pub sized : IsSized n v
  pub members : (i : ℕ) → i < n → (bv_bit_test v i ≡ true) ↔ P i

-- What the closure from `bv` returns, if that holds all of `base` and follows from it.
pub data Finds (n : ℕ) (P : ℕ → Type 0) : Option BitVector → Type 0 where
  finds : (v : BitVector) → Holds n P v → Finds n P (some v)

rhs_closure-Finds :
    (n : ℕ) (xrls : List Xrl) (lists : RuleLists) (base : ℕ → Bool) (bv : BitVector)
    → IsIndex n xrls lists
    → IsNamed n xrls
    → IsSized n bv
    → ((i : ℕ) → i < n → base i ≡ true → bv_bit_test bv i ≡ true)
    → ((i : ℕ) → i < n → bv_bit_test bv i ≡ true → Derived xrls base i)
    → ((i : ℕ) → makes_empty xrls i ≡ true → base i ≡ true)
    → Finds n (Derived xrls base) (rhs_closure n xrls lists bv)
rhs_closure-Finds n xrls lists base bv index named s complete sound empty =
    change (rhs_closure n xrls lists bv) (
      rhs_closure_lem n xrls lists bv index named s.full s.size (λ r l e.
        complete (rule_at xrls r).lhs (named.lhs r l)
          (empty (rule_at xrls r).lhs (needs_none-makes_empty xrls r l e))))
  where
    change :
        (o : Option BitVector) → Closes n xrls (bv_bit_test bv) o → Finds n (Derived xrls base) o
    change o (closes v c) = finds v (record {
      sized = record { full = c.full; size = c.size };
      members = λ i l. (
        λ e. Derived-change n xrls (bv_bit_test bv) base named sound l ((c.members i l).0 e),
        λ d. (c.members i l).1 (
            Derived-change n xrls base (bv_bit_test bv) named (λ j h e. given (complete j h e)) l
              d),
      );
    })

module _ (tree : PairTree) (start : ℕ) (xsys : List Xsy) (xrls : List Xrl)
    (laws : PairTreeLaws tree) (named : IsNamed (length xsys) xrls) where
  abbrev pub the_index : Indexed
  the_index = index_rules (length xsys) xrls

  abbrev pub the_lists : RuleLists
  the_lists = make_lists (length xsys) (tree.traverse (index_rules (length xsys) xrls).rh_pairs)

  abbrev pub the_terminals : BitVector
  the_terminals = (mark_terminals xsys (index_rules (length xsys) xrls).lhs_v).0

  pub the_index-Index : Index (length xsys) xrls the_index
  the_index-Index = index_rules_lem (length xsys) xrls named.lhs

  pub mark_terminals-Terminals :
      Terminals xsys (the_index).lhs_v (mark_terminals xsys (the_index).lhs_v)
  mark_terminals-Terminals = mark_terminals_lem xsys (the_index).lhs_v the_index-Index.lhs_sized

  pub terminal_bit :
      (i : ℕ) → i < length xsys → bv_bit_test the_terminals i ≡ counts_terminal start xsys xrls i
  terminal_bit i l =
      mark_terminals-Terminals.bits i l
      ∙ ap (λ b. terminal_status (symbol_at xsys i) (not b)) (the_index-Index.lhs_v i)

  pub rhs_closure-Nullable :
      Finds
        (length xsys)
        (Nullable xrls)
        (rhs_closure (length xsys) xrls the_lists (bv_clone (the_index).empty_lhs_v))
  rhs_closure-Nullable =
      let e = bv_clone_lem (the_index).empty_lhs_v the_index-Index.empty_sized.full in
      rw e (
        rhs_closure-Finds (length xsys) xrls the_lists (makes_empty xrls) (the_index).empty_lhs_v
          (make_lists-IsIndex tree (length xsys) xrls laws named.lhs) named
          the_index-Index.empty_sized (λ i l t. the_index-Index.empty_lhs_v i ∙ t)
          (λ i l t. given (sym (the_index-Index.empty_lhs_v i) ∙ t)) (λ i t. t))

  bits-or : (x y z : BitVector) → (bv_or x y z).bits ≡ x.bits
  unfolding bv_or
  bits-or x y z = refl

  bits-shadow : (v : BitVector) → (bv_shadow v).bits ≡ v.bits
  unfolding bv_shadow bv_create
  bits-shadow v = refl

  pub rhs_closure-Productive :
      (v : BitVector)
      → Holds (length xsys) (Nullable xrls) v
      → Finds
          (length xsys)
          (Productive start xsys xrls)
          (rhs_closure (length xsys) xrls the_lists (bv_or (bv_shadow v) v the_terminals))
  rhs_closure-Productive v h =
      let n = length xsys in
      let t = mark_terminals-Terminals.sized in
      let base : ℕ → Bool = λ i. makes_empty xrls i || counts_terminal start xsys xrls i in
      let sh = bv_shadow-IsFull v in
      let ea : (bv_shadow v).bits ≡ v.bits = bits-shadow v in
      let eb : (bv_shadow v).bits ≡ the_terminals.bits = ea ∙ h.sized.size ∙ sym t.size in
      let bv = bv_or (bv_shadow v) v the_terminals in
      let bit : (i : ℕ)
          → i < n
          → bv_bit_test bv i ≡ (bv_bit_test v i || counts_terminal start xsys xrls i) =
        λ i l.
          bv_bit_test-or (bv_shadow v) v sh.vector h.sized.full ea the_terminals t.full eb i
            (omega (arith, ea, h.sized.size))
          ∙ ap (λ b. bv_bit_test v i || b) (terminal_bit i l) in
      rhs_closure-Finds n xrls the_lists base bv (make_lists-IsIndex tree n xrls laws named.lhs)
        named
        (record {
          full = bv_or-IsFull (bv_shadow v) v sh.vector h.sized.full ea the_terminals t.full eb;
          size = bits-or (bv_shadow v) v the_terminals ∙ ea ∙ h.sized.size;
        })
        (λ i l e. elim (Bool-cases (makes_empty xrls i)) [
          | inl m ↦ ground (arith, bit i l, (h.members i l).1 (given m))
          | inr m ↦ ground (arith, bit i l, e, m)
        ])
        (λ i l e. elim (Bool-cases (bv_bit_test v i)) [
          | inl b ↦
              Derived-change n xrls (makes_empty xrls) base named
                (λ j k m. given (ground (arith, m))) l ((h.members i l).0 b)
          | inr b ↦ given (ground (arith, bit i l, e, b))
        ])
        (λ i m. ground (arith, m))
