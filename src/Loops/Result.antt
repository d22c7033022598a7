-- ===== src/Loops/Result.antt =====
-- The loops of unit transitions, and the rules that are marked.
use marpa_r.Prelude.{
  ℕ, zero, suc, ◌+◌, ◌<◌, ◌≡◌, ◌≢◌, ◌↔◌, ◌⊎◌, refl, ap, ◌∙◌, sym, Bool, true, false, List, [], ◌∷◌,
  ◌++◌, has-append, pos, length, has, ◌==◌, arith, inl, inr, if◌then◌else◌, Bool-cases,
}
use marpa_r.BitVector.{BitVector}
use marpa_r.Matrix.{Matrix, matrix_create, matrix_bit_test, transitive_closure}
use marpa_r.Matrix.Closure.{Reach, edge, join, transitive_closure_lem}
use marpa_r.Matrix.Rows.{IsSolid-IsSquare, matrix_create-IsSolid}
use marpa_r.Grammar.{Xsy, Xrl, Event}
use marpa_r.Closure.{RuleLists, rules_of}
use marpa_r.Closure.Derived.{rule_at, mentions, separators}
use marpa_r.Closure.Rules.{IsNamed}
use marpa_r.Census.Reach.{create_clear}
use marpa_r.Loops.{event_loop_rules, unit_transitions, mark_loops, Looped, loop_rules}
use marpa_r.Loops.Steps.{UnitStep, sets, sets_lem}
use marpa_r.Loops.Rows.{AllRows, rules_lem, all_sets}
use marpa_r.Loops.Marks.{is_loop_at, looping_lem, mark_loops_lem}

-- A rule leads to another over one unit transition or more.
pub data UnitWalk (xsys : List Xsy) (nullable_v : BitVector) (lists : RuleLists) (xrls : List Xrl)
    : ℕ → ℕ → Type 0 where
  step :
      {i j : ℕ}
      → i < length xrls
      → UnitStep nullable_v xsys lists (rule_at xrls i) j
      → UnitWalk xsys nullable_v lists xrls i j
  walk :
      {i j k : ℕ}
      → UnitWalk xsys nullable_v lists xrls i j
      → UnitWalk xsys nullable_v lists xrls j k
      → UnitWalk xsys nullable_v lists xrls i k

has_middle : (a : List ℕ) (x : ℕ) (b : List ℕ) → has (a ++ x ∷ b) x ≡ true
has_middle [] x b = ground arith
has_middle (y ∷ a) x b = ground (arith, has_middle a x b)

mentions_rhs : (rule : Xrl) (x : ℕ) → has rule.rhs x ≡ true → has (mentions rule) x ≡ true
mentions_rhs rule x h =
    ground
      (arith, h, has-append rule.rhs (if rule.is_sequence then separators rule.separator else []) x)

pub named_middle :
    (n : ℕ) (xrls : List Xrl)
    → IsNamed n xrls
    → (i : ℕ) (a : List ℕ) (x : ℕ) (b : List ℕ) → i < length xrls
    → (rule_at xrls i).rhs ≡ a ++ x ∷ b
    → x < n
named_middle n xrls named i a x b p e =
    named.rhs i x p (mentions_rhs (rule_at xrls i) x (ap (λ z. has z x) e ∙ has_middle a x b))

module _ (xsys : List Xsy) (nullable_v : BitVector) (lists : RuleLists) (xrls : List Xrl) (s : ℕ)
    (below : (x q : ℕ) → x < s → has (rules_of lists x) q ≡ true → q < length xrls)
    (named : IsNamed s xrls) where
  none_set :
      (i : ℕ) (rules : List Xrl) (k l : ℕ)
      → k < i
      → all_sets xsys nullable_v lists (length xrls) s below i rules k l ≡ false
  none_set i [] k l h = refl
  none_set i (rule ∷ rules) k l h = ground (arith, none_set (suc i) rules k l (omega (arith, h)), h)

  all_sets_at :
      (i : ℕ) (rules : List Xrl) (r l : ℕ)
      → r < length rules
      → all_sets xsys nullable_v lists (length xrls) s below i rules (i + r) l
        ≡ sets nullable_v xsys lists (rule_at rules r) l
  all_sets_at i [] r l h = absurd (omega (arith, h))
  all_sets_at i (rule ∷ rules) zero l h =
      ground (arith, none_set (suc i) rules (i + 0) l (omega arith))
  all_sets_at i (rule ∷ rules) (suc r) l h =
      let e : suc i + r ≡ i + suc r = omega arith in
      ground (arith, rw e at (all_sets_at (suc i) rules r l (omega (arith, h))))

  abbrev count : ℕ
  count = length xrls

  abbrev edges : Matrix
  edges = unit_transitions xsys nullable_v lists 0 xrls (matrix_create count count)

  drawn : AllRows xsys nullable_v lists count s below 0 xrls (matrix_create count count) edges
  drawn =
      rules_lem xsys nullable_v lists count s below 0 xrls (matrix_create count count)
        (matrix_create-IsSolid count) (omega arith) named

  edge_lem :
      (r l : ℕ)
      → r < count
      → matrix_bit_test edges r l ≡ sets nullable_v xsys lists (rule_at xrls r) l
  edge_lem r l h =
      let z : 0 + r ≡ r = omega arith in
      ground (arith, drawn.bits r l, create_clear count r l, rw z at (all_sets_at 0 xrls r l h))

  Reach-UnitWalk : {i j : ℕ} → Reach count edges i j → UnitWalk xsys nullable_v lists xrls i j
  Reach-UnitWalk (edge {i} {j} p q e) =
      step p ((sets_lem nullable_v xsys lists (rule_at xrls i) j).0 (sym (edge_lem i j p) ∙ e))
  Reach-UnitWalk (join a b) = walk (Reach-UnitWalk a) (Reach-UnitWalk b)

  UnitWalk-Reach : {i j : ℕ} → UnitWalk xsys nullable_v lists xrls i j → Reach count edges i j
  UnitWalk-Reach (step {i} {j} p u) =
      let (a, x, b, e, _, _, _, h) = u in
      let here : x < s = named_middle s xrls named i a x b p e in
      edge p (below x j here h)
        (edge_lem i j p ∙ (sets_lem nullable_v xsys lists (rule_at xrls i) j).1 u)
  UnitWalk-Reach (walk a b) = join (UnitWalk-Reach a) (UnitWalk-Reach b)

  -- What is found: the marks, the flag and the events.
  pub record Found (has_cycle : Bool) (events : List Event) (out : Looped) : Type 0 where
    pub marks :
        (r : ℕ)
        → r < count
        → ((rule_at out.xrls r).is_loop ≡ true)
          ↔ (UnitWalk xsys nullable_v lists xrls r r ⊎ ((rule_at xrls r).is_loop ≡ true))
    pub cycle :
        (out.has_cycle ≡ true)
        ↔ (((r : ℕ) × UnitWalk xsys nullable_v lists xrls r r) ⊎ (has_cycle ≡ true))

  diagonal :
      (r : ℕ)
      → r < count
      → (matrix_bit_test (transitive_closure edges) r r ≡ true)
        ↔ UnitWalk xsys nullable_v lists xrls r r
  diagonal r l =
      let c =
        transitive_closure_lem count edges r r (IsSolid-IsSquare count edges drawn.solid) l l in
      (λ e. Reach-UnitWalk (c.0 e), λ d. c.1 (UnitWalk-Reach d))

  starts_below : {i j : ℕ} → UnitWalk xsys nullable_v lists xrls i j → i < count
  starts_below (step p u) = p
  starts_below (walk a b) = starts_below a

  marks_lem :
      (r : ℕ)
      → r < count
      → ((rule_at (mark_loops (transitive_closure edges) count 0 xrls 0).0 r).is_loop ≡ true)
        ↔ (UnitWalk xsys nullable_v lists xrls r r ⊎ ((rule_at xrls r).is_loop ≡ true))
  unfolding is_loop_at
  marks_lem r l =
      let m = transitive_closure edges in
      let k = (mark_loops_lem m count 0 xrls 0).flags r l in
      let d = looping_lem m count 0 r (omega arith) (omega (arith, l)) in
      let t = diagonal r l in
      (
        λ e. elim (Bool-cases (matrix_bit_test m r r)) [
          | inl h ↦ inl (t.0 h)
          | inr h ↦ inr (ground (arith, k, d, e, h))
        ],
        λ w. elim w [ inl h ↦ ground (arith, k, d, t.1 h) | inr h ↦ ground (arith, k, d, h) ],
      )

  found_some :
      ((mark_loops (transitive_closure edges) count 0 xrls 0).1 ≢ 0)
      ↔ ((r : ℕ) × UnitWalk xsys nullable_v lists xrls r r)
  found_some =
      let m = transitive_closure edges in
      let k = (mark_loops_lem m count 0 xrls 0).counts in
      (
        λ h. elim (k.0 h) [
          | inl z ↦ absurd (z refl)
          | inr (r, _, l, e) ↦ (r, (diagonal r (omega (arith, l))).0 e)
        ],
        λ (r, w).
            let l = starts_below w in
            k.1 (inr (r, omega arith, omega (arith, l), (diagonal r l).1 w)),
      )

  pub found_lem :
      (has_cycle : Bool) (events : List Event)
      → Found has_cycle events (loop_rules xsys xrls nullable_v lists has_cycle events)
  unfolding loop_rules
  found_lem has_cycle events =
      let c = (mark_loops (transitive_closure edges) count 0 xrls 0).1 in
      by_count (c == 0) c refl found_some
    where
      by_count :
          (b : Bool) (c : ℕ)
          → (c == 0) ≡ b
          → ((c ≢ 0) ↔ ((r : ℕ) × UnitWalk xsys nullable_v lists xrls r r))
          → Found has_cycle events (
              if b
              then record {
                xrls = (mark_loops (transitive_closure edges) count 0 xrls 0).0;
                has_cycle = has_cycle;
                events = events;
              }
              else record {
                xrls = (mark_loops (transitive_closure edges) count 0 xrls 0).0;
                has_cycle = true;
                events = events ++ record { type = event_loop_rules; value = pos c } ∷ [];
              })
      by_count true c z h = record {
        marks = marks_lem;
        cycle =
            (λ e. inr e, λ w. elim w [ inl d ↦ absurd (h.1 d (ground (arith, z))) | inr e ↦ e ]);
      }
      by_count false c z h = record {
        marks = marks_lem;
        cycle = (λ _. inl (h.0 (λ e. absurd (ground (arith, e, z)))), λ _. refl);
      }
