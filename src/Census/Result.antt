-- ===== src/Census/Result.antt =====
-- The census, stage by stage, against what it should find.
use marpa_r.Prelude.{
  ℕ, ◌<◌, ◌≡◌, ◌↔◌, ◌⊎◌, refl, ap, ◌∙◌, sym, Bool, true, false, not, ◌&&◌, ◌||◌, List, [], ◌∷◌, map,
  Option, none, some, length, modify, has, ◌==◌, arith, if◌then◌else◌, Bool-cases, inl, inr,
}
use marpa_r.BitVector.{BitVector, bv_bit_test, bv_shadow, bv_clone, bv_or}
use marpa_r.BitVector.Full.{IsSized}
use marpa_r.BitVector.Scan.{set_bits}
use marpa_r.BitVector.Scan.Count.{set_bits_lem}
use marpa_r.Matrix.{Matrix, matrix_row, matrix_bit_test}
use marpa_r.Matrix.Rows.{matrix_row-IsSized}
use marpa_r.Grammar.{
  Xsy, Xrl, Event, ErrorCode, counted_nullable, unproductive_start, nulling_terminal,
}
use marpa_r.Closure.{RuleLists, rhs_closure}
use marpa_r.Closure.Rules.{IsNamed}
use marpa_r.Census.{
  PairTree, Outcome, counted, failed, overrun, mark_symbols, mark_nullable, mark_nulling,
  mark_terminals, make_reach_matrix, classify_rule, census_accessible, census_productive,
  census_nullable, census, event_counted_nullable, event_nulling_terminal,
}
use marpa_r.Census.Index.{Indexed, index_rules, make_lists}
use marpa_r.Census.Lists.{PairTreeLaws}
use marpa_r.Census.Indexing.{is_left}
use marpa_r.Census.Flags.{
  symbol_at, filter, has-filter, finds_nulling, events_of_none, events_of_some, mark_nullable_lem,
  mark_nulling_lem,
}
use marpa_r.Census.Terminals.{terminal_mark}
use marpa_r.Census.Reach.{Reaches, make_reach_matrix_lem}
use marpa_r.Census.Nulls.{finds_nulling_lem}
use marpa_r.Census.Spec.{
  Nullable, flags_terminal, Productive, Accessible, Nulling, Flagged, NoneCounted, Settles,
  fails_counted, fails_start, fails_nulling, counts,
}
use marpa_r.Census.Stages.{
  has-set_bits, Marks, never, Marks-nullable, Marks-productive, Marks-accessible, Marks-nulling,
}
use marpa_r.Census.Sets.{
  Holds, Finds, finds, the_index-Index, mark_terminals-Terminals, terminal_bit,
  rhs_closure-Nullable, rhs_closure-Productive,
}

or_lem : (a b : Bool) (P : Type 0) → (a ≡ true) ↔ P → ((a || b) ≡ true) ↔ (P ⊎ (b ≡ true))
or_lem true b P h = (λ e. inl (h.0 refl), λ d. refl)
or_lem false b P h =
    (λ e. inr e, λ d. elim d [ inl p ↦ absurd (ground (arith, h.1 p)) | inr e ↦ e ])

-- The two ways on from a list of events.
on_events :
    (P : Outcome → Type 0) (code : ErrorCode) (on : Outcome) (out : List Xsy) (events : List Event)
    → (events ≡ [] → P on)
    → ((e : Event) (es : List Event) → events ≡ e ∷ es → P (failed code out (e ∷ es)))
    → P (elim events as (λ _. Outcome) [ [] ↦ on | e ∷ es ↦ failed code out (e ∷ es) ])
on_events P code on out [] a b = a refl
on_events P code on out (e ∷ es) a b = b e es refl

module _ (tree : PairTree) (start : ℕ) (xsys : List Xsy) (xrls : List Xrl)
    (laws : PairTreeLaws tree) (named : IsNamed (length xsys) xrls)
    (known : start < length xsys) where
  abbrev indexed : Indexed
  indexed = index_rules (length xsys) xrls

  abbrev lists : RuleLists
  lists = make_lists (length xsys) (tree.traverse (index_rules (length xsys) xrls).rh_pairs)

  abbrev terminal_v : BitVector
  terminal_v = (mark_terminals xsys (index_rules (length xsys) xrls).lhs_v).0

  abbrev reach_matrix : Matrix
  reach_matrix = make_reach_matrix (length xsys) xrls

  abbrev nulls : ℕ → Bool
  nulls =
      finds_nulling (make_reach_matrix (length xsys) xrls)
        (mark_terminals xsys (index_rules (length xsys) xrls).lhs_v).0

  reach_found : Reaches (length xsys) xrls reach_matrix
  reach_found = make_reach_matrix_lem (length xsys) xrls (omega (arith, known)) named

  left_bit : (i : ℕ) → i < length xsys → has (set_bits (indexed).lhs_v) i ≡ is_left xrls i
  left_bit i l =
      let ix = the_index-Index tree start xsys xrls laws named in
      has-set_bits (length xsys) (indexed).lhs_v i ix.lhs_sized l ∙ ix.lhs_v i

  nulls_lem :
      (i : ℕ)
      → i < length xsys
      → (has (filter nulls (set_bits (indexed).lhs_v)) i ≡ true) ↔ Nulling start xsys xrls i
  nulls_lem i l =
      let n = length xsys in
      let h = has-filter nulls (set_bits (indexed).lhs_v) i in
      let f =
        finds_nulling_lem n reach_matrix terminal_v i reach_found.solid
          (mark_terminals-Terminals tree start xsys xrls laws named).sized l in
      let tb = terminal_bit tree start xsys xrls laws named in
      (
        λ e. (
          ground (arith, h, e, left_bit i l),
          λ j k d. sym (tb j k) ∙ f.0 (ground (arith, h, e)) j k ((reach_found.bits i j l k).1 d),
        ),
        λ (a, d).
            let found : nulls i ≡ true =
              f.1 (λ j k b. tb j k ∙ d j k ((reach_found.bits i j l k).0 b)) in
            ground (arith, h, found, left_bit i l, a),
      )

  accessible_lem :
      (i : ℕ)
      → i < length xsys
      → ((start == i || has (set_bits (matrix_row reach_matrix start)) i) ≡ true)
        ↔ Accessible start xsys xrls i
  unfolding matrix_bit_test
  accessible_lem i l =
      let n = length xsys in
      let r = matrix_row-IsSized n reach_matrix start reach_found.solid known in
      let b = has-set_bits n (matrix_row reach_matrix start) i r l in
      let c = reach_found.bits start i known l in
      (
        λ e. elim (Bool-cases (start == i)) [
          | inl q ↦ inl (ground (arith, q))
          | inr q ↦ inr (c.0 (ground (arith, e, q, b)))
        ],
        λ d. elim d [ inl q ↦ ground (arith, q) | inr w ↦ ground (arith, c.1 w, b) ],
      )

  set_below :
      (v : BitVector) (i : ℕ)
      → IsSized (length xsys) v
      → has (set_bits v) i ≡ true
      → i < length xsys
  set_below v i s e = ground (arith, (set_bits_lem v s.full).1 i, e, s.size)

  module _ (v w : BitVector) (hv : Holds (length xsys) (Nullable xrls) v)
      (hw : Holds (length xsys) (Productive start xsys xrls) w) where
    flagged_lem :
        (out : List Xsy)
        → Marks xsys
            (flags_terminal start xsys xrls)
            (has (set_bits v))
            (has (set_bits w))
            (λ i. start == i || has (set_bits (matrix_row reach_matrix start)) i)
            (has (filter nulls (set_bits (indexed).lhs_v)))
            out
        → Flagged start xsys xrls out
    flagged_lem out m =
        let n = length xsys in
        let accessible : ℕ → Bool =
          λ i. start == i || has (set_bits (matrix_row reach_matrix start)) i in
        let nulling : ℕ → Bool = has (filter nulls (set_bits (indexed).lhs_v)) in
        record {
          count = m.count;
          terminal = m.is_terminal;
          nullable = λ i l.
              rw (m.is_nullable i l, has-set_bits n v i hv.sized l)
                (or_lem (bv_bit_test v i) (symbol_at xsys i).is_nullable (Nullable xrls i)
                  (hv.members i l));
          productive = λ i l.
              rw (m.is_productive i l, has-set_bits n w i hw.sized l)
                (or_lem (bv_bit_test w i) (symbol_at xsys i).is_productive
                  (Productive start xsys xrls i) (hw.members i l));
          accessible = λ i l. rw (m.is_accessible i l) (
              or_lem (accessible i) (symbol_at xsys i).is_accessible (Accessible start xsys xrls i)
                (accessible_lem i l));
          nulling = λ i l. rw (m.is_nulling i l) (
              or_lem (nulling i) (symbol_at xsys i).is_nulling (Nulling start xsys xrls i)
                (nulls_lem i l));
        }

    census_accessible-Settles :
        (xs : List Xsy)
        → Marks xsys
            (flags_terminal start xsys xrls)
            (has (set_bits v))
            (has (set_bits w))
            never
            never
            xs
        → NoneCounted start xsys xrls
        → Productive start xsys xrls start
        → Settles start xsys xrls (census_accessible start xs xrls indexed terminal_v reach_matrix)
    unfolding census_accessible
    census_accessible-Settles xs m none_counted productive =
        let f : Xsy → Xsy = λ x. record x { is_accessible = true } in
        let is = set_bits (indexed).lhs_v in
        let xs2 = modify (mark_symbols f (set_bits (matrix_row reach_matrix start)) xs) start f in
        let m2 =
          Marks-accessible xsys xs (flags_terminal start xsys xrls) (has (set_bits v))
            (has (set_bits w)) never never (set_bits (matrix_row reach_matrix start)) start m in
        let accessible : ℕ → Bool =
          λ i. start == i || has (set_bits (matrix_row reach_matrix start)) i in
        let m3 =
          Marks-nulling xsys xs2 (flags_terminal start xsys xrls) (has (set_bits v))
            (has (set_bits w)) accessible never (filter nulls is) m2 in
        let r = mark_nulling_lem reach_matrix terminal_v is xs2 [] in
        let p : ℕ → Bool = λ i. nulls i && (symbol_at xs2 i).is_terminal in
        let out = (mark_nulling reach_matrix terminal_v is xs2 []).0 in
        on_events (Settles start xsys xrls) nulling_terminal
          (counted out (map (classify_rule out) xrls)) out
          (mark_nulling reach_matrix terminal_v is xs2 []).1
          (λ e.
            counts out none_counted productive
              (λ i l d.
                let left : has is i ≡ true = left_bit i l ∙ d.0 in
                let found = (nulls_lem i l).1 d in
                ground (
                  arith,
                  events_of_none event_nulling_terminal p is i (sym r.made ∙ e) left,
                  found,
                  has-filter nulls is i,
                  m2.is_terminal i l,
                ))
              (flagged_lem out (rw r.marks m3)))
          (λ e es q.
            let (i, h, t) = events_of_some event_nulling_terminal p is e es (sym r.made ∙ q) in
            let l : i < length xsys =
              set_below (indexed).lhs_v i
                (the_index-Index tree start xsys xrls laws named).lhs_sized h in
            fails_nulling out (e ∷ es) i none_counted productive l
              ((nulls_lem i l).0 (ground (arith, h, t, has-filter nulls is i)))
              (ground (arith, t, m2.is_terminal i l)))

  census_productive-Settles :
      (v : BitVector) (xs : List Xsy)
      → Holds (length xsys) (Nullable xrls) v
      → Marks xsys (flags_terminal start xsys xrls) (has (set_bits v)) never never never xs
      → NoneCounted start xsys xrls
      → Settles start xsys xrls
          (census_productive start xs xrls indexed lists terminal_v v reach_matrix)
  unfolding census_productive
  census_productive-Settles v xs hv m none_counted =
      rw (m.count, census_productive)
        (onward (rhs_closure (length xsys) xrls lists (bv_or (bv_shadow v) v terminal_v))
          (rhs_closure-Productive tree start xsys xrls laws named v hv))
    where
      f : Xsy → Xsy
      f x = record x { is_productive = true }

      onward :
          (o : Option BitVector)
          → Finds (length xsys) (Productive start xsys xrls) o
          → Settles start xsys xrls (elim o as (λ _. Outcome) [
            | none ↦ overrun
            | some w ↦
                let xs' = mark_symbols (λ x. record x { is_productive = true }) (set_bits w) xs in
                if bv_bit_test w start
                then census_accessible start xs' xrls indexed terminal_v reach_matrix
                else failed unproductive_start xs' []
          ])
      onward o (finds w hw) = elim (Bool-cases (bv_bit_test w start)) [
        | inl e ↦ rw e (
            census_accessible-Settles v w hv hw
              (mark_symbols (λ x. record x { is_productive = true }) (set_bits w) xs)
              (Marks-productive xsys xs (flags_terminal start xsys xrls) (has (set_bits v)) never
                never never (set_bits w) m)
              none_counted ((hw.members start known).0 e))
        | inr e ↦ rw e (
            fails_start (mark_symbols (λ x. record x { is_productive = true }) (set_bits w) xs)
              none_counted (λ d. absurd (ground (arith, (hw.members start known).1 d, e))))
      ]

  mark_terminals-Marks :
      Marks xsys
        (flags_terminal start xsys xrls)
        never
        never
        never
        never
        (mark_terminals xsys (indexed).lhs_v).1
  mark_terminals-Marks =
      let t = mark_terminals-Terminals tree start xsys xrls laws named in
      let ix = the_index-Index tree start xsys xrls laws named in
      let same : (p : Xsy → Bool)
          → ((x : Xsy) (b : Bool) → p (terminal_mark x b) ≡ p x)
          → (i : ℕ) → i < length xsys
          → p (symbol_at (mark_terminals xsys (indexed).lhs_v).1 i) ≡ p (symbol_at xsys i) =
        λ p h i l.
          ap p (t.marks i l) ∙ h (symbol_at xsys i) (not (bv_bit_test (indexed).lhs_v i)) in
      record {
        count = t.counted;
        is_terminal = λ i l.
            ap (λ x. x.is_terminal) (t.marks i l)
            ∙ ap (λ b. (terminal_mark (symbol_at xsys i) (not b)).is_terminal) (ix.lhs_v i);
        is_counted = same (λ x. x.is_counted) mark_counted;
        is_nullable = same (λ x. x.is_nullable) mark_nullable_same;
        is_productive = same (λ x. x.is_productive) mark_productive;
        is_accessible = same (λ x. x.is_accessible) mark_accessible;
        is_nulling = same (λ x. x.is_nulling) mark_nulling_same;
      }
    where
      by_status :
          (p : Xsy → Bool) (x : Xsy) (b : Bool)
          → p (record x { is_terminal = true }) ≡ p x
          → p (terminal_mark x b) ≡ p x
      by_status p x b e = elim (Bool-cases x.is_locked_terminal) [
        | inl l ↦ ap p (rw l refl)
        | inr l ↦ elim (Bool-cases b) [
          | inl c ↦ ap p (rw (l, c) refl) ∙ e
          | inr c ↦ ap p (rw (l, c) refl)
        ]
      ]

      mark_counted : (x : Xsy) (b : Bool) → (terminal_mark x b).is_counted ≡ x.is_counted
      mark_counted x b = by_status (λ x. x.is_counted) x b refl

      mark_nullable_same : (x : Xsy) (b : Bool) → (terminal_mark x b).is_nullable ≡ x.is_nullable
      mark_nullable_same x b = by_status (λ x. x.is_nullable) x b refl

      mark_productive : (x : Xsy) (b : Bool) → (terminal_mark x b).is_productive ≡ x.is_productive
      mark_productive x b = by_status (λ x. x.is_productive) x b refl

      mark_accessible : (x : Xsy) (b : Bool) → (terminal_mark x b).is_accessible ≡ x.is_accessible
      mark_accessible x b = by_status (λ x. x.is_accessible) x b refl

      mark_nulling_same : (x : Xsy) (b : Bool) → (terminal_mark x b).is_nulling ≡ x.is_nulling
      mark_nulling_same x b = by_status (λ x. x.is_nulling) x b refl

  census_nullable-Settles :
      (v : BitVector)
      → Holds (length xsys) (Nullable xrls) v
      → Settles start xsys xrls (
          census_nullable start
            (mark_terminals xsys (indexed).lhs_v).1
            xrls
            indexed
            lists
            terminal_v
            reach_matrix
            v)
  unfolding census_nullable
  census_nullable-Settles v hv =
      let n = length xsys in
      let xs = (mark_terminals xsys (indexed).lhs_v).1 in
      let m = mark_terminals-Marks in
      let is = set_bits v in
      let r = mark_nullable_lem is xs [] in
      let out = (mark_nullable is xs []).0 in
      let p : ℕ → Bool = λ i. (symbol_at xs i).is_counted in
      let m2 : Marks xsys (flags_terminal start xsys xrls) (has is) never never never out =
        rw r.marks
          (Marks-nullable xsys xs (flags_terminal start xsys xrls) never never never never is m) in
      on_events (Settles start xsys xrls) counted_nullable
        (census_productive start out xrls indexed lists terminal_v v reach_matrix) out
        (mark_nullable is xs []).1
        (λ e. census_productive-Settles v out hv m2 (λ i l d.
          sym (m.is_counted i l)
          ∙ events_of_none event_counted_nullable p is i (sym r.made ∙ e)
              (has-set_bits n v i hv.sized l ∙ (hv.members i l).1 d)))
        (λ e es q.
          let (i, h, t) = events_of_some event_counted_nullable p is e es (sym r.made ∙ q) in
          let l : i < n = set_below v i hv.sized h in
          fails_counted out (e ∷ es) i l
            ((hv.members i l).0 (sym (has-set_bits n v i hv.sized l) ∙ h))
            (sym (m.is_counted i l) ∙ t))

  census-Settles : Settles start xsys xrls (census tree start xsys xrls)
  unfolding census
  census-Settles =
      onward (rhs_closure (length xsys) xrls lists (bv_clone (indexed).empty_lhs_v))
        (rhs_closure-Nullable tree start xsys xrls laws named)
    where
      onward :
          (o : Option BitVector)
          → Finds (length xsys) (Nullable xrls) o
          → Settles start xsys xrls (elim o as (λ _. Outcome) [
            | none ↦ overrun
            | some v ↦
                census_nullable start
                  (mark_terminals xsys (indexed).lhs_v).1
                  xrls
                  indexed
                  lists
                  terminal_v
                  reach_matrix
                  v
          ])
      onward o (finds v hv) = census_nullable-Settles v hv

pub census_lem :
    (tree : PairTree) (start : ℕ) (xsys : List Xsy) (xrls : List Xrl)
    → PairTreeLaws tree
    → IsNamed (length xsys) xrls
    → start < length xsys
    → Settles start xsys xrls (census tree start xsys xrls)
census_lem tree start xsys xrls laws named known =
    census-Settles tree start xsys xrls laws named known
