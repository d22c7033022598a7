-- ===== src/Precompute/Start.antt =====
-- From a well-formed grammar through the guards to the census.
use marpa_r.Prelude.{
  ℕ, zero, suc, ◌<◌, ◌≡◌, refl, Bool, true, false, not, ◌⊎◌, inl, inr, List, [], ◌∷◌, All, length,
  map, get_or, has, has-append, has-All, ℤ, pos, negsuc, ◌==◌, arith, is_negative, pos_part,
  if◌then◌else◌, Bool-cases,
}
use marpa_r.Grammar.{
  Grammar, Contents, Env, Xrl, Outcome, value, failure, fail_if_fatal, fail_if_not_ok,
  fail_if_precomputed, failure_indicator, xsy_id_is_valid, blank_xsy, blank_xrl, ErrorCode,
  headers_do_not_match, no_rules, precomputed, no_start_symbol, invalid_start_symbol, start_not_lhs,
  M, fail_if, ◌>>=◌, ◌>>◌,
}
use marpa_r.Grammar.Change.{IsNoneOrBelow}
use marpa_r.Grammar.Invariant.{AvlLaws, IsWf, IsRule}
use marpa_r.Closure.Derived.{separators, rule_at}
use marpa_r.Closure.Rules.{IsNamed}
use marpa_r.Census.{PairTree, census}
use marpa_r.Census.Lists.{PairTreeLaws}
use marpa_r.Census.Spec.{Settles}
use marpa_r.Census.Result.{census_lem}
use marpa_r.Precompute.{precompute_guards}

get_or-All :
    (P : Xrl → Type 0) (rs : List Xrl) (i : ℕ) (d : Xrl)
    → All P rs
    → i < length rs
    → P (get_or rs i d)
get_or-All P [] i d a l = elim l [ ]
get_or-All P (r ∷ rs) zero d a l = a.0
get_or-All P (r ∷ rs) (suc i) d a l = get_or-All P rs i d a.1 (omega arith)

module _ {T : Type 0} {env : Env T} (laws : AvlLaws env) where
  IsWf-IsNamed : (c : Contents T) → IsWf laws c → IsNamed (length c.xsys) c.xrls
  IsWf-IsNamed c w =
      let P : Xrl → Type 0 =
        IsRule (length c.xsys) (map (λ x. x.is_lhs) c.xsys) (map (λ x. x.is_sequence_lhs) c.xsys) in
      let rule : (r : ℕ) → r < length c.xrls → P (rule_at c.xrls r) =
        λ r l. get_or-All P c.xrls r (blank_xrl 0 []) w.rules l in
      record {
        lhs = λ r l. (rule r l).lhs_below;
        rhs = λ r s l h.
            let x = rule_at c.xrls r in
            let seps = if x.is_sequence then separators x.separator else [] in
            elim (Bool-cases (has x.rhs s)) [
              | inl e ↦ has-All (λ i. i < length c.xsys) x.rhs s (rule r l).rhs_below e
              | inr e ↦
                  separated x.is_sequence x.separator s (rule r l).separator_below
                    (ground (arith, has-append x.rhs seps s, h, e))
            ];
      }
    where
      separated :
          (b : Bool) (sep : ℤ) (s : ℕ)
          → IsNoneOrBelow (length c.xsys) sep
          → has (if b then separators sep else []) s ≡ true
          → s < length c.xsys
      separated true (pos i) s below h = ground (arith, below, h)
      separated true (negsuc i) s below h = absurd (ground (arith, h))
      separated false sep s below h = absurd (ground (arith, h))

  -- What the guards return: the failure indicator, where the grammar keeps all but its error code and
  -- its events, or a start symbol with which the census settles the grammar.
  pub data Begins (tree : PairTree) (g : Grammar T) : Outcome T ℕ → Type 0 where
    stops :
        {g' : Grammar T}
        → (g'.contents ≡ g.contents) ⊎ (g'.contents ≡ record g.contents { events = [] })
        → Begins tree g (failure failure_indicator g')
    begins :
        (start : ℕ)
        → g.start_xsy_id ≡ pos start
        → g.is_precomputed ≡ false
        → (get_or g.xsys start blank_xsy).is_lhs ≡ true
        → Settles start g.xsys g.xrls (census tree start g.xsys g.xrls)
        → Begins tree g (value start (record g { contents = record g.contents { events = [] } }))

  -- A guard goes on as it is, or stops with a code.
  data Guards (o : Outcome T (Unit {0})) (b : Bool) (g : Grammar T) : Type 0 where
    goes_on : b ≡ false → o ≡ value tt g → Guards o b g
    stops_with :
        (code : ErrorCode)
        → o ≡ failure failure_indicator (record g { error = code })
        → Guards o b g

  fail_if-Guards :
      (b : Bool) (code : ErrorCode) (g : Grammar T)
      → Guards (fail_if b code failure_indicator g) b g
  fail_if-Guards true code g = stops_with code refl
  fail_if-Guards false code g = goes_on refl refl

  both-Guards :
      (m k : M T (Unit {0})) (a b : Bool) (g : Grammar T)
      → Guards (m g) a g
      → Guards (k g) b g
      → Guards ((m >> k) g) false g
  both-Guards m k a b g (goes_on e q) (goes_on f r) = goes_on refl (rw (q, ◌>>=◌) r)
  both-Guards m k a b g (goes_on e q) (stops_with code r) = stops_with code (rw (q, ◌>>=◌) r)
  both-Guards m k a b g (stops_with code q) r = stops_with code (rw (q, ◌>>=◌) refl)

  fail_if_fatal-Guards : (g : Grammar T) → Guards (fail_if_fatal env g) false g
  unfolding fail_if_fatal fail_if_not_ok
  fail_if_fatal-Guards g =
      both-Guards (fail_if env.header_version_mismatch headers_do_not_match failure_indicator)
        fail_if_not_ok env.header_version_mismatch (not g.is_ok) g
        (fail_if-Guards env.header_version_mismatch headers_do_not_match g)
        (fail_if-Guards (not g.is_ok) g.error g)

  after :
      (P : Outcome T ℕ → Type 0) (m : M T (Unit {0})) (b : Bool) (k : M T ℕ) (g : Grammar T)
      → Guards (m g) b g
      → ((code : ErrorCode) → P (failure failure_indicator (record g { error = code })))
      → (b ≡ false → P (k g))
      → P ((m >> k) g)
  after P m b k g (goes_on e q) s c = rw (q, ◌>>=◌) (c e)
  after P m b k g (stops_with code q) s c = rw (q, ◌>>=◌) (s code)

  -- On a well-formed grammar with a tree that keeps its order, the guards of marpa_g_precompute
  -- either stop with the failure indicator, and the grammar keeps all but its error code and its
  -- events; or the grammar is not precomputed and has a start symbol, a left side, with which
  -- the census settles it.
  pub precompute_guards-Begins :
      (tree : PairTree) (g : Grammar T)
      → IsWf laws g.contents
      → PairTreeLaws tree
      → Begins tree g (precompute_guards env g)
  unfolding precompute_guards fail_if_precomputed xsy_id_is_valid
  precompute_guards-Begins tree g w tl =
      let P = Begins tree g in
      let g1 : Grammar T = record g { contents = record g.contents { events = [] } } in
      let start = pos_part g.start_xsy_id in
      let lhs = (get_or g.xsys start blank_xsy).is_lhs in
      after P (fail_if_fatal env) false _ g (fail_if_fatal-Guards g) (λ code. stops (inl refl))
        (λ _.
          after P (fail_if (length g.xrls == 0) no_rules failure_indicator) (length g.xrls == 0) _
            g1 (fail_if-Guards (length g.xrls == 0) no_rules g1) (λ code. stops (inr refl))
            (λ _.
              after P fail_if_precomputed g.is_precomputed _ g1
                (fail_if-Guards g.is_precomputed precomputed g1) (λ code. stops (inr refl))
                (λ fresh.
                  after P (fail_if (is_negative g.start_xsy_id) no_start_symbol failure_indicator)
                    (is_negative g.start_xsy_id) _ g1
                    (fail_if-Guards (is_negative g.start_xsy_id) no_start_symbol g1)
                    (λ code. stops (inr refl))
                    (λ above.
                      after P
                        (fail_if (not (xsy_id_is_valid g.xsys g.start_xsy_id)) invalid_start_symbol
                          failure_indicator)
                        (not (xsy_id_is_valid g.xsys g.start_xsy_id)) _ g1
                        (fail_if-Guards (not (xsy_id_is_valid g.xsys g.start_xsy_id))
                          invalid_start_symbol g1)
                        (λ code. stops (inr refl))
                        (λ valid.
                          after P (fail_if (not lhs) start_not_lhs failure_indicator) (not lhs) _ g1
                            (fail_if-Guards (not lhs) start_not_lhs g1) (λ code. stops (inr refl))
                            (λ left.
                              begins start (nonnegative g.start_xsy_id above) fresh
                                (ground (arith, left))
                                (census_lem tree start g.xsys g.xrls tl (IsWf-IsNamed g.contents w)
                                  (ground (arith, valid)))))))))
    where
      nonnegative : (z : ℤ) → is_negative z ≡ false → z ≡ pos (pos_part z)
      nonnegative (pos n) e = refl
      nonnegative (negsuc n) e = absurd (ground (arith, e))
