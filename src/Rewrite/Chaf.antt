-- ===== src/Rewrite/Chaf.antt =====
-- The rewrite of a rule with properly nullable symbols: it is cut into pieces with at most two such
-- symbols (the factors), linked by virtual symbols.
use marpa_r.Prelude.{
  ℕ, suc, ◌+◌, ◌-◌, true, false, List, [], ◌∷◌, ◌++◌, map, some, length, get_or, modify, pos, sub_ℕ,
  ltb, leb, if◌then◌else◌,
}
use marpa_r.Grammar.{Xsy, Xrl, blank_xsy}
use marpa_r.Closure.{take, drop}
use marpa_r.Rewrite.{Irl, Rewriting, Names, irl_chaf_rank, nsy_new, add_irl}

-- The scan for the factor positions and `nullable_suffix_ix`, from position `rhs_ix`.
unfoldable pub scan_factors : List Xsy → ℕ → List ℕ → ℕ → List ℕ × ℕ
scan_factors xsys rhs_ix [] suffix = ([], suffix)
scan_factors xsys rhs_ix (symid ∷ is) suffix =
    let symbol = get_or xsys symid blank_xsy in
    let rest =
      scan_factors xsys (suc rhs_ix) is
        (if symbol.is_nulling then suffix else if symbol.is_nullable then suffix else rhs_ix + 1) in
    if symbol.is_nulling
    then rest
    else if symbol.is_nullable
    then (rhs_ix ∷ rest.0, rest.1)
    else rest

-- What the sections about one rule share: the symbols' names, the rule and its identifier, and
-- `nullable_suffix_ix`.
pub record Chaf : Type 0 where
  pub names : Names
  pub rule_id : ℕ
  pub rule : Xrl
  pub nullable_suffix_ix : ℕ

module _ (c : Chaf) where
  -- The loops that copy a part of the right side: positions `from` up to, but not, `to`.
  abbrev pub part : ℕ → ℕ → List ℕ
  part from to = take (to - from) (drop from c.rule.rhs)

  abbrev pub names_in : ℕ → ℕ → List ℕ
  names_in from to = map c.names.nsyid (part from to)

  abbrev pub nulls_in : ℕ → ℕ → List ℕ
  nulls_in from to = map c.names.nulling_nsyid (part from to)

  abbrev pub null_at : ℕ → List ℕ
  null_at ix = c.names.nulling_nsyid (get_or c.rule.rhs ix 0) ∷ []

  -- `irl_start` and the settings that follow the loops.
  unfoldable pub chaf_irl : ℕ → ℕ → ℕ → ℕ → List ℕ → Irl
  unfolding irl_chaf_rank
  chaf_irl current_lhs_nsyid piece_start real_symbol_count chaf_rank rhs = record {
    lhs = current_lhs_nsyid;
    rhs = rhs;
    source_xrl = some c.rule_id;
    rank = irl_chaf_rank c.rule chaf_rank;
    has_virtual_lhs = ltb 0 piece_start;
    has_virtual_rhs = ltb real_symbol_count (length rhs);
    is_chaf = true;
    virtual_start = pos piece_start;
    virtual_end = sub_ℕ (piece_start + real_symbol_count) 1;
    real_symbol_count = real_symbol_count;
  }

  -- The four sections for a piece before a virtual symbol, where all from the second factor on is
  -- nullable.
  unfoldable pub nullable_tail_piece : ℕ → ℕ → ℕ → ℕ → ℕ → List Irl
  unfolding chaf_irl
  nullable_tail_piece lhs piece_start virtual_nsyid first second =
      let end = length c.rule.rhs in
      let piece_end = second - 1 in
      let real_symbol_count = piece_end + 1 - piece_start in
      let virtual = virtual_nsyid ∷ [] in
      let irl = chaf_irl lhs piece_start in
      irl real_symbol_count 3 (names_in piece_start (piece_end + 1) ++ virtual)
      ∷ irl (end - piece_start) 2 (names_in piece_start second ++ nulls_in second end)
      ∷ irl real_symbol_count 1 (
          names_in piece_start first
          ++ (null_at first ++ (names_in (first + 1) (piece_end + 1) ++ virtual)))
      ∷ (if ltb piece_start c.nullable_suffix_ix
          then irl (end - piece_start) 0 (
              names_in piece_start first
              ++ (null_at first ++ (names_in (first + 1) second ++ nulls_in second end)))
            ∷ []
          else [])

  -- The four sections for a piece with two factors before a virtual symbol.
  unfoldable pub inner_piece : ℕ → ℕ → ℕ → ℕ → ℕ → List Irl
  unfolding chaf_irl
  inner_piece lhs piece_start virtual_nsyid first second =
      let piece_end = second in
      let real_symbol_count = piece_end + 1 - piece_start in
      let virtual = virtual_nsyid ∷ [] in
      let irl = chaf_irl lhs piece_start real_symbol_count in
      irl 3 (names_in piece_start (piece_end + 1) ++ virtual)
      ∷ irl 2 (
          names_in piece_start second
          ++ (null_at second ++ (names_in (second + 1) (piece_end + 1) ++ virtual)))
      ∷ irl 1 (
          names_in piece_start first
          ++ (null_at first ++ (names_in (first + 1) (piece_end + 1) ++ virtual)))
      ∷ irl 0 (
          names_in piece_start first
          ++ (null_at first
              ++ (names_in (first + 1) second
                  ++ (null_at second ++ (names_in (second + 1) (piece_end + 1) ++ virtual)))))
      ∷ []

  -- The last piece, with two factors.
  unfoldable pub last_two_piece : ℕ → ℕ → ℕ → ℕ → List Irl
  unfolding chaf_irl
  last_two_piece lhs piece_start first second =
      let end = length c.rule.rhs in
      let irl = chaf_irl lhs piece_start (end - piece_start) in
      irl 3 (names_in piece_start end)
      ∷ irl 2 (names_in piece_start second ++ (null_at second ++ names_in (second + 1) end))
      ∷ irl 1 (names_in piece_start first ++ (null_at first ++ names_in (first + 1) end))
      ∷ (if ltb piece_start c.nullable_suffix_ix
          then irl 0 (
              names_in piece_start first
              ++ (null_at first
                  ++ (names_in (first + 1) second
                      ++ (null_at second ++ names_in (second + 1) end))))
            ∷ []
          else [])

  -- The last piece, with one factor.
  unfoldable pub last_one_piece : ℕ → ℕ → ℕ → List Irl
  unfolding chaf_irl
  last_one_piece lhs piece_start first =
      let end = length c.rule.rhs in
      let irl = chaf_irl lhs piece_start (end - piece_start) in
      irl 3 (names_in piece_start end)
      ∷ (if ltb piece_start c.nullable_suffix_ix
          then irl 0 (names_in piece_start first ++ (null_at first ++ names_in (first + 1) end))
            ∷ []
          else [])

  -- Add the rules one by one; each time the left side is told its rule and the piece's start.
  unfoldable pub add_chaf_irls : ℕ → List Irl → Rewriting → Rewriting
  unfolding add_irl
  add_chaf_irls piece_start [] s = s
  add_chaf_irls piece_start (irl ∷ irls) s =
      let s1 = add_irl irl s in
      add_chaf_irls piece_start irls (record s1 {
        nsys =
            modify s1.nsys irl.lhs
              (λ n. record n { lhs_xrl = some c.rule_id; xrl_offset = pos piece_start });
      })

  -- The loop over the factors and the last piece. The last argument but one is the left side of
  -- the next piece. The code enters with a factor, and each round leaves one.
  unfoldable pub chaf_pieces : List Xsy → List ℕ → ℕ → ℕ → Rewriting → Rewriting
  unfolding nullable_tail_piece inner_piece last_two_piece last_one_piece add_chaf_irls nsy_new
  chaf_pieces xsys [] piece_start lhs s = s
  chaf_pieces xsys (first ∷ []) piece_start lhs s =
      add_chaf_irls piece_start (last_one_piece lhs piece_start first) s
  chaf_pieces xsys (first ∷ second ∷ []) piece_start lhs s =
      add_chaf_irls piece_start (last_two_piece lhs piece_start first second) s
  chaf_pieces xsys (first ∷ second ∷ third ∷ factors) piece_start lhs s =
      let virtual_nsyid = length s.nsys in
      let s1 = nsy_new xsys c.rule.lhs s in
      elim (leb c.nullable_suffix_ix second) [
        | true ↦ chaf_pieces xsys (second ∷ third ∷ factors) second virtual_nsyid (
            add_chaf_irls piece_start
              (nullable_tail_piece lhs piece_start virtual_nsyid first second) s1)
        | false ↦
            chaf_pieces xsys (third ∷ factors) (second + 1) virtual_nsyid (
              add_chaf_irls piece_start (inner_piece lhs piece_start virtual_nsyid first second) s1)
      ]
