-- ===== src/Rewrite.antt =====
-- The rewrite of the rules to internal rules in marpa_g_precompute, of
-- cpan/engine/read_only/marpa.c: the internal symbols (NSY) and rules (IRL), the rewrite of the
-- sequence rules, of the rules with nullable symbols (CHAF) and of the others.
pub mod Chaf
pub mod Rules
pub mod Slices
pub mod Variants
pub mod Factors
pub mod Expansion
pub mod Turns
pub mod Shapes
pub mod Pieces
pub mod Added
pub mod Sources
pub mod Language
pub mod Clones
pub mod Sequences
pub mod Ranks
pub mod Start
pub mod Whole
mod Tests
use marpa_r.Prelude.{
  ℕ, zero, suc, ◌+◌, ◌-◌, ◌*◌, ◌<◌, Bool, true, false, ◌&&◌, ◌||◌, not, List, [], ◌∷◌, ◌++◌, map,
  Option, none, some, length, get_or, modify, ℤ, pos, negsuc, sub_ℕ, ltb, leb, if◌then◌else◌,
}
use marpa_r.Grammar.{Xsy, Xrl, blank_xsy}

-- `struct s_nsy`; the identifier is the place among the internal symbols. The external symbol and
-- rule are pointers, `none` for NULL. The list of its rules and its or-nodes, which nothing in
-- the rewrite reads, are left out.
pub record Nsy : Type 0 where
  pub is_lhs : Bool
  pub is_start : Bool
  pub is_nulling : Bool
  pub is_semantic : Bool
  pub source_xsy : Option ℕ
  pub lhs_xrl : Option ℕ
  pub xrl_offset : ℤ
  pub rank : ℤ

-- `struct s_irl`; the identifier is the place among the internal rules, and the length that of the
-- right side. The fields that the states use (AHMs, symbol instances, right recursion) are left out.
pub record Irl : Type 0 where
  pub lhs : ℕ
  pub rhs : List ℕ
  pub source_xrl : Option ℕ
  pub rank : ℤ
  pub has_virtual_lhs : Bool
  pub has_virtual_rhs : Bool
  pub is_chaf : Bool
  pub virtual_start : ℤ
  pub virtual_end : ℤ
  pub real_symbol_count : ℕ

-- The stacks of internal symbols and rules, the pointers NSY_of_XSY and Nulling_NSY_of_XSY by the
-- external symbol, and `t_start_irl`.
pub record Rewriting : Type 0 where
  pub nsys : List Nsy
  pub irls : List Irl
  pub nsy_of_xsy : List (Option ℕ)
  pub nulling_nsy_of_xsy : List (Option ℕ)
  pub start_irl : Option ℕ

-- `rank*EXTERNAL_RANK_FACTOR+chaf_rank`.
unfoldable pub scaled_rank : ℤ → ℕ → ℤ
scaled_rank (pos n) chaf_rank = pos (4 * n + chaf_rank)
scaled_rank (negsuc n) chaf_rank = sub_ℕ chaf_rank (4 * n + 4)

unfoldable pub irl_chaf_rank : Xrl → ℕ → ℤ
unfolding scaled_rank
irl_chaf_rank xrl chaf_rank =
    scaled_rank xrl.rank (if xrl.null_ranks_high then 3 - chaf_rank else chaf_rank)

unfoldable pub irl_rank : Xrl → ℤ
unfolding irl_chaf_rank
irl_rank xrl = irl_chaf_rank xrl 3

-- `nsy_start` and the rank and source that all its callers set.
unfoldable pub nsy_new : List Xsy → ℕ → Rewriting → Rewriting
unfolding scaled_rank
nsy_new xsys xsyid s = record s {
  nsys =
      s.nsys
      ++ record {
        is_lhs = false;
        is_start = false;
        is_nulling = false;
        is_semantic = false;
        source_xsy = some xsyid;
        lhs_xrl = none;
        xrl_offset = negsuc 0;
        rank = scaled_rank (get_or xsys xsyid blank_xsy).rank 3;
      }
        ∷ [];
}

-- Set fields of the internal symbol that was made last.
unfoldable pub last_nsy : (Nsy → Nsy) → Rewriting → Rewriting
last_nsy f s = record s { nsys = modify s.nsys (length s.nsys - 1) f }

unfoldable pub nsy_clone : List Xsy → ℕ → Rewriting → Rewriting
unfolding nsy_new last_nsy
nsy_clone xsys xsyid s =
    last_nsy
      (λ n. record n { is_semantic = true; is_nulling = (get_or xsys xsyid blank_xsy).is_nulling })
      (nsy_new xsys xsyid s)

-- The flags that it sets on the symbol are as it found them.
unfoldable pub symbol_alias_create : List Xsy → ℕ → Rewriting → Rewriting
unfolding nsy_new last_nsy
symbol_alias_create xsys xsyid s =
    last_nsy (λ n. record n { is_semantic = true; is_nulling = true }) (nsy_new xsys xsyid s)

-- The body of the loop that clones the symbols.
unfoldable pub clone_symbol : List Xsy → ℕ → Rewriting → Rewriting
unfolding nsy_clone symbol_alias_create
clone_symbol xsys xsyid s =
    let xsy_to_clone = get_or xsys xsyid blank_xsy in
    if not xsy_to_clone.is_accessible
    then s
    else if not xsy_to_clone.is_productive
    then s
    else let nsyid = length s.nsys in
      let s1 : Rewriting = record (nsy_clone xsys xsyid s) {
        nsy_of_xsy = modify s.nsy_of_xsy xsyid (λ _. some nsyid);
      } in
      let null_to = λ (n : ℕ). modify s.nulling_nsy_of_xsy xsyid (λ _. some n) in
      if xsy_to_clone.is_nulling
      then record s1 { nulling_nsy_of_xsy = null_to nsyid }
      else if xsy_to_clone.is_nullable
      then record (symbol_alias_create xsys xsyid s1) {
        nulling_nsy_of_xsy = null_to (length s1.nsys);
      }
      else s1

-- The loop, with `n` symbols left.
unfoldable pub clone_symbols : List Xsy → ℕ → ℕ → Rewriting → Rewriting
unfolding clone_symbol
clone_symbols xsys zero xsyid s = s
clone_symbols xsys (suc n) xsyid s = clone_symbols xsys n (suc xsyid) (clone_symbol xsys xsyid s)

-- NSYID_by_XSYID and Nulling_NSYID_by_XSYID. The code does not test for NULL, which is read as 0
-- here.
pub record Names : Type 0 where
  pub nsyid : ℕ → ℕ
  pub nulling_nsyid : ℕ → ℕ

abbrev pub pointed : Option ℕ → ℕ
pointed none = 0
pointed (some n) = n

abbrev pub names_of : Rewriting → Names
names_of s = record {
  nsyid = λ i. pointed (get_or s.nsy_of_xsy i none);
  nulling_nsyid = λ i. pointed (get_or s.nulling_nsy_of_xsy i none);
}

-- A rule between `irl_start` and the setting of its fields, pushed; `irl_finish`.
unfoldable pub add_irl : Irl → Rewriting → Rewriting
add_irl irl s = record s {
  irls = s.irls ++ irl ∷ [];
  nsys = modify s.nsys irl.lhs (λ n. record n { is_lhs = true });
}
