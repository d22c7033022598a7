-- ===== src/Rewrite/Tests.antt =====
-- Runs of the rewrite, and the theorems applied to them.
use marpa_r.Prelude.{
  ℕ, ◌≡◌, refl, ◌↔◌, true, false, List, [], ◌∷◌, map, pos, negsuc, leb, not, ltb_ℤ, ◌≤ℤ◌, arith,
}
use marpa_r.Grammar.{Xsy, Xrl, blank_xsy, blank_xrl}
use marpa_r.Rewrite.{Irl, names_of, clone_symbols, scaled_rank}
use marpa_r.Rewrite.{irl_chaf_rank}
use marpa_r.Rewrite.Chaf.{scan_factors}
use marpa_r.Rewrite.Rules.{rewrite, separator_names}
use marpa_r.Rewrite.Expansion.{Expands}
use marpa_r.Rewrite.Sequences.{Repeats, IsSequence}
use marpa_r.Rewrite.Language.{Written}
use marpa_r.Rewrite.Clones.{Slot}
use marpa_r.Rewrite.Clones.Loop.{fresh}
use marpa_r.Rewrite.Variants.{has_solid}
use marpa_r.Rewrite.Factors.{suffix_lem}
use marpa_r.Rewrite.Ranks.{scaled_rank_lem, irl_chaf_rank_lem}
use marpa_r.Rewrite.Whole.{rewrite_lem, rewrite-Repeats, clone_symbols-Slot}

abbrev plain : Xsy
plain = record blank_xsy { is_accessible = true; is_productive = true }

abbrev nullable_one : Xsy
nullable_one = record plain { is_nullable = true }

-- Symbols 0 and 1 are plain, 2 is nullable, 3 is nulling, 4 cannot be reached, 5 is a
-- list.
abbrev symbols : List Xsy
symbols =
    plain
    ∷ plain
    ∷ nullable_one
    ∷ record nullable_one { is_nulling = true }
    ∷ blank_xsy
    ∷ plain
    ∷ []

abbrev pieces : Xrl
pieces = record (blank_xrl 0 (2 ∷ 1 ∷ 2 ∷ 2 ∷ 3 ∷ [])) { lhs = 0; is_used = true }

abbrev list_rule : Xrl
list_rule = record (blank_xrl 5 (1 ∷ [])) {
  lhs = 5;
  is_used = true;
  is_sequence = true;
  separator = pos 2;
  minimum = pos 2;
}

abbrev rules : List Xrl
rules = pieces ∷ list_rule ∷ []

abbrev sides : List Irl → List (ℕ × List ℕ)
sides irls = map (λ i. (i.lhs, i.rhs)) irls

sides-pieces :
    sides (rewrite symbols (pieces ∷ []) 0 (pos 0)).irls
    ≡ (0, 2 ∷ 1 ∷ 6 ∷ [])
      ∷ (0, 2 ∷ 1 ∷ 3 ∷ 3 ∷ 4 ∷ [])
      ∷ (0, 3 ∷ 1 ∷ 6 ∷ [])
      ∷ (0, 3 ∷ 1 ∷ 3 ∷ 3 ∷ 4 ∷ [])
      ∷ (6, 2 ∷ 2 ∷ 4 ∷ [])
      ∷ (6, 2 ∷ 3 ∷ 4 ∷ [])
      ∷ (6, 3 ∷ 2 ∷ 4 ∷ [])
      ∷ (7, 0 ∷ [])
      ∷ []
unfolding rewrite
sides-pieces = refl

sides-list_rule :
    sides (rewrite symbols (list_rule ∷ []) 5 (pos 0)).irls
    ≡ (5, 6 ∷ []) ∷ (5, 6 ∷ 2 ∷ []) ∷ (6, 1 ∷ []) ∷ (6, 6 ∷ 2 ∷ 1 ∷ []) ∷ (7, 5 ∷ []) ∷ []
unfolding rewrite
sides-list_rule = refl

rewrite_lem_example :
    Expands
      (rewrite symbols rules 0 (pos 0)).irls
      0
      ((names_of (rewrite symbols rules 0 (pos 0))).nsyid 0)
      (2 ∷ 1 ∷ 3 ∷ 2 ∷ 4 ∷ [])
    ↔ Written symbols
        (names_of (rewrite symbols rules 0 (pos 0)))
        (2 ∷ 1 ∷ 2 ∷ 2 ∷ 3 ∷ [])
        (2 ∷ 1 ∷ 3 ∷ 2 ∷ 4 ∷ [])
rewrite_lem_example =
    rewrite_lem symbols rules 0 (pos 0) 0 pieces (2 ∷ 1 ∷ 3 ∷ 2 ∷ 4 ∷ []) refl refl refl
      (omega arith) refl refl

rewrite-Repeats_example :
    Repeats
      (rewrite symbols rules 0 (pos 0)).irls
      1
      ((names_of (rewrite symbols rules 0 (pos 0))).nsyid 5)
      (1 ∷ [])
    ↔ IsSequence false
        ((names_of (rewrite symbols rules 0 (pos 0))).nsyid 1)
        (separator_names (names_of (rewrite symbols rules 0 (pos 0))) (pos 2))
        (1 ∷ [])
rewrite-Repeats_example =
    rewrite-Repeats symbols rules 0 (pos 0) 1 list_rule (1 ∷ []) refl refl refl (omega arith) refl
      refl

clone_symbols-Slot_example : Slot symbols (clone_symbols symbols 6 0 (fresh 6)) 2
clone_symbols-Slot_example = clone_symbols-Slot symbols 2 (omega arith)

suffix_lem_example :
    leb (scan_factors symbols 0 (2 ∷ 1 ∷ 2 ∷ 2 ∷ 3 ∷ []) 0).1 2
    ≡ not (has_solid symbols (2 ∷ 2 ∷ 3 ∷ []))
suffix_lem_example =
    suffix_lem symbols (2 ∷ 1 ∷ 2 ∷ 2 ∷ 3 ∷ []) 2 (2 ∷ 2 ∷ 3 ∷ [])
      (record { before = 2 ∷ 1 ∷ []; whole = refl; at_place = refl })

scaled_rank_lem_example : ltb_ℤ (scaled_rank (negsuc 0) 3) (scaled_rank (pos 0) 1) ≡ true
scaled_rank_lem_example = scaled_rank_lem (negsuc 0) (pos 0) 3 1 (omega arith) (omega arith)

irl_chaf_rank_lem_example :
    (negsuc 2147483647 ≤ℤ irl_chaf_rank pieces 2) × (irl_chaf_rank pieces 2 ≤ℤ pos 2147483647)
irl_chaf_rank_lem_example = irl_chaf_rank_lem pieces 2 (omega arith) (omega arith) (omega arith)
