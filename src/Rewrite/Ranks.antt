-- ===== src/Rewrite/Ranks.antt =====
-- The ranks of the internal rules.
use marpa_r.Prelude.{
  ℕ, ◌-◌, ◌≤◌, ◌≤ℤ◌, if◌then◌else◌, ◌≡◌, ◌&&◌, ◌||◌, ltb, ℤ, pos, negsuc, ltb_ℤ, eqb_ℤ, arith,
}
use marpa_r.Grammar.{Xrl, minimum_rank, maximum_rank}
use marpa_r.Rewrite.{scaled_rank, irl_chaf_rank}

-- For variant numbers up to 3, the scaled ranks are ordered by the ranks that are scaled, and
-- within one rank by the variant numbers.
pub scaled_rank_lem :
    (a b : ℤ) (j k : ℕ)
    → j ≤ 3
    → k ≤ 3
    → ltb_ℤ (scaled_rank a j) (scaled_rank b k) ≡ (ltb_ℤ a b || (eqb_ℤ a b && ltb j k))
unfolding scaled_rank
scaled_rank_lem (pos m) (pos n) j k h i = ground (arith, h, i)
scaled_rank_lem (pos m) (negsuc n) j k h i = ground (arith, h, i)
scaled_rank_lem (negsuc m) (pos n) j k h i = ground (arith, h, i)
scaled_rank_lem (negsuc m) (negsuc n) j k h i = ground (arith, h, i)

scaled_lem :
    (r : ℤ) (j : ℕ)
    → minimum_rank ≤ℤ r
    → r ≤ℤ maximum_rank
    → j ≤ 3
    → (negsuc 2147483647 ≤ℤ scaled_rank r j) × (scaled_rank r j ≤ℤ pos 2147483647)
unfolding scaled_rank
scaled_lem (pos n) j l h i = (omega (arith, l, h, i), omega (arith, l, h, i))
scaled_lem (negsuc n) j l h i = (ground (arith, l, h, i), ground (arith, l, h, i))

-- For a rule whose rank is between MINIMUM_RANK and MAXIMUM_RANK and a variant number up to 3,
-- the scaled rank of the internal rule is in the range of a 32-bit int.
pub irl_chaf_rank_lem :
    (rule : Xrl) (chaf_rank : ℕ)
    → minimum_rank ≤ℤ rule.rank
    → rule.rank ≤ℤ maximum_rank
    → chaf_rank ≤ 3
    → (negsuc 2147483647 ≤ℤ irl_chaf_rank rule chaf_rank)
      × (irl_chaf_rank rule chaf_rank ≤ℤ pos 2147483647)
unfolding irl_chaf_rank
irl_chaf_rank_lem rule chaf_rank l h i =
    scaled_lem rule.rank (if rule.null_ranks_high then 3 - chaf_rank else chaf_rank) l h
      (ground (arith, i))
