-- ===== src/Postdot.antt =====
-- The search for a postdot symbol of an Earley set, of cpan/engine/read_only/marpa.c. The array
-- `t_postdot_ary` is the list of the symbols of its entries, which come in ascending order.
pub mod Search
pub mod Tests
use marpa_r.Prelude.{
  ℕ, zero, suc, ◌+◌, ◌-◌, ◌/◌, List, Option, none, some, length, get_or, ltb, leb, ◌==◌,
  if◌then◌else◌,
}

-- The loop of `pim_nsy_p_find`, with `past` for `hi + 1`. The first argument bounds the rounds;
-- `past - lo` of them are enough.
unfoldable pub find_loop : ℕ → List ℕ → ℕ → ℕ → ℕ → Option ℕ
find_loop zero postdot nsyid lo past = none
find_loop (suc n) postdot nsyid lo past =
    let trial = lo + (past - 1 - lo) / 2 in
    let trial_nsyid = get_or postdot trial 0 in
    let up = ltb trial_nsyid nsyid in
    let rest =
      find_loop n postdot nsyid (if up then trial + 1 else lo) (if up then past else trial) in
    if leb past lo then none else if trial_nsyid == nsyid then some trial else rest

-- The place of the entry in the array; `none` is NULL.
unfoldable pub pim_nsy_p_find : List ℕ → ℕ → Option ℕ
unfolding find_loop
pim_nsy_p_find postdot nsyid = find_loop (length postdot) postdot nsyid 0 (length postdot)
