-- ===== src/Alternatives.antt =====
-- The token alternatives of a recognizer (`t_alternatives`) of cpan/engine/read_only/marpa.c: a
-- stack in the order of `alternative_cmp`, the earliest end on top. Its base comes first here.
pub mod Search
pub mod Insert
pub mod Pop
pub mod Tests
use marpa_r.Prelude.{
  ℕ, zero, suc, ◌+◌, ◌-◌, ◌/◌, Bool, List, [], ◌∷◌, ◌++◌, Option, none, some, length, get_or,
  modify, ℤ, pos, negsuc, pos_part, is_negative, sub_ℕ, ltb, leb, ltb_ℤ, eqb_ℤ, ◌==◌, not,
  if◌then◌else◌,
}

-- `t_start_earley_set` by its earleme, which tells the Earley sets apart.
pub record Alternative : Type 0 where
  pub start_earleme : ℕ
  pub end_earleme : ℕ
  pub nsyid : ℕ
  pub value : ℤ
  pub is_valued : Bool

-- An entry that is pushed and not yet written, and one read past the end.
abbrev pub blank_alternative : Alternative
blank_alternative = record {
  start_earleme = 0;
  end_earleme = 0;
  nsyid = 0;
  value = pos 0;
  is_valued = Bool.false;
}

unfoldable pub alternative_cmp : Alternative → Alternative → ℤ
alternative_cmp a b =
    if not (b.end_earleme == a.end_earleme)
    then sub_ℕ b.end_earleme a.end_earleme
    else if not (a.nsyid == b.nsyid)
    then sub_ℕ a.nsyid b.nsyid
    else sub_ℕ a.start_earleme b.start_earleme

-- The loop of `alternative_insertion_point`, with `past` for `hi + 1`. The first argument bounds
-- the rounds; `past - lo` of them are enough.
unfoldable pub insertion_loop : ℕ → List Alternative → Alternative → ℕ → ℕ → ℤ
unfolding alternative_cmp
insertion_loop zero alternatives new lo past = negsuc 0
insertion_loop (suc n) alternatives new lo past =
    let trial = lo + (past - 1 - lo) / 2 in
    let outcome = alternative_cmp new (get_or alternatives trial blank_alternative) in
    let up = ltb_ℤ (pos 0) outcome in
    let lo' = if up then trial + 1 else lo in
    let past' = if up then past else trial in
    let rest = insertion_loop n alternatives new lo' past' in
    if eqb_ℤ outcome (pos 0)
    then negsuc 0
    else if leb past' lo'
    then pos (if up then trial + 1 else trial)
    else rest

unfoldable pub alternative_insertion_point : List Alternative → Alternative → ℤ
unfolding insertion_loop
alternative_insertion_point alternatives new =
    let n = length alternatives in if n == 0 then pos 0 else insertion_loop n alternatives new 0 n

-- The loop of `alternative_insert` that moves entries up by one, from `ix` with `n` to move.
unfoldable pub move_up : ℕ → ℕ → List Alternative → List Alternative
move_up zero ix base = base
move_up (suc n) ix base =
    move_up n (ix - 1) (modify base ix (λ _. get_or base (ix - 1) blank_alternative))

-- The stack afterwards, and the insertion point or -1.
unfoldable pub alternative_insert : List Alternative → Alternative → List Alternative × ℤ
unfolding alternative_insertion_point move_up
alternative_insert alternatives new =
    let insertion_point = alternative_insertion_point alternatives new in
    if is_negative insertion_point
    then (alternatives, insertion_point)
    else let ix = length alternatives in
      let pushed = alternatives ++ blank_alternative ∷ [] in
      let moved = move_up (ix - pos_part insertion_point) ix pushed in
      (modify moved (pos_part insertion_point) (λ _. new), insertion_point)

-- All entries but the top one.
unfoldable pub below_top : List Alternative → List Alternative
below_top [] = []
below_top (a ∷ []) = []
below_top (a ∷ b ∷ bs) = a ∷ below_top (b ∷ bs)

-- The stack afterwards, and the alternative that is popped, if one ends by `earleme`.
unfoldable pub alternative_pop : List Alternative → ℕ → List Alternative × Option Alternative
unfolding below_top
alternative_pop [] earleme = ([], none)
alternative_pop (a ∷ rest) earleme =
    let top = get_or (a ∷ rest) (length rest) blank_alternative in
    if ltb earleme top.end_earleme then (a ∷ rest, none) else (below_top (a ∷ rest), some top)
