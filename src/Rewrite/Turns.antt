-- ===== src/Rewrite/Turns.antt =====
-- The turns of the four kinds of piece of a rule. In a piece `a` and `b` stand before and between the
-- factors `x` and `y`.
pub mod One
pub mod Two
use marpa_r.Prelude.{ℕ, Bool, true, false, List, [], ◌∷◌, ◌++◌, map, if◌then◌else◌}
use marpa_r.Rewrite.{Names}
use marpa_r.Rewrite.Expansion.{Turn, ends, goes}

abbrev pub optional : Bool → Turn → List Turn
optional true t = t ∷ []
optional false t = []

module _ (names : Names) where
  abbrev pub last_one_turns : List ℕ → ℕ → List ℕ → Bool → List Turn
  last_one_turns a x b c =
      ends (map names.nsyid a ++ names.nsyid x ∷ map names.nsyid b)
      ∷ optional c (ends (map names.nsyid a ++ names.nulling_nsyid x ∷ map names.nsyid b))

  -- The rest `d` of the piece goes to the virtual symbol, or to the nulling names.
  abbrev pub tail_turns : List ℕ → ℕ → List ℕ → List ℕ → ℕ → Bool → List Turn
  tail_turns a x b d v c =
      goes (map names.nsyid a ++ names.nsyid x ∷ map names.nsyid b) v
      ∷ ends (map names.nsyid a ++ names.nsyid x ∷ (map names.nsyid b ++ map names.nulling_nsyid d))
      ∷ goes (map names.nsyid a ++ names.nulling_nsyid x ∷ map names.nsyid b) v
      ∷ optional c (
          ends (
            map names.nsyid a
            ++ names.nulling_nsyid x ∷ (map names.nsyid b ++ map names.nulling_nsyid d)))

  -- Two factors before a rest: one turn for each choice, for the word `w` behind them.
  abbrev pub two_words : List ℕ → ℕ → List ℕ → ℕ → Bool → Bool → List ℕ → List ℕ
  two_words a x b y s t w =
      map names.nsyid a
      ++ (if s then names.nsyid x else names.nulling_nsyid x)
        ∷ (map names.nsyid b ++ (if t then names.nsyid y else names.nulling_nsyid y) ∷ w)

  abbrev pub inner_turns : List ℕ → ℕ → List ℕ → ℕ → ℕ → List Turn
  inner_turns a x b y v =
      goes (two_words a x b y true true []) v
      ∷ goes (two_words a x b y true false []) v
      ∷ goes (two_words a x b y false true []) v
      ∷ goes (two_words a x b y false false []) v
      ∷ []

  abbrev pub last_two_turns : List ℕ → ℕ → List ℕ → ℕ → List ℕ → Bool → List Turn
  last_two_turns a x b y r c =
      let w = map names.nsyid r in
      ends (two_words a x b y true true w)
      ∷ ends (two_words a x b y true false w)
      ∷ ends (two_words a x b y false true w)
      ∷ optional c (ends (two_words a x b y false false w))
