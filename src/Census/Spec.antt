-- ===== src/Census/Spec.antt =====
-- What the census should find, by rules of inference over the grammar.
use marpa_r.Prelude.{ℕ, ◌<◌, ◌≡◌, ◌↔◌, ◌⊎◌, Bool, true, false, not, ◌||◌, List, [], map, length}
use marpa_r.Grammar.{Xsy, Xrl, Event, counted_nullable, unproductive_start, nulling_terminal}
use marpa_r.Closure.Derived.{Derived, given, by_rule, rule_at}
use marpa_r.Closure.Rules.{IsNamed, needs-mentions}
use marpa_r.Census.{Outcome, counted, failed, classify_rule}
use marpa_r.Census.Indexing.{is_left, makes_empty}
use marpa_r.Census.Flags.{symbol_at}
use marpa_r.Census.Terminals.{terminal_status, terminal_mark}
use marpa_r.Census.Reach.{Leads}

-- Symbols that match nothing: the left sides of empty rules, and what follows from them.
abbrev pub Nullable : List Xrl → ℕ → Type 0
Nullable xrls = Derived xrls (makes_empty xrls)

module _ (start : ℕ) (xsys : List Xsy) (xrls : List Xrl) where
  -- The symbols of `terminal_v`, and those with the terminal flag.
  abbrev pub counts_terminal : ℕ → Bool
  counts_terminal i = terminal_status (symbol_at xsys i) (not (is_left xrls i))

  abbrev pub flags_terminal : ℕ → Bool
  flags_terminal i = (terminal_mark (symbol_at xsys i) (not (is_left xrls i))).is_terminal

  -- Symbols that derive a string of terminals.
  abbrev pub Productive : ℕ → Type 0
  Productive = Derived xrls (λ i. makes_empty xrls i || counts_terminal i)

  abbrev pub Accessible : ℕ → Type 0
  Accessible i = (start ≡ i) ⊎ Leads xrls start i

  -- Left sides that lead to no terminal.
  abbrev pub Nulling : ℕ → Type 0
  Nulling i =
      (is_left xrls i ≡ true)
      × ((j : ℕ) → j < length xsys → Leads xrls i j → counts_terminal j ≡ false)

  -- The flags of the symbols at the end. A flag that was set before stays set.
  pub record Flagged (out : List Xsy) : Type 0 where
    pub count : length out ≡ length xsys
    pub terminal : (i : ℕ) → i < length xsys → (symbol_at out i).is_terminal ≡ flags_terminal i
    pub nullable :
        (i : ℕ)
        → i < length xsys
        → ((symbol_at out i).is_nullable ≡ true)
          ↔ (Nullable xrls i ⊎ ((symbol_at xsys i).is_nullable ≡ true))
    pub productive :
        (i : ℕ)
        → i < length xsys
        → ((symbol_at out i).is_productive ≡ true)
          ↔ (Productive i ⊎ ((symbol_at xsys i).is_productive ≡ true))
    pub accessible :
        (i : ℕ)
        → i < length xsys
        → ((symbol_at out i).is_accessible ≡ true)
          ↔ (Accessible i ⊎ ((symbol_at xsys i).is_accessible ≡ true))
    pub nulling :
        (i : ℕ)
        → i < length xsys
        → ((symbol_at out i).is_nulling ≡ true)
          ↔ (Nulling i ⊎ ((symbol_at xsys i).is_nulling ≡ true))

  abbrev pub NoneCounted : Type 0
  NoneCounted = (i : ℕ) → i < length xsys → Nullable xrls i → (symbol_at xsys i).is_counted ≡ false

  -- The outcomes, each with the condition that it has.
  pub data Settles : Outcome → Type 0 where
    fails_counted :
        (out : List Xsy) (events : List Event) (i : ℕ)
        → i < length xsys
        → Nullable xrls i
        → (symbol_at xsys i).is_counted ≡ true
        → Settles (failed counted_nullable out events)
    fails_start :
        (out : List Xsy)
        → NoneCounted
        → ¬ Productive start
        → Settles (failed unproductive_start out [])
    fails_nulling :
        (out : List Xsy) (events : List Event) (i : ℕ)
        → NoneCounted
        → Productive start
        → i < length xsys
        → Nulling i
        → flags_terminal i ≡ true
        → Settles (failed nulling_terminal out events)
    counts :
        (out : List Xsy)
        → NoneCounted
        → Productive start
        → ((i : ℕ) → i < length xsys → Nulling i → flags_terminal i ≡ false)
        → Flagged out
        → Settles (counted out (map (classify_rule out) xrls))

-- From another base, if that one derives the first, on the symbols of the grammar.
pub Derived-change :
    (n : ℕ) (xrls : List Xrl) (base base' : ℕ → Bool)
    → IsNamed n xrls
    → ((i : ℕ) → i < n → base i ≡ true → Derived xrls base' i)
    → {i : ℕ} → i < n
    → Derived xrls base i
    → Derived xrls base' i
Derived-change n xrls base base' named h l (given {i} e) = h i l e
Derived-change n xrls base base' named h l (by_rule r p q ds) = by_rule r p q (λ s m.
    Derived-change n xrls base base' named h (named.rhs r s p (needs-mentions (rule_at xrls r) s m))
      (ds s m))
