-- ===== src/Census/Flags.antt =====
-- What the loops that mark symbols change, and the events that they make.
use marpa_r.Prelude.{
  ℕ, zero, suc, ◌<◌, ◌≡◌, refl, ap, ◌∙◌, sym, Bool, true, false, ◌&&◌, ◌||◌, List, [], ◌∷◌, ◌++◌,
  length, length-modify, get_or, modify, has, pos, ◌==◌, inl, inr, arith, if◌then◌else◌, Bool-cases,
}
use native.Mathlib.Decide.{ℕ_discrete}
use marpa_r.BitVector.{BitVector, bv_and, bv_shadow, bv_is_empty}
use marpa_r.Matrix.{Matrix, matrix_row}
use marpa_r.Grammar.{Xsy, Event, blank_xsy}
use marpa_r.Census.{
  mark_symbols, mark_nullable, mark_nulling, event_counted_nullable, event_nulling_terminal,
}

abbrev pub symbol_at : List Xsy → ℕ → Xsy
symbol_at xsys i = get_or xsys i blank_xsy

pub modify_same :
    (p : Xsy → Bool) (f : Xsy → Xsy) (xsys : List Xsy) (k i : ℕ)
    → ((x : Xsy) → p (f x) ≡ p x)
    → p (symbol_at (modify xsys k f) i) ≡ p (symbol_at xsys i)
modify_same p f [] k i h = refl
modify_same p f (x ∷ xs) zero zero h = h x
modify_same p f (x ∷ xs) zero (suc i) h = refl
modify_same p f (x ∷ xs) (suc k) zero h = refl
modify_same p f (x ∷ xs) (suc k) (suc i) h = modify_same p f xs k i h

pub modify_flag :
    (p : Xsy → Bool) (f : Xsy → Xsy) (xsys : List Xsy) (k i : ℕ)
    → ((x : Xsy) → p (f x) ≡ true)
    → i < length xsys
    → p (symbol_at (modify xsys k f) i) ≡ (k == i || p (symbol_at xsys i))
modify_flag p f [] k i h l = absurd (omega arith)
modify_flag p f (x ∷ xs) zero zero h l = h x
modify_flag p f (x ∷ xs) zero (suc i) h l = ground arith
modify_flag p f (x ∷ xs) (suc k) zero h l = ground arith
modify_flag p f (x ∷ xs) (suc k) (suc i) h l = modify_flag p f xs k i h (omega arith) ∙ ground arith

pub length-mark_symbols :
    (f : Xsy → Xsy) (is : List ℕ) (xsys : List Xsy) → length (mark_symbols f is xsys) ≡ length xsys
unfolding mark_symbols
length-mark_symbols f [] xsys = refl
length-mark_symbols f (i ∷ is) xsys =
    length-mark_symbols f is (modify xsys i f) ∙ length-modify xsys i f

-- A property that the mark does not touch.
pub mark_symbols_same :
    (p : Xsy → Bool) (f : Xsy → Xsy) (is : List ℕ) (xsys : List Xsy) (i : ℕ)
    → ((x : Xsy) → p (f x) ≡ p x)
    → p (symbol_at (mark_symbols f is xsys) i) ≡ p (symbol_at xsys i)
unfolding mark_symbols
mark_symbols_same p f [] xsys i h = refl
mark_symbols_same p f (k ∷ is) xsys i h =
    mark_symbols_same p f is (modify xsys k f) i h ∙ modify_same p f xsys k i h

-- The property that it sets.
pub mark_symbols_flag :
    (p : Xsy → Bool) (f : Xsy → Xsy) (is : List ℕ) (xsys : List Xsy) (i : ℕ)
    → ((x : Xsy) → p (f x) ≡ true)
    → i < length xsys
    → p (symbol_at (mark_symbols f is xsys) i) ≡ (has is i || p (symbol_at xsys i))
unfolding mark_symbols
mark_symbols_flag p f [] xsys i h l = refl
mark_symbols_flag p f (k ∷ is) xsys i h l =
    mark_symbols_flag p f is (modify xsys k f) i h (omega (arith, length-modify xsys k f))
    ∙ ground (arith, modify_flag p f xsys k i h l)

abbrev pub set_nullable : Xsy → Xsy
set_nullable x = record x { is_nullable = true }

abbrev pub set_nulling : Xsy → Xsy
set_nulling x = record x { is_nulling = true }

-- An event of type `t` for each of the symbols that `p` holds of.
abbrev pub events_of : ℕ → (ℕ → Bool) → List ℕ → List Event
events_of t p [] = []
events_of t p (i ∷ is) =
    if p i then record { type = t; value = pos i } ∷ events_of t p is else events_of t p is

abbrev pub filter : (ℕ → Bool) → List ℕ → List ℕ
filter p [] = []
filter p (i ∷ is) = if p i then i ∷ filter p is else filter p is

pub has-filter : (p : ℕ → Bool) (is : List ℕ) (i : ℕ) → has (filter p is) i ≡ (p i && has is i)
has-filter p [] i = ground arith
has-filter p (k ∷ is) i = elim (ℕ_discrete k i) [
  | yes e ↦ rw (← e) (ground (arith, has-filter p is k))
  | no n ↦ ground (arith, has-filter p is i, n)
]

pub events_of_none :
    (t : ℕ) (p : ℕ → Bool) (is : List ℕ) (i : ℕ)
    → events_of t p is ≡ []
    → has is i ≡ true
    → p i ≡ false
events_of_none t p [] i e h = absurd (ground (arith, h))
events_of_none t p (k ∷ is) i e h = elim (Bool-cases (p k)) [
  | inl c ↦ absurd (ground (arith, e, c))
  | inr c ↦ elim (ℕ_discrete k i) [
    | yes same ↦ rw (← same) c
    | no n ↦ events_of_none t p is i (ground (arith, e, c)) (ground (arith, h, n))
  ]
]

pub events_of_some :
    (t : ℕ) (p : ℕ → Bool) (is : List ℕ) (e : Event) (es : List Event)
    → events_of t p is ≡ e ∷ es
    → (i : ℕ) × (has is i ≡ true) × (p i ≡ true)
events_of_some t p [] e es q = absurd (ground (arith, q))
events_of_some t p (k ∷ is) e es q = elim (Bool-cases (p k)) [
  | inl c ↦ (k, ground arith, c)
  | inr c ↦
      let (i, h, c') = events_of_some t p is e es (ground (arith, q, c)) in
      (i, ground (arith, h), c')
]

-- The marks and events of `mark_nullable`.
pub record Noted (xsys : List Xsy) (events : List Event) (is : List ℕ) (out : List Xsy × List Event)
    : Type 0 where
  pub marks : out.0 ≡ mark_symbols set_nullable is xsys
  pub made :
      out.1 ≡ events ++ events_of event_counted_nullable (λ i. (symbol_at xsys i).is_counted) is

append_assoc : (xs ys zs : List Event) → (xs ++ ys) ++ zs ≡ xs ++ (ys ++ zs)
append_assoc [] ys zs = refl
append_assoc (x ∷ xs) ys zs = ap (λ t. x ∷ t) (append_assoc xs ys zs)

append_nil : (xs : List Event) → xs ++ [] ≡ xs
append_nil [] = refl
append_nil (x ∷ xs) = ap (λ t. x ∷ t) (append_nil xs)

events_of_same :
    (t : ℕ) (p q : ℕ → Bool) (is : List ℕ)
    → ((i : ℕ) → p i ≡ q i)
    → events_of t p is ≡ events_of t q is
events_of_same t p q [] h = refl
events_of_same t p q (i ∷ is) h = rw (h i, events_of_same t p q is h) refl

events_step :
    (t : ℕ) (p : ℕ → Bool) (i : ℕ) (is : List ℕ) (events : List Event)
    → (if p i then events ++ record { type = t; value = pos i } ∷ [] else events)
        ++ events_of t p is
      ≡ events ++ events_of t p (i ∷ is)
events_step t p i is events = elim (Bool-cases (p i)) [
  | inl e ↦ rw e (append_assoc events (record { type = t; value = pos i } ∷ []) (events_of t p is))
  | inr e ↦ rw e refl
]

pub mark_nullable_lem :
    (is : List ℕ) (xsys : List Xsy) (events : List Event)
    → Noted xsys events is (mark_nullable is xsys events)
unfolding mark_nullable mark_symbols
mark_nullable_lem [] xsys events = record { marks = refl; made = sym (append_nil events) }
mark_nullable_lem (i ∷ is) xsys events =
    let xsys' = modify xsys i set_nullable in
    let p : ℕ → Bool = λ i. (symbol_at xsys i).is_counted in
    let r = mark_nullable_lem is xsys' (
      if p i
      then events ++ record { type = event_counted_nullable; value = pos i } ∷ []
      else events) in
    record {
      marks = r.marks;
      made =
          r.made
          ∙ rw
              (events_of_same event_counted_nullable (λ i. (symbol_at xsys' i).is_counted) p is
                (λ k. modify_same (λ x. x.is_counted) set_nullable xsys i k (λ x. refl)))
              (events_step event_counted_nullable p i is events);
    }

-- Whether `mark_nulling` finds symbol `i` nulling.
abbrev pub finds_nulling : Matrix → BitVector → ℕ → Bool
finds_nulling reach_matrix terminal_v i =
    (bv_is_empty (bv_and (bv_shadow terminal_v) terminal_v (matrix_row reach_matrix i))).1

-- The marks and events of `mark_nulling`.
pub record Emptied (m : Matrix) (terminal_v : BitVector) (xsys : List Xsy) (events : List Event)
    (is : List ℕ) (out : List Xsy × List Event) : Type 0 where
  pub marks : out.0 ≡ mark_symbols set_nulling (filter (finds_nulling m terminal_v) is) xsys
  pub made :
      out.1
      ≡ events
        ++ events_of event_nulling_terminal
            (λ i. finds_nulling m terminal_v i && (symbol_at xsys i).is_terminal)
            is

filter_step :
    (p : ℕ → Bool) (f : Xsy → Xsy) (i : ℕ) (is : List ℕ) (xsys : List Xsy)
    → mark_symbols f (filter p is) (if p i then modify xsys i f else xsys)
      ≡ mark_symbols f (filter p (i ∷ is)) xsys
unfolding mark_symbols
filter_step p f i is xsys = elim (Bool-cases (p i)) [ inl e ↦ rw e refl | inr e ↦ rw e refl ]

modify_if_same :
    (p : Xsy → Bool) (f : Xsy → Xsy) (b : Bool) (xsys : List Xsy) (k i : ℕ)
    → ((x : Xsy) → p (f x) ≡ p x)
    → p (symbol_at (if b then modify xsys k f else xsys) i) ≡ p (symbol_at xsys i)
modify_if_same p f true xsys k i h = modify_same p f xsys k i h
modify_if_same p f false xsys k i h = refl

pub mark_nulling_lem :
    (m : Matrix) (terminal_v : BitVector) (is : List ℕ) (xsys : List Xsy) (events : List Event)
    → Emptied m terminal_v xsys events is (mark_nulling m terminal_v is xsys events)
unfolding mark_nulling mark_symbols
mark_nulling_lem m v [] xsys events = record { marks = refl; made = sym (append_nil events) }
mark_nulling_lem m v (i ∷ is) xsys events =
    let t = event_nulling_terminal in
    let p : List Xsy → ℕ → Bool = λ xs i. finds_nulling m v i && (symbol_at xs i).is_terminal in
    let xsys' = if finds_nulling m v i then modify xsys i set_nulling else xsys in
    let next = if p xsys i then events ++ record { type = t; value = pos i } ∷ [] else events in
    let r = mark_nulling_lem m v is xsys' next in
    record {
      marks = r.marks ∙ filter_step (finds_nulling m v) set_nulling i is xsys;
      made =
          r.made
          ∙ ap (λ es. next ++ es)
              (events_of_same t (p xsys') (p xsys) is (λ k.
                ap (λ b. finds_nulling m v k && b)
                  (modify_if_same (λ x. x.is_terminal) set_nulling (finds_nulling m v i) xsys i k
                    (λ x. refl))))
          ∙ events_step t (p xsys) i is events;
    }
