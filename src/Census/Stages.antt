-- ===== src/Census/Stages.antt =====
-- The flags of the symbols after each stage of the census, by the vectors that it computes.
use marpa_r.Prelude.{
  ℕ, ◌<◌, ◌≡◌, refl, ap, ◌∙◌, Bool, true, false, ◌||◌, List, length, length-modify, modify, has,
  ◌==◌, arith,
}
use marpa_r.BitVector.{BitVector, bv_bit_test}
use marpa_r.BitVector.Full.{IsSized}
use marpa_r.BitVector.Scan.{set_bits}
use marpa_r.BitVector.Scan.Count.{set_bits_lem}
use marpa_r.Grammar.{Xsy}
use marpa_r.Census.{mark_symbols}
use marpa_r.Census.Flags.{
  symbol_at, mark_symbols_same, mark_symbols_flag, modify_same, modify_flag, length-mark_symbols,
  set_nullable, set_nulling,
}

pub has-set_bits :
    (n : ℕ) (v : BitVector) (i : ℕ) → IsSized n v → i < n → has (set_bits v) i ≡ bv_bit_test v i
has-set_bits n v i s l = ground (arith, (set_bits_lem v s.full).1 i, s.size, l)

-- The flags of `out` are those of `xsys` with what the tests add.
pub record Marks (xsys : List Xsy) (terminal nullable productive accessible nulling : ℕ → Bool)
    (out : List Xsy) : Type 0 where
  pub count : length out ≡ length xsys
  pub is_terminal : (i : ℕ) → i < length xsys → (symbol_at out i).is_terminal ≡ terminal i
  pub is_counted :
      (i : ℕ) → i < length xsys → (symbol_at out i).is_counted ≡ (symbol_at xsys i).is_counted
  pub is_nullable :
      (i : ℕ)
      → i < length xsys
      → (symbol_at out i).is_nullable ≡ (nullable i || (symbol_at xsys i).is_nullable)
  pub is_productive :
      (i : ℕ)
      → i < length xsys
      → (symbol_at out i).is_productive ≡ (productive i || (symbol_at xsys i).is_productive)
  pub is_accessible :
      (i : ℕ)
      → i < length xsys
      → (symbol_at out i).is_accessible ≡ (accessible i || (symbol_at xsys i).is_accessible)
  pub is_nulling :
      (i : ℕ)
      → i < length xsys
      → (symbol_at out i).is_nulling ≡ (nulling i || (symbol_at xsys i).is_nulling)

abbrev pub never : ℕ → Bool
never i = false

module _ (xsys out : List Xsy) (t a b c d : ℕ → Bool) where
  pub Marks-nullable :
      (is : List ℕ)
      → Marks xsys t never b c d out
      → Marks xsys t (has is) b c d (mark_symbols set_nullable is out)
  Marks-nullable is m = record {
    count = length-mark_symbols set_nullable is out ∙ m.count;
    is_terminal = λ i l.
        mark_symbols_same (λ x. x.is_terminal) set_nullable is out i (λ x. refl)
        ∙ m.is_terminal i l;
    is_counted = λ i l.
        mark_symbols_same (λ x. x.is_counted) set_nullable is out i (λ x. refl) ∙ m.is_counted i l;
    is_nullable = λ i l.
        mark_symbols_flag (λ x. x.is_nullable) set_nullable is out i (λ x. refl)
          (omega (arith, m.count))
        ∙ ap (λ y. has is i || y) (m.is_nullable i l);
    is_productive = λ i l.
        mark_symbols_same (λ x. x.is_productive) set_nullable is out i (λ x. refl)
        ∙ m.is_productive i l;
    is_accessible = λ i l.
        mark_symbols_same (λ x. x.is_accessible) set_nullable is out i (λ x. refl)
        ∙ m.is_accessible i l;
    is_nulling = λ i l.
        mark_symbols_same (λ x. x.is_nulling) set_nullable is out i (λ x. refl) ∙ m.is_nulling i l;
  }

  pub Marks-productive :
      (is : List ℕ)
      → Marks xsys t a never c d out
      → Marks xsys t a (has is) c d (mark_symbols (λ x. record x { is_productive = true }) is out)
  Marks-productive is m =
      let f : Xsy → Xsy = λ x. record x { is_productive = true } in
      record {
        count = length-mark_symbols f is out ∙ m.count;
        is_terminal = λ i l.
            mark_symbols_same (λ x. x.is_terminal) f is out i (λ x. refl) ∙ m.is_terminal i l;
        is_counted =
            λ i l. mark_symbols_same (λ x. x.is_counted) f is out i (λ x. refl) ∙ m.is_counted i l;
        is_nullable = λ i l.
            mark_symbols_same (λ x. x.is_nullable) f is out i (λ x. refl) ∙ m.is_nullable i l;
        is_productive = λ i l.
            mark_symbols_flag (λ x. x.is_productive) f is out i (λ x. refl) (omega (arith, m.count))
            ∙ ap (λ y. has is i || y) (m.is_productive i l);
        is_accessible = λ i l.
            mark_symbols_same (λ x. x.is_accessible) f is out i (λ x. refl) ∙ m.is_accessible i l;
        is_nulling =
            λ i l. mark_symbols_same (λ x. x.is_nulling) f is out i (λ x. refl) ∙ m.is_nulling i l;
      }

  -- The last mark is that of the start symbol.
  pub Marks-accessible :
      (is : List ℕ) (start : ℕ)
      → Marks xsys t a b never d out
      → Marks xsys t a b
          (λ i. start == i || has is i)
          d
          (modify
            (mark_symbols (λ x. record x { is_accessible = true }) is out)
            start
            (λ x. record x { is_accessible = true }))
  Marks-accessible is start m =
      let f : Xsy → Xsy = λ x. record x { is_accessible = true } in
      let xs = mark_symbols f is out in
      let same : (p : Xsy → Bool) (i : ℕ)
          → ((x : Xsy) → p (f x) ≡ p x)
          → p (symbol_at (modify xs start f) i) ≡ p (symbol_at out i) =
        λ p i h. modify_same p f xs start i h ∙ mark_symbols_same p f is out i h in
      record {
        count = length-modify xs start f ∙ length-mark_symbols f is out ∙ m.count;
        is_terminal = λ i l. same (λ x. x.is_terminal) i (λ x. refl) ∙ m.is_terminal i l;
        is_counted = λ i l. same (λ x. x.is_counted) i (λ x. refl) ∙ m.is_counted i l;
        is_nullable = λ i l. same (λ x. x.is_nullable) i (λ x. refl) ∙ m.is_nullable i l;
        is_productive = λ i l. same (λ x. x.is_productive) i (λ x. refl) ∙ m.is_productive i l;
        is_accessible = λ i l.
            let p : Xsy → Bool = λ x. x.is_accessible in
            ground (
              arith,
              modify_flag p f xs start i (λ x. refl)
                  (omega (arith, length-mark_symbols f is out, m.count)),
              mark_symbols_flag p f is out i (λ x. refl) (omega (arith, m.count)),
              m.is_accessible i l,
            );
        is_nulling = λ i l. same (λ x. x.is_nulling) i (λ x. refl) ∙ m.is_nulling i l;
      }

  pub Marks-nulling :
      (is : List ℕ)
      → Marks xsys t a b c never out
      → Marks xsys t a b c (has is) (mark_symbols set_nulling is out)
  Marks-nulling is m = record {
    count = length-mark_symbols set_nulling is out ∙ m.count;
    is_terminal = λ i l.
        mark_symbols_same (λ x. x.is_terminal) set_nulling is out i (λ x. refl) ∙ m.is_terminal i l;
    is_counted = λ i l.
        mark_symbols_same (λ x. x.is_counted) set_nulling is out i (λ x. refl) ∙ m.is_counted i l;
    is_nullable = λ i l.
        mark_symbols_same (λ x. x.is_nullable) set_nulling is out i (λ x. refl) ∙ m.is_nullable i l;
    is_productive = λ i l.
        mark_symbols_same (λ x. x.is_productive) set_nulling is out i (λ x. refl)
        ∙ m.is_productive i l;
    is_accessible = λ i l.
        mark_symbols_same (λ x. x.is_accessible) set_nulling is out i (λ x. refl)
        ∙ m.is_accessible i l;
    is_nulling = λ i l.
        mark_symbols_flag (λ x. x.is_nulling) set_nulling is out i (λ x. refl)
          (omega (arith, m.count))
        ∙ ap (λ y. has is i || y) (m.is_nulling i l);
  }
