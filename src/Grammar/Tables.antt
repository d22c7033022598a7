-- ===== src/Grammar/Tables.antt =====
-- Lemmas on the tables of symbols and rules: what a write to one entry and a new last entry do to
-- the parts of the invariant.
use marpa_r.Prelude.{
  ℕ, zero, suc, ◌+◌, ◌<◌, ◌≤◌, max, ◌≡◌, refl, ap, Bool, true, false, ◌&&◌, ◌||◌, inl, inr, List,
  [], ◌∷◌, ◌++◌, map, All, length, get_or, modify, All-map, ℤ, pos, negsuc, eqb_ℤ, arith, ◌==◌,
}
use marpa_r.Grammar.{Xrl}
use marpa_r.Grammar.Rules.{duplicate_rule_cmp, rhs_cmp}
use marpa_r.Grammar.Change.{IsNoneOrBelow, KeepsRule}
use marpa_r.Grammar.Invariant.{
  CountUp, AllPairs, same_ids, listed, Compatible, IsRule, total_size, longest,
}

pub CountUp-append :
    (n : ℕ) (is : List ℕ) (i : ℕ) → CountUp n is → i ≡ n + length is → CountUp n (is ++ i ∷ [])
CountUp-append n [] i c e = (omega arith, tt)
CountUp-append n (j ∷ is) i c e = (c.0, CountUp-append (suc n) is i c.1 (omega arith))

pub modify-append_last {ℓ} :
    {A : Type ℓ} (xs : List A) (x : A) (f : A → A)
    → modify (xs ++ x ∷ []) (length xs) f ≡ xs ++ f x ∷ []
modify-append_last [] x f = refl
modify-append_last (y ∷ xs) x f = ap (λ l. y ∷ l) (modify-append_last xs x f)

-- The flags of `bs` are set in `cs` too.
abbrev pub Grows : List Bool → List Bool → Type 0
Grows bs cs = (i : ℕ) → get_or bs i false ≡ true → get_or cs i false ≡ true

pub Grows-append : (bs : List Bool) (b : Bool) → Grows bs (bs ++ b ∷ [])
Grows-append [] b i h = cc
Grows-append (c ∷ bs) b zero h = h
Grows-append (c ∷ bs) b (suc i) h = Grows-append bs b i h

pub Grows-modify : (bs : List Bool) (k : ℕ) → Grows bs (modify bs k (λ _. true))
Grows-modify [] k i h = h
Grows-modify (c ∷ bs) zero zero h = refl
Grows-modify (c ∷ bs) zero (suc i) h = h
Grows-modify (c ∷ bs) (suc k) zero h = h
Grows-modify (c ∷ bs) (suc k) (suc i) h = Grows-modify bs k i h

pub get_or-modify-true :
    (bs : List Bool) (k : ℕ) → k < length bs → get_or (modify bs k (λ _. true)) k false ≡ true
get_or-modify-true [] k h = elim h [ ]
get_or-modify-true (b ∷ bs) zero h = refl
get_or-modify-true (b ∷ bs) (suc k) h = get_or-modify-true bs k (omega arith)

-- A write that sets one flag, seen through that flag.
pub map-modify-true {ℓ} :
    {A : Type ℓ} (p : A → Bool) (xs : List A) (i : ℕ) (f : A → A)
    → ((x : A) → p (f x) ≡ true)
    → map p (modify xs i f) ≡ modify (map p xs) i (λ _. true)
map-modify-true p [] i f h = refl
map-modify-true p (x ∷ xs) zero f h = ap (λ b. b ∷ map p xs) (h x)
map-modify-true p (x ∷ xs) (suc i) f h = ap (λ bs. p x ∷ bs) (map-modify-true p xs i f h)

pub length-map {ℓ κ} :
    {A : Type ℓ} {B : Type κ} (p : A → B) (xs : List A) → length (map p xs) ≡ length xs
length-map p [] = refl
length-map p (x ∷ xs) = ap suc (length-map p xs)

pub get_or-map {ℓ κ} :
    {A : Type ℓ} {B : Type κ} (p : A → B) (xs : List A) (i : ℕ) (d : A)
    → get_or (map p xs) i (p d) ≡ p (get_or xs i d)
get_or-map p [] i d = refl
get_or-map p (x ∷ xs) zero d = refl
get_or-map p (x ∷ xs) (suc i) d = get_or-map p xs i d

-- A write may depend on the entry that it is at.
pub All-modify_at {ℓ κ} :
    {A : Type ℓ} (P : A → Type κ) (xs : List A) (i : ℕ) (f : A → A) (d : A)
    → (P (get_or xs i d) → P (f (get_or xs i d)))
    → All P xs
    → All P (modify xs i f)
All-modify_at P [] i f d h a = a
All-modify_at P (x ∷ xs) zero f d h a = (h a.0, a.1)
All-modify_at P (x ∷ xs) (suc i) f d h a = (a.0, All-modify_at P xs i f d h a.1)

All-below_mono : (n m : ℕ) (is : List ℕ) → n ≤ m → All (λ i. i < n) is → All (λ i. i < m) is
All-below_mono n m is le a = All-map (λ i. i < n) (λ i. i < m) is (λ i h. omega arith) a

pub IsNoneOrBelow-mono : (n m : ℕ) (i : ℤ) → n ≤ m → IsNoneOrBelow n i → IsNoneOrBelow m i
IsNoneOrBelow-mono n m (pos i) le h = omega arith
IsNoneOrBelow-mono n m (negsuc i) le h = h

-- More symbols and more flags keep a rule a rule.
pub IsRule-mono :
    (n m : ℕ) (bs cs ds es : List Bool) (r : Xrl)
    → n ≤ m
    → Grows bs cs
    → Grows ds es
    → IsRule n bs ds r
    → IsRule m cs es r
IsRule-mono n m bs cs ds es r le p q v = record {
  lhs_below = let h = v.lhs_below in omega arith;
  rhs_below = All-below_mono n m r.rhs le v.rhs_below;
  separator_below = IsNoneOrBelow-mono n m r.separator le v.separator_below;
  ranked = v.ranked;
  flagged = p r.lhs v.flagged;
  sequence_flagged = elim v.sequence_flagged [
    | inl b ↦ inl b
    | inr (a, b, c, d) ↦ inr (a, b, q r.lhs c, d)
  ];
}

pub IsRule-keeps :
    (n : ℕ) (bs ds : List Bool) (f : Xrl → Xrl)
    → KeepsRule f
    → (r : Xrl) → IsRule n bs ds r
    → IsRule n bs ds (f r)
IsRule-keeps n bs ds f k r v =
    let (_, lhs, rhs, bnf, seq, sep, rank) = k r in
    record {
      lhs_below = rw lhs v.lhs_below;
      rhs_below = rw rhs v.rhs_below;
      separator_below = rw sep v.separator_below;
      ranked = rank v.ranked;
      flagged = rw lhs v.flagged;
      sequence_flagged = rw (lhs, rhs, bnf, seq) v.sequence_flagged;
    }

module _ (f : Xrl → Xrl) (k : KeepsRule f) where
  Compatible-right : (r s : Xrl) → Compatible r s → Compatible r (f s)
  Compatible-right r s c = let (_, lhs, rhs, _, seq, _, _) = k s in rw (lhs, rhs, seq) c

  Compatible-left : (r s : Xrl) → Compatible r s → Compatible (f r) s
  Compatible-left r s c = let (_, lhs, rhs, _, seq, _, _) = k r in rw (lhs, rhs, seq) c

  All-Compatible :
      (r : Xrl) (rs : List Xrl) (i : ℕ) → All (Compatible r) rs → All (Compatible r) (modify rs i f)
  All-Compatible r [] i a = a
  All-Compatible r (s ∷ rs) zero a = (Compatible-right r s a.0, a.1)
  All-Compatible r (s ∷ rs) (suc i) a = (a.0, All-Compatible r rs i a.1)

  pub AllPairs-modify :
      (rs : List Xrl) (i : ℕ) → AllPairs Compatible rs → AllPairs Compatible (modify rs i f)
  AllPairs-modify [] i a = a
  AllPairs-modify (r ∷ rs) zero a =
      (All-map (Compatible r) (Compatible (f r)) rs (Compatible-left r) a.0, a.1)
  AllPairs-modify (r ∷ rs) (suc i) a = (All-Compatible r rs i a.0, AllPairs-modify rs i a.1)

  pub listed-modify :
      (rs : List Xrl) (i lhs : ℕ) (rhs : List ℕ)
      → listed (modify rs i f) lhs rhs ≡ listed rs lhs rhs
  listed-modify [] i lhs rhs = refl
  listed-modify (r ∷ rs) zero lhs rhs = let (_, l, h, b, _, _, _) = k r in rw (l, h, b) refl
  listed-modify (r ∷ rs) (suc i) lhs rhs = rw (listed-modify rs i lhs rhs)

  pub total_size-modify : (rs : List Xrl) (i : ℕ) → total_size (modify rs i f) ≡ total_size rs
  total_size-modify [] i = refl
  total_size-modify (r ∷ rs) zero = rw ((k r).2)
  total_size-modify (r ∷ rs) (suc i) = omega (arith, total_size-modify rs i)

  pub longest-modify : (rs : List Xrl) (i : ℕ) → longest (modify rs i f) ≡ longest rs
  longest-modify [] i = refl
  longest-modify (r ∷ rs) zero = rw ((k r).2)
  longest-modify (r ∷ rs) (suc i) = rw (longest-modify rs i)

pub AllPairs-append :
    (rs : List Xrl) (r : Xrl)
    → AllPairs Compatible rs
    → All (λ s. Compatible s r) rs
    → AllPairs Compatible (rs ++ r ∷ [])
AllPairs-append [] r a h = (tt, tt)
AllPairs-append (s ∷ rs) r a h = (All-snoc rs a.0, AllPairs-append rs r a.1 h.1)
  where
    All-snoc : (ts : List Xrl) → All (Compatible s) ts → All (Compatible s) (ts ++ r ∷ [])
    All-snoc [] b = (h.0, tt)
    All-snoc (t ∷ ts) b = (b.0, All-snoc ts b.1)

pub listed-append :
    (rs : List Xrl) (r : Xrl) (lhs : ℕ) (rhs : List ℕ)
    → listed (rs ++ r ∷ []) lhs rhs ≡ (listed rs lhs rhs || listed (r ∷ []) lhs rhs)
listed-append [] r lhs rhs = refl
listed-append (s ∷ rs) r lhs rhs = ground (arith, listed-append rs r lhs rhs)

pub total_size-append :
    (rs : List Xrl) (r : Xrl) → total_size (rs ++ r ∷ []) ≡ total_size rs + (1 + length r.rhs)
total_size-append [] r = omega arith
total_size-append (s ∷ rs) r = omega (arith, total_size-append rs r)

pub longest-append :
    (rs : List Xrl) (r : Xrl) → longest (rs ++ r ∷ []) ≡ max (length r.rhs) (longest rs)
longest-append [] r = refl
longest-append (s ∷ rs) r = omega (arith, longest-append rs r)

pub same_ids-length : (xs ys : List ℕ) → same_ids xs ys ≡ true → length xs ≡ length ys
same_ids-length [] [] h = refl
same_ids-length [] (y ∷ ys) h = cc
same_ids-length (x ∷ xs) [] h = cc
same_ids-length (x ∷ xs) (y ∷ ys) h = ap suc (same_ids-length xs ys (ground arith))

rhs_cmp-same_ids :
    (xs ys : List ℕ) → length xs ≡ length ys → eqb_ℤ (rhs_cmp xs ys) (pos 0) ≡ same_ids xs ys
unfolding rhs_cmp
rhs_cmp-same_ids [] [] h = refl
rhs_cmp-same_ids [] (y ∷ ys) h = absurd (omega arith)
rhs_cmp-same_ids (x ∷ xs) [] h = absurd (omega arith)
rhs_cmp-same_ids (x ∷ xs) (y ∷ ys) h = ground (arith, rhs_cmp-same_ids xs ys)

-- The comparison is zero exactly on rules with the same symbols.
pub duplicate_rule_cmp-zero :
    (r s : Xrl) → eqb_ℤ (duplicate_rule_cmp r s) (pos 0) ≡ (r.lhs == s.lhs && same_ids r.rhs s.rhs)
unfolding duplicate_rule_cmp
duplicate_rule_cmp-zero r s =
    ground (arith, rhs_cmp-same_ids r.rhs s.rhs, same_ids-length r.rhs s.rhs)
