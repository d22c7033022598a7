-- ===== src/Rewrite/Slices.antt =====
-- Parts of a list by their positions.
use marpa_r.Prelude.{
  ℕ, zero, suc, ◌+◌, ◌-◌, ◌≡◌, refl, ap, ◌∙◌, sym, List, [], ◌∷◌, ◌++◌, length, length-append,
  get_or, arith,
}
use mathlib.Core.List.{append_assoc}
use marpa_r.Closure.{take, drop}

drop-append : (a r : List ℕ) → drop (length a) (a ++ r) ≡ r
drop-append [] r = refl
drop-append (x ∷ a) r = drop-append a r

take-append : (a r : List ℕ) → take (length a) (a ++ r) ≡ a
take-append [] r = refl
take-append (x ∷ a) r = ap (λ t. x ∷ t) (take-append a r)

get_or-drop : (m : ℕ) (xs : List ℕ) → get_or xs m 0 ≡ get_or (drop m xs) 0 0
get_or-drop zero xs = refl
get_or-drop (suc m) [] = refl
get_or-drop (suc m) (x ∷ xs) = get_or-drop m xs

-- `ys` is what `rhs` has from position `p` on.
pub record Rest (rhs : List ℕ) (p : ℕ) (ys : List ℕ) : Type 0 where
  pub before : List ℕ
  pub whole : rhs ≡ before ++ ys
  pub at_place : p ≡ length before

module _ (rhs : List ℕ) where
  pub all_rest : Rest rhs 0 rhs
  all_rest = record { before = []; whole = refl; at_place = refl }

  drop-Rest : (p : ℕ) (ys : List ℕ) → Rest rhs p ys → drop p rhs ≡ ys
  drop-Rest p ys t = rw t.at_place (ap (drop (length t.before)) t.whole ∙ drop-append t.before ys)

  -- Behind a part, the part itself, and the entry that starts the rest.
  pub Rest-past : (p q : ℕ) (a r : List ℕ) → Rest rhs p (a ++ r) → q ≡ p + length a → Rest rhs q r
  Rest-past p q a r t e = record {
    before = t.before ++ a;
    whole = t.whole ∙ sym (append_assoc t.before a r);
    at_place = omega (arith, e, t.at_place, length-append t.before a);
  }

  pub part-Rest :
      (p q : ℕ) (a r : List ℕ)
      → Rest rhs p (a ++ r)
      → q ≡ p + length a
      → take (q - p) (drop p rhs) ≡ a
  part-Rest p q a r t e =
      let n : q - p ≡ length a = omega (arith, e) in
      rw (n, drop-Rest p (a ++ r) t) (take-append a r)

  pub get_or-Rest : (p x : ℕ) (r : List ℕ) → Rest rhs p (x ∷ r) → get_or rhs p 0 ≡ x
  get_or-Rest p x r t = get_or-drop p rhs ∙ ap (λ xs. get_or xs 0 0) (drop-Rest p (x ∷ r) t)

  pub length-Rest : (p : ℕ) (ys : List ℕ) → Rest rhs p ys → length rhs ≡ p + length ys
  length-Rest p ys t = ap length t.whole ∙ omega (arith, t.at_place, length-append t.before ys)

pub words_assoc :
    (a : List ℕ) (x : ℕ) (b : List ℕ) (y : ℕ) (w v : List ℕ)
    → (a ++ x ∷ (b ++ y ∷ w)) ++ v ≡ a ++ x ∷ (b ++ y ∷ (w ++ v))
words_assoc a x b y w v =
    append_assoc a (x ∷ (b ++ y ∷ w)) v ∙ ap (λ t. a ++ x ∷ t) (append_assoc b (y ∷ w) v)
