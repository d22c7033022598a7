-- ===== src/BitVector/Bits.antt =====
-- The binary digits of a word, and `|`, `&`, `~` and single bits in terms of them.
use Prim.Native.Nat.{min, max, bit_and, bit_or, digits, bitwise, bit_and-bitwise, bit_or-bitwise}
use native.Mathlib.Nat.{pow-suc, one-le-pow}
use marpa_r.Prelude.{
  ℕ, zero, suc, ◌+◌, ◌-◌, ◌*◌, ◌/◌, ◌%◌, ◌^◌, ◌≤◌, ◌<◌, ◌≡◌, refl, ap, ◌∙◌, Bool, false, not, ◌&&◌,
  ◌||◌, arith, ◌==◌, ltb,
}

-- What the native operations mean, one binary digit at a time: the fuel is enough.
module _ (rest : ℕ → ℕ) (op : ℕ → ℕ → ℕ) where
  enough_fuel : (k j x y : ℕ) → x ≤ k → x ≤ j → digits rest op k x y ≡ digits rest op j x y
  enough_fuel zero zero x y hk hj = refl
  enough_fuel (suc k) zero zero y hk hj = refl
  enough_fuel (suc k) zero (suc x) y hk hj = absurd (omega arith)
  enough_fuel zero (suc j) zero y hk hj = refl
  enough_fuel zero (suc j) (suc x) y hk hj = absurd (omega arith)
  enough_fuel (suc k) (suc j) zero y hk hj = refl
  enough_fuel (suc k) (suc j) (suc x) y hk hj =
      ap (λ t. t * 2 + op (suc x % 2) (y % 2))
        (enough_fuel k j (suc x / 2) (y / 2) (omega arith) (omega arith))

  lowest_digit :
      (x y : ℕ)
      → bitwise rest op (suc x) y ≡ bitwise rest op (suc x / 2) (y / 2) * 2 + op (suc x % 2) (y % 2)
  lowest_digit x y =
      ap (λ t. t * 2 + op (suc x % 2) (y % 2))
        (enough_fuel x (suc x / 2) (suc x / 2) (y / 2) (omega arith) (omega arith))

and_digit : (x y : ℕ) → bit_and x y ≡ bit_and (x / 2) (y / 2) * 2 + min (x % 2) (y % 2)
and_digit zero y = omega (arith, bit_and-bitwise 0 y, bit_and-bitwise 0 (y / 2))
and_digit (suc x) y = omega (
  arith,
  lowest_digit (λ t. 0) min x y,
  bit_and-bitwise (suc x) y,
  bit_and-bitwise (suc x / 2) (y / 2),
)

or_digit : (x y : ℕ) → bit_or x y ≡ bit_or (x / 2) (y / 2) * 2 + max (x % 2) (y % 2)
or_digit zero y = omega (arith, bit_or-bitwise 0 y, bit_or-bitwise 0 (y / 2))
or_digit (suc x) y = omega (
  arith,
  lowest_digit (λ t. t) max x y,
  bit_or-bitwise (suc x) y,
  bit_or-bitwise (suc x / 2) (y / 2),
)

-- Digit `i` of a number.
abbrev pub testbit : ℕ → ℕ → Bool
testbit w zero = w % 2 == 1
testbit w (suc i) = testbit (w / 2) i

pub testbit-zero : (i : ℕ) → testbit 0 i ≡ false
testbit-zero zero = refl
testbit-zero (suc i) = testbit-zero i

pub testbit-and : (a b i : ℕ) → testbit (bit_and a b) i ≡ (testbit a i && testbit b i)
testbit-and a b zero = ground (arith, and_digit a b)
testbit-and a b (suc i) =
    let e : bit_and a b / 2 ≡ bit_and (a / 2) (b / 2) = omega (arith, and_digit a b) in
    rw e (testbit-and (a / 2) (b / 2) i)

pub testbit-or : (a b i : ℕ) → testbit (bit_or a b) i ≡ (testbit a i || testbit b i)
testbit-or a b zero = ground (arith, or_digit a b)
testbit-or a b (suc i) =
    let e : bit_or a b / 2 ≡ bit_or (a / 2) (b / 2) = omega (arith, or_digit a b) in
    rw e (testbit-or (a / 2) (b / 2) i)

pub testbit-pow : (k i : ℕ) → testbit (2 ^ k) i ≡ (k == i)
testbit-pow zero zero = refl
testbit-pow zero (suc i) = ground (arith, testbit-zero i)
testbit-pow (suc k) zero = ground (arith, pow-suc 2 k)
testbit-pow (suc k) (suc i) =
    let e : 2 ^ suc k / 2 ≡ 2 ^ k = omega (arith, pow-suc 2 k) in
    rw e (testbit-pow k i ∙ ground arith)

-- The ones of a mask of `k` low bits.
pub testbit-low_mask : (k i : ℕ) → testbit (2 ^ k - 1) i ≡ ltb i k
testbit-low_mask zero i = ground (arith, testbit-zero i)
testbit-low_mask (suc k) zero = ground (arith, pow-suc 2 k, one-le-pow k 2)
testbit-low_mask (suc k) (suc i) =
    let e : (2 ^ suc k - 1) / 2 ≡ 2 ^ k - 1 = omega (arith, pow-suc 2 k, one-le-pow k 2) in
    rw e (testbit-low_mask k i ∙ ground arith)

-- The complement in `n` bits.
pub testbit-complement :
    (n w i : ℕ) → w < 2 ^ n → i < n → testbit (2 ^ n - 1 - w) i ≡ not (testbit w i)
testbit-complement zero w i h l = absurd (omega arith)
testbit-complement (suc n) w zero h l = ground (arith, pow-suc 2 n, one-le-pow n 2)
testbit-complement (suc n) w (suc i) h l =
    let e : (2 ^ suc n - 1 - w) / 2 ≡ 2 ^ n - 1 - w / 2 =
      omega (arith, pow-suc 2 n, one-le-pow n 2) in
    rw e (testbit-complement n (w / 2) i (omega (arith, pow-suc 2 n)) (omega arith))

-- `(w & (1 << k)) != 0`.
pub bit_and-pow : (w k : ℕ) → not (bit_and w (2 ^ k) == 0) ≡ testbit w k
bit_and-pow w zero =
    let z : bit_and (w / 2) 0 ≡ 0 = bit_and-zero (w / 2) (w / 2) (omega arith) in
    ground (arith, and_digit w 1)
  where
    bit_and-zero : (f a : ℕ) → a ≤ f → bit_and a 0 ≡ 0
    bit_and-zero f zero h = bit_and-bitwise 0 0
    bit_and-zero zero (suc a) h = absurd (omega arith)
    bit_and-zero (suc f) (suc a) h =
        omega (arith, and_digit (suc a) 0, bit_and-zero f (suc a / 2) (omega arith))
bit_and-pow w (suc k) =
    let e : 2 ^ suc k / 2 ≡ 2 ^ k = omega (arith, pow-suc 2 k) in
    let d : bit_and w (2 ^ suc k) ≡ bit_and (w / 2) (2 ^ k) * 2 =
      omega (arith, and_digit w (2 ^ suc k), ap (bit_and (w / 2)) e, pow-suc 2 k) in
    rw d (ground (arith, bit_and-pow (w / 2) k))

-- Two words with the same digits are one.
pub testbit-injective :
    (n a b : ℕ) → a < 2 ^ n → b < 2 ^ n → ((i : ℕ) → i < n → testbit a i ≡ testbit b i) → a ≡ b
testbit-injective zero a b p q h = omega arith
testbit-injective (suc n) a b p q h = ground (
  arith,
  h 0 (omega arith),
  testbit-injective n (a / 2) (b / 2) (omega (arith, pow-suc 2 n)) (omega (arith, pow-suc 2 n))
      (λ i l. h (suc i) (omega arith)),
)

pub bit_or-lt : (n a b : ℕ) → a < 2 ^ n → b < 2 ^ n → bit_or a b < 2 ^ n
bit_or-lt zero a b p q = omega (arith, or_zero a b (omega arith) (omega arith))
  where
    or_zero : (x y : ℕ) → x ≡ 0 → y ≡ 0 → bit_or x y ≡ 0
    or_zero x y e h = rw (e, h)
bit_or-lt (suc n) a b p q = omega (
  arith,
  pow-suc 2 n,
  or_digit a b,
  bit_or-lt n (a / 2) (b / 2) (omega (arith, pow-suc 2 n)) (omega (arith, pow-suc 2 n)),
)

pub bit_and-le : (n a b : ℕ) → a ≤ n → bit_and a b ≤ a
bit_and-le zero a b h = let e : a ≡ 0 = omega arith in rw e (omega (arith, bit_and-bitwise 0 b))
bit_and-le (suc n) zero b h = omega (arith, bit_and-bitwise 0 b)
bit_and-le (suc n) (suc a) b h =
    omega (arith, and_digit (suc a) b, bit_and-le n (suc a / 2) (b / 2) (omega arith))
