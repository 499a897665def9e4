-- ===== src/Prelude/Bits.antt =====
-- `|` and `&` on shifted fields and masks, as arithmetic at every width.
use Prim.Native.Nat.{
  ℕ, zero, suc, ◌+◌, ◌-◌, ◌*◌, ◌/◌, ◌%◌, ◌^◌, ◌≤◌, ◌<◌, min, max, digits, bit_and, bit_or,
  bit_and-bitwise, bit_or-bitwise,
}
use mathlib.Core.Path.{◌≡◌, refl, ap, sym, ◌∙◌}
use native.Mathlib.Omega.{arith}
use native.Mathlib.Nat.{pow-suc, one-le-pow, div-lt_iff_lt-mul, div-add-mod', mod-lt, mod-eq_of_lt}

-- One more unit of fuel than the number has no effect.
fuel_suffices :
    (base : ℕ → ℕ) (op : ℕ → ℕ → ℕ) (n m a b : ℕ)
    → a ≤ n
    → a ≤ m
    → digits base op n a b ≡ digits base op m a b
fuel_suffices base op zero zero a b p q = refl
fuel_suffices base op zero (suc m) zero b p q = refl
fuel_suffices base op zero (suc m) (suc a) b p q = absurd (omega arith)
fuel_suffices base op (suc n) zero zero b p q = refl
fuel_suffices base op (suc n) zero (suc a) b p q = absurd (omega arith)
fuel_suffices base op (suc n) (suc m) zero b p q = refl
fuel_suffices base op (suc n) (suc m) (suc a) b p q =
    rw (fuel_suffices base op n m (suc a / 2) (b / 2) (omega arith) (omega arith))

or_lowest : (a b : ℕ) → bit_or a b ≡ 2 * bit_or (a / 2) (b / 2) + max (a % 2) (b % 2)
or_lowest zero b = simp bit_or-bitwise (omega arith)
or_lowest (suc a) b = omega (
  arith,
  bit_or-bitwise (suc a) b,
  bit_or-bitwise (suc a / 2) (b / 2),
  fuel_suffices (λ d. d) max a (suc a / 2) (suc a / 2) (b / 2) (omega arith) (omega arith),
)

and_lowest : (a b : ℕ) → bit_and a b ≡ 2 * bit_and (a / 2) (b / 2) + min (a % 2) (b % 2)
and_lowest zero b = simp bit_and-bitwise (omega arith)
and_lowest (suc a) b = omega (
  arith,
  bit_and-bitwise (suc a) b,
  bit_and-bitwise (suc a / 2) (b / 2),
  fuel_suffices (λ d. 0) min a (suc a / 2) (suc a / 2) (b / 2) (omega arith) (omega arith),
)

or_zero_below : (n a : ℕ) → a ≤ n → bit_or a 0 ≡ a
or_zero_below n zero h = refl
or_zero_below zero (suc a) h = absurd (omega arith)
or_zero_below (suc n) (suc a) h =
    omega (arith, or_lowest (suc a) 0, or_zero_below n (suc a / 2) (omega arith))

and_zero_below : (n a : ℕ) → a ≤ n → bit_and a 0 ≡ 0
and_zero_below n zero h = refl
and_zero_below zero (suc a) h = absurd (omega arith)
and_zero_below (suc n) (suc a) h =
    omega (arith, and_lowest (suc a) 0, and_zero_below n (suc a / 2) (omega arith))

double : (q k : ℕ) → q * 2 ^ suc k ≡ 2 * (q * 2 ^ k)
double q k = omega (arith, ap (λ (t : ℕ). q * t) (pow-suc 2 k))

-- A shifted field and what fits below it.
pub bit_or-shifted : (k q r : ℕ) → r < 2 ^ k → bit_or (q * 2 ^ k) r ≡ q * 2 ^ k + r
bit_or-shifted zero q r h = ground (arith, or_zero_below q q (omega arith))
bit_or-shifted (suc k) q r h = ground (
  arith,
  or_lowest (q * 2 ^ suc k) r,
  double q k,
  pow-suc 2 k,
  bit_or-shifted k q (r / 2) (omega (arith, pow-suc 2 k)),
)

-- The mask of the `k` low bits.
and_low_fields : (k q r : ℕ) → r < 2 ^ k → bit_and (q * 2 ^ k + r) (2 ^ k - 1) ≡ r
and_low_fields zero q r h = ground (arith, and_zero_below (q * 1 + r) (q * 1 + r) (omega arith))
and_low_fields (suc k) q r h = ground (
  arith,
  and_lowest (q * 2 ^ suc k + r) (2 ^ suc k - 1),
  double q k,
  pow-suc 2 k,
  one-le-pow k 2,
  and_low_fields k q (r / 2) (omega (arith, pow-suc 2 k)),
)

pub bit_and-low_mask : (k a : ℕ) → bit_and a (2 ^ k - 1) ≡ a % 2 ^ k
bit_and-low_mask k a = ground (arith, one-le-pow k 2, and_low_fields k (a / 2 ^ k) (a % 2 ^ k))

-- A mask that is zero in the `k` low bits.
pub and_shifted_fields :
    (k q r m : ℕ) → r < 2 ^ k → bit_and (q * 2 ^ k + r) (m * 2 ^ k) ≡ bit_and q m * 2 ^ k
and_shifted_fields zero q r m h = let e : r ≡ 0 = omega arith in ground arith
and_shifted_fields (suc k) q r m h = ground (
  arith,
  and_lowest (q * 2 ^ suc k + r) (m * 2 ^ suc k),
  double q k,
  double m k,
  double (bit_and q m) k,
  pow-suc 2 k,
  and_shifted_fields k q (r / 2) m (omega (arith, pow-suc 2 k)),
)

pub pow-add : (j k : ℕ) → 2 ^ (j + k) ≡ 2 ^ j * 2 ^ k
pow-add zero k = ground arith
pow-add (suc j) k =
    let e : suc j + k ≡ suc (j + k) = omega arith in
    ap (λ (t : ℕ). 2 ^ t) e
    ∙ omega (arith, pow-suc 2 (j + k), pow-add j k, ap (λ (t : ℕ). t * 2 ^ k) (pow-suc 2 j))

pub pow_pos : (k : ℕ) → 0 < 2 ^ k
pow_pos k = omega (arith, one-le-pow k 2)

-- A mask of `j` ones above `k` zeros clears the `k` low bits of a word of `j + k` bits.
pub bit_and-high_mask :
    (j k a : ℕ) → a < 2 ^ (j + k) → bit_and a ((2 ^ j - 1) * 2 ^ k) ≡ a / 2 ^ k * 2 ^ k
bit_and-high_mask j k a h =
    let small : a / 2 ^ k < 2 ^ j = (div-lt_iff_lt-mul (pow_pos k)).1 (rw pow-add at h) in
    ap (λ (t : ℕ). bit_and t ((2 ^ j - 1) * 2 ^ k)) (sym (div-add-mod' a (2 ^ k)))
    ∙ and_shifted_fields k (a / 2 ^ k) (a % 2 ^ k) (2 ^ j - 1) (mod-lt a (pow_pos k))
    ∙ ap (λ (t : ℕ). t * 2 ^ k) (bit_and-low_mask j (a / 2 ^ k) ∙ mod-eq_of_lt small)
