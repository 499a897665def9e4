-- ===== src/State/Seed.antt =====
-- The text of a seed: the module `hex_seed` of src/state.rs. Serde is a parameter: its value of a seed
-- is what a visitor method gets.
use v6proxy.Prelude.{
  ℕ, zero, suc, ◌+◌, ◌-◌, ◌*◌, ◌/◌, ◌%◌, ◌^◌, ◌<◌, ◌≤◌, ◌≡◌, refl, sym, ap, ◌∙◌, false, Option,
  none, some, [], ◌∷◌, ◌++◌, if◌then◌else◌, ltb, ◌==◌, eq_ℕ, arith,
}
use native.Mathlib.Nat.{pow-suc, div-div-eq-div-mul, div-one, div-le_self, div-eq_of_lt}
use v6proxy.Text.{Text, codes}
use v6proxy.Text.Laws.{strip_prefix-append}
use v6proxy.Text.Numbers.{to_digit, digits_from, from_str_radix}
use v6proxy.State.Policy.{u64_max, parse_seed}

-- A lower-case digit of `{:x}`
unfoldable pub hex_digit : ℕ → ℕ
hex_digit d = if ltb d 10 then b'0' + d else b'a' + d - 10

-- `{:016x}` of a 64-bit number, for 16 digits.
unfoldable pub hex_digits : ℕ → ℕ → Text
hex_digits zero v = []
hex_digits (suc n) v = hex_digit (v / 16 ^ n % 16) ∷ hex_digits n v

-- `hex_seed::serialize`, and `seed` of a `BindingResponse`
unfoldable pub show_seed : ℕ → Text
show_seed v = codes "0x" ++ hex_digits 16 v

-- What serde hands the visitor.
pub data SeedValue : Type 0 where
  u64_value : ℕ → SeedValue
  negative_value : ℕ → SeedValue
  str_value : Text → SeedValue

-- The visitor's methods.
unfoldable pub visit_seed : SeedValue → Option ℕ
visit_seed (u64_value v) = some v
visit_seed (negative_value v) = none
visit_seed (str_value s) = parse_seed s

to_digit-hex_digit : (d : ℕ) → d < 16 → to_digit 16 (hex_digit d) ≡ some d
unfolding to_digit hex_digit
to_digit-hex_digit d h = ground (arith, h)

div-step : (v n : ℕ) → v / 16 ^ suc n ≡ v / 16 ^ n / 16
div-step v n = ap (λ (t : ℕ). v / t) (pow-suc 16 n) ∙ sym (div-div-eq-div-mul v (16 ^ n) 16)

hex_digit_plain : (d : ℕ) → d < 16 → (hex_digit d == b'+') ≡ false
unfolding hex_digit
hex_digit_plain d h = ground (arith, h)

from_str_radix_plain :
    (c d : ℕ) (s : Text)
    → (c == b'+') ≡ false
    → from_str_radix 16 u64_max (c ∷ d ∷ s) ≡ digits_from 16 u64_max 0 (c ∷ d ∷ s)
unfolding from_str_radix
from_str_radix_plain c d s h = rw (from_str_radix, h) refl

digits_from_step :
    (acc c d q : ℕ) (s : Text)
    → to_digit 16 c ≡ some d
    → acc * 16 + d ≡ q
    → q ≤ u64_max
    → digits_from 16 u64_max acc (c ∷ s) ≡ digits_from 16 u64_max q s
unfolding digits_from
digits_from_step acc c d q s e lead fits = rw (digits_from, e, lead) (ground (arith, fits))

-- What has been read is the number's leading part.
digits_from-hex_digits :
    (v n : ℕ) → v ≤ u64_max → digits_from 16 u64_max (v / 16 ^ n) (hex_digits n v) ≡ some v
unfolding digits_from hex_digits
digits_from-hex_digits v zero h = ap (λ (t : ℕ). some t) (div-one v)
digits_from-hex_digits v (suc n) h =
    let q = v / 16 ^ n in
    let digit = to_digit-hex_digit (q % 16) (omega arith) in
    let lead : v / 16 ^ suc n * 16 + q % 16 ≡ q = omega (arith, div-step v n) in
    let fits : q ≤ u64_max = omega (arith, div-le_self v (16 ^ n)) in
    digits_from_step (v / 16 ^ suc n) (hex_digit (q % 16)) (q % 16) q (hex_digits n v) digit lead
      fits
    ∙ digits_from-hex_digits v n h

-- A seed of 64 bits that is written out reads back as the same seed.
pub visit_seed-show_seed : (v : ℕ) → v < 2 ^ 64 → visit_seed (str_value (show_seed v)) ≡ some v
unfolding visit_seed parse_seed show_seed hex_digits
visit_seed-show_seed v h =
    let none_yet : v / 16 ^ 16 ≡ 0 = div-eq_of_lt h in
    rw (parse_seed, strip_prefix-append (codes "0x") (hex_digits 16 v))
      (from_str_radix_plain (hex_digit (v / 16 ^ 15 % 16)) (hex_digit (v / 16 ^ 14 % 16))
          (hex_digits 14 v) (hex_digit_plain (v / 16 ^ 15 % 16) (omega arith))
        ∙ ap (λ (t : ℕ). digits_from 16 u64_max t (hex_digits 16 v)) (sym none_yet)
        ∙ digits_from-hex_digits v 16 (omega (arith, h)))
