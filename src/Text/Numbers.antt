-- ===== src/Text/Numbers.antt =====
-- Numbers in texts: `from_str_radix` and `parse` of Rust's unsigned integers.
use v6proxy.Prelude.{
  ℕ, ◌+◌, ◌-◌, ◌*◌, ◌≤◌, ◌≡◌, ◌&&◌, Option, none, some, [], ◌∷◌, if◌then◌else◌, ◌==◌, eq_ℕ, leb,
  ltb, arith, Option-cases, inl, inr,
}
use v6proxy.Text.{Text}

-- `char::to_digit`
unfoldable pub to_digit : ℕ → ℕ → Option ℕ
to_digit radix c =
    let value =
      if leb b'0' c && leb c b'9'
      then c - b'0'
      else if leb b'a' c && leb c b'z'
      then c - b'a' + 10
      else if leb b'A' c && leb c b'Z'
      then c - b'A' + 10
      else radix in
    if ltb value radix then some value else none

-- The digits, with the overflow check of the type whose largest value is `most`.
unfoldable pub digits_from : ℕ → ℕ → ℕ → Text → Option ℕ
digits_from radix most acc [] = some acc
digits_from radix most acc (c ∷ s) = elim (to_digit radix c) [
  | none ↦ none
  | some d ↦
      let more = digits_from radix most (acc * radix + d) s in
      if leb (acc * radix + d) most then more else none
]

-- One leading `+` is accepted; an empty text and a lone sign are not.
unfoldable pub from_str_radix : ℕ → ℕ → Text → Option ℕ
unfolding digits_from
from_str_radix radix most [] = none
from_str_radix radix most (c ∷ []) = digits_from radix most 0 (c ∷ [])
from_str_radix radix most (c ∷ d ∷ s) =
    if c == b'+' then digits_from radix most 0 (d ∷ s) else digits_from radix most 0 (c ∷ d ∷ s)

digits_from-le :
    (radix most acc : ℕ) (s : Text) (n : ℕ)
    → acc ≤ most
    → digits_from radix most acc s ≡ some n
    → n ≤ most
unfolding digits_from
digits_from-le radix most acc [] n h e = ground arith
digits_from-le radix most acc (c ∷ s) n h e = elim (Option-cases (to_digit radix c)) [
  | inl bad ↦ ground arith
  | inr (d, good) ↦ ground (arith, digits_from-le radix most (acc * radix + d) s n)
]

-- A parsed number fits the type.
pub from_str_radix-le :
    (radix most : ℕ) (s : Text) (n : ℕ) → from_str_radix radix most s ≡ some n → n ≤ most
unfolding from_str_radix
from_str_radix-le radix most [] n e = ground arith
from_str_radix-le radix most (c ∷ []) n e = digits_from-le radix most 0 (c ∷ []) n (omega arith) e
from_str_radix-le radix most (c ∷ d ∷ s) n e =
    ground (arith, digits_from-le radix most 0 (d ∷ s) n, digits_from-le radix most 0 (c ∷ d ∷ s) n)
