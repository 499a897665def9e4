-- ===== src/Text/Utf8.antt =====
-- `String::from_utf8`: bytes to code points, refusing overlong forms and surrogates.
use mathlib.Core.Option
use v6proxy.Prelude.{
  ℕ, zero, suc, ◌+◌, ◌-◌, ◌*◌, ◌≡◌, refl, ◌&&◌, Option, none, some, List, [], ◌∷◌, if◌then◌else◌,
  ◌==◌, eq_ℕ, leb, ltb, All, arith, ◌<◌,
}
use v6proxy.Text.{Text}

-- What a lead byte announces: the number of continuation bytes, the bits that it brings, and the
-- range of the first continuation byte.
lead : ℕ → Option (ℕ × ℕ × ℕ × ℕ)
lead b =
    if leb 0xc2 b && leb b 0xdf
    then some (1, b - 0xc0, 0x80, 0xbf)
    else if b == 0xe0
    then some (2, 0, 0xa0, 0xbf)
    else if b == 0xed
    then some (2, 0xd, 0x80, 0x9f)
    else if leb 0xe1 b && leb b 0xef
    then some (2, b - 0xe0, 0x80, 0xbf)
    else if b == 0xf0
    then some (3, 0, 0x90, 0xbf)
    else if leb 0xf1 b && leb b 0xf3
    then some (3, b - 0xf0, 0x80, 0xbf)
    else if b == 0xf4
    then some (3, 4, 0x80, 0x8f)
    else none

-- `pending` continuation bytes are still due, the next of them between `lo` and `hi`.
decode : ℕ → ℕ → ℕ → ℕ → List ℕ → Option Text
decode zero acc lo hi [] = some []
decode (suc pending) acc lo hi [] = none
decode zero acc lo hi (b ∷ bytes) =
    let ascii = Option.map (λ (s : Text). b ∷ s) (decode 0 0 0 0 bytes) in
    let longer : Option Text = elim (lead b) [
      | none ↦ none
      | some (n, bits, lo', hi') ↦ decode n bits lo' hi' bytes
    ] in
    if ltb b 0x80 then ascii else longer
decode (suc zero) acc lo hi (b ∷ bytes) =
    let done = Option.map (λ (s : Text). (acc * 64 + (b - 0x80)) ∷ s) (decode 0 0 0 0 bytes) in
    if leb lo b && leb b hi then done else none
decode (suc (suc pending)) acc lo hi (b ∷ bytes) =
    let more = decode (suc pending) (acc * 64 + (b - 0x80)) 0x80 0xbf bytes in
    if leb lo b && leb b hi then more else none

unfoldable pub from_utf8 : List ℕ → Option Text
unfolding decode lead
from_utf8 bytes = decode 0 0 0 0 bytes

-- Bytes below 128 are their own code points.
pub from_utf8_ascii : (bytes : List ℕ) → All (λ b. b < 0x80) bytes → from_utf8 bytes ≡ some bytes
unfolding from_utf8
from_utf8_ascii [] h = refl
from_utf8_ascii (b ∷ bytes) h = ground (arith, from_utf8_ascii bytes h.1)

from_utf8_tests :
    (from_utf8 (0x61 ∷ 0xc3 ∷ 0xa9 ∷ 0xe2 ∷ 0x82 ∷ 0xac ∷ []) ≡ some (0x61 ∷ 0xe9 ∷ 0x20ac ∷ []))
    × (from_utf8 (0xf0 ∷ 0x9f ∷ 0x98 ∷ 0x80 ∷ []) ≡ some (0x1f600 ∷ []))
    × (from_utf8 (0xed ∷ 0xa0 ∷ 0x80 ∷ []) ≡ none)
    × (from_utf8 (0xc0 ∷ 0x80 ∷ []) ≡ none)
    × (from_utf8 (0xe2 ∷ 0x82 ∷ []) ≡ none)
unfolding from_utf8
from_utf8_tests = (refl, refl, refl, refl, refl)
