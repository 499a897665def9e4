-- ===== src/Dataplane/Bytes.antt =====
-- Reads from a byte slice, as Rust makes them: an index or a range out of bounds panics.
pub mod Safe
pub mod At
use v6proxy.Prelude.{
  ℕ, ◌+◌, ◌-◌, ◌*◌, ◌≤◌, ◌<◌, ◌≡◌, Bool, true, false, ◌&&◌, Option, none, some, List, if◌then◌else◌,
  leb, ltb, length, get_or, take, drop, arith,
}

abbrev pub Bytes : Type 0
Bytes = List ℕ

-- `missing` is an early `return None`. `stuck` is a loop whose fuel ran out, which the source has
-- not: theorems show that it does not happen.
pub data Parse {ℓ} (A : Type ℓ) : Type ℓ where
  found : A → Parse A
  missing : Parse A
  panic : Parse A
  stuck : Parse A

infixl 5 ◌>>=◌ ◌>>◌
abbrev pub ◌>>=◌ {ℓ κ} : {A : Type ℓ} {B : Type κ} → Parse A → (A → Parse B) → Parse B
found a >>= f = f a
missing >>= f = missing
panic >>= f = panic
stuck >>= f = stuck

abbrev pub ◌>>◌ {ℓ} : {B : Type ℓ} → Parse (Unit {0}) → Parse B → Parse B
m >> k = m >>= λ _. k

-- `if !b { return None; }`
abbrev pub require : Bool → Parse (Unit {0})
require true = found tt
require false = missing

abbrev pub of_option {ℓ} : {A : Type ℓ} → Option A → Parse A
of_option none = missing
of_option (some a) = found a

-- `xs[i]`
unfoldable pub index : Bytes → ℕ → Parse ℕ
index xs i = if ltb i (length xs) then found (get_or xs i 0) else panic

-- `&xs[a..b]`
unfoldable pub slice : Bytes → ℕ → ℕ → Parse Bytes
slice xs a b = if leb a b && leb b (length xs) then found (take (b - a) (drop a xs)) else panic

-- `u16::from_be_bytes([xs[i], xs[i + 1]])`
unfoldable pub read_u16 : Bytes → ℕ → Parse ℕ
unfolding index
read_u16 xs i = do hi ← index xs i; lo ← index xs (i + 1); found (hi * 256 + lo)

-- The code returned, with a value or without.
abbrev pub IsSafe {ℓ} : {A : Type ℓ} → Parse A → Type 0
IsSafe (found a) = Unit
IsSafe missing = Unit
IsSafe panic = ⊥
IsSafe stuck = ⊥

pub index_in_range : (xs : Bytes) (i : ℕ) → i < length xs → index xs i ≡ found (get_or xs i 0)
unfolding index
index_in_range xs i h = ground arith

pub slice_in_range :
    (xs : Bytes) (a b : ℕ) → a ≤ b → b ≤ length xs → slice xs a b ≡ found (take (b - a) (drop a xs))
unfolding slice
slice_in_range xs a b h k = ground arith

pub read_u16_in_range :
    (xs : Bytes) (i : ℕ)
    → i + 1 < length xs
    → read_u16 xs i ≡ found (get_or xs i 0 * 256 + get_or xs (i + 1) 0)
unfolding read_u16
read_u16_in_range xs i h = ground arith

pub of_option-IsSafe {ℓ} : {A : Type ℓ} (o : Option A) → IsSafe (of_option o)
of_option-IsSafe none = tt
of_option-IsSafe (some a) = tt
