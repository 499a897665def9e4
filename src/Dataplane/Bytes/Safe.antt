-- ===== src/Dataplane/Bytes/Safe.antt =====
-- Rules for showing that a chain of reads does not panic.
use v6proxy.Prelude.{
  if◌then◌else◌, not, is_empty, [], ◌∷◌, ℕ, ◌+◌, ◌-◌, ◌*◌, ◌≤◌, ◌<◌, ◌≡◌, refl, Bool, true, false,
  length, get_or, take, drop, length-take, length-drop, arith,
}
use v6proxy.Dataplane.Bytes.{
  Bytes, Parse, found, missing, panic, stuck, ◌>>=◌, ◌>>◌, require, index, slice, read_u16, IsSafe,
  index_in_range, slice_in_range, read_u16_in_range,
}

pub nonempty : (xs : Bytes) → not (is_empty xs) ≡ true → 0 < length xs
nonempty [] h = absurd (ground arith)
nonempty (x ∷ xs) h = omega arith

module _ {ℓ} {A : Type ℓ} where
  pub require-IsSafe : (b : Bool) (k : Parse A) → (b ≡ true → IsSafe k) → IsSafe (require b >> k)
  require-IsSafe true k h = h refl
  require-IsSafe false k h = tt

  pub index-IsSafe :
      (xs : Bytes) (i : ℕ) (f : ℕ → Parse A)
      → i < length xs
      → ((v : ℕ) → IsSafe (f v))
      → IsSafe (index xs i >>= f)
  index-IsSafe xs i f h k = rw (index_in_range xs i h) (k (get_or xs i 0))

  pub read_u16-IsSafe :
      (xs : Bytes) (i : ℕ) (f : ℕ → Parse A)
      → i + 1 < length xs
      → ((v : ℕ) → IsSafe (f v))
      → IsSafe (read_u16 xs i >>= f)
  read_u16-IsSafe xs i f h k =
      rw (read_u16_in_range xs i h) (k (get_or xs i 0 * 256 + get_or xs (i + 1) 0))

  pub slice-IsSafe :
      (xs : Bytes) (a b : ℕ) (f : Bytes → Parse A)
      → a ≤ b
      → b ≤ length xs
      → ((ys : Bytes) → length ys ≡ b - a → IsSafe (f ys))
      → IsSafe (slice xs a b >>= f)
  slice-IsSafe xs a b f h h' k = rw (slice_in_range xs a b h h') (
      k (take (b - a) (drop a xs))
        (omega (arith, length-take (b - a) (drop a xs), length-drop a xs)))

  pub bind-IsSafe {κ} :
      {B : Type κ} (m : Parse B) (f : B → Parse A)
      → IsSafe m
      → ((b : B) → m ≡ found b → IsSafe (f b))
      → IsSafe (m >>= f)
  bind-IsSafe (found b) f h k = k b refl
  bind-IsSafe missing f h k = tt
  bind-IsSafe panic f h k = elim h [ ]
  bind-IsSafe stuck f h k = elim h [ ]

  pub if-IsSafe :
      (b : Bool) (m n : Parse A)
      → (b ≡ true → IsSafe m)
      → (b ≡ false → IsSafe n)
      → IsSafe (if b then m else n)
  if-IsSafe true m n h k = h refl
  if-IsSafe false m n h k = k refl
