-- ===== src/Dataplane/Varint/Encode.antt =====
-- Reading a variable-length integer: no panic, and the inverse of the RFC's encoding.
use Prim.Native.Nat.{bit_or}
use v6proxy.Prelude.{
  ℕ, zero, suc, ◌+◌, ◌-◌, ◌*◌, ◌/◌, ◌%◌, ◌^◌, ◌≤◌, ◌<◌, ◌≡◌, refl, ap, ◌∙◌, not, leb, ltb, length,
  is_empty, length-append, take-append, le→leb, ltb→lt, arith, [], ◌∷◌, ◌++◌, get_or, take, drop,
  All, if◌then◌else◌, leb→le, subst, inl, inr, Bool-cases,
}
use v6proxy.Prelude.Bits.{bit_or-shifted, pow_pos}
use v6proxy.Dataplane.Bytes.{Bytes, found, IsSafe, index_in_range}
use v6proxy.Dataplane.Bytes.Safe.{nonempty, require-IsSafe, index-IsSafe, bind-IsSafe}
use v6proxy.Dataplane.Varint.{varint_loop, read_varint}

varint_loop-IsSafe :
    (left i val : ℕ) (xs : Bytes) → i + left ≤ length xs → IsSafe (varint_loop left i val xs)
unfolding varint_loop
varint_loop-IsSafe zero i val xs h = tt
varint_loop-IsSafe (suc left) i val xs h =
    index-IsSafe xs i _ (omega arith)
      λ b. varint_loop-IsSafe left (i + 1) (bit_or (val * 2 ^ 8) b) xs (omega arith)

-- `read_varint` never indexes out of bounds.
pub read_varint-IsSafe : (xs : Bytes) → IsSafe (read_varint xs)
unfolding read_varint
read_varint-IsSafe xs = require-IsSafe (not (is_empty xs)) _ λ some_byte.
    index-IsSafe xs 0 _ (nonempty xs some_byte) λ first.
      require-IsSafe (leb (2 ^ (first / 64)) (length xs)) _ λ long.
        let long' : 2 ^ (first / 64) ≤ length xs = leb→le (2 ^ (first / 64)) (length xs) long in
        bind-IsSafe (varint_loop (2 ^ (first / 64) - 1) 1 (first % 64) xs) _
          (varint_loop-IsSafe (2 ^ (first / 64) - 1) 1 (first % 64) xs
            (omega (arith, pow_pos (first / 64))))
          λ val _. tt

-- The value of big-endian bytes behind `val`.
big_endian : ℕ → Bytes → ℕ
big_endian val [] = val
big_endian val (b ∷ bs) = big_endian (val * 256 + b) bs

abbrev pub IsByte : ℕ → Type 0
IsByte b = b < 256

drop_step : (xs : Bytes) (i : ℕ) → i < length xs → drop i xs ≡ get_or xs i 0 ∷ drop (i + 1) xs
drop_step [] i h = absurd (omega arith)
drop_step (x ∷ xs) zero h = refl
drop_step (x ∷ xs) (suc i) h =
    drop_step xs i (omega arith)
    ∙ ap (λ (t : ℕ). get_or xs i 0 ∷ drop t (x ∷ xs)) {x = suc (i + 1)} {y = suc i + 1}
        (omega arith)

varint_loop-eq-big_endian :
    (left i val : ℕ) (xs : Bytes)
    → i + left ≤ length xs
    → All IsByte (take left (drop i xs))
    → varint_loop left i val xs ≡ found (big_endian val (take left (drop i xs)))
unfolding varint_loop big_endian
varint_loop-eq-big_endian zero i val xs h b = refl
varint_loop-eq-big_endian (suc left) i val xs h b =
    let step : drop i xs ≡ get_or xs i 0 ∷ drop (i + 1) xs = drop_step xs i (omega arith) in
    let bytes : All IsByte (take (suc left) (get_or xs i 0 ∷ drop (i + 1) xs)) =
      subst (λ t. All IsByte (take (suc left) t)) step b in
    rw (step, index_in_range xs i (omega arith), bit_or-shifted 8 val (get_or xs i 0) bytes.0)
      (varint_loop-eq-big_endian left (i + 1) (val * 256 + get_or xs i 0) xs (omega arith) bytes.1)

-- RFC 9000, section 16.
unfoldable pub encode_varint : ℕ → Bytes
encode_varint v =
    if ltb v (2 ^ 6)
    then v ∷ []
    else if ltb v (2 ^ 14)
    then (0x40 + v / 2 ^ 8) ∷ (v % 256) ∷ []
    else if ltb v (2 ^ 30)
    then (0x80 + v / 2 ^ 24) ∷ (v / 2 ^ 16 % 256) ∷ (v / 2 ^ 8 % 256) ∷ (v % 256) ∷ []
    else (0xc0 + v / 2 ^ 56)
      ∷ (v / 2 ^ 48 % 256)
      ∷ (v / 2 ^ 40 % 256)
      ∷ (v / 2 ^ 32 % 256)
      ∷ (v / 2 ^ 24 % 256)
      ∷ (v / 2 ^ 16 % 256)
      ∷ (v / 2 ^ 8 % 256)
      ∷ (v % 256)
      ∷ []

-- a varint whose first byte announces `2 ^ k` bytes
read_varint_of_bytes :
    (k first : ℕ) (bytes rest : Bytes)
    → first / 64 ≡ k
    → length bytes ≡ 2 ^ k - 1
    → All IsByte bytes
    → read_varint (first ∷ bytes ++ rest) ≡ found (big_endian (first % 64) bytes, 2 ^ k)
unfolding read_varint
read_varint_of_bytes k first bytes rest e n b =
    let xs = first ∷ bytes ++ rest in
    let size : 2 ^ k ≤ length xs = omega (arith, n, length-append {0} bytes rest, pow_pos k) in
    let front : take (2 ^ k - 1) (drop 1 xs) ≡ bytes = rw (← n) (take-append bytes rest) in
    rw (
      index_in_range xs 0 (omega arith),
      e,
      le→leb (2 ^ k) (length xs) size,
      varint_loop-eq-big_endian (2 ^ k - 1) 1 (first % 64) xs (omega (arith, pow_pos k))
          (rw front b),
      front,
    )

-- Reading the encoding of a number below 2 ^ 62, whatever follows it, gives back the number and the
-- length of its encoding.
pub read_varint-encode_varint :
    (v : ℕ) (rest : Bytes)
    → v < 2 ^ 62
    → read_varint (encode_varint v ++ rest) ≡ found (v, length (encode_varint v))
unfolding encode_varint big_endian
read_varint-encode_varint v rest small = elim (Bool-cases (ltb v (2 ^ 6))) [
  | inl one ↦
      let h : v < 2 ^ 6 = ltb→lt v (2 ^ 6) one in
      rw one (
        read_varint_of_bytes 0 v [] rest (omega arith) refl tt
        ∙ ap (λ (t : ℕ). found (t, 2 ^ 0)) (omega arith))
  | inr more ↦ elim (Bool-cases (ltb v (2 ^ 14))) [
    | inl two ↦
        let h : v < 2 ^ 14 = ltb→lt v (2 ^ 14) two in
        rw (more, two)
          (read_varint_of_bytes 1 (0x40 + v / 2 ^ 8) ((v % 256) ∷ []) rest (omega arith) refl
              (omega arith)
            ∙ ap (λ (t : ℕ). found (t, 2 ^ 1)) (omega arith))
    | inr more' ↦ elim (Bool-cases (ltb v (2 ^ 30))) [
      | inl four ↦
          let h : v < 2 ^ 30 = ltb→lt v (2 ^ 30) four in
          rw (more, more', four)
            (read_varint_of_bytes 2 (0x80 + v / 2 ^ 24)
                ((v / 2 ^ 16 % 256) ∷ (v / 2 ^ 8 % 256) ∷ (v % 256) ∷ []) rest (omega arith) refl
                (omega arith)
              ∙ ap (λ (t : ℕ). found (t, 2 ^ 2)) (omega arith))
      | inr eight ↦
          rw (more, more', eight)
            (read_varint_of_bytes 3 (0xc0 + v / 2 ^ 56)
                ((v / 2 ^ 48 % 256)
                  ∷ (v / 2 ^ 40 % 256)
                  ∷ (v / 2 ^ 32 % 256)
                  ∷ (v / 2 ^ 24 % 256)
                  ∷ (v / 2 ^ 16 % 256)
                  ∷ (v / 2 ^ 8 % 256)
                  ∷ (v % 256)
                  ∷ [])
                rest (omega arith) refl (omega arith)
              ∙ ap (λ (t : ℕ). found (t, 2 ^ 3)) (omega arith))
    ]
  ]
]
