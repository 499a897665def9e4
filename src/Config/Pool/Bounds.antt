-- ===== src/Config/Pool/Bounds.antt =====
-- Where the addresses of a pool lie.
use Prim.Native.Nat.{bit_and, bit_or}
use native.Mathlib.Nat.{
  pow-suc, div-add-mod', mod-lt, mod-eq_of_lt, add_comm, mul-add-div_right, div-eq_of_lt,
  add-mul-mod_self_right, mul-mod_left,
}
use v6proxy.Prelude.{
  ℕ, zero, suc, ◌+◌, ◌-◌, ◌*◌, ◌/◌, ◌%◌, ◌^◌, ◌≤◌, ◌<◌, ◌≡◌, sym, ap, ◌∙◌, ◌≢◌, arith, List, [],
  ◌∷◌, ◌==◌, eq_ℕ, leb, ok, Bool-cases, leb→le, subst, Option-cases, inl, inr,
}
use v6proxy.Prelude.Bits.{bit_or-shifted, bit_and-low_mask, pow-add, pow_pos, and_shifted_fields}
use v6proxy.Text.{Text, split}
use v6proxy.Text.Numbers.{from_str_radix}
use v6proxy.Addr.{parse_ipv6}
use v6proxy.Config.Pool.{
  V6Pool, pool_of_parts, all_ones, prefix_mask, parse, host_mask, avoid_reserved, host_at,
}

-- A pool has no bits below its prefix.
pub record IsPool (p : V6Pool) : Type 0 where
  pub fits : p.prefix_len ≤ 128
  pub aligned : p.prefix % 2 ^ (128 - p.prefix_len) ≡ 0

le_product : (x y : ℕ) → 0 < x → y ≤ x * y
le_product x y h = grind arith

pow_below : (k : ℕ) → k < 128 → 2 * 2 ^ k ≤ 2 ^ 128
pow_below k h =
    let e : 127 - k + suc k ≡ 128 = omega arith in
    let product : 2 ^ 128 ≡ 2 ^ (127 - k) * 2 ^ suc k =
      sym (ap (λ (t : ℕ). 2 ^ t) e) ∙ pow-add (127 - k) (suc k) in
    omega (arith, product, pow-suc 2 k, le_product (2 ^ (127 - k)) (2 ^ suc k) (pow_pos (127 - k)))

host_mask_lem : (k : ℕ) → k ≤ 128 → host_mask k ≡ 2 ^ k - 1
unfolding host_mask
host_mask_lem k h = elim (Bool-cases (leb 128 k)) [
  | inl full ↦ let e : k ≡ 128 = ground arith in rw (full, e)
  | inr part ↦
      let small : 2 * 2 ^ k ≤ 2 ^ 128 = pow_below k (ground arith) in
      let same : 1 * 2 ^ k % 2 ^ 128 ≡ 2 ^ k = omega (arith, pow_pos k) in rw (part, same)
]

avoid_reserved-lt : (k host : ℕ) → 0 < k → host < 2 ^ k → avoid_reserved (2 ^ k - 1) host < 2 ^ k
unfolding avoid_reserved
avoid_reserved-lt zero host pos h = absurd (omega arith)
avoid_reserved-lt (suc k) host pos h = ground (arith, pow-suc 2 k, pow_pos k)

avoid_reserved-ne :
    (k host : ℕ)
    → 1 < k
    → host < 2 ^ k
    → (avoid_reserved (2 ^ k - 1) host ≢ 0) × (avoid_reserved (2 ^ k - 1) host ≢ 2 ^ k - 1)
unfolding avoid_reserved
avoid_reserved-ne zero host pos h = absurd (omega arith)
avoid_reserved-ne (suc zero) host pos h = absurd (omega arith)
avoid_reserved-ne (suc (suc k)) host pos h =
    ground (arith, pow-suc 2 (suc k), pow-suc 2 k, pow_pos k)

below_product : (a b k : ℕ) → a < b → 0 < k → a * k < b * k
below_product a b k h pos = grind arith

fields_div : (q m r : ℕ) → r < m → (q * m + r) / m ≡ q
fields_div q m r h =
    let pos : 0 < m = omega arith in
    omega (arith, mul-add-div_right {m = m} pos q r, div-eq_of_lt h)

fields_mod : (q m r : ℕ) → r < m → (q * m + r) % m ≡ r
fields_mod q m r h = rw add_comm (add-mul-mod_self_right r q m ∙ mod-eq_of_lt h)

mul-mod-mul_right : (k x j : ℕ) → 0 < j → 0 < k → x * k % (j * k) ≡ x % j * k
mul-mod-mul_right k x j pos pos' =
    let sum : x * k ≡ x % j * k + x / j * (j * k) =
      omega (arith, ap (λ (t : ℕ). t * k) (div-add-mod' x j)) in
    let small : x % j * k < j * k = below_product (x % j) j k (mod-lt x pos) pos' in
    ap (λ (t : ℕ). t % (j * k)) sum
    ∙ add-mul-mod_self_right (x % j * k) (x / j) (j * k)
    ∙ mod-eq_of_lt small

-- Where the mask of a prefix has its zeros.
prefix_mask_lem : (len : ℕ) → len ≤ 128 → (m : ℕ) × (prefix_mask len ≡ m * 2 ^ (128 - len))
unfolding prefix_mask
prefix_mask_lem len h = elim (Bool-cases (len == 0)) [
  | inl whole ↦ (0, rw whole (omega arith))
  | inr part ↦
      let k = 128 - len in
      let product : 2 ^ 128 ≡ 2 ^ len * 2 ^ k =
        sym (ap (λ (t : ℕ). 2 ^ t) {y = 128} (omega arith)) ∙ pow-add len k in
      (
        all_ones % 2 ^ len,
        rw part (
            ap (λ (t : ℕ). all_ones * 2 ^ k % t) product
            ∙ mul-mod-mul_right (2 ^ k) all_ones (2 ^ len) (pow_pos len) (pow_pos k)),
      )
]

masked-IsPool :
    (prefix len : ℕ)
    → len ≤ 128
    → IsPool (record { prefix = bit_and prefix (prefix_mask len); prefix_len = len })
masked-IsPool prefix len h =
    let k = 128 - len in
    let (m, zeros) = prefix_mask_lem len h in
    record {
      fits = h;
      aligned =
          ap (λ (t : ℕ). bit_and prefix t % 2 ^ k) zeros
          ∙ ap (λ (t : ℕ). bit_and t (m * 2 ^ k) % 2 ^ k) (sym (div-add-mod' prefix (2 ^ k)))
          ∙ ap (λ (t : ℕ). t % 2 ^ k)
              (and_shifted_fields k (prefix / 2 ^ k) (prefix % 2 ^ k) m (mod-lt prefix (pow_pos k)))
          ∙ mul-mod_left (bit_and (prefix / 2 ^ k) m) (2 ^ k);
    }

IsPool-parts : (parts : List Text) (p : V6Pool) → pool_of_parts parts ≡ ok p → IsPool p
unfolding pool_of_parts
IsPool-parts (addr ∷ len ∷ []) p h = elim (Option-cases (parse_ipv6 addr)) [
  | inl bad ↦ absurd (ground arith)
  | inr (prefix, good) ↦ elim (Option-cases (from_str_radix 10 255 len)) [
    | inl bad ↦ absurd (ground arith)
    | inr (n, good') ↦ elim (Bool-cases (leb n 128)) [
      | inl fits ↦
          let e : record { prefix = bit_and prefix (prefix_mask n); prefix_len = n } ≡ p =
            ground arith in
          subst IsPool e (masked-IsPool prefix n (leb→le n 128 fits))
      | inr over ↦ absurd (ground arith)
    ]
  ]
]
IsPool-parts parts p h = absurd (ground arith)

-- What `parse` accepts is a pool: the length is at most 128 and the bits behind the prefix are
-- zero.
pub parse-IsPool : (s : Text) (p : V6Pool) → parse s ≡ ok p → IsPool p
unfolding parse
parse-IsPool s p h = IsPool-parts (split b'/' s) p h

module _ (p : V6Pool) (hash : ℕ) (ok_pool : IsPool p) where
  host_at_sum :
      p.prefix_len < 128
      → host_at p hash
        ≡ p.prefix / 2 ^ (128 - p.prefix_len) * 2 ^ (128 - p.prefix_len)
          + avoid_reserved (2 ^ (128 - p.prefix_len) - 1) (hash % 2 ^ (128 - p.prefix_len))
  unfolding host_at
  host_at_sum h =
      let k = 128 - p.prefix_len in
      let fields : p.prefix ≡ p.prefix / 2 ^ k * 2 ^ k =
        omega (arith, div-add-mod' p.prefix (2 ^ k), ok_pool.aligned) in
      rw (host_mask_lem k (omega arith), bit_and-low_mask k hash)
        (ap (λ (t : ℕ). bit_or t (avoid_reserved (2 ^ k - 1) (hash % 2 ^ k))) fields
          ∙ bit_or-shifted k (p.prefix / 2 ^ k) (avoid_reserved (2 ^ k - 1) (hash % 2 ^ k))
              (avoid_reserved-lt k (hash % 2 ^ k) (omega arith) (mod-lt hash (pow_pos k))))

  -- In a pool of prefix length at most 127, whatever the hash, the address has the prefix of the
  -- pool.
  pub host_at-in_pool :
      p.prefix_len < 128
      → host_at p hash / 2 ^ (128 - p.prefix_len) ≡ p.prefix / 2 ^ (128 - p.prefix_len)
  host_at-in_pool h =
      let k = 128 - p.prefix_len in
      ap (λ (t : ℕ). t / 2 ^ k) (host_at_sum h)
      ∙ fields_div (p.prefix / 2 ^ k) (2 ^ k) (avoid_reserved (2 ^ k - 1) (hash % 2 ^ k))
          (avoid_reserved-lt k (hash % 2 ^ k) (omega arith) (mod-lt hash (pow_pos k)))

  -- In a pool of prefix length at most 126, whatever the hash, the host part of the address is
  -- neither all zeros nor all ones.
  pub host_at_host :
      p.prefix_len < 127
      → (host_at p hash % 2 ^ (128 - p.prefix_len) ≢ 0)
        × (host_at p hash % 2 ^ (128 - p.prefix_len) ≢ 2 ^ (128 - p.prefix_len) - 1)
  host_at_host h =
      let k = 128 - p.prefix_len in
      let host = avoid_reserved (2 ^ k - 1) (hash % 2 ^ k) in
      let part : host_at p hash % 2 ^ k ≡ host =
        ap (λ (t : ℕ). t % 2 ^ k) (host_at_sum (omega arith))
        ∙ fields_mod (p.prefix / 2 ^ k) (2 ^ k) host
            (avoid_reserved-lt k (hash % 2 ^ k) (omega arith) (mod-lt hash (pow_pos k))) in
      rw part (avoid_reserved-ne k (hash % 2 ^ k) (omega arith) (mod-lt hash (pow_pos k)))

  -- A pool of one even address never yields that address: the result is the next one, outside it.
  pub host_at_single : p.prefix_len ≡ 128 → p.prefix % 2 ≡ 0 → host_at p hash ≡ p.prefix + 1
  unfolding host_at host_mask avoid_reserved
  host_at_single full even =
      let e : 128 - p.prefix_len ≡ 0 = omega arith in
      let nothing : hash % 2 ^ 0 ≡ 0 = omega arith in
      let halves : p.prefix ≡ p.prefix / 2 * 2 ^ 1 = omega arith in
      rw (e, bit_and-low_mask 0 hash, nothing)
        (ap (λ (t : ℕ). bit_or t 1) halves
          ∙ bit_or-shifted 1 (p.prefix / 2) 1 (omega arith)
          ∙ omega arith)
