-- ===== src/Config/Pool.antt =====
-- `V6Pool` of src/config.rs: an IPv6 prefix and the addresses that a hash picks in it.
pub mod Bounds
use Prim.Native.Nat.{bit_and, bit_or}
use v6proxy.Prelude.{
  ℕ, ◌+◌, ◌-◌, ◌*◌, ◌%◌, ◌^◌, ◌≤◌, Bool, true, false, Option, none, some, List, [], ◌∷◌,
  if◌then◌else◌, ◌==◌, eq_ℕ, leb, ltb, Result, ok, err, ◌>>=◌, ◌>>◌,
}
use v6proxy.Text.{Text, split}
use v6proxy.Text.Numbers.{from_str_radix}
use v6proxy.Addr.{parse_ipv6}

pub record V6Pool : Type 0 where
  pub prefix : ℕ
  pub prefix_len : ℕ

pub data PoolError : Type 0 where
  invalid_format : PoolError
  invalid_address : PoolError
  invalid_length : PoolError
  length_too_large : PoolError

-- `!0u128`
abbrev pub all_ones : ℕ
all_ones = 2 ^ 128 - 1

-- `x << k` on 128 bits
abbrev pub shl128 : ℕ → ℕ → ℕ
shl128 x k = x * 2 ^ k % 2 ^ 128

unfoldable pub prefix_mask : ℕ → ℕ
prefix_mask len = if len == 0 then 0 else shl128 all_ones (128 - len)

require : Bool → PoolError → Result PoolError (Unit {0})
require true e = ok tt
require false e = err e

or_error {ℓ} : {A : Type ℓ} → Option A → PoolError → Result PoolError A
or_error none e = err e
or_error (some a) e = ok a

pool_of_parts : List Text → Result PoolError V6Pool
unfolding require or_error
pool_of_parts (addr ∷ len ∷ []) = do
  prefix ← or_error (parse_ipv6 addr) invalid_address
  prefix_len ← or_error (from_str_radix 10 255 len) invalid_length
  require (leb prefix_len 128) length_too_large
  ok (record { prefix = bit_and prefix (prefix_mask prefix_len); prefix_len = prefix_len })
pool_of_parts _ = err invalid_format

unfoldable pub parse : Text → Result PoolError V6Pool
unfolding pool_of_parts
parse s = pool_of_parts (split b'/' s)

-- `1u128 << host_bits`, and the mask of the host bits
unfoldable pub host_mask : ℕ → ℕ
host_mask host_bits = if leb 128 host_bits then all_ones else shl128 1 host_bits - 1

-- Neither the all-zeros nor the all-ones host.
unfoldable pub avoid_reserved : ℕ → ℕ → ℕ
avoid_reserved mask host = if host == 0 then 1 else if host == mask then mask - 1 else host

unfoldable pub host_at : V6Pool → ℕ → ℕ
host_at pool hash =
    let mask = host_mask (128 - pool.prefix_len) in
    bit_or pool.prefix (avoid_reserved mask (bit_and hash mask))
