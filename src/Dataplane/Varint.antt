-- ===== src/Dataplane/Varint.antt =====
-- `read_varint` of src/dataplane/quic.rs: RFC 9000 variable-length integers.
pub mod Encode
use Prim.Native.Nat.{bit_or}
use v6proxy.Prelude.{
  ℕ, zero, suc, ◌+◌, ◌-◌, ◌*◌, ◌/◌, ◌%◌, ◌^◌, ◌≤◌, Bool, not, leb, length, is_empty,
}
use v6proxy.Dataplane.Bytes.{Bytes, Parse, found, ◌>>=◌, ◌>>◌, require, index}

-- `for i in 1..len { val = (val << 8) | data[i] as u64; }`, over the rounds left.
unfoldable pub varint_loop : ℕ → ℕ → ℕ → Bytes → Parse ℕ
varint_loop zero i val xs = found val
varint_loop (suc left) i val xs = do
  b ← index xs i
  varint_loop left (i + 1) (bit_or (val * 2 ^ 8) b) xs

-- The value and the number of bytes read. `>> 6` and `& 0x3f` of a byte are `/ 64` and `% 64`.
unfoldable pub read_varint : Bytes → Parse (ℕ × ℕ)
read_varint xs = do
  require (not (is_empty xs))
  first ← index xs 0
  let len = 2 ^ (first / 64)
  require (leb len (length xs))
  val ← varint_loop (len - 1) 1 (first % 64) xs
  found (val, len)
