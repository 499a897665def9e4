-- ===== src/Dataplane/Quic.antt =====
-- `extract_quic_sni` of src/dataplane/quic.rs: the name in a QUIC Initial packet. The HKDF, AES and
-- AES-GCM crates are a parameter.
pub mod Safety
use Prim.Native.Nat.{bit_or, bit_xor}
use v6proxy.Prelude.{
  ℕ, zero, suc, ◌+◌, ◌-◌, ◌*◌, ◌/◌, ◌%◌, ◌^◌, ◌≤◌, ◌≡◌, Bool, true, false, Option, none, some, List,
  [], ◌∷◌, ◌++◌, if◌then◌else◌, leb, ltb, ◌==◌, eq_ℕ, length, take, drop,
}
use v6proxy.Text.{Text, codes}
use v6proxy.Dataplane.Bytes.{
  Bytes, Parse, found, missing, panic, ◌>>=◌, ◌>>◌, require, of_option, index, slice,
}
use v6proxy.Dataplane.Varint.{read_varint}
use v6proxy.Dataplane.Frames.{extract_crypto_data}
use v6proxy.Dataplane.Sni.{extract_tls_sni_from_handshake}

-- What the source uses of the crates, with the lengths that their types promise.
pub record Crypto : Type 1 where
  pub Hkdf : Type 0
  pub extract : Bytes → Bytes → Hkdf
  pub from_prk : Bytes → Option Hkdf
  pub expand : Hkdf → Bytes → ℕ → Option Bytes
  pub expand_length :
      (k : Hkdf) (info : Bytes) (n : ℕ) (out : Bytes) → expand k info n ≡ some out → length out ≡ n
  pub encrypt_block : Bytes → Bytes → Bytes
  pub encrypt_block_length : (key block : Bytes) → length (encrypt_block key block) ≡ length block
  pub decrypt : Bytes → Bytes → Bytes → Bytes → Option Bytes

-- `xs[i] = v`
unfoldable pub set : Bytes → ℕ → ℕ → Parse Bytes
set xs i v = if ltb i (length xs) then found (take i xs ++ v ∷ drop (i + 1) xs) else panic

abbrev pub quic_v1_salt : Bytes
quic_v1_salt =
    0x38 ∷ 0x76 ∷ 0x2c ∷ 0xf7 ∷ 0xf5 ∷ 0x59 ∷ 0x34 ∷ 0xb3 ∷ 0x4d ∷ 0x17 ∷ 0x9a ∷ 0xe6 ∷ 0xa4 ∷ 0xc8
    ∷ 0x0c ∷ 0xad ∷ 0xcc ∷ 0xbb ∷ 0x7f ∷ 0x0a ∷ []

abbrev pub quic_v2_salt : Bytes
quic_v2_salt =
    0x0d ∷ 0xed ∷ 0xe3 ∷ 0xde ∷ 0xf7 ∷ 0x00 ∷ 0xa6 ∷ 0xdb ∷ 0x81 ∷ 0x93 ∷ 0x81 ∷ 0xbe ∷ 0x6e ∷ 0x26
    ∷ 0x9d ∷ 0xcb ∷ 0xf9 ∷ 0xbd ∷ 0x2e ∷ 0xd9 ∷ []

unfoldable pub salt_of : ℕ → Option Bytes
salt_of version =
    if version == 0x00000001
    then some quic_v1_salt
    else if version == 0x6b3343cf
    then some quic_v2_salt
    else none

-- The conversions `as u8` keep the low eight bits.
unfoldable pub hkdf_label : Bytes → Bytes → ℕ → Bytes
hkdf_label label context len =
    (len / 256 % 256)
    ∷ (len % 256)
    ∷ ((6 + length label) % 256)
    ∷ (codes "tls13 " ++ (label ++ (length context % 256) ∷ context))

pub record InitialKeys : Type 0 where
  pub key : Bytes
  pub iv : Bytes
  pub hp : Bytes

module _ (c : Crypto) where
  unfoldable pub derive_initial_keys : Bytes → Bytes → Parse InitialKeys
  derive_initial_keys dcid salt = do
    client_secret ←
        of_option (c.expand (c.extract salt dcid) (hkdf_label (codes "client in") [] 32) 32)
    client_hk ← of_option (c.from_prk client_secret)
    key ← of_option (c.expand client_hk (hkdf_label (codes "quic key") [] 16) 16)
    iv ← of_option (c.expand client_hk (hkdf_label (codes "quic iv") [] 12) 12)
    hp ← of_option (c.expand client_hk (hkdf_label (codes "quic hp") [] 16) 16)
    found (record { key = key; iv = iv; hp = hp })

  unfoldable pub compute_hp_mask : Bytes → Bytes → Parse Bytes
  compute_hp_mask hp_key sample = do
    block ← slice sample 0 16
    slice (c.encrypt_block hp_key block) 0 5

  -- `for i in 0..pn_len { header[pn_offset + i] ^= mask[1 + i]; }`, over the rounds left.
  unfoldable pub unmask : ℕ → ℕ → ℕ → Bytes → Bytes → Parse Bytes
  unmask zero i pn_offset mask header = found header
  unmask (suc left) i pn_offset mask header = do
    h ← index header (pn_offset + i)
    m ← index mask (1 + i)
    header' ← set header (pn_offset + i) (bit_xor h m)
    unmask left (i + 1) pn_offset mask header'

  -- `for i in 0..pn_len { pn = (pn << 8) | header[pn_offset + i] as u64; }`
  unfoldable pub packet_number : ℕ → ℕ → ℕ → ℕ → Bytes → Parse ℕ
  packet_number zero i pn_offset pn header = found pn
  packet_number (suc left) i pn_offset pn header = do
    h ← index header (pn_offset + i)
    packet_number left (i + 1) pn_offset (bit_or (pn * 2 ^ 8 % 2 ^ 64) h) header

  -- `for i in 0..8 { nonce[12 - 8 + i] ^= pn_bytes[i]; }`
  unfoldable pub xor_nonce : ℕ → ℕ → ℕ → Bytes → Parse Bytes
  xor_nonce zero i pn nonce = found nonce
  xor_nonce (suc left) i pn nonce = do
    n ← index nonce (12 - 8 + i)
    nonce' ← set nonce (12 - 8 + i) (bit_xor n (pn / 2 ^ (8 * (7 - i)) % 256))
    xor_nonce left (i + 1) pn nonce'

  -- From the removal of the header protection to the plaintext; `pos` is the offset of the packet
  -- number.
  unfoldable pub decrypt_initial : Bytes → InitialKeys → ℕ → ℕ → Parse Bytes
  decrypt_initial packet keys pos payload_len = do
    require (leb (pos + 4 + 16) (length packet))
    sample ← slice packet (pos + 4) (pos + 4 + 16)
    mask ← compute_hp_mask keys.hp sample
    protected ← slice packet 0 (pos + payload_len)
    first ← index protected 0
    m0 ← index mask 0
    opened ← set protected 0 (bit_xor first (m0 % 16))
    h0 ← index opened 0
    let pn_len = h0 % 4 + 1
    require (leb (pos + pn_len) (length opened))
    header ← unmask pn_len 0 pos mask opened
    pn ← packet_number pn_len 0 pos 0 header
    nonce ← xor_nonce 8 0 pn keys.iv
    aad ← slice header 0 (pos + pn_len)
    require (ltb (pos + pn_len) (pos + payload_len))
    ciphertext ← slice packet (pos + pn_len) (pos + payload_len)
    of_option (c.decrypt keys.key nonce aad ciphertext)

  -- From the source connection id on; `pos` is its offset.
  unfoldable pub initial_payload : Bytes → Bytes → Bytes → ℕ → Parse Bytes
  initial_payload packet dcid salt pos = do
    require (ltb pos (length packet))
    scid_len ← index packet pos
    let token_at = pos + (1 + scid_len)
    require (ltb token_at (length packet))
    rest ← slice packet token_at (length packet)
    (token_len, token_read) ← read_varint rest
    let length_at = token_at + (token_read + token_len)
    require (ltb length_at (length packet))
    rest' ← slice packet length_at (length packet)
    (payload_len, length_read) ← read_varint rest'
    let payload_at = length_at + length_read
    require (leb (payload_at + payload_len) (length packet))
    keys ← derive_initial_keys dcid salt
    decrypt_initial packet keys payload_at payload_len

  unfoldable pub extract_quic_sni : Bytes → Parse Text
  extract_quic_sni packet = do
    require (leb 5 (length packet))
    first ← index packet 0
    require (first / 128 % 2 == 1)
    require (first / 16 % 4 == 0)
    v1 ← index packet 1
    v2 ← index packet 2
    v3 ← index packet 3
    v4 ← index packet 4
    salt ← of_option (salt_of (((v1 * 256 + v2) * 256 + v3) * 256 + v4))
    require (ltb 5 (length packet))
    dcid_len ← index packet 5
    require (leb (6 + dcid_len) (length packet))
    dcid ← slice packet 6 (6 + dcid_len)
    plaintext ← initial_payload packet dcid salt (6 + dcid_len)
    client_hello ← extract_crypto_data plaintext
    extract_tls_sni_from_handshake client_hello
