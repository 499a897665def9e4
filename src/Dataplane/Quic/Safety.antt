-- ===== src/Dataplane/Quic/Safety.antt =====
-- No datagram makes the reader of Initial packets panic.
use Prim.Native.Nat.{bit_or, bit_xor}
use v6proxy.Prelude.{
  ℕ, zero, suc, ◌+◌, ◌-◌, ◌*◌, ◌/◌, ◌%◌, ◌^◌, ◌≤◌, ◌<◌, ◌≡◌, refl, sym, Option, none, some, [], ◌∷◌,
  ◌++◌, leb, ltb, ◌==◌, eq_ℕ, length, take, drop, leb→le, ltb→lt, length-append, length-take,
  length-drop, arith, get_or,
}
use v6proxy.Text.{codes}
use v6proxy.Dataplane.Bytes.{
  Bytes, Parse, found, missing, panic, stuck, ◌>>=◌, of_option, IsSafe, of_option-IsSafe,
  index_in_range, slice_in_range,
}
use v6proxy.Dataplane.Bytes.Safe.{require-IsSafe, index-IsSafe, slice-IsSafe, bind-IsSafe}
use v6proxy.Dataplane.Varint.{read_varint}
use v6proxy.Dataplane.Varint.Encode.{read_varint-IsSafe}
use v6proxy.Dataplane.Frames.{extract_crypto_data}
use v6proxy.Dataplane.Frames.Laws.{extract_crypto_data-IsSafe}
use v6proxy.Dataplane.Sni.Safety.{extract_tls_sni_from_handshake-IsSafe}
use v6proxy.Dataplane.Quic.{
  Crypto, set, salt_of, hkdf_label, InitialKeys, derive_initial_keys, compute_hp_mask, unmask,
  packet_number, xor_nonce, decrypt_initial, initial_payload, extract_quic_sni,
}

-- The reader returns, and bytes that it returns have the given length.
abbrev HasLength : ℕ → Parse Bytes → Type 0
HasLength n (found xs) = length xs ≡ n
HasLength n missing = Unit
HasLength n panic = ⊥
HasLength n stuck = ⊥

set_in_range :
    (xs : Bytes) (i v : ℕ) → i < length xs → set xs i v ≡ found (take i xs ++ v ∷ drop (i + 1) xs)
unfolding set
set_in_range xs i v h = ground arith

set_same_length :
    (xs : Bytes) (i v : ℕ) → i < length xs → length (take i xs ++ v ∷ drop (i + 1) xs) ≡ length xs
set_same_length xs i v h = omega (
  arith,
  length-append (take i xs) (v ∷ drop (i + 1) xs),
  length-take i xs,
  length-drop (i + 1) xs,
)

set-IsSafe :
    {A : Type 0} (xs : Bytes) (i v : ℕ) (f : Bytes → Parse A)
    → i < length xs
    → ((ys : Bytes) → length ys ≡ length xs → IsSafe (f ys))
    → IsSafe (set xs i v >>= f)
set-IsSafe xs i v f h k =
    rw (set_in_range xs i v h) (k (take i xs ++ v ∷ drop (i + 1) xs) (set_same_length xs i v h))

HasLength-bind :
    {A : Type 0} (n : ℕ) (m : Parse Bytes) (f : Bytes → Parse A)
    → HasLength n m
    → ((xs : Bytes) → length xs ≡ n → IsSafe (f xs))
    → IsSafe (m >>= f)
HasLength-bind n (found xs) f h k = k xs h
HasLength-bind n missing f h k = tt
HasLength-bind n panic f h k = elim h [ ]
HasLength-bind n stuck f h k = elim h [ ]

-- The reader returns, and keys that it returns have a nonce of twelve bytes.
abbrev HasNonce : Parse InitialKeys → Type 0
HasNonce (found keys) = length keys.iv ≡ 12
HasNonce missing = Unit
HasNonce panic = ⊥
HasNonce stuck = ⊥

of_option-HasNonce :
    {A : Type 0} (o : Option A) (f : A → Parse InitialKeys)
    → ((a : A) → o ≡ some a → HasNonce (f a))
    → HasNonce (of_option o >>= f)
of_option-HasNonce none f k = tt
of_option-HasNonce (some a) f k = k a refl

HasNonce-bind :
    {A : Type 0} (m : Parse InitialKeys) (f : InitialKeys → Parse A)
    → HasNonce m
    → ((keys : InitialKeys) → length keys.iv ≡ 12 → IsSafe (f keys))
    → IsSafe (m >>= f)
HasNonce-bind (found keys) f h k = k keys h
HasNonce-bind missing f h k = tt
HasNonce-bind panic f h k = elim h [ ]
HasNonce-bind stuck f h k = elim h [ ]

of_option_bind-IsSafe :
    {A B : Type 0} (o : Option A) (f : A → Parse B)
    → ((a : A) → IsSafe (f a))
    → IsSafe (of_option o >>= f)
of_option_bind-IsSafe none f k = tt
of_option_bind-IsSafe (some a) f k = k a

module _ (c : Crypto) where
  unmask-HasLength :
      (left i pn_offset : ℕ) (mask header : Bytes)
      → pn_offset + i + left ≤ length header
      → 1 + i + left ≤ length mask
      → HasLength (length header) (unmask c left i pn_offset mask header)
  unfolding unmask
  unmask-HasLength zero i pn_offset mask header h k = refl
  unmask-HasLength (suc left) i pn_offset mask header h k =
      let a = get_or header (pn_offset + i) 0 in
      let b = get_or mask (1 + i) 0 in
      let next = take (pn_offset + i) header ++ bit_xor a b ∷ drop (pn_offset + i + 1) header in
      let same = set_same_length header (pn_offset + i) (bit_xor a b) (omega arith) in
      rw
        (
          index_in_range header (pn_offset + i) (omega arith),
          index_in_range mask (1 + i) (omega arith),
          set_in_range header (pn_offset + i) (bit_xor a b) (omega arith),
          sym same,
        )
        (unmask-HasLength left (i + 1) pn_offset mask next (omega (arith, same)) (omega arith))

  packet_number-IsSafe :
      (left i pn_offset pn : ℕ) (header : Bytes)
      → pn_offset + i + left ≤ length header
      → IsSafe (packet_number c left i pn_offset pn header)
  unfolding packet_number
  packet_number-IsSafe zero i pn_offset pn header h = tt
  packet_number-IsSafe (suc left) i pn_offset pn header h =
      index-IsSafe header (pn_offset + i) _ (omega arith) λ v.
        packet_number-IsSafe left (i + 1) pn_offset (bit_or (pn * 2 ^ 8 % 2 ^ 64) v) header
          (omega arith)

  xor_nonce-IsSafe :
      (left i pn : ℕ) (nonce : Bytes)
      → 4 + i + left ≤ length nonce
      → IsSafe (xor_nonce c left i pn nonce)
  unfolding xor_nonce
  xor_nonce-IsSafe zero i pn nonce h = tt
  xor_nonce-IsSafe (suc left) i pn nonce h = index-IsSafe nonce (12 - 8 + i) _ (omega arith) λ v.
      set-IsSafe nonce (12 - 8 + i) _ _ (omega arith)
        λ nonce' same. xor_nonce-IsSafe left (i + 1) pn nonce' (omega (arith, same))

  compute_hp_mask-HasLength :
      (hp sample : Bytes) → length sample ≡ 16 → HasLength 5 (compute_hp_mask c hp sample)
  unfolding compute_hp_mask
  compute_hp_mask-HasLength hp sample h =
      let block = take 16 (drop 0 sample) in
      let full : length block ≡ 16 =
        omega (arith, length-take 16 (drop 0 sample), length-drop 0 sample) in
      let out = c.encrypt_block hp block in
      rw
        (
          slice_in_range sample 0 16 (omega arith) (omega arith),
          slice_in_range out 0 5 (omega arith)
              (omega (arith, c.encrypt_block_length hp block, full)),
        )
        (omega (
          arith,
          length-take 5 (drop 0 out),
          length-drop 0 out,
          c.encrypt_block_length hp block,
          full,
        ))

  decrypt_initial-IsSafe :
      (packet : Bytes) (keys : InitialKeys) (pos payload_len : ℕ)
      → 0 < pos
      → pos + payload_len ≤ length packet
      → length keys.iv ≡ 12
      → IsSafe (decrypt_initial c packet keys pos payload_len)
  unfolding decrypt_initial
  decrypt_initial-IsSafe packet keys pos payload_len positive fits iv12 =
      require-IsSafe (leb (pos + 4 + 16) (length packet)) _ λ room.
        let room' : pos + 4 + 16 ≤ length packet = leb→le (pos + 4 + 16) (length packet) room in
        slice-IsSafe packet (pos + 4) (pos + 4 + 16) _ (omega arith) room' λ sample sample_len.
          HasLength-bind 5 (compute_hp_mask c keys.hp sample) _
            (compute_hp_mask-HasLength keys.hp sample (omega arith))
            λ mask mask_len.
              slice-IsSafe packet 0 (pos + payload_len) _ (omega arith) fits λ protected len.
                index-IsSafe protected 0 _ (omega arith) λ first.
                  index-IsSafe mask 0 _ (omega arith) λ m0.
                    set-IsSafe protected 0 _ _ (omega arith) λ opened same.
                      index-IsSafe opened 0 _ (omega arith) λ h0.
                        let pn_len = h0 % 4 + 1 in
                        let short : pn_len ≤ 4 = omega arith in
                        require-IsSafe (leb (pos + pn_len) (length opened)) _ λ fit.
                          let fit' : pos + pn_len ≤ length opened =
                            leb→le (pos + pn_len) (length opened) fit in
                          HasLength-bind (length opened) (unmask c pn_len 0 pos mask opened) _
                            (unmask-HasLength pn_len 0 pos mask opened (omega arith) (omega arith))
                            λ header header_len.
                              bind-IsSafe (packet_number c pn_len 0 pos 0 header) _
                                (packet_number-IsSafe pn_len 0 pos 0 header (omega arith))
                                λ pn _.
                                  bind-IsSafe (xor_nonce c 8 0 pn keys.iv) _
                                    (xor_nonce-IsSafe 8 0 pn keys.iv (omega arith))
                                    λ nonce _.
                                      slice-IsSafe header 0 (pos + pn_len) _ (omega arith)
                                        (omega arith)
                                        λ aad _.
                                          require-IsSafe (ltb (pos + pn_len) (pos + payload_len)) _
                                            λ order.
                                              let order' : pos + pn_len < pos + payload_len =
                                                ltb→lt (pos + pn_len) (pos + payload_len) order in
                                              slice-IsSafe packet (pos + pn_len) (pos + payload_len)
                                                _ (omega arith) fits
                                                λ ciphertext _.
                                                  of_option-IsSafe
                                                    (c.decrypt keys.key nonce aad ciphertext)

  derive_initial_keys-HasNonce : (dcid salt : Bytes) → HasNonce (derive_initial_keys c dcid salt)
  unfolding derive_initial_keys
  derive_initial_keys-HasNonce dcid salt =
      of_option-HasNonce (c.expand (c.extract salt dcid) (hkdf_label (codes "client in") [] 32) 32)
        _
        λ client_secret _. of_option-HasNonce (c.from_prk client_secret) _ λ client_hk _.
          of_option-HasNonce (c.expand client_hk (hkdf_label (codes "quic key") [] 16) 16) _
            λ key _.
              of_option-HasNonce (c.expand client_hk (hkdf_label (codes "quic iv") [] 12) 12) _
                λ iv derived.
                  of_option-HasNonce (c.expand client_hk (hkdf_label (codes "quic hp") [] 16) 16) _
                    λ hp _.
                      c.expand_length client_hk (hkdf_label (codes "quic iv") [] 12) 12 iv derived

  initial_payload-IsSafe :
      (packet dcid salt : Bytes) (pos : ℕ) → IsSafe (initial_payload c packet dcid salt pos)
  unfolding initial_payload
  initial_payload-IsSafe packet dcid salt pos = require-IsSafe (ltb pos (length packet)) _ λ h1.
      index-IsSafe packet pos _ (ltb→lt pos (length packet) h1) λ scid_len.
        let token_at = pos + (1 + scid_len) in
        require-IsSafe (ltb token_at (length packet)) _ λ h2.
          let h2' : token_at < length packet = ltb→lt token_at (length packet) h2 in
          slice-IsSafe packet token_at (length packet) _ (omega arith) (omega arith) λ rest _.
            bind-IsSafe (read_varint rest) _ (read_varint-IsSafe rest) λ token _.
              let length_at = token_at + (token.1 + token.0) in
              require-IsSafe (ltb length_at (length packet)) _ λ h3.
                let h3' : length_at < length packet = ltb→lt length_at (length packet) h3 in
                slice-IsSafe packet length_at (length packet) _ (omega arith) (omega arith)
                  λ rest' _.
                    bind-IsSafe (read_varint rest') _ (read_varint-IsSafe rest') λ payload _.
                      let payload_at = length_at + payload.1 in
                      require-IsSafe (leb (payload_at + payload.0) (length packet)) _ λ h4.
                        HasNonce-bind (derive_initial_keys c dcid salt) _
                          (derive_initial_keys-HasNonce dcid salt)
                          λ keys iv12.
                            decrypt_initial-IsSafe packet keys payload_at payload.0 (omega arith)
                              (leb→le (payload_at + payload.0) (length packet) h4) iv12

  -- Whatever the crates compute, as long as their results have the promised lengths, no datagram
  -- makes the reader of QUIC Initial packets index or slice out of bounds, or run out of fuel.
  pub extract_quic_sni-IsSafe : (packet : Bytes) → IsSafe (extract_quic_sni c packet)
  unfolding extract_quic_sni
  extract_quic_sni-IsSafe packet = require-IsSafe (leb 5 (length packet)) _ λ h0.
      let h0' : 5 ≤ length packet = leb→le 5 (length packet) h0 in
      index-IsSafe packet 0 _ (omega arith) λ first. require-IsSafe (first / 128 % 2 == 1) _ λ _.
        require-IsSafe (first / 16 % 4 == 0) _ λ _. index-IsSafe packet 1 _ (omega arith) λ v1.
          index-IsSafe packet 2 _ (omega arith) λ v2. index-IsSafe packet 3 _ (omega arith) λ v3.
            index-IsSafe packet 4 _ (omega arith) λ v4.
              of_option_bind-IsSafe (salt_of (((v1 * 256 + v2) * 256 + v3) * 256 + v4)) _ λ salt.
                require-IsSafe (ltb 5 (length packet)) _ λ h5.
                  index-IsSafe packet 5 _ (ltb→lt 5 (length packet) h5) λ dcid_len.
                    require-IsSafe (leb (6 + dcid_len) (length packet)) _ λ h6.
                      slice-IsSafe packet 6 (6 + dcid_len) _ (omega arith)
                        (leb→le (6 + dcid_len) (length packet) h6)
                        λ dcid _.
                          bind-IsSafe (initial_payload c packet dcid salt (6 + dcid_len)) _
                            (initial_payload-IsSafe packet dcid salt (6 + dcid_len))
                            λ plaintext _.
                              bind-IsSafe (extract_crypto_data plaintext) _
                                (extract_crypto_data-IsSafe plaintext)
                                λ client_hello _. extract_tls_sni_from_handshake-IsSafe client_hello
