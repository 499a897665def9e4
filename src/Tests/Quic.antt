-- ===== src/Tests/Quic.antt =====
-- The QUIC reader of src/dataplane/quic.rs with concrete cryptography.
use v6proxy.Prelude.{ℕ, zero, suc, ◌≡◌, refl, some, ◌∷◌, length, replicate, arith}
use v6proxy.Dataplane.Bytes.{Bytes, IsSafe}
use v6proxy.Dataplane.Quic.{Crypto, extract_quic_sni}
use v6proxy.Dataplane.Quic.Safety.{extract_quic_sni-IsSafe}

length-replicate : (n v : ℕ) → length (replicate n v) ≡ n
length-replicate zero v = refl
length-replicate (suc n) v = omega (arith, length-replicate n v)

pub replicated : (n : ℕ) (out : Bytes) → some (replicate n 7) ≡ some out → length out ≡ n
replicated n out h = ground (arith, h, length-replicate n 7)

-- Every derived key is made of sevens, and encryption changes nothing.
abbrev pub sevens : Crypto
sevens = record {
  Hkdf = Bytes;
  extract = λ salt ikm. salt;
  from_prk = λ prk. some prk;
  expand = λ k info n. some (replicate n 7);
  expand_length = λ k info n out h. replicated n out h;
  encrypt_block = λ key block. block;
  encrypt_block_length = λ key block. refl;
  decrypt = λ key nonce aad ciphertext. some ciphertext;
}

-- No connection ids and no token, then a packet number of one byte and 21 zeros.
abbrev pub initial : Bytes
initial = 0xc0 ∷ 0 ∷ 0 ∷ 0 ∷ 1 ∷ 0 ∷ 0 ∷ 0 ∷ 22 ∷ replicate 22 0

extract_quic_sni-IsSafe_example : IsSafe (extract_quic_sni sevens initial)
extract_quic_sni-IsSafe_example = extract_quic_sni-IsSafe sevens initial
