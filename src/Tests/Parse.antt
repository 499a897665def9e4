-- ===== src/Tests/Parse.antt =====
-- The parsers of src/dataplane at concrete bytes.
use v6proxy.Dataplane.Sni.{extract_tls_sni}
use v6proxy.Dataplane.Sni.Hello.{Hello, encode_record}
use v6proxy.Dataplane.Sni.Hello.Laws.{IsHello, extract_tls_sni-encode_record}
use v6proxy.Text.{codes}
use v6proxy.Prelude.{replicate, refl, ◌≡◌, List, [], ◌∷◌, ◌++◌, length, arith}
use v6proxy.Dataplane.Bytes.{Bytes, found, IsSafe}
use v6proxy.Dataplane.Varint.{read_varint}
use v6proxy.Dataplane.Varint.Encode.{encode_varint, read_varint-encode_varint}
use v6proxy.Dataplane.Frames.{finish, extract_crypto_data}
use v6proxy.Dataplane.Frames.Encode.{Frame, ping, padding, crypto_frame, encode_frames, collect}
use v6proxy.Dataplane.Frames.Laws.{extract_crypto_data-IsSafe, extract_crypto_data-encode_frames}

-- A ClientHello that ends after its length.
abbrev cut_hello : Bytes
cut_hello = 1 ∷ 0 ∷ 1 ∷ 0 ∷ []

-- Two CRYPTO frames, the second half of the data first.
abbrev swapped : List Frame
swapped = ping ∷ crypto_frame 2 (8 ∷ 9 ∷ []) ∷ padding ∷ crypto_frame 0 (6 ∷ 7 ∷ []) ∷ []

-- An ACK frame, and behind it a CRYPTO frame that is not reached.
abbrev ack_and_crypto : Bytes
ack_and_crypto = 2 ∷ 0 ∷ 0 ∷ 0 ∷ 0 ∷ 6 ∷ 4 ∷ 1 ∷ 5 ∷ []

read_varint-encode_varint_example :
    read_varint (encode_varint 15293 ++ 1 ∷ []) ≡ found (15293, length (encode_varint 15293))
read_varint-encode_varint_example = read_varint-encode_varint 15293 (1 ∷ []) (omega arith)

extract_crypto_data-IsSafe_example : IsSafe (extract_crypto_data (6 ∷ 0 ∷ 0x40 ∷ []))
extract_crypto_data-IsSafe_example = extract_crypto_data-IsSafe (6 ∷ 0 ∷ 0x40 ∷ [])

extract_crypto_data-encode_frames_example :
    extract_crypto_data (encode_frames swapped ack_and_crypto) ≡ finish (collect swapped)
extract_crypto_data-encode_frames_example =
    extract_crypto_data-encode_frames swapped ack_and_crypto
      (tt, ((omega arith, omega arith), (tt, ((omega arith, omega arith), tt)))) (refl, refl)

abbrev hello : Hello
hello = record {
  fixed = replicate 34 3;
  session_id = 1 ∷ 2 ∷ [];
  ciphers = 0x13 ∷ 0x01 ∷ [];
  methods = 0 ∷ [];
  before = record { kind = 0x1234; content = 7 ∷ [] } ∷ [];
  host = codes "a.com";
  after = [];
}

hello-IsHello : IsHello hello
hello-IsHello = record {
  fixed_length = refl;
  others = ((λ e. absurd (omega (arith, e))), tt);
  ascii = (omega arith, (omega arith, (omega arith, (omega arith, (omega arith, tt)))));
}

extract_tls_sni-encode_record_example :
    extract_tls_sni (encode_record hello) ≡ found (codes "a.com")
extract_tls_sni-encode_record_example = extract_tls_sni-encode_record hello hello-IsHello
