-- ===== src/Dataplane/Sni/Hello.antt =====
-- A ClientHello as a client writes it, and reading the host name back.
pub mod Loop
pub mod Laws
use v6proxy.Prelude.{
  ℕ, ◌+◌, ◌*◌, ◌/◌, ◌%◌, ◌≡◌, ◌≢◌, List, [], ◌∷◌, ◌++◌, All, length, length-append, sym, ◌∙◌, ap,
  refl, arith,
}
use mathlib.Core.List.{append_assoc}
use v6proxy.Text.{Text}
use v6proxy.Dataplane.Bytes.{Bytes, found, read_u16, index}
use v6proxy.Dataplane.Bytes.At.{index_at}

-- A number in two bytes, the higher first.
unfoldable pub u16 : ℕ → Bytes → Bytes
u16 n rest = n / 256 ∷ n % 256 ∷ rest

-- An extension that is not the server name.
pub record Extension : Type 0 where
  pub kind : ℕ
  pub content : Bytes

unfoldable pub encode_extensions : List Extension → Bytes → Bytes
encode_extensions [] rest = rest
encode_extensions (x ∷ xs) rest =
    u16 x.kind (u16 (length x.content) (x.content ++ encode_extensions xs rest))

-- The content of the server name extension: a list of one name.
unfoldable pub encode_name : Text → Bytes
encode_name host = u16 (3 + length host) (0 ∷ u16 (length host) host)

unfoldable pub encode_sni : Text → Bytes → Bytes
encode_sni host rest = u16 0 (u16 (length (encode_name host)) (encode_name host ++ rest))

-- `fixed` is the version and the random.
pub record Hello : Type 0 where
  pub fixed : Bytes
  pub session_id : Bytes
  pub ciphers : Bytes
  pub methods : Bytes
  pub before : List Extension
  pub host : Text
  pub after : List Extension

unfoldable pub hello_extensions : Hello → Bytes
hello_extensions h = encode_extensions h.before (encode_sni h.host (encode_extensions h.after []))

unfoldable pub encode_hello : Hello → Bytes
encode_hello h =
    h.fixed
    ++ (length h.session_id
        ∷ (h.session_id
            ++ u16 (length h.ciphers) (
                h.ciphers
                ++ (length h.methods
                    ∷ (h.methods ++ u16 (length (hello_extensions h)) (hello_extensions h))))))

unfoldable pub encode_handshake : Hello → Bytes
encode_handshake h =
    let n = length (encode_hello h) in 1 ∷ n / 65536 ∷ n / 256 % 256 ∷ n % 256 ∷ encode_hello h

-- A record of TLS 1.0, as clients send it.
unfoldable pub encode_record : Hello → Bytes
encode_record h = 0x16 ∷ 3 ∷ 1 ∷ u16 (length (encode_handshake h)) (encode_handshake h)

-- The two bytes of a number behind bytes that are known.
pub read_u16_at :
    (packet before : Bytes) (pos n : ℕ) (rest : Bytes)
    → packet ≡ before ++ u16 n rest
    → pos ≡ length before
    → read_u16 packet pos ≡ found n
unfolding read_u16 u16
read_u16_at packet before pos n rest e at =
    let e' : packet ≡ (before ++ n / 256 ∷ []) ++ n % 256 ∷ rest =
      e ∙ sym (append_assoc before (n / 256 ∷ []) (n % 256 ∷ rest)) in
    let l : length (before ++ n / 256 ∷ []) ≡ length before + 1 =
      length-append before (n / 256 ∷ []) in
    let value : n / 256 * 256 + n % 256 ≡ n = omega arith in
    rw
      (
        read_u16,
        index_at packet before pos (n / 256) (n % 256 ∷ rest) e at,
        index_at packet (before ++ n / 256 ∷ []) (pos + 1) (n % 256) rest e' (omega (arith, l, at)),
        value,
      )
      refl
