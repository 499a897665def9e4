-- ===== src/Dataplane/Sni/Safety.antt =====
-- No bytes that a client sends make the TLS parser panic or loop.
use v6proxy.Prelude.{
  ℕ, zero, suc, ◌+◌, ◌*◌, ◌≤◌, ◌<◌, min, not, ◌&&◌, leb, ltb, ◌==◌, eq_ℕ, length, is_empty, arith,
  leb→le, ltb→lt,
}
use v6proxy.Text.Utf8.{from_utf8}
use v6proxy.Dataplane.Bytes.{Bytes, missing, IsSafe, of_option-IsSafe}
use v6proxy.Dataplane.Bytes.Safe.{
  if-IsSafe, nonempty, require-IsSafe, index-IsSafe, read_u16-IsSafe, slice-IsSafe,
}
use v6proxy.Dataplane.Sni.{
  sni_loop, parse_sni_extension, extension_loop, client_hello_sni, extract_tls_sni_from_handshake,
  extract_tls_sni,
}

sni_loop-IsSafe :
    (fuel : ℕ) (xs : Bytes) (pos end : ℕ)
    → end ≤ length xs
    → 0 < fuel
    → end < pos + fuel
    → IsSafe (sni_loop fuel xs pos end)
unfolding sni_loop
sni_loop-IsSafe zero xs pos end fits some_fuel enough = absurd (omega arith)
sni_loop-IsSafe (suc fuel) xs pos end fits some_fuel enough =
    if-IsSafe (leb (pos + 3) end) _ missing
      (λ room.
        let room' : pos + 3 ≤ end = leb→le (pos + 3) end room in
        index-IsSafe xs pos _ (omega arith) λ name_type.
          read_u16-IsSafe xs (pos + 1) _ (omega arith) λ name_len.
            if-IsSafe (name_type == 0 && leb (pos + 3 + name_len) end) _ _
              (λ named.
                slice-IsSafe xs (pos + 3) (pos + 3 + name_len) _ (omega arith) (ground arith)
                  λ raw _. of_option-IsSafe (from_utf8 raw))
              (λ _.
                sni_loop-IsSafe fuel xs (pos + 3 + name_len) end fits (omega arith) (omega arith)))
      (λ _. tt)

parse_sni_extension-IsSafe : (xs : Bytes) → IsSafe (parse_sni_extension xs)
unfolding parse_sni_extension
parse_sni_extension-IsSafe xs = require-IsSafe (leb 2 (length xs)) _ λ long.
    let long' : 2 ≤ length xs = leb→le 2 (length xs) long in
    read_u16-IsSafe xs 0 _ (omega arith) λ list_len.
      sni_loop-IsSafe (suc (length xs)) xs 2 (min (2 + list_len) (length xs)) (omega arith)
        (omega arith) (omega arith)

extension_loop-IsSafe :
    (fuel : ℕ) (ch : Bytes) (pos end : ℕ)
    → end ≤ length ch
    → 0 < fuel
    → end < pos + fuel
    → IsSafe (extension_loop fuel ch pos end)
unfolding extension_loop
extension_loop-IsSafe zero ch pos end fits some_fuel enough = absurd (omega arith)
extension_loop-IsSafe (suc fuel) ch pos end fits some_fuel enough =
    if-IsSafe (leb (pos + 4) end) _ missing
      (λ room.
        let room' : pos + 4 ≤ end = leb→le (pos + 4) end room in
        read_u16-IsSafe ch pos _ (omega arith) λ ext_type.
          read_u16-IsSafe ch (pos + 2) _ (omega arith) λ len.
            if-IsSafe (ext_type == 0) _ _
              (λ _.
                slice-IsSafe ch (pos + 4) (min (pos + 4 + len) end) parse_sni_extension
                  (omega arith) (omega arith) λ ext _. parse_sni_extension-IsSafe ext)
              (λ _.
                extension_loop-IsSafe fuel ch (pos + 4 + len) end fits (omega arith) (omega arith)))
      (λ _. tt)

client_hello_sni-IsSafe : (ch : Bytes) → IsSafe (client_hello_sni ch)
unfolding client_hello_sni
client_hello_sni-IsSafe ch = require-IsSafe (leb 34 (length ch)) _ λ h1.
    require-IsSafe (ltb 34 (length ch)) _ λ h2.
      index-IsSafe ch 34 _ (ltb→lt 34 (length ch) h2) λ sid.
        let ciphers = 34 + (1 + sid) in
        require-IsSafe (leb (ciphers + 2) (length ch)) _ λ h3.
          let h3' : ciphers + 2 ≤ length ch = leb→le (ciphers + 2) (length ch) h3 in
          read_u16-IsSafe ch ciphers _ (omega arith) λ cs.
            let methods = ciphers + (2 + cs) in
            require-IsSafe (ltb methods (length ch)) _ λ h4.
              index-IsSafe ch methods _ (ltb→lt methods (length ch) h4) λ cm.
                let extensions = methods + (1 + cm) in
                require-IsSafe (leb (extensions + 2) (length ch)) _ λ h5.
                  let h5' : extensions + 2 ≤ length ch = leb→le (extensions + 2) (length ch) h5 in
                  read_u16-IsSafe ch extensions _ (omega arith) λ len.
                    extension_loop-IsSafe (suc (length ch)) ch (extensions + 2)
                      (min (extensions + 2 + len) (length ch)) (omega arith) (omega arith)
                      (omega arith)

-- No handshake bytes make the parser index or slice out of bounds, or run out of fuel.
pub extract_tls_sni_from_handshake-IsSafe :
    (handshake : Bytes) → IsSafe (extract_tls_sni_from_handshake handshake)
unfolding extract_tls_sni_from_handshake
extract_tls_sni_from_handshake-IsSafe handshake = require-IsSafe (not (is_empty handshake)) _ λ h0.
    index-IsSafe handshake 0 _ (nonempty handshake h0) λ kind. require-IsSafe (kind == 1) _ λ _.
      require-IsSafe (leb 4 (length handshake)) _ λ h4.
        let h4' : 4 ≤ length handshake = leb→le 4 (length handshake) h4 in
        index-IsSafe handshake 1 _ (omega arith) λ b1.
          index-IsSafe handshake 2 _ (omega arith) λ b2.
            index-IsSafe handshake 3 _ (omega arith) λ b3.
              slice-IsSafe handshake 4 (min (4 + ((b1 * 256 + b2) * 256 + b3)) (length handshake))
                client_hello_sni (omega arith) (omega arith) λ ch _. client_hello_sni-IsSafe ch

-- No bytes of a TLS record make the parser index or slice out of bounds, or run out of fuel.
pub extract_tls_sni-IsSafe : (packet : Bytes) → IsSafe (extract_tls_sni packet)
unfolding extract_tls_sni
extract_tls_sni-IsSafe packet = require-IsSafe (leb 5 (length packet)) _ λ h5.
    let h5' : 5 ≤ length packet = leb→le 5 (length packet) h5 in
    index-IsSafe packet 0 _ (omega arith) λ kind. require-IsSafe (kind == 0x16) _ λ _.
      read_u16-IsSafe packet 3 _ (omega arith) λ len.
        slice-IsSafe packet 5 (min (5 + len) (length packet)) extract_tls_sni_from_handshake
          (omega arith) (omega arith) λ handshake _. extract_tls_sni_from_handshake-IsSafe handshake
