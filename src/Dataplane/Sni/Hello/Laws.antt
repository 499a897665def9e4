-- ===== src/Dataplane/Sni/Hello/Laws.antt =====
-- The TLS parser reads the name that a client wrote.
use mathlib.Core.List.{append-nil, append_assoc}
use v6proxy.Prelude.{
  suc, ◌+◌, ◌*◌, ◌/◌, ◌%◌, ◌≡◌, ◌≢◌, ◌<◌, min, true, [], ◌∷◌, ◌++◌, All, length, length-append, sym,
  ◌∙◌, ap, refl, arith, leb, ltb, eq_ℕ,
}
use v6proxy.Dataplane.Bytes.{Bytes, found}
use v6proxy.Dataplane.Bytes.At.{index_at, slice_part}
use v6proxy.Dataplane.Sni.{client_hello_sni, extract_tls_sni_from_handshake, extract_tls_sni}
use v6proxy.Dataplane.Sni.Hello.{
  u16, encode_extensions, Hello, hello_extensions, encode_hello, encode_handshake, encode_record,
  read_u16_at,
}
use v6proxy.Dataplane.Sni.Hello.Loop.{step_u16, length-u16, extension_loop-encode_extensions}

-- The fixed part has its length, only one extension is the server name, and the name is ASCII.
pub record IsHello (h : Hello) : Type 0 where
  pub fixed_length : length h.fixed ≡ 34
  pub others : All (λ x. x.kind ≢ 0) h.before
  pub ascii : All (λ b. b < 0x80) h.host

-- Past known bytes.
step_bytes :
    (packet before part rest : Bytes)
    → packet ≡ before ++ (part ++ rest)
    → packet ≡ (before ++ part) ++ rest
step_bytes packet before part rest e = e ∙ sym (append_assoc before part rest)

client_hello_sni-encode_hello :
    (h : Hello) → IsHello h → client_hello_sni (encode_hello h) ≡ found h.host
unfolding client_hello_sni encode_hello
client_hello_sni-encode_hello h ok =
    let ch = encode_hello h in
    let exts = hello_extensions h in
    let sid = length h.session_id in
    let cs = length h.ciphers in
    let cm = length h.methods in
    let t6 = u16 (length exts) exts in
    let t5 = cm ∷ (h.methods ++ t6) in
    let t3 = u16 cs (h.ciphers ++ t5) in
    let p1 = h.fixed ++ sid ∷ [] in
    let p2 = p1 ++ h.session_id in
    let p3 = p2 ++ u16 cs [] in
    let p4 = p3 ++ h.ciphers in
    let p5 = p4 ++ cm ∷ [] in
    let p6 = p5 ++ h.methods in
    let p7 = p6 ++ u16 (length exts) [] in
    let e0 : ch ≡ h.fixed ++ (sid ∷ (h.session_id ++ t3)) = refl in
    let e2 : ch ≡ p2 ++ t3 =
      step_bytes ch p1 h.session_id t3 (step_bytes ch h.fixed (sid ∷ []) (h.session_id ++ t3) e0) in
    let e4 : ch ≡ p4 ++ t5 =
      step_bytes ch p3 h.ciphers t5 (step_u16 ch p2 cs (h.ciphers ++ t5) e2) in
    let e6 : ch ≡ p6 ++ t6 =
      step_bytes ch p5 h.methods t6 (step_bytes ch p4 (cm ∷ []) (h.methods ++ t6) e4) in
    let e7 : ch ≡ p7 ++ exts = step_u16 ch p6 (length exts) exts e6 in
    let l2 : length p2 ≡ 35 + sid =
      omega
        (arith, length-append p1 h.session_id, length-append h.fixed (sid ∷ []), ok.fixed_length) in
    let l4 : length p4 ≡ 37 + sid + cs =
      omega (arith, length-append p3 h.ciphers, length-u16 p2 cs, l2) in
    let l6 : length p6 ≡ 38 + sid + cs + cm =
      omega (arith, length-append p5 h.methods, length-append p4 (cm ∷ []), l4) in
    let l7 : length p7 ≡ 40 + sid + cs + cm = omega (arith, length-u16 p6 (length exts), l6) in
    let size : length ch ≡ 40 + sid + cs + cm + length exts =
      ap length e7 ∙ omega (arith, length-append p7 exts, l7) in
    let ciphers = 34 + (1 + sid) in
    let methods = ciphers + (2 + cs) in
    let extensions = methods + (1 + cm) in
    let r1 : leb 34 (length ch) ≡ true = ground (arith, size) in
    let r2 : ltb 34 (length ch) ≡ true = ground (arith, size) in
    let r3 : leb (ciphers + 2) (length ch) ≡ true = ground (arith, size) in
    let r4 : ltb methods (length ch) ≡ true = ground (arith, size) in
    let r5 : leb (extensions + 2) (length ch) ≡ true = ground (arith, size) in
    let end : min (extensions + 2 + length exts) (length ch) ≡ length ch = omega (arith, size) in
    rw
      (
        r1,
        r2,
        index_at ch h.fixed 34 sid (h.session_id ++ t3) e0 (sym ok.fixed_length),
        r3,
        read_u16_at ch p2 ciphers cs (h.ciphers ++ t5) e2 (omega (arith, l2)),
        r4,
        index_at ch p4 methods cm (h.methods ++ t6) e4 (omega (arith, l4)),
        r5,
        read_u16_at ch p6 extensions (length exts) exts e6 (omega (arith, l6)),
        end,
      )
      (extension_loop-encode_extensions (suc (length ch)) h.before h.host
        (encode_extensions h.after []) ch p7 (extensions + 2) ok.others ok.ascii
        (unfold hello_extensions in e7) (omega (arith, l7)) (omega arith))

extract_tls_sni_from_handshake-encode_handshake :
    (h : Hello) → IsHello h → extract_tls_sni_from_handshake (encode_handshake h) ≡ found h.host
unfolding extract_tls_sni_from_handshake encode_handshake
extract_tls_sni_from_handshake-encode_handshake h ok =
    let ch = encode_hello h in
    let n = length ch in
    let xs = encode_handshake h in
    let long : leb 4 (length xs) ≡ true = ground arith in
    let whole : min (4 + ((n / 65536 * 256 + n / 256 % 256) * 256 + n % 256)) (length xs) ≡ 4 + n =
      omega arith in
    rw
      (
        long,
        index_at xs [] 0 1 (n / 65536 ∷ n / 256 % 256 ∷ n % 256 ∷ ch) refl refl,
        index_at xs (1 ∷ []) 1 (n / 65536) (n / 256 % 256 ∷ n % 256 ∷ ch) refl refl,
        index_at xs (1 ∷ n / 65536 ∷ []) 2 (n / 256 % 256) (n % 256 ∷ ch) refl refl,
        index_at xs (1 ∷ n / 65536 ∷ n / 256 % 256 ∷ []) 3 (n % 256) ch refl refl,
        whole,
        slice_part xs (1 ∷ n / 65536 ∷ n / 256 % 256 ∷ n % 256 ∷ []) 4 ch [] (4 + n)
            (ap (λ (t : Bytes). 1 ∷ n / 65536 ∷ n / 256 % 256 ∷ n % 256 ∷ t) (sym (append-nil ch)))
            refl refl,
      )
      (client_hello_sni-encode_hello h ok)

-- From a TLS record with a ClientHello that names an ASCII host, whatever the session id, the
-- ciphers, the compression methods and the other extensions around the server name are, the parser
-- reads that host.
pub extract_tls_sni-encode_record :
    (h : Hello) → IsHello h → extract_tls_sni (encode_record h) ≡ found h.host
unfolding extract_tls_sni encode_record u16
extract_tls_sni-encode_record h ok =
    let hs = encode_handshake h in
    let n = length hs in
    let xs = encode_record h in
    let front = 0x16 ∷ 3 ∷ 1 ∷ (n / 256) ∷ (n % 256) ∷ [] in
    let long : leb 5 (length xs) ≡ true = ground arith in
    let whole : min (5 + n) (length xs) ≡ 5 + n = omega arith in
    rw
      (
        long,
        index_at xs [] 0 0x16 (3 ∷ 1 ∷ u16 n hs) refl refl,
        read_u16_at xs (0x16 ∷ 3 ∷ 1 ∷ []) 3 n hs refl refl,
        whole,
        slice_part xs front 5 hs [] (5 + n) (ap (λ (t : Bytes). front ++ t) (sym (append-nil hs)))
            refl refl,
      )
      (extract_tls_sni_from_handshake-encode_handshake h ok)
