-- ===== src/Dataplane/Sni.antt =====
-- src/dataplane/sni.rs: the host name in a TLS ClientHello or in an HTTP request.
pub mod Safety
pub mod Hello
use v6proxy.Prelude.{
  ℕ, zero, suc, ◌+◌, ◌*◌, ◌≤◌, min, Bool, true, false, not, ◌&&◌, List, if◌then◌else◌, leb, ltb,
  ◌==◌, eq_ℕ, length, is_empty,
}
use v6proxy.Text.{Text}
use v6proxy.Text.Utf8.{from_utf8}
use v6proxy.Dataplane.Bytes.{
  Bytes, Parse, found, missing, panic, stuck, ◌>>=◌, ◌>>◌, require, of_option, index, slice,
  read_u16,
}

-- The loop of `parse_sni_extension`; a round moves on by three bytes or more.
sni_loop : ℕ → Bytes → ℕ → ℕ → Parse Text
sni_loop zero xs pos end = stuck
sni_loop (suc fuel) xs pos end =
    let round = (do
      name_type ← index xs pos
      name_len ← read_u16 xs (pos + 1)
      let start = pos + 3
      let next = sni_loop fuel xs (start + name_len) end
      let name = (do raw ← slice xs start (start + name_len); of_option (from_utf8 raw))
      if name_type == 0 && leb (start + name_len) end then name else next) in
    if leb (pos + 3) end then round else missing

unfoldable pub parse_sni_extension : Bytes → Parse Text
unfolding sni_loop
parse_sni_extension xs = do
  require (leb 2 (length xs))
  list_len ← read_u16 xs 0
  sni_loop (suc (length xs)) xs 2 (min (2 + list_len) (length xs))

-- The loop over the extensions; a round moves on by four bytes or more.
pub extension_loop : ℕ → Bytes → ℕ → ℕ → Parse Text
unfolding parse_sni_extension
extension_loop zero ch pos ext_end = stuck
extension_loop (suc fuel) ch pos ext_end =
    let round = (do
      ext_type ← read_u16 ch pos
      ext_data_len ← read_u16 ch (pos + 2)
      let start = pos + 4
      let next = extension_loop fuel ch (start + ext_data_len) ext_end
      let sni = (do
        ext ← slice ch start (min (start + ext_data_len) ext_end)
        parse_sni_extension ext)
      if ext_type == 0 then sni else next) in
    if leb (pos + 4) ext_end then round else missing

-- The ClientHello behind the handshake header: version, random, session id, cipher suites,
-- compression methods, extensions.
unfoldable pub client_hello_sni : Bytes → Parse Text
unfolding extension_loop
client_hello_sni ch = do
  require (leb 34 (length ch))
  require (ltb 34 (length ch))
  sid_len ← index ch 34
  let ciphers = 34 + (1 + sid_len)
  require (leb (ciphers + 2) (length ch))
  cs_len ← read_u16 ch ciphers
  let methods = ciphers + (2 + cs_len)
  require (ltb methods (length ch))
  cm_len ← index ch methods
  let extensions = methods + (1 + cm_len)
  require (leb (extensions + 2) (length ch))
  ext_len ← read_u16 ch extensions
  extension_loop (suc (length ch)) ch (extensions + 2) (min (extensions + 2 + ext_len) (length ch))

unfoldable pub extract_tls_sni_from_handshake : Bytes → Parse Text
unfolding client_hello_sni
extract_tls_sni_from_handshake handshake = do
  require (not (is_empty handshake))
  kind ← index handshake 0
  require (kind == 1)
  require (leb 4 (length handshake))
  b1 ← index handshake 1
  b2 ← index handshake 2
  b3 ← index handshake 3
  ch ← slice handshake 4 (min (4 + ((b1 * 256 + b2) * 256 + b3)) (length handshake))
  client_hello_sni ch

unfoldable pub extract_tls_sni : Bytes → Parse Text
unfolding extract_tls_sni_from_handshake
extract_tls_sni packet = do
  require (leb 5 (length packet))
  content_type ← index packet 0
  require (content_type == 0x16)
  record_len ← read_u16 packet 3
  handshake ← slice packet 5 (min (5 + record_len) (length packet))
  extract_tls_sni_from_handshake handshake
