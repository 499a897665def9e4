-- ===== src/Dataplane/Sni/Hello/Loop.antt =====
-- The loops of the TLS parser over what a client wrote.
use mathlib.Core.List.{append-nil, append_assoc}
use v6proxy.Prelude.{
  ℕ, zero, suc, ◌+◌, ◌/◌, ◌%◌, ◌≡◌, ◌≢◌, ◌<◌, min, true, false, List, [], ◌∷◌, ◌++◌, All, length,
  length-append, sym, ◌∙◌, ap, refl, arith, leb, ◌==◌, eq_ℕ,
}
use v6proxy.Text.{Text}
use v6proxy.Text.Utf8.{from_utf8_ascii}
use v6proxy.Dataplane.Bytes.{Bytes, found, read_u16, slice}
use v6proxy.Dataplane.Bytes.At.{index_at, slice_part}
use v6proxy.Dataplane.Sni.{sni_loop, parse_sni_extension, extension_loop}
use v6proxy.Dataplane.Sni.Hello.{
  u16, Extension, encode_extensions, encode_name, encode_sni, read_u16_at,
}

length-encode_name : (host : Text) → length (encode_name host) ≡ 5 + length host
unfolding encode_name u16
length-encode_name host = omega arith

-- The one name of the list is read.
sni_loop-encode_name :
    (fuel : ℕ) (host : Text) (end : ℕ)
    → All (λ b. b < 0x80) host
    → end ≡ 5 + length host
    → sni_loop (suc fuel) (encode_name host) 2 end ≡ found host
unfolding sni_loop encode_name u16
sni_loop-encode_name fuel host end ascii e =
    let xs = encode_name host in
    let a = (3 + length host) / 256 in
    let b = (3 + length host) % 256 in
    let front = a ∷ b ∷ 0 ∷ (length host / 256) ∷ (length host % 256) ∷ [] in
    let room : leb (2 + 3) end ≡ true = ground (arith, e) in
    let fits : leb (2 + 3 + length host) end ≡ true = ground (arith, e) in
    rw
      (
        room,
        index_at xs (a ∷ b ∷ []) 2 0 (u16 (length host) host) refl refl,
        read_u16_at xs (a ∷ b ∷ 0 ∷ []) 3 (length host) host refl refl,
        fits,
        slice_part xs front 5 host [] (5 + length host)
            (ap (λ (t : Bytes). front ++ t) (sym (append-nil host))) refl refl,
        from_utf8_ascii host ascii,
      )
      refl

parse_sni_extension-encode_name :
    (host : Text) → All (λ b. b < 0x80) host → parse_sni_extension (encode_name host) ≡ found host
unfolding parse_sni_extension
parse_sni_extension-encode_name host ascii =
    let xs = encode_name host in
    let size = length-encode_name host in
    let long : leb 2 (length xs) ≡ true = ground (arith, size) in
    rw
      (
        long,
        read_u16_at xs [] 0 (3 + length host) (0 ∷ u16 (length host) host)
            (unfold encode_name in refl) refl,
      )
      (sni_loop-encode_name (length xs) host (min (2 + (3 + length host)) (length xs)) ascii
        (omega (arith, size)))

-- Past the two bytes of a number.
pub step_u16 :
    (packet before : Bytes) (n : ℕ) (rest : Bytes)
    → packet ≡ before ++ u16 n rest
    → packet ≡ (before ++ u16 n []) ++ rest
unfolding u16
step_u16 packet before n rest e = e ∙ sym (append_assoc before (u16 n []) rest)

pub length-u16 : (before : Bytes) (n : ℕ) → length (before ++ u16 n []) ≡ length before + 2
unfolding u16
length-u16 before n = length-append before (u16 n [])

-- At a place behind which an extension and then other bytes stand.
module _ (ch before : Bytes) (pos kind : ℕ) (content rest : Bytes)
    (e : ch ≡ before ++ u16 kind (u16 (length content) (content ++ rest)))
    (at : pos ≡ length before) where
  abbrev front : Bytes
  front = (before ++ u16 kind []) ++ u16 (length content) []

  front_then : ch ≡ front ++ (content ++ rest)
  front_then =
      step_u16 ch (before ++ u16 kind []) (length content) (content ++ rest)
        (step_u16 ch before kind (u16 (length content) (content ++ rest)) e)

  length-front : length front ≡ pos + 4
  length-front =
      omega (arith, length-u16 (before ++ u16 kind []) (length content), length-u16 before kind, at)

  behind : ch ≡ (front ++ content) ++ rest
  behind = front_then ∙ sym (append_assoc front content rest)

  length-behind : length (front ++ content) ≡ pos + 4 + length content
  length-behind = omega (arith, length-append front content, length-front)

  whole_length : length ch ≡ pos + 4 + length content + length rest
  whole_length =
      ap length behind ∙ omega (arith, length-append (front ++ content) rest, length-behind)

  kind_read : read_u16 ch pos ≡ found kind
  kind_read = read_u16_at ch before pos kind (u16 (length content) (content ++ rest)) e at

  length_read : read_u16 ch (pos + 2) ≡ found (length content)
  length_read =
      read_u16_at ch (before ++ u16 kind []) (pos + 2) (length content) (content ++ rest)
        (step_u16 ch before kind (u16 (length content) (content ++ rest)) e)
        (omega (arith, length-u16 before kind, at))

  content_read : (end : ℕ) → end ≡ pos + 4 + length content → slice ch (pos + 4) end ≡ found content
  content_read end f =
      slice_part ch front (pos + 4) content rest end front_then (omega (arith, length-front)) f

pub extension_loop-encode_extensions :
    (fuel : ℕ) (xs : List Extension) (host : Text) (rest ch before : Bytes) (pos : ℕ)
    → All (λ x. x.kind ≢ 0) xs
    → All (λ b. b < 0x80) host
    → ch ≡ before ++ encode_extensions xs (encode_sni host rest)
    → pos ≡ length before
    → length ch < pos + fuel
    → extension_loop fuel ch pos (length ch) ≡ found host
unfolding extension_loop encode_extensions encode_sni
extension_loop-encode_extensions zero [] host rest ch before pos others ascii e at enough =
    absurd (omega (arith, whole_length ch before pos 0 (encode_name host) rest e at))
extension_loop-encode_extensions zero (x ∷ xs) host rest ch before pos others ascii e at enough =
    absurd (
      omega (
        arith,
        whole_length ch before pos x.kind x.content (encode_extensions xs (encode_sni host rest)) e
            at,
      ))
extension_loop-encode_extensions (suc fuel) [] host rest ch before pos others ascii e at enough =
    let name = encode_name host in
    let size = whole_length ch before pos 0 name rest e at in
    let room : leb (pos + 4) (length ch) ≡ true = ground (arith, size) in
    rw
      (
        room,
        kind_read ch before pos 0 name rest e at,
        length_read ch before pos 0 name rest e at,
        content_read ch before pos 0 name rest e at (min (pos + 4 + length name) (length ch))
            (omega (arith, size)),
      )
      (parse_sni_extension-encode_name host ascii)
extension_loop-encode_extensions (suc fuel) (x ∷ xs) host rest ch before pos others ascii e at
      enough =
    let more = encode_extensions xs (encode_sni host rest) in
    let size = whole_length ch before pos x.kind x.content more e at in
    let room : leb (pos + 4) (length ch) ≡ true = ground (arith, size) in
    let other : (x.kind == 0) ≡ false = ground (arith, others.0) in
    rw
      (
        room,
        kind_read ch before pos x.kind x.content more e at,
        length_read ch before pos x.kind x.content more e at,
        other,
      )
      (extension_loop-encode_extensions fuel xs host rest ch
        (front ch before pos x.kind x.content more e at ++ x.content) (pos + 4 + length x.content)
        others.1 ascii (behind ch before pos x.kind x.content more e at)
        (sym (length-behind ch before pos x.kind x.content more e at)) (omega (arith, enough)))
