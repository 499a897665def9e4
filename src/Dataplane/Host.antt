-- ===== src/Dataplane/Host.antt =====
-- The HTTP Host parser of src/dataplane/sni.rs.
pub mod Lines
pub mod Authority
pub mod Laws
use v6proxy.Prelude.{
  ℕ, Bool, Option, none, some, List, [], ◌∷◌, if◌then◌else◌, ◌==◌, eq_ℕ, is_empty, drop,
}
use v6proxy.Text.{Text, codes, trim, strip_prefix, count_char, split_once, split}
use v6proxy.Text.Utf8.{from_utf8}
use v6proxy.Dataplane.Bytes.{Bytes}

abbrev pub newline : ℕ
newline = 10

abbrev pub carriage_return : ℕ
carriage_return = 13

-- `strip_suffix('\r')`, or the line as it is
unfoldable pub strip_cr : Text → Text
strip_cr [] = []
strip_cr (c ∷ []) = if c == carriage_return then [] else c ∷ []
strip_cr (c ∷ d ∷ s) = c ∷ strip_cr (d ∷ s)

-- `str::lines` from the pieces between newlines: what follows the last newline is a line only if it
-- is not empty, and keeps its carriage return.
unfoldable pub lines_of : List Text → List Text
lines_of [] = []
lines_of (last ∷ []) = if is_empty last then [] else last ∷ []
lines_of (piece ∷ next ∷ pieces) = strip_cr piece ∷ lines_of (next ∷ pieces)

unfoldable pub lines : Text → List Text
lines s = lines_of (split newline s)

unfoldable pub strip_host_port : Text → Text
strip_host_port host = elim (strip_prefix (codes "[") host) [
  | some rest ↦ elim (split_once b']' rest) [ some (inside, behind) ↦ inside | none ↦ host ]
  -- With exactly one colon, the last colon is the first.
  | none ↦ elim (split_once b':' host) [
    | some (name, port) ↦ if count_char b':' host == 1 then name else host
    | none ↦ host
  ]
]

-- `strip_prefix("Host:").or_else(|| strip_prefix("host:"))`
unfoldable pub strip_host_name : Text → Option Text
strip_host_name line = elim (strip_prefix (codes "Host:") line) [
  | some value ↦ some value
  | none ↦ strip_prefix (codes "host:") line
]

-- The loop over the lines behind the request line.
unfoldable pub host_loop : List Text → Option Text
host_loop [] = none
host_loop (line ∷ rest) =
    let further = host_loop rest in
    let here = elim (strip_host_name line) as (λ o. Option Text) [
      | some value ↦ some (strip_host_port (trim value))
      | none ↦ further
    ] in
    if is_empty line then none else here

unfoldable pub extract_http_host : Bytes → Option Text
extract_http_host packet = elim (from_utf8 packet) [
  | none ↦ none
  | some text ↦ host_loop (drop 1 (lines text))
]
