-- ===== src/Dataplane/Host/Laws.antt =====
-- Reading the Host header of a request that was written out.
use v6proxy.Prelude.{
  ℕ, ◌<◌, ◌≡◌, refl, ap, ◌∙◌, Bool, false, not, ◌||◌, ◌==◌, none, some, List, [], ◌∷◌, ◌++◌, eq_ℕ,
  is_empty, All, any, arith,
}
use v6proxy.Text.{
  Text, codes, is_whitespace, trim, trim_start_matches, trim_end_matches, strip_prefix, has_char,
}
use v6proxy.Text.Laws.{trim_of_none}
use v6proxy.Text.Utf8.{from_utf8_ascii}
use v6proxy.Dataplane.Host.{
  newline, lines, strip_host_port, strip_host_name, host_loop, extract_http_host,
}
use v6proxy.Dataplane.Host.Lines.{send_line, lines-send_line}
use v6proxy.Dataplane.Host.Authority.{
  Authority, show_authority, host_of, IsAuthority, strip_host_port-show_authority,
}

-- A header line that is not the Host header.
abbrev pub IsOther : Text → Type 0
IsOther l = (has_char newline l ≡ false) × (is_empty l ≡ false) × (strip_host_name l ≡ none)

unfoldable pub send_lines : List Text → Text → Text
send_lines [] rest = rest
send_lines (l ∷ ls) rest = send_line l (send_lines ls rest)

-- The two spellings of the header's name that are read.
pub data Spelling : Type 0 where
  capitalised small : Spelling

abbrev name_of : Spelling → Text
name_of capitalised = codes "Host:"
name_of small = codes "host:"

abbrev is_blank : ℕ → Bool
is_blank c = c == b' ' || c == 9

-- A Host header: its name, spaces and tabs, and the authority.
pub record HostLine : Type 0 where
  pub spelling : Spelling
  pub pad : Text
  pub authority : Authority

unfoldable pub show_host_line : HostLine → Text
show_host_line l = name_of l.spelling ++ (l.pad ++ show_authority l.authority)

pub record IsHostLine (l : HostLine) : Type 0 where
  pub blank : any (λ c. not (is_blank c)) l.pad ≡ false
  pub clean : any is_whitespace (show_authority l.authority) ≡ false
  pub spelled : IsAuthority l.authority

-- An HTTP request with its Host header behind other headers; `body` is whatever comes after.
unfoldable pub request : Text → List Text → HostLine → Text → Text
request first others l body =
    send_line first (send_lines others (send_line (show_host_line l) body))

host_loop-others :
    (others : List Text) (rest : Text)
    → All IsOther others
    → host_loop (lines (send_lines others rest)) ≡ host_loop (lines rest)
unfolding host_loop send_lines
host_loop-others [] rest h = refl
host_loop-others (l ∷ ls) rest h =
    ap host_loop (lines-send_line l (send_lines ls rest) h.0.0)
    ∙ ground (arith, h.0.1, h.0.2, host_loop-others ls rest h.1)

has_char-append : (c : ℕ) (s t : Text) → has_char c (s ++ t) ≡ has_char c s || has_char c t
unfolding has_char
has_char-append c [] t = refl
has_char-append c (d ∷ s) t = ground (arith, has_char-append c s t)

newline_free : (s : Text) → any is_whitespace s ≡ false → has_char newline s ≡ false
unfolding has_char is_whitespace
newline_free [] h = refl
newline_free (c ∷ s) h = ground (arith, newline_free s)

newline_free-pad :
    (pad s : Text)
    → any (λ c. not (is_blank c)) pad ≡ false
    → has_char newline s ≡ false
    → has_char newline (pad ++ s) ≡ false
unfolding has_char
newline_free-pad [] s h k = k
newline_free-pad (c ∷ pad) s h k = ground (arith, newline_free-pad pad s)

trim_start_matches-pad :
    (pad s : Text)
    → any (λ c. not (is_blank c)) pad ≡ false
    → trim_start_matches is_whitespace (pad ++ s) ≡ trim_start_matches is_whitespace s
unfolding trim_start_matches is_whitespace
trim_start_matches-pad [] s h = refl
trim_start_matches-pad (c ∷ pad) s h = ground (arith, trim_start_matches-pad pad s)

trim-pad :
    (pad s : Text)
    → any (λ c. not (is_blank c)) pad ≡ false
    → any is_whitespace s ≡ false
    → trim (pad ++ s) ≡ s
unfolding trim
trim-pad pad s h clean =
    ap (trim_end_matches is_whitespace) (trim_start_matches-pad pad s h) ∙ trim_of_none s clean

newline_free-name :
    (n : Spelling) (s : Text)
    → has_char newline s ≡ false
    → has_char newline (name_of n ++ s) ≡ false
unfolding has_char
newline_free-name capitalised s h = h
newline_free-name small s h = h

host_loop-name :
    (n : Spelling) (value : Text) (rest : List Text)
    → host_loop ((name_of n ++ value) ∷ rest) ≡ some (strip_host_port (trim value))
unfolding host_loop strip_host_name strip_prefix
host_loop-name capitalised value rest = refl
host_loop-name small value rest = refl

host_line :
    (l : HostLine) (rest : Text)
    → IsHostLine l
    → host_loop (lines (send_line (show_host_line l) rest)) ≡ some (host_of l.authority)
unfolding show_host_line
host_line l rest h =
    let a = show_authority l.authority in
    let one_line =
      newline_free-name l.spelling (l.pad ++ a)
        (newline_free-pad l.pad a h.blank (newline_free a h.clean)) in
    ap host_loop (lines-send_line (show_host_line l) rest one_line)
    ∙ host_loop-name l.spelling (l.pad ++ a) (lines rest)
    ∙ ap (λ (t : Text). some (strip_host_port t)) (trim-pad l.pad a h.blank h.clean)
    ∙ ap some (strip_host_port-show_authority l.authority h.spelled)

-- In an ASCII request whose first line holds no newline, whose headers before the Host header are
-- not blank, hold no newline and are not spelled `Host:` or `host:`, and whose Host header is
-- spelled in one of these two ways, with spaces or tabs and then an authority without white space
-- (a name without `[` and colons; such a name that is not empty, a colon and a port without colons;
-- a literal in brackets without `]` and what follows it; or a literal of two or more colons that
-- holds no `[`), the host is found, without its port or brackets, whatever follows.
pub extract_http_host-request :
    (first : Text) (others : List Text) (l : HostLine) (body : Text)
    → All (λ b. b < 0x80) (request first others l body)
    → has_char newline first ≡ false
    → All IsOther others
    → IsHostLine l
    → extract_http_host (request first others l body) ≡ some (host_of l.authority)
unfolding extract_http_host request
extract_http_host-request first others l body ascii one_line headers h =
    let behind = send_line (show_host_line l) body in
    rw
      (
        extract_http_host,
        from_utf8_ascii (request first others l body) ascii,
        lines-send_line first (send_lines others behind) one_line,
      )
      (host_loop-others others behind headers ∙ host_line l body h)
