-- ===== src/Dataplane/Host/Authority.antt =====
-- What a Host header names, and what `strip_host_port` keeps of it.
use v6proxy.Prelude.{
  ℕ, ◌+◌, ◌≤◌, ◌≡◌, refl, false, none, some, [], ◌∷◌, ◌++◌, eq_ℕ, is_empty, arith,
}
use v6proxy.Text.{Text, strip_prefix, count_char, split_once, has_char}
use v6proxy.Dataplane.Host.{strip_host_port}

split_once_before :
    (c : ℕ) (s t : Text) → has_char c s ≡ false → split_once c (s ++ c ∷ t) ≡ some (s, t)
unfolding has_char split_once
split_once_before c [] t h = ground arith
split_once_before c (d ∷ s) t h = ground (arith, split_once_before c s t)

count_char-append : (c : ℕ) (s t : Text) → count_char c (s ++ t) ≡ count_char c s + count_char c t
unfolding count_char
count_char-append c [] t = omega arith
count_char-append c (d ∷ s) t = ground (arith, count_char-append c s t)

count_char_absent : (c : ℕ) (s : Text) → has_char c s ≡ false → count_char c s ≡ 0
unfolding has_char count_char
count_char_absent c [] h = refl
count_char_absent c (d ∷ s) h = ground (arith, count_char_absent c s)

split_once_absent : (c : ℕ) (s : Text) → has_char c s ≡ false → split_once c s ≡ none
unfolding has_char split_once
split_once_absent c [] h = refl
split_once_absent c (d ∷ s) h = ground (arith, split_once_absent c s)

-- What stands in a Host header: a name, a name and a port, an IPv6 literal in brackets and what
-- follows it, or an IPv6 literal without brackets.
pub data Authority : Type 0 where
  named : Text → Authority
  with_port : Text → Text → Authority
  bracketed : Text → Text → Authority
  bare_literal : Text → Authority

unfoldable pub show_authority : Authority → Text
show_authority (named name) = name
show_authority (with_port name port) = name ++ b':' ∷ port
show_authority (bracketed inside behind) = b'[' ∷ inside ++ b']' ∷ behind
show_authority (bare_literal literal) = literal

abbrev pub host_of : Authority → Text
host_of (named name) = name
host_of (with_port name port) = name
host_of (bracketed inside behind) = inside
host_of (bare_literal literal) = literal

abbrev pub IsAuthority : Authority → Type 0
IsAuthority (named name) = (has_char b'[' name ≡ false) × (has_char b':' name ≡ false)
IsAuthority (with_port name port) =
    (has_char b'[' name ≡ false)
    × (has_char b':' name ≡ false)
    × (has_char b':' port ≡ false)
    × (is_empty name ≡ false)
IsAuthority (bracketed inside behind) = has_char b']' inside ≡ false
IsAuthority (bare_literal literal) = (has_char b'[' literal ≡ false) × (2 ≤ count_char b':' literal)

no_bracket : (s : Text) → has_char b'[' s ≡ false → strip_prefix (b'[' ∷ []) s ≡ none
unfolding has_char strip_prefix
no_bracket [] h = refl
no_bracket (c ∷ s) h = ground arith

no_bracket-append :
    (s t : Text)
    → has_char b'[' s ≡ false
    → is_empty s ≡ false
    → strip_prefix (b'[' ∷ []) (s ++ t) ≡ none
unfolding has_char strip_prefix
no_bracket-append [] t h k = ground arith
no_bracket-append (c ∷ s) t h k = ground arith

one_colon :
    (name port : Text)
    → has_char b':' name ≡ false
    → has_char b':' port ≡ false
    → count_char b':' (name ++ b':' ∷ port) ≡ 1
unfolding count_char
one_colon name port h k = omega (
  arith,
  count_char-append b':' name (b':' ∷ port),
  count_char_absent b':' name h,
  count_char_absent b':' port k,
)

-- From each form of authority, what `strip_host_port` keeps is the name or the literal: a port goes,
-- and so do brackets.
pub strip_host_port-show_authority :
    (a : Authority) → IsAuthority a → strip_host_port (show_authority a) ≡ host_of a
unfolding strip_host_port show_authority strip_prefix
strip_host_port-show_authority (named name) h =
    ground (arith, no_bracket name h.0, split_once_absent b':' name h.1)
strip_host_port-show_authority (with_port name port) h = ground (
  arith,
  no_bracket-append name (b':' ∷ port) h.0 h.3,
  split_once_before b':' name port h.1,
  one_colon name port h.1 h.2,
)
strip_host_port-show_authority (bracketed inside behind) h =
    ground (arith, split_once_before b']' inside behind h)
strip_host_port-show_authority (bare_literal literal) h = ground (arith, no_bracket literal h.0)
