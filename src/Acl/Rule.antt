-- ===== src/Acl/Rule.antt =====
-- The domain rules of src/acl.rs: parsing and canonical form.
pub mod Canonical
use v6proxy.Prelude.{
  ℕ, Bool, true, false, ◌||◌, ◌++◌, Option, none, some, arith, if◌then◌else◌, ◌==◌, eq_ℕ, any,
  is_empty, Result, ok, err, ◌>>=◌,
}
use v6proxy.Text.{
  Text, codes, is_whitespace, to_ascii_lowercase, trim, trim_end_matches, strip_prefix, has_char,
}

pub data Rule : Type 0 where
  full : Text → Rule
  domain : Text → Rule
  keyword : Text → Rule

-- The three refusals, each with the trimmed rule that its message quotes.
pub data RuleError : Type 0 where
  empty_keyword : Text → RuleError
  empty_domain : Text → RuleError
  invalid_domain : Text → RuleError

abbrev pub dot : ℕ
dot = b'.'

abbrev pub is_dot : ℕ → Bool
is_dot c = c == dot

unfoldable pub normalize : Text → Text
normalize s = to_ascii_lowercase (trim_end_matches is_dot (trim s))

-- The prefixes of a rule, as they stand in the source.
abbrev pub keyword_prefix : Text
keyword_prefix = codes "keyword:"

abbrev pub full_prefix : Text
full_prefix = codes "full:"

abbrev pub domain_prefix : Text
domain_prefix = codes "domain:"

-- `v.contains(':') || v.contains('/') || v.contains(char::is_whitespace)`
unfoldable pub has_bad_character : Text → Bool
unfolding has_char
has_bad_character v = has_char b':' v || has_char b'/' v || any is_whitespace v

unfoldable pub parse_keyword : Text → Text → Result RuleError Rule
parse_keyword s raw =
    let v = to_ascii_lowercase (trim raw) in
    if is_empty v then err (empty_keyword s) else ok (keyword v)

unfoldable pub parse_zone : Text → Bool → Text → Result RuleError Rule
parse_zone s is_full raw =
    let v = normalize raw in
    if is_empty v
    then err (empty_domain s)
    else if has_bad_character v
    then err (invalid_domain s)
    else if is_full
    then ok (full v)
    else ok (domain v)

-- The tests on the trimmed rule, in the source's order.
unfoldable pub parse_trimmed : Text → Result RuleError Rule
parse_trimmed s = elim (strip_prefix keyword_prefix s) [
  | some v ↦ parse_keyword s v
  | none ↦ elim (strip_prefix full_prefix s) [
    | some v ↦ parse_zone s true v
    | none ↦ elim (strip_prefix domain_prefix s) [
      | some v ↦ parse_zone s false v
      | none ↦ parse_zone s false s
    ]
  ]
]

unfoldable pub parse_rule : Text → Result RuleError Rule
unfolding parse_trimmed
parse_rule s = parse_trimmed (trim s)

-- `format!("full:{v}")` and the like
unfoldable pub render : Rule → Text
render (full v) = full_prefix ++ v
render (domain v) = domain_prefix ++ v
render (keyword v) = keyword_prefix ++ v

unfoldable pub canonicalize_rule : Text → Result RuleError Text
canonicalize_rule s = do r ← parse_rule s; ok (render r)
