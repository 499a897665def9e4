-- ===== src/Acl/Rule/Canonical.antt =====
-- The canonical form of a rule parses back to the rule, so it is a fixed point.
use v6proxy.Prelude.{
  ℕ, ◌≡◌, refl, sym, ap, ◌∙◌, Bool, true, false, ◌++◌, arith, if◌then◌else◌, any, is_empty, inl,
  inr, eq_ℕ, ok, Option-cases, Result-cases,
}
use v6proxy.Text.{
  Text, is_whitespace, to_lower, to_ascii_lowercase, trim, trim_end_matches, strip_prefix,
}
use v6proxy.Text.Laws.{
  trim_end_matches_idem, trim_end_matches-map, to_ascii_lowercase_idem, trim-to_ascii_lowercase,
  trim_idem, trim_of_none, trim-append,
}
use v6proxy.Acl.Rule.{
  Rule, full, domain, keyword, is_dot, normalize, has_bad_character, parse_keyword, parse_zone,
  parse_trimmed, parse_rule, render, canonicalize_rule, keyword_prefix, full_prefix, domain_prefix,
}

-- What a parsed rule's value satisfies.
record IsZoneName (v : Text) : Type 0 where
  normal : normalize v ≡ v
  nonempty : is_empty v ≡ false
  clean : has_bad_character v ≡ false

record IsKeyword (v : Text) : Type 0 where
  trimmed : trim v ≡ v
  lower : to_ascii_lowercase v ≡ v
  nonempty : is_empty v ≡ false

abbrev IsCanonical : Rule → Type 0
IsCanonical (full v) = IsZoneName v
IsCanonical (domain v) = IsZoneName v
IsCanonical (keyword v) = IsKeyword v

no_whitespace : (v : Text) → has_bad_character v ≡ false → any is_whitespace v ≡ false
unfolding has_bad_character
no_whitespace v h = ground arith

is_dot-to_lower : (c : ℕ) → is_dot (to_lower c) ≡ is_dot c
unfolding to_lower
is_dot-to_lower c = ground arith

normalize_idem :
    (s : Text) → any is_whitespace (normalize s) ≡ false → normalize (normalize s) ≡ normalize s
unfolding normalize to_ascii_lowercase
normalize_idem s h =
    let dots : trim_end_matches is_dot (normalize s) ≡ normalize s =
      trim_end_matches-map is_dot to_lower is_dot-to_lower (trim_end_matches is_dot (trim s))
      ∙ ap to_ascii_lowercase (trim_end_matches_idem is_dot (trim s)) in
    ap (λ t. to_ascii_lowercase (trim_end_matches is_dot t)) (trim_of_none (normalize s) h)
    ∙ ap to_ascii_lowercase dots
    ∙ to_ascii_lowercase_idem (trim_end_matches is_dot (trim s))

parse_keyword-IsCanonical : (s raw : Text) (r : Rule) → parse_keyword s raw ≡ ok r → IsCanonical r
unfolding parse_keyword
parse_keyword-IsCanonical s raw (keyword v) h =
    let same : to_ascii_lowercase (trim raw) ≡ v = ground arith in
    record {
      trimmed =
          ap trim (sym same)
          ∙ trim-to_ascii_lowercase (trim raw)
          ∙ ap to_ascii_lowercase (trim_idem raw)
          ∙ same;
      lower = ap to_ascii_lowercase (sym same) ∙ to_ascii_lowercase_idem (trim raw) ∙ same;
      nonempty = ground arith;
    }
parse_keyword-IsCanonical s raw r h = ground arith

IsZoneName-normalize :
    (raw v : Text)
    → is_empty (normalize raw) ≡ false
    → has_bad_character (normalize raw) ≡ false
    → normalize raw ≡ v
    → IsZoneName v
IsZoneName-normalize raw v n c e = rw (← e) (record {
  normal = normalize_idem raw (no_whitespace (normalize raw) c);
  nonempty = n;
  clean = c;
})

parse_zone-IsCanonical :
    (s : Text) (is_full : Bool) (raw : Text) (r : Rule)
    → parse_zone s is_full raw ≡ ok r
    → IsCanonical r
unfolding parse_zone
parse_zone-IsCanonical s is_full raw (full v) h =
    IsZoneName-normalize raw v (ground arith) (ground arith) (ground arith)
parse_zone-IsCanonical s is_full raw (domain v) h =
    IsZoneName-normalize raw v (ground arith) (ground arith) (ground arith)
parse_zone-IsCanonical s is_full raw (keyword v) h = absurd (ground arith)

parse_trimmed-IsCanonical : (s : Text) (r : Rule) → parse_trimmed s ≡ ok r → IsCanonical r
unfolding parse_trimmed strip_prefix
parse_trimmed-IsCanonical s r h = elim (Option-cases (strip_prefix keyword_prefix s)) [
  | inr (v, e) ↦ parse_keyword-IsCanonical s v r (rw (e, parse_trimmed) at h)
  | inl e ↦ elim (Option-cases (strip_prefix full_prefix s)) [
    | inr (v, e') ↦ parse_zone-IsCanonical s true v r (rw (e, e', parse_trimmed) at h)
    | inl e' ↦ elim (Option-cases (strip_prefix domain_prefix s)) [
      | inr (v, e'') ↦ parse_zone-IsCanonical s false v r (rw (e, e', e'', parse_trimmed) at h)
      | inl e'' ↦ parse_zone-IsCanonical s false s r (rw (e, e', e'', parse_trimmed) at h)
    ]
  ]
]

parse_zone_of_IsZoneName :
    (s : Text) (is_full : Bool) (v : Text)
    → IsZoneName v
    → parse_zone s is_full v ≡ ok (if is_full then full v else domain v)
unfolding parse_zone
parse_zone_of_IsZoneName s is_full v h = rw h.normal (ground (arith, h.nonempty, h.clean))

parse_keyword_of_IsKeyword : (s v : Text) → IsKeyword v → parse_keyword s v ≡ ok (keyword v)
unfolding parse_keyword
parse_keyword_of_IsKeyword s v h = rw (h.trimmed, h.lower) (ground (arith, h.nonempty))

-- the canonical form has no white space around it
trim-render : (r : Rule) → IsCanonical r → trim (render r) ≡ render r
unfolding render is_whitespace
trim-render (full v) h =
    trim-append full_prefix v refl (trim_of_none v (no_whitespace v h.clean)) h.nonempty
trim-render (domain v) h =
    trim-append domain_prefix v refl (trim_of_none v (no_whitespace v h.clean)) h.nonempty
trim-render (keyword v) h = trim-append keyword_prefix v refl h.trimmed h.nonempty

parse_rule-render_of_IsCanonical : (r : Rule) → IsCanonical r → parse_rule (render r) ≡ ok r
unfolding parse_rule render strip_prefix
parse_rule-render_of_IsCanonical (full v) h =
    rw (trim-render (full v) h) (parse_zone_of_IsZoneName (full_prefix ++ v) true v h)
parse_rule-render_of_IsCanonical (domain v) h =
    rw (trim-render (domain v) h) (parse_zone_of_IsZoneName (domain_prefix ++ v) false v h)
parse_rule-render_of_IsCanonical (keyword v) h =
    rw (trim-render (keyword v) h) (parse_keyword_of_IsKeyword (keyword_prefix ++ v) v h)

-- Whatever text a rule was parsed from, its canonical form parses to the same rule.
pub parse_rule-render : (s : Text) (r : Rule) → parse_rule s ≡ ok r → parse_rule (render r) ≡ ok r
unfolding parse_rule
parse_rule-render s r h =
    parse_rule-render_of_IsCanonical r (parse_trimmed-IsCanonical (trim s) r h)

-- Canonicalising what `canonicalize_rule` returned changes nothing, and the result still parses to
-- the rule that was written.
pub canonicalize_rule_idem :
    (s c : Text)
    → canonicalize_rule s ≡ ok c
    → (canonicalize_rule c ≡ ok c) × (parse_rule c ≡ parse_rule s)
unfolding canonicalize_rule
canonicalize_rule_idem s c h = elim (Result-cases (parse_rule s)) [
  | inl (e, failed) ↦ ground arith
  | inr (r, parsed) ↦ ground (arith, parse_rule-render s r)
]
