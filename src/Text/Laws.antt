-- ===== src/Text/Laws.antt =====
-- Laws of trimming and of ASCII lower case.
use v6proxy.Prelude.{
  ℕ, ◌≡◌, refl, sym, ap, ap₂, ◌∙◌, Bool, true, false, not, ◌++◌, [], ◌∷◌, map, arith, any, is_empty,
  false≢true, eq_ℕ, some, Bool-cases, inl, inr, ◌==◌, ==_refl,
}
use v6proxy.Text.{
  Text, is_whitespace, to_lower, to_ascii_lowercase, trim, trim_start_matches, trim_end_matches,
  keep_end, strip_prefix,
}

module _ (p : ℕ → Bool) where
  -- The first character, if there is one, is not in `p`.
  abbrev pub head_not : Text → Bool
  head_not [] = true
  head_not (c ∷ s) = not (p c)

  pub head_not-trim_start_matches : (s : Text) → head_not (trim_start_matches p s) ≡ true
  unfolding trim_start_matches
  head_not-trim_start_matches [] = refl
  head_not-trim_start_matches (c ∷ s) = ground (arith, head_not-trim_start_matches s)

  pub trim_start_matches_fixed : (s : Text) → head_not s ≡ true → trim_start_matches p s ≡ s
  unfolding trim_start_matches
  trim_start_matches_fixed [] h = refl
  trim_start_matches_fixed (c ∷ s) h = ground arith

  pub head_not-trim_end_matches :
      (q : ℕ → Bool) (s : Text) → head_not s ≡ true → head_not (trim_end_matches q s) ≡ true
  unfolding trim_end_matches
  head_not-trim_end_matches q [] h = refl
  head_not-trim_end_matches q (c ∷ s) h = ground arith

  keep_end_idem :
      (c : ℕ) (s : Text)
      → trim_end_matches p s ≡ s
      → trim_end_matches p (keep_end p c s) ≡ keep_end p c s
  unfolding trim_end_matches
  keep_end_idem c [] h = ground arith
  keep_end_idem c (d ∷ s) h = rw h

  pub trim_end_matches_idem :
      (s : Text) → trim_end_matches p (trim_end_matches p s) ≡ trim_end_matches p s
  unfolding trim_end_matches
  trim_end_matches_idem [] = refl
  trim_end_matches_idem (c ∷ s) = keep_end_idem c (trim_end_matches p s) (trim_end_matches_idem s)

  -- What stands before a trimmed, non-empty text does not matter.
  pub trim_end_matches-append :
      (u v : Text)
      → trim_end_matches p v ≡ v
      → is_empty v ≡ false
      → trim_end_matches p (u ++ v) ≡ u ++ v
  unfolding trim_end_matches
  trim_end_matches-append [] v h n = h
  trim_end_matches-append (c ∷ []) [] h n = absurd (false≢true (sym n))
  trim_end_matches-append (c ∷ []) (d ∷ v) h n = rw h
  trim_end_matches-append (c ∷ b ∷ u) v h n = rw (trim_end_matches-append (b ∷ u) v h n)

  pub trim_end_matches_of_none : (s : Text) → any p s ≡ false → trim_end_matches p s ≡ s
  unfolding trim_end_matches
  trim_end_matches_of_none [] h = refl
  trim_end_matches_of_none (c ∷ []) h = ground arith
  trim_end_matches_of_none (c ∷ d ∷ s) h = rw (trim_end_matches_of_none (d ∷ s) (ground arith))

  pub head_not_of_none : (s : Text) → any p s ≡ false → head_not s ≡ true
  head_not_of_none [] h = refl
  head_not_of_none (c ∷ s) h = ground arith

  module _ (f : ℕ → ℕ) (same : (c : ℕ) → p (f c) ≡ p c) where
    pub trim_start_matches-map :
        (s : Text) → trim_start_matches p (map f s) ≡ map f (trim_start_matches p s)
    unfolding trim_start_matches
    trim_start_matches-map [] = refl
    trim_start_matches-map (c ∷ s) = ground (arith, same c, trim_start_matches-map s)

    keep_end-map : (c : ℕ) (s : Text) → keep_end p (f c) (map f s) ≡ map f (keep_end p c s)
    keep_end-map c [] = ground (arith, same c)
    keep_end-map c (d ∷ s) = refl

    pub trim_end_matches-map :
        (s : Text) → trim_end_matches p (map f s) ≡ map f (trim_end_matches p s)
    unfolding trim_end_matches
    trim_end_matches-map [] = refl
    trim_end_matches-map (c ∷ s) =
        rw (trim_end_matches-map s) (keep_end-map c (trim_end_matches p s))

pub is_whitespace-to_lower : (c : ℕ) → is_whitespace (to_lower c) ≡ is_whitespace c
unfolding is_whitespace to_lower
is_whitespace-to_lower c = ground arith

pub to_lower_idem : (c : ℕ) → to_lower (to_lower c) ≡ to_lower c
unfolding to_lower
to_lower_idem c = ground arith

pub to_ascii_lowercase_idem :
    (s : Text) → to_ascii_lowercase (to_ascii_lowercase s) ≡ to_ascii_lowercase s
unfolding to_ascii_lowercase
to_ascii_lowercase_idem [] = refl
to_ascii_lowercase_idem (c ∷ s) = ap₂ ◌∷◌ (to_lower_idem c) (to_ascii_lowercase_idem s)

pub trim-to_ascii_lowercase : (s : Text) → trim (to_ascii_lowercase s) ≡ to_ascii_lowercase (trim s)
unfolding trim to_ascii_lowercase
trim-to_ascii_lowercase s =
    rw (trim_start_matches-map is_whitespace to_lower is_whitespace-to_lower s) (
      trim_end_matches-map is_whitespace to_lower is_whitespace-to_lower
        (trim_start_matches is_whitespace s))

pub trim_idem : (s : Text) → trim (trim s) ≡ trim s
unfolding trim
trim_idem s =
    rw
      (trim_start_matches_fixed is_whitespace
        (trim_end_matches is_whitespace (trim_start_matches is_whitespace s))
        (head_not-trim_end_matches is_whitespace is_whitespace (trim_start_matches is_whitespace s)
          (head_not-trim_start_matches is_whitespace s)))
      (trim_end_matches_idem is_whitespace (trim_start_matches is_whitespace s))

-- A text with no white space is trimmed.
pub trim_of_none : (s : Text) → any is_whitespace s ≡ false → trim s ≡ s
unfolding trim
trim_of_none s h =
    rw (trim_start_matches_fixed is_whitespace s (head_not_of_none is_whitespace s h))
      (trim_end_matches_of_none is_whitespace s h)

pub trim_end_matches_of_trim : (s : Text) → trim s ≡ s → trim_end_matches is_whitespace s ≡ s
unfolding trim
trim_end_matches_of_trim s h =
    ap (trim_end_matches is_whitespace) (sym h)
    ∙ trim_end_matches_idem is_whitespace (trim_start_matches is_whitespace s)
    ∙ h

-- A text that begins with no white space and ends in a trimmed text is trimmed.
pub trim-append :
    (u v : Text)
    → head_not is_whitespace (u ++ v) ≡ true
    → trim v ≡ v
    → is_empty v ≡ false
    → trim (u ++ v) ≡ u ++ v
unfolding trim
trim-append u v h t n =
    rw (trim_start_matches_fixed is_whitespace (u ++ v) h)
      (trim_end_matches-append is_whitespace u v (trim_end_matches_of_trim v t) n)

-- `strip_prefix` gives what stands behind the prefix.
pub strip_prefix-some : (p s t : Text) → strip_prefix p s ≡ some t → s ≡ p ++ t
unfolding strip_prefix
strip_prefix-some [] s t h = ground (arith, h)
strip_prefix-some (c ∷ p) [] t h = absurd (ground (arith, h))
strip_prefix-some (c ∷ p) (d ∷ s) t h = elim (Bool-cases (c == d)) [
  | inl e ↦ ground (arith, h, strip_prefix-some p s t (ground (arith, h, e)))
  | inr e ↦ absurd (ground (arith, h, e))
]

pub strip_prefix-append : (p t : Text) → strip_prefix p (p ++ t) ≡ some t
unfolding strip_prefix
strip_prefix-append [] t = refl
strip_prefix-append (c ∷ p) t = ground (arith, ==_refl c, strip_prefix-append p t)
