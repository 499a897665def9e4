-- ===== src/Acl/Matcher/Zones.antt =====
-- The suffix loop finds the longest zone that covers the host.
use mathlib.Core.Option
use v6proxy.Prelude.{
  ℕ, zero, suc, ◌+◌, ◌%◌, ◌^◌, ◌≤◌, ◌<◌, max, ◌≡◌, refl, sym, Bool, true, false, ◌||◌, Option, none,
  some, List, [], ◌∷◌, arith, if◌then◌else◌, ◌==◌, eq_ℕ, contains, length, Bool-cases, Option-cases,
  inl, inr,
}
use v6proxy.Text.{Text, eq_text, text_eq, text_eq_iff, count_char, split_once}
use v6proxy.Acl.Rule.{dot}
use v6proxy.Acl.Matcher.{Specificity, labels, zone_walk, insert}

pub ends_with : Text → Text → Bool
ends_with p [] = p == []
ends_with p (c ∷ s) = p == (c ∷ s) || ends_with p s

-- A zone covers itself and what ends in a dot and the zone.
unfoldable pub covers : Text → Text → Bool
unfolding ends_with
covers zone host = host == zone || ends_with (dot ∷ zone) host

unfoldable pub max_labels : ℕ → Option ℕ → Option ℕ
max_labels n none = some n
max_labels n (some m) = some (max n m)

-- The most labels of a listed zone that covers the host.
unfoldable pub longest_zone : List Text → Text → Option ℕ
longest_zone [] host = none
longest_zone (z ∷ zones) host =
    let rest = longest_zone zones host in if covers z host then max_labels (labels z) rest else rest

count_char-ends_with : (p s : Text) → ends_with p s ≡ true → count_char dot p ≤ count_char dot s
unfolding ends_with count_char
count_char-ends_with p [] h = let e : p ≡ [] = (text_eq_iff p []).0 h in rw e (omega arith)
count_char-ends_with p (c ∷ s) h = elim (Bool-cases (p == (c ∷ s))) [
  | inl same ↦ let e : p ≡ c ∷ s = (text_eq_iff p (c ∷ s)).0 same in rw e (omega arith)
  | inr other ↦ ground (arith, count_char-ends_with p s)
]

labels-covers : (z s : Text) → covers z s ≡ true → labels z ≤ labels s
unfolding covers count_char
labels-covers z s h = elim (Bool-cases (s == z)) [
  | inl same ↦ let e : s ≡ z = (text_eq_iff s z).0 same in rw e (omega arith)
  | inr other ↦
      let k : count_char dot (dot ∷ z) ≤ count_char dot s =
        count_char-ends_with (dot ∷ z) s (rw other at h) in
      omega arith
]

longest_zone-le :
    (zones : List Text) (s : Text) (n : ℕ) → longest_zone zones s ≡ some n → n ≤ labels s
unfolding longest_zone max_labels
longest_zone-le [] s n h = ground arith
longest_zone-le (z ∷ zones) s n h = elim (Option-cases (longest_zone zones s)) [
  | inl e ↦ ground (arith, labels-covers z s)
  | inr (m, e) ↦ ground (arith, labels-covers z s, longest_zone-le zones s m e)
]

covers_self : (s : Text) → covers s s ≡ true
unfolding covers
covers_self s = ground (arith, text_eq_iff s s)

longest_zone_of_contains :
    (zones : List Text) (s : Text)
    → contains s zones ≡ true
    → longest_zone zones s ≡ some (labels s)
unfolding longest_zone max_labels
longest_zone_of_contains [] s h = ground arith
longest_zone_of_contains (z ∷ zones) s h = elim (Bool-cases (z == s)) [
  | inl same ↦ elim (Option-cases (longest_zone zones s)) [
    | inl e ↦ ground (arith, covers_self s, text_eq_iff z s)
    | inr (m, e) ↦ ground (arith, covers_self s, text_eq_iff z s, longest_zone-le zones s m e)
  ]
  | inr other ↦ ground (arith, labels-covers z s, longest_zone_of_contains zones s)
]

-- `covers` at what stands behind the first dot
covers_behind : Text → Option (Text × Text) → Bool
covers_behind z none = false
covers_behind z (some parts) = covers z parts.1

covers_behind-map :
    (z : Text) (c : ℕ) (o : Option (Text × Text))
    → covers_behind z (Option.map (λ (t : Text × Text). (c ∷ t.0, t.1)) o) ≡ covers_behind z o
unfolding covers_behind
covers_behind-map z c none = refl
covers_behind-map z c (some parts) = refl

ends_with-dot : (z s : Text) → ends_with (dot ∷ z) s ≡ covers_behind z (split_once dot s)
unfolding ends_with covers covers_behind split_once text_eq
ends_with-dot z [] = refl
ends_with-dot z (c ∷ s) = elim (Bool-cases (c == dot)) [
  | inl e ↦ ground (arith, text_eq_iff z s, text_eq_iff s z)
  | inr e ↦ ground (arith, ends_with-dot z s, covers_behind-map z c (split_once dot s))
]

-- `longest_zone` at what stands behind the first dot
longest_behind : List Text → Option (Text × Text) → Option ℕ
longest_behind zones none = none
longest_behind zones (some parts) = longest_zone zones parts.1

longest_behind-nil : (o : Option (Text × Text)) → longest_behind [] o ≡ none
unfolding longest_behind longest_zone
longest_behind-nil none = refl
longest_behind-nil (some parts) = refl

longest_behind-cons :
    (z : Text) (zones : List Text) (o : Option (Text × Text))
    → longest_behind (z ∷ zones) o ≡ (
        if covers_behind z o
        then max_labels (labels z) (longest_behind zones o)
        else longest_behind zones o)
unfolding longest_behind covers_behind longest_zone
longest_behind-cons z zones none = refl
longest_behind-cons z zones (some parts) = refl

-- Where the host is no listed zone, what stands behind its first dot decides.
longest_zone_step :
    (zones : List Text) (s : Text)
    → contains s zones ≡ false
    → longest_zone zones s ≡ longest_behind zones (split_once dot s)
unfolding longest_zone covers
longest_zone_step [] s h = sym (longest_behind-nil (split_once dot s))
longest_zone_step (z ∷ zones) s h = ground (
  arith,
  longest_behind-cons z zones (split_once dot s),
  longest_zone_step zones s,
  ends_with-dot z s,
  text_eq_iff z s,
  text_eq_iff s z,
)

length-split_once :
    (c : ℕ) (s : Text) (t : Text × Text) → split_once c s ≡ some t → length t.1 < length s
unfolding split_once
length-split_once c [] t h = ground arith
length-split_once c (d ∷ s) t h = elim (Bool-cases (d == c)) [
  | inl e ↦ ground arith
  | inr e ↦ elim (Option-cases (split_once c s)) [
    | inl n ↦ ground arith
    | inr (u, found) ↦ ground (arith, length-split_once c s u found)
  ]
]

abbrev as_zone : ℕ → Specificity
as_zone n = (2, n % 2 ^ 16)

-- With fuel above the host's length the loop returns the longest covering zone.
pub zone_walk-eq-longest_zone :
    (zones : List Text) (fuel : ℕ) (s : Text)
    → length s < fuel
    → zone_walk zones fuel s ≡ Option.map as_zone (longest_zone zones s)
unfolding zone_walk longest_behind
zone_walk-eq-longest_zone zones zero s h = absurd (omega arith)
zone_walk-eq-longest_zone zones (suc fuel) s h = elim (Bool-cases (contains s zones)) [
  | inl found ↦ rw (found, longest_zone_of_contains zones s found)
  | inr missing ↦ elim (Option-cases (split_once dot s)) [
    | inl e ↦ rw (missing, longest_zone_step zones s missing, e)
    | inr (t, e) ↦
        let shorter : length t.1 < length s = length-split_once dot s t e in
        rw (missing, longest_zone_step zones s missing, e)
          (zone_walk-eq-longest_zone zones fuel t.1 (omega arith))
  ]
]

longest_zone_absorbs :
    (z : Text) (zones : List Text) (s : Text)
    → contains z zones ≡ true
    → covers z s ≡ true
    → max_labels (labels z) (longest_zone zones s) ≡ longest_zone zones s
unfolding longest_zone max_labels
longest_zone_absorbs z [] s h c = ground arith
longest_zone_absorbs z (y ∷ zones) s h c = elim (Option-cases (longest_zone zones s)) [
  | inl e ↦ ground (arith, longest_zone_absorbs z zones s, text_eq_iff y z)
  | inr (m, e) ↦ ground (arith, longest_zone_absorbs z zones s, text_eq_iff y z)
]

pub longest_zone-insert :
    (z : Text) (zones : List Text) (s : Text)
    → longest_zone (insert z zones) s
      ≡ (if covers z s then max_labels (labels z) (longest_zone zones s) else longest_zone zones s)
unfolding insert longest_zone
longest_zone-insert z zones s = ground (arith, longest_zone_absorbs z zones s)

-- A covering zone has no more labels than the host has characters and one.
count_char-le-length : (c : ℕ) (s : Text) → count_char c s ≤ length s
unfolding count_char
count_char-le-length c [] = omega arith
count_char-le-length c (d ∷ s) = ground (arith, count_char-le-length c s)

pub covers-labels-le : (z s : Text) → covers z s ≡ true → labels z ≤ length s + 1
covers-labels-le z s h = omega (arith, labels-covers z s h, count_char-le-length dot s)

pub longest_zone-labels-le :
    (zones : List Text) (s : Text) (n : ℕ) → longest_zone zones s ≡ some n → n ≤ length s + 1
longest_zone-labels-le zones s n h =
    omega (arith, longest_zone-le zones s n h, count_char-le-length dot s)
