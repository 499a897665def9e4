-- ===== src/Prelude/Entries.antt =====
-- What holds of every entry of a map.
use mathlib.Core.Path.{◌≡◌, subst}
use mathlib.Core.Option.{some}
use mathlib.Core.Bool.{Bool}
use mathlib.Core.Logic.{inl, inr}
use mathlib.Core.List.{List, [], ◌∷◌}
use native.Mathlib.Omega.{arith}
use v6proxy.Prelude.Tests.{Eq, ◌==◌, Bool-cases}
use v6proxy.Prelude.Lists.{All, retain}
use v6proxy.Prelude.Map.{Map, get, insert, remove}

module _ {ℓ κ} {A : Type ℓ} (P : A → Type κ) where
  pub All-retain : (p : A → Bool) (xs : List A) → All P xs → All P (retain p xs)
  All-retain p [] h = tt
  All-retain p (x ∷ xs) h = elim (Bool-cases (p x)) [
    | inl e ↦ rw e (h.0, All-retain p xs h.1)
    | inr e ↦ rw e (All-retain p xs h.1)
  ]

  pub All-map {μ} : (Q : A → Type μ) (xs : List A) → ((a : A) → P a → Q a) → All P xs → All Q xs
  All-map Q [] f h = tt
  All-map Q (x ∷ xs) f h = (f x h.0, All-map Q xs f h.1)

module _ {ℓ κ μ} {K : Type ℓ} {V : Type κ} ⦃e : Eq K⦄ (P : K × V → Type μ) where
  pub All-insert : (m : Map K V) (k : K) (v : V) → All P m → P (k, v) → All P (insert m k v)
  unfolding insert
  All-insert [] k v h new = (new, tt)
  All-insert ((j, w) ∷ m) k v h new = elim (Bool-cases (j == k)) [
    | inl same ↦ rw same (new, h.1)
    | inr other ↦ rw other (h.0, All-insert m k v h.1 new)
  ]

  pub All-remove : (m : Map K V) (k : K) → All P m → All P (remove m k)
  unfolding remove
  All-remove [] k h = tt
  All-remove ((j, w) ∷ m) k h = elim (Bool-cases (j == k)) [
    | inl same ↦ rw same (All-remove m k h.1)
    | inr other ↦ rw other (h.0, All-remove m k h.1)
  ]

  pub All-get : (m : Map K V) (k : K) (v : V) → All P m → get m k ≡ some v → P (k, v)
  unfolding get
  All-get [] k v h found = absurd (ground (arith, found))
  All-get ((j, w) ∷ m) k v h found = elim (Bool-cases (j == k)) [
    | inl same ↦
        let key : j ≡ k = (e.beq_iff j k).0 same in
        let value : w ≡ v = ground (arith, found, same) in
        subst (λ t. P (k, t)) value (subst (λ t. P (t, w)) key h.0)
    | inr other ↦ All-get m k v h.1 (ground (arith, found, other))
  ]
