-- ===== src/Dataplane/Bytes/At.antt =====
-- Reads at a place behind bytes that are known.
use v6proxy.Prelude.{
  ℕ, ◌+◌, ◌≡◌, refl, ap, ◌∙◌, [], ◌∷◌, ◌++◌, length, get_or, take, drop, take-append, length-append,
  arith,
}
use v6proxy.Dataplane.Bytes.{Bytes, found, index, slice, index_in_range, slice_in_range}

drop-append : (xs ys : Bytes) → drop (length xs) (xs ++ ys) ≡ ys
drop-append [] ys = refl
drop-append (x ∷ xs) ys = drop-append xs ys

take_whole : (xs : Bytes) → take (length xs) xs ≡ xs
take_whole [] = refl
take_whole (x ∷ xs) = ap (λ t. x ∷ t) (take_whole xs)

get_or-append : (xs : Bytes) (y : ℕ) (ys : Bytes) → get_or (xs ++ y ∷ ys) (length xs) 0 ≡ y
get_or-append [] y ys = refl
get_or-append (x ∷ xs) y ys = get_or-append xs y ys

module _ (payload before : Bytes) (pos : ℕ) where
  pub index_at :
      (b : ℕ) (rest : Bytes)
      → payload ≡ before ++ b ∷ rest
      → pos ≡ length before
      → index payload pos ≡ found b
  index_at b rest e at =
      rw (e, at)
        (index_in_range (before ++ b ∷ rest) (length before)
            (omega (arith, length-append {0} before (b ∷ rest)))
          ∙ ap found (get_or-append before b rest))

  pub slice_rest :
      (rest : Bytes)
      → payload ≡ before ++ rest
      → pos ≡ length before
      → slice payload pos (length payload) ≡ found rest
  slice_rest rest e at =
      let size : length (before ++ rest) ≡ length before + length rest =
        length-append before rest in
      rw (e, at)
        (slice_in_range (before ++ rest) (length before) (length (before ++ rest)) (omega arith)
            (omega arith)
          ∙ ap found (
              ap (λ (t : ℕ). take t (drop (length before) (before ++ rest))) {y = length rest}
                (omega arith)
              ∙ ap (take (length rest)) (drop-append before rest)
              ∙ take_whole rest))

  pub slice_part :
      (part rest : Bytes) (end : ℕ)
      → payload ≡ before ++ (part ++ rest)
      → pos ≡ length before
      → end ≡ pos + length part
      → slice payload pos end ≡ found part
  slice_part part rest end e at at' =
      let size : length (before ++ (part ++ rest)) ≡ length before + (length part + length rest) =
        omega (arith, length-append {0} before (part ++ rest), length-append {0} part rest) in
      rw (at', at, e)
        (slice_in_range (before ++ (part ++ rest)) (length before) (length before + length part)
            (omega arith) (omega arith)
          ∙ ap found (
              ap (λ (t : ℕ). take t (drop (length before) (before ++ (part ++ rest))))
                {y = length part} (omega arith)
              ∙ ap (take (length part)) (drop-append before (part ++ rest))
              ∙ take-append part rest))
