-- ===== src/Dataplane/Host/Lines.antt =====
-- Reading the lines of a request that was written out.
use v6proxy.Prelude.{ℕ, ◌≡◌, refl, ap, ◌∙◌, false, List, [], ◌∷◌, ◌++◌, eq_ℕ, is_empty, arith}
use v6proxy.Text.{Text, split, has_char}
use v6proxy.Dataplane.Host.{newline, carriage_return, strip_cr, lines_of, lines}

split_line :
    (l s : Text)
    → has_char newline l ≡ false
    → split newline (l ++ newline ∷ s) ≡ l ∷ split newline s
unfolding has_char split
split_line [] s h = refl
split_line (d ∷ l) s h = ground (arith, split_line l s)

split_nonempty : (c : ℕ) (s : Text) → is_empty (split c s) ≡ false
unfolding split
split_nonempty c [] = refl
split_nonempty c (d ∷ s) = ground (arith, split_nonempty c s)

lines_of_step :
    (piece : Text) (pieces : List Text)
    → is_empty pieces ≡ false
    → lines_of (piece ∷ pieces) ≡ strip_cr piece ∷ lines_of pieces
unfolding lines_of
lines_of_step piece [] h = ground arith
lines_of_step piece (next ∷ pieces) h = refl

strip_cr-push : (l : Text) → strip_cr (l ++ carriage_return ∷ []) ≡ l
unfolding strip_cr
strip_cr-push [] = refl
strip_cr-push (c ∷ []) = refl
strip_cr-push (c ∷ d ∷ l) = ap (λ (t : Text). c ∷ t) (strip_cr-push (d ∷ l))

-- A line as a client sends it, and what follows.
abbrev pub send_line : Text → Text → Text
send_line l rest = (l ++ carriage_return ∷ []) ++ newline ∷ rest

has_char-push :
    (l : Text) → has_char newline l ≡ false → has_char newline (l ++ carriage_return ∷ []) ≡ false
unfolding has_char
has_char-push [] h = refl
has_char-push (c ∷ l) h = ground (arith, has_char-push l)

-- A line that is sent is the first line that is read.
pub lines-send_line :
    (l rest : Text) → has_char newline l ≡ false → lines (send_line l rest) ≡ l ∷ lines rest
unfolding lines
lines-send_line l rest h =
    ap lines_of (split_line (l ++ carriage_return ∷ []) rest (has_char-push l h))
    ∙ lines_of_step (l ++ carriage_return ∷ []) (split newline rest) (split_nonempty newline rest)
    ∙ ap (λ (t : Text). t ∷ lines_of (split newline rest)) (strip_cr-push l)
